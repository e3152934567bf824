-- ===== src/FilePath.antt =====
-- `Path` of include/utils/path.h: a path name cut into its components.
pub mod Parse
use naive_fs.Base.{
  ℕ, zero, suc, ◌+◌, Bool, true, false, ◌&&◌, not, ◌==◌, if◌then◌else◌, List, [], ◌∷◌, ◌++◌, length,
  take,
}

-- SEPARATOR; a C string is the list of its bytes before the terminating 0.
abbrev pub separator : ℕ → Bool
separator c = c == b'/'

-- A component is `std::make_pair(path_ + name_off, name_len)`: its bytes. `name_list_` is in order.
pub record FilePath : Type 0 where
  pub valid : Bool
  pub name_list : List (List ℕ)

-- The inner `while`: the bytes up to the next separator or the end, and the bytes from there on.
unfoldable pub scan_name : List ℕ → List ℕ × List ℕ
scan_name [] = ([], [])
scan_name (c ∷ cs) =
    let (name, rest) = scan_name cs in if separator c then ([], c ∷ cs) else (c ∷ name, rest)

-- `if (SEPARATOR(*ptr)) ptr++`
unfoldable pub skip_separator : List ℕ → List ℕ
skip_separator [] = []
skip_separator (c ∷ cs) = if separator c then cs else c ∷ cs

abbrev pub is_empty : List ℕ → Bool
is_empty [] = true
is_empty (c ∷ cs) = false

-- The outer `while`, on fuel: every round takes at least one byte, so a round for each byte is
-- enough. The results are `valid_` and the components that the rounds push.
unfoldable pub scan : ℕ → List ℕ → Bool → FilePath
scan zero ptr valid = record { valid = valid; name_list = [] }
scan (suc fuel) ptr valid =
    let (name, rest) = scan_name (skip_separator ptr) in
    let next = scan fuel rest (valid && not (is_empty name)) in
    if is_empty ptr
    then record { valid = valid; name_list = [] }
    else if is_empty (skip_separator ptr)
    then record { valid = valid; name_list = [] }
    else record next { name_list = name ∷ next.name_list }

-- `Path(const char*)`; an empty string is an assertion failure in the source, and invalid here
unfoldable pub parse : List ℕ → FilePath
unfolding scan scan_name skip_separator
parse [] = record { valid = false; name_list = [] }
parse (c ∷ cs) =
    if separator c
    then scan (length (c ∷ cs)) (c ∷ cs) true
    else record { valid = false; name_list = [] }

-- `Path(const Path&, size_t)`
unfoldable pub prefix : FilePath → ℕ → FilePath
prefix p slice = record { valid = p.valid; name_list = take slice p.name_list }

-- `empty`
unfoldable pub empty : FilePath → Bool
empty p = elim p.name_list [ [] ↦ true | _ ∷ _ ↦ false ]

-- `back`, with the empty name for the root
unfoldable pub back : List (List ℕ) → List ℕ
back [] = []
back (n ∷ []) = n
back (n ∷ m ∷ l) = back (m ∷ l)
