-- ===== src/DentryBlock/Append.antt =====
-- A directory block after one more entry, and the lookup of names in it.
use naive_fs.Base.{
  ℕ, zero, suc, ◌+◌, ◌-◌, ◌/◌, ◌^◌, ◌≤◌, ◌<◌, ◌≡◌, ◌≢◌, refl, sym, ap, ◌∙◌, true, false, ltb, leb,
  Bool-cases, inl, inr, arith, none, some, List, [], ◌∷◌, ◌++◌, length, length-append, get_or, take,
  dec_lt,
}
use mathlib.Core.Path.{fun_ext}
use mathlib.Core.List.{append-nil, append_assoc}
use naive_fs.Config.{block_size}
use naive_fs.DentryBlock.{
  Dentry, dentry_bytes, dentry_block, store_bytes, encode, alloc_dentry, same_bytes, lookup,
}
use naive_fs.DentryBlock.Encoding.{
  IsDentry, AreDentries, encode_all, block_of, get_or-append, dentry_block-block_of,
}

-- The entry that `alloc_dentry` makes.
abbrev pub new_dentry : List ℕ → ℕ → ℕ → Dentry
new_dentry name inode mode = record {
  inode = inode;
  name_len = length name;
  file_type = mode / 2 ^ 12;
  body = name;
}

pub encode_all-snoc :
    (ds : List Dentry) (d : Dentry) → encode_all (ds ++ (d ∷ [])) ≡ encode_all ds ++ encode d
encode_all-snoc [] d = append-nil (encode d)
encode_all-snoc (e ∷ ds) d =
    ap (λ l. encode e ++ l) (encode_all-snoc ds d)
    ∙ sym (append_assoc (encode e) (encode_all ds) (encode d))

get_or-append_left :
    (xs ys : List ℕ) (j : ℕ) → j < length xs → get_or (xs ++ ys) j 0 ≡ get_or xs j 0
get_or-append_left [] ys j h = absurd (omega arith)
get_or-append_left (x ∷ xs) ys zero h = refl
get_or-append_left (x ∷ xs) ys (suc j) h = get_or-append_left xs ys j (omega arith)

get_or_past : (xs : List ℕ) (j : ℕ) → length xs ≤ j → get_or xs j 0 ≡ 0
get_or_past [] j h = refl
get_or_past (x ∷ xs) zero h = absurd (omega arith)
get_or_past (x ∷ xs) (suc j) h = get_or_past xs j (omega arith)

store_bytes-append :
    (xs ys : List ℕ) (j : ℕ)
    → store_bytes (λ i. get_or xs i 0) (length xs) ys j ≡ get_or (xs ++ ys) j 0
store_bytes-append xs ys j = elim (dec_lt j (length xs)) [
  | yes low ↦
      let t : leb (length xs) j ≡ false = ground arith in
      rw t (sym (get_or-append_left xs ys j low))
  | no high ↦
      let t : leb (length xs) j ≡ true = ground arith in
      let there =
        ap (λ i. get_or (xs ++ ys) i 0) (let e : j ≡ length xs + (j - length xs) = omega arith in e)
        ∙ get_or-append xs ys (j - length xs) in
      elim (dec_lt j (length xs + length ys)) [
        | yes within ↦
            let u : ltb j (length xs + length ys) ≡ true = ground arith in rw (t, u) (sym there)
        | no past ↦
            let u : ltb j (length xs + length ys) ≡ false = ground arith in
            rw (t, u)
              (get_or_past xs j (omega arith)
                ∙ sym (there ∙ get_or_past ys (j - length xs) (omega arith)))
      ]
]

-- The bytes after `alloc_dentry` are those of the entries with the new one.
pub alloc_dentry-block_of :
    (ds : List Dentry) (name : List ℕ) (inode mode : ℕ)
    → alloc_dentry (block_of ds) (length (encode_all ds)) name inode mode
      ≡ block_of (ds ++ (new_dentry name inode mode ∷ []))
unfolding alloc_dentry
alloc_dentry-block_of ds name inode mode = fun_ext λ j.
    store_bytes-append (encode_all ds) (encode (new_dentry name inode mode)) j
    ∙ ap (λ l. get_or l j 0) (sym (encode_all-snoc ds (new_dentry name inode mode)))

pub AreDentries-snoc :
    (ds : List Dentry) (d : Dentry) → AreDentries ds → IsDentry d → AreDentries (ds ++ (d ∷ []))
AreDentries-snoc [] d v w = (w, tt)
AreDentries-snoc (e ∷ ds) d v w = (v.0, AreDentries-snoc ds d v.1 w)

take-length : (xs : List ℕ) → take (length xs) xs ≡ xs
take-length [] = refl
take-length (x ∷ xs) = ap (λ l. x ∷ l) (take-length xs)

pub same_bytes_refl : (xs : List ℕ) → same_bytes xs xs ≡ true
same_bytes_refl [] = refl
same_bytes_refl (x ∷ xs) = ground (arith, same_bytes_refl xs)

pub same_bytes_eq : (xs ys : List ℕ) → same_bytes xs ys ≡ true → xs ≡ ys
same_bytes_eq [] [] h = refl
same_bytes_eq [] (y ∷ ys) h = cc
same_bytes_eq (x ∷ xs) [] h = cc
same_bytes_eq (x ∷ xs) (y ∷ ys) h =
    let e : x ≡ y = ground arith in
    let rest = same_bytes_eq xs ys (ground arith) in ap (λ z. z ∷ xs) e ∙ ap (λ l. y ∷ l) rest

pub lookup-snoc_self :
    (ds : List Dentry) (name : List ℕ) (inode mode : ℕ)
    → lookup ds name ≡ none
    → lookup (ds ++ (new_dentry name inode mode ∷ [])) name ≡ some inode
unfolding lookup
lookup-snoc_self [] name inode mode h =
    let e : same_bytes (take (length name) name) name ≡ true =
      ap (λ l. same_bytes l name) (take-length name) ∙ same_bytes_refl name in
    ground (arith, e)
lookup-snoc_self (d ∷ ds) name inode mode h = ground (arith, lookup-snoc_self ds name inode mode)

pub lookup-snoc_ne :
    (ds : List Dentry) (name other : List ℕ) (inode mode : ℕ)
    → name ≢ other
    → lookup (ds ++ (new_dentry name inode mode ∷ [])) other ≡ lookup ds other
unfolding lookup
lookup-snoc_ne [] name other inode mode ne =
    elim (Bool-cases (same_bytes (take (length name) name) other)) [
      | inl e ↦ absurd (ne (sym (take-length name) ∙ same_bytes_eq _ other e))
      | inr e ↦ ground (arith, e)
    ]
lookup-snoc_ne (d ∷ ds) name other inode mode ne =
    ground (arith, lookup-snoc_ne ds name other inode mode ne)

-- `alloc_dentry` at the end of a block with room for the entry: the block then reads as the entries
-- that it had with the new one after them. If the name was not there, its lookup gives the new inode;
-- the lookup of every other name is as before.
pub dentry_block-alloc_dentry :
    (ds : List Dentry) (name : List ℕ) (inode mode : ℕ)
    → AreDentries ds
    → inode < 2 ^ 32
    → mode < 2 ^ 16
    → length name < 2 ^ 8
    → length (encode_all ds) + dentry_bytes + length name ≤ block_size
    → let (entries, size) = dentry_block (block_of ds) in
      let (after, end) = dentry_block (alloc_dentry (block_of ds) size name inode mode) in
      (after ≡ entries ++ (new_dentry name inode mode ∷ []))
      × (end ≡ size + dentry_bytes + length name)
      × (lookup entries name ≡ none → lookup after name ≡ some inode)
      × ((other : List ℕ) → name ≢ other → lookup after other ≡ lookup entries other)
dentry_block-alloc_dentry ds name inode mode v i m n room =
    let d = new_dentry name inode mode in
    let longer : length (encode_all (ds ++ (d ∷ [])))
        ≡ length (encode_all ds) + dentry_bytes + length name =
      omega (arith, ap length (encode_all-snoc ds d), length-append (encode_all ds) (encode d)) in
    let before = dentry_block-block_of ds v (omega (arith, room)) in
    let w = AreDentries-snoc ds d v (i, n, omega (arith, m), omega (arith, n)) in
    let afterwards = dentry_block-block_of (ds ++ (d ∷ [])) w (omega (arith, room, longer)) in
    rw (before, alloc_dentry-block_of ds name inode mode, afterwards)
      (
        refl,
        longer,
        lookup-snoc_self ds name inode mode,
        λ other ne. lookup-snoc_ne ds name other inode mode ne,
      )
