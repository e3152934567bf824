-- ===== src/DentryBlock.antt =====
-- `DentryBlock` of include/block.h with `ext2_dir_entry_2` of include/ext2/dentry.h: the entries of a
-- directory block, read from and appended to its bytes. A block is the function of its bytes.
pub mod Encoding
pub mod Append
pub mod Words
use naive_fs.Base.{
  ℕ, zero, suc, ◌+◌, ◌-◌, ◌*◌, ◌/◌, ◌%◌, ◌^◌, Bool, true, false, ◌&&◌, ltb, leb, ◌==◌,
  if◌then◌else◌, Option, none, some, List, [], ◌∷◌, ◌++◌, length, get_or, take,
}
use naive_fs.Config.{block_size}

-- sizeof(ext2_dir_entry_2)
abbrev pub dentry_bytes : ℕ
dentry_bytes = 8

-- `ext2_dir_entry_2`; `rec_len` is 8 more than the length of `body`, whose first `name_len` bytes are
-- the name.
pub record Dentry : Type 0 where
  pub inode : ℕ
  pub name_len : ℕ
  pub file_type : ℕ
  pub body : List ℕ

abbrev pub name_of : Dentry → List ℕ
name_of d = take d.name_len d.body

-- The n bytes from p on.
abbrev pub bytes : (ℕ → ℕ) → ℕ → ℕ → List ℕ
bytes buf p zero = []
bytes buf p (suc n) = buf p ∷ bytes buf (p + 1) n

-- `dentry->rec_len` of the entry at o
unfoldable pub rec_len : (ℕ → ℕ) → ℕ → ℕ
rec_len buf o = buf (o + 4) + 2 ^ 8 * buf (o + 5)

-- the entry at o
unfoldable pub read_dentry : (ℕ → ℕ) → ℕ → Dentry
unfolding rec_len
read_dentry buf o = record {
  inode = buf (o + 0) + 2 ^ 8 * buf (o + 1) + 2 ^ 16 * buf (o + 2) + 2 ^ 24 * buf (o + 3);
  name_len = buf (o + 6);
  file_type = buf (o + 7);
  body = bytes buf (o + 8) (rec_len buf o - dentry_bytes);
}

-- The loop of the constructor, on fuel, from `size_` on: the entries that it pushes and `size_`.
unfoldable pub scan : ℕ → (ℕ → ℕ) → ℕ → List Dentry × ℕ
scan zero buf size = ([], size)
scan (suc fuel) buf size =
    let next = size + rec_len buf size in
    let (rest, end) = scan fuel buf next in
    if rec_len buf size == 0
    then ([], size)
    else if ltb block_size (next + dentry_bytes)
    then (read_dentry buf size ∷ [], next)
    else (read_dentry buf size ∷ rest, end)

-- `DentryBlock(Block*)`: `get()` and `size()`
unfoldable pub dentry_block : (ℕ → ℕ) → List Dentry × ℕ
unfolding scan
dentry_block buf = scan block_size buf 0

-- Bytes stored from o on.
abbrev pub store_bytes : (ℕ → ℕ) → ℕ → List ℕ → ℕ → ℕ
store_bytes buf o bs j = if leb o j && ltb j (o + length bs) then get_or bs (j - o) 0 else buf j

-- The bytes of an entry.
abbrev pub encode : Dentry → List ℕ
encode d =
    d.inode % 2 ^ 8
    ∷ d.inode / 2 ^ 8 % 2 ^ 8
    ∷ d.inode / 2 ^ 16 % 2 ^ 8
    ∷ d.inode / 2 ^ 24 % 2 ^ 8
    ∷ (length d.body + dentry_bytes) % 2 ^ 8
    ∷ (length d.body + dentry_bytes) / 2 ^ 8 % 2 ^ 8
    ∷ d.name_len % 2 ^ 8
    ∷ d.file_type % 2 ^ 8
    ∷ d.body

-- `alloc_dentry` at `size_`; the name has no 0 byte, so that `strncpy` copies all of it
unfoldable pub alloc_dentry : (ℕ → ℕ) → ℕ → List ℕ → ℕ → ℕ → ℕ → ℕ
alloc_dentry buf size name inode mode = store_bytes buf size (
    encode
      (record { inode = inode; name_len = length name; file_type = mode / 2 ^ 12; body = name }))

-- `memcmp` of names of one length
abbrev pub same_bytes : List ℕ → List ℕ → Bool
same_bytes [] [] = true
same_bytes [] (b ∷ ys) = false
same_bytes (a ∷ xs) [] = false
same_bytes (a ∷ xs) (b ∷ ys) = a == b && same_bytes xs ys

-- the loop over the entries that `inode_lookup` makes in a block: the first entry of that name
unfoldable pub lookup : List Dentry → List ℕ → Option ℕ
lookup [] name = none
lookup (d ∷ l) name =
    let rest = lookup l name in
    if d.name_len == length name && same_bytes (name_of d) name then some d.inode else rest
