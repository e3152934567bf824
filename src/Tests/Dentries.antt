-- ===== src/Tests/Dentries.antt =====
-- Directory blocks: include/block.h.
use naive_fs.Base.{ℕ, ◌+◌, ◌≡◌, ◌≢◌, ◌++◌, arith, none, some, List, [], ◌∷◌}
use naive_fs.DentryBlock.{Dentry, dentry_bytes, dentry_block, alloc_dentry, lookup}
use naive_fs.DentryBlock.Encoding.{AreDentries, block_of}
use naive_fs.DentryBlock.Append.{new_dentry, dentry_block-alloc_dentry}

-- an entry of two bytes' name that was unlinked, then a file "b"
abbrev two_dentries : List Dentry
two_dentries =
    record { inode = 300; name_len = 0; file_type = 8; body = b'x' ∷ b'y' ∷ [] }
    ∷ record { inode = 7; name_len = 1; file_type = 8; body = b'b' ∷ [] }
    ∷ []

two_dentries-AreDentries : AreDentries two_dentries
two_dentries-AreDentries = (
  (omega arith, omega arith, omega arith, omega arith),
  ((omega arith, omega arith, omega arith, omega arith), tt),
)

dentry_block-alloc_dentry_example :
    let (entries, size) = dentry_block (block_of two_dentries) in
    let (after, end) =
      dentry_block (alloc_dentry (block_of two_dentries) size (b'c' ∷ []) 9 0x81a4) in
    (after ≡ entries ++ (new_dentry (b'c' ∷ []) 9 0x81a4 ∷ []))
    × (end ≡ size + dentry_bytes + 1)
    × (lookup entries (b'c' ∷ []) ≡ none → lookup after (b'c' ∷ []) ≡ some 9)
    × ((other : List ℕ) → (b'c' ∷ []) ≢ other → lookup after other ≡ lookup entries other)
dentry_block-alloc_dentry_example =
    dentry_block-alloc_dentry two_dentries (b'c' ∷ []) 9 0x81a4 two_dentries-AreDentries
      (omega arith) (omega arith) (omega arith) (omega arith)
