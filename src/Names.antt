-- ===== src/Names.antt =====
-- `inode_lookup` of src/filesystem.cpp: from a path to an inode, by the entries of directories and by
-- the names in the dentry cache.
pub mod Search
pub mod Blocks
pub mod Entry
pub mod LastBlock
pub mod NewFile
pub mod System
pub mod Created
pub mod Walk
pub mod Cached
pub mod Create
pub mod Refusals
pub mod Unlink
use naive_fs.Base.{
  ℕ, ◌+◌, ◌-◌, ◌*◌, ◌/◌, ◌%◌, ◌^◌, Bool, true, false, ◌&&◌, not, ltb, ◌==◌, if◌then◌else◌, Option,
  none, some, List, [], ◌∷◌, length,
}
use naive_fs.Config.{RetCode, fs_not_found, fs_ndir_err, fs_invalid}
use naive_fs.Inode.{Inode, is_dir}
use naive_fs.BlockTree.{Fetch}
use naive_fs.InodeVisit.{Visitor, visit_inode_blocks}
use naive_fs.DentryBlock.{dentry_block, lookup}
use naive_fs.FilePath.{FilePath}
use naive_fs.DentryCache.{DentryCache, root_inode, lookup_dentry, insert_dentry}

-- What a function with a `RetCode` gives: a value where the code is FS_SUCCESS.
pub data Outcome (A : Type 0) : Type 0 where
  ok : A → Outcome A
  fail : RetCode → Outcome A

-- The bytes of a block that is read by words.
abbrev pub bytes_of : (ℕ → ℕ) → ℕ → ℕ
bytes_of words j = words (j / 4) / 2 ^ (8 * (j % 4)) % 2 ^ 8

-- A number with its inode, where there is one.
abbrev pub with_inode : ℕ → Option Inode → Option (ℕ × Inode)
with_inode i none = none
with_inode i (some n) = some (i, n)

-- The inode that was found and its number, with the node of the parent in the dentry cache.
abbrev pub Answer : Type 0
Answer = Outcome ((ℕ × Inode) × ℕ) × DentryCache

-- The rest of the loop, from `link`, `parent`, `*inode`, `result` and `cache_hit`.
abbrev pub Rest : Type 0
Rest = ℕ → ℕ → Inode → ℕ → Bool → DentryCache → Answer

-- `fetch` and `get_inode` are what `get_block` and `get_inode` find.
module _ (fetch : Fetch) (get_inode : ℕ → Option Inode) where
  abbrev pub matched : Option ℕ → Option (ℕ × Inode) → Bool × Option (ℕ × Inode)
  matched none v = (false, v)
  matched (some i) v = (true, with_inode i (get_inode i))

  -- The visitor of `inode_lookup(path)`: its state is `result`, with `*inode`.
  unfoldable pub search_visitor : List ℕ → Visitor (Option (ℕ × Inode))
  search_visitor name b words v = matched (lookup (dentry_block (bytes_of words)).0 name) v

  -- The entry of a name in a directory, and its inode.
  unfoldable pub search : Inode → List ℕ → Option (ℕ × Inode)
  search parent name = visit_inode_blocks fetch (search_visitor name) parent none

  -- After the visit, and after the look for `*inode` before it.
  abbrev pub visited : ℕ → List ℕ → DentryCache → Rest → Option (ℕ × Inode) → Answer
  visited link name c rest none = (fail fs_not_found, c)
  visited link name c rest (some (i, n)) =
      let (k, c') = insert_dentry c link name i in rest k link n i false c'

  abbrev pub missed : ℕ → List ℕ → Bool → DentryCache → Rest → Option Inode → Answer
  missed link name last c rest none = (fail fs_not_found, c)
  missed link name last c rest (some n) =
      if not last && not (is_dir n.i_mode)
      then (fail fs_ndir_err, c)
      else visited link name c rest (search n name)

  -- `if (curr_index == path.size() - 1)` of a hit
  abbrev pub last_hit : ℕ → ℕ → ℕ → DentryCache → Rest → Option Inode → Answer
  last_hit link node i c rest none = (fail fs_not_found, c)
  last_hit link node i c rest (some n) = rest node link n i true c

  -- One round, after the lookup in the dentry cache.
  abbrev pub round : ℕ → List ℕ → Inode → Bool → ℕ → ℕ → Rest → Option ℕ × DentryCache → Answer
  round link name inode hit curr_index size rest (none, c) =
      missed link name (not (ltb curr_index (size - 1))) c rest
        (if ltb 0 curr_index && hit then get_inode (c.node link).inode else some inode)
  round link name inode hit curr_index size rest (some node, c) =
      let i = (c.node node).inode in
      if curr_index == size - 1
      then last_hit link node i c rest (get_inode i)
      else rest node link inode i true c

  -- The loop over the components.
  unfoldable pub lookup_from : List (List ℕ) → ℕ → ℕ → Rest
  lookup_from [] size curr_index link parent inode result hit c = (ok ((result, inode), parent), c)
  lookup_from (name ∷ names) size curr_index link parent inode result hit c =
      round link name inode hit curr_index size (lookup_from names size (curr_index + 1))
        (lookup_dentry c link name)

  -- `inode_lookup(path, inode, inode_index, cache_ptr)`; a null node is the root's, 0
  -- and `root` is what `root_inode_` points at
  unfoldable pub inode_lookup : Inode → FilePath → DentryCache → Answer
  unfolding lookup_from
  inode_lookup root path c =
      if not path.valid
      then (fail fs_invalid, c)
      else lookup_from path.name_list (length path.name_list) 0 0 0 root root_inode false c
