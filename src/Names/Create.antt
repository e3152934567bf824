-- ===== src/Names/Create.antt =====
-- `inode_lookup(parent)`, `dentry_create`, `inode_create` and `inode_link` of src/filesystem.cpp: new
-- entries of directories. A pointer to an inode is its number.
use naive_fs.Base.{
  ℕ, ◌+◌, ◌-◌, ◌*◌, ◌%◌, ◌^◌, false, ◌&&◌, ◌||◌, not, ltb, ◌==◌, if◌then◌else◌, Option, none, some,
  List, [], ◌∷◌, length,
}
use naive_fs.Config.{
  RetCode, fs_success, fs_not_found, fs_alloc_err, fs_dup_err, fs_ndir_err, fs_dir_err, fs_invalid,
  block_size,
}
use naive_fs.Inode.{Inode, zero_inode, is_dir}
use naive_fs.InodeVisit.{Visitor, visit_inode_blocks}
use naive_fs.DentryBlock.{Dentry, dentry_bytes, dentry_block, alloc_dentry, name_of, same_bytes}
use naive_fs.FilePath.{FilePath, prefix, empty, back}
use naive_fs.DentryCache.{DentryCache, root_inode}
use naive_fs.NameStore.{NameStore}
use naive_fs.InodeBlocks
use naive_fs.Names.{Outcome, ok, fail, bytes_of, inode_lookup}

-- The words of a block that is written by bytes.
abbrev pub words_of : (ℕ → ℕ) → ℕ → ℕ
words_of bytes k =
    bytes (4 * k)
    + 2 ^ 8 * bytes (4 * k + 1)
    + 2 ^ 16 * bytes (4 * k + 2)
    + 2 ^ 24 * bytes (4 * k + 3)

-- The loop over the entries of a block, which does not stop: the last entry of that name counts.
unfoldable pub last_match : List Dentry → List ℕ → Option ℕ → Option ℕ
last_match [] name found = found
last_match (d ∷ l) name found =
    last_match l name
      (if (d.name_len == length name) && same_bytes (name_of d) name then some d.inode else found)

-- The visitor: `name_exists` with `inode_index`, and `last_block_index`
unfoldable pub entry_visitor : List ℕ → Visitor (Option ℕ × Option ℕ)
unfolding last_match
entry_visitor name b words (found, last) =
    (false, (last_match (dentry_block (bytes_of words)).0 name found, some b))

-- The file system: its store and its dentry cache.
pub record Tree (S : Type 0) : Type 0 where
  pub store : S
  pub dentry_cache : DentryCache

module _ {S : Type 0} (st : NameStore S) where
  -- `inode_lookup(parent, name, …)`
  unfoldable pub lookup_entry : S → Inode → List ℕ → Option ℕ × Option ℕ
  lookup_entry s parent name =
      visit_inode_blocks (st.blocks.words s) (entry_visitor name) parent (none, none)

  -- What a pointer to an inode or a block shows.
  abbrev pub inode_at : S → ℕ → Inode
  inode_at s i = elim (st.get_inode s i) [ none ↦ zero_inode | some n ↦ n ]

  abbrev pub block_at : S → ℕ → ℕ → ℕ
  block_at s b = elim (st.blocks.words s b) [ none ↦ λ k. 0 | some w ↦ w ]

  -- `if (!alloc_block(&last_block, &last_block_index, parent)) return FS_ALLOC_ERR;` and the rest
  abbrev pub appended_with : ℕ → (ℕ → S → RetCode × S) → Option ℕ × (Inode × S) → RetCode × S
  appended_with parent next (none, (n, s)) = (fs_alloc_err, st.put_inode s parent n)
  appended_with parent next (some b, (n, s)) = next b (st.put_inode s parent n)

  abbrev pub append_block : ℕ → S → (ℕ → S → RetCode × S) → RetCode × S
  append_block parent s next =
      appended_with parent next (InodeBlocks.alloc_block st.blocks (inode_at s parent) s)

  -- `alloc_dentry` and `block_cache_->modify`
  unfoldable pub put_entry : List ℕ → ℕ → ℕ → ℕ → S → RetCode × S
  put_entry name inode mode b s =
      let bytes = bytes_of (block_at s b) in
      let size = (dentry_block bytes).1 in
      let s' = st.put_words s b (words_of (alloc_dentry bytes size name inode mode)) in
      (fs_success, st.blocks.modify s' b)

  -- From the last block on.
  unfoldable pub put_in_last : ℕ → List ℕ → ℕ → ℕ → ℕ → S → RetCode × S
  put_in_last parent name inode mode b s =
      if ltb block_size ((dentry_block (bytes_of (block_at s b))).1 + dentry_bytes + length name)
      then append_block parent s (put_entry name inode mode)
      else put_entry name inode mode b s

  -- `dentry_create`
  unfoldable pub dentry_create : Option ℕ → ℕ → List ℕ → ℕ → ℕ → S → RetCode × S
  dentry_create none parent name inode mode s =
      append_block parent s (put_in_last parent name inode mode)
  dentry_create (some b) parent name inode mode s = put_in_last parent name inode mode b s

  -- `inode_lookup(path)` and the rest, which has the number, the inode and the parent's node; what a
  -- caller returns with a return code is given.
  module _ {R : Type 0} (refuse : RetCode → Tree S → R) where
    abbrev pub lookup_with :
        Tree S → (ℕ → Inode → ℕ → Tree S → R) → Outcome ((ℕ × Inode) × ℕ) × DentryCache → R
    lookup_with t next (fail code, c) = refuse code (record t { dentry_cache = c })
    lookup_with t next (ok ((i, n), parent), c) = next i n parent (record t { dentry_cache = c })

    abbrev pub try_lookup : Tree S → FilePath → (ℕ → Inode → ℕ → Tree S → R) → R
    try_lookup t path next = lookup_with t next (
        inode_lookup (st.blocks.words t.store) (st.get_inode t.store) (inode_at t.store root_inode)
          path t.dentry_cache)

    -- `if (!S_ISDIR(parent->i_mode)) return FS_NDIR_ERR;` and the rest
    abbrev pub directory_with : (ℕ → Inode → ℕ → Tree S → R) → ℕ → Inode → ℕ → Tree S → R
    directory_with next i n parent t =
        if not (is_dir n.i_mode) then refuse fs_ndir_err t else next i n parent t

    -- The directory of the last component.
    abbrev pub try_parent : Tree S → FilePath → (ℕ → Inode → ℕ → Tree S → R) → R
    try_parent t path next =
        try_lookup t (prefix path (length path.name_list - 1)) (directory_with next)

  -- The end of `inode_create`, after `alloc_inode`.
  abbrev pub created : Tree S → ℕ → RetCode × S → Outcome ℕ × Tree S
  created t i (fs_success, s) = (ok i, record t { store = s })
  created t i (code, s) = (fail code, record t { store = s })

  abbrev pub create_inode : Tree S → Option ℕ → ℕ → List ℕ → ℕ → Option ℕ × S → Outcome ℕ × Tree S
  create_inode t last parent name mode (none, s) = (fail fs_alloc_err, record t { store = s })
  create_inode t last parent name mode (some i, s) =
      created t i (dentry_create last parent name i mode s)

  abbrev pub duplicate : Option Inode → RetCode
  duplicate none = fs_not_found
  duplicate (some n) = fs_dup_err

  abbrev pub create_entry : Tree S → ℕ → List ℕ → ℕ → Option ℕ × Option ℕ → Outcome ℕ × Tree S
  create_entry t parent name mode (some i, last) = (fail (duplicate (st.get_inode t.store i)), t)
  create_entry t parent name mode (none, last) =
      create_inode t last parent name mode (st.alloc_inode t.store mode)

  -- `inode_create`: the number of the inode, and the file system
  unfoldable pub inode_create : FilePath → ℕ → Tree S → Outcome ℕ × Tree S
  inode_create path mode t =
      let name = back path.name_list in
      if not path.valid
      then (fail fs_invalid, t)
      else if empty path
      then (fail fs_dup_err, t)
      else try_parent (λ code t1. (fail code, t1)) t path
          λ i n _ t1. create_entry t1 i name mode (lookup_entry t1.store n name)

  -- The end of `inode_link`: `src_inode->i_links_count++`
  abbrev pub count_link : ℕ → RetCode × S → RetCode × S
  count_link src (fs_success, s) =
      let n = inode_at s src in
      (fs_success, st.put_inode s src (record n { i_links_count = (n.i_links_count + 1) % 2 ^ 16 }))
  count_link src (code, s) = (code, s)

  abbrev pub linked : Tree S → RetCode × S → RetCode × Tree S
  linked t (code, s) = (code, record t { store = s })

  abbrev pub link_entry : Tree S → ℕ → ℕ → List ℕ → ℕ → Option ℕ × Option ℕ → RetCode × Tree S
  link_entry t src parent name mode (some i, last) = (fs_dup_err, t)
  link_entry t src parent name mode (none, last) =
      linked t (count_link src (dentry_create last parent name src mode t.store))

  -- `inode_link`
  unfoldable pub inode_link : FilePath → FilePath → Tree S → RetCode × Tree S
  inode_link src dst t =
      let name = back dst.name_list in
      if not src.valid || not dst.valid
      then (fs_invalid, t)
      else if empty src || empty dst
      then (fs_dup_err, t)
      else try_lookup (λ code t1. (code, t1)) t src
          λ i n _ t1.
            if is_dir n.i_mode
            then (fs_dir_err, t1)
            else try_parent (λ code t1. (code, t1)) t1 dst
                λ p m _ t2. link_entry t2 i p name n.i_mode (lookup_entry t2.store m name)
