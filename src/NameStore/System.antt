-- ===== src/NameStore/System.antt =====
-- `FileSystem` of src/filesystem.cpp as the store that the operations on names use. A block is its
-- words; a pointer that `get_block` or `get_inode` gave is used right away, while what it points at is
-- in the cache or in its group.
use naive_fs.Base.{ℕ, ◌/◌, ◌%◌, Bool, true, false, ◌==◌, if◌then◌else◌, Option, none, some}
use naive_fs.Config.{inodes_per_group}
use naive_fs.Inode.{Inode}
use naive_fs.Group.{Group, put_inode}
use naive_fs.BlockCache.{store}
use naive_fs.BlockCache
use naive_fs.BlockCache.Coherence.{view}
use naive_fs.FileSystem.{
  FileSystem, put_group, load_group, get_block, alloc_block, alloc_inode, free_inode, free_block,
}
use naive_fs.FileSystem.State.{block_allocated, inode_at}
use naive_fs.BlockStore.{BlockStore}
use naive_fs.NameStore.{NameStore}

-- The file system, whose blocks are words.
abbrev pub Disk : Type 0
Disk = FileSystem (ℕ → ℕ)

-- The words of a block that is allocated, as a reader sees them.
abbrev pub words : Disk → ℕ → Option (ℕ → ℕ)
words fs b = if block_allocated fs b then some (view fs.block_cache.nodes fs.disk b) else none

-- `get_block` of a caller that writes without a mark: `*block = w` through the pointer it gives
abbrev pub stored : Disk → ℕ → (ℕ → ℕ) → Option (Option (ℕ → ℕ) × Disk) → Disk
stored fs b w none = fs
stored fs b w (some (block, fs')) = record fs' { block_cache = store fs'.block_cache b w }

abbrev pub put_words : Disk → ℕ → (ℕ → ℕ) → Disk
put_words fs b w = stored fs b w (get_block fs b false (λ x. x))

abbrev pub got : Disk → Option (Option (ℕ → ℕ) × Disk) → Bool × Disk
got fs none = (false, fs)
got fs (some (none, fs')) = (false, fs')
got fs (some (some block, fs')) = (true, fs')

abbrev pub put_word : Disk → ℕ → ℕ → ℕ → Option (ℕ → ℕ) → Disk
put_word fs b off v none = fs
put_word fs b off v (some w) = put_words fs b (λ k. if off == k then v else w k)

-- `*inode = n` through the pointer of `get_inode`
abbrev put_inode_in : Disk → ℕ → Inode → Option (Group × Disk) → Disk
put_inode_in fs i n none = fs
put_inode_in fs i n (some (g, fs')) = record fs' {
  block_groups =
      put_group (i / inodes_per_group) (put_inode g (i % inodes_per_group) n) fs'.block_groups;
}

abbrev state_of : Disk → Option (Bool × Disk) → Disk
state_of fs none = fs
state_of fs (some (done, fs')) = fs'

abbrev pub block_store : BlockStore Disk
block_store = record {
  alloc = alloc_block (λ k. 0);
  get_block = λ fs b. got fs (get_block fs b false (λ x. x));
  words = words;
  store_word = λ fs b off v. put_word fs b off v (words fs b);
  modify = λ fs b. record fs { block_cache = BlockCache.modify fs.block_cache b };
}

-- `now` is the time.
abbrev pub name_store : ℕ → NameStore Disk
name_store now = record {
  blocks = block_store;
  get_inode = inode_at;
  put_inode = λ fs i n. put_inode_in fs i n (load_group fs (i / inodes_per_group));
  put_words = put_words;
  alloc_inode = λ fs mode. alloc_inode fs now mode;
  free_inode = λ fs i. state_of fs (free_inode fs i);
  free_block = λ fs b. state_of fs (free_block fs b);
}
