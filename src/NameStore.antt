-- ===== src/NameStore.antt =====
-- What the operations on names of src/filesystem.cpp use of inodes and blocks: the blocks that they
-- read and write, and the allocation and the release of inodes and blocks.
pub mod System
use naive_fs.Base.{ℕ, Option}
use naive_fs.Inode.{Inode}
use naive_fs.BlockStore.{BlockStore}

-- `alloc_inode` gives an inode that is initialized, for a mode. `put_inode` is a store through the
-- pointer of `get_inode`, and `put_words` one through that of `get_block`.
pub record NameStore (S : Type 0) : Type 0 where
  pub blocks : BlockStore S
  pub get_inode : S → ℕ → Option Inode
  pub put_inode : S → ℕ → Inode → S
  pub put_words : S → ℕ → (ℕ → ℕ) → S
  pub alloc_inode : S → ℕ → Option ℕ × S
  pub free_inode : S → ℕ → S
  pub free_block : S → ℕ → S
