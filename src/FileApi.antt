-- ===== src/FileApi.antt =====
-- What the FUSE operations use of the file system, `fs`, and of `opm`; both are part of one state.
use naive_fs.Base.{ℕ, Option, List}
use naive_fs.Config.{RetCode}
use naive_fs.BlockTree.{Fetch}
use naive_fs.Names.{Outcome}
use naive_fs.OpManager.{OpManager}

-- A path is the bytes of its string. `inode_lookup` and `inode_create` give the number of the inode,
-- whose content is that of `inodes` of `opm`. `fetch` is `get_block` for a caller that reads;
-- `alloc_block` is that of an inode, and `flush` that of one inode.
pub record FileApi (S : Type 0) : Type 0 where
  pub opm : S → OpManager
  pub set_opm : S → OpManager → S
  pub fetch : S → Fetch
  pub inode_lookup : S → List ℕ → Outcome ℕ × S
  pub inode_create : S → List ℕ → ℕ → Outcome ℕ × S
  pub inode_link : S → List ℕ → List ℕ → RetCode × S
  pub inode_unlink : S → List ℕ → RetCode × S
  pub flush : S → ℕ → S
  pub alloc_block : S → ℕ → Option ℕ × S
  pub write_block : S → ℕ → List ℕ → S
