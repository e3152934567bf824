-- ===== src/Inode.antt =====
-- include/ext2/inode.h: the on-disk inode, the file types in its mode, and `inode_init` of
-- src/filesystem.cpp. The union fields and those that no code reads or writes are left out.
use naive_fs.Base.{ℕ, ◌%◌, ◌^◌, bit_and, Bool, ◌==◌, List, replicate}
use naive_fs.Config.{max_dir_blocks}

-- EXT2_IND_BLOCK, EXT2_DIND_BLOCK, EXT2_TIND_BLOCK, EXT2_N_BLOCKS
abbrev pub ind_block : ℕ
ind_block = max_dir_blocks

abbrev pub dind_block : ℕ
dind_block = 13

abbrev pub tind_block : ℕ
tind_block = 14

abbrev pub n_blocks : ℕ
n_blocks = 15

pub record Inode : Type 0 where
  pub i_mode : ℕ
  pub i_uid : ℕ
  pub i_size : ℕ
  pub i_atime : ℕ
  pub i_ctime : ℕ
  pub i_mtime : ℕ
  pub i_dtime : ℕ
  pub i_gid : ℕ
  pub i_links_count : ℕ
  pub i_blocks : ℕ
  pub i_flags : ℕ
  pub i_block : List ℕ
  pub i_file_acl : ℕ
  pub i_dir_acl : ℕ
  pub i_faddr : ℕ

-- `memset(inode, 0, sizeof(ext2_inode))`
abbrev pub zero_inode : Inode
zero_inode = record {
  i_mode = 0;
  i_uid = 0;
  i_size = 0;
  i_atime = 0;
  i_ctime = 0;
  i_mtime = 0;
  i_dtime = 0;
  i_gid = 0;
  i_links_count = 0;
  i_blocks = 0;
  i_flags = 0;
  i_block = replicate 15 0;
  i_file_acl = 0;
  i_dir_acl = 0;
  i_faddr = 0;
}

-- S_IFMT, S_IFDIR, S_IFREG, S_IFLNK of <sys/stat.h>; EXT2_S_IFDIR and its kin have the same values
abbrev pub s_ifmt : ℕ
s_ifmt = 0xf000

abbrev pub s_ifdir : ℕ
s_ifdir = 0x4000

abbrev pub s_ifreg : ℕ
s_ifreg = 0x8000

abbrev pub s_iflnk : ℕ
s_iflnk = 0xa000

unfoldable pub is_dir : ℕ → Bool
is_dir mode = bit_and mode s_ifmt == s_ifdir

unfoldable pub is_reg : ℕ → Bool
is_reg mode = bit_and mode s_ifmt == s_ifreg

-- `inode_init`; the time is that of `gettimeofday`
unfoldable pub inode_init : ℕ → Inode → Inode
inode_init now i = record i {
  i_ctime = now % 2 ^ 32;
  i_mtime = now % 2 ^ 32;
  i_atime = now % 2 ^ 32;
  i_blocks = 0;
  i_links_count = 1;
  i_size = 0;
  i_uid = 0;
  i_gid = 0;
  i_file_acl = 0;
  i_dir_acl = 0;
  i_faddr = 0;
  i_dtime = 0;
}
