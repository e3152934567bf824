-- ===== src/Config.antt =====
-- include/common.h and the constants of include/ext2/: sizes, group geometry, the return codes of
-- the file system layer and the errno values that FUSE expects of an operation.
use naive_fs.Base.{ℕ, ◌+◌, ◌*◌, ◌/◌, ◌-◌}
use naive_fs.Base.Int.{ℤ, pos, negsuc}

-- BLOCK_SIZE, in bytes
abbrev pub block_size : ℕ
block_size = 4096

-- sizeof(ext2_inode), sizeof(ext2_super_block), sizeof(ext2_group_desc)
abbrev pub inode_bytes : ℕ
inode_bytes = 128

abbrev pub super_bytes : ℕ
super_bytes = 1024

abbrev pub group_desc_bytes : ℕ
group_desc_bytes = 32

abbrev pub blocks_per_group : ℕ
blocks_per_group = block_size * 8

abbrev pub inodes_per_group : ℕ
inodes_per_group = block_size * 8

abbrev pub inodes_per_block : ℕ
inodes_per_block = block_size / inode_bytes

abbrev pub num_inode_table_blocks : ℕ
num_inode_table_blocks = inodes_per_group / inodes_per_block

abbrev pub total_blocks_per_group : ℕ
total_blocks_per_group = blocks_per_group + num_inode_table_blocks + 2

abbrev pub max_block_group_size : ℕ
max_block_group_size = total_blocks_per_group * block_size

-- NUM_INDIRECT_BLOCKS: the block numbers that one indirect block holds
abbrev pub num_indirect_blocks : ℕ
num_indirect_blocks = block_size / 4

abbrev pub max_dir_blocks : ℕ
max_dir_blocks = 12

abbrev pub max_ind_blocks : ℕ
max_ind_blocks = num_indirect_blocks

abbrev pub max_dind_blocks : ℕ
max_dind_blocks = max_ind_blocks * num_indirect_blocks

abbrev pub max_tind_blocks : ℕ
max_tind_blocks = max_dind_blocks * num_indirect_blocks

-- `enum RetCode`
pub data RetCode : Type 0 where
  fs_success fs_not_found fs_alloc_err fs_dup_err fs_null_err fs_ndir_err fs_dir_err fs_invalid :
      RetCode

-- The errno values of Linux, negated as FUSE operations return them.
abbrev pub neg_errno : ℕ → ℤ
neg_errno e = negsuc (e - 1)

abbrev pub enoent : ℕ
enoent = 2

abbrev pub eio : ℕ
eio = 5

abbrev pub ebadf : ℕ
ebadf = 9

abbrev pub eacces : ℕ
eacces = 13

abbrev pub efault : ℕ
efault = 14

abbrev pub eexist : ℕ
eexist = 17

abbrev pub enotdir : ℕ
enotdir = 20

abbrev pub eisdir : ℕ
eisdir = 21

abbrev pub einval : ℕ
einval = 22

abbrev pub enotempty : ℕ
enotempty = 39

-- `Code2Errno`
unfoldable pub code2errno : RetCode → ℤ
code2errno fs_not_found = neg_errno enoent
code2errno fs_alloc_err = neg_errno eio
code2errno fs_dup_err = neg_errno eexist
code2errno fs_null_err = neg_errno efault
code2errno fs_ndir_err = neg_errno enotdir
code2errno fs_dir_err = neg_errno eisdir
code2errno fs_invalid = neg_errno einval
code2errno fs_success = pos 0
