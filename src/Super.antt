-- ===== src/Super.antt =====
-- `SuperBlock` of include/block.h and src/block.cpp with its `ext2_super_block` of
-- include/ext2/super.h: the fields that the code reads or writes, and the number of block groups.
pub mod Descriptors
use naive_fs.Base.{
  ℕ, zero, suc, ◌+◌, ◌-◌, ◌*◌, ◌/◌, ◌%◌, ◌^◌, max, ◌==◌, if◌then◌else◌, Option, none, some, List,
  [], ◌∷◌, ◌++◌,
}
use naive_fs.Config.{
  block_size, blocks_per_group, inodes_per_group, total_blocks_per_group, max_block_group_size,
  inode_bytes,
}
use naive_fs.Bitmap.{Bitmap}
use naive_fs.Bitmap.Alloc.{zero_bitmap}
use naive_fs.Inode.{Inode}
use naive_fs.Group.{Group}

pub record Super : Type 0 where
  pub s_inodes_count : ℕ
  pub s_blocks_count : ℕ
  pub s_free_blocks_count : ℕ
  pub s_free_inodes_count : ℕ
  pub s_log_block_size : ℕ
  pub s_blocks_per_group : ℕ
  pub s_inodes_per_group : ℕ
  pub s_first_ino : ℕ
  pub s_inode_size : ℕ
  pub s_state : ℕ

-- `FSState`
abbrev pub uninit : ℕ
uninit = 0

abbrev pub normal : ℕ
normal = 1

-- `x++` and `x--` on a `__le32`
abbrev pub inc32 : ℕ → ℕ
inc32 x = (x + 1) % 2 ^ 32

abbrev pub dec32 : ℕ → ℕ
dec32 x = (x + 2 ^ 32 - 1) % 2 ^ 32

-- `num_block_groups`, on `uint32_t`
unfoldable pub num_block_groups : Super → ℕ
num_block_groups s =
    let block_n =
      (s.s_blocks_count + s.s_blocks_per_group + 2 ^ 32 - 1) % 2 ^ 32 / s.s_blocks_per_group in
    let inode_n =
      (s.s_inodes_count + s.s_inodes_per_group + 2 ^ 32 - 1) % 2 ^ 32 / s.s_inodes_per_group in
    let n = max inode_n block_n in if n == 0 then 1 else n

-- `num_aligned_blocks`
unfoldable pub num_aligned_blocks : Super → ℕ → ℕ
num_aligned_blocks s iblocks = iblocks / (2 * 2 ^ s.s_log_block_size)

-- The descriptor that `init_super_block` writes for the first group, and what the disk has of that
-- group: its bitmaps and inodes.
unfoldable pub first_group : Bitmap → Bitmap → (ℕ → ℕ → Inode) → Group
first_group blocks inodes table = record {
  bg_block_bitmap = block_size + block_size;
  bg_inode_bitmap = block_size;
  bg_inode_table = block_size + block_size + block_size;
  bg_free_blocks_count = blocks_per_group;
  bg_free_inodes_count = inodes_per_group - 1;
  bg_used_dirs_count = 0;
  block_bitmap = blocks;
  inode_bitmap = inodes;
  inode_table = table;
}

-- The numbers from i, n of them.
abbrev pub count_up : ℕ → ℕ → List ℕ
count_up i zero = []
count_up i (suc n) = i ∷ count_up (i + 1) n

-- `init_super_block`: the super block after it, and the groups whose descriptors `desc_table_` has,
-- in its order; `none` is `abort`.
unfoldable pub init_super_block : Super → Option (Super × List ℕ)
unfolding num_block_groups
init_super_block s =
    if s.s_state == uninit
    then some (
      record s {
        s_log_block_size = 2;
        s_blocks_per_group = total_blocks_per_group;
        s_inodes_per_group = inodes_per_group;
        s_blocks_count = 3;
        s_inodes_count = 1;
        s_first_ino = 0;
        s_inode_size = inode_bytes;
        s_state = normal;
      },
      0 ∷ [],
    )
    else if s.s_state == normal
    then some (s, count_up 0 (num_block_groups s))
    else none

-- The descriptor that `alloc_block_group` writes, and the group with cleared bitmaps that it makes of
-- it; the offsets are stored into a `__le32`. The inode table is the one that the disk has there.
unfoldable pub new_group : ℕ → (ℕ → ℕ → Inode) → Group
new_group index table =
    let inode_bitmap_offset = (index * max_block_group_size + block_size) % 2 ^ 32 in
    let block_bitmap_offset = (inode_bitmap_offset + block_size) % 2 ^ 32 in
    record {
      bg_block_bitmap = block_bitmap_offset;
      bg_inode_bitmap = inode_bitmap_offset;
      bg_inode_table = (block_bitmap_offset + block_size) % 2 ^ 32;
      bg_free_blocks_count = blocks_per_group;
      bg_free_inodes_count = inodes_per_group;
      bg_used_dirs_count = 0;
      block_bitmap = zero_bitmap;
      inode_bitmap = zero_bitmap;
      inode_table = table;
    }
