-- ===== src/Tests/Groups.antt =====
-- The block group: src/block.cpp.
use naive_fs.Base.{arith}
use naive_fs.Inode.{zero_inode, s_ifdir}
use naive_fs.Bitmap.Alloc.{
  zero_bitmap, zero_bitmap-IsBitmap, test-zero_bitmap, count_clear_zero, bits_per_bitmap,
}
use naive_fs.Group.{Group, alloc_block, alloc_inode, free_inode}
use naive_fs.Group.Release.{FreesInode, free_inode-FreesInode}
use naive_fs.Group.Counts.{
  IsGroup, AllocatesBlock, alloc_block-AllocatesBlock, AllocatesInode, alloc_inode-AllocatesInode,
}

-- a group with nothing allocated
abbrev pub empty_group : Group
empty_group = record {
  bg_block_bitmap = 8192;
  bg_inode_bitmap = 4096;
  bg_inode_table = 12288;
  bg_free_blocks_count = 32768;
  bg_free_inodes_count = 32768;
  bg_used_dirs_count = 0;
  block_bitmap = zero_bitmap;
  inode_bitmap = zero_bitmap;
  inode_table = λ b k. zero_inode;
}

empty_group-IsGroup : IsGroup empty_group
empty_group-IsGroup =
    let all = count_clear_zero bits_per_bitmap zero_bitmap test-zero_bitmap in
    record {
      blocks = zero_bitmap-IsBitmap;
      inodes = zero_bitmap-IsBitmap;
      free_blocks = omega (arith, all);
      free_inodes = omega (arith, all);
    }

alloc_block-AllocatesBlock_example :
    AllocatesBlock empty_group (alloc_block empty_group) × IsGroup (alloc_block empty_group).1
alloc_block-AllocatesBlock_example = alloc_block-AllocatesBlock empty_group empty_group-IsGroup

alloc_inode-AllocatesInode_example :
    AllocatesInode empty_group s_ifdir (alloc_inode empty_group s_ifdir)
    × IsGroup (alloc_inode empty_group s_ifdir).1
alloc_inode-AllocatesInode_example =
    alloc_inode-AllocatesInode empty_group s_ifdir empty_group-IsGroup

abbrev one_inode : Group
one_inode = (alloc_inode empty_group s_ifdir).1

free_inode-FreesInode_example : FreesInode one_inode 0 (free_inode one_inode 0)
free_inode-FreesInode_example =
    free_inode-FreesInode one_inode 0 (omega arith)
      (alloc_inode-AllocatesInode empty_group s_ifdir empty_group-IsGroup).1
