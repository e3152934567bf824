-- ===== src/Tests/Trees.antt =====
-- The block tree of an inode: `alloc_block(block, index, inode)` of src/filesystem.cpp.
use naive_fs.Base.{◌<◌, ◌≡◌, refl, arith, none_ne_some, replicate, length}
use naive_fs.Inode.{Inode, zero_inode}
use naive_fs.Bitmap
use naive_fs.Bitmap.{alloc_new}
use naive_fs.Group
use naive_fs.Bitmap.Alloc.{zero_bitmap-IsBitmap}
use naive_fs.BlockTree.{locate}
use naive_fs.BlockCache.{find}
use naive_fs.Super.{num_block_groups}
use naive_fs.FileSystem.{alloc_block, alloc_block_with, alloc_in_groups, take_from}
use naive_fs.FileSystem.Alloc.{count_block}
use naive_fs.NameStore.System.{Disk, block_store}
use naive_fs.InodeBlocks
use naive_fs.InodeBlocks.Append.{Appends}
use naive_fs.InodeBlocks.System.{
  zeros, IsCalm, Ready, alloc_block-IsCalm, alloc_block-Appends_system,
}
use naive_fs.Tests.Groups.{empty_group}
use naive_fs.Tests.Systems.{holding, holding-IsFileSystem}

abbrev fresh : Disk
fresh = holding (λ b k. 7) empty_group

fresh-IsCalm : IsCalm fresh
unfolding find
fresh-IsCalm = record {
  system = holding-IsFileSystem _ empty_group (zero_bitmap-IsBitmap, zero_bitmap-IsBitmap);
  free_entry = omega arith;
  cached = λ b n e. absurd (none_ne_some e);
}

counters : num_block_groups (count_block fresh.super) ≡ length fresh.desc_table
unfolding num_block_groups
counters = refl

counters_after :
    num_block_groups (count_block (alloc_block zeros fresh).1.super)
    ≡ length (alloc_block zeros fresh).1.desc_table
unfolding num_block_groups alloc_block alloc_block_with alloc_in_groups take_from Group.alloc_block
    Group.alloc_block_with alloc_new Bitmap.find
counters_after = refl

few_after : length (alloc_block zeros fresh).1.desc_table < 97
unfolding alloc_block alloc_block_with alloc_in_groups take_from Group.alloc_block
    Group.alloc_block_with alloc_new Bitmap.find
few_after = omega arith

fresh-Ready : Ready 2 fresh
fresh-Ready = (
  fresh-IsCalm,
  counters,
  omega arith,
  (
    alloc_block-IsCalm fresh fresh-IsCalm (omega arith) counters (omega arith),
    counters_after,
    few_after,
    tt,
  ),
)

-- a file of twelve blocks, the direct level full
abbrev twelve : Inode
twelve = record zero_inode { i_blocks = 96; i_block = replicate 15 50 }

alloc_block-Appends_system_example :
    Appends block_store twelve fresh (InodeBlocks.alloc_block block_store twelve fresh)
unfolding locate
alloc_block-Appends_system_example =
    alloc_block-Appends_system twelve fresh refl (omega arith) (omega arith) fresh-Ready
      (λ m h e. ground arith)
