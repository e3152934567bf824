-- ===== src/Super/Descriptors.antt =====
-- Where the descriptor of a new group puts its bitmaps and blocks.
use naive_fs.Base.{ℕ, ◌+◌, ◌<◌, ◌≡◌, ◌↔◌, arith}
use naive_fs.Config.{blocks_per_group, num_inode_table_blocks}
use naive_fs.Bitmap.Alloc.{
  bits_per_bitmap, count_clear_zero, zero_bitmap, zero_bitmap-IsBitmap, test-zero_bitmap,
}
use naive_fs.Inode.{Inode}
use naive_fs.Group.{data_block_offset, inode_block_offset}
use naive_fs.Group.Counts.{IsGroup}
use naive_fs.Super.{new_group}

-- A new group is well formed.
pub new_group-IsGroup : (index : ℕ) (table : ℕ → ℕ → Inode) → IsGroup (new_group index table)
unfolding new_group
new_group-IsGroup index table =
    let all = count_clear_zero bits_per_bitmap zero_bitmap test-zero_bitmap in
    record {
      blocks = zero_bitmap-IsBitmap;
      inodes = zero_bitmap-IsBitmap;
      free_blocks = omega (arith, all);
      free_inodes = omega (arith, all);
    }

-- For two groups of numbers below 32, as `alloc_block_group` makes them: two data blocks are at one
-- offset of the disk exactly if they are the same block of the same group; and a data block is at the
-- offset of a block of an inode table exactly if they are the first data block and the last block of
-- the table of the same group.
pub new_group-offsets :
    (j k : ℕ) (table table' : ℕ → ℕ → Inode) (a b t : ℕ)
    → j < 32
    → k < 32
    → a < blocks_per_group
    → b < blocks_per_group
    → t < num_inode_table_blocks
    → let g = new_group j table in
      let h = new_group k table' in
      ((data_block_offset g a ≡ data_block_offset h b) ↔ ((j ≡ k) × (a ≡ b)))
      × ((data_block_offset g a ≡ inode_block_offset h t)
          ↔ ((j ≡ k) × (a ≡ 0) × (t + 1 ≡ num_inode_table_blocks)))
unfolding new_group data_block_offset inode_block_offset
new_group-offsets j k table table' a b t p q r s u = (
  ((λ e. (omega (arith, e), omega (arith, e))), λ e. let (same, at) = e in omega (arith, same, at)),
  (
    (λ e. (omega (arith, e), omega (arith, e), omega (arith, e))),
    λ e. let (same, first, last) = e in omega (arith, same, first, last),
  ),
)
