-- ===== src/Group.antt =====
-- `BlockGroup` of include/block.h and src/block.cpp with its `ext2_group_desc` of
-- include/ext2/super.h: bitmaps, inode table and counters of one block group.
pub mod Offsets
pub mod Bitmaps
pub mod Counts
pub mod Release
use naive_fs.Base.{
  ℕ, ◌+◌, ◌-◌, ◌*◌, ◌/◌, ◌%◌, ◌^◌, Bool, true, false, ◌&&◌, ◌==◌, if◌then◌else◌, Option, none, some,
}
use naive_fs.Config.{block_size, inodes_per_block, num_inode_table_blocks}
use naive_fs.Bitmap.{Bitmap, test, clear, alloc_new}
use naive_fs.Inode.{Inode, zero_inode, is_dir}

-- The descriptor's offsets are in bytes. `inode_table` is the table on disk, seen through the lazily
-- read `InodeTableBlock`s: by table block, then by place in the block.
pub record Group : Type 0 where
  pub bg_block_bitmap : ℕ
  pub bg_inode_bitmap : ℕ
  pub bg_inode_table : ℕ
  pub bg_free_blocks_count : ℕ
  pub bg_free_inodes_count : ℕ
  pub bg_used_dirs_count : ℕ
  pub block_bitmap : Bitmap
  pub inode_bitmap : Bitmap
  pub inode_table : ℕ → ℕ → Inode

-- `x++` and `x--` on a `__le16`
abbrev pub inc16 : ℕ → ℕ
inc16 x = (x + 1) % 2 ^ 16

abbrev pub dec16 : ℕ → ℕ
dec16 x = (x + 2 ^ 16 - 1) % 2 ^ 16

-- The inode that `inode_table_[index / INODES_PER_BLOCK]->get(index % INODES_PER_BLOCK)` points at.
abbrev pub table_get : (ℕ → ℕ → Inode) → ℕ → Inode
table_get t index = t (index / inodes_per_block) (index % inodes_per_block)

-- A store through that pointer.
abbrev pub table_put : (ℕ → ℕ → Inode) → ℕ → Inode → ℕ → ℕ → Inode
table_put t index v b k =
    if b == index / inodes_per_block && k == index % inodes_per_block then v else t b k

-- `BlockGroup::get_inode`: what the pointer that it hands out points at
unfoldable pub get_inode : Group → ℕ → Option Inode
get_inode g index = if test g.inode_bitmap index then some (table_get g.inode_table index) else none

-- A store through the pointer of `get_inode`
unfoldable pub put_inode : Group → ℕ → Inode → Group
put_inode g index v = record g { inode_table = table_put g.inode_table index v }

-- `BlockGroup::inode_block_offset`; the product is one of `uint32_t`
unfoldable pub inode_block_offset : Group → ℕ → ℕ
inode_block_offset g b = g.bg_block_bitmap + (b + 1) * block_size % 2 ^ 32

-- `BlockGroup::data_block_offset`
unfoldable pub data_block_offset : Group → ℕ → ℕ
data_block_offset g b =
    g.bg_block_bitmap + num_inode_table_blocks * block_size + b * block_size % 2 ^ 32

-- `BlockGroup::get_block`: the disk offset of the `Block` that it reads
unfoldable pub get_block : Group → ℕ → Option ℕ
get_block g index = if test g.block_bitmap index then some (data_block_offset g index) else none

-- The body of `BlockGroup::alloc_inode` after `alloc_new`, whose bit and bitmap it is given. The
-- result of `get_inode` is the result of the call.
unfoldable pub alloc_inode_with : Group → ℕ → Option ℕ × Bitmap → Option ℕ × Group
unfolding put_inode
alloc_inode_with g mode (none, bits) = (none, record g { inode_bitmap = bits })
alloc_inode_with g mode (some i, bits) = (
  if test bits i then some i else none,
  put_inode
      (record g {
        bg_free_inodes_count = dec16 g.bg_free_inodes_count;
        bg_used_dirs_count =
            if is_dir mode then inc16 g.bg_used_dirs_count else g.bg_used_dirs_count;
        inode_bitmap = bits;
      })
      i (record zero_inode { i_mode = mode % 2 ^ 16 }),
)

-- `BlockGroup::alloc_inode`: the index of the new inode
unfoldable pub alloc_inode : Group → ℕ → Option ℕ × Group
alloc_inode g mode = alloc_inode_with g mode (alloc_new g.inode_bitmap)

-- The body of `BlockGroup::alloc_block` after `alloc_new`
unfoldable pub alloc_block_with : Group → Option ℕ × Bitmap → Option (ℕ × ℕ) × Group
alloc_block_with g (none, bits) = (none, record g { block_bitmap = bits })
alloc_block_with g (some i, bits) = (
  some (i, data_block_offset g i),
  record g { bg_free_blocks_count = dec16 g.bg_free_blocks_count; block_bitmap = bits },
)

-- `BlockGroup::alloc_block`: the index of the new block and the disk offset of the zeroed `Block`
unfoldable pub alloc_block : Group → Option (ℕ × ℕ) × Group
alloc_block g = alloc_block_with g (alloc_new g.block_bitmap)

-- `BlockGroup::free_inode`
unfoldable pub free_inode : Group → ℕ → Bool × Group
free_inode g index = elim (get_inode g index) [
  | none ↦ (false, g)
  | some inode ↦ (
    true,
    record g {
      bg_free_inodes_count = inc16 g.bg_free_inodes_count;
      bg_used_dirs_count =
          if is_dir inode.i_mode then dec16 g.bg_used_dirs_count else g.bg_used_dirs_count;
      inode_bitmap = clear g.inode_bitmap index;
    },
  )
]

-- `BlockGroup::free_block`
unfoldable pub free_block : Group → ℕ → Bool × Group
free_block g index =
    if test g.block_bitmap index
    then (
      true,
      record g {
        bg_free_blocks_count = inc16 g.bg_free_blocks_count;
        block_bitmap = clear g.block_bitmap index;
      },
    )
    else (false, g)
