-- ===== src/Group/Counts.antt =====
-- The counters of a group descriptor against its bitmaps, and what each call of a group does.
use naive_fs.Base.{
  ℕ, ◌+◌, ◌%◌, ◌^◌, ◌<◌, ◌≡◌, ◌≢◌, refl, sym, ap, ◌∙◌, Bool, true, false, if◌then◌else◌, arith,
  Option, none, some,
}
use naive_fs.Bitmap.{Bitmap, test, alloc_new}
use naive_fs.Bitmap.Alloc.{
  IsBitmap, bits_per_bitmap, Allocates, Updates, alloc_new-Allocates, count_clear, count_clear-set,
  count_clear-le, count_clear_full,
}
use naive_fs.Inode.{Inode, zero_inode, is_dir}
use naive_fs.Group.{
  Group, inc16, dec16, get_inode, put_inode, data_block_offset, alloc_inode, alloc_inode_with,
  alloc_block, alloc_block_with,
}

-- Both bitmaps are whole blocks of words, and the descriptor counts their clear bits.
pub record IsGroup (g : Group) : Type 0 where
  pub blocks : IsBitmap g.block_bitmap
  pub inodes : IsBitmap g.inode_bitmap
  pub free_blocks : g.bg_free_blocks_count ≡ count_clear bits_per_bitmap g.block_bitmap
  pub free_inodes : g.bg_free_inodes_count ≡ count_clear bits_per_bitmap g.inode_bitmap

-- What `alloc_block` gives: the first clear block, or nothing and no change.
abbrev pub AllocatesBlock : Group → Option (ℕ × ℕ) × Group → Type 0
AllocatesBlock g (none, g') = (g' ≡ g) × (g.bg_free_blocks_count ≡ 0)
AllocatesBlock g (some (i, offset), g') =
    (i < bits_per_bitmap)
    × (test g.block_bitmap i ≡ false)
    × (offset ≡ data_block_offset g i)
    × Updates g.block_bitmap i true g'.block_bitmap
    × (g'.bg_free_blocks_count + 1 ≡ g.bg_free_blocks_count)
    × (g'.inode_bitmap ≡ g.inode_bitmap)
    × (g'.inode_table ≡ g.inode_table)

alloc_block_cases :
    (g : Group) (r : Option ℕ × Bitmap)
    → IsGroup g
    → Allocates g.block_bitmap r × IsBitmap r.1
    → AllocatesBlock g (alloc_block_with g r) × IsGroup (alloc_block_with g r).1
unfolding alloc_block_with
alloc_block_cases g (none, d) v (a, b) = (
  (
    ap (λ x. record g { block_bitmap = x }) a.0,
    v.free_blocks ∙ count_clear_full bits_per_bitmap g.block_bitmap a.1,
  ),
  record {
    blocks = b;
    inodes = v.inodes;
    free_blocks = v.free_blocks ∙ sym (ap (count_clear bits_per_bitmap) a.0);
    free_inodes = v.free_inodes;
  },
)
alloc_block_cases g (some i, d) v (a, b) =
    let counted = count_clear-set bits_per_bitmap g.block_bitmap d i a.3 a.1 a.0 in
    let bound = count_clear-le bits_per_bitmap g.block_bitmap in
    let free = v.free_blocks in
    (
      (a.0, a.1, refl, a.3, omega arith, refl, refl),
      record {
        blocks = b;
        inodes = v.inodes;
        free_blocks = omega arith;
        free_inodes = v.free_inodes;
      },
    )

-- On a group whose counters are right, `BlockGroup::alloc_block` returns a block that was clear and
-- its offset, marks that block alone, counts it, and leaves the inodes alone; it fails, with no
-- change, only if the group has no free block. The counters are right afterwards.
pub alloc_block-AllocatesBlock :
    (g : Group) → IsGroup g → AllocatesBlock g (alloc_block g) × IsGroup (alloc_block g).1
unfolding alloc_block
alloc_block-AllocatesBlock g v =
    alloc_block_cases g (alloc_new g.block_bitmap) v (alloc_new-Allocates g.block_bitmap v.blocks)

-- What `alloc_inode` gives: the first clear inode, zeroed but for its mode, or nothing.
abbrev pub AllocatesInode : Group → ℕ → Option ℕ × Group → Type 0
AllocatesInode g mode (none, g') = (g' ≡ g) × (g.bg_free_inodes_count ≡ 0)
AllocatesInode g mode (some i, g') =
    (i < bits_per_bitmap)
    × (test g.inode_bitmap i ≡ false)
    × Updates g.inode_bitmap i true g'.inode_bitmap
    × (get_inode g' i ≡ some (record zero_inode { i_mode = mode % 2 ^ 16 }))
    × ((j : ℕ) → j ≢ i → get_inode g' j ≡ get_inode g j)
    × (g'.bg_free_inodes_count + 1 ≡ g.bg_free_inodes_count)
    × (g'.block_bitmap ≡ g.block_bitmap)

-- A store to inode i is seen at i only.
pub get_inode-put_inode_self :
    (g : Group) (i : ℕ) (v : Inode)
    → test g.inode_bitmap i ≡ true
    → get_inode (put_inode g i v) i ≡ some v
unfolding get_inode put_inode
get_inode-put_inode_self g i v h = ground arith

pub get_inode-put_inode_ne :
    (g : Group) (i j : ℕ) (v : Inode) → j ≢ i → get_inode (put_inode g i v) j ≡ get_inode g j
unfolding get_inode put_inode
get_inode-put_inode_ne g i j v h = ground arith

pub get_inode_ne :
    (g : Group) (g' : Group) (i j : ℕ) (b : Bool)
    → g'.inode_table ≡ g.inode_table
    → Updates g.inode_bitmap i b g'.inode_bitmap
    → j ≢ i
    → get_inode g' j ≡ get_inode g j
unfolding get_inode
get_inode_ne g g' i j b e u h = rw (e, u j) (ground arith)

alloc_inode_cases :
    (g : Group) (mode : ℕ) (r : Option ℕ × Bitmap)
    → IsGroup g
    → Allocates g.inode_bitmap r × IsBitmap r.1
    → AllocatesInode g mode (alloc_inode_with g mode r) × IsGroup (alloc_inode_with g mode r).1
unfolding alloc_inode_with
alloc_inode_cases g mode (none, d) v (a, b) = (
  (
    ap (λ x. record g { inode_bitmap = x }) a.0,
    v.free_inodes ∙ count_clear_full bits_per_bitmap g.inode_bitmap a.1,
  ),
  record {
    blocks = v.blocks;
    inodes = b;
    free_blocks = v.free_blocks;
    free_inodes = v.free_inodes ∙ sym (ap (count_clear bits_per_bitmap) a.0);
  },
)
alloc_inode_cases g mode (some i, d) v (a, b) =
    let counted = count_clear-set bits_per_bitmap g.inode_bitmap d i a.3 a.1 a.0 in
    let bound = count_clear-le bits_per_bitmap g.inode_bitmap in
    let free = v.free_inodes in
    let set : test d i ≡ true = a.3 i ∙ ground arith in
    let g' : Group = record g {
      bg_free_inodes_count = dec16 g.bg_free_inodes_count;
      bg_used_dirs_count = if is_dir mode then inc16 g.bg_used_dirs_count else g.bg_used_dirs_count;
      inode_bitmap = d;
    } in
    rw set (
      (
        a.0,
        a.1,
        a.3,
        get_inode-put_inode_self g' i _ set,
        λ j h. get_inode-put_inode_ne g' i j _ h ∙ get_inode_ne g g' i j true refl a.3 h,
        omega arith,
        refl,
      ),
      record {
        blocks = v.blocks;
        inodes = b;
        free_blocks = v.free_blocks;
        free_inodes = omega arith;
      },
    )

-- On a group whose counters are right, `BlockGroup::alloc_inode` returns an inode that was clear,
-- zeroed but for the mode, marks and changes that inode alone, counts it, and leaves the blocks
-- alone; it fails, with no change, only if the group has no free inode. The counters are right
-- afterwards.
pub alloc_inode-AllocatesInode :
    (g : Group) (mode : ℕ)
    → IsGroup g
    → AllocatesInode g mode (alloc_inode g mode) × IsGroup (alloc_inode g mode).1
unfolding alloc_inode
alloc_inode-AllocatesInode g mode v =
    alloc_inode_cases g mode (alloc_new g.inode_bitmap) v
      (alloc_new-Allocates g.inode_bitmap v.inodes)
