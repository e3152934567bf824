-- ===== src/Group/Release.antt =====
-- What the release of an inode or block does to a group with right counters.
use naive_fs.Base.{
  ℕ, ◌+◌, ◌%◌, ◌<◌, ◌≡◌, ◌≢◌, refl, ap, Bool, true, false, ◌&&◌, ◌==◌, if◌then◌else◌, arith, none,
  ℕ_discrete,
}
use naive_fs.Bitmap.{test, clear}
use naive_fs.Bitmap.Alloc.{
  bits_per_bitmap, count_clear-clear, count_clear-le, clear-IsBitmap, clear-Updates,
}
use naive_fs.Inode.{is_dir}
use naive_fs.Group.{Group, table_get, get_inode, free_inode, free_block}
use naive_fs.Group.Counts.{IsGroup, get_inode_ne}

-- What `free_block` and `free_inode` give.
abbrev pub FreesBlock : Group → ℕ → Bool × Group → Type 0
FreesBlock g i (ok, g') =
    (ok ≡ test g.block_bitmap i)
    × ((j : ℕ) → test g'.block_bitmap j ≡ (if i == j then false else test g.block_bitmap j))
    × (g'.bg_free_blocks_count ≡ g.bg_free_blocks_count + (if ok then 1 else 0))
    × IsGroup g'

free_block_cases :
    (g : Group) (i : ℕ) (b : Bool)
    → test g.block_bitmap i ≡ b
    → i < bits_per_bitmap
    → IsGroup g
    → FreesBlock g i (free_block g i)
unfolding free_block
free_block_cases g i true e h v =
    let u = clear-Updates g.block_bitmap i v.blocks h in
    let counted = count_clear-clear bits_per_bitmap g.block_bitmap _ i u e h in
    let bound = count_clear-le bits_per_bitmap (clear g.block_bitmap i) in
    let free = v.free_blocks in
    rw (e, free_block)
      (
        refl,
        u,
        omega arith,
        record {
          blocks = clear-IsBitmap g.block_bitmap i v.blocks;
          inodes = v.inodes;
          free_blocks = omega arith;
          free_inodes = v.free_inodes;
        },
      )
free_block_cases g i false e h v =
    rw (e, free_block)
      (
        refl,
        λ j. elim (ℕ_discrete i j) [
          | yes p ↦ ground (arith, ap (test g.block_bitmap) p)
          | no q ↦ ground arith
        ],
        omega arith,
        v,
      )

-- `BlockGroup::free_block` succeeds exactly on an allocated block; after it that block is clear, the
-- others are as before, and the counters are right.
pub free_block-FreesBlock :
    (g : Group) (i : ℕ) → i < bits_per_bitmap → IsGroup g → FreesBlock g i (free_block g i)
free_block-FreesBlock g i h v = free_block_cases g i (test g.block_bitmap i) refl h v

-- What `free_inode` gives; the inode's own mode decides whether a directory is counted off.
abbrev pub FreesInode : Group → ℕ → Bool × Group → Type 0
FreesInode g i (ok, g') =
    (ok ≡ test g.inode_bitmap i)
    × (get_inode g' i ≡ none)
    × ((j : ℕ) → j ≢ i → get_inode g' j ≡ get_inode g j)
    × (g'.bg_free_inodes_count ≡ g.bg_free_inodes_count + (if ok then 1 else 0))
    × (g'.bg_used_dirs_count ≡ (
        if ok && is_dir (table_get g.inode_table i).i_mode
        then (g.bg_used_dirs_count + 65535) % 65536
        else g.bg_used_dirs_count))
    × IsGroup g'

free_inode_cases :
    (g : Group) (i : ℕ) (b : Bool)
    → test g.inode_bitmap i ≡ b
    → i < bits_per_bitmap
    → IsGroup g
    → FreesInode g i (free_inode g i)
unfolding free_inode get_inode
free_inode_cases g i true e h v =
    let u = clear-Updates g.inode_bitmap i v.inodes h in
    let counted = count_clear-clear bits_per_bitmap g.inode_bitmap _ i u e h in
    let bound = count_clear-le bits_per_bitmap (clear g.inode_bitmap i) in
    let free = v.free_inodes in
    rw (e, free_inode)
      (
        refl,
        (rw (u i) (ground arith)),
        λ j q.
            get_inode_ne g (record g { inode_bitmap = clear g.inode_bitmap i }) i j false refl u q,
        omega arith,
        ground arith,
        record {
          blocks = v.blocks;
          inodes = clear-IsBitmap g.inode_bitmap i v.inodes;
          free_blocks = v.free_blocks;
          free_inodes = omega arith;
        },
      )
free_inode_cases g i false e h v =
    rw (e, free_inode, get_inode) (refl, (rw e refl), (λ j q. refl), omega arith, refl, v)

-- `BlockGroup::free_inode` succeeds exactly on an allocated inode; after it that inode cannot be
-- got, the others are as before, the free inodes are counted right, and the used directories are one
-- less, modulo 2^16, exactly if the inode was allocated and is a directory.
pub free_inode-FreesInode :
    (g : Group) (i : ℕ) → i < bits_per_bitmap → IsGroup g → FreesInode g i (free_inode g i)
free_inode-FreesInode g i h v = free_inode_cases g i (test g.inode_bitmap i) refl h v
