-- ===== src/FileSystem/Overwrite.antt =====
-- What `alloc_block_group` does when the counters of the super block give the number of a group that
-- exists. `num_block_groups` is computed from the numbers of blocks and inodes in use, not from the
-- groups that there are.
use naive_fs.Base.{
  ℕ, ◌+◌, ◌*◌, ◌/◌, ◌%◌, ◌^◌, ◌<◌, ◌≡◌, refl, ap, ◌∙◌, true, ◌==◌, arith, Option, none, some, [],
  ◌∷◌,
}
use naive_fs.Config.{total_blocks_per_group}
use naive_fs.Bitmap.{test}
use naive_fs.Bitmap.Alloc.{zero_bitmap-IsBitmap, test-zero_bitmap}
use naive_fs.Inode.{Inode}
use naive_fs.Super.{num_block_groups, new_group}
use naive_fs.Group.{Group}
use naive_fs.Group
use naive_fs.Group.Bitmaps.{TakesBlock, alloc_block-TakesBlock}
use naive_fs.FileSystem.{
  FileSystem, GroupMap, find_group, put_group, alloc_in_groups, alloc_block_group, alloc_finished,
  alloc_block_in, alloc_block_with, alloc_block,
}
use naive_fs.FileSystem.Groups.{find_group-put_group}
use naive_fs.FileSystem.State.{group_of, blocks_of, block_allocated, max_groups}
use naive_fs.FileSystem.Alloc.{count_block}

-- No group of the map counts a free block.
abbrev pub AreFull : GroupMap → Type 0
AreFull [] = Unit {0}
AreFull ((k, g) ∷ l) = (g.bg_free_blocks_count ≡ 0) × AreFull l

alloc_in_groups-AreFull :
    (l : GroupMap)
    → AreFull l
    → alloc_in_groups (λ g. g.bg_free_blocks_count) Group.alloc_block l ≡ (none, l)
unfolding alloc_in_groups
alloc_in_groups-AreFull [] f = refl
alloc_in_groups-AreFull ((k, g) ∷ l) f =
    let e : (g.bg_free_blocks_count == 0) ≡ true = ground (arith, f.0) in
    rw (e, alloc_in_groups-AreFull l f.1) refl

module _ {B : Type 0} where
  -- The block that is returned is the only one of group k that is allocated afterwards.
  abbrev pub Empties : ℕ → Option ℕ × FileSystem B → Type 0
  Empties k (none, fs') = ⊥
  Empties k (some i, fs') =
      (j : ℕ) → j / total_blocks_per_group ≡ k → block_allocated fs' j ≡ (i == j)

  module _ (zero_block : B) where
    finished-Empties :
        (fs : FileSystem B) (k i : ℕ) (g : Group)
        → fs.super.s_blocks_per_group ≡ total_blocks_per_group
        → k < max_groups
        → i < total_blocks_per_group
        → find_group k fs.block_groups ≡ some g
        → ((j : ℕ) → test g.block_bitmap j ≡ (i == j))
        → Empties k (alloc_finished zero_block fs k i)
    unfolding alloc_finished block_allocated
    finished-Empties fs k i g e few h found t =
        let index : (k * fs.super.s_blocks_per_group + i) % 2 ^ 32
            ≡ k * total_blocks_per_group + i =
          ap (λ n. (k * n + i) % 2 ^ 32) e ∙ omega (arith, h, few) in
        rw (index, alloc_finished)
          (λ j q.
            let here : group_of fs (j / total_blocks_per_group) ≡ some g =
              ap (λ n. group_of fs n) q ∙ ground (arith, found) in
            let same : (i == j % total_blocks_per_group) ≡ (k * total_blocks_per_group + i == j) =
              ground arith in
            ap (λ o. blocks_of o (j % total_blocks_per_group)) here
            ∙ t (j % total_blocks_per_group)
            ∙ same)

    in_Empties :
        (fs : FileSystem B) (k : ℕ) (table : ℕ → ℕ → Inode) (r : Option (ℕ × ℕ) × Group)
        → fs.super.s_blocks_per_group ≡ total_blocks_per_group
        → k < max_groups
        → TakesBlock (new_group k table) r
        → Empties k (alloc_block_in zero_block fs k r)
    unfolding alloc_block_in new_group
    in_Empties fs k table (none, g) e few t = absurd (ground (arith, t.1 0, test-zero_bitmap 0))
    in_Empties fs k table (some (i, offset), g) e few t =
        finished-Empties (record fs { block_groups = put_group k g fs.block_groups }) k i g e few
          (omega (arith, t.0)) (ground (arith, find_group-put_group k g fs.block_groups k))
          (λ j. ground (arith, t.2 j, test-zero_bitmap j))

    -- When no loaded group counts a free block and the counters of the super block give the number k,
    -- `alloc_block` clears the bitmap of group k, whether or not that group is there: the block that it
    -- returns is the only one of group k that is allocated afterwards.
    pub alloc_block-Empties :
        (fs : FileSystem B) (k : ℕ)
        → fs.super.s_blocks_per_group ≡ total_blocks_per_group
        → AreFull fs.block_groups
        → num_block_groups (count_block fs.super) ≡ k
        → k < max_groups
        → Empties k (alloc_block zero_block fs)
    unfolding alloc_block alloc_block_with alloc_block_group new_group
    alloc_block-Empties fs k e full number few =
        rw (alloc_in_groups-AreFull fs.block_groups full, alloc_block_with, number)
          (in_Empties _ k (fs.group_on_disk k).inode_table _ e few (
            alloc_block-TakesBlock (new_group k (fs.group_on_disk k).inode_table)
              zero_bitmap-IsBitmap))
