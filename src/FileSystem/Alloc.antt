-- ===== src/FileSystem/Alloc.antt =====
-- Allocation of a block over all groups.
use naive_fs.Base.{
  ℕ, ◌+◌, ◌*◌, ◌/◌, ◌%◌, ◌^◌, ◌<◌, ◌≡◌, refl, sym, ap, subst, ◌∙◌, true, false, ◌==◌, if◌then◌else◌,
  arith, Option, none, some, [], ◌∷◌, ◌++◌, length, length-append,
}
use naive_fs.Config.{total_blocks_per_group}
use naive_fs.Bitmap.{test}
use naive_fs.Bitmap.Alloc.{IsBitmap, zero_bitmap-IsBitmap, test-zero_bitmap}
use naive_fs.Inode.{Inode}
use naive_fs.Super.{Super, inc32, dec32, num_block_groups, new_group}
use naive_fs.Group.{Group, get_inode}
use naive_fs.Group
use naive_fs.Group.Bitmaps.{TakesBlock, alloc_block-TakesBlock, alloc_block-none, get_inode_same}
use naive_fs.FileSystem.{
  FileSystem, GroupMap, find_group, put_group, alloc_in_groups, alloc_block_group, alloc_finished,
  alloc_block_in, alloc_block_with, alloc_block,
}
use naive_fs.FileSystem.Groups.{
  Takes, alloc_in_groups-Takes, find_group-put_group, put_group-Sorted,
}
use naive_fs.FileSystem.State.{
  group_of, blocks_of, inodes_of, block_allocated, inode_at, max_groups, IsFileSystem, Replaces,
  block_allocated-Replaces, inode_at-Replaces_same, replaced-IsFileSystem, Replaces-put,
  Replaces-snoc, group_of-none,
}

-- The super block with one block counted.
abbrev pub count_block : Super → Super
count_block s = record s {
  s_free_blocks_count = dec32 s.s_free_blocks_count;
  s_blocks_count = inc32 s.s_blocks_count;
}

module _ {B : Type 0} where
  -- A block that was free, now allocated, and nothing else changed of the blocks and inodes.
  abbrev pub AllocatesNewBlock : FileSystem B → Option ℕ × FileSystem B → Type 0
  AllocatesNewBlock fs (none, fs') = ⊥
  AllocatesNewBlock fs (some i, fs') =
      (block_allocated fs i ≡ false)
      × ((j : ℕ) → block_allocated fs' j ≡ (if i == j then true else block_allocated fs j))
      × ((j : ℕ) → inode_at fs' j ≡ inode_at fs j)
      × IsFileSystem fs'

  module _ (zero_block : B) where
    -- A group with a free block that stands at k afterwards.
    finished-AllocatesNewBlock :
        (fs fs' : FileSystem B) (k i offset : ℕ) (g : Group) (g' : Group)
        → IsFileSystem fs'
        → k < max_groups
        → Replaces fs k g' fs'
        → ((j : ℕ) → test g.block_bitmap j ≡ blocks_of (group_of fs k) j)
        → ((j : ℕ) → get_inode g j ≡ inodes_of (group_of fs k) j)
        → TakesBlock g (some (i, offset), g')
        → AllocatesNewBlock fs (alloc_finished zero_block fs' k i)
    unfolding alloc_finished block_allocated find_group inode_at
    finished-AllocatesNewBlock fs fs' k i offset g g' v few r blocks inodes t =
        let index : (k * fs'.super.s_blocks_per_group + i) % 2 ^ 32
            ≡ k * total_blocks_per_group + i =
          ap (λ n. (k * n + i) % 2 ^ 32) v.block_geometry ∙ omega (arith, t.0, few) in
        let place = k * total_blocks_per_group + i in
        let high : place / total_blocks_per_group ≡ k = omega (arith, t.0) in
        let low : place % total_blocks_per_group ≡ i = omega (arith, t.0) in
        rw (index, alloc_finished)
          (
            ap (λ q. blocks_of (group_of fs q) (place % total_blocks_per_group)) high
                ∙ ap (blocks_of (group_of fs k)) low
                ∙ sym (blocks i)
                ∙ t.1,
            (λ j.
                block_allocated-Replaces fs fs' k i true g' r (omega (arith, t.0))
                  (λ n. t.2 n ∙ ap (λ b. if i == n then true else b) (blocks n)) j),
            (λ j.
                inode_at-Replaces_same fs fs' k g' r (λ n. get_inode_same g g' n t.4 t.5 ∙ inodes n)
                  j),
            record {
              block_geometry = v.block_geometry;
              inode_geometry = v.inode_geometry;
              sorted = v.sorted;
              known = v.known;
              few = v.few;
              bitmaps = v.bitmaps;
            },
          )

    -- The first block of a new group.
    in_AllocatesNewBlock :
        (fs : FileSystem B) (table : ℕ → ℕ → Inode) (r : Option (ℕ × ℕ) × Group)
        → IsFileSystem fs
        → length fs.desc_table < max_groups
        → let k = length fs.desc_table in
          TakesBlock (new_group k table) r
          → AllocatesNewBlock fs (
              alloc_block_in zero_block
                (record fs {
                  super = count_block fs.super;
                  desc_table = fs.desc_table ++ (k ∷ []);
                  block_groups = put_group k (new_group k table) fs.block_groups;
                })
                k
                r)
    unfolding alloc_block_in new_group get_inode
    in_AllocatesNewBlock fs table (none, g) v few t =
        absurd (ground (arith, t.1 0, test-zero_bitmap 0))
    in_AllocatesNewBlock fs table (some (i, offset), g') v few t =
        let k = length fs.desc_table in
        let g = new_group k table in
        let l = put_group k g' (put_group k g fs.block_groups) in
        let found : (j : ℕ)
            → find_group j l ≡ (if k == j then some g' else find_group j fs.block_groups) =
          λ j. ground (
            arith,
            find_group-put_group k g' (put_group k g fs.block_groups) j,
            find_group-put_group k g fs.block_groups j,
          ) in
        let fs' : FileSystem B = record fs {
          super = count_block fs.super;
          desc_table = fs.desc_table ++ (k ∷ []);
          block_groups = l;
        } in
        let longer = length-append fs.desc_table (k ∷ []) in
        let r : Replaces fs k g' fs' = Replaces-snoc fs k g' l refl found in
        let absent = group_of-none fs v in
        let sorted =
          put_group-Sorted k g' (put_group k g fs.block_groups)
            (put_group-Sorted k g fs.block_groups v.sorted) in
        finished-AllocatesNewBlock fs fs' k i offset g g'
          (replaced-IsFileSystem fs fs' refl refl (omega (arith, longer))
            (omega (arith, longer, few)) k g' r (t.3, subst IsBitmap (sym t.4) zero_bitmap-IsBitmap)
            (omega (arith, longer)) found sorted v)
          few r (λ j. test-zero_bitmap j ∙ sym (ap (λ o. blocks_of o j) absent))
          (λ j. rw (test-zero_bitmap j) (sym (ap (λ o. inodes_of o j) absent))) t

    -- After the loop: the block of a group that has one, or the first of a new group.
    with_AllocatesNewBlock :
        (fs : FileSystem B) (r : Option (ℕ × (ℕ × ℕ)) × GroupMap)
        → IsFileSystem fs
        → num_block_groups (count_block fs.super) ≡ length fs.desc_table
        → length fs.desc_table < max_groups
        → Takes (λ g. g.bg_free_blocks_count) Group.alloc_block fs.block_groups r
        → AllocatesNewBlock fs
            (alloc_block_with zero_block (record fs { super = count_block fs.super }) r)
    unfolding alloc_block_with alloc_block_group new_group
    with_AllocatesNewBlock fs (some (k, (i, offset)), l) v new few
          (g, g', found, called, all, sorted) =
        let here : group_of fs k ≡ some g = ground (arith, found) in
        let (blocks, inodes) = v.bitmaps k g here in
        let t = alloc_block-TakesBlock g blocks in
        let t' = subst (TakesBlock g) called t in
        let fs' : FileSystem B = record fs { super = count_block fs.super; block_groups = l } in
        let r : Replaces fs k g' fs' = Replaces-put fs k g' l all in
        let known = v.known k g found in
        finished-AllocatesNewBlock fs fs' k i offset g g'
          (replaced-IsFileSystem fs fs' refl refl (omega arith) v.few k g' r
            (t'.3, subst IsBitmap (sym t'.4) inodes) known all sorted v)
          (omega (arith, known, few)) r (λ j. sym (ap (λ o. blocks_of o j) here))
          (λ j. sym (ap (λ o. inodes_of o j) here)) t'
    with_AllocatesNewBlock fs (none, l) v new few same =
        rw (same, new, alloc_block_with)
          (in_AllocatesNewBlock fs (fs.group_on_disk (length fs.desc_table)).inode_table _ v few (
            alloc_block-TakesBlock
              (new_group (length fs.desc_table)
                (fs.group_on_disk (length fs.desc_table)).inode_table)
              zero_bitmap-IsBitmap))

    -- `alloc_block`, where the counters of the super block give as many groups as there are and the
    -- descriptor of one more fits: it returns a block that was not allocated, of an old or a new group,
    -- which is allocated afterwards; the other blocks and all inodes are as before, and the state is
    -- well formed.
    pub alloc_block-AllocatesNewBlock :
        (fs : FileSystem B)
        → IsFileSystem fs
        → num_block_groups (count_block fs.super) ≡ length fs.desc_table
        → length fs.desc_table < max_groups
        → AllocatesNewBlock fs (alloc_block zero_block fs)
    unfolding alloc_block
    alloc_block-AllocatesNewBlock fs v new few =
        with_AllocatesNewBlock fs
          (alloc_in_groups (λ g. g.bg_free_blocks_count) Group.alloc_block fs.block_groups) v new
          few (alloc_in_groups-Takes _ _ fs.block_groups (λ k g e. alloc_block-none g) v.sorted)
