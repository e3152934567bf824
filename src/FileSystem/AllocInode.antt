-- ===== src/FileSystem/AllocInode.antt =====
-- Allocation of an inode over all groups.
use naive_fs.Base.{
  ℕ, ◌+◌, ◌*◌, ◌/◌, ◌%◌, ◌^◌, ◌<◌, ◌≡◌, ◌≢◌, refl, sym, ap, subst, ◌∙◌, ◌⊎◌, inl, inr, ◌==◌,
  if◌then◌else◌, arith, Option, none, some, [], ◌∷◌, ◌++◌, length, length-append,
}
use naive_fs.Config.{inodes_per_group}
use naive_fs.Bitmap.{test}
use naive_fs.Bitmap.Alloc.{IsBitmap, zero_bitmap-IsBitmap, test-zero_bitmap}
use naive_fs.Inode.{Inode, inode_init}
use naive_fs.Super.{Super, inc32, dec32, num_block_groups, new_group}
use naive_fs.Group.{Group, get_inode}
use naive_fs.Group
use naive_fs.FileSystem.{
  FileSystem, GroupMap, find_group, put_group, alloc_block_group, init_inode, alloc_inode_in,
  alloc_inode_with, alloc_inode,
}
use naive_fs.FileSystem.Inodes.{
  raw_inode, TakesInode, alloc_inode-TakesInode, init_inode-alloc_inode, TakesInode-none,
}
use naive_fs.FileSystem.Groups.{
  Takes, alloc_in_groups-Takes, find_group-put_group, put_group-Sorted,
}
use naive_fs.FileSystem.State.{
  group_of, blocks_of, inodes_of, block_allocated, inode_at, max_groups, IsFileSystem, Replaces,
  block_allocated-Replaces_same, inode_at-Replaces, replaced_self, replaced-IsFileSystem,
  Replaces-put, Replaces-snoc, group_of-none,
}

-- The super block with one inode counted.
abbrev pub count_inode : Super → Super
count_inode s = record s {
  s_free_inodes_count = dec32 s.s_free_inodes_count;
  s_inodes_count = inc32 s.s_inodes_count;
}

module _ {B : Type 0} where
  -- An inode that was free and now has this content, and nothing else changed of the inodes and
  -- blocks.
  abbrev pub AllocatesNewInode : FileSystem B → Inode → Option ℕ × FileSystem B → Type 0
  AllocatesNewInode fs content (none, fs') = ⊥
  AllocatesNewInode fs content (some i, fs') =
      (inode_at fs i ≡ none)
      × (inode_at fs' i ≡ some content)
      × ((j : ℕ) → j ≢ i → inode_at fs' j ≡ inode_at fs j)
      × ((j : ℕ) → block_allocated fs' j ≡ block_allocated fs j)
      × IsFileSystem fs'

  -- A group with a free inode that stands at k afterwards.
  taken-AllocatesNewInode :
      (fs fs' : FileSystem B) (k i : ℕ) (content : Inode) (g g' : Group)
      → IsFileSystem fs'
      → k < max_groups
      → Replaces fs k g' fs'
      → ((j : ℕ) → test g.block_bitmap j ≡ blocks_of (group_of fs k) j)
      → ((j : ℕ) → get_inode g j ≡ inodes_of (group_of fs k) j)
      → TakesInode content g (some i, g')
      → AllocatesNewInode fs content (some ((k * fs'.super.s_inodes_per_group + i) % 2 ^ 32), fs')
  unfolding inode_at
  taken-AllocatesNewInode fs fs' k i content g g' v few r blocks inodes t =
      let index : (k * fs'.super.s_inodes_per_group + i) % 2 ^ 32 ≡ k * inodes_per_group + i =
        ap (λ n. (k * n + i) % 2 ^ 32) v.inode_geometry ∙ omega (arith, t.0, few) in
      let place = k * inodes_per_group + i in
      let high : place / inodes_per_group ≡ k = omega (arith, t.0) in
      let low : place % inodes_per_group ≡ i = omega (arith, t.0) in
      rw index (
        ap (λ q. inodes_of (group_of fs q) (place % inodes_per_group)) high
            ∙ ap (inodes_of (group_of fs k)) low
            ∙ sym (inodes i)
            ∙ t.1,
        ap (λ q. inodes_of (group_of fs' q) (place % inodes_per_group)) high
            ∙ ap (inodes_of (group_of fs' k)) low
            ∙ ap (λ o. inodes_of o i) (replaced_self fs fs' k g' r k refl)
            ∙ t.2,
        (λ j ne. inode_at-Replaces fs fs' k i g' r (λ n q. t.3 n q ∙ inodes n) j ne),
        (λ j.
            block_allocated-Replaces_same fs fs' k g' r (λ n. ap (λ b. test b n) t.5 ∙ blocks n) j),
        v,
      )

  -- The first inode of a new group.
  in_AllocatesNewInode :
      (fs : FileSystem B) (table : ℕ → ℕ → Inode) (content : Inode) (r : Option ℕ × Group)
      → IsFileSystem fs
      → length fs.desc_table < max_groups
      → let k = length fs.desc_table in
        TakesInode content (new_group k table) r
        → AllocatesNewInode fs content (
            alloc_inode_in
              (record fs {
                super = count_inode fs.super;
                desc_table = fs.desc_table ++ (k ∷ []);
                block_groups = put_group k (new_group k table) fs.block_groups;
              })
              k
              r)
  unfolding alloc_inode_in new_group get_inode
  in_AllocatesNewInode fs table content (none, g) v few t =
      absurd (ground (arith, t.1 0, test-zero_bitmap 0))
  in_AllocatesNewInode fs table content (some i, g') v few t =
      let k = length fs.desc_table in
      let g = new_group k table in
      let l = put_group k g' (put_group k g fs.block_groups) in
      let found : (j : ℕ)
          → find_group j l ≡ (if k == j then some g' else find_group j fs.block_groups) =
        λ j. ground (
          arith,
          find_group-put_group k g' (put_group k g fs.block_groups) j,
          find_group-put_group k g fs.block_groups j,
        ) in
      let fs' : FileSystem B = record fs {
        super = count_inode fs.super;
        desc_table = fs.desc_table ++ (k ∷ []);
        block_groups = l;
      } in
      let longer = length-append fs.desc_table (k ∷ []) in
      let r : Replaces fs k g' fs' = Replaces-snoc fs k g' l refl found in
      let absent = group_of-none fs v in
      let sorted =
        put_group-Sorted k g' (put_group k g fs.block_groups)
          (put_group-Sorted k g fs.block_groups v.sorted) in
      taken-AllocatesNewInode fs fs' k i content g g'
        (replaced-IsFileSystem fs fs' refl refl (omega (arith, longer)) (omega (arith, longer, few))
          k g' r (subst IsBitmap (sym t.5) zero_bitmap-IsBitmap, t.4) (omega (arith, longer)) found
          sorted v)
        few r (λ j. test-zero_bitmap j ∙ sym (ap (λ o. blocks_of o j) absent))
        (λ j. rw (test-zero_bitmap j) (sym (ap (λ o. inodes_of o j) absent))) t

  alloc_inode_in_table :
      (fs : FileSystem B) (k : ℕ) (r : Option ℕ × Group)
      → (alloc_inode_in fs k r).1.desc_table ≡ fs.desc_table
  unfolding alloc_inode_in
  alloc_inode_in_table fs k (none, g) = refl
  alloc_inode_in_table fs k (some i, g) = refl

  loaded :
      (fs : FileSystem B) (k : ℕ) (g : Group)
      → find_group k fs.block_groups ≡ some g
      → group_of fs k ≡ some g
  loaded fs k g e = ground (arith, e)

  -- Initialized in a group that there was, or only zeroed in a new group.
  abbrev pub AllocatesEither : FileSystem B → ℕ → ℕ → Option ℕ × FileSystem B → Type 0
  AllocatesEither fs now mode r =
      (AllocatesNewInode fs (inode_init now (raw_inode mode)) r × (r.1.desc_table ≡ fs.desc_table))
      ⊎ (AllocatesNewInode fs (raw_inode mode) r
          × (r.1.desc_table ≡ fs.desc_table ++ (length fs.desc_table ∷ [])))

  with_AllocatesEither :
      (fs : FileSystem B) (now mode : ℕ) (r : Option (ℕ × ℕ) × GroupMap)
      → IsFileSystem fs
      → num_block_groups (count_inode fs.super) ≡ length fs.desc_table
      → length fs.desc_table < max_groups
      → Takes
          (λ g. g.bg_free_inodes_count)
          (λ g. init_inode now (Group.alloc_inode g mode))
          fs.block_groups
          r
      → AllocatesEither fs now mode
          (alloc_inode_with (record fs { super = count_inode fs.super }) mode r)
  unfolding alloc_inode_with alloc_block_group new_group
  with_AllocatesEither fs now mode (some (k, i), l) v new few (g, g', found, called, all, sorted) =
      let here : group_of fs k ≡ some g = ground (arith, found) in
      let (blocks, inodes) = v.bitmaps k g here in
      let t =
        subst (TakesInode (inode_init now (raw_inode mode)) g) called
          (init_inode-alloc_inode g now mode inodes) in
      let fs' : FileSystem B = record fs { super = count_inode fs.super; block_groups = l } in
      let r : Replaces fs k g' fs' = Replaces-put fs k g' l all in
      let known = v.known k g found in
      inl (
        taken-AllocatesNewInode fs fs' k i _ g g'
            (replaced-IsFileSystem fs fs' refl refl (omega arith) v.few k g' r
              (subst IsBitmap (sym t.5) blocks, t.4) known all sorted v)
            (omega (arith, known, few)) r (λ j. sym (ap (λ o. blocks_of o j) here))
            (λ j. sym (ap (λ o. inodes_of o j) here)) t,
        refl,
      )
  with_AllocatesEither fs now mode (none, l) v new few same =
      let table = (fs.group_on_disk (length fs.desc_table)).inode_table in
      let g = new_group (length fs.desc_table) table in
      rw (same, new, alloc_inode_with)
        (inr (
          in_AllocatesNewInode fs table (raw_inode mode) (Group.alloc_inode g mode) v few
              (alloc_inode-TakesInode g mode zero_bitmap-IsBitmap),
          alloc_inode_in_table _ (length fs.desc_table) (Group.alloc_inode g mode),
        ))

  -- `alloc_inode`, where the counters of the super block give as many groups as there are and the
  -- descriptor of one more fits: it returns an inode that was not allocated; the other inodes and all
  -- blocks are as before, and the state is well formed. The new inode is zeroed and initialized if
  -- its group was there, and only zeroed but for the mode if its group is new.
  pub alloc_inode-AllocatesEither :
      (fs : FileSystem B) (now mode : ℕ)
      → IsFileSystem fs
      → num_block_groups (count_inode fs.super) ≡ length fs.desc_table
      → length fs.desc_table < max_groups
      → AllocatesEither fs now mode (alloc_inode fs now mode)
  unfolding alloc_inode
  alloc_inode-AllocatesEither fs now mode v new few =
      let fails : (k : ℕ) (g : Group)
          → find_group k fs.block_groups ≡ some g
          → (init_inode now (Group.alloc_inode g mode)).0 ≡ none
          → (init_inode now (Group.alloc_inode g mode)).1 ≡ g =
        λ k g e.
          TakesInode-none (inode_init now (raw_inode mode)) g _
            (init_inode-alloc_inode g now mode (v.bitmaps k g (loaded fs k g e)).1) in
      with_AllocatesEither fs now mode _ v new few (
        alloc_in_groups-Takes (λ g. g.bg_free_inodes_count)
          (λ g. init_inode now (Group.alloc_inode g mode)) fs.block_groups fails v.sorted)
