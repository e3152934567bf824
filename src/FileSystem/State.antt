-- ===== src/FileSystem/State.antt =====
-- The file system as the set of its allocated blocks and the table of its allocated inodes, over all
-- groups, loaded or not.
use naive_fs.Base.{
  ℕ, ◌+◌, ◌*◌, ◌/◌, ◌%◌, ◌≤◌, ◌<◌, ◌≡◌, ◌≢◌, sym, ap, subst, ◌∙◌, Bool, true, false, ◌==◌,
  if◌then◌else◌, arith, Option, none, some, [], ◌∷◌, ◌++◌, length, get_elem?, get_elem?-snoc,
  get_elem?-length, Option-cases, inl, inr, ℕ_discrete,
}
use naive_fs.Config.{total_blocks_per_group, inodes_per_group}
use naive_fs.Bitmap.{test}
use naive_fs.Bitmap.Alloc.{IsBitmap}
use naive_fs.Inode.{Inode}
use naive_fs.Group.{Group, get_inode}
use naive_fs.FileSystem.{FileSystem, GroupMap, find_group}
use naive_fs.FileSystem.Groups.{Sorted}

-- The most groups whose descriptors fit into the block of the super block.
abbrev pub max_groups : ℕ
max_groups = 97

abbrev pub blocks_of : Option Group → ℕ → Bool
blocks_of none i = false
blocks_of (some g) i = test g.block_bitmap i

abbrev pub inodes_of : Option Group → ℕ → Option Inode
inodes_of none i = none
inodes_of (some g) i = get_inode g i

module _ {B : Type 0} where
  -- A group, in memory or as it would be read.
  abbrev pub group_of : FileSystem B → ℕ → Option Group
  group_of fs k = elim (find_group k fs.block_groups) [
    | some g ↦ some g
    | none ↦ elim (get_elem? fs.desc_table k) [ none ↦ none | some d ↦ some (fs.group_on_disk d) ]
  ]

  -- Block i of the file system is allocated.
  unfoldable pub block_allocated : FileSystem B → ℕ → Bool
  block_allocated fs i =
      blocks_of (group_of fs (i / total_blocks_per_group)) (i % total_blocks_per_group)

  -- Inode i of the file system, if it is allocated.
  unfoldable pub inode_at : FileSystem B → ℕ → Option Inode
  inode_at fs i = inodes_of (group_of fs (i / inodes_per_group)) (i % inodes_per_group)

  -- The geometry that `init_super_block` writes; bitmaps that are whole blocks; the loaded groups in
  -- order, each with a descriptor.
  pub record IsFileSystem (fs : FileSystem B) : Type 0 where
    pub block_geometry : fs.super.s_blocks_per_group ≡ total_blocks_per_group
    pub inode_geometry : fs.super.s_inodes_per_group ≡ inodes_per_group
    pub sorted : Sorted fs.block_groups
    pub known :
        (k : ℕ) (g : Group) → find_group k fs.block_groups ≡ some g → k < length fs.desc_table
    pub few : length fs.desc_table ≤ max_groups
    pub bitmaps :
        (k : ℕ) (g : Group)
        → group_of fs k ≡ some g
        → IsBitmap g.block_bitmap × IsBitmap g.inode_bitmap

  -- Two states that differ in one group.
  abbrev pub Replaces : FileSystem B → ℕ → Group → FileSystem B → Type 0
  Replaces fs k g fs' = (j : ℕ) → group_of fs' j ≡ (if k == j then some g else group_of fs j)

  pub replaced_self :
      (fs fs' : FileSystem B) (k : ℕ) (g : Group)
      → Replaces fs k g fs'
      → (j : ℕ) → k ≡ j
      → group_of fs' j ≡ some g
  replaced_self fs fs' k g r j e =
      let here : (k == j) ≡ true = ground arith in
      r j ∙ ap (λ b. if b then some g else group_of fs j) here

  pub replaced_ne :
      (fs fs' : FileSystem B) (k : ℕ) (g : Group)
      → Replaces fs k g fs'
      → (j : ℕ) → k ≢ j
      → group_of fs' j ≡ group_of fs j
  replaced_ne fs fs' k g r j ne =
      let there : (k == j) ≡ false = ground arith in
      r j ∙ ap (λ b. if b then some g else group_of fs j) there

  pub block_allocated-Replaces :
      (fs fs' : FileSystem B) (k i : ℕ) (v : Bool) (g : Group)
      → Replaces fs k g fs'
      → i < total_blocks_per_group
      → ((j : ℕ) → test g.block_bitmap j ≡ (if i == j then v else blocks_of (group_of fs k) j))
      → (j : ℕ)
      → block_allocated fs' j
        ≡ (if k * total_blocks_per_group + i == j then v else block_allocated fs j)
  unfolding block_allocated
  block_allocated-Replaces fs fs' k i v g r h t j =
      elim (ℕ_discrete k (j / total_blocks_per_group)) [
        | yes e ↦
            let same : (i == j % total_blocks_per_group) ≡ (k * total_blocks_per_group + i == j) =
              ground arith in
            ap (λ o. blocks_of o (j % total_blocks_per_group))
              (replaced_self fs fs' k g r (j / total_blocks_per_group) e)
            ∙ t (j % total_blocks_per_group)
            ∙ ap
                (λ q.
                  if i == j % total_blocks_per_group
                  then v
                  else blocks_of (group_of fs q) (j % total_blocks_per_group))
                e
            ∙ ap (λ b. if b then v else block_allocated fs j) same
        | no ne ↦
            let differ : false ≡ (k * total_blocks_per_group + i == j) = ground arith in
            ap (λ o. blocks_of o (j % total_blocks_per_group))
              (replaced_ne fs fs' k g r (j / total_blocks_per_group) ne)
            ∙ ap (λ b. if b then v else block_allocated fs j) differ
      ]

  pub block_allocated-Replaces_same :
      (fs fs' : FileSystem B) (k : ℕ) (g : Group)
      → Replaces fs k g fs'
      → ((j : ℕ) → test g.block_bitmap j ≡ blocks_of (group_of fs k) j)
      → (j : ℕ) → block_allocated fs' j ≡ block_allocated fs j
  unfolding block_allocated
  block_allocated-Replaces_same fs fs' k g r t j =
      elim (ℕ_discrete k (j / total_blocks_per_group)) [
        | yes e ↦
            ap (λ o. blocks_of o (j % total_blocks_per_group))
              (replaced_self fs fs' k g r (j / total_blocks_per_group) e)
            ∙ t (j % total_blocks_per_group)
            ∙ ap (λ q. blocks_of (group_of fs q) (j % total_blocks_per_group)) e
        | no ne ↦
            ap (λ o. blocks_of o (j % total_blocks_per_group))
              (replaced_ne fs fs' k g r (j / total_blocks_per_group) ne)
      ]

  pub inode_at-Replaces :
      (fs fs' : FileSystem B) (k i : ℕ) (g : Group)
      → Replaces fs k g fs'
      → ((j : ℕ) → j ≢ i → get_inode g j ≡ inodes_of (group_of fs k) j)
      → (j : ℕ) → j ≢ k * inodes_per_group + i
      → inode_at fs' j ≡ inode_at fs j
  unfolding inode_at
  inode_at-Replaces fs fs' k i g r t j n = elim (ℕ_discrete k (j / inodes_per_group)) [
    | yes e ↦
        ap (λ o. inodes_of o (j % inodes_per_group))
          (replaced_self fs fs' k g r (j / inodes_per_group) e)
        ∙ t (j % inodes_per_group) (λ q. n (omega (arith, e, q)))
        ∙ ap (λ q. inodes_of (group_of fs q) (j % inodes_per_group)) e
    | no ne ↦
        ap (λ o. inodes_of o (j % inodes_per_group))
          (replaced_ne fs fs' k g r (j / inodes_per_group) ne)
  ]

  -- A group added or replaced in the map, with a descriptor for it.
  pub Replaces-put :
      (fs : FileSystem B) (k : ℕ) (g : Group) (l : GroupMap)
      → ((j : ℕ) → find_group j l ≡ (if k == j then some g else find_group j fs.block_groups))
      → Replaces fs k g (record fs { block_groups = l })
  Replaces-put fs k g l h j = ground (arith, h j)

  pub Replaces-snoc :
      (fs : FileSystem B) (k : ℕ) (g : Group) (l : GroupMap)
      → k ≡ length fs.desc_table
      → ((j : ℕ) → find_group j l ≡ (if k == j then some g else find_group j fs.block_groups))
      → Replaces fs k g (record fs { block_groups = l; desc_table = fs.desc_table ++ (k ∷ []) })
  Replaces-snoc fs k g l e h j = elim (ℕ_discrete k j) [
    | yes q ↦ ground (arith, h j)
    | no ne ↦
        let there : (k == j) ≡ false = ground arith in
        let same = get_elem?-snoc fs.desc_table k j (λ q. ne (omega (arith, e, q))) in
        ground (arith, h j, there, same)
  ]

  pub inode_at-Replaces_same :
      (fs fs' : FileSystem B) (k : ℕ) (g : Group)
      → Replaces fs k g fs'
      → ((j : ℕ) → get_inode g j ≡ inodes_of (group_of fs k) j)
      → (j : ℕ) → inode_at fs' j ≡ inode_at fs j
  unfolding inode_at
  inode_at-Replaces_same fs fs' k g r t j = elim (ℕ_discrete k (j / inodes_per_group)) [
    | yes e ↦
        ap (λ o. inodes_of o (j % inodes_per_group)) (replaced_self fs fs' k g r _ e)
        ∙ t (j % inodes_per_group)
        ∙ ap (λ q. inodes_of (group_of fs q) (j % inodes_per_group)) e
    | no ne ↦ ap (λ o. inodes_of o (j % inodes_per_group)) (replaced_ne fs fs' k g r _ ne)
  ]

  -- Only the groups and their geometry matter.
  pub replaced-IsFileSystem :
      (fs fs' : FileSystem B)
      → fs'.super.s_blocks_per_group ≡ fs.super.s_blocks_per_group
      → fs'.super.s_inodes_per_group ≡ fs.super.s_inodes_per_group
      → length fs.desc_table ≤ length fs'.desc_table
      → length fs'.desc_table ≤ max_groups
      → (k : ℕ) (g : Group) → Replaces fs k g fs'
      → IsBitmap g.block_bitmap × IsBitmap g.inode_bitmap
      → k < length fs'.desc_table
      → ((j : ℕ)
          → find_group j fs'.block_groups
            ≡ (if k == j then some g else find_group j fs.block_groups))
      → Sorted fs'.block_groups
      → IsFileSystem fs
      → IsFileSystem fs'
  replaced-IsFileSystem fs fs' e q more few k g r b known found sorted v = record {
    block_geometry = e ∙ v.block_geometry;
    inode_geometry = q ∙ v.inode_geometry;
    sorted = sorted;
    known = λ j h p. elim (ℕ_discrete k j) [
      | yes c ↦ omega (arith, c)
      | no ne ↦ let old = v.known j h (ground (arith, found j)) in omega (arith, old)
    ];
    few = few;
    bitmaps = λ j h p. elim (ℕ_discrete k j) [
      | yes c ↦
          let same : g ≡ h =
            ap (λ o. elim o [ none ↦ g | some x ↦ x ]) (sym (replaced_self fs fs' k g r j c) ∙ p) in
          subst (λ x. IsBitmap x.block_bitmap × IsBitmap x.inode_bitmap) same b
      | no ne ↦ v.bitmaps j h (sym (replaced_ne fs fs' k g r j ne) ∙ p)
    ];
  }

  -- There is no group past the descriptors.
  pub group_of-none :
      (fs : FileSystem B) → IsFileSystem fs → group_of fs (length fs.desc_table) ≡ none
  group_of-none fs v = elim (Option-cases (find_group (length fs.desc_table) fs.block_groups)) [
    | inl e ↦ ground (arith, get_elem?-length fs.desc_table)
    | inr (g, e) ↦ absurd (omega (arith, v.known _ g e))
  ]
