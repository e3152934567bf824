-- ===== src/FileSystem/Release.antt =====
-- Release of a block over all groups.
use naive_fs.Base.{
  ℕ, suc, zero, ◌+◌, ◌*◌, ◌/◌, ◌%◌, ◌<◌, ◌≡◌, refl, sym, ap, subst, ◌∙◌, true, false, ◌==◌,
  if◌then◌else◌, arith, Option, none, some, Option-cases, inl, inr, none_ne_some, Bool, get_elem?,
  length, List, [], ◌∷◌,
}
use naive_fs.Config.{total_blocks_per_group}
use naive_fs.Bitmap.{test, clear}
use naive_fs.Bitmap.Alloc.{bits_per_bitmap, clear-Updates, clear-IsBitmap}
use naive_fs.Super.{Super, inc32, dec32}
use naive_fs.Group.{Group, inc16, get_inode}
use naive_fs.Group
use naive_fs.FileSystem.{
  FileSystem, GroupMap, find_group, put_group, load_group, free_block, free_block_in, finish_free,
}
use naive_fs.FileSystem.Groups.{Sorted, find_group-put_group, put_group-Sorted}
use naive_fs.FileSystem.State.{
  group_of, blocks_of, inodes_of, block_allocated, inode_at, IsFileSystem, Replaces, Replaces-put,
  block_allocated-Replaces, inode_at-Replaces_same, replaced-IsFileSystem,
}

get_elem?-lt : (xs : List ℕ) (k d : ℕ) → get_elem? xs k ≡ some d → k < length xs
get_elem?-lt [] k d e = absurd (none_ne_some e)
get_elem?-lt (x ∷ xs) zero d e = omega arith
get_elem?-lt (x ∷ xs) (suc k) d e = omega (arith, get_elem?-lt xs k d e)

-- The super block with one block less.
abbrev uncount_block : Super → Super
uncount_block s = record s {
  s_free_blocks_count = inc32 s.s_free_blocks_count;
  s_blocks_count = dec32 s.s_blocks_count;
}

-- Only the last group put at a number counts.
twice :
    (k : ℕ) (g h : Group) (l : GroupMap) (j : ℕ)
    → find_group j (put_group k h (put_group k g l)) ≡ find_group j (put_group k h l)
twice k g h l j = ground (
  arith,
  find_group-put_group k h (put_group k g l) j,
  find_group-put_group k g l j,
  find_group-put_group k h l j,
)

module _ {B : Type 0} where
  loaded :
      (fs : FileSystem B) (k : ℕ) (g : Group)
      → find_group k fs.block_groups ≡ some g
      → group_of fs k ≡ some g
  loaded fs k g e = ground (arith, e)

  unloaded :
      (fs : FileSystem B) (k d : ℕ)
      → find_group k fs.block_groups ≡ none
      → get_elem? fs.desc_table k ≡ some d
      → group_of fs k ≡ some (fs.group_on_disk d)
  unloaded fs k d e q = ground (arith, e, q)

  unknown :
      (fs : FileSystem B) (k : ℕ)
      → find_group k fs.block_groups ≡ none
      → get_elem? fs.desc_table k ≡ none
      → group_of fs k ≡ none
  unknown fs k e q = ground (arith, e, q)

  -- `load_group` gives the group of that number, and a state with the same groups, where it is loaded.
  abbrev pub Loads : FileSystem B → ℕ → Group → Option (Group × FileSystem B) → Type 0
  Loads fs k g none = ⊥
  Loads fs k g (some (h, fs')) =
      (h ≡ g)
      × (l : GroupMap) × (fs' ≡ record fs { block_groups = l })
      × Sorted l
      × (k < length fs.desc_table)
      × ((j : ℕ) (h : Group)
          → find_group j (put_group k h l) ≡ find_group j (put_group k h fs.block_groups))

  pub load_group-Loads :
      (fs : FileSystem B) (k : ℕ) (g : Group)
      → IsFileSystem fs
      → group_of fs k ≡ some g
      → Loads fs k g (load_group fs k)
  unfolding load_group
  load_group-Loads fs k g v here = elim (Option-cases (find_group k fs.block_groups)) [
    | inr (h, found) ↦
        rw (found, load_group)
          (
            ap (λ o. elim o [ none ↦ h | some x ↦ x ]) (sym (loaded fs k h found) ∙ here),
            fs.block_groups,
            refl,
            v.sorted,
            v.known k h found,
            λ j i. refl,
          )
    | inl absent ↦ elim (Option-cases (get_elem? fs.desc_table k)) [
      | inl none_there ↦ absurd (none_ne_some (sym (unknown fs k absent none_there) ∙ here))
      | inr (d, found) ↦
          let h = fs.group_on_disk d in
          rw (absent, load_group)
            (rw found (
              ap (λ o. elim o [ none ↦ h | some x ↦ x ])
                  (sym (unloaded fs k d absent found) ∙ here),
              put_group k h fs.block_groups,
              refl,
              put_group-Sorted k h fs.block_groups v.sorted,
              get_elem?-lt fs.desc_table k d found,
              λ j i. twice k h i fs.block_groups j,
            ))
    ]
  ]

  -- An allocated block that is not so afterwards, and nothing else changed of the blocks and inodes.
  abbrev pub FreesBlockOf : FileSystem B → ℕ → Option (Bool × FileSystem B) → Type 0
  FreesBlockOf fs i none = ⊥
  FreesBlockOf fs i (some (done, fs')) =
      (done ≡ true)
      × ((j : ℕ) → block_allocated fs' j ≡ (if i == j then false else block_allocated fs j))
      × ((j : ℕ) → inode_at fs' j ≡ inode_at fs j)
      × IsFileSystem fs'

-- The group's part, where the block is allocated.
group_free :
    (g : Group) (m : ℕ)
    → test g.block_bitmap m ≡ true
    → Group.free_block g m ≡ (
      true,
      record g {
        bg_free_blocks_count = inc16 g.bg_free_blocks_count;
        block_bitmap = clear g.block_bitmap m;
      },
    )
unfolding Group.free_block
group_free g m h = rw h refl

module _ {B : Type 0} where
  finish_free-FreesBlockOf :
      (fs : FileSystem B) (i : ℕ) (g : Group) (l : GroupMap)
      → IsFileSystem fs
      → group_of fs (i / total_blocks_per_group) ≡ some g
      → i % total_blocks_per_group < bits_per_bitmap
      → Sorted l
      → i / total_blocks_per_group < length fs.desc_table
      → ((j : ℕ) (h : Group)
          → find_group j (put_group (i / total_blocks_per_group) h l)
            ≡ find_group j (put_group (i / total_blocks_per_group) h fs.block_groups))
      → FreesBlockOf fs i (
          some (
            finish_free
              (record fs { block_groups = l })
              (i / total_blocks_per_group)
              i
              (
                true,
                record g {
                  bg_free_blocks_count = inc16 g.bg_free_blocks_count;
                  block_bitmap = clear g.block_bitmap (i % total_blocks_per_group);
                },
              )))
  unfolding finish_free block_allocated inode_at get_inode find_group
  finish_free-FreesBlockOf fs i g l v here low sorted known same =
      let k = i / total_blocks_per_group in
      let m = i % total_blocks_per_group in
      let (blocks, inodes) = v.bitmaps k g here in
      let g' : Group = record g {
        bg_free_blocks_count = inc16 g.bg_free_blocks_count;
        block_bitmap = clear g.block_bitmap m;
      } in
      let found : (j : ℕ)
          → find_group j (put_group k g' l)
            ≡ (if k == j then some g' else find_group j fs.block_groups) =
        λ j. same j g' ∙ find_group-put_group k g' fs.block_groups j in
      let fs' : FileSystem B = record fs { block_groups = put_group k g' l } in
      let r : Replaces fs k g' fs' = Replaces-put fs k g' (put_group k g' l) found in
      let u = clear-Updates g.block_bitmap m blocks low in
      let whole : k * total_blocks_per_group + m ≡ i = omega arith in
      let ok =
        replaced-IsFileSystem fs fs' refl refl (omega arith) v.few k g' r
          (clear-IsBitmap g.block_bitmap m blocks, inodes) known found
          (put_group-Sorted k g' l sorted) v in
      (
        refl,
        (λ j.
            block_allocated-Replaces fs fs' k m false g' r (omega arith)
              (λ n.
                u n ∙ ap (λ b. if m == n then false else b) (sym (ap (λ o. blocks_of o n) here)))
              j
            ∙ ap (λ p. if p == j then false else block_allocated fs j) whole),
        (λ j. inode_at-Replaces_same fs fs' k g' r (λ n. sym (ap (λ o. inodes_of o n) here)) j),
        record {
          block_geometry = ok.block_geometry;
          inode_geometry = ok.inode_geometry;
          sorted = ok.sorted;
          known = ok.known;
          few = ok.few;
          bitmaps = ok.bitmaps;
        },
      )

  in_FreesBlockOf :
      (fs : FileSystem B) (i : ℕ) (g : Group) (r : Option (Group × FileSystem B))
      → IsFileSystem fs
      → group_of fs (i / total_blocks_per_group) ≡ some g
      → i % total_blocks_per_group < bits_per_bitmap
      → test g.block_bitmap (i % total_blocks_per_group) ≡ true
      → Loads fs (i / total_blocks_per_group) g r
      → FreesBlockOf fs i (free_block_in (i / total_blocks_per_group) i r)
  unfolding free_block_in
  in_FreesBlockOf fs i g none v here low t loads = absurd loads
  in_FreesBlockOf fs i g (some (h, fs')) v here low t (e, l, q, sorted, known, same) =
      let freed =
        ap (λ n. Group.free_block g (i % n)) v.block_geometry
        ∙ group_free g (i % total_blocks_per_group) t in
      rw (e, q, free_block_in)
        (rw freed (finish_free-FreesBlockOf fs i g l v here low sorted known same))

  -- `free_block` of an allocated block, whether or not its group is loaded: it succeeds, that block is
  -- not allocated afterwards, the other blocks and all inodes are as before, and the state is well
  -- formed.
  pub free_block-FreesBlockOf :
      (fs : FileSystem B) (i : ℕ)
      → IsFileSystem fs
      → i % total_blocks_per_group < bits_per_bitmap
      → block_allocated fs i ≡ true
      → FreesBlockOf fs i (free_block fs i)
  unfolding free_block block_allocated inode_at find_group get_inode
  free_block-FreesBlockOf fs i v low t =
      elim (Option-cases (group_of fs (i / total_blocks_per_group))) [
        | inl absent ↦
            absurd
              (ground (arith, sym (ap (λ o. blocks_of o (i % total_blocks_per_group)) absent) ∙ t))
        | inr (g, here) ↦
            let fs' : FileSystem B = record fs { super = uncount_block fs.super } in
            let v' : IsFileSystem fs' = record {
              block_geometry = v.block_geometry;
              inode_geometry = v.inode_geometry;
              sorted = v.sorted;
              known = v.known;
              few = v.few;
              bitmaps = v.bitmaps;
            } in
            subst (λ n. FreesBlockOf fs i (free_block_in (i / n) i (load_group fs' (i / n))))
              (sym v.block_geometry)
              (in_FreesBlockOf fs' i g (load_group fs' (i / total_blocks_per_group)) v' here low
                (sym (ap (λ o. blocks_of o (i % total_blocks_per_group)) here) ∙ t)
                (load_group-Loads fs' (i / total_blocks_per_group) g v' here))
      ]
