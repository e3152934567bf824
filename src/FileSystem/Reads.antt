-- ===== src/FileSystem/Reads.antt =====
-- `get_block` for a caller that reads: which block it gives, and what of the file system it changes.
use naive_fs.Base.{
  ℕ, ◌==◌, if◌then◌else◌, ◌/◌, ◌%◌, ◌<◌, ◌≡◌, refl, sym, ap, subst, ◌∙◌, true, false, ◌==◌, arith,
  Option, none, some, none_ne_some, Option-cases, inl, inr, ℕ_discrete, get_elem?, Bool-cases,
}
use naive_fs.Config.{total_blocks_per_group}
use naive_fs.Bitmap.{test}
use naive_fs.Group.{Group, data_block_offset}
use naive_fs.Group
use naive_fs.BlockCache.{BlockCache, Node, find, insert, get}
use naive_fs.BlockCache.Capacity.{find-index}
use naive_fs.BlockCache.Coherence.{view, IsValid}
use naive_fs.BlockCache.Operations.{get-view, insert-view}
use naive_fs.FileSystem.{
  FileSystem, GroupMap, find_group, put_group, load_group, copy_block, read_block, get_block_with,
  get_block,
}
use naive_fs.FileSystem.Groups.{find_group-put_group}
use naive_fs.FileSystem.State.{group_of, blocks_of, block_allocated, IsFileSystem}

get_block-there :
    (g : Group) (i : ℕ)
    → test g.block_bitmap i ≡ true
    → Group.get_block g i ≡ some (data_block_offset g i)
unfolding Group.get_block
get_block-there g i h = rw h refl

blocks_of-some :
    (o : Option Group) (i : ℕ)
    → blocks_of o i ≡ true
    → (g : Group) × ((o ≡ some g) × (test g.block_bitmap i ≡ true))
blocks_of-some none i e = absurd (let no : ⊥ = cc in no)
blocks_of-some (some g) i e = (g, (refl, e))

module _ {B : Type 0} where
  -- Two states with the same groups, in memory or not, have the same blocks and inodes.
  abbrev pub SameGroups : FileSystem B → FileSystem B → Type 0
  SameGroups fs fs' = (j : ℕ) → group_of fs' j ≡ group_of fs j

  pub SameGroups-block_allocated :
      (fs fs' : FileSystem B)
      → SameGroups fs fs'
      → (c : ℕ) → block_allocated fs' c ≡ block_allocated fs c
  unfolding block_allocated
  SameGroups-block_allocated fs fs' h c =
      ap (λ o. blocks_of o (c % total_blocks_per_group)) (h (c / total_blocks_per_group))

  -- `load_group` gives the group, and a state with the same groups.
  abbrev pub Loaded : FileSystem B → Group → Option (Group × FileSystem B) → Type 0
  Loaded fs g none = ⊥
  Loaded fs g (some (h, fs')) =
      (h ≡ g)
      × ((l : GroupMap) × ((fs' ≡ record fs { block_groups = l })
            × ((j : ℕ) → group_of (record fs { block_groups = l }) j ≡ group_of fs j)))

  in_memory :
      (fs : FileSystem B) (k : ℕ) (h : Group)
      → find_group k fs.block_groups ≡ some h
      → group_of fs k ≡ some h
  in_memory fs k h e = ground (arith, e)

  on_disk :
      (fs : FileSystem B) (k d : ℕ)
      → find_group k fs.block_groups ≡ none
      → get_elem? fs.desc_table k ≡ some d
      → group_of fs k ≡ some (fs.group_on_disk d)
  on_disk fs k d e q = ground (arith, e, q)

  nowhere :
      (fs : FileSystem B) (k : ℕ)
      → find_group k fs.block_groups ≡ none
      → get_elem? fs.desc_table k ≡ none
      → group_of fs k ≡ none
  nowhere fs k e q = ground (arith, e, q)

  load_group-Loaded :
      (fs : FileSystem B) (k : ℕ) (g : Group)
      → group_of fs k ≡ some g
      → Loaded fs g (load_group fs k)
  unfolding load_group
  load_group-Loaded fs k g here = elim (Option-cases (find_group k fs.block_groups)) [
    | inr (h, found) ↦
        rw (found, load_group)
          (
            ap (λ o. elim o [ none ↦ h | some x ↦ x ]) (sym (in_memory fs k h found) ∙ here),
            (fs.block_groups, (refl, λ j. refl)),
          )
    | inl absent ↦ elim (Option-cases (get_elem? fs.desc_table k)) [
      | inl missing ↦ absurd (none_ne_some (sym (nowhere fs k absent missing) ∙ here))
      | inr (d, found) ↦
          let h = fs.group_on_disk d in
          let l = put_group k h fs.block_groups in
          rw (absent, load_group)
            (rw found (
              ap (λ o. elim o [ none ↦ h | some x ↦ x ]) (sym (on_disk fs k d absent found) ∙ here),
              (
                l,
                (
                  refl,
                  λ j. elim (ℕ_discrete k j) [
                    | yes e ↦
                        let now : find_group j l ≡ some h =
                          find_group-put_group k h fs.block_groups j ∙ ground (arith, e) in
                        in_memory (record fs { block_groups = l }) j h now
                        ∙ sym (on_disk fs k d absent found)
                        ∙ ap (group_of fs) e
                    | no ne ↦
                        let same : find_group j l ≡ find_group j fs.block_groups =
                          find_group-put_group k h fs.block_groups j ∙ ground (arith, ne) in
                        ground (arith, same)
                  ],
                ),
              ),
            ))
    ]
  ]

  -- A well-formed file system whose cache is valid.
  pub record IsSound (fs : FileSystem B) : Type 0 where
    pub system : IsFileSystem fs
    pub size : ℕ
    pub some_entry : 0 < size
    pub cache : IsValid size fs.block_cache fs.disk

  -- Reading block b into the cache, or finding it there, changes nothing that a reader sees.
  pub record Shows (fs : FileSystem B) (b : ℕ) : Type 0 where
    pub hit :
        (n : Node B)
        → find b fs.block_cache.nodes ≡ some n
        → ((get fs.block_cache b false).0 ≡ some (view fs.block_cache.nodes fs.disk b))
          × ((c : ℕ)
              → view (get fs.block_cache b false).1.nodes fs.disk c
                ≡ view fs.block_cache.nodes fs.disk c)
    pub miss :
        find b fs.block_cache.nodes ≡ none
        → let (cache, disk) = insert fs.block_cache fs.disk b (fs.disk b) false in
          (fs.super.s_blocks_per_group ≡ total_blocks_per_group)
          × ((c : ℕ)
              → view cache.nodes disk c
                ≡ (if b == c then fs.disk b else view fs.block_cache.nodes fs.disk c))

  pub IsSound-Shows : (fs : FileSystem B) (b : ℕ) → IsSound fs → Shows fs b
  IsSound-Shows fs b v = record {
    hit = λ n e.
        let (block, views, _) = get-view v.size fs.block_cache fs.disk b false v.cache in
        (block ∙ ground (arith, e), views);
    miss = λ e. (
      v.system.block_geometry,
      (insert-view v.size fs.block_cache fs.disk b (fs.disk b) false v.some_entry v.cache e
          (λ q. refl)).0,
    );
  }

  -- The block as a reader saw it is found, and has an entry in the cache afterwards; what a reader sees
  -- is as before, and so are the allocated blocks and the inodes.
  abbrev pub Gets : FileSystem B → ℕ → Option (Option B × FileSystem B) → Type 0
  Gets fs b none = ⊥
  Gets fs b (some (none, fs')) = ⊥
  Gets fs b (some (some block, fs')) =
      (block ≡ view fs.block_cache.nodes fs.disk b)
      × ((n : Node B) × (find b fs'.block_cache.nodes ≡ some n))
      × ((c : ℕ) → view fs'.block_cache.nodes fs'.disk c ≡ view fs.block_cache.nodes fs.disk c)
      × SameGroups fs fs'

  get-found :
      (c : BlockCache B) (b : ℕ) (n : Node B)
      → find b c.nodes ≡ some n
      → (m : Node B) × (find b (get c b false).1.nodes ≡ some m)
  unfolding get find
  get-found c b n hit =
      let e = find-index b c.nodes n hit in
      let t : (n.index == b) ≡ true = ground arith in (n, rw (hit, get) (ground (arith, t)))

  insert-found :
      (c : BlockCache B) (disk : ℕ → B) (b : ℕ) (block : B)
      → find b c.nodes ≡ none
      → (m : Node B) × (find b (insert c disk b block false).0.nodes ≡ some m)
  unfolding insert find
  insert-found c disk b block miss =
      let t : (b == b) ≡ true = ground arith in
      let m : Node B = record { dirty = false; index = b; block = block } in
      elim (Bool-cases (c.free_entries == 0)) [
        | inl u ↦ (m, rw (miss, insert) (rw (u, t) refl))
        | inr u ↦ (m, rw (miss, insert) (rw (u, t) refl))
      ]

  get-missed : (c : BlockCache B) (b : ℕ) → find b c.nodes ≡ none → get c b false ≡ (none, c)
  unfolding get
  get-missed c b miss = rw (miss, get) refl

  read_block-Gets :
      (fs : FileSystem B) (b : ℕ) (g : Group) (l : GroupMap)
      → Shows fs b
      → find b fs.block_cache.nodes ≡ none
      → test g.block_bitmap (b % total_blocks_per_group) ≡ true
      → SameGroups fs (record fs { block_groups = l })
      → Gets fs b (some (read_block (record fs { block_groups = l }) g b false (λ x. x)))
  unfolding read_block copy_block
  read_block-Gets fs b g l v miss there same =
      let (geometry, views) = v.miss miss in
      let at : test g.block_bitmap (b % fs.super.s_blocks_per_group) ≡ true =
        ap (λ n. test g.block_bitmap (b % n)) geometry ∙ there in
      let found : Group.get_block g (b % fs.super.s_blocks_per_group)
          ≡ some (data_block_offset g (b % fs.super.s_blocks_per_group)) =
        get_block-there g (b % fs.super.s_blocks_per_group) at in
      let seen : view fs.block_cache.nodes fs.disk b ≡ fs.disk b = ground (arith, miss) in
      rw (found, read_block, Gets)
        (
          sym seen,
          insert-found fs.block_cache fs.disk b (fs.disk b) miss,
          (λ c. elim (ℕ_discrete b c) [
            | yes e ↦
                views c
                ∙ ground (arith, e, seen, ap (view fs.block_cache.nodes fs.disk) e, ap fs.disk e)
            | no ne ↦ views c ∙ ground (arith, ne)
          ]),
          same,
        )

  Loaded-Gets :
      (fs : FileSystem B) (b : ℕ) (g : Group) (r : Option (Group × FileSystem B))
      → Shows fs b
      → find b fs.block_cache.nodes ≡ none
      → test g.block_bitmap (b % total_blocks_per_group) ≡ true
      → Loaded fs g r
      → Gets fs b
          (elim r [ none ↦ none | some (h, fs') ↦ some (read_block fs' h b false (λ x. x)) ])
  Loaded-Gets fs b g none v miss there e = absurd e
  Loaded-Gets fs b g (some (h, fs')) v miss there (e, (l, (q, same))) =
      subst (λ x. Gets fs b (some (read_block x h b false (λ x. x)))) (sym q)
        (subst
          (λ x. Gets fs b (some (read_block (record fs { block_groups = l }) x b false (λ x. x))))
          (sym e) (read_block-Gets fs b g l v miss there same))

  cached-Gets :
      (fs : FileSystem B) (b : ℕ) (r : Option B × BlockCache B)
      → r.0 ≡ some (view fs.block_cache.nodes fs.disk b)
      → (n : Node B) × (find b r.1.nodes ≡ some n)
      → ((c : ℕ) → view r.1.nodes fs.disk c ≡ view fs.block_cache.nodes fs.disk c)
      → Gets fs b (get_block_with fs b false (λ x. x) r)
  unfolding get_block_with copy_block
  cached-Gets fs b (none, cache) e found views = absurd (none_ne_some e)
  cached-Gets fs b (some block, cache) e found views =
      (ap (λ o. elim o [ none ↦ block | some x ↦ x ]) e, found, views, λ j. refl)

  -- Where reading shows the same, `get_block` of an allocated block gives it as a reader saw it.
  pub get_block-Gets :
      (fs : FileSystem B) (b : ℕ)
      → Shows fs b
      → block_allocated fs b ≡ true
      → Gets fs b (get_block fs b false (λ x. x))
  unfolding get_block block_allocated get_block_with
  get_block-Gets fs b v there = elim (Option-cases (find b fs.block_cache.nodes)) [
    | inr (n, hit) ↦
        let (block, views) = v.hit n hit in
        cached-Gets fs b (get fs.block_cache b false) block (get-found fs.block_cache b n hit) views
    | inl miss ↦
        let (g, (here, set)) =
          blocks_of-some (group_of fs (b / total_blocks_per_group)) (b % total_blocks_per_group)
            there in
        let k : b / fs.super.s_blocks_per_group ≡ b / total_blocks_per_group =
          ap (λ n. b / n) (v.miss miss).0 in
        rw (get-missed fs.block_cache b miss) (
          rw (k, get_block_with, Gets)
            (Loaded-Gets fs b g (load_group fs (b / total_blocks_per_group)) v miss set
              (load_group-Loaded fs (b / total_blocks_per_group) g here)))
  ]
