-- ===== src/BlockCache/Operations.antt =====
-- The calls of the cache keep its invariant and what a reader sees.
use naive_fs.Base.{
  ℕ, zero, suc, ◌+◌, ◌-◌, ◌<◌, ◌≡◌, refl, sym, ap, ◌∙◌, inl, inr, Bool, false, ◌||◌, ◌==◌,
  if◌then◌else◌, Option-cases, arith, none, some, List, [], ◌∷◌, length, ℕ_discrete,
}
use naive_fs.BlockCache.{Node, BlockCache, find, detach, evict, insert, get, remove}
use naive_fs.BlockCache.Capacity.{
  Distinct, find-index, find-detach_ne, find-detach_self, detach-Distinct, length-detach,
}
use naive_fs.BlockCache.Coherence.{
  view, IsCoherent, IsValid, evict-view, evict-IsValid, evict-absent, evict-miss, release-block,
  release_ne,
}

module _ {ℓ} {B : Type ℓ} where
  -- An entry put in front of a list that has none for its block.
  IsCoherent-cons :
      (n : Node B) (l : List (Node B)) (disk : ℕ → B)
      → IsCoherent l disk
      → (n.dirty ≡ false → disk n.index ≡ n.block)
      → IsCoherent (n ∷ l) disk
  unfolding find
  IsCoherent-cons n l disk h q j m e c = elim (ℕ_discrete n.index j) [
    | yes p ↦ ground (arith, ap disk p, q)
    | no ne ↦ h j m (ground arith) c
  ]

  -- Moving the entry of a block to the front, with its dirty mark or-ed.
  module _ (size : ℕ) (c : BlockCache B) (disk : ℕ → B) (n : Node B) (i : ℕ) (dirty : Bool) where
    abbrev touched : List (Node B)
    touched = record n { dirty = n.dirty || dirty } ∷ detach i c.nodes

    pub touched-view : find i c.nodes ≡ some n → (j : ℕ) → view touched disk j ≡ view c.nodes disk j
    unfolding find
    touched-view e j = elim (ℕ_discrete n.index j) [
      | yes p ↦ ground (arith, ap (λ k. find k c.nodes) (sym (find-index i c.nodes n e) ∙ p))
      | no ne ↦ ground (arith, find-index i c.nodes n e, find-detach_ne i j c.nodes)
    ]

    touched-IsValid :
        find i c.nodes ≡ some n
        → IsValid size c disk
        → IsValid size (record c { nodes = touched }) disk
    unfolding find
    touched-IsValid e v = record {
      distinct = (
        ap (λ k. find k (detach i c.nodes)) (find-index i c.nodes n e)
            ∙ find-detach_self i c.nodes v.distinct,
        detach-Distinct i c.nodes v.distinct,
      );
      coherent =
          IsCoherent-cons _ (detach i c.nodes) disk
            (λ j m f d. elim (ℕ_discrete j i) [
              | yes p ↦ absurd (
                  ground (
                    arith,
                    ap (λ k. find k (detach i c.nodes)) p,
                    find-detach_self i c.nodes v.distinct,
                  ))
              | no ne ↦ v.coherent j m (sym (find-detach_ne i j c.nodes ne) ∙ f) d
            ])
            (λ d. ground (arith, find-index i c.nodes n e, v.coherent i n e));
      entries = omega (arith, length-detach i c.nodes n e, v.entries);
    }

  -- `get` returns what the reader sees, or nothing if the block is not cached; the reader sees the
  -- same afterwards, and the cache stays valid.
  pub get-view :
      (size : ℕ) (c : BlockCache B) (disk : ℕ → B) (i : ℕ) (dirty : Bool)
      → IsValid size c disk
      → ((get c i dirty).0
          ≡ elim (find i c.nodes) [ none ↦ none | some _ ↦ some (view c.nodes disk i) ])
        × ((j : ℕ) → view (get c i dirty).1.nodes disk j ≡ view c.nodes disk j)
        × IsValid size (get c i dirty).1 disk
  unfolding get
  get-view size c disk i dirty v = elim (Option-cases (find i c.nodes)) [
    | inl miss ↦ rw (miss, get) (refl, (λ j. refl), v)
    | inr (n, hit) ↦
        rw (hit, get)
          (
            ground arith,
            touched-view size c disk n i dirty hit,
            touched-IsValid size c disk n i dirty hit v,
          )
  ]

  -- A new entry in front of a list without one for its block.
  module _ (l : List (Node B)) (disk : ℕ → B) (n : Node B) (absent : find n.index l ≡ none) where
    added-view : (j : ℕ) → view (n ∷ l) disk j ≡ (if n.index == j then n.block else view l disk j)
    unfolding find
    added-view j = elim (ℕ_discrete n.index j) [ yes p ↦ ground arith | no ne ↦ ground arith ]

    added-IsValid :
        (size free : ℕ)
        → Distinct l
        → IsCoherent l disk
        → length l + 1 + free ≡ size
        → (n.dirty ≡ false → disk n.index ≡ n.block)
        → IsValid size (record { nodes = n ∷ l; free_entries = free }) disk
    added-IsValid size free d h e clean = record {
      distinct = (absent, d);
      coherent = IsCoherent-cons n l disk h clean;
      entries = omega (arith, e);
    }

  insert_miss-view :
      (size : ℕ) (l : List (Node B)) (free : ℕ) (disk : ℕ → B) (n : Node B)
      → 0 < size
      → IsValid size (record { nodes = l; free_entries = free }) disk
      → find n.index l ≡ none
      → (n.dirty ≡ false → disk n.index ≡ n.block)
      → let (c', disk') =
          let result : BlockCache B × (ℕ → B) =
            if free == 0
            then (record { nodes = n ∷ (evict l disk).0; free_entries = free }, (evict l disk).1)
            else (record { nodes = n ∷ l; free_entries = free - 1 }, disk) in
          result in
        ((j : ℕ) → view c'.nodes disk' j ≡ (if n.index == j then n.block else view l disk j))
        × IsValid size c' disk'
  insert_miss-view size l (suc free) disk n pos v miss clean =
      let e : (suc free == 0) ≡ false = ground arith in
      rw e (
        added-view l disk n miss,
        added-IsValid l disk n miss size (suc free - 1) v.distinct v.coherent
            (omega (arith, v.entries)) clean,
      )
  insert_miss-view size [] zero disk n pos v miss clean = absurd (omega (arith, v.entries))
  insert_miss-view size (m ∷ l) zero disk n pos v miss clean =
      let (d, h, e) = evict-IsValid m l disk v.distinct v.coherent in
      let absent = evict-absent m l disk n.index miss in
      (
        λ j.
            added-view (evict (m ∷ l) disk).0 (evict (m ∷ l) disk).1 n absent j
            ∙ ap (λ x. if n.index == j then n.block else x) (evict-view m l disk v.coherent j),
        added-IsValid (evict (m ∷ l) disk).0 (evict (m ∷ l) disk).1 n absent size 0 d h
            (omega (arith, e, v.entries)) (λ q. evict-miss m l disk n.index miss ∙ clean q),
      )

  -- For a valid cache, where the disk holds the block of every clean entry, and a block that is not
  -- cached and is marked dirty or equal to the one on the disk: after `insert` the reader sees that
  -- block, and all others as before, also the one that was evicted for it. The cache stays valid.
  pub insert-view :
      (size : ℕ) (c : BlockCache B) (disk : ℕ → B) (i : ℕ) (block : B) (dirty : Bool)
      → 0 < size
      → IsValid size c disk
      → find i c.nodes ≡ none
      → (dirty ≡ false → disk i ≡ block)
      → let (c', disk') = insert c disk i block dirty in
        ((j : ℕ) → view c'.nodes disk' j ≡ (if i == j then block else view c.nodes disk j))
        × IsValid size c' disk'
  unfolding insert
  insert-view size c disk i block dirty pos v miss clean =
      rw (miss, insert)
        (insert_miss-view size c.nodes c.free_entries disk
          (record { dirty = dirty; index = i; block = block }) pos v miss clean)

  -- `remove` frees the entry; the reader sees the same afterwards.
  pub remove-view :
      (size : ℕ) (c : BlockCache B) (disk : ℕ → B) (i : ℕ)
      → IsValid size c disk
      → let (c', disk') = remove c disk i in
        ((j : ℕ) → view c'.nodes disk' j ≡ view c.nodes disk j)
        × (find i c'.nodes ≡ none)
        × IsValid size c' disk'
  unfolding remove
  remove-view size c disk i v = elim (Option-cases (find i c.nodes)) [
    | inl miss ↦ rw (miss, remove) ((λ j. refl), miss, v)
    | inr (n, hit) ↦
        let index = find-index i c.nodes n hit in
        let gone = find-detach_self i c.nodes v.distinct in
        rw (hit, remove)
          (
            (λ j. elim (ℕ_discrete n.index j) [
              | yes p ↦ ground (
                arith,
                release-block n disk j p,
                ap (λ k. find k (detach i c.nodes)) (sym index ∙ p),
                ap (λ k. find k c.nodes) (sym index ∙ p),
                v.coherent i n hit,
                ap disk (sym index ∙ p),
              )
              | no ne ↦ ground (arith, release_ne n disk j ne, find-detach_ne i j c.nodes)
            ]),
            gone,
            record {
              distinct = detach-Distinct i c.nodes v.distinct;
              coherent = λ j m f d. elim (ℕ_discrete n.index j) [
                | yes p ↦
                    absurd (ground (arith, ap (λ k. find k (detach i c.nodes)) (sym index ∙ p)))
                | no ne ↦
                    release_ne n disk j ne
                    ∙ v.coherent j m (sym (find-detach_ne i j c.nodes (ground arith)) ∙ f) d
              ];
              entries = omega (arith, length-detach i c.nodes n hit, v.entries);
            },
          )
  ]

  -- Where an entry is free, nothing is evicted.
  pub insert_free :
      (c : BlockCache B) (disk : ℕ → B) (i : ℕ) (block : B) (dirty : Bool)
      → 0 < c.free_entries
      → find i c.nodes ≡ none
      → insert c disk i block dirty ≡ (
        record c {
          nodes = record { dirty = dirty; index = i; block = block } ∷ c.nodes;
          free_entries = c.free_entries - 1;
        },
        disk,
      )
  unfolding insert
  insert_free c disk i block dirty room miss =
      let t : (c.free_entries == 0) ≡ false = ground arith in rw (miss, insert) (rw t refl)
