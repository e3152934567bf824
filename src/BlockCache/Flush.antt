-- ===== src/BlockCache/Flush.antt =====
-- Flushing, and stores through the pointer of a cached block.
use naive_fs.Base.{
  ℕ, suc, ◌≡◌, ◌≢◌, refl, sym, ap, ◌∙◌, true, false, ◌==◌, if◌then◌else◌, arith, none, some, List,
  [], ◌∷◌, length, ℕ_discrete, Option-cases, inl, inr,
}
use mathlib.Core.Option
use naive_fs.BlockCache.{Node, BlockCache, find, release, change, modify, store, flush_nodes, flush}
use naive_fs.BlockCache.Capacity.{
  Distinct, find-change_ne, find-change_self, find-change-none, change-Distinct, length-change,
}
use naive_fs.BlockCache.Coherence.{view, IsCoherent, IsValid, release-block, release_ne}

module _ {ℓ} {B : Type ℓ} where
  abbrev cleaned : Node B → Node B
  cleaned n = record n { dirty = false }

  IsCoherent-tail :
      (n : Node B) (l : List (Node B)) (disk : ℕ → B)
      → Distinct (n ∷ l)
      → IsCoherent (n ∷ l) disk
      → IsCoherent l (release n disk)
  unfolding find
  IsCoherent-tail n l disk d h j m e c = elim (ℕ_discrete n.index j) [
    | yes p ↦ absurd (ground (arith, ap (λ k. find k l) p, d.0))
    | no ne ↦ release_ne n disk j ne ∙ h j m (ground arith) c
  ]

  -- The disk holds what a reader saw, and the entries are the same but clean.
  flush_nodes-disk :
      (l : List (Node B)) (disk : ℕ → B)
      → Distinct l
      → IsCoherent l disk
      → (j : ℕ)
      → ((flush_nodes l disk).1 j ≡ view l disk j)
        × (find j (flush_nodes l disk).0 ≡ Option.map cleaned (find j l))
  unfolding flush_nodes find
  flush_nodes-disk [] disk d h j = (refl, refl)
  flush_nodes-disk (n ∷ l) disk d h j =
      let (written, found) =
        flush_nodes-disk l (release n disk) d.1 (IsCoherent-tail n l disk d h) j in
      elim (ℕ_discrete n.index j) [
        | yes p ↦
            let absent : find j l ≡ none = ap (λ k. find k l) (sym p) ∙ d.0 in
            (
              written ∙ ground (arith, absent, release-block n disk j p, h j n),
              ground (arith, found),
            )
        | no ne ↦ (written ∙ ground (arith, release_ne n disk j ne), ground (arith, found))
      ]

  flush_nodes-Distinct :
      (l : List (Node B)) (disk : ℕ → B)
      → Distinct l
      → IsCoherent l disk
      → Distinct (flush_nodes l disk).0 × (length (flush_nodes l disk).0 ≡ length l)
  unfolding flush_nodes find
  flush_nodes-Distinct [] disk d h = (d, refl)
  flush_nodes-Distinct (n ∷ l) disk d h =
      let rest = IsCoherent-tail n l disk d h in
      let (d', e) = flush_nodes-Distinct l (release n disk) d.1 rest in
      let found = (flush_nodes-disk l (release n disk) d.1 rest n.index).1 in
      ((found ∙ ap (Option.map cleaned) d.0, d'), ap suc e)

  -- For a valid cache, where the disk holds the block of every clean entry: after `flush()` the disk
  -- holds every block as a reader saw it, and a reader sees the same as before. The cache stays valid.
  pub flush-view :
      (size : ℕ) (c : BlockCache B) (disk : ℕ → B)
      → IsValid size c disk
      → let (c', disk') = flush c disk in
        ((j : ℕ) → disk' j ≡ view c.nodes disk j)
        × ((j : ℕ) → view c'.nodes disk' j ≡ view c.nodes disk j)
        × IsValid size c' disk'
  unfolding flush
  flush-view size c disk v =
      let all = flush_nodes-disk c.nodes disk v.distinct v.coherent in
      let (d, e) = flush_nodes-Distinct c.nodes disk v.distinct v.coherent in
      (
        λ j. (all j).0,
        λ j. ground (arith, all j),
        record {
          distinct = d;
          coherent = λ j n f q. ground (arith, all j);
          entries = omega (arith, e, v.entries);
        },
      )

  -- For a valid cache, a store through the pointer of a cached block, then `modify`: the reader sees the new block, and
  -- the others as before. The cache stays valid.
  pub modify-store :
      (size : ℕ) (c : BlockCache B) (disk : ℕ → B) (i : ℕ) (block : B) (n : Node B)
      → IsValid size c disk
      → find i c.nodes ≡ some n
      → let c' = modify (store c i block) i in
        ((j : ℕ) → view c'.nodes disk j ≡ (if i == j then block else view c.nodes disk j))
        × IsValid size c' disk
  unfolding modify store
  modify-store size c disk i block n v hit =
      let put : Node B → Node B = λ m. record m { block = block } in
      let mark : Node B → Node B = λ m. record m { dirty = true } in
      let stored = change i put c.nodes in
      let here : find i (change i mark stored) ≡ some (mark (put n)) =
        find-change_self i mark stored (put n) (λ m. refl)
          (find-change_self i put c.nodes n (λ m. refl) hit) in
      let else_ : (j : ℕ) → j ≢ i → find j (change i mark stored) ≡ find j c.nodes = λ j ne.
        find-change_ne i j mark stored (λ m. refl) ne
        ∙ find-change_ne i j put c.nodes (λ m. refl) ne in
      (
        λ j. elim (ℕ_discrete i j) [
          | yes p ↦ ground (arith, here, ap (λ k. find k (change i mark stored)) p)
          | no ne ↦ ground (arith, else_ j (λ q. ne (sym q)))
        ],
        record {
          distinct =
              change-Distinct i mark stored (λ m. refl)
                (change-Distinct i put c.nodes (λ m. refl) v.distinct);
          coherent = λ j m f q. elim (ℕ_discrete j i) [
            | yes p ↦ absurd (ground (arith, here, ap (λ k. find k (change i mark stored)) p))
            | no ne ↦ v.coherent j m (sym (else_ j ne) ∙ f) q
          ];
          entries =
              omega (arith, length-change i mark stored, length-change i put c.nodes, v.entries);
        },
      )

  -- A store through the pointer of a cached block, before any mark.
  pub view-store :
      (c : BlockCache B) (disk : ℕ → B) (i : ℕ) (block : B) (n : Node B)
      → find i c.nodes ≡ some n
      → (j : ℕ)
      → view (store c i block).nodes disk j ≡ (if i == j then block else view c.nodes disk j)
  unfolding store
  view-store c disk i block n hit j =
      let put : Node B → Node B = λ m. record m { block = block } in
      let here = find-change_self i put c.nodes n (λ m. refl) hit in
      elim (ℕ_discrete i j) [
        | yes p ↦ ground (arith, here, ap (λ k. find k (change i put c.nodes)) p)
        | no ne ↦
            let same = find-change_ne i j put c.nodes (λ m. refl) (λ q. ne (sym q)) in
            ground (arith, same)
      ]

  -- A mark alone.
  pub view-modify :
      (c : BlockCache B) (disk : ℕ → B) (i j : ℕ)
      → view (modify c i).nodes disk j ≡ view c.nodes disk j
  unfolding modify
  view-modify c disk i j =
      let mark : Node B → Node B = λ m. record m { dirty = true } in
      elim (ℕ_discrete j i) [
        | no ne ↦ ground (arith, find-change_ne i j mark c.nodes (λ m. refl) ne)
        | yes p ↦ elim (Option-cases (find j c.nodes)) [
          | inl miss ↦
              let gone = find-change-none i j mark c.nodes (λ m. refl) miss in
              ground (arith, miss, gone)
          | inr (n, hit) ↦
              let here =
                find-change_self i mark c.nodes n (λ m. refl)
                  (ap (λ k. find k c.nodes) (sym p) ∙ hit) in
              let there = ap (λ k. find k (change i mark c.nodes)) p ∙ here in
              ground (arith, hit, there)
        ]
      ]
