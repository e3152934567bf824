-- ===== src/BlockCache/Loss.antt =====
-- What becomes of a block that enters the cache clean, though the disk has another one there.
use naive_fs.Base.{
  ℕ, zero, suc, ◌+◌, ◌≤◌, ◌<◌, ◌≡◌, ◌≢◌, refl, sym, ap, ◌∙◌, subst, Bool, true, false, ◌||◌, ◌==◌,
  arith, none, List, [], ◌∷◌, length, ℕ_discrete,
}
use naive_fs.BlockCache.{Node, BlockCache, find, split_last, evict, insert, release}
use naive_fs.BlockCache.Coherence.{view, release_ne}
use naive_fs.BlockCache.Operations.{insert_free}

module _ {ℓ} {B : Type ℓ} where
  -- Whether a block has an entry.
  abbrev pub has : ℕ → List (Node B) → Bool
  has j [] = false
  has j (n ∷ l) = n.index == j || has j l

  has-find : (j : ℕ) (l : List (Node B)) → has j l ≡ false → find j l ≡ none
  unfolding find
  has-find j [] h = refl
  has-find j (n ∷ l) h = ground (arith, has-find j l)

  -- Blocks that are read from the disk one after the other, none of them cached.
  abbrev pub read_all : BlockCache B → (ℕ → B) → List ℕ → BlockCache B × (ℕ → B)
  read_all c disk [] = (c, disk)
  read_all c disk (j ∷ js) =
      let (c', disk') = insert c disk j (disk j) false in read_all c' disk' js

  abbrev pub AreMissed : ℕ → BlockCache B → (ℕ → B) → List ℕ → Type 0
  AreMissed i c disk [] = Unit {0}
  AreMissed i c disk (j ∷ js) =
      (j ≢ i)
      × (has j c.nodes ≡ false)
      × (let (c', disk') = insert c disk j (disk j) false in AreMissed i c' disk' js)

  -- The entries of block i are clean, and none of them is among the first k.
  abbrev AreLate : ℕ → ℕ → List (Node B) → Type 0
  AreLate i k [] = Unit {0}
  AreLate i zero (n ∷ l) = (n.index ≡ i → n.dirty ≡ false) × AreLate i zero l
  AreLate i (suc k) (n ∷ l) = (n.index ≢ i) × AreLate i k l

  AreLate-split_last :
      (i k : ℕ) (n : Node B) (l : List (Node B))
      → AreLate i k (n ∷ l)
      → AreLate i k (split_last n l).0
        × ((split_last n l).1.index ≡ i → (split_last n l).1.dirty ≡ false)
  unfolding split_last
  AreLate-split_last i zero n [] h = (tt, h.0)
  AreLate-split_last i (suc k) n [] h = (tt, λ e. absurd (h.0 e))
  AreLate-split_last i zero n (m ∷ l) h =
      let (rest, last) = AreLate-split_last i zero m l h.1 in ((h.0, rest), last)
  AreLate-split_last i (suc k) n (m ∷ l) h =
      let (rest, last) = AreLate-split_last i k m l h.1 in ((h.0, rest), last)

  release-clean :
      (n : Node B) (disk : ℕ → B) (i : ℕ)
      → (n.index ≡ i → n.dirty ≡ false)
      → release n disk i ≡ disk i
  unfolding release
  release-clean n disk i h = elim (ℕ_discrete n.index i) [
    | yes e ↦ rw (h e) refl
    | no ne ↦ release_ne n disk i ne
  ]

  length-split_last : (n : Node B) (l : List (Node B)) → length (split_last n l).0 ≡ length l
  unfolding split_last
  length-split_last n [] = refl
  length-split_last n (m ∷ l) = ap suc (length-split_last m l)

  -- What an insertion of a block that is not cached leaves of the others, and of block i on the disk.
  abbrev Adds : ℕ → ℕ → ℕ → ℕ → B → (ℕ → B) → BlockCache B × (ℕ → B) → Type ℓ
  Adds size i k j block disk (c', disk') =
      ((rest : List (Node B)) × ((c'.nodes
            ≡ record { dirty = false; index = j; block = block } ∷ rest)
          × AreLate i k rest))
      × (length c'.nodes + c'.free_entries ≡ size)
      × (disk' i ≡ disk i)

  insert-Adds :
      (size i k j : ℕ) (l : List (Node B)) (free : ℕ) (disk : ℕ → B) (block : B)
      → 0 < size
      → length l + free ≡ size
      → has j l ≡ false
      → AreLate i k l
      → Adds size i k j block disk
          (insert (record { nodes = l; free_entries = free }) disk j block false)
  unfolding insert evict
  insert-Adds size i k j l (suc free) disk block pos full miss late =
      rw
        (insert_free (record { nodes = l; free_entries = suc free }) disk j block false
          (omega arith) (has-find j l miss))
        ((l, (refl, late)), omega (arith, full), refl)
  insert-Adds size i k j [] zero disk block pos full miss late = absurd (omega (arith, pos, full))
  insert-Adds size i k j (n ∷ l) zero disk block pos full miss late =
      let (rest, last) = AreLate-split_last i k n l late in
      rw (has-find j (n ∷ l) miss, insert)
        (
          ((split_last n l).0, (refl, rest)),
          omega (arith, full, length-split_last n l),
          release-clean (split_last n l).1 disk i last,
        )

  absent-AreLate : (i : ℕ) (l : List (Node B)) → has i l ≡ false → AreLate i zero l
  absent-AreLate i [] h = tt
  absent-AreLate i (n ∷ l) h =
      ((λ e. absurd (ground (arith, e, h))), absent-AreLate i l (ground arith))

  AreLate-absent : (i k : ℕ) (l : List (Node B)) → length l ≤ k → AreLate i k l → find i l ≡ none
  unfolding find
  AreLate-absent i k [] h late = refl
  AreLate-absent i zero (n ∷ l) h late = absurd (omega (arith, h))
  AreLate-absent i (suc k) (n ∷ l) h late =
      let rest = AreLate-absent i k l (omega (arith, h)) late.1 in
      let t : (n.index == i) ≡ false = ground (arith, late.0) in rw t rest

  read_all-lost :
      (size i k : ℕ) (js : List ℕ) (c : BlockCache B) (disk : ℕ → B)
      → 0 < size
      → length c.nodes + c.free_entries ≡ size
      → AreMissed i c disk js
      → AreLate i k c.nodes
      → size ≤ k + length js
      → let (c', disk') = read_all c disk js in view c'.nodes disk' i ≡ disk i
  read_all-lost size i k [] c disk pos full miss late enough =
      let gone = AreLate-absent i k c.nodes (omega (arith, full, enough)) late in
      ground (arith, gone)
  read_all-lost size i k (j ∷ js) c disk pos full (ne, miss, more) late enough =
      let ((rest, (e, late')), full', same) =
        insert-Adds size i k j c.nodes c.free_entries disk (disk j) pos full miss late in
      let step : AreLate i (suc k) (insert c disk j (disk j) false).0.nodes =
        subst (AreLate i (suc k)) (sym e) (ne, late') in
      read_all-lost size i (suc k) js (insert c disk j (disk j) false).0
        (insert c disk j (disk j) false).1 pos full' more step (omega (arith, enough))
      ∙ same

  -- In a cache of at least one entry, a block that is not cached and enters it clean is what a reader
  -- sees, but once as many other blocks as the cache has entries have been read into it after that one,
  -- none of them being cached at its time, a reader sees the block that the disk had there before.
  pub insert-lost :
      (size : ℕ) (c : BlockCache B) (disk : ℕ → B) (i : ℕ) (block : B) (js : List ℕ)
      → 0 < size
      → length c.nodes + c.free_entries ≡ size
      → has i c.nodes ≡ false
      → let (c1, disk1) = insert c disk i block false in
        AreMissed i c1 disk1 js
        → length js ≡ size
        → (view c1.nodes disk1 i ≡ block)
          × (let (c2, disk2) = read_all c1 disk1 js in view c2.nodes disk2 i ≡ disk i)
  unfolding find
  insert-lost size c disk i block js pos full miss more enough =
      let ((rest, (e, late)), full', same) =
        insert-Adds size i zero i c.nodes c.free_entries disk block pos full miss
          (absent-AreLate i c.nodes miss) in
      let (c1, disk1) = insert c disk i block false in
      let here : (i == i) ≡ true = ground arith in
      (
        ap (λ l. view l disk1 i) e ∙ ground (arith, here),
        read_all-lost size i zero js c1 disk1 pos full' more
              (subst (AreLate i zero) (sym e) ((λ _. refl), late)) (omega (arith, enough))
            ∙ same,
      )
