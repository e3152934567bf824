-- ===== src/BlockCache/Coherence.antt =====
-- What a reader sees through the cache: the cached block, else the one on the disk. The calls of the
-- cache keep it, so that eviction and write-back lose nothing.
use naive_fs.Base.{
  ℕ, ◌+◌, ◌≡◌, ◌≢◌, sym, ap, subst, ◌∙◌, false, arith, none, some, List, [], ◌∷◌, ◌++◌, length,
  ℕ_discrete,
}
use naive_fs.BlockCache.{Node, BlockCache, find, split_last, evict, release, init}
use naive_fs.BlockCache.Capacity.{
  Distinct, split_last_lem, find-append, Distinct-append, length-snoc,
}

module _ {ℓ} {B : Type ℓ} where
  abbrev pub view : List (Node B) → (ℕ → B) → ℕ → B
  view l disk j = elim (find j l) [ none ↦ disk j | some n ↦ n.block ]

  -- The disk holds every block whose entry is clean.
  abbrev pub IsCoherent : List (Node B) → (ℕ → B) → Type ℓ
  IsCoherent l disk = (j : ℕ) (n : Node B) → find j l ≡ some n → n.dirty ≡ false → disk j ≡ n.block

  pub record IsValid (size : ℕ) (c : BlockCache B) (disk : ℕ → B) : Type ℓ where
    pub distinct : Distinct c.nodes
    pub coherent : IsCoherent c.nodes disk
    pub entries : length c.nodes + c.free_entries ≡ size

  pub init-IsValid : (size : ℕ) (disk : ℕ → B) → IsValid size (init size) disk
  unfolding init find
  init-IsValid size disk = record { distinct = tt; coherent = λ j n e c. cc; entries = omega arith }

  -- Writing an entry back to the disk, or only if it is dirty.
  pub release-block :
      (n : Node B) (disk : ℕ → B) (j : ℕ)
      → n.index ≡ j
      → (n.dirty ≡ false → disk j ≡ n.block)
      → release n disk j ≡ n.block
  unfolding release
  release-block n disk j e h = ground (arith, h)

  pub release_ne : (n : Node B) (disk : ℕ → B) (j : ℕ) → n.index ≢ j → release n disk j ≡ disk j
  unfolding release
  release_ne n disk j h = ground arith

  -- Taking the last entry out.
  module _ (xs : List (Node B)) (m : Node B) (disk : ℕ → B) where
    last_found : (j : ℕ) → find j xs ≡ none → m.index ≡ j → find j (xs ++ (m ∷ [])) ≡ some m
    last_found j e h = find-append j xs m ∙ ground arith

    view-drop_last :
        IsCoherent (xs ++ (m ∷ [])) disk
        → (j : ℕ) → view xs (release m disk) j ≡ view (xs ++ (m ∷ [])) disk j
    view-drop_last h j = elim (ℕ_discrete m.index j) [
      | yes e ↦ ground (arith, find-append j xs m, release-block m disk j e, h j m)
      | no ne ↦ ground (arith, find-append j xs m, release_ne m disk j ne)
    ]

    IsCoherent-drop_last :
        Distinct (xs ++ (m ∷ []))
        → IsCoherent (xs ++ (m ∷ [])) disk
        → IsCoherent xs (release m disk)
    IsCoherent-drop_last d h j n e c =
        let absent = (Distinct-append xs m d).1 in
        elim (ℕ_discrete m.index j) [
          | yes q ↦ absurd (ground (arith, ap (λ k. find k xs) q))
          | no ne ↦ release_ne m disk j ne ∙ h j n (find-append j xs m ∙ ground arith) c
        ]

  -- An eviction writes a dirty victim back: the view is as before, whatever the victim is.
  pub evict-view :
      (n : Node B) (l : List (Node B)) (disk : ℕ → B)
      → IsCoherent (n ∷ l) disk
      → (j : ℕ) → view (evict (n ∷ l) disk).0 (evict (n ∷ l) disk).1 j ≡ view (n ∷ l) disk j
  unfolding evict
  evict-view n l disk h j =
      let e = split_last_lem n l in
      view-drop_last (split_last n l).0 (split_last n l).1 disk (subst (λ x. IsCoherent x disk) e h)
        j
      ∙ ap (λ x. view x disk j) (sym e)

  pub evict-IsValid :
      (n : Node B) (l : List (Node B)) (disk : ℕ → B)
      → Distinct (n ∷ l)
      → IsCoherent (n ∷ l) disk
      → Distinct (evict (n ∷ l) disk).0
        × IsCoherent (evict (n ∷ l) disk).0 (evict (n ∷ l) disk).1
        × (length (evict (n ∷ l) disk).0 ≡ length l)
  unfolding evict
  evict-IsValid n l disk d h =
      let e = split_last_lem n l in
      let d' = subst Distinct e d in
      (
        (Distinct-append (split_last n l).0 (split_last n l).1 d').0,
        IsCoherent-drop_last (split_last n l).0 (split_last n l).1 disk d'
            (subst (λ x. IsCoherent x disk) e h),
        omega (arith, ap length e, length-snoc (split_last n l).0 (split_last n l).1),
      )

  pub evict-absent :
      (n : Node B) (l : List (Node B)) (disk : ℕ → B) (j : ℕ)
      → find j (n ∷ l) ≡ none
      → find j (evict (n ∷ l) disk).0 ≡ none
  unfolding evict
  evict-absent n l disk j h =
      let rest = (split_last n l).0 in
      let last = (split_last n l).1 in
      let h' : find j (rest ++ (last ∷ [])) ≡ none = ap (find j) (sym (split_last_lem n l)) ∙ h in
      ground (arith, h', find-append j rest last)

  -- An eviction writes no block that was not cached.
  pub evict-miss :
      (n : Node B) (l : List (Node B)) (disk : ℕ → B) (j : ℕ)
      → find j (n ∷ l) ≡ none
      → (evict (n ∷ l) disk).1 j ≡ disk j
  unfolding evict
  evict-miss n l disk j h =
      let rest = (split_last n l).0 in
      let last = (split_last n l).1 in
      let h' : find j (rest ++ (last ∷ [])) ≡ none = ap (find j) (sym (split_last_lem n l)) ∙ h in
      elim (ℕ_discrete last.index j) [
        | yes p ↦ absurd (ground (arith, h', find-append j rest last))
        | no ne ↦ release_ne last disk j ne
      ]
