-- ===== src/FileSystem/Groups.antt =====
-- Lookup in the map of block groups, and what the loop over it does.
use naive_fs.Base.{
  ℕ, ◌≤◌, ◌≡◌, ◌≢◌, refl, ap, ◌∙◌, true, false, ◌==◌, if◌then◌else◌, Bool-cases, inl, inr, arith,
  Option, none, some, [], ◌∷◌, ℕ_discrete, dec_lt, ltb,
}
use naive_fs.Group.{Group}
use naive_fs.FileSystem.{GroupMap, find_group, put_group, take_from, alloc_in_groups}

-- The keys ascend.
abbrev pub Sorted : GroupMap → Type 0
Sorted [] = Unit {0}
Sorted ((k, g) ∷ l) = ((j : ℕ) → j ≤ k → find_group j l ≡ none) × Sorted l

pub find_group-put_group :
    (k : ℕ) (g : Group) (l : GroupMap) (j : ℕ)
    → find_group j (put_group k g l) ≡ (if k == j then some g else find_group j l)
unfolding find_group put_group
find_group-put_group k g [] j = refl
find_group-put_group k g ((i, h) ∷ l) j = ground (arith, find_group-put_group k g l j)

pub put_group-Sorted : (k : ℕ) (g : Group) (l : GroupMap) → Sorted l → Sorted (put_group k g l)
unfolding find_group put_group
put_group-Sorted k g [] s = ((λ j h. refl), tt)
put_group-Sorted k g ((i, h) ∷ l) s = elim (ℕ_discrete i k) [
  | yes e ↦
      let t : (i == k) ≡ true = ground arith in
      rw (t, put_group) ((λ j q. s.0 j (omega (arith, e))), s.1)
  | no ne ↦
      let t : (i == k) ≡ false = ground arith in
      elim (dec_lt k i) [
        | yes p ↦
            let u : ltb k i ≡ true = ground arith in
            rw (t, u, put_group) ((λ j q. ground (arith, s.0 j)), s)
        | no p ↦
            let u : ltb k i ≡ false = ground arith in
            rw (t, u, put_group)
              (
                (λ j q. find_group-put_group k g l j ∙ ground (arith, s.0 j)),
                put_group-Sorted k g l s.1,
              )
      ]
]

module _ {A : Type 0} (free_count : Group → ℕ) (alloc : Group → Option A × Group) where
  -- What the loop gives: no change, or the result of the call in one group, which it replaces.
  abbrev pub Takes : GroupMap → Option (ℕ × A) × GroupMap → Type 0
  Takes l (none, l') = l' ≡ l
  Takes l (some (k, a), l') =
      (g : Group) × (g' : Group) × (find_group k l ≡ some g)
      × (alloc g ≡ (some a, g'))
      × ((j : ℕ) → find_group j l' ≡ (if k == j then some g' else find_group j l))
      × Sorted l'

  later :
      (k : ℕ) (g : Group) (l : GroupMap) (r : Option (ℕ × A) × GroupMap)
      → Sorted ((k, g) ∷ l)
      → Takes l r
      → Takes ((k, g) ∷ l) (r.0, (k, g) ∷ r.1)
  unfolding find_group
  later k g l (none, l') s t = ap (λ x. (k, g) ∷ x) t
  later k g l (some (i, a), l') s (h, h', found, called, all, sorted) =
      let ne : k ≢ i = λ e. absurd (ground (arith, s.0 i)) in
      (
        h,
        h',
        ground arith,
        called,
        λ j. ground (arith, all j),
        ((λ j q. ground (arith, all j, s.0 j)), sorted),
      )

  take_from-Takes :
      (k : ℕ) (g : Group) (l : GroupMap) (c : Option A × Group) (r : Option (ℕ × A) × GroupMap)
      → alloc g ≡ c
      → (c.0 ≡ none → c.1 ≡ g)
      → Sorted ((k, g) ∷ l)
      → Takes l r
      → Takes ((k, g) ∷ l) (take_from free_count alloc k c r l)
  unfolding take_from find_group
  take_from-Takes k g l (none, g') r e same s t = rw (same refl) (later k g l r s t)
  take_from-Takes k g l (some a, g') r e same s t = (g, g', ground arith, e, (λ j. ground arith), s)

  -- The loop over groups in which a call that fails changes nothing.
  pub alloc_in_groups-Takes :
      (l : GroupMap)
      → ((k : ℕ) (g : Group) → find_group k l ≡ some g → (alloc g).0 ≡ none → (alloc g).1 ≡ g)
      → Sorted l
      → Takes l (alloc_in_groups free_count alloc l)
  unfolding alloc_in_groups find_group
  alloc_in_groups-Takes [] same s = refl
  alloc_in_groups-Takes ((k, g) ∷ l) same s =
      let rest = alloc_in_groups-Takes l (λ j h e. same j h (ground (arith, s.0 j))) s.1 in
      let here = same k g (ground arith) in
      elim (Bool-cases (free_count g == 0)) [
        | inl e ↦ rw (e, alloc_in_groups) (later k g l _ s rest)
        | inr e ↦ rw (e, alloc_in_groups) (take_from-Takes k g l (alloc g) _ refl here s rest)
      ]
