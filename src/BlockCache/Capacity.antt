-- ===== src/BlockCache/Capacity.antt =====
-- The list of the cache: searches, the entry that is taken out, and the number of entries.
use naive_fs.Base.{
  ℕ, ◌+◌, ◌≡◌, ◌≢◌, refl, ap, subst, ◌==◌, if◌then◌else◌, arith, none, some, List, [], ◌∷◌, ◌++◌,
  length, ℕ_discrete,
}
use naive_fs.BlockCache.{Node, find, detach, split_last, change}

module _ {ℓ} {B : Type ℓ} where
  -- No block has two entries.
  abbrev pub Distinct : List (Node B) → Type ℓ
  Distinct [] = Unit {ℓ}
  Distinct (n ∷ l) = (find n.index l ≡ none) × Distinct l

  pub find-index : (i : ℕ) (l : List (Node B)) (n : Node B) → find i l ≡ some n → n.index ≡ i
  unfolding find
  find-index i [] n e = cc
  find-index i (m ∷ l) n e = ground (arith, find-index i l n)

  pub find-detach_ne : (i j : ℕ) (l : List (Node B)) → j ≢ i → find j (detach i l) ≡ find j l
  unfolding find detach
  find-detach_ne i j [] h = refl
  find-detach_ne i j (n ∷ l) h = ground (arith, find-detach_ne i j l h)

  pub find-detach_self : (i : ℕ) (l : List (Node B)) → Distinct l → find i (detach i l) ≡ none
  unfolding find detach
  find-detach_self i [] d = refl
  find-detach_self i (n ∷ l) d = elim (ℕ_discrete n.index i) [
    | yes e ↦ subst (λ k. find k (detach k (n ∷ l)) ≡ none) e (ground arith)
    | no ne ↦ ground (arith, find-detach_self i l d.1)
  ]

  pub find-detach-none :
      (i j : ℕ) (l : List (Node B)) → find j l ≡ none → find j (detach i l) ≡ none
  unfolding find detach
  find-detach-none i j [] h = refl
  find-detach-none i j (n ∷ l) h = ground (arith, find-detach-none i j l)

  pub detach-Distinct : (i : ℕ) (l : List (Node B)) → Distinct l → Distinct (detach i l)
  unfolding detach
  detach-Distinct i [] d = d
  detach-Distinct i (n ∷ l) d = elim (ℕ_discrete n.index i) [
    | yes e ↦ ground (arith, d.1)
    | no ne ↦ ground (arith, find-detach-none i n.index l d.0, detach-Distinct i l d.1)
  ]

  pub length-detach :
      (i : ℕ) (l : List (Node B)) (n : Node B)
      → find i l ≡ some n
      → length (detach i l) + 1 ≡ length l
  unfolding find detach
  length-detach i [] n e = cc
  length-detach i (m ∷ l) n e = ground (arith, length-detach i l n)

  -- The least recent entry is the one at the end of the list.
  pub split_last_lem :
      (n : Node B) (l : List (Node B)) → n ∷ l ≡ (split_last n l).0 ++ ((split_last n l).1 ∷ [])
  unfolding split_last
  split_last_lem n [] = refl
  split_last_lem n (m ∷ l) = ap (λ x. n ∷ x) (split_last_lem m l)

  pub find-append :
      (j : ℕ) (xs : List (Node B)) (m : Node B)
      → find j (xs ++ (m ∷ []))
        ≡ elim (find j xs) [ none ↦ if m.index == j then some m else none | some n ↦ some n ]
  unfolding find
  find-append j [] m = refl
  find-append j (x ∷ xs) m = ground (arith, find-append j xs m)

  pub Distinct-append :
      (xs : List (Node B)) (m : Node B)
      → Distinct (xs ++ (m ∷ []))
      → Distinct xs × (find m.index xs ≡ none)
  unfolding find
  Distinct-append [] m d = (tt, refl)
  Distinct-append (x ∷ xs) m d =
      let rest = Distinct-append xs m d.1 in ground (arith, rest, find-append x.index xs m)

  pub length-snoc : (xs : List (Node B)) (m : Node B) → length (xs ++ (m ∷ [])) ≡ length xs + 1
  length-snoc [] m = refl
  length-snoc (x ∷ xs) m = omega (arith, length-snoc xs m)

  pub find-change_ne :
      (i j : ℕ) (f : Node B → Node B) (l : List (Node B))
      → ((n : Node B) → (f n).index ≡ n.index)
      → j ≢ i
      → find j (change i f l) ≡ find j l
  unfolding find change
  find-change_ne i j f [] keep h = refl
  find-change_ne i j f (n ∷ l) keep h = ground (arith, keep n, find-change_ne i j f l keep h)

  pub find-change_self :
      (i : ℕ) (f : Node B → Node B) (l : List (Node B)) (n : Node B)
      → ((n : Node B) → (f n).index ≡ n.index)
      → find i l ≡ some n
      → find i (change i f l) ≡ some (f n)
  unfolding find change
  find-change_self i f [] n keep h = cc
  find-change_self i f (m ∷ l) n keep h = ground (arith, keep m, find-change_self i f l n keep)

  pub find-change-none :
      (i j : ℕ) (f : Node B → Node B) (l : List (Node B))
      → ((n : Node B) → (f n).index ≡ n.index)
      → find j l ≡ none
      → find j (change i f l) ≡ none
  unfolding find change
  find-change-none i j f [] keep h = refl
  find-change-none i j f (n ∷ l) keep h = ground (arith, keep n, find-change-none i j f l keep)

  pub change-Distinct :
      (i : ℕ) (f : Node B → Node B) (l : List (Node B))
      → ((n : Node B) → (f n).index ≡ n.index)
      → Distinct l
      → Distinct (change i f l)
  unfolding change
  change-Distinct i f [] keep d = d
  change-Distinct i f (n ∷ l) keep d = elim (ℕ_discrete n.index i) [
    | yes e ↦ ground (arith, d, keep n)
    | no ne ↦
        ground (arith, find-change-none i n.index f l keep d.0, change-Distinct i f l keep d.1)
  ]

  pub length-change :
      (i : ℕ) (f : Node B → Node B) (l : List (Node B)) → length (change i f l) ≡ length l
  unfolding change
  length-change i f [] = refl
  length-change i f (n ∷ l) = ground (arith, length-change i f l)
