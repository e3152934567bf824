-- ===== src/DentryCache/Ring.antt =====
-- The rings of `DentryCache`: in what order a node's children stand does not matter as long as no two
-- have one name, and a child that was just looked up can be removed.
use naive_fs.Base.{
  ℕ, ◌+◌, ◌≤◌, ◌≡◌, refl, ap, ◌∙◌, true, false, ◌&&◌, ◌==◌, if◌then◌else◌, arith, Option, none,
  some, List, [], ◌∷◌, ◌++◌, length, Bool-cases, ℕ_discrete, inl, inr, none_ne_some,
}
use naive_fs.DentryBlock.{same_bytes}
use naive_fs.DentryCache.{
  DentryCache, set_childs, has_name, find_child, lookup_dentry, from_next, ring_remove, after_node,
  rotate, unlink_child, remove_dentry,
}

-- How many nodes of a list have a name.
abbrev pub count : DentryCache → List ℕ → List ℕ → ℕ
count c name [] = 0
count c name (k ∷ l) = (if has_name c name k then 1 else 0) + count c name l

-- No two children of a node have one name.
abbrev pub Distinct : DentryCache → ℕ → Type 0
Distinct c parent = (name : List ℕ) → count c name (c.node parent).childs ≤ 1

count-append :
    (c : DentryCache) (name xs ys : List ℕ)
    → count c name (xs ++ ys) ≡ count c name xs + count c name ys
count-append c name [] ys = omega arith
count-append c name (x ∷ xs) ys = omega (arith, count-append c name xs ys)

-- What a loop over a list finds: the list splits there, and nothing before has the name.
abbrev pub Splits : DentryCache → List ℕ → List ℕ → Option (List ℕ × (ℕ × List ℕ)) → Type 0
Splits c name l none = count c name l ≡ 0
Splits c name l (some (before, (k, after))) =
    (l ≡ before ++ (k ∷ after)) × (has_name c name k ≡ true) × (count c name before ≡ 0)

after_node-Splits :
    (c : DentryCache) (name : List ℕ) (k : ℕ) (l : List ℕ) (r : Option (List ℕ × (ℕ × List ℕ)))
    → has_name c name k ≡ false
    → Splits c name l r
    → Splits c name (k ∷ l) (after_node k r)
after_node-Splits c name k l none h s = rw h (omega (arith, s))
after_node-Splits c name k l (some (before, (f, after))) h s =
    (ap (λ x. k ∷ x) s.0, s.1, rw h (omega (arith, s.2)))

pub find_child-Splits : (c : DentryCache) (name l : List ℕ) → Splits c name l (find_child c name l)
unfolding find_child
find_child-Splits c name [] = refl
find_child-Splits c name (k ∷ l) = elim (Bool-cases (has_name c name k)) [
  | inl h ↦ rw h (refl, h, refl)
  | inr h ↦ rw h (after_node-Splits c name k l (find_child c name l) h (find_child-Splits c name l))
]

-- What stands in a ring does not change a node's name, nor the rings of other nodes.
pub node_name-set_childs :
    (c : DentryCache) (p : ℕ) (l : List ℕ) (k : ℕ)
    → ((set_childs c p l).node k).name ≡ (c.node k).name
node_name-set_childs c p l k = elim (ℕ_discrete p k) [
  | yes e ↦ let t : (p == k) ≡ true = ground arith in rw t (ap (λ j. (c.node j).name) e)
  | no ne ↦ let t : (p == k) ≡ false = ground arith in rw t refl
]

pub childs-set_childs :
    (c : DentryCache) (p : ℕ) (l : List ℕ) → ((set_childs c p l).node p).childs ≡ l
childs-set_childs c p l = let t : (p == p) ≡ true = ground arith in rw t refl

has_name-set_childs :
    (c : DentryCache) (p : ℕ) (l name : List ℕ) (k : ℕ)
    → has_name (set_childs c p l) name k ≡ has_name c name k
has_name-set_childs c p l name k =
    ap (λ n. (length n == length name) && same_bytes n name) (node_name-set_childs c p l k)

count-set_childs :
    (c : DentryCache) (p : ℕ) (l name xs : List ℕ)
    → count (set_childs c p l) name xs ≡ count c name xs
count-set_childs c p l name [] = refl
count-set_childs c p l name (x ∷ xs) =
    ap (λ b. (if b then 1 else 0) + count (set_childs c p l) name xs)
      (has_name-set_childs c p l name x)
    ∙ ap (λ n. (if has_name c name x then 1 else 0) + n) (count-set_childs c p l name xs)

find_child_last :
    (c : DentryCache) (name l : List ℕ) (k : ℕ)
    → count c name l ≡ 0
    → has_name c name k ≡ true
    → find_child c name (l ++ (k ∷ [])) ≡ some (l, (k, []))
unfolding find_child
find_child_last c name [] k h t = rw t refl
find_child_last c name (x ∷ l) k h t =
    let u : has_name c name x ≡ false = ground (arith, h) in
    let rest = find_child_last c name l k (omega (arith, h)) t in rw (u, rest) refl

pub find_child-none :
    (c : DentryCache) (name l : List ℕ) → count c name l ≡ 0 → find_child c name l ≡ none
unfolding find_child
find_child-none c name [] h = refl
find_child-none c name (x ∷ l) h =
    let u : has_name c name x ≡ false = ground (arith, h) in
    let rest = find_child-none c name l (omega (arith, h)) in rw (u, rest) refl

ring_remove_last : (l : List ℕ) → ring_remove l [] ≡ some l
ring_remove_last [] = refl
ring_remove_last (x ∷ l) = refl

pub lookup_dentry-empty :
    (c : DentryCache) (p : ℕ) (name : List ℕ)
    → (length name == 0) ≡ true
    → lookup_dentry c p name ≡ (none, c)
unfolding lookup_dentry
lookup_dentry-empty c p name t = rw t refl

pub lookup_dentry_eq :
    (c : DentryCache) (p : ℕ) (name : List ℕ)
    → (length name == 0) ≡ false
    → lookup_dentry c p name ≡ rotate c p (find_child c name (c.node p).childs)
unfolding lookup_dentry
lookup_dentry_eq c p name t = rw t refl

lookup_dentry-none :
    (c : DentryCache) (p : ℕ) (name : List ℕ)
    → count c name (c.node p).childs ≡ 0
    → (lookup_dentry c p name).0 ≡ none
unfolding lookup_dentry
lookup_dentry-none c p name h =
    let e = find_child-none c name (c.node p).childs h in
    elim (Bool-cases (length name == 0)) [ inl t ↦ rw t refl | inr t ↦ rw (t, e) refl ]

-- What `remove` leaves after `lookup` has found node k.
abbrev pub Removed : DentryCache → ℕ → List ℕ → ℕ → DentryCache → Type 0
Removed c p name k c1 =
    (c2 : DentryCache) × (before : List ℕ) × (after : List ℕ) × (remove_dentry c1 p name ≡ some c2)
    × ((c.node p).childs ≡ before ++ (k ∷ after))
    × ((c2.node p).childs ≡ after ++ before)
    × ((lookup_dentry c2 p name).0 ≡ none)

rotate-Removed :
    (c : DentryCache) (p : ℕ) (name : List ℕ) (k : ℕ) (r : Option (List ℕ × (ℕ × List ℕ)))
    → Distinct c p
    → Splits c name (c.node p).childs r
    → (rotate c p r).0 ≡ some k
    → Removed c p name k (rotate c p r).1
unfolding remove_dentry
rotate-Removed c p name k none d s e = absurd (none_ne_some e)
rotate-Removed c p name k (some (before, (j, after))) d s e =
    let same : j ≡ k = ap (λ o. elim o [ none ↦ 0 | some x ↦ x ]) e in
    let rest = after ++ before in
    let c1 = set_childs c p (j ∷ rest) in
    let c2 = set_childs c1 p rest in
    let few : count c name before + ((if has_name c name j then 1 else 0) + count c name after)
        ≤ 1 =
      omega (arith, d name, ap (count c name) s.0, count-append c name before (j ∷ after)) in
    let gone : count c name rest ≡ 0 =
      ground (arith, few, s.1, s.2, count-append c name after before) in
    let found =
      find_child_last c1 name rest j (count-set_childs c p (j ∷ rest) name rest ∙ gone)
        (has_name-set_childs c p (j ∷ rest) name j ∙ s.1) in
    let ring = childs-set_childs c p (j ∷ rest) in
    let left = childs-set_childs c1 p rest in
    (
      c2,
      before,
      after,
      ap (λ l. unlink_child c1 p (find_child c1 name (from_next l))) ring
          ∙ ap (unlink_child c1 p) found
          ∙ ap (λ o. elim o [ none ↦ none | some l ↦ some (set_childs c1 p l) ])
              (ring_remove_last rest),
      s.0 ∙ ap (λ x. before ++ (x ∷ after)) same,
      left,
      lookup_dentry-none c2 p name (
          ap (count c2 name) left
          ∙ count-set_childs c1 p rest name rest
          ∙ count-set_childs c p (j ∷ rest) name rest
          ∙ gone),
    )

-- Where no two children of a node have one name, `remove` right after a `lookup` that found a node
-- never leaves the ring leading to freed memory: the ring is then the one that there was, from the
-- place after the node on and without it, and another `lookup` of the name finds nothing.
pub remove_dentry-lookup_dentry :
    (c : DentryCache) (p : ℕ) (name : List ℕ) (k : ℕ)
    → Distinct c p
    → (lookup_dentry c p name).0 ≡ some k
    → Removed c p name k (lookup_dentry c p name).1
remove_dentry-lookup_dentry c p name k d = elim (Bool-cases (length name == 0)) [
  | inl t ↦ rw (lookup_dentry-empty c p name t) (λ e. absurd (none_ne_some e))
  | inr t ↦ rw (lookup_dentry_eq c p name t) (
      rotate-Removed c p name k (find_child c name (c.node p).childs) d
        (find_child-Splits c name (c.node p).childs))
]
