-- ===== src/DentryCache/Coherent.antt =====
-- A relation that holds between every node of the dentry cache and its children, and what keeps it.
use naive_fs.Base.{
  ℕ, ◌+◌, ◌≤◌, ◌<◌, ◌≡◌, refl, sym, ap, subst, ◌∙◌, true, false, ◌==◌, arith, Option, none, some,
  List, [], ◌∷◌, ◌++◌, length, ℕ_discrete, Bool-cases, inl, inr,
}
use naive_fs.DentryBlock.{same_bytes}
use naive_fs.DentryBlock.Append.{same_bytes_eq}
use naive_fs.DentryCache.{
  DentryCache, DentryNode, put_node, set_childs, ring_insert, find_child, rotate, lookup_dentry,
  insert_dentry,
}
use naive_fs.DentryCache.Ring.{
  Splits, find_child-Splits, node_name-set_childs, childs-set_childs, lookup_dentry-empty,
  lookup_dentry_eq,
}

abbrev pub All : (ℕ → Type 0) → List ℕ → Type 0
All P [] = Unit {0}
All P (x ∷ xs) = P x × All P xs

All-map : {P Q : ℕ → Type 0} (xs : List ℕ) → ((x : ℕ) → P x → Q x) → All P xs → All Q xs
All-map [] h a = tt
All-map (x ∷ xs) h a = (h x a.0, All-map xs h a.1)

module _ (P : ℕ → Type 0) where
  All-append : (xs ys : List ℕ) → All P xs → All P ys → All P (xs ++ ys)
  All-append [] ys a b = b
  All-append (x ∷ xs) ys a b = (a.0, All-append xs ys a.1 b)

  -- The same numbers, from one that stands in the middle.
  All-rotate : (xs ys : List ℕ) (k : ℕ) → All P (xs ++ (k ∷ ys)) → P k × (All P xs × All P ys)
  All-rotate [] ys k a = (a.0, (tt, a.1))
  All-rotate (x ∷ xs) ys k a = let (p, (l, r)) = All-rotate xs ys k a.1 in (p, ((a.0, l), r))

  All-ring_insert : (k : ℕ) (xs : List ℕ) → P k → All P xs → All P (ring_insert k xs)
  All-ring_insert k [] p a = (p, tt)
  All-ring_insert k (x ∷ xs) p a = (p, All-append xs (x ∷ []) a.1 (a.0, tt))

module _ (Entry : ℕ → List ℕ → ℕ → Type 0) where
  -- Node k can be a child of a node with inode i: the entry of its name there has its inode.
  abbrev pub IsChild : DentryCache → ℕ → ℕ → Type 0
  IsChild c i k = (k < c.size) × Entry i (c.node k).name (c.node k).inode

  abbrev pub Coherent : DentryCache → Type 0
  Coherent c = (p : ℕ) → p < c.size → All (IsChild c (c.node p).inode) (c.node p).childs

  node_inode-set_childs :
      (c : DentryCache) (p : ℕ) (l : List ℕ) (k : ℕ)
      → ((set_childs c p l).node k).inode ≡ (c.node k).inode
  node_inode-set_childs c p l k = elim (ℕ_discrete p k) [
    | yes e ↦ let t : (p == k) ≡ true = ground arith in rw t (ap (λ j. (c.node j).inode) e)
    | no ne ↦ let t : (p == k) ≡ false = ground arith in rw t refl
  ]

  -- A child stays one where its node and its parent's inode are as before.
  IsChild-same :
      (c c' : DentryCache) (i i' k : ℕ)
      → c.size ≤ c'.size
      → i ≡ i'
      → (c.node k).name ≡ (c'.node k).name
      → (c.node k).inode ≡ (c'.node k).inode
      → IsChild c i k
      → IsChild c' i' k
  IsChild-same c c' i i' k s e n m (h, x) = (
    omega (arith, h, s),
    subst (λ j. Entry j (c'.node k).name (c'.node k).inode) e
        (subst (λ y. Entry i y (c'.node k).inode) n (subst (λ y. Entry i (c.node k).name y) m x)),
  )

  set_childs-Coherent :
      (c : DentryCache) (p : ℕ) (l : List ℕ)
      → Coherent c
      → All (IsChild c (c.node p).inode) l
      → Coherent (set_childs c p l)
  set_childs-Coherent c p l v a q h =
      let c' = set_childs c p l in
      let same : (k : ℕ) → IsChild c (c.node q).inode k → IsChild c' (c'.node q).inode k = λ k x.
        IsChild-same c c' (c.node q).inode (c'.node q).inode k (omega arith)
          (sym (node_inode-set_childs c p l q)) (sym (node_name-set_childs c p l k))
          (sym (node_inode-set_childs c p l k)) x in
      elim (ℕ_discrete p q) [
        | yes e ↦
            subst (All (IsChild c' (c'.node q).inode))
              (sym (subst (λ j. (c'.node j).childs ≡ l) e (childs-set_childs c p l)))
              (All-map l same (subst (λ j. All (IsChild c (c.node j).inode) l) e a))
        | no ne ↦
            subst (All (IsChild c' (c'.node q).inode))
              (let t : (p == q) ≡ false = ground arith in
                rw t (let r : (c.node q).childs ≡ (c.node q).childs = refl in r))
              (All-map (c.node q).childs same (v q h))
      ]

  -- What `lookup` leaves: a node that is found is a child that has this entry.
  abbrev pub Looked : DentryCache → ℕ → List ℕ → Option ℕ × DentryCache → Type 0
  Looked c p name (none, c') = c' ≡ c
  Looked c p name (some k, c') =
      (k < c.size)
      × Entry (c.node p).inode name (c.node k).inode
      × Coherent c'
      × (c'.size ≡ c.size)
      × ((j : ℕ) → (c'.node j).inode ≡ (c.node j).inode)

  rotate-Looked :
      (c : DentryCache) (p : ℕ) (name : List ℕ) (r : Option (List ℕ × (ℕ × List ℕ)))
      → Coherent c
      → p < c.size
      → Splits c name (c.node p).childs r
      → Looked c p name (rotate c p r)
  rotate-Looked c p name none v h s = refl
  rotate-Looked c p name (some (before, (k, after))) v h s =
      let P = IsChild c (c.node p).inode in
      let (child, (l, r)) = All-rotate P before after k (subst (All P) s.0 (v p h)) in
      let t : same_bytes (c.node k).name name ≡ true = ground (arith, s.1) in
      (
        child.0,
        subst (λ n. Entry (c.node p).inode n (c.node k).inode)
            (same_bytes_eq (c.node k).name name t) child.1,
        set_childs-Coherent c p (k ∷ (after ++ before)) v (child, All-append P after before r l),
        refl,
        node_inode-set_childs c p (k ∷ (after ++ before)),
      )

  pub lookup_dentry-Looked :
      (c : DentryCache) (p : ℕ) (name : List ℕ)
      → Coherent c
      → p < c.size
      → Looked c p name (lookup_dentry c p name)
  lookup_dentry-Looked c p name v h = elim (Bool-cases (length name == 0)) [
    | inl t ↦ rw (lookup_dentry-empty c p name t) refl
    | inr t ↦ rw (lookup_dentry_eq c p name t) (
        rotate-Looked c p name (find_child c name (c.node p).childs) v h
          (find_child-Splits c name (c.node p).childs))
  ]

  -- What `insert` leaves.
  abbrev pub Inserted : DentryCache → ℕ → ℕ × DentryCache → Type 0
  Inserted c inode (k, c') =
      (k < c'.size)
      × ((c'.node k).inode ≡ inode)
      × Coherent c'
      × (c.size ≤ c'.size)
      × ((j : ℕ) → j < c.size → (c'.node j).inode ≡ (c.node j).inode)

  pub insert_dentry-Inserted :
      (c : DentryCache) (p : ℕ) (name : List ℕ) (inode : ℕ)
      → Coherent c
      → p < c.size
      → Entry (c.node p).inode name inode
      → Inserted c inode (insert_dentry c p name inode)
  unfolding insert_dentry
  insert_dentry-Inserted c p name inode v h e =
      let k = c.size in
      let new : DentryNode = record { inode = inode; name = name; childs = [] } in
      let c2 : DentryCache = record (put_node c k new) { size = k + 1 } in
      let old : (j : ℕ) → j < k → c2.node j ≡ c.node j =
        λ j l. (let t : (k == j) ≡ false = ground arith in rw t refl) in
      let fresh : c2.node k ≡ new = (let t : (k == k) ≡ true = ground arith in rw t refl) in
      let keep : (q : ℕ)
          → q < k
          → (j : ℕ) → IsChild c (c.node q).inode j
          → IsChild c2 (c2.node q).inode j =
        λ q l j x.
          IsChild-same c c2 (c.node q).inode (c2.node q).inode j (omega arith)
            (ap (λ n. n.inode) (sym (old q l))) (ap (λ n. n.name) (sym (old j x.0)))
            (ap (λ n. n.inode) (sym (old j x.0))) x in
      let v2 : Coherent c2 = λ q l. elim (ℕ_discrete q k) [
        | yes same ↦
            subst (All (IsChild c2 (c2.node q).inode))
              (ap (λ n. n.childs) (sym fresh) ∙ ap (λ j. (c2.node j).childs) (sym same)) tt
        | no ne ↦
            let m : q < k = omega (arith, l) in
            subst (All (IsChild c2 (c2.node q).inode)) (ap (λ n. n.childs) (sym (old q m)))
              (All-map (c.node q).childs (keep q m) (v q m))
      ] in
      let l = ring_insert k (c.node p).childs in
      let child : IsChild c2 (c2.node p).inode k = (
        omega arith,
        subst (λ n. Entry (c2.node p).inode n.name n.inode) (sym fresh)
            (subst (λ n. Entry n.inode name inode) (sym (old p h)) e),
      ) in
      (
        omega arith,
        node_inode-set_childs c2 p l k ∙ ap (λ n. n.inode) fresh,
        set_childs-Coherent c2 p l v2 (
            All-ring_insert (IsChild c2 (c2.node p).inode) k (c.node p).childs child
              (All-map (c.node p).childs (keep p h) (v p h))),
        omega arith,
        λ j m. node_inode-set_childs c2 p l j ∙ ap (λ n. n.inode) (old j m),
      )
