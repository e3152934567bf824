-- ===== src/Names/Cached.antt =====
-- `inode_lookup` with the dentry cache is the walk without it.
use naive_fs.Base.{
  ℕ, suc, ◌+◌, ◌-◌, ◌<◌, ◌≡◌, refl, sym, ap, subst, ◌∙◌, Bool, true, false, not, ◌&&◌, ltb, ◌==◌,
  if◌then◌else◌, arith, Option, none, some, List, [], ◌∷◌, length, Bool-cases, inl, inr,
  none_ne_some,
}
use naive_fs.Inode.{Inode, is_dir}
use naive_fs.BlockTree.{Fetch}
use naive_fs.FilePath.{FilePath}
use naive_fs.DentryCache.{DentryCache, root_inode, lookup_dentry, insert_dentry}
use naive_fs.DentryCache.Coherent.{Coherent, Looked, lookup_dentry-Looked, insert_dentry-Inserted}
use naive_fs.Names.Walk.{
  step, is_last, resolve, inode_of, Leads, OnlyDirs, IsThere, search-IsThere, and-false,
}
use naive_fs.Names.{
  Outcome, ok, search, Answer, Rest, visited, missed, last_hit, round, lookup_from, inode_lookup,
}

module _ (fetch : Fetch) (get_inode : ℕ → Option Inode) where
  -- An answer gives what the walk gives, and leaves a coherent cache.
  abbrev Agrees : Outcome (ℕ × Inode) → Answer → Type 0
  Agrees r a = (inode_of a.0 ≡ r) × Coherent (Leads fetch get_inode) a.1

  -- The inode that the next round uses is n.
  abbrev Current : List (List ℕ) → ℕ → Bool → ℕ → Inode → Inode → Type 0
  Current [] curr_index hit result inode n = inode ≡ n
  Current (name ∷ names) curr_index hit result inode n =
      (if ltb 0 curr_index && hit then get_inode result else some inode) ≡ some n

  Current-fetched :
      (names : List (List ℕ)) (curr_index result : ℕ) (n : Inode)
      → Current names curr_index false result n n
  Current-fetched [] k r n = refl
  Current-fetched (name ∷ names) k r n = ground arith

  last_index :
      (names : List (List ℕ)) (curr_index size : ℕ)
      → curr_index + suc (length names) ≡ size
      → (not (ltb curr_index (size - 1)) ≡ is_last names)
        × ((curr_index == size - 1) ≡ is_last names)
  last_index [] k size h = (ground arith, ground arith)
  last_index (name ∷ names) k size h = (ground arith, ground arith)

  resolve_entry :
      (names : List (List ℕ)) (name : List ℕ) (i j : ℕ) (n m : Inode)
      → OnlyDirs fetch get_inode
      → get_inode i ≡ some n
      → search fetch get_inode n name ≡ some (j, m)
      → resolve fetch get_inode (name ∷ names) i n ≡ resolve fetch get_inode names j m
  unfolding resolve
  resolve_entry names name i j n m only g s = elim (Bool-cases (is_dir n.i_mode)) [
    | inl t ↦ rw (t, and-false (not (is_last names)), s) refl
    | inr t ↦ absurd (none_ne_some (sym (only i n name g t) ∙ s))
  ]

  -- What the loop does from one index on.
  abbrev Follows : List (List ℕ) → ℕ → ℕ → Type 0
  Follows names size curr_index =
      (link parent : ℕ) (inode n : Inode) (result : ℕ) (hit : Bool) (c : DentryCache)
      → Coherent (Leads fetch get_inode) c
      → link < c.size
      → (c.node link).inode ≡ result
      → get_inode result ≡ some n
      → Current names curr_index hit result inode n
      → Agrees (resolve fetch get_inode names result n)
          (lookup_from fetch get_inode names size curr_index link parent inode result hit c)

  module _ (names : List (List ℕ)) (size curr_index link : ℕ) (name : List ℕ)
      (rest : Follows names size (curr_index + 1)) where
    next : Rest
    next = lookup_from fetch get_inode names size (curr_index + 1)

    visited-Agrees :
        (n : Inode) (result : ℕ) (c : DentryCache) (o : Option (ℕ × Inode))
        → Coherent (Leads fetch get_inode) c
        → link < c.size
        → (c.node link).inode ≡ result
        → get_inode result ≡ some n
        → search fetch get_inode n name ≡ o
        → Agrees
            (step names (resolve fetch get_inode names) o)
            (visited fetch get_inode link name c next o)
    unfolding next
    visited-Agrees n result c none v h r g s = (refl, v)
    visited-Agrees n result c (some (i, m)) v h r g s =
        let e : (Leads fetch get_inode) (c.node link).inode name i =
          (n, m, ap get_inode r ∙ g, s) in
        let (l, q, w, z, _) = insert_dentry-Inserted (Leads fetch get_inode) c link name i v h e in
        let (k, c') = insert_dentry c link name i in
        let there = subst (IsThere fetch get_inode) s (search-IsThere fetch get_inode n name) in
        rest k link m m i false c' w l q there (Current-fetched names (curr_index + 1) i m)

    missed-Agrees :
        (last : Bool) (n : Inode) (result : ℕ) (c : DentryCache)
        → last ≡ is_last names
        → Coherent (Leads fetch get_inode) c
        → link < c.size
        → (c.node link).inode ≡ result
        → get_inode result ≡ some n
        → Agrees
            (resolve fetch get_inode (name ∷ names) result n)
            (missed fetch get_inode link name last c next (some n))
    unfolding resolve
    missed-Agrees last n result c l v h r g =
        elim (Bool-cases (not (is_last names) && not (is_dir n.i_mode))) [
          | inl t ↦ rw (l, t) (refl, v)
          | inr t ↦
              rw (l, t) (visited-Agrees n result c (search fetch get_inode n name) v h r g refl)
        ]

  -- A hit, in its two cases.
  hit-Agrees :
      (names : List (List ℕ)) (size curr_index link node i : ℕ) (inode m : Inode) (c : DentryCache)
      → Follows names size (curr_index + 1)
      → curr_index + suc (length names) ≡ size
      → Coherent (Leads fetch get_inode) c
      → node < c.size
      → (c.node node).inode ≡ i
      → get_inode i ≡ some m
      → Agrees (resolve fetch get_inode names i m) (
          let next = lookup_from fetch get_inode names size (curr_index + 1) in
          if curr_index == size - 1
          then last_hit fetch get_inode link node i c next (get_inode i)
          else next node link inode i true c)
  hit-Agrees [] size curr_index link node i inode m c rest s v h e g =
      let (_, t) = last_index [] curr_index size s in
      rw (t, g) (rest node link m m i true c v h e g refl)
  hit-Agrees (name ∷ names) size curr_index link node i inode m c rest s v h e g =
      let (_, t) = last_index (name ∷ names) curr_index size s in
      rw t (rest node link inode m i true c v h e g (ground (arith, g)))

  round-Agrees :
      (names : List (List ℕ)) (size curr_index link : ℕ) (name : List ℕ) (inode n : Inode)
      (result : ℕ) (hit : Bool) (c : DentryCache) (r : Option ℕ × DentryCache)
      → Follows names size (curr_index + 1)
      → OnlyDirs fetch get_inode
      → curr_index + suc (length names) ≡ size
      → Coherent (Leads fetch get_inode) c
      → link < c.size
      → (c.node link).inode ≡ result
      → get_inode result ≡ some n
      → Current (name ∷ names) curr_index hit result inode n
      → Looked (Leads fetch get_inode) c link name r
      → Agrees (resolve fetch get_inode (name ∷ names) result n) (
          round fetch get_inode link name inode hit curr_index size
            (lookup_from fetch get_inode names size (curr_index + 1))
            r)
  unfolding next
  round-Agrees names size curr_index link name inode n result hit c (none, c') rest only s v h e g
        cur same =
      let (l, _) = last_index names curr_index size s in
      rw (same, e, cur)
        (missed-Agrees names size curr_index link name rest (not (ltb curr_index (size - 1))) n
          result c l v h e g)
  round-Agrees names size curr_index link name inode n result hit c (some k, c') rest only s v h e g
        cur (l, (n', m, q, x), w, z, nodes) =
      let same : n' ≡ n = ap (λ o. elim o [ none ↦ n | some y ↦ y ]) (sym q ∙ ap get_inode e ∙ g) in
      let entry = subst (λ y. search fetch get_inode y name ≡ some ((c.node k).inode, m)) same x in
      let there = subst (IsThere fetch get_inode) x (search-IsThere fetch get_inode n' name) in
      rw (resolve_entry names name result (c.node k).inode n m only g entry, nodes k)
        (hit-Agrees names size curr_index link k (c.node k).inode inode m c' rest s w
          (omega (arith, l, z)) (nodes k) there)

  lookup_from-Follows :
      (names : List (List ℕ)) (size curr_index : ℕ)
      → OnlyDirs fetch get_inode
      → curr_index + length names ≡ size
      → Follows names size curr_index
  unfolding lookup_from resolve
  lookup_from-Follows [] size k only s link parent inode n result hit c v h e g cur =
      (ap (λ y. ok (result, y)) cur, v)
  lookup_from-Follows (name ∷ names) size k only s link parent inode n result hit c v h e g cur =
      round-Agrees names size k link name inode n result hit c (lookup_dentry c link name)
        (lookup_from-Follows names size (k + 1) only (omega (arith, s))) only s v h e g cur
        (lookup_dentry-Looked (Leads fetch get_inode) c link name v h)

  -- Where only directories have entries and the dentry cache is coherent (its root is the root inode,
  -- and every node is the entry of its name in its parent), `inode_lookup` of a valid path gives what
  -- the walk without a cache gives: the same return code, or the same inode and number. It leaves a
  -- coherent cache.
  pub inode_lookup-resolve :
      (root : Inode) (path : FilePath) (c : DentryCache)
      → OnlyDirs fetch get_inode
      → Coherent (Leads fetch get_inode) c
      → 0 < c.size
      → (c.node 0).inode ≡ root_inode
      → get_inode root_inode ≡ some root
      → path.valid ≡ true
      → let (answer, c') = inode_lookup fetch get_inode root path c in
        (inode_of answer ≡ resolve fetch get_inode path.name_list root_inode root)
        × Coherent (Leads fetch get_inode) c'
  unfolding inode_lookup
  inode_lookup-resolve root path c only v h e g valid = rw valid (
      lookup_from-Follows path.name_list (length path.name_list) 0 only (omega arith) 0 0 root root
        root_inode false c v h e g (Current-fetched path.name_list 0 root_inode root))
