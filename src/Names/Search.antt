-- ===== src/Names/Search.antt =====
-- The look for a name in a directory of direct blocks, block by block.
use naive_fs.Base.{
  ℕ, zero, suc, ◌+◌, ◌-◌, ◌/◌, ◌≤◌, ◌<◌, ◌≡◌, ◌≢◌, refl, sym, ap, ◌∙◌, Bool, true, false, ◌==◌,
  arith, Option, none, some, none_ne_some, List, Option-cases, inl, inr, ℕ_discrete,
}
use naive_fs.Config.{max_dir_blocks}
use naive_fs.Inode.{Inode}
use naive_fs.BlockTree.{Fetch, root}
use naive_fs.InodeVisit.{visit_inode_blocks, visit_direct, visit_rest, direct_step}
use naive_fs.DentryBlock.{dentry_block, lookup}
use naive_fs.Names.{with_inode, matched, bytes_of, search_visitor, search}

-- The first entry of a name in a block that is read by words.
abbrev pub lookup_in : (ℕ → ℕ) → List ℕ → Option ℕ
lookup_in words name = lookup (dentry_block (bytes_of words)).0 name

module _ (fetch : Fetch) (get_inode : ℕ → Option Inode) (i_block name : List ℕ) where
  abbrev pub in_entry : Option ℕ → Option (ℕ × Inode) → Option (ℕ × Inode)
  in_entry none rest = rest
  in_entry (some i) rest = with_inode i (get_inode i)

  abbrev pub in_block : Option (ℕ → ℕ) → Option (ℕ × Inode) → Option (ℕ × Inode)
  in_block none rest = none
  in_block (some w) rest = in_entry (lookup_in w name) rest

  -- The blocks from i on, as many as are said.
  unfoldable pub direct_search : ℕ → ℕ → Option (ℕ × Inode)
  direct_search zero i = none
  direct_search (suc rounds) i = in_block (fetch (root i_block i)) (direct_search rounds (i + 1))

  visitor_lem :
      (b : ℕ) (w : ℕ → ℕ) (o : Option ℕ)
      → lookup_in w name ≡ o
      → search_visitor fetch get_inode name b w none ≡ matched fetch get_inode o none
  unfolding search_visitor
  visitor_lem b w o e = ap (λ x. matched fetch get_inode x none) e

  -- One round of the visit, from a state in which nothing is found.
  step_lem :
      (num_blocks i : ℕ) (o : Option (ℕ → ℕ))
      (rest : Option (ℕ × Inode) → ℕ → Bool × (Option (ℕ × Inode) × ℕ)) (later : Option (ℕ × Inode))
      → ((i + 1 ≡ num_blocks) → later ≡ none)
      → (i + 1 < num_blocks → (x : ℕ) × (rest none (i + 1) ≡ (false, (later, x))))
      → i < num_blocks
      → (x : ℕ) × (direct_step fetch
            (search_visitor fetch get_inode name)
            num_blocks
            (root i_block i)
            none
            i
            o
            rest
          ≡ (false, (in_block o later, x)))
  step_lem num_blocks i none rest later last more h = (i, refl)
  step_lem num_blocks i (some w) rest later last more h = elim (Option-cases (lookup_in w name)) [
    | inr (x, e) ↦ rw (visitor_lem (root i_block i) w (some x) e, e) (i, refl)
    | inl e ↦ elim (ℕ_discrete (i + 1) num_blocks) [
      | yes p ↦
          let t : (i + 1 == num_blocks) ≡ true = ground arith in
          rw (visitor_lem (root i_block i) w none e, e, t, last p) (i + 1, refl)
      | no ne ↦
          let t : (i + 1 == num_blocks) ≡ false = ground arith in
          let (x, r) = more (omega (arith, ne, h)) in
          rw (visitor_lem (root i_block i) w none e, e, t, r) (x, refl)
    ]
  ]

  visit_direct_lem :
      (num_blocks rounds i : ℕ)
      → i < num_blocks
      → num_blocks ≤ i + rounds
      → (x : ℕ) × (visit_direct fetch
            (search_visitor fetch get_inode name)
            num_blocks
            rounds
            i_block
            i
            none
            i
          ≡ (false, (direct_search (num_blocks - i) i, x)))
  unfolding visit_direct direct_search
  visit_direct_lem num_blocks zero i h q = absurd (omega arith)
  visit_direct_lem num_blocks (suc rounds) i h q =
      let left : num_blocks - i ≡ suc (num_blocks - (i + 1)) = omega arith in
      rw left (
        step_lem num_blocks i (fetch (root i_block i))
          (visit_direct fetch (search_visitor fetch get_inode name) num_blocks rounds i_block
            (i + 1))
          (direct_search (num_blocks - (i + 1)) (i + 1))
          (λ e.
            ap (λ k. direct_search k (i + 1))
              (let k : num_blocks - (i + 1) ≡ 0 = omega (arith, e) in k))
          (λ l. visit_direct_lem num_blocks rounds (i + 1) l (omega arith)) h)

-- In a directory of direct blocks alone, a search goes over its blocks.
pub search-direct_search :
    (fetch : Fetch) (get_inode : ℕ → Option Inode) (n : Inode) (name : List ℕ)
    → n.i_blocks / 8 ≤ max_dir_blocks
    → search fetch get_inode n name
      ≡ direct_search fetch get_inode n.i_block name (n.i_blocks / 8) 0
unfolding search visit_inode_blocks direct_search
search-direct_search fetch get_inode n name h = elim (ℕ_discrete (n.i_blocks / 8) 0) [
  | yes e ↦
      let t : (n.i_blocks / 8 == 0) ≡ true = ground arith in
      rw t (ap (λ k. direct_search fetch get_inode n.i_block name k 0) (sym e))
  | no ne ↦
      let t : (n.i_blocks / 8 == 0) ≡ false = ground arith in
      let (x, e) =
        visit_direct_lem fetch get_inode n.i_block name (n.i_blocks / 8) max_dir_blocks 0
          (omega arith) (omega arith) in
      rw t (
        ap (visit_rest fetch (search_visitor fetch get_inode name) (n.i_blocks / 8) n.i_block) e
        ∙ ap (λ k. direct_search fetch get_inode n.i_block name k 0)
            (let k : n.i_blocks / 8 - 0 ≡ n.i_blocks / 8 = omega arith in k))
]

-- A name that leads to another inode than i is found as before where only the inode i changes.
module _ (i j : ℕ) (m : Inode) (other : j ≢ i) where
  abbrev IsFound : Option (ℕ × Inode) → Type 0
  IsFound o = o ≡ some (j, m)

  with_inode_fst : (c : ℕ) (o : Option Inode) → IsFound (with_inode c o) → c ≡ j
  with_inode_fst c none h = absurd (none_ne_some h)
  with_inode_fst c (some n) h = ap (λ x. elim x [ none ↦ c | some p ↦ p.0 ]) h

  module _ (get get' : ℕ → Option Inode) (same : (c : ℕ) → c ≢ i → get' c ≡ get c) where
    in_block-IsFound :
        (fetch : Fetch) (i_block name : List ℕ) (o : Option (ℕ → ℕ))
        (rest rest' : Option (ℕ × Inode))
        → (IsFound rest → IsFound rest')
        → IsFound (in_block fetch get i_block name o rest)
        → IsFound (in_block fetch get' i_block name o rest')
    in_block-IsFound fetch i_block name none rest rest' later h = absurd (none_ne_some h)
    in_block-IsFound fetch i_block name (some w) rest rest' later h =
        elim (Option-cases (lookup_in w name)) [
          | inl e ↦ rw e (later (sym (ap (λ o. in_entry fetch get i_block name o rest) e) ∙ h))
          | inr (c, e) ↦
              let found = sym (ap (λ o. in_entry fetch get i_block name o rest) e) ∙ h in
              let at = with_inode_fst c (get c) found in
              let away : c ≢ i = λ z. other (sym at ∙ z) in rw (e, same c away) found
        ]

    pub direct_search-IsFound :
        (fetch : Fetch) (i_block name : List ℕ) (rounds k : ℕ)
        → IsFound (direct_search fetch get i_block name rounds k)
        → IsFound (direct_search fetch get' i_block name rounds k)
    unfolding direct_search
    direct_search-IsFound fetch i_block name zero k h = h
    direct_search-IsFound fetch i_block name (suc rounds) k h =
        in_block-IsFound fetch i_block name (fetch (root i_block k))
          (direct_search fetch get i_block name rounds (k + 1))
          (direct_search fetch get' i_block name rounds (k + 1))
          (direct_search-IsFound fetch i_block name rounds (k + 1)) h
