-- ===== src/InodeVisit/Invariant.antt =====
-- What every call of a visitor keeps, a visit keeps, at every level of indirect blocks.
use naive_fs.Base.{
  ℕ, zero, suc, ◌+◌, ◌-◌, min, Bool, true, false, ◌==◌, if◌then◌else◌, Option, none, some, List,
  ◌/◌, Option-cases, inl, inr,
}
use naive_fs.Config.{num_indirect_blocks, max_dir_blocks, max_ind_blocks, max_dind_blocks}
use naive_fs.Inode.{Inode, ind_block, dind_block, tind_block}
use naive_fs.BlockTree.{Fetch, root}
use naive_fs.InodeVisit.{
  Visitor, visit_word, visit_words, visit_indirect_blocks, indirect_visitor,
  double_indirect_visitor, direct_step, visit_direct, visit_tind, visit_dind, visit_ind, visit_rest,
  visit_inode_blocks,
}

if_keeps : {A : Type 0} (P : A → Type 0) (b : Bool) (x y : A) → P x → P y → P (if b then x else y)
if_keeps P true x y p q = p
if_keeps P false x y p q = q

-- A visitor keeps P.
abbrev pub Keeps : {V : Type 0} → (V → Type 0) → Visitor V → Type 0
Keeps {V = V} P visitor = (b : ℕ) (w : ℕ → ℕ) (v : V) → P v → P (visitor b w v).1

module _ (fetch : Fetch) where
  module _ {V : Type 0} (P : V → Type 0) (visitor : Visitor V) (keeps : Keeps P visitor) where
    visit_word_keeps :
        (b : ℕ) (v : V) (o : Option (ℕ → ℕ)) (rest : V → Bool × V)
        → P v
        → ((x : V) → P x → P (rest x).1)
        → P (visit_word fetch visitor b v o rest).1
    visit_word_keeps b v none rest p h = p
    visit_word_keeps b v (some w) rest p h =
        let q = keeps b w v p in
        if_keeps (λ (r : Bool × V). P r.1) (visitor b w v).0 (true, (visitor b w v).1)
          (rest (visitor b w v).1) q (h (visitor b w v).1 q)

    visit_words_keeps :
        (rounds : ℕ) (words : ℕ → ℕ) (i : ℕ) (v : V)
        → P v
        → P (visit_words fetch visitor rounds words i v).1
    unfolding visit_words
    visit_words_keeps zero words i v p = p
    visit_words_keeps (suc r) words i v p =
        visit_word_keeps (words i) v (fetch (words i)) (visit_words fetch visitor r words (i + 1)) p
          (λ x q. visit_words_keeps r words (i + 1) x q)

    visit_indirect_blocks_keeps :
        (words : ℕ → ℕ) (num : ℕ) (v : V)
        → P v
        → P (visit_indirect_blocks fetch visitor words num v).1
    unfolding visit_indirect_blocks
    visit_indirect_blocks_keeps words num v p =
        visit_words_keeps (min num num_indirect_blocks) words 0 v p

  module _ {V : Type 0} (P : V → Type 0) (visitor : Visitor V) (keeps : Keeps P visitor)
      (num_blocks : ℕ) where
    abbrev P0 : V × ℕ → Type 0
    P0 s = P s.0

    indirect_visitor-Keeps : Keeps P0 (indirect_visitor fetch visitor num_blocks)
    unfolding indirect_visitor
    indirect_visitor-Keeps b w (v, k) p =
        visit_indirect_blocks_keeps P visitor keeps w (num_blocks - k) v p

    double_indirect_visitor-Keeps : Keeps P0 (double_indirect_visitor fetch visitor num_blocks)
    unfolding double_indirect_visitor
    double_indirect_visitor-Keeps b w s p =
        visit_indirect_blocks_keeps P0 (indirect_visitor fetch visitor num_blocks)
          indirect_visitor-Keeps w (num_blocks - s.1) s p

    direct_step_keeps :
        (b : ℕ) (v : V) (k : ℕ) (o : Option (ℕ → ℕ)) (rest : V → ℕ → Bool × (V × ℕ))
        → P v
        → ((x : V) (j : ℕ) → P x → P (rest x j).1.0)
        → P (direct_step fetch visitor num_blocks b v k o rest).1.0
    direct_step_keeps b v k none rest p h = p
    direct_step_keeps b v k (some w) rest p h =
        let q = keeps b w v p in
        let R : Bool × (V × ℕ) → Type 0 = λ r. P r.1.0 in
        let v' = (visitor b w v).1 in
        if_keeps R (visitor b w v).0 (false, (v', k))
          (if k + 1 == num_blocks then (false, (v', k + 1)) else rest v' (k + 1)) q
          (if_keeps R (k + 1 == num_blocks) (false, (v', k + 1)) (rest v' (k + 1)) q
            (h v' (k + 1) q))

    visit_direct_keeps :
        (rounds : ℕ) (i_block : List ℕ) (i : ℕ) (v : V) (k : ℕ)
        → P v
        → P (visit_direct fetch visitor num_blocks rounds i_block i v k).1.0
    unfolding visit_direct
    visit_direct_keeps zero i_block i v k p = p
    visit_direct_keeps (suc r) i_block i v k p =
        direct_step_keeps (root i_block i) v k (fetch (root i_block i))
          (visit_direct fetch visitor num_blocks r i_block (i + 1)) p
          (λ x j q. visit_direct_keeps r i_block (i + 1) x j q)

    visit_tind_keeps :
        (i_block : List ℕ) (v : V) (k : ℕ)
        → P v
        → P (visit_tind fetch visitor num_blocks i_block v k)
    unfolding visit_tind
    visit_tind_keeps i_block v k p = elim (Option-cases (fetch (root i_block tind_block))) [
      | inl e ↦ rw (e, visit_tind) p
      | inr (w, e) ↦
          rw (e, visit_tind)
            (visit_indirect_blocks_keeps P0 (double_indirect_visitor fetch visitor num_blocks)
              double_indirect_visitor-Keeps w
              ((num_blocks - k + max_dind_blocks - 1) / max_dind_blocks) (v, k) p)
    ]

    -- The end of a level: another level follows where the file goes on.
    if_more : (b c : Bool) (v w : V) → P v → P w → P (if b then (if c then v else w) else v)
    if_more b c v w p q = if_keeps P b (if c then v else w) v (if_keeps P c v w p q) p

    visit_dind_keeps :
        (i_block : List ℕ) (v : V) (k : ℕ)
        → P v
        → P (visit_dind fetch visitor num_blocks i_block v k)
    unfolding visit_dind
    visit_dind_keeps i_block v k p = elim (Option-cases (fetch (root i_block dind_block))) [
      | inl e ↦ rw (e, visit_dind) p
      | inr (w, e) ↦
          let n = (num_blocks - k + num_indirect_blocks - 1) / num_indirect_blocks in
          let r =
            visit_indirect_blocks fetch (indirect_visitor fetch visitor num_blocks) w n (v, k) in
          let q =
            visit_indirect_blocks_keeps P0 (indirect_visitor fetch visitor num_blocks)
              indirect_visitor-Keeps w n (v, k) p in
          rw (e, visit_dind)
            (if_more r.0 (r.1.1 == num_blocks) r.1.0
              (visit_tind fetch visitor num_blocks i_block r.1.0 r.1.1) q
              (visit_tind_keeps i_block r.1.0 r.1.1 q))
    ]

    visit_ind_keeps :
        (i_block : List ℕ) (v : V) (k : ℕ)
        → P v
        → P (visit_ind fetch visitor num_blocks i_block v k)
    unfolding visit_ind
    visit_ind_keeps i_block v k p = elim (Option-cases (fetch (root i_block ind_block))) [
      | inl e ↦ rw (e, visit_ind) p
      | inr (w, e) ↦
          let r = visit_indirect_blocks fetch visitor w (num_blocks - k) v in
          let k' = k + min (num_blocks - k) max_ind_blocks in
          let q = visit_indirect_blocks_keeps P visitor keeps w (num_blocks - k) v p in
          rw (e, visit_ind)
            (if_more r.0 (k' == num_blocks) r.1 (visit_dind fetch visitor num_blocks i_block r.1 k')
              q (visit_dind_keeps i_block r.1 k' q))
    ]

    visit_rest_keeps :
        (i_block : List ℕ) (r : Bool × (V × ℕ))
        → P r.1.0
        → P (visit_rest fetch visitor num_blocks i_block r)
    visit_rest_keeps i_block (true, (v, k)) p = visit_ind_keeps i_block v k p
    visit_rest_keeps i_block (false, (v, k)) p = p

  pub visit_inode_blocks_keeps :
      {V : Type 0} (P : V → Type 0) (visitor : Visitor V) (inode : Inode) (v : V)
      → Keeps P visitor
      → P v
      → P (visit_inode_blocks fetch visitor inode v)
  unfolding visit_inode_blocks
  visit_inode_blocks_keeps P visitor inode v keeps p =
      let n = inode.i_blocks / 8 in
      let d = visit_direct fetch visitor n max_dir_blocks inode.i_block 0 v 0 in
      if_keeps P (n == 0) v (visit_rest fetch visitor n inode.i_block d) p (
        visit_rest_keeps P visitor keeps n inode.i_block d
          (visit_direct_keeps P visitor keeps n max_dir_blocks inode.i_block 0 v 0 p))
