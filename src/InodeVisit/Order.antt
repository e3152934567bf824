-- ===== src/InodeVisit/Order.antt =====
-- A visit of the direct and the single indirect level, by a visitor that does not stop, sees the blocks
-- of the file in the order of the file, each once.
use naive_fs.Base.{
  ℕ, zero, suc, ◌+◌, ◌-◌, ◌/◌, ◌≤◌, ◌<◌, ◌≡◌, refl, sym, ap, ◌∙◌, min, true, false, ◌==◌, arith,
  Option, none, some, List, ℕ_discrete, dec_le, Option-cases, inl, inr, none_ne_some,
}
use naive_fs.Config.{num_indirect_blocks, max_dir_blocks, max_ind_blocks}
use naive_fs.Inode.{Inode, ind_block}
use naive_fs.BlockTree.{Fetch, root, locate}
use naive_fs.InodeBlocks.Entries.{locate-entry}
use naive_fs.FileStatus.Position.{locate_direct, locate_single}
use naive_fs.FileStatus.{ptr_seek}
use naive_fs.InodeVisit.{
  Visitor, visit_words, visit_indirect_blocks, visit_direct, visit_ind, visit_rest,
  visit_inode_blocks,
}

module _ (fetch : Fetch) {V : Type 0} (visitor : Visitor V) (i_block : List ℕ) where
  abbrev in_order_step : V → Option ℕ → (V → V) → V
  in_order_step v none rest = v
  in_order_step v (some b) rest = elim (fetch b) [ none ↦ v | some w ↦ rest (visitor b w v).1 ]

  -- The visitor on file blocks m to m + n - 1, one after the other.
  unfoldable pub in_order : ℕ → ℕ → V → V
  in_order m zero v = v
  in_order m (suc n) v = in_order_step v (locate fetch i_block m) (in_order (m + 1) n)

  -- File block m is found and can be read.
  abbrev pub IsThere : ℕ → Type 0
  IsThere m = (b : ℕ) × (w : ℕ → ℕ) × (locate fetch i_block m ≡ some b) × (fetch b ≡ some w)

  in_order-suc :
      (m n b : ℕ) (w : ℕ → ℕ) (v : V)
      → locate fetch i_block m ≡ some b
      → fetch b ≡ some w
      → in_order m (suc n) v ≡ in_order (m + 1) n (visitor b w v).1
  unfolding in_order
  in_order-suc m n b w v e q =
      ap (λ o. in_order_step v o (in_order (m + 1) n)) e
      ∙ ap (λ o. elim o [ none ↦ v | some x ↦ in_order (m + 1) n (visitor b x v).1 ]) q

  in_order-add :
      (a c m : ℕ) (v : V)
      → ((j : ℕ) → m ≤ j → j < m + a → IsThere j)
      → in_order m (a + c) v ≡ in_order (m + a) c (in_order m a v)
  unfolding in_order
  in_order-add zero c m v there =
      ap (λ k. in_order m k v) (let e : 0 + c ≡ c = omega arith in e)
      ∙ ap (λ k. in_order k c v) (let e : m ≡ m + 0 = omega arith in e)
  in_order-add (suc a) c m v there =
      let (b, w, e, q) = there m (omega arith) (omega arith) in
      let v' = (visitor b w v).1 in
      ap (λ k. in_order m k v) (let s : suc a + c ≡ suc (a + c) = omega arith in s)
      ∙ in_order-suc m (a + c) b w v e q
      ∙ in_order-add a c (m + 1) v' (λ j h p. there j (omega arith) (omega arith))
      ∙ ap (λ k. in_order k c (in_order (m + 1) a v'))
          (let s : m + 1 + a ≡ m + suc a = omega arith in s)
      ∙ ap (in_order (m + suc a) c) (sym (in_order-suc m a b w v e q))

  module _ (calm : (b : ℕ) (w : ℕ → ℕ) (v : V) → (visitor b w v).0 ≡ false) where
    -- The loop over the single indirect block.
    visit_words-in_order :
        (rounds i : ℕ) (words : ℕ → ℕ) (v : V)
        → fetch (root i_block ind_block) ≡ some words
        → i + rounds ≤ max_ind_blocks
        → ((j : ℕ) → max_dir_blocks + i ≤ j → j < max_dir_blocks + i + rounds → IsThere j)
        → visit_words fetch visitor rounds words i v
          ≡ (true, in_order (max_dir_blocks + i) rounds v)
    unfolding visit_words in_order
    visit_words-in_order zero i words v top h there = refl
    visit_words-in_order (suc r) i words v top h there =
        let (b, w, e, q) = there (max_dir_blocks + i) (omega arith) (omega arith) in
        let entry : some (words i) ≡ some b =
          ap (λ k. some (words k))
            (let s : i ≡ max_dir_blocks + i - max_dir_blocks = omega arith in s)
          ∙ sym (
              locate-entry fetch i_block (max_dir_blocks + i) words (omega arith) (omega arith) top)
          ∙ e in
        let same : words i ≡ b = ap (λ o. elim o [ none ↦ 0 | some x ↦ x ]) entry in
        let c = calm b w v in
        let rest =
          visit_words-in_order r (i + 1) words (visitor b w v).1 top (omega arith)
            (λ j s p. there j (omega arith) (omega arith)) in
        rw (same, q, c, visit_words)
          (rest
            ∙ ap (λ k. (true, in_order k r (visitor b w v).1))
                (let s : max_dir_blocks + (i + 1) ≡ max_dir_blocks + i + 1 = omega arith in s)
            ∙ ap (λ x. (true, x)) (sym (in_order-suc (max_dir_blocks + i) r b w v e q)))

    module _ (num_blocks : ℕ) where
      -- The loop over the direct blocks, where the file ends among them, and where it goes on.
      visit_direct-ends :
          (rounds i : ℕ) (v : V)
          → i + rounds ≡ max_dir_blocks
          → i < num_blocks
          → num_blocks ≤ max_dir_blocks
          → ((j : ℕ) → j < num_blocks → IsThere j)
          → visit_direct fetch visitor num_blocks rounds i_block i v i
            ≡ (false, (in_order i (num_blocks - i) v, num_blocks))
      unfolding visit_direct in_order
      visit_direct-ends zero i v s h q there = absurd (omega arith)
      visit_direct-ends (suc r) i v s h q there =
          let (b, w, e, g) = there i h in
          let same : root i_block i ≡ b =
            ap (λ o. elim o [ none ↦ 0 | some x ↦ x ])
              (sym (locate_direct fetch i_block i (omega arith)) ∙ e) in
          let c = calm b w v in
          elim (ℕ_discrete (i + 1) num_blocks) [
            | yes p ↦
                let t : (i + 1 == num_blocks) ≡ true = ground arith in
                let left : num_blocks - i ≡ 1 = omega (arith, p) in
                rw (same, g, c, t, left)
                  (ap (λ k. (false, ((visitor b w v).1, k))) p
                    ∙ ap (λ x. (false, (x, num_blocks))) (sym (in_order-suc i 0 b w v e g)))
            | no ne ↦
                let t : (i + 1 == num_blocks) ≡ false = ground arith in
                let rest =
                  visit_direct-ends r (i + 1) (visitor b w v).1 (omega arith) (omega arith) q
                    there in
                rw (same, g, c, t)
                  (rest
                    ∙ ap (λ x. (false, (x, num_blocks)))
                        (sym (in_order-suc i (num_blocks - (i + 1)) b w v e g)
                          ∙ ap (λ k. in_order i k v)
                              (let k : suc (num_blocks - (i + 1)) ≡ num_blocks - i = omega arith in
                                k)))
          ]

      visit_direct-passes :
          (rounds i : ℕ) (v : V)
          → i + rounds ≡ max_dir_blocks
          → max_dir_blocks < num_blocks
          → ((j : ℕ) → j < num_blocks → IsThere j)
          → visit_direct fetch visitor num_blocks rounds i_block i v i
            ≡ (true, (in_order i rounds v, max_dir_blocks))
      unfolding visit_direct in_order
      visit_direct-passes zero i v s h there =
          ap (λ k. (true, (v, k))) (let k : i ≡ max_dir_blocks = omega arith in k)
      visit_direct-passes (suc r) i v s h there =
          let (b, w, e, g) = there i (omega arith) in
          let same : root i_block i ≡ b =
            ap (λ o. elim o [ none ↦ 0 | some x ↦ x ])
              (sym (locate_direct fetch i_block i (omega arith)) ∙ e) in
          let c = calm b w v in
          let t : (i + 1 == num_blocks) ≡ false = ground arith in
          let rest = visit_direct-passes r (i + 1) (visitor b w v).1 (omega arith) h there in
          rw (same, g, c, t)
            (rest ∙ ap (λ x. (true, (x, max_dir_blocks))) (sym (in_order-suc i r b w v e g)))

    -- The single indirect block can be read where the file has a block there.
    top_there : IsThere max_dir_blocks → (w : ℕ → ℕ) × (fetch (root i_block ind_block) ≡ some w)
    unfolding ptr_seek
    top_there (b, w, e, q) = elim (Option-cases (fetch (root i_block ind_block))) [
      | inl none_there ↦ absurd (
          none_ne_some (
            sym (
              locate_single fetch i_block max_dir_blocks (omega arith) (omega arith)
              ∙ ground (arith, none_there))
            ∙ e))
      | inr found ↦ found
    ]

    module _ (num_blocks : ℕ) (few : num_blocks ≤ max_dir_blocks + max_ind_blocks)
        (there : (j : ℕ) → j < num_blocks → IsThere j) where
      visit_ind-in_order :
          (v : V)
          → max_dir_blocks < num_blocks
          → visit_ind fetch visitor num_blocks i_block v max_dir_blocks
            ≡ in_order max_dir_blocks (num_blocks - max_dir_blocks) v
      unfolding visit_ind visit_indirect_blocks
      visit_ind-in_order v h =
          let (words, top) = top_there (there max_dir_blocks h) in
          let all : min (num_blocks - max_dir_blocks) num_indirect_blocks
              ≡ num_blocks - max_dir_blocks =
            omega arith in
          let visited =
            visit_words-in_order (num_blocks - max_dir_blocks) 0 words v top (omega arith)
              (λ j s p. there j (omega arith)) in
          let t : (max_dir_blocks + (num_blocks - max_dir_blocks) == num_blocks) ≡ true =
            ground arith in
          rw (top, visit_ind) (rw (all, visit_indirect_blocks) (rw (visited, t) refl))

      visit_rest-in_order :
          (v : V)
          → 0 < num_blocks
          → visit_rest fetch visitor num_blocks i_block
              (visit_direct fetch visitor num_blocks max_dir_blocks i_block 0 v 0)
            ≡ in_order 0 num_blocks v
      visit_rest-in_order v h = elim (dec_le num_blocks max_dir_blocks) [
        | yes low ↦
            rw (visit_direct-ends num_blocks max_dir_blocks 0 v refl h low there)
              (ap (λ k. in_order 0 k v) (let k : num_blocks - 0 ≡ num_blocks = omega arith in k))
        | no high ↦
            rw (visit_direct-passes num_blocks max_dir_blocks 0 v refl (omega arith) there) (
              visit_ind-in_order (in_order 0 max_dir_blocks v) (omega arith)
              ∙ sym (
                  in_order-add max_dir_blocks (num_blocks - max_dir_blocks) 0 v
                    (λ j s p. there j (omega arith)))
              ∙ ap (λ k. in_order 0 k v)
                  (let k : max_dir_blocks + (num_blocks - max_dir_blocks) ≡ num_blocks =
                      omega arith in
                    k))
      ]

  -- A visit by a visitor that never stops, of a file of at most the direct and the single indirect level
  -- whose blocks are all found and can be read, is the visitor on the blocks that `locate` gives for
  -- file blocks 0, 1, 2 and so on to the last, each once.
  pub visit_inode_blocks-in_order :
      (inode : Inode) (v : V)
      → inode.i_block ≡ i_block
      → ((b : ℕ) (w : ℕ → ℕ) (x : V) → (visitor b w x).0 ≡ false)
      → inode.i_blocks / 8 ≤ max_dir_blocks + max_ind_blocks
      → ((j : ℕ) → j < inode.i_blocks / 8 → IsThere j)
      → visit_inode_blocks fetch visitor inode v ≡ in_order 0 (inode.i_blocks / 8) v
  unfolding visit_inode_blocks in_order
  visit_inode_blocks-in_order inode v same calm few there =
      elim (ℕ_discrete (inode.i_blocks / 8) 0) [
        | yes e ↦ let t : (inode.i_blocks / 8 == 0) ≡ true = ground arith in rw (t, e) refl
        | no ne ↦
            let t : (inode.i_blocks / 8 == 0) ≡ false = ground arith in
            rw (t, same) (visit_rest-in_order calm (inode.i_blocks / 8) few there v (omega arith))
      ]
