-- ===== src/InodeVisit.antt =====
-- `visit_inode_blocks` and `visit_indirect_blocks` of src/filesystem.cpp: a visitor goes over the blocks
-- of a file. What the visitor changes is its state; it is given a block's number and words, and tells
-- whether to stop.
pub mod Order
pub mod Invariant
use naive_fs.Base.{
  ℕ, zero, suc, ◌+◌, ◌-◌, ◌/◌, min, Bool, true, false, ◌==◌, if◌then◌else◌, Option, none, some,
  List,
}
use naive_fs.Config.{num_indirect_blocks, max_dir_blocks, max_ind_blocks, max_dind_blocks}
use naive_fs.Inode.{Inode, ind_block, dind_block, tind_block}
use naive_fs.BlockTree.{Fetch, root}

-- `BlockVisitor`
abbrev pub Visitor : Type 0 → Type 0
Visitor V = ℕ → (ℕ → ℕ) → V → Bool × V

module _ (fetch : Fetch) where
  module _ {V : Type 0} (visitor : Visitor V) where
    -- One round: `get_block`, then the visitor, then the rest of the loop, which is given.
    abbrev pub visit_word : ℕ → V → Option (ℕ → ℕ) → (V → Bool × V) → Bool × V
    visit_word b v none rest = (false, v)
    visit_word b v (some w) rest =
        let (stop, v') = visitor b w v in let after = rest v' in if stop then (true, v') else after

    -- The loop over an indirect block from its entry i on.
    unfoldable pub visit_words : ℕ → (ℕ → ℕ) → ℕ → V → Bool × V
    visit_words zero words i v = (true, v)
    visit_words (suc rounds) words i v =
        visit_word (words i) v (fetch (words i)) (visit_words rounds words (i + 1))

    -- `visit_indirect_blocks`
    unfoldable pub visit_indirect_blocks : (ℕ → ℕ) → ℕ → V → Bool × V
    visit_indirect_blocks words num v = visit_words (min num num_indirect_blocks) words 0 v

  module _ {V : Type 0} (visitor : Visitor V) (num_blocks : ℕ) where
    -- `indirect_visitor` and `double_indirect_visitor`, whose state has `curr_num`
    unfoldable pub indirect_visitor : Visitor (V × ℕ)
    indirect_visitor b words (v, curr_num) = (
      false,
      (
        (visit_indirect_blocks visitor words (num_blocks - curr_num) v).1,
        curr_num + min (num_blocks - curr_num) num_indirect_blocks,
      ),
    )

    unfoldable pub double_indirect_visitor : Visitor (V × ℕ)
    double_indirect_visitor b words s =
        (false, (visit_indirect_blocks indirect_visitor words (num_blocks - s.1) s).1)

    -- The rounds of the direct blocks from block i on: whether the loop goes on, and the state.
    abbrev pub direct_step : ℕ → V → ℕ → Option (ℕ → ℕ) → (V → ℕ → Bool × (V × ℕ)) → Bool × (V × ℕ)
    direct_step b v curr_num none rest = (false, (v, curr_num))
    direct_step b v curr_num (some w) rest =
        let (stop, v') = visitor b w v in
        let after = rest v' (curr_num + 1) in
        if stop
        then (false, (v', curr_num))
        else if curr_num + 1 == num_blocks
        then (false, (v', curr_num + 1))
        else after

    unfoldable pub visit_direct : ℕ → List ℕ → ℕ → V → ℕ → Bool × (V × ℕ)
    visit_direct zero i_block i v curr_num = (true, (v, curr_num))
    visit_direct (suc rounds) i_block i v curr_num =
        direct_step (root i_block i) v curr_num (fetch (root i_block i))
          (visit_direct rounds i_block (i + 1))

    -- The rounds of the triple, the double and the single indirect block.
    unfoldable pub visit_tind : List ℕ → V → ℕ → V
    visit_tind i_block v curr_num = elim (fetch (root i_block tind_block)) [
      | none ↦ v
      | some words ↦
          let num_indirects = (num_blocks - curr_num + max_dind_blocks - 1) / max_dind_blocks in
          (visit_indirect_blocks double_indirect_visitor words num_indirects (v, curr_num)).1.0
    ]

    unfoldable pub visit_dind : List ℕ → V → ℕ → V
    visit_dind i_block v curr_num = elim (fetch (root i_block dind_block)) [
      | none ↦ v
      | some words ↦
          let num_indirects =
            (num_blocks - curr_num + num_indirect_blocks - 1) / num_indirect_blocks in
          let (ok, (v', curr')) =
            visit_indirect_blocks indirect_visitor words num_indirects (v, curr_num) in
          if ok then (if curr' == num_blocks then v' else visit_tind i_block v' curr') else v'
    ]

    unfoldable pub visit_ind : List ℕ → V → ℕ → V
    visit_ind i_block v curr_num = elim (fetch (root i_block ind_block)) [
      | none ↦ v
      | some words ↦
          let (ok, v') = visit_indirect_blocks visitor words (num_blocks - curr_num) v in
          let curr' = curr_num + min (num_blocks - curr_num) max_ind_blocks in
          if ok then (if curr' == num_blocks then v' else visit_dind i_block v' curr') else v'
    ]

    -- After the direct blocks.
    abbrev pub visit_rest : List ℕ → Bool × (V × ℕ) → V
    visit_rest i_block (true, (v, curr_num)) = visit_ind i_block v curr_num
    visit_rest i_block (false, (v, curr_num)) = v

  -- `visit_inode_blocks`, with `num_aligned_blocks` at the block size of the build
  unfoldable pub visit_inode_blocks : {V : Type 0} → Visitor V → Inode → V → V
  unfolding visit_direct visit_ind
  visit_inode_blocks visitor inode v =
      let num_blocks = inode.i_blocks / 8 in
      if num_blocks == 0
      then v
      else visit_rest visitor num_blocks inode.i_block
          (visit_direct visitor num_blocks max_dir_blocks inode.i_block 0 v 0)
