-- ===== src/FileStatus/Seek.antt =====
-- `bf_seek`, `next_block` and `seek` as a whole.
use naive_fs.Base.{
  ℕ, ◌-◌, ◌^◌, ◌≤◌, ◌<◌, ◌≡◌, refl, sym, ap, ◌∙◌, inl, true, false, leb, arith, some, List, dec_le,
}
use naive_fs.BlockTree.{Fetch, iblock_11, iblock_12, iblock_13, iblock_14, root}
use naive_fs.FileStatus.{FileStatus, sub32_one, bf_seek}
use naive_fs.FileStatus.Position.{locate_direct, At, MovesTo}
use naive_fs.FileStatus.Moves.{finish_single, step_double, step_triple_0}

pub sub32_one_lem : (a b : ℕ) → b < a → a < 2 ^ 32 → sub32_one a b ≡ a - b - 1
sub32_one_lem a b h q = omega arith

module _ (fetch : Fetch) (i_block : List ℕ) where
  pub At-direct :
      (n : ℕ) (s : FileStatus)
      → n ≤ iblock_11
      → s.block_id_in_file ≡ n
      → s.block_id ≡ root i_block n
      → At fetch i_block n s
  At-direct n s h at b = record {
    here = at;
    found = locate_direct fetch i_block n h ∙ ap (λ x. some x) (sym b);
    single = λ h' q'. absurd (omega arith);
    double_0 = λ h' q'. absurd (omega arith);
    double_1 = λ h' q'. absurd (omega arith);
    triple_0 = λ h' q'. absurd (omega arith);
    triple_1 = λ h' q'. absurd (omega arith);
    triple_2 = λ h' q'. absurd (omega arith);
  }

  -- `bf_seek` from any state to a file block of the four levels: it returns 0 and the cursor stands
  -- there, or it returns -EINVAL and the tree has no such block.
  pub bf_seek-MovesTo :
      (s : FileStatus) (n : ℕ) → n ≤ iblock_14 → MovesTo fetch i_block n (bf_seek fetch i_block s n)
  unfolding bf_seek
  bf_seek-MovesTo s n top = elim (dec_le n iblock_11) [
    | yes h ↦
        let e : leb n iblock_11 ≡ true = ground arith in
        rw e (inl (refl, At-direct n _ h refl refl))
    | no a ↦
        let e : leb n iblock_11 ≡ false = ground arith in
        elim (dec_le n iblock_12) [
          | yes h ↦
              let e' : leb n iblock_12 ≡ true = ground arith in
              let d = sub32_one_lem n iblock_11 (omega arith) (omega arith) in
              rw (e, e', d) (finish_single fetch i_block n _ (omega arith) h refl refl)
          | no b ↦
              let e' : leb n iblock_12 ≡ false = ground arith in
              elim (dec_le n iblock_13) [
                | yes h ↦
                    let e'' : leb n iblock_13 ≡ true = ground arith in
                    let d = sub32_one_lem n iblock_12 (omega arith) (omega arith) in
                    rw (e, e', e'', d) (step_double fetch i_block n _ (omega arith) h refl refl)
                | no c ↦
                    let e'' : leb n iblock_13 ≡ false = ground arith in
                    let e''' : leb n iblock_14 ≡ true = ground arith in
                    let d = sub32_one_lem n iblock_13 (omega arith) (omega arith) in
                    rw (e, e', e'', e''', d)
                      (step_triple_0 fetch i_block n _ (omega arith) top refl refl)
              ]
        ]
  ]
