-- ===== src/FileStatus/Next.antt =====
-- `next_block`: from where the cursor stands to the next file block.
use naive_fs.Base.{
  ℕ, ◌+◌, ◌-◌, ◌*◌, ◌/◌, ◌%◌, ◌≤◌, ◌<◌, ◌≡◌, refl, subst, inl, true, false, leb, ◌==◌, arith, some,
  List, dec_le, ℕ_discrete,
}
use naive_fs.Inode.{ind_block, dind_block, tind_block}
use naive_fs.BlockTree.{Fetch, iblock_11, iblock_12, iblock_13, iblock_14, root}
use naive_fs.FileStatus.{
  FileStatus, per_block, step_0, step_1, finish, next_block, next_in_dind, next_in_tind,
}
use naive_fs.FileStatus.Position.{seek_at, offset_2, offset_3, At, MovesTo}
use naive_fs.FileStatus.Moves.{
  finish_single, finish_double, step_double, finish_triple, step_triple_1, step_triple_0,
}
use naive_fs.FileStatus.Seek.{sub32_one_lem, At-direct}

module _ (fetch : Fetch) (i_block : List ℕ) where
  -- Within the double level, at the block n that the cursor moves to from n - 1.
  next_double :
      (n : ℕ) (s next : FileStatus)
      → iblock_12 < n
      → n + 1 ≤ iblock_13
      → At fetch i_block n s
      → next ≡ record s { block_id_in_file = n + 1 }
      → MovesTo fetch i_block (n + 1) (next_in_dind fetch i_block next)
  unfolding next_in_dind
  next_double n s next h q at e =
      let test : leb (n + 1) iblock_13 ≡ true = ground arith in
      let d = sub32_one_lem (n + 1) iblock_12 (omega arith) (omega arith) in
      rw (e, test, d)
        (elim (ℕ_discrete (offset_2 (n + 1) % per_block) 0) [
          | yes z ↦
              let z' : (offset_2 (n + 1) % per_block == 0) ≡ true = ground arith in
              rw z' (
                subst
                  (λ k. MovesTo fetch i_block (n + 1) (
                    step_0 fetch i_block (record s { block_id_in_file = n + 1 })
                      (offset_2 (n + 1) / per_block) λ s1. finish fetch i_block s1 s1.indirect_1 k))
                  z
                  (step_double fetch i_block (n + 1) _ (omega arith) q refl
                    (at.double_0 h (omega arith))))
          | no nz ↦
              let nz' : (offset_2 (n + 1) % per_block == 0) ≡ false = ground arith in
              let same : offset_2 n / per_block ≡ offset_2 (n + 1) / per_block = omega arith in
              rw nz' (
                finish_double fetch i_block (n + 1) _ (omega arith) q refl
                  (at.double_0 h (omega arith))
                  (subst
                    (λ k. seek_at fetch i_block (root i_block dind_block) k ≡ some s.indirect_1)
                    same (at.double_1 h (omega arith))))
        ])

  next_triple :
      (n : ℕ) (s next : FileStatus)
      → iblock_13 < n
      → n + 1 ≤ iblock_14
      → At fetch i_block n s
      → next ≡ record s { block_id_in_file = n + 1 }
      → MovesTo fetch i_block (n + 1) (next_in_tind fetch i_block next)
  unfolding next_in_tind
  next_triple n s next h q at e =
      let d = sub32_one_lem (n + 1) iblock_13 (omega arith) (omega arith) in
      let off = offset_3 (n + 1) in
      let r = at.triple_0 h (omega arith) in
      rw (e, d)
        (elim (ℕ_discrete (off % per_block) 0) [
          | yes z ↦
              let z' : (off % per_block == 0) ≡ true = ground arith in
              elim (ℕ_discrete (off % (per_block * per_block) / per_block) 0) [
                | yes y ↦
                    let y' : (off % (per_block * per_block) / per_block == 0) ≡ true =
                      ground arith in
                    rw (z', y') (step_triple_0 fetch i_block (n + 1) _ (omega arith) q refl r)
                | no ny ↦
                    let y' : (off % (per_block * per_block) / per_block == 0) ≡ false =
                      ground arith in
                    let same : offset_3 n / (per_block * per_block)
                        ≡ off / (per_block * per_block) =
                      omega arith in
                    rw (z', y')
                      (step_triple_1 fetch i_block (n + 1) _ (omega arith) q refl r (
                        subst
                          (λ k.
                            seek_at fetch i_block (root i_block tind_block) k ≡ some s.indirect_1)
                          same (at.triple_1 h (omega arith))))
              ]
          | no nz ↦
              let z' : (off % per_block == 0) ≡ false = ground arith in
              let same : offset_3 n / (per_block * per_block) ≡ off / (per_block * per_block) =
                omega arith in
              let same' : offset_3 n % (per_block * per_block) / per_block
                  ≡ off % (per_block * per_block) / per_block =
                omega arith in
              rw z' (
                finish_triple fetch i_block (n + 1) _ (omega arith) q refl r
                  (subst
                    (λ k. seek_at fetch i_block (root i_block tind_block) k ≡ some s.indirect_1)
                    same (at.triple_1 h (omega arith)))
                  (subst (λ k. seek_at fetch i_block s.indirect_1 k ≡ some s.indirect_2) same'
                    (at.triple_2 h (omega arith))))
        ])

  -- The three moves to the first block of a level.
  enter_single :
      (n : ℕ) (s : FileStatus)
      → n ≡ iblock_11 + 1
      → s.block_id_in_file ≡ n
      → s.indirect_0 ≡ root i_block ind_block
      → MovesTo fetch i_block n (finish fetch i_block s s.indirect_0 0)
  enter_single n s e at r =
      subst (λ k. MovesTo fetch i_block n (finish fetch i_block s s.indirect_0 k))
        (let z : n - iblock_11 - 1 ≡ 0 = omega arith in z)
        (finish_single fetch i_block n s (omega arith) (omega arith) at r)

  enter_double :
      (n : ℕ) (s : FileStatus)
      → n ≡ iblock_12 + 1
      → s.block_id_in_file ≡ n
      → s.indirect_0 ≡ root i_block dind_block
      → MovesTo fetch i_block n
          (step_0 fetch i_block s 0 λ s1. finish fetch i_block s1 s1.indirect_1 0)
  enter_double n s e at r =
      subst
        (λ d. MovesTo fetch i_block n (
          step_0 fetch i_block s (d / per_block)
            λ s1. finish fetch i_block s1 s1.indirect_1 (d % per_block)))
        (let z : offset_2 n ≡ 0 = omega arith in z)
        (step_double fetch i_block n s (omega arith) (omega arith) at r)

  enter_triple :
      (n : ℕ) (s : FileStatus)
      → n ≡ iblock_13 + 1
      → s.block_id_in_file ≡ n
      → s.indirect_0 ≡ root i_block tind_block
      → MovesTo fetch i_block n (
          step_0 fetch i_block s 0
            λ s1. step_1 fetch i_block s1 0 λ s2. finish fetch i_block s2 s2.indirect_2 0)
  enter_triple n s e at r =
      subst
        (λ d. MovesTo fetch i_block n (
          step_0 fetch i_block s (d / (per_block * per_block)) λ s1.
            step_1 fetch i_block s1 (d % (per_block * per_block) / per_block)
              λ s2. finish fetch i_block s2 s2.indirect_2 (d % per_block)))
        (let z : offset_3 n ≡ 0 = omega arith in z)
        (step_triple_0 fetch i_block n s (omega arith) (omega arith) at r)

  next_below :
      (n : ℕ) (s : FileStatus)
      → n ≤ iblock_12
      → At fetch i_block n s
      → MovesTo fetch i_block (n + 1) (next_block fetch i_block s)
  unfolding next_block
  next_below n s h at =
      let here = at.here in
      rw here (elim (dec_le n iblock_11) [
        | yes low ↦
            let t : leb n iblock_11 ≡ true = ground arith in
            elim (dec_le (n + 1) iblock_11) [
              | yes p ↦
                  let t' : leb (n + 1) iblock_11 ≡ true = ground arith in
                  rw (t, t') (inl (refl, At-direct fetch i_block (n + 1) _ p refl refl))
              | no p ↦
                  let t' : leb (n + 1) iblock_11 ≡ false = ground arith in
                  rw (t, t') (enter_single (n + 1) _ (omega arith) refl refl)
            ]
        | no high ↦
            let t : leb n iblock_11 ≡ false = ground arith in
            let u : leb n iblock_12 ≡ true = ground arith in
            elim (dec_le (n + 1) iblock_12) [
              | yes p ↦
                  let u' : leb (n + 1) iblock_12 ≡ true = ground arith in
                  let d = sub32_one_lem (n + 1) iblock_11 (omega arith) (omega arith) in
                  rw (t, u, u', d)
                    (finish_single fetch i_block (n + 1) _ (omega arith) p refl
                      (at.single (omega arith) h))
              | no p ↦
                  let u' : leb (n + 1) iblock_12 ≡ false = ground arith in
                  rw (t, u, u') (enter_double (n + 1) _ (omega arith) refl refl)
            ]
      ])

  -- `next_block` from a cursor that stands at file block n, below the last one that an inode can
  -- have: it returns 0 and the cursor stands at block n + 1, or it returns -EINVAL and the tree has no
  -- such block.
  pub next_block-MovesTo :
      (n : ℕ) (s : FileStatus)
      → n < iblock_14
      → At fetch i_block n s
      → MovesTo fetch i_block (n + 1) (next_block fetch i_block s)
  unfolding next_block next_in_dind
  next_block-MovesTo n s top at = elim (dec_le n iblock_12) [
    | yes low ↦ next_below n s low at
    | no high ↦
        let here = at.here in
        let t : leb n iblock_11 ≡ false = ground arith in
        let u : leb n iblock_12 ≡ false = ground arith in
        rw (here, t, u)
          (elim (dec_le n iblock_13) [
            | yes mid ↦
                let w : leb n iblock_13 ≡ true = ground arith in
                elim (dec_le (n + 1) iblock_13) [
                  | yes p ↦ rw w (next_double n s _ (omega arith) p at refl)
                  | no p ↦
                      let w' : leb (n + 1) iblock_13 ≡ false = ground arith in
                      rw (w, w', next_in_dind) (enter_triple (n + 1) _ (omega arith) refl refl)
                ]
            | no late ↦
                let w : leb n iblock_13 ≡ false = ground arith in
                let x : leb n iblock_14 ≡ true = ground arith in
                rw (w, x) (next_triple n s _ (omega arith) (omega arith) at refl)
          ])
  ]
