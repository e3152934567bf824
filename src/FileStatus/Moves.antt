-- ===== src/FileStatus/Moves.antt =====
-- The moves of the cursor against `locate`: `bf_seek`, and `next_block` from where the cursor stands.
use naive_fs.Base.{
  ℕ, ◌-◌, ◌*◌, ◌/◌, ◌%◌, ◌≤◌, ◌<◌, ◌≡◌, refl, sym, ap, ◌∙◌, inl, inr, Option-cases, arith, some,
  List,
}
use naive_fs.Inode.{ind_block, dind_block, tind_block}
use naive_fs.BlockTree.{Fetch, iblock_11, iblock_12, iblock_13, iblock_14, root, locate}
use naive_fs.FileStatus.{FileStatus, per_block, ptr_seek, step_0, step_1, finish}
use naive_fs.FileStatus.Position.{
  seek_at, offset_2, offset_3, through, locate_single, locate_double, locate_triple, MovesTo,
}

module _ (fetch : Fetch) (i_block : List ℕ) where
  -- On the last pointer of each level: where the cursor then stands.
  pub finish_single :
      (n : ℕ) (s : FileStatus)
      → iblock_11 < n
      → n ≤ iblock_12
      → s.block_id_in_file ≡ n
      → s.indirect_0 ≡ root i_block ind_block
      → MovesTo fetch i_block n (finish fetch i_block s s.indirect_0 (n - iblock_11 - 1))
  unfolding finish
  finish_single n s h q at r =
      let at_n = locate_single fetch i_block n h q in
      elim (Option-cases (ptr_seek fetch i_block s.indirect_0 (n - iblock_11 - 1))) [
        | inl e ↦
            rw (e, finish)
              (inr (
                refl,
                at_n ∙ ap (λ k. seek_at fetch i_block k (n - iblock_11 - 1)) (sym r) ∙ e,
                at,
              ))
        | inr (b, e) ↦
            rw (e, finish)
              (inl (
                refl,
                record {
                  here = at;
                  found = at_n ∙ ap (λ k. seek_at fetch i_block k (n - iblock_11 - 1)) (sym r) ∙ e;
                  single = λ _ _. r;
                  double_0 = λ h' q'. absurd (omega arith);
                  double_1 = λ h' q'. absurd (omega arith);
                  triple_0 = λ h' q'. absurd (omega arith);
                  triple_1 = λ h' q'. absurd (omega arith);
                  triple_2 = λ h' q'. absurd (omega arith);
                },
              ))
      ]

  pub finish_double :
      (n : ℕ) (s : FileStatus)
      → iblock_12 < n
      → n ≤ iblock_13
      → s.block_id_in_file ≡ n
      → s.indirect_0 ≡ root i_block dind_block
      → seek_at fetch i_block (root i_block dind_block) (offset_2 n / per_block) ≡ some s.indirect_1
      → MovesTo fetch i_block n (finish fetch i_block s s.indirect_1 (offset_2 n % per_block))
  unfolding finish
  finish_double n s h q at r p =
      let at_n =
        locate_double fetch i_block n h q
        ∙ ap (λ o. through o (λ c. seek_at fetch i_block c (offset_2 n % per_block))) p in
      elim (Option-cases (ptr_seek fetch i_block s.indirect_1 (offset_2 n % per_block))) [
        | inl e ↦ rw (e, finish) (inr (refl, at_n ∙ e, at))
        | inr (b, e) ↦
            rw (e, finish)
              (inl (
                refl,
                record {
                  here = at;
                  found = at_n ∙ e;
                  single = λ h' q'. absurd (omega arith);
                  double_0 = λ _ _. r;
                  double_1 = λ _ _. p;
                  triple_0 = λ h' q'. absurd (omega arith);
                  triple_1 = λ h' q'. absurd (omega arith);
                  triple_2 = λ h' q'. absurd (omega arith);
                },
              ))
      ]

  pub step_double :
      (n : ℕ) (s : FileStatus)
      → iblock_12 < n
      → n ≤ iblock_13
      → s.block_id_in_file ≡ n
      → s.indirect_0 ≡ root i_block dind_block
      → MovesTo fetch i_block n (
          step_0 fetch i_block s
            (offset_2 n / per_block)
            λ s1. finish fetch i_block s1 s1.indirect_1 (offset_2 n % per_block))
  unfolding step_0
  step_double n s h q at r =
      elim (Option-cases (ptr_seek fetch i_block s.indirect_0 (offset_2 n / per_block))) [
        | inl e ↦
            let e' = ap (λ k. seek_at fetch i_block k (offset_2 n / per_block)) (sym r) ∙ e in
            rw (e, step_0) (inr (refl, locate_double fetch i_block n h q ∙ rw e' refl, at))
        | inr (b, e) ↦
            let e' = ap (λ k. seek_at fetch i_block k (offset_2 n / per_block)) (sym r) ∙ e in
            rw (e, step_0) (finish_double n (record s { indirect_1 = b }) h q at r e')
      ]

  pub finish_triple :
      (n : ℕ) (s : FileStatus)
      → iblock_13 < n
      → n ≤ iblock_14
      → s.block_id_in_file ≡ n
      → s.indirect_0 ≡ root i_block tind_block
      → seek_at fetch i_block (root i_block tind_block) (offset_3 n / (per_block * per_block))
        ≡ some s.indirect_1
      → seek_at fetch i_block s.indirect_1 (offset_3 n % (per_block * per_block) / per_block)
        ≡ some s.indirect_2
      → MovesTo fetch i_block n (finish fetch i_block s s.indirect_2 (offset_3 n % per_block))
  unfolding finish
  finish_triple n s h q at r p p' =
      let at_n : locate fetch i_block n
          ≡ seek_at fetch i_block s.indirect_2 (offset_3 n % per_block) =
        locate_triple fetch i_block n h q ∙ rw (p, p') refl in
      elim (Option-cases (ptr_seek fetch i_block s.indirect_2 (offset_3 n % per_block))) [
        | inl e ↦ rw (e, finish) (inr (refl, at_n ∙ e, at))
        | inr (b, e) ↦
            rw (e, finish)
              (inl (
                refl,
                record {
                  here = at;
                  found = at_n ∙ e;
                  single = λ h' q'. absurd (omega arith);
                  double_0 = λ h' q'. absurd (omega arith);
                  double_1 = λ h' q'. absurd (omega arith);
                  triple_0 = λ _ _. r;
                  triple_1 = λ _ _. p;
                  triple_2 = λ _ _. p';
                },
              ))
      ]

  pub step_triple_1 :
      (n : ℕ) (s : FileStatus)
      → iblock_13 < n
      → n ≤ iblock_14
      → s.block_id_in_file ≡ n
      → s.indirect_0 ≡ root i_block tind_block
      → seek_at fetch i_block (root i_block tind_block) (offset_3 n / (per_block * per_block))
        ≡ some s.indirect_1
      → MovesTo fetch i_block n (
          step_1 fetch i_block s
            (offset_3 n % (per_block * per_block) / per_block)
            λ s2. finish fetch i_block s2 s2.indirect_2 (offset_3 n % per_block))
  unfolding step_1
  step_triple_1 n s h q at r p =
      elim (Option-cases
        (ptr_seek fetch i_block s.indirect_1 (offset_3 n % (per_block * per_block) / per_block))) [
          | inl e ↦
              rw (e, step_1) (inr (refl, locate_triple fetch i_block n h q ∙ rw (p, e) refl, at))
          | inr (b, e) ↦ rw (e, step_1) (finish_triple n (record s { indirect_2 = b }) h q at r p e)
        ]

  pub step_triple_0 :
      (n : ℕ) (s : FileStatus)
      → iblock_13 < n
      → n ≤ iblock_14
      → s.block_id_in_file ≡ n
      → s.indirect_0 ≡ root i_block tind_block
      → MovesTo fetch i_block n (
          step_0 fetch i_block s (offset_3 n / (per_block * per_block)) λ s1.
            step_1 fetch i_block s1
              (offset_3 n % (per_block * per_block) / per_block)
              λ s2. finish fetch i_block s2 s2.indirect_2 (offset_3 n % per_block))
  unfolding step_0
  step_triple_0 n s h q at r =
      elim (Option-cases
        (ptr_seek fetch i_block s.indirect_0 (offset_3 n / (per_block * per_block)))) [
          | inl e ↦
              let e' =
                ap (λ k. seek_at fetch i_block k (offset_3 n / (per_block * per_block))) (sym r)
                ∙ e in
              rw (e, step_0) (inr (refl, locate_triple fetch i_block n h q ∙ rw e' refl, at))
          | inr (b, e) ↦
              let e' =
                ap (λ k. seek_at fetch i_block k (offset_3 n / (per_block * per_block))) (sym r)
                ∙ e in
              rw (e, step_0) (step_triple_1 n (record s { indirect_1 = b }) h q at r e')
        ]
