-- ===== src/FileStatus/Jump.antt =====
-- `seek`, which keeps the pointers that the old and the new block share.
use naive_fs.Base.{
  ℕ, ◌-◌, ◌*◌, ◌/◌, ◌%◌, ◌≤◌, ◌<◌, ◌≡◌, ◌≢◌, refl, sym, subst, ◌∙◌, inl, inr, true, false, leb,
  ◌==◌, arith, none, some, List, dec_le, ℕ_discrete,
}
use naive_fs.Base.Int.{ℤ}
use naive_fs.Inode.{ind_block, dind_block, tind_block}
use naive_fs.BlockTree.{Fetch, iblock_11, iblock_12, iblock_13, iblock_14, root, locate}
use naive_fs.FileStatus.{
  FileStatus, sub32_one, per_block, ok, bad, ptr_seek, finish, bf_seek, seek, seek_in_dind,
  seek_in_tind,
}
use naive_fs.FileStatus.Position.{
  seek_at, offset_2, offset_3, locate_single, locate_triple, At, MovesTo,
}
use naive_fs.FileStatus.Moves.{finish_double}
use naive_fs.FileStatus.Seek.{sub32_one_lem, bf_seek-MovesTo}

-- For a block outside the double level the offset that `seek` takes wraps, and no entry of the level
-- has that quotient.
other_level :
    (o n : ℕ)
    → o ≤ iblock_14
    → iblock_12 < n
    → n ≤ iblock_13
    → sub32_one n iblock_12 / per_block ≡ sub32_one o iblock_12 / per_block
    → (iblock_12 < o) × (o ≤ iblock_13)
other_level o n p h q e = (omega arith, omega arith)

module _ (fetch : Fetch) (i_block : List ℕ) where
  -- Where the block exists, a move to it succeeds.
  At-of_MovesTo :
      (n b : ℕ) (r : ℤ × FileStatus)
      → MovesTo fetch i_block n r
      → locate fetch i_block n ≡ some b
      → (r.0 ≡ ok) × At fetch i_block n r.1
  At-of_MovesTo n b r (inl m) e = m
  At-of_MovesTo n b r (inr m) e = absurd (ground (arith, m.1))

  same_place :
      (o n : ℕ) (s : FileStatus)
      → o ≡ n
      → At fetch i_block o s
      → At fetch i_block n (record s { block_id_in_file = n })
  same_place o n s e at =
      subst (λ k. At fetch i_block k (record s { block_id_in_file = k })) e
        (record {
          here = refl;
          found = at.found;
          single = at.single;
          double_0 = at.double_0;
          double_1 = at.double_1;
          triple_0 = at.triple_0;
          triple_1 = at.triple_1;
          triple_2 = at.triple_2;
        })

  seek_double :
      (o n : ℕ) (s : FileStatus)
      → o ≤ iblock_14
      → iblock_12 < n
      → n ≤ iblock_13
      → At fetch i_block o s
      → MovesTo fetch i_block n (seek_in_dind fetch i_block s n)
  unfolding seek_in_dind
  seek_double o n s p h q at =
      let here = at.here in
      let d = sub32_one_lem n iblock_12 h (omega arith) in
      rw here
        (elim (ℕ_discrete (sub32_one n iblock_12 / per_block) (sub32_one o iblock_12 / per_block)) [
          | yes e ↦
              let t : (sub32_one n iblock_12 / per_block == sub32_one o iblock_12 / per_block)
                  ≡ true =
                ground arith in
              let (lo, hi) = other_level o n p h q e in
              let c = sub32_one_lem o iblock_12 lo (omega arith) in
              elim (ℕ_discrete (sub32_one n iblock_12 % per_block)
                (sub32_one o iblock_12 % per_block)) [
                  | yes f ↦
                      let u : (sub32_one n iblock_12 % per_block
                            == sub32_one o iblock_12 % per_block)
                          ≡ true =
                        ground arith in
                      rw (t, u) (inl (refl, same_place o n s (omega arith) at))
                  | no g ↦
                      let u : (sub32_one n iblock_12 % per_block
                            == sub32_one o iblock_12 % per_block)
                          ≡ false =
                        ground arith in
                      let same : offset_2 o / per_block ≡ offset_2 n / per_block = omega arith in
                      rw (t, u, d)
                        (finish_double fetch i_block n _ h q refl (at.double_0 lo hi) (
                          subst
                            (λ k.
                              seek_at fetch i_block (root i_block dind_block) k ≡ some s.indirect_1)
                            same (at.double_1 lo hi)))
                ]
          | no ne ↦
              let t : (sub32_one n iblock_12 / per_block == sub32_one o iblock_12 / per_block)
                  ≡ false =
                ground arith in
              rw t
                (bf_seek-MovesTo fetch i_block (record s { block_id_in_file = n }) n (omega arith))
        ])

  -- `seek` from where the cursor stands to an existing block of the direct, single or double indirect
  -- level returns 0, and the cursor stands there.
  pub seek-At :
      (o n b : ℕ) (s : FileStatus)
      → o ≤ iblock_14
      → n ≤ iblock_13
      → At fetch i_block o s
      → locate fetch i_block n ≡ some b
      → ((seek fetch i_block s n).0 ≡ ok) × At fetch i_block n (seek fetch i_block s n).1
  unfolding seek
  seek-At o n b s p q at e = elim (dec_le n iblock_12) [
    | yes low ↦
        let t : leb n iblock_12 ≡ true = ground arith in
        rw t (refl, (At-of_MovesTo n b _ (bf_seek-MovesTo fetch i_block s n (omega arith)) e).1)
    | no high ↦
        let t : leb n iblock_12 ≡ false = ground arith in
        let u : leb n iblock_13 ≡ true = ground arith in
        rw (t, u) (At-of_MovesTo n b _ (seek_double o n s p (omega arith) q at) e)
  ]

  bf_seek_single :
      (n : ℕ) (s : FileStatus)
      → iblock_11 < n
      → n ≤ iblock_12
      → bf_seek fetch i_block s n
        ≡ finish fetch i_block
            (record s { block_id_in_file = n; indirect_0 = root i_block ind_block })
            (root i_block ind_block)
            (n - iblock_11 - 1)
  unfolding bf_seek
  bf_seek_single n s h q =
      let t : leb n iblock_12 ≡ true = ground arith in
      let u : leb n iblock_11 ≡ false = ground arith in
      let d = sub32_one_lem n iblock_11 h (omega arith) in rw (u, t, d) refl

  finish-none :
      (s : FileStatus) (id off : ℕ)
      → ptr_seek fetch i_block id off ≡ none
      → finish fetch i_block s id off ≡ (bad, s)
  unfolding finish
  finish-none s id off e = rw (e, finish) refl

  -- `seek` to a single indirect block that the tree does not have returns 0 all the same: the cursor
  -- says that it is at that block, and keeps the number of the block where it was.
  pub seek_missing :
      (n : ℕ) (s : FileStatus)
      → iblock_11 < n
      → n ≤ iblock_12
      → locate fetch i_block n ≡ none
      → ((seek fetch i_block s n).0 ≡ ok)
        × ((seek fetch i_block s n).1.block_id_in_file ≡ n)
        × ((seek fetch i_block s n).1.block_id ≡ s.block_id)
  unfolding seek
  seek_missing n s h q e =
      let t : leb n iblock_12 ≡ true = ground arith in
      let miss = sym (locate_single fetch i_block n h q) ∙ e in
      let stop =
        bf_seek_single n s h q
        ∙ finish-none (record s { block_id_in_file = n; indirect_0 = root i_block ind_block }) _ _
            miss in
      rw (t, stop) (refl, refl, refl)

  -- Within one block of the triple level, `seek` reads the entry of the second index, where `locate`
  -- reads that of the third.
  pub seek_triple_slip :
      (o n : ℕ) (s : FileStatus)
      → At fetch i_block o s
      → iblock_13 < o
      → o ≤ iblock_14
      → iblock_13 < n
      → n ≤ iblock_14
      → offset_3 n / per_block ≡ offset_3 o / per_block
      → n ≢ o
      → (locate fetch i_block n ≡ seek_at fetch i_block s.indirect_2 (offset_3 n % per_block))
        × (seek fetch i_block s n
            ≡ finish fetch i_block
                (record s { block_id_in_file = n })
                s.indirect_2
                (offset_3 n % (per_block * per_block) / per_block))
  unfolding seek seek_in_tind
  seek_triple_slip o n s at lo hi h q e ne =
      let here = at.here in
      let d = sub32_one_lem n iblock_13 h (omega arith) in
      let c = sub32_one_lem o iblock_13 lo (omega arith) in
      let t : leb n iblock_12 ≡ false = ground arith in
      let u : leb n iblock_13 ≡ false = ground arith in
      let w : leb n iblock_14 ≡ true = ground arith in
      let first : offset_3 o / (per_block * per_block) ≡ offset_3 n / (per_block * per_block) =
        omega arith in
      let second : offset_3 o % (per_block * per_block) / per_block
          ≡ offset_3 n % (per_block * per_block) / per_block =
        omega arith in
      let first' : (offset_3 n / (per_block * per_block) == offset_3 o / (per_block * per_block))
          ≡ true =
        ground arith in
      let second' : (offset_3 n % (per_block * per_block) / per_block
            == offset_3 o % (per_block * per_block) / per_block)
          ≡ true =
        ground arith in
      let third' : (offset_3 n % per_block == offset_3 o % per_block) ≡ false = ground arith in
      let p1 =
        subst (λ k. seek_at fetch i_block (root i_block tind_block) k ≡ some s.indirect_1) first
          (at.triple_1 lo hi) in
      let p2 =
        subst (λ k. seek_at fetch i_block s.indirect_1 k ≡ some s.indirect_2) second
          (at.triple_2 lo hi) in
      (
        locate_triple fetch i_block n h q ∙ rw (p1, p2) refl,
        rw (t, u, w, here, d, c, first', second', third') refl,
      )
