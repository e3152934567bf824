-- ===== src/InodeBlocks/Append.antt =====
-- The block tree after one more block, at the direct and the single indirect level.
use naive_fs.Base.{
  ℕ, ◌+◌, ◌-◌, ◌/◌, ◌^◌, ◌<◌, ◌≡◌, ◌≢◌, sym, ap, subst, ◌∙◌, true, false, ltb, ◌==◌, if◌then◌else◌,
  arith, Option, none, some, Option-cases, inl, inr, Bool, length, set, get_or-set_self,
  get_or-set_ne, ℕ_discrete, dec_lt, dec_le,
}
use naive_fs.Config.{max_dir_blocks, max_ind_blocks}
use naive_fs.Inode.{Inode, ind_block}
use naive_fs.BlockTree.{iblock_11, root, locate}
use naive_fs.FileStatus.{ptr_seek}
use naive_fs.FileStatus.Position.{locate_direct, locate_single}
use naive_fs.BlockStore.{BlockStore, IsStore, Allocated}
use naive_fs.InodeBlocks.Entries.{locate-entry, written-new, written-old}
use naive_fs.InodeBlocks.{
  Result, set_root, alloc_with, get_with, put_word, appended, in_ind, alloc_block,
}

module _ {S : Type 0} (st : BlockStore S) where
  -- One more block: its number was not in use, it is file block n, the blocks before it are where they
  -- were, and the inode counts it.
  abbrev pub Appends : Inode → S → Result S → Type 0
  Appends inode s (none, _) = ⊥
  Appends inode s (some b, (inode', s')) =
      (st.words s b ≡ none)
      × (locate (st.words s') inode'.i_block (inode.i_blocks / 8) ≡ some b)
      × ((m : ℕ)
          → m < inode.i_blocks / 8
          → locate (st.words s') inode'.i_block m ≡ locate (st.words s) inode.i_block m)
      × (inode'.i_blocks / 8 ≡ inode.i_blocks / 8 + 1)

  module _ {Ready : ℕ → S → Type 0} {Held : ℕ → S → Type 0} (laws : IsStore st Ready Held) where
    append_direct :
        (inode : Inode) (s : S) (b : ℕ) (s1 : S) (r : ℕ)
        → length inode.i_block ≡ 15
        → inode.i_blocks + 8 < 2 ^ 32
        → inode.i_blocks / 8 < max_dir_blocks
        → Allocated st Ready Held r s (some b, s1)
        → Appends inode s (appended st b (set_root inode (inode.i_blocks / 8) b) s1)
    append_direct inode s b s1 r whole small h a =
        let n = inode.i_blocks / 8 in
        (
          a.0,
          locate_direct (st.words s1) (set inode.i_block n b) n (omega arith)
              ∙ ap some (get_or-set_self inode.i_block n b 0 (omega (arith, whole))),
          (λ m q.
              locate_direct (st.words s1) (set inode.i_block n b) m (omega arith)
              ∙ ap some (get_or-set_ne inode.i_block n m b 0 (omega arith))
              ∙ sym (locate_direct (st.words s) inode.i_block m (omega arith))),
          omega arith,
        )

    -- The single indirect block is allocated together with its first entry.
    append_first :
        (inode : Inode) (s s1 : S) (b : ℕ) (r : Option ℕ × S)
        → length inode.i_block ≡ 15
        → inode.i_blocks + 8 < 2 ^ 32
        → inode.i_blocks / 8 ≡ max_dir_blocks
        → st.words s b ≡ none
        → Allocated st Ready Held 0 s1 r
        → Appends inode s (
            alloc_with st inode
              (λ p s2.
                let i = set_root inode ind_block p in
                appended st b i (
                  put_word st s2
                    (root i.i_block ind_block)
                    (inode.i_blocks / 8 - max_dir_blocks)
                    b
                    (root i.i_block ind_block)))
              r)
    append_first inode s s1 b (none, s2) whole small h new a = absurd a
    append_first inode s s1 b (some p, s2) whole small h new a =
        let n = inode.i_blocks / 8 in
        let l = set inode.i_block ind_block p in
        let here : root l ind_block ≡ p =
          get_or-set_self inode.i_block ind_block p 0 (omega (arith, whole)) in
        let top : st.words s2 (root l ind_block) ≡ some (λ k. 0) = ap (st.words s2) here ∙ a.1 in
        (
          new,
          written-new st laws l s2 b n (λ k. 0) (subst (λ x. Held x s2) (sym here) a.4) top
              (omega arith) (omega arith),
          (λ m q.
              locate_direct _ l m (omega arith)
              ∙ ap some (get_or-set_ne inode.i_block ind_block m p 0 (omega arith))
              ∙ sym (locate_direct (st.words s) inode.i_block m (omega arith))),
          omega arith,
        )

    -- A further entry of the single indirect block.
    append_next :
        (inode : Inode) (s s1 s2 : S) (b : ℕ) (w : ℕ → ℕ)
        → inode.i_blocks + 8 < 2 ^ 32
        → max_dir_blocks < inode.i_blocks / 8
        → inode.i_blocks / 8 < max_dir_blocks + max_ind_blocks
        → st.words s b ≡ none
        → st.words s (root inode.i_block ind_block) ≡ some w
        → Held (root inode.i_block ind_block) s2
        → st.words s2 (root inode.i_block ind_block) ≡ some w
        → Appends inode s (
            appended st b inode (
              put_word st s2
                (root inode.i_block ind_block)
                (inode.i_blocks / 8 - max_dir_blocks)
                b
                (root inode.i_block ind_block)))
    append_next inode s s1 s2 b w small h q new top held top' =
        let n = inode.i_blocks / 8 in
        let l = inode.i_block in
        (
          new,
          written-new st laws l s2 b n w held top' (omega arith) (omega arith),
          (λ m p. elim (dec_le m iblock_11) [
            | yes low ↦ locate_direct _ l m low ∙ sym (locate_direct (st.words s) l m low)
            | no high ↦
                written-old st laws l s2 b n w held top' m (omega arith) p (omega arith)
                ∙ sym (locate-entry (st.words s) l m w (omega arith) (omega arith) top)
          ]),
          omega arith,
        )

    -- The inode's tree has its single indirect block, if it has a block there.
    top_of :
        (inode : Inode) (s : S)
        → max_dir_blocks < inode.i_blocks / 8
        → inode.i_blocks / 8 < max_dir_blocks + max_ind_blocks
        → ((m : ℕ) → m < inode.i_blocks / 8 → locate (st.words s) inode.i_block m ≢ none)
        → (w : ℕ → ℕ) × (st.words s (root inode.i_block ind_block) ≡ some w)
    unfolding ptr_seek
    top_of inode s h q has = elim (Option-cases (st.words s (root inode.i_block ind_block))) [
      | inl e ↦ absurd (
          has (inode.i_blocks / 8 - 1) (omega arith) (
            locate_single (st.words s) inode.i_block (inode.i_blocks / 8 - 1) (omega arith)
              (omega arith)
            ∙ ground (arith, e)))
      | inr (w, e) ↦ (w, e)
    ]

    append_got :
        (inode : Inode) (s s1 : S) (b : ℕ) (w : ℕ → ℕ) (r : Bool × S)
        → inode.i_blocks + 8 < 2 ^ 32
        → max_dir_blocks < inode.i_blocks / 8
        → inode.i_blocks / 8 < max_dir_blocks + max_ind_blocks
        → st.words s b ≡ none
        → st.words s (root inode.i_block ind_block) ≡ some w
        → r.0 ≡ true
        → Held (root inode.i_block ind_block) r.1
        → st.words r.1 (root inode.i_block ind_block) ≡ some w
        → Appends inode s (
            get_with st inode
              (λ s2. appended st b inode (
                put_word st s2
                  (root inode.i_block ind_block)
                  (inode.i_blocks / 8 - max_dir_blocks)
                  b
                  (root inode.i_block ind_block)))
              r)
    append_got inode s s1 b w (false, s2) small h q new top done held top' =
        absurd (ground (arith, done))
    append_got inode s s1 b w (true, s2) small h q new top done held top' =
        append_next inode s s1 s2 b w small h q new top held top'

    append_cases :
        (inode : Inode) (s : S) (r : Option ℕ × S)
        → length inode.i_block ≡ 15
        → inode.i_blocks + 8 < 2 ^ 32
        → inode.i_blocks / 8 < max_dir_blocks + max_ind_blocks
        → ((m : ℕ) → m < inode.i_blocks / 8 → locate (st.words s) inode.i_block m ≢ none)
        → Allocated st Ready Held 1 s r
        → Appends inode s (
            alloc_with st inode
              (λ b s1.
                if ltb (inode.i_blocks / 8) max_dir_blocks
                then appended st b (set_root inode (inode.i_blocks / 8) b) s1
                else in_ind st (inode.i_blocks / 8) b inode s1)
              r)
    unfolding in_ind
    append_cases inode s (none, s1) whole small q has a = absurd a
    append_cases inode s (some b, s1) whole small q has a =
        let n = inode.i_blocks / 8 in
        elim (dec_lt n max_dir_blocks) [
          | yes low ↦
              let t : ltb n max_dir_blocks ≡ true = ground arith in
              rw t (append_direct inode s b s1 1 whole small low a)
          | no high ↦
              let t : ltb n max_dir_blocks ≡ false = ground arith in
              elim (ℕ_discrete n max_dir_blocks) [
                | yes e ↦
                    let u : (n == max_dir_blocks) ≡ true = ground arith in
                    rw (t, u, in_ind)
                      (append_first inode s s1 b (st.alloc s1) whole small e a.0
                        (laws.alloc_lem 0 s1 a.3))
                | no ne ↦
                    let u : (n == max_dir_blocks) ≡ false = ground arith in
                    let (w, top) = top_of inode s (omega arith) q has in
                    let apart : root inode.i_block ind_block ≢ b =
                      λ e. absurd (ground (arith, sym (ap (st.words s) e) ∙ top, a.0)) in
                    let top1 = a.2 _ apart ∙ top in
                    let got = laws.get_block_lem s1 (root inode.i_block ind_block) w a.3 top1 in
                    rw (t, u, in_ind)
                      (append_got inode s s1 b w (st.get_block s1 (root inode.i_block ind_block))
                        small (omega arith) q a.0 top got.0 got.2 (got.1 _ ∙ top1))
              ]
        ]

    -- `alloc_block(block, index, inode)` at the direct and the single indirect level, where two blocks
    -- are free and every block of the file is found: it returns a block that was not in use, which is
    -- the file's next block afterwards; the blocks before it are where they were, also when it
    -- allocates the single indirect block, and i_blocks counts one more.
    pub alloc_block-Appends :
        (inode : Inode) (s : S)
        → length inode.i_block ≡ 15
        → inode.i_blocks + 8 < 2 ^ 32
        → inode.i_blocks / 8 < max_dir_blocks + max_ind_blocks
        → Ready 2 s
        → ((m : ℕ) → m < inode.i_blocks / 8 → locate (st.words s) inode.i_block m ≢ none)
        → Appends inode s (alloc_block st inode s)
    unfolding alloc_block
    alloc_block-Appends inode s whole small q room has =
        let t : ltb (inode.i_blocks / 8) (max_dir_blocks + max_ind_blocks) ≡ true = ground arith in
        rw t (append_cases inode s (st.alloc s) whole small q has (laws.alloc_lem 1 s room))
