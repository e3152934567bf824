-- ===== src/InodeBlocks/Size.antt =====
-- `alloc_block(block, index, inode)` leaves the size of the file to its caller.
use naive_fs.Base.{
  ℕ, ◌+◌, ◌/◌, ◌≡◌, refl, Bool, true, false, ltb, if◌then◌else◌, Option, none, some,
}
use naive_fs.Config.{max_dir_blocks, max_ind_blocks, max_dind_blocks}
use naive_fs.Inode.{Inode, dind_block, tind_block}
use naive_fs.BlockStore.{BlockStore}
use naive_fs.InodeBlocks.{
  Result, set_root, alloc_with, get_with, appended, in_ind, below_dind, in_dind, below_tind,
  in_tind, alloc_block,
}

module _ {S : Type 0} (st : BlockStore S) (size : ℕ) where
  abbrev Sized : Result S → Type 0
  Sized r = r.1.0.i_size ≡ size

  abbrev SizedNext : (S → Result S) → Type 0
  SizedNext next = (s : S) → Sized (next s)

  choice-Sized : (b : Bool) (x y : Result S) → Sized x → Sized y → Sized (if b then x else y)
  choice-Sized true x y p q = p
  choice-Sized false x y p q = q

  alloc-Sized :
      (n : Inode) (next : ℕ → S → Result S) (r : Option ℕ × S)
      → n.i_size ≡ size
      → ((b : ℕ) → SizedNext (next b))
      → Sized (alloc_with st n next r)
  alloc-Sized n next (none, s) e h = e
  alloc-Sized n next (some b, s) e h = h b s

  get-Sized :
      (n : Inode) (next : S → Result S) (r : Bool × S)
      → n.i_size ≡ size
      → SizedNext next
      → Sized (get_with st n next r)
  get-Sized n next (false, s) e h = e
  get-Sized n next (true, s) e h = h s

  in_ind-Sized : (k b : ℕ) (n : Inode) (s : S) → n.i_size ≡ size → Sized (in_ind st k b n s)
  unfolding in_ind
  in_ind-Sized k b n s e =
      choice-Sized _ _ _ (alloc-Sized n _ (st.alloc s) e (λ p s1. e))
        (get-Sized n _ (st.get_block s _) e (λ s1. e))

  below_dind-Sized : (k b : ℕ) (n : Inode) (s : S) → n.i_size ≡ size → Sized (below_dind st k b n s)
  unfolding below_dind
  below_dind-Sized k b n s e =
      choice-Sized _ _ _ (alloc-Sized n _ (st.alloc s) e (λ p s1. e))
        (get-Sized n _ (st.get_block s _) e (λ s1. e))

  in_dind-Sized : (k b : ℕ) (n : Inode) (s : S) → n.i_size ≡ size → Sized (in_dind st k b n s)
  unfolding in_dind
  in_dind-Sized k b n s e =
      choice-Sized _ _ _
        (alloc-Sized n _ (st.alloc s) e
          (λ p s1. below_dind-Sized k b (set_root n dind_block p) s1 e))
        (get-Sized n _ (st.get_block s _) e (λ s1. below_dind-Sized k b n s1 e))

  below_tind-Sized : (k b : ℕ) (n : Inode) (s : S) → n.i_size ≡ size → Sized (below_tind st k b n s)
  unfolding below_tind
  below_tind-Sized k b n s e =
      choice-Sized _ _ _
        (alloc-Sized n _ (st.alloc s) e (λ p s1. alloc-Sized n _ (st.alloc s1) e (λ q s2. e)))
        (get-Sized n _ (st.get_block s _) e λ s1.
          choice-Sized _ _ _ (alloc-Sized n _ (st.alloc s1) e (λ q s2. e))
            (get-Sized n _ (st.get_block s1 _) e (λ s2. e)))

  in_tind-Sized : (k b : ℕ) (n : Inode) (s : S) → n.i_size ≡ size → Sized (in_tind st k b n s)
  unfolding in_tind
  in_tind-Sized k b n s e =
      choice-Sized _ _ _
        (alloc-Sized n _ (st.alloc s) e
          (λ p s1. below_tind-Sized k b (set_root n tind_block p) s1 e))
        (get-Sized n _ (st.get_block s _) e (λ s1. below_tind-Sized k b n s1 e))

  alloc_block-Sized : (n : Inode) (s : S) → n.i_size ≡ size → Sized (alloc_block st n s)
  unfolding alloc_block
  alloc_block-Sized n s e =
      let k = n.i_blocks / 8 in
      let deep : ℕ → S → Result S = λ b s1.
        if ltb k (max_dir_blocks + max_ind_blocks)
        then in_ind st k b n s1
        else if ltb k (max_dir_blocks + max_ind_blocks + max_dind_blocks)
        then in_dind st k b n s1
        else in_tind st k b n s1 in
      let next : ℕ → S → Result S =
        λ b s1. if ltb k max_dir_blocks then appended st b (set_root n k b) s1 else deep b s1 in
      alloc-Sized n next (st.alloc s) e λ b s1.
        choice-Sized (ltb k max_dir_blocks) (appended st b (set_root n k b) s1) (deep b s1) e (
          choice-Sized (ltb k (max_dir_blocks + max_ind_blocks)) (in_ind st k b n s1)
            (if ltb k (max_dir_blocks + max_ind_blocks + max_dind_blocks)
              then in_dind st k b n s1
              else in_tind st k b n s1)
            (in_ind-Sized k b n s1 e)
            (choice-Sized (ltb k (max_dir_blocks + max_ind_blocks + max_dind_blocks))
              (in_dind st k b n s1) (in_tind st k b n s1) (in_dind-Sized k b n s1 e)
              (in_tind-Sized k b n s1 e)))

module _ {S : Type 0} (st : BlockStore S) where
  pub i_size-alloc_block : (n : Inode) (s : S) → (alloc_block st n s).1.0.i_size ≡ n.i_size
  i_size-alloc_block n s = alloc_block-Sized st n.i_size n s refl
