-- ===== src/InodeBlocks.antt =====
-- `alloc_block(block, index, inode)` of src/filesystem.cpp: one more block at the end of a file, in
-- the tree of direct and indirect blocks of its inode.
pub mod Entries
pub mod Append
pub mod Size
pub mod System
use naive_fs.Base.{
  ℕ, ◌+◌, ◌-◌, ◌*◌, ◌/◌, ◌%◌, ◌^◌, Bool, true, false, ltb, ◌==◌, if◌then◌else◌, Option, none, some,
  set, get_or,
}
use naive_fs.Config.{num_indirect_blocks, max_dir_blocks, max_ind_blocks, max_dind_blocks}
use naive_fs.Inode.{Inode, ind_block, dind_block, tind_block}
use naive_fs.BlockTree.{root}
use naive_fs.BlockStore.{BlockStore}

-- The number of the new block or none, the inode and the store.
abbrev pub Result : Type 0 → Type 0
Result S = Option ℕ × (Inode × S)

-- `inode->i_block[k] = index`
abbrev pub set_root : Inode → ℕ → ℕ → Inode
set_root inode k index = record inode { i_block = set inode.i_block k index }

module _ {S : Type 0} (st : BlockStore S) where
  -- `if (!alloc_block(…)) goto error_occured;` and the rest
  abbrev pub alloc_with : Inode → (ℕ → S → Result S) → Option ℕ × S → Result S
  alloc_with inode next (none, s) = (none, (inode, s))
  alloc_with inode next (some b, s) = next b s

  abbrev pub try_alloc : Inode → S → (ℕ → S → Result S) → Result S
  try_alloc inode s next = alloc_with inode next (st.alloc s)

  -- `if (!get_block(…)) goto error_occured;` and the rest
  abbrev pub get_with : Inode → (S → Result S) → Bool × S → Result S
  get_with inode next (false, s) = (none, (inode, s))
  get_with inode next (true, s) = next s

  abbrev pub try_get : Inode → S → ℕ → (S → Result S) → Result S
  try_get inode s b next = get_with inode next (st.get_block s b)

  -- `*(ptr + off) = v` in a block that was got, and `block_cache_->modify` of a block
  abbrev pub put_word : S → ℕ → ℕ → ℕ → ℕ → S
  put_word s b off v marked = st.modify (st.store_word s b off v) marked

  -- `*(ptr + off)` of a block that was got
  abbrev pub get_word : S → ℕ → ℕ → ℕ
  get_word s b off = elim (st.words s b) [ none ↦ 0 | some w ↦ w off ]

  -- `inode->i_blocks += 2 << s_log_block_size; *index = block_index; return true;`
  abbrev pub appended : ℕ → Inode → S → Result S
  appended b inode s = (some b, (record inode { i_blocks = (inode.i_blocks + 8) % 2 ^ 32 }, s))

  -- The single indirect level, n blocks being there and b the new one.
  unfoldable pub in_ind : ℕ → ℕ → Inode → S → Result S
  in_ind n b inode s =
      let write : Inode → S → Result S = λ i s1. appended b i (
        put_word s1 (root i.i_block ind_block) (n - max_dir_blocks) b (root i.i_block ind_block)) in
      if n == max_dir_blocks
      then try_alloc inode s (λ p s1. write (set_root inode ind_block p) s1)
      else try_get inode s (root inode.i_block ind_block) (λ s1. write inode s1)

  -- The double indirect level, once the double indirect block is there.
  unfoldable pub below_dind : ℕ → ℕ → Inode → S → Result S
  below_dind n b inode s =
      let top = root inode.i_block dind_block in
      let num_indirects = (n - max_dir_blocks - 1) / num_indirect_blocks in
      let inner_index = (n - max_dir_blocks - max_ind_blocks) % num_indirect_blocks in
      if inner_index == 0
      then (try_alloc inode s
          λ p s1. appended b inode (put_word (put_word s1 top num_indirects p top) p 0 b p))
      else (let p = get_word s top (num_indirects - 1) in
          try_get inode s p λ s1. appended b inode (put_word s1 p inner_index b p))

  unfoldable pub in_dind : ℕ → ℕ → Inode → S → Result S
  unfolding below_dind
  in_dind n b inode s =
      if n == max_dir_blocks + max_ind_blocks
      then try_alloc inode s (λ p s1. below_dind n b (set_root inode dind_block p) s1)
      else try_get inode s (root inode.i_block dind_block) (λ s1. below_dind n b inode s1)

  -- The triple indirect level, once the triple indirect block is there. The mark on a new second
  -- level goes to the double indirect block.
  unfoldable pub below_tind : ℕ → ℕ → Inode → S → Result S
  below_tind n b inode s =
      let top = root inode.i_block tind_block in
      let num_indirects = (n - max_dir_blocks - max_ind_blocks - 1) / max_dind_blocks in
      let inner_index = (n - max_dir_blocks - max_ind_blocks - max_dind_blocks) % max_dind_blocks in
      if inner_index == 0
      then (try_alloc inode s λ p s1. try_alloc inode s1 λ q s2. appended b inode (
          put_word
            (put_word (put_word s2 top num_indirects p (root inode.i_block dind_block)) p 0 q p) q 0
            b q))
      else (let p = get_word s top (num_indirects - 1) in
          try_get inode s p λ s1.
            let num_double_indirects = (inner_index + max_ind_blocks - 1) / max_ind_blocks in
            let double_inner_index = inner_index % max_ind_blocks in
            if double_inner_index == 0
            then (try_alloc inode s1 λ q s2.
                appended b inode (put_word (put_word s2 p num_double_indirects q p) q 0 b q))
            else (let q = get_word s1 p (num_double_indirects - 1) in
                try_get inode s1 q λ s2. appended b inode (put_word s2 q double_inner_index b q)))

  unfoldable pub in_tind : ℕ → ℕ → Inode → S → Result S
  unfolding below_tind
  in_tind n b inode s =
      if n == max_dir_blocks + max_ind_blocks + max_dind_blocks
      then try_alloc inode s (λ p s1. below_tind n b (set_root inode tind_block p) s1)
      else try_get inode s (root inode.i_block tind_block) (λ s1. below_tind n b inode s1)

  -- `alloc_block(block, index, inode)` with `num_aligned_blocks` at the block size of the build
  unfoldable pub alloc_block : Inode → S → Result S
  unfolding in_ind in_dind in_tind
  alloc_block inode s =
      let n = inode.i_blocks / 8 in
      try_alloc inode s λ b s1.
        if ltb n max_dir_blocks
        then appended b (set_root inode n b) s1
        else if ltb n (max_dir_blocks + max_ind_blocks)
        then in_ind n b inode s1
        else if ltb n (max_dir_blocks + max_ind_blocks + max_dind_blocks)
        then in_dind n b inode s1
        else in_tind n b inode s1
