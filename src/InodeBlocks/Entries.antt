-- ===== src/InodeBlocks/Entries.antt =====
-- The entries of the single indirect block, before and after a store into it.
use naive_fs.Base.{ℕ, ◌-◌, ◌≤◌, ◌<◌, ◌≡◌, ap, ◌∙◌, false, ◌==◌, if◌then◌else◌, arith, some, List}
use naive_fs.Config.{max_dir_blocks}
use naive_fs.Inode.{ind_block}
use naive_fs.BlockTree.{Fetch, iblock_11, iblock_12, root, locate}
use naive_fs.FileStatus.{ptr_seek}
use naive_fs.FileStatus.Position.{locate_single}
use naive_fs.BlockStore.{BlockStore, IsStore}
use naive_fs.InodeBlocks.{put_word}

-- An entry of the single indirect block.
pub locate-entry :
    (fetch : Fetch) (i_block : List ℕ) (n : ℕ) (w : ℕ → ℕ)
    → iblock_11 < n
    → n ≤ iblock_12
    → fetch (root i_block ind_block) ≡ some w
    → locate fetch i_block n ≡ some (w (n - max_dir_blocks))
unfolding ptr_seek
locate-entry fetch i_block n w h q e =
    locate_single fetch i_block n h q
    ∙ ground (arith, e, ap w (let d : n - iblock_11 - 1 ≡ n - max_dir_blocks = omega arith in d))

-- The store into the single indirect block, whose entries were w.
module _ {S : Type 0} (st : BlockStore S) {Ready : ℕ → S → Type 0} {Held : ℕ → S → Type 0}
    (laws : IsStore st Ready Held) (i_block : List ℕ) (s : S) (b n : ℕ) (w : ℕ → ℕ)
    (held : Held (root i_block ind_block) s)
    (top : st.words s (root i_block ind_block) ≡ some w) where
  abbrev pub written : S
  written = put_word st s (root i_block ind_block) (n - max_dir_blocks) b (root i_block ind_block)

  pub written-words :
      st.words written (root i_block ind_block)
      ≡ some (λ k. if n - max_dir_blocks == k then b else w k)
  written-words =
      laws.modify_lem _ (root i_block ind_block) (root i_block ind_block)
      ∙ laws.store_self s (root i_block ind_block) (n - max_dir_blocks) b w held top

  pub written-new : iblock_11 < n → n ≤ iblock_12 → locate (st.words written) i_block n ≡ some b
  written-new h q = locate-entry (st.words written) i_block n _ h q written-words ∙ ground arith

  pub written-old :
      (m : ℕ)
      → iblock_11 < m
      → m < n
      → n ≤ iblock_12
      → locate (st.words written) i_block m ≡ some (w (m - max_dir_blocks))
  written-old m h p q =
      let differ : (n - max_dir_blocks == m - max_dir_blocks) ≡ false = ground arith in
      locate-entry (st.words written) i_block m _ h (omega arith) written-words
      ∙ ap (λ t. some (if t then b else w (m - max_dir_blocks))) differ
