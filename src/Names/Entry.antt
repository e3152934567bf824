-- ===== src/Names/Entry.antt =====
-- A new entry of a directory of direct blocks, and the searches after it.
use naive_fs.Base.{
  ℕ, suc, ◌+◌, ◌/◌, ◌≤◌, ◌≡◌, ◌≢◌, refl, sym, ap, ◌∙◌, false, ltb, arith, Option, none, some, List,
  [], ◌∷◌, ◌++◌, length,
}
use mathlib.Core.Path.{fun_ext}
use naive_fs.Config.{RetCode, fs_success, block_size, max_dir_blocks}
use naive_fs.Inode.{Inode}
use naive_fs.BlockTree.{root}
use naive_fs.DentryBlock.{Dentry, dentry_bytes, alloc_dentry, lookup}
use naive_fs.DentryBlock.Encoding.{encode_all, block_of}
use naive_fs.DentryBlock.Append.{new_dentry, alloc_dentry-block_of, lookup-snoc_self}
use naive_fs.DentryBlock.Words.{bytes_of-block_of}
use naive_fs.NameStore.{NameStore}
use naive_fs.Names.{with_inode, bytes_of, search}
use naive_fs.Names.Search.{lookup_in, direct_search, search-direct_search}
use naive_fs.Names.Blocks.{
  Fit, Lacks, dentry_block-words_of, Fit-snoc, lookup_in-words_of, in_block-Entered,
  direct_search_cong, direct_search_found,
}
use naive_fs.Names.Create.{words_of, block_at, put_entry, put_in_last, dentry_create}

-- In a sound state, a store through the pointer of `get_block` changes that block alone; `modify` only
-- marks a block.
pub record IsNameStore {S : Type 0} (st : NameStore S) (IsSound : S → Type 0) : Type 0 where
  pub put_words_self :
      (s : S) (b : ℕ) (w v : ℕ → ℕ)
      → IsSound s
      → st.blocks.words s b ≡ some v
      → st.blocks.words (st.put_words s b w) b ≡ some w
  pub put_words_ne :
      (s : S) (b : ℕ) (w v : ℕ → ℕ) (c : ℕ)
      → IsSound s
      → st.blocks.words s b ≡ some v
      → c ≢ b
      → st.blocks.words (st.put_words s b w) c ≡ st.blocks.words s c
  pub put_words_inode :
      (s : S) (b : ℕ) (w v : ℕ → ℕ) (i : ℕ)
      → IsSound s
      → st.blocks.words s b ≡ some v
      → st.get_inode (st.put_words s b w) i ≡ st.get_inode s i
  pub modify_words :
      (s : S) (b c : ℕ) → st.blocks.words (st.blocks.modify s b) c ≡ st.blocks.words s c
  pub modify_inode : (s : S) (b i : ℕ) → st.get_inode (st.blocks.modify s b) i ≡ st.get_inode s i

module _ {S : Type 0} (st : NameStore S) where
  -- The block b has one entry more, and nothing else changed.
  abbrev pub Entered : S → ℕ → List Dentry → Dentry → RetCode × S → Type 0
  Entered s b ds d (code, s') =
      (code ≡ fs_success)
      × (st.blocks.words s' b ≡ some (words_of (block_of (ds ++ (d ∷ [])))))
      × ((c : ℕ) → c ≢ b → st.blocks.words s' c ≡ st.blocks.words s c)
      × ((i : ℕ) → st.get_inode s' i ≡ st.get_inode s i)

  -- The search of a store.
  abbrev pub find_in : S → Inode → List ℕ → Option (ℕ × Inode)
  find_in s n name = search (st.blocks.words s) (st.get_inode s) n name

  -- The name leads to the inode, the other names to where they led in s; the inodes are as before.
  abbrev pub Bound : S → Inode → List ℕ → ℕ → RetCode × S → Type 0
  Bound s n name inode (code, s') =
      (code ≡ fs_success)
      × (find_in s' n name ≡ with_inode inode (st.get_inode s' inode))
      × ((other : List ℕ) → name ≢ other → find_in s' n other ≡ find_in s n other)
      × ((i : ℕ) → st.get_inode s' i ≡ st.get_inode s i)

  -- A directory of k + 1 direct blocks, each read without the name; the last one has these entries.
  abbrev pub EndsIn : S → Inode → List ℕ → ℕ → ℕ → List Dentry → Type 0
  EndsIn s n name k b ds =
      (n.i_blocks / 8 ≡ suc k)
      × (suc k ≤ max_dir_blocks)
      × (root n.i_block k ≡ b)
      × (st.blocks.words s b ≡ some (words_of (block_of ds)))
      × ((j : ℕ) → j ≤ k → Lacks (st.blocks.words s) name (root n.i_block j))

  pub search-direct :
      (s : S) (n : Inode) (name : List ℕ) (k : ℕ)
      → n.i_blocks / 8 ≡ suc k
      → suc k ≤ max_dir_blocks
      → find_in s n name
        ≡ direct_search (st.blocks.words s) (st.get_inode s) n.i_block name (suc k) 0
  search-direct s n name k e h =
      search-direct_search (st.blocks.words s) (st.get_inode s) n name (omega (arith, e, h))
      ∙ ap (λ r. direct_search (st.blocks.words s) (st.get_inode s) n.i_block name r 0) e

  put_in_last-put_entry :
      (s : S) (parent : ℕ) (b : ℕ) (ds : List Dentry) (name : List ℕ) (inode mode : ℕ)
      → st.blocks.words s b ≡ some (words_of (block_of ds))
      → Fit ds
      → length (encode_all ds) + dentry_bytes + length name ≤ block_size
      → put_in_last st parent name inode mode b s ≡ put_entry st name inode mode b s
  unfolding put_in_last
  put_in_last-put_entry s parent b ds name inode mode e fit room =
      let at : block_at st s b ≡ words_of (block_of ds) =
        ap (λ o. elim o [ none ↦ λ k. 0 | some w ↦ w ]) e in
      let t : ltb block_size (length (encode_all ds) + dentry_bytes + length name) ≡ false =
        ground (arith, room) in
      rw (at, dentry_block-words_of ds fit, t) refl

  Entered-Bound :
      (s : S) (n : Inode) (k b : ℕ) (ds : List Dentry) (name : List ℕ) (inode mode : ℕ)
      (r : RetCode × S)
      → EndsIn s n name k b ds
      → Fit ds
      → Fit (ds ++ (new_dentry name inode mode ∷ []))
      → Entered s b ds (new_dentry name inode mode) r
      → Bound s n name inode r
  Entered-Bound s n k b ds name inode mode (code, s') (e, h, last, old, lacks) fit fit'
        (ok, new, same, inodes) =
      let f = st.blocks.words s in
      let g = st.blocks.words s' in
      let get = st.get_inode s' in
      let (v, (rv, lv)) = lacks k (omega arith) in
      let read : v ≡ words_of (block_of ds) =
        ap (λ o. elim o [ none ↦ v | some w ↦ w ]) (sym rv ∙ ap f last ∙ old) in
      let absent : lookup ds name ≡ none =
        sym (lookup_in-words_of ds name fit) ∙ ap (λ w. lookup_in w name) (sym read) ∙ lv in
      let there =
        lookup_in-words_of (ds ++ (new_dentry name inode mode ∷ [])) name fit'
        ∙ lookup-snoc_self ds name inode mode absent in
      (
        ok,
        search-direct s' n name k e h
            ∙ direct_search_found get n.i_block f g name inode b
                (words_of (block_of (ds ++ (new_dentry name inode mode ∷ [])))) new there same k 0
                (ap (root n.i_block) (let z : 0 + k ≡ k = omega arith in z) ∙ last)
                (λ j l. lacks j (omega (arith, l))),
        (λ other ne.
            search-direct s' n other k e h
            ∙ direct_search_cong get n.i_block f g other
                (in_block-Entered f g get n.i_block b ds name inode mode other old new same fit fit'
                  ne)
                (suc k) 0
            ∙ ap (λ x. direct_search f x n.i_block other (suc k) 0) (fun_ext inodes)
            ∙ sym (search-direct s n other k e h)),
        inodes,
      )

  module _ {IsSound : S → Type 0} (law : IsNameStore st IsSound) where
    put_entry-Entered :
        (s : S) (b : ℕ) (ds : List Dentry) (name : List ℕ) (inode mode : ℕ)
        → IsSound s
        → st.blocks.words s b ≡ some (words_of (block_of ds))
        → Fit ds
        → Entered s b ds (new_dentry name inode mode) (put_entry st name inode mode b s)
    unfolding put_entry
    put_entry-Entered s b ds name inode mode sound e fit =
        let at : block_at st s b ≡ words_of (block_of ds) =
          ap (λ o. elim o [ none ↦ λ k. 0 | some w ↦ w ]) e in
        let bytes : alloc_dentry (bytes_of (words_of (block_of ds))) (length (encode_all ds)) name
              inode mode
            ≡ block_of (ds ++ (new_dentry name inode mode ∷ [])) =
          ap (λ x. alloc_dentry x (length (encode_all ds)) name inode mode)
            (bytes_of-block_of ds fit.1)
          ∙ alloc_dentry-block_of ds name inode mode in
        rw (at, dentry_block-words_of ds fit, bytes)
          (let w = words_of (block_of (ds ++ (new_dentry name inode mode ∷ []))) in
            let put = st.put_words s b w in
            let old = words_of (block_of ds) in
            (
              refl,
              law.modify_words put b b ∙ law.put_words_self s b w old sound e,
              (λ c ne. law.modify_words put b c ∙ law.put_words_ne s b w old c sound e ne),
              λ i. law.modify_inode put b i ∙ law.put_words_inode s b w old i sound e,
            ))

    -- In a sound state, `dentry_create` with the last block of a directory of direct blocks, none of which has the name,
    -- where the entry has room in it, returns FS_SUCCESS. A search of the directory then finds the name
    -- with the new inode, and every other name as before.
    pub dentry_create-search :
        (s : S) (parent : ℕ) (n : Inode) (k b : ℕ) (ds : List Dentry) (name : List ℕ)
        (inode mode : ℕ)
        → IsSound s
        → EndsIn s n name k b ds
        → Fit ds
        → Fit (new_dentry name inode mode ∷ [])
        → length (encode_all ds) + dentry_bytes + length name ≤ block_size
        → Bound s n name inode (dentry_create st (some b) parent name inode mode s)
    unfolding dentry_create
    dentry_create-search s parent n k b ds name inode mode sound ends fit one room =
        let (_, _, _, old, _) = ends in
        rw (put_in_last-put_entry s parent b ds name inode mode old fit room) (
          Entered-Bound s n k b ds name inode mode (put_entry st name inode mode b s) ends fit
            (Fit-snoc ds name inode mode fit one room)
            (put_entry-Entered s b ds name inode mode sound old fit))
