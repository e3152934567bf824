-- ===== src/Names/NewFile.antt =====
-- `inode_create` in a directory of direct blocks, and the search for the new name.
use naive_fs.Base.{
  ℕ, suc, ◌+◌, ◌-◌, ◌^◌, ◌≤◌, ◌<◌, ◌≡◌, ◌≢◌, refl, sym, ap, ◌∙◌, true, false, arith, Option, none,
  some, List, [], ◌∷◌, length, length-append,
}
use mathlib.Core.Path.{fun_ext}
use naive_fs.Config.{RetCode, fs_success, block_size, fs_alloc_err}
use naive_fs.Inode.{Inode, is_dir}
use naive_fs.BlockTree.{root}
use naive_fs.DentryBlock.{dentry_bytes, encode, Dentry}
use naive_fs.DentryBlock.Encoding.{encode_all}
use naive_fs.DentryBlock.Append.{new_dentry}
use naive_fs.NameStore.{NameStore}
use naive_fs.Names.Search.{direct_search, direct_search-IsFound}
use naive_fs.Names.Blocks.{Fit}
use naive_fs.Names.Create.{Tree, inode_at, dentry_create, created, create_inode, inode_create}
use naive_fs.DentryCache.{DentryCache, root_inode}
use naive_fs.FilePath.{FilePath, prefix, empty, back}
use naive_fs.Names.{Outcome, ok, fail, inode_lookup, with_inode}
use naive_fs.DentryBlock.Words.{AreBytes}
use naive_fs.Names.LastBlock.{lookup_entry-EndsIn}
use naive_fs.Names.Entry.{IsNameStore, EndsIn, Bound, find_in, search-direct, dentry_create-search}

-- A new inode of that mode in a sound state, with the blocks and the other inodes as before.
abbrev pub NewInode : {S : Type 0} → NameStore S → (S → Type 0) → S → ℕ → Option ℕ × S → Type 0
NewInode st IsSound s mode (none, s') = Unit {0}
NewInode st IsSound s mode (some i, s') =
    IsSound s'
    × (i < 2 ^ 32)
    × ((m : Inode) × ((st.get_inode s' i ≡ some m) × (m.i_mode ≡ mode)))
    × ((b : ℕ) → st.blocks.words s' b ≡ st.blocks.words s b)
    × ((j : ℕ) → j ≢ i → st.get_inode s' j ≡ st.get_inode s j)

module _ {S : Type 0} (st : NameStore S) where
  -- What `inode_create` is to do, by the inode that is allocated: the name leads to it, and the other
  -- names that led to another inode still do.
  abbrev pub Made : S → Inode → List ℕ → ℕ → Option ℕ × S → Outcome ℕ × Tree S → Type 0
  Made s n name mode (none, s1) (r, t') = r ≡ fail fs_alloc_err
  Made s n name mode (some i, s1) (r, t') =
      (r ≡ ok i)
      × ((m : Inode) × ((find_in st t'.store n name ≡ some (i, m)) × (m.i_mode ≡ mode)))
      × ((other : List ℕ) (j : ℕ) (m : Inode)
          → name ≢ other
          → j ≢ i
          → find_in st s n other ≡ some (j, m)
          → find_in st t'.store n other ≡ some (j, m))

  created-fs_success :
      (t : Tree S) (i : ℕ) (r : RetCode × S)
      → r.0 ≡ fs_success
      → created st t i r ≡ (ok i, record t { store = r.1 })
  created-fs_success t i r e =
      let q : r ≡ (fs_success, r.1) = ap (λ c. (c, r.1)) e in ap (created st t i) q

  EndsIn-NewInode :
      (s s1 : S) (n : Inode) (name : List ℕ) (k b : ℕ) (ds : List Dentry)
      → ((c : ℕ) → st.blocks.words s1 c ≡ st.blocks.words s c)
      → EndsIn st s n name k b ds
      → EndsIn st s1 n name k b ds
  EndsIn-NewInode s s1 n name k b ds words (e, h, last, old, lacks) = (
    e,
    h,
    last,
    words b ∙ old,
    λ j l. let (w, (r, x)) = lacks j l in (w, (words (root n.i_block j) ∙ r, x)),
  )

  Bound-Made :
      (s s1 : S) (t : Tree S) (n : Inode) (name : List ℕ) (k b i mode : ℕ) (ds : List Dentry)
      (r : RetCode × S) (IsSound : S → Type 0)
      → EndsIn st s n name k b ds
      → NewInode st IsSound s mode (some i, s1)
      → Bound st s1 n name i r
      → Made s n name mode (some i, s1) (ok i, record t { store = r.1 })
  Bound-Made s s1 t n name k b i mode ds r IsSound (e, h, _, _, _)
        (_, _, (m, (g, md)), words, inodes) (_, found, others, kept) =
      (
        refl,
        (m, (found ∙ ap (with_inode i) (kept i ∙ g), md)),
        λ other j x ne away f.
            others other ne
            ∙ search-direct st s1 n other k e h
            ∙ ap (λ w. direct_search w (st.get_inode s1) n.i_block other (suc k) 0) (fun_ext words)
            ∙ direct_search-IsFound i j x away (st.get_inode s) (st.get_inode s1) inodes
                (st.blocks.words s) n.i_block other (suc k) 0
                (sym (search-direct st s n other k e h) ∙ f),
      )

  one-Fit :
      (name : List ℕ) (i mode : ℕ)
      → AreBytes name
      → length name < 2 ^ 8
      → i < 2 ^ 32
      → mode < 2 ^ 16
      → Fit (new_dentry name i mode ∷ [])
  one-Fit name i mode a l h m = (
    ((h, l, omega (arith, m), omega (arith, l)), tt),
    (a, tt),
    omega (arith, l, length-append (encode (new_dentry name i mode)) []),
  )

  module _ {IsSound : S → Type 0} (law : IsNameStore st IsSound) where
    create_inode-Made :
        (t : Tree S) (parent : ℕ) (n : Inode) (name : List ℕ) (k b mode : ℕ) (ds : List Dentry)
        (r : Option ℕ × S)
        → EndsIn st t.store n name k b ds
        → Fit ds
        → AreBytes name
        → length name < 2 ^ 8
        → mode < 2 ^ 16
        → length (encode_all ds) + dentry_bytes + length name ≤ block_size
        → NewInode st IsSound t.store mode r
        → Made t.store n name mode r (create_inode st t (some b) parent name mode r)
    create_inode-Made t parent n name k b mode ds (none, s1) ends fit a l m room new = refl
    create_inode-Made t parent n name k b mode ds (some i, s1) ends fit a l m room new =
        let (sound, h, _, words, _) = new in
        let bound =
          dentry_create-search st law s1 parent n k b ds name i mode sound
            (EndsIn-NewInode t.store s1 n name k b ds words ends) fit (one-Fit name i mode a l h m)
            room in
        rw (created-fs_success t i (dentry_create st (some b) parent name i mode s1) bound.0) (
          Bound-Made t.store s1 t n name k b i mode ds
            (dentry_create st (some b) parent name i mode s1) IsSound ends new bound)

    -- `inode_create` of a path whose directory is found, has direct blocks alone, none of which has the
    -- name, and room for the entry in the last one: where no inode can be allocated it returns
    -- FS_ALLOC_ERR; else it returns the new inode, a search of the directory then finds the name with
    -- that inode and mode, and finds what it found before under any other name that led to another
    -- inode.
    pub inode_create-search :
        (path : FilePath) (mode : ℕ) (t : Tree S) (parent : ℕ) (n : Inode) (node : ℕ)
        (c : DentryCache) (k b : ℕ) (ds : List Dentry)
        → path.valid ≡ true
        → empty path ≡ false
        → inode_lookup
            (st.blocks.words t.store)
            (st.get_inode t.store)
            (inode_at st t.store root_inode)
            (prefix path (length path.name_list - 1))
            t.dentry_cache
          ≡ (ok ((parent, n), node), c)
        → is_dir n.i_mode ≡ true
        → EndsIn st t.store n (back path.name_list) k b ds
        → Fit ds
        → AreBytes (back path.name_list)
        → length (back path.name_list) < 2 ^ 8
        → mode < 2 ^ 16
        → length (encode_all ds) + dentry_bytes + length (back path.name_list) ≤ block_size
        → NewInode st IsSound t.store mode (st.alloc_inode t.store mode)
        → Made t.store n
            (back path.name_list)
            mode
            (st.alloc_inode t.store mode)
            (inode_create st path mode t)
    unfolding inode_create
    inode_create-search path mode t parent n node c k b ds valid full at dir ends fit a l m room
          new =
        rw
          (full, at, dir, valid, lookup_entry-EndsIn st t.store n (back path.name_list) k b ds ends)
          (create_inode-Made (record t { dentry_cache = c }) parent n (back path.name_list) k b mode
            ds (st.alloc_inode t.store mode) ends fit a l m room new)
