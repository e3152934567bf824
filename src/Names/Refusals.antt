-- ===== src/Names/Refusals.antt =====
-- What `inode_create` and `inode_link` do to the store where they refuse.
use naive_fs.Base.{
  ℕ, ◌≡◌, ◌≢◌, ◌⊎◌, inl, inr, refl, ◌∙◌, Bool, true, false, not, ◌||◌, ltb, ◌-◌, ◌+◌, if◌then◌else◌,
  Option, none, some, List, length, Bool-cases,
}
use naive_fs.Config.{
  RetCode, fs_success, fs_alloc_err, fs_dup_err, fs_ndir_err, fs_dir_err, fs_invalid, block_size,
}
use naive_fs.Inode.{Inode, is_dir}
use naive_fs.DentryBlock.{dentry_bytes, dentry_block}
use naive_fs.FilePath.{FilePath, prefix, empty, back}
use naive_fs.DentryCache.{DentryCache, root_inode}
use naive_fs.NameStore.{NameStore}
use naive_fs.InodeBlocks
use naive_fs.Names.{Outcome, ok, fail, bytes_of, inode_lookup}
use naive_fs.Names.Create.{
  Tree, inode_at, block_at, appended_with, put_entry, put_in_last, dentry_create, lookup_with,
  try_lookup, directory_with, try_parent, created, create_inode, create_entry, inode_create,
  count_link, linked, link_entry, inode_link, lookup_entry,
}

-- The return code of a call.
abbrev pub code_of : Outcome ℕ → RetCode
code_of (ok i) = fs_success
code_of (fail code) = code

module _ {S : Type 0} where
  -- A call that neither did what it should nor failed to allocate leaves the store s.
  abbrev pub Kept : S → RetCode → Tree S → Type 0
  Kept s code t = code ≢ fs_success → code ≢ fs_alloc_err → t.store ≡ s

  module _ (st : NameStore S) where
    abbrev DoneOrFull : RetCode × S → Type 0
    DoneOrFull r = (r.0 ≡ fs_success) ⊎ (r.0 ≡ fs_alloc_err)

    appended_with-DoneOrFull :
        (parent : ℕ) (next : ℕ → S → RetCode × S) (r : Option ℕ × (Inode × S))
        → ((b : ℕ) (s : S) → DoneOrFull (next b s))
        → DoneOrFull (appended_with st parent next r)
    appended_with-DoneOrFull parent next (none, (n, s)) h = inr refl
    appended_with-DoneOrFull parent next (some b, (n, s)) h = h b (st.put_inode s parent n)

    put_entry-DoneOrFull :
        (name : List ℕ) (i mode b : ℕ) (s : S) → DoneOrFull (put_entry st name i mode b s)
    unfolding put_entry
    put_entry-DoneOrFull name i mode b s = inl refl

    put_in_last-DoneOrFull :
        (parent : ℕ) (name : List ℕ) (i mode b : ℕ) (s : S)
        → DoneOrFull (put_in_last st parent name i mode b s)
    unfolding put_in_last
    put_in_last-DoneOrFull parent name i mode b s =
        elim (Bool-cases (
          ltb block_size
            ((dentry_block (bytes_of (block_at st s b))).1 + dentry_bytes + length name))) [
              | inl t ↦ rw t (
                  appended_with-DoneOrFull parent (put_entry st name i mode)
                    (InodeBlocks.alloc_block st.blocks (inode_at st s parent) s)
                    (put_entry-DoneOrFull name i mode))
              | inr t ↦ rw t (put_entry-DoneOrFull name i mode b s)
            ]

    dentry_create-DoneOrFull :
        (last : Option ℕ) (parent : ℕ) (name : List ℕ) (i mode : ℕ) (s : S)
        → DoneOrFull (dentry_create st last parent name i mode s)
    unfolding dentry_create
    dentry_create-DoneOrFull none parent name i mode s =
        appended_with-DoneOrFull parent (put_in_last st parent name i mode)
          (InodeBlocks.alloc_block st.blocks (inode_at st s parent) s)
          (put_in_last-DoneOrFull parent name i mode)
    dentry_create-DoneOrFull (some b) parent name i mode s =
        put_in_last-DoneOrFull parent name i mode b s

    -- A lookup changes no store, so what is kept by the rest is kept by the whole.
    module _ {R : Type 0} (refuse : RetCode → Tree S → R) (P : R → Type 0) (t : Tree S)
        (next : ℕ → Inode → ℕ → Tree S → R)
        (refused : (code : RetCode) (t1 : Tree S) → t1.store ≡ t.store → P (refuse code t1))
        (goes_on : (i : ℕ) (n : Inode) (p : ℕ) (t1 : Tree S)
          → t1.store ≡ t.store
          → P (next i n p t1)) where
      lookup_with_keeps :
          (r : Outcome ((ℕ × Inode) × ℕ) × DentryCache) → P (lookup_with st refuse t next r)
      lookup_with_keeps (fail code, c) = refused code (record t { dentry_cache = c }) refl
      lookup_with_keeps (ok ((i, n), p), c) = goes_on i n p (record t { dentry_cache = c }) refl

      pub try_lookup_keeps : (path : FilePath) → P (try_lookup st refuse t path next)
      try_lookup_keeps path = lookup_with_keeps (
          inode_lookup (st.blocks.words t.store) (st.get_inode t.store)
            (inode_at st t.store root_inode) path t.dentry_cache)

    if_keeps :
        {A : Type 0} (P : A → Type 0) (b : Bool) (x y : A) → P x → P y → P (if b then x else y)
    if_keeps P true x y p q = p
    if_keeps P false x y p q = q

    module _ {R : Type 0} (refuse : RetCode → Tree S → R) (P : R → Type 0) (t : Tree S)
        (next : ℕ → Inode → ℕ → Tree S → R)
        (refused : (code : RetCode) (t1 : Tree S) → t1.store ≡ t.store → P (refuse code t1))
        (goes_on : (i : ℕ) (n : Inode) (p : ℕ) (t1 : Tree S)
          → t1.store ≡ t.store
          → P (next i n p t1)) where
      pub try_parent_keeps : (path : FilePath) → P (try_parent st refuse t path next)
      try_parent_keeps path =
          try_lookup_keeps refuse P t (directory_with st refuse next) refused
            (λ i n p t1 e.
              if_keeps P (not (is_dir n.i_mode)) (refuse fs_ndir_err t1) (next i n p t1)
                (refused fs_ndir_err t1 e) (goes_on i n p t1 e))
            (prefix path (length path.name_list - 1))

    abbrev KeptBy : S → Outcome ℕ × Tree S → Type 0
    KeptBy s r = Kept s (code_of r.0) r.1

    abbrev KeptByCode : S → RetCode × Tree S → Type 0
    KeptByCode s r = Kept s r.0 r.1

    created-KeptBy :
        (s : S) (t : Tree S) (i : ℕ) (r : RetCode × S) → DoneOrFull r → KeptBy s (created st t i r)
    created-KeptBy s t i (fs_success, s') d p q = absurd (p refl)
    created-KeptBy s t i (fs_alloc_err, s') d p q = absurd (q refl)
    created-KeptBy s t i (code, s') (inl e) p q = absurd (p e)
    created-KeptBy s t i (code, s') (inr e) p q = absurd (q e)

    create_inode-KeptBy :
        (s : S) (t : Tree S) (last : Option ℕ) (parent : ℕ) (name : List ℕ) (mode : ℕ)
        (r : Option ℕ × S)
        → KeptBy s (create_inode st t last parent name mode r)
    create_inode-KeptBy s t last parent name mode (none, s') = λ p q. absurd (q refl)
    create_inode-KeptBy s t last parent name mode (some i, s') =
        created-KeptBy s t i (dentry_create st last parent name i mode s')
          (dentry_create-DoneOrFull last parent name i mode s')

    create_entry-KeptBy :
        (s : S) (t : Tree S) (parent : ℕ) (name : List ℕ) (mode : ℕ) (r : Option ℕ × Option ℕ)
        → t.store ≡ s
        → KeptBy s (create_entry st t parent name mode r)
    create_entry-KeptBy s t parent name mode (some i, last) e = λ p q. e
    create_entry-KeptBy s t parent name mode (none, last) e =
        create_inode-KeptBy s t last parent name mode (st.alloc_inode t.store mode)

    linked-KeptByCode :
        (s : S) (t : Tree S) (src : ℕ) (r : RetCode × S)
        → DoneOrFull r
        → KeptByCode s (linked st t (count_link st src r))
    linked-KeptByCode s t src (fs_success, s') d p q = absurd (p refl)
    linked-KeptByCode s t src (fs_alloc_err, s') d p q = absurd (q refl)
    linked-KeptByCode s t src (code, s') (inl e) p q = absurd (p e)
    linked-KeptByCode s t src (code, s') (inr e) p q = absurd (q e)

    link_entry-KeptByCode :
        (s : S) (t : Tree S) (src parent : ℕ) (name : List ℕ) (mode : ℕ) (r : Option ℕ × Option ℕ)
        → t.store ≡ s
        → KeptByCode s (link_entry st t src parent name mode r)
    link_entry-KeptByCode s t src parent name mode (some i, last) e = λ p q. e
    link_entry-KeptByCode s t src parent name mode (none, last) e =
        linked-KeptByCode s t src (dentry_create st last parent name src mode t.store)
          (dentry_create-DoneOrFull last parent name src mode t.store)

    inode_create-KeptBy :
        (path : FilePath) (mode : ℕ) (t : Tree S) → KeptBy t.store (inode_create st path mode t)
    unfolding inode_create
    inode_create-KeptBy path mode t =
        let refuse : RetCode → Tree S → Outcome ℕ × Tree S = λ code t1. (fail code, t1) in
        let name = back path.name_list in
        let next : ℕ → Inode → ℕ → Tree S → Outcome ℕ × Tree S =
          λ i n p t1. create_entry st t1 i name mode (lookup_entry st t1.store n name) in
        let P = KeptBy t.store in
        let parent = try_parent st refuse t path next in
        if_keeps P (not path.valid) (refuse fs_invalid t)
          (if empty path then refuse fs_dup_err t else parent) (λ p q. refl)
          (if_keeps P (empty path) (refuse fs_dup_err t) parent (λ p q. refl)
            (try_parent_keeps refuse P t next (λ code t1 e p q. e)
              (λ i n p t1 e.
                create_entry-KeptBy t.store t1 i name mode (lookup_entry st t1.store n name) e)
              path))

    inode_link-KeptByCode :
        (src dst : FilePath) (t : Tree S) → KeptByCode t.store (inode_link st src dst t)
    unfolding inode_link
    inode_link-KeptByCode src dst t =
        let refuse : RetCode → Tree S → RetCode × Tree S = λ code t1. (code, t1) in
        let name = back dst.name_list in
        let last : ℕ → ℕ → ℕ → Inode → ℕ → Tree S → RetCode × Tree S =
          λ i mode p m _ t2. link_entry st t2 i p name mode (lookup_entry st t2.store m name) in
        let next : ℕ → Inode → ℕ → Tree S → RetCode × Tree S = λ i n _ t1.
          if is_dir n.i_mode
          then refuse fs_dir_err t1
          else try_parent st refuse t1 dst (last i n.i_mode) in
        let P = KeptByCode t.store in
        let from = try_lookup st refuse t src next in
        if_keeps P (not src.valid || not dst.valid) (refuse fs_invalid t)
          (if empty src || empty dst then refuse fs_dup_err t else from) (λ p q. refl)
          (if_keeps P (empty src || empty dst) (refuse fs_dup_err t) from (λ p q. refl)
            (try_lookup_keeps refuse P t next (λ code t1 e p q. e)
              (λ i n p t1 e.
                if_keeps P (is_dir n.i_mode) (refuse fs_dir_err t1)
                  (try_parent st refuse t1 dst (last i n.i_mode)) (λ p q. e)
                  (try_parent_keeps refuse P t1 (last i n.i_mode) (λ code t2 f p q. f ∙ e)
                    (λ j m k t2 f.
                      link_entry-KeptByCode t.store t2 i j name n.i_mode
                        (lookup_entry st t2.store m name) (f ∙ e))
                    dst))
              src))

    -- Where `inode_create` or `inode_link` returns a code other than FS_SUCCESS and FS_ALLOC_ERR, the
    -- store is as it was: no inode or block was allocated, no entry was made, no link was counted.
    pub inode_create-and-inode_link-Kept :
        (path src dst : FilePath) (mode : ℕ) (t : Tree S)
        → (let (r, t') = inode_create st path mode t in Kept t.store (code_of r) t')
          × (let (code, t') = inode_link st src dst t in Kept t.store code t')
    inode_create-and-inode_link-Kept path src dst mode t =
        (inode_create-KeptBy path mode t, inode_link-KeptByCode src dst t)
