-- ===== src/Handlers/Attr/Changes.antt =====
-- What the handlers of src/operation/attr.cpp and src/operation/meta.cpp change of the copies and the
-- inodes.
use naive_fs.Base.{
  ℕ, ◌+◌, ◌-◌, ◌%◌, ◌^◌, ◌<◌, ◌≡◌, ◌≢◌, refl, sym, ap, ◌∙◌, true, false, ◌==◌, if◌then◌else◌, arith,
  Option, none, some, Option-cases, inl, inr, ℕ_discrete,
}
use naive_fs.Inode.{Inode}
use naive_fs.OpManager.{InodeCache, OpManager, put, put_inode, get_cache, rel_cache}
use naive_fs.OpManager.Counts.{IsCounted, rel_cache-commit, rel_cache_keeps, commit_lem}
use naive_fs.Handlers.{store_commit}

-- The copy that a handler gets, and what it leaves of it.
abbrev pub copy_of : OpManager → ℕ → Inode → Inode
copy_of m id n = elim (m.st id) [ none ↦ n | some c ↦ c.cache ]

abbrev pub changed_copy : Option InodeCache → (Inode → Inode) → Option InodeCache
changed_copy none change = none
changed_copy (some c) change = some (record c { cache = change c.cache })

-- The inode becomes its changed copy, and so does the copy if the file is open; the other copies and
-- inodes are as before.
abbrev pub Changes : OpManager → ℕ → Inode → (Inode → Inode) → OpManager → Type 0
Changes m id n change m' =
    (m'.inodes id ≡ some (change (copy_of m id n)))
    × (m'.st id ≡ changed_copy (m.st id) change)
    × ((j : ℕ) → id ≢ j → (m'.st j ≡ m.st j) × (m'.inodes j ≡ m.inodes j))

-- `get_cache`, a change that is committed, and `rel_cache`.
abbrev pub After : OpManager → ℕ → Inode → (Inode → Inode) → Option InodeCache × OpManager → Type 0
After m id n change (none, m1) = ⊥
After m id n change (some c, m1) =
    Changes m id n change (rel_cache (store_commit m1 id c change) id).1

-- The state between a store of a changed copy and `rel_cache`.
abbrev stored : OpManager → ℕ → InodeCache → OpManager
stored m id c = put_inode (put m id (some c)) id c.cache

store_commit_lem :
    (m : OpManager) (id : ℕ) (c c' : InodeCache) (n : Inode) (change : Inode → Inode)
    → m.inodes id ≡ some n
    → c' ≡ record c { cache = change c.cache }
    → store_commit (put m id (some c)) id c change ≡ stored (put m id (some c)) id c'
unfolding store_commit
store_commit_lem m id c c' n change e f =
    ap (λ r. r.1)
      (commit_lem (put (put m id (some c)) id (some (record c { cache = change c.cache }))) id
        (change c.cache) n e)
    ∙ ap (stored (put m id (some c)) id) (sym f)

-- The last handle's release, and another's.
stored-released :
    (m : OpManager) (id : ℕ) (d c : InodeCache)
    → 0 < c.cnts
    → c.cnts < 2 ^ 32
    → let m' = (rel_cache (stored (put m id (some d)) id c) id).1 in
      (m'.inodes id ≡ some c.cache)
      × (m'.st id ≡ (if c.cnts == 1 then none else some (record c { cnts = c.cnts - 1 })))
      × ((j : ℕ) → id ≢ j → (m'.st j ≡ m.st j) × (m'.inodes j ≡ m.inodes j))
stored-released m id d c low high =
    let m2 = stored (put m id (some d)) id c in
    let copy : m2.st id ≡ some c = ground arith in
    let inode : m2.inodes id ≡ some c.cache = ground arith in
    let others : (j : ℕ) → id ≢ j → (m2.st j ≡ m.st j) × (m2.inodes j ≡ m.inodes j) =
      λ j ne. (ground (arith, ne), ground (arith, ne)) in
    elim (ℕ_discrete c.cnts 1) [
      | yes e ↦
          let t : (c.cnts == 1) ≡ true = ground arith in
          let (_, gone, back, same) = rel_cache-commit m2 id c c.cache copy e inode in
          rw t
            (back, gone, λ j ne. ((same j ne).0 ∙ (others j ne).0, (same j ne).1 ∙ (others j ne).1))
      | no ne1 ↦
          let t : (c.cnts == 1) ≡ false = ground arith in
          rw (t, rel_cache_keeps m2 id c copy (omega arith) high)
            (
              inode,
              ground arith,
              λ j ne. (ground (arith, ne, others j ne), ground (arith, ne, others j ne)),
            )
    ]

-- The copy that `get_cache` gives, and what is left of it by a release after a change.
abbrev Got : OpManager → ℕ → Inode → Type 0
Got m id n =
    (c : InodeCache) × (get_cache m id ≡ (some c, put m id (some c)))
    × (c.cache ≡ copy_of m id n)
    × (0 < c.cnts)
    × (c.cnts < 2 ^ 32)
    × ((change : Inode → Inode)
        → (if c.cnts == 1
            then none
            else some (record { cnts = c.cnts - 1; cache = change c.cache }))
          ≡ changed_copy (m.st id) change)

get_cache-Got :
    (m : OpManager) (id : ℕ) (n : Inode) → IsCounted m → m.inodes id ≡ some n → Got m id n
unfolding get_cache
get_cache-Got m id n counted e = elim (Option-cases (m.st id)) [
  | inl f ↦ (
    record { cnts = 1; cache = n },
    rw (f, get_cache) (rw e refl),
    rw (f, copy_of) refl,
    omega arith,
    omega arith,
    λ change. rw (f, changed_copy) refl,
  )
  | inr (c, f) ↦
      let (low, high) = counted id c f in
      let k : (c.cnts + 1) % 2 ^ 32 ≡ c.cnts + 1 = omega arith in
      let t : (c.cnts + 1 == 1) ≡ false = ground arith in
      let back : c.cnts + 1 - 1 ≡ c.cnts = omega arith in
      (
        record c { cnts = c.cnts + 1 },
        rw (f, get_cache) (rw k refl),
        rw (f, copy_of) refl,
        omega arith,
        omega arith,
        λ change. rw (f, changed_copy) (rw (t, back) refl),
      )
]

-- `get_cache`, a change of the copy that is committed, and `rel_cache`.
pub change_lem :
    (m : OpManager) (id : ℕ) (n : Inode) (change : Inode → Inode)
    → IsCounted m
    → m.inodes id ≡ some n
    → (c : InodeCache) × (get_cache m id ≡ (some c, put m id (some c)))
      × (c.cache ≡ copy_of m id n)
      × Changes m id n change (rel_cache (store_commit (put m id (some c)) id c change) id).1
change_lem m id n change counted e =
    let (c, got, copy, low, high, left) = get_cache-Got m id n counted e in
    let c' : InodeCache = record c { cache = change c.cache } in
    let (inode, st, others) = stored-released m id c c' low high in
    let same = ap change copy in
    (
      c,
      got,
      copy,
      rw (store_commit_lem m id c c' n change e refl)
          (inode ∙ ap (λ i. some i) same, st ∙ left change, others),
    )
