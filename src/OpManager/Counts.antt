-- ===== src/OpManager/Counts.antt =====
-- Opening and releasing a file.
use naive_fs.Base.{
  ℕ, ◌+◌, ◌-◌, ◌%◌, ◌^◌, ◌<◌, ◌≡◌, ◌≢◌, refl, sym, ap, ◌∙◌, true, false, ◌==◌, arith, none, some,
  Option-cases, inl, inr, ℕ_discrete,
}
use naive_fs.Base.Int.{pos}
use naive_fs.Inode.{Inode}
use naive_fs.OpManager.{InodeCache, OpManager, put, put_inode, get_cache, commit, rel_cache}

-- A copy has at least one handle, and fewer than its counter can hold.
abbrev pub IsCounted : OpManager → Type 0
IsCounted m = (j : ℕ) (c : InodeCache) → m.st j ≡ some c → (0 < c.cnts) × (c.cnts + 1 < 2 ^ 32)

get_cache_first :
    (m : OpManager) (id : ℕ) (i : Inode)
    → m.st id ≡ none
    → m.inodes id ≡ some i
    → (get_cache m id).1 ≡ put m id (some (record { cnts = 1; cache = i }))
unfolding get_cache
get_cache_first m id i e q = rw (e, get_cache) (rw q refl)

get_cache_fails :
    (m : OpManager) (id : ℕ) → m.st id ≡ none → m.inodes id ≡ none → (get_cache m id).1 ≡ m
unfolding get_cache
get_cache_fails m id e q = rw (e, get_cache) (rw q refl)

get_cache_again :
    (m : OpManager) (id : ℕ) (c : InodeCache)
    → m.st id ≡ some c
    → c.cnts + 1 < 2 ^ 32
    → (get_cache m id).1 ≡ put m id (some (record c { cnts = c.cnts + 1 }))
unfolding get_cache
get_cache_again m id c e h =
    let n : (c.cnts + 1) % 2 ^ 32 ≡ c.cnts + 1 = omega arith in rw (e, get_cache) (rw n refl)

pub rel_cache_keeps :
    (m : OpManager) (id : ℕ) (c : InodeCache)
    → m.st id ≡ some c
    → 1 < c.cnts
    → c.cnts < 2 ^ 32
    → rel_cache m id ≡ (pos 0, put m id (some (record c { cnts = c.cnts - 1 })))
unfolding rel_cache
rel_cache_keeps m id c e h q =
    let n : (c.cnts + 2 ^ 32 - 1) % 2 ^ 32 ≡ c.cnts - 1 = omega arith in
    let t : (c.cnts - 1 == 0) ≡ false = ground arith in rw (e, rel_cache) (rw (n, t) refl)

rel_cache-none : (m : OpManager) (id : ℕ) → m.st id ≡ none → rel_cache m id ≡ (pos 0, m)
unfolding rel_cache
rel_cache-none m id e = rw (e, rel_cache) refl

pub commit_lem :
    (m : OpManager) (id : ℕ) (i old : Inode)
    → m.inodes id ≡ some old
    → commit m id i ≡ (pos 0, put_inode m id i)
unfolding commit
commit_lem m id i old e = rw (e, commit) refl

-- The last release stores the copy over the inode, whatever the inode is by then, and deletes the
-- copy; the other copies and inodes are as before.
pub rel_cache-commit :
    (m : OpManager) (id : ℕ) (c : InodeCache) (old : Inode)
    → m.st id ≡ some c
    → c.cnts ≡ 1
    → m.inodes id ≡ some old
    → let (ret, m') = rel_cache m id in
      (ret ≡ pos 0)
      × (m'.st id ≡ none)
      × (m'.inodes id ≡ some c.cache)
      × ((j : ℕ) → id ≢ j → (m'.st j ≡ m.st j) × (m'.inodes j ≡ m.inodes j))
unfolding rel_cache
rel_cache-commit m id c old e one found =
    let t : ((c.cnts + 2 ^ 32 - 1) % 2 ^ 32 == 0) ≡ true = ground (arith, one) in
    rw (e, rel_cache)
      (rw (t, commit_lem m id c.cache old found)
        (refl, ground arith, ground arith, λ j ne. (ground arith, ground arith)))

-- Releasing what was just opened changes neither the copies nor the inodes.
pub rel_cache-get_cache :
    (m : OpManager) (id : ℕ)
    → IsCounted m
    → let m' = (rel_cache (get_cache m id).1 id).1 in
      ((j : ℕ) → m'.st j ≡ m.st j) × ((j : ℕ) → m'.inodes j ≡ m.inodes j)
rel_cache-get_cache m id v = elim (Option-cases (m.st id)) [
  | inl absent ↦ elim (Option-cases (m.inodes id)) [
    | inl fails ↦
        rw (get_cache_fails m id absent fails, rel_cache-none m id absent)
          ((λ j. refl), (λ j. refl))
    | inr (i, found) ↦
        let c : InodeCache = record { cnts = 1; cache = i } in
        let opened = put m id (some c) in
        let (ret, gone, stored, others) =
          rel_cache-commit opened id c i (ground arith) refl found in
        rw (get_cache_first m id i absent found) (
          (λ j. elim (ℕ_discrete id j) [
            | yes e ↦ ap (λ k. (rel_cache opened id).1.st k) (sym e) ∙ gone ∙ sym absent ∙ ap m.st e
            | no ne ↦ (others j ne).0 ∙ ground arith
          ]),
          (λ j. elim (ℕ_discrete id j) [
            | yes e ↦
                ap (λ k. (rel_cache opened id).1.inodes k) (sym e)
                ∙ stored
                ∙ sym found
                ∙ ap m.inodes e
            | no ne ↦ (others j ne).1
          ]),
        )
  ]
  | inr (c, held) ↦
      let (pos_, small) = v id c held in
      let c' : InodeCache = record c { cnts = c.cnts + 1 } in
      let n : c.cnts + 1 - 1 ≡ c.cnts = omega arith in
      rw
        (
          get_cache_again m id c held small,
          rel_cache_keeps (put m id (some c')) id c' (ground arith) (omega arith) small,
          n,
        )
        (
          (λ j. elim (ℕ_discrete id j) [
            | yes e ↦ ground (arith, sym held ∙ ap m.st e)
            | no ne ↦ ground arith
          ]),
          (λ j. refl),
        )
]
