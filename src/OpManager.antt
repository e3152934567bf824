-- ===== src/OpManager.antt =====
-- `InodeCache` and `OpManager` of include/operation.h: the copies of inodes of open files, counted by
-- the handles that use them.
pub mod Counts
use naive_fs.Base.{ℕ, ◌+◌, ◌-◌, ◌%◌, ◌^◌, ◌==◌, if◌then◌else◌, Option, none, some}
use naive_fs.Base.Int.{ℤ, pos}
use naive_fs.Config.{neg_errno, eio}
use naive_fs.Inode.{Inode}

-- `InodeCache`: `cnts_` and `cache_`
pub record InodeCache : Type 0 where
  pub cnts : ℕ
  pub cache : Inode

-- `st` is `st_` by inode number; `inodes` is what `fs->get_inode` points at, none where it fails.
pub record OpManager : Type 0 where
  pub st : ℕ → Option InodeCache
  pub inodes : ℕ → Option Inode

-- `st_[inode_id] = …` and `st_.erase`
abbrev pub put : OpManager → ℕ → Option InodeCache → OpManager
put m id c = record m { st = λ j. if id == j then c else m.st j }

-- A store through the pointer of `fs->get_inode`.
abbrev pub put_inode : OpManager → ℕ → Inode → OpManager
put_inode m id i = record m { inodes = λ j. if id == j then some i else m.inodes j }

-- `get_cache`: whether there is a copy, which a first call makes by `copy`
unfoldable pub get_cache : OpManager → ℕ → Option InodeCache × OpManager
get_cache m id = elim (m.st id) [
  | some c ↦
      let c' : InodeCache = record c { cnts = (c.cnts + 1) % 2 ^ 32 } in
      (some c', put m id (some c'))
  | none ↦ elim (m.inodes id) [
    | none ↦ (none, m)
    | some i ↦ let c : InodeCache = record { cnts = 1; cache = i } in (some c, put m id (some c))
  ]
]

-- `commit`
unfoldable pub commit : OpManager → ℕ → Inode → ℤ × OpManager
commit m id i = elim (m.inodes id) [
  | none ↦ (neg_errno eio, m)
  | some old ↦ (pos 0, put_inode m id i)
]

-- `rel_cache`: the last handle's call commits the copy and deletes it, also if `commit` fails
unfoldable pub rel_cache : OpManager → ℕ → ℤ × OpManager
unfolding commit
rel_cache m id = elim (m.st id) [
  | none ↦ (pos 0, m)
  | some c ↦
      let cnts = (c.cnts + 2 ^ 32 - 1) % 2 ^ 32 in
      let (ret, m') = commit m id c.cache in
      if cnts == 0
      then (ret, put m' id none)
      else (pos 0, put m id (some (record c { cnts = cnts })))
]
