-- ===== src/Handlers.antt =====
-- The FUSE operations of src/operation/, over the file system and the cached inodes. A handler's result
-- is the number that FUSE gets; a null dereference is `none` where the code does not test a pointer.
-- The big lock makes each handler one step.
pub mod Attr
pub mod Paths
pub mod Files
pub mod Data
use naive_fs.Base.{ℕ, Bool, false, not, if◌then◌else◌, Option, none, some, List}
use naive_fs.Base.Int.{ℤ, pos}
use naive_fs.Config.{RetCode, code2errno, neg_errno, eacces, fs_success}
use naive_fs.Inode.{Inode, zero_inode}
use naive_fs.OpManager.{InodeCache, OpManager, put, get_cache, commit, rel_cache}
use naive_fs.Permission.{check_permission}
use naive_fs.Names.{Outcome, ok, fail}
use naive_fs.FileApi.{FileApi}

-- `fuse_get_context()`
pub record User : Type 0 where
  pub uid : ℕ
  pub gid : ℕ

-- A store into `ic->cache_`, then `ic->commit()`, whose result no caller looks at.
unfoldable pub store_commit : OpManager → ℕ → InodeCache → (Inode → Inode) → OpManager
store_commit m id c change =
    let c' : InodeCache = record c { cache = change c.cache } in
    (commit (put m id (some c')) id c'.cache).1

-- `_check_permission(inode->i_mode, read, write, exec, inode->i_gid, inode->i_uid)`
abbrev pub permits : User → Inode → Bool → Bool → Bool → Bool
permits u n read write exec = check_permission u.uid u.gid n.i_mode read write exec n.i_gid n.i_uid

module _ {S : Type 0} (api : FileApi S) where
  -- `*inode` of a lookup
  abbrev pub inode_of : S → ℕ → Inode
  inode_of s id = elim ((api.opm s).inodes id) [ none ↦ zero_inode | some n ↦ n ]

  -- `if (ret) return …;` after a lookup or a creation, and the rest
  abbrev pub found_with : {R : Type 0} → (RetCode → S → R) → (ℕ → S → R) → Outcome ℕ × S → R
  found_with refuse next (fail code, s) = refuse code s
  found_with refuse next (ok id, s) = next id s

  -- `auto ic = opm->get_cache(inode_id);` and the rest, without and with a copy
  abbrev pub cached_with :
      {R : Type 0} → S → (S → R) → (InodeCache → S → R) → Option InodeCache × OpManager → R
  cached_with s null next (none, m) = null (api.set_opm s m)
  cached_with s null next (some c, m) = next c (api.set_opm s m)

  abbrev pub get_cached : {R : Type 0} → S → ℕ → (S → R) → (InodeCache → S → R) → R
  get_cached s id null next = cached_with s null next (get_cache (api.opm s) id)

  -- `opm->rel_cache(inode_id)`
  abbrev pub released : S → ℕ → S
  released s id = api.set_opm s (rel_cache (api.opm s) id).1

  -- A change of the copy that is committed and released.
  abbrev pub change_inode : S → ℕ → InodeCache → (Inode → Inode) → S
  change_inode s id c change = released (api.set_opm s (store_commit (api.opm s) id c change)) id
