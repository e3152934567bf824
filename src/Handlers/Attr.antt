-- ===== src/Handlers/Attr.antt =====
-- src/operation/attr.cpp, and `fuse_access`, `fuse_utimens`, `fuse_chown` and `fuse_statfs` of
-- src/operation/meta.cpp: the attributes of files.
pub mod Changes
pub mod Effects
use naive_fs.Base.{
  ℕ, ◌%◌, ◌^◌, bit_and, Bool, true, false, not, ◌==◌, if◌then◌else◌, Option, none, some, List,
}
use naive_fs.Base.Int.{ℤ, pos}
use naive_fs.Config.{block_size, RetCode, code2errno, neg_errno, eacces, eio, einval}
use naive_fs.Inode.{Inode}
use naive_fs.OpManager.{InodeCache, OpManager}
use naive_fs.Permission.{check_user}
use naive_fs.FileApi.{FileApi}
use naive_fs.Handlers.{User, permits, inode_of, found_with, get_cached, released, change_inode}

-- `struct stat` as `fuse_getattr` fills it; st_dev and st_rdev are 0.
pub record Stat : Type 0 where
  pub st_ino : ℕ
  pub st_mode : ℕ
  pub st_nlink : ℕ
  pub st_uid : ℕ
  pub st_gid : ℕ
  pub st_size : ℕ
  pub st_blksize : ℕ
  pub st_blocks : ℕ
  pub st_atime : ℕ
  pub st_mtime : ℕ
  pub st_ctime : ℕ

unfoldable pub stat_of : ℕ → Inode → Stat
stat_of id n = record {
  st_ino = id;
  st_mode = n.i_mode;
  st_nlink = n.i_links_count;
  st_uid = n.i_uid;
  st_gid = n.i_gid;
  st_size = n.i_size;
  st_blksize = block_size;
  st_blocks = n.i_blocks;
  st_atime = n.i_atime;
  st_mtime = n.i_mtime;
  st_ctime = n.i_ctime;
}

-- F_OK, R_OK, W_OK, X_OK of <unistd.h>
abbrev pub f_ok : ℕ
f_ok = 0

abbrev pub r_ok : ℕ
r_ok = 4

abbrev pub w_ok : ℕ
w_ok = 2

abbrev pub x_ok : ℕ
x_ok = 1

-- The changes of an inode that the handlers make.
abbrev pub with_mode : ℕ → Inode → Inode
with_mode mode n = record n { i_mode = mode % 2 ^ 16 }

abbrev pub with_times : ℕ → ℕ → Inode → Inode
with_times a_time m_time n = record n { i_atime = a_time % 2 ^ 32; i_mtime = m_time % 2 ^ 32 }

abbrev pub with_owner : ℕ → ℕ → Inode → Inode
with_owner user group n = record n { i_uid = user % 2 ^ 16; i_gid = group % 2 ^ 16 }

-- the times of `fuse_utimens`: `tv` is null or has two times, and the time now
unfoldable pub new_times : Option (ℕ × ℕ) → ℕ → ℕ × ℕ
new_times none now = (now, now)
new_times (some (a_time, m_time)) now = if a_time == 0 then (now, now) else (a_time, m_time)

module _ {S : Type 0} (api : FileApi S) (user : User) where
  -- `fuse_getattr`, where `stbuf` is not null: the result, what is in `*stbuf`, and the state
  unfoldable pub fuse_getattr : S → List ℕ → ℤ × (Option Stat × S)
  fuse_getattr s path =
      found_with api (λ code s1. (code2errno code, (none, s1)))
        (λ id s1.
          get_cached api s1 id (λ s2. (neg_errno eio, (none, s2)))
            λ c s2. (pos 0, (some (stat_of id c.cache), released api s2 id)))
        (api.inode_lookup s path)

  -- `fuse_chmod`
  unfoldable pub fuse_chmod : S → List ℕ → ℕ → ℤ × S
  fuse_chmod s path mode =
      found_with api (λ code s1. (code2errno code, s1))
        (λ id s1.
          if not (permits user (inode_of api s1 id) true true false)
          then (neg_errno eacces, s1)
          else get_cached api s1 id (λ s2. (neg_errno eio, s2))
              λ c s2. (pos 0, change_inode api s2 id c (with_mode mode)))
        (api.inode_lookup s path)

  -- `fuse_access`
  unfoldable pub fuse_access : S → List ℕ → ℕ → ℤ × S
  fuse_access s path mode =
      found_with api (λ code s1. (code2errno code, s1))
        (λ id s1.
          if mode == f_ok
          then (pos 0, s1)
          else if not (
              permits user (inode_of api s1 id) (not (bit_and mode r_ok == 0))
                (not (bit_and mode w_ok == 0)) (not (bit_and mode x_ok == 0)))
          then (neg_errno eacces, s1)
          else (pos 0, s1))
        (api.inode_lookup s path)

  -- `fuse_utimens`
  unfoldable pub fuse_utimens : S → List ℕ → Option (ℕ × ℕ) → ℕ → Option (ℤ × S)
  fuse_utimens s path tv now =
      found_with api (λ code s1. some (code2errno code, s1))
        (λ id s1.
          let n = inode_of api s1 id in
          let (a_time, m_time) = new_times tv now in
          if not (check_user user.uid n.i_mode n.i_uid false true false)
          then some (neg_errno eacces, s1)
          else get_cached api s1 id (λ s2. none)
              λ c s2. some (pos 0, change_inode api s2 id c (with_times a_time m_time)))
        (api.inode_lookup s path)

  -- `fuse_chown`
  unfoldable pub fuse_chown : S → List ℕ → ℕ → ℕ → Option (ℤ × S)
  fuse_chown s path uid gid =
      found_with api (λ code s1. some (code2errno code, s1))
        (λ id s1.
          get_cached api s1 id (λ s2. none)
            λ c s2. some (pos 0, change_inode api s2 id c (with_owner uid gid)))
        (api.inode_lookup s path)

  -- `fuse_statfs`, which fills nothing
  abbrev pub fuse_statfs : S → ℤ × S
  fuse_statfs s = (pos 0, s)
