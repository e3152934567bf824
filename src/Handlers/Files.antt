-- ===== src/Handlers/Files.antt =====
-- `fuse_create`, `fuse_open`, `fuse_release`, `fuse_fsync`, `fuse_flush` and `fuse_truncate` of
-- src/operation/meta.cpp, and src/operation/symlink.cpp: open files and links by name.
use naive_fs.Base.{
  ℕ, zero, suc, ◌+◌, ◌%◌, ◌^◌, bit_and, Bool, true, false, not, leb, ◌==◌, if◌then◌else◌, Option,
  none, some, List, [], ◌∷◌, length, take, get_or,
}
use naive_fs.Base.Int.{ℤ, pos}
use naive_fs.Config.{
  fs_alloc_err, fs_not_found, code2errno, neg_errno, eio, ebadf, eacces, einval, block_size,
}
use naive_fs.Inode.{Inode, s_iflnk}
use naive_fs.FileStatus.{FileStatus, new_status}
use naive_fs.DentryBlock.{store_bytes}
use naive_fs.Names.{bytes_of}
use naive_fs.Names.Create.{words_of}
use naive_fs.OpManager.{InodeCache, put, put_inode, commit}
use naive_fs.FileApi.{FileApi}
use naive_fs.Handlers.{User, permits, inode_of, found_with, get_cached, released, store_commit}
use naive_fs.Handlers.Paths.{with_new}

-- `fi->fh`: a `FileStatus` with its `inode_cache_`, by the number of the inode
pub record Handle : Type 0 where
  pub inode_id : ℕ
  pub status : FileStatus

-- `new FileStatus`, `cache_update_flag_ = false`, `inode_cache_ = ic` and `init_seek()`
abbrev pub new_handle : ℕ → Handle
new_handle id = record { inode_id = id; status = record new_status { cache_update_flag = true } }

-- O_RDONLY, O_WRONLY, O_RDWR, O_ACCMODE of <fcntl.h>
abbrev pub o_rdonly : ℕ
o_rdonly = 0

abbrev pub o_wronly : ℕ
o_wronly = 1

abbrev pub o_rdwr : ℕ
o_rdwr = 2

abbrev pub o_accmode : ℕ
o_accmode = 3

-- `flags & wanted`, where `wanted` is (O_RDONLY | O_RDWR) or (O_WRONLY | O_RDWR)
abbrev pub has_flags : ℕ → ℕ → Bool
has_flags flags wanted = not (bit_and flags wanted == 0)

-- The times that `fuse_open` sets.
abbrev pub with_opened : ℕ → ℕ → Inode → Inode
with_opened flags now n = record n {
  i_atime = now % 2 ^ 32;
  i_ctime = now % 2 ^ 32;
  i_mtime = if bit_and flags o_accmode == o_rdonly then n.i_mtime else now % 2 ^ 32;
}

-- A file's `fuse_file_info`: null, or `fh`, which may be null.
abbrev pub FileInfo : Type 0
FileInfo = Option (Option Handle)

-- The first n bytes of a buffer up to a 0, as `strlen` counts them.
unfoldable pub c_string : (ℕ → ℕ) → ℕ → ℕ → List ℕ
c_string buf k zero = []
c_string buf k (suc n) =
    let rest = c_string buf (k + 1) n in if buf k == 0 then [] else buf k ∷ rest

-- sizeof(ext2_inode::i_block), in bytes
abbrev pub i_block_bytes : ℕ
i_block_bytes = 60

-- `memcpy(inode->i_block, src, src_len)`
unfoldable pub copy_words : (ℕ → ℕ) → ℕ → ℕ → List ℕ
copy_words words k zero = []
copy_words words k (suc n) = words k ∷ copy_words words (k + 1) n

abbrev pub with_target : List ℕ → Inode → Inode
with_target src n =
    let bytes = store_bytes (bytes_of (λ k. get_or n.i_block k 0)) 0 src in
    record n { i_block = copy_words (words_of bytes) 0 (length n.i_block) }

module _ {S : Type 0} (api : FileApi S) (user : User) where
  -- `fuse_create`: the result, `fi->fh` where it is set, and the state
  unfoldable pub fuse_create : S → List ℕ → ℕ → ℕ → ℤ × (Option Handle × S)
  fuse_create s path mode now =
      found_with api (λ code s1. (code2errno code, (none, s1)))
        (λ id s1.
          get_cached api s1 id (λ s2. (neg_errno eio, (none, s2)))
            λ c s2. (
              pos 0,
              (
                some (new_handle id),
                api.set_opm s2 (store_commit (api.opm s2) id c (with_new mode now user)),
              ),
            ))
        (api.inode_create s path mode)

  -- `fuse_open`, which does not commit the times
  unfoldable pub fuse_open : S → List ℕ → ℕ → ℕ → Option (ℤ × (Option Handle × S))
  fuse_open s path flags now =
      found_with api (λ code s1. some (code2errno code, (none, s1)))
        (λ id s1.
          if not (
            permits user (inode_of api s1 id) (has_flags flags o_rdwr) (has_flags flags o_accmode)
              false)
          then some (neg_errno eacces, (none, s1))
          else get_cached api s1 id (λ s2. none)
              λ c s2.
                let c' : InodeCache = record c { cache = with_opened flags now c.cache } in
                some
                  (pos 0, (some (new_handle id), api.set_opm s2 (put (api.opm s2) id (some c')))))
        (api.inode_lookup s path)

  -- `fuse_release`, for an `fs` that is not null
  unfoldable pub fuse_release : S → FileInfo → ℤ × S
  fuse_release s none = (neg_errno einval, s)
  fuse_release s (some none) = (neg_errno ebadf, s)
  fuse_release s (some (some h)) = (pos 0, released api s h.inode_id)

  -- `fd->inode_cache_->commit()`
  abbrev pub committed : S → ℕ → S
  committed s id = elim ((api.opm s).st id) [
    | none ↦ s
    | some c ↦ api.set_opm s (commit (api.opm s) id c.cache).1
  ]

  -- `fuse_fsync`, for a path that is not null
  unfoldable pub fuse_fsync : S → Bool → FileInfo → ℤ × S
  fuse_fsync s datasync none = (neg_errno einval, s)
  fuse_fsync s datasync (some none) = (neg_errno ebadf, s)
  fuse_fsync s datasync (some (some h)) = (
    pos 0,
    if datasync then api.flush s h.inode_id else api.flush (committed s h.inode_id) h.inode_id,
  )

  -- `fuse_flush` and `fuse_truncate`, which do nothing
  abbrev pub fuse_flush : S → ℤ × S
  fuse_flush s = (pos 0, s)

  abbrev pub fuse_truncate : S → ℕ → ℤ × S
  fuse_truncate s offset = (pos 0, s)

  -- `if (!fs->alloc_block(…)) return Code2Errno(FS_ALLOC_ERR);` and `write_block`
  abbrev pub stored_in_block : List ℕ → Option ℕ × S → ℤ × S
  stored_in_block src (none, s) = (code2errno fs_alloc_err, s)
  stored_in_block src (some b, s) = (pos 0, api.write_block s b src)

  -- `fuse_symlink`
  unfoldable pub fuse_symlink : S → List ℕ → List ℕ → ℤ × S
  unfolding copy_words
  fuse_symlink s src dst =
      found_with api (λ code s1. (code2errno code, s1))
        (λ _ s1.
          found_with api (λ code s2. (code2errno code, s2))
            (λ id s2.
              if leb (length src) i_block_bytes
              then (
                pos 0,
                api.set_opm s2 (put_inode (api.opm s2) id (with_target src (inode_of api s2 id))),
              )
              else stored_in_block src (api.alloc_block s2 id))
            (api.inode_create s1 dst s_iflnk))
        (api.inode_lookup s src)

  -- The bytes that `fuse_readlink` copies.
  abbrev pub target_in_block : ℕ → Option (ℕ → ℕ) → S → (ℤ × List ℕ) × S
  target_in_block size none s = ((code2errno fs_not_found, []), s)
  target_in_block size (some words) s =
      ((pos 0, take size (c_string (bytes_of words) 0 block_size)), s)

  -- `fuse_readlink`: the bytes that it stores in `buf`; `strlen` is taken to end where the array ends
  unfoldable pub fuse_readlink : S → List ℕ → ℕ → (ℤ × List ℕ) × S
  unfolding c_string
  fuse_readlink s path size =
      found_with api (λ code s1. ((code2errno code, []), s1))
        (λ id s1.
          let n = inode_of api s1 id in
          if n.i_blocks == 0
          then (
            (pos 0, take size (c_string (bytes_of (λ k. get_or n.i_block k 0)) 0 i_block_bytes)),
            s1,
          )
          else target_in_block size (api.fetch s1 (get_or n.i_block 0 0)) s1)
        (api.inode_lookup s path)
