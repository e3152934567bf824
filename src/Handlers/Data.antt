-- ===== src/Handlers/Data.antt =====
-- src/operation/data.cpp: `fuse_read` and `fuse_write`.
use naive_fs.Base.{ℕ, bit_and, ◌==◌, not, if◌then◌else◌, Option, none, some, List, [], length}
use naive_fs.Base.Int.{ℤ, pos}
use naive_fs.Config.{neg_errno, einval, ebadf, eacces}
use naive_fs.Inode.{Inode, zero_inode}
use naive_fs.FileContents.{ReadResult, copy_to_buf}
use naive_fs.FileContents.Write.{Writing, WriteResult, write}
use naive_fs.NameStore.{NameStore}
use naive_fs.FileApi.{FileApi}
use naive_fs.Handlers.Files.{Handle, FileInfo, o_rdonly, o_wronly, o_accmode}

module _ {S : Type 0} (api : FileApi S) where
  -- `fd->inode_cache_->cache_`
  abbrev pub cache_of : S → Handle → Inode
  cache_of s h = elim ((api.opm s).st h.inode_id) [ none ↦ zero_inode | some c ↦ c.cache ]

  abbrev pub with_cursor : Handle → ReadResult → Option ((ℤ × List ℕ) × FileInfo)
  with_cursor h none = none
  with_cursor h (some (r, status)) = some (r, some (some (record h { status = status })))

  -- `fuse_read`, for an `fs` that is not null: the result, the bytes in `buf`, and the handle
  unfoldable pub fuse_read : S → FileInfo → ℕ → ℕ → ℕ → Option ((ℤ × List ℕ) × FileInfo)
  fuse_read s none flags offset size = some ((neg_errno einval, []), none)
  fuse_read s (some none) flags offset size = some ((neg_errno einval, []), some none)
  fuse_read s (some (some h)) flags offset size =
      let n = cache_of s h in
      if bit_and flags o_accmode == o_wronly
      then some ((neg_errno einval, []), some (some h))
      else with_cursor h (copy_to_buf (api.fetch s) n.i_block n.i_size h.status offset size)

-- O_APPEND of <fcntl.h>
abbrev pub o_append : ℕ
o_append = 0x400

module _ {S : Type 0} (st : NameStore S) where
  -- `fi`, for a call that writes: null, or a handle, which may be null, with what it writes to
  abbrev pub WriteInfo : Type 0
  WriteInfo = Option (Option (Writing S))

  abbrev pub written : WriteResult st → Option (ℤ × WriteInfo)
  written none = none
  written (some (ret, f)) = some (ret, some (some f))

  -- `fuse_write`, for an `fs` that is not null
  unfoldable pub fuse_write : WriteInfo → ℕ → List ℕ → ℕ → Option (ℤ × WriteInfo)
  fuse_write none flags buf offset = some (neg_errno einval, none)
  fuse_write (some none) flags buf offset = some (neg_errno ebadf, some none)
  fuse_write (some (some f)) flags buf offset =
      if bit_and flags o_accmode == o_rdonly
      then some (neg_errno eacces, some (some f))
      else if length buf == 0
      then some (pos 0, some (some f))
      else written (write st buf offset (not (bit_and flags o_append == 0)) f)
