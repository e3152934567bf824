-- ===== src/Handlers/Paths.antt =====
-- `fuse_rename`, `fuse_link` and `fuse_unlink` of src/operation/meta.cpp, and src/operation/dir.cpp:
-- names and directories.
use naive_fs.Base.{
  ℕ, ◌%◌, ◌^◌, bit_or, Bool, true, false, ◌||◌, not, leb, ◌==◌, if◌then◌else◌, Option, none, some,
  List, [], ◌∷◌, ◌++◌,
}
use naive_fs.Base.Int.{ℤ, pos}
use naive_fs.Config.{
  RetCode, fs_success, code2errno, neg_errno, enoent, eio, eacces, eexist, enotdir, einval,
  enotempty,
}
use naive_fs.Inode.{Inode, is_dir, s_ifdir}
use naive_fs.InodeVisit.{Visitor, visit_inode_blocks}
use naive_fs.DentryBlock.{Dentry, dentry_block, name_of}
use naive_fs.Names.{bytes_of}
use naive_fs.FileApi.{FileApi}
use naive_fs.Handlers.{User, permits, inode_of, found_with, get_cached, released, change_inode}

-- RENAME_NOREPLACE, RENAME_EXCHANGE
abbrev pub rename_noreplace : ℕ
rename_noreplace = 1

abbrev pub rename_exchange : ℕ
rename_exchange = 2

-- "/<a"
abbrev pub exchange_name : List ℕ
exchange_name = b'/' ∷ b'<' ∷ b'a' ∷ []

-- What a new file or directory gets.
abbrev pub with_new : ℕ → ℕ → User → Inode → Inode
with_new mode now user n = record n {
  i_mode = mode % 2 ^ 16;
  i_size = 0;
  i_atime = now % 2 ^ 32;
  i_ctime = now % 2 ^ 32;
  i_mtime = now % 2 ^ 32;
  i_flags = 0;
  i_gid = user.gid % 2 ^ 16;
  i_uid = user.uid % 2 ^ 16;
}

-- The names that `filler` is called with for the entries of a block.
unfoldable pub names_of : List Dentry → List (List ℕ)
names_of [] = []
names_of (d ∷ l) = if d.name_len == 0 then names_of l else name_of d ∷ names_of l

-- The visitors of `fuse_readdir` and `fuse_rmdir`, whose states are the names and `result`.
unfoldable pub names_visitor : Visitor (List (List ℕ))
unfolding names_of
names_visitor b words names = (false, names ++ names_of (dentry_block (bytes_of words)).0)

abbrev pub is_nil : List (List ℕ) → Bool
is_nil [] = true
is_nil (x ∷ l) = false

unfoldable pub empty_visitor : Visitor Bool
unfolding names_of
empty_visitor b words result =
    if is_nil (names_of (dentry_block (bytes_of words)).0) then (false, result) else (true, false)

module _ {S : Type 0} (api : FileApi S) (user : User) where
  -- `if (ret) return Code2Errno(ret);` and the rest
  abbrev pub call_with : (S → ℤ × S) → RetCode × S → ℤ × S
  call_with next (fs_success, s) = next s
  call_with next (code, s) = (code2errno code, s)

  abbrev pub done : S → ℤ × S
  done s = (pos 0, s)

  -- A lookup whose failure is -ENOENT, and the check that the inode can be written.
  abbrev pub find_writable : S → List ℕ → (S → ℤ × S) → ℤ × S
  find_writable s path next =
      found_with api (λ code s1. (neg_errno enoent, s1))
        (λ id s1.
          if not (permits user (inode_of api s1 id) false true false)
          then (neg_errno eacces, s1)
          else next s1)
        (api.inode_lookup s path)

  abbrev pub link_then : S → List ℕ → List ℕ → (S → ℤ × S) → ℤ × S
  link_then s src dst next = call_with next (api.inode_link s src dst)

  abbrev pub unlink_then : S → List ℕ → (S → ℤ × S) → ℤ × S
  unlink_then s path next = call_with next (api.inode_unlink s path)

  -- `inode_link(oldname, newname)`, then `inode_unlink(oldname)`
  abbrev pub move : S → List ℕ → List ℕ → ℤ × S
  move s oldname newname = link_then s oldname newname λ s1. unlink_then s1 oldname done

  unfoldable pub exchange : S → List ℕ → List ℕ → ℤ × S
  exchange s oldname newname = find_writable s newname λ s1. find_writable s1 oldname λ s2.
      link_then s2 oldname exchange_name λ s3. unlink_then s3 oldname λ s4.
        link_then s4 newname oldname
          λ s5. link_then s5 oldname newname λ s6. unlink_then s6 exchange_name done

  unfoldable pub move_new : S → List ℕ → List ℕ → ℤ × S
  move_new s oldname newname =
      found_with api (λ code s1. find_writable s1 oldname λ s2. move s2 oldname newname)
        (λ id s1. (neg_errno eexist, s1)) (api.inode_lookup s newname)

  unfoldable pub replace : S → List ℕ → List ℕ → ℤ × S
  replace s oldname newname = find_writable s oldname λ s1.
      found_with api (λ code s2. move s2 oldname newname)
        (λ id s2.
          if not (permits user (inode_of api s2 id) false true false)
          then (neg_errno eacces, s2)
          else unlink_then s2 newname λ s3. move s3 oldname newname)
        (api.inode_lookup s1 newname)

  -- `fuse_rename`
  unfoldable pub fuse_rename : S → List ℕ → List ℕ → ℕ → ℤ × S
  fuse_rename s oldname newname flags =
      if flags == rename_exchange
      then exchange s oldname newname
      else if flags == rename_noreplace
      then move_new s oldname newname
      else if flags == 0
      then replace s oldname newname
      else (neg_errno einval, s)

  -- `fuse_link`
  unfoldable pub fuse_link : S → List ℕ → List ℕ → ℤ × S
  fuse_link s src dst = link_then s src dst done

  -- `fuse_unlink`
  unfoldable pub fuse_unlink : S → List ℕ → Option (ℤ × S)
  fuse_unlink s path =
      found_with api (λ code s1. some (code2errno code, s1))
        (λ id s1.
          get_cached api s1 id (λ s2. none)
            λ c s2.
              if leb 2 c.cnts || not (permits user c.cache false true false)
              then some (neg_errno eacces, released api s2 id)
              else some (unlink_then (released api s2 id) path done))
        (api.inode_lookup s path)

  -- `fuse_readdir`: the names that `filler` gets
  unfoldable pub fuse_readdir : S → List ℕ → (ℤ × List (List ℕ)) × S
  unfolding names_visitor
  fuse_readdir s path =
      found_with api (λ code s1. ((neg_errno enoent, []), s1))
        (λ id s1.
          let n = inode_of api s1 id in
          if not (is_dir n.i_mode)
          then ((neg_errno enotdir, []), s1)
          else if not (permits user n true false false)
          then ((neg_errno eacces, []), s1)
          else (
            (
              pos 0,
              visit_inode_blocks (api.fetch s1) names_visitor n
                  ((b'.' ∷ []) ∷ (b'.' ∷ b'.' ∷ []) ∷ []),
            ),
            s1,
          ))
        (api.inode_lookup s path)

  -- `fuse_mkdir`, with the time
  unfoldable pub fuse_mkdir : S → List ℕ → ℕ → ℕ → ℤ × S
  fuse_mkdir s path mode0 now =
      let mode = bit_or mode0 s_ifdir in
      found_with api (λ code s1. (code2errno code, s1))
        (λ id s1.
          if not (permits user (inode_of api s1 id) true true false)
          then (neg_errno eacces, s1)
          else get_cached api s1 id (λ s2. (neg_errno eio, s2))
              λ c s2. (pos 0, change_inode api s2 id c (with_new mode now user)))
        (api.inode_create s path mode)

  -- `fuse_rmdir`
  unfoldable pub fuse_rmdir : S → List ℕ → ℤ × S
  unfolding empty_visitor
  fuse_rmdir s path =
      found_with api (λ code s1. (neg_errno enoent, s1))
        (λ id s1.
          let n = inode_of api s1 id in
          if not (is_dir n.i_mode)
          then (neg_errno enotdir, s1)
          else if not (permits user n true true false)
          then (neg_errno eacces, s1)
          else if not (visit_inode_blocks (api.fetch s1) empty_visitor n true)
          then (neg_errno enotempty, s1)
          else unlink_then s1 path done)
        (api.inode_lookup s path)

  -- `fuse_opendir`
  abbrev pub fuse_opendir : S → ℤ × S
  fuse_opendir s = (pos 0, s)
