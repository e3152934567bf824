-- ===== src/Handlers/Attr/Effects.antt =====
-- The handlers that read and change attributes, on a path that has an inode.
use naive_fs.Base.{
  ℕ, ◌%◌, ◌^◌, ◌≡◌, refl, sym, ap, subst, ◌∙◌, true, false, not, ◌&&◌, ◌||◌, ◌==◌, if◌then◌else◌,
  bit_and, arith, Option, none, some, List,
}
use mathlib.Core.Path.{fun_ext}
use naive_fs.Base.Int.{ℤ, pos}
use naive_fs.Config.{neg_errno, eacces}
use naive_fs.Inode.{Inode}
use naive_fs.OpManager.{InodeCache, OpManager, put, rel_cache}
use naive_fs.OpManager.Counts.{IsCounted, rel_cache-get_cache}
use naive_fs.Permission.{check_user, class_grants}
use naive_fs.Names.{ok}
use naive_fs.FileApi.{FileApi}
use naive_fs.Handlers.{User, permits, inode_of, store_commit, get_cached, released, change_inode}
use naive_fs.Handlers.Attr.{
  Stat, stat_of, with_mode, with_times, with_owner, new_times, fuse_getattr, fuse_chmod,
  fuse_utimens, fuse_chown,
}
use naive_fs.Handlers.Attr.Changes.{copy_of, Changes, change_lem}

-- Which times are set.
abbrev pub set_times : Option (ℕ × ℕ) → ℕ → Inode → Inode
set_times none now i = record i { i_atime = now % 2 ^ 32; i_mtime = now % 2 ^ 32 }
set_times (some (a, m)) now i =
    if a == 0
    then record i { i_atime = now % 2 ^ 32; i_mtime = now % 2 ^ 32 }
    else record i { i_atime = a % 2 ^ 32; i_mtime = m % 2 ^ 32 }

with_times-new_times :
    (tv : Option (ℕ × ℕ)) (now : ℕ)
    → with_times (new_times tv now).0 (new_times tv now).1 ≡ set_times tv now
unfolding new_times
with_times-new_times none now = refl
with_times-new_times (some (a, m)) now = fun_ext λ i. ground arith

-- An owner who may write, or the super-user.
check_user_lem :
    (user mode uid : ℕ)
    → check_user user mode uid false true false
      ≡ ((user == 0) || ((user == uid) && not (bit_and mode 0x80 == 0)))
unfolding check_user class_grants
check_user_lem user mode uid = ground arith

module _ {S : Type 0} (api : FileApi S) (user : User)
    (set_lem : (s : S) (m : OpManager) → api.opm (api.set_opm s m) ≡ m) where
  opm-change_inode :
      (s : S) (m : OpManager) (id : ℕ) (c : InodeCache) (change : Inode → Inode)
      → api.opm (change_inode api (api.set_opm s m) id c change)
        ≡ (rel_cache (store_commit m id c change) id).1
  opm-change_inode s m id c change =
      let s2 = api.set_opm s m in
      let m3 = store_commit (api.opm s2) id c change in
      set_lem (api.set_opm s2 m3) (rel_cache (api.opm (api.set_opm s2 m3)) id).1
      ∙ ap (λ x. (rel_cache x id).1)
          (set_lem s2 m3 ∙ ap (λ x. store_commit x id c change) (set_lem s m))

  module _ (s s1 : S) (path : List ℕ) (id : ℕ) (n : Inode)
      (found : api.inode_lookup s path ≡ (ok id, s1)) (counted : IsCounted (api.opm s1))
      (there : (api.opm s1).inodes id ≡ some n) where
    -- A result of 0, with one inode and its copy changed.
    abbrev pub Done : (Inode → Inode) → ℤ × S → Type 0
    Done change r = (r.0 ≡ pos 0) × Changes (api.opm s1) id n change (api.opm r.1)

    changed :
        (change : Inode → Inode)
        → Done change (
            get_cached api s1 id
              (λ s2. (neg_errno 5, s2))
              λ c s2. (pos 0, change_inode api s2 id c change))
    changed change =
        let (c, got, copy, changes) = change_lem (api.opm s1) id n change counted there in
        rw got (refl, rw (opm-change_inode s1 (put (api.opm s1) id (some c)) id c change) changes)

    -- The same where the handler does not test the pointer, which is then never null.
    abbrev pub DoneSafely : (Inode → Inode) → Option (ℤ × S) → Type 0
    DoneSafely change r =
        (s' : S) × (r ≡ some (pos 0, s')) × Changes (api.opm s1) id n change (api.opm s')

    changed_safely :
        (change : Inode → Inode)
        → DoneSafely change (
            get_cached api s1 id (λ s2. none) λ c s2. some (pos 0, change_inode api s2 id c change))
    changed_safely change =
        let (c, got, copy, changes) = change_lem (api.opm s1) id n change counted there in
        let s2 = api.set_opm s1 (put (api.opm s1) id (some c)) in
        (
          change_inode api s2 id c change,
          rw got refl,
          rw (opm-change_inode s1 (put (api.opm s1) id (some c)) id c change) changes,
        )

    -- What `stat` is to say of an inode.
    abbrev pub told : Inode → Stat
    told i = record {
      st_ino = id;
      st_mode = i.i_mode;
      st_nlink = i.i_links_count;
      st_uid = i.i_uid;
      st_gid = i.i_gid;
      st_size = i.i_size;
      st_blksize = 4096;
      st_blocks = i.i_blocks;
      st_atime = i.i_atime;
      st_mtime = i.i_mtime;
      st_ctime = i.i_ctime;
    }

    -- The attributes that are read are those of the copy, and reading them changes nothing.
    abbrev pub Reads : ℤ × (Option Stat × S) → Type 0
    Reads (r, (stat, s')) =
        (r ≡ pos 0)
        × (stat ≡ some (told (copy_of (api.opm s1) id n)))
        × ((j : ℕ) → (api.opm s').st j ≡ (api.opm s1).st j)
        × ((j : ℕ) → (api.opm s').inodes j ≡ (api.opm s1).inodes j)

    fuse_getattr-Reads : Reads (fuse_getattr api user s path)
    unfolding fuse_getattr stat_of
    fuse_getattr-Reads =
        let m = api.opm s1 in
        let (c, got, copy, _) = change_lem m id n (λ i. i) counted there in
        let (st, inodes) = rel_cache-get_cache m id counted in
        let opened = put m id (some c) in
        let after : api.opm (released api (api.set_opm s1 opened) id) ≡ (rel_cache opened id).1 =
          set_lem (api.set_opm s1 opened) (rel_cache (api.opm (api.set_opm s1 opened)) id).1
          ∙ ap (λ x. (rel_cache x id).1) (set_lem s1 opened) in
        let closed = ap (λ r. (rel_cache r.1 id).1) got in
        rw (found, got)
          (
            refl,
            ap (λ i. some (told i)) copy,
            λ j. ap (λ x. x.st j) (after ∙ sym closed) ∙ st j,
            λ j. ap (λ x. x.inodes j) (after ∙ sym closed) ∙ inodes j,
          )

    -- For a path that `inode_lookup` finds, on counted copies: `fuse_getattr` returns 0 with the fields
    -- of the open file's copy, else of the inode, and changes none. `fuse_chmod` by a user who may read
    -- and write, `fuse_utimens` by the super-user or an owner who may write, and `fuse_chown` by anyone
    -- return 0 and set the mode, the times or the owner in the inode and in the open file's copy,
    -- change no other copy and no other inode, and dereference no null pointer; the times are those
    -- given, or the time now if none or 0 is given. Other users get -EACCES.
    pub attributes_lem :
        (mode uid gid now : ℕ) (tv : Option (ℕ × ℕ))
        → let disk = inode_of api s1 id in
          let writes =
            (user.uid == 0) || ((user.uid == disk.i_uid) && not (bit_and disk.i_mode 0x80 == 0)) in
          Reads (fuse_getattr api user s path)
          × (permits user disk true true false ≡ true
              → Done (λ i. record i { i_mode = mode % 2 ^ 16 }) (fuse_chmod api user s path mode))
          × (permits user disk true true false ≡ false
              → fuse_chmod api user s path mode ≡ (neg_errno eacces, s1))
          × (writes ≡ true → DoneSafely (set_times tv now) (fuse_utimens api user s path tv now))
          × (writes ≡ false → fuse_utimens api user s path tv now ≡ some (neg_errno eacces, s1))
          × DoneSafely
              (λ i. record i { i_uid = uid % 2 ^ 16; i_gid = gid % 2 ^ 16 })
              (fuse_chown api user s path uid gid)
    unfolding fuse_chmod fuse_utimens fuse_chown
    attributes_lem mode uid gid now tv =
        let disk = inode_of api s1 id in
        let rule = check_user_lem user.uid disk.i_mode disk.i_uid in
        (
          fuse_getattr-Reads,
          λ t. rw (found, t) (changed (with_mode mode)),
          λ t. rw (found, t) refl,
          λ t.
              rw (found, rule ∙ t)
                (subst
                  (λ change. DoneSafely change (
                    get_cached api s1 id (λ s2. none)
                      λ c s2. some (
                        pos 0,
                        change_inode api s2 id c
                            (with_times (new_times tv now).0 (new_times tv now).1),
                      )))
                  (with_times-new_times tv now)
                  (changed_safely (with_times (new_times tv now).0 (new_times tv now).1))),
          λ t. rw (found, rule ∙ t) refl,
          rw found (changed_safely (with_owner uid gid)),
        )
