-- ===== src/Tests/Handlers.antt =====
-- The FUSE operations: src/operation/.
use naive_fs.Base.{
  ℕ, bit_and, ◌||◌, not, ◌%◌, ◌+◌, ◌^◌, ◌<◌, ◌≡◌, refl, sym, ap, subst, ◌∙◌, true, false, ◌&&◌,
  ◌==◌, if◌then◌else◌, arith, none, some, none_ne_some, Bool-cases, inl, inr, List, [], ◌∷◌,
}
use naive_fs.Config.{fs_success, fs_dup_err, neg_errno, eacces}
use naive_fs.Inode.{Inode, zero_inode}
use naive_fs.Names.{ok, fail}
use naive_fs.OpManager.{InodeCache, OpManager}
use naive_fs.OpManager.Counts.{IsCounted}
use naive_fs.FileApi.{FileApi}
use naive_fs.Handlers.{User, permits}
use naive_fs.Handlers.Attr.{fuse_getattr, fuse_chmod, fuse_utimens, fuse_chown}
use naive_fs.Handlers.Attr.Effects.{set_times, Reads, Done, DoneSafely, attributes_lem}

-- Every path leads to inode 4, which is open, and whose copy has another mode.
abbrev copy : InodeCache
copy = record { cnts = 1; cache = record zero_inode { i_mode = 0x81ff } }

abbrev open_file : OpManager
open_file = record {
  st = λ j. if j == 4 then some copy else none;
  inodes = λ j. some (record zero_inode { i_mode = 0x81a4 });
}

open_file-IsCounted : IsCounted open_file
open_file-IsCounted j c e = elim (Bool-cases (j == 4)) [
  | inl t ↦
      let found : open_file.st j ≡ some copy = ground (arith, t) in
      let same : copy ≡ c = ap (λ o. elim o [ none ↦ copy | some x ↦ x ]) (sym found ∙ e) in
      subst (λ x. (0 < x.cnts) × (x.cnts + 1 < 2 ^ 32)) same (omega arith, omega arith)
  | inr t ↦
      let closed : open_file.st j ≡ none = ground (arith, t) in
      absurd (none_ne_some (sym closed ∙ e))
]

abbrev one_file : FileApi OpManager
one_file = record {
  opm = λ s. s;
  set_opm = λ s m. m;
  fetch = λ s b. none;
  inode_lookup = λ s path. (ok 4, s);
  inode_create = λ s path mode. (fail fs_dup_err, s);
  inode_link = λ s src dst. (fs_dup_err, s);
  inode_unlink = λ s path. (fs_success, s);
  flush = λ s id. s;
  alloc_block = λ s id. (none, s);
  write_block = λ s b bytes. s;
}

abbrev super_user : User
super_user = record { uid = 0; gid = 0 }

abbrev mode_644 : Inode
mode_644 = record zero_inode { i_mode = 0x81a4 }

abbrev path_a : List ℕ
path_a = b'/' ∷ b'a' ∷ []

attributes_lem_example :
    Reads one_file super_user
      (λ s m. refl)
      open_file
      open_file
      path_a
      4
      mode_644
      refl
      open_file-IsCounted
      refl
      (fuse_getattr one_file super_user open_file path_a)
    × (permits super_user mode_644 true true false ≡ true
        → Done one_file super_user
            (λ s m. refl)
            open_file
            open_file
            path_a
            4
            mode_644
            refl
            open_file-IsCounted
            refl
            (λ i. record i { i_mode = 0x8180 % 2 ^ 16 })
            (fuse_chmod one_file super_user open_file path_a 0x8180))
    × (permits super_user mode_644 true true false ≡ false
        → fuse_chmod one_file super_user open_file path_a 0x8180 ≡ (neg_errno eacces, open_file))
    × ((super_user.uid == 0) || ((super_user.uid == 0) && not (bit_and 0x81a4 0x80 == 0)) ≡ true
        → DoneSafely one_file super_user
            (λ s m. refl)
            open_file
            open_file
            path_a
            4
            mode_644
            refl
            open_file-IsCounted
            refl
            (set_times (some (7, 8)) 9)
            (fuse_utimens one_file super_user open_file path_a (some (7, 8)) 9))
    × ((super_user.uid == 0) || ((super_user.uid == 0) && not (bit_and 0x81a4 0x80 == 0)) ≡ false
        → fuse_utimens one_file super_user open_file path_a (some (7, 8)) 9
          ≡ some (neg_errno eacces, open_file))
    × DoneSafely one_file super_user
        (λ s m. refl)
        open_file
        open_file
        path_a
        4
        mode_644
        refl
        open_file-IsCounted
        refl
        (λ i. record i { i_uid = 1000 % 2 ^ 16; i_gid = 100 % 2 ^ 16 })
        (fuse_chown one_file super_user open_file path_a 1000 100)
attributes_lem_example =
    attributes_lem one_file super_user (λ s m. refl) open_file open_file path_a 4 mode_644 refl
      open_file-IsCounted refl 0x8180 1000 100 9 (some (7, 8))
