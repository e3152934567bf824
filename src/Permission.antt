-- ===== src/Permission.antt =====
-- `_check_permission` and `_check_user` of src/operation/operation.cpp, with the user of
-- `fuse_get_context` as their first arguments.
use naive_fs.Base.{ℕ, bit_and, Bool, true, false, ◌&&◌, ◌||◌, not, ◌==◌, if◌then◌else◌, ◌≡◌, arith}

-- `flag &= (mode & bit) || !wanted`, for the three bits of a class
unfoldable pub class_grants : ℕ → ℕ → ℕ → ℕ → Bool → Bool → Bool → Bool
class_grants mode r w x read write exec =
    (not (bit_and mode r == 0) || not read)
    && (not (bit_and mode w == 0) || not write)
    && (not (bit_and mode x == 0) || not exec)

-- the classes of <sys/stat.h>: S_IRUSR to S_IXUSR, S_IRGRP to S_IXGRP, S_IROTH to S_IXOTH
abbrev pub owner_grants : ℕ → Bool → Bool → Bool → Bool
owner_grants mode = class_grants mode 0x100 0x80 0x40

abbrev pub group_grants : ℕ → Bool → Bool → Bool → Bool
group_grants mode = class_grants mode 0x20 0x10 0x8

abbrev pub other_grants : ℕ → Bool → Bool → Bool → Bool
other_grants mode = class_grants mode 0x4 0x2 0x1

-- `_check_permission`
unfoldable pub check_permission : ℕ → ℕ → ℕ → Bool → Bool → Bool → ℕ → ℕ → Bool
check_permission current_uid current_gid mode read write exec gid uid =
    if current_uid == 0
    then true
    else if (current_gid == gid) && group_grants mode read write exec
    then true
    else if (current_uid == uid) && owner_grants mode read write exec
    then true
    else other_grants mode read write exec

-- `_check_user`
unfoldable pub check_user : ℕ → ℕ → ℕ → Bool → Bool → Bool → Bool
check_user current_uid mode uid read write exec =
    if (current_uid == uid) && owner_grants mode read write exec then true else current_uid == 0

-- The rule of POSIX: one class decides, that of the owner first, then that of the group.
unfoldable pub posix_permission : ℕ → ℕ → ℕ → Bool → Bool → Bool → ℕ → ℕ → Bool
posix_permission current_uid current_gid mode read write exec gid uid =
    if current_uid == 0
    then true
    else if current_uid == uid
    then owner_grants mode read write exec
    else if current_gid == gid
    then group_grants mode read write exec
    else other_grants mode read write exec

-- `_check_permission` grants whatever the rule of POSIX grants. It grants more only where the class
-- that should decide refuses and another class of the user, or that of the others, does not.
pub check_permission-posix_permission :
    (current_uid current_gid mode : ℕ) (read write exec : Bool) (gid uid : ℕ)
    → (posix_permission current_uid current_gid mode read write exec gid uid ≡ true
        → check_permission current_uid current_gid mode read write exec gid uid ≡ true)
      × (check_permission current_uid current_gid mode read write exec gid uid ≡ true
          → posix_permission current_uid current_gid mode read write exec gid uid ≡ false
          → (((current_uid == uid) || (current_gid == gid)) ≡ true)
            × ((group_grants mode read write exec || other_grants mode read write exec) ≡ true))
unfolding check_permission posix_permission
check_permission-posix_permission cu cg mode r w x gid uid =
    (ground arith, λ h q. (ground arith, ground arith))
