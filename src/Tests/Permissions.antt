-- ===== src/Tests/Permissions.antt =====
-- Permission checks: src/operation/operation.cpp.
use naive_fs.Base.{◌==◌, ◌||◌, true, false, ◌≡◌, refl}
use naive_fs.Permission.{
  check_permission, posix_permission, class_grants, group_grants, other_grants,
  check_permission-posix_permission,
}

-- Mode 0077: the owner, whom POSIX refuses, is granted the file by the bits of the others.
owner_granted : check_permission 5 5 0x3f true true true 5 5 ≡ true
unfolding check_permission class_grants
owner_granted = refl

check_permission-posix_permission_example :
    (posix_permission 5 5 0x3f true true true 5 5 ≡ true
      → check_permission 5 5 0x3f true true true 5 5 ≡ true)
    × (check_permission 5 5 0x3f true true true 5 5 ≡ true
        → posix_permission 5 5 0x3f true true true 5 5 ≡ false
        → (((5 == 5) || (5 == 5)) ≡ true)
          × ((group_grants 0x3f true true true || other_grants 0x3f true true true) ≡ true))
check_permission-posix_permission_example =
    check_permission-posix_permission 5 5 0x3f true true true 5 5
