-- ===== src/Tests/Opens.antt =====
-- Copies of the inodes of open files: include/operation.h.
use naive_fs.Base.{ℕ, ◌≡◌, refl, ◌==◌, if◌then◌else◌, none, some, none_ne_some, arith, [], ◌∷◌}
use naive_fs.Inode.{zero_inode}
use naive_fs.CursorList.{CursorList, new_list, ins, del, iter, iter_from}
use naive_fs.CursorList.Links.{Holds, Lists}
use naive_fs.CursorList.Insert.{ins-and-del-Lists}
use naive_fs.OpManager.{OpManager, get_cache, rel_cache}
use naive_fs.OpManager.Counts.{IsCounted, rel_cache-get_cache}

-- No file is open.
abbrev closed : OpManager
closed = record { st = λ j. none; inodes = λ j. some zero_inode }

closed-IsCounted : IsCounted closed
closed-IsCounted j c e = absurd (none_ne_some e)

rel_cache-get_cache_example :
    let m' = (rel_cache (get_cache closed 4).1 4).1 in
    ((j : ℕ) → m'.st j ≡ closed.st j) × ((j : ℕ) → m'.inodes j ≡ closed.inodes j)
rel_cache-get_cache_example = rel_cache-get_cache closed 4 closed-IsCounted

-- The cursors 6 and 5 are open; 6 came last.
abbrev two_cursors : CursorList
two_cursors = record {
  size = 3;
  heap = λ b.
      if b == 0
      then some (record { value = 0; prev = none; next = some 2 })
      else if b == 1
      then some (record { value = 5; prev = some 2; next = none })
      else if b == 2
      then some (record { value = 6; prev = some 0; next = some 1 })
      else none;
}

two_cursors-Holds : Holds ((2, 6) ∷ ((1, 5) ∷ [])) two_cursors
two_cursors-Holds = (
  omega arith,
  (
    record { value = 0; prev = none; next = some 2 },
    (
      refl,
      (
        refl,
        omega arith,
        omega arith,
        (
          record { value = 6; prev = some 0; next = some 1 },
          (
            refl,
            (
              refl,
              (
                refl,
                (
                  refl,
                  omega arith,
                  omega arith,
                  (record { value = 5; prev = some 2; next = none }, (refl, (refl, (refl, refl)))),
                ),
              ),
            ),
          ),
        ),
      ),
    ),
  ),
)

ins-and-del-Lists_example :
    Lists ((3, 7) ∷ ((2, 6) ∷ ((1, 5) ∷ []))) (ins two_cursors 7)
    × Lists ((2, 6) ∷ []) (del two_cursors 1)
ins-and-del-Lists_example = ins-and-del-Lists two_cursors ((2, 6) ∷ []) 1 5 [] 7 two_cursors-Holds

-- A new list has no cursor.
new_list-iter : iter new_list ≡ []
unfolding iter iter_from
new_list-iter = refl
