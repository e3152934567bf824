-- ===== src/Tests/Caches.antt =====
-- The block cache: src/cache.cpp.
use naive_fs.Base.{ℕ, ◌+◌, ◌==◌, if◌then◌else◌, ◌≡◌, refl, true, false, arith, [], ◌∷◌}
use naive_fs.BlockCache.{
  Node, BlockCache, init, insert, modify, store, flush, find, evict, release, write_back,
  split_last,
}
use naive_fs.BlockCache.Coherence.{view, IsValid, init-IsValid}
use naive_fs.BlockCache.Operations.{insert-view}
use naive_fs.BlockCache.Loss.{read_all, insert-lost}
use naive_fs.BlockCache.Flush.{flush-view, modify-store}

-- blocks of one number; on the disk block j holds 100 + j
abbrev disk0 : ℕ → ℕ
disk0 j = 100 + j

abbrev c1 : BlockCache ℕ
c1 = (insert (init 2) disk0 7 0 true).0

c1-IsValid : IsValid 2 c1 disk0
unfolding init insert find
c1-IsValid =
    (insert-view 2 (init 2) disk0 7 0 true (omega arith) (init-IsValid 2 disk0) refl (λ e. cc)).1

-- a full cache: block 8 read, block 7 written
abbrev c2 : BlockCache ℕ
c2 = record {
  nodes =
      record { dirty = false; index = 8; block = 108 }
      ∷ record { dirty = true; index = 7; block = 0 }
      ∷ [];
  free_entries = 0;
}

c2-IsValid : IsValid 2 c2 disk0
unfolding init insert find
c2-IsValid = (insert-view 2 c1 disk0 8 108 false (omega arith) c1-IsValid refl (λ e. refl)).1

insert_evicts : (insert c2 disk0 9 1 true).1 7 ≡ 0
unfolding insert evict release write_back find split_last
insert_evicts = refl

insert-view_example :
    let (c', disk') = insert c2 disk0 9 1 true in
    ((j : ℕ) → view c'.nodes disk' j ≡ (if 9 == j then 1 else view c2.nodes disk0 j))
    × IsValid 2 c' disk'
unfolding find
insert-view_example = insert-view 2 c2 disk0 9 1 true (omega arith) c2-IsValid refl (λ e. cc)

flush-view_example :
    let (c', disk') = flush c2 disk0 in
    ((j : ℕ) → disk' j ≡ view c2.nodes disk0 j)
    × ((j : ℕ) → view c'.nodes disk' j ≡ view c2.nodes disk0 j)
    × IsValid 2 c' disk'
flush-view_example = flush-view 2 c2 disk0 c2-IsValid

abbrev node8 : Node ℕ
node8 = record { dirty = false; index = 8; block = 108 }

modify-store_example :
    let c' = modify (store c2 8 5) 8 in
    ((j : ℕ) → view c'.nodes disk0 j ≡ (if 8 == j then 5 else view c2.nodes disk0 j))
    × IsValid 2 c' disk0
unfolding find
modify-store_example = modify-store 2 c2 disk0 8 5 node8 c2-IsValid refl

-- A block of zeros for number 9 in a cache of one entry, where the disk has other data, and then a read
-- of block 8.
insert-lost_example :
    let (c', disk') = insert (init 1) disk0 9 0 false in
    (view c'.nodes disk' 9 ≡ 0)
    × (let (c'', disk'') = read_all c' disk' (8 ∷ []) in view c''.nodes disk'' 9 ≡ 109)
unfolding init insert evict find
insert-lost_example =
    insert-lost 1 (init 1) disk0 9 0 (8 ∷ []) (omega arith) refl refl
      ((λ e. omega (arith, e)), refl, tt) refl
