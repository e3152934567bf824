-- ===== src/Group/Bitmaps.antt =====
-- What a call of a group does to its bitmaps, whatever its counters are.
use naive_fs.Base.{
  ℕ, ◌<◌, ◌≡◌, refl, ap, true, false, Option, none, some, Option-cases, inl, inr, arith,
}
use naive_fs.Bitmap.{Bitmap, test, find, alloc_new}
use naive_fs.Bitmap.Alloc.{IsBitmap, bits_per_bitmap, Allocates, Updates, alloc_new-Allocates}
use naive_fs.Group.{Group, get_inode, alloc_block, alloc_block_with}

-- A block that was clear and is now set, with nothing else changed but the counter; or no change, and
-- every block set.
abbrev pub TakesBlock : Group → Option (ℕ × ℕ) × Group → Type 0
TakesBlock g (none, g') = (g' ≡ g) × ((j : ℕ) → j < bits_per_bitmap → test g.block_bitmap j ≡ true)
TakesBlock g (some (i, offset), g') =
    (i < bits_per_bitmap)
    × (test g.block_bitmap i ≡ false)
    × Updates g.block_bitmap i true g'.block_bitmap
    × IsBitmap g'.block_bitmap
    × (g'.inode_bitmap ≡ g.inode_bitmap)
    × (g'.inode_table ≡ g.inode_table)

alloc_block_with-TakesBlock :
    (g : Group) (r : Option ℕ × Bitmap)
    → Allocates g.block_bitmap r × IsBitmap r.1
    → TakesBlock g (alloc_block_with g r)
unfolding alloc_block_with
alloc_block_with-TakesBlock g (none, d) (a, b) = (ap (λ x. record g { block_bitmap = x }) a.0, a.1)
alloc_block_with-TakesBlock g (some i, d) (a, b) = (a.0, a.1, a.3, b, refl, refl)

pub alloc_block-TakesBlock : (g : Group) → IsBitmap g.block_bitmap → TakesBlock g (alloc_block g)
unfolding alloc_block
alloc_block-TakesBlock g b =
    alloc_block_with-TakesBlock g (alloc_new g.block_bitmap) (alloc_new-Allocates g.block_bitmap b)

pub get_inode_same :
    (g g' : Group) (j : ℕ)
    → g'.inode_bitmap ≡ g.inode_bitmap
    → g'.inode_table ≡ g.inode_table
    → get_inode g' j ≡ get_inode g j
unfolding get_inode
get_inode_same g g' j e q = rw (e, q) refl

pub alloc_new-none : (d : Bitmap) → (alloc_new d).0 ≡ none → (alloc_new d).1 ≡ d
unfolding alloc_new
alloc_new-none d h = elim (Option-cases (find d bits_per_bitmap)) [
  | inl e ↦ rw (e, alloc_new) refl
  | inr (i, e) ↦ absurd (ground (arith, h))
]

-- A call that fails changes nothing.
block_none :
    (g : Group) (r : Option ℕ × Bitmap)
    → (r.0 ≡ none → r.1 ≡ g.block_bitmap)
    → (alloc_block_with g r).0 ≡ none
    → (alloc_block_with g r).1 ≡ g
unfolding alloc_block_with
block_none g (none, d) same h = ap (λ x. record g { block_bitmap = x }) (same refl)
block_none g (some i, d) same h = absurd (ground (arith, h))

pub alloc_block-none : (g : Group) → (alloc_block g).0 ≡ none → (alloc_block g).1 ≡ g
unfolding alloc_block
alloc_block-none g h = block_none g (alloc_new g.block_bitmap) (alloc_new-none g.block_bitmap) h
