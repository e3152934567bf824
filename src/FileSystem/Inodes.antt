-- ===== src/FileSystem/Inodes.antt =====
-- What `alloc_inode` of a group does to its inodes, whatever its counters are, and the initialization
-- that the file system adds.
use naive_fs.Base.{
  ℕ, ◌%◌, ◌^◌, ◌<◌, ◌≡◌, ◌≢◌, refl, sym, ap, ◌∙◌, true, false, Option, none, some, arith,
  none_ne_some, if◌then◌else◌,
}
use naive_fs.Bitmap.{Bitmap, test, alloc_new}
use naive_fs.Bitmap.Alloc.{IsBitmap, bits_per_bitmap, Allocates, alloc_new-Allocates}
use naive_fs.Inode.{Inode, zero_inode, inode_init, is_dir}
use naive_fs.Group.{
  Group, get_inode, put_inode, table_get, alloc_inode, alloc_inode_with, inc16, dec16,
}
use naive_fs.Group.Counts.{get_inode-put_inode_self, get_inode-put_inode_ne, get_inode_ne}
use naive_fs.FileSystem.{init_inode}

-- The inode that `BlockGroup::alloc_inode` leaves: zeros but for the mode.
abbrev pub raw_inode : ℕ → Inode
raw_inode mode = record zero_inode { i_mode = mode % 2 ^ 16 }

-- An inode that was clear and now has this content, with no other inode or block changed; or no change,
-- and every inode is allocated.
abbrev pub TakesInode : Inode → Group → Option ℕ × Group → Type 0
TakesInode content g (none, g') =
    (g' ≡ g) × ((j : ℕ) → j < bits_per_bitmap → test g.inode_bitmap j ≡ true)
TakesInode content g (some i, g') =
    (i < bits_per_bitmap)
    × (get_inode g i ≡ none)
    × (get_inode g' i ≡ some content)
    × ((j : ℕ) → j ≢ i → get_inode g' j ≡ get_inode g j)
    × IsBitmap g'.inode_bitmap
    × (g'.block_bitmap ≡ g.block_bitmap)

clear_none : (g : Group) (i : ℕ) → test g.inode_bitmap i ≡ false → get_inode g i ≡ none
unfolding get_inode
clear_none g i h = rw h refl

put_inode-IsBitmap :
    (g : Group) (i : ℕ) (v : Inode)
    → IsBitmap g.inode_bitmap
    → IsBitmap (put_inode g i v).inode_bitmap
unfolding put_inode
put_inode-IsBitmap g i v b = b

block_bitmap-put_inode :
    (g : Group) (i : ℕ) (v : Inode) → (put_inode g i v).block_bitmap ≡ g.block_bitmap
unfolding put_inode
block_bitmap-put_inode g i v = refl

alloc_inode_with-TakesInode :
    (g : Group) (mode : ℕ) (r : Option ℕ × Bitmap)
    → Allocates g.inode_bitmap r × IsBitmap r.1
    → TakesInode (raw_inode mode) g (alloc_inode_with g mode r)
unfolding alloc_inode_with
alloc_inode_with-TakesInode g mode (none, d) (a, b) =
    (ap (λ x. record g { inode_bitmap = x }) a.0, a.1)
alloc_inode_with-TakesInode g mode (some i, d) (a, b) =
    let set : test d i ≡ true = a.3 i ∙ ground arith in
    let g' : Group = record g {
      bg_free_inodes_count = dec16 g.bg_free_inodes_count;
      bg_used_dirs_count = if is_dir mode then inc16 g.bg_used_dirs_count else g.bg_used_dirs_count;
      inode_bitmap = d;
    } in
    rw set (
      a.0,
      clear_none g i a.1,
      get_inode-put_inode_self g' i _ set,
      (λ j h. get_inode-put_inode_ne g' i j _ h ∙ get_inode_ne g g' i j true refl a.3 h),
      put_inode-IsBitmap g' i (raw_inode mode) b,
      block_bitmap-put_inode g' i (raw_inode mode),
    )

pub alloc_inode-TakesInode :
    (g : Group) (mode : ℕ)
    → IsBitmap g.inode_bitmap
    → TakesInode (raw_inode mode) g (alloc_inode g mode)
unfolding alloc_inode
alloc_inode-TakesInode g mode b =
    alloc_inode_with-TakesInode g mode (alloc_new g.inode_bitmap)
      (alloc_new-Allocates g.inode_bitmap b)

-- The pointer that `get_inode` gave is at that inode.
table_get-get_inode :
    (g : Group) (i : ℕ) (v : Inode)
    → get_inode g i ≡ some v
    → (table_get g.inode_table i ≡ v) × (test g.inode_bitmap i ≡ true)
unfolding get_inode
table_get-get_inode g i v h = (ground arith, ground arith)

init_inode-TakesInode :
    (g : Group) (now mode : ℕ) (r : Option ℕ × Group)
    → TakesInode (raw_inode mode) g r
    → TakesInode (inode_init now (raw_inode mode)) g (init_inode now r)
unfolding init_inode
init_inode-TakesInode g now mode (none, g') t = t
init_inode-TakesInode g now mode (some i, g') t =
    let (content, set) = table_get-get_inode g' i (raw_inode mode) t.2 in
    (
      t.0,
      t.1,
      get_inode-put_inode_self g' i _ set ∙ ap (λ v. some (inode_init now v)) content,
      (λ j h. get_inode-put_inode_ne g' i j _ h ∙ t.3 j h),
      put_inode-IsBitmap g' i _ t.4,
      block_bitmap-put_inode g' i _ ∙ t.5,
    )

pub init_inode-alloc_inode :
    (g : Group) (now mode : ℕ)
    → IsBitmap g.inode_bitmap
    → TakesInode (inode_init now (raw_inode mode)) g (init_inode now (alloc_inode g mode))
init_inode-alloc_inode g now mode b =
    init_inode-TakesInode g now mode (alloc_inode g mode) (alloc_inode-TakesInode g mode b)

-- A call that fails changes nothing.
pub TakesInode-none :
    (content : Inode) (g : Group) (r : Option ℕ × Group)
    → TakesInode content g r
    → r.0 ≡ none
    → r.1 ≡ g
TakesInode-none content g (none, g') t e = t.0
TakesInode-none content g (some i, g') t e = absurd (none_ne_some (sym e))
