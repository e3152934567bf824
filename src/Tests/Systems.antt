-- ===== src/Tests/Systems.antt =====
-- The file system over its groups: src/filesystem.cpp.
use naive_fs.Base.{
  ℕ, zero, suc, ◌<◌, ◌≡◌, refl, sym, ap, subst, ◌∙◌, get_elem?, arith, none, some, [], ◌∷◌,
  replicate, none_ne_some,
}
use naive_fs.Config.{total_blocks_per_group, inodes_per_group}
use naive_fs.Bitmap.Alloc.{IsBitmap, zero_bitmap-IsBitmap, set_bit-IsBitmap, zero_bitmap}
use naive_fs.Super.{Super, num_block_groups}
use naive_fs.Group.{Group}
use naive_fs.FileSystem.{FileSystem, find_group, alloc_block, alloc_inode, free_block}
use naive_fs.FileSystem.State.{IsFileSystem, group_of, block_allocated}
use naive_fs.FileSystem.Alloc.{AllocatesNewBlock, alloc_block-AllocatesNewBlock}
use naive_fs.FileSystem.AllocInode.{AllocatesEither, alloc_inode-AllocatesEither}
use naive_fs.FileSystem.Release.{FreesBlockOf, free_block-FreesBlockOf}
use naive_fs.Bitmap.{set_bit}
use naive_fs.Bitmap.Words.{test-set_bit}
use naive_fs.FileSystem.Overwrite.{Empties, alloc_block-Empties}
use naive_fs.Tests.Groups.{empty_group}

abbrev super_of : ℕ → ℕ → Super
super_of blocks inodes = record {
  s_inodes_count = inodes;
  s_blocks_count = blocks;
  s_free_blocks_count = 0;
  s_free_inodes_count = 0;
  s_log_block_size = 2;
  s_blocks_per_group = total_blocks_per_group;
  s_inodes_per_group = inodes_per_group;
  s_first_ino = 0;
  s_inode_size = 128;
  s_state = 1;
}

-- a file system of one group
abbrev pub holding : {B : Type 0} → (ℕ → B) → Group → FileSystem B
holding disk g = record {
  super = super_of 3 1;
  desc_table = 0 ∷ [];
  block_groups = (0, g) ∷ [];
  group_on_disk = λ k. g;
  block_cache = record { nodes = []; free_entries = 8 };
  disk = disk;
}

-- where a block holds a number
abbrev pub one_of : Group → FileSystem ℕ
one_of g = holding (λ j. j) g

-- nothing is allocated
abbrev one_group : FileSystem ℕ
one_group = one_of empty_group

single_none : (g : Group) (k : ℕ) → find_group (suc k) ((0, g) ∷ []) ≡ none
unfolding find_group
single_none g k = ground arith

module _ {B : Type 0} (disk : ℕ → B) (h : Group) where
  past_none :
      (k : ℕ)
      → find_group k (holding disk h).block_groups ≡ none
      → get_elem? (holding disk h).desc_table k ≡ none
      → group_of (holding disk h) k ≡ none
  past_none k e q = ground (arith, e, q)

  one_of_known : (k : ℕ) (g : Group) → find_group k (holding disk h).block_groups ≡ some g → k < 1
  one_of_known zero g e = omega arith
  one_of_known (suc k) g e = absurd (none_ne_some (sym (single_none h k) ∙ e))

  one_of_bitmaps :
      IsBitmap h.block_bitmap × IsBitmap h.inode_bitmap
      → (k : ℕ) (g : Group) → group_of (holding disk h) k ≡ some g
      → IsBitmap g.block_bitmap × IsBitmap g.inode_bitmap
  unfolding find_group
  one_of_bitmaps b zero g e =
      subst (λ x. IsBitmap x.block_bitmap × IsBitmap x.inode_bitmap)
        (ap (λ o. elim o [ none ↦ h | some x ↦ x ]) e) b
  one_of_bitmaps b (suc k) g e =
      absurd (none_ne_some (sym (past_none (suc k) (single_none h k) refl) ∙ e))

  pub holding-IsFileSystem :
      IsBitmap h.block_bitmap × IsBitmap h.inode_bitmap → IsFileSystem (holding disk h)
  unfolding find_group
  holding-IsFileSystem b = record {
    block_geometry = refl;
    inode_geometry = refl;
    sorted = ((λ j h. refl), tt);
    known = one_of_known;
    few = omega arith;
    bitmaps = one_of_bitmaps b;
  }

one_group-IsFileSystem : IsFileSystem one_group
one_group-IsFileSystem =
    holding-IsFileSystem (λ j. j) empty_group (zero_bitmap-IsBitmap, zero_bitmap-IsBitmap)

alloc_block-AllocatesNewBlock_example : AllocatesNewBlock one_group (alloc_block 0 one_group)
unfolding num_block_groups
alloc_block-AllocatesNewBlock_example =
    alloc_block-AllocatesNewBlock 0 one_group one_group-IsFileSystem refl (omega arith)

-- Every block of a group is allocated.
abbrev full_group : Group
full_group = record empty_group {
  bg_free_blocks_count = 0;
  block_bitmap = replicate 1024 0xffff_ffff;
}

-- 32769 inodes have made group 2 after group 0, and the blocks of both are allocated.
abbrev two_full : FileSystem ℕ
two_full = record one_group {
  super = super_of 65539 32769;
  desc_table = 0 ∷ 2 ∷ [];
  block_groups = (0, full_group) ∷ (2, full_group) ∷ [];
}

alloc_block-Empties_example : Empties 2 (alloc_block 0 two_full)
unfolding num_block_groups
alloc_block-Empties_example =
    alloc_block-Empties 0 two_full 2 refl (refl, (refl, tt)) refl (omega arith)

alloc_inode-AllocatesEither_example :
    AllocatesEither one_group 1_700_000_000 0x81a4 (alloc_inode one_group 1_700_000_000 0x81a4)
unfolding num_block_groups
alloc_inode-AllocatesEither_example =
    alloc_inode-AllocatesEither one_group 1_700_000_000 0x81a4 one_group-IsFileSystem refl
      (omega arith)

-- Block 5 is allocated.
abbrev five_group : Group
five_group = record empty_group { block_bitmap = set_bit zero_bitmap 5 }

free_block-FreesBlockOf_example :
    FreesBlockOf (one_of five_group) 5 (free_block (one_of five_group) 5)
unfolding block_allocated find_group
free_block-FreesBlockOf_example =
    free_block-FreesBlockOf (one_of five_group) 5
      (holding-IsFileSystem (λ j. j) five_group
        (set_bit-IsBitmap zero_bitmap 5 zero_bitmap-IsBitmap, zero_bitmap-IsBitmap))
      (omega arith) (test-set_bit zero_bitmap 5 5 (omega arith))
