-- ===== src/Tests/Offsets.antt =====
-- Positions on the disk, and the descriptors of new groups: src/block.cpp and src/filesystem.cpp.
use naive_fs.Base.{ℕ, ◌+◌, ◌≡◌, ◌↔◌, arith}
use naive_fs.Config.{num_inode_table_blocks}
use naive_fs.Inode.{Inode, zero_inode}
use naive_fs.Group.{inode_block_offset, data_block_offset}
use naive_fs.Super.{new_group}
use naive_fs.Super.Descriptors.{new_group-offsets}

abbrev zeros : ℕ → ℕ → Inode
zeros b k = zero_inode

new_group-offsets_example :
    ((data_block_offset (new_group 0 zeros) 0 ≡ data_block_offset (new_group 1 zeros) 7)
      ↔ ((◌≡◌ {A = ℕ} 0 1) × (◌≡◌ {A = ℕ} 0 7)))
    × ((data_block_offset (new_group 0 zeros) 0 ≡ inode_block_offset (new_group 1 zeros) 1023)
        ↔ ((◌≡◌ {A = ℕ} 0 1) × (◌≡◌ {A = ℕ} 0 0) × (1023 + 1 ≡ num_inode_table_blocks)))
new_group-offsets_example =
    new_group-offsets 0 1 zeros zeros 0 7 1023 (omega arith) (omega arith) (omega arith)
      (omega arith) (omega arith)
