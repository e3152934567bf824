-- ===== src/Group/Offsets.antt =====
-- Where a group's blocks stand on the disk.
use naive_fs.Base.{ℕ, ◌+◌, ◌*◌, ◌≡◌}
use naive_fs.Config.{block_size, max_block_group_size}
use naive_fs.Group.{Group}

-- The bitmaps of group k stand after the k groups before it, each as large as a group can be.
abbrev pub StandsAt : ℕ → Group → Type 0
StandsAt k g = g.bg_block_bitmap ≡ k * max_block_group_size + 2 * block_size
