-- ===== src/Tests/Created.antt =====
-- A file that is made in a directory of a concrete file system: src/filesystem.cpp.
use naive_fs.Base.{true, ◌&&◌, ◌==◌, if◌then◌else◌, [], ◌∷◌}
use naive_fs.Bitmap.{set_bit}
use naive_fs.Bitmap.Alloc.{zero_bitmap}
use naive_fs.Inode.{zero_inode, s_ifreg}
use naive_fs.Group.{Group}
use naive_fs.Group
use naive_fs.FilePath.{FilePath}
use naive_fs.DentryCache.{new_cache}
use naive_fs.DentryBlock.Encoding.{block_of}
use naive_fs.DentryBlock.Append.{new_dentry}
use naive_fs.NameStore.System.{Disk}
use naive_fs.Names.Create
use naive_fs.Names.Create.{Tree, words_of}
use naive_fs.Tests.Groups.{empty_group}
use naive_fs.Tests.Systems.{holding}
use naive_fs.Tests.Names.{directory, file}

-- Inode 0 is a directory with block 7, which has the file f, inode 1.
abbrev group : Group
group = record empty_group {
  bg_free_blocks_count = 32767;
  bg_free_inodes_count = 32766;
  bg_used_dirs_count = 1;
  block_bitmap = set_bit zero_bitmap 7;
  inode_bitmap = set_bit (set_bit zero_bitmap 0) 1;
  inode_table = λ b k.
      if (b == 0) && (k == 0) then directory else if (b == 0) && (k == 1) then file else zero_inode;
}

abbrev disk : Disk
disk =
    holding
      (λ b. if b == 7 then words_of (block_of (new_dentry (b'f' ∷ []) 1 s_ifreg ∷ [])) else λ k. 0)
      group

abbrev path_g : FilePath
path_g = record { valid = true; name_list = (b'g' ∷ []) ∷ [] }

abbrev tree : Tree Disk
tree = record { store = disk; dentry_cache = new_cache }
