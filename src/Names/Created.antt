-- ===== src/Names/Created.antt =====
-- `inode_create` on the file system itself.
use naive_fs.Base.{ℕ, ◌^◌, ◌<◌, ◌≡◌, ◌≢◌, Option, none, some, List}
use naive_fs.Inode.{Inode}
use naive_fs.Group
use naive_fs.FilePath.{FilePath}
use naive_fs.DentryCache.{DentryCache}
use naive_fs.NameStore.System.{Disk, name_store}
use naive_fs.Names.{Outcome, ok}
use naive_fs.Names.Create
use naive_fs.Names.Create.{Tree}
use naive_fs.Names.Entry.{find_in}

-- A result that fits into 32 bits, with the cache and the disk as before.
abbrev Untouched : Disk → Option ℕ × Disk → Type 0
Untouched fs (none, fs') = (fs'.block_cache ≡ fs.block_cache) × (fs'.disk ≡ fs.disk)
Untouched fs (some i, fs') =
    (i < 2 ^ 32) × (fs'.block_cache ≡ fs.block_cache) × (fs'.disk ≡ fs.disk)

-- What `inode_create` is to do in the directory n of the state s.
abbrev pub Makes : ℕ → Disk → Inode → List ℕ → ℕ → Outcome ℕ × Tree Disk → Type 0
Makes now s n name mode (r, t') =
    (i : ℕ) × ((r ≡ ok i)
      × ((m : Inode) × ((find_in (name_store now) t'.store n name ≡ some (i, m))
            × (m.i_mode ≡ mode)))
      × ((other : List ℕ) (j : ℕ) (m : Inode)
          → name ≢ other
          → j ≢ i
          → find_in (name_store now) s n other ≡ some (j, m)
          → find_in (name_store now) t'.store n other ≡ some (j, m)))
