-- ===== src/Tests/Contents.antt =====
-- The contents of a file: src/operation/operation.cpp.
use naive_fs.Base.{
  ℕ, zero, suc, ◌≤◌, ◌<◌, ◌≡◌, refl, min, true, false, ◌==◌, if◌then◌else◌, arith, none, some, List,
  [], ◌∷◌, replicate,
}
use naive_fs.Base.Int.{pos}
use naive_fs.BlockTree.{Fetch}
use naive_fs.FileStatus.{FileStatus, new_status, upd_cache, bf_seek}
use naive_fs.FileStatus.Position.{locate_direct}
use naive_fs.FileStatus.Seek.{At-direct}
use naive_fs.DentryBlock.{bytes}
use naive_fs.FileContents.{copy_to_buf}
use naive_fs.Inode.{zero_inode}
use naive_fs.FileContents.Write.{Writing, write}
use naive_fs.FileContents.Ends.{Ends, write-Ends}
use naive_fs.Tests.Names.{Small, small, tree}
use naive_fs.FileContents.Bytes.{file_byte}
use naive_fs.FileContents.Read.{IsWhole, Stands, read_size, copy_to_buf_lem}

-- Two blocks, 5 and 6, of ones and of twos; the file ends in the second one.
abbrev blocks : Fetch
blocks b = if b == 5 then some (λ k. 0x1010101) else if b == 6 then some (λ k. 0x2020202) else none

abbrev i_block : List ℕ
i_block = 5 ∷ 6 ∷ replicate 13 0

abbrev fresh : FileStatus
fresh = record new_status { cache_update_flag = true }

two_blocks : IsWhole blocks i_block 5000
two_blocks zero h =
    (omega arith, 5, (λ k. 0x1010101), (locate_direct blocks i_block 0 (omega arith), refl))
two_blocks (suc zero) h =
    (omega arith, 6, (λ k. 0x2020202), (locate_direct blocks i_block 1 (omega arith), refl))
two_blocks (suc (suc n)) h = absurd (omega (arith, h))

fresh_ready : (upd_cache blocks i_block fresh).0 ≡ pos 0
unfolding upd_cache bf_seek
fresh_ready = refl

fresh-Stands : Stands blocks i_block 5000 (upd_cache blocks i_block fresh).1
unfolding upd_cache bf_seek
fresh-Stands = (0, omega arith, At-direct blocks i_block 0 _ (omega arith) refl refl)

copy_to_buf_lem_example :
    let result = copy_to_buf blocks i_block 5000 fresh 4000 2000 in
    let n = read_size blocks i_block 5000 4000 2000 in
    (5000 ≤ 4000 → result ≡ some ((pos 0, []), fresh))
    × (4000 < 5000
        → (n ≤ 2000)
          × (min 2000 1000 ≤ n)
          × (s' : FileStatus) × (result
              ≡ some ((pos n, bytes (file_byte blocks i_block) 4000 n), s'))
          × Stands blocks i_block 5000 s')
copy_to_buf_lem_example =
    copy_to_buf_lem blocks i_block 5000 fresh 4000 2000 two_blocks fresh_ready fresh-Stands
      (omega arith)

-- An empty file in a store, to which three bytes are written behind a gap.
abbrev empty_file : Writing Small
empty_file = record { store = tree.store; inode = zero_inode; status = fresh; upd_all = false }

write-Ends_example : Ends small (write small (1 ∷ 2 ∷ 3 ∷ []) 10000 false empty_file)
write-Ends_example =
    write-Ends small (1 ∷ 2 ∷ 3 ∷ []) 10000 false empty_file (omega arith) (omega arith)
