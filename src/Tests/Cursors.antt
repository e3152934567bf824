-- ===== src/Tests/Cursors.antt =====
-- The cursor of an open file: src/operation/operation.cpp.
use naive_fs.Base.{ℕ, ◌+◌, ◌%◌, ◌/◌, ◌*◌, ◌≡◌, refl, inl, inr, arith, some, none, List, replicate}
use naive_fs.BlockTree.{Fetch, locate, walk}
use naive_fs.FileStatus.{
  FileStatus, new_status, bf_seek, next_block, seek, ok, per_block, finish, ptr_seek, step_0,
  step_1,
}
use naive_fs.FileStatus.Position.{At, MovesTo, offset_3, seek_at}
use naive_fs.FileStatus.Seek.{bf_seek-MovesTo}
use naive_fs.FileStatus.Next.{next_block-MovesTo}
use naive_fs.FileStatus.Jump.{seek-At, seek_missing, seek_triple_slip}

-- every block can be got, and the entry at k of block b is b + k + 1
abbrev pub all_blocks : Fetch
all_blocks b = some (λ k. b + k + 1)

abbrev no_blocks : Fetch
no_blocks b = none

abbrev pub roots : List ℕ
roots = replicate 15 5

bf_seek-MovesTo_example : MovesTo all_blocks roots 3000 (bf_seek all_blocks roots new_status 3000)
bf_seek-MovesTo_example = bf_seek-MovesTo all_blocks roots new_status 3000 (omega arith)

-- a cursor at a block that exists
bf_seek_found :
    (n : ℕ)
    → MovesTo all_blocks roots n (bf_seek all_blocks roots new_status n)
    → (bf_seek all_blocks roots new_status n).0 ≡ ok
    → At all_blocks roots n (bf_seek all_blocks roots new_status n).1
bf_seek_found n (inl m) e = m.1
bf_seek_found n (inr m) e = absurd (ground (arith, m.0))

abbrev at_direct : FileStatus
at_direct = (bf_seek all_blocks roots new_status 11).1

at_direct-At : At all_blocks roots 11 at_direct
unfolding bf_seek
at_direct-At = bf_seek_found 11 (bf_seek-MovesTo all_blocks roots new_status 11 (omega arith)) refl

next_block-MovesTo_example : MovesTo all_blocks roots 12 (next_block all_blocks roots at_direct)
next_block-MovesTo_example =
    next_block-MovesTo all_blocks roots 11 at_direct (omega arith) at_direct-At

seek-At_example :
    ((seek all_blocks roots at_direct 3000).0 ≡ ok)
    × At all_blocks roots 3000 (seek all_blocks roots at_direct 3000).1
unfolding locate walk
seek-At_example =
    seek-At all_blocks roots 11 3000 _ at_direct (omega arith) (omega arith) at_direct-At refl

seek_missing_example :
    ((seek no_blocks roots new_status 12).0 ≡ ok)
    × ((seek no_blocks roots new_status 12).1.block_id_in_file ≡ 12)
    × ((seek no_blocks roots new_status 12).1.block_id ≡ 0)
unfolding locate walk
seek_missing_example = seek_missing no_blocks roots 12 new_status (omega arith) (omega arith) refl

abbrev at_triple : FileStatus
at_triple = (bf_seek all_blocks roots new_status 1050000).1

at_triple-At : At all_blocks roots 1050000 at_triple
unfolding bf_seek finish ptr_seek step_0 step_1
at_triple-At =
    bf_seek_found 1050000 (bf_seek-MovesTo all_blocks roots new_status 1050000 (omega arith)) refl

seek_triple_slip_example :
    (locate all_blocks roots 1050001
      ≡ seek_at all_blocks roots at_triple.indirect_2 (offset_3 1050001 % per_block))
    × (seek all_blocks roots at_triple 1050001
        ≡ finish all_blocks roots
            (record at_triple { block_id_in_file = 1050001 })
            at_triple.indirect_2
            (offset_3 1050001 % (per_block * per_block) / per_block))
seek_triple_slip_example =
    seek_triple_slip all_blocks roots 1050000 1050001 at_triple at_triple-At (omega arith)
      (omega arith) (omega arith) (omega arith) (omega arith) (omega arith)
