-- ===== src/FileStatus.antt =====
-- The cursor of an open file, `FileStatus` of include/operation.h, and its moves `next_block`, `seek`
-- and `bf_seek` of src/operation/operation.cpp. A move returns 0 or -EINVAL, with the fields that it
-- had set by then.
pub mod Position
pub mod Moves
pub mod Seek
pub mod Next
pub mod Jump
use naive_fs.Base.{
  ℕ, ◌+◌, ◌-◌, ◌*◌, ◌/◌, ◌%◌, ◌^◌, Bool, true, false, ◌&&◌, leb, ◌==◌, if◌then◌else◌, Option, none,
  some, List,
}
use naive_fs.Base.Int.{ℤ, pos}
use naive_fs.Config.{block_size, neg_errno, einval}
use naive_fs.Inode.{ind_block, dind_block, tind_block}
use naive_fs.BlockTree.{Fetch, iblock_11, iblock_12, iblock_13, iblock_14, root}

-- `indirect_block_[k].id_` are the fields `indirect_k`.
pub record FileStatus : Type 0 where
  pub cache_update_flag : Bool
  pub block_id : ℕ
  pub block_id_in_file : ℕ
  pub indirect_0 : ℕ
  pub indirect_1 : ℕ
  pub indirect_2 : ℕ

-- the constructor
abbrev pub new_status : FileStatus
new_status = record {
  cache_update_flag = false;
  block_id = 0;
  block_id_in_file = 0;
  indirect_0 = 0;
  indirect_1 = 0;
  indirect_2 = 0;
}

-- `a - b - 1` on `uint32_t`
abbrev pub sub32_one : ℕ → ℕ → ℕ
sub32_one a b = (a + 2 ^ 32 - b - 1) % 2 ^ 32

abbrev pub per_block : ℕ
per_block = block_size / 4

abbrev pub ok : ℤ
ok = pos 0

abbrev pub bad : ℤ
bad = neg_errno einval

module _ (fetch : Fetch) (i_block : List ℕ) where
  -- `IndirectBlockPtr::seek`
  unfoldable pub ptr_seek : ℕ → ℕ → Option ℕ
  ptr_seek id off = elim (fetch id) [ none ↦ none | some words ↦ some (words off) ]

  -- `indirect_block_[k].seek(off, …)` into the next pointer or `block_id_`, then the rest of the move
  unfoldable pub step_0 : FileStatus → ℕ → (FileStatus → ℤ × FileStatus) → ℤ × FileStatus
  unfolding ptr_seek
  step_0 s off rest = elim (ptr_seek s.indirect_0 off) [
    | none ↦ (bad, s)
    | some id ↦ rest (record s { indirect_1 = id })
  ]

  unfoldable pub step_1 : FileStatus → ℕ → (FileStatus → ℤ × FileStatus) → ℤ × FileStatus
  unfolding ptr_seek
  step_1 s off rest = elim (ptr_seek s.indirect_1 off) [
    | none ↦ (bad, s)
    | some id ↦ rest (record s { indirect_2 = id })
  ]

  -- The last `seek` of a move, through the pointer given, into `block_id_`.
  unfoldable pub finish : FileStatus → ℕ → ℕ → ℤ × FileStatus
  unfolding ptr_seek
  finish s id off = elim (ptr_seek id off) [
    | none ↦ (bad, s)
    | some block ↦ (ok, record s { block_id = block })
  ]

  -- `bf_seek`
  unfoldable pub bf_seek : FileStatus → ℕ → ℤ × FileStatus
  unfolding step_0 step_1 finish
  bf_seek s0 new =
      let s = record s0 { block_id_in_file = new } in
      if leb new iblock_11
      then (ok, record s { block_id = root i_block new })
      else if leb new iblock_12
      then (let s1 : FileStatus = record s { indirect_0 = root i_block ind_block } in
          finish s1 s1.indirect_0 (sub32_one new iblock_11))
      else if leb new iblock_13
      then (let d = sub32_one new iblock_12 in
          step_0 (record s { indirect_0 = root i_block dind_block }) (d / per_block)
            λ s1. finish s1 s1.indirect_1 (d % per_block))
      else if leb new iblock_14
      then (let d = sub32_one new iblock_13 in
          step_0 (record s { indirect_0 = root i_block tind_block }) (d / (per_block * per_block))
            λ s1.
              step_1 s1 (d % (per_block * per_block) / per_block)
                λ s2. finish s2 s2.indirect_2 (d % per_block))
      else (bad, s)

  -- `next_block` past the direct blocks, by the level of the block that it leaves
  unfoldable pub next_in_dind : FileStatus → ℤ × FileStatus
  unfolding step_0 step_1 finish
  next_in_dind s =
      if leb s.block_id_in_file iblock_13
      then (let d = sub32_one s.block_id_in_file iblock_12 in
          if d % per_block == 0
          then step_0 s (d / per_block) (λ s1. finish s1 s1.indirect_1 0)
          else finish s s.indirect_1 (d % per_block))
      else step_0 (record s { indirect_0 = root i_block tind_block }) 0
          λ s1. step_1 s1 0 λ s2. finish s2 s2.indirect_2 0

  unfoldable pub next_in_tind : FileStatus → ℤ × FileStatus
  unfolding step_0 step_1 finish
  next_in_tind s =
      let d = sub32_one s.block_id_in_file iblock_13 in
      let first_id = d / (per_block * per_block) in
      let second_id = d % (per_block * per_block) / per_block in
      let third_id = d % per_block in
      if third_id == 0
      then (if second_id == 0
          then step_0 s first_id
              (λ s1. step_1 s1 second_id (λ s2. finish s2 s2.indirect_2 third_id))
          else step_1 s second_id (λ s2. finish s2 s2.indirect_2 third_id))
      else finish s s.indirect_2 third_id

  -- `next_block`
  unfoldable pub next_block : FileStatus → ℤ × FileStatus
  unfolding next_in_dind next_in_tind
  next_block s =
      let next = record s { block_id_in_file = s.block_id_in_file + 1 } in
      if leb s.block_id_in_file iblock_11
      then (if leb next.block_id_in_file iblock_11
          then (ok, record next { block_id = root i_block next.block_id_in_file })
          else (let s1 : FileStatus = record next { indirect_0 = root i_block ind_block } in
              finish s1 s1.indirect_0 0))
      else if leb s.block_id_in_file iblock_12
      then (if leb next.block_id_in_file iblock_12
          then finish next next.indirect_0 (sub32_one next.block_id_in_file iblock_11)
          else step_0 (record next { indirect_0 = root i_block dind_block }) 0
              λ s1. finish s1 s1.indirect_1 0)
      else if leb s.block_id_in_file iblock_13
      then next_in_dind next
      else if leb s.block_id_in_file iblock_14
      then next_in_tind next
      else (bad, s)

  -- `seek` at the double and the triple level; the offsets are those of the old and the new block
  unfoldable pub seek_in_dind : FileStatus → ℕ → ℤ × FileStatus
  seek_in_dind s new =
      let old_d = sub32_one s.block_id_in_file iblock_12 in
      let new_d = sub32_one new iblock_12 in
      let moved = record s { block_id_in_file = new } in
      if new_d / per_block == old_d / per_block && new_d % per_block == old_d % per_block
      then (ok, moved)
      else if new_d / per_block == old_d / per_block
      then finish moved moved.indirect_1 (new_d % per_block)
      else bf_seek moved new

  unfoldable pub seek_in_tind : FileStatus → ℕ → ℤ × FileStatus
  seek_in_tind s new =
      let old_d = sub32_one s.block_id_in_file iblock_13 in
      let new_d = sub32_one new iblock_13 in
      let moved = record s { block_id_in_file = new } in
      let same_first = new_d / (per_block * per_block) == old_d / (per_block * per_block) in
      let new_second = new_d % (per_block * per_block) / per_block in
      let same_second = new_second == old_d % (per_block * per_block) / per_block in
      let same_third = new_d % per_block == old_d % per_block in
      if same_first && same_second && same_third
      then (ok, moved)
      else if same_first && same_second
      then finish moved moved.indirect_2 new_second
      else if same_first
      then step_1 moved new_second (λ s2. finish s2 s2.indirect_2 new_second)
      else bf_seek moved new

  -- `seek`; it drops the result of `bf_seek` for a direct or single indirect block
  unfoldable pub seek : FileStatus → ℕ → ℤ × FileStatus
  seek s new =
      if leb new iblock_12
      then (ok, (bf_seek s new).1)
      else if leb new iblock_13
      then seek_in_dind s new
      else if leb new iblock_14
      then seek_in_tind s new
      else (ok, s)

  -- `_upd_cache`
  unfoldable pub upd_cache : FileStatus → ℤ × FileStatus
  upd_cache s =
      if s.cache_update_flag
      then bf_seek (record s { cache_update_flag = false }) s.block_id_in_file
      else (ok, s)
