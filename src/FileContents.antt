-- ===== src/FileContents.antt =====
-- The contents of a file: `copy_to_buf` of src/operation/operation.cpp, which reads through the cursor,
-- and `write` in a child.
pub mod Bytes
pub mod Read
pub mod Write
pub mod Ends
use naive_fs.Base.{
  ℕ, zero, suc, ◌+◌, ◌-◌, ◌/◌, ◌%◌, ◌^◌, min, Bool, true, false, ltb, leb, ◌==◌, if◌then◌else◌,
  Option, none, some, List, [], ◌++◌, bit_and,
}
use naive_fs.Base.Int.{ℤ, pos, negsuc}
use naive_fs.Config.{block_size, neg_errno, einval}
use naive_fs.BlockTree.{Fetch}
use naive_fs.FileStatus.{FileStatus, next_block, seek, upd_cache}
use naive_fs.DentryBlock.{bytes}
use naive_fs.Names.{bytes_of}

-- A `size_t` that is returned as an `int`.
unfoldable pub int_of : ℕ → ℤ
int_of n = if ltb (n % 2 ^ 32) (2 ^ 31) then pos (n % 2 ^ 32) else negsuc (2 ^ 32 - 1 - n % 2 ^ 32)

-- What is returned, the bytes stored in `buf`, and the cursor; `none` where the fuel runs out.
abbrev pub ReadResult : Type 0
ReadResult = Option ((ℤ × List ℕ) × FileStatus)

-- `if (_err_ret) return _err_ret;` after a move, and the rest
abbrev pub moved_with : List ℕ → (FileStatus → ReadResult) → ℤ × FileStatus → ReadResult
moved_with buf next (pos zero, s) = next s
moved_with buf next (err, s) = some ((err, buf), s)

module _ (fetch : Fetch) where
  -- `get_block(block_id_, &blk, false, off, buf, n)`, which copies n bytes of the block from off on
  unfoldable pub copy_bytes : ℕ → ℕ → ℕ → Option (List ℕ)
  copy_bytes b off n = elim (fetch b) [ none ↦ none | some w ↦ some (bytes (bytes_of w) off n) ]

  -- `if (!fs->get_block(…)) return -EINVAL;` and the rest
  abbrev pub copied_with :
      List ℕ → FileStatus → (List ℕ → ReadResult) → Option (List ℕ) → ReadResult
  copied_with buf s next none = some ((neg_errno einval, buf), s)
  copied_with buf s next (some bs) = next (buf ++ bs)

  module _ (i_block : List ℕ) (isize : ℕ) where
    -- The loop, on fuel; a round copies at least one byte.
    unfoldable pub read_rest : ℕ → ℕ → ℕ → ℕ → List ℕ → FileStatus → ReadResult
    read_rest zero size offset ret buf s = none
    read_rest (suc fuel) size offset ret buf s =
        let csz = min size (min (isize - offset) block_size) in
        let more =
          moved_with buf
            (λ s1.
              copied_with buf s1
                (λ buf1. read_rest fuel (size - csz) (offset + csz) (ret + csz) buf1 s1)
                (copy_bytes s1.block_id 0 csz))
            (next_block fetch i_block s) in
        if size == 0
        then some ((int_of ret, buf), s)
        else if leb isize offset
        then some ((int_of ret, buf), s)
        else more

    -- `copy_to_buf`
    unfoldable pub copy_to_buf : FileStatus → ℕ → ℕ → ReadResult
    unfolding read_rest copy_bytes
    copy_to_buf s offset size =
        let csz = min size (block_size - offset % block_size) in
        let more =
          moved_with []
            (λ s1.
              moved_with []
                (λ s2.
                  copied_with [] s2
                    (λ buf. read_rest (size + 1) (size - csz) (offset + csz) csz buf s2)
                    (copy_bytes s2.block_id (offset % block_size) csz))
                (seek fetch i_block s1 (offset / block_size)))
            (upd_cache fetch i_block s) in
        if leb isize offset then some ((pos 0, []), s) else more
