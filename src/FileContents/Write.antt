-- ===== src/FileContents/Write.antt =====
-- `FileStatus::write` of src/operation/operation.cpp, over the blocks that it writes and the allocation
-- of new ones.
use naive_fs.Base.{
  ℕ, zero, suc, ◌+◌, ◌-◌, ◌/◌, ◌%◌, ◌^◌, min, max, Bool, true, ltb, leb, ◌==◌, if◌then◌else◌,
  Option, none, some, List, length, take, drop,
}
use naive_fs.Base.Int.{ℤ, pos}
use naive_fs.Config.{block_size, neg_errno, einval, eio}
use naive_fs.Inode.{Inode}
use naive_fs.FileStatus.{FileStatus, next_block, seek, upd_cache}
use naive_fs.DentryBlock.{store_bytes}
use naive_fs.NameStore.{NameStore}
use naive_fs.InodeBlocks
use naive_fs.Names.{bytes_of}
use naive_fs.Names.Create.{words_of}
use naive_fs.FileContents.{int_of}

-- The file that is written: the copy of its inode, the cursor, and whether `upd_all` has told the other
-- cursors of this inode to look again.
pub record Writing (S : Type 0) : Type 0 where
  pub store : S
  pub inode : Inode
  pub status : FileStatus
  pub upd_all : Bool

module _ {S : Type 0} (st : NameStore S) where
  -- What `write` returns, and the file; `none` where the fuel runs out.
  abbrev pub WriteResult : Type 0
  WriteResult = Option (ℤ × Writing S)

  -- A move of the cursor, and the return code of `write` where it fails.
  abbrev pub move_with :
      (ℤ → ℤ) → Writing S → (Writing S → WriteResult) → ℤ × FileStatus → WriteResult
  move_with code f next (pos zero, s) = next (record f { status = s })
  move_with code f next (err, s) = some (code err, record f { status = s })

  -- `fs->get_block(block_id_, &blk, true, off, buf, n)`, which copies into the block and marks it
  unfoldable pub put_bytes : S → ℕ → ℕ → List ℕ → Option S
  put_bytes s b off bs = elim (st.blocks.words s b) [
    | none ↦ none
    | some w ↦
        some (st.blocks.modify (st.put_words s b (words_of (store_bytes (bytes_of w) off bs))) b)
  ]

  abbrev pub put_with : ℤ → Writing S → (Writing S → WriteResult) → Option S → WriteResult
  put_with err f next none = some (err, f)
  put_with err f next (some s) = next (record f { store = s })

  -- `if (!fs->alloc_block(&blk, &index, inode)) return …;` and the rest
  abbrev pub grow_with :
      ℤ → Writing S → (Writing S → WriteResult) → Option ℕ × (Inode × S) → WriteResult
  grow_with ret f next (none, (n, s)) = some (ret, record f { inode = n; store = s })
  grow_with ret f next (some b, (n, s)) = next (record f { inode = n; store = s })

  abbrev pub grow : ℤ → Writing S → (Writing S → WriteResult) → WriteResult
  grow ret f next = grow_with ret f next (InodeBlocks.alloc_block st.blocks f.inode f.store)

  abbrev pub fetch_of : Writing S → ℕ → Option (ℕ → ℕ)
  fetch_of f = st.blocks.words f.store

  abbrev pub with_size : Writing S → ℕ → Writing S
  with_size f n = let i = f.inode in record f { inode = record i { i_size = n % 2 ^ 32 } }

  -- The loop that appends blocks up to the offset, on fuel.
  unfoldable pub fill_gap : ℕ → ℕ → Writing S → (Writing S → WriteResult) → WriteResult
  fill_gap zero offset f next = none
  fill_gap (suc fuel) offset f next =
      let end = f.inode.i_size + block_size - f.inode.i_size % block_size in
      let more = grow (pos 0) f λ f1.
        fill_gap fuel offset
          (with_size f1 (f1.inode.i_size + (block_size - f1.inode.i_size % block_size))) next in
      if ltb (end % 2 ^ 32) offset then more else next f

  -- `inode_cache_->cache_->i_size = max(i_size, offset)`
  abbrev pub at_least : Writing S → ℕ → Writing S
  at_least f offset = with_size f (max f.inode.i_size offset)

  -- `upd_all`, which also tells this cursor
  abbrev pub told : Writing S → Writing S
  told f =
      let s = f.status in
      record f { status = record s { cache_update_flag = true }; upd_all = true }

  -- The loop over the blocks behind the first one, where the file grows, on fuel.
  unfoldable pub write_rest : ℕ → List ℕ → ℕ → ℕ → Writing S → WriteResult
  write_rest zero buf offset ret f = none
  write_rest (suc fuel) buf offset ret f =
      let csz = min (length buf) block_size in
      let step : Writing S → WriteResult = λ f1.
        move_with (λ _. neg_errno eio) f1
          (λ f2.
            put_with (neg_errno eio) f2
              (λ f3.
                write_rest fuel (drop csz buf) (offset + csz) (ret + csz)
                  (at_least f3 (offset + csz)))
              (put_bytes f2.store f2.status.block_id 0 (take csz buf)))
          (next_block (fetch_of f1) f1.inode.i_block f1.status) in
      if length buf == 0
      then some (int_of ret, told f)
      else if leb f.inode.i_size offset
      then grow (int_of ret) f step
      else step f

  -- The first piece, up to the end of its block, and the rest.
  abbrev pub write_first : Writing S → List ℕ → ℕ → (ℕ → Writing S → WriteResult) → WriteResult
  write_first f buf offset rest =
      let csz = min (length buf) (block_size - offset % block_size) in
      move_with (λ err. err) f
        (λ f1.
          put_with (neg_errno einval) f1 (rest csz)
            (put_bytes f1.store f1.status.block_id (offset % block_size) (take csz buf)))
        (seek (fetch_of f) f.inode.i_block f.status (offset / block_size % 2 ^ 32))

  -- The loop where the file does not grow, on fuel.
  unfoldable pub overwrite_rest : ℕ → List ℕ → ℕ → ℕ → ℕ → Writing S → WriteResult
  overwrite_rest zero buf offset isize ret f = none
  overwrite_rest (suc fuel) buf offset isize ret f =
      let csz = min (length buf) block_size in
      let more =
        move_with (λ err. err) f
          (λ f1.
            put_with (neg_errno einval) f1
              (overwrite_rest fuel (drop csz buf) (offset + csz) isize (ret + csz))
              (put_bytes f1.store f1.status.block_id 0 (take csz buf)))
          (next_block (fetch_of f) f.inode.i_block f.status) in
      if length buf == 0
      then some (int_of ret, f)
      else if leb isize offset
      then some (int_of ret, f)
      else more

  -- `write` where the file grows
  unfoldable pub write_growing : List ℕ → ℕ → Writing S → WriteResult
  unfolding fill_gap write_rest put_bytes
  write_growing buf offset f =
      let write_at : Writing S → WriteResult = λ f1. write_first f1 buf offset λ csz f2.
        write_rest (length buf + 1) (drop csz buf) (offset + csz) csz
          (at_least f2 (offset + csz)) in
      fill_gap (offset / block_size + 2) offset f
        λ f1. if f1.inode.i_size % block_size == 0 then grow (pos 0) f1 write_at else write_at f1

  -- `write` where it does not
  unfoldable pub overwrite : List ℕ → ℕ → Writing S → WriteResult
  unfolding overwrite_rest put_bytes
  overwrite buf offset f =
      write_first f buf offset λ csz f1.
        overwrite_rest (length buf + 1) (drop csz buf) (offset + csz) f.inode.i_size csz f1

  -- `write`
  unfoldable pub write : List ℕ → ℕ → Bool → Writing S → WriteResult
  write buf offset append f =
      move_with (λ err. err) f
        (λ f1.
          let start = if append then f1.inode.i_size else offset in
          if ltb f1.inode.i_size (start + length buf)
          then write_growing buf start f1
          else overwrite buf start f1)
        (upd_cache (fetch_of f) f.inode.i_block f.status)
