-- ===== src/FileContents/Ends.antt =====
-- `write` ends.
use naive_fs.Base.{
  ℕ, zero, suc, ◌+◌, ◌-◌, ◌/◌, ◌%◌, ◌^◌, ◌≤◌, ◌<◌, ◌≡◌, ◌≢◌, refl, sym, ◌∙◌, min, Bool, true, false,
  ltb, leb, ◌==◌, if◌then◌else◌, Option, none, some, List, length, length-drop, take, drop, arith,
  ℕ_discrete, dec_lt, none_ne_some,
}
use naive_fs.Base.Int.{ℤ, pos, negsuc}
use naive_fs.Config.{block_size, neg_errno, eio, einval}
use naive_fs.Inode.{Inode}
use naive_fs.FileStatus.{FileStatus, next_block, seek, upd_cache}
use naive_fs.NameStore.{NameStore}
use naive_fs.InodeBlocks
use naive_fs.InodeBlocks.Size.{i_size-alloc_block}
use naive_fs.FileContents.{int_of}
use naive_fs.FileContents.Write.{
  Writing, WriteResult, move_with, put_bytes, put_with, grow_with, grow, fetch_of, with_size,
  fill_gap, at_least, write_rest, told, write_first, overwrite_rest, write_growing, overwrite,
  write,
}

module _ {S : Type 0} (st : NameStore S) where
  -- A call that returns.
  abbrev pub Ends : WriteResult st → Type 0
  Ends r = r ≢ none

  returned : (ret : ℤ) (f : Writing S) → Ends (some (ret, f))
  returned ret f e = none_ne_some (sym e)

  move_with-Ends :
      (code : ℤ → ℤ) (f : Writing S) (next : Writing S → WriteResult st) (r : ℤ × FileStatus)
      → ((s : FileStatus) → Ends (next (record f { status = s })))
      → Ends (move_with st code f next r)
  move_with-Ends code f next (pos zero, s) h = h s
  move_with-Ends code f next (pos (suc k), s) h =
      returned (code (pos (suc k))) (record f { status = s })
  move_with-Ends code f next (negsuc k, s) h = returned (code (negsuc k)) (record f { status = s })

  put_with-Ends :
      (err : ℤ) (f : Writing S) (next : Writing S → WriteResult st) (r : Option S)
      → ((s : S) → Ends (next (record f { store = s })))
      → Ends (put_with st err f next r)
  put_with-Ends err f next none h = returned err f
  put_with-Ends err f next (some s) h = h s

  -- More blocks do not change the size.
  grow_with-Ends :
      (ret : ℤ) (f : Writing S) (next : Writing S → WriteResult st) (r : Option ℕ × (Inode × S))
      → ((n : Inode) (s : S)
          → n.i_size ≡ r.1.0.i_size
          → Ends (next (record f { inode = n; store = s })))
      → Ends (grow_with st ret f next r)
  grow_with-Ends ret f next (none, (n, s)) h = returned ret (record f { inode = n; store = s })
  grow_with-Ends ret f next (some b, (n, s)) h = h n s refl

  grow-Ends :
      (ret : ℤ) (f : Writing S) (next : Writing S → WriteResult st)
      → ((n : Inode) (s : S)
          → n.i_size ≡ f.inode.i_size
          → Ends (next (record f { inode = n; store = s })))
      → Ends (grow st ret f next)
  grow-Ends ret f next h =
      grow_with-Ends ret f next (InodeBlocks.alloc_block st.blocks f.inode f.store)
        λ n s e. h n s (e ∙ i_size-alloc_block st.blocks f.inode f.store)

  choice-Ends : (b : Bool) (x y : WriteResult st) → Ends x → Ends y → Ends (if b then x else y)
  choice-Ends true x y p q = p
  choice-Ends false x y p q = q

  -- Each round copies at least one byte.
  shorter :
      (buf : List ℕ) (fuel : ℕ)
      → length buf < suc fuel
      → length buf ≢ 0
      → length (drop (min (length buf) block_size) buf) < fuel
  shorter buf fuel h ne = omega (arith, h, ne, length-drop (min (length buf) block_size) buf)

  write_rest-Ends :
      (fuel : ℕ) (buf : List ℕ) (offset ret : ℕ) (f : Writing S)
      → length buf < fuel
      → Ends (write_rest st fuel buf offset ret f)
  unfolding write_rest
  write_rest-Ends zero buf offset ret f h = absurd (omega arith)
  write_rest-Ends (suc fuel) buf offset ret f h = elim (ℕ_discrete (length buf) 0) [
    | yes e ↦
        let t : (length buf == 0) ≡ true = ground arith in rw t (returned (int_of ret) (told st f))
    | no ne ↦
        let t : (length buf == 0) ≡ false = ground arith in
        let csz = min (length buf) block_size in
        let later : Writing S → WriteResult st = λ f3.
          write_rest st fuel (drop csz buf) (offset + csz) (ret + csz)
            (at_least st f3 (offset + csz)) in
        let put : Writing S → WriteResult st = λ f2.
          put_with st (neg_errno eio) f2 later
            (put_bytes st f2.store f2.status.block_id 0 (take csz buf)) in
        let step : Writing S → WriteResult st = λ f1.
          move_with st (λ _. neg_errno eio) f1 put
            (next_block (fetch_of st f1) f1.inode.i_block f1.status) in
        let goes_on : (f1 : Writing S) → Ends (step f1) = λ f1.
          move_with-Ends (λ _. neg_errno eio) f1 put
            (next_block (fetch_of st f1) f1.inode.i_block f1.status)
            λ s.
              put_with-Ends (neg_errno eio) (record f1 { status = s }) later
                (put_bytes st f1.store s.block_id 0 (take csz buf))
                λ s2.
                  write_rest-Ends fuel (drop csz buf) (offset + csz) (ret + csz)
                    (at_least st (record f1 { status = s; store = s2 }) (offset + csz))
                    (shorter buf fuel h ne) in
        rw t (
          choice-Ends (leb f.inode.i_size offset) (grow st (int_of ret) f step) (step f)
            (grow-Ends (int_of ret) f step (λ n s _. goes_on (record f { inode = n; store = s })))
            (goes_on f))
  ]

  overwrite_rest-Ends :
      (fuel : ℕ) (buf : List ℕ) (offset isize ret : ℕ) (f : Writing S)
      → length buf < fuel
      → Ends (overwrite_rest st fuel buf offset isize ret f)
  unfolding overwrite_rest
  overwrite_rest-Ends zero buf offset isize ret f h = absurd (omega arith)
  overwrite_rest-Ends (suc fuel) buf offset isize ret f h = elim (ℕ_discrete (length buf) 0) [
    | yes e ↦ let t : (length buf == 0) ≡ true = ground arith in rw t (returned (int_of ret) f)
    | no ne ↦
        let t : (length buf == 0) ≡ false = ground arith in
        let csz = min (length buf) block_size in
        let later : Writing S → WriteResult st =
          overwrite_rest st fuel (drop csz buf) (offset + csz) isize (ret + csz) in
        let put : Writing S → WriteResult st = λ f1.
          put_with st (neg_errno einval) f1 later
            (put_bytes st f1.store f1.status.block_id 0 (take csz buf)) in
        let r = next_block (fetch_of st f) f.inode.i_block f.status in
        rw t (
          choice-Ends (leb isize offset) (some (int_of ret, f)) (move_with st (λ err. err) f put r)
            (returned (int_of ret) f)
            (move_with-Ends (λ err. err) f put r
              λ s.
                put_with-Ends (neg_errno einval) (record f { status = s }) later
                  (put_bytes st f.store s.block_id 0 (take csz buf))
                  λ s2.
                    overwrite_rest-Ends fuel (drop csz buf) (offset + csz) isize (ret + csz)
                      (record f { status = s; store = s2 }) (shorter buf fuel h ne)))
  ]

  write_first-Ends :
      (f : Writing S) (buf : List ℕ) (offset : ℕ) (rest : ℕ → Writing S → WriteResult st)
      → ((g : Writing S) → Ends (rest (min (length buf) (block_size - offset % block_size)) g))
      → Ends (write_first st f buf offset rest)
  write_first-Ends f buf offset rest h =
      let csz = min (length buf) (block_size - offset % block_size) in
      let put : Writing S → WriteResult st = λ f1.
        put_with st (neg_errno einval) f1 (rest csz)
          (put_bytes st f1.store f1.status.block_id (offset % block_size) (take csz buf)) in
      move_with-Ends (λ err. err) f put
        (seek (fetch_of st f) f.inode.i_block f.status (offset / block_size % 2 ^ 32))
        λ s.
          put_with-Ends (neg_errno einval) (record f { status = s }) (rest csz)
            (put_bytes st f.store s.block_id (offset % block_size) (take csz buf))
            λ s2. h (record f { status = s; store = s2 })

  left_over : (buf : List ℕ) (n : ℕ) → length (drop n buf) < length buf + 1
  left_over buf n = omega (arith, length-drop n buf)

  overwrite-Ends : (buf : List ℕ) (offset : ℕ) (f : Writing S) → Ends (overwrite st buf offset f)
  unfolding overwrite
  overwrite-Ends buf offset f =
      write_first-Ends f buf offset
        (λ csz f1.
          overwrite_rest st (length buf + 1) (drop csz buf) (offset + csz) f.inode.i_size csz f1)
        (λ g.
          overwrite_rest-Ends (length buf + 1) (drop _ buf) _ f.inode.i_size _ g (left_over buf _))

  -- A round of the gap goes on to the next block.
  fill_gap-Ends :
      (fuel offset : ℕ) (f : Writing S) (next : Writing S → WriteResult st)
      → offset + block_size ≤ 2 ^ 32
      → f.inode.i_size + block_size < 2 ^ 32
      → offset / block_size + 1 - f.inode.i_size / block_size < fuel
      → ((g : Writing S) → Ends (next g))
      → Ends (fill_gap st fuel offset f next)
  unfolding fill_gap
  fill_gap-Ends zero offset f next o i h n = absurd (omega arith)
  fill_gap-Ends (suc fuel) offset f next o i h n =
      let size = f.inode.i_size in
      let end = size + block_size - size % block_size in
      elim (dec_lt (end % 2 ^ 32) offset) [
        | no past ↦ let t : ltb (end % 2 ^ 32) offset ≡ false = ground arith in rw t (n f)
        | yes gap ↦
            let t : ltb (end % 2 ^ 32) offset ≡ true = ground arith in
            let more : Writing S → WriteResult st = λ f1.
              fill_gap st fuel offset
                (with_size st f1 (f1.inode.i_size + (block_size - f1.inode.i_size % block_size)))
                next in
            rw t (
              grow-Ends (pos 0) f more λ m s same.
                fill_gap-Ends fuel offset
                  (with_size st (record f { inode = m; store = s })
                    (m.i_size + (block_size - m.i_size % block_size)))
                  next o (omega (arith, o, i, gap, same)) (omega (arith, o, i, gap, h, same)) n)
      ]

  write_growing-Ends :
      (buf : List ℕ) (offset : ℕ) (f : Writing S)
      → offset + block_size ≤ 2 ^ 32
      → f.inode.i_size + block_size < 2 ^ 32
      → Ends (write_growing st buf offset f)
  unfolding write_growing
  write_growing-Ends buf offset f o i =
      let csz = min (length buf) (block_size - offset % block_size) in
      let rest : ℕ → Writing S → WriteResult st = λ n f2.
        write_rest st (length buf + 1) (drop n buf) (offset + n) n (at_least st f2 (offset + n)) in
      let write_at : Writing S → WriteResult st = λ f1. write_first st f1 buf offset rest in
      let ends : (f1 : Writing S) → Ends (write_at f1) = λ f1.
        write_first-Ends f1 buf offset rest λ g.
          write_rest-Ends (length buf + 1) (drop csz buf) (offset + csz) csz
            (at_least st g (offset + csz)) (left_over buf csz) in
      fill_gap-Ends (offset / block_size + 2) offset f
        (λ f1.
          if f1.inode.i_size % block_size == 0 then grow st (pos 0) f1 write_at else write_at f1)
        o i (omega arith)
        λ f1.
          choice-Ends (f1.inode.i_size % block_size == 0) (grow st (pos 0) f1 write_at)
            (write_at f1)
            (grow-Ends (pos 0) f1 write_at (λ n s _. ends (record f1 { inode = n; store = s })))
            (ends f1)

  -- `write` ends on every store, whatever it finds there and whichever step fails, and whether or not
  -- it appends, where the offset is at most, and the size of the file below, 2^32 less a block: the
  -- rounds of its loops that the model allows are enough.
  pub write-Ends :
      (buf : List ℕ) (offset : ℕ) (append : Bool) (f : Writing S)
      → offset + block_size ≤ 2 ^ 32
      → f.inode.i_size + block_size < 2 ^ 32
      → Ends (write st buf offset append f)
  unfolding write
  write-Ends buf offset append f o i =
      let next : Writing S → WriteResult st = λ f1.
        let start = if append then f1.inode.i_size else offset in
        if ltb f1.inode.i_size (start + length buf)
        then write_growing st buf start f1
        else overwrite st buf start f1 in
      move_with-Ends (λ err. err) f next (upd_cache (fetch_of st f) f.inode.i_block f.status)
        λ s.
          let f1 = record f { status = s } in
          let start = if append then f.inode.i_size else offset in
          let low : start + block_size ≤ 2 ^ 32 = ground (arith, o, i) in
          choice-Ends (ltb f.inode.i_size (start + length buf)) (write_growing st buf start f1)
            (overwrite st buf start f1) (write_growing-Ends buf start f1 low i)
            (overwrite-Ends buf start f1)
