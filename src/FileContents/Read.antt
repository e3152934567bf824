-- ===== src/FileContents/Read.antt =====
-- `copy_to_buf` reads the bytes of the file.
use naive_fs.Base.{
  ℕ, zero, suc, ◌+◌, ◌-◌, ◌*◌, ◌/◌, ◌%◌, ◌^◌, ◌≤◌, ◌<◌, ◌≡◌, ◌≢◌, refl, sym, ap, subst, ◌∙◌, min,
  true, false, ltb, leb, ◌==◌, none, some, List, [], ◌++◌, arith, ℕ_discrete, dec_le, inl, inr,
  none_ne_some,
}
use naive_fs.Base.Int.{ℤ, pos, negsuc}
use mathlib.Core.List.{append-nil, append_assoc}
use naive_fs.Config.{block_size}
use naive_fs.BlockTree.{Fetch, iblock_13}
use naive_fs.FileStatus.{FileStatus, next_block, seek, upd_cache}
use naive_fs.FileStatus.Position.{At}
use naive_fs.FileStatus.Next.{next_block-MovesTo}
use naive_fs.FileStatus.Jump.{seek-At}
use naive_fs.DentryBlock.{bytes}
use naive_fs.FileContents.{
  int_of, ReadResult, moved_with, copy_bytes, copied_with, read_rest, copy_to_buf,
}
use naive_fs.FileContents.Bytes.{bytes-add, BlockIs, file_byte, bytes-block}

moved_with-ok :
    (buf : List ℕ) (next : FileStatus → ReadResult) (r : ℤ × FileStatus)
    → r.0 ≡ pos 0
    → moved_with buf next r ≡ next r.1
moved_with-ok buf next (pos zero, s) e = refl
moved_with-ok buf next (pos (suc n), s) e = absurd (let no : ⊥ = cc in no)
moved_with-ok buf next (negsuc n, s) e = absurd (let no : ⊥ = cc in no)

module _ (fetch : Fetch) (i_block : List ℕ) (isize : ℕ) where
  -- Every block of a file of this size is found and can be read, and no triple indirect block is
  -- needed.
  abbrev pub IsWhole : Type 0
  IsWhole =
      (n : ℕ)
      → n * block_size < isize
      → (n ≤ iblock_13) × (b : ℕ) × (w : ℕ → ℕ) × BlockIs fetch i_block n b w

  -- A cursor that stands at a block.
  abbrev pub Stands : FileStatus → Type 0
  Stands s = (o : ℕ) × (o ≤ iblock_13) × At fetch i_block o s

  -- The n bytes of the file from a place on follow what is in the buffer, and are counted.
  abbrev pub Reads : ℕ → ℕ → ℕ → List ℕ → ReadResult → Type 0
  Reads n offset ret buf r =
      (s : FileStatus) × (r
        ≡ some ((int_of (ret + n), buf ++ bytes (file_byte fetch i_block) offset n), s))
      × Stands s

  copied_lem :
      (n off size : ℕ) (s : FileStatus) (buf : List ℕ) (next : List ℕ → ReadResult)
      → IsWhole
      → n * block_size < isize
      → At fetch i_block n s
      → off + size ≤ block_size
      → copied_with fetch buf s next (copy_bytes fetch s.block_id off size)
        ≡ next (buf ++ bytes (file_byte fetch i_block) (n * block_size + off) size)
  unfolding copy_bytes
  copied_lem n off size s buf next whole h at fits =
      let (_, b, w, (e, f)) = whole n h in
      let same : some b ≡ some s.block_id = sym e ∙ at.found in
      let g : fetch s.block_id ≡ some w =
        ap (λ o. elim o [ none ↦ none | some x ↦ fetch x ]) (sym same) ∙ f in
      let piece = bytes-block fetch i_block n b off size w (e, f) fits in
      rw (g, copy_bytes) (ap (λ l. next (buf ++ l)) piece)

  -- Nothing more is read.
  nothing :
      (n offset ret : ℕ) (buf : List ℕ) (s : FileStatus)
      → n ≡ 0
      → Stands s
      → Reads n offset ret buf (some ((int_of ret, buf), s))
  nothing n offset ret buf s e at = (
    s,
    ap (λ k. some ((int_of k, buf), s)) (let k : ret ≡ ret + n = omega (arith, e) in k)
        ∙ ap (λ l. some ((int_of (ret + n), l), s))
            (sym (append-nil buf)
              ∙ ap (λ k. buf ++ bytes (file_byte fetch i_block) offset k) (sym e)),
    at,
  )

  -- The next block of a whole file.
  next_lem :
      (o : ℕ) (s : FileStatus)
      → IsWhole
      → o ≤ iblock_13
      → At fetch i_block o s
      → (o + 1) * block_size < isize
      → ((next_block fetch i_block s).0 ≡ pos 0)
        × At fetch i_block (o + 1) (next_block fetch i_block s).1
  next_lem o s whole low at h = elim (next_block-MovesTo fetch i_block o s (omega arith) at) [
    | inl there ↦ there
    | inr (_, missing, _) ↦
        let (_, b, w, (e, f)) = whole (o + 1) h in absurd (none_ne_some (sym missing ∙ e))
  ]

  -- A piece and what comes after it.
  Reads-more :
      (k n m offset ret : ℕ) (buf : List ℕ) (r : ReadResult)
      → k + n ≡ m
      → Reads n (offset + k) (ret + k) (buf ++ bytes (file_byte fetch i_block) offset k) r
      → Reads m offset ret buf r
  Reads-more k n m offset ret buf r e (s, q, at) =
      let f = file_byte fetch i_block in
      (
        s,
        q
            ∙ ap (λ j. some ((int_of j, (buf ++ bytes f offset k) ++ bytes f (offset + k) n), s))
                (let j : ret + k + n ≡ ret + m = omega (arith, e) in j)
            ∙ ap (λ l. some ((int_of (ret + m), l), s))
                (append_assoc buf (bytes f offset k) (bytes f (offset + k) n)
                  ∙ ap (λ l. buf ++ l) (sym (bytes-add f offset k n) ∙ ap (bytes f offset) e)),
        at,
      )

  -- The loop from the start of the block after the one where the cursor stands, or at its end.
  read_rest-Reads :
      (fuel size offset ret : ℕ) (buf : List ℕ) (s : FileStatus) (o : ℕ)
      → IsWhole
      → size < fuel
      → o ≤ iblock_13
      → At fetch i_block o s
      → (size ≢ 0 → offset < isize → offset ≡ (o + 1) * block_size)
      → Reads
          (min size (isize - offset))
          offset
          ret
          buf
          (read_rest fetch i_block isize fuel size offset ret buf s)
  unfolding read_rest
  read_rest-Reads zero size offset ret buf s o whole enough low at aligned = absurd (omega arith)
  read_rest-Reads (suc fuel) size offset ret buf s o whole enough low at aligned =
      elim (ℕ_discrete size 0) [
        | yes e ↦
            let t : (size == 0) ≡ true = ground arith in
            rw t
              (nothing (min size (isize - offset)) offset ret buf s (omega (arith, e)) (o, low, at))
        | no ne ↦
            let t : (size == 0) ≡ false = ground arith in
            elim (dec_le isize offset) [
              | yes past ↦
                  let u : leb isize offset ≡ true = ground arith in
                  rw (t, u)
                    (nothing (min size (isize - offset)) offset ret buf s (omega (arith, past))
                      (o, low, at))
              | no within ↦
                  let u : leb isize offset ≡ false = ground arith in
                  let csz = min size (min (isize - offset) block_size) in
                  let here = aligned ne (omega (arith, within)) in
                  let inside : (o + 1) * block_size < isize = omega (arith, within, here) in
                  let (moved, at1) = next_lem o s whole low at inside in
                  let low1 = (whole (o + 1) inside).0 in
                  let s1 = (next_block fetch i_block s).1 in
                  let next : List ℕ → ReadResult = λ b.
                    read_rest fetch i_block isize fuel (size - csz) (offset + csz) (ret + csz) b
                      s1 in
                  let go : FileStatus → ReadResult = λ s2.
                    copied_with fetch buf s2
                      (λ b.
                        read_rest fetch i_block isize fuel (size - csz) (offset + csz) (ret + csz) b
                          s2)
                      (copy_bytes fetch s2.block_id 0 csz) in
                  let start : (o + 1) * block_size + 0 ≡ offset = omega (arith, here) in
                  let round =
                    moved_with-ok buf go (next_block fetch i_block s) moved
                    ∙ copied_lem (o + 1) 0 csz s1 buf next whole inside at1 (omega arith)
                    ∙ ap (λ j. next (buf ++ bytes (file_byte fetch i_block) j csz)) start in
                  let rest =
                    read_rest-Reads fuel (size - csz) (offset + csz) (ret + csz)
                      (buf ++ bytes (file_byte fetch i_block) offset csz) s1 (o + 1) whole
                      (omega (arith, enough, ne, within)) low1 at1
                      (λ more before. omega (arith, here, more, before, within)) in
                  rw (t, u, round)
                    (Reads-more csz (min (size - csz) (isize - (offset + csz)))
                      (min size (isize - offset)) offset ret buf
                      (next (buf ++ bytes (file_byte fetch i_block) offset csz)) (omega arith) rest)
            ]
      ]

  -- How many bytes `copy_to_buf` reads: the first piece goes up to the end of its block, also past the
  -- end of the file.
  abbrev pub read_size : ℕ → ℕ → ℕ
  read_size offset size =
      let first = min size (block_size - offset % block_size) in
      first + min (size - first) (isize - (offset + first))

  copy_to_buf-Reads :
      (s : FileStatus) (offset size : ℕ)
      → IsWhole
      → (upd_cache fetch i_block s).0 ≡ pos 0
      → Stands (upd_cache fetch i_block s).1
      → offset < isize
      → Reads (read_size offset size) offset 0 [] (copy_to_buf fetch i_block isize s offset size)
  unfolding copy_to_buf
  copy_to_buf-Reads s offset size whole ready (o, low, at) inside =
      let n = offset / block_size in
      let off = offset % block_size in
      let csz = min size (block_size - off) in
      let u : leb isize offset ≡ false = ground arith in
      let started : n * block_size < isize = omega (arith, inside) in
      let (low1, b, w, (e, f)) = whole n started in
      let s1 = (upd_cache fetch i_block s).1 in
      let (sought, at2) = seek-At fetch i_block o n b s1 (omega arith) low1 at e in
      let s2 = (seek fetch i_block s1 n).1 in
      let next : FileStatus → List ℕ → ReadResult =
        λ s3 buf. read_rest fetch i_block isize (size + 1) (size - csz) (offset + csz) csz buf s3 in
      let after : FileStatus → ReadResult =
        λ s3. copied_with fetch [] s3 (next s3) (copy_bytes fetch s3.block_id off csz) in
      let sought_with : FileStatus → ReadResult =
        λ s3. moved_with [] after (seek fetch i_block s3 n) in
      let start : n * block_size + off ≡ offset = omega arith in
      let run =
        moved_with-ok [] sought_with (upd_cache fetch i_block s) ready
        ∙ moved_with-ok [] after (seek fetch i_block s1 n) sought
        ∙ copied_lem n off csz s2 [] (next s2) whole started at2 (omega arith)
        ∙ ap (λ j. next s2 (bytes (file_byte fetch i_block) j csz)) start in
      let rest =
        read_rest-Reads (size + 1) (size - csz) (offset + csz) (0 + csz)
          (bytes (file_byte fetch i_block) offset csz) s2 n whole (omega arith) low1 at2
          (λ more before. omega (arith, more, before)) in
      let z : 0 + csz ≡ csz = omega arith in
      rw (u, run)
        (Reads-more csz (min (size - csz) (isize - (offset + csz))) (read_size offset size) offset 0
          [] (next s2 (bytes (file_byte fetch i_block) offset csz)) (omega arith)
          (subst
            (λ j.
              Reads (min (size - csz) (isize - (offset + csz))) (offset + csz) (0 + csz)
                (bytes (file_byte fetch i_block) offset csz)
                (read_rest fetch i_block isize (size + 1) (size - csz) (offset + csz) j
                  (bytes (file_byte fetch i_block) offset csz) s2))
            z rest))

  int_of-pos : (n : ℕ) → n < 2 ^ 31 → int_of n ≡ pos n
  unfolding int_of
  int_of-pos n h =
      let k : n % 2 ^ 32 ≡ n = omega (arith, h) in
      let t : ltb n (2 ^ 31) ≡ true = ground (arith, h) in rw (k, t) refl

  read_past :
      (s : FileStatus) (offset size : ℕ)
      → isize ≤ offset
      → copy_to_buf fetch i_block isize s offset size ≡ some ((pos 0, []), s)
  unfolding copy_to_buf
  read_past s offset size h = let u : leb isize offset ≡ true = ground arith in rw u refl

  -- For a file whose blocks are all found and can be read, and a cursor that stands at a block once
  -- `_upd_cache` has returned 0: `copy_to_buf` ends, for every size below 2^31. From the end of the file
  -- on it returns 0 and stores nothing. Before the end it returns the number n of bytes that it stores,
  -- and these are the n bytes of the file's blocks from the offset on; n is at most the size asked for,
  -- and at least what of it the file still has. The cursor then stands at a block again.
  pub copy_to_buf_lem :
      (s : FileStatus) (offset size : ℕ)
      → IsWhole
      → (upd_cache fetch i_block s).0 ≡ pos 0
      → Stands (upd_cache fetch i_block s).1
      → size < 2 ^ 31
      → let result = copy_to_buf fetch i_block isize s offset size in
        let n = read_size offset size in
        (isize ≤ offset → result ≡ some ((pos 0, []), s))
        × (offset < isize
            → (n ≤ size)
              × (min size (isize - offset) ≤ n)
              × (s' : FileStatus) × (result
                  ≡ some ((pos n, bytes (file_byte fetch i_block) offset n), s'))
              × Stands s')
  copy_to_buf_lem s offset size whole ready stands small = (
    λ past. read_past s offset size past,
    λ inside.
        let (s', e, at) = copy_to_buf-Reads s offset size whole ready stands inside in
        let n = read_size offset size in
        let k : 0 + n ≡ n = omega arith in
        (
          omega arith,
          omega arith,
          s',
          e
              ∙ ap (λ i. some ((i, bytes (file_byte fetch i_block) offset n), s'))
                  (ap int_of k ∙ int_of-pos n (omega (arith, small))),
          at,
        ),
  )
