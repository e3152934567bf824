-- ===== src/DentryBlock/Encoding.antt =====
-- The entries that are read from a block are those whose bytes were appended to it.
use naive_fs.Base.{
  ℕ, zero, suc, ◌+◌, ◌-◌, ◌^◌, ◌≤◌, ◌<◌, ◌≡◌, refl, sym, ap, ◌∙◌, true, false, ltb, ◌==◌, arith,
  List, [], ◌∷◌, ◌++◌, length, length-append, get_or, dec_lt,
}
use naive_fs.Config.{block_size}
use naive_fs.DentryBlock.{
  Dentry, dentry_bytes, bytes, rec_len, read_dentry, scan, dentry_block, encode,
}

-- An entry whose fields fit into their bytes.
abbrev pub IsDentry : Dentry → Type 0
IsDentry d =
    (d.inode < 2 ^ 32)
    × (d.name_len < 2 ^ 8)
    × (d.file_type < 2 ^ 8)
    × (length d.body + dentry_bytes < 2 ^ 16)

abbrev pub AreDentries : List Dentry → Type 0
AreDentries [] = Unit {0}
AreDentries (d ∷ ds) = IsDentry d × AreDentries ds

abbrev pub encode_all : List Dentry → List ℕ
encode_all [] = []
encode_all (d ∷ ds) = encode d ++ encode_all ds

-- The block that holds these entries, and zeros after them.
abbrev pub block_of : List Dentry → ℕ → ℕ
block_of ds j = get_or (encode_all ds) j 0

pub get_or-append : (xs ys : List ℕ) (j : ℕ) → get_or (xs ++ ys) (length xs + j) 0 ≡ get_or ys j 0
get_or-append [] ys j = ap (λ i. get_or ys i 0) (omega arith)
get_or-append (x ∷ xs) ys j =
    ap (λ i. get_or (x ∷ (xs ++ ys)) i 0)
      (let e : suc (length xs) + j ≡ suc (length xs + j) = omega arith in e)
    ∙ get_or-append xs ys j

-- The bytes from p on are those of a list.
abbrev Reads : (ℕ → ℕ) → ℕ → List ℕ → Type 0
Reads buf p xs = (j : ℕ) → buf (p + j) ≡ get_or xs j 0

bytes-Reads :
    (buf : ℕ → ℕ) (p : ℕ) (xs ys : List ℕ) → Reads buf p (xs ++ ys) → bytes buf p (length xs) ≡ xs
bytes-Reads buf p [] ys h = refl
bytes-Reads buf p (x ∷ xs) ys h =
    let first : buf p ≡ x = ap buf (omega arith) ∙ h 0 in
    let rest =
      bytes-Reads buf (p + 1) xs ys
        (λ j. ap buf (let e : p + 1 + j ≡ p + suc j = omega arith in e) ∙ h (suc j)) in
    ap (λ b. b ∷ bytes buf (p + 1) (length xs)) first ∙ ap (λ l. x ∷ l) rest

Reads-later :
    (buf : ℕ → ℕ) (p : ℕ) (xs ys : List ℕ) → Reads buf p (xs ++ ys) → Reads buf (p + length xs) ys
Reads-later buf p xs ys h j =
    ap buf (let e : p + length xs + j ≡ p + (length xs + j) = omega arith in e)
    ∙ h (length xs + j)
    ∙ get_or-append xs ys j

rec_len-encode :
    (buf : ℕ → ℕ) (p : ℕ) (d : Dentry) (ys : List ℕ)
    → IsDentry d
    → Reads buf p (encode d ++ ys)
    → rec_len buf p ≡ length d.body + dentry_bytes
unfolding rec_len
rec_len-encode buf p d ys v h = omega (arith, h 4, h 5, v.3)

dentry_path :
    (d e : Dentry)
    → d.inode ≡ e.inode
    → d.name_len ≡ e.name_len
    → d.file_type ≡ e.file_type
    → d.body ≡ e.body
    → d ≡ e
dentry_path d e p q r s = λ i. record { inode = p i; name_len = q i; file_type = r i; body = s i }

-- The entry that stands at p.
read_dentry-encode :
    (buf : ℕ → ℕ) (p : ℕ) (d : Dentry) (ys : List ℕ)
    → IsDentry d
    → Reads buf p (encode d ++ ys)
    → read_dentry buf p ≡ d
unfolding read_dentry rec_len
read_dentry-encode buf p d ys v h =
    let inode : (read_dentry buf p).inode ≡ d.inode = omega (arith, h 0, h 1, h 2, h 3, v.0) in
    let name_len : (read_dentry buf p).name_len ≡ d.name_len = omega (arith, h 6, v.1) in
    let file_type : (read_dentry buf p).file_type ≡ d.file_type = omega (arith, h 7, v.2) in
    let size : rec_len buf p - dentry_bytes ≡ length d.body =
      omega (arith, rec_len-encode buf p d ys v h) in
    let body : (read_dentry buf p).body ≡ d.body =
      ap (bytes buf (p + 8)) size
      ∙ bytes-Reads buf (p + 8) d.body ys λ j.
        ap buf (
          let e : p + 8 + j ≡ p + suc (suc (suc (suc (suc (suc (suc (suc j))))))) = omega arith in
          e)
        ∙ h (suc (suc (suc (suc (suc (suc (suc (suc j)))))))) in
    dentry_path (read_dentry buf p) d inode name_len file_type body

-- Nothing is read past the entries: there the block has zeros.
rec_len-zero : (buf : ℕ → ℕ) (p : ℕ) → Reads buf p [] → rec_len buf p ≡ 0
unfolding rec_len
rec_len-zero buf p h = omega (arith, h 4, h 5)

encode_all_short : (ds : List Dentry) → length (encode_all ds) < dentry_bytes → ds ≡ []
encode_all_short [] h = refl
encode_all_short (d ∷ ds) h = absurd (omega (arith, length-append (encode d) (encode_all ds)))

-- The loop from p on, where the entries ds stand.
scan-encode_all :
    (fuel : ℕ) (buf : ℕ → ℕ) (p : ℕ) (ds : List Dentry)
    → AreDentries ds
    → Reads buf p (encode_all ds)
    → p + length (encode_all ds) ≤ block_size
    → block_size ≤ fuel + p
    → scan fuel buf p ≡ (ds, p + length (encode_all ds))
unfolding scan
scan-encode_all zero buf p [] v h q f = ap (λ n. ([], n)) (let e : p ≡ p + 0 = omega arith in e)
scan-encode_all zero buf p (d ∷ ds) v h q f =
    absurd (omega (arith, length-append (encode d) (encode_all ds)))
scan-encode_all (suc fuel) buf p [] v h q f =
    let t : (rec_len buf p == 0) ≡ true = ground (arith, rec_len-zero buf p h) in
    rw t (ap (λ n. ([], n)) (let e : p ≡ p + 0 = omega arith in e))
scan-encode_all (suc fuel) buf p (d ∷ ds) v h q f =
    let n = length (encode d) in
    let r : rec_len buf p ≡ n = omega (arith, rec_len-encode buf p d (encode_all ds) v.0 h) in
    let here = read_dentry-encode buf p d (encode_all ds) v.0 h in
    let t : (n == 0) ≡ false = ground arith in
    let sum = length-append (encode d) (encode_all ds) in
    elim (dec_lt block_size (p + n + dentry_bytes)) [
      | yes over ↦
          let u : ltb block_size (p + n + dentry_bytes) ≡ true = ground arith in
          let e = encode_all_short ds (omega (arith, over, q, sum)) in
          let none_left : length (encode_all ds) ≡ 0 = ap (λ l. length (encode_all l)) e in
          rw (r, t, u, here)
            (ap (λ l. (d ∷ l, p + n)) (sym e)
              ∙ ap (λ k. (d ∷ ds, k))
                  (let k : p + n ≡ p + length (encode_all (d ∷ ds)) =
                      omega (arith, sum, none_left) in
                    k))
      | no within ↦
          let u : ltb block_size (p + n + dentry_bytes) ≡ false = ground arith in
          let rest =
            scan-encode_all fuel buf (p + n) ds v.1 (Reads-later buf p (encode d) (encode_all ds) h)
              (omega (arith, q, sum)) (omega (arith, f)) in
          rw (r, t, u, here, rest)
            (ap (λ k. (d ∷ ds, k))
              (let k : p + n + length (encode_all ds) ≡ p + length (encode_all (d ∷ ds)) =
                  omega (arith, sum) in
                k))
    ]

-- `DentryBlock(Block*)` on a block with these entries and zeros after them reads back the entries and
-- their size.
pub dentry_block-block_of :
    (ds : List Dentry)
    → AreDentries ds
    → length (encode_all ds) ≤ block_size
    → dentry_block (block_of ds) ≡ (ds, length (encode_all ds))
unfolding dentry_block
dentry_block-block_of ds v h =
    scan-encode_all block_size (block_of ds) 0 ds v (λ j. ap (block_of ds) (omega arith))
      (omega arith) (omega arith)
    ∙ ap (λ k. (ds, k))
        (let e : 0 + length (encode_all ds) ≡ length (encode_all ds) = omega arith in e)
