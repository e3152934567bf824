-- ===== src/FileContents/Bytes.antt =====
-- The bytes of a file, block by block.
use naive_fs.Base.{
  ℕ, zero, suc, ◌+◌, ◌*◌, ◌/◌, ◌%◌, ◌≤◌, ◌<◌, ◌≡◌, refl, sym, ap, ◌∙◌, Option, none, some, List,
  ◌∷◌, ◌++◌, arith,
}
use naive_fs.Config.{block_size}
use naive_fs.BlockTree.{Fetch, locate}
use naive_fs.DentryBlock.{bytes}
use naive_fs.Names.{bytes_of}

bytes_same :
    (f g : ℕ → ℕ) (p q n : ℕ)
    → ((i : ℕ) → i < n → f (p + i) ≡ g (q + i))
    → bytes f p n ≡ bytes g q n
bytes_same f g p q zero h = refl
bytes_same f g p q (suc n) h =
    let first : f p ≡ g q =
      ap f (let e : p ≡ p + 0 = omega arith in e)
      ∙ h 0 (omega arith)
      ∙ ap g (let e : q + 0 ≡ q = omega arith in e) in
    let rest = bytes_same f g (p + 1) (q + 1) n λ i l.
      ap f (let e : p + 1 + i ≡ p + suc i = omega arith in e)
      ∙ h (suc i) (omega arith)
      ∙ ap g (let e : q + suc i ≡ q + 1 + i = omega arith in e) in
    ap (λ b. b ∷ bytes f (p + 1) n) first ∙ ap (λ l. g q ∷ l) rest

pub bytes-add : (f : ℕ → ℕ) (p m n : ℕ) → bytes f p (m + n) ≡ bytes f p m ++ bytes f (p + m) n
bytes-add f p zero n =
    ap (bytes f p) (let e : 0 + n ≡ n = omega arith in e)
    ∙ ap (λ q. bytes f q n) (let e : p ≡ p + 0 = omega arith in e)
bytes-add f p (suc m) n =
    ap (bytes f p) (let e : suc m + n ≡ suc (m + n) = omega arith in e)
    ∙ ap (λ l. f p ∷ l) (bytes-add f (p + 1) m n)
    ∙ ap (λ q. f p ∷ (bytes f (p + 1) m ++ bytes f q n))
        (let e : p + 1 + m ≡ p + suc m = omega arith in e)

module _ (fetch : Fetch) (i_block : List ℕ) where
  -- File block n is found and can be read, with these words.
  abbrev pub BlockIs : ℕ → ℕ → (ℕ → ℕ) → Type 0
  BlockIs n b w = (locate fetch i_block n ≡ some b) × (fetch b ≡ some w)

  -- The byte at a place of the file, and 0 where there is no block.
  abbrev pub byte_in : Option ℕ → ℕ → ℕ
  byte_in none j = 0
  byte_in (some b) j = elim (fetch b) [ none ↦ 0 | some w ↦ bytes_of w j ]

  unfoldable pub file_byte : ℕ → ℕ
  file_byte j = byte_in (locate fetch i_block (j / block_size)) (j % block_size)

  file_byte_lem :
      (n b off : ℕ) (w : ℕ → ℕ)
      → BlockIs n b w
      → off < block_size
      → file_byte (n * block_size + off) ≡ bytes_of w off
  unfolding file_byte
  file_byte_lem n b off w (e, f) h =
      let q : (n * block_size + off) / block_size ≡ n = omega (arith, h) in
      let r : (n * block_size + off) % block_size ≡ off = omega (arith, h) in
      ap (λ k. byte_in (locate fetch i_block k) ((n * block_size + off) % block_size)) q
      ∙ ap (λ o. byte_in o ((n * block_size + off) % block_size)) e
      ∙ ap (λ o. elim o [ none ↦ 0 | some x ↦ bytes_of x ((n * block_size + off) % block_size) ]) f
      ∙ ap (bytes_of w) r

  -- A piece of a block is a piece of the file.
  pub bytes-block :
      (n b off size : ℕ) (w : ℕ → ℕ)
      → BlockIs n b w
      → off + size ≤ block_size
      → bytes (bytes_of w) off size ≡ bytes file_byte (n * block_size + off) size
  bytes-block n b off size w at h =
      bytes_same (bytes_of w) file_byte off (n * block_size + off) size λ i l.
        sym (file_byte_lem n b (off + i) w at (omega (arith, h, l)))
        ∙ ap file_byte
            (let e : n * block_size + (off + i) ≡ n * block_size + off + i = omega arith in e)
