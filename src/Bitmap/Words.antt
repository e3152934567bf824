-- ===== src/Bitmap/Words.antt =====
-- What `set`, `clear` and `test` do to each bit of the bitmap.
use naive_fs.Base.{
  ℕ, zero, suc, ◌-◌, ◌^◌, ◌≤◌, ◌<◌, bit_and, bit_or, ◌≡◌, refl, sym, subst, true, false, ◌==◌,
  if◌then◌else◌, arith, [], ◌∷◌, get_or, set, length, ℕ_discrete,
}
use naive_fs.Base.Bits.{
  bit, bit-le-one, bit-bit_or, bit-bit_and, bit-two-pow_self, bit-two-pow_ne, bit-complement,
  bit_and-two-pow-ne-zero, bit_and-two-pow-eq-zero,
}
use native.Mathlib.Nat.{pow-le-pow_right}
use naive_fs.Bitmap.{Bitmap, word_index, bit_index, bit_get, set_bit, test, clear}

-- Bit i of the bitmap as a digit of its word.
abbrev pub bit_at : Bitmap → ℕ → ℕ
bit_at d i = bit (bit_index i) (get_or d (word_index i) 0)

pub test-eq_bit_at : (d : Bitmap) (i : ℕ) → test d i ≡ (bit_at d i == 1)
unfolding test
test-eq_bit_at d i = ground (
  arith,
  bit-le-one (bit_index i) (get_or d (word_index i) 0),
  bit_and-two-pow-ne-zero (get_or d (word_index i) 0) (bit_index i),
  bit_and-two-pow-eq-zero (get_or d (word_index i) 0) (bit_index i),
)

get_or-set :
    (d : Bitmap) (i j v : ℕ)
    → i < length d
    → get_or (set d i v) j 0 ≡ (if i == j then v else get_or d j 0)
get_or-set [] i j v h = absurd (omega arith)
get_or-set (x ∷ d) zero zero v h = refl
get_or-set (x ∷ d) zero (suc j) v h = ground arith
get_or-set (x ∷ d) (suc i) zero v h = ground arith
get_or-set (x ∷ d) (suc i) (suc j) v h = ground (arith, get_or-set d i j v (omega arith))

-- The digit j of the word of i after the or with BIT_GET(i).
digit-or : (w i j : ℕ) → bit j (bit_or w (2 ^ i)) ≡ (if i == j then 1 else bit j w)
digit-or w i j = elim (ℕ_discrete j i) [
  | yes e ↦
      subst (λ k. bit k (bit_or w (2 ^ i)) ≡ (if i == k then 1 else bit k w)) (sym e)
        (ground (arith, bit-bit_or i w (2 ^ i), bit-two-pow_self i, bit-le-one i w))
  | no ne ↦ ground (arith, bit-bit_or j w (2 ^ i), bit-two-pow_ne j i ne, bit-le-one j w)
]

two-pow-lt : (i : ℕ) → i < 32 → 2 ^ i < 2 ^ 32
two-pow-lt i h =
    let q : 2 ^ i ≤ 2 ^ 31 = pow-le-pow_right {n = 2} (omega arith) {j = 31} (omega arith) in
    omega arith

digit-and_not :
    (w i j : ℕ)
    → i < 32
    → j < 32
    → bit j (bit_and w (2 ^ 32 - 1 - 2 ^ i)) ≡ (if i == j then 0 else bit j w)
digit-and_not w i j hi hj =
    let mask = bit_and w (2 ^ 32 - 1 - 2 ^ i) in
    elim (ℕ_discrete j i) [
      | yes e ↦
          subst (λ k. bit k mask ≡ (if i == k then 0 else bit k w)) (sym e)
            (ground (
              arith,
              bit-bit_and i w (2 ^ 32 - 1 - 2 ^ i),
              bit-complement 32 i (2 ^ i) hi (two-pow-lt i hi),
              bit-two-pow_self i,
            ))
      | no ne ↦ ground (
        arith,
        bit-bit_and j w (2 ^ 32 - 1 - 2 ^ i),
        bit-complement 32 j (2 ^ i) hj (two-pow-lt i hi),
        bit-two-pow_ne j i ne,
        bit-le-one j w,
      )
    ]

-- A write to the word of i, seen at bit j.
bit_at-set :
    (d : Bitmap) (i j v : ℕ)
    → word_index i < length d
    → bit_at (set d (word_index i) v) j
      ≡ (if word_index i == word_index j then bit (bit_index j) v else bit_at d j)
bit_at-set d i j v h = rw (get_or-set d (word_index i) (word_index j) v h) (ground arith)

-- Setting bit i sets it and leaves the other bits alone.
pub test-set_bit :
    (d : Bitmap) (i j : ℕ)
    → word_index i < length d
    → test (set_bit d i) j ≡ (if i == j then true else test d j)
unfolding set_bit
test-set_bit d i j h = ground (
  arith,
  test-eq_bit_at (set_bit d i) j,
  test-eq_bit_at d j,
  bit_at-set d i j (bit_or (get_or d (word_index i) 0) (bit_get i)) h,
  digit-or (get_or d (word_index i) 0) (bit_index i) (bit_index j),
)

-- Clearing bit i clears it and leaves the other bits alone.
pub test-clear :
    (d : Bitmap) (i j : ℕ)
    → word_index i < length d
    → test (clear d i) j ≡ (if i == j then false else test d j)
unfolding clear
test-clear d i j h = ground (
  arith,
  test-eq_bit_at (clear d i) j,
  test-eq_bit_at d j,
  bit_at-set d i j (bit_and (get_or d (word_index i) 0) (2 ^ 32 - 1 - bit_get i)) h,
  digit-and_not (get_or d (word_index i) 0) (bit_index i) (bit_index j),
)
