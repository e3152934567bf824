-- ===== src/Bitmap/Alloc.antt =====
-- `BitmapBlock::alloc_new`, and the number of clear bits that the group descriptors count.
use naive_fs.Base.{
  ℕ, zero, suc, ◌+◌, ◌*◌, ◌^◌, ◌≤◌, ◌<◌, ◌≡◌, refl, ap, ◌∙◌, Bool, true, false, ◌==◌, if◌then◌else◌,
  arith, [], ◌∷◌, Option, none, some, get_or, set, length, length-set, ℕ_discrete, replicate,
  length-replicate,
}
use native.Mathlib.Nat.{pow-le-pow_right}
use naive_fs.Base.Bits.{bit, bit-zero, bit_or-lt, bit_and-lt}
use naive_fs.Config.{block_size}
use naive_fs.Bitmap.{Bitmap, word_index, bit_index, set_bit, clear, find, alloc_new, test}
use naive_fs.Bitmap.Words.{test-eq_bit_at, test-set_bit, test-clear}
use naive_fs.Bitmap.Find.{AreWords, IsFirstClear, find-IsFirstClear}

-- One block of words.
pub record IsBitmap (d : Bitmap) : Type 0 where
  pub words : AreWords d
  pub whole : length d ≡ 1024

abbrev pub bits_per_bitmap : ℕ
bits_per_bitmap = block_size * 8

get_or-lt : (d : Bitmap) (i : ℕ) → AreWords d → get_or d i 0 < 2 ^ 32
get_or-lt [] i h = omega arith
get_or-lt (w ∷ d) zero h = h.0
get_or-lt (w ∷ d) (suc i) h = get_or-lt d i h.1

set-AreWords : (d : Bitmap) (i v : ℕ) → AreWords d → v < 2 ^ 32 → AreWords (set d i v)
set-AreWords [] i v h q = h
set-AreWords (w ∷ d) zero v h q = (q, h.1)
set-AreWords (w ∷ d) (suc i) v h q = (h.0, set-AreWords d i v h.1 q)

pub set_bit-IsBitmap : (d : Bitmap) (i : ℕ) → IsBitmap d → IsBitmap (set_bit d i)
unfolding set_bit
set_bit-IsBitmap d i b = record {
  words = set-AreWords d (word_index i) _ b.words (
      bit_or-lt 32 _ _ (get_or-lt d (word_index i) b.words) (
        let q : 2 ^ bit_index i ≤ 2 ^ 31 =
          pow-le-pow_right {n = 2} (omega arith) {j = 31} (omega arith) in
        omega arith));
  whole = length-set d (word_index i) _ ∙ b.whole;
}

pub clear-IsBitmap : (d : Bitmap) (i : ℕ) → IsBitmap d → IsBitmap (clear d i)
unfolding clear
clear-IsBitmap d i b = record {
  words =
      set-AreWords d (word_index i) _ b.words
        (bit_and-lt 32 _ _ (get_or-lt d (word_index i) b.words));
  whole = length-set d (word_index i) _ ∙ b.whole;
}

-- Two bitmaps that differ at most in bit i, which is now v.
abbrev pub Updates : Bitmap → ℕ → Bool → Bitmap → Type 0
Updates d i v d' = (j : ℕ) → test d' j ≡ (if i == j then v else test d j)

pub set_bit-Updates :
    (d : Bitmap) (i : ℕ) → IsBitmap d → i < bits_per_bitmap → Updates d i true (set_bit d i)
set_bit-Updates d i b h j = test-set_bit d i j (omega (arith, b.whole))

pub clear-Updates :
    (d : Bitmap) (i : ℕ) → IsBitmap d → i < bits_per_bitmap → Updates d i false (clear d i)
clear-Updates d i b h j = test-clear d i j (omega (arith, b.whole))

-- What a call of `alloc_new` gives: the first clear bit, which it sets, or no bit and no change.
abbrev pub Allocates : Bitmap → Option ℕ × Bitmap → Type 0
Allocates d (none, d') = (d' ≡ d) × ((j : ℕ) → j < bits_per_bitmap → test d j ≡ true)
Allocates d (some i, d') =
    (i < bits_per_bitmap)
    × (test d i ≡ false)
    × ((j : ℕ) → j < i → test d j ≡ true)
    × Updates d i true d'

alloc_cases :
    (d : Bitmap) (o : Option ℕ)
    → find d bits_per_bitmap ≡ o
    → IsBitmap d
    → IsFirstClear d bits_per_bitmap o
    → Allocates d (alloc_new d) × IsBitmap (alloc_new d).1
unfolding alloc_new
alloc_cases d none e b f = rw (e, alloc_new) ((refl, f), b)
alloc_cases d (some i) e b f =
    rw (e, alloc_new) ((f.0, f.1, f.2, set_bit-Updates d i b f.0), set_bit-IsBitmap d i b)

-- `alloc_new` on a block of words sets the first clear bit and returns it, the other bits are as
-- before and it is still a block of words. It fails, with no change, only if every bit is set.
pub alloc_new-Allocates :
    (d : Bitmap) → IsBitmap d → Allocates d (alloc_new d) × IsBitmap (alloc_new d).1
alloc_new-Allocates d b =
    alloc_cases d (find d bits_per_bitmap) refl b
      (find-IsFirstClear d bits_per_bitmap b.words (omega (arith, b.whole)))

-- The number of clear bits below n.
unfoldable pub count_clear : ℕ → Bitmap → ℕ
count_clear zero d = 0
count_clear (suc n) d = count_clear n d + (if test d n then 0 else 1)

count_clear_above :
    (n : ℕ) (d d' : Bitmap) (i : ℕ) (v : Bool)
    → Updates d i v d'
    → n ≤ i
    → count_clear n d' ≡ count_clear n d
unfolding count_clear
count_clear_above zero d d' i v u h = refl
count_clear_above (suc n) d d' i v u h =
    ground (arith, u n, count_clear_above n d d' i v u (omega arith))

pub count_clear-set :
    (n : ℕ) (d d' : Bitmap) (i : ℕ)
    → Updates d i true d'
    → test d i ≡ false
    → i < n
    → count_clear n d' + 1 ≡ count_clear n d
unfolding count_clear
count_clear-set zero d d' i u t h = absurd (omega arith)
count_clear-set (suc n) d d' i u t h = elim (ℕ_discrete i n) [
  | yes e ↦ ground (arith, u n, ap (test d) e, count_clear_above n d d' i true u)
  | no ne ↦ ground (arith, u n, count_clear-set n d d' i u t (omega arith))
]

pub count_clear-clear :
    (n : ℕ) (d d' : Bitmap) (i : ℕ)
    → Updates d i false d'
    → test d i ≡ true
    → i < n
    → count_clear n d' ≡ count_clear n d + 1
unfolding count_clear
count_clear-clear zero d d' i u t h = absurd (omega arith)
count_clear-clear (suc n) d d' i u t h = elim (ℕ_discrete i n) [
  | yes e ↦ ground (arith, u n, ap (test d) e, count_clear_above n d d' i false u)
  | no ne ↦ ground (arith, u n, count_clear-clear n d d' i u t (omega arith))
]

pub count_clear-le : (n : ℕ) (d : Bitmap) → count_clear n d ≤ n
unfolding count_clear
count_clear-le zero d = omega arith
count_clear-le (suc n) d = ground (arith, count_clear-le n d)

pub count_clear_pos : (n : ℕ) (d : Bitmap) (i : ℕ) → test d i ≡ false → i < n → 0 < count_clear n d
unfolding count_clear
count_clear_pos zero d i t h = elim h [ ]
count_clear_pos (suc n) d i t h = elim (ℕ_discrete i n) [
  | yes e ↦ ground (arith, ap (test d) e)
  | no ne ↦ ground (arith, count_clear_pos n d i t (omega arith))
]

pub count_clear_full :
    (n : ℕ) (d : Bitmap) → ((j : ℕ) → j < n → test d j ≡ true) → count_clear n d ≡ 0
unfolding count_clear
count_clear_full zero d h = refl
count_clear_full (suc n) d h = ground (arith, h n, count_clear_full n d (λ j p. h j (omega arith)))

-- The bitmap of a new block group.
pub zeros-AreWords : (n : ℕ) → AreWords (replicate n 0)
zeros-AreWords zero = tt
zeros-AreWords (suc n) = (omega arith, zeros-AreWords n)

abbrev pub zero_bitmap : Bitmap
zero_bitmap = replicate 1024 0

pub zero_bitmap-IsBitmap : IsBitmap zero_bitmap
zero_bitmap-IsBitmap = record {
  words = zeros-AreWords 1024;
  whole = length-replicate {A = ℕ} 1024 0;
}

get_or-zeros : (n i : ℕ) → get_or {A = ℕ} (replicate n 0) i 0 ≡ 0
get_or-zeros zero i = refl
get_or-zeros (suc n) zero = refl
get_or-zeros (suc n) (suc i) = get_or-zeros n i

pub test-zero_bitmap : (i : ℕ) → test zero_bitmap i ≡ false
test-zero_bitmap i =
    test-eq_bit_at zero_bitmap i
    ∙ ground
        (arith, ap (bit (bit_index i)) (get_or-zeros 1024 (word_index i)), bit-zero (bit_index i))

pub count_clear_zero : (n : ℕ) (d : Bitmap) → ((j : ℕ) → test d j ≡ false) → count_clear n d ≡ n
unfolding count_clear
count_clear_zero zero d h = refl
count_clear_zero (suc n) d h = ground (arith, h n, count_clear_zero n d h)
