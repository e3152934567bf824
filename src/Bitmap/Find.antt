-- ===== src/Bitmap/Find.antt =====
-- `Bitmap::find` gives the first clear bit.
use naive_fs.Base.{
  ℕ, zero, suc, ◌+◌, ◌-◌, ◌*◌, ◌/◌, ◌%◌, ◌^◌, ◌≤◌, ◌<◌, bit_and, ◌≡◌, ◌≢◌, sym, ap, subst, ◌∙◌, ◌⊎◌,
  inl, inr, true, false, ◌==◌, leb, if◌then◌else◌, Bool-cases, dec_lt, arith, [], ◌∷◌, ℕ_discrete,
  Option, none, some, length,
}
use native.Mathlib.Nat.{pow-suc, one-le-pow}
use naive_fs.Base.Bits.{bit, bit_and-two-pow-ne-zero, bit_and-two-pow-eq-zero}
use naive_fs.Bitmap.{
  Bitmap, word_index, bit_index, bit_max, shift_int, trailing_ones, find_from, find, test,
}
use naive_fs.Bitmap.Words.{bit_at, test-eq_bit_at}

-- Every entry is a `uint32_t`.
abbrev pub AreWords : Bitmap → Type 0
AreWords [] = Unit {0}
AreWords (w ∷ d) = (w < 2 ^ 32) × AreWords d

-- Digit j of a word is its digit j + 1 before a shift of the `int`, within the word.
bit-shift_int : (n j w : ℕ) → j < n → bit j (w / 2 + 2 ^ n) ≡ bit j (w / 2)
unfolding bit
bit-shift_int zero j w h = elim h [ ]
bit-shift_int (suc n) zero w h = omega (arith, pow-suc 2 n)
bit-shift_int (suc n) (suc j) w h =
    ap (bit j)
      (let e : (w / 2 + 2 ^ suc n) / 2 ≡ w / 2 / 2 + 2 ^ n = omega (arith, pow-suc 2 n) in e)
    ∙ bit-shift_int n j (w / 2) (omega arith)

bit-suc : (j w : ℕ) → j < 31 → bit (suc j) w ≡ bit j (shift_int w)
unfolding bit
bit-suc j w h = ground (arith, bit-shift_int 31 j w h)

bit_zero-odd : (w : ℕ) → bit 0 w ≡ 1 → (bit_and w 1 == 0) ≡ false
bit_zero-odd w h = ground (arith, bit_and-two-pow-ne-zero w 0 h)

bit_zero-even : (w : ℕ) → bit 0 w ≡ 0 → (bit_and w 1 == 0) ≡ true
bit_zero-even w h = ground (arith, bit_and-two-pow-eq-zero w 0 h)

-- If digit n is the first clear one, the loop counts n.
pub trailing_ones_lem :
    (f n w k : ℕ)
    → n < f
    → f ≤ 32
    → bit n w ≡ 0
    → ((j : ℕ) → j < n → bit j w ≡ 1)
    → trailing_ones f w k ≡ k + n
unfolding trailing_ones
trailing_ones_lem zero n w k h q z ones = elim h [ ]
trailing_ones_lem (suc f) zero w k h q z ones = rw (bit_zero-even w z) (omega arith)
trailing_ones_lem (suc f) (suc n) w k h q z ones = rw (bit_zero-odd w (ones 0 (omega arith))) (
    trailing_ones_lem f n (shift_int w) (k + 1) (omega arith) (omega arith)
      (sym (bit-suc n w (omega arith)) ∙ z)
      (λ j p. sym (bit-suc j w (omega arith)) ∙ ones (suc j) (omega arith))
    ∙ omega arith)

-- The first clear digit of a number below 2 ^ n - 1; all digits of 2 ^ n - 1 are set.
abbrev FirstClear : ℕ → ℕ → Type 0
FirstClear w k = (bit k w ≡ 0) × ((j : ℕ) → j < k → bit j w ≡ 1)

first_clear : (n w : ℕ) → w < 2 ^ n - 1 → (k : ℕ) × (k < n) × FirstClear w k
unfolding bit
first_clear zero w h = absurd (omega arith)
first_clear (suc n) w h = elim (Bool-cases (w % 2 == 0)) [
  | inl even ↦ (0, omega arith, (ground arith, λ j p. absurd (omega arith)))
  | inr odd ↦
      let (k, lt, (z, ones)) = first_clear n (w / 2) (ground (arith, pow-suc 2 n)) in
      (
        suc k,
        omega arith,
        (
          z,
          λ j p.
              (elim j as (λ i. i < suc k → bit i w ≡ 1) [
                | zero ↦ λ p. ground arith
                | suc i ↦ λ p. ones i (omega arith)
              ])
                p,
        ),
      )
]

all_set : (n j : ℕ) → j < n → bit j (2 ^ n - 1) ≡ 1
unfolding bit
all_set zero j h = elim h [ ]
all_set (suc n) zero h = omega (arith, pow-suc 2 n, one-le-pow n 2 (omega arith))
all_set (suc n) (suc j) h =
    ap (bit j) (
      let e : (2 ^ suc n - 1) / 2 ≡ 2 ^ n - 1 =
        omega (arith, pow-suc 2 n, one-le-pow n 2 (omega arith)) in
      e)
    ∙ all_set n j (omega arith)

-- The word at the head of a bitmap holds bits 0 to 31, the rest holds the others.
bit_at_head : (w : ℕ) (d : Bitmap) (j : ℕ) → j < 32 → bit_at (w ∷ d) j ≡ bit j w
bit_at_head w d j h =
    rw (let e : word_index j ≡ 0 = omega arith in e, let e : bit_index j ≡ j = omega arith in e)

bit_at_tail : (w : ℕ) (d : Bitmap) (j : ℕ) → bit_at (w ∷ d) (j + 32) ≡ bit_at d j
bit_at_tail w d j = rw (
  let e : word_index (j + 32) ≡ suc (word_index j) = omega arith in e,
  let e : bit_index (j + 32) ≡ bit_index j = omega arith in e,
)

-- Bits below n are set.
abbrev pub AllSet : Bitmap → ℕ → Type 0
AllSet d n = (j : ℕ) → j < n → bit_at d j ≡ 1

AllSet-cons : (d : Bitmap) (n : ℕ) → AllSet d n → AllSet (bit_max ∷ d) (n + 32)
AllSet-cons d n all j h = elim (dec_lt j 32) [
  | yes p ↦ bit_at_head bit_max d j p ∙ all_set 32 j p
  | no p ↦
      let e : j ≡ j - 32 + 32 = omega arith in
      subst (λ i. bit_at (bit_max ∷ d) i ≡ 1) (sym e)
        (bit_at_tail bit_max d (j - 32) ∙ all (j - 32) (omega arith))
]

-- What a search from word i on says of the words that are left.
abbrev Found : Bitmap → ℕ → ℕ → ℕ → Option ℕ → Type 0
Found d i rounds size none = (n : ℕ) × AllSet d n × ((size ≤ n + i * 32) ⊎ (rounds * 32 ≤ n))
Found d i rounds size (some r) =
    (k : ℕ) × (r ≡ k + i * 32) × (r < size) × (bit_at d k ≡ 0) × AllSet d k × (k < rounds * 32)

find_word :
    (w : ℕ) (d : Bitmap) (i rounds size : ℕ)
    → w < 2 ^ 32
    → w ≢ bit_max
    → Found (w ∷ d) i (suc rounds) size (find_from (suc rounds) i (w ∷ d) size)
unfolding find_from
find_word w d i rounds size small ne =
    let (k, lt, (z, ones)) = first_clear 32 w (omega arith) in
    let run : trailing_ones 32 w 0 ≡ k =
      trailing_ones_lem 32 k w 0 lt (omega arith) z ones ∙ omega arith in
    let test : (w == bit_max) ≡ false = ground arith in
    let clear : bit_at (w ∷ d) k ≡ 0 = bit_at_head w d k lt ∙ z in
    let all : AllSet (w ∷ d) k = λ j p. bit_at_head w d j (omega arith) ∙ ones j p in
    rw (test, run)
      (elim (Bool-cases (leb size (i * 2 ^ 5 + k))) [
        | inl past ↦ rw past (k, all, inl (ground arith))
        | inr inside ↦ rw inside (k, ground arith, ground arith, clear, all, omega arith)
      ])

find_tail :
    (d : Bitmap) (i rounds size : ℕ) (o : Option ℕ)
    → Found d (i + 1) rounds size o
    → Found (bit_max ∷ d) i (suc rounds) size o
find_tail d i rounds size none (n, all, inl past) = (n + 32, AllSet-cons d n all, inl (omega arith))
find_tail d i rounds size none (n, all, inr done) = (n + 32, AllSet-cons d n all, inr (omega arith))
find_tail d i rounds size (some r) (k, e, lt, z, all, q) =
    (k + 32, omega arith, lt, bit_at_tail bit_max d k ∙ z, AllSet-cons d k all, omega arith)

find_from_lem :
    (rounds i : ℕ) (d : Bitmap) (size : ℕ)
    → AreWords d
    → rounds ≤ length d
    → Found d i rounds size (find_from rounds i d size)
unfolding find_from
find_from_lem zero i d size words h = (0, (λ j p. absurd (omega arith)), inr (omega arith))
find_from_lem (suc rounds) i [] size words h = absurd (omega arith)
find_from_lem (suc rounds) i (w ∷ d) size words h = elim (ℕ_discrete w bit_max) [
  | yes e ↦
      subst (λ v. Found (v ∷ d) i (suc rounds) size (find_from (suc rounds) i (v ∷ d) size)) (sym e)
        (find_tail d i rounds size _ (find_from_lem rounds (i + 1) d size words.1 (omega arith)))
  | no ne ↦ find_word w d i rounds size words.0 ne
]

-- The first clear bit below a size, if there is one.
abbrev pub IsFirstClear : Bitmap → ℕ → Option ℕ → Type 0
IsFirstClear d size none = (j : ℕ) → j < size → test d j ≡ true
IsFirstClear d size (some r) = (r < size) × (test d r ≡ false) × ((j : ℕ) → j < r → test d j ≡ true)

test_of_set : (d : Bitmap) (j : ℕ) → bit_at d j ≡ 1 → test d j ≡ true
test_of_set d j h = test-eq_bit_at d j ∙ ground arith

test_of_clear : (d : Bitmap) (j : ℕ) → bit_at d j ≡ 0 → test d j ≡ false
test_of_clear d j h = test-eq_bit_at d j ∙ ground arith

IsFirstClear-of_Found :
    (d : Bitmap) (rounds size : ℕ) (o : Option ℕ)
    → size ≤ rounds * 32
    → Found d 0 rounds size o
    → IsFirstClear d size o
IsFirstClear-of_Found d rounds size none h (n, all, e) =
    λ j p. test_of_set d j (all j (elim e [ inl q ↦ omega arith | inr q ↦ omega arith ]))
IsFirstClear-of_Found d rounds size (some r) h (k, e, lt, z, all, q) =
    let e' : k ≡ r = omega arith in
    (lt, test_of_clear d r (rw (← e') z), λ j p. test_of_set d j (all j (omega arith)))

-- In a buffer of 32-bit words that holds `size` bits, `Bitmap::find(size)` returns the first
-- clear bit below `size`, and reports that there is none only if all of them are set.
pub find-IsFirstClear :
    (d : Bitmap) (size : ℕ) → AreWords d → size ≤ length d * 32 → IsFirstClear d size (find d size)
unfolding find
find-IsFirstClear d size words h =
    let rounds = size / 2 ^ 5 + (if size % 2 ^ 5 == 0 then 0 else 1) in
    let enough : size ≤ rounds * 32 = ground arith in
    let inside : rounds ≤ length d = ground arith in
    IsFirstClear-of_Found d rounds size _ enough (find_from_lem rounds 0 d size words inside)
