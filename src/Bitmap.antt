-- ===== src/Bitmap.antt =====
-- include/utils/bitmap.h, src/utils/bitmap.cpp and `BitmapBlock` of include/block.h and
-- src/block.cpp: the allocation bitmap of a block group, an array of 32-bit words.
pub mod Words
pub mod Find
pub mod Alloc
use naive_fs.Base.{
  ℕ, zero, suc, ◌+◌, ◌-◌, ◌*◌, ◌/◌, ◌%◌, ◌^◌, bit_and, bit_or, Bool, not, Option, none, some, List,
  [], ◌∷◌, ◌==◌, leb, ltb, if◌then◌else◌, get_or, set,
}
use naive_fs.Config.{block_size}

abbrev pub bit_shift : ℕ
bit_shift = 5

abbrev pub bit_mask : ℕ
bit_mask = 0x1f

-- BIT_MAX, `~0u`
abbrev pub bit_max : ℕ
bit_max = 2 ^ 32 - 1

-- The word that holds bit i, and its place there: `i >> BIT_SHIFT` and `i & BIT_MASK` at i ≥ 0.
abbrev pub word_index : ℕ → ℕ
word_index i = i / 2 ^ bit_shift

abbrev pub bit_index : ℕ → ℕ
bit_index i = i % 2 ^ bit_shift

-- BIT_GET as an operand of 32 digits
abbrev pub bit_get : ℕ → ℕ
bit_get i = 2 ^ bit_index i

-- `Bitmap::data_`. A read past the buffer gives 0 here and a write there is lost; the theorems keep
-- within the buffer.
abbrev pub Bitmap : Type 0
Bitmap = List ℕ

-- `Bitmap::set`
unfoldable pub set_bit : Bitmap → ℕ → Bitmap
set_bit d i = set d (word_index i) (bit_or (get_or d (word_index i) 0) (bit_get i))

-- `Bitmap::test`
unfoldable pub test : Bitmap → ℕ → Bool
test d i = not (bit_and (get_or d (word_index i) 0) (bit_get i) == 0)

-- `Bitmap::clear`; `~BIT_GET(i)` is the complement in 32 digits
unfoldable pub clear : Bitmap → ℕ → Bitmap
clear d i = set d (word_index i) (bit_and (get_or d (word_index i) 0) (2 ^ 32 - 1 - bit_get i))

-- `cur_bits >>= 1` on an `int`: the sign digit stays
abbrev pub shift_int : ℕ → ℕ
shift_int w = w / 2 + (if leb (2 ^ 31) w then 2 ^ 31 else 0)

-- The loop `while (cur_bits & 1)`, with fuel. A word with a clear digit needs at most 31 rounds.
unfoldable pub trailing_ones : ℕ → ℕ → ℕ → ℕ
trailing_ones zero cur_bits k = k
trailing_ones (suc f) cur_bits k =
    let rest = trailing_ones f (shift_int cur_bits) (k + 1) in
    if bit_and cur_bits 1 == 0 then k else rest

-- The rounds of the `for` loop of `Bitmap::find` from word i on; the list is `data_ + i`.
unfoldable pub find_from : ℕ → ℕ → Bitmap → ℕ → Option ℕ
find_from zero i d size = none
find_from (suc rounds) i [] size = none
find_from (suc rounds) i (w ∷ d) size =
    let rest = find_from rounds (i + 1) d size in
    let ret = i * 2 ^ bit_shift + trailing_ones 32 w 0 in
    if w == bit_max then rest else if leb size ret then none else some ret

-- `Bitmap::find`; -1 is `none`
unfoldable pub find : Bitmap → ℕ → Option ℕ
unfolding find_from trailing_ones
find d size =
    find_from (size / 2 ^ bit_shift + (if size % 2 ^ bit_shift == 0 then 0 else 1)) 0 d size

-- `BitmapBlock::alloc_new`: the bit that it sets, and the bitmap after the call
unfoldable pub alloc_new : Bitmap → Option ℕ × Bitmap
alloc_new d = elim (find d (block_size * 8)) [ none ↦ (none, d) | some i ↦ (some i, set_bit d i) ]
