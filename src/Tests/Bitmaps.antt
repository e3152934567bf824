-- ===== src/Tests/Bitmaps.antt =====
-- The bitmap: src/utils/bitmap.cpp and `BitmapBlock`.
use naive_fs.Base.{◌≡◌, refl, [], ◌∷◌, true, false, arith, some, none}
use naive_fs.Bitmap.{Bitmap, set_bit, test, clear, find, alloc_new}
use naive_fs.Bitmap.Words.{test-set_bit, test-clear}
use naive_fs.Bitmap.Find.{IsFirstClear, find-IsFirstClear}
use naive_fs.Bitmap.Alloc.{
  IsBitmap, Allocates, alloc_new-Allocates, zero_bitmap, zero_bitmap-IsBitmap, set_bit-IsBitmap,
}

-- one word full, the next with its first five bits set
abbrev two_words : Bitmap
two_words = 0xffff_ffff ∷ 0x1f ∷ []

find_runs : find two_words 64 ≡ some 37
unfolding find
find_runs = refl

find_stops : find two_words 37 ≡ none
unfolding find
find_stops = refl

find-IsFirstClear_example : IsFirstClear two_words 64 (find two_words 64)
find-IsFirstClear_example = find-IsFirstClear two_words 64 (omega arith) (omega arith)

test-set_bit_example : test (set_bit two_words 40) 40 ≡ true
test-set_bit_example = test-set_bit two_words 40 40 (omega arith)

test-clear_example : test (clear two_words 33) 33 ≡ false
test-clear_example = test-clear two_words 33 33 (omega arith)

alloc_new-Allocates_example :
    Allocates (set_bit zero_bitmap 0) (alloc_new (set_bit zero_bitmap 0))
    × IsBitmap (alloc_new (set_bit zero_bitmap 0)).1
alloc_new-Allocates_example =
    alloc_new-Allocates (set_bit zero_bitmap 0)
      (set_bit-IsBitmap zero_bitmap 0 zero_bitmap-IsBitmap)
