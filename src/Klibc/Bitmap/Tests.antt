-- ===== src/Klibc/Bitmap/Tests.antt =====
-- Runs of src/klibc/bitmap.hpp, and its theorems at concrete bitmaps.
use toystar.Prelude.{◌≡◌, refl, some, none, arith}
use toystar.Klibc.Bitmap.{Bitmap, set_bit, is_bit_set, allocate}
use toystar.Klibc.Bitmap.Bits.{AreBytes}
use toystar.Klibc.Bitmap.Allocate.{FirstClear, allocate-FirstClear}

abbrev empty : Bitmap
empty a = 0

empty-AreBytes : AreBytes empty
empty-AreBytes a = omega arith

-- Bit 0 is the most significant bit of the first byte.
set_bit_test : (set_bit empty 0 0 ≡ 128) × (set_bit empty 15 1 ≡ 1)
unfolding set_bit
set_bit_test = (refl, refl)

allocate_test : ((allocate empty).0 ≡ some 0) × ((allocate (allocate empty).1).0 ≡ some 1)
unfolding allocate set_bit is_bit_set
allocate_test = (refl, refl)

allocate_full : (allocate (λ a. 255)).0 ≡ none
unfolding allocate set_bit is_bit_set
allocate_full = refl

allocate-FirstClear_example : FirstClear empty 64 0 (allocate empty)
allocate-FirstClear_example = allocate-FirstClear empty
