-- ===== src/Klibc/Bitmap.antt =====
-- src/klibc/bitmap.hpp: bits in memory, most significant bit of each byte first. A bitmap is the
-- memory from its pointer on, so an access past its end reaches the bytes behind it.
pub mod Bits
pub mod Allocate
mod Tests
use toystar.Prelude.{
  ℕ, zero, suc, ◌+◌, ◌-◌, ◌*◌, ◌/◌, ◌%◌, ◌^◌, Bool, true, false, Option, none, some, ◌==◌, bit_and,
  bit_or, bit_xor, if◌then◌else◌, not,
}
use toystar.Prelude.Word.{update}

abbrev pub Bitmap : Type 0
Bitmap = ℕ → ℕ

-- `1 << (7 - bit%8)`
abbrev pub bit_mask : ℕ → ℕ
bit_mask bit = 2 ^ (7 - bit % 8)

unfoldable pub set_bit : Bitmap → ℕ → Bitmap
set_bit bitmap bit = update bitmap (bit / 8) (bit_or (bitmap (bit / 8)) (bit_mask bit))

unfoldable pub toggle_bit : Bitmap → ℕ → Bitmap
toggle_bit bitmap bit = update bitmap (bit / 8) (bit_xor (bitmap (bit / 8)) (bit_mask bit))

-- The low byte of `~m` is `255 - m`.
unfoldable pub clear_bit : Bitmap → ℕ → Bitmap
clear_bit bitmap bit = update bitmap (bit / 8) (bit_and (bitmap (bit / 8)) (255 - bit_mask bit))

unfoldable pub is_bit_set : Bitmap → ℕ → Bool
is_bit_set bitmap bit = not (bit_and (bitmap (bit / 8)) (bit_mask bit) == 0)

-- The loop of `Bitmap::allocate` from bit `i`, with `n` rounds left; `none` stands for -1.
unfoldable pub allocate_from : ℕ → ℕ → Bitmap → Option ℕ × Bitmap
allocate_from zero i bitmap = (none, bitmap)
allocate_from (suc n) i bitmap =
    let rest = allocate_from n (i + 1) bitmap in
    if is_bit_set bitmap i then rest else (some i, set_bit bitmap i)

-- `sizeof(bitmap)` is the size of the pointer, 8 bytes.
abbrev pub bitmap_bits : ℕ
bitmap_bits = 8 * 8

unfoldable pub allocate : Bitmap → Option ℕ × Bitmap
unfolding allocate_from
allocate bitmap = allocate_from bitmap_bits 0 bitmap
