-- ===== src/Klibc/Bitmap/Allocate.antt =====
-- `Bitmap::allocate` of src/klibc/bitmap.hpp, the source of process and thread numbers.
use toystar.Prelude.{
  ℕ, zero, suc, ◌+◌, ◌≤◌, ◌<◌, ◌≡◌, refl, true, false, Option, none, some, arith, Bool-cases, inl,
  inr,
}
use toystar.Klibc.Bitmap.{Bitmap, set_bit, is_bit_set, allocate_from, bitmap_bits, allocate}

-- What a search of the `n` bits from `i` on must return: the first clear one, then set, or `none`
-- if there is none and nothing changes.
abbrev pub FirstClear : Bitmap → ℕ → ℕ → Option ℕ × Bitmap → Type 0
FirstClear m n i (none, m') = (m' ≡ m) × ((j : ℕ) → i ≤ j → j < i + n → is_bit_set m j ≡ true)
FirstClear m n i (some k, m') =
    (i ≤ k)
    × (k < i + n)
    × (is_bit_set m k ≡ false)
    × (m' ≡ set_bit m k)
    × ((j : ℕ) → i ≤ j → j < k → is_bit_set m j ≡ true)

widen :
    (m : Bitmap) (n i : ℕ) (r : Option ℕ × Bitmap)
    → is_bit_set m i ≡ true
    → FirstClear m n (i + 1) r
    → FirstClear m (suc n) i r
widen m n i (none, m') b (same, all) = (same, λ j lo hi. ground (arith, all j))
widen m n i (some k, m') b (lo, hi, clear, set, below) =
    (omega arith, omega arith, clear, set, λ j p q. ground (arith, below j))

allocate_from-FirstClear : (n i : ℕ) (m : Bitmap) → FirstClear m n i (allocate_from n i m)
unfolding allocate_from
allocate_from-FirstClear zero i m = (refl, λ j lo hi. absurd (omega arith))
allocate_from-FirstClear (suc n) i m = elim (Bool-cases (is_bit_set m i)) [
  | inl b ↦ rw b (widen m n i (allocate_from n (i + 1) m) b (allocate_from-FirstClear n (i + 1) m))
  | inr b ↦ rw b (omega arith, omega arith, b, refl, λ j lo hi. absurd (omega arith))
]

-- `Bitmap::allocate` takes the first clear bit below 64 and sets it; if all of these are set, it
-- returns -1 and changes nothing.
pub allocate-FirstClear : (m : Bitmap) → FirstClear m bitmap_bits 0 (allocate m)
unfolding allocate
allocate-FirstClear m = allocate_from-FirstClear 64 0 m
