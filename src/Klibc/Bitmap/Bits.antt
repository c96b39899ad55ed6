-- ===== src/Klibc/Bitmap/Bits.antt =====
-- The bits of src/klibc/bitmap.hpp: what a change of one bit does to the others.
use toystar.Prelude.{
  ℕ, zero, suc, ◌-◌, ◌/◌, ◌%◌, ◌^◌, ◌<◌, ◌≡◌, refl, ltb, ltb→lt, Bool, true, false, ◌==◌, not,
  bit_and, bit_or, bit_xor, if◌then◌else◌, arith, ==_iff, Bool-cases, inl, inr, sym, ◌∙◌,
}
use toystar.Prelude.Word.{update}
use toystar.Klibc.Bitmap.{Bitmap, bit_mask, set_bit, toggle_bit, clear_bit, is_bit_set}

-- Memory holds bytes.
abbrev pub AreBytes : Bitmap → Type 0
AreBytes m = (a : ℕ) → m a < 256

-- `ok` holds of the numbers below `k`, by trying each.
holds_below : (ℕ → Bool) → ℕ → Bool
holds_below ok zero = true
holds_below ok (suc k) = if ok k then holds_below ok k else false

holds_below-at : {k : ℕ} (i : ℕ) (ok : ℕ → Bool) → i < k → holds_below ok k ≡ true → ok i ≡ true
unfolding holds_below
holds_below-at {k = zero} i ok below tried = elim below [ ]
holds_below-at {k = suc k} i ok below tried = elim (Bool-cases (i == k)) [
  | inl last ↦ ground arith
  | inr earlier ↦
      let sooner : i < k = ground arith in ground (arith, holds_below-at {k = k} i ok sooner)
]

same : Bool → Bool → Bool
same true b = b
same false b = not b

same-eq : (a b : Bool) → same a b ≡ true → a ≡ b
unfolding same
same-eq true b h = ground arith
same-eq false b h = ground arith

test : ℕ → ℕ → Bool
test v j = not (bit_and v (2 ^ j) == 0)

-- What the change of bit `i` of a byte by `f` means for bit `j`.
row : (ℕ → ℕ → ℕ) → (Bool → Bool) → ℕ → ℕ → ℕ → Bool
unfolding same test
row f g v i j = same (test (f v (2 ^ i)) j) (if i == j then g (test v j) else test v j)

table : (ℕ → ℕ → ℕ) → (Bool → Bool) → Bool
unfolding holds_below row
table f g = holds_below (λ i. holds_below (λ j. holds_below (λ v. row f g v i j) 256) 8) 8

table-row :
    (f : ℕ → ℕ → ℕ) (g : Bool → Bool) (v i j : ℕ)
    → table f g ≡ true
    → v < 256
    → i < 8
    → j < 8
    → row f g v i j ≡ true
unfolding table
table-row f g v i j t hv hi hj =
    let bytes = λ (i j : ℕ). holds_below (λ v. row f g v i j) 256 in
    let at_i = holds_below-at i (λ i. holds_below (bytes i) 8) hi t in
    holds_below-at v (λ v. row f g v i j) hv (holds_below-at j (bytes i) hj at_i)

or_table : table bit_or (λ b. true) ≡ true
unfolding table
or_table = refl

and_table : table (λ v m. bit_and v (255 - m)) (λ b. false) ≡ true
unfolding table
and_table = refl

xor_table : table bit_xor not ≡ true
unfolding table
xor_table = refl

-- A write of one byte: `f` is applied to the byte that holds bit `i`, and to the bit's mask.
change : (ℕ → ℕ → ℕ) → Bitmap → ℕ → Bitmap
change f m i = update m (i / 8) (f (m (i / 8)) (bit_mask i))

same_bit : (i j : ℕ) → i / 8 ≡ j / 8 → (7 - i % 8 == 7 - j % 8) ≡ (i == j)
same_bit i j h = ground arith

change-bit :
    (f : ℕ → ℕ → ℕ) (g : Bool → Bool) (m : Bitmap) (i j : ℕ)
    → table f g ≡ true
    → m (i / 8) < 256
    → is_bit_set (change f m i) j ≡ (if i == j then g (is_bit_set m j) else is_bit_set m j)
unfolding change row is_bit_set
change-bit f g m i j t h = elim (Bool-cases (j / 8 == i / 8)) [
  | inl e ↦
      let q : j / 8 ≡ i / 8 = (==_iff _ _).0 e in
      let r = table-row f g (m (i / 8)) (7 - i % 8) (7 - j % 8) t h (omega arith) (omega arith) in
      rw e (same-eq _ _ r ∙ rw (same_bit i j (sym q), q))
  | inr e ↦ rw e (ground (arith))
]

-- `set_bit` sets that bit and leaves every other as it was.
pub is_bit_set-set_bit :
    (m : Bitmap) (i j : ℕ)
    → AreBytes m
    → is_bit_set (set_bit m i) j ≡ (if i == j then true else is_bit_set m j)
unfolding set_bit change
is_bit_set-set_bit m i j h = change-bit bit_or (λ b. true) m i j or_table (h (i / 8))

-- `clear_bit` clears that bit and leaves every other as it was.
pub is_bit_set-clear_bit :
    (m : Bitmap) (i j : ℕ)
    → AreBytes m
    → is_bit_set (clear_bit m i) j ≡ (if i == j then false else is_bit_set m j)
unfolding clear_bit change
is_bit_set-clear_bit m i j h =
    change-bit (λ v m. bit_and v (255 - m)) (λ b. false) m i j and_table (h (i / 8))

-- `toggle_bit` inverts that bit and leaves every other as it was.
pub is_bit_set-toggle_bit :
    (m : Bitmap) (i j : ℕ)
    → AreBytes m
    → is_bit_set (toggle_bit m i) j ≡ (if i == j then not (is_bit_set m j) else is_bit_set m j)
unfolding toggle_bit change
is_bit_set-toggle_bit m i j h = change-bit bit_xor not m i j xor_table (h (i / 8))

-- The changed byte is a byte.
fits : (ℕ → ℕ → ℕ) → ℕ → ℕ → Bool
fits f i v = ltb (f v (2 ^ i)) 256

fit_table : (ℕ → ℕ → ℕ) → Bool
unfolding holds_below fits
fit_table f = holds_below (λ i. holds_below (fits f i) 256) 8

or_fits : fit_table bit_or ≡ true
unfolding fit_table
or_fits = refl

and_fits : fit_table (λ v m. bit_and v (255 - m)) ≡ true
unfolding fit_table
and_fits = refl

change-AreBytes :
    (f : ℕ → ℕ → ℕ) (m : Bitmap) (i : ℕ) → fit_table f ≡ true → AreBytes m → AreBytes (change f m i)
unfolding change fit_table
change-AreBytes f m i t h a =
    let at_i =
      holds_below-at {k = 8} (7 - i % 8) (λ i. holds_below (fits f i) 256) (omega arith) t in
    let r = holds_below-at (m (i / 8)) (fits f (7 - i % 8)) (h (i / 8)) at_i in
    ground (arith, ltb→lt _ _ r, h a)

pub set_bit-AreBytes : (m : Bitmap) (i : ℕ) → AreBytes m → AreBytes (set_bit m i)
unfolding set_bit change
set_bit-AreBytes m i h = change-AreBytes bit_or m i or_fits h

pub clear_bit-AreBytes : (m : Bitmap) (i : ℕ) → AreBytes m → AreBytes (clear_bit m i)
unfolding clear_bit change
clear_bit-AreBytes m i h = change-AreBytes (λ v m. bit_and v (255 - m)) m i and_fits h

-- Every bit of the byte 255 is set.
pub is_bit_set-ones : (m : Bitmap) (j : ℕ) → m (j / 8) ≡ 255 → is_bit_set m j ≡ true
unfolding is_bit_set holds_below
is_bit_set-ones m j e =
    rw e
      (holds_below-at {k = 8} (7 - j % 8) (λ i. not (bit_and 255 (2 ^ i) == 0)) (omega arith) ones)
  where
    ones : holds_below (λ i. not (bit_and 255 (2 ^ i) == 0)) 8 ≡ true
    ones = refl
