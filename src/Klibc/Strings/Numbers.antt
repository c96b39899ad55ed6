-- ===== src/Klibc/Strings/Numbers.antt =====
-- `atoi` and `octal_to_int` of src/klibc/strings.cpp on numerals.
use toystar.Prelude.{
  ℕ, zero, suc, ◌+◌, ◌-◌, ◌*◌, ◌^◌, ◌%◌, ◌≤◌, ◌<◌, ◌≡◌, sym, ◌∙◌, true, false, List, [], ◌∷◌, ◌==◌,
  ltb, length, map, arith,
}
use native.Mathlib.Nat.{pow-zero, pow-suc}
use toystar.Prelude.Word.{u64_mod}
use toystar.Klibc.Strings.{CString, char_value, digits_from, octal_to_int}

-- Digits below `base`.
abbrev pub AreDigits : ℕ → List ℕ → Type 0
AreDigits base [] = Unit {0}
AreDigits base (d ∷ ds) = (d < base) × AreDigits base ds

-- The number that digits stand for, the most significant one first.
abbrev pub value : ℕ → List ℕ → ℕ
value base [] = 0
value base (d ∷ ds) = d * base ^ length ds + value base ds

abbrev pub digit_char : ℕ → ℕ
digit_char d = d + 48

-- A round of the loop, where nothing wraps around.
round :
    (a d : ℕ)
    → d < 10
    → a + d < u64_mod
    → (a % u64_mod + char_value (d + 48) + u64_mod - 48) % u64_mod ≡ a + d
round a d hd h = let small : ltb (d + 48) 128 ≡ true = ground arith in rw small (omega arith)

digits_from-cons :
    (base num c : ℕ) (s : CString) (m : ℕ)
    → 0 < c
    → (num * base % u64_mod + char_value c + u64_mod - 48) % u64_mod ≡ m
    → digits_from base num (c ∷ s) ≡ digits_from base m s
unfolding digits_from
digits_from-cons base num c s m h e = let k : (c == 0) ≡ false = ground arith in rw (k, e)

positive : (a b : ℕ) → 0 < a → 0 < b → 0 < a * b
positive a zero h k = absurd (omega arith)
positive a (suc b) h k = omega arith

power_pos : (base n : ℕ) → 0 < base → 0 < base ^ n
power_pos base zero h = rw (pow-zero base) (omega arith)
power_pos base (suc n) h = rw (pow-suc base n) (positive (base ^ n) base (power_pos base n h) h)

-- With a round's digit taken in, the rest stands for the same number.
regroup : (num base d p v : ℕ) → num * (p * base) + (d * p + v) ≡ (num * base + d) * p + v
regroup num base d p v = omega arith

le_scaled : (a p v : ℕ) → 0 < p → a ≤ a * p + v
le_scaled a zero v h = absurd (omega arith)
le_scaled a (suc p) v h = omega arith

pub digits_from-value :
    (base num : ℕ) (ds : List ℕ)
    → base ≤ 10
    → AreDigits base ds
    → num * base ^ length ds + value base ds < u64_mod
    → digits_from base num (map digit_char ds) ≡ num * base ^ length ds + value base ds
unfolding digits_from
digits_from-value base num [] hb h small =
    let e : num * 1 + 0 ≡ num = omega arith in rw (pow-zero base) (sym e)
digits_from-value base num (d ∷ ds) hb (hd, h) small =
    let p = power_pos base (length ds) (omega arith) in
    let g = regroup num base d (base ^ length ds) (value base ds) in
    let small' : (num * base + d) * base ^ length ds + value base ds < u64_mod =
      rw (pow-suc base (length ds), g) at small in
    let b = le_scaled (num * base + d) (base ^ length ds) (value base ds) p in
    digits_from-cons base num (d + 48) (map digit_char ds) (num * base + d) (omega arith)
      (round (num * base) d (omega arith) (omega arith))
    ∙ digits_from-value base (num * base + d) ds hb h small'
    ∙ rw (pow-suc base (length ds)) (sym g)

-- A numeral of octal digits, as a tar header has them, is read as its number if that fits 64 bits.
octal_to_int-value :
    (ds : List ℕ)
    → AreDigits 8 ds
    → value 8 ds < u64_mod
    → octal_to_int (map digit_char ds) ≡ value 8 ds
unfolding octal_to_int
octal_to_int-value ds h small =
    let e : 0 * 8 ^ length ds + value 8 ds ≡ value 8 ds = omega arith in
    digits_from-value 8 0 ds (omega arith) h (rw (e) small) ∙ e
