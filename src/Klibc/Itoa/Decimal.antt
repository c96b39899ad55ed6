-- ===== src/Klibc/Itoa/Decimal.antt =====
-- The digits that `itoa` of src/klibc/strings.cpp computes, against the value of a text of digits.
use toystar.Prelude.{
  ℕ, zero, suc, ◌+◌, ◌*◌, ◌/◌, ◌%◌, ◌^◌, ◌≤◌, ◌<◌, ◌≡◌, refl, ◌∙◌, ap, true, false, List, [], ◌∷◌,
  ◌++◌, ◌==◌, ==_iff, length, arith, Bool-cases, inl, inr,
}
use mathlib.Core.List.{reverse, reverse-cons}
use native.Mathlib.Nat.{pow-zero, pow-suc}
use toystar.Klibc.Vector.Copy.{length-snoc}
use toystar.Klibc.Strings.Numbers.{AreDigits, value}
use toystar.Klibc.Itoa.Digits.{low_digits}

pub low_digits-AreDigits : (f n : ℕ) → AreDigits 10 (low_digits f n)
unfolding low_digits
low_digits-AreDigits zero n = tt
low_digits-AreDigits (suc f) n = elim (Bool-cases (n == 0)) [
  | inl z ↦ rw z tt
  | inr z ↦ rw z (omega arith, low_digits-AreDigits f (n / 10))
]

AreDigits-snoc : (ds : List ℕ) (d : ℕ) → AreDigits 10 ds → d < 10 → AreDigits 10 (ds ++ (d ∷ []))
AreDigits-snoc [] d h k = (k, tt)
AreDigits-snoc (e ∷ ds) d (p, h) k = (p, AreDigits-snoc ds d h k)

pub reverse-AreDigits : (ds : List ℕ) → AreDigits 10 ds → AreDigits 10 (reverse ds)
reverse-AreDigits [] h = tt
reverse-AreDigits (d ∷ ds) (p, h) =
    rw (reverse-cons d ds) (AreDigits-snoc (reverse ds) d (reverse-AreDigits ds h) p)

value-snoc : (ds : List ℕ) (d : ℕ) → value 10 (ds ++ (d ∷ [])) ≡ value 10 ds * 10 + d
value-snoc [] d = rw (pow-zero 10) (omega arith)
value-snoc (e ∷ ds) d =
    let n : length (ds ++ (d ∷ [])) ≡ suc (length ds) = omega (arith, length-snoc ds d) in
    rw (n, pow-suc 10 (length ds)) (omega (arith, value-snoc ds d))

-- The digits in their order stand for the number.
pub value-low_digits : (f n : ℕ) → n < 2 ^ f → value 10 (reverse (low_digits f n)) ≡ n
unfolding low_digits
value-low_digits zero n h = let small : n < 1 = rw (pow-zero 2) at h in omega arith
value-low_digits (suc f) n h = elim (Bool-cases (n == 0)) [
  | inl z ↦ rw z (ground arith)
  | inr z ↦
      let h' : n < 2 ^ f * 2 = rw (pow-suc 2 f) at h in
      rw
        (
          z,
          reverse-cons (n % 10) (low_digits f (n / 10)),
          value-snoc (reverse (low_digits f (n / 10))) (n % 10),
          value-low_digits f (n / 10) (omega arith),
        )
        (omega arith)
]

pub length-low_digits : (f n k : ℕ) → n < 10 ^ k → length (low_digits f n) ≤ k
unfolding low_digits
length-low_digits zero n k h = omega arith
length-low_digits (suc f) n zero h = let small : n < 1 = rw (pow-zero 10) at h in ground arith
length-low_digits (suc f) n (suc k) h = elim (Bool-cases (n == 0)) [
  | inl z ↦ rw z (omega arith)
  | inr z ↦
      let h' : n < 10 ^ k * 10 = rw (pow-suc 10 k) at h in
      rw z (omega (arith, length-low_digits f (n / 10) k (omega arith)))
]

low_digits-zero : (f n : ℕ) → n ≡ 0 → low_digits f n ≡ []
unfolding low_digits
low_digits-zero zero n e = refl
low_digits-zero (suc f) n e = let z : (n == 0) ≡ true = ground arith in rw z

pub length-positive : (f n : ℕ) → 0 < n → 0 < length (low_digits (suc f) n)
unfolding low_digits
length-positive f n pos = let z : (n == 0) ≡ false = ground arith in rw z (omega arith)

-- A longer text of digits would be that of a larger number: there is no leading zero.
pub shortest_low_digits : (f n : ℕ) → 0 < n → n < 2 ^ f → 10 ^ length (low_digits f n) ≤ 10 * n
unfolding low_digits
shortest_low_digits zero n pos h = let small : n < 1 = rw (pow-zero 2) at h in absurd (omega arith)
shortest_low_digits (suc f) n pos h =
    let z : (n == 0) ≡ false = ground arith in
    let h' : n < 2 ^ f * 2 = rw (pow-suc 2 f) at h in
    rw (z, pow-suc 10 (length (low_digits f (n / 10))))
      (elim (Bool-cases (n / 10 == 0)) [
        | inl e ↦
            let none_left = low_digits-zero f (n / 10) ((==_iff (n / 10) 0).0 e) in
            let one : 10 ^ length (low_digits f (n / 10)) ≡ 1 =
              ap (λ ds. 10 ^ length ds) none_left ∙ pow-zero 10 in
            omega arith
        | inr e ↦
            let more = shortest_low_digits f (n / 10) (ground arith) (omega arith) in omega arith
      ])
