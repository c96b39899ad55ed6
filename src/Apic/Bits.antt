-- ===== src/Apic/Bits.antt =====
-- The binary digits of the words that src/kernel/x86_64/apic.cpp writes to the I/O APIC.
use toystar.Prelude.{
  ℕ, zero, suc, ◌+◌, ◌*◌, ◌/◌, ◌%◌, ◌≤◌, ◌≡◌, refl, ◌∙◌, ap, bit_and, bit_or, min, arith,
}
use Prim.Native.Nat.{max, digits, bit_or-bitwise, bit_and-bitwise}

-- The binary digit `k` of a number.
abbrev pub bit : ℕ → ℕ → ℕ
bit zero a = a % 2
bit (suc k) a = bit k (a / 2)

bit-zero : (k : ℕ) → bit k 0 ≡ 0
bit-zero zero = refl
bit-zero (suc k) = bit-zero k

digits-max : (k n a b : ℕ) → a ≤ n → bit k b ≡ 1 → bit k (digits (λ b. b) max n a b) ≡ 1
digits-max k zero a b le h = h
digits-max k (suc n) zero b le h = h
digits-max zero (suc n) (suc a) b le h = omega arith
digits-max (suc k) (suc n) (suc a) b le h =
    let upper = digits (λ b. b) max n (suc a / 2) (b / 2) in
    let half : (upper * 2 + max (suc a % 2) (b % 2)) / 2 ≡ upper = omega arith in
    ap (bit k) half ∙ digits-max k n (suc a / 2) (b / 2) (omega arith) h

digits-min : (k n a b : ℕ) → a ≤ n → bit k (digits (λ b. 0) min n a b) ≡ min (bit k a) (bit k b)
digits-min k zero a b le = let none : a ≡ 0 = omega arith in rw (none, bit-zero k) (omega arith)
digits-min k (suc n) zero b le = rw (bit-zero k) (omega arith)
digits-min zero (suc n) (suc a) b le = omega arith
digits-min (suc k) (suc n) (suc a) b le =
    let upper = digits (λ b. 0) min n (suc a / 2) (b / 2) in
    let half : (upper * 2 + min (suc a % 2) (b % 2)) / 2 ≡ upper = omega arith in
    ap (bit k) half ∙ digits-min k n (suc a / 2) (b / 2) (omega arith)

-- A digit that is set in one of two words is set in their `|`.
pub bit-bit_or : (k a b : ℕ) → bit k b ≡ 1 → bit k (bit_or a b) ≡ 1
bit-bit_or k a b h =
    let e : bit_or a b ≡ digits (λ b. b) max a a b = bit_or-bitwise a b in
    ap (bit k) e ∙ digits-max k a a b (omega arith) h

pub bit-bit_and : (k a b : ℕ) → bit k (bit_and a b) ≡ min (bit k a) (bit k b)
bit-bit_and k a b =
    let e : bit_and a b ≡ digits (λ b. 0) min a a b = bit_and-bitwise a b in
    ap (bit k) e ∙ digits-min k a a b (omega arith)
