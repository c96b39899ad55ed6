-- ===== src/Memory/Heap/Order.antt =====
-- The order that `kmalloc` and `kfree` of src/kernel/memory/heap.cpp compute from a size.
use toystar.Prelude.{
  ℕ, zero, suc, ◌+◌, ◌-◌, ◌^◌, ◌≤◌, ◌<◌, ◌≡◌, ◌≢◌, ap, ◌⊎◌, inl, inr, true, ltb, ◌==◌, arith,
  Bool-cases, ltb→lt,
}
use native.Mathlib.Nat.{pow-suc}
use toystar.Prelude.Word.{u64_mod}
use toystar.Prelude.Outcome.{done, fault}
use toystar.Memory.Heap.{shl_int, order_for, order_fuel, max_power, min_power}
use toystar.Memory.Heap.FreeLists.{width}

pub pow_mono : (d a : ℕ) → 2 ^ a ≤ 2 ^ (d + a)
pow_mono zero a = let e : 0 + a ≡ a = omega arith in rw e (omega arith)
pow_mono (suc d) a =
    let e : suc d + a ≡ suc (d + a) = omega arith in
    rw e (simp pow-suc (omega (arith, pow_mono d a)))

pub pow-le : (a b : ℕ) → a ≤ b → 2 ^ a ≤ 2 ^ b
pow-le a b h = let e : b ≡ (b - a) + a = omega arith in rw e (pow_mono (b - a) a)

-- The smallest order from `order` on whose blocks hold `size` bytes.
order_for-least :
    (fuel order top size : ℕ)
    → order ≤ top
    → top ≤ 30
    → top < order + fuel
    → size ≤ 2 ^ top
    → (o : ℕ) × (order_for fuel order size ≡ done o)
      × (order ≤ o)
      × (o ≤ top)
      × (size ≤ 2 ^ o)
      × ((j : ℕ) → order ≤ j → j < o → 2 ^ j < size)
unfolding order_for
order_for-least zero order top size lo hi fuel fits = absurd (omega arith)
order_for-least (suc n) order top size lo hi fuel fits =
    let small : ltb order 31 ≡ true = ground arith in
    elim (Bool-cases (ltb (2 ^ order) size)) [
      | inl b ↦
          let lt = ltb→lt _ _ b in
          let below : order ≢ top = λ e. absurd (omega (arith, ap (λ (t : ℕ). 2 ^ t) e)) in
          let (o, e, p, q, r, m) =
            order_for-least n (order + 1) top size (omega arith) hi (omega arith) fits in
          (
            o,
            rw (small, b, e),
            omega arith,
            q,
            r,
            λ j l h. elim (Bool-cases (order == j)) [
              | inl f ↦ ground arith
              | inr f ↦ ground (arith, m j)
            ],
          )
      | inr b ↦ (order, rw (small, b), omega arith, lo, ground arith, λ j l h. absurd (omega arith))
    ]

-- A request of `bytes` gets a block of index `k` where that is the smallest that holds it and its
-- header.
pub order_for-width :
    (size k : ℕ)
    → k ≤ 15
    → width (suc k) < size
    → size ≤ width k
    → order_for order_fuel min_power size ≡ done (max_power - k)
unfolding width
order_for-width size k small above fits =
    let (o, e, lo, hi, holds, least) =
      order_for-least 30 4 (20 - k) size (omega arith) (omega arith) (omega arith) fits in
    let same : o ≡ 20 - k = elim (Bool-cases (ltb o (20 - k))) [
      | inl b ↦ absurd (omega (arith, ltb→lt _ _ b, pow-le o (20 - suc k)))
      | inr b ↦ ground arith
    ] in
    rw e (ground arith)

shl_int-cases :
    (order : ℕ)
    → (shl_int order ≡ fault)
      ⊎ ((v : ℕ) × (shl_int order ≡ done v) × (order < 32) × (order ≤ 20 → v ≤ 2 ^ 20))
shl_int-cases order = elim (Bool-cases (ltb order 31)) [
  | inl b ↦ inr (2 ^ order, rw b, ground arith, λ h. pow-le order 20 h)
  | inr b ↦ elim (Bool-cases (order == 31)) [
    | inl e ↦ inr (u64_mod - 2 ^ 31, rw (b, e), ground arith, λ h. absurd (ground arith))
    | inr e ↦ inl (rw (b, e))
  ]
]

-- More than 2 ^ 20 bytes: the order is above 20, or the shift of an `int` is undefined.
pub order_for-large :
    (fuel order size : ℕ)
    → 2 ^ 20 < size
    → 32 < order + fuel
    → order ≤ 32
    → (order_for fuel order size ≡ fault)
      ⊎ ((o : ℕ) × (order_for fuel order size ≡ done o) × (20 < o) × (o < 32))
unfolding order_for
order_for-large zero order size large fuel lo = absurd (omega arith)
order_for-large (suc n) order size large fuel lo = elim (shl_int-cases order) [
  | inl e ↦ inl (rw e)
  | inr (v, e, hi, small) ↦ elim (Bool-cases (ltb v size)) [
    | inl b ↦ rw (e, b) (order_for-large n (order + 1) size large (omega arith) (omega arith))
    | inr b ↦ inr (order, rw (e, b), ground arith, hi)
  ]
]
