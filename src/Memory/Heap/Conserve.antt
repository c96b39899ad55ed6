-- ===== src/Memory/Heap/Conserve.antt =====
-- The free memory of src/kernel/memory/heap.cpp, byte by byte: a split moves none of it.
use toystar.Prelude.{
  ℕ, suc, ◌+◌, ◌≤◌, ◌<◌, ◌≡◌, ◌↔◌, inl, inr, true, List, ◌∷◌, ◌==◌, ltb, arith, Bool-cases,
}
use toystar.Memory.Heap.{Ptr, max_power}
use toystar.Memory.Heap.FreeLists.{FreeLists, width, has, width-suc}
use toystar.Memory.Heap.Split.{split}

-- The byte at `x` lies in a free block.
abbrev pub IsFree : FreeLists → ℕ → Type 0
IsFree l x =
    (i : ℕ) × (a : Ptr) × (i ≤ max_power) × (has a (l i) ≡ true) × (a ≤ x) × (x < a + width i)

module _ (l : FreeLists) (i : ℕ) (a : Ptr) (xs : List Ptr) (low : i < max_power)
    (head : l i ≡ a ∷ xs) where
  split-IsFree_to : (x : ℕ) → IsFree l x → IsFree (split i a xs l) x
  split-IsFree_to x (k, b, hk, h, lo, hi) = elim (Bool-cases (k == i)) [
    | inl e ↦ elim (Bool-cases (b == a)) [
      | inl f ↦ elim (Bool-cases (ltb x (a + width (suc i)))) [
        | inl g ↦ (suc i, a, low, ground arith, ground arith, ground arith)
        | inr g ↦ (
          suc i,
          a + width (suc i),
          low,
          ground arith,
          ground arith,
          ground (arith, width-suc i low),
        )
      ]
      | inr f ↦ (k, b, hk, ground arith, lo, hi)
    ]
    | inr e ↦ (k, b, hk, ground arith, lo, hi)
  ]

  split-IsFree_from : (x : ℕ) → IsFree (split i a xs l) x → IsFree l x
  split-IsFree_from x (k, b, hk, h, lo, hi) = elim (Bool-cases (k == suc i)) [
    | inl e ↦ elim (Bool-cases (has b (l (suc i)))) [
      | inl f ↦ (suc i, b, low, f, lo, ground arith)
      | inr f ↦ (i, a, omega arith, ground arith, ground arith, ground (arith, width-suc i low))
    ]
    | inr e ↦ elim (Bool-cases (k == i)) [
      | inl f ↦ (i, b, omega arith, ground arith, lo, ground arith)
      | inr f ↦ (k, b, hk, ground arith, lo, hi)
    ]
  ]

  pub split-IsFree : (x : ℕ) → IsFree l x ↔ IsFree (split i a xs l) x
  split-IsFree x = (split-IsFree_to x, split-IsFree_from x)
