-- ===== src/Memory/Heap/FreeLists.antt =====
-- What the buckets of src/kernel/memory/heap.cpp stand for: a list of free blocks for each order.
use toystar.Prelude.{
  ℕ, zero, suc, ◌+◌, ◌-◌, ◌*◌, ◌^◌, ◌≤◌, ◌<◌, ◌≡◌, refl, ◌≢◌, ◌⊎◌, inl, inr, Bool, true, false,
  ◌||◌, ◌==◌, List, [], ◌∷◌, arith, Bool-cases,
}
use toystar.Prelude.Word.{u64_mod}
use native.Mathlib.Nat.{pow-suc}
use toystar.Memory.Heap.{Heap, Block, Ptr, null, max_power, sizeof_block}

-- The addresses of the free blocks, by index; those of index `i` are `width i` bytes long.
abbrev pub FreeLists : Type 0
FreeLists = ℕ → List Ptr

unfoldable pub width : ℕ → ℕ
width i = 2 ^ (20 - i)

abbrev pub has : Ptr → List Ptr → Bool
has x [] = false
has x (y ∷ ys) = (x == y) || has x ys

abbrev pub Distinct : List Ptr → Type 0
Distinct [] = Unit {0}
Distinct (x ∷ xs) = (has x xs ≡ false) × Distinct xs

-- From `p` the `next` pointers lead through `xs` to null.
abbrev pub Chain : (Ptr → Block) → Ptr → List Ptr → Type 0
Chain b p [] = p ≡ null
Chain b p (x ∷ xs) = (p ≡ x) × (x ≢ null) × Chain b (b x).next xs

-- A block `x` of index `i` and a block `y` of index `j` are the same, or do not overlap.
abbrev pub Apart : ℕ → Ptr → ℕ → Ptr → Type 0
Apart i x j y = ((i ≡ j) × (x ≡ y)) ⊎ (x + width i ≤ y) ⊎ (y + width j ≤ x)

pub record IsHeap (s : Heap) (l : FreeLists) : Type 0 where
  pub chains : (i : ℕ) → i ≤ max_power → Chain s.blocks (s.bucket_list i) (l i)
  pub distinct : (i : ℕ) → i ≤ max_power → Distinct (l i)
  pub apart :
      (i j : ℕ) (x y : Ptr)
      → i ≤ max_power
      → j ≤ max_power
      → has x (l i) ≡ true
      → has y (l j) ≡ true
      → Apart i x j y
  pub within :
      (i : ℕ) (x : Ptr)
      → i ≤ max_power
      → has x (l i) ≡ true
      → (s.base_addr ≤ x) × (x + width i ≤ s.base_addr + 2 ^ max_power)
  pub sizes : (i : ℕ) (x : Ptr) → i ≤ max_power → has x (l i) ≡ true → (s.blocks x).size ≡ width i
  pub mapped : (0 < s.base_addr) × (s.base_addr + 2 ^ max_power + sizeof_block < u64_mod)

pub width-suc : (i : ℕ) → i < max_power → width i ≡ 2 * width (suc i)
unfolding width
width-suc i h = let e : 20 - i ≡ suc (20 - suc i) = omega arith in rw e (simp pow-suc (omega arith))

pub width-pos : (i : ℕ) → 0 < width i
unfolding width
width-pos i = pow-pos_two (20 - i)
  where
    pow-pos_two : (n : ℕ) → 0 < 2 ^ n
    pow-pos_two zero = omega arith
    pow-pos_two (suc n) = simp pow-suc (omega (arith, pow-pos_two n))

-- A chain does not feel a change of blocks that are not on it.
pub Chain-frame :
    (b b' : Ptr → Block) (p : Ptr) (xs : List Ptr)
    → ((x : Ptr) → has x xs ≡ true → (b' x).next ≡ (b x).next)
    → Chain b p xs
    → Chain b' p xs
Chain-frame b b' p [] same c = c
Chain-frame b b' p (x ∷ xs) same (e, ne, c) =
    (e, ne, rw (same x (ground arith)) (Chain-frame b b' _ xs (λ y h. same y (ground arith)) c))

pub not-has : (x : Ptr) (ys : List Ptr) → ((y : Ptr) → has y ys ≡ true → y ≢ x) → has x ys ≡ false
not-has x ys f = elim (Bool-cases (has x ys)) [ inl h ↦ absurd (f x h refl) | inr h ↦ h ]
