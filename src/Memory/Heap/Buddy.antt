-- ===== src/Memory/Heap/Buddy.antt =====
-- `find_buddy` of src/kernel/memory/heap.cpp.
use toystar.Prelude.{
  ℕ, zero, suc, ◌+◌, ◌-◌, ◌^◌, ◌≤◌, ◌<◌, ◌≡◌, true, false, Option, none, some, List, [], ◌∷◌, ◌==◌,
  ltb, leb, bit_xor, length, get_elem?, arith, Bool-cases, inl, inr, if◌then◌else◌,
}
use toystar.Prelude.Word.{sub64}
use toystar.Prelude.Outcome.{done}
use toystar.Memory.Heap.{
  Heap, Ptr, null, max_power, min_power, deref, walk, search_buddy, find_buddy,
}
use toystar.Memory.Heap.FreeLists.{FreeLists, IsHeap, Chain}

-- The position of `x` in a list that starts at position `i`.
abbrev pub position : Ptr → List Ptr → ℕ → Option ℕ
position x [] i = none
position x (y ∷ ys) i = if y == x then some i else position x ys (i + 1)

search_buddy-position :
    (fuel : ℕ) (buddy p i : ℕ) (s : Heap) (xs : List Ptr)
    → Chain s.blocks p xs
    → length xs < fuel
    → search_buddy fuel buddy p i s ≡ done (position buddy xs i)
unfolding search_buddy
search_buddy-position zero buddy p i s xs c enough = absurd (omega arith)
search_buddy-position (suc fuel) buddy p i s [] c enough = rw c
search_buddy-position (suc fuel) buddy p i s (x ∷ xs) (e, ne, c) enough =
    let there : (x == null) ≡ false = ground arith in
    elim (Bool-cases (x == buddy)) [
      | inl b ↦ rw (e, there, b)
      | inr b ↦
          rw (e, there, b)
            (search_buddy-position fuel buddy (s.blocks x).next (i + 1) s xs c (omega arith))
    ]

walk-get :
    (i p x : ℕ) (s : Heap) (xs : List Ptr)
    → Chain s.blocks p xs
    → get_elem? xs i ≡ some x
    → (walk i p s ≡ done x) × ((x == null) ≡ false)
unfolding walk deref
walk-get i p x s [] c e = absurd (ground arith)
walk-get zero p x s (y ∷ xs) (q, ne, c) e = let f : y ≡ x = cc in (rw (q, f), ground arith)
walk-get (suc i) p x s (y ∷ xs) (q, ne, c) e =
    let there : (y == null) ≡ false = ground arith in
    let r = walk-get i (s.blocks y).next x s xs c e in (rw (q, there) r.0, r.1)

-- For the block `x` at position `i` of the list of its order, with more fuel than the list is long,
-- `find_buddy` returns without a fault: the position of the block whose address differs from `x` in
-- the bit of the order, and -1 if the list does not hold it.
find_buddy-position :
    (fuel order i : ℕ) (x : Ptr) (s : Heap) (l : FreeLists)
    → IsHeap s l
    → min_power < order
    → order ≤ max_power
    → get_elem? (l (max_power - order)) i ≡ some x
    → length (l (max_power - order)) < fuel
    → find_buddy fuel order i s ≡ done (position (bit_xor x (2 ^ order)) (l (max_power - order)) 0)
unfolding find_buddy
find_buddy-position fuel order i x s l heap lo hi at enough =
    let k = max_power - order in
    let c = heap.chains k (omega arith) in
    let index : sub64 max_power order ≡ max_power - order = omega arith in
    let guard : leb order 4 ≡ false = ground arith in
    let first : ltb (max_power - order) 512 ≡ true = ground arith in
    let small : ltb order 31 ≡ true = ground arith in
    let w = walk-get i (s.bucket_list k) x s (l k) c at in
    let head : (s.bucket_list (max_power - order) == null) ≡ false =
      not_null (s.bucket_list k) i x s (l k) c at in
    rw (guard, index, first, head, w.0, w.1, small)
      (search_buddy-position fuel (bit_xor x (2 ^ order)) (s.bucket_list k) 0 s (l k) c enough)
  where
    not_null :
        (p i x : ℕ) (s : Heap) (xs : List Ptr)
        → Chain s.blocks p xs
        → get_elem? xs i ≡ some x
        → (p == null) ≡ false
    not_null p i x s [] c e = absurd (ground arith)
    not_null p i x s (y ∷ ys) (q, ne, c) e = ground arith
