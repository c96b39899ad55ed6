-- ===== src/Memory/Heap/Split.antt =====
-- `split_block` of src/kernel/memory/heap.cpp keeps the free lists, and the memory in them.
use toystar.Prelude.{
  ℕ, suc, ◌+◌, ◌-◌, ◌*◌, ◌/◌, ◌^◌, ◌≤◌, ◌<◌, ◌≡◌, refl, sym, ◌≢◌, ◌⊎◌, inl, inr, true, false, ◌==◌,
  List, ◌∷◌, ltb, leb, ◌&&◌, arith, ==_iff, Bool-cases,
}
use toystar.Prelude.Word.{add64, sub64, update}
use toystar.Prelude.Outcome.{done}
use toystar.Memory.Heap.{
  Heap, Ptr, null, max_power, shl_int, set_next, set_size, set_bucket, split_block,
}
use toystar.Memory.Heap.FreeLists.{
  FreeLists, IsHeap, width, has, Distinct, Chain, Apart, width-suc, width-pos, Chain-frame, not-has,
}

-- The lists after the first block `a` of list `i` is split in two.
abbrev pub split : ℕ → Ptr → List Ptr → FreeLists → FreeLists
split i a xs l = update (update l i xs) (suc i) (a ∷ (a + width (suc i)) ∷ l (suc i))

module _ (s : Heap) (l : FreeLists) (i : ℕ) (a : Ptr) (xs : List Ptr) (heap : IsHeap s l)
    (low : i < max_power) (head : l i ≡ a ∷ xs) where
  second : Ptr
  second = a + width (suc i)

  -- The state after `split_block`.
  pub split_state : Heap
  unfolding second
  split_state =
      let s1 = set_bucket i (s.blocks a).next s in
      let s2 = set_size second (width (suc i)) (set_next second (s.bucket_list (suc i)) s1) in
      let s3 = set_size a (width (suc i)) (set_next a second s2) in set_bucket (suc i) a s3

  a-has : has a (l i) ≡ true
  a-has = rw head (ground arith)

  tail-ne : (x : Ptr) → has x xs ≡ true → x ≢ a
  tail-ne x h e =
      let d : Distinct (a ∷ xs) = rw head at (heap.distinct i (omega arith)) in ground (arith)

  -- A block of another list is not `a`.
  other-ne : (k : ℕ) (x : Ptr) → k ≤ max_power → k ≢ i → has x (l k) ≡ true → x ≢ a
  other-ne k x hk ne h e = elim (heap.apart i k a x (omega arith) hk a-has h) [
    | inl (p, q) ↦ ne (sym p)
    | inr (inl p) ↦ omega (arith, width-pos i)
    | inr (inr p) ↦ omega (arith, width-pos k)
  ]

  -- The second half of `a` is no free block.
  second-ne : (k : ℕ) (x : Ptr) → k ≤ max_power → has x (l k) ≡ true → x ≢ second
  unfolding second
  second-ne k x hk h e = elim (heap.apart i k a x (omega arith) hk a-has h) [
    | inl (p, q) ↦ omega (arith, width-pos (suc i))
    | inr (inl p) ↦ omega (arith, width-pos (suc i), width-suc i low)
    | inr (inr p) ↦ omega (arith, width-pos k, width-pos (suc i))
  ]

  -- Where a block of the new lists comes from.
  origin :
      (k : ℕ) (x : Ptr)
      → has x (split i a xs l k) ≡ true
      → ((has x (l k) ≡ true) × ((k ≢ i) ⊎ (x ≢ a))) ⊎ ((k ≡ suc i) × ((x ≡ a) ⊎ (x ≡ second)))
  unfolding second
  origin k x h = elim (Bool-cases (k == suc i)) [
    | inl e ↦ let q : k ≡ suc i = (==_iff _ _).0 e in ground arith
    | inr e ↦ elim (Bool-cases (k == i)) [
      | inl f ↦
          let q : k ≡ i = (==_iff _ _).0 f in
          let t : has x xs ≡ true = ground arith in
          inl (rw (q, head) (ground arith), inr (tail-ne x t))
      | inr f ↦ let q : k ≢ i = λ p. ground arith in inl (ground arith, inl q)
    ]
  ]

  -- Two old blocks, an old and a half, and two halves are apart.
  half-Apart :
      (k : ℕ) (x y : Ptr)
      → k ≤ max_power
      → has x (l k) ≡ true
      → (k ≢ i) ⊎ (x ≢ a)
      → (y ≡ a) ⊎ (y ≡ second)
      → Apart k x (suc i) y
  unfolding second
  half-Apart k x y hk h ne half =
      ground (arith, heap.apart k i x a hk (omega arith) h a-has, width-suc i low)

  Apart-sym : (j k : ℕ) (x y : Ptr) → Apart j x k y → Apart k y j x
  Apart-sym j k x y (inl (p, q)) = inl (sym p, sym q)
  Apart-sym j k x y (inr (inl p)) = inr (inr p)
  Apart-sym j k x y (inr (inr p)) = inr (inl p)

  split-Apart :
      (j k : ℕ) (x y : Ptr)
      → j ≤ max_power
      → k ≤ max_power
      → has x (split i a xs l j) ≡ true
      → has y (split i a xs l k) ≡ true
      → Apart j x k y
  unfolding second
  split-Apart j k x y hj hk hx hy = elim (origin j x hx) [
    | inl (ox, nx) ↦ elim (origin k y hy) [
      | inl (oy, ny) ↦ heap.apart j k x y hj hk ox oy
      | inr (e, half) ↦ rw e (half-Apart j x y hj ox nx half)
    ]
    | inr (e, half) ↦ elim (origin k y hy) [
      | inl (oy, ny) ↦ rw e (Apart-sym k (suc i) y x (half-Apart k y x hk oy ny half))
      | inr (e', half') ↦ ground (arith, width-suc i low)
    ]
  ]

  split-Distinct : (k : ℕ) → k ≤ max_power → Distinct (split i a xs l k)
  unfolding second
  split-Distinct k hk = elim (Bool-cases (k == suc i)) [
    | inl e ↦
        let q : k ≡ suc i = (==_iff _ _).0 e in
        let no_a = not-has a (l (suc i)) (λ y h. other-ne (suc i) y low (λ p. omega arith) h) in
        let no_b = not-has (a + width (suc i)) (l (suc i)) (λ y h. second-ne (suc i) y low h) in
        let d = heap.distinct (suc i) low in rw e (ground (arith, width-pos (suc i)), (no_b, d))
    | inr e ↦ elim (Bool-cases (k == i)) [
      | inl f ↦
          let d : Distinct (a ∷ xs) = rw head at (heap.distinct i (omega arith)) in rw (e, f) d.1
      | inr f ↦ rw (e, f) (heap.distinct k hk)
    ]
  ]

  -- A list without `a` and without the second half keeps its chain.
  kept :
      (p : Ptr) (ys : List Ptr)
      → ((y : Ptr) → has y ys ≡ true → (y ≢ a) × (y ≢ second))
      → Chain s.blocks p ys
      → Chain split_state.blocks p ys
  unfolding split_state
  kept p ys out = Chain-frame s.blocks split_state.blocks p ys (λ y h. ground (arith, out y h))

  next-second : (split_state.blocks second).next ≡ s.bucket_list (suc i)
  unfolding split_state second
  next-second = ground (arith, width-pos (suc i))

  split-within :
      (k : ℕ) (x : Ptr)
      → k ≤ max_power
      → has x (split i a xs l k) ≡ true
      → (s.base_addr ≤ x) × (x + width k ≤ s.base_addr + 2 ^ max_power)
  unfolding second
  split-within k x hk h = elim (origin k x h) [
    | inl (o, n) ↦ heap.within k x hk o
    | inr (e, half) ↦
        let w = heap.within i a (omega arith) a-has in rw e (ground (arith, width-suc i low))
  ]

  split-sizes :
      (k : ℕ) (x : Ptr)
      → k ≤ max_power
      → has x (split i a xs l k) ≡ true
      → (split_state.blocks x).size ≡ width k
  unfolding second split_state
  split-sizes k x hk h = elim (origin k x h) [
    | inl (o, n) ↦
        let ne : x ≢ a = elim n [ inl p ↦ other-ne k x hk p o | inr q ↦ q ] in
        ground (arith, heap.sizes k x hk o, second-ne k x hk o)
    | inr (e, half) ↦ rw e (ground arith)
  ]

  split-chains :
      (k : ℕ)
      → k ≤ max_power
      → Chain split_state.blocks (split_state.bucket_list k) (split i a xs l k)
  unfolding split_state second
  split-chains k hk = elim (Bool-cases (k == suc i)) [
    | inl e ↦
        let out =
          kept (s.bucket_list (suc i)) (l (suc i))
            (λ y h. (other-ne (suc i) y low (λ p. omega arith) h, second-ne (suc i) y low h))
            (heap.chains (suc i) low) in
        let c : Chain s.blocks (s.bucket_list i) (a ∷ xs) =
          rw head at (heap.chains i (omega arith)) in
        rw e (refl, c.1, (ground arith, ground (arith, width-pos (suc i)), rw next-second out))
    | inr e ↦ elim (Bool-cases (k == i)) [
      | inl f ↦
          let c : Chain s.blocks (s.bucket_list i) (a ∷ xs) =
            rw head at (heap.chains i (omega arith)) in
          rw (e, f)
            (kept (s.blocks a).next xs
              (λ y h. (tail-ne y h, second-ne i y (omega arith) (rw head (ground arith)))) c.2)
      | inr f ↦
          rw (e, f)
            (kept (s.bucket_list k) (l k)
              (λ y h. (other-ne k y hk (λ p. ground arith) h, second-ne k y hk h))
              (heap.chains k hk))
    ]
  ]

  -- `split_block` keeps the free lists.
  pub split-IsHeap : IsHeap split_state (split i a xs l)
  unfolding split_state
  split-IsHeap = record {
    chains = split-chains;
    distinct = split-Distinct;
    apart = split-Apart;
    within = split-within;
    sizes = split-sizes;
    mapped = heap.mapped;
  }

  shift : shl_int (max_power - i) ≡ done (2 * width (suc i))
  unfolding width
  shift = rw (sym (width-suc i low)) (ground arith)

  pub split_block-done : split_block (max_power - i) s ≡ done (true, split_state)
  unfolding split_block split_state second
  split_block-done =
      let index : sub64 max_power (max_power - i) ≡ i = omega arith in
      let c : Chain s.blocks (s.bucket_list i) (a ∷ xs) =
        rw head at (heap.chains i (omega arith)) in
      let w = heap.within i a (omega arith) a-has in
      let half : 2 * width (suc i) / 2 ≡ width (suc i) = omega arith in
      let sum : add64 a (width (suc i)) ≡ a + width (suc i) =
        omega (arith, heap.mapped, width-suc i low) in
      let first : ltb i 512 ≡ true = ground arith in
      let guard : (leb (max_power - i) 4 && ltb max_power (max_power - i)) ≡ false = ground arith in
      let there : (a == null) ≡ false = ground (arith, c.1) in
      let next_index : i + 1 ≡ suc i = omega arith in
      let fits : ltb (suc i) 512 ≡ true = ground arith in
      let other : (suc i == i) ≡ false = ground arith in
      rw (index, c.0, guard, first, there, shift, half, sum, next_index, fits, other)

  pub base_addr-split_state : split_state.base_addr ≡ s.base_addr
  unfolding split_state
  base_addr-split_state = refl

  pub heap_lock-split_state : split_state.heap_lock ≡ s.heap_lock
  unfolding split_state
  heap_lock-split_state = refl
