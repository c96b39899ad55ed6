-- ===== src/Memory/Heap/Take.antt =====
-- The end of `kmalloc` of src/kernel/memory/heap.cpp: the first block of a bucket is unlinked.
use toystar.Prelude.{
  ℕ, ◌+◌, ◌≤◌, ◌<◌, ◌≡◌, ◌≢◌, refl, ◌↔◌, ◌⊎◌, inl, inr, true, false, List, ◌∷◌, ◌==◌, ltb, arith,
  Bool-cases, ==_iff,
}
use toystar.Prelude.Word.{add64, update}
use toystar.Prelude.Outcome.{done}
use toystar.Lock.{release}
use toystar.Memory.Heap.{Heap, Ptr, null, max_power, sizeof_block, set_bucket, set_next, take_block}
use toystar.Memory.Heap.FreeLists.{
  FreeLists, IsHeap, width, has, Distinct, Chain, width-pos, Chain-frame,
}
use toystar.Memory.Heap.Conserve.{IsFree}

abbrev pub InBlock : ℕ → Ptr → ℕ → Type 0
InBlock k a x = (a ≤ x) × (x < a + width k)

-- Block `a` of index `k` has left the free lists `l`: the free memory was that of `l'` and the
-- block, which has no byte in common with `l'`.
pub record Granted (k : ℕ) (a : Ptr) (l : FreeLists) (s' : Heap) (l' : FreeLists) : Type 0 where
  pub heap : IsHeap s' l'
  pub memory : (x : ℕ) → IsFree l x ↔ (IsFree l' x ⊎ InBlock k a x)
  pub exclusive : (x : ℕ) → IsFree l' x → ¬ (InBlock k a x)
  pub size : (s'.blocks a).size ≡ width k
  pub unlocked : s'.heap_lock ≡ false

module _ (s : Heap) (l : FreeLists) (k : ℕ) (a : Ptr) (xs : List Ptr) (heap : IsHeap s l)
    (hk : k ≤ max_power) (head : l k ≡ a ∷ xs) where
  pub taken : Heap
  taken =
      let s' = set_next a null (set_bucket k (s.blocks a).next s) in
      record s' { heap_lock = release s'.heap_lock }

  a-has : has a (l k) ≡ true
  a-has = rw head (ground arith)

  -- What is left in the lists is an old block other than `a`.
  left :
      (i : ℕ) (x : Ptr)
      → i ≤ max_power
      → has x (update l k xs i) ≡ true
      → (has x (l i) ≡ true) × (x ≢ a)
  left i x hi h = elim (Bool-cases (i == k)) [
    | inl e ↦
        let q : i ≡ k = (==_iff _ _).0 e in
        let t : has x xs ≡ true = ground arith in
        let d : Distinct (a ∷ xs) = rw head at (heap.distinct k hk) in
        (rw (q, head) (ground arith), λ f. ground arith)
    | inr e ↦
        let o : has x (l i) ≡ true = ground arith in
        (
          o,
          λ f. elim (heap.apart i k x a hi hk o a-has) [
            | inl (p, q) ↦ ground arith
            | inr (inl p) ↦ omega (arith, width-pos i)
            | inr (inr p) ↦ omega (arith, width-pos k)
          ],
        )
  ]

  taken-chains :
      (i : ℕ) → i ≤ max_power → Chain taken.blocks (taken.bucket_list i) (update l k xs i)
  unfolding taken
  taken-chains i hi =
      let frame = λ (p : Ptr) (ys : List Ptr) (out : (y : Ptr) → has y ys ≡ true → y ≢ a).
        Chain-frame s.blocks taken.blocks p ys (λ y h. ground (arith, out y h)) in
      elim (Bool-cases (i == k)) [
        | inl e ↦
            let q : i ≡ k = (==_iff _ _).0 e in
            let c : Chain s.blocks (s.bucket_list k) (a ∷ xs) = rw head at (heap.chains k hk) in
            rw e (frame (s.blocks a).next xs (λ y h. (left i y hi (rw e h)).1) c.2)
        | inr e ↦
            rw e
              (frame (s.bucket_list i) (l i) (λ y h. (left i y hi (rw e h)).1) (heap.chains i hi))
      ]

  taken-IsHeap : IsHeap taken (update l k xs)
  unfolding taken
  taken-IsHeap = record {
    chains = taken-chains;
    distinct = λ i hi. elim (Bool-cases (i == k)) [
      | inl e ↦ let d : Distinct (a ∷ xs) = rw head at (heap.distinct k hk) in rw e d.1
      | inr e ↦ rw e (heap.distinct i hi)
    ];
    apart = λ i j x y hi hj hx hy. heap.apart i j x y hi hj (left i x hi hx).0 (left j y hj hy).0;
    within = λ i x hi h. heap.within i x hi (left i x hi h).0;
    sizes = λ i x hi h. ground (arith, heap.sizes i x hi (left i x hi h).0);
    mapped = heap.mapped;
  }

  taken-memory : (x : ℕ) → IsFree l x ↔ (IsFree (update l k xs) x ⊎ InBlock k a x)
  taken-memory x = (to, from)
    where
      to : IsFree l x → IsFree (update l k xs) x ⊎ InBlock k a x
      to (i, b, hi, h, lo, up) = elim (Bool-cases (b == a)) [
        | inl e ↦ elim (Bool-cases (i == k)) [
          | inl f ↦ inr (ground arith, ground arith)
          | inr f ↦ inl (i, b, hi, ground arith, lo, up)
        ]
        | inr e ↦ inl (i, b, hi, ground arith, lo, up)
      ]

      from : IsFree (update l k xs) x ⊎ InBlock k a x → IsFree l x
      from (inl (i, b, hi, h, lo, up)) = (i, b, hi, (left i b hi h).0, lo, up)
      from (inr (lo, up)) = (k, a, hk, a-has, lo, up)

  taken-exclusive : (x : ℕ) → IsFree (update l k xs) x → ¬ (InBlock k a x)
  taken-exclusive x (i, b, hi, h, lo, up) (lo', up') =
      let o = left i b hi h in
      elim (heap.apart i k b a hi hk o.0 a-has) [
        | inl (p, q) ↦ o.1 q
        | inr (inl p) ↦ omega arith
        | inr (inr p) ↦ omega arith
      ]

  pub taken-Granted : Granted k a l taken (update l k xs)
  unfolding taken release
  taken-Granted = record {
    heap = taken-IsHeap;
    memory = taken-memory;
    exclusive = taken-exclusive;
    size = ground (arith, heap.sizes k a hk a-has);
    unlocked = refl;
  }

  pub take_block-taken : take_block k s ≡ done (a + sizeof_block, taken)
  unfolding take_block taken release
  take_block-taken =
      let c : Chain s.blocks (s.bucket_list k) (a ∷ xs) = rw head at (heap.chains k hk) in
      let first : ltb k 512 ≡ true = ground arith in
      let there : (a == null) ≡ false = ground (arith, c.1) in
      let w = heap.within k a hk a-has in
      let sum : add64 a 24 ≡ a + 24 = omega (arith, heap.mapped) in rw (first, c.0, there, sum)
