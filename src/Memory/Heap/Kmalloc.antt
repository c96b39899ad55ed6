-- ===== src/Memory/Heap/Kmalloc.antt =====
-- `kmalloc` of src/kernel/memory/heap.cpp.
use toystar.Prelude.{
  ℕ, suc, ◌+◌, ◌-◌, ◌^◌, ◌≤◌, ◌<◌, ◌≡◌, ◌≢◌, refl, ap, ◌∙◌, ◌↔◌, inl, inr, true, false, some, List,
  [], ◌∷◌, ◌==◌, ltb, arith, Bool-cases, ==_iff,
}
use toystar.Prelude.Word.{u64_mod, add64, sub64, update}
use toystar.Prelude.Outcome.{done, fault}
use toystar.Memory.Heap.{
  Heap, Ptr, null, max_power, sizeof_block, order_for, order_fuel, min_power, split_above,
  take_block, kmalloc_split, kmalloc,
}
use toystar.Memory.Heap.FreeLists.{FreeLists, IsHeap, width, Chain}
use toystar.Memory.Heap.Order.{order_for-width, order_for-large}
use toystar.Memory.Heap.Conserve.{IsFree}
use toystar.Memory.Heap.Find.{
  List-cases, Lowered, split_down-Lowered, Searched, split_above-Searched,
}
use toystar.Memory.Heap.Take.{Granted, taken, taken-Granted, take_block-taken}

-- `k` is the index of the smallest blocks that hold `bytes` and a header. (No request has a block
-- of order 4, as the header alone is larger.)
pub record Fits (bytes k : ℕ) : Type 0 where
  pub order : k ≤ 15
  pub above : width (suc k) < bytes + sizeof_block
  pub below : bytes + sizeof_block ≤ width k
  pub no_wrap : bytes + sizeof_block < u64_mod

order_for-Fits :
    (bytes k : ℕ)
    → Fits bytes k
    → order_for order_fuel min_power (add64 bytes sizeof_block) ≡ done (max_power - k)
order_for-Fits bytes k f =
    let e : add64 bytes sizeof_block ≡ bytes + sizeof_block = omega arith in
    rw e (order_for-width (bytes + sizeof_block) k f.order f.above f.below)

abbrev pub locked : Heap → Heap
locked s = record s { heap_lock = true }

-- The state in which the lock is held is a heap like the one before.
locked-IsHeap : (s : Heap) (l : FreeLists) → IsHeap s l → IsHeap (locked s) l
locked-IsHeap s l h = record {
  chains = h.chains;
  distinct = h.distinct;
  apart = h.apart;
  within = h.within;
  sizes = h.sizes;
  mapped = h.mapped;
}

-- The code after the order is known.
module _ (bytes k : ℕ) (s : Heap) (l : FreeLists) (fits : Fits bytes k)
    (free : s.heap_lock ≡ false) where
  kmalloc-here :
      (a : Ptr) (xs : List Ptr)
      → IsHeap s l
      → l k ≡ a ∷ xs
      → kmalloc bytes s ≡ take_block k (locked s)
  unfolding kmalloc
  kmalloc-here a xs heap e =
      let c : Chain s.blocks (s.bucket_list k) (a ∷ xs) =
        rw e at (heap.chains k (omega (arith, fits.order))) in
      let index : sub64 max_power (max_power - k) ≡ k = omega (arith, fits.order) in
      let first : ltb k 512 ≡ true = ground (arith, fits.order) in
      let there : (a == null) ≡ false = ground (arith, c.1) in
      rw (order_for-Fits bytes k fits, index, free, first, c.0, there)

  kmalloc-elsewhere :
      IsHeap s l → l k ≡ [] → kmalloc bytes s ≡ kmalloc_split (max_power - k) k (locked s)
  unfolding kmalloc
  kmalloc-elsewhere heap e =
      let c : s.bucket_list k ≡ null = rw e at (heap.chains k (omega (arith, fits.order))) in
      let index : sub64 max_power (max_power - k) ≡ k = omega (arith, fits.order) in
      let first : ltb k 512 ≡ true = ground (arith, fits.order) in
      rw (order_for-Fits bytes k fits, index, free, first, c)
        (ap (λ j. kmalloc_split (max_power - k) j (locked s)) index)

-- What a successful `kmalloc` promises: the pointer lies behind the header of a block of index `k`
-- that was free and is so no more.
abbrev pub Mallocs : ℕ → ℕ → Heap → FreeLists → Type 0
Mallocs bytes k s l =
    (a : Ptr) × (s' : Heap) × (l' : FreeLists) × (kmalloc bytes s ≡ done (a + sizeof_block, s'))
    × Granted k a l s' l'

Granted-Same :
    (k : ℕ) (a : Ptr) (l m : FreeLists) (s' : Heap) (l' : FreeLists)
    → ((x : ℕ) → IsFree l x ↔ IsFree m x)
    → Granted k a m s' l'
    → Granted k a l s' l'
Granted-Same k a l m s' l' same g = record {
  heap = g.heap;
  memory = λ x. (λ f. (g.memory x).0 ((same x).0 f), λ f. (same x).1 ((g.memory x).1 f));
  exclusive = g.exclusive;
  size = g.size;
  unlocked = g.unlocked;
}

-- What `kmalloc_split` does once a larger block is found.
Splits : ℕ → Heap → FreeLists → Type 0
Splits k s l =
    (a : Ptr) × (s' : Heap) × (l' : FreeLists) × (kmalloc_split (max_power - k) k s
      ≡ done (a + sizeof_block, s'))
    × Granted k a l s' l'

take_last :
    (k top : ℕ) (s t : Heap) (l m : FreeLists)
    → k ≤ max_power
    → split_above 21 (max_power - k + 1) s ≡ done (some top, t)
    → ((x : ℕ) → IsFree l x ↔ IsFree m x)
    → Lowered (top - (max_power - k) - 1) (max_power - k) t m
    → Splits k s l
unfolding kmalloc_split Splits
take_last k top s t l m hk go same (u, n, e, same', full) =
    let at : max_power - (max_power - k) ≡ k = omega arith in
    elim (List-cases (n k)) [
      | inl q ↦ absurd (full (rw at q))
      | inr (a, xs, q) ↦ (
        a,
        taken u n k a xs same'.heap hk q,
        update n k xs,
        rw (go, e) (take_block-taken u n k a xs same'.heap hk q),
        Granted-Same k a l n (taken u n k a xs same'.heap hk q) (update n k xs)
            (λ x. (λ f. (same'.memory x).0 ((same x).0 f), λ f. (same x).1 ((same'.memory x).1 f)))
            (taken-Granted u n k a xs same'.heap hk q),
      )
    ]

kmalloc_split-Splits :
    (k i : ℕ) (s : Heap) (l : FreeLists)
    → k ≤ 15
    → i < k
    → l i ≢ []
    → Searched (max_power - k + 1) s l (split_above 21 (max_power - k + 1) s)
    → Splits k s l
kmalloc_split-Splits k i s l hk hi full (inr (go, empty)) = absurd (full (empty i (omega arith)))
kmalloc_split-Splits k i s l hk hi full (inl (top, t, m, go, same, lo, up, was, more)) =
    let n = top - (max_power - k) - 1 in
    let at : suc (max_power - top) ≡ max_power - (max_power - k + n) = omega arith in
    take_last k top s t l m (omega arith) go same.memory (
      split_down-Lowered n (max_power - k) t m same.heap (omega arith) (omega arith)
        (rw at at more))

slow :
    (bytes k : ℕ) (s : Heap) (l : FreeLists)
    → kmalloc bytes s ≡ kmalloc_split (max_power - k) k (locked s)
    → Splits k (locked s) l
    → Mallocs bytes k s l
unfolding Splits
slow bytes k s l e (a, s', l', go, g) = (a, s', l', e ∙ go, g)

-- With the lock free, a request whose smallest fitting blocks have index `k`, and a free block of
-- that size or a larger one, `kmalloc` returns a block. Its bytes were free before; they and the
-- memory that is free afterwards are disjoint, together they are what was free before, and the
-- free lists are well formed again and the lock free.
pub kmalloc-Granted :
    (bytes k i : ℕ) (s : Heap) (l : FreeLists)
    → Fits bytes k
    → IsHeap s l
    → s.heap_lock ≡ false
    → i ≤ k
    → l i ≢ []
    → Mallocs bytes k s l
kmalloc-Granted bytes k i s l fits heap free hi full = elim (List-cases (l k)) [
  | inl e ↦
      let lt : i < k = elim (Bool-cases (i == k)) [
        | inl q ↦ absurd (full (rw ((==_iff _ _).0 q) e))
        | inr q ↦ ground arith
      ] in
      let small = fits.order in
      slow bytes k s l (kmalloc-elsewhere bytes k s l fits free heap e) (
        kmalloc_split-Splits k i (locked s) l small lt full (
          split_above-Searched 21 (max_power - k + 1) (locked s) l (locked-IsHeap s l heap)
            (omega arith) (omega arith) (omega arith)))
  | inr (a, xs, e) ↦
      let h = locked-IsHeap s l heap in
      let hk : k ≤ max_power = omega (arith, fits.order) in
      (
        a,
        taken (locked s) l k a xs h hk e,
        update l k xs,
        kmalloc-here bytes k s l fits free a xs heap e
            ∙ take_block-taken (locked s) l k a xs h hk e,
        taken-Granted (locked s) l k a xs h hk e,
      )
]

-- With the lock free and no free block of a fitting size, `kmalloc` returns null and keeps the lock.
kmalloc-none :
    (bytes k : ℕ) (s : Heap) (l : FreeLists)
    → Fits bytes k
    → IsHeap s l
    → s.heap_lock ≡ false
    → 0 < k
    → ((i : ℕ) → i ≤ k → l i ≡ [])
    → kmalloc bytes s ≡ done (null, locked s)
unfolding kmalloc_split
kmalloc-none bytes k s l fits heap free pos empty =
    let small = fits.order in
    elim (split_above-Searched 21 (max_power - k + 1) (locked s) l (locked-IsHeap s l heap)
      (omega arith) (omega arith) (omega arith)) [
        | inl (top, t, m, go, same, lo, up, was, more) ↦
            absurd (was (empty (max_power - top) (omega arith)))
        | inr (go, none_free) ↦
            kmalloc-elsewhere bytes k s l fits free heap (empty k (omega arith)) ∙ rw go
      ]

-- While the lock is held no call returns.
kmalloc-held :
    (bytes : ℕ) (s : Heap) (r : Ptr × Heap) → s.heap_lock ≡ true → kmalloc bytes s ≢ done r
unfolding kmalloc
kmalloc-held bytes s r held e = ground arith

-- With the lock free and no free block of a fitting size (of an order below the largest),
-- `kmalloc` returns null with the lock still held, and no later request of any size returns.
pub kmalloc-exhausted :
    (bytes k : ℕ) (s : Heap) (l : FreeLists)
    → Fits bytes k
    → IsHeap s l
    → s.heap_lock ≡ false
    → 0 < k
    → ((i : ℕ) → i ≤ k → l i ≡ [])
    → (s' : Heap) × (kmalloc bytes s ≡ done (null, s'))
      × ((later : ℕ) (r : Ptr × Heap) → kmalloc later s' ≢ done r)
kmalloc-exhausted bytes k s l fits heap free pos empty = (
  locked s,
  kmalloc-none bytes k s l fits heap free pos empty,
  λ later r. kmalloc-held later (locked s) r refl,
)

-- With the lock free, a request that with its header exceeds the whole heap, by a sum below 2^64, ends
-- in a fault of the model: `kmalloc` makes an access or a shift whose outcome is not defined.
pub kmalloc-too_large :
    (bytes : ℕ) (s : Heap)
    → s.heap_lock ≡ false
    → 2 ^ max_power < bytes + sizeof_block
    → bytes + sizeof_block < u64_mod
    → kmalloc bytes s ≡ fault
unfolding kmalloc
kmalloc-too_large bytes s free large no_wrap =
    let e : add64 bytes sizeof_block ≡ bytes + sizeof_block = omega arith in
    elim (order_for-large order_fuel min_power (bytes + sizeof_block) large (omega arith)
      (omega arith)) [
        | inl q ↦ rw (e, q)
        | inr (o, q, lo, hi) ↦
            let out : ltb (sub64 max_power o) 512 ≡ false = ground arith in rw (e, q, free, out)
      ]
