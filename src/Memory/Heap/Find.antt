-- ===== src/Memory/Heap/Find.antt =====
-- The two loops of `kmalloc` of src/kernel/memory/heap.cpp that split larger blocks.
use toystar.Prelude.{
  ℕ, zero, suc, ◌+◌, ◌-◌, ◌≤◌, ◌<◌, ◌≡◌, ◌≢◌, refl, ◌∙◌, ◌↔◌, ◌⊎◌, inl, inr, true, false, Option,
  none, some, List, [], ◌∷◌, ◌==◌, ltb, leb, ◌&&◌, arith, Bool-cases, ==_iff,
}
use toystar.Prelude.Word.{sub64}
use toystar.Prelude.Outcome.{Outcome, done}
use toystar.Memory.Heap.{Heap, null, max_power, split_block, split_above, split_down}
use toystar.Memory.Heap.FreeLists.{FreeLists, IsHeap}
use toystar.Memory.Heap.Split.{
  split, split_state, split-IsHeap, split_block-done, base_addr-split_state, heap_lock-split_state,
}
use toystar.Memory.Heap.Conserve.{IsFree, split-IsFree}

-- `s'` is a heap with the same free memory as `s`, perhaps in smaller blocks.
pub record Same (s : Heap) (l : FreeLists) (s' : Heap) (l' : FreeLists) : Type 0 where
  pub heap : IsHeap s' l'
  pub memory : (x : ℕ) → IsFree l x ↔ IsFree l' x
  pub base : s'.base_addr ≡ s.base_addr
  pub lock : s'.heap_lock ≡ s.heap_lock

pub List-cases {ℓ} :
    {A : Type ℓ} (xs : List A) → (xs ≡ []) ⊎ ((y : A) × (ys : List A) × (xs ≡ y ∷ ys))
List-cases [] = inl refl
List-cases (x ∷ xs) = inr (x, xs, refl)

Same-refl : (s : Heap) (l : FreeLists) → IsHeap s l → Same s l s l
Same-refl s l h = record { heap = h; memory = λ x. (λ p. p, λ p. p); base = refl; lock = refl }

Same-trans : (s t u : Heap) (l m n : FreeLists) → Same s l t m → Same t m u n → Same s l u n
Same-trans s t u l m n p q = record {
  heap = q.heap;
  memory = λ x. (λ f. (q.memory x).0 ((p.memory x).0 f), λ f. (p.memory x).1 ((q.memory x).1 f));
  base = q.base ∙ p.base;
  lock = q.lock ∙ p.lock;
}

-- `split_block` on a list that holds a block.
split_block-Same :
    (s : Heap) (l : FreeLists) (i : ℕ)
    → IsHeap s l
    → i < max_power
    → l i ≢ []
    → (s' : Heap) × (l' : FreeLists) × (split_block (max_power - i) s ≡ done (true, s'))
      × Same s l s' l'
      × (l' (suc i) ≢ [])
split_block-Same s l i heap low full = elim (List-cases (l i)) [
  | inl e ↦ absurd (full e)
  | inr (a, xs, e) ↦ (
    split_state s l i a xs heap low e,
    split i a xs l,
    split_block-done s l i a xs heap low e,
    record {
      heap = split-IsHeap s l i a xs heap low e;
      memory = split-IsFree l i a xs low e;
      base = base_addr-split_state s l i a xs heap low e;
      lock = heap_lock-split_state s l i a xs heap low e;
    },
    λ q. ground arith,
  )
]

-- The same, by the order `t` that the code passes.
Halved : ℕ → Heap → FreeLists → Type 0
Halved t s l =
    (s' : Heap) × (l' : FreeLists) × (split_block t s ≡ done (true, s'))
    × Same s l s' l'
    × (l' (suc (max_power - t)) ≢ [])

split_block-Halved :
    (t : ℕ) (s : Heap) (l : FreeLists)
    → IsHeap s l
    → 0 < t
    → t ≤ max_power
    → l (max_power - t) ≢ []
    → Halved t s l
unfolding Halved
split_block-Halved t s l heap pos hi full =
    let at : max_power - (max_power - t) ≡ t = omega arith in
    go (split_block-Same s l (max_power - t) heap (omega arith) full)
  where
    go :
        (s' : Heap) × (l' : FreeLists) × (split_block (max_power - (max_power - t)) s
            ≡ done (true, s'))
          × Same s l s' l'
          × (l' (suc (max_power - t)) ≢ [])
        → Halved t s l
    go (s', l', e, same, more) =
        let at : max_power - (max_power - t) ≡ t = omega arith in (s', l', rw at at e, same, more)

-- On an empty list it does nothing.
split_block-empty :
    (t : ℕ) (s : Heap) (l : FreeLists)
    → IsHeap s l
    → t ≤ max_power
    → l (max_power - t) ≡ []
    → split_block t s ≡ done (false, s)
unfolding split_block
split_block-empty t s l heap low none_free =
    let index : sub64 max_power t ≡ max_power - t = omega arith in
    let c : s.bucket_list (max_power - t) ≡ null =
      rw none_free at (heap.chains (max_power - t) (omega arith)) in
    let guard : (leb t 4 && ltb max_power t) ≡ false = ground arith in
    let first : ltb (max_power - t) 512 ≡ true = ground arith in rw (index, c, guard, first)

-- What `n` splits down to `order` leave.
abbrev pub Lowered : ℕ → ℕ → Heap → FreeLists → Type 0
Lowered n order s l =
    (s' : Heap) × (l' : FreeLists) × (split_down n order s ≡ done s')
    × Same s l s' l'
    × (l' (max_power - order) ≢ [])

lower_join :
    (n order : ℕ) (s t : Heap) (l m : FreeLists)
    → split_block (order + suc n) s ≡ done (true, t)
    → Same s l t m
    → Lowered n order t m
    → Lowered (suc n) order s l
unfolding split_down
lower_join n order s t l m e same (u, k, e', same', more) =
    (u, k, rw e e', Same-trans s t u l m k same same', more)

lower_step :
    (n order : ℕ) (s : Heap) (l : FreeLists)
    → order + suc n ≤ max_power
    → Halved (order + suc n) s l
    → ((t : Heap) (m : FreeLists)
        → IsHeap t m
        → m (max_power - (order + n)) ≢ []
        → Lowered n order t m)
    → Lowered (suc n) order s l
unfolding Halved
lower_step n order s l hi (t, m, e, same, more) rest =
    let next : suc (max_power - (order + suc n)) ≡ max_power - (order + n) = omega arith in
    lower_join n order s t l m e same (rest t m same.heap (rw next at more))

-- With a block of order `order + n` free, `n` splits leave one of order `order`.
pub split_down-Lowered :
    (n order : ℕ) (s : Heap) (l : FreeLists)
    → IsHeap s l
    → order + n ≤ max_power
    → 0 < order
    → l (max_power - (order + n)) ≢ []
    → Lowered n order s l
unfolding split_down
split_down-Lowered zero order s l heap hi pos full =
    let e : order + 0 ≡ order = omega arith in (s, l, refl, Same-refl s l heap, rw e at full)
split_down-Lowered (suc n) order s l heap hi pos full =
    lower_step n order s l hi (split_block-Halved (order + suc n) s l heap (omega arith) hi full)
      (λ t m h f. split_down-Lowered n order t m h (omega arith) pos f)

-- What the search upwards from order `t` on returns: a list that held a block, or the fact that all
-- these lists are empty.
abbrev pub Searched : ℕ → Heap → FreeLists → Outcome (Option ℕ × Heap) → Type 0
Searched t s l r =
    ((top : ℕ) × (s' : Heap) × (l' : FreeLists) × (r ≡ done (some top, s'))
      × Same s l s' l'
      × (t ≤ top)
      × (top ≤ max_power)
      × (l (max_power - top) ≢ [])
      × (l' (suc (max_power - top)) ≢ []))
    ⊎ ((r ≡ done (none, s)) × ((i : ℕ) → i ≤ max_power - t → l i ≡ []))

above :
    (fuel t : ℕ) (s : Heap) (l : FreeLists)
    → l (max_power - t) ≡ []
    → t ≤ max_power
    → Searched (t + 1) s l (split_above fuel (t + 1) s)
    → Searched t s l (split_above fuel (t + 1) s)
above fuel t s l e hi (inl (top, s', l', go, same, lo, up, was, more)) =
    inl (top, s', l', go, same, omega arith, up, was, more)
above fuel t s l e hi (inr (go, empty)) = inr (
  go,
  λ i h. elim (Bool-cases (i == max_power - t)) [
    | inl q ↦ rw ((==_iff _ _).0 q) e
    | inr q ↦ empty i (ground arith)
  ],
)

found :
    (fuel t : ℕ) (s : Heap) (l : FreeLists)
    → t ≤ max_power
    → l (max_power - t) ≢ []
    → Halved t s l
    → Searched t s l (split_above (suc fuel) t s)
unfolding split_above Halved
found fuel t s l hi full (s', l', go, same, more) =
    inl (t, s', l', rw go, same, omega arith, hi, full, more)

-- The search upwards finds a list that holds a block, or all the lists from order `t` on are empty.
pub split_above-Searched :
    (fuel t : ℕ) (s : Heap) (l : FreeLists)
    → IsHeap s l
    → 0 < t
    → t ≤ max_power
    → max_power < t + fuel
    → Searched t s l (split_above fuel t s)
unfolding split_above
split_above-Searched zero t s l heap pos hi enough = absurd (omega arith)
split_above-Searched (suc fuel) t s l heap pos hi enough = elim (List-cases (l (max_power - t))) [
  | inl e ↦
      let stop : split_block t s ≡ done (false, s) = split_block-empty t s l heap hi e in
      elim (Bool-cases (ltb max_power (t + 1))) [
        | inl last ↦
            rw (stop, last) (inr (refl, λ i h. let q : i ≡ max_power - t = ground arith in rw q e))
        | inr more ↦
            rw (stop, more)
              (above fuel t s l e hi (
                split_above-Searched fuel (t + 1) s l heap (omega arith) (ground arith)
                  (omega arith)))
      ]
  | inr (a, xs, e) ↦
      let full : l (max_power - t) ≢ [] = λ q. ground arith in
      found fuel t s l hi full (split_block-Halved t s l heap pos hi full)
]
