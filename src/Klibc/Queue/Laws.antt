-- ===== src/Klibc/Queue/Laws.antt =====
-- src/klibc/queue.hpp is a first-in first-out queue.
use toystar.Prelude.{◌≡◌, false, Option, none, some, List, [], ◌∷◌, ◌++◌, ◌==◌, arith}
use toystar.Prelude.Outcome.{Outcome, done, ◌>>=◌}
use toystar.Klibc.Vector
use toystar.Klibc.Vector.{Vector}
use toystar.Klibc.Vector.Laws.{Holds, push_back-Holds, erase-Holds}
use toystar.Klibc.Queue.{Queue, push, pop}

-- A client's calls. A pop comes with the value of the one read behind the array that it makes.
pub data Call {ℓ} (T : Type ℓ) : Type ℓ where
  push_call pop_call : T → Call T

abbrev pub first {ℓ} : {T : Type ℓ} → List T → Option T
first [] = none
first (x ∷ xs) = some x

abbrev pub rest {ℓ} : {T : Type ℓ} → List T → List T
rest [] = []
rest (x ∷ xs) = xs

module _ {ℓ} {T : Type ℓ} where
  -- `push` adds at the end.
  pub push-Holds :
      (blank x : T) (q : Queue T) (xs : List T)
      → Holds q xs
      → (q' : Queue T) × (push blank x q ≡ done q') × Holds q' (xs ++ (x ∷ []))
  unfolding push
  push-Holds blank x q xs h = push_back-Holds blank x q xs h

  at_first : (q : Queue T) (x : T) (xs : List T) → Holds q (x ∷ xs) → Vector.at q 0 ≡ done x
  unfolding Vector.at
  at_first q x xs h = rw (h.capacity, h.elements) (ground arith)

  popped :
      (blank past x : T) (q q' : Queue T) (xs : List T)
      → Holds q (x ∷ xs)
      → Vector.erase blank past 0 q ≡ done (none, q')
      → pop blank past q ≡ done (some x, q')
  unfolding pop
  popped blank past x q q' xs h e =
      let full : (q.m_capacity == 0) ≡ false = ground (arith, h.capacity) in
      rw (full, at_first q x xs h, e)

  -- `pop` of a queue with a first element returns it and leaves the others in order; of an empty
  -- queue it returns nothing and changes nothing.
  pub pop-Holds :
      (blank past : T) (q : Queue T) (xs : List T)
      → Holds q xs
      → (q' : Queue T) × (pop blank past q ≡ done (first xs, q')) × Holds q' (rest xs)
  unfolding pop
  pop-Holds blank past q [] h = (q, ground (arith, h.capacity), h)
  pop-Holds blank past q (x ∷ xs) h =
      let (q', e, k) = erase-Holds blank past x q [] xs h in
      (q', popped blank past x q q' xs h e, k)

  -- The calls, with what each `pop` returns.
  abbrev pub run : T → Queue T → List (Call T) → Outcome (List (Option T))
  run blank q [] = done []
  run blank q (push_call x ∷ calls) = push blank x q >>= λ q'. run blank q' calls
  run blank q (pop_call past ∷ calls) =
      pop blank past q >>= λ r. run blank r.1 calls >>= λ out. done (r.0 ∷ out)

  -- The same calls on a list, which know nothing of what lies behind the array.
  abbrev pub run_list : List T → List (Call T) → List (Option T)
  run_list xs [] = []
  run_list xs (push_call x ∷ calls) = run_list (xs ++ (x ∷ [])) calls
  run_list xs (pop_call past ∷ calls) = first xs ∷ run_list (rest xs) calls
