-- ===== src/Klibc/Map/Runs.antt =====
-- Sequences of calls on the table of src/klibc/map.hpp.
use toystar.Prelude.{ℕ, ◌≤◌, ◌<◌, ◌≡◌, refl, Bool, Option, List, [], ◌∷◌, length}
use toystar.Prelude.Outcome.{Outcome, done, ◌>>=◌}
use toystar.Klibc.Map.{Map, insert, erase, find}
use toystar.Klibc.Map.Laws.{
  IsHash, newest, without, Represents, find-Represents, insert-Represents, erase-Represents,
}

pub data Call {ℓ κ} (K : Type ℓ) (T : Type κ) : Type (ℓ ⊔ κ) where
  put : K → T → Call K T
  del : K → Call K T
  get : K → Call K T

module _ {ℓ κ} {K : Type ℓ} {T : Type κ} (hash : K → ℕ → ℕ) (same : K → K → Bool) where
  -- What each `find` of the calls returns.
  abbrev pub run : Map K T → List (Call K T) → Outcome (List (Option T))
  run m [] = done []
  run m (put k v ∷ calls) = insert hash same k v m >>= λ m'. run m' calls
  run m (del k ∷ calls) = erase hash same k m >>= λ r. run r.1 calls
  run m (get k ∷ calls) = find hash same k m >>= λ v. run m calls >>= λ rest. done (v ∷ rest)

module _ {ℓ κ} {K : Type ℓ} {T : Type κ} (hash : K → ℕ → ℕ) (same : K → K → Bool) where
  -- The same calls on a list of entries.
  abbrev pub run_list : List (K × T) → List (Call K T) → List (Option T)
  run_list l [] = []
  run_list l (put k v ∷ calls) = run_list ((k, v) ∷ l) calls
  run_list l (del k ∷ calls) = run_list (without same k l) calls
  run_list l (get k ∷ calls) = newest same k l ∷ run_list l calls

  -- There are never more than five entries, and the hashes are indices of the table.
  abbrev pub Fits : List (K × T) → List (Call K T) → Type 0
  Fits l [] = length l ≤ 5
  Fits l (put k v ∷ calls) = (hash k 10 < 10) × (length l < 5) × Fits ((k, v) ∷ l) calls
  Fits l (del k ∷ calls) = (hash k 10 < 10) × (length l ≤ 5) × Fits (without same k l) calls
  Fits l (get k ∷ calls) = (hash k 10 < 10) × Fits l calls

-- As long as there are never more than five entries and the hash of each key of a call is an index of
-- the first table, any sequence of `insert`, `erase` and `find` ends without a fault, and each `find`
-- returns the newest value of its key that is not erased. Equal keys have equal hashes.
pub calls_refine {ℓ κ} :
    {K : Type ℓ} {T : Type κ} (hash : K → ℕ → ℕ) (same : K → K → Bool) (calls : List (Call K T))
    (m : Map K T) (l : List (K × T))
    → IsHash hash same
    → Represents hash m l
    → Fits hash same l calls
    → run hash same m calls ≡ done (run_list hash same l calls)
calls_refine hash same [] m l good r few = refl
calls_refine hash same (put k v ∷ calls) m l good r (small, h, few) =
    let (m', e, r') = insert-Represents hash same good m l k v r small h in
    rw e (calls_refine hash same calls m' ((k, v) ∷ l) good r' few)
calls_refine hash same (del k ∷ calls) m l good r (small, h, few) =
    let (b, m', e, r', iff) = erase-Represents hash same good m l k r small h in
    rw e (calls_refine hash same calls m' (without same k l) good r' few)
calls_refine hash same (get k ∷ calls) m l good r (small, few) =
    rw (find-Represents hash same good m l k r small, calls_refine hash same calls m l good r few)
