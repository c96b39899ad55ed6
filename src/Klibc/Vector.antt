-- ===== src/Klibc/Vector.antt =====
-- src/klibc/vector.hpp: a growing array. `T` is a plain value type here.
--
-- The array of `new T[n]` is the list of its elements. What a new element holds before it is
-- assigned is the parameter `blank`; an access outside the array is a fault. One is not: `erase` reads
-- the element behind the array and overwrites what it read before anyone sees it. What this read gives
-- is the parameter `past`, any value. `size` is `length`.
pub mod Copy
pub mod Laws
pub mod Access
mod Tests
use toystar.Prelude.{
  ℕ, zero, suc, ◌+◌, ◌-◌, ◌≡◌, Bool, true, false, Option, none, some, List, [], ◌∷◌, ◌++◌, ◌==◌,
  ltb, leb, if◌then◌else◌, length, get_elem?, set, take,
}
use toystar.Prelude.Outcome.{Outcome, done, panic, fault, ◌>>=◌}

-- `m_data`, `m_capacity` and `m_isEmpty`.
pub record Vector {ℓ} (T : Type ℓ) : Type ℓ where
  pub m_data : List T
  pub m_capacity : ℕ
  pub m_is_empty : Bool

module _ {ℓ} {T : Type ℓ} where
  -- The default constructor.
  unfoldable pub vector : Vector T
  vector = record { m_data = []; m_capacity = 0; m_is_empty = true }

  -- `operator[]`, read
  unfoldable pub at : Vector T → ℕ → Outcome T
  at v i =
      if leb v.m_capacity i
      then panic
      else elim (get_elem? v.m_data i) [ none ↦ fault | some x ↦ done x ]

  -- `v[i] = x`
  unfoldable pub assign : Vector T → ℕ → T → Outcome (Vector T)
  assign v i x =
      if leb v.m_capacity i
      then panic
      else if ltb i (length v.m_data)
      then done (record v { m_data = set v.m_data i x })
      else fault

  -- `new T[n]`
  unfoldable pub new_array : T → ℕ → List T
  new_array blank zero = []
  new_array blank (suc n) = blank ∷ new_array blank n

  -- `for (i = 0; i < t; i++) m_data[i] = oldData[i]`, with the rounds that are left.
  unfoldable pub copy : ℕ → ℕ → List T → List T → Outcome (List T)
  copy zero i old new = done new
  copy (suc n) i old new = elim (get_elem? old i) [
    | none ↦ fault
    | some x ↦ if ltb i (length new) then copy n (i + 1) old (set new i x) else fault
  ]

  unfoldable pub resize : T → ℕ → Vector T → Outcome (Vector T)
  unfolding new_array copy
  resize blank n v =
      if n == v.m_capacity
      then done v
      else if n == 0
      then done (record { m_data = []; m_capacity = 0; m_is_empty = true })
      else if v.m_is_empty
      then done (record { m_data = new_array blank n; m_capacity = n; m_is_empty = false })
      else (do
        new ← copy (if ltb v.m_capacity n then v.m_capacity else n) 0 v.m_data (new_array blank n)
        done (record v { m_data = new; m_capacity = n }))

  unfoldable pub push_back : T → T → Vector T → Outcome (Vector T)
  unfolding resize
  push_back blank value v = do
    v' ← resize blank (v.m_capacity + 1) v
    if ltb (v'.m_capacity - 1) (length v'.m_data)
        then done (record v' { m_data = set v'.m_data (v'.m_capacity - 1) value })
        else fault

  unfoldable pub pop_back : T → Vector T → Outcome (Vector T)
  unfolding resize
  pop_back blank v = if v.m_capacity == 0 then done v else resize blank (v.m_capacity - 1) v

  -- `for (i = index; i < m_capacity; i++) m_data[i] = m_data[i+1]`, with the rounds that are left.
  -- The last round reads the element behind the array, which is `past`.
  unfoldable pub shift : ℕ → ℕ → T → List T → List T
  shift zero i past xs = xs
  shift (suc n) i past xs =
      shift n (i + 1) past (set xs i (elim (get_elem? xs (i + 1)) [ none ↦ past | some x ↦ x ]))

  -- `erase`: the result is `false` out of range. Otherwise the code ends without a `return`, and
  -- its result is not defined: `none`.
  unfoldable pub erase : T → T → ℕ → Vector T → Outcome (Option Bool × Vector T)
  unfolding shift resize
  erase blank past index v = if leb v.m_capacity index then done (some false, v) else (do
    let moved = shift (v.m_capacity - index) index past v.m_data
    v' ← resize blank (v.m_capacity - 1) (record v { m_data = moved })
    done (none, v'))
