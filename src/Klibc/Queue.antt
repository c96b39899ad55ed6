-- ===== src/Klibc/Queue.antt =====
-- src/klibc/queue.hpp and src/klibc/optional.hpp: a queue over `toys::vector`. A `toys::optional`
-- owns a copy of its value, so it is an `Option`. `past` is what the read behind the array in
-- `vector::erase` gives.
pub mod Laws
mod Tests
use toystar.Prelude.{ℕ, ◌-◌, Option, none, some, Bool, ◌==◌, if◌then◌else◌}
use toystar.Prelude.Outcome.{Outcome, done, ◌>>=◌}
use toystar.Klibc.Vector
use toystar.Klibc.Vector.{Vector}

-- `m_data`
abbrev pub Queue {ℓ} : Type ℓ → Type ℓ
Queue T = Vector T

module _ {ℓ} {T : Type ℓ} where
  unfoldable pub front : Queue T → Outcome (Option T)
  front q = if q.m_capacity == 0 then done none else (Vector.at q 0 >>= λ x. done (some x))

  unfoldable pub back : Queue T → Outcome (Option T)
  back q =
      if q.m_capacity == 0
      then done none
      else (Vector.at q (q.m_capacity - 1) >>= λ x. done (some x))

  unfoldable pub push : T → T → Queue T → Outcome (Queue T)
  push blank value q = Vector.push_back blank value q

  unfoldable pub pop : T → T → Queue T → Outcome (Option T × Queue T)
  pop blank past q =
      if q.m_capacity == 0
      then done (none, q)
      else do value ← Vector.at q 0; r ← Vector.erase blank past 0 q; done (some value, r.1)

  -- `optional::value_or` and the test that `optional::value` is no null pointer.
  unfoldable pub value_or : Option T → T → T
  value_or none option = option
  value_or (some x) option = x
