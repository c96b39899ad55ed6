-- ===== src/Klibc/Queue/Tests.antt =====
-- Runs of src/klibc/queue.hpp, and its theorem at a concrete queue.
use toystar.Prelude.{ℕ, ◌≡◌, refl, none, some, List, [], ◌∷◌}
use toystar.Prelude.Outcome.{done, ◌>>=◌}
use toystar.Klibc.Vector.{vector, push_back, at}
use toystar.Klibc.Queue.{front, back, push, value_or}
use toystar.Klibc.Queue.Laws.{Call, push_call, pop_call}

front_test : (push {T = ℕ} 0 4 vector >>= push {T = ℕ} 0 5 >>= front) ≡ done (some 4)
unfolding push front vector push_back at
front_test = refl

back_test : (push {T = ℕ} 0 4 vector >>= push {T = ℕ} 0 5 >>= back) ≡ done (some 5)
unfolding push back vector push_back at
back_test = refl

value_or_test : (◌≡◌ {A = ℕ} (value_or none 3) 3) × (◌≡◌ {A = ℕ} (value_or (some 4) 3) 4)
unfolding value_or
value_or_test = (refl, refl)

abbrev calls : List (Call ℕ)
calls =
    push_call 4 ∷ push_call 5 ∷ pop_call 9 ∷ push_call 6 ∷ pop_call 8 ∷ pop_call 9 ∷ pop_call 0 ∷ []
