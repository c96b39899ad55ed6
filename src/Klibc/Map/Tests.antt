-- ===== src/Klibc/Map/Tests.antt =====
-- Runs of src/klibc/map.hpp, and its theorems at concrete calls.
use toystar.Prelude.{ℕ, ap, ◌≡◌, ◌<◌, refl, none, some, List, [], ◌∷◌, ◌==◌, ==_iff, arith}
use toystar.Prelude.Outcome.{done}
use toystar.Klibc.Map.{map, hash_number}
use toystar.Klibc.Map.Laws.{IsHash, map-Represents}
use toystar.Klibc.Map.Runs.{Call, put, del, get, run, calls_refine}

hash_number-IsHash : IsHash hash_number ◌==◌
hash_number-IsHash = record { equal = λ k j e. ap (λ n. hash_number n 10) ((==_iff k j).0 e) }

abbrev calls : List (Call ℕ ℕ)
calls = put 3 7 ∷ put 1 8 ∷ get 3 ∷ put 3 9 ∷ get 3 ∷ del 3 ∷ get 3 ∷ get 4 ∷ []

small1 : hash_number 1 10 < 10
unfolding hash_number
small1 = omega arith

small3 : hash_number 3 10 < 10
unfolding hash_number
small3 = omega arith

small4 : hash_number 4 10 < 10
unfolding hash_number
small4 = omega arith

calls_refine_example : run hash_number ◌==◌ map calls ≡ done (some 7 ∷ some 9 ∷ some 7 ∷ none ∷ [])
calls_refine_example =
    calls_refine hash_number ◌==◌ calls map [] hash_number-IsHash
      (map-Represents hash_number ◌==◌ hash_number-IsHash)
      (
        small3,
        omega arith,
        (
          small1,
          omega arith,
          (
            small3,
            (small3, omega arith, (small3, (small3, omega arith, (small3, (small4, omega arith))))),
          ),
        ),
      )

-- The hash of a number is masked: that of 5 is an index behind the first table.
hash_number_test : hash_number 5 10 ≡ 10
unfolding hash_number
hash_number_test = refl
