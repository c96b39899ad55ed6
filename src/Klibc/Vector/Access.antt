-- ===== src/Klibc/Vector/Access.antt =====
-- `operator[]` of src/klibc/vector.hpp within the array.
use toystar.Prelude.{
  ℕ, zero, suc, ◌<◌, ◌≡◌, refl, true, false, some, List, [], ◌∷◌, ◌++◌, leb, ltb, length, get_elem?,
  set, arith, length-set,
}
use toystar.Prelude.Outcome.{done}
use toystar.Klibc.Vector.{Vector, at, assign}
use toystar.Klibc.Vector.Copy.{get_elem?-middle}
use toystar.Klibc.Vector.Laws.{Holds}

module _ {ℓ} {T : Type ℓ} where
  pub get_elem?-some : (xs : List T) (i : ℕ) (x : T) → get_elem? xs i ≡ some x → i < length xs
  get_elem?-some [] i x e = absurd (cc)
  get_elem?-some (y ∷ xs) zero x e = omega arith
  get_elem?-some (y ∷ xs) (suc i) x e = omega (arith, get_elem?-some xs i x e)

  pub at-Holds :
      (v : Vector T) (xs : List T) (i : ℕ) (x : T)
      → Holds v xs
      → get_elem? xs i ≡ some x
      → at v i ≡ done x
  unfolding at
  at-Holds v xs i x h e =
      let small = get_elem?-some xs i x e in
      let inside : leb v.m_capacity i ≡ false = ground (arith, h.capacity) in
      rw (inside, h.elements, e)

  pub at-middle :
      (v : Vector T) (front : List T) (x : T) (rest : List T)
      → Holds v (front ++ (x ∷ rest))
      → at v (length front) ≡ done x
  at-middle v front x rest h =
      at-Holds v (front ++ (x ∷ rest)) (length front) x h (get_elem?-middle front x rest)

  pub assign-Holds :
      (v : Vector T) (xs : List T) (i : ℕ) (x : T)
      → Holds v xs
      → i < length xs
      → (v' : Vector T) × (assign v i x ≡ done v') × Holds v' (set xs i x)
  unfolding assign
  assign-Holds v xs i x h small =
      let inside : leb v.m_capacity i ≡ false = ground (arith, h.capacity) in
      let fits : ltb i (length xs) ≡ true = ground arith in
      let same = length-set xs i x in
      (
        record v { m_data = set xs i x },
        rw (inside, h.elements, fits),
        record {
          elements = refl;
          capacity = omega (arith, h.capacity);
          is_empty = ground (arith, h.is_empty);
        },
      )
