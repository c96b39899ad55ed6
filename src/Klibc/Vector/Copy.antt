-- ===== src/Klibc/Vector/Copy.antt =====
-- The copy loop of `resize` of src/klibc/vector.hpp.
use toystar.Prelude.{
  ℕ, zero, suc, ◌+◌, ◌-◌, ◌≤◌, ◌≡◌, refl, sym, ◌∙◌, ap, true, none, some, List, [], ◌∷◌, ◌++◌, ltb,
  length, get_elem?, set, take, drop, arith, Bool-cases, inl, inr, min, length-append,
}
use mathlib.Core.List.{append_assoc, append-nil}
use toystar.Prelude.Outcome.{done}
use toystar.Klibc.Vector.{new_array, copy}

module _ {ℓ} {T : Type ℓ} where
  pub length-new_array : (blank : T) (n : ℕ) → length (new_array blank n) ≡ n
  unfolding new_array
  length-new_array blank zero = refl
  length-new_array blank (suc n) = omega (arith, length-new_array blank n)

  pub get_elem?-middle :
      (front : List T) (x : T) (rest : List T)
      → get_elem? (front ++ (x ∷ rest)) (length front) ≡ some x
  get_elem?-middle [] x rest = refl
  get_elem?-middle (y ∷ front) x rest = get_elem?-middle front x rest

  pub get_elem?-end : (xs : List T) → get_elem? xs (length xs) ≡ none
  get_elem?-end [] = refl
  get_elem?-end (x ∷ xs) = get_elem?-end xs

  pub set-middle :
      (front : List T) (x y : T) (rest : List T)
      → set (front ++ (x ∷ rest)) (length front) y ≡ front ++ (y ∷ rest)
  set-middle [] x y rest = refl
  set-middle (z ∷ front) x y rest = ap (λ t. z ∷ t) (set-middle front x y rest)

  pub length-snoc : (front : List T) (x : T) → length (front ++ (x ∷ [])) ≡ length front + 1
  length-snoc front x = omega (arith, length-append front (x ∷ []))

  copy-step :
      (n i : ℕ) (old new : List T) (x : T)
      → get_elem? old i ≡ some x
      → ltb i (length new) ≡ true
      → copy (suc n) i old new ≡ copy n (i + 1) old (set new i x)
  unfolding copy
  copy-step n i old new x e h = rw (e, copy, h)

  -- The copy loop after some rounds: what is done, `front`, and what is left of the two arrays.
  copy-front :
      (n : ℕ) (front old new : List T)
      → n ≤ length old
      → n ≤ length new
      → copy n (length front) (front ++ old) (front ++ new)
        ≡ done (front ++ (take n old ++ drop n new))
  unfolding copy
  copy-front zero front old new h k = refl
  copy-front (suc n) front [] new h k = absurd (omega arith)
  copy-front (suc n) front (x ∷ old) [] h k = absurd (omega arith)
  copy-front (suc n) front (x ∷ old) (y ∷ new) h k =
      let inside : ltb (length front) (length (front ++ (y ∷ new))) ≡ true =
        ground (arith, length-append front (y ∷ new)) in
      let more = copy-front n (front ++ (x ∷ [])) old new (omega arith) (omega arith) in
      copy-step n (length front) (front ++ (x ∷ old)) (front ++ (y ∷ new)) x
        (get_elem?-middle front x old) inside
      ∙ rw (set-middle front y x new) (
          rw
            (
              length-snoc front x,
              append_assoc front (x ∷ []) old,
              append_assoc front (x ∷ []) new,
              append_assoc front (x ∷ []) (take n old ++ drop n new),
            )
            at more)

  drop-new_array : (blank : T) (n m : ℕ) → drop n (new_array blank (n + m)) ≡ new_array blank m
  unfolding new_array
  drop-new_array blank zero m = let e : 0 + m ≡ m = omega arith in rw e
  drop-new_array blank (suc n) m =
      let e : suc n + m ≡ suc (n + m) = omega arith in rw e (drop-new_array blank n m)

  pub take-all : (n : ℕ) (xs : List T) → length xs ≤ n → take n xs ≡ xs
  take-all zero [] h = refl
  take-all zero (x ∷ xs) h = absurd (omega arith)
  take-all (suc n) [] h = refl
  take-all (suc n) (x ∷ xs) h = ap (λ t. x ∷ t) (take-all n xs (omega arith))

  length-take : (n : ℕ) (xs : List T) → length (take n xs) ≡ min n (length xs)
  length-take zero xs = omega arith
  length-take (suc n) [] = omega arith
  length-take (suc n) (x ∷ xs) = omega (arith, length-take n xs)

  -- `resize` cuts the elements off, or adds unassigned ones.
  abbrev pub resized : T → ℕ → List T → List T
  resized blank n xs = take n xs ++ new_array blank (n - length xs)

  pub length-resized : (blank : T) (n : ℕ) (xs : List T) → length (resized blank n xs) ≡ n
  length-resized blank n xs = omega (
    arith,
    length-append (take n xs) (new_array blank (n - length xs)),
    length-take n xs,
    length-new_array blank (n - length xs),
  )

  pub resized-more :
      (blank : T) (n : ℕ) (xs : List T)
      → length xs ≤ n
      → resized blank n xs ≡ xs ++ new_array blank (n - length xs)
  resized-more blank n xs h = rw (take-all n xs h)

  pub resized-less :
      (blank : T) (n : ℕ) (xs : List T) → n ≤ length xs → resized blank n xs ≡ take n xs
  unfolding new_array
  resized-less blank n xs h =
      let e : n - length xs ≡ 0 = omega arith in rw e (append-nil (take n xs))

  pub copy-resized :
      (blank : T) (n t : ℕ) (xs : List T)
      → t ≡ min (length xs) n
      → copy t 0 xs (new_array blank n) ≡ done (resized blank n xs)
  unfolding new_array
  copy-resized blank n t xs e =
      let c =
        copy-front t [] xs (new_array blank n) (omega arith)
          (omega (arith, length-new_array blank n)) in
      c
      ∙ ap done (elim (Bool-cases (ltb (length xs) n)) [
        | inl b ↦
            let q : t ≡ length xs = ground arith in
            let m : n ≡ length xs + (n - length xs) = ground arith in
            let d : drop (length xs) (new_array blank n) ≡ new_array blank (n - length xs) =
              ap (λ k. drop (length xs) (new_array blank k)) m
              ∙ drop-new_array blank (length xs) (n - length xs) in
            rw (q, d, take-all (length xs) xs (omega arith))
              (sym (resized-more blank n xs (omega arith)))
        | inr b ↦
            let q : t ≡ n = ground arith in
            let m : n + 0 ≡ n = omega arith in
            let d : drop n (new_array blank n) ≡ [] = rw m at (drop-new_array blank n 0) in
            rw (q, d, append-nil) (sym (resized-less blank n xs (ground arith)))
      ])
