-- ===== src/Klibc/Vector/Laws.antt =====
-- src/klibc/vector.hpp against lists.
use toystar.Prelude.{
  ℕ, zero, suc, ◌+◌, ◌-◌, ◌≡◌, refl, sym, ◌∙◌, ap, true, false, Option, none, some, List, [], ◌∷◌,
  ◌++◌, ◌==◌, ltb, leb, if◌then◌else◌, length, get_elem?, set, take, arith, Bool-cases, inl, inr,
  length-append,
}
use mathlib.Core.Path.{subst}
use mathlib.Core.List.{append_assoc}
use toystar.Prelude.Outcome.{done}
use toystar.Klibc.Vector.{Vector, vector, new_array, resize, push_back, shift, erase}
use toystar.Klibc.Vector.Copy.{
  length-new_array, get_elem?-middle, get_elem?-end, set-middle, length-snoc, take-all, resized,
  length-resized, resized-more, resized-less, copy-resized,
}

-- `m_data[i+1]`, with what lies behind the array.
abbrev next {ℓ} : {T : Type ℓ} → T → Option T → T
next past o = elim o [ none ↦ past | some x ↦ x ]

module _ {ℓ} {T : Type ℓ} where
  -- The vector holds the elements `xs`.
  pub record Holds (v : Vector T) (xs : List T) : Type ℓ where
    pub elements : v.m_data ≡ xs
    pub capacity : v.m_capacity ≡ length xs
    pub is_empty : v.m_is_empty ≡ (length xs == 0)

  pub vector-Holds : Holds vector []
  unfolding vector
  vector-Holds = record { elements = refl; capacity = refl; is_empty = refl }

  no_elements : (xs : List T) → length xs ≡ 0 → xs ≡ []
  no_elements [] h = refl
  no_elements (x ∷ xs) h = absurd (omega arith)

  -- `resize` to `n` elements keeps the first ones; the others, if any, are not assigned.
  pub resize-Holds :
      (blank : T) (n : ℕ) (v : Vector T) (xs : List T)
      → Holds v xs
      → (v' : Vector T) × (resize blank n v ≡ done v') × Holds v' (resized blank n xs)
  unfolding resize
  resize-Holds blank n v xs h =
      let cap = h.capacity in
      let len = length-resized blank n xs in
      elim (Bool-cases (n == v.m_capacity)) [
        | inl same ↦
            let q : resized blank n xs ≡ xs =
              resized-less blank n xs (ground arith) ∙ take-all n xs (ground arith) in
            (v, rw same, rw q h)
        | inr other ↦ elim (Bool-cases (n == 0)) [
          | inl none_left ↦
              let q : n ≡ 0 = ground arith in
              let e : resized blank n xs ≡ [] = resized-less blank n xs (omega arith) ∙ rw q in
              (
                record { m_data = []; m_capacity = 0; m_is_empty = true },
                rw (other, none_left),
                rw e (record { elements = refl; capacity = refl; is_empty = refl }),
              )
          | inr some_left ↦ elim (Bool-cases v.m_is_empty) [
            | inl b ↦
                let z : length xs ≡ 0 = ground arith in
                let e : resized blank n xs ≡ new_array blank n =
                  resized-more blank n xs (omega arith)
                  ∙ rw (no_elements xs z) (ap (new_array blank) (omega arith)) in
                (
                  record { m_data = new_array blank n; m_capacity = n; m_is_empty = false },
                  rw (other, some_left, b),
                  rw e (record {
                    elements = refl;
                    capacity = omega (arith, length-new_array blank n);
                    is_empty = ground (arith, length-new_array blank n);
                  }),
                )
            | inr b ↦
                let c =
                  copy-resized blank n (if ltb v.m_capacity n then v.m_capacity else n) xs
                    (ground arith) in
                (
                  record v { m_data = resized blank n xs; m_capacity = n },
                  rw (other, some_left, b, h.elements, c),
                  record { elements = refl; capacity = sym len; is_empty = ground arith },
                )
          ]
        ]
      ]

  grow_by_one : (blank : T) (xs : List T) → resized blank (length xs + 1) xs ≡ xs ++ (blank ∷ [])
  unfolding new_array
  grow_by_one blank xs =
      let e : length xs + 1 - length xs ≡ suc zero = omega arith in
      resized-more blank (length xs + 1) xs (omega arith) ∙ ap (λ k. xs ++ new_array blank k) e

  push_back-grown :
      (blank x : T) (v w : Vector T) (xs : List T)
      → resize blank (v.m_capacity + 1) v ≡ done w
      → Holds w (xs ++ (blank ∷ []))
      → (v' : Vector T) × (push_back blank x v ≡ done v') × Holds v' (xs ++ (x ∷ []))
  unfolding push_back
  push_back-grown blank x v w xs e k =
      let len = length-snoc xs blank in
      let at : w.m_capacity - 1 ≡ length xs = omega (arith, k.capacity) in
      let inside : ltb (length xs) (length (xs ++ (blank ∷ []))) ≡ true = ground arith in
      (
        record w { m_data = xs ++ (x ∷ []) },
        rw (e, at, k.elements, inside, set-middle xs blank x []),
        record {
          elements = refl;
          capacity = omega (arith, k.capacity, length-snoc xs x);
          is_empty = ground (arith, k.is_empty, length-snoc xs x);
        },
      )

  -- `push_back` adds the value at the end.
  pub push_back-Holds :
      (blank x : T) (v : Vector T) (xs : List T)
      → Holds v xs
      → (v' : Vector T) × (push_back blank x v ≡ done v') × Holds v' (xs ++ (x ∷ []))
  push_back-Holds blank x v xs h =
      let (w, e, k) = resize-Holds blank (v.m_capacity + 1) v xs h in
      let n : v.m_capacity + 1 ≡ length xs + 1 = omega (arith, h.capacity) in
      let q = ap (λ n. resized blank n xs) n ∙ grow_by_one blank xs in
      push_back-grown blank x v w xs e (subst (λ ys. Holds w ys) q k)

  shift-some :
      (n i : ℕ) (past x : T) (xs : List T)
      → get_elem? xs (i + 1) ≡ some x
      → shift (suc n) i past xs ≡ shift n (i + 1) past (set xs i x)
  unfolding shift
  shift-some n i past x xs e = ap (λ o. shift n (i + 1) past (set xs i (next past o))) e

  shift-none :
      (n i : ℕ) (past : T) (xs : List T)
      → get_elem? xs (i + 1) ≡ none
      → shift (suc n) i past xs ≡ shift n (i + 1) past (set xs i past)
  unfolding shift
  shift-none n i past xs e = ap (λ o. shift n (i + 1) past (set xs i (next past o))) e

  -- The shift loop, from the element `x` behind `front` on.
  shift-front :
      (front : List T) (x : T) (rest : List T) (past : T)
      → shift (length (x ∷ rest)) (length front) past (front ++ (x ∷ rest))
        ≡ front ++ (rest ++ (past ∷ []))
  shift-front front x [] past =
      let e : get_elem? (front ++ (x ∷ [])) (length front + 1) ≡ none =
        rw (sym (length-snoc front x)) (get_elem?-end (front ++ (x ∷ []))) in
      shift-none 0 (length front) past (front ++ (x ∷ [])) e
      ∙ (unfold shift in set-middle front x past [])
  shift-front front x (y ∷ rest) past =
      let e : get_elem? (front ++ (x ∷ y ∷ rest)) (length front + 1) ≡ some y =
        rw (sym (length-snoc front x), sym (append_assoc front (x ∷ []) (y ∷ rest)))
          (get_elem?-middle (front ++ (x ∷ [])) y rest) in
      let more = shift-front (front ++ (y ∷ [])) y rest past in
      shift-some (length (y ∷ rest)) (length front) past y (front ++ (x ∷ y ∷ rest)) e
      ∙ rw (set-middle front x y (y ∷ rest)) (
          rw
            (
              length-snoc front y,
              append_assoc front (y ∷ []) (y ∷ rest),
              append_assoc front (y ∷ []) (rest ++ (past ∷ [])),
            )
            at more)

  take-front : (xs ys : List T) → take (length xs) (xs ++ ys) ≡ xs
  take-front [] ys = refl
  take-front (x ∷ xs) ys = ap (λ t. x ∷ t) (take-front xs ys)

  erase-moved :
      (blank past x : T) (v w : Vector T) (front rest : List T)
      → Holds v (front ++ (x ∷ rest))
      → resize blank (v.m_capacity - 1) (record v { m_data = front ++ (rest ++ (past ∷ [])) })
        ≡ done w
      → erase blank past (length front) v ≡ done (none, w)
  unfolding erase
  erase-moved blank past x v w front rest h e =
      let cap : v.m_capacity ≡ length front + suc (length rest) =
        h.capacity ∙ length-append front (x ∷ rest) in
      let inside : leb v.m_capacity (length front) ≡ false = ground arith in
      let n : v.m_capacity - length front ≡ suc (length rest) = omega arith in
      let moved : shift (v.m_capacity - length front) (length front) past v.m_data
          ≡ front ++ (rest ++ (past ∷ [])) =
        rw (n, h.elements) (shift-front front x rest past) in
      rw (inside, moved, e)

  -- `erase` of an index in range removes that element and keeps the order of the others, whatever
  -- lies behind the array.
  pub erase-Holds :
      (blank past x : T) (v : Vector T) (front rest : List T)
      → Holds v (front ++ (x ∷ rest))
      → (v' : Vector T) × (erase blank past (length front) v ≡ done (none, v'))
        × Holds v' (front ++ rest)
  erase-Holds blank past x v front rest h =
      let l1 = length-append front (x ∷ rest) in
      let l2 = length-append front (rest ++ (past ∷ [])) in
      let l3 = length-append rest (past ∷ []) in
      let l4 = length-append front rest in
      let moved = record v { m_data = front ++ (rest ++ (past ∷ [])) } in
      let k : Holds moved (front ++ (rest ++ (past ∷ []))) = record {
        elements = refl;
        capacity = omega (arith, h.capacity);
        is_empty = ground (arith, h.is_empty);
      } in
      let (w, e, r) =
        resize-Holds blank (v.m_capacity - 1) moved (front ++ (rest ++ (past ∷ []))) k in
      let n : v.m_capacity - 1 ≡ length (front ++ rest) = omega (arith, h.capacity) in
      let kept : resized blank (v.m_capacity - 1) (front ++ (rest ++ (past ∷ []))) ≡ front ++ rest =
        resized-less blank (v.m_capacity - 1) (front ++ (rest ++ (past ∷ []))) (omega arith)
        ∙ ap (λ n. take n (front ++ (rest ++ (past ∷ [])))) n
        ∙ rw (sym (append_assoc front rest (past ∷ []))) (take-front (front ++ rest) (past ∷ [])) in
      (w, erase-moved blank past x v w front rest h e, subst (λ ys. Holds w ys) kept r)
