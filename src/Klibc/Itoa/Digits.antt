-- ===== src/Klibc/Itoa/Digits.antt =====
-- The two loops of `itoa` of src/klibc/strings.cpp, for base 10.
use toystar.Prelude.{
  ℕ, zero, suc, ◌+◌, ◌-◌, ◌*◌, ◌/◌, ◌%◌, ◌^◌, ◌≤◌, ◌<◌, ◌≡◌, ◌≢◌, refl, sym, ◌∙◌, ap, true, false,
  List, [], ◌∷◌, ◌++◌, ◌==◌, ltb, if◌then◌else◌, length, map, arith, Bool-cases, inl, inr,
  length-append, drop, none, some,
}
use mathlib.Core.List.{reverse, reverse-append, reverse-cons, append_assoc}
use mathlib.Core.Path.{subst}
use native.Mathlib.Nat.{pow-zero, pow-suc}
use toystar.Prelude.Outcome.{done, fault}
use toystar.Klibc.Vector.Copy.{get_elem?-middle, set-middle, length-snoc}
use toystar.Klibc.Itoa.{put_char, get_char, digit_char, write_digits, reverse_between}

-- The digits of a number, the last one first, in as many rounds.
unfoldable pub low_digits : ℕ → ℕ → List ℕ
low_digits zero n = []
low_digits (suc f) n = if n == 0 then [] else n % 10 ∷ low_digits f (n / 10)

pub put_char-middle :
    (front : List ℕ) (x y : ℕ) (rest : List ℕ)
    → put_char (front ++ (x ∷ rest)) (length front) y ≡ done (front ++ (y ∷ rest))
unfolding put_char
put_char-middle front x y rest =
    let inside : ltb (length front) (length (front ++ (x ∷ rest))) ≡ true =
      ground (arith, length-append front (x ∷ rest)) in
    rw (inside, set-middle front x y rest)

get_char-middle :
    (front : List ℕ) (x : ℕ) (rest : List ℕ)
    → get_char (front ++ (x ∷ rest)) (length front) ≡ done x
unfolding get_char
get_char-middle front x rest =
    ap (λ o. elim o [ none ↦ fault | some c ↦ done c ]) (get_elem?-middle front x rest)

write_digits-zero :
    (fuel n i : ℕ) (buffer : List ℕ)
    → n ≡ 0
    → write_digits (suc fuel) 10 n i buffer ≡ done (i, buffer)
unfolding write_digits
write_digits-zero fuel n i buffer e = let z : (n == 0) ≡ true = ground arith in rw z

write_digits-next :
    (fuel n : ℕ) (front : List ℕ) (x : ℕ) (tail : List ℕ)
    → n ≢ 0
    → write_digits (suc fuel) 10 n (length front) (front ++ (x ∷ tail))
      ≡ write_digits fuel 10 (n / 10) (length front + 1) (front ++ (digit_char (n % 10) ∷ tail))
unfolding write_digits
write_digits-next fuel n front x tail e =
    let z : (n == 0) ≡ false = ground arith in
    rw (z, put_char-middle front x (digit_char (n % 10)) tail)

-- The first loop writes the digits behind `front`, if there is room.
pub write_digits-low_digits :
    (f n : ℕ) (front tail : List ℕ)
    → n < 2 ^ f
    → length (low_digits f n) ≤ length tail
    → write_digits (suc f) 10 n (length front) (front ++ tail)
      ≡ done (
        length front + length (low_digits f n),
        front ++ (map digit_char (low_digits f n) ++ drop (length (low_digits f n)) tail),
      )
unfolding low_digits
write_digits-low_digits zero n front tail h room =
    let small : n < 1 = rw (pow-zero 2) at h in
    write_digits-zero 0 n (length front) (front ++ tail) (omega arith)
    ∙ ap (λ k. done (k, front ++ tail)) (omega arith)
write_digits-low_digits (suc f) n front [] h room = elim (Bool-cases (n == 0)) [
  | inl z ↦
      write_digits-zero (suc f) n (length front) (front ++ []) (ground arith)
      ∙ rw z (ap (λ k. done (k, front ++ [])) (omega arith))
  | inr z ↦ absurd (ground arith)
]
write_digits-low_digits (suc f) n front (x ∷ tail) h room = elim (Bool-cases (n == 0)) [
  | inl z ↦
      write_digits-zero (suc f) n (length front) (front ++ (x ∷ tail)) (ground arith)
      ∙ rw z (ap (λ k. done (k, front ++ (x ∷ tail))) (omega arith))
  | inr z ↦
      let h' : n < 2 ^ f * 2 = rw (pow-suc 2 f) at h in
      let room' : suc (length (low_digits f (n / 10))) ≤ suc (length tail) = rw z at room in
      let d = digit_char (n % 10) in
      let ds = low_digits f (n / 10) in
      let more =
        write_digits-low_digits f (n / 10) (front ++ (d ∷ [])) tail (omega arith) (omega arith) in
      rw z (
        write_digits-next (suc f) n front x tail (ground arith)
        ∙ (rw
            (
              length-snoc front d,
              append_assoc front (d ∷ []) tail,
              append_assoc front (d ∷ []) (map digit_char ds ++ drop (length ds) tail),
            )
            at more)
        ∙ ap (λ k. done (k, front ++ (d ∷ (map digit_char ds ++ drop (length ds) tail))))
            (omega arith))
]

exchange :
    (fuel : ℕ) (front : List ℕ) (x : ℕ) (ms : List ℕ) (z : ℕ) (tail : List ℕ)
    → reverse_between
        (suc fuel)
        (length front)
        (length front + length ms + 1)
        (front ++ (x ∷ (ms ++ (z ∷ tail))))
      ≡ reverse_between fuel
          (length front + 1)
          (length front + length ms)
          (front ++ (z ∷ (ms ++ (x ∷ tail))))
unfolding reverse_between
exchange fuel front x ms z tail =
    let less : ltb (length front) (length front + length ms + 1) ≡ true = ground arith in
    let at : length front + length ms + 1 ≡ length (front ++ (x ∷ ms)) =
      omega (arith, length-append front (x ∷ ms)) in
    let at' : length front + length ms + 1 ≡ length (front ++ (z ∷ ms)) =
      omega (arith, length-append front (z ∷ ms)) in
    let g = get_char-middle front x (ms ++ (z ∷ tail)) in
    let p = put_char-middle front x z (ms ++ (z ∷ tail)) in
    let g' =
      rw (append_assoc front (x ∷ ms) (z ∷ tail), sym at) at
        (get_char-middle (front ++ (x ∷ ms)) z tail) in
    let p' =
      rw (append_assoc front (z ∷ ms) (z ∷ tail), append_assoc front (z ∷ ms) (x ∷ tail), sym at')
        at (put_char-middle (front ++ (z ∷ ms)) z x tail) in
    rw (less, g, g', p, p')
      (ap (λ e. reverse_between fuel (length front + 1) e (front ++ (z ∷ (ms ++ (x ∷ tail)))))
        (omega arith))

last_of : (x : ℕ) (xs : List ℕ) → (ms : List ℕ) × (z : ℕ) × (x ∷ xs ≡ ms ++ (z ∷ []))
last_of x [] = ([], x, refl)
last_of x (y ∷ xs) = let (ms, z, e) = last_of y xs in (x ∷ ms, z, ap (λ t. x ∷ t) e)

reverse_between-short :
    (fuel c end : ℕ) (buffer : List ℕ)
    → end ≤ c
    → reverse_between (suc fuel) c end buffer ≡ done buffer
unfolding reverse_between
reverse_between-short fuel c end buffer h = let b : ltb c end ≡ false = ground arith in rw b

abbrev Reverses : ℕ → List ℕ → ℕ → List ℕ → List ℕ → Type 0
Reverses fuel front x tail xs =
    reverse_between fuel (length front) (length front + suc (length xs) - 1)
      (front ++ (x ∷ (xs ++ tail)))
    ≡ done (front ++ (reverse (x ∷ xs) ++ tail))

-- A round at the two ends, once the loop reverses what lies between.
reversed :
    (fuel : ℕ) (front : List ℕ) (x z : ℕ) (ms tail : List ℕ)
    → reverse_between fuel
        (length (front ++ (z ∷ [])))
        (length (front ++ (z ∷ [])) + length ms - 1)
        ((front ++ (z ∷ [])) ++ (ms ++ (x ∷ tail)))
      ≡ done ((front ++ (z ∷ [])) ++ (reverse ms ++ (x ∷ tail)))
    → Reverses (suc fuel) front x tail (ms ++ (z ∷ []))
reversed fuel front x z ms tail more =
    let end : length front + suc (length (ms ++ (z ∷ []))) - 1 ≡ length front + length ms + 1 =
      omega (arith, length-snoc ms z) in
    let inner : length front + 1 + length ms - 1 ≡ length front + length ms = omega arith in
    let ends : reverse (x ∷ (ms ++ (z ∷ []))) ++ tail ≡ z ∷ (reverse ms ++ (x ∷ tail)) =
      rw (reverse-cons x (ms ++ (z ∷ [])), reverse-append ms (z ∷ []))
        (ap (λ t. z ∷ t) (append_assoc (reverse ms) (x ∷ []) tail)) in
    rw (end, append_assoc ms (z ∷ []) tail, ends)
      (exchange fuel front x ms z tail
        ∙ (rw
            (
              length-snoc front z,
              inner,
              append_assoc front (z ∷ []) (ms ++ (x ∷ tail)),
              append_assoc front (z ∷ []) (reverse ms ++ (x ∷ tail)),
            )
            at more))

-- The second loop reverses the part between its indices.
pub reverse_between-reverse :
    (fuel : ℕ) (front mid tail : List ℕ)
    → length mid < fuel
    → reverse_between fuel (length front) (length front + length mid - 1) (front ++ (mid ++ tail))
      ≡ done (front ++ (reverse mid ++ tail))
reverse_between-reverse zero front mid tail h = elim h [ ]
reverse_between-reverse (suc fuel) front [] tail h =
    reverse_between-short fuel (length front) (length front + 0 - 1) (front ++ tail) (omega arith)
reverse_between-reverse (suc fuel) front (x ∷ []) tail h =
    reverse_between-short fuel (length front) (length front + 1 - 1) (front ++ (x ∷ tail))
      (omega arith)
reverse_between-reverse (suc fuel) front (x ∷ y ∷ xs) tail h =
    let (ms, z, e) = last_of y xs in
    let n : length (y ∷ xs) ≡ length ms + 1 = ap length e ∙ length-snoc ms z in
    let more = reverse_between-reverse fuel (front ++ (z ∷ [])) ms (x ∷ tail) (omega arith) in
    subst (Reverses (suc fuel) front x tail) (sym e) (reversed fuel front x z ms tail more)
