-- ===== src/Klibc/Itoa/Laws.antt =====
-- `itoa` of src/klibc/strings.cpp against `atoi`.
use toystar.Prelude.{
  ℕ, zero, suc, ◌+◌, ◌-◌, ◌*◌, ◌^◌, ◌≤◌, ◌<◌, ◌≡◌, ◌≢◌, refl, sym, ◌∙◌, ap, true, false, List, [],
  ◌∷◌, ◌++◌, ◌==◌, leb, length, map, arith, Bool-cases, inl, inr, drop,
}
use mathlib.Core.List.{reverse, reverse-cons, map-append}
use Prim.Native.Nat.{max}
use toystar.Prelude.Outcome.{done, ◌>>=◌}
use toystar.Prelude.Word.{u64_mod}
use toystar.Klibc.Vector.Copy.{length-snoc}
use toystar.Klibc.Strings.{atoi}
use toystar.Klibc.Strings.Numbers
use toystar.Klibc.Strings.Numbers.{AreDigits, value, digits_from-value}
use toystar.Klibc.Itoa.{put_char, digit_char, write_digits, reverse_between, text_of, finish, itoa}
use toystar.Klibc.Itoa.Digits.{
  low_digits, write_digits-low_digits, reverse_between-reverse, put_char-middle,
}
use toystar.Klibc.Itoa.Decimal.{
  low_digits-AreDigits, reverse-AreDigits, value-low_digits, length-low_digits, length-positive,
  shortest_low_digits,
}

-- A digit's character is that of `atoi`, and it is no terminator.
abbrev pub chars : List ℕ → List ℕ
chars ds = map Numbers.digit_char ds

map-digit_char : (ds : List ℕ) → AreDigits 10 ds → map digit_char ds ≡ chars ds
map-digit_char [] h = refl
map-digit_char (d ∷ ds) (p, h) =
    let small : leb d 9 ≡ true = ground arith in rw (small, map-digit_char ds h)

text_of-chars : (ds rest : List ℕ) → text_of (chars ds ++ (0 ∷ rest)) ≡ chars ds
text_of-chars [] rest = refl
text_of-chars (d ∷ ds) rest =
    let other : (d + 48 == 0) ≡ false = ground arith in rw (other, text_of-chars ds rest)

atoi-chars : (ds : List ℕ) → AreDigits 10 ds → value 10 ds < u64_mod → atoi (chars ds) ≡ value 10 ds
unfolding atoi
atoi-chars [] h small = refl
atoi-chars (d ∷ ds) (p, h) small =
    let plus : (d + 48 == 45) ≡ false = ground arith in
    let all = value 10 (d ∷ ds) in
    let e : 0 * 10 ^ length (d ∷ ds) + all ≡ all = omega arith in
    rw plus (digits_from-value 10 0 (d ∷ ds) (omega arith) (p, h) (rw e small) ∙ e)

map-reverse : (f : ℕ → ℕ) (ds : List ℕ) → reverse (map f ds) ≡ map f (reverse ds)
map-reverse f [] = refl
map-reverse f (d ∷ ds) =
    rw (reverse-cons (f d) (map f ds), reverse-cons d ds, map-reverse f ds)
      (sym (map-append f (reverse ds) (d ∷ [])))

length-map : (f : ℕ → ℕ) (ds : List ℕ) → length (map f ds) ≡ length ds
length-map f [] = refl
length-map f (d ∷ ds) = ap suc (length-map f ds)

length-reverse : (ds : List ℕ) → length (reverse ds) ≡ length ds
length-reverse [] = refl
length-reverse (d ∷ ds) =
    rw (reverse-cons d ds) (omega (arith, length-snoc (reverse ds) d, length-reverse ds))

-- What is left of the buffer behind the digits has a place for the terminator.
room :
    (buffer : List ℕ) (n : ℕ)
    → n < length buffer
    → (x : ℕ) × (rest : List ℕ) × (drop n buffer ≡ x ∷ rest)
room [] n h = absurd (omega arith)
room (x ∷ buffer) zero h = (x, buffer, refl)
room (x ∷ buffer) (suc n) h = room buffer n (omega arith)

reverse_between-chars :
    (ds tail : List ℕ) (x : ℕ)
    → AreDigits 10 ds
    → length ds ≤ 19
    → reverse_between 65 0 (length ds - 1) (map digit_char ds ++ (x ∷ tail))
      ≡ done (chars (reverse ds) ++ (x ∷ tail))
reverse_between-chars ds tail x h short =
    let e : 0 + length (map digit_char ds) - 1 ≡ length ds - 1 =
      omega (arith, length-map digit_char ds) in
    ap (λ k. reverse_between 65 0 k (map digit_char ds ++ (x ∷ tail))) (sym e)
    ∙ reverse_between-reverse 65 [] (map digit_char ds) (x ∷ tail)
        (omega (arith, length-map digit_char ds))
    ∙ ap (λ r. done (r ++ (x ∷ tail)))
        (map-reverse digit_char ds ∙ map-digit_char (reverse ds) (reverse-AreDigits ds h))

finish-chars :
    (ds tail : List ℕ) (x : ℕ)
    → AreDigits 10 ds
    → length ds ≤ 19
    → (buffer : List ℕ) × (finish 0 (length ds, map digit_char ds ++ (x ∷ tail))
        ≡ done (chars (reverse ds), buffer))
unfolding finish
finish-chars ds tail x h short =
    let n : length (chars (reverse ds)) ≡ length ds =
      length-map Numbers.digit_char (reverse ds) ∙ length-reverse ds in
    let ended : put_char (chars (reverse ds) ++ (x ∷ tail)) (length ds) 0
        ≡ done (chars (reverse ds) ++ (0 ∷ tail)) =
      ap (λ k. put_char (chars (reverse ds) ++ (x ∷ tail)) k 0) (sym n)
      ∙ put_char-middle (chars (reverse ds)) x 0 tail in
    (
      chars (reverse ds) ++ (0 ∷ tail),
      rw (reverse_between-chars ds tail x h short, ended)
          (ap (λ t. done (t, chars (reverse ds) ++ (0 ∷ tail))) (text_of-chars (reverse ds) tail)),
    )

itoa-zero : (n : ℕ) (buffer : List ℕ) → (n == 0) ≡ true → itoa n 10 buffer ≡ done (48 ∷ [], buffer)
unfolding itoa
itoa-zero n buffer z = rw z

itoa-digits :
    (n : ℕ) (buffer : List ℕ)
    → n ≢ 0
    → itoa n 10 buffer ≡ (write_digits 65 10 n 0 buffer >>= finish 0)
unfolding itoa
itoa-digits n buffer nz = let z : (n == 0) ≡ false = ground arith in rw z

-- A number of 19 decimal digits or fewer is written as its digits, the first one first, each as its
-- character: they stand for the number, and there are no more of them than it needs, so that 0 is
-- the one digit 0 and no other number begins with a 0. `atoi` reads the number back. (The 20
-- characters of the buffer have no place for a twentieth digit and the terminator.)
pub itoa-atoi :
    (n : ℕ) (buffer : List ℕ)
    → n < 10 ^ 19
    → length buffer ≡ 20
    → (ds : List ℕ) × (buffer' : List ℕ) × (itoa n 10 buffer ≡ done (chars ds, buffer'))
      × AreDigits 10 ds
      × (value 10 ds ≡ n)
      × (0 < length ds)
      × (10 ^ length ds ≤ 10 * max n 1)
      × (atoi (chars ds) ≡ n)
itoa-atoi n buffer small size = elim (Bool-cases (n == 0)) [
  | inl z ↦ (
    0 ∷ [],
    buffer,
    itoa-zero n buffer z,
    (omega arith, tt),
    ground arith,
    omega arith,
    omega arith,
    atoi-chars (0 ∷ []) (omega arith, tt) (omega arith) ∙ ground arith,
  )
  | inr z ↦
      let ds = low_digits 64 n in
      let digits = low_digits-AreDigits 64 n in
      let short : length ds ≤ 19 = length-low_digits 64 n 19 small in
      let (x, rest, left) = room buffer (length ds) (omega arith) in
      let w = write_digits-low_digits 64 n [] buffer (omega arith) (omega arith) in
      let w' : write_digits 65 10 n 0 buffer ≡ done (length ds, map digit_char ds ++ (x ∷ rest)) =
        w ∙ rw left (ap (λ k. done (k, map digit_char ds ++ (x ∷ rest))) (omega arith)) in
      let (buffer', f) = finish-chars ds rest x digits short in
      let v = value-low_digits 64 n (omega arith) in
      let pos : 0 < n = ground arith in
      let count = length-reverse ds in
      let least = shortest_low_digits 64 n pos (omega arith) in
      let some_digit = length-positive 63 n pos in
      (
        reverse ds,
        buffer',
        itoa-digits n buffer (ground arith) ∙ rw w' f,
        reverse-AreDigits ds digits,
        v,
        rw count some_digit,
        rw count (omega arith),
        atoi-chars (reverse ds) (reverse-AreDigits ds digits) (omega arith) ∙ v,
      )
]
