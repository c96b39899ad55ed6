-- ===== src/Klibc/Strings/Compare.antt =====
-- `strncmp` and `strcmp` of src/klibc/strings.cpp.
use toystar.Prelude.{
  ℕ, zero, suc, ◌+◌, ◌<◌, ◌≡◌, refl, sym, ap, ◌↔◌, Bool, true, false, [], ◌∷◌, ◌==◌, not, length,
  if◌then◌else◌, arith, Bool-cases, inl, inr, ==_iff,
}
use toystar.Klibc.Strings.{CString, char_at, strlen, same_from, strncmp, strcmp}

-- No character is the terminator.
abbrev pub IsText : CString → Type 0
IsText [] = Unit {0}
IsText (c ∷ s) = (0 < c) × IsText s

-- `s` is a beginning of `t`.
abbrev pub starts : CString → CString → Bool
starts [] t = true
starts (c ∷ s) [] = false
starts (c ∷ s) (d ∷ t) = if c == d then starts s t else false

pub strlen-length : (s : CString) → IsText s → strlen s ≡ length s
unfolding strlen
strlen-length [] h = refl
strlen-length (c ∷ s) (p, h) = ground (arith, strlen-length s h)

-- Later indices see the tails.
same_from-tail :
    (n i c d : ℕ) (s t : CString) → same_from n (i + 1) (c ∷ s) (d ∷ t) ≡ same_from n i s t
unfolding same_from
same_from-tail zero i c d s t = refl
same_from-tail (suc n) i c d s t =
    let e : i + 1 ≡ suc i = omega arith in
    rw e (
      ap (λ r. if not (char_at s i == char_at t i) then false else r)
        (rw (sym e) (same_from-tail n (i + 1) c d s t)))

same_from-starts : (s t : CString) → IsText s → same_from (length s) 0 s t ≡ starts s t
unfolding same_from
same_from-starts [] t h = refl
same_from-starts (c ∷ s) [] (p, h) = ground arith
same_from-starts (c ∷ s) (d ∷ t) (p, h) =
    let e = same_from-tail (length s) 0 c d s t in
    let z : 0 + 1 ≡ 1 = refl in ground (arith, same_from-starts s t h)

-- With the length of the first text, `strncmp` says whether the second begins with the first; it
-- stops inside the second if that is shorter.
pub strncmp-starts : (s t : CString) → IsText s → strncmp s t (strlen s) ≡ starts s t
unfolding strncmp
strncmp-starts s t h = rw (strlen-length s h) (same_from-starts s t h)

starts-eq : (s t : CString) → length s ≡ length t → starts s t ≡ true → s ≡ t
starts-eq [] [] n h = refl
starts-eq [] (d ∷ t) n h = absurd (omega arith)
starts-eq (c ∷ s) [] n h = absurd (omega arith)
starts-eq (c ∷ s) (d ∷ t) n h = ground (arith, starts-eq s t)

pub starts_self : (s : CString) → starts s s ≡ true
starts_self [] = refl
starts_self (c ∷ s) = ground (arith, starts_self s)

-- `strcmp` says whether two texts are equal.
pub strcmp_iff : (s t : CString) → IsText s → IsText t → (strcmp s t ≡ true) ↔ (s ≡ t)
unfolding strcmp
strcmp_iff s t hs ht =
    rw (strlen-length s hs, strlen-length t ht, same_from-starts s t hs)
      (
        (λ e. elim (Bool-cases (length s == length t)) [
          | inl q ↦ starts-eq s t ((==_iff _ _).0 q) (ground arith)
          | inr q ↦ absurd (ground arith)
        ]),
        (λ e. rw (sym e) (ground (arith, starts_self s))),
      )
