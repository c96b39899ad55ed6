-- ===== src/Apic/Walk.antt =====
-- The walk of `Apic::init` in src/kernel/x86_64/apic.cpp over the entries of the MADT.
use toystar.Prelude.{
  ℕ, zero, suc, ◌+◌, ◌-◌, ◌<◌, ◌≡◌, refl, ap, ◌∙◌, Bool, true, false, List, [], ◌∷◌, ◌++◌, ◌==◌,
  ltb, if◌then◌else◌, length, arith,
}
use mathlib.Core.List.{append_assoc, append-nil}
use toystar.Prelude.Outcome.{done, hang}
use toystar.Apic.{Madt, collect, find_entries}

-- The type and the length of each entry, one behind the other from `i` on. No length is 0.
abbrev pub Placed : (ℕ → ℕ) → ℕ → List (ℕ × ℕ) → Type 0
Placed bytes i [] = Unit {0}
Placed bytes i ((ty, len) ∷ es) =
    (bytes i ≡ ty) × (bytes (i + 1) ≡ len) × (0 < len) × Placed bytes (i + len) es

abbrev pub total : List (ℕ × ℕ) → ℕ
total [] = 0
total ((ty, len) ∷ es) = len + total es

-- Where the entries of a type begin.
abbrev pub offsets : ℕ → ℕ → List (ℕ × ℕ) → List ℕ
offsets ty i [] = []
offsets ty i ((t, len) ∷ es) =
    let rest = offsets ty (i + len) es in if t == ty then i ∷ rest else rest

abbrev pub found_in : ℕ → List (ℕ × ℕ) → Madt → Madt
found_in i es found = record {
  lapics = found.lapics ++ offsets 0 i es;
  ioapics = found.ioapics ++ offsets 1 i es;
  isos = found.isos ++ offsets 2 i es;
  address_override = found.address_override ++ offsets 5 i es;
}

lapics-collect :
    (ty i : ℕ) (found : Madt)
    → (collect ty i found).lapics ≡ (if ty == 0 then found.lapics ++ (i ∷ []) else found.lapics)
unfolding collect
lapics-collect ty i found = ground arith

ioapics-collect :
    (ty i : ℕ) (found : Madt)
    → (collect ty i found).ioapics ≡ (if ty == 1 then found.ioapics ++ (i ∷ []) else found.ioapics)
unfolding collect
ioapics-collect ty i found = ground arith

isos-collect :
    (ty i : ℕ) (found : Madt)
    → (collect ty i found).isos ≡ (if ty == 2 then found.isos ++ (i ∷ []) else found.isos)
unfolding collect
isos-collect ty i found = ground arith

address_override-collect :
    (ty i : ℕ) (found : Madt)
    → (collect ty i found).address_override
      ≡ (if ty == 5 then found.address_override ++ (i ∷ []) else found.address_override)
unfolding collect
address_override-collect ty i found = ground arith

append-if :
    (b : Bool) (xs rest : List ℕ) (i : ℕ)
    → (if b then xs ++ (i ∷ []) else xs) ++ rest ≡ xs ++ (if b then i ∷ rest else rest)
append-if true xs rest i = append_assoc xs (i ∷ []) rest
append-if false xs rest i = refl

found_in-collect :
    (ty len i : ℕ) (es : List (ℕ × ℕ)) (found : Madt)
    → found_in (i + len) es (collect ty i found) ≡ found_in i ((ty, len) ∷ es) found
found_in-collect ty len i es found =
    rw
      (
        lapics-collect ty i found,
        ioapics-collect ty i found,
        isos-collect ty i found,
        address_override-collect ty i found,
        append-if (ty == 0) found.lapics (offsets 0 (i + len) es) i,
        append-if (ty == 1) found.ioapics (offsets 1 (i + len) es) i,
        append-if (ty == 2) found.isos (offsets 2 (i + len) es) i,
        append-if (ty == 5) found.address_override (offsets 5 (i + len) es) i,
      )
      refl

found_in-nil : (i : ℕ) (found : Madt) → found_in i [] found ≡ found
found_in-nil i found =
    rw
      (
        append-nil found.lapics,
        append-nil found.ioapics,
        append-nil found.isos,
        append-nil found.address_override,
      )
      refl

find_entries-step :
    (n : ℕ) (bytes : ℕ → ℕ) (entries i : ℕ) (found : Madt)
    → i < entries
    → find_entries (suc n) bytes entries i found
      ≡ find_entries n bytes entries (i + bytes (i + 1)) (collect (bytes i) i found)
unfolding find_entries
find_entries-step n bytes entries i found lt = let go : ltb i entries ≡ true = ground arith in rw go

-- The walk over the entries goes on behind them with what they have given.
find_entries-Placed :
    (es : List (ℕ × ℕ)) (fuel : ℕ) (bytes : ℕ → ℕ) (entries i : ℕ) (found : Madt)
    → Placed bytes i es
    → i + total es < suc entries
    → find_entries (length es + fuel) bytes entries i found
      ≡ find_entries fuel bytes entries (i + total es) (found_in i es found)
find_entries-Placed [] fuel bytes entries i found h le =
    let z : i + 0 ≡ i = omega arith in
    let n : 0 + fuel ≡ fuel = omega arith in rw (z, n, found_in-nil i found)
find_entries-Placed ((ty, len) ∷ es) fuel bytes entries i found (at_ty, at_len, pos, h) le =
    let z : i + len + total es ≡ i + (len + total es) = omega arith in
    let n : suc (length es) + fuel ≡ suc (length es + fuel) = omega arith in
    let rest =
      find_entries-Placed es fuel bytes entries (i + len) (collect ty i found) h (omega arith) in
    let rest' = rw (z, found_in-collect ty len i es found) at rest in
    rw (n, find_entries-step (length es + fuel) bytes entries i found (omega arith), at_ty, at_len)
      rest'

-- The walk over entries that fill the table ends, with the entries of each type in their order. Fuel
-- above the number of entries is enough.
pub find_entries-offsets :
    (es : List (ℕ × ℕ)) (fuel : ℕ) (bytes : ℕ → ℕ) (entries : ℕ)
    → Placed bytes 0 es
    → total es ≡ entries
    → length es < fuel
    → find_entries fuel bytes entries 0
        (record { lapics = []; ioapics = []; isos = []; address_override = [] })
      ≡ done (record {
        lapics = offsets 0 0 es;
        ioapics = offsets 1 0 es;
        isos = offsets 2 0 es;
        address_override = offsets 5 0 es;
      })
find_entries-offsets es fuel bytes entries h e lt =
    let blank : Madt = record { lapics = []; ioapics = []; isos = []; address_override = [] } in
    let n : fuel ≡ length es + suc (fuel - length es - 1) = omega arith in
    let stop : ltb (0 + total es) entries ≡ false = ground arith in
    rw n (
      find_entries-Placed es (suc (fuel - length es - 1)) bytes entries 0 blank h (omega arith)
      ∙ (unfold find_entries in rw stop))

hang-from :
    (es : List (ℕ × ℕ)) (fuel : ℕ) (bytes : ℕ → ℕ) (entries i : ℕ) (found : Madt)
    → Placed bytes i es
    → i + total es < entries
    → bytes (i + total es + 1) ≡ 0
    → find_entries fuel bytes entries i found ≡ hang
hang-from es zero bytes entries i found h lt zero_length = unfold find_entries in refl
hang-from [] (suc n) bytes entries i found h lt zero_length =
    let z : i + 0 + 1 ≡ i + 1 = omega arith in
    let same : i + 0 ≡ i = omega arith in
    let stays = rw z at zero_length in
    rw (find_entries-step n bytes entries i found (omega arith), stays, same)
      (hang-from [] n bytes entries i (collect (bytes i) i found) h lt zero_length)
hang-from ((ty, len) ∷ es) (suc n) bytes entries i found (at_ty, at_len, pos, h) lt zero_length =
    let z : i + (len + total es) + 1 ≡ i + len + total es + 1 = omega arith in
    rw (find_entries-step n bytes entries i found (omega arith), at_len)
      (hang-from es n bytes entries (i + len) (collect (bytes i) i found) h (omega arith)
        (rw z at zero_length))

-- With an entry of length 0 behind the others, still inside of the table, the walk never ends: no
-- fuel is enough.
pub find_entries-hang :
    (es : List (ℕ × ℕ)) (fuel : ℕ) (bytes : ℕ → ℕ) (entries : ℕ) (found : Madt)
    → Placed bytes 0 es
    → total es < entries
    → bytes (total es + 1) ≡ 0
    → find_entries fuel bytes entries 0 found ≡ hang
find_entries-hang es fuel bytes entries found h lt zero_length =
    let z : 0 + total es + 1 ≡ total es + 1 = omega arith in
    hang-from es fuel bytes entries 0 found h (omega arith) (ap bytes z ∙ zero_length)
