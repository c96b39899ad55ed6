-- ===== src/Memory/Vmm/Translate.antt =====
-- Mapping and translation by the page tables of src/kernel/memory/vmm.cpp.
use toystar.Prelude.{
  ℕ, ◌+◌, ◌-◌, ◌*◌, ◌/◌, ◌^◌, ◌<◌, ◌≡◌, ◌≢◌, sym, ◌∙◌, ap, true, false, bit_or, ◌==◌, leb, arith,
}
use toystar.Prelude.Outcome.{done}
use toystar.Prelude.Word.{u64_mod, add64}
use toystar.Memory.Pmm.{physical_base_address}
use toystar.Memory.Vmm.{
  Vmm, read_word, write_word, slot, frame_of, get_pml4e, get_pdpe, get_pde, get_pte, get_next_level,
  walk, map_page, virtual_to_physical,
}
use toystar.Memory.Vmm.Words.{AreApart, read_word-write_word, read_word-apart}

-- The word at an address names the table at the physical address `frame`.
pub record Names (memory : ℕ → ℕ) (at frame : ℕ) : Type 0 where
  pub present : read_word memory at ≢ 0
  pub points : frame_of (read_word memory at) ≡ frame
  pub small : frame < 2 ^ 46

-- The tables that a walk for `virt` passes, none of which is missing.
pub record IsPath (s : Vmm) (virt pml4 pdp pd pt : ℕ) : Type 0 where
  pub root : s.m_pml4 ≡ pml4 + physical_base_address
  pub low : pml4 < 2 ^ 46
  pub first : Names s.pmm.memory (pml4 + 8 * get_pml4e virt) pdp
  pub second : Names s.pmm.memory (pdp + 8 * get_pdpe virt) pd
  pub third : Names s.pmm.memory (pd + 8 * get_pde virt) pt

get_next_level-Names :
    (table next entry : ℕ) (s : Vmm)
    → table < 2 ^ 46
    → Names s.pmm.memory (table + 8 * entry) next
    → get_next_level (table + physical_base_address) entry s
      ≡ done (next + physical_base_address, s)
unfolding get_next_level slot
get_next_level-Names table next entry s low h =
    let high : ((table + physical_base_address) / 2 ^ 47 == 0) ≡ false = ground arith in
    let inside : leb physical_base_address (table + physical_base_address) ≡ true = ground arith in
    let off : table + physical_base_address - physical_base_address ≡ table = omega arith in
    let there : (read_word s.pmm.memory (table + 8 * entry) == 0) ≡ false =
      ground (arith, h.present) in
    let up : add64 next physical_base_address ≡ next + physical_base_address =
      omega (arith, h.small) in
    rw (high, inside, off, there, h.points, up)

walk-IsPath :
    (s : Vmm) (virt pml4 pdp pd pt : ℕ)
    → IsPath s virt pml4 pdp pd pt
    → walk virt s ≡ done (pt + 8 * get_pte virt, s)
unfolding walk slot
walk-IsPath s virt pml4 pdp pd pt h =
    let inside : leb physical_base_address (pt + physical_base_address) ≡ true = ground arith in
    let off : pt + physical_base_address - physical_base_address ≡ pt = omega arith in
    let a =
      ap (λ p. get_next_level p (get_pml4e virt) s) h.root
      ∙ get_next_level-Names pml4 pdp (get_pml4e virt) s h.low h.first in
    let b = get_next_level-Names pdp pd (get_pdpe virt) s h.first.small h.second in
    let c = get_next_level-Names pd pt (get_pde virt) s h.second.small h.third in
    rw (a, b, c, inside, off)

-- The last word on the way of `virt` is none of the words on the way of another address.
pub record IsOff (at virt pml4 pdp pd : ℕ) : Type 0 where
  pub first : AreApart at (pml4 + 8 * get_pml4e virt)
  pub second : AreApart at (pdp + 8 * get_pdpe virt)
  pub third : AreApart at (pd + 8 * get_pde virt)

Names-apart :
    (memory : ℕ → ℕ) (at v b frame : ℕ)
    → AreApart at b
    → Names memory b frame
    → Names (write_word memory at v) b frame
Names-apart memory at v b frame apart h =
    let same = read_word-apart memory at v b apart in
    record {
      present = λ z. h.present (sym same ∙ z);
      points = ap frame_of same ∙ h.points;
      small = h.small;
    }

IsPath-apart :
    (s : Vmm) (virt pml4 pdp pd pt at v : ℕ)
    → IsPath s virt pml4 pdp pd pt
    → IsOff at virt pml4 pdp pd
    → IsPath
        (record s { pmm = record (s.pmm) { memory = write_word s.pmm.memory at v } })
        virt
        pml4
        pdp
        pd
        pt
IsPath-apart s virt pml4 pdp pd pt at v h off = record {
  root = h.root;
  low = h.low;
  first = Names-apart s.pmm.memory at v (pml4 + 8 * get_pml4e virt) pdp off.first h.first;
  second = Names-apart s.pmm.memory at v (pdp + 8 * get_pdpe virt) pd off.second h.second;
  third = Names-apart s.pmm.memory at v (pd + 8 * get_pde virt) pt off.third h.third;
}

-- Where no table is missing on the ways to two addresses, and the last entry for the first one is apart
-- from all other entries on these ways: after `map_page` of the first, `virtual_to_physical` returns for
-- it the frame that was mapped, and for the other one what it returned before. No table is allocated.
pub virtual_to_physical-map_page :
    (virt phys flags pml4 pdp pd pt virt' pdp' pd' pt' : ℕ) (s : Vmm)
    → IsPath s virt pml4 pdp pd pt
    → IsOff (pt + 8 * get_pte virt) virt pml4 pdp pd
    → bit_or phys flags < u64_mod
    → IsPath s virt' pml4 pdp' pd' pt'
    → IsOff (pt + 8 * get_pte virt) virt' pml4 pdp' pd'
    → AreApart (pt + 8 * get_pte virt) (pt' + 8 * get_pte virt')
    → (s' : Vmm) × (frame : ℕ) × (map_page virt phys flags s ≡ done s')
      × (virtual_to_physical virt s' ≡ done (frame_of (bit_or phys flags), s'))
      × (virtual_to_physical virt' s ≡ done (frame, s))
      × (virtual_to_physical virt' s' ≡ done (frame, s'))
unfolding map_page virtual_to_physical
virtual_to_physical-map_page virt phys flags pml4 pdp pd pt virt' pdp' pd' pt' s h off fits h' off'
      apart =
    let at = pt + 8 * get_pte virt in
    let v = bit_or phys flags in
    let s' : Vmm = record s { pmm = record (s.pmm) { memory = write_word s.pmm.memory at v } } in
    let before = walk-IsPath s virt pml4 pdp pd pt h in
    let after =
      walk-IsPath s' virt pml4 pdp pd pt (IsPath-apart s virt pml4 pdp pd pt at v h off) in
    let before' = walk-IsPath s virt' pml4 pdp' pd' pt' h' in
    let after' =
      walk-IsPath s' virt' pml4 pdp' pd' pt'
        (IsPath-apart s virt' pml4 pdp' pd' pt' at v h' off') in
    (
      s',
      frame_of (read_word s.pmm.memory (pt' + 8 * get_pte virt')),
      rw before,
      rw (after, read_word-write_word s.pmm.memory at v fits),
      rw before',
      rw (after', read_word-apart s.pmm.memory at v (pt' + 8 * get_pte virt') apart),
    )
