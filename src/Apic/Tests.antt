-- ===== src/Apic/Tests.antt =====
-- Runs of src/kernel/x86_64/apic.cpp on a table and on a device, and its theorems there.
use toystar.Prelude.{
  ℕ, ◌+◌, ◌*◌, ◌%◌, ◌≤◌, ◌≡◌, refl, ◌∙◌, true, false, bit_and, [], ◌∷◌, ◌==◌, ltb, leb, ◌||◌,
  if◌then◌else◌, arith, min, Bool-cases, inl, inr,
}
use toystar.Prelude.Outcome.{done, hang}
use toystar.Prelude.Word.{update}
use toystar.Apic.{
  Madt, IoApic, MadtIso, Bus, find_entries, init_ioapic, max_gsi, identity, override,
  set_redirection, mask_all, mask_gsi, unmask_gsi,
}
use toystar.Apic.Walk.{find_entries-offsets, find_entries-hang}
use toystar.Apic.Bits.{bit, bit-bit_and}
use toystar.Apic.Mask.{IsIoApic, init_ioapic-masks}

abbrev blank : Madt
blank = record { lapics = []; ioapics = []; isos = []; address_override = [] }

-- Two local APICs, an I/O APIC and an override, of 8, 8, 12 and 10 bytes.
abbrev table : ℕ → ℕ
table = update (update (update (update (update (λ a. 0) 1 8) 9 8) 16 1) 17 12) 28 2

abbrev whole_table : ℕ → ℕ
whole_table = update table 29 10

find_entries-offsets_example :
    find_entries 5 whole_table 38 0 blank
    ≡ done
        (record { lapics = 0 ∷ 8 ∷ []; ioapics = 16 ∷ []; isos = 28 ∷ []; address_override = [] })
find_entries-offsets_example =
    find_entries-offsets ((0, 8) ∷ (0, 8) ∷ (1, 12) ∷ (2, 10) ∷ []) 5 whole_table 38
      (
        refl,
        refl,
        omega arith,
        (refl, refl, omega arith, (refl, refl, omega arith, (refl, refl, omega arith, tt))),
      )
      refl (omega arith)

-- The length of the last entry is missing.
find_entries-hang_example : find_entries 1000 table 38 0 blank ≡ hang
find_entries-hang_example =
    find_entries-hang ((0, 8) ∷ (0, 8) ∷ (1, 12) ∷ []) 1000 table 38 blank
      (refl, refl, omega arith, (refl, refl, omega arith, (refl, refl, omega arith, tt)))
      (omega arith) refl

abbrev first_ioapic : IoApic
first_ioapic = record { base_address = 0xFFFF8000FEC00000; ioapic_id = 0; gsib = 0 }

-- A device of 24 entries. The number of the selected register has 8 bits; of a low word bits 12 and 14
-- and those from 17 on are not written, of a high word only the last byte is, and other registers
-- are not written at all.
record Chip : Type 0 where
  selected : ℕ
  registers : ℕ → ℕ

abbrev low_word : ℕ
low_word = 0x1AFFF

abbrev high_word : ℕ
high_word = 0xFF000000

abbrev chip_bus : Bus Chip
chip_bus = record {
  write32 = λ a v s.
      if a == 0xFFFF8000FEC00000
      then record s { selected = v % 256 }
      else if ltb s.selected 0x10 || leb 0x40 s.selected
      then s
      else record s {
        registers =
            update s.registers s.selected
              (bit_and v (if s.selected % 2 == 0 then low_word else high_word));
      };
  read32 = λ a s. if s.selected == 1 then 0x170011 else s.registers s.selected;
}

abbrev chip_mask : Chip → ℕ → ℕ
chip_mask s j = bit 16 (s.registers (0x10 + 2 * j))

bit_and-low_word : (v : ℕ) → bit 16 (bit_and v low_word) ≡ bit 16 v
bit_and-low_word v =
    let both : bit 16 (bit_and v low_word) ≡ min (bit 16 v) 1 = bit-bit_and 16 v low_word in
    both ∙ omega arith

-- What the registers hold after a write to the low word of an entry.
chip_mask-writes :
    (v j k : ℕ) (s : Chip)
    → j ≤ 23
    → chip_mask
        (chip_bus.write32 0xFFFF8000FEC00010 v
          (chip_bus.write32 0xFFFF8000FEC00000 (0x10 + 2 * j) s))
        k
      ≡ (if k == j then bit 16 v else chip_mask s k)
chip_mask-writes v j k s le =
    let same_register : (0x10 + 2 * j) % 256 ≡ 0x10 + 2 * j = omega arith in
    let low : ltb (0x10 + 2 * j) 0x10 ≡ false = ground arith in
    let high : leb 0x40 (0x10 + 2 * j) ≡ false = ground arith in
    let even : ((0x10 + 2 * j) % 2 == 0) ≡ true = ground arith in
    let same : (0x10 + 2 * k == 0x10 + 2 * j) ≡ (k == j) = ground arith in
    rw (same_register, low, high, even, same)
      (elim (Bool-cases (k == j)) [ inl b ↦ rw (b, bit_and-low_word v) refl | inr b ↦ rw b ])

chip-IsIoApic : IsIoApic chip_bus first_ioapic 23 chip_mask
chip-IsIoApic = record {
  selects = λ r j s lt. refl;
  version = λ s. refl;
  writes = chip_mask-writes;
}

-- 24 entries.
abbrev reset : Chip
reset = record { selected = 0; registers = λ k. 0 }

abbrev timer : MadtIso
timer = record { irq = 0; gsi = 2; flags = 0 }

init_ioapic-masks_example :
    chip_mask (init_ioapic chip_bus first_ioapic (timer ∷ []) reset) 2 ≡ (if 2 == 1 then 0 else 1)
init_ioapic-masks_example =
    init_ioapic-masks chip_bus first_ioapic 23 chip_mask chip-IsIoApic refl (omega arith)
      (timer ∷ []) reset 2 (omega arith)

-- The keyboard's entry, and that of the timer.
init_ioapic_test :
    let s = init_ioapic chip_bus first_ioapic (timer ∷ []) reset in
    (s.registers 0x12 ≡ 0x21) × (s.registers 0x14 ≡ 0x10020)
unfolding init_ioapic max_gsi identity override set_redirection mask_all mask_gsi unmask_gsi
init_ioapic_test = (refl, refl)

-- The interrupts of a second I/O APIC are not masked: the loop counts from 0, not from its base.
init_ioapic_second :
    (init_ioapic chip_bus
        (record first_ioapic { gsib = 24 })
        (record { irq = 9; gsi = 30; flags = 0 } ∷ [])
        reset).registers
      0x1C
    ≡ 0x29
unfolding init_ioapic max_gsi identity override set_redirection mask_all mask_gsi unmask_gsi
init_ioapic_second = refl
