-- ===== src/Apic/Mask.antt =====
-- Which entries of an I/O APIC are masked after `Apic::init` of src/kernel/x86_64/apic.cpp.
use toystar.Prelude.{
  ℕ, zero, suc, ◌+◌, ◌-◌, ◌*◌, ◌/◌, ◌%◌, ◌^◌, ◌≤◌, ◌<◌, ◌≡◌, refl, ◌∙◌, bit_and, bit_or, true,
  false, List, ◌==◌, if◌then◌else◌, arith, Bool-cases, inl, inr, ==_iff, min,
}
use toystar.Apic.{
  read, write, Bus, IoApic, MadtIso, u32_mod, mask_bit, register_of, mask_gsi, unmask_gsi, mask_all,
  max_gsi, init_ioapic, identity, override,
}
use toystar.Apic.Bits.{bit, bit-bit_or, bit-bit_and}

-- What the I/O APIC documents of its mask bits; `mask s j` is that of entry `j`, and `last` the index
-- of the last entry. A write to the base selects a register. Of register 1 the byte from bit 16 on is
-- `last`. Entry `j` has its low word in register 0x10 + 2 * j, and bit 16 of what is written there is
-- its mask bit, which no other entry shares. Nothing is asked of the other bits and registers.
pub record IsIoApic {S : Type 0} (bus : Bus S) (io : IoApic) (last : ℕ) (mask : S → ℕ → ℕ)
    : Type 0 where
  pub selects : (r j : ℕ) (s : S) → r < 0x100 → mask (bus.write32 io.base_address r s) j ≡ mask s j
  pub version :
      (s : S)
      → bus.read32 (io.base_address + 0x10) (bus.write32 io.base_address 1 s) / 2 ^ 16 % 256 ≡ last
  pub writes :
      (v j k : ℕ) (s : S)
      → j ≤ last
      → mask
          (bus.write32 (io.base_address + 0x10) v (bus.write32 io.base_address (0x10 + 2 * j) s))
          k
        ≡ (if k == j then bit 16 v else mask s k)

module _ {S : Type 0} (bus : Bus S) (io : IoApic) (last : ℕ) (mask : S → ℕ → ℕ)
    (device : IsIoApic bus io last mask) (first : io.gsib ≡ 0) (few : last < 120) where
  register_of-first : (gsi : ℕ) → gsi ≤ last → register_of bus io gsi ≡ 0x10 + 2 * gsi
  register_of-first gsi le = rw first (omega arith)

  mask-mask_gsi :
      (gsi k : ℕ) (s : S)
      → gsi ≤ last
      → mask (mask_gsi bus io gsi s) k ≡ (if k == gsi then 1 else mask s k)
  unfolding mask_gsi read write
  mask-mask_gsi gsi k s le =
      let s' = bus.write32 io.base_address (0x10 + 2 * gsi) s in
      let value = bus.read32 (io.base_address + 0x10) s' in
      rw
        (
          register_of-first gsi le,
          device.writes (bit_or value mask_bit) gsi k s' le,
          bit-bit_or 16 value mask_bit refl,
          device.selects (0x10 + 2 * gsi) k s (omega arith),
        )
        refl

  mask-unmask_gsi :
      (gsi k : ℕ) (s : S)
      → gsi ≤ last
      → mask (unmask_gsi bus io gsi s) k ≡ (if k == gsi then 0 else mask s k)
  unfolding unmask_gsi read write
  mask-unmask_gsi gsi k s le =
      let s' = bus.write32 io.base_address (0x10 + 2 * gsi) s in
      let value = bus.read32 (io.base_address + 0x10) s' in
      let both : bit 16 (bit_and value (u32_mod - 1 - mask_bit)) ≡ min (bit 16 value) 0 =
        bit-bit_and 16 value (u32_mod - 1 - mask_bit) in
      let cleared : bit 16 (bit_and value (u32_mod - 1 - mask_bit)) ≡ 0 = omega (arith, both) in
      rw
        (
          register_of-first gsi le,
          device.writes (bit_and value (u32_mod - 1 - mask_bit)) gsi k s' le,
          cleared,
          device.selects (0x10 + 2 * gsi) k s (omega arith),
        )
        refl

  -- The loop that masks leaves the entries before it alone.
  before-mask_all :
      (n i j : ℕ) (s : S) → i + n ≤ last + 1 → j < i → mask (mask_all bus io n i s) j ≡ mask s j
  unfolding mask_all
  before-mask_all zero i j s top lt = refl
  before-mask_all (suc n) i j s top lt =
      let other : (j == i) ≡ false = ground arith in
      before-mask_all n (i + 1) j (mask_gsi bus io i s) (omega arith) (omega arith)
      ∙ mask-mask_gsi i j s (omega arith)
      ∙ rw other

  -- It masks the others.
  mask-mask_all :
      (n i j : ℕ) (s : S)
      → i + n ≤ last + 1
      → i ≤ j
      → j < i + n
      → mask (mask_all bus io n i s) j ≡ 1
  unfolding mask_all
  mask-mask_all zero i j s top lo hi = absurd (omega arith)
  mask-mask_all (suc n) i j s top lo hi = elim (Bool-cases (j == i)) [
    | inl b ↦
        let e = (==_iff j i).0 b in
        before-mask_all n (i + 1) j (mask_gsi bus io i s) (omega arith) (omega arith)
        ∙ mask-mask_gsi i j s (omega arith)
        ∙ rw b
    | inr b ↦
        mask-mask_all n (i + 1) j (mask_gsi bus io i s) (omega arith) (ground arith) (omega arith)
  ]

  max_gsi-last : (s : S) → (max_gsi bus io s).0 ≡ last
  unfolding max_gsi read
  max_gsi-last s = device.version s

  -- After `init` each entry of the first I/O APIC before its last one is masked, but the keyboard's,
  -- entry 1, is not, whatever the overrides are and whatever the device held. The mask bits of the
  -- I/O APIC do what it documents, and it has at most 120 entries.
  pub init_ioapic-masks :
      (isos : List MadtIso) (s : S) (j : ℕ)
      → j < last
      → mask (init_ioapic bus io isos s) j ≡ (if j == 1 then 0 else 1)
  unfolding init_ioapic
  init_ioapic-masks isos s j lt =
      let max = (max_gsi bus io s).0 in
      let e : max ≡ last = max_gsi-last s in
      let s₂ = override bus io max isos (identity bus io 16 0 (max_gsi bus io s).1) in
      let masked : mask (mask_all bus io max 0 s₂) j ≡ 1 =
        mask-mask_all max 0 j s₂ (omega arith) (omega arith) (omega arith) in
      let zero_base : (io.gsib == 0) ≡ true = rw first refl in
      rw zero_base (mask-unmask_gsi 1 j (mask_all bus io max 0 s₂) (omega arith) ∙ rw masked)
