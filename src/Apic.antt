-- ===== src/Apic.antt =====
-- src/kernel/x86_64/apic.cpp: the walk over the MADT table, and the I/O APICs. The ports of the old
-- controller and the local APIC are not modelled.
pub mod Walk
pub mod Bits
pub mod Mask
mod Tests
use toystar.Prelude.{
  ℕ, zero, suc, ◌+◌, ◌-◌, ◌*◌, ◌/◌, ◌%◌, ◌^◌, bit_and, bit_or, Bool, true, false, ◌||◌, not, List,
  [], ◌∷◌, ◌++◌, ◌==◌, ltb, leb, if◌then◌else◌,
}
use toystar.Prelude.Outcome.{Outcome, done, hang}

-- The vectors of `Apic::init`, of the offsets of the entries that they point to.
pub record Madt : Type 0 where
  pub lapics : List ℕ
  pub ioapics : List ℕ
  pub isos : List ℕ
  pub address_override : List ℕ

-- The switch on the type of the entry at `i`.
unfoldable pub collect : ℕ → ℕ → Madt → Madt
collect ty i found =
    if ty == 0
    then record found { lapics = found.lapics ++ (i ∷ []) }
    else if ty == 1
    then record found { ioapics = found.ioapics ++ (i ∷ []) }
    else if ty == 2
    then record found { isos = found.isos ++ (i ∷ []) }
    else if ty == 5
    then record found { address_override = found.address_override ++ (i ∷ []) }
    else found

-- The first loop of `init`, over `entries` bytes.
unfoldable pub find_entries : ℕ → (ℕ → ℕ) → ℕ → ℕ → Madt → Outcome Madt
unfolding collect
find_entries zero bytes entries i found = hang
find_entries (suc n) bytes entries i found =
    let rest = find_entries n bytes entries (i + bytes (i + 1)) (collect (bytes i) i found) in
    if ltb i entries then rest else done found

-- `ioapic`
pub record IoApic : Type 0 where
  pub base_address : ℕ
  pub ioapic_id : ℕ
  pub gsib : ℕ

-- `madt_iso`
pub record MadtIso : Type 0 where
  pub irq : ℕ
  pub gsi : ℕ
  pub flags : ℕ

-- The device behind the addresses: 32 bits are written or read.
pub record Bus (S : Type 0) : Type 0 where
  pub write32 : ℕ → ℕ → S → S
  pub read32 : ℕ → S → ℕ

abbrev pub u32_mod : ℕ
u32_mod = 2 ^ 32

abbrev pub mask_bit : ℕ
mask_bit = 2 ^ 16

module _ {S : Type 0} (bus : Bus S) (io : IoApic) where
  unfoldable pub write : ℕ → ℕ → S → S
  write reg value s = bus.write32 (io.base_address + 0x10) value (bus.write32 io.base_address reg s)

  unfoldable pub read : ℕ → S → ℕ × S
  read reg s =
      let s' = bus.write32 io.base_address reg s in (bus.read32 (io.base_address + 0x10) s', s')

  -- `((gsi - gsib) * 2) + 0x10`
  abbrev pub register_of : ℕ → ℕ
  register_of gsi = ((gsi + u32_mod - io.gsib) * 2 + 0x10) % u32_mod

  unfoldable pub set_redirection : ℕ → ℕ → ℕ → S → S
  unfolding write
  set_redirection vector gsi flags s =
      let vector' = vector % 256 in
      let low = bit_or vector' (if flags / 2 % 2 == 0 then vector' else 2 ^ 13) in
      let redirection = bit_or low (if flags / 8 % 2 == 0 then low else 2 ^ 15) in
      write ((register_of gsi + 1) % u32_mod) (redirection / u32_mod)
        (write (register_of gsi) (redirection % u32_mod) s)

  unfoldable pub max_gsi : S → ℕ × S
  unfolding read
  max_gsi s = let (value, s') = read 1 s in (value / 2 ^ 16 % 256, s')

  unfoldable pub mask_gsi : ℕ → S → S
  unfolding read write
  mask_gsi gsi s =
      let (value, s') = read (register_of gsi) s in
      write (register_of gsi) (bit_or value mask_bit) s'

  unfoldable pub unmask_gsi : ℕ → S → S
  unfolding read write
  unmask_gsi gsi s =
      let (value, s') = read (register_of gsi) s in
      write (register_of gsi) (bit_and value (u32_mod - 1 - mask_bit)) s'

  -- `for (i = 0; i < 16; i++)`, with the rounds that are left.
  unfoldable pub identity : ℕ → ℕ → S → S
  unfolding set_redirection
  identity zero i s = s
  identity (suc n) i s = identity n (i + 1) (set_redirection (i + 0x20) i 0 s)

  unfoldable pub override : ℕ → List MadtIso → S → S
  unfolding set_redirection
  override max [] s = s
  override max (iso ∷ isos) s = override max isos (
      if ltb iso.gsi io.gsib || leb (io.gsib + max) iso.gsi
      then s
      else set_redirection (iso.irq + 0x20) iso.gsi iso.flags s)

  -- `for (i = 0; i < max; i++)`, with the rounds that are left.
  unfoldable pub mask_all : ℕ → ℕ → S → S
  unfolding mask_gsi
  mask_all zero i s = s
  mask_all (suc n) i s = mask_all n (i + 1) (mask_gsi i s)

  -- A round of the second loop of `init`.
  unfoldable pub init_ioapic : List MadtIso → S → S
  init_ioapic isos s =
      let (max, s₁) = max_gsi s in
      let s₂ = if io.gsib == 0 then identity 16 0 s₁ else s₁ in
      let s₃ = mask_all max 0 (override max isos s₂) in if io.gsib == 0 then unmask_gsi 1 s₃ else s₃
