-- ===== src/Tables.antt =====
-- src/kernel/x86_64/idt.cpp, idt.hpp, gdt.cpp and gdt.hpp: the descriptor tables. The instructions
-- that load them are not modelled.
pub mod Laws
mod Tests
use toystar.Prelude.{ℕ, ◌+◌, ◌-◌, ◌*◌, ◌/◌, ◌%◌, ◌^◌, List, [], ◌∷◌, ltb, if◌then◌else◌}
use toystar.Prelude.Outcome.{Outcome, done, fault, ◌>>=◌}
use toystar.Prelude.Word.{update}

-- `IDTGate`
pub record IdtGate : Type 0 where
  pub offset1 : ℕ
  pub selector : ℕ
  pub ist : ℕ
  pub type : ℕ
  pub offset2 : ℕ
  pub offset3 : ℕ
  pub zero : ℕ

abbrev pub Idt : Type 0
Idt = ℕ → IdtGate

-- `memset(idt, 0, sizeof(idt))`
abbrev pub cleared : Idt
cleared index = record {
  offset1 = 0;
  selector = 0;
  ist = 0;
  type = 0;
  offset2 = 0;
  offset3 = 0;
  zero = 0;
}

-- The gate that `register_interrupt_handler` fills in, whole.
abbrev pub gate : ℕ → ℕ → ℕ → IdtGate
gate addr gate_type ist = record {
  offset1 = addr % 2 ^ 16;
  selector = 8;
  ist = ist % 2 ^ 8;
  type = gate_type % 2 ^ 8;
  offset2 = addr / 2 ^ 16 % 2 ^ 16;
  offset3 = addr / 2 ^ 32 % 2 ^ 32;
  zero = 0;
}

-- `idt` has 256 gates.
unfoldable pub register_interrupt_handler : ℕ → ℕ → ℕ → ℕ → Idt → Outcome Idt
register_interrupt_handler index addr gate_type ist idt =
    if ltb index 256 then done (update idt index (gate addr gate_type ist)) else fault

-- The addresses of the handlers that `init_idt` registers.
pub record Handlers : Type 0 where
  pub isr_div_by_zero : ℕ
  pub isr_breakpoint : ℕ
  pub isr_double_fault : ℕ
  pub isr_general_protection : ℕ
  pub reschedule_handler : ℕ
  pub syscall_entry : ℕ

-- `IDTDescriptor`
pub record IdtDescriptor : Type 0 where
  pub limit : ℕ
  pub offset : ℕ

abbrev pub sizeof_idt : ℕ
sizeof_idt = 256 * 16

-- `at` is the address of `idt`.
unfoldable pub init_idt : Handlers → ℕ → Outcome (IdtDescriptor × Idt)
unfolding register_interrupt_handler
init_idt h at = do
  idt0 ← register_interrupt_handler 0 h.isr_div_by_zero 0x8E 0 cleared
  idt3 ← register_interrupt_handler 3 h.isr_breakpoint 0x8E 0 idt0
  idt8 ← register_interrupt_handler 8 h.isr_double_fault 0x8E 0 idt3
  idt13 ← register_interrupt_handler 13 h.isr_general_protection 0x8E 0 idt8
  idt32 ← register_interrupt_handler 32 h.reschedule_handler 0x8E 1 idt13
  idt128 ← register_interrupt_handler 128 h.syscall_entry 0xEE 0 idt32
  done (record { limit = sizeof_idt % 2 ^ 16; offset = at }, idt128)

-- `GDTEntry`
pub record GdtEntry : Type 0 where
  pub limit1 : ℕ
  pub base1 : ℕ
  pub base2 : ℕ
  pub access : ℕ
  pub flags : ℕ
  pub base3 : ℕ

-- `TSSEntry`
pub record TssEntry : Type 0 where
  pub limit : ℕ
  pub base1 : ℕ
  pub base2 : ℕ
  pub flags1 : ℕ
  pub flags2 : ℕ
  pub base3 : ℕ
  pub base4 : ℕ
  pub reserved : ℕ

-- `GDT`
pub record Gdt : Type 0 where
  pub null : GdtEntry
  pub kernel_code : GdtEntry
  pub kernel_data : GdtEntry
  pub user_code : GdtEntry
  pub user_data : GdtEntry
  pub tss : TssEntry

abbrev entry : ℕ → ℕ → GdtEntry
entry access flags = record {
  limit1 = 0;
  base1 = 0;
  base2 = 0;
  access = access;
  flags = flags;
  base3 = 0;
}

abbrev pub sizeof_gdt : ℕ
sizeof_gdt = 5 * 8 + 16

-- The table, and the limit of its descriptor.
unfoldable pub init_gdt : Gdt × ℕ
init_gdt = (
  record {
    null = entry 0 0;
    kernel_code = entry 0x9A 0x20;
    kernel_data = entry 0x92 0;
    user_code = entry 0xFA 0x20;
    user_data = entry 0xF2 0;
    tss = record {
      limit = 104;
      base1 = 0;
      base2 = 0;
      flags1 = 0x89;
      flags2 = 0;
      base3 = 0;
      base4 = 0;
      reserved = 0;
    };
  },
  sizeof_gdt - 1,
)

unfoldable pub load_tss : ℕ → Gdt → Gdt
load_tss tss_addr gdt = record gdt {
  tss = record (gdt.tss) {
    base1 = tss_addr % 2 ^ 16;
    base2 = tss_addr / 2 ^ 16 % 2 ^ 8;
    base3 = tss_addr / 2 ^ 24 % 2 ^ 8;
    base4 = tss_addr / 2 ^ 32 % 2 ^ 32;
  };
}
