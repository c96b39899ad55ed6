-- ===== src/Tables/Laws.antt =====
-- What the entries of src/kernel/x86_64/idt.cpp and gdt.cpp stand for.
use toystar.Prelude.{
  ℕ, ◌+◌, ◌*◌, ◌/◌, ◌%◌, ◌^◌, ◌<◌, ◌≡◌, refl, ltb, Bool, true, false, ◌||◌, ◌==◌, arith, ==_refl,
}
use toystar.Prelude.Outcome.{done}
use toystar.Prelude.Word.{u64_mod, update}
use toystar.Tables.{
  IdtGate, Idt, cleared, gate, register_interrupt_handler, Handlers, init_idt, TssEntry, Gdt,
  load_tss, IdtDescriptor, sizeof_idt,
}

-- The address that the processor takes from a gate.
abbrev pub target : IdtGate → ℕ
target g = g.offset1 + g.offset2 * 2 ^ 16 + g.offset3 * 2 ^ 32

-- Where the processor takes the task state segment from.
abbrev pub base : TssEntry → ℕ
base e = e.base1 + e.base2 * 2 ^ 16 + e.base3 * 2 ^ 24 + e.base4 * 2 ^ 32

split_address :
    (addr : ℕ)
    → addr < u64_mod
    → addr % 2 ^ 16 + addr / 2 ^ 16 % 2 ^ 16 * 2 ^ 16 + addr / 2 ^ 32 % 2 ^ 32 * 2 ^ 32 ≡ addr
split_address addr h = omega arith

-- A handler that is registered: its gate leads to the address, in the kernel's code segment, with the
-- type given, and the other gates are as they were.
pub record Registered (idt : Idt) (index addr gate_type : ℕ) (idt' : Idt) : Type 0 where
  pub address : target (idt' index) ≡ addr
  pub segment : (idt' index).selector ≡ 8
  pub kind : (idt' index).type ≡ gate_type
  pub others : (other : ℕ) → (other == index) ≡ false → idt' other ≡ idt other

register-Registered :
    (index addr gate_type ist : ℕ) (idt : Idt)
    → addr < u64_mod
    → index < 256
    → gate_type < 256
    → (idt' : Idt) × (register_interrupt_handler index addr gate_type ist idt ≡ done idt')
      × Registered idt index addr gate_type idt'
unfolding register_interrupt_handler
register-Registered index addr gate_type ist idt small inside byte =
    let b : ltb index 256 ≡ true = ground arith in
    let same : update idt index (gate addr gate_type ist) index ≡ gate addr gate_type ist =
      rw (==_refl index) in
    (
      update idt index (gate addr gate_type ist),
      rw b,
      record {
        address = rw same (split_address addr small);
        segment = rw same;
        kind = rw same (omega arith);
        others = λ other ne. rw ne;
      },
    )

-- The handlers' addresses fit a pointer.
pub record AreAddresses (h : Handlers) : Type 0 where
  pub div_by_zero : h.isr_div_by_zero < u64_mod
  pub breakpoint : h.isr_breakpoint < u64_mod
  pub double_fault : h.isr_double_fault < u64_mod
  pub general_protection : h.isr_general_protection < u64_mod
  pub reschedule : h.reschedule_handler < u64_mod
  pub syscall : h.syscall_entry < u64_mod

-- The vectors that `init_idt` registers.
abbrev pub is_registered : ℕ → Bool
is_registered i = i == 0 || i == 3 || i == 8 || i == 13 || i == 32 || i == 128

pub record Initialised (h : Handlers) (idt : Idt) : Type 0 where
  pub div_by_zero : target (idt 0) ≡ h.isr_div_by_zero
  pub breakpoint : target (idt 3) ≡ h.isr_breakpoint
  pub double_fault : target (idt 8) ≡ h.isr_double_fault
  pub general_protection : target (idt 13) ≡ h.isr_general_protection
  pub reschedule : target (idt 32) ≡ h.reschedule_handler
  pub syscall : target (idt 128) ≡ h.syscall_entry
  pub only_syscall : (i : ℕ) → (idt i).type ≡ 0xEE → i ≡ 128
  pub absent : (i : ℕ) → is_registered i ≡ false → (idt i).type ≡ 0

-- The table that `init_idt` leaves.
abbrev table : Handlers → Idt
table h =
    update
      (update
        (update
          (update
            (update (update cleared 0 (gate h.isr_div_by_zero 0x8E 0)) 3
              (gate h.isr_breakpoint 0x8E 0))
            8 (gate h.isr_double_fault 0x8E 0))
          13 (gate h.isr_general_protection 0x8E 0))
        32 (gate h.reschedule_handler 0x8E 1))
      128 (gate h.syscall_entry 0xEE 0)

-- `init_idt` ends, for handlers at addresses of 64 bits. Afterwards each of its six vectors leads to its
-- handler, only the vector of system calls has the type 0xEE, and all other gates have the type 0.
pub init_idt-Initialised :
    (h : Handlers) (at : ℕ)
    → AreAddresses h
    → (r : IdtDescriptor × Idt) × (init_idt h at ≡ done r) × Initialised h r.1
unfolding init_idt
init_idt-Initialised h at fit = (
  (record { limit = sizeof_idt % 2 ^ 16; offset = at }, table h),
  refl,
  record {
    div_by_zero = split_address h.isr_div_by_zero fit.div_by_zero;
    breakpoint = split_address h.isr_breakpoint fit.breakpoint;
    double_fault = split_address h.isr_double_fault fit.double_fault;
    general_protection = split_address h.isr_general_protection fit.general_protection;
    reschedule = split_address h.reschedule_handler fit.reschedule;
    syscall = split_address h.syscall_entry fit.syscall;
    only_syscall = λ i e. ground arith;
    absent = λ i e. ground arith;
  },
)

-- The base of the task state segment that `load_tss` writes is its argument.
pub load_tss-base : (addr : ℕ) (gdt : Gdt) → addr < u64_mod → base (load_tss addr gdt).tss ≡ addr
unfolding load_tss
load_tss-base addr gdt small = omega arith
