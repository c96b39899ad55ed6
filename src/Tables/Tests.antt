-- ===== src/Tables/Tests.antt =====
-- The theorems on the descriptor tables at concrete addresses.
use toystar.Prelude.{◌≡◌, arith}
use toystar.Prelude.Outcome.{done}
use toystar.Tables.{Handlers, IdtDescriptor, Idt, init_idt, init_gdt, load_tss}
use toystar.Tables.Laws.{Initialised, init_idt-Initialised, base, load_tss-base}

abbrev handlers : Handlers
handlers = record {
  isr_div_by_zero = 0xFFFFFFFF80001000;
  isr_breakpoint = 0xFFFFFFFF80001010;
  isr_double_fault = 0xFFFFFFFF80001020;
  isr_general_protection = 0xFFFFFFFF80001030;
  reschedule_handler = 0xFFFFFFFF80001040;
  syscall_entry = 0xFFFFFFFF80001050;
}

init_idt-Initialised_example :
    (r : IdtDescriptor × Idt) × (init_idt handlers 0xFFFFFFFF80010000 ≡ done r)
    × Initialised handlers r.1
init_idt-Initialised_example = init_idt-Initialised handlers 0xFFFFFFFF80010000 (record {
  div_by_zero = omega arith;
  breakpoint = omega arith;
  double_fault = omega arith;
  general_protection = omega arith;
  reschedule = omega arith;
  syscall = omega arith;
})

load_tss-base_example : base (load_tss 0xFFFF800000123456 init_gdt.0).tss ≡ 0xFFFF800000123456
load_tss-base_example = load_tss-base 0xFFFF800000123456 init_gdt.0 (omega arith)
