-- ===== src/Idt.antt =====
-- src/idt.c: the table of interrupt gates. Its last call, of `idt_flush` in isr_stubs.s, only hands the
-- address of `idt_descriptor` to the processor. The addresses of the stubs in isr_stubs.s are parameters.
pub mod Gates
mod Tests
use dug_os.Common.{
  ℕ, zero, suc, ◌+◌, ◌-◌, ◌*◌, ◌/◌, ◌%◌, ◌^◌, List, [], ◌∷◌, set, replicate, get_or,
}

abbrev pub idt_entries : ℕ
idt_entries = 256

pub record IdtEntry : Type 0 where
  pub handler_low : ℕ
  pub selector : ℕ
  pub always0 : ℕ
  pub flags : ℕ
  pub handler_high : ℕ

pub record IdtPtr : Type 0 where
  pub limit : ℕ
  pub base : ℕ

-- `idt` and `idt_descriptor`.
pub record Idt : Type 0 where
  pub idt : List IdtEntry
  pub idt_descriptor : IdtPtr

abbrev pub zero_gate : IdtEntry
zero_gate = record { handler_low = 0; selector = 0; always0 = 0; flags = 0; handler_high = 0 }

-- `idt[n]`
abbrev pub gate_at : List IdtEntry → ℕ → IdtEntry
gate_at idt n = get_or idt n zero_gate

unfoldable pub idt_set : ℕ → ℕ → ℕ → ℕ → List IdtEntry → List IdtEntry
idt_set n handler sel flags idt = set idt n (record {
  handler_low = handler % 65536;
  handler_high = handler / 65536 % 65536;
  selector = sel;
  always0 = 0;
  flags = flags;
})

-- The calls of `idt_set` for `n` vectors from `first` on, with the stubs of these vectors in order.
unfoldable pub set_gates : (ℕ → ℕ) → ℕ → ℕ → List IdtEntry → List IdtEntry
unfolding idt_set
set_gates stub zero first idt = idt
set_gates stub (suc n) first idt =
    set_gates stub n (first + 1) (idt_set first (stub first) 0x08 0x8e idt)

-- `idt_init`, with the address of `idt` and those of the stubs `isr0` to `isr31` and `irq0` to `irq15`. The
-- loop over the bytes of the table leaves it zero.
unfoldable pub idt_init : ℕ → (ℕ → ℕ) → (ℕ → ℕ) → Idt
unfolding set_gates
idt_init address isr irq = record {
  idt = set_gates (λ v. irq (v - 32)) 16 32 (set_gates isr 32 0 (replicate idt_entries zero_gate));
  idt_descriptor = record { limit = idt_entries * 8 - 1; base = address % 2 ^ 32 };
}
