-- ===== src/Idt/Tests.antt =====
-- src/idt.c with stubs of 16 bytes, one behind the other.
use dug_os.Common.{ℕ, ◌+◌, ◌*◌, ◌%◌, ◌^◌, ◌<◌, ◌≤◌, ◌≡◌, length, arith}
use dug_os.Idt.{zero_gate, gate_at, idt_init, idt_entries}
use dug_os.Idt.Gates.{Enters, idt_init_lem}

-- Addresses are 32 bits wide.
abbrev isr_stub : ℕ → ℕ
isr_stub v = (0x100400 + v * 16) % 2 ^ 32

abbrev irq_stub : ℕ → ℕ
irq_stub i = (0x100600 + i * 16) % 2 ^ 32

idt_init_lem_example :
    let s = idt_init 0x108000 isr_stub irq_stub in
    ((v : ℕ) → v < 32 → Enters (isr_stub v) (gate_at s.idt v))
    × ((i : ℕ) → i < 16 → Enters (irq_stub i) (gate_at s.idt (32 + i)))
    × ((v : ℕ) → 48 ≤ v → gate_at s.idt v ≡ zero_gate)
    × (length s.idt ≡ idt_entries)
    × (s.idt_descriptor.limit + 1 ≡ length s.idt * 8)
idt_init_lem_example = idt_init_lem 0x108000 isr_stub irq_stub (λ v. omega arith) (λ v. omega arith)
