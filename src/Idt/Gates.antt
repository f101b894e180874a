-- ===== src/Idt/Gates.antt =====
-- The gates of src/idt.c as the processor takes them apart, and where the lines of the controllers lead.
use dug_os.Common.{
  ℕ, zero, suc, ◌+◌, ◌-◌, ◌*◌, ◌/◌, ◌%◌, ◌^◌, ◌<◌, ◌≤◌, ◌≡◌, refl, sym, ap, ◌∙◌, ◌&&◌, List, length,
  length-replicate, set, replicate, get_or-set, length-set, arith, ltb, leb, if◌then◌else◌,
}
use dug_os.Idt.{IdtEntry, zero_gate, gate_at, idt_set, set_gates, idt_init, idt_entries}

abbrev pub handler_of : IdtEntry → ℕ
handler_of e = e.handler_low + e.handler_high * 65536

-- A present interrupt gate of ring 0 that enters kernel code at this address.
abbrev pub Enters : ℕ → IdtEntry → Type 0
Enters address e =
    (handler_of e ≡ address) × (e.selector ≡ 0x08) × (e.always0 ≡ 0) × (e.flags ≡ 0x8e)

-- The gate that `idt_set` writes.
abbrev gate : ℕ → IdtEntry
gate handler = record {
  handler_low = handler % 65536;
  handler_high = handler / 65536 % 65536;
  selector = 0x08;
  always0 = 0;
  flags = 0x8e;
}

gate-Enters : (handler : ℕ) → handler < 2 ^ 32 → Enters handler (gate handler)
gate-Enters handler h = (omega arith, refl, refl, refl)

set_gates_lem :
    (stub : ℕ → ℕ) (n first v : ℕ) (idt : List IdtEntry)
    → first + n ≤ length idt
    → (length (set_gates stub n first idt) ≡ length idt)
      × (gate_at (set_gates stub n first idt) v
          ≡ (if leb first v && ltb v (first + n) then gate (stub v) else gate_at idt v))
unfolding set_gates idt_set
set_gates_lem stub zero first v idt h = (refl, ground arith)
set_gates_lem stub (suc n) first v idt h =
    let one = get_or-set idt first v (gate (stub first)) zero_gate (omega arith) in
    let size = length-set idt first (gate (stub first)) in
    let rest =
      set_gates_lem stub n (first + 1) v (set idt first (gate (stub first)))
        (omega (arith, size)) in
    (rest.0 ∙ size, rest.1 ∙ ground (arith, one))

gate_at-replicate : (n v : ℕ) → gate_at (replicate n zero_gate) v ≡ zero_gate
gate_at-replicate zero v = refl
gate_at-replicate (suc n) zero = refl
gate_at-replicate (suc n) (suc v) = gate_at-replicate n v

ranges :
    (v : ℕ) (a b c : IdtEntry)
    → (if leb 32 v && ltb v 48 then b else if leb 0 v && ltb v 32 then a else c)
      ≡ (if ltb v 32 then a else if ltb v 48 then b else c)
ranges v a b c = ground arith

module _ (address : ℕ) (isr irq : ℕ → ℕ) where
  idt_init-gate :
      (v : ℕ)
      → gate_at (idt_init address isr irq).idt v
        ≡ (if ltb v 32 then gate (isr v) else if ltb v 48 then gate (irq (v - 32)) else zero_gate)
  unfolding idt_init
  idt_init-gate v =
      let start = replicate idt_entries zero_gate in
      let size = length-replicate idt_entries zero_gate in
      let first = set_gates_lem isr 32 0 v start (omega (arith, size)) in
      let s1 = set_gates isr 32 0 start in
      let second = set_gates_lem (λ v. irq (v - 32)) 16 32 v s1 (omega (arith, first.0, size)) in
      rw (second.1, first.1, gate_at-replicate idt_entries v)
        (ranges v (gate (isr v)) (gate (irq (v - 32))) zero_gate)

  length-idt_init : length (idt_init address isr irq).idt ≡ idt_entries
  unfolding idt_init
  length-idt_init =
      let start = replicate idt_entries zero_gate in
      let size = length-replicate idt_entries zero_gate in
      let first = set_gates_lem isr 32 0 0 start (omega (arith, size)) in
      let s1 = set_gates isr 32 0 start in
      let second = set_gates_lem (λ v. irq (v - 32)) 16 32 0 s1 (omega (arith, first.0, size)) in
      second.0 ∙ first.0 ∙ size

  limit-idt_init : (idt_init address isr irq).idt_descriptor.limit + 1 ≡ idt_entries * 8
  unfolding idt_init
  limit-idt_init = refl

-- Behind `idt_init` the vectors below 32 enter the stubs of the exceptions, the 16 behind them those of the
-- lines, each at its own address, and the other vectors have no present gate; `lidt` gets the size of all.
pub idt_init_lem :
    (address : ℕ) (isr irq : ℕ → ℕ)
    → ((v : ℕ) → isr v < 2 ^ 32)
    → ((v : ℕ) → irq v < 2 ^ 32)
    → let s = idt_init address isr irq in
      ((v : ℕ) → v < 32 → Enters (isr v) (gate_at s.idt v))
      × ((i : ℕ) → i < 16 → Enters (irq i) (gate_at s.idt (32 + i)))
      × ((v : ℕ) → 48 ≤ v → gate_at s.idt v ≡ zero_gate)
      × (length s.idt ≡ idt_entries)
      × (s.idt_descriptor.limit + 1 ≡ length s.idt * 8)
idt_init_lem address isr irq small_isr small_irq = (
  λ v h.
      let own : gate_at (idt_init address isr irq).idt v ≡ gate (isr v) =
        ground (arith, idt_init-gate address isr irq v) in
      rw (own) (gate-Enters (isr v) (small_isr v)),
  λ i h.
      let line : 32 + i - 32 ≡ i = omega arith in
      let own : gate_at (idt_init address isr irq).idt (32 + i) ≡ gate (irq (32 + i - 32)) =
        ground (arith, idt_init-gate address isr irq (32 + i)) in
      rw (own, line) (gate-Enters (irq i) (small_irq i)),
  λ v h. ground (arith, idt_init-gate address isr irq v),
  length-idt_init address isr irq,
  limit-idt_init address isr irq ∙ ap (λ n. n * 8) (sym (length-idt_init address isr irq)),
)
