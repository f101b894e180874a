-- ===== src/Isr/Dispatch.antt =====
-- `irq_register` and `irq_dispatch` of src/isr.c: each handler runs for its own line, and the
-- controllers are told the end of every interrupt.
use dug_os.Common.{
  ℕ, ◌%◌, ◌<◌, ◌≡◌, refl, ap, ◌∙◌, Option, none, some, length, get_or-set, length-set, ltb, leb,
  ◌==◌, if◌then◌else◌, arith, if_cases, Bool-cases, inl, inr, drop, true, false,
}
use dug_os.Port.{Bus, outb}
use dug_os.Pic.{pic_eoi, pic1_cmd, pic2_cmd, eoi}
use dug_os.Pic.Chip.{Chip, Which, master, slave, Pair, chip-outb}
use dug_os.Isr.{Handlers, irq_register, handler_of, irq_dispatch}

-- The end of one interrupt of a controller.
abbrev pub ended : Chip → Chip
ended c = record c { in_service = drop 1 c.in_service }

-- The controllers that see the end of line `irq`: the slave's lines come through the master.
abbrev pub after_eoi : ℕ → Which → Chip → Chip
after_eoi irq master c = ended c
after_eoi irq slave c = if leb 8 irq then ended c else c

-- the slave's part of it
abbrev told : ℕ → Which → Chip → Chip
told irq master c = c
told irq slave c = if leb 8 irq then ended c else c

-- What the handler of the line does, if there is one.
abbrev pub handled : {H S : Type 0} → (H → S → S) → ℕ → Handlers H → S → S
handled call irq table s = elim (handler_of irq table) [ none ↦ s | some h ↦ call h s ]

module _ {H S : Type 0} (bus : Bus S) (pics : Pair bus) (call : H → S → S) where
  abbrev slave_told : ℕ → S → S
  slave_told irq s = if leb 8 irq then outb bus pic2_cmd eoi s else s

  chip-slave_told :
      (irq : ℕ) (w : Which) (s : S) → pics.chip w (slave_told irq s) ≡ told irq w (pics.chip w s)
  chip-slave_told irq master s =
      if_cases (λ s'. pics.chip master s' ≡ pics.chip master s) (leb 8 irq) _ _
        (λ high. chip-outb bus pics master pic2_cmd eoi s refl) (λ low. refl)
  chip-slave_told irq slave s =
      let at : S → Type 0 = λ s'. pics.chip slave s' ≡ told irq slave (pics.chip slave s) in
      if_cases at (leb 8 irq) _ _ (λ high. rw (high) (chip-outb bus pics slave pic2_cmd eoi s refl))
        (λ low. rw (low) refl)

  pub pic_eoi_lem :
      (irq : ℕ) (w : Which) (s : S)
      → pics.chip w (pic_eoi bus irq s) ≡ after_eoi irq w (pics.chip w s)
  unfolding pic_eoi
  pic_eoi_lem irq master s =
      chip-outb bus pics master pic1_cmd eoi (slave_told irq s) refl
      ∙ ap ended (chip-slave_told irq master s)
  pic_eoi_lem irq slave s =
      chip-outb bus pics slave pic1_cmd eoi (slave_told irq s) refl ∙ chip-slave_told irq slave s

  -- `irq_dispatch` tells the end of the interrupt to the master always, and to the slave for one of its
  -- lines, after the handler, whether there is one or not.
  pub irq_dispatch_lem :
      (irq : ℕ) (table : Handlers H) (s : S) (w : Which)
      → irq < 256
      → pics.chip w (irq_dispatch bus call irq table s)
        ≡ after_eoi irq w (pics.chip w (handled call irq table s))
  unfolding irq_dispatch
  irq_dispatch_lem irq table s w h =
      let byte : irq % 256 ≡ irq = omega arith in
      rw (pic_eoi_lem (irq % 256) w (handled call irq table s), byte) refl

-- `irq_register` puts a handler on its line alone.
pub handler_of-irq_register :
    {H : Type 0} (irq j : ℕ) (handler : Option H) (table : Handlers H)
    → length table ≡ 16
    → irq < 16
    → (length (irq_register irq handler table) ≡ 16)
      × (handler_of j (irq_register irq handler table)
          ≡ (if irq == j then handler else handler_of j table))
unfolding irq_register handler_of
handler_of-irq_register irq j handler table n h =
    let put = get_or-set table irq j handler none (omega (arith, n)) in
    let size = length-set table irq handler in
    let inside : ltb irq 16 ≡ true = ground arith in
    elim (Bool-cases (ltb j 16)) [
      | inl low ↦ rw (inside, size, low, put) (n, refl)
      | inr high ↦
          let other : (irq == j) ≡ false = ground arith in rw (inside, size, high, other) (n, refl)
    ]
