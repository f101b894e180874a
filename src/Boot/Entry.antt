-- ===== src/Boot/Entry.antt =====
-- The state in which kmain of src/main.c enters the shell.
use dug_os.Common.{
  ℕ, ◌+◌, ◌-◌, ◌^◌, ◌<◌, ◌≡◌, refl, ap, ◌∙◌, true, false, some, arith, ltb, ◌==◌, if◌then◌else◌,
}
use dug_os.Port.{Bus}
use dug_os.Pic.{pic_init}
use dug_os.Pic.Chip.{Which, master, slave, Pair}
use dug_os.Pic.Init.{fresh_chip, vectors, pic_init_lem}
use dug_os.Pic.Mask.{IsReady, line_masked, pic_unmask_lem}
use dug_os.Isr.{handler_of, bss_handlers}
use dug_os.Isr.Dispatch.{handler_of-irq_register}
use dug_os.Gdt.{bss_gdt}
use dug_os.Idt.{Idt, gate_at}
use dug_os.Idt.Gates.{Enters, idt_init_lem}
use dug_os.Keyboard.{bss_kbd}
use dug_os.Keyboard.Driver.{keyboard, kbd_init}
use dug_os.Fs.{bss}
use dug_os.Dir.{bss_dirs}
use dug_os.Shell.Run.{System}
use dug_os.Shell.Session.{at_boot}
use dug_os.Boot.{Kernel, Addresses, kmain}

-- The zeroed memory that the boot loader leaves, with the devices. `idt_init` does not read the old table.
abbrev pub cold : {P : Type 0} → Idt → P → Kernel P
cold idt ports = record {
  gdt = bss_gdt;
  idt = idt;
  machine = record { kbd = bss_kbd; handlers = bss_handlers; ports = ports };
  fs = bss;
  dirs = bss_dirs;
  interrupts = false;
}

-- What the shell works on.
abbrev pub system_of : {P : Type 0} → Kernel P → System P
system_of k = record { fs = k.fs; dirs = k.dirs; ports = k.machine.ports; halted = false }

module _ {P : Type 0} (bus : Bus P) (pics : Pair bus) where
  -- The vector at which a line arrives.
  abbrev pub vector_of : ℕ → P → ℕ
  vector_of i p =
      if ltb i 8 then (pics.chip master p).base + i else (pics.chip slave p).base + (i - 8)

  vector_of_remapped :
      (i : ℕ) (p : P)
      → i < 16
      → (pics.chip master p).base ≡ 0x20
      → (pics.chip slave p).base ≡ 0x28
      → vector_of i p ≡ 32 + i
  vector_of_remapped i p h m s = rw (m, s) (ground arith)

  module _ (at : Addresses) (idt : Idt) (ports : P) (is_ready : IsReady bus pics ports) where
    remapped :
        (w : Which)
        → pics.chip w (pic_init bus ports).0
          ≡ fresh_chip (vectors 0x20 0x28 w) (pics.chip w ports).mask
    remapped w = pic_init_lem bus pics w ports is_ready

    pic_init-IsReady : IsReady bus pics (pic_init bus ports).0
    pic_init-IsReady w = ap (λ c. c.stage) (remapped w)

    masked_as_before :
        (j : ℕ) → line_masked bus pics j (pic_init bus ports).0 ≡ line_masked bus pics j ports
    masked_as_before j = rw (remapped master, remapped slave) refl

    abbrev entered : Kernel P
    entered = (kmain bus at (cold idt ports)).0

    entered_base : (w : Which) → (pics.chip w entered.machine.ports).base ≡ vectors 0x20 0x28 w
    unfolding kmain kbd_init
    entered_base w =
        (pic_unmask_lem bus pics 1 1 (pic_init bus ports).0 pic_init-IsReady (omega arith)
            (omega arith)).1
          w
        ∙ ap (λ c. c.base) (remapped w)

    entered_masked :
        (j : ℕ)
        → j < 16
        → line_masked bus pics j entered.machine.ports
          ≡ (if 1 == j then false else line_masked bus pics j ports)
    unfolding kmain kbd_init
    entered_masked j h =
        (pic_unmask_lem bus pics 1 j (pic_init bus ports).0 pic_init-IsReady (omega arith) h).2
        ∙ ap (λ b. if 1 == j then false else b) (masked_as_before j)

    entered_handler : handler_of 1 entered.machine.handlers ≡ some keyboard
    unfolding kmain kbd_init
    entered_handler =
        (handler_of-irq_register 1 1 (some keyboard) bss_handlers refl (omega arith)).1

    entered_gate :
        (i : ℕ)
        → ((v : ℕ) → at.isr v < 2 ^ 32)
        → ((v : ℕ) → at.irq v < 2 ^ 32)
        → i < 16
        → Enters (at.irq i) (gate_at entered.idt.idt (vector_of i entered.machine.ports))
    unfolding kmain
    entered_gate i a b h =
        let vector =
          vector_of_remapped i entered.machine.ports h (entered_base master) (entered_base slave) in
        rw (vector) ((idt_init_lem at.idt_address at.isr at.irq a b).1 i h)

    -- When kmain enters the shell with interrupts enabled, after the BIOS has set the controllers up: the
    -- file system and the directories are those of a session's start; each line of both controllers arrives
    -- at the gate of its own stub; the line of the keyboard is open, with its handler registered, and the
    -- other lines are masked as the BIOS had them.
    pub kmain_lem :
        ((v : ℕ) → at.isr v < 2 ^ 32)
        → ((v : ℕ) → at.irq v < 2 ^ 32)
        → let k = (kmain bus at (cold idt ports)).0 in
          (k.interrupts ≡ true)
          × (system_of k ≡ at_boot k.machine.ports)
          × ((i : ℕ) → i < 16 → Enters (at.irq i) (gate_at k.idt.idt (vector_of i k.machine.ports)))
          × (handler_of 1 k.machine.handlers ≡ some keyboard)
          × ((j : ℕ)
              → j < 16
              → line_masked bus pics j k.machine.ports
                ≡ (if 1 == j then false else line_masked bus pics j ports))
    unfolding kmain
    kmain_lem a b = (refl, refl, λ i h. entered_gate i a b h, entered_handler, entered_masked)
