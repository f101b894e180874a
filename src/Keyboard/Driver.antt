-- ===== src/Keyboard/Driver.antt =====
-- `kbd_init` of src/keyboard.c, and its handler at the interrupts of the keyboard: from the port to
-- the ring buffer, through the dispatch of src/isr.c and the controllers of src/pic.c.
use dug_os.Common.{
  ℕ, zero, suc, ◌%◌, ◌<◌, ◌≡◌, ◌≢◌, refl, ap, ◌∙◌, false, List, [], ◌∷◌, some, length, arith,
}
use dug_os.Port.{Bus, outb, inb}
use dug_os.Pic.{pic_unmask, pic_eoi}
use dug_os.Pic.Chip.{Pair}
use dug_os.Pic.Mask.{IsReady, line_masked, pic_unmask_lem}
use dug_os.Isr.{Handlers, irq_register, handler_of, irq_dispatch}
use dug_os.Isr.Dispatch.{handler_of-irq_register}
use dug_os.Keyboard.{Kbd, kbd_isr}

abbrev pub kbd_data_port : ℕ
kbd_data_port = 0x60

-- The handlers that the kernel registers.
pub data Handler : Type 0 where
  keyboard : Handler

-- The state of keyboard.c and isr.c, with the devices `P`.
pub record Machine (P : Type 0) : Type 0 where
  pub kbd : Kbd
  pub handlers : Handlers Handler
  pub ports : P

module _ {P : Type 0} (bus : Bus P) where
  abbrev pub machine_bus : Bus (Machine P)
  machine_bus = record {
    out_byte = λ port v m. record m { ports = bus.out_byte port v m.ports };
    in_byte = λ port m. let (v, p) = bus.in_byte port m.ports in (v, record m { ports = p });
  }

  -- `kbd_isr` with its reading of the port.
  unfoldable pub call_handler : Handler → Machine P → Machine P
  call_handler keyboard m =
      let (sc, p) = inb bus kbd_data_port m.ports in record m { kbd = kbd_isr sc m.kbd; ports = p }

  unfoldable pub kbd_init : Machine P → Machine P
  kbd_init m = record m {
    handlers = irq_register 1 (some keyboard) m.handlers;
    ports = pic_unmask bus 1 m.ports;
  }

  -- The interrupt of a line.
  abbrev pub interrupt : ℕ → Machine P → Machine P
  interrupt irq m = irq_dispatch machine_bus call_handler irq m.handlers m

  -- A number of keyboard interrupts.
  abbrev pub key_interrupts : ℕ → Machine P → Machine P
  key_interrupts zero m = m
  key_interrupts (suc n) m = key_interrupts n (interrupt 1 m)

-- The scan codes, one after the other.
abbrev pub kbd_isr_all : List ℕ → Kbd → Kbd
kbd_isr_all [] k = k
kbd_isr_all (sc ∷ codes) k = kbd_isr_all codes (kbd_isr sc k)

-- A keyboard controller at its port: it holds the scan codes that are not read yet.
pub record Ps2 {P : Type 0} (bus : Bus P) : Type 0 where
  pub pending : P → List ℕ
  pub gives :
      (sc : ℕ) (codes : List ℕ) (p : P)
      → pending p ≡ sc ∷ codes
      → ((bus.in_byte kbd_data_port p).0 ≡ sc) × (pending (bus.in_byte kbd_data_port p).1 ≡ codes)
  pub keeps_out :
      (port v : ℕ) (p : P) → port ≢ 0x60 → port ≢ 0x64 → pending (bus.out_byte port v p) ≡ pending p
  pub keeps_in : (port : ℕ) (p : P) → port ≢ 0x60 → pending (bus.in_byte port p).1 ≡ pending p

abbrev pub AreBytes : List ℕ → Type 0
AreBytes [] = Unit
AreBytes (b ∷ bs) = (b < 256) × AreBytes bs

module _ {P : Type 0} (bus : Bus P) (ps2 : Ps2 bus) where
  -- One interrupt takes one scan code.
  one_interrupt :
      (sc : ℕ) (codes : List ℕ) (m : Machine P)
      → handler_of 1 m.handlers ≡ some keyboard
      → ps2.pending m.ports ≡ sc ∷ codes
      → sc < 256
      → ((interrupt bus 1 m).kbd ≡ kbd_isr sc m.kbd)
        × ((interrupt bus 1 m).handlers ≡ m.handlers)
        × (ps2.pending (interrupt bus 1 m).ports ≡ codes)
  unfolding irq_dispatch call_handler pic_eoi outb inb
  one_interrupt sc codes m h e small =
      let read = ps2.gives sc codes m.ports e in
      let byte : sc % 256 ≡ sc = omega arith in
      let told = ps2.keeps_out 0x20 0x20 (bus.in_byte 0x60 m.ports).1 (omega arith) (omega arith) in
      rw (h, read.0, byte, told) (refl, refl, read.1)

  deliver :
      (codes : List ℕ) (m : Machine P)
      → handler_of 1 m.handlers ≡ some keyboard
      → ps2.pending m.ports ≡ codes
      → AreBytes codes
      → (key_interrupts bus (length codes) m).kbd ≡ kbd_isr_all codes m.kbd
  deliver [] m h e b = refl
  deliver (sc ∷ codes) m h e b =
      let one = one_interrupt sc codes m h e b.0 in
      deliver codes (interrupt bus 1 m) (ap (handler_of 1) one.1 ∙ h) one.2 b.1
      ∙ ap (kbd_isr_all codes) one.0

  pending-kbd_init : (m : Machine P) → ps2.pending (kbd_init bus m).ports ≡ ps2.pending m.ports
  unfolding kbd_init pic_unmask outb inb
  pending-kbd_init m =
      ps2.keeps_out 0x21 _ _ (omega arith) (omega arith) ∙ ps2.keeps_in 0x21 m.ports (omega arith)

  -- After `kbd_init` the line of the keyboard is open, and as many of its interrupts as there are scan
  -- codes at the port bring all of them to the keyboard's state, in order.
  pub kbd_init_lem :
      (pics : Pair bus) (codes : List ℕ) (m : Machine P)
      → IsReady bus pics m.ports
      → length m.handlers ≡ 16
      → ps2.pending m.ports ≡ codes
      → AreBytes codes
      → (line_masked bus pics 1 (kbd_init bus m).ports ≡ false)
        × ((key_interrupts bus (length codes) (kbd_init bus m)).kbd ≡ kbd_isr_all codes m.kbd)
  unfolding kbd_init
  kbd_init_lem pics codes m h n e b =
      let registered = handler_of-irq_register 1 1 (some keyboard) m.handlers n (omega arith) in
      (
        (pic_unmask_lem bus pics 1 1 m.ports h (omega arith) (omega arith)).2,
        deliver codes (kbd_init bus m) registered.1 (pending-kbd_init m ∙ e) b,
      )
