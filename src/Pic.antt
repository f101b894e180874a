-- ===== src/Pic.antt =====
-- src/pic.c: the driver of the two 8259A interrupt controllers. `Chip` states what the code relies on
-- from the controllers.
pub mod Chip
pub mod Bits
pub mod Mask
pub mod Init
pub mod Board
mod Tests
use Prim.Native.Nat.{bit_and, bit_or}
use dug_os.Common.{ℕ, ◌-◌, ◌%◌, ◌^◌, List, [], ◌∷◌, ltb, leb, if◌then◌else◌}
use dug_os.Console.{Out, set_color, light_green, writeln}
use dug_os.Port.{Bus, outb, inb, io_wait}

abbrev pub pic1_cmd : ℕ
pic1_cmd = 0x20

abbrev pub pic1_data : ℕ
pic1_data = 0x21

abbrev pub pic2_cmd : ℕ
pic2_cmd = 0xa0

abbrev pub pic2_data : ℕ
pic2_data = 0xa1

abbrev pub icw1_init : ℕ
icw1_init = 0x11

abbrev pub icw4_8086 : ℕ
icw4_8086 = 0x01

abbrev pub eoi : ℕ
eoi = 0x20

module _ {S : Type 0} (bus : Bus S) where
  -- `outb(port, val); io_wait();`, for each port and value of a list
  unfoldable pub send_all : List (ℕ × ℕ) → S → S
  send_all [] s = s
  send_all ((port, val) ∷ rest) s = send_all rest (io_wait bus (outb bus port val s))

  -- The initialization words that `pic_init` and `pic_restore` send.
  abbrev pub remap : ℕ → ℕ → S → S
  remap offset1 offset2 = send_all (
      (pic1_cmd, icw1_init)
      ∷ (pic2_cmd, icw1_init)
      ∷ (pic1_data, offset1)
      ∷ (pic2_data, offset2)
      ∷ (pic1_data, 0x04)
      ∷ (pic2_data, 0x02)
      ∷ (pic1_data, icw4_8086)
      ∷ (pic2_data, icw4_8086)
      ∷ [])

  unfoldable pub pic_init : S → S × List Out
  pic_init s =
      let (mask1, s1) = inb bus pic1_data s in
      let (mask2, s2) = inb bus pic2_data s1 in
      let restored = outb bus pic2_data mask2 (outb bus pic1_data mask1 (remap 0x20 0x28 s2)) in
      (
        restored,
        set_color light_green ∷ writeln "  >> PIC remapped (IRQ 0-7 -> 0x20, IRQ 8-15 -> 0x28)" [],
      )

  unfoldable pub pic_restore : S → S
  pic_restore s = outb bus pic2_data 0xff (outb bus pic1_data 0xff (remap 0x08 0x70 s))

  unfoldable pub pic_eoi : ℕ → S → S
  pic_eoi irq s = outb bus pic1_cmd eoi (if leb 8 irq then outb bus pic2_cmd eoi s else s)

-- The mask bit of a line, and its complement, as bytes.
abbrev pub line_bit : ℕ → ℕ
line_bit irq = 2 ^ irq % 256

abbrev pub line_hole : ℕ → ℕ
line_hole irq = (4294967295 - 2 ^ irq) % 256

module _ {S : Type 0} (bus : Bus S) where
  -- `port` and the line's number on its controller
  abbrev pub mask_port : ℕ → ℕ × ℕ
  mask_port irq = if ltb irq 8 then (pic1_data, irq) else (pic2_data, irq - 8)

  unfoldable pub pic_mask : ℕ → S → S
  pic_mask irq s =
      let (port, line) = mask_port irq in
      let (val, s') = inb bus port s in outb bus port (bit_or val (line_bit line)) s'

  unfoldable pub pic_unmask : ℕ → S → S
  pic_unmask irq s =
      let (port, line) = mask_port irq in
      let (val, s') = inb bus port s in outb bus port (bit_and val (line_hole line)) s'
