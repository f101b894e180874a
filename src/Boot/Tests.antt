-- ===== src/Boot/Tests.antt =====
-- src/main.c on controllers that the BIOS has set up, with its lines open.
use dug_os.Common.{
  ℕ, ◌+◌, ◌*◌, ◌%◌, ◌^◌, ◌<◌, ◌≡◌, true, false, some, [], ◌∷◌, ◌++◌, replicate, ◌==◌, if◌then◌else◌,
  arith,
}
use dug_os.Console.{putchar}
use dug_os.Vga.{Vga, vga_width, vga_height}
use dug_os.Vga.Output.{show}
use dug_os.Pic.Mask.{line_masked}
use dug_os.Pic.Board.{board, board_pics, bios_board, bios_board-IsReady}
use dug_os.Isr.{handler_of}
use dug_os.Idt.{Idt, gate_at}
use dug_os.Idt.Gates.{Enters}
use dug_os.Keyboard.Driver.{keyboard}
use dug_os.Shell.Session.{at_boot}
use dug_os.Boot.{Addresses, kmain}
use dug_os.Boot.Screen.{kmain-show}
use dug_os.Vga.Frame.{IsFramed}
use dug_os.Boot.Entry.{cold, system_of, vector_of, kmain_lem}

-- Addresses are 32 bits wide.
abbrev addresses : Addresses
addresses = record {
  gdt_address = 0x107000;
  idt_address = 0x108000;
  isr = λ v. (0x100400 + v * 16) % 2 ^ 32;
  irq = λ i. (0x100600 + i * 16) % 2 ^ 32;
}

abbrev no_idt : Idt
no_idt = record { idt = []; idt_descriptor = record { limit = 0; base = 0 } }

kmain_lem_example :
    let k = (kmain board addresses (cold no_idt (bios_board 0xb8 0x8f))).0 in
    (k.interrupts ≡ true)
    × (system_of k ≡ at_boot k.machine.ports)
    × ((i : ℕ)
        → i < 16
        → Enters
            (addresses.irq i)
            (gate_at k.idt.idt (vector_of board board_pics i k.machine.ports)))
    × (handler_of 1 k.machine.handlers ≡ some keyboard)
    × ((j : ℕ)
        → j < 16
        → line_masked board board_pics j k.machine.ports
          ≡ (if 1 == j then false else line_masked board board_pics j (bios_board 0xb8 0x8f)))
kmain_lem_example =
    kmain_lem board board_pics addresses no_idt (bios_board 0xb8 0x8f)
      (bios_board-IsReady 0xb8 0x8f) (λ v. omega arith) (λ v. omega arith)

-- a screen with its cursor outside
-- with 100 cells of other memory behind the screen
abbrev wild_screen : Vga
wild_screen = record {
  cells = replicate (vga_height * vga_width + 100) 7;
  row = 99;
  col = 99;
  color = 0;
}

kmain-show_example : IsFramed wild_screen.cells (
    show
      ((kmain board addresses (cold no_idt (bios_board 0xb8 0x8f))).1 ++ putchar 10 ∷ [])
      wild_screen)
kmain-show_example =
    kmain-show board addresses (cold no_idt (bios_board 0xb8 0x8f)) (putchar 10 ∷ []) wild_screen
