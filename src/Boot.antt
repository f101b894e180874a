-- ===== src/Boot.antt =====
-- src/main.c: the stages of the start, in the order of kmain, up to its call of `shell_run`.
pub mod Entry
pub mod Screen
mod Tests
use dug_os.Common.{ℕ, ◌+◌, Bool, true, false, String, List, [], ◌∷◌, ◌++◌}
use dug_os.Common.Int.{ℤ, pos, negsuc}
use dug_os.Console.{
  Out, set_color, putchar, write, write_dec, clear, writeln, light_green, light_grey, white, yellow,
  newline,
}
use dug_os.Port.{Bus}
use dug_os.Pic.{pic_init}
use dug_os.Gdt.{Gdt, gdt_init}
use dug_os.Idt.{Idt, idt_init}
use dug_os.Keyboard.Driver.{Machine, kbd_init}
use dug_os.Fs.{Fs, fs_init}
use dug_os.Dir.{Dirs, dir_init}

abbrev pub nr_tasks : ℕ
nr_tasks = 4

abbrev pub nr_procs : ℕ
nr_procs = 64

abbrev pub nr_sys_procs : ℕ
nr_sys_procs = 32

abbrev pub nr_boot_procs : ℕ
nr_boot_procs = 8

pub record BootImage : Type 0 where
  pub proc_nr : ℤ
  pub priority : ℕ
  pub quantum : ℕ
  pub proc_name : String

abbrev pub image : List BootImage
image =
    record { proc_nr = negsuc 3; priority = 0; quantum = 0; proc_name = "HARDWARE" }
    ∷ record { proc_nr = negsuc 2; priority = 1; quantum = 10; proc_name = "IDLE" }
    ∷ record { proc_nr = negsuc 1; priority = 2; quantum = 10; proc_name = "CLOCK" }
    ∷ record { proc_nr = negsuc 0; priority = 2; quantum = 10; proc_name = "SYSTEM" }
    ∷ record { proc_nr = pos 0; priority = 3; quantum = 10; proc_name = "PM" }
    ∷ record { proc_nr = pos 1; priority = 3; quantum = 10; proc_name = "FS" }
    ∷ record { proc_nr = pos 2; priority = 3; quantum = 10; proc_name = "TTY" }
    ∷ record { proc_nr = pos 3; priority = 4; quantum = 10; proc_name = "INIT" }
    ∷ []

unfoldable pub boot_proc_table : List Out
boot_proc_table =
    set_color light_green
    ∷ write "  [kernel] proc_table: "
    ∷ write_dec (nr_tasks + nr_procs)
    ∷ writeln " slots cleared ... OK" []

unfoldable pub boot_priv_table : List Out
boot_priv_table =
    set_color light_green
    ∷ write "  [kernel] priv_table: "
    ∷ write_dec nr_sys_procs
    ∷ writeln " slots cleared ... OK" []

-- The loop of `boot_image_init`.
unfoldable pub loaded : List BootImage → List Out
loaded [] = []
loaded (p ∷ procs) =
    write "  [kernel]   -> loaded  " ∷ write p.proc_name ∷ writeln "" (loaded procs)

unfoldable pub boot_image_init : List Out
unfolding loaded
boot_image_init =
    set_color light_green ∷ loaded image
    ++ write "  [kernel] boot_image: "
      ∷ write_dec nr_boot_procs
      ∷ writeln " processes loaded  ... OK" []

unfoldable pub announce : List Out
announce =
    set_color light_green
    ∷ writeln "  [kernel] DugOS v1.0 -- Built on MINIX 3.1.0 concepts"
        (writeln "  [kernel] Executing in 32-bit protected mode." [])

unfoldable pub welcome : List Out
welcome =
    set_color yellow
    ∷ write ""
    ∷ putchar newline
    ∷ write "  +=================================================================+"
    ∷ putchar newline
    ∷ write "  |                                                                 |"
    ∷ putchar newline
    ∷ write "  |    ____  _   _   ____   ___   ____                             |"
    ∷ putchar newline
    ∷ write "  |   |  _ \\| | | | / ___| / _ \\ / ___|                            |"
    ∷ putchar newline
    ∷ write "  |   | | | | | | || |  _ | | | |\\___ \\                            |"
    ∷ putchar newline
    ∷ write "  |   | |_| | |_| || |_| || |_| | ___) |                           |"
    ∷ putchar newline
    ∷ write "  |   |____/ \\___/  \\____| \\___/ |____/                             |"
    ∷ putchar newline
    ∷ write "  |                                                                 |"
    ∷ putchar newline
    ∷ write "  |          O P E R A T I N G     S Y S T E M                    |"
    ∷ putchar newline
    ∷ write "  |                      v e r s i o n  1.0                        |"
    ∷ putchar newline
    ∷ write "  |                                                                 |"
    ∷ putchar newline
    ∷ write "  |   - - - - - - - - - - - - - - - - - - - - - - - - - - - - -   |"
    ∷ putchar newline
    ∷ write "  |      Built on MINIX 3.1.0 kernel  (Appendix B, line 07100)    |"
    ∷ putchar newline
    ∷ write "  |   - - - - - - - - - - - - - - - - - - - - - - - - - - - - -   |"
    ∷ putchar newline
    ∷ write "  |                                                                 |"
    ∷ putchar newline
    ∷ write "  |              [ Type  'help'  to begin ]                        |"
    ∷ putchar newline
    ∷ write "  |                                                                 |"
    ∷ putchar newline
    ∷ write "  +=================================================================+"
    ∷ putchar newline
    ∷ []

-- The state of the kernel's files, with the devices `P`, and the processor's interrupt flag.
pub record Kernel (P : Type 0) : Type 0 where
  pub gdt : Gdt
  pub idt : Idt
  pub machine : Machine P
  pub fs : Fs
  pub dirs : Dirs
  pub interrupts : Bool

-- What the linker places: the tables, and the stubs of isr_stubs.s.
pub record Addresses : Type 0 where
  pub gdt_address : ℕ
  pub idt_address : ℕ
  pub isr : ℕ → ℕ
  pub irq : ℕ → ℕ

module _ {P : Type 0} (bus : Bus P) (at : Addresses) where
  -- `kmain` up to `sti`.
  unfoldable pub kmain : Kernel P → Kernel P × List Out
  kmain k =
      let gdt' = gdt_init at.gdt_address k.gdt in
      let idt' = idt_init at.idt_address at.isr at.irq in
      let (ports', pic_out) = pic_init bus k.machine.ports in
      let machine' = kbd_init bus (record k.machine { ports = ports' }) in
      let fs' = fs_init k.fs in
      let dirs' = dir_init k.dirs in
      (
        record {
          gdt = gdt';
          idt = idt';
          machine = machine';
          fs = fs';
          dirs = dirs';
          interrupts = true;
        },
        (set_color light_grey ∷ clear ∷ [])
            ++ welcome
            ++ (set_color light_green ∷ writeln "  >> GDT loaded (5 entries)" [])
            ++ writeln "  >> IDT loaded (256 entries, 32 exceptions + 16 IRQ slots)" []
            ++ pic_out
            ++ boot_proc_table
            ++ boot_priv_table
            ++ boot_image_init
            ++ announce
            ++ writeln "  >> Keyboard driver initialized (IRQ1 registered)" []
            ++ writeln "  >> File system initialized (8 x 32KB blocks, FAT-linked)" []
            ++ writeln "  >> Directory subsystem initialized (cwd = /)" []
            ++ writeln "" []
            ++ (set_color white ∷ writeln "  >> All systems ready. Entering shell..." [])
            ++ writeln "" [],
      )
