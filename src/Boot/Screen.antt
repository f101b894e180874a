-- ===== src/Boot/Screen.antt =====
-- The screen from the start of src/main.c on.
use dug_os.Common.{List, ◌++◌}
use dug_os.Console.{Out, light_grey}
use dug_os.Port.{Bus}
use dug_os.Vga.{Vga}
use dug_os.Vga.Frame.{IsFramed}
use dug_os.Vga.Output.{show, show_started-IsFramed}
use dug_os.Boot.{Kernel, Addresses, kmain}

module _ {P : Type 0} (bus : Bus P) (at : Addresses) where
  -- Take any memory that starts with the screen's 2000 cells and goes on behind them, and any cursor
  -- when the kernel starts. Behind the messages of kmain and whatever is written after them, the
  -- cursor is on the screen, and every cell of the memory behind the screen is as it was.
  pub kmain-show :
      (k : Kernel P) (out : List Out) (s : Vga)
      → IsFramed s.cells (show ((kmain bus at k).1 ++ out) s)
  unfolding kmain
  kmain-show k out s = show_started-IsFramed light_grey _ s
