-- ===== src/Vga/Tests.antt =====
-- src/vga.c on a blank screen.
use dug_os.Common.{ℕ, ◌≤◌, ◌≡◌, length, replicate, length-replicate, arith}
use dug_os.Vga.{Vga, vga_putchar, dec_digits}
use dug_os.Vga.Cursor.{IsValid, Puts, vga_putchar_lem}
use dug_os.Vga.Numbers.{dec_value, dec_digits-dec_value}

-- the cursor at the end of the last row
abbrev full : Vga
full = record { cells = replicate 2000 0; row = 24; col = 79; color = 7 }

full-IsValid : IsValid full
full-IsValid = record {
  size = length-replicate {A = ℕ} 2000 0;
  row_in = omega arith;
  col_in = omega arith;
}

vga_putchar_lem_example : Puts b'x' full 1919 (vga_putchar b'x' full)
vga_putchar_lem_example = vga_putchar_lem b'x' 1919 full full-IsValid (omega arith)

dec_digits-dec_value_example :
    (dec_value (dec_digits 10 4096) ≡ 4096) × (length (dec_digits 10 4096) ≤ 10)
dec_digits-dec_value_example = dec_digits-dec_value 4096 (omega arith)
