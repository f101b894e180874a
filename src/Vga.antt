-- ===== src/Vga.antt =====
-- src/vga.c and src/vga.h: the text screen, its cursor, and the writing of numbers.
pub mod Screen
pub mod Cursor
pub mod Frame
pub mod Numbers
pub mod Output
mod Tests
use dug_os.Common.{
  ℕ, zero, suc, ◌+◌, ◌-◌, ◌*◌, ◌/◌, ◌%◌, Bool, true, false, not, ◌&&◌, ◌||◌, List, [], ◌∷◌, Option,
  ltb, leb, ◌==◌, if◌then◌else◌, get_or, set,
}
use dug_os.Strings.{Bytes}
use dug_os.Console.{
  Color, black, light_green, light_cyan, light_red, white, light_grey, yellow, newline, backspace,
}

abbrev pub vga_width : ℕ
vga_width = 80

abbrev pub vga_height : ℕ
vga_height = 25

-- The cells at 0xB8000, and the static variables of vga.c.
pub record Vga : Type 0 where
  pub cells : List ℕ
  pub row : ℕ
  pub col : ℕ
  pub color : ℕ

-- The colors of `enum vga_color` that the kernel uses.
abbrev pub color_index : Color → ℕ
color_index black = 0
color_index light_grey = 7
color_index light_green = 10
color_index light_cyan = 11
color_index light_red = 12
color_index yellow = 14
color_index white = 15

-- The high byte holds the attribute, so that `|` adds.
abbrev pub make_entry : ℕ → ℕ → ℕ
make_entry c attr = c % 256 + attr * 256

-- Both colors are below 16, so that `|` adds.
unfoldable pub vga_set_color : Color → Color → Vga → Vga
vga_set_color fg bg s = record s { color = (color_index fg + color_index bg * 16) % 256 }

-- `for (x = ...; n rounds; x++) VGA_MEM[y * VGA_WIDTH + x] = v;`
unfoldable pub fill_row : ℕ → ℕ → ℕ → ℕ → List ℕ → List ℕ
fill_row zero x y v cells = cells
fill_row (suc n) x y v cells = fill_row n (x + 1) y v (set cells (y * vga_width + x) v)

-- The same for the rows from `y` on.
unfoldable pub fill_rows : ℕ → ℕ → ℕ → List ℕ → List ℕ
unfolding fill_row
fill_rows zero y v cells = cells
fill_rows (suc n) y v cells = fill_rows n (y + 1) v (fill_row vga_width 0 y v cells)

unfoldable pub vga_clear : Vga → Vga
unfolding fill_rows
vga_clear s = record s {
  cells = fill_rows vga_height 0 (make_entry b' ' s.color) s.cells;
  row = 0;
  col = 0;
}

unfoldable pub vga_init : Vga → Vga
unfolding vga_set_color vga_clear
vga_init s = vga_clear (vga_set_color light_grey black s)

-- The inner loop of the shift: row `y` is copied into the row above.
unfoldable pub copy_row : ℕ → ℕ → ℕ → List ℕ → List ℕ
copy_row zero x y cells = cells
copy_row (suc n) x y cells =
    copy_row n (x + 1) y (set cells ((y - 1) * vga_width + x) (get_or cells (y * vga_width + x) 0))

unfoldable pub copy_rows : ℕ → ℕ → List ℕ → List ℕ
unfolding copy_row
copy_rows zero y cells = cells
copy_rows (suc n) y cells = copy_rows n (y + 1) (copy_row vga_width 0 y cells)

unfoldable pub scroll_if_needed : Vga → Vga
unfolding copy_rows fill_row
scroll_if_needed s = if ltb s.row vga_height then s else record s {
  cells =
      fill_row vga_width 0 (vga_height - 1) (make_entry b' ' s.color)
        (copy_rows (vga_height - 1) 1 s.cells);
  row = vga_height - 1;
}

-- The cell at the cursor.
abbrev pub put_cell : ℕ → Vga → Vga
put_cell c s = record s { cells = set s.cells (s.row * vga_width + s.col) (make_entry c s.color) }

-- `vga_putchar('\b')`: where the cursor goes, and the erasing.
unfoldable pub step_back : Vga → Vga
step_back s =
    if ltb 0 s.col
    then record s { col = s.col - 1 }
    else if ltb 0 s.row
    then record s { row = s.row - 1; col = vga_width - 1 }
    else s

unfoldable pub vga_putchar : ℕ → Vga → Vga
unfolding scroll_if_needed step_back
vga_putchar c s =
    if c == newline
    then scroll_if_needed (record s { col = 0; row = s.row + 1 })
    else if c == backspace
    then put_cell b' ' (step_back s)
    else if leb vga_width (s.col + 1)
    then scroll_if_needed (record (put_cell c s) { col = 0; row = s.row + 1 })
    else record (put_cell c s) { col = s.col + 1 }

unfoldable pub vga_write : Bytes → Vga → Vga
unfolding vga_putchar
vga_write [] s = s
vga_write (c ∷ text) s = if c == 0 then s else vga_write text (vga_putchar c s)

unfoldable pub vga_writeln : Bytes → Vga → Vga
unfolding vga_write
vga_writeln text s = vga_putchar newline (vga_write text s)

-- The loop that extracts digits: `buf[0..i)`, with fuel for its rounds.
unfoldable pub dec_digits : ℕ → ℕ → Bytes
dec_digits zero n = []
dec_digits (suc f) n =
    let rest = dec_digits f (n / 10) in if ltb 0 n then (b'0' + n % 10) ∷ rest else []

-- `while (i > 0) vga_putchar(buf[--i]);`
unfoldable pub put_reversed : Bytes → Vga → Vga
put_reversed [] s = s
put_reversed (c ∷ buf) s = vga_putchar c (put_reversed buf s)

-- Ten digits hold every 32-bit number.
unfoldable pub vga_write_dec : ℕ → Vga → Vga
unfolding dec_digits put_reversed
vga_write_dec n s = if n == 0 then vga_putchar b'0' s else put_reversed (dec_digits 10 n) s

-- `hex[d]`
abbrev pub hex_digit : ℕ → ℕ
hex_digit d = if ltb d 10 then b'0' + d else b'A' + (d - 10)

-- The loop over the nibbles, from the divisors `1 << shift`.
unfoldable pub hex_loop : List ℕ → Bool → ℕ → Bytes
hex_loop [] started n = []
hex_loop (p ∷ divisors) started n =
    let c = hex_digit (n / p % 16) in
    let with_c = c ∷ hex_loop divisors true n in
    let without = hex_loop divisors started n in
    if not (c == b'0') || started || p == 1 then with_c else without

-- `1 << 28` down to `1 << 0`
abbrev pub hex_divisors : List ℕ
hex_divisors = 268435456 ∷ 16777216 ∷ 1048576 ∷ 65536 ∷ 4096 ∷ 256 ∷ 16 ∷ 1 ∷ []

abbrev pub put_all : Bytes → Vga → Vga
put_all [] s = s
put_all (c ∷ cs) s = put_all cs (vga_putchar c s)

unfoldable pub vga_write_hex : ℕ → Vga → Vga
unfolding hex_loop
vga_write_hex n s = put_all (hex_loop hex_divisors false n) s
