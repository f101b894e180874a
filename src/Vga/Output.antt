-- ===== src/Vga/Output.antt =====
-- The calls of src/vga.c that the other parts make, run on the screen.
use dug_os.Common.{ℕ, ◌≡◌, refl, false, List, [], ◌∷◌, ◌++◌, ◌==◌, if_cases}
use dug_os.Strings.{Bytes, codes}
use dug_os.Console.{
  Color, Out, set_color, putchar, write, write_bytes, write_dec, write_hex, clear, black,
}
use dug_os.Vga.{
  Vga, vga_set_color, vga_clear, vga_putchar, vga_write, vga_write_dec, vga_write_hex, dec_digits,
  put_reversed, put_all, hex_loop, hex_divisors,
}
use dug_os.Vga.Frame.{IsFramed, vga_putchar-IsFramed, vga_set_color-IsFramed, vga_clear-IsFramed}

-- One call.
unfoldable pub show_one : Out → Vga → Vga
unfolding vga_set_color vga_clear vga_putchar vga_write vga_write_dec vga_write_hex
show_one (set_color c) s = vga_set_color c black s
show_one (putchar c) s = vga_putchar c s
show_one (write text) s = vga_write (codes text) s
show_one (write_bytes text) s = vga_write text s
show_one (write_dec n) s = vga_write_dec n s
show_one (write_hex n) s = vga_write_hex n s
show_one clear s = vga_clear s

unfoldable pub show : List Out → Vga → Vga
unfolding show_one
show [] s = s
show (o ∷ out) s = show out (show_one o s)

pub show-append : (a b : List Out) (s : Vga) → show (a ++ b) s ≡ show b (show a s)
unfolding show
show-append [] b s = refl
show-append (o ∷ a) b s = show-append a b (show_one o s)

-- What every character keeps is kept by the calls that write several.
module _ (P : Vga → Type 0) (put : (c : ℕ) (s : Vga) → P s → P (vga_putchar c s)) where
  write-Keeps : (text : Bytes) (s : Vga) → P s → P (vga_write text s)
  unfolding vga_write
  write-Keeps [] s v = v
  write-Keeps (c ∷ text) s v =
      if_cases P (c == 0) _ _ (λ end. v) (λ more. write-Keeps text (vga_putchar c s) (put c s v))

  put_reversed-Keeps : (buf : Bytes) (s : Vga) → P s → P (put_reversed buf s)
  unfolding put_reversed
  put_reversed-Keeps [] s v = v
  put_reversed-Keeps (c ∷ buf) s v = put c (put_reversed buf s) (put_reversed-Keeps buf s v)

  put_all-Keeps : (cs : Bytes) (s : Vga) → P s → P (put_all cs s)
  put_all-Keeps [] s v = v
  put_all-Keeps (c ∷ cs) s v = put_all-Keeps cs (vga_putchar c s) (put c s v)

  dec-Keeps : (n : ℕ) (s : Vga) → P s → P (vga_write_dec n s)
  unfolding vga_write_dec
  dec-Keeps n s v =
      if_cases P (n == 0) _ _ (λ zero_there. put b'0' s v)
        (λ digits. put_reversed-Keeps (dec_digits 10 n) s v)

  hex-Keeps : (n : ℕ) (s : Vga) → P s → P (vga_write_hex n s)
  unfolding vga_write_hex
  hex-Keeps n s v = put_all-Keeps (hex_loop hex_divisors false n) s v

module _ (cells : List ℕ) where
  show_one-IsFramed : (o : Out) (s : Vga) → IsFramed cells s → IsFramed cells (show_one o s)
  unfolding show_one
  show_one-IsFramed (set_color c) s v = vga_set_color-IsFramed cells c s v
  show_one-IsFramed (putchar c) s v = vga_putchar-IsFramed cells c s v
  show_one-IsFramed (write text) s v =
      write-Keeps (IsFramed cells) (vga_putchar-IsFramed cells) (codes text) s v
  show_one-IsFramed (write_bytes text) s v =
      write-Keeps (IsFramed cells) (vga_putchar-IsFramed cells) text s v
  show_one-IsFramed (write_dec n) s v =
      dec-Keeps (IsFramed cells) (vga_putchar-IsFramed cells) n s v
  show_one-IsFramed (write_hex n) s v =
      hex-Keeps (IsFramed cells) (vga_putchar-IsFramed cells) n s v
  show_one-IsFramed clear s v = vga_clear-IsFramed cells s v.1

  -- Whatever is written, the cursor stays on the screen and the memory behind it as it was.
  show-IsFramed : (out : List Out) (s : Vga) → IsFramed cells s → IsFramed cells (show out s)
  unfolding show
  show-IsFramed [] s v = v
  show-IsFramed (o ∷ out) s v = show-IsFramed out (show_one o s) (show_one-IsFramed o s v)

-- The same from a start that clears the screen, wherever the cursor was.
pub show_started-IsFramed :
    (c : Color) (out : List Out) (s : Vga) → IsFramed s.cells (show (set_color c ∷ clear ∷ out) s)
unfolding show show_one vga_set_color
show_started-IsFramed c out s =
    show-IsFramed s.cells out (vga_clear (vga_set_color c black s))
      (vga_clear-IsFramed s.cells (vga_set_color c black s) (refl, λ i far. refl))
