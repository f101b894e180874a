-- ===== src/Vga/Frame.antt =====
-- src/vga.c in a memory that goes on behind the 2000 cells of the screen: no write goes there.
use dug_os.Common.{
  ℕ, zero, suc, ◌+◌, ◌-◌, ◌*◌, ◌<◌, ◌≤◌, ◌≡◌, refl, ◌∙◌, List, length, get_or, set, length-set,
  get_or-set_ne, if_cases, ltb, leb, ◌==◌, arith,
}
use dug_os.Console.{Color, black, newline, backspace}
use dug_os.Vga.{
  Vga, vga_width, vga_height, make_entry, fill_row, fill_rows, copy_row, copy_rows,
  scroll_if_needed, put_cell, step_back, vga_putchar, vga_clear, vga_set_color,
}
use dug_os.Vga.Screen.{length-fill_row, length-fill_rows, length-copy_rows}

-- The cursor is on the screen.
abbrev pub IsOnScreen : Vga → Type 0
IsOnScreen s = (s.row < vga_height) × (s.col < vga_width)

-- The cells of `s'` are as many as those of `s`, and those behind the screen are the same.
abbrev pub IsBehindKept : List ℕ → List ℕ → Type 0
IsBehindKept cells cells' =
    (length cells' ≡ length cells)
    × ((i : ℕ) → vga_height * vga_width ≤ i → get_or cells' i 0 ≡ get_or cells i 0)

set_behind :
    (cells : List ℕ) (j v i : ℕ)
    → j < vga_height * vga_width
    → vga_height * vga_width ≤ i
    → get_or (set cells j v) i 0 ≡ get_or cells i 0
set_behind cells j v i near far = get_or-set_ne cells j i v 0 (λ e. absurd (omega (arith, e)))

fill_row_behind :
    (n x y v i : ℕ) (cells : List ℕ)
    → y * vga_width + x + n ≤ vga_height * vga_width
    → vga_height * vga_width ≤ i
    → get_or (fill_row n x y v cells) i 0 ≡ get_or cells i 0
unfolding fill_row
fill_row_behind zero x y v i cells fits far = refl
fill_row_behind (suc n) x y v i cells fits far =
    fill_row_behind n (x + 1) y v i _ (omega arith) far
    ∙ set_behind cells (y * vga_width + x) v i (omega arith) far

fill_rows_behind :
    (n y v i : ℕ) (cells : List ℕ)
    → y + n ≤ vga_height
    → vga_height * vga_width ≤ i
    → get_or (fill_rows n y v cells) i 0 ≡ get_or cells i 0
unfolding fill_rows
fill_rows_behind zero y v i cells fits far = refl
fill_rows_behind (suc n) y v i cells fits far =
    fill_rows_behind n (y + 1) v i _ (omega arith) far
    ∙ fill_row_behind vga_width 0 y v i cells (omega arith) far

copy_row_behind :
    (n x y i : ℕ) (cells : List ℕ)
    → (y - 1) * vga_width + x + n ≤ vga_height * vga_width
    → vga_height * vga_width ≤ i
    → get_or (copy_row n x y cells) i 0 ≡ get_or cells i 0
unfolding copy_row
copy_row_behind zero x y i cells fits far = refl
copy_row_behind (suc n) x y i cells fits far =
    copy_row_behind n (x + 1) y i _ (omega arith) far
    ∙ set_behind cells ((y - 1) * vga_width + x) _ i (omega arith) far

copy_rows_behind :
    (n y i : ℕ) (cells : List ℕ)
    → y - 1 + n < vga_height
    → 0 < y
    → vga_height * vga_width ≤ i
    → get_or (copy_rows n y cells) i 0 ≡ get_or cells i 0
unfolding copy_rows
copy_rows_behind zero y i cells fits pos far = refl
copy_rows_behind (suc n) y i cells fits pos far =
    copy_rows_behind n (y + 1) i _ (omega arith) (omega arith) far
    ∙ copy_row_behind vga_width 0 y i cells (omega arith) far

-- What every call keeps, from a memory `cells` on.
module _ (cells : List ℕ) where
  abbrev pub IsFramed : Vga → Type 0
  IsFramed s = IsOnScreen s × IsBehindKept cells s.cells

  put_cell-IsBehindKept :
      (c : ℕ) (s : Vga)
      → IsOnScreen s
      → IsBehindKept cells s.cells
      → IsBehindKept cells (put_cell c s).cells
  put_cell-IsBehindKept c s on kept = (
    length-set s.cells (s.row * vga_width + s.col) (make_entry c s.color) ∙ kept.0,
    λ i far.
        set_behind s.cells (s.row * vga_width + s.col) (make_entry c s.color) i
          (omega (arith, on.0, on.1)) far
        ∙ kept.1 i far,
  )

  scroll_if_needed-IsFramed :
      (s : Vga) → s.col < vga_width → IsBehindKept cells s.cells → IsFramed (scroll_if_needed s)
  unfolding scroll_if_needed
  scroll_if_needed-IsFramed s col_in kept =
      if_cases IsFramed (ltb s.row vga_height) _ _ (λ on_screen. ((ground arith, col_in), kept))
        (λ below.
          let last = vga_height - 1 in
          let shifted = copy_rows last 1 s.cells in
          let blank = make_entry b' ' s.color in
          (
            (omega arith, col_in),
            (
              length-fill_row vga_width 0 last blank shifted
                  ∙ length-copy_rows last 1 s.cells
                  ∙ kept.0,
              λ i far.
                  fill_row_behind vga_width 0 last blank i shifted (omega arith) far
                  ∙ copy_rows_behind last 1 i s.cells (omega arith) (omega arith) far
                  ∙ kept.1 i far,
            ),
          ))

  step_back-IsFramed : (s : Vga) → IsFramed s → IsFramed (step_back s)
  unfolding step_back
  step_back-IsFramed s f =
      if_cases IsFramed (ltb 0 s.col) _ _ (λ inside. ((f.0.0, omega (arith, f.0.1)), f.1))
        (λ start.
          if_cases IsFramed (ltb 0 s.row) _ _ (λ up. ((omega (arith, f.0.0), omega arith), f.1))
            (λ corner. f))

  pub vga_putchar-IsFramed : (c : ℕ) (s : Vga) → IsFramed s → IsFramed (vga_putchar c s)
  unfolding vga_putchar
  vga_putchar-IsFramed c s f =
      let put = put_cell-IsBehindKept c s f.0 f.1 in
      if_cases IsFramed (c == newline) _ _
        (λ nl. scroll_if_needed-IsFramed (record s { col = 0; row = s.row + 1 }) (omega arith) f.1)
        (λ no_nl.
          if_cases IsFramed (c == backspace) _ _
            (λ back.
              let b = step_back-IsFramed s f in
              (b.0, put_cell-IsBehindKept b' ' (step_back s) b.0 b.1))
            (λ plain.
              if_cases IsFramed (leb vga_width (s.col + 1)) _ _
                (λ wrap.
                  scroll_if_needed-IsFramed (record (put_cell c s) { col = 0; row = s.row + 1 })
                    (omega arith) put)
                (λ stay. ((f.0.0, ground arith), put))))

  pub vga_set_color-IsFramed :
      (c : Color) (s : Vga) → IsFramed s → IsFramed (vga_set_color c black s)
  unfolding vga_set_color
  vga_set_color-IsFramed c s f = f

  -- `vga_clear` wherever the cursor was.
  pub vga_clear-IsFramed : (s : Vga) → IsBehindKept cells s.cells → IsFramed (vga_clear s)
  unfolding vga_clear
  vga_clear-IsFramed s kept =
      let blank = make_entry b' ' s.color in
      (
        (omega arith, omega arith),
        (
          length-fill_rows vga_height 0 blank s.cells ∙ kept.0,
          λ i far. fill_rows_behind vga_height 0 blank i s.cells (omega arith) far ∙ kept.1 i far,
        ),
      )
