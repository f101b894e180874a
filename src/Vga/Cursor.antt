-- ===== src/Vga/Cursor.antt =====
-- `vga_putchar` of src/vga.c as writing on one line of 2000 cells that moves up by 80 when it is full.
use dug_os.Common.{
  ℕ, ◌+◌, ◌-◌, ◌*◌, ◌<◌, ◌≤◌, ◌≡◌, refl, ap, ◌∙◌, false, ◌&&◌, ltb, leb, ◌==◌, if◌then◌else◌,
  if_cases, length, get_or, length-set, get_or-set, arith,
}
use dug_os.Console.{newline, backspace}
use dug_os.Vga.{
  Vga, vga_width, vga_height, make_entry, copy_rows, scroll_if_needed, put_cell, step_back,
  vga_putchar, vga_clear,
}
use dug_os.Vga.Screen.{
  length-fill_row, length-fill_rows, length-copy_rows, fill_row_lem, fill_rows_lem, copy_rows_lem,
}

-- The cursor is on the screen.
pub record IsValid (s : Vga) : Type 0 where
  pub size : length s.cells ≡ vga_height * vga_width
  pub row_in : s.row < vga_height
  pub col_in : s.col < vga_width

abbrev pub position : Vga → ℕ
position s = s.row * vga_width + s.col

abbrev pub cell : Vga → ℕ → ℕ
cell s i = get_or s.cells i 0

abbrev pub blank : Vga → ℕ
blank s = make_entry b' ' s.color

-- Where the cursor goes before the screen scrolls.
abbrev pub moved : ℕ → Vga → ℕ
moved c s =
    if c == newline
    then (s.row + 1) * vga_width
    else if c == backspace
    then position s - 1
    else position s + 1

-- The cells before the screen scrolls.
abbrev pub inked : ℕ → Vga → ℕ → ℕ
inked c s i =
    if c == newline
    then cell s i
    else if c == backspace
    then if i == position s - 1 then blank s else cell s i
    else if i == position s
    then make_entry c s.color
    else cell s i

-- What a character does: the cursor and the cells, with a scroll if the cursor leaves the screen.
abbrev pub Puts : ℕ → Vga → ℕ → Vga → Type 0
Puts c s i s' =
    IsValid s'
    × (position s'
        ≡ (if ltb (moved c s) (vga_height * vga_width) then moved c s else moved c s - vga_width))
    × (cell s' i ≡ (
        if ltb (moved c s) (vga_height * vga_width)
        then inked c s i
        else if ltb (i + vga_width) (vga_height * vga_width)
        then inked c s (i + vga_width)
        else blank s))

-- The cursor is on the screen, or in the row below.
record IsNear (s : Vga) : Type 0 where
  size : length s.cells ≡ vga_height * vga_width
  row_near : s.row ≤ vga_height
  col_in : s.col < vga_width

scroll_lem :
    (s : Vga) (i : ℕ)
    → IsNear s
    → i < vga_height * vga_width
    → IsValid (scroll_if_needed s)
      × (position (scroll_if_needed s)
          ≡ (if ltb s.row vga_height then position s else position s - vga_width))
      × (cell (scroll_if_needed s) i ≡ (
          if ltb s.row vga_height
          then cell s i
          else if ltb (i + vga_width) (vga_height * vga_width)
          then cell s (i + vga_width)
          else blank s))
unfolding scroll_if_needed
scroll_lem s i v h =
    let P : Vga → Type 0 = λ (q : Vga).
      IsValid q
      × (position q ≡ (if ltb s.row vga_height then position s else position s - vga_width))
      × (cell q i ≡ (
          if ltb s.row vga_height
          then cell s i
          else if ltb (i + vga_width) (vga_height * vga_width)
          then cell s (i + vga_width)
          else blank s)) in
    if_cases P (ltb s.row vga_height) _ _
      (λ on_screen. (
        record { size = v.size; row_in = ground arith; col_in = v.col_in },
        ground arith,
        ground arith,
      ))
      (λ below.
        let shifted = copy_rows (vga_height - 1) 1 s.cells in
        let shifted_size = length-copy_rows (vga_height - 1) 1 s.cells in
        let fits : (1 + (vga_height - 1)) * vga_width ≤ length s.cells = omega (arith, v.size) in
        let fits' : (vga_height - 1) * vga_width + 0 + vga_width ≤ length shifted =
          omega (arith, v.size, shifted_size) in
        (
          record {
            size =
                length-fill_row vga_width 0 (vga_height - 1) (blank s) shifted
                ∙ shifted_size
                ∙ v.size;
            row_in = omega arith;
            col_in = v.col_in;
          },
          (let last : s.row ≡ vga_height = (let near = v.row_near in ground arith) in ground arith),
          ground (
            arith,
            fill_row_lem vga_width 0 (vga_height - 1) (blank s) i shifted fits',
            copy_rows_lem (vga_height - 1) 1 i s.cells (omega arith) fits,
          ),
        ))

-- A step back stays on the screen, at its start too.
step_back_lem :
    (s : Vga)
    → IsValid s
    → (position (step_back s) ≡ position s - 1)
      × ((step_back s).cells ≡ s.cells)
      × ((step_back s).color ≡ s.color)
      × ((step_back s).row < vga_height)
      × ((step_back s).col < vga_width)
unfolding step_back
step_back_lem s v =
    let P : Vga → Type 0 = λ (q : Vga).
      (position q ≡ position s - 1)
      × (q.cells ≡ s.cells)
      × (q.color ≡ s.color)
      × (q.row < vga_height)
      × (q.col < vga_width) in
    let rows = v.row_in in
    let cols = v.col_in in
    if_cases P (ltb 0 s.col) _ _ (λ inside. (ground arith, refl, refl, rows, omega arith))
      (λ edge.
        if_cases P (ltb 0 s.row) _ _ (λ below. (ground arith, refl, refl, omega arith, omega arith))
          (λ corner. (ground arith, refl, refl, rows, cols)))

-- A plain character changes the cell at the cursor.
put_cell-inked :
    (c i : ℕ) (s : Vga)
    → position s < length s.cells
    → (c == newline) ≡ false
    → (c == backspace) ≡ false
    → cell (put_cell c s) i ≡ inked c s i
put_cell-inked c i s inside no_nl plain =
    get_or-set s.cells (position s) i (make_entry c s.color) 0 inside
    ∙ rw (no_nl, plain) (ground arith)

-- Behind the last column, the next row is on the screen exactly if the next cell is.
wrap_test :
    (c : ℕ) (s : Vga)
    → IsValid s
    → s.col + 1 ≡ vga_width
    → (c == newline) ≡ false
    → (c == backspace) ≡ false
    → ltb (s.row + 1) vga_height ≡ ltb (moved c s) (vga_height * vga_width)
wrap_test c s v last no_nl plain = rw (no_nl, plain) (ground arith)

-- `vga_putchar` writes at the cursor and moves it on, to the next row for '\n' and back for '\b', which
-- blanks the cell there; when the cursor leaves the screen every row moves up by one and the last is
-- blank. The cursor stays on the screen.
pub vga_putchar_lem :
    (c i : ℕ) (s : Vga) → IsValid s → i < vga_height * vga_width → Puts c s i (vga_putchar c s)
unfolding vga_putchar step_back
vga_putchar_lem c i s v h =
    let P : Vga → Type 0 = Puts c s i in
    let rows = v.row_in in
    let cols = v.col_in in
    let at = position s in
    let entry = make_entry c s.color in
    let inside : at < length s.cells = omega (arith, v.size) in
    let size' = length-set s.cells at entry in
    if_cases P (c == newline) _ _
      (λ nl.
        let down = record s { col = 0; row = s.row + 1 } in
        let r =
          scroll_lem down i (record { size = v.size; row_near = omega arith; col_in = omega arith })
            h in
        (r.0, r.1 ∙ ground arith, r.2 ∙ ground arith))
      (λ no_nl.
        if_cases P (c == backspace) _ _
          (λ back.
            let b = step_back_lem s v in
            let q = step_back s in
            let same_cells = b.1 in
            let same_color = b.2 in
            let same_place = b.0 in
            (
              record {
                size = length-set q.cells (position q) _ ∙ ap length same_cells ∙ v.size;
                row_in = b.3;
                col_in = b.4;
              },
              ground arith,
              rw (same_cells, same_color, same_place)
                  (ground (
                    arith,
                    get_or-set s.cells (position s - 1) i (blank s) 0 (omega (arith, v.size)),
                  )),
            ))
          (λ plain.
            if_cases P (leb vga_width (s.col + 1)) _ _
              (λ wrap.
                let next = record (put_cell c s) { col = 0; row = s.row + 1 } in
                let r =
                  scroll_lem next i
                    (record { size = size' ∙ v.size; row_near = omega arith; col_in = omega arith })
                    h in
                let last : s.col + 1 ≡ vga_width = ground arith in
                (
                  r.0,
                  r.1 ∙ ground arith,
                  r.2
                      ∙ (let here = put_cell-inked c i s inside no_nl plain in
                          let below = put_cell-inked c (i + vga_width) s inside no_nl plain in
                          let test = wrap_test c s v last no_nl plain in
                          rw (here, below, test) refl),
                ))
              (λ stay. (
                record { size = size' ∙ v.size; row_in = rows; col_in = ground arith },
                ground arith,
                ground (arith, get_or-set s.cells at i entry 0 inside),
              ))))

all_filled :
    (i v w : ℕ)
    → i < vga_height * vga_width
    → (if leb (0 * vga_width) i && ltb i ((0 + vga_height) * vga_width) then v else w) ≡ v
all_filled i v w h = ground arith

-- `vga_clear` blanks every cell and takes the cursor to the first, wherever it was.
pub vga_clear_lem :
    (i : ℕ) (s : Vga)
    → length s.cells ≡ vga_height * vga_width
    → i < vga_height * vga_width
    → IsValid (vga_clear s) × (position (vga_clear s) ≡ 0) × (cell (vga_clear s) i ≡ blank s)
unfolding vga_clear
vga_clear_lem i s size h = (
  record {
    size = length-fill_rows vga_height 0 (blank s) s.cells ∙ size;
    row_in = omega arith;
    col_in = omega arith;
  },
  refl,
  fill_rows_lem vga_height 0 (blank s) i s.cells (omega (arith, size))
      ∙ all_filled i (blank s) (cell s i) h,
)
