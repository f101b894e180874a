-- ===== src/Vga/Screen.antt =====
-- The loops of src/vga.c over the cells: what each leaves in every cell.
use dug_os.Common.{
  ℕ, zero, suc, ◌+◌, ◌-◌, ◌*◌, ◌<◌, ◌≤◌, ◌≡◌, refl, ap, ◌∙◌, ◌&&◌, List, ltb, leb, if◌then◌else◌,
  length, get_or, set, length-set, get_or-set_self, get_or-set_ne, arith, ℕ_discrete,
}
use dug_os.Vga.{vga_width, fill_row, fill_rows, copy_row, copy_rows}

pub length-fill_row :
    (n x y v : ℕ) (cells : List ℕ) → length (fill_row n x y v cells) ≡ length cells
unfolding fill_row
length-fill_row zero x y v cells = refl
length-fill_row (suc n) x y v cells =
    length-fill_row n (x + 1) y v _ ∙ length-set cells (y * vga_width + x) v

pub length-fill_rows : (n y v : ℕ) (cells : List ℕ) → length (fill_rows n y v cells) ≡ length cells
unfolding fill_rows
length-fill_rows zero y v cells = refl
length-fill_rows (suc n) y v cells =
    length-fill_rows n (y + 1) v _ ∙ length-fill_row vga_width 0 y v cells

pub length-copy_row : (n x y : ℕ) (cells : List ℕ) → length (copy_row n x y cells) ≡ length cells
unfolding copy_row
length-copy_row zero x y cells = refl
length-copy_row (suc n) x y cells = length-copy_row n (x + 1) y _ ∙ length-set cells _ _

pub length-copy_rows : (n y : ℕ) (cells : List ℕ) → length (copy_rows n y cells) ≡ length cells
unfolding copy_rows
length-copy_rows zero y cells = refl
length-copy_rows (suc n) y cells =
    length-copy_rows n (y + 1) _ ∙ length-copy_row vga_width 0 y cells

-- The cells of `n` columns from `x` on in row `y` are filled, the others stay.
pub fill_row_lem :
    (n x y v i : ℕ) (cells : List ℕ)
    → y * vga_width + x + n ≤ length cells
    → get_or (fill_row n x y v cells) i 0
      ≡ (if leb (y * vga_width + x) i && ltb i (y * vga_width + x + n) then v else get_or cells i 0)
unfolding fill_row
fill_row_lem zero x y v i cells fits = ground arith
fill_row_lem (suc n) x y v i cells fits =
    let at = y * vga_width + x in
    let rest =
      fill_row_lem n (x + 1) y v i (set cells at v) (omega (arith, length-set cells at v, fits)) in
    elim (ℕ_discrete at i) [
      | yes e ↦
          let here : get_or (set cells at v) i 0 ≡ v =
            rw (← e) (get_or-set_self cells at v 0 (omega arith)) in
          ground (arith, rest, here)
      | no ne ↦ ground (arith, rest, get_or-set_ne cells at i v 0 ne)
    ]

-- The cells of `n` columns from `x` on in row `y` are copied to the row above, the others stay.
pub copy_row_lem :
    (n x y i : ℕ) (cells : List ℕ)
    → 0 < y
    → x + n ≤ vga_width
    → y * vga_width + x + n ≤ length cells
    → get_or (copy_row n x y cells) i 0 ≡ (
        if leb ((y - 1) * vga_width + x) i && ltb i ((y - 1) * vga_width + x + n)
        then get_or cells (i + vga_width) 0
        else get_or cells i 0)
unfolding copy_row
copy_row_lem zero x y i cells pos wide fits = ground arith
copy_row_lem (suc n) x y i cells pos wide fits =
    let at = (y - 1) * vga_width + x in
    let v = get_or cells (y * vga_width + x) 0 in
    let rest =
      copy_row_lem n (x + 1) y i (set cells at v) pos (omega arith)
        (omega (arith, length-set cells at v, fits)) in
    elim (ℕ_discrete at i) [
      | yes e ↦
          let here : get_or (set cells at v) i 0 ≡ v =
            rw (← e) (get_or-set_self cells at v 0 (omega arith)) in
          let source : v ≡ get_or cells (i + vga_width) 0 =
            (let there : y * vga_width + x ≡ i + vga_width = omega arith in
              ap (λ j. get_or cells j 0) there) in
          ground (arith, rest, here, source)
      | no ne ↦ elim (ℕ_discrete at (i + vga_width)) [
        | yes far ↦ ground (arith, rest, get_or-set_ne cells at i v 0 ne)
        | no far ↦ ground (
          arith,
          rest,
          get_or-set_ne cells at i v 0 ne,
          get_or-set_ne cells at (i + vga_width) v 0 far,
        )
      ]
    ]

-- `n` rows from `y` on are filled.
pub fill_rows_lem :
    (n y v i : ℕ) (cells : List ℕ)
    → (y + n) * vga_width ≤ length cells
    → get_or (fill_rows n y v cells) i 0
      ≡ (if leb (y * vga_width) i && ltb i ((y + n) * vga_width) then v else get_or cells i 0)
unfolding fill_rows
fill_rows_lem zero y v i cells fits = ground arith
fill_rows_lem (suc n) y v i cells fits =
    let done = fill_row vga_width 0 y v cells in
    ground (
      arith,
      fill_rows_lem n (y + 1) v i done (omega (arith, length-fill_row vga_width 0 y v cells)),
      fill_row_lem vga_width 0 y v i cells (omega arith),
    )

-- `n` rows from `y` on are moved up by one.
pub copy_rows_lem :
    (n y i : ℕ) (cells : List ℕ)
    → 0 < y
    → (y + n) * vga_width ≤ length cells
    → get_or (copy_rows n y cells) i 0 ≡ (
        if leb ((y - 1) * vga_width) i && ltb i ((y - 1 + n) * vga_width)
        then get_or cells (i + vga_width) 0
        else get_or cells i 0)
unfolding copy_rows
copy_rows_lem zero y i cells pos fits = ground arith
copy_rows_lem (suc n) y i cells pos fits =
    let done = copy_row vga_width 0 y cells in
    ground (
      arith,
      copy_rows_lem n (y + 1) i done (omega arith)
          (omega (arith, length-copy_row vga_width 0 y cells)),
      copy_row_lem vga_width 0 y i cells pos (omega arith) (omega arith),
      copy_row_lem vga_width 0 y (i + vga_width) cells pos (omega arith) (omega arith),
    )
