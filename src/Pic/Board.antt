-- ===== src/Pic/Board.antt =====
-- A pair of chips that does what the data sheet says: the laws of `Pair` hold of it.
use dug_os.Common.{ℕ, ◌%◌, ◌≡◌, refl, ap, Bool, true, false, ◌<◌, ◌==◌, if◌then◌else◌, arith}
use dug_os.Port.{Bus}
use dug_os.Pic.{pic1_data, pic2_data, icw1_init}
use dug_os.Pic.Chip.{
  Stage, Chip, wants_icw2, wants_icw3, wants_icw4, ready, Which, master, slave, data_of, cmd_of,
  data_at, data_written, command_written, written, Pair,
}
use dug_os.Pic.Init.{fresh_chip}
use dug_os.Pic.Mask.{IsReady}

abbrev pub Board : Type 0
Board = Chip × Chip

abbrev pub clip : Chip → Chip
clip c = record c { mask = c.mask % 256 }

abbrev pub board : Bus Board
board = record {
  out_byte = λ port v s. (written master port v s.0, written slave port v s.1);
  in_byte = λ port s. (
    if port == pic1_data then s.0.mask % 256 else if port == pic2_data then s.1.mask % 256 else 0,
    s,
  );
}

abbrev pub chip_at : Which → Board → Chip
chip_at master s = clip s.0
chip_at slave s = clip s.1

clip-data_at :
    (st : Stage) (v : ℕ) (c : Chip) → v < 256 → clip (data_at st v c) ≡ data_at st v (clip c)
clip-data_at wants_icw2 v c h = refl
clip-data_at wants_icw3 v c h = refl
clip-data_at wants_icw4 v c h = refl
clip-data_at ready v c h =
    let small : v % 256 ≡ v = omega arith in ap (λ m. record c { mask = m }) small

if_same :
    {A B : Type 0} (f : A → B) (b : Bool) (x y : A)
    → f (if b then x else y) ≡ (if b then f x else f y)
if_same f true x y = refl
if_same f false x y = refl

clip-command_written : (v : ℕ) (c : Chip) → clip (command_written v c) ≡ command_written v (clip c)
clip-command_written v c = if_same clip (v == icw1_init) _ _

clip-written :
    (w : Which) (port v : ℕ) (c : Chip)
    → v < 256
    → clip (written w port v c) ≡ written w port v (clip c)
clip-written w port v c h =
    let as_command = clip-command_written v c in
    let as_data = clip-data_at c.stage v c h in
    rw
      (
        if_same clip (port == cmd_of w) (command_written v c)
            (if port == data_of w then data_written v c else c),
        if_same clip (port == data_of w) (data_written v c) c,
        as_command,
        as_data,
      )
      refl

pub board_pics : Pair board
board_pics = record {
  chip = chip_at;
  writes = λ w port v s h k. written_at w port v s h;
  reads = λ w s r. read_at w s;
  keeps = λ w port s. refl;
  mask_size = λ w s. small w s;
}
  where
    written_at :
        (w : Which) (port v : ℕ) (s : Board)
        → v < 256
        → chip_at w (board.out_byte port v s) ≡ written w port v (chip_at w s)
    written_at master port v s h = clip-written master port v s.0 h
    written_at slave port v s h = clip-written slave port v s.1 h

    read_at : (w : Which) (s : Board) → (board.in_byte (data_of w) s).0 ≡ (chip_at w s).mask
    read_at master s = refl
    read_at slave s = refl

    small : (w : Which) (s : Board) → (chip_at w s).mask < 256
    small master s = omega arith
    small slave s = omega arith

-- The controllers as a BIOS leaves them, with these masks.
abbrev pub bios_board : ℕ → ℕ → Board
bios_board m n = (fresh_chip 0x08 m, fresh_chip 0x70 n)

pub board-IsReady : (s : Board) → s.0.stage ≡ ready → s.1.stage ≡ ready → IsReady board board_pics s
unfolding board_pics
board-IsReady s m n master = m
board-IsReady s m n slave = n

pub bios_board-IsReady : (m n : ℕ) → IsReady board board_pics (bios_board m n)
bios_board-IsReady m n = board-IsReady (bios_board m n) refl refl
