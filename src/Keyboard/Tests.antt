-- ===== src/Keyboard/Tests.antt =====
-- src/keyboard.c from boot, with the key A.
use dug_os.Common.{
  ℕ, ◌-◌, ◌≡◌, refl, Bool, true, false, List, [], ◌∷◌, ◌++◌, some, ltb, ◌==◌, if◌then◌else◌, length,
  length-replicate, get_or, drop, arith,
}
use dug_os.Port.{Bus}
use dug_os.Pic.Chip.{Which, master, slave, data_of, ready, Pair}
use dug_os.Pic.Init.{fresh_chip}
use dug_os.Pic.Mask.{IsReady, line_masked}
use dug_os.Pic.Board.{Board, board, board_pics, board-IsReady}
use dug_os.Isr.{bss_handlers}
use dug_os.Keyboard.Driver.{Machine, kbd_init, key_interrupts, kbd_isr_all, Ps2, kbd_init_lem}
use dug_os.Keyboard.{
  Kbd, buf_size, bss_kbd, kbd_put, kbd_isr, kbd_has_char, take_char, translate, kbd_getchar,
}
use dug_os.Keyboard.Queue.{IsValid, queue, kbd_put-queue, take_char-queue}
use dug_os.Keyboard.Keys.{
  Handles, types, after, AreSilent, kbd_isr-queue, translate_letter, kbd_getchar_wakes,
}

-- the scan code of A
abbrev key_a : ℕ
key_a = 0x1e

bss_kbd-IsValid : IsValid bss_kbd
unfolding bss_kbd
bss_kbd-IsValid = record {
  size = length-replicate {A = ℕ} buf_size 0;
  head_in = omega arith;
  tail_in = omega arith;
}

one_key_waits : kbd_has_char (kbd_put 7 bss_kbd) ≡ true
unfolding kbd_has_char kbd_put bss_kbd
one_key_waits = refl

nothing_waits : queue bss_kbd ≡ []
unfolding bss_kbd
nothing_waits = refl

kbd_put-queue_example :
    IsValid (kbd_put 7 bss_kbd)
    × (queue (kbd_put 7 bss_kbd) ≡ (
        if ltb (length (queue bss_kbd)) (buf_size - 1)
        then queue bss_kbd ++ 7 ∷ []
        else queue bss_kbd))
kbd_put-queue_example = kbd_put-queue 7 bss_kbd bss_kbd-IsValid

take_char-queue_example :
    IsValid (take_char (kbd_put 7 bss_kbd)).1
    × (queue (kbd_put 7 bss_kbd)
        ≡ (take_char (kbd_put 7 bss_kbd)).0 ∷ queue (take_char (kbd_put 7 bss_kbd)).1)
take_char-queue_example =
    take_char-queue (kbd_put 7 bss_kbd) (kbd_put-queue 7 bss_kbd bss_kbd-IsValid).0 one_key_waits

kbd_isr-queue_example : Handles key_a bss_kbd (kbd_isr key_a bss_kbd)
kbd_isr-queue_example = kbd_isr-queue key_a bss_kbd bss_kbd-IsValid

translate_letter_example : translate true false key_a ≡ translate false false key_a
translate_letter_example = translate_letter false key_a refl

-- Caps Lock is pressed and released, and types nothing.
abbrev caps_lock : List ℕ
caps_lock = 0x3a ∷ 0xba ∷ []

abbrev capital : Kbd
capital = after caps_lock bss_kbd

caps_lock-AreSilent : AreSilent caps_lock bss_kbd
unfolding kbd_isr translate bss_kbd
caps_lock-AreSilent = (refl, (refl, tt))

capital-types : types key_a capital ≡ true
unfolding kbd_isr translate bss_kbd
capital-types = refl

kbd_getchar_wakes_example :
    kbd_getchar bss_kbd (caps_lock ++ key_a ∷ [])
    ≡ some (
      translate capital.shift_held capital.caps_lock_on key_a,
      (take_char (kbd_isr key_a capital)).1,
      [],
    )
kbd_getchar_wakes_example =
    kbd_getchar_wakes caps_lock key_a [] bss_kbd bss_kbd-IsValid nothing_waits caps_lock-AreSilent
      capital-types

-- The controllers with a keyboard controller beside them.
abbrev Desk : Type 0
Desk = Board × List ℕ

abbrev desk : Bus Desk
desk = record {
  out_byte = λ port v s. (board.out_byte port v s.0, s.1);
  in_byte = λ port s.
      if port == 0x60
      then (get_or s.1 0 0, (s.0, drop 1 s.1))
      else ((board.in_byte port s.0).0, ((board.in_byte port s.0).1, s.1));
}

-- Reading the keyboard is no matter of the controllers, and the other ports none of the keyboard.
abbrev in_desk : ℕ → Bool → Desk → ℕ × Desk
in_desk port b s =
    if b
    then (get_or s.1 0 0, (s.0, drop 1 s.1))
    else ((board.in_byte port s.0).0, ((board.in_byte port s.0).1, s.1))

desk_pics : Pair desk
desk_pics = record {
  chip = λ w s. board_pics.chip w s.0;
  writes = λ w port v s h k. board_pics.writes w port v s.0 h k;
  reads = read_at;
  keeps = λ w port s. kept w port (port == 0x60) s;
  mask_size = λ w s. board_pics.mask_size w s.0;
}
  where
    read_at :
        (w : Which) (s : Desk)
        → (board_pics.chip w s.0).stage ≡ ready
        → (desk.in_byte (data_of w) s).0 ≡ (board_pics.chip w s.0).mask
    read_at master s h = board_pics.reads master s.0 h
    read_at slave s h = board_pics.reads slave s.0 h

    kept :
        (w : Which) (port : ℕ) (b : Bool) (s : Desk)
        → board_pics.chip w (in_desk port b s).1.0 ≡ board_pics.chip w s.0
    kept w port true s = refl
    kept w port false s = board_pics.keeps w port s.0

desk_ps2 : Ps2 desk
desk_ps2 = record {
  pending = λ s. s.1;
  gives = λ sc codes s e. rw (e) (refl, refl);
  keeps_out = λ port v s h k. refl;
  keeps_in = λ port s h. let no : (port == 0x60) ≡ false = ground arith in rw (no) refl;
}

-- every line masked, and "a" typed
abbrev quiet_machine : Machine Desk
quiet_machine = record {
  kbd = bss_kbd;
  handlers = bss_handlers;
  ports = ((fresh_chip 0x20 0xff, fresh_chip 0x28 0xff), 0x1e ∷ 0x9e ∷ []);
}

quiet_machine-IsReady : IsReady desk desk_pics quiet_machine.ports
unfolding desk_pics
quiet_machine-IsReady = board-IsReady quiet_machine.ports.0 refl refl

kbd_init_lem_example :
    (line_masked desk desk_pics 1 (kbd_init desk quiet_machine).ports ≡ false)
    × ((key_interrupts desk 2 (kbd_init desk quiet_machine)).kbd
        ≡ kbd_isr_all (0x1e ∷ 0x9e ∷ []) bss_kbd)
unfolding desk_ps2
kbd_init_lem_example =
    kbd_init_lem desk desk_ps2 desk_pics (0x1e ∷ 0x9e ∷ []) quiet_machine quiet_machine-IsReady refl
      refl (omega arith, (omega arith, tt))
