-- ===== src/Keyboard.antt =====
-- src/keyboard.c: the scan code tables, the modifier keys, and the ring buffer between the interrupt
-- handler and its reader. `Queue` shows that the ring is a bounded queue, `Keys` what the keys type.
pub mod Queue
pub mod Keys
pub mod Driver
mod Tests
use dug_os.Common.{
  ℕ, zero, suc, ◌+◌, ◌-◌, ◌%◌, Bool, true, false, not, ◌&&◌, ◌||◌, List, [], ◌∷◌, Option, none,
  some, leb, ◌==◌, if◌then◌else◌, get_or, set, replicate,
}

abbrev pub buf_size : ℕ
buf_size = 256

-- The static variables of keyboard.c.
pub record Kbd : Type 0 where
  pub buf : List ℕ
  pub head : ℕ
  pub tail : ℕ
  pub shift_held : Bool
  pub caps_lock_on : Bool

abbrev pub scancode_normal : List ℕ
scancode_normal =
    0
    ∷ 27
    ∷ b'1'
    ∷ b'2'
    ∷ b'3'
    ∷ b'4'
    ∷ b'5'
    ∷ b'6'
    ∷ b'7'
    ∷ b'8'
    ∷ b'9'
    ∷ b'0'
    ∷ b'-'
    ∷ b'='
    ∷ 8
    ∷ 9
    ∷ b'q'
    ∷ b'w'
    ∷ b'e'
    ∷ b'r'
    ∷ b't'
    ∷ b'y'
    ∷ b'u'
    ∷ b'i'
    ∷ b'o'
    ∷ b'p'
    ∷ b'['
    ∷ b']'
    ∷ 10
    ∷ 0
    ∷ b'a'
    ∷ b's'
    ∷ b'd'
    ∷ b'f'
    ∷ b'g'
    ∷ b'h'
    ∷ b'j'
    ∷ b'k'
    ∷ b'l'
    ∷ b';'
    ∷ 39
    ∷ b'`'
    ∷ 0
    ∷ 92
    ∷ b'z'
    ∷ b'x'
    ∷ b'c'
    ∷ b'v'
    ∷ b'b'
    ∷ b'n'
    ∷ b'm'
    ∷ b','
    ∷ b'.'
    ∷ b'/'
    ∷ 0
    ∷ b'*'
    ∷ 0
    ∷ 32
    ∷ replicate 70 0

abbrev pub scancode_shift : List ℕ
scancode_shift =
    0
    ∷ 27
    ∷ b'!'
    ∷ b'@'
    ∷ b'#'
    ∷ b'$'
    ∷ b'%'
    ∷ b'^'
    ∷ b'&'
    ∷ b'*'
    ∷ b'('
    ∷ b')'
    ∷ b'_'
    ∷ b'+'
    ∷ 8
    ∷ 9
    ∷ b'Q'
    ∷ b'W'
    ∷ b'E'
    ∷ b'R'
    ∷ b'T'
    ∷ b'Y'
    ∷ b'U'
    ∷ b'I'
    ∷ b'O'
    ∷ b'P'
    ∷ b'{'
    ∷ b'}'
    ∷ 10
    ∷ 0
    ∷ b'A'
    ∷ b'S'
    ∷ b'D'
    ∷ b'F'
    ∷ b'G'
    ∷ b'H'
    ∷ b'J'
    ∷ b'K'
    ∷ b'L'
    ∷ b':'
    ∷ b'"'
    ∷ b'~'
    ∷ 0
    ∷ b'|'
    ∷ b'Z'
    ∷ b'X'
    ∷ b'C'
    ∷ b'V'
    ∷ b'B'
    ∷ b'N'
    ∷ b'M'
    ∷ b'<'
    ∷ b'>'
    ∷ b'?'
    ∷ 0
    ∷ b'*'
    ∷ 0
    ∷ 32
    ∷ replicate 70 0

unfoldable pub kbd_put : ℕ → Kbd → Kbd
kbd_put c k =
    let next_head = (k.head + 1) % buf_size in
    if not (next_head == k.tail) then record k { buf = set k.buf k.head c; head = next_head } else k

-- `^` of two flags.
abbrev pub xor : Bool → Bool → Bool
xor a b = if a then not b else b

-- The character of a make code under Shift and Caps Lock, 0 for none.
unfoldable pub translate : Bool → Bool → ℕ → ℕ
translate shift caps sc =
    let c = (if shift then get_or scancode_shift sc 0 else get_or scancode_normal sc 0) in
    if leb b'a' c && leb c b'z'
    then if xor caps shift then c - b'a' + b'A' else c
    else if leb b'A' c && leb c b'Z'
    then if xor caps shift then c - b'A' + b'a' else c
    else c

-- `kbd_isr` with the scan code that the port gives.
unfoldable pub kbd_isr : ℕ → Kbd → Kbd
unfolding kbd_put translate
kbd_isr sc k =
    let make = sc % 128 in
    let c = translate k.shift_held k.caps_lock_on sc in
    if leb 128 sc
    then if make == 0x2a || make == 0x36 then record k { shift_held = false } else k
    else if sc == 0x2a || sc == 0x36
    then record k { shift_held = true }
    else if sc == 0x3a
    then record k { caps_lock_on = not k.caps_lock_on }
    else if c == 0
    then k
    else kbd_put c k

unfoldable pub kbd_has_char : Kbd → Bool
kbd_has_char k = not (k.head == k.tail)

-- `kbd_getchar` behind its loop.
unfoldable pub take_char : Kbd → ℕ × Kbd
take_char k = (get_or k.buf k.tail 0, record k { tail = (k.tail + 1) % buf_size })

-- `kbd_getchar`, with the scan codes of the interrupts that come while it halts: the character, and the
-- scan codes that are left. `none` halts for ever.
unfoldable pub kbd_getchar : Kbd → List ℕ → Option (ℕ × Kbd × List ℕ)
unfolding kbd_has_char take_char kbd_isr
kbd_getchar k [] = if kbd_has_char k then some ((take_char k).0, (take_char k).1, []) else none
kbd_getchar k (sc ∷ codes) =
    let rest = kbd_getchar (kbd_isr sc k) codes in
    if kbd_has_char k then some ((take_char k).0, (take_char k).1, sc ∷ codes) else rest

-- The state at boot.
unfoldable pub bss_kbd : Kbd
bss_kbd = record {
  buf = replicate buf_size 0;
  head = 0;
  tail = 0;
  shift_held = false;
  caps_lock_on = false;
}
