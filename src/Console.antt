-- ===== src/Console.antt =====
-- The interactive console as the file, directory and shell code uses it: the characters that
-- `kbd_getchar` returns, as a list, and the calls of src/vga.c that the code makes, as a list in
-- order (`Vga` models these). `none` is a read that waits for a key for ever.
pub mod Reading
pub mod Ensures
use dug_os.Common.{
  ℕ, zero, suc, ◌-◌, String, Bool, true, false, ◌&&◌, List, [], ◌∷◌, ◌++◌, Option, none, some, ltb,
  leb, ◌==◌, if◌then◌else◌, length, take,
}
use dug_os.Strings.{Bytes}

pub data Color : Type 0 where
  black light_green light_cyan light_red white light_grey yellow : Color

-- One call of src/vga.c. `write` takes a text of the source, `write_bytes` a string in memory.
pub data Out : Type 0 where
  set_color : Color → Out
  putchar : ℕ → Out
  write : String → Out
  write_bytes : Bytes → Out
  write_dec : ℕ → Out
  write_hex : ℕ → Out
  clear : Out

abbrev pub newline : ℕ
newline = 10

abbrev pub backspace : ℕ
backspace = 8

abbrev pub tab : ℕ
tab = 9

-- `vga_writeln` of a text of the source.
abbrev pub writeln : String → List Out → List Out
writeln s out = write s ∷ putchar newline ∷ out

-- `vga_writeln` of a string in memory.
abbrev pub writeln_bytes : Bytes → List Out → List Out
writeln_bytes s out = write_bytes s ∷ putchar newline ∷ out

-- A message in red, and the return to white: the frame of every error report.
abbrev pub in_red : List Out → List Out
in_red out = set_color light_red ∷ (out ++ set_color white ∷ [])

abbrev pub in_green : List Out → List Out
in_green out = set_color light_green ∷ (out ++ set_color white ∷ [])

abbrev pub in_cyan : List Out → List Out
in_cyan out = set_color light_cyan ∷ (out ++ set_color white ∷ [])

-- What one call returns: its value, the keys that it left, and the calls of vga.c that it made.
pub record Reply (A : Type 0) : Type 0 where
  pub result : A
  pub keys : List ℕ
  pub out : List Out

abbrev pub answer : {A : Type 0} → A → List ℕ → List Out → Reply A
answer a ks o = record { result = a; keys = ks; out = o }

-- A fallible call followed by one that goes on from its value and its keys.
infixl 5 ◌>>=◌
abbrev pub ◌>>=◌ :
    {A B : Type 0} → Option (Reply A) → (A → List ℕ → Option (Reply B)) → Option (Reply B)
none >>= f = none
some r >>= f = elim (f r.result r.keys) [
  | none ↦ none
  | some q ↦ some (record q { out = r.out ++ q.out })
]

-- The calls of vga.c that stand before a call.
abbrev pub say : {A : Type 0} → List Out → Option (Reply A) → Option (Reply A)
say o none = none
say o (some r) = some (record r { out = o ++ r.out })

-- The body of the loop of `readline` in fs.c and dir.c, for a key that is not '\n': the line that
-- it leaves, and what it echoes. The line is `buf[0..n)`.
unfoldable pub edit : ℕ → Bytes → ℕ → Bytes × List Out
edit len line c =
    if c == backspace
    then (if ltb 0 (length line)
        then (take (length line - 1) line, putchar backspace ∷ [])
        else (line, []))
    else if ltb (length line) (len - 1)
    then (line ++ c ∷ [], putchar c ∷ [])
    else (line, [])

-- The loop of the three `readline`s, over the body for keys that are not '\n'.
unfoldable pub readline_by : (Bytes → ℕ → Bytes × List Out) → Bytes → List ℕ → Option (Reply Bytes)
readline_by body line [] = none
readline_by body line (c ∷ keys) = elim (c == newline) [
  | true ↦ some (answer line keys (putchar newline ∷ []))
  | false ↦ let (line', o) = body line c in say o (readline_by body line' keys)
]

-- `readline` of fs.c and dir.c. The result is the string that it leaves in `buf`.
unfoldable pub readline : ℕ → List ℕ → Option (Reply Bytes)
unfolding readline_by edit
readline len keys = readline_by (edit len) [] keys
