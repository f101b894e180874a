-- ===== src/Shell/Line.antt =====
-- The command line that `readline` of src/shell.c leaves.
use dug_os.Common.{
  ℕ, zero, suc, ◌-◌, ◌≤◌, ◌≡◌, ◌≢◌, List, [], ◌∷◌, ◌++◌, some, length, take, length-take,
  length-append, arith, ◌&&◌, ltb, leb, ◌==◌, if_cases,
}
use dug_os.Strings.{Bytes}
use dug_os.Console.{Out, newline, backspace}
use dug_os.Console.Reading.{All, value, typed, readline_by_lem}
use dug_os.Shell.{shell_edit, shell_readline}

abbrev pub IsPrintable : ℕ → Type 0
IsPrintable c = (0x20 ≤ c) × (c ≤ 0x7e)

take-All : (P : ℕ → Type 0) (n : ℕ) (xs : List ℕ) → All P xs → All P (take n xs)
take-All P zero xs h = tt
take-All P (suc n) [] h = tt
take-All P (suc n) (x ∷ xs) h = (h.0, take-All P n xs h.1)

append-All : (P : ℕ → Type 0) (xs : List ℕ) (x : ℕ) → All P xs → P x → All P (xs ++ x ∷ [])
append-All P [] x h p = (p, tt)
append-All P (y ∷ xs) x h p = (h.0, append-All P xs x h.1 p)

-- A line that fits the buffer and can be shown.
abbrev pub IsLine : ℕ → Bytes → Type 0
IsLine len line = (length line ≤ len - 1) × All IsPrintable line

shell_edit-IsLine :
    (len : ℕ) (line : Bytes) (c : ℕ) → IsLine len line → IsLine len (shell_edit len line c).0
unfolding shell_edit
shell_edit-IsLine len line c h =
    let P : Bytes × List Out → Type 0 = λ (r : Bytes × List Out). IsLine len r.0 in
    if_cases P (c == backspace) _ _
      (λ back.
        if_cases P (ltb 0 (length line)) _ _
          (λ some_there. (
            omega (arith, h.0, length-take (length line - 1) line),
            take-All IsPrintable (length line - 1) line h.1,
          ))
          (λ empty. h))
      (λ key.
        if_cases P (leb 0x20 c && leb c 0x7e && ltb (length line) (len - 1)) _ _
          (λ shown. (
            ground (arith, length-append line (c ∷ [])),
            append-All IsPrintable line c h.1 (ground arith, ground arith),
          ))
          (λ dropped. h))

typed-IsLine :
    (len : ℕ) (line : Bytes) (keys : List ℕ)
    → IsLine len line
    → IsLine len (typed (shell_edit len) line keys)
typed-IsLine len line [] h = h
typed-IsLine len line (c ∷ keys) h =
    typed-IsLine len (shell_edit len line c).0 keys (shell_edit-IsLine len line c h)

-- `readline` of shell.c takes the keys up to the first '\n' and no more; the line that it returns fits its
-- buffer with its NUL, and has printable characters only, whatever is typed.
pub shell_readline_lem :
    (len : ℕ) (keys rest : List ℕ)
    → All (λ c. c ≢ newline) keys
    → (value (shell_readline len (keys ++ newline ∷ rest))
        ≡ some (typed (shell_edit len) [] keys, rest))
      × IsLine len (typed (shell_edit len) [] keys)
unfolding shell_readline
shell_readline_lem len keys rest h =
    (readline_by_lem (shell_edit len) [] keys rest h, typed-IsLine len [] keys (omega arith, tt))
