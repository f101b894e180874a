-- ===== src/Shell/Round.antt =====
-- A round of `shell_run` in src/shell.c on a typed line of words, from the keys to the command.
use mathlib.Core.List.{append-nil, append_assoc}
use dug_os.Common.{
  ℕ, ◌+◌, ◌-◌, ◌≤◌, ◌<◌, ◌≡◌, ◌≢◌, refl, sym, ap, ◌∙◌, false, List, [], ◌∷◌, ◌++◌, Option, none,
  some, length, length-append, take, ◌==◌, if◌then◌else◌, arith,
}
use dug_os.Strings.{Bytes}
use dug_os.Console.{Out, Reply, answer, writeln, newline, say, ◌>>=◌}
use dug_os.Console.Reading.{All, value, typed}
use dug_os.Port.{Bus}
use dug_os.Shell.{cmd_len, max_args, shell_edit, shell_readline}
use dug_os.Shell.Line.{IsPrintable, shell_readline_lem}
use dug_os.Shell.Tokens.{AreWords, line_of, parse_cmd-line_of}
use dug_os.Shell.Run.{System, shell_dispatch, run_line, shell_round, prompt}

shell_edit_printable :
    (len : ℕ) (line : Bytes) (c : ℕ)
    → IsPrintable c
    → length line < len - 1
    → (shell_edit len line c).0 ≡ line ++ c ∷ []
unfolding shell_edit
shell_edit_printable len line c p h = ground arith

-- Printable keys that fit are the line.
typed_printable :
    (len : ℕ) (line keys : Bytes)
    → All IsPrintable keys
    → length line + length keys ≤ len - 1
    → typed (shell_edit len) line keys ≡ line ++ keys
typed_printable len line [] p h = sym (append-nil line)
typed_printable len line (c ∷ keys) p h =
    let one = shell_edit_printable len line c p.0 (omega arith) in
    let room : length (line ++ c ∷ []) + length keys ≤ len - 1 =
      omega (arith, length-append line (c ∷ [])) in
    ap (λ l. typed (shell_edit len) l keys) one
    ∙ typed_printable len (line ++ c ∷ []) keys p.1 room
    ∙ append_assoc line (c ∷ []) keys

printable_no_newline : (keys : Bytes) → All IsPrintable keys → All (λ c. c ≢ newline) keys
printable_no_newline [] h = tt
printable_no_newline (c ∷ keys) h = (ne c h.0, printable_no_newline keys h.1)
  where
    ne : (c : ℕ) → IsPrintable c → c ≢ newline
    ne c h e = absurd (omega (arith, h.0, e))

value-say : {A : Type 0} (o : List Out) (m : Option (Reply A)) → value (say o m) ≡ value m
value-say o none = refl
value-say o (some r) = refl

value-then :
    {A B : Type 0} (r : Reply A) (o : Option (Reply B)) → value (some r >>= λ _ _. o) ≡ value o
value-then r none = refl
value-then r (some q) = refl

value-read :
    {A B : Type 0} (m : Option (Reply A)) (f : A → List ℕ → Option (Reply B)) (a : A)
    (rest : List ℕ)
    → value m ≡ some (a, rest)
    → value (m >>= f) ≡ value (f a rest)
value-read none f a rest e = absurd (cc)
value-read (some r) f a rest e =
    let got : r.result ≡ a = cc in
    let left : r.keys ≡ rest = cc in rw (got, left) (value-then r (f a rest))

-- A last step that only writes.
value-ending :
    {A : Type 0} (m : Option (Reply A)) (o : A → List Out)
    → value (m >>= λ a rest. some (answer a rest (o a))) ≡ value m
value-ending none o = refl
value-ending (some r) o = refl

words_typed :
    (w : Bytes) (ws : List Bytes) → AreWords (w ∷ ws) → (length (line_of (w ∷ ws)) == 0) ≡ false
words_typed [] ws h = absurd h.0
words_typed (c ∷ w) [] h = ground arith
words_typed (c ∷ w) (v ∷ ws) h = ground arith

module _ {P : Type 0} (bus : Bus P) where
  run_words :
      (w : Bytes) (ws : List Bytes) (sys : System P) (rest : List ℕ)
      → AreWords (w ∷ ws)
      → value (run_line bus (line_of (w ∷ ws)) sys rest)
        ≡ value (shell_dispatch bus (take max_args (w ∷ ws)) sys rest)
  unfolding run_line
  run_words w ws sys rest h =
      let words = parse_cmd-line_of [] (w ∷ ws) h in
      let typed_some : (length (line_of (w ∷ ws)) == 0) ≡ false = words_typed w ws h in
      let some_words : (length (take max_args (w ∷ ws)) == 0) ≡ false = ground arith in
      rw (typed_some, words, some_words)
        (value-ending (shell_dispatch bus (take max_args (w ∷ ws)) sys rest)
          (λ sys'. if sys'.halted then [] else writeln "" []))

  -- A line of words with single blanks between them, typed in printable characters that fit the
  -- buffer, and '\n': a round of the loop runs the command with these words, no more than eight, on
  -- the keys behind the line, and it reads, keeps and returns what the command does.
  pub shell_round-line :
      (w : Bytes) (ws : List Bytes) (sys : System P) (rest : List ℕ)
      → AreWords (w ∷ ws)
      → All IsPrintable (line_of (w ∷ ws))
      → length (line_of (w ∷ ws)) < cmd_len
      → value (shell_round bus sys (line_of (w ∷ ws) ++ newline ∷ rest))
        ≡ value (shell_dispatch bus (take max_args (w ∷ ws)) sys rest)
  unfolding shell_round
  shell_round-line w ws sys rest h p fits =
      let line = line_of (w ∷ ws) in
      let read = (shell_readline_lem cmd_len line rest (printable_no_newline line p)).0 in
      let same = typed_printable cmd_len [] line p (omega arith) in
      value-say (prompt sys.dirs) _
      ∙ value-read (shell_readline cmd_len (line ++ newline ∷ rest)) _ line rest
          (read ∙ ap (λ l. some (l, rest)) same)
      ∙ run_words w ws sys rest h
