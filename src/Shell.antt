-- ===== src/Shell.antt =====
-- src/shell.c: the reading of a command line and its splitting into tokens.
pub mod Line
pub mod Tokens
pub mod Run
pub mod Keeps
pub mod Round
pub mod Session
mod Tests
use dug_os.Common.{
  ℕ, zero, suc, ◌+◌, ◌-◌, Bool, true, false, ◌&&◌, ◌||◌, List, [], ◌∷◌, ◌++◌, Option, ltb, leb,
  ◌==◌, if◌then◌else◌, take, length,
}
use dug_os.Strings.{Bytes, head_byte}
use dug_os.Console.{Out, Reply, putchar, backspace, tab, readline_by}

abbrev pub cmd_len : ℕ
cmd_len = 256

abbrev pub max_args : ℕ
max_args = 8

-- The body of the loop of `readline` in shell.c, for a key that is not '\n'.
unfoldable pub shell_edit : ℕ → Bytes → ℕ → Bytes × List Out
shell_edit len line c =
    if c == backspace
    then if ltb 0 (length line)
      then (take (length line - 1) line, putchar backspace ∷ [])
      else (line, [])
    else if leb 0x20 c && leb c 0x7e && ltb (length line) (len - 1)
    then (line ++ c ∷ [], putchar c ∷ [])
    else (line, [])

-- `readline` of shell.c. The result is the string that it leaves in `buf`.
unfoldable pub shell_readline : ℕ → List ℕ → Option (Reply Bytes)
unfolding shell_edit
shell_readline len keys = readline_by (shell_edit len) [] keys

abbrev pub is_blank : ℕ → Bool
is_blank c = c == b' ' || c == tab

-- `while (*p == ' ' || *p == '\t') p++;`
unfoldable pub skip_blanks : Bytes → Bytes
skip_blanks [] = []
skip_blanks (c ∷ p) = if is_blank c then skip_blanks p else c ∷ p

-- The token at `p`: the bytes up to the next blank or the NUL.
unfoldable pub token : Bytes → Bytes
token [] = []
token (c ∷ p) = if c == 0 || is_blank c then [] else c ∷ token p

-- `while (*p && *p != ' ' && *p != '\t') p++;`, and `if (*p) *p++ = '\0';`
unfoldable pub after_token : Bytes → Bytes
after_token [] = []
after_token (c ∷ p) = if c == 0 then c ∷ p else if is_blank c then p else after_token p

-- The loop of `parse_cmd`, for the tokens that `argv` still has room for.
unfoldable pub parse_args : ℕ → Bytes → List Bytes
parse_args zero p = []
parse_args (suc n) p =
    let q = skip_blanks p in
    let rest = parse_args n (after_token q) in
    if head_byte p == 0 then [] else if head_byte q == 0 then [] else token q ∷ rest

-- `parse_cmd`: the strings at `argv[0..argc)`.
unfoldable pub parse_cmd : Bytes → List Bytes
unfolding parse_args
parse_cmd buf = parse_args max_args buf
