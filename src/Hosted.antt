-- ===== src/Hosted.antt =====
-- dug_os.c: the prototype of the system as a program on a host. The texts that it prints, what it uses of
-- the C library's strings and streams, and its command line.
pub mod Boot
pub mod Help
pub mod Slots
pub mod Command
pub mod Input
pub mod Fuel
pub mod Session
pub mod Parse
pub mod Files
pub mod Typed
pub mod Copies
mod Tests
use dug_os.Common.{
  ℕ, zero, suc, ◌+◌, ◌-◌, Bool, true, false, ◌&&◌, ◌||◌, String, List, [], ◌∷◌, ◌++◌, Option, none,
  some, ◌==◌, if◌then◌else◌, length, get_or, take,
}
use dug_os.Common.Int.{ℤ}
use dug_os.Strings.{Bytes, head_byte}
use dug_os.Shell.{skip_blanks}

-- A piece of what `printf` writes: a text of the format, `%s`, `%d`, or `%-10s`.
pub data Print : Type 0 where
  text : String → Print
  str : Bytes → Print
  num : ℤ → Print
  name : String → Print

-- `fgets` with room for `n` more bytes: the line, and the input behind it.
unfoldable pub fgets_from : ℕ → Bytes → Bytes × Bytes
fgets_from zero input = ([], input)
fgets_from (suc n) [] = ([], [])
fgets_from (suc n) (c ∷ input) =
    let (line, rest) = fgets_from n input in if c == 10 then (c ∷ [], input) else (c ∷ line, rest)

-- `fgets(buf, size, stdin)`. `none` is a null pointer.
unfoldable pub fgets : ℕ → Bytes → Option (Bytes × Bytes)
unfolding fgets_from
fgets size [] = none
fgets size (c ∷ input) = some (fgets_from (size - 1) (c ∷ input))

-- The blanks that `trim` drops at the end.
abbrev pub is_space : ℕ → Bool
is_space c = c == b' ' || c == 9 || c == 10 || c == 13

-- The loop of `trim`, with `end` at the index `n` of `s`: where it stops.
unfoldable pub trim_end : ℕ → Bytes → ℕ
trim_end zero s = zero
trim_end (suc n) s =
    let further = trim_end n s in if is_space (get_or s (suc n) 0) then further else suc n

-- `trim` with the string behind its leading blanks: what stands at the result, and in the buffer.
unfoldable pub trim_from : Bytes → Bytes → Bytes × Bytes
unfolding trim_end
trim_from line [] = ([], line)
trim_from line (c ∷ p) =
    let kept = take (trim_end (length p) (c ∷ p) + 1) (c ∷ p) in
    (kept, take (length line - length (c ∷ p)) line ++ kept)

-- `trim` of a string.
unfoldable pub trim : Bytes → Bytes × Bytes
unfolding trim_from
trim line = trim_from line (skip_blanks line)

-- The delimiters of `parse_cmd`.
abbrev pub is_delim : ℕ → Bool
is_delim c = c == b' ' || c == 9 || c == 10

-- `strtok` behind the delimiters: the rest of the string there.
unfoldable pub skip_delims : Bytes → Bytes
skip_delims [] = []
skip_delims (c ∷ p) = if is_delim c then skip_delims p else c ∷ p

-- The token that `strtok` returns there, and the place from which it goes on.
unfoldable pub tok : Bytes → Bytes
tok [] = []
tok (c ∷ p) = if is_delim c then [] else c ∷ tok p

unfoldable pub after_tok : Bytes → Bytes
after_tok [] = []
after_tok (c ∷ p) = if is_delim c then p else after_tok p

-- The loop of `parse_cmd`, for the tokens that `argv` still has room for.
unfoldable pub tok_args : ℕ → Bytes → List Bytes
unfolding skip_delims tok after_tok
tok_args zero p = []
tok_args (suc n) p =
    let q = skip_delims p in
    let rest = tok_args n (after_tok q) in if head_byte q == 0 then [] else tok q ∷ rest

abbrev pub max_args : ℕ
max_args = 8

-- `parse_cmd` of dug_os.c, on a string.
unfoldable pub host_parse_cmd : Bytes → List Bytes
unfolding tok_args
host_parse_cmd input = tok_args max_args input
