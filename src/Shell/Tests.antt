-- ===== src/Shell/Tests.antt =====
-- src/shell.c at "cat a".
use dug_os.Common.{ℕ, true, false, leb, ◌≡◌, refl, sym, List, [], ◌∷◌, ◌++◌, some, take, arith}
use mathlib.Core.Path.{subst}
use dug_os.Strings.{Bytes, kstrlen, kstrcmp, kstrncpy}
use dug_os.Dir.{build_path, build_relative, with_separator, dir_init, bss_dirs}
use dug_os.Dir.Command.{mkdir_path, dir_mkdir}
use dug_os.Console.{newline, backspace, readline_by}
use dug_os.Console.Reading.{value, typed}
use dug_os.Shell.{
  max_args, shell_edit, shell_readline, parse_cmd, parse_args, skip_blanks, token, after_token,
}
use dug_os.Shell.Line.{IsLine, IsPrintable, shell_readline_lem}
use dug_os.Shell.Tokens.{line_of, parse_cmd-line_of}
use dug_os.Console.Ensures.{Ensures, Returns}
use dug_os.Strings.{codes}
use dug_os.Pic.Init.{fresh_chip}
use dug_os.Pic.Board.{Board, board, board_pics}
use dug_os.Fs.Session.{boot-IsValid}
use dug_os.Dir.Valid.{dir_init-IsValid}
use dug_os.Shell.Run.{System, else_if, shell_dispatch, run_line, shell_round}
use dug_os.Shell.Keeps.{AreValid, Fits, LineFits, Kept, shell_dispatch-Kept}
use dug_os.Shell.Round.{shell_round-line}
use dug_os.Shell.Session.{
  at_boot, Reachable, boot, round, Reachable-AreValid, IsOff, shell_dispatch-shutdown,
}

-- a key that is not printable, and a correction
abbrev typed_keys : List ℕ
typed_keys = b'l' ∷ 27 ∷ b'a' ∷ backspace ∷ b's' ∷ []

shell_readline_lem_example :
    (value (shell_readline 256 (typed_keys ++ newline ∷ []))
      ≡ some (typed (shell_edit 256) [] typed_keys, []))
    × IsLine 256 (typed (shell_edit 256) [] typed_keys)
shell_readline_lem_example =
    shell_readline_lem 256 typed_keys []
      (omega arith, (omega arith, (omega arith, (omega arith, (omega arith, tt)))))

abbrev cat_a : List Bytes
cat_a = (b'c' ∷ b'a' ∷ b't' ∷ []) ∷ (b'a' ∷ []) ∷ []

-- with bytes of an older line behind the NUL
parse_cmd-line_of_example : parse_cmd (line_of cat_a ++ 0 ∷ b'x' ∷ b'y' ∷ []) ≡ take max_args cat_a
parse_cmd-line_of_example =
    parse_cmd-line_of (b'x' ∷ b'y' ∷ []) cat_a ((refl, (refl, (refl, tt))), ((refl, tt), tt))

-- every line but the keyboard's masked
abbrev devices : Board
devices = (fresh_chip 0x20 0xfd, fresh_chip 0x28 0xff)

abbrev booted : System Board
booted = at_boot devices

abbrev mkdir_a : List Bytes
mkdir_a = codes "mkdir" ∷ codes "a" ∷ []

mkdir_a-Fits : Fits mkdir_a booted
unfolding build_path build_relative with_separator kstrncpy kstrlen kstrcmp dir_init bss_dirs
mkdir_a-Fits made = omega arith

shell_dispatch-Kept_example : Ensures (Kept board booted) (shell_dispatch board mkdir_a booted [])
shell_dispatch-Kept_example =
    shell_dispatch-Kept board mkdir_a booted [] (boot-IsValid, dir_init-IsValid) mkdir_a-Fits

shell_round-line_example :
    value (shell_round board booted (line_of cat_a ++ newline ∷ []))
    ≡ value (shell_dispatch board (take max_args cat_a) booted [])
shell_round-line_example =
    shell_round-line board (b'c' ∷ b'a' ∷ b't' ∷ []) ((b'a' ∷ []) ∷ []) booted []
      ((refl, (refl, (refl, tt))), ((refl, tt), tt))
      (
        p b'c' refl refl,
        (p b'a' refl refl, (p b't' refl refl, (p b' ' refl refl, (p b'a' refl refl, tt)))),
      )
      (omega arith)
  where
    p : (c : ℕ) → leb 0x20 c ≡ true → leb c 0x7e ≡ true → IsPrintable c
    p c low high = (ground arith, ground arith)

-- "mkdir a", and the command
abbrev keys_mkdir_a : List ℕ
keys_mkdir_a = codes "mkdir a" ++ newline ∷ []

mkdir_a_typed : parse_cmd (codes "mkdir a" ++ 0 ∷ []) ≡ mkdir_a
unfolding parse_cmd parse_args skip_blanks token after_token
mkdir_a_typed = refl

keys_mkdir_a-LineFits : LineFits keys_mkdir_a booted
unfolding shell_readline shell_edit readline_by
keys_mkdir_a-LineFits = subst (λ argv. Fits argv booted) (sym mkdir_a_typed) mkdir_a-Fits

abbrev after_mkdir : System Board
after_mkdir = record booted {
  dirs = (mkdir_path (build_path (codes "a") booted.dirs) booted.dirs).0;
}

mkdir_a_round : Reachable board devices after_mkdir
unfolding shell_round run_line shell_readline shell_edit readline_by parse_cmd parse_args
    skip_blanks token after_token shell_dispatch else_if kstrcmp dir_mkdir kstrlen dir_init
mkdir_a_round = round keys_mkdir_a _ boot refl keys_mkdir_a-LineFits refl

Reachable-AreValid_example :
    AreValid after_mkdir × (after_mkdir.halted ≡ false → after_mkdir.ports ≡ devices)
Reachable-AreValid_example = Reachable-AreValid board mkdir_a_round

shell_dispatch-shutdown_example :
    Returns (IsOff board board_pics booted) (shell_dispatch board (codes "shutdown" ∷ []) booted [])
shell_dispatch-shutdown_example = shell_dispatch-shutdown board board_pics [] booted []
