-- ===== src/Shell/Run.antt =====
-- src/shell.c: the commands of the shell itself, the dispatch of a command line, and a round of the
-- main loop. The state is that of fs.c and dir.c, the devices at the ports, and whether `cmd_shutdown`
-- has halted the machine.
use dug_os.Common.{
  ℕ, ◌+◌, Bool, true, false, ◌||◌, String, List, [], ◌∷◌, ◌++◌, Option, none, some, ◌==◌,
  if◌then◌else◌, length, get_or,
}
use dug_os.Common.Int.{ℤ, pos, negsuc, is_zero}
use dug_os.Strings.{Bytes, codes, kstrcmp}
use dug_os.Console.{
  Out, Reply, answer, say, ◌>>=◌, set_color, putchar, write, write_bytes, write_dec, clear, writeln,
  writeln_bytes, light_cyan, white, newline, in_red, in_green,
}
use dug_os.Port.{Bus, outb}
use dug_os.Pic.{pic_restore}
use dug_os.Fs.{Fs}
use dug_os.Fs.Command.{fs_write, fs_read, fs_edit, fs_delete, fs_rename, fs_copy}
use dug_os.Dir.{Dirs, root_path, dir_getcwd}
use dug_os.Dir.Command.{dir_mkdir, dir_cd, dir_rmdir, dir_ls}
use dug_os.Shell.{cmd_len, shell_readline, parse_cmd}

pub record BootProc : Type 0 where
  pub proc_nr : ℤ
  pub proc_name : String

abbrev pub boot_image : List BootProc
boot_image =
    record { proc_nr = negsuc 3; proc_name = "HARDWARE" }
    ∷ record { proc_nr = negsuc 2; proc_name = "IDLE" }
    ∷ record { proc_nr = negsuc 1; proc_name = "CLOCK" }
    ∷ record { proc_nr = negsuc 0; proc_name = "SYSTEM" }
    ∷ record { proc_nr = pos 0; proc_name = "PM" }
    ∷ record { proc_nr = pos 1; proc_name = "FS" }
    ∷ record { proc_nr = pos 2; proc_name = "TTY" }
    ∷ record { proc_nr = pos 3; proc_name = "INIT" }
    ∷ []

unfoldable pub cmd_help : List Out
cmd_help =
    write ""
    ∷ putchar newline
    ∷ set_color light_cyan
    ∷ write "  +------------------------------------------------------------+"
    ∷ putchar newline
    ∷ write "  |          DugOS v1.0  --  Command Reference                 |"
    ∷ putchar newline
    ∷ write "  +------------------------------------------------------------+"
    ∷ putchar newline
    ∷ set_color white
    ∷ write ""
    ∷ putchar newline
    ∷ write "  [ General ]"
    ∷ putchar newline
    ∷ write "    help                  Show this help screen"
    ∷ putchar newline
    ∷ write "    cls / clear           Clear the screen"
    ∷ putchar newline
    ∷ write "    pwd                   Print current directory"
    ∷ putchar newline
    ∷ write "    whoami                Show current user"
    ∷ putchar newline
    ∷ write "    shutdown              Shut down DugOS"
    ∷ putchar newline
    ∷ write ""
    ∷ putchar newline
    ∷ write "  [ File Operations ]"
    ∷ putchar newline
    ∷ write "    fwrite <file>         Create or overwrite a file"
    ∷ putchar newline
    ∷ write "    fread  <file>         Read and display a file"
    ∷ putchar newline
    ∷ write "    cat    <file>         Same as fread"
    ∷ putchar newline
    ∷ write "    fedit  <file>         Append content to a file"
    ∷ putchar newline
    ∷ write "    fdel   <file>         Delete a file"
    ∷ putchar newline
    ∷ write "    rename <old> <new>    Rename a file"
    ∷ putchar newline
    ∷ write "    copy   <src> <dst>    Copy a file"
    ∷ putchar newline
    ∷ write ""
    ∷ putchar newline
    ∷ write "  [ Directory Operations ]"
    ∷ putchar newline
    ∷ write "    mkdir  <dir>          Create a directory"
    ∷ putchar newline
    ∷ write "    cd     <dir>          Change directory (use '..' for parent)"
    ∷ putchar newline
    ∷ write "    rmdir  <dir>          Delete an empty directory"
    ∷ putchar newline
    ∷ write "    ls / dir              List current directory"
    ∷ putchar newline
    ∷ write ""
    ∷ putchar newline
    ∷ set_color light_cyan
    ∷ write "  +------------------------------------------------------------+"
    ∷ putchar newline
    ∷ set_color white
    ∷ write ""
    ∷ putchar newline
    ∷ []

abbrev pub abs : ℤ → ℕ
abs (pos n) = n
abs (negsuc n) = n + 1

abbrev pub is_hardware : ℤ → Bool
is_hardware (pos n) = false
is_hardware (negsuc n) = n == 3

-- The loop of `cmd_shutdown` over the boot image.
unfoldable pub stopping : List BootProc → List Out
stopping [] = []
stopping (p ∷ procs) =
    if is_hardware p.proc_nr
    then stopping procs
    else write "  [kernel]   -> stopping "
      ∷ write p.proc_name
      ∷ write " (proc "
      ∷ write_dec (abs p.proc_nr)
      ∷ writeln ")" (stopping procs)

-- What `cmd_shutdown` writes.
unfoldable pub shutdown_text : List Out
unfolding stopping
shutdown_text =
    writeln "" (
      set_color light_cyan
      ∷ writeln "  +----------------------------------------------------------+" (
          writeln "  |                   DugOS Shutdown                         |" (
            writeln "  +----------------------------------------------------------+" (
              set_color white
              ∷ writeln "" (writeln "  [kernel] Sending SIGKSTOP to all system processes..." [])))))
    ++ stopping boot_image
    ++ writeln "  [kernel] Flushing file system buffers ... OK" (
        writeln "  [kernel] Stopping clock task          ... OK" (
          writeln "  [kernel] Masking all hardware IRQs    ... OK" (
            writeln "  [kernel] intr_init: restoring BIOS defaults ... OK"
              (writeln "" (writeln "  DugOS has shut down. Goodbye, dug." (writeln "" []))))))

-- The state of the shell. `ports` are the devices as its own code leaves them, without what the
-- interrupts of the keyboard do while it waits for keys.
pub record System (P : Type 0) : Type 0 where
  pub fs : Fs
  pub dirs : Dirs
  pub ports : P
  pub halted : Bool

-- An `if` with `else if`s: the first branch whose test holds, or the last one.
unfoldable pub else_if : {A : Type 0} → List (Bool × A) → A → A
else_if [] other = other
else_if ((test, branch) ∷ rest) other = if test then branch else else_if rest other

-- `kstrcmp(cmd, "...") == 0`
abbrev pub is : Bytes → String → Bool
is cmd name = is_zero (kstrcmp cmd (codes name))

-- `argc > i ? argv[i] : ...`
abbrev pub arg : List Bytes → ℕ → Bytes → Bytes
arg argv i other = get_or argv i other

-- The prompt of `shell_run`.
abbrev pub prompt : Dirs → List Out
prompt dirs = in_green (write "  dug@os:" ∷ write_bytes (dir_getcwd dirs) ∷ write "$ " ∷ [])

-- How a command of fs.c or dir.c ends.
abbrev pub with_fs : {P : Type 0} → System P → Option (Reply Fs) → Option (Reply (System P))
with_fs sys none = none
with_fs sys (some r) = some (answer (record sys { fs = r.result }) r.keys r.out)

abbrev pub with_rows : {P : Type 0} → System P → Option (Reply Dirs) → Option (Reply (System P))
with_rows sys none = none
with_rows sys (some r) = some (answer (record sys { dirs = r.result }) r.keys r.out)

abbrev pub with_dirs :
    {P : Type 0} → System P → List ℕ → Dirs × List Out → Option (Reply (System P))
with_dirs sys keys r = some (answer (record sys { dirs = r.0 }) keys r.1)

abbrev pub shows : {P : Type 0} → System P → List ℕ → List Out → Option (Reply (System P))
shows sys keys out = some (answer sys keys out)

abbrev pub fs_done : {P : Type 0} → System P → List ℕ → Fs × List Out → Option (Reply (System P))
fs_done sys keys r = some (answer (record sys { fs = r.0 }) keys r.1)

module _ {P : Type 0} (bus : Bus P) where
  -- `cmd_shutdown`, without what it writes.
  unfoldable pub power_off : System P → System P
  power_off sys = record sys {
    ports = outb bus 0xb004 0 (outb bus 0x604 0 (pic_restore bus sys.ports));
    halted = true;
  }

  -- The tests of `shell_dispatch`, with the command of each.
  abbrev pub commands : List Bytes → System P → List ℕ → List (Bool × Option (Reply (System P)))
  commands argv sys keys =
      let cmd = arg argv 0 [] in
      let one = arg argv 1 [] in
      let two = arg argv 2 [] in
      let cwd = dir_getcwd sys.dirs in
      (is cmd "help", shows sys keys cmd_help)
      ∷ (is cmd "clear" || is cmd "cls", shows sys keys (clear ∷ []))
      ∷ (is cmd "pwd", shows sys keys (write "  " ∷ writeln_bytes cwd []))
      ∷ (is cmd "whoami", shows sys keys (writeln "  dug" []))
      ∷ (is cmd "shutdown", shows (power_off sys) keys shutdown_text)
      ∷ (is cmd "fwrite", with_fs sys (fs_write one cwd sys.fs keys))
      ∷ (is cmd "fread" || is cmd "cat", shows sys keys (fs_read one cwd sys.fs))
      ∷ (is cmd "fedit", with_fs sys (fs_edit one cwd sys.fs keys))
      ∷ (is cmd "fdel", with_fs sys (fs_delete one cwd sys.fs keys))
      ∷ (is cmd "rename", fs_done sys keys (fs_rename one two cwd sys.fs))
      ∷ (is cmd "copy", fs_done sys keys (fs_copy one two cwd sys.fs))
      ∷ (is cmd "mkdir", with_dirs sys keys (dir_mkdir one sys.dirs))
      ∷ (is cmd "cd", with_dirs sys keys (dir_cd (arg argv 1 root_path) sys.dirs))
      ∷ (is cmd "rmdir", with_rows sys (dir_rmdir one sys.fs sys.dirs keys))
      ∷ (is cmd "ls" || is cmd "dir", shows sys keys (dir_ls sys.fs sys.dirs))
      ∷ []

  unfoldable pub shell_dispatch : List Bytes → System P → List ℕ → Option (Reply (System P))
  unfolding else_if
  shell_dispatch argv sys keys = else_if (commands argv sys keys) (
      shows sys keys (
        in_red (
          write "  Unknown command: '"
          ∷ write_bytes (arg argv 0 [])
          ∷ writeln "'  (type 'help' for a list)" [])))

  -- `shell_run` with the line that is read, which has its NUL in the buffer.
  unfoldable pub run_line : Bytes → System P → List ℕ → Option (Reply (System P))
  run_line line sys keys =
      let argv = parse_cmd (line ++ 0 ∷ []) in
      if length line == 0
      then shows sys keys []
      else if length argv == 0
      then shows sys keys []
      else shell_dispatch argv sys keys >>= λ sys' rest.
          some (answer sys' rest (if sys'.halted then [] else writeln "" []))

  -- One round of the loop of `shell_run`.
  unfoldable pub shell_round : System P → List ℕ → Option (Reply (System P))
  unfolding run_line
  shell_round sys keys =
      say (prompt sys.dirs) (shell_readline cmd_len keys >>= λ line rest. run_line line sys rest)

-- What `shell_run` writes before its loop.
unfoldable pub shell_hint : List Out
shell_hint =
    writeln "" (in_green (writeln "  >> DugOS shell ready. Type 'help' for commands." []))
    ++ writeln "" []
