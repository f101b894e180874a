-- ===== src/Hosted/Command.antt =====
-- The directory and system commands of dug_os.c, its dispatch, its loop, and main. `system` only
-- changes what the terminal shows.
use dug_os.Common.{
  ℕ, zero, suc, Bool, true, false, not, ◌||◌, List, [], ◌∷◌, ◌++◌, Option, none, some, ◌==◌,
  if◌then◌else◌, length, take,
}
use dug_os.Common.Int.{ℤ, pos, negsuc}
use dug_os.Strings.{Bytes, codes, cstr}
use dug_os.Shell.Run.{else_if, is}
use dug_os.Hosted.{Print, text, str, num, name, fgets, trim, host_parse_cmd}
use dug_os.Hosted.Boot.{
  Proc, Priv, HostImage, host_image, host_boot, intr_init, host_boot_text, bss_procs, bss_privs,
}
use dug_os.Hosted.Help.{host_help, welcome_screen}
use dug_os.Hosted.Files.{
  Host, World, err, no_name, named, confirm, cmd_fwrite, cmd_fedit, cmd_fread, cmd_fdel, cmd_rename,
  cmd_copy,
}

abbrev pub is_hardware_nr : ℤ → Bool
is_hardware_nr (pos n) = false
is_hardware_nr (negsuc n) = n == 3

-- The loop of `cmd_shutdown`.
unfoldable pub host_stopping : List HostImage → List Print
host_stopping [] = []
host_stopping (p ∷ procs) =
    if is_hardware_nr p.proc_nr
    then host_stopping procs
    else text "  [kernel]   -> stopping "
      ∷ name p.proc_name
      ∷ text " (proc "
      ∷ num p.proc_nr
      ∷ text ")\n"
      ∷ host_stopping procs

module _ {H : Type 0} (host : Host H) where
  unfoldable pub refresh_cwd : World H → World H
  refresh_cwd w = record w {
    cwd = elim (host.getcwd w.host) [ none ↦ codes "?" | some path ↦ path ];
  }

  unfoldable pub cmd_pwd : World H → World H × List Print
  unfolding refresh_cwd
  cmd_pwd w = let w' = refresh_cwd w in (w', text "  " ∷ str w'.cwd ∷ text "\n" ∷ [])

  unfoldable pub cmd_date : World H → List Print
  cmd_date w = text "  " ∷ str (host.clock w.host) ∷ text "\n" ∷ []

  unfoldable pub cmd_mkdir : Option Bytes → World H → World H × List Print
  cmd_mkdir dirname w =
      if no_name dirname
      then (w, err (text "mkdir" ∷ []) (text "usage: mkdir <dirname>" ∷ []))
      else elim (host.mkdir (named dirname) w.host) [
        | none ↦
            (w, err (text "mkdir" ∷ []) (text "could not create directory (already exists?)" ∷ []))
        | some h ↦ (
          record w { host = h },
          text "  [mkdir] Directory '" ∷ str (named dirname) ∷ text "' created.\n" ∷ [],
        )
      ]

  unfoldable pub cmd_cd : Option Bytes → World H → World H × List Print
  unfolding refresh_cwd
  cmd_cd dirname w =
      if no_name dirname
      then (w, err (text "cd" ∷ []) (text "usage: cd <dirname>" ∷ []))
      else elim (host.chdir (named dirname) w.host) [
        | none ↦ (w, err (text "cd" ∷ []) (text "directory not found" ∷ []))
        | some h ↦
            let w' = refresh_cwd (record w { host = h }) in
            (w', text "  [cd] Now in: " ∷ str w'.cwd ∷ text "\n" ∷ [])
      ]

  unfoldable pub cmd_rmdir : Option Bytes → World H → World H × List Print
  cmd_rmdir dirname w =
      let question = text "  Delete directory '" ∷ str (named dirname) ∷ text "'? (y/n): " ∷ [] in
      if no_name dirname
      then (w, err (text "rmdir" ∷ []) (text "usage: rmdir <dirname>" ∷ []))
      else elim (confirm host w) [
        | none ↦ (w, question)
        | some r ↦
            if not r.0
            then (r.1, question ++ text "  [rmdir] Cancelled.\n" ∷ [])
            else elim (host.rmdir (named dirname) r.1.host) [
              | none ↦ (
                r.1,
                question
                    ++ err (text "rmdir" ∷ [])
                        (text "could not remove (is it empty and does it exist?)" ∷ []),
              )
              | some h ↦ (
                record r.1 { host = h },
                question ++ text "  [rmdir] '" ∷ str (named dirname) ∷ text "' removed.\n" ∷ [],
              )
            ]
      ]

  -- What `cmd_ls` prints itself.
  unfoldable pub cmd_ls : World H → World H × List Print
  unfolding refresh_cwd
  cmd_ls w =
      let w' = refresh_cwd w in
      (w', text "  Directory listing: " ∷ str w'.cwd ∷ text "\n\n" ∷ text "\n" ∷ [])

  unfoldable pub host_shutdown : World H → World H × List Print
  unfolding host_stopping intr_init
  host_shutdown w = (
    record w { shutdown_started = true; os_running = false },
    (text "\n"
          ∷ text "  +----------------------------------------------------------+\n"
          ∷ text "  |                  DugOS Shutdown                       |\n"
          ∷ text "  +----------------------------------------------------------+\n"
          ∷ text "\n"
          ∷ text "  [kernel] Sending SIGKSTOP to all system processes...\n"
          ∷ host_stopping host_image)
        ++ (text "  [kernel] Flushing file system buffers ... OK\n"
            ∷ text "  [kernel] Stopping clock task          ... OK\n"
            ∷ text "  [kernel] Masking all hardware IRQs    ... OK\n"
            ∷ intr_init 0)
        ++ text "\n  DugOS has shut down. Goodbye, dug.\n\n" ∷ [],
  )

  -- `argc > i ? argv[i] : NULL`
  abbrev pub arg_or_null : ℕ → List Bytes → Option Bytes
  arg_or_null i [] = none
  arg_or_null zero (a ∷ argv) = some a
  arg_or_null (suc i) (a ∷ argv) = arg_or_null i argv

  -- The tests of `shell_dispatch`, with the command of each.
  abbrev pub host_commands : Bytes → List Bytes → World H → List (Bool × (World H × List Print))
  host_commands cmd argv w =
      let one = arg_or_null 1 argv in
      let two = arg_or_null 2 argv in
      (is cmd "help", (w, host_help))
      ∷ (is cmd "cls" || is cmd "clear", (w, []))
      ∷ (is cmd "pwd", cmd_pwd w)
      ∷ (is cmd "date", (w, cmd_date w))
      ∷ (is cmd "whoami", (w, text "  dug\n" ∷ []))
      ∷ (is cmd "shutdown", host_shutdown w)
      ∷ (is cmd "fwrite", cmd_fwrite host one w)
      ∷ (is cmd "fread" || is cmd "cat", (w, cmd_fread host one w))
      ∷ (is cmd "fedit", cmd_fedit host one w)
      ∷ (is cmd "fdel", cmd_fdel host one w)
      ∷ (is cmd "rename", cmd_rename host one two w)
      ∷ (is cmd "copy", cmd_copy host one two w)
      ∷ (is cmd "mkdir", cmd_mkdir one w)
      ∷ (is cmd "cd", cmd_cd one w)
      ∷ (is cmd "rmdir", cmd_rmdir one w)
      ∷ (is cmd "ls" || is cmd "dir", cmd_ls w)
      ∷ []

  -- `shell_dispatch` with its tokens.
  unfoldable pub dispatch_args : List Bytes → World H → World H × List Print
  unfolding else_if
  dispatch_args [] w = (w, [])
  dispatch_args (cmd ∷ args) w =
      else_if (host_commands cmd (cmd ∷ args) w)
        (w, text "  Unknown command: '" ∷ str cmd ∷ text "'  (type 'help' for a list)\n" ∷ [])

  -- `shell_dispatch`, on the copy of its input that fits `buf`.
  unfoldable pub host_dispatch : Bytes → World H → World H × List Print
  unfolding dispatch_args
  host_dispatch input w = dispatch_args (host_parse_cmd (take 255 input)) w

  -- What the loop of `shell_run` does with a line.
  unfoldable pub host_line : Bytes → World H → World H × List Print
  host_line line w =
      let trimmed = (trim (cstr line)).0 in
      let (w', out) = host_dispatch trimmed w in
      if length trimmed == 0 then (w, []) else (w', out ++ text "\n" ∷ [])

  abbrev pub host_prompt : World H → List Print
  host_prompt w = text "  dug@os:" ∷ str w.cwd ∷ text "$ " ∷ []

  -- A round of the loop behind its prompt. `none` leaves the loop at the end of the input.
  unfoldable pub host_round : World H → Option (World H × List Print)
  unfolding host_line
  host_round w = elim (fgets 256 w.input) [
    | none ↦ none
    | some r ↦ some (host_line r.0 (record w { input = r.1 }))
  ]

  -- What the rounds from here on end with, behind these prints.
  abbrev pub prints_first :
      List Print → Option (World H × List Print) → Option (World H × List Print)
  prints_first out none = none
  prints_first out (some r) = some (r.0, out ++ r.1)

  -- `shell_run`, with fuel for its rounds. `none` has not ended when the fuel runs out.
  unfoldable pub host_run : ℕ → World H → Option (World H × List Print)
  unfolding refresh_cwd host_round
  host_run zero w = none
  host_run (suc n) w =
      let here = refresh_cwd w in
      if not w.os_running then some (w, []) else elim (host_round here) [
        | none ↦ some (here, host_prompt here)
        | some r ↦ prints_first (host_prompt here ++ r.1) (host_run n r.0)
      ]

  -- The state that main makes: the tables, and what its shell leaves of the rest.
  unfoldable pub host_main : World H → (List Proc × List Priv) × Option (World H × List Print)
  unfolding host_run
  host_main w = (
    host_boot (bss_procs, bss_privs),
    prints_first
        ((text "\n  Booting DugOS v1.0 ...\n\n" ∷ intr_init 1)
          ++ host_boot_text
          ++ (text "\n  Boot complete.\n" ∷ welcome_screen))
        (host_run (suc (length w.input)) w),
  )
