-- ===== src/Hosted/Tests.antt =====
-- dug_os.c on a host with one directory and one file.
use dug_os.Common.{
  ℕ, ◌+◌, ◌<◌, ◌≡◌, refl, map, true, false, List, [], ◌∷◌, none, some, take, ◌==◌, if◌then◌else◌,
  arith,
}
use dug_os.Common.Int.{negsuc, is_zero}
use dug_os.Strings.{Bytes, codes, kstrlen, kstrcmp}
use dug_os.Shell.{parse_cmd}
use dug_os.Hosted.{host_parse_cmd}
use dug_os.Hosted.Parse.{IsInner, host_parse_cmd-parse_cmd}
use dug_os.Hosted.Boot.{
  nr_tasks, nr_procs, nr_sys_procs, bss_procs, bss_privs, p_name_len, host_image, strncpy,
  host_boot, booted_proc, booted_priv,
}
use dug_os.Hosted.Slots.{IsBooted, host_boot_lem}
use dug_os.Hosted.Files.{Host, World, cmd_fwrite, cmd_copy}
use dug_os.Hosted.Typed.{AreTyped, typed_input, joined, cmd_fwrite_lem}
use dug_os.Hosted.Copies.{cmd_copy_lem}
use dug_os.Hosted.Command.{host_run}
use dug_os.Hosted.Session.{Ends, host_run-Ends}

-- " ls  -a"
abbrev spaced : Bytes
spaced = b' ' ∷ b'l' ∷ b's' ∷ b' ' ∷ b' ' ∷ b'-' ∷ b'a' ∷ []

host_parse_cmd-parse_cmd_example : host_parse_cmd spaced ≡ parse_cmd spaced
host_parse_cmd-parse_cmd_example = host_parse_cmd-parse_cmd spaced (
  i b' ' refl refl,
  (
    i b'l' refl refl,
    (
      i b's' refl refl,
      (i b' ' refl refl, (i b' ' refl refl, (i b'-' refl refl, (i b'a' refl refl, tt)))),
    ),
  ),
)
  where
    i : (c : ℕ) → (c == 0) ≡ false → (c == 10) ≡ false → IsInner c
    i c z n = (ground arith, ground arith)

host_boot_lem_example :
    ((9 < nr_tasks + nr_procs) → IsBooted 9 (booted_proc 9))
    × ((9 < nr_sys_procs) → ((booted_priv 9).s_id ≡ 9) × ((booted_priv 9).s_proc_nr ≡ negsuc 0))
    × (map (λ p. p.p_name) (take 8 (host_boot (bss_procs, bss_privs)).0)
        ≡ map (λ ip. strncpy p_name_len (codes ip.proc_name)) host_image)
    × (map (λ p. p.p_ticks_left) (take 8 (host_boot (bss_procs, bss_privs)).0)
        ≡ map (λ ip. ip.quantum) host_image)
host_boot_lem_example = host_boot_lem 9

-- A host that has no directories but its own.
abbrev flat_host : Host ℕ
flat_host = record {
  getcwd = λ h. some (codes "/");
  chdir = λ path h. none;
  mkdir = λ path h. none;
  rmdir = λ path h. none;
  clock = λ h. [];
  allows = λ name h. true;
  -- "./a" is "a"
  file = λ name h. if is_zero (kstrcmp name (codes "./a")) then codes "a" else name;
}

-- The program with this input, and one file "a" that has "x".
abbrev world : Bytes → World ℕ
world input = record {
  input = input;
  files = λ name. if is_zero (kstrcmp name (codes "a")) then some (codes "x") else none;
  host = 0;
  cwd = codes "/";
  shutdown_started = false;
  os_running = true;
}

host_run-Ends_example : Ends flat_host (host_run flat_host 20 (world (codes "pwd")))
host_run-Ends_example = host_run-Ends flat_host 20 (world (codes "pwd")) (omega arith)

-- a copy of the file to itself, by another name
cmd_copy_lem_example :
    let w' = (cmd_copy flat_host (some (codes "a")) (some (codes "./a")) (world [])).0 in
    let to = flat_host.file (codes "./a") 0 in
    (w'.files to
      ≡ some (if is_zero (kstrcmp (flat_host.file (codes "a") 0) to) then [] else codes "x"))
    × ((other : Bytes)
        → is_zero (kstrcmp other to) ≡ false
        → w'.files other ≡ (world []).files other)
unfolding kstrlen kstrcmp
cmd_copy_lem_example =
    cmd_copy_lem flat_host (codes "a") (codes "./a") (codes "x") (world []) refl refl refl refl

abbrev three_lines : List Bytes
three_lines = codes "hi" ∷ [] ∷ codes "yo" ∷ []

three_lines-AreTyped : AreTyped three_lines
unfolding kstrcmp
three_lines-AreTyped = (
  ((i b'h' refl refl, (i b'i' refl refl, tt)), refl, refl, omega arith, refl),
  (tt, (((i b'y' refl refl, (i b'o' refl refl, tt)), refl, refl, omega arith, refl), tt)),
)
  where
    i : (c : ℕ) → (c == 0) ≡ false → (c == 10) ≡ false → IsInner c
    i c z n = (ground arith, ground arith)

cmd_fwrite_lem_example :
    let w = world (typed_input three_lines []) in
    let w' = (cmd_fwrite flat_host (some (codes "b")) w).0 in
    (w'.files (flat_host.file (codes "b") 0) ≡ some (joined three_lines))
    × (w'.input ≡ [])
    × ((other : Bytes)
        → is_zero (kstrcmp other (flat_host.file (codes "b") 0)) ≡ false
        → w'.files other ≡ w.files other)
unfolding kstrlen
cmd_fwrite_lem_example =
    cmd_fwrite_lem flat_host (codes "b") three_lines [] (world (typed_input three_lines [])) refl
      refl three_lines-AreTyped refl
