-- ===== src/Shell/Session.antt =====
-- Sessions of `shell_run` in src/shell.c from boot, and their end by `cmd_shutdown`.
use dug_os.Common.{ℕ, ◌≡◌, refl, ◌∙◌, inl, inr, true, false, List, ◌∷◌, some}
use dug_os.Strings.{Bytes, codes, kstrcmp}
use dug_os.Console.{Reply}
use dug_os.Console.Ensures.{Ensures-some, Returns}
use dug_os.Port.{Bus}
use dug_os.Pic.Chip.{Which, master, slave, Pair, chip-outb}
use dug_os.Pic.Init.{fresh_chip, vectors, pic_restore_lem}
use dug_os.Fs.{fs_init, bss}
use dug_os.Fs.Session.{boot-IsValid}
use dug_os.Dir.{dir_init, bss_dirs}
use dug_os.Dir.Valid.{dir_init-IsValid}
use dug_os.Shell.Run.{System, else_if, power_off, shell_dispatch, shell_round}
use dug_os.Shell.Keeps.{AreValid, LineFits, Kept, shell_round-Kept}

-- The state in which kmain of main.c calls `shell_run`, with the devices.
abbrev pub at_boot : {P : Type 0} → P → System P
at_boot ports = record { fs = fs_init bss; dirs = dir_init bss_dirs; ports = ports; halted = false }

module _ {P : Type 0} (bus : Bus P) where
  -- The states at the prompt: a round runs while the machine is not halted. A line that gives `mkdir`
  -- a name whose path does not end in its 64 bytes is left out.
  pub data Reachable (ports : P) : System P → Type 0 where
    boot : Reachable ports (at_boot ports)
    round :
        {sys : System P} (keys : List ℕ) (r : Reply (System P))
        → Reachable ports sys
        → sys.halted ≡ false
        → LineFits keys sys
        → shell_round bus sys keys ≡ some r
        → Reachable ports r.result

  -- In every session, whatever is typed but a `mkdir` whose path does not end in its 64 bytes, the
  -- file system and the directory table keep their invariants, and the code of the shell changes no
  -- device until the machine is halted.
  pub Reachable-AreValid :
      {ports : P} {sys : System P}
      → Reachable ports sys
      → AreValid sys × (sys.halted ≡ false → sys.ports ≡ ports)
  Reachable-AreValid boot = ((boot-IsValid, dir_init-IsValid), λ on. refl)
  Reachable-AreValid (round {sys} keys r before on fits e) =
      let ih = Reachable-AreValid before in
      let kept =
        Ensures-some (Kept bus sys) (shell_round bus sys keys) r e
          (shell_round-Kept bus sys keys ih.0 fits) in
      (kept.0, λ still. elim kept.2 [ inl same ↦ same.1 ∙ ih.1 on | inr off ↦ absurd (cc) ])

  -- What is left of the machine by `cmd_shutdown`.
  abbrev pub IsOff : Pair bus → System P → System P → Type 0
  IsOff pics sys sys' =
      (sys'.halted ≡ true)
      × (sys'.fs ≡ sys.fs)
      × (sys'.dirs ≡ sys.dirs)
      × ((w : Which) → pics.chip w sys'.ports ≡ fresh_chip (vectors 0x08 0x70 w) 0xff)

  power_off-IsOff : (pics : Pair bus) (sys : System P) → IsOff pics sys (power_off bus sys)
  unfolding power_off
  power_off-IsOff pics sys = (refl, refl, refl, λ w. restored w)
    where
      restored :
          (w : Which)
          → pics.chip w (power_off bus sys).ports ≡ fresh_chip (vectors 0x08 0x70 w) 0xff
      restored master =
          chip-outb bus pics master 0xb004 0 _ refl
          ∙ chip-outb bus pics master 0x604 0 _ refl
          ∙ pic_restore_lem bus pics master sys.ports
      restored slave =
          chip-outb bus pics slave 0xb004 0 _ refl
          ∙ chip-outb bus pics slave 0x604 0 _ refl
          ∙ pic_restore_lem bus pics slave sys.ports

  -- `shutdown` halts the machine at once, with the controllers at the BIOS's vectors and every line masked,
  -- and leaves the files and the directories as they are.
  pub shell_dispatch-shutdown :
      (pics : Pair bus) (args : List Bytes) (sys : System P) (keys : List ℕ)
      → Returns (IsOff pics sys) (shell_dispatch bus (codes "shutdown" ∷ args) sys keys)
  unfolding shell_dispatch else_if kstrcmp
  shell_dispatch-shutdown pics args sys keys = power_off-IsOff pics sys
