-- ===== src/Shell/Keeps.antt =====
-- What a command line of src/shell.c does to the state of the system: fs.c, dir.c and the shell together
-- keep both invariants.
use dug_os.Common.{
  ℕ, ◌≡◌, refl, ◌⊎◌, inl, inr, Bool, true, List, [], ◌∷◌, Option, none, some, ◌==◌, if_cases,
  length, ◌++◌, ◌<◌,
}
use dug_os.Strings.{Bytes, kstrlen}
use dug_os.Console.{Reply}
use dug_os.Console.Ensures.{Ensures, Ensures-say, Ensures-bind}
use dug_os.Port.{Bus}
use dug_os.Fs.{Fs}
use dug_os.Fs.Invariant as Files
use dug_os.Fs.Effect.{Effect}
use dug_os.Fs.Effect.Interactive.{fs_write-Ensures, fs_edit-Ensures, fs_delete-Ensures}
use dug_os.Fs.Effect.Direct.{fs_rename-Effect, fs_copy-Effect}
use dug_os.Dir.{Dirs, dir_name_len, root_path, build_path, dir_getcwd}
use dug_os.Dir.Valid as Rows
use dug_os.Dir.Keeps.{dir_mkdir-IsValid, dir_cd-IsValid, dir_rmdir-IsValid}
use dug_os.Shell.{cmd_len, shell_readline, parse_cmd}
use dug_os.Shell.Run.{
  System, else_if, arg, is, power_off, with_fs, with_rows, commands, shell_dispatch, run_line,
  shell_round, prompt,
}

abbrev pub AreValid : {P : Type 0} → System P → Type 0
AreValid sys = Files.IsValid sys.fs × Rows.IsValid sys.dirs

-- Every branch of an `else_if`.
abbrev pub Each : {A : Type 0} → (A → Type 0) → List (Bool × A) → Type 0
Each P [] = Unit
Each P ((test, branch) ∷ rest) = P branch × Each P rest

pub else_if-Each :
    {A : Type 0} (P : A → Type 0) (branches : List (Bool × A)) (other : A)
    → Each P branches
    → P other
    → P (else_if branches other)
unfolding else_if
else_if-Each P [] other h last = last
else_if-Each P ((test, branch) ∷ rest) other h last =
    if_cases P test _ _ (λ yes. h.0) (λ no. else_if-Each P rest other h.1 last)

-- Every branch of an `else_if`, when its test holds.
abbrev When : {A : Type 0} → (A → Type 0) → List (Bool × A) → Type 0
When P [] = Unit
When P ((test, branch) ∷ rest) = (test ≡ true → P branch) × When P rest

else_if-When :
    {A : Type 0} (P : A → Type 0) (branches : List (Bool × A)) (other : A)
    → When P branches
    → P other
    → P (else_if branches other)
unfolding else_if
else_if-When P [] other h last = last
else_if-When P ((test, branch) ∷ rest) other h last =
    if_cases P test _ _ (λ yes. h.0 yes) (λ no. else_if-When P rest other h.1 last)

-- The path that `mkdir` would make of its argument ends in its 64 bytes.
abbrev pub Fits : {P : Type 0} → List Bytes → System P → Type 0
Fits argv sys =
    is (arg argv 0 []) "mkdir" ≡ true → kstrlen (build_path (arg argv 1 []) sys.dirs) < dir_name_len

-- The same for the line that is typed next.
abbrev pub LineFits : {P : Type 0} → List ℕ → System P → Type 0
LineFits keys sys =
    Ensures (λ line. Fits (parse_cmd (line ++ 0 ∷ [])) sys) (shell_readline cmd_len keys)

module _ {P : Type 0} (bus : Bus P) where
  -- Both invariants, one component as it was, and the devices as they were unless the machine is halted.
  abbrev pub Kept : System P → System P → Type 0
  Kept sys sys' =
      AreValid sys'
      × ((sys'.fs ≡ sys.fs) ⊎ (sys'.dirs ≡ sys.dirs))
      × (((sys'.halted ≡ sys.halted) × (sys'.ports ≡ sys.ports)) ⊎ (sys'.halted ≡ true))

  same_system : (sys : System P) → AreValid sys → Kept sys sys
  same_system sys v = (v, inl refl, inl (refl, refl))

  new_fs :
      (sys : System P) (fs : Fs)
      → AreValid sys
      → Files.IsValid fs
      → Kept sys (record sys { fs = fs })
  new_fs sys fs v w = ((w, v.1), inr refl, inl (refl, refl))

  new_dirs :
      (sys : System P) (dirs : Dirs)
      → AreValid sys
      → Rows.IsValid dirs
      → Kept sys (record sys { dirs = dirs })
  new_dirs sys dirs v w = ((v.0, w), inl refl, inl (refl, refl))

  with_fs-Kept :
      (idx : ℕ) (sys : System P) (m : Option (Reply Fs))
      → AreValid sys
      → Ensures (Effect idx sys.fs) m
      → Ensures (Kept sys) (with_fs sys m)
  with_fs-Kept idx sys none v h = tt
  with_fs-Kept idx sys (some r) v h = new_fs sys r.result v h.valid

  with_rows-Kept :
      (sys : System P) (m : Option (Reply Dirs))
      → AreValid sys
      → Ensures Rows.IsValid m
      → Ensures (Kept sys) (with_rows sys m)
  with_rows-Kept sys none v h = tt
  with_rows-Kept sys (some r) v h = new_dirs sys r.result v h

  power_off-Kept : (sys : System P) → AreValid sys → Kept sys (power_off bus sys)
  unfolding power_off
  power_off-Kept sys v = (v, inl refl, inr refl)

  -- A command with any arguments, and where it is `mkdir` one whose path ends in its 64 bytes:
  -- `shell_dispatch` keeps the invariants of the file system and of the directory table. It never
  -- changes both, and its own code changes the devices only if it halts the machine.
  pub shell_dispatch-Kept :
      (argv : List Bytes) (sys : System P) (keys : List ℕ)
      → AreValid sys
      → Fits argv sys
      → Ensures (Kept sys) (shell_dispatch bus argv sys keys)
  unfolding shell_dispatch
  shell_dispatch-Kept argv sys keys v fits =
      let one = arg argv 1 [] in
      let two = arg argv 2 [] in
      let cwd = dir_getcwd sys.dirs in
      let same = same_system sys v in
      let writes = with_fs-Kept _ sys _ v (fs_write-Ensures one cwd sys.fs keys v.0) in
      let edits = with_fs-Kept _ sys _ v (fs_edit-Ensures one cwd sys.fs keys v.0) in
      let deletes = with_fs-Kept _ sys _ v (fs_delete-Ensures one cwd sys.fs keys v.0) in
      let renames = new_fs sys _ v (fs_rename-Effect one two cwd sys.fs v.0).valid in
      let copies = new_fs sys _ v (fs_copy-Effect one two cwd sys.fs v.0).valid in
      let moves = new_dirs sys _ v (dir_cd-IsValid (arg argv 1 root_path) sys.dirs v.1) in
      let removes = with_rows-Kept sys _ v (dir_rmdir-IsValid one sys.fs sys.dirs keys v.1) in
      else_if-When (Ensures (Kept sys)) (commands bus argv sys keys) _
        (
          (λ t. same),
          (
            (λ t. same),
            (
              (λ t. same),
              (
                (λ t. same),
                (
                  (λ t. power_off-Kept sys v),
                  (
                    (λ t. writes),
                    (
                      (λ t. same),
                      (
                        (λ t. edits),
                        (
                          (λ t. deletes),
                          (
                            (λ t. renames),
                            (
                              (λ t. copies),
                              (
                                (λ made.
                                    new_dirs sys _ v
                                      (dir_mkdir-IsValid one sys.dirs v.1 (fits made))),
                                ((λ t. moves), ((λ t. removes), ((λ t. same), tt))),
                              ),
                            ),
                          ),
                        ),
                      ),
                    ),
                  ),
                ),
              ),
            ),
          ),
        )
        same

  run_line-Kept :
      (line : Bytes) (sys : System P) (keys : List ℕ)
      → AreValid sys
      → Fits (parse_cmd (line ++ 0 ∷ [])) sys
      → Ensures (Kept sys) (run_line bus line sys keys)
  unfolding run_line
  run_line-Kept line sys keys v fits =
      let argv = parse_cmd (line ++ 0 ∷ []) in
      let Q : Option (Reply (System P)) → Type 0 = Ensures (Kept sys) in
      let same = same_system sys v in
      if_cases Q (length line == 0) _ _ (λ empty. same)
        (λ typed.
          if_cases Q (length argv == 0) _ _ (λ blank. same)
            (λ command.
              Ensures-bind (Kept sys) (Kept sys) (shell_dispatch bus argv sys keys) _
                (shell_dispatch-Kept argv sys keys v fits) (λ sys' rest kept. kept)))

  pub shell_round-Kept :
      (sys : System P) (keys : List ℕ)
      → AreValid sys
      → LineFits keys sys
      → Ensures (Kept sys) (shell_round bus sys keys)
  unfolding shell_round
  shell_round-Kept sys keys v fits = Ensures-say (Kept sys) (prompt sys.dirs) _ (
      Ensures-bind (λ line. Fits (parse_cmd (line ++ 0 ∷ [])) sys) (Kept sys)
        (shell_readline cmd_len keys) _ fits (λ line rest f. run_line-Kept line sys rest v f))
