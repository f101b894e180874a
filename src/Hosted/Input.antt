-- ===== src/Hosted/Input.antt =====
-- How much of the input the commands of dug_os.c leave: never more than there was.
use mathlib.Core.Path.{subst}
use dug_os.Common.{
  ℕ, zero, suc, ◌-◌, ◌++◌, ◌≤◌, ◌<◌, ◌≡◌, refl, inl, inr, not, ◌&&◌, ◌||◌, List, [], ◌∷◌, Option,
  none, some, Option-cases, ◌==◌, if_cases, length, take, arith,
}
use dug_os.Common.Int.{is_zero}
use dug_os.Strings.{Bytes, codes, cstr, kstrcmp, head_byte}
use dug_os.Shell.Keeps.{else_if-Each}
use dug_os.Hosted.{Print, fgets_from, fgets, trim, host_parse_cmd}
use dug_os.Hosted.Files.{
  Host, World, no_name, named, exists, type_lines, cmd_fwrite, cmd_fedit, cmd_fdel, cmd_rename,
  cmd_copy,
}
use dug_os.Hosted.Command.{
  dispatch_args, refresh_cwd, cmd_pwd, cmd_mkdir, cmd_cd, cmd_rmdir, cmd_ls, host_shutdown,
  host_commands, host_dispatch, host_line, arg_or_null,
}

fgets_from-rest : (n : ℕ) (input : Bytes) → length (fgets_from n input).1 ≤ length input
unfolding fgets_from
fgets_from-rest zero input = omega arith
fgets_from-rest (suc n) [] = omega arith
fgets_from-rest (suc n) (c ∷ input) =
    if_cases (λ (r : Bytes × Bytes). length r.1 ≤ suc (length input)) (c == 10) _ _
      (λ end. omega arith) (λ more. omega (arith, fgets_from-rest n input))

-- A read of a line takes a byte at least, and fails only at the end.
abbrev pub Reads : Bytes → Option (Bytes × Bytes) → Type 0
Reads input none = input ≡ []
Reads input (some r) = length r.1 < length input

fgets_from_takes :
    (n c : ℕ) (input : Bytes) → 1 ≤ n → length (fgets_from n (c ∷ input)).1 < suc (length input)
unfolding fgets_from
fgets_from_takes zero c input h = absurd (omega arith)
fgets_from_takes (suc n) c input h =
    if_cases (λ (r : Bytes × Bytes). length r.1 < suc (length input)) (c == 10) _ _
      (λ end. omega arith) (λ more. omega (arith, fgets_from-rest n input))

pub fgets-Reads : (size : ℕ) (input : Bytes) → 2 ≤ size → Reads input (fgets size input)
unfolding fgets
fgets-Reads size [] h = refl
fgets-Reads size (c ∷ input) h = fgets_from_takes (size - 1) c input (omega arith)

-- A line that was read.
pub read_less :
    (size : ℕ) (input : Bytes) (r : Bytes × Bytes)
    → 2 ≤ size
    → fgets size input ≡ some r
    → length r.1 < length input
read_less size input r h e = subst (Reads input) e (fgets-Reads size input h)

type_lines-rest :
    (n : ℕ) (input content : Bytes) → length (type_lines n input content).0 ≤ length input
unfolding type_lines
type_lines-rest zero input content = omega arith
type_lines-rest (suc n) input content = elim (Option-cases (fgets 256 input)) [
  | inl end ↦ rw (end, length) (omega arith)
  | inr line ↦
      let r = line.0 in
      let less = read_less 256 input r (omega arith) line.1 in
      let further = type_lines-rest n r.1 (content ++ (trim (cstr r.0)).1) in
      rw (line.1, length)
        (if_cases (λ (t : Bytes × Bytes × List Print). length t.0 ≤ length input)
          (is_zero (kstrcmp (trim (cstr r.0)).0 (codes "."))) _ _ (λ dot. omega arith)
          (λ more. omega arith))
]

module _ {H : Type 0} (host : Host H) where
  -- The input only gets shorter.
  abbrev pub Shorter : World H → World H × List Print → Type 0
  Shorter w r = length r.0.input ≤ length w.input

  cmd_fwrite-Shorter : (name : Option Bytes) (w : World H) → Shorter w (cmd_fwrite host name w)
  unfolding cmd_fwrite
  cmd_fwrite-Shorter name w =
      if_cases (Shorter w) (no_name name) _ _ (λ no. omega arith)
        (λ given.
          if_cases (Shorter w) (not (host.allows (named name) w.host)) _ _ (λ no. omega arith)
            (λ yes. type_lines-rest (suc (length w.input)) w.input []))

  cmd_fedit-Shorter : (name : Option Bytes) (w : World H) → Shorter w (cmd_fedit host name w)
  unfolding cmd_fedit
  cmd_fedit-Shorter name w =
      if_cases (Shorter w) (no_name name) _ _ (λ no. omega arith)
        (λ given. elim (Option-cases (w.files (host.file (named name) w.host))) [
          | inl missing ↦ rw (missing) (omega arith)
          | inr old ↦ rw (old.1) (
              if_cases (Shorter w) (not (host.allows (named name) w.host)) _ _ (λ no. omega arith)
                (λ yes. type_lines-rest (suc (length w.input)) w.input old.0))
        ])

  cmd_fdel-Shorter : (name : Option Bytes) (w : World H) → Shorter w (cmd_fdel host name w)
  unfolding cmd_fdel
  cmd_fdel-Shorter name w =
      if_cases (Shorter w) (no_name name) _ _ (λ no. omega arith)
        (λ given. elim (Option-cases (fgets 8 w.input)) [
          | inl end ↦ rw (end) (omega arith)
          | inr line ↦
              let less = read_less 8 w.input line.0 (omega arith) line.1 in
              let kept : length line.0.1 ≤ length w.input = omega (arith, less) in
              let c = head_byte (trim (cstr line.0.0)).0 in
              rw (line.1) (
                if_cases (Shorter w) (not (c == b'y' || c == b'Y')) _ _ (λ no. kept)
                  (λ yes.
                    if_cases (Shorter w)
                      (exists (host.file (named name) w.host) (record w { input = line.0.1 })
                        && host.allows (named name) w.host)
                      _ _ (λ there. kept) (λ missing. kept)))
        ])

  cmd_rename-Shorter :
      (old new : Option Bytes) (w : World H) → Shorter w (cmd_rename host old new w)
  unfolding cmd_rename
  cmd_rename-Shorter old new w =
      let same : length w.input ≤ length w.input = omega arith in
      if_cases (Shorter w) (no_name old || no_name new) _ _ (λ no. same)
        (λ given.
          if_cases (Shorter w)
            (exists (host.file (named old) w.host) w
              && host.allows (named old) w.host
              && host.allows (named new) w.host)
            _ _ (λ done. same) (λ failed. same))

  cmd_copy-Shorter : (src dst : Option Bytes) (w : World H) → Shorter w (cmd_copy host src dst w)
  unfolding cmd_copy
  cmd_copy-Shorter src dst w =
      let same : length w.input ≤ length w.input = omega arith in
      if_cases (Shorter w) (no_name src || no_name dst) _ _ (λ no. same)
        (λ given.
          if_cases (Shorter w) (not (exists (host.file (named src) w.host) w)) _ _ (λ missing. same)
            (λ there.
              if_cases (Shorter w) (not (host.allows (named dst) w.host)) _ _ (λ failed. same)
                (λ done. same)))

  cmd_mkdir-Shorter : (name : Option Bytes) (w : World H) → Shorter w (cmd_mkdir host name w)
  unfolding cmd_mkdir
  cmd_mkdir-Shorter name w =
      let same : length w.input ≤ length w.input = omega arith in
      if_cases (Shorter w) (no_name name) _ _ (λ no. same)
        (λ given. elim (Option-cases (host.mkdir (named name) w.host)) [
          | inl failed ↦ rw (failed) same
          | inr done ↦ rw (done.1) same
        ])

  cmd_cd-Shorter : (name : Option Bytes) (w : World H) → Shorter w (cmd_cd host name w)
  unfolding cmd_cd refresh_cwd
  cmd_cd-Shorter name w =
      let same : length w.input ≤ length w.input = omega arith in
      if_cases (Shorter w) (no_name name) _ _ (λ no. same)
        (λ given. elim (Option-cases (host.chdir (named name) w.host)) [
          | inl failed ↦ rw (failed) same
          | inr done ↦ rw (done.1) same
        ])

  cmd_rmdir-Shorter : (name : Option Bytes) (w : World H) → Shorter w (cmd_rmdir host name w)
  unfolding cmd_rmdir
  cmd_rmdir-Shorter name w =
      if_cases (Shorter w) (no_name name) _ _ (λ no. omega arith)
        (λ given. elim (Option-cases (fgets 8 w.input)) [
          | inl end ↦ rw (end) (omega arith)
          | inr line ↦
              let less = read_less 8 w.input line.0 (omega arith) line.1 in
              let kept : length line.0.1 ≤ length w.input = omega (arith, less) in
              let c = head_byte (trim (cstr line.0.0)).0 in
              rw (line.1) (
                if_cases (Shorter w) (not (c == b'y' || c == b'Y')) _ _ (λ no. kept)
                  (λ yes. elim (Option-cases (host.rmdir (named name) w.host)) [
                    | inl failed ↦ rw (failed) kept
                    | inr done ↦ rw (done.1) kept
                  ]))
        ])

  dispatch_args-Shorter : (argv : List Bytes) (w : World H) → Shorter w (dispatch_args host argv w)
  unfolding dispatch_args cmd_pwd cmd_ls refresh_cwd host_shutdown
  dispatch_args-Shorter [] w = omega arith
  dispatch_args-Shorter (cmd ∷ args) w =
      let argv = cmd ∷ args in
      let one = arg_or_null host 1 argv in
      let two = arg_or_null host 2 argv in
      let same : length w.input ≤ length w.input = omega arith in
      else_if-Each (Shorter w) (host_commands host cmd argv w) _
        (
          same,
          (
            same,
            (
              same,
              (
                same,
                (
                  same,
                  (
                    same,
                    (
                      cmd_fwrite-Shorter one w,
                      (
                        same,
                        (
                          cmd_fedit-Shorter one w,
                          (
                            cmd_fdel-Shorter one w,
                            (
                              cmd_rename-Shorter one two w,
                              (
                                cmd_copy-Shorter one two w,
                                (
                                  cmd_mkdir-Shorter one w,
                                  (cmd_cd-Shorter one w, (cmd_rmdir-Shorter one w, (same, tt))),
                                ),
                              ),
                            ),
                          ),
                        ),
                      ),
                    ),
                  ),
                ),
              ),
            ),
          ),
        )
        same

  pub host_line-Shorter : (line : Bytes) (w : World H) → Shorter w (host_line host line w)
  unfolding host_line host_dispatch
  host_line-Shorter line w =
      let trimmed = (trim (cstr line)).0 in
      let same : length w.input ≤ length w.input = omega arith in
      if_cases (Shorter w) (length trimmed == 0) _ _ (λ empty. same)
        (λ some. dispatch_args-Shorter (host_parse_cmd (take 255 trimmed)) w)
