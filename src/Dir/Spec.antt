-- ===== src/Dir/Spec.antt =====
-- The commands of src/dir.c on the table as a set of paths.
pub mod Mkdir
pub mod Rmdir
use mathlib.Core.Path.{subst}
use dug_os.Common.{
  ℕ, zero, suc, ◌+◌, ◌-◌, ◌<◌, ◌≤◌, ◌≡◌, refl, sym, ap, ◌∙◌, ◌≢◌, Bool, true, false, not, ◌&&◌,
  ◌||◌, List, [], ◌∷◌, ◌++◌, Option, none, some, length, get_or, set, take, drop, arith, ltb, ◌==◌,
  if◌then◌else◌, if_cases, inl, inr,
}
use dug_os.Common.Int.{is_zero}
use dug_os.Strings.{Bytes, cstr, head_byte, kstrlen, kstrcmp, kstrncpy}
use dug_os.Strings.Cstr.{kstrcmp_iff}
use dug_os.Console.{Out}
use dug_os.Dir.{
  Dirs, dir_name_len, dir_max, root_path, slash, row, cwd, buffer, find_dir, build_path,
  build_absolute, build_relative, with_separator,
}
use dug_os.Dir.Find.{find_dir_lem, IsMissing, IsAt}
use dug_os.Dir.Valid.{IsValid}

-- A row in use has the path.
abbrev pub has_dir : Bytes → Dirs → Bool
has_dir path st = ltb (find_dir path st) dir_max

pub has_dir-IsAt :
    (path : Bytes) (st : Dirs) (j : ℕ) → IsValid st → IsAt path st j → has_dir path st ≡ true
has_dir-IsAt path st j v at = elim (find_dir_lem path st (omega (arith, v.n_rows, v.fits))) [
  | inl missing ↦ absurd (missing.1 j at.0 at.1)
  | inr found ↦ ground (arith, found.0, v.fits)
]

pub has_dir-IsMissing :
    (path : Bytes) (st : Dirs) → IsValid st → IsMissing path st → has_dir path st ≡ false
has_dir-IsMissing path st v none_there =
    elim (find_dir_lem path st (omega (arith, v.n_rows, v.fits))) [
      | inl missing ↦ ground (arith, missing.0)
      | inr found ↦ absurd (none_there (find_dir path st) found.0 found.1)
    ]
