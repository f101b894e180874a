-- ===== src/Dir/Keeps.antt =====
-- Each command of src/dir.c keeps the invariant of the table, on every branch.
use dug_os.Common.{◌<◌, ℕ, inl, inr, List, Option, not, leb, ◌==◌, if_cases, arith}
use dug_os.Common.Int.{is_zero}
use dug_os.Strings.{Bytes, kstrlen, kstrcmp}
use dug_os.Console.{Out, Reply, readline}
use dug_os.Console.Ensures.{Ensures, Ensures-any, Ensures-say, Ensures-bind}
use dug_os.Fs.{Fs}
use dug_os.Fs.Command.{is_yes, fs_dir_empty}
use dug_os.Dir.{Dirs, dir_max, dir_name_len, root_path, find_dir, build_path}
use dug_os.Dir.Find.{find_dir_lem}
use dug_os.Dir.Valid.{IsValid, mkdir_path-IsValid, cd_to-IsValid}
use dug_os.Dir.Spec.Rmdir.{remove_row-Removes}
use dug_os.Dir.Command.{dir_mkdir, dir_cd, cd_path, dir_rmdir, rmdir_path, rmdir_prompt}

-- `dir_mkdir` needs a path that ends in its buffer.
pub dir_mkdir-IsValid :
    (name : Bytes) (st : Dirs)
    → IsValid st
    → kstrlen (build_path name st) < dir_name_len
    → IsValid (dir_mkdir name st).0
unfolding dir_mkdir
dir_mkdir-IsValid name st v ends =
    let P : Dirs × List Out → Type 0 = λ (r : Dirs × List Out). IsValid r.0 in
    if_cases P (kstrlen name == 0) _ _ (λ no_name. v)
      (λ named.
        if_cases P (leb dir_max st.dir_count) _ _ (λ full. v)
          (λ room. mkdir_path-IsValid (build_path name st) st v ends (ground arith)))

pub dir_cd-IsValid : (target : Bytes) (st : Dirs) → IsValid st → IsValid (dir_cd target st).0
unfolding dir_cd
dir_cd-IsValid target st v =
    if_cases (λ (r : Dirs × List Out). IsValid r.0) (kstrlen target == 0) _ _ (λ no_name. v)
      (λ named. cd_to-IsValid (cd_path target st) st v)

rmdir_path-IsValid :
    (target : Bytes) (fs : Fs) (st : Dirs) (keys : List ℕ)
    → IsValid st
    → Ensures IsValid (rmdir_path target fs st keys)
unfolding rmdir_path
rmdir_path-IsValid target fs st keys v =
    let idx = find_dir target st in
    let P : Option (Reply Dirs) → Type 0 = Ensures IsValid in
    if_cases P (is_zero (kstrcmp target root_path)) _ _ (λ is_root. v)
      (λ not_root.
        if_cases P (idx == dir_max) _ _ (λ missing. v)
          (λ found.
            if_cases P (idx == st.cwd_idx) _ _ (λ here. v)
              (λ not_here.
                if_cases P (not (fs_dir_empty target fs)) _ _ (λ full. v)
                  (λ empty. Ensures-say IsValid (rmdir_prompt target) _ (
                    Ensures-bind (λ ans. Unit) IsValid (readline 4 keys) _
                      (Ensures-any (readline 4 keys))
                      (λ ans rest u.
                        if_cases P (is_yes ans) _ _
                          (λ confirmed.
                            elim (find_dir_lem target st (omega (arith, v.n_rows, v.fits))) [
                              | inl missing ↦ absurd (ground (arith, missing.0))
                              | inr at ↦
                                  (remove_row-Removes target target st v not_root at
                                    (ground arith)).0
                            ])
                          (λ cancelled. v)))))))

pub dir_rmdir-IsValid :
    (name : Bytes) (fs : Fs) (st : Dirs) (keys : List ℕ)
    → IsValid st
    → Ensures IsValid (dir_rmdir name fs st keys)
unfolding dir_rmdir
dir_rmdir-IsValid name fs st keys v =
    if_cases (Ensures IsValid) (kstrlen name == 0) _ _ (λ no_name. v)
      (λ named. rmdir_path-IsValid (build_path name st) fs st keys v)
