-- ===== src/Dir/Spec/Rmdir.antt =====
-- `dir_rmdir` on the set of paths.
use dug_os.Common.{
  ℕ, ◌≡◌, refl, sym, ap, ◌∙◌, ◌≢◌, Bool, true, false, not, ◌&&◌, List, Option, some, arith, ◌==◌,
  if◌then◌else◌, if_cases, Bool-cases, inl, inr,
}
use dug_os.Common.Int.{is_zero}
use dug_os.Strings.{Bytes, cstr, kstrlen, kstrcmp}
use dug_os.Strings.Cstr.{kstrcmp_iff}
use dug_os.Console.{Reply, readline}
use dug_os.Console.Reading.{value}
use dug_os.Console.Ensures.{Returns, Returns-say, Returns-read}
use dug_os.Fs.{Fs}
use dug_os.Fs.Command.{fs_dir_empty, is_yes}
use dug_os.Dir.{Dirs, dir_max, root_path, row, cwd, find_dir, build_path}
use dug_os.Dir.Find.{find_dir_lem, IsAt}
use dug_os.Dir.Command.{remove_row, rmdir_prompt, rmdir_path, dir_rmdir}
use dug_os.Dir.Valid.{IsValid}
use dug_os.Dir.Remove.{removed-IsValid, removed_cwd, removed_paths, kept_paths}
use dug_os.Dir.Spec.{has_dir, has_dir-IsAt, has_dir-IsMissing}

-- `dir_rmdir` accepts a directory that is there, is neither the root nor the working directory, and has
-- no files, if the answer is yes.
abbrev pub removes : Bytes → Fs → Dirs → Bytes → Bool
removes target fs st ans =
    not (is_zero (kstrcmp target root_path))
    && has_dir target st
    && not (find_dir target st == st.cwd_idx)
    && fs_dir_empty target fs
    && is_yes ans

-- What is proved of the table behind `dir_rmdir`: it is valid, the working directory has the same path,
-- and a path is there if it was there and is not removed.
abbrev pub Removes : Bytes → Bool → Bytes → Dirs → Dirs → Type 0
Removes target accepted path st st' =
    IsValid st'
    × (cstr (cwd st') ≡ cstr (cwd st))
    × (has_dir path st'
        ≡ (if accepted && is_zero (kstrcmp path target) then false else has_dir path st))

pub remove_row-Removes :
    (target path : Bytes) (st : Dirs)
    → IsValid st
    → is_zero (kstrcmp target root_path) ≡ false
    → IsAt target st (find_dir target st)
    → find_dir target st ≢ st.cwd_idx
    → Removes target true path st (remove_row (find_dir target st) st)
remove_row-Removes target path st v not_root at not_here =
    let idx = find_dir target st in
    let st' = remove_row idx st in
    let not_first : idx ≢ 0 = λ e. absurd (
      let same =
        (kstrcmp_iff target root_path).1 (sym at.1 ∙ ap (λ i. cstr (row st.dirs i)) e ∙ v.root) in
      cc) in
    let v' = removed-IsValid idx st v at.0 not_first not_here in
    (
      v',
      removed_cwd idx st v at.0 not_here,
      elim (find_dir_lem path st' (omega (arith, v'.n_rows, v'.fits))) [
        | inl missing ↦
            has_dir-IsMissing path st' v' missing.1
            ∙ sym (
                if_cases (λ (b : Bool). b ≡ false) (is_zero (kstrcmp path target)) _ _
                  (λ same. refl)
                  (λ other. elim (find_dir_lem path st (omega (arith, v.n_rows, v.fits))) [
                    | inl before ↦ has_dir-IsMissing path st v before.1
                    | inr before ↦
                        let ne : cstr path ≢ cstr (row st.dirs idx) =
                          λ e. absurd (let same = (kstrcmp_iff path target).1 (e ∙ at.1) in cc) in
                        let kept = kept_paths idx st v at.0 path (find_dir path st) before ne in
                        absurd (missing.1 _ kept.0 kept.1)
                  ]))
        | inr found ↦
            let before = removed_paths idx st v at.0 path (find_dir path st') found in
            let old = has_dir-IsAt path st _ v before.0 in
            let other : is_zero (kstrcmp path target) ≡ false =
              elim (Bool-cases (is_zero (kstrcmp path target))) [
                | inl same ↦ absurd (before.1 ((kstrcmp_iff path target).0 same ∙ sym at.1))
                | inr ne ↦ ne
              ] in
            has_dir-IsAt path st' _ v' found ∙ rw (other, old) refl
      ],
    )

-- `dir_rmdir` of a name that is not empty returns once the answer is typed. It removes the path
-- exactly if `removes` says so, and no other; the table stays valid, and the working directory keeps its
-- path although its row may move.
pub dir_rmdir-Spec :
    (name target path ans : Bytes) (fs : Fs) (st : Dirs) (keys rest : List ℕ)
    → IsValid st
    → kstrlen name ≢ 0
    → build_path name st ≡ target
    → value (readline 4 keys) ≡ some (ans, rest)
    → Returns (Removes target (removes target fs st ans) path st) (dir_rmdir name fs st keys)
unfolding dir_rmdir rmdir_path
dir_rmdir-Spec name target path ans fs st keys rest v named built typed =
    let idx = find_dir target st in
    let Q : Dirs → Type 0 = Removes target (removes target fs st ans) path st in
    let P : Option (Reply Dirs) → Type 0 = Returns Q in
    let kept : removes target fs st ans ≡ false → Q st = λ refused. (v, refl, rw refused refl) in
    if_cases P (kstrlen name == 0) _ _ (λ no_name. absurd (ground arith))
      (λ some_name. rw built (
        if_cases P (is_zero (kstrcmp target root_path)) _ _ (λ is_root. kept (rw is_root refl))
          (λ not_root.
            if_cases P (idx == dir_max) _ _
              (λ missing.
                let none_there : has_dir target st ≡ false = ground arith in
                kept (rw (not_root, none_there) refl))
              (λ found.
                if_cases P (idx == st.cwd_idx) _ _ (λ here. kept (ground arith))
                  (λ not_here.
                    if_cases P (not (fs_dir_empty target fs)) _ _ (λ full. kept (ground arith))
                      (λ empty. Returns-say Q (rmdir_prompt target) _ (
                        Returns-read Q (readline 4 keys) _ ans rest typed (
                          if_cases P (is_yes ans) _ _
                            (λ confirmed.
                              elim (find_dir_lem target st (omega (arith, v.n_rows, v.fits))) [
                                | inl missing ↦ absurd (ground (arith, missing.0))
                                | inr at ↦
                                    let accepted : removes target fs st ans ≡ true =
                                      ground (arith, at.0, v.fits) in
                                    rw accepted (
                                      remove_row-Removes target path st v not_root at
                                        (ground arith))
                              ])
                            (λ cancelled. kept (ground arith))))))))))
