-- ===== src/Dir/Spec/Mkdir.antt =====
-- `dir_mkdir` and `dir_cd` on the set of paths.
use dug_os.Common.{
  ◌<◌, ◌≡◌, refl, sym, ap, ◌∙◌, ◌≢◌, Bool, true, false, ◌&&◌, List, arith, ltb, leb, ◌==◌,
  if◌then◌else◌, if_cases, Bool-cases, inl, inr,
}
use dug_os.Common.Int.{is_zero}
use dug_os.Strings.{Bytes, cstr, kstrlen, kstrcmp}
use dug_os.Strings.Cstr.{kstrcmp_iff}
use dug_os.Console.{Out}
use dug_os.Dir.{Dirs, dir_max, dir_name_len, row, cwd, find_dir, build_path}
use dug_os.Dir.Find.{find_dir_lem, IsMissing}
use dug_os.Dir.Command.{mkdir_path, dir_mkdir, cd_path, cd_to, dir_cd}
use dug_os.Dir.Valid.{
  IsValid, added, row-added_other, added_path, added_text, added-IsValid, cd_to-IsValid,
}
use dug_os.Dir.Spec.{has_dir, has_dir-IsAt, has_dir-IsMissing}

-- The paths are those that were there, and the new one if there is room.
abbrev pub Adds : Bytes → Bytes → Dirs → Dirs → Type 0
Adds newpath path st st' =
    IsValid st'
    × (cstr (cwd st') ≡ cstr (cwd st))
    × (has_dir path st' ≡ (
        if ltb st.dir_count dir_max && is_zero (kstrcmp path newpath)
        then true
        else has_dir path st))

-- The same text is at the same rows.
same_path :
    (p q : Bytes) (st : Dirs)
    → IsValid st
    → is_zero (kstrcmp p q) ≡ true
    → has_dir q st ≡ true
    → has_dir p st ≡ true
same_path p q st v same there = elim (find_dir_lem q st (omega (arith, v.n_rows, v.fits))) [
  | inl missing ↦ absurd (ground (arith, missing.0))
  | inr at ↦ has_dir-IsAt p st (find_dir q st) v (at.0, at.1 ∙ sym ((kstrcmp_iff p q).0 same))
]

added-Adds :
    (newpath path : Bytes) (st : Dirs) (v : IsValid st) (ends : kstrlen newpath < dir_name_len)
    (room : st.dir_count < dir_max) (fresh : IsMissing newpath st)
    → Adds newpath path st (added newpath st v ends room fresh)
added-Adds newpath path st v ends room fresh =
    let st' = added newpath st v ends room fresh in
    let v' = added-IsValid newpath st v ends room fresh in
    let here : row st'.dirs st.cwd_idx ≡ row st.dirs st.cwd_idx =
      row-added_other newpath st v ends room fresh st.cwd_idx (omega (arith, v.here)) in
    let fits : ltb st.dir_count dir_max ≡ true = ground arith in
    (
      v',
      ap cstr here,
      elim (Bool-cases (is_zero (kstrcmp path newpath))) [
        | inl same ↦
            let text = added_text newpath st v ends room fresh in
            has_dir-IsAt path st' st.dir_count v'
              (omega arith, text.0 ∙ sym ((kstrcmp_iff path newpath).0 same))
            ∙ rw (fits, same) refl
        | inr other ↦ rw (fits, other) (unmoved other)
      ],
    )
  where
    unmoved :
        is_zero (kstrcmp path newpath) ≡ false
        → has_dir path (added newpath st v ends room fresh) ≡ has_dir path st
    unmoved other =
        let st' = added newpath st v ends room fresh in
        let v' = added-IsValid newpath st v ends room fresh in
        elim (find_dir_lem path st (omega (arith, v.n_rows, v.fits))) [
          | inl missing ↦
              has_dir-IsMissing path st' v' (λ j h e.
                elim (added_path newpath st v ends room fresh j h) [
                  | inl new ↦ absurd (let same = (kstrcmp_iff path newpath).1 (sym e ∙ new.1) in cc)
                  | inr old ↦ missing.1 j old.0 (sym (ap cstr old.1) ∙ e)
                ])
              ∙ sym (has_dir-IsMissing path st v missing.1)
          | inr at ↦
              let kept =
                row-added_other newpath st v ends room fresh (find_dir path st)
                  (omega (arith, at.0)) in
              has_dir-IsAt path st' (find_dir path st) v' (omega (arith, at.0), ap cstr kept ∙ at.1)
              ∙ sym (has_dir-IsAt path st (find_dir path st) v at)
        ]

-- `dir_mkdir` of a name whose path ends in its 64 bytes adds this path if the table has room, and no
-- other; a path that is there already stays as it is. The table stays valid, and the working directory
-- the same.
pub dir_mkdir-Spec :
    (name newpath path : Bytes) (st : Dirs)
    → IsValid st
    → kstrlen name ≢ 0
    → build_path name st ≡ newpath
    → kstrlen newpath < dir_name_len
    → Adds newpath path st (dir_mkdir name st).0
unfolding dir_mkdir mkdir_path
dir_mkdir-Spec name newpath path st v named built ends =
    let P : Dirs × List Out → Type 0 = λ (r : Dirs × List Out). Adds newpath path st r.0 in
    if_cases P (kstrlen name == 0) _ _ (λ no_name. absurd (ground arith))
      (λ some_name.
        if_cases P (leb dir_max st.dir_count) _ _
          (λ full.
            let no_room : ltb st.dir_count dir_max ≡ false = ground arith in
            (v, refl, rw no_room refl))
          (λ room. rw built (
            if_cases (λ (r : Dirs × List Out). Adds newpath path st r.0)
              (ltb (find_dir newpath st) dir_max) _ _ (λ there. (v, refl, stays there))
              (λ fresh. elim (find_dir_lem newpath st (omega (arith, v.n_rows, v.fits))) [
                | inl missing ↦ added-Adds newpath path st v ends (ground arith) missing.1
                | inr at ↦ absurd (ground (arith, at.0, v.fits))
              ]))))
  where
    stays :
        has_dir newpath st ≡ true
        → has_dir path st ≡ (
            if ltb st.dir_count dir_max && is_zero (kstrcmp path newpath)
            then true
            else has_dir path st)
    stays there =
        if_cases (λ (b : Bool). has_dir path st ≡ b)
          (ltb st.dir_count dir_max && is_zero (kstrcmp path newpath)) _ _
          (λ same. same_path path newpath st v (ground arith) there) (λ other. refl)

-- The working directory is the one that was asked for if it is there, and the old one otherwise.
abbrev pub Moves : Bytes → Dirs → Dirs → Type 0
Moves newpath st st' =
    IsValid st'
    × (st'.dirs ≡ st.dirs)
    × (st'.dir_count ≡ st.dir_count)
    × (cstr (cwd st') ≡ (if has_dir newpath st then cstr newpath else cstr (cwd st)))

-- `dir_cd` of a target that is not empty moves to its path if this is in the table, and otherwise stays. It
-- changes neither the rows nor how many of them are in use.
pub dir_cd-Spec :
    (target newpath : Bytes) (st : Dirs)
    → IsValid st
    → kstrlen target ≢ 0
    → cd_path target st ≡ newpath
    → Moves newpath st (dir_cd target st).0
unfolding dir_cd cd_to
dir_cd-Spec target newpath st v named built =
    let P : Dirs × List Out → Type 0 = λ (r : Dirs × List Out). Moves newpath st r.0 in
    let Q : Dirs × List Out → Type 0 =
      λ (r : Dirs × List Out). IsValid r.0 → Moves newpath st r.0 in
    if_cases P (kstrlen target == 0) _ _ (λ no_name. absurd (ground arith))
      (λ some_name. rw built (
        if_cases Q (find_dir newpath st == dir_max) _ _
          (λ missing v'.
            let none_there : has_dir newpath st ≡ false = ground arith in
            (v', refl, refl, rw none_there refl))
          (λ found v'. elim (find_dir_lem newpath st (omega (arith, v.n_rows, v.fits))) [
            | inl missing ↦ absurd (ground (arith, missing.0))
            | inr at ↦
                let there = has_dir-IsAt newpath st (find_dir newpath st) v at in
                (v', refl, refl, at.1 ∙ rw there refl)
          ])
          (cd_to-IsValid newpath st v)))
