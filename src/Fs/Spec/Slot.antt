-- ===== src/Fs/Spec/Slot.antt =====
-- What a new entry in the slot of a file, or in a free one, does to the map.
use dug_os.Common.{
  ℕ, ◌<◌, ◌≡◌, refl, sym, ◌∙◌, ◌≢◌, ◌⊎◌, true, false, Option, none, some, length, arith,
  if◌then◌else◌, if_cases, inl, inr, ℕ_discrete,
}
use dug_os.Strings.{Bytes, cstr}
use dug_os.Fs.{Fs, max_files, file_at, name_ptr, dir_ptr, is_file, find_file, content}
use dug_os.Fs.Effect.{Effect}
use dug_os.Strings.Cstr.{kstrcmp_iff}
use dug_os.Fs.Find.{find_file_lem}
use dug_os.Fs.Lookup.{is_file-same, lookup, lookup-Effect, IsUnique}
use dug_os.Fs.Spec.{is_named, is_file-titled}
use dug_os.Fs.Spec.Rename.{found_texts}
use dug_os.Fs.Spec.Copy.{unused_is_file, new_file}
use dug_os.Fs.Spec.Delete.{gone-IsUnique}

-- An entry that is found only by what found the old one keeps names unique.
same_title-IsUnique :
    {idx : ℕ} (fs fs' : Fs)
    → Effect idx fs fs'
    → IsUnique fs
    → ((n d : Bytes)
        → is_file n d (file_at fs'.files idx) ≡ true
        → is_file n d (file_at fs.files idx) ≡ true)
    → IsUnique fs'
same_title-IsUnique {idx} fs fs' f unique same n d i j hi hj p q =
    unique n d i j hi hj (before i p) (before j q)
  where
    before :
        (k : ℕ) → is_file n d (file_at fs'.files k) ≡ true → is_file n d (file_at fs.files k) ≡ true
    before k h = elim (ℕ_discrete k idx) [
      | yes here ↦ rw here (same n d (rw here at h))
      | no other ↦ let e = f.entries k other in rw e at h
    ]

-- The slot is that of the file, or unused, with no such file.
abbrev pub IsSlotOf : Bytes → Bytes → ℕ → Fs → Type 0
IsSlotOf name dir idx fs =
    ((find_file name dir fs.files ≡ idx) × (idx ≢ max_files))
    ⊎ ((find_file name dir fs.files ≡ max_files) × ((file_at fs.files idx).used ≡ false))

-- A name that no file has finds nothing, however it is pointed to.
absent-lookup :
    (name dir n d : Bytes) (fs : Fs)
    → length fs.files ≡ max_files
    → find_file name dir fs.files ≡ max_files
    → is_named n d name dir ≡ true
    → lookup n d fs ≡ none
absent-lookup name dir n d fs size absent named = elim (find_file_lem n d fs.files) [
  | inl missing ↦ let e = missing.0 in rw e (ground arith)
  | inr first ↦ elim (find_file_lem name dir fs.files) [
    | inl none_there ↦
        let j = find_file n d fs.files in
        let same : is_file n d (file_at fs.files j) ≡ is_file name dir (file_at fs.files j) =
          is_file-same n name d dir (file_at fs.files j) ((kstrcmp_iff n name).0 (ground arith))
            ((kstrcmp_iff d dir).0 (ground arith)) in
        absurd (let off = none_there.1 j first.in_table in let hit = first.passes in cc)
    | inr there ↦ absurd (omega (arith, there.in_table, size, absent))
  ]
]

module _ (name dir n d : Bytes) {idx : ℕ} (fs fs' : Fs) (f : Effect idx fs fs')
    (size : length fs.files ≡ max_files) (lt : idx < max_files) (unique : IsUnique fs)
    (slot : IsSlotOf name dir idx fs) where
  -- The new entry is the file.
  pub filled-Slot :
      (file_at fs'.files idx).used ≡ true
      → cstr (name_ptr (file_at fs'.files idx)) ≡ cstr name
      → cstr (dir_ptr (file_at fs'.files idx)) ≡ cstr dir
      → IsUnique fs'
        × (lookup n d fs' ≡ (
            if is_named n d name dir
            then some (content fs' (file_at fs'.files idx))
            else lookup n d fs))
  filled-Slot u titled placed = elim slot [
    | inl there ↦
        let here = there.0 in
        let t = found_texts name dir fs (rw here there.1) in
        let old_used : (file_at fs.files idx).used ≡ true = rw here at t.0 in
        let old_name : cstr (name_ptr (file_at fs.files idx)) ≡ cstr name = rw here at t.1 in
        let old_dir : cstr (dir_ptr (file_at fs.files idx)) ≡ cstr dir = rw here at t.2 in
        let new : (m e : Bytes) → is_file m e (file_at fs'.files idx) ≡ is_named m e name dir =
          λ m e. is_file-titled m e name dir (file_at fs'.files idx) u titled placed in
        let old : (m e : Bytes) → is_file m e (file_at fs.files idx) ≡ is_named m e name dir =
          λ m e. is_file-titled m e name dir (file_at fs.files idx) old_used old_name old_dir in
        let unique' = same_title-IsUnique fs fs' f unique (λ m e h. old m e ∙ sym (new m e) ∙ h) in
        (
          unique',
          lookup-Effect n d fs fs' f size lt unique unique' ∙ rw (new n d, old n d) (ground arith),
        )
    | inr free ↦ new_file name dir n d fs fs' f size lt unique free.0 free.1 u titled placed
  ]

  -- The slot is given up.
  pub dropped-Slot :
      (file_at fs'.files idx).used ≡ false
      → IsUnique fs' × (lookup n d fs' ≡ (if is_named n d name dir then none else lookup n d fs))
  dropped-Slot u =
      let gone : (m e : Bytes) → is_file m e (file_at fs'.files idx) ≡ false =
        λ m e. unused_is_file m e (file_at fs'.files idx) u in
      let unique' = gone-IsUnique fs fs' f unique gone in
      (unique', lookup-Effect n d fs fs' f size lt unique unique' ∙ rw (gone n d) (before n d))
    where
      before :
          (n d : Bytes)
          → (if is_file n d (file_at fs.files idx) then none else lookup n d fs)
            ≡ (if is_named n d name dir then none else lookup n d fs)
      before n d = elim slot [
        | inl there ↦
            let here = there.0 in
            let t = found_texts name dir fs (rw here there.1) in
            let old_used : (file_at fs.files idx).used ≡ true = rw here at t.0 in
            let old_name : cstr (name_ptr (file_at fs.files idx)) ≡ cstr name = rw here at t.1 in
            let old_dir : cstr (dir_ptr (file_at fs.files idx)) ≡ cstr dir = rw here at t.2 in
            let old =
              is_file-titled n d name dir (file_at fs.files idx) old_used old_name old_dir in
            rw old refl
        | inr free ↦
            let old = unused_is_file n d (file_at fs.files idx) free.1 in
            rw old (
              if_cases (λ (r : Option Bytes). lookup n d fs ≡ r) (is_named n d name dir) _ _
                (λ named. absent-lookup name dir n d fs size free.0 named) (λ other. refl))
      ]
