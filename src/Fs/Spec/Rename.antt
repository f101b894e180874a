-- ===== src/Fs/Spec/Rename.antt =====
-- `fs_rename` as an operation on the map.
use dug_os.Common.{
  ◌<◌, ◌≡◌, refl, ◌∙◌, ◌≢◌, true, false, ◌||◌, List, none, some, length, arith, ltb, ◌==◌,
  if◌then◌else◌, if_cases, inl, inr,
}
use dug_os.Strings.{Bytes, cstr, kstrlen, kstrncpy}
use dug_os.Strings.Copy.{cstr-kstrncpy}
use dug_os.Console.{Out}
use dug_os.Fs.{
  Fs, FileEntry, max_files, name_len, file_at, name_ptr, dir_ptr, is_file, find_file, content,
}
use dug_os.Fs.Find.{find_file_lem}
use dug_os.Fs.Invariant.{IsValid, file_at-set_self}
use dug_os.Fs.Invariant.Steps.{retitled-IsOwned, IsOwned-set_file}
use dug_os.Fs.Effect.{Effect, found-IsOwned}
use dug_os.Fs.Effect.Direct.{fs_rename-Effect}
use dug_os.Fs.Command.{fs_rename, set_file}
use dug_os.Fs.Lookup.{lookup, lookup-Effect, IsUnique}
use dug_os.Fs.Spec.{
  is_file_texts, fresh-IsUnique, is_named, is_file-titled, has, map_of, rename_map, has-lookup,
}

-- A file that is found has the texts that it was searched by.
pub found_texts :
    (name dir : Bytes) (fs : Fs)
    → find_file name dir fs.files ≢ max_files
    → let e = file_at fs.files (find_file name dir fs.files) in
      (e.used ≡ true) × (cstr (name_ptr e) ≡ cstr name) × (cstr (dir_ptr e) ≡ cstr dir)
found_texts name dir fs found = elim (find_file_lem name dir fs.files) [
  | inl missing ↦ absurd (found missing.0)
  | inr first ↦
      (is_file_texts name dir (file_at fs.files (find_file name dir fs.files))).0 first.passes
]

-- A search that finds nothing returns the sentinel.
pub not_found :
    (name dir : Bytes) (fs : Fs)
    → length fs.files ≡ max_files
    → ltb (find_file name dir fs.files) max_files ≡ false
    → find_file name dir fs.files ≡ max_files
not_found name dir fs size h = elim (find_file_lem name dir fs.files) [
  | inl missing ↦ missing.0
  | inr first ↦ absurd (ground (arith, first.in_table, size))
]

-- The entry under its new name.
abbrev renamed : Bytes → FileEntry → FileEntry
renamed newname e = record e { name = kstrncpy e.name newname name_len }

module _ (oldname newname dir : Bytes) (fs : Fs) (v : IsValid fs) (unique : IsUnique fs)
    (short : kstrlen newname < name_len) (found : find_file oldname dir fs.files ≢ max_files)
    (fresh : find_file newname dir fs.files ≡ max_files) where
  renamed-Spec :
      (n d : Bytes)
      → let idx = find_file oldname dir fs.files in
        let fs' = set_file idx (renamed newname (file_at fs.files idx)) fs in
        Effect idx fs fs'
        → IsUnique fs'
          × (lookup n d fs' ≡ (
              if is_named n d newname dir
              then lookup oldname dir fs
              else if is_named n d oldname dir
              then none
              else lookup n d fs))
  renamed-Spec n d f =
      let idx = find_file oldname dir fs.files in
      let e = file_at fs.files idx in
      let fs' = set_file idx (renamed newname e) fs in
      let own = found-IsOwned oldname dir fs v found in
      let t = found_texts oldname dir fs found in
      let titled : cstr (name_ptr (renamed newname e)) ≡ cstr newname =
        cstr-kstrncpy e.name newname (dir_ptr e) name_len short (omega (arith, own.2.0)) in
      let here : file_at fs'.files idx ≡ renamed newname e =
        file_at-set_self fs.files idx (renamed newname e) (omega (arith, own.0, v.n_files)) in
      let unique' : IsUnique fs' =
        fresh-IsUnique newname dir fs fs' f v.n_files unique fresh (rw here titled) (rw here t.2) in
      let own' = retitled-IsOwned fs v.owner idx e (renamed newname e) refl refl own.1 in
      let bytes : content fs' (renamed newname e) ≡ content fs e =
        (IsOwned-set_file fs v.owner idx (renamed newname e) (renamed newname e) own'.0).1
        ∙ own'.1 in
      let at_new : is_file n d (file_at fs'.files idx) ≡ is_named n d newname dir =
        rw here (is_file-titled n d newname dir (renamed newname e) t.0 titled t.2) in
      let at_old : is_file n d e ≡ is_named n d oldname dir =
        is_file-titled n d oldname dir e t.0 t.1 t.2 in
      let finds : lookup oldname dir fs ≡ some (content fs e) = ground (arith, own.0) in
      let held : content fs' (file_at fs'.files idx) ≡ content fs e = rw here bytes in
      (
        unique',
        rw (lookup-Effect n d fs fs' f v.n_files own.0 unique unique', at_new, at_old, held, finds)
            refl,
      )

-- What is proved of a result of `fs_rename`.
abbrev pub Renames : Bytes → Bytes → Bytes → Fs → Bytes → Bytes → Fs × List Out → Type 0
Renames oldname newname dir fs n d r =
    IsUnique r.0 × (lookup n d r.0 ≡ rename_map oldname newname dir (map_of fs) n d)

-- In a valid state, `fs_rename` does on the map of names to contents what `rename_map` says, and no name
-- finds two files afterwards, if none did before and the new name fits its array.
pub fs_rename-Spec :
    (oldname newname dir n d : Bytes) (fs : Fs)
    → IsValid fs
    → IsUnique fs
    → kstrlen newname < name_len
    → Renames oldname newname dir fs n d (fs_rename oldname newname dir fs)
unfolding fs_rename
fs_rename-Spec oldname newname dir n d fs v unique short =
    let idx = find_file oldname dir fs.files in
    let there = has-lookup oldname dir fs in
    let taken = has-lookup newname dir fs in
    let P : Fs × List Out → Type 0 =
      λ (r : Fs × List Out). Effect idx fs r.0 → Renames oldname newname dir fs n d r in
    let all =
      if_cases P (kstrlen oldname == 0 || kstrlen newname == 0) _ _
        (λ no_name f. (unique, rw no_name refl))
        (λ named.
          if_cases P (idx == max_files) _ _ (λ missing f. (unique, ground arith))
            (λ found.
              if_cases P (ltb (find_file newname dir fs.files) max_files) _ _
                (λ taken_ f. (unique, ground arith))
                (λ fresh f.
                  let lt = (found-IsOwned oldname dir fs v (ground arith)).0 in
                  let r =
                    renamed-Spec oldname newname dir fs v unique short (ground arith)
                      (not_found newname dir fs v.n_files fresh) n d f in
                  let old : has (lookup oldname dir fs) ≡ true = ground (arith, lt) in
                  let new : has (lookup newname dir fs) ≡ false = taken ∙ fresh in
                  (r.0, rw (named, old, new) r.1)))) in
    all (fs_rename-Effect oldname newname dir fs v)
