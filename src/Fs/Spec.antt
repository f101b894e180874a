-- ===== src/Fs/Spec.antt =====
-- The commands of src/fs.c on the file system as a map from names to contents.
pub mod Rename
pub mod Copy
pub mod Delete
pub mod Slot
pub mod Titled
pub mod Write
pub mod Edit
use dug_os.Common.{
  ℕ, zero, suc, ◌+◌, ◌/◌, ◌%◌, ◌<◌, ◌≤◌, ◌≡◌, refl, sym, ap, ◌∙◌, ◌≢◌, ◌↔◌, Bool, true, false, not,
  ◌&&◌, ◌||◌, List, [], ◌∷◌, ◌++◌, Option, none, some, length, arith, ltb, ◌==◌, if◌then◌else◌,
  if_cases, Bool-cases, inl, inr, ℕ_discrete,
}
use dug_os.Common.Int.{is_zero}
use dug_os.Strings.{Bytes, cstr, kstrlen, kstrcmp, kstrncpy}
use dug_os.Strings.Cstr.{kstrcmp_iff}
use dug_os.Strings.Copy.{cstr-kstrncpy}
use dug_os.Console.{Out}
use dug_os.Fs.{
  Fs, FileEntry, max_files, n_blocks, name_len, dir_len, file_at, name_ptr, dir_ptr, is_file,
  find_file, find_free_slot, content,
}
use dug_os.Fs.Find.{find_file_lem, IsFirst}
use dug_os.Fs.Invariant.{IsValid, HasArrays, file_at-set_self, IsOwned}
use dug_os.Fs.Invariant.Steps.{retitled-IsOwned}
use dug_os.Fs.Effect.{Effect, found-IsOwned}
use dug_os.Fs.Effect.Direct.{fs_rename-Effect, fs_copy-Effect}
use dug_os.Fs.Command.{fs_rename, fs_copy, set_file}
use dug_os.Fs.Lookup.{lookup, lookup-Effect, is_file-same, IsUnique}

-- What passes the test of `find_file`.
pub is_file_texts :
    (n d : Bytes) (e : FileEntry)
    → (is_file n d e ≡ true)
      ↔ ((e.used ≡ true) × (cstr (name_ptr e) ≡ cstr n) × (cstr (dir_ptr e) ≡ cstr d))
is_file_texts n d e = ground (arith, kstrcmp_iff (name_ptr e) n, kstrcmp_iff (dir_ptr e) d)

-- An entry is given a title that no file has: then names stay unique.
pub fresh-IsUnique :
    (name dir : Bytes) {idx : ℕ} (fs fs' : Fs)
    → Effect idx fs fs'
    → length fs.files ≡ max_files
    → IsUnique fs
    → find_file name dir fs.files ≡ max_files
    → cstr (name_ptr (file_at fs'.files idx)) ≡ cstr name
    → cstr (dir_ptr (file_at fs'.files idx)) ≡ cstr dir
    → IsUnique fs'
fresh-IsUnique name dir {idx} fs fs' f size unique fresh titled placed = go
  where
    clash :
        (n d : Bytes) (j : ℕ)
        → j < max_files
        → j ≢ idx
        → is_file n d (file_at fs'.files idx) ≡ true
        → is_file n d (file_at fs'.files j) ≡ true
        → ⊥
    clash n d j lt ne new old =
        let t = (is_file_texts n d (file_at fs'.files idx)).0 new in
        let e = f.entries j ne in
        let same =
          is_file-same n name d dir (file_at fs.files j) (sym t.1 ∙ titled) (sym t.2 ∙ placed) in
        elim (find_file_lem name dir fs.files) [
          | inl missing ↦ absurd (cc (missing.1 j (omega (arith, size)), same))
          | inr first ↦ absurd (omega (arith, first.in_table, size, fresh))
        ]

    go : IsUnique fs'
    go n d i j hi hj p q = elim (ℕ_discrete i idx) [
      | yes i_here ↦ elim (ℕ_discrete j idx) [
        | yes j_here ↦ i_here ∙ sym j_here
        | no j_other ↦ absurd (clash n d j hj j_other (rw i_here at p) q)
      ]
      | no i_other ↦ elim (ℕ_discrete j idx) [
        | yes j_here ↦ absurd (clash n d i hi i_other (rw j_here at q) p)
        | no j_other ↦
            let ei = f.entries i i_other in
            let ej = f.entries j j_other in unique n d i j hi hj (rw ei at p) (rw ej at q)
      ]
    ]

-- The texts at `n` and `d` are `name` and `dir`.
abbrev pub is_named : Bytes → Bytes → Bytes → Bytes → Bool
is_named n d name dir = is_zero (kstrcmp n name) && is_zero (kstrcmp d dir)

-- An entry with a title is found by this title only.
pub is_file-titled :
    (n d name dir : Bytes) (e : FileEntry)
    → e.used ≡ true
    → cstr (name_ptr e) ≡ cstr name
    → cstr (dir_ptr e) ≡ cstr dir
    → is_file n d e ≡ is_named n d name dir
is_file-titled n d name dir e u titled placed = ground (
  arith,
  kstrcmp_iff (name_ptr e) n,
  kstrcmp_iff (dir_ptr e) d,
  kstrcmp_iff n name,
  kstrcmp_iff d dir,
)

-- A map from names and directories to contents.
abbrev pub Files : Type 0
Files = Bytes → Bytes → Option Bytes

abbrev pub has : Option Bytes → Bool
has none = false
has (some c) = true

abbrev pub map_of : Fs → Files
map_of fs n d = lookup n d fs

-- What `rename` promises: it refuses an empty name, a file that is not there, and a new name that is
-- taken, and otherwise moves the content.
abbrev pub rename_map : Bytes → Bytes → Bytes → Files → Files
rename_map oldname newname dir m n d =
    if kstrlen oldname == 0 || kstrlen newname == 0
    then m n d
    else if not (has (m oldname dir))
    then m n d
    else if has (m newname dir)
    then m n d
    else if is_named n d newname dir
    then m oldname dir
    else if is_named n d oldname dir
    then none
    else m n d

-- What `copy` promises: it refuses an empty name, a source that is not there, a destination that is,
-- and a copy for which there is no room.
abbrev pub copy_map : Bytes → Bytes → Bytes → Bool → Files → Files
copy_map src dst dir no_room m n d =
    if kstrlen src == 0 || kstrlen dst == 0
    then m n d
    else if not (has (m src dir))
    then m n d
    else if has (m dst dir)
    then m n d
    else if no_room
    then m n d
    else if is_named n d dst dir
    then m src dir
    else m n d

-- What `fdel` promises for a file that is there.
abbrev pub delete_map : Bytes → Bytes → Bool → Files → Files
delete_map name dir confirmed m n d = if confirmed && is_named n d name dir then none else m n d

-- A search that finds a file finds a content.
pub has-lookup :
    (n d : Bytes) (fs : Fs) → has (lookup n d fs) ≡ ltb (find_file n d fs.files) max_files
has-lookup n d fs = ground arith
