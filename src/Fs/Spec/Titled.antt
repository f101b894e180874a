-- ===== src/Fs/Spec/Titled.antt =====
-- Entries whose arrays hold a name and a directory, each with its NUL, and how they come about.
use dug_os.Common.{ℕ, ◌/◌, ◌%◌, ◌<◌, ◌≡◌, refl, sym, ◌∙◌, ◌≢◌, true, [], ◌∷◌, length, arith}
use dug_os.Strings.{Bytes, cstr, kstrlen, kstrncpy}
use dug_os.Strings.Cstr.{cstr-append}
use dug_os.Strings.Copy.{length-kstrncpy, kstrncpy_ends}
use dug_os.Fs.{
  Fs, FileEntry, max_files, name_len, dir_len, fat_end, file_at, name_ptr, dir_ptr, find_file,
}
use dug_os.Fs.Invariant.{IsValid, HasArrays, file_at-set_self}
use dug_os.Fs.Effect.{found-IsOwned}
use dug_os.Fs.Command.{reset_file, claim_slot}
use dug_os.Fs.Lookup.{IsTerminated}
use dug_os.Fs.Spec.Rename.{found_texts}

-- An entry with arrays that end in a NUL, whose texts are the name and the directory.
pub record IsTitled (name dir : Bytes) (e : FileEntry) : Type 0 where
  pub used : e.used ≡ true
  pub arrays : HasArrays e
  pub ends : IsTerminated e
  pub named : cstr e.name ≡ cstr name
  pub placed : cstr e.dir ≡ cstr dir

-- Its texts do not depend on its block and size.
pub titled-IsTitled :
    (name dir : Bytes) (e e' : FileEntry)
    → IsTitled name dir e
    → e'.name ≡ e.name
    → e'.dir ≡ e.dir
    → (cstr (name_ptr e') ≡ cstr name) × (cstr (dir_ptr e') ≡ cstr dir)
titled-IsTitled name dir e e' t same_name same_dir = (
  rw same_name (cstr-append e.name (dir_ptr e') (omega (arith, t.arrays.0, t.ends.0)) ∙ t.named),
  rw same_dir (
      cstr-append e.dir (e'.first_block % 256 ∷ e'.first_block / 256 ∷ 0 ∷ 0 ∷ [])
        (omega (arith, t.arrays.1, t.ends.1))
      ∙ t.placed),
)

-- The entry of an existing file is titled.
pub found-IsTitled :
    (name dir : Bytes) (fs : Fs) (v : IsValid fs)
    → find_file name dir fs.files ≢ max_files
    → IsTerminated (file_at fs.files (find_file name dir fs.files))
    → IsTitled name dir (file_at fs.files (find_file name dir fs.files))
found-IsTitled name dir fs v found ends =
    let e = file_at fs.files (find_file name dir fs.files) in
    let own = found-IsOwned name dir fs v found in
    let t = found_texts name dir fs found in
    record {
      used = t.0;
      arrays = own.2;
      ends = ends;
      named = sym (cstr-append e.name (dir_ptr e) (omega (arith, own.2.0, ends.0))) ∙ t.1;
      placed =
          sym (
            cstr-append e.dir (e.first_block % 256 ∷ e.first_block / 256 ∷ 0 ∷ 0 ∷ [])
              (omega (arith, own.2.1, ends.1)))
          ∙ t.2;
    }

pub reset-IsTitled :
    (name dir : Bytes) (idx : ℕ) (fs : Fs)
    → idx < length fs.files
    → IsTitled name dir (file_at fs.files idx)
    → IsTitled name dir (file_at (reset_file idx fs).files idx)
reset-IsTitled name dir idx fs lt t =
    let here =
      file_at-set_self fs.files idx
        (record (file_at fs.files idx) { first_block = fat_end; size = 0 }) lt in
    rw here (record {
      used = t.used;
      arrays = t.arrays;
      ends = t.ends;
      named = t.named;
      placed = t.placed;
    })

pub claim-IsTitled :
    (name dir : Bytes) (idx : ℕ) (fs : Fs)
    → idx < length fs.files
    → HasArrays (file_at fs.files idx)
    → kstrlen name < name_len
    → kstrlen dir < dir_len
    → IsTitled name dir (file_at (claim_slot name dir idx fs).files idx)
claim-IsTitled name dir idx fs lt arrays short short_dir =
    let e = file_at fs.files idx in
    let n = kstrncpy_ends e.name name name_len short arrays.0 in
    let d = kstrncpy_ends e.dir dir dir_len short_dir arrays.1 in
    let e' : FileEntry = record e {
      name = kstrncpy e.name name name_len;
      dir = kstrncpy e.dir dir dir_len;
      used = true;
    } in
    let here : file_at (claim_slot name dir idx fs).files idx ≡ e' =
      file_at-set_self fs.files idx e' lt in
    rw here (record {
      used = refl;
      arrays = (
        length-kstrncpy e.name name name_len ∙ arrays.0,
        length-kstrncpy e.dir dir dir_len ∙ arrays.1,
      );
      ends = (n.1, d.1);
      named = n.0;
      placed = d.0;
    })
