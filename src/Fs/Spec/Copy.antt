-- ===== src/Fs/Spec/Copy.antt =====
-- `fs_copy` as an operation on the map.
use dug_os.Common.{
  ℕ, ◌*◌, ◌<◌, ◌≡◌, refl, sym, ap, ◌∙◌, ◌≢◌, Bool, true, false, ◌||◌, List, [], ◌∷◌, ◌/◌, ◌%◌, some,
  length, take_all, arith, ltb, ◌==◌, if◌then◌else◌, if_cases,
}
use dug_os.Strings.{Bytes, cstr, kstrlen, kstrncpy}
use dug_os.Strings.Copy.{cstr-kstrncpy}
use dug_os.Console.{Out}
use dug_os.Fs.{
  Fs, FileEntry, n_blocks, block_size, max_files, name_len, dir_len, file_at, name_ptr, dir_ptr,
  is_file, find_file, find_free_slot, content,
}
use dug_os.Fs.Write.{IsSized}
use dug_os.Fs.Write.Room.{free_blocks, write_to_blocks_room}
use dug_os.Fs.Input.{Buffer}
use dug_os.Fs.Invariant.{IsValid, HasArrays, file_at-set_self}
use dug_os.Fs.Invariant.Steps.{store_buffer_lem, IsOwned-set_file, valid_but}
use dug_os.Fs.Effect.{Effect, found-IsOwned, free_slot_unused}
use dug_os.Fs.Effect.Direct.{fs_copy-Effect}
use dug_os.Fs.Command.{fs_copy, copy_finish, set_file, store_buffer}
use dug_os.Fs.Lookup.{lookup, lookup-Effect, IsUnique}
use dug_os.Fs.Spec.{fresh-IsUnique, is_named, is_file-titled, has, map_of, copy_map, has-lookup}
use dug_os.Fs.Spec.Rename.{not_found}

-- The free blocks cannot hold `size` bytes.
abbrev pub is_full : ℕ → Fs → Bool
is_full size fs = ltb (free_blocks fs.fat * block_size) size

-- Collected bytes are stored exactly if the free blocks can hold them.
pub store_buffer_room :
    (b : Buffer) (fs : Fs) → IsSized fs → ((store_buffer b fs).0 == n_blocks) ≡ is_full b.total fs
store_buffer_room b fs sized =
    if_cases (λ (r : ℕ × Fs). (r.0 == n_blocks) ≡ is_full b.total fs) (b.total == 0) _ _
      (λ none_left. ground arith)
      (λ some_left. ground (arith, write_to_blocks_room b.tmp b.total fs sized))

-- An unused entry is found by no name.
pub unused_is_file : (n d : Bytes) (e : FileEntry) → e.used ≡ false → is_file n d e ≡ false
unused_is_file n d e u = ground arith

-- Work on blocks alone does not move a content.
pub same_files-lookup :
    (n d : Bytes) {idx : ℕ} (fs fs' : Fs)
    → Effect idx fs fs'
    → length fs.files ≡ max_files
    → idx < max_files
    → IsUnique fs
    → fs'.files ≡ fs.files
    → (file_at fs.files idx).used ≡ false
    → IsUnique fs' × (lookup n d fs' ≡ lookup n d fs)
same_files-lookup n d {idx} fs fs' f size lt unique same u =
    let unique' : IsUnique fs' = rw same unique in
    let old = unused_is_file n d (file_at fs.files idx) u in
    let new : is_file n d (file_at fs'.files idx) ≡ false = rw same old in
    (unique', lookup-Effect n d fs fs' f size lt unique unique' ∙ rw (new, old) refl)

-- A free slot becomes a file with a title that no file has.
pub new_file :
    (name dir n d : Bytes) {idx : ℕ} (fs fs' : Fs)
    → Effect idx fs fs'
    → length fs.files ≡ max_files
    → idx < max_files
    → IsUnique fs
    → find_file name dir fs.files ≡ max_files
    → (file_at fs.files idx).used ≡ false
    → (file_at fs'.files idx).used ≡ true
    → cstr (name_ptr (file_at fs'.files idx)) ≡ cstr name
    → cstr (dir_ptr (file_at fs'.files idx)) ≡ cstr dir
    → IsUnique fs'
      × (lookup n d fs' ≡ (
          if is_named n d name dir
          then some (content fs' (file_at fs'.files idx))
          else lookup n d fs))
new_file name dir n d {idx} fs fs' f size lt unique fresh free u titled placed =
    let unique' = fresh-IsUnique name dir fs fs' f size unique fresh titled placed in
    let old = unused_is_file n d (file_at fs.files idx) free in
    let new = is_file-titled n d name dir (file_at fs'.files idx) u titled placed in
    (unique', lookup-Effect n d fs fs' f size lt unique unique' ∙ rw (new, old) refl)

-- The entry that `fs_copy` fills.
abbrev filled : Bytes → Bytes → ℕ → ℕ → FileEntry → FileEntry
filled dst dir first size d = record {
  name = kstrncpy d.name dst name_len;
  dir = kstrncpy d.dir dir dir_len;
  first_block = first;
  size = size;
  used = true;
}

-- A filled entry has the title, if the texts are short.
pub filled-titled :
    (dst dir : Bytes) (first size : ℕ) (d : FileEntry)
    → HasArrays d
    → kstrlen dst < name_len
    → kstrlen dir < dir_len
    → (cstr (name_ptr (filled dst dir first size d)) ≡ cstr dst)
      × (cstr (dir_ptr (filled dst dir first size d)) ≡ cstr dir)
filled-titled dst dir first size d arrays short short_dir = (
  cstr-kstrncpy d.name dst (dir_ptr (filled dst dir first size d)) name_len short
      (omega (arith, arrays.0)),
  cstr-kstrncpy d.dir dir (first % 256 ∷ first / 256 ∷ 0 ∷ 0 ∷ []) dir_len short_dir
      (omega (arith, arrays.1)),
)

module _ (src dst dir : Bytes) (fs : Fs) (v : IsValid fs) (unique : IsUnique fs)
    (short : kstrlen dst < name_len) (short_dir : kstrlen dir < dir_len)
    (found : find_file src dir fs.files ≢ max_files)
    (fresh : find_file dst dir fs.files ≡ max_files)
    (slot : find_free_slot fs.files ≢ max_files) where
  copied-Spec :
      (n d : Bytes)
      → let didx = find_free_slot fs.files in
        let s = file_at fs.files (find_file src dir fs.files) in
        let b : Buffer = record { tmp = content fs s; total = s.size } in
        let r = store_buffer b fs in
        let fs' = set_file didx (filled dst dir r.0 s.size (file_at r.1.files didx)) r.1 in
        Effect didx fs fs'
        → r.0 ≢ n_blocks
        → IsUnique fs'
          × (lookup n d fs' ≡ (if is_named n d dst dir then lookup src dir fs else lookup n d fs))
  copied-Spec n d f room =
      let didx = find_free_slot fs.files in
      let s = file_at fs.files (find_file src dir fs.files) in
      let b : Buffer = record { tmp = content fs s; total = s.size } in
      let r = store_buffer b fs in
      let e = filled dst dir r.0 s.size (file_at r.1.files didx) in
      let fs' = set_file didx e r.1 in
      let own = found-IsOwned src dir fs v found in
      let stored = store_buffer_lem didx b fs (valid_but didx v) (omega (arith, own.1.complete)) in
      let free = free_slot_unused fs v slot in
      let arrays : HasArrays (file_at r.1.files didx) =
        let same = stored.same_files in rw same free.2 in
      let t = filled-titled dst dir r.0 s.size (file_at r.1.files didx) arrays short short_dir in
      let here : file_at fs'.files didx ≡ e =
        file_at-set_self r.1.files didx e
          (omega (arith, free.0, v.n_files, ap length stored.same_files)) in
      let kept = stored.stored room e refl refl in
      let bytes : content fs' (file_at fs'.files didx) ≡ content fs s = rw here (
        (IsOwned-set_file r.1 stored.change.valid.owner didx e e kept.0).1
        ∙ kept.1
        ∙ take_all s.size (content fs s) (omega (arith, own.1.complete))) in
      let finds : lookup src dir fs ≡ some (content fs s) = ground (arith, own.0) in
      let all =
        new_file dst dir n d fs fs' f v.n_files free.0 unique fresh free.1 (rw here refl)
          (rw here t.0) (rw here t.1) in
      (all.0, all.1 ∙ rw (bytes, finds) refl)

abbrev pub Copies : Bytes → Bytes → Bytes → Bool → Fs → Bytes → Bytes → Fs × List Out → Type 0
Copies src dst dir no_room fs n d r =
    IsUnique r.0 × (lookup n d r.0 ≡ copy_map src dst dir no_room (map_of fs) n d)

-- No slot or too few blocks are free for a copy of the file.
abbrev pub no_room : Bytes → Bytes → Fs → Bool
no_room src dir fs =
    find_free_slot fs.files == max_files
    || is_full (file_at fs.files (find_file src dir fs.files)).size fs

-- In a valid state, `fs_copy` does on the map of names to contents what `copy_map` says, and no name finds
-- two files afterwards, if none did before and the texts fit their arrays. It fails for want of room
-- exactly when no slot is free, or the free blocks are too few for the source.
pub fs_copy-Spec :
    (src dst dir n d : Bytes) (fs : Fs)
    → IsValid fs
    → IsUnique fs
    → kstrlen dst < name_len
    → kstrlen dir < dir_len
    → Copies src dst dir (no_room src dir fs) fs n d (fs_copy src dst dir fs)
unfolding fs_copy copy_finish
fs_copy-Spec src dst dir n d fs v unique short short_dir =
    let sidx = find_file src dir fs.files in
    let didx = find_free_slot fs.files in
    let s = file_at fs.files sidx in
    let b : Buffer = record { tmp = content fs s; total = s.size } in
    let r = store_buffer b fs in
    let there = has-lookup src dir fs in
    let taken = has-lookup dst dir fs in
    let full = store_buffer_room b fs v.sized in
    let P : Fs × List Out → Type 0 = λ (q : Fs × List Out).
      Effect didx fs q.0 → Copies src dst dir (no_room src dir fs) fs n d q in
    let all =
      if_cases P (kstrlen src == 0 || kstrlen dst == 0) _ _ (λ no_name f. (unique, rw no_name refl))
        (λ named.
          if_cases P (sidx == max_files) _ _ (λ missing f. (unique, ground arith))
            (λ found.
              let old : has (lookup src dir fs) ≡ true =
                ground (arith, (found-IsOwned src dir fs v (ground arith)).0) in
              if_cases P (ltb (find_file dst dir fs.files) max_files) _ _
                (λ is_taken f. (unique, ground arith))
                (λ fresh.
                  let new : has (lookup dst dir fs) ≡ false = taken ∙ fresh in
                  if_cases P (didx == max_files) _ _
                    (λ no_slot f. (unique, rw (named, old, new, no_slot) refl))
                    (λ slot.
                      let free = free_slot_unused fs v (ground arith) in
                      let own = found-IsOwned src dir fs v (ground arith) in
                      let stored =
                        store_buffer_lem didx b fs (valid_but didx v)
                          (omega (arith, own.1.complete)) in
                      if_cases P (r.0 == n_blocks) _ _
                        (λ no_blocks f.
                          let kept =
                            same_files-lookup n d fs r.1 f v.n_files free.0 unique stored.same_files
                              free.1 in
                          let out : is_full s.size fs ≡ true = sym full ∙ no_blocks in
                          (kept.0, rw (named, old, new, slot, out) kept.1))
                        (λ room f.
                          let done =
                            copied-Spec src dst dir fs v unique short short_dir (ground arith)
                              (not_found dst dir fs v.n_files fresh) (ground arith) n d f
                              (ground arith) in
                          let out : is_full s.size fs ≡ false = sym full ∙ room in
                          (done.0, rw (named, old, new, slot, out) done.1)))))) in
    all (fs_copy-Effect src dst dir fs v)
