-- ===== src/Fs/Command.antt =====
-- The commands of src/fs.c. Each takes the keys that will be typed, and returns the new state, the
-- keys that it left, and what it wrote on the console.
use dug_os.Common.{
  ℕ, ◌+◌, Bool, true, false, not, ◌&&◌, ◌||◌, List, [], ◌∷◌, ◌++◌, Option, some, ltb, ◌==◌,
  if◌then◌else◌, get_or, set,
}
use dug_os.Common.Int.{is_zero}
use dug_os.Strings.{Bytes, cstr, kstrlen, kstrcmp, kstrncpy}
use dug_os.Console.{
  Out, Reply, answer, say, ◌>>=◌, set_color, putchar, write, write_bytes, write_dec, writeln,
  writeln_bytes, in_red, in_green, in_cyan, white, newline, readline,
}
use dug_os.Fs.{
  Fs, FileEntry, n_blocks, max_files, name_len, dir_len, fat_end, file_at, name_ptr, dir_ptr,
  free_chain, find_file, find_free_slot, write_to_blocks, content,
}
use dug_os.Fs.Input.{Buffer, collect}

-- `files[idx]` with new values.
abbrev pub set_file : ℕ → FileEntry → Fs → Fs
set_file idx e fs = record fs { files = set fs.files idx e }

-- `(total == 0) ? FAT_END : write_to_blocks(tmp, total)`
abbrev pub store_buffer : Buffer → Fs → ℕ × Fs
store_buffer b fs = if b.total == 0 then (fat_end, fs) else write_to_blocks b.tmp b.total fs

-- `fs_write` from the writing of the collected bytes on.
unfoldable pub write_finish : Bytes → ℕ → Buffer → Fs → List ℕ → Reply Fs
write_finish name idx b fs keys =
    let (first, fs') = store_buffer b fs in
    let e = file_at fs'.files idx in
    if first == n_blocks
    then answer (set_file idx (record e { used = false }) fs') keys
        (in_red (writeln "  [fwrite] Error: disk full -- not enough free blocks" []))
    else answer (set_file idx (record e { first_block = first; size = b.total }) fs') keys
        (in_green (write "  [fwrite] '" ∷ write_bytes name ∷ writeln "' written successfully." []))

abbrev pub write_prompt : List Out
write_prompt =
    set_color white ∷ writeln "  Enter content. Type a single '.' on a new line to finish:" []

-- `fs_write` from the prompt on, with the slot `idx` ready.
unfoldable pub write_body : Bytes → ℕ → Fs → List ℕ → Option (Reply Fs)
unfolding write_finish
write_body name idx fs keys = say write_prompt (
    collect (record { tmp = []; total = 0 }) keys >>= λ b rest.
    some (write_finish name idx b fs rest))

-- An existing file loses its blocks.
abbrev pub reset_file : ℕ → Fs → Fs
reset_file idx fs =
    let e = file_at fs.files idx in
    record fs {
      fat = free_chain e.first_block fs.fat;
      files = set fs.files idx (record e { first_block = fat_end; size = 0 });
    }

-- A free slot is taken for a new file.
abbrev pub claim_slot : Bytes → Bytes → ℕ → Fs → Fs
claim_slot name dir idx fs =
    let e = file_at fs.files idx in
    set_file idx
      (record e {
        name = kstrncpy e.name name name_len;
        dir = kstrncpy e.dir dir dir_len;
        used = true;
      })
      fs

unfoldable pub fs_write : Bytes → Bytes → Fs → List ℕ → Option (Reply Fs)
unfolding write_body
fs_write name dir fs keys =
    let idx = find_file name dir fs.files in
    let slot = find_free_slot fs.files in
    if kstrlen name == 0
    then some (answer fs keys (in_red (writeln "  [fwrite] Error: usage: fwrite <filename>" [])))
    else if ltb idx max_files
    then write_body name idx (reset_file idx fs) keys
    else if slot == max_files
    then some
        (answer fs keys (in_red (writeln "  [fwrite] Error: directory is full (max 32 files)" [])))
    else write_body name slot (claim_slot name dir slot fs) keys

-- The inner loop of `fs_read`: a character, and the indent behind a '\n'.
unfoldable pub show_bytes : Bytes → List Out
show_bytes [] = []
show_bytes (c ∷ s) =
    if c == newline then putchar c ∷ write "  " ∷ show_bytes s else putchar c ∷ show_bytes s

unfoldable pub fs_read : Bytes → Bytes → Fs → List Out
unfolding show_bytes
fs_read name dir fs =
    let idx = find_file name dir fs.files in
    let e = file_at fs.files idx in
    if kstrlen name == 0
    then in_red (writeln "  [fread] Error: usage: fread <filename>" [])
    else if idx == max_files
    then in_red (write "  [fread] Error: file not found: " ∷ writeln_bytes name [])
    else in_cyan (write "  ---- " ∷ write_bytes name ∷ writeln " ----" [])
      ++ (if e.first_block == fat_end || e.size == 0
          then writeln "  (empty file)" []
          else write "  " ∷ (show_bytes (content fs e) ++ putchar newline ∷ []))
      ++ in_cyan (writeln "  ---- EOF ----" [])

-- `fs_edit` from the freeing of the old blocks on.
unfoldable pub edit_finish : Bytes → ℕ → Buffer → Fs → List ℕ → Reply Fs
edit_finish name idx b fs keys =
    let freed = record fs { fat = free_chain (file_at fs.files idx).first_block fs.fat } in
    let (first, fs') = store_buffer b freed in
    let e = file_at fs'.files idx in
    if first == n_blocks
    then answer (set_file idx (record e { first_block = fat_end; size = 0 }) fs') keys
        (in_red (writeln "  [fedit] Error: disk full" []))
    else answer (set_file idx (record e { first_block = first; size = b.total }) fs') keys
        (in_green (write "  [fedit] '" ∷ write_bytes name ∷ writeln "' updated successfully." []))

abbrev pub edit_prompt : Bytes → List Out
edit_prompt name =
    set_color white
    ∷ write "  Appending to '"
    ∷ write_bytes name
    ∷ writeln "'. Type '.' to finish:" []

unfoldable pub fs_edit : Bytes → Bytes → Fs → List ℕ → Option (Reply Fs)
unfolding edit_finish
fs_edit name dir fs keys =
    let idx = find_file name dir fs.files in
    let e = file_at fs.files idx in
    if kstrlen name == 0
    then some (answer fs keys (in_red (writeln "  [fedit] Error: usage: fedit <filename>" [])))
    else if idx == max_files
    then some (
        answer fs keys (
          in_red (
            write "  [fedit] Error: file not found: "
            ∷ writeln_bytes name (writeln "  Use fwrite to create it first." []))))
    else say (edit_prompt name) (
        collect (record { tmp = content fs e; total = e.size }) keys >>= λ b rest.
        some (edit_finish name idx b fs rest))

-- `ans[0]` of the four bytes that `readline` has filled.
abbrev pub is_yes : Bytes → Bool
is_yes ans = get_or ans 0 0 == b'y' || get_or ans 0 0 == b'Y'

-- The slot that `fs_delete` leaves.
abbrev pub cleared : FileEntry → FileEntry
cleared e = record e { used = false; size = 0; first_block = fat_end; name = set e.name 0 0 }

abbrev pub delete_prompt : Bytes → List Out
delete_prompt name = write "  Delete '" ∷ write_bytes name ∷ write "'? (y/n): " ∷ []

unfoldable pub fs_delete : Bytes → Bytes → Fs → List ℕ → Option (Reply Fs)
fs_delete name dir fs keys =
    let idx = find_file name dir fs.files in
    let e = file_at fs.files idx in
    if kstrlen name == 0
    then some (answer fs keys (in_red (writeln "  [fdel] Error: usage: fdel <filename>" [])))
    else if idx == max_files
    then some
        (answer fs keys (in_red (write "  [fdel] Error: file not found: " ∷ writeln_bytes name [])))
    else say (delete_prompt name) (
        readline 4 keys >>= λ ans rest.
        if is_yes ans
        then some (
            answer
              (record fs {
                fat = free_chain e.first_block fs.fat;
                files = set fs.files idx (cleared e);
              })
              rest (in_green (write "  [fdel] '" ∷ write_bytes name ∷ writeln "' deleted." [])))
        else some (answer fs rest (writeln "  [fdel] Cancelled." [])))

unfoldable pub fs_rename : Bytes → Bytes → Bytes → Fs → Fs × List Out
fs_rename oldname newname dir fs =
    let idx = find_file oldname dir fs.files in
    let e = file_at fs.files idx in
    if kstrlen oldname == 0 || kstrlen newname == 0
    then (fs, in_red (writeln "  [rename] Error: usage: rename <old> <new>" []))
    else if idx == max_files
    then (fs, in_red (write "  [rename] Error: file not found: " ∷ writeln_bytes oldname []))
    else if ltb (find_file newname dir fs.files) max_files
    then (
      fs,
      in_red (write "  [rename] Error: '" ∷ write_bytes newname ∷ writeln "' already exists" []),
    )
    else (
      set_file idx (record e { name = kstrncpy e.name newname name_len }) fs,
      in_green (
          write "  [rename] '"
          ∷ write_bytes oldname
          ∷ write "' -> '"
          ∷ write_bytes newname
          ∷ writeln "'" []),
    )

-- `fs_copy` from the writing of the copied bytes on.
unfoldable pub copy_finish : Bytes → Bytes → Bytes → ℕ → Buffer → Fs → Fs × List Out
copy_finish src dst dir didx b fs =
    let (first, fs') = store_buffer b fs in
    let d = file_at fs'.files didx in
    if first == n_blocks then (fs', in_red (writeln "  [copy] Error: disk full" [])) else (
      set_file didx
          (record {
            name = kstrncpy d.name dst name_len;
            dir = kstrncpy d.dir dir dir_len;
            first_block = first;
            size = b.total;
            used = true;
          })
          fs',
      in_green (
          write "  [copy] '" ∷ write_bytes src ∷ write "' -> '" ∷ write_bytes dst ∷ writeln "'" []),
    )

unfoldable pub fs_copy : Bytes → Bytes → Bytes → Fs → Fs × List Out
unfolding copy_finish
fs_copy src dst dir fs =
    let sidx = find_file src dir fs.files in
    let didx = find_free_slot fs.files in
    let s = file_at fs.files sidx in
    if kstrlen src == 0 || kstrlen dst == 0
    then (fs, in_red (writeln "  [copy] Error: usage: copy <source> <destination>" []))
    else if sidx == max_files
    then (fs, in_red (write "  [copy] Error: source not found: " ∷ writeln_bytes src []))
    else if ltb (find_file dst dir fs.files) max_files
    then (fs, in_red (write "  [copy] Error: destination already exists: " ∷ writeln_bytes dst []))
    else if didx == max_files
    then (fs, in_red (writeln "  [copy] Error: directory full" []))
    else copy_finish src dst dir didx (record { tmp = content fs s; total = s.size }) fs

-- The loop of `fs_list`: what it writes, and `count`.
list_from : Bytes → List FileEntry → List Out × ℕ
list_from dir [] = ([], 0)
list_from dir (e ∷ files) =
    let (out, count) = list_from dir files in
    if not e.used || not (is_zero (kstrcmp (dir_ptr e) dir)) then (out, count) else (
      write "  "
          ∷ write_bytes (cstr (name_ptr e))
          ∷ write "  ("
          ∷ write_dec e.size
          ∷ writeln " bytes)" out,
      count + 1,
    )

unfoldable pub fs_list : Bytes → Fs → List Out
unfolding list_from
fs_list dir fs =
    let (out, count) = list_from dir fs.files in
    if count == 0 then out ++ writeln "  (no files in this directory)" [] else out

-- The loop of `fs_dir_empty`.
dir_empty_from : Bytes → List FileEntry → Bool
dir_empty_from dir [] = true
dir_empty_from dir (e ∷ files) =
    if e.used && is_zero (kstrcmp (dir_ptr e) dir) then false else dir_empty_from dir files

unfoldable pub fs_dir_empty : Bytes → Fs → Bool
unfolding dir_empty_from
fs_dir_empty dir fs = dir_empty_from dir fs.files
