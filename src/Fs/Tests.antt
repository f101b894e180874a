-- ===== src/Fs/Tests.antt =====
-- src/fs.c at a file system with one file: "a" in "/", whose block 1 holds "hi".
use dug_os.Common.{List, ◌++◌, if◌then◌else◌, ap, ◌≤◌, none, some, true, length, ◌+◌}
use dug_os.Fs.{max_files, file_at, content, zero_entry, find_free_slot}
use dug_os.Common.{
  ℕ, zero, suc, ◌+◌, ◌*◌, ◌↔◌, ◌<◌, ◌≤◌, ◌≡◌, refl, ap, ◌≢◌, true, false, [], ◌∷◌, some, length,
  get_or, arith, inl,
}
use dug_os.Strings.{kstrlen, kstrcmp}
use dug_os.Fs.{n_blocks, block_size, zero_entry, file_at, find_file, content, fat_end, fs_init, bss}
use dug_os.Fs.Invariant.{IsValid}
use dug_os.Console.{newline, readline}
use dug_os.Console.Reading.{value}
use dug_os.Console.Ensures.{Returns}
use dug_os.Fs.{free_chain, read_chain, write_to_blocks, find_free_slot}
use dug_os.Fs.Alloc.{IsFree}
use dug_os.Fs.Free.{free_chain-frees, free_chain_ends, free_chain-block_zero, goes_on}
use dug_os.Fs.{free_loop}
use dug_os.Fs.Write.Loop.{Leaves}
use dug_os.Fs.Write.Room.{free_blocks, write_to_blocks_room}
use dug_os.Fs.Write.Roundtrip.{write_to_blocks-read_chain}
use dug_os.Fs.Command.{fs_rename, fs_copy, fs_delete}
use dug_os.Fs.Session.{boot, next, rename, copy, Reachable-IsValid}
use dug_os.Strings.{cstr}
use dug_os.Console.{edit}
use dug_os.Console.Reading.{All}
use dug_os.Fs.Input.{trim_line}
use dug_os.Fs.Lines.{AreLines, is_dot, type_lines, text_of}
use dug_os.Fs.Command.{fs_write, fs_edit}
use dug_os.Fs.Effect.Interactive.{write_slot}
use dug_os.Fs.Lookup.{IsTerminated}
use dug_os.Fs.Spec.Copy.{is_full}
use dug_os.Fs.Spec.Write.{Stores, write_start, fs_write-Spec}
use dug_os.Fs.Spec.Edit.{freed_file, fs_edit-Spec}
use dug_os.Fs.Spec.Rename.{Renames, fs_rename-Spec}
use dug_os.Fs.Spec.Copy.{Copies, no_room, fs_copy-Spec}
use dug_os.Fs.Spec.Delete.{Deletes, fs_delete-Spec}
use dug_os.Fs.Sample.{
  name_a, name_b, root, sample, file_a, sample-IsValid, sample-IsUnique, sample-unused, found_a,
  kstrlen-root, kstrlen_a, kstrlen_b,
}

Reachable-IsValid_example :
    IsValid (fs_copy name_a name_b root (fs_rename name_a name_b root (fs_init bss)).0).0
Reachable-IsValid_example =
    Reachable-IsValid (next (next boot (rename name_a name_b root)) (copy name_a name_b root))

fs_rename-Spec_example :
    Renames name_a name_b root sample name_b root (fs_rename name_a name_b root sample)
fs_rename-Spec_example =
    fs_rename-Spec name_a name_b root name_b root sample sample-IsValid sample-IsUnique
      (omega (arith, kstrlen_b))

fs_copy-Spec_example :
    Copies name_a name_b root
      (no_room name_a root sample)
      sample
      name_b
      root
      (fs_copy name_a name_b root sample)
fs_copy-Spec_example =
    fs_copy-Spec name_a name_b root name_b root sample sample-IsValid sample-IsUnique
      (omega (arith, kstrlen_b)) (omega (arith, kstrlen-root))

yes_typed : value (readline 4 (b'y' ∷ newline ∷ [])) ≡ some (b'y' ∷ [], [])
unfolding readline
yes_typed = refl

fs_delete-Spec_example :
    Returns
      (Deletes name_a root true sample name_a root)
      (fs_delete name_a root sample (b'y' ∷ newline ∷ []))
fs_delete-Spec_example =
    fs_delete-Spec name_a root name_a root (b'y' ∷ []) sample (b'y' ∷ newline ∷ []) []
      sample-IsValid sample-IsUnique (omega (arith, kstrlen_a)) (omega (arith, found_a)) yes_typed

bytes_3 : 3 ≤ free_blocks sample.fat * block_size
unfolding block_size
bytes_3 = omega arith

write_to_blocks-read_chain_example :
    let (r, fs') = write_to_blocks (7 ∷ 8 ∷ 9 ∷ []) 3 sample in
    (r ≢ n_blocks) × (read_chain fs' 3 r 3 ≡ 7 ∷ 8 ∷ 9 ∷ []) × Leaves sample fs' fat_end
write_to_blocks-read_chain_example =
    write_to_blocks-read_chain (7 ∷ 8 ∷ 9 ∷ []) 3 sample sample-IsValid.sized (omega arith) bytes_3

write_to_blocks_room_example :
    ((write_to_blocks (7 ∷ []) 1 sample).0 ≡ n_blocks) ↔ (free_blocks sample.fat * block_size < 1)
write_to_blocks_room_example = write_to_blocks_room (7 ∷ []) 1 sample sample-IsValid.sized

free_chain-frees_example : IsFree (free_chain 1 sample.fat) 1
free_chain-frees_example =
    free_chain-frees (λ j. j ≡ j) 1 1 1 sample.fat (omega arith)
      (omega arith, refl, omega arith, refl) (inl refl)

free_chain_ends_example : goes_on (free_loop 9 1 sample.fat).0 ≡ false
free_chain_ends_example = free_chain_ends 1 sample.fat refl

free_chain-block_zero_example : get_or (free_chain 2 (7 ∷ 9 ∷ 1 ∷ [])) 0 0 ≡ 7
free_chain-block_zero_example = free_chain-block_zero 2 (7 ∷ 9 ∷ 1 ∷ [])

-- the keys of a line "hi", and those of the last line
abbrev hi_lines : List (List ℕ)
hi_lines = (b'h' ∷ b'i' ∷ []) ∷ []

abbrev dot_line : List ℕ
dot_line = b'.' ∷ []

hi_AreLines : AreLines hi_lines
unfolding edit trim_line kstrlen kstrcmp
hi_AreLines = ((omega arith, (omega arith, tt)), refl, tt)

dot_line-All : All (λ c. c ≢ newline) dot_line
dot_line-All = (omega arith, tt)

dot_line_dotted : is_dot dot_line ≡ true
unfolding edit trim_line kstrlen kstrcmp
dot_line_dotted = refl

hi_text : text_of hi_lines ≡ b'h' ∷ b'i' ∷ newline ∷ []
unfolding edit trim_line kstrlen cstr
hi_text = refl

hi_small : 2 + length (text_of hi_lines) ≤ n_blocks * block_size
unfolding block_size
hi_small = omega (arith, ap length hi_text)

sample_slot : write_slot name_b root sample ≡ 1
unfolding find_file find_free_slot kstrcmp zero_entry
sample_slot = refl

file_a-IsTerminated : IsTerminated file_a
unfolding kstrlen
file_a-IsTerminated = (omega arith, omega arith)

sample-IsTerminated :
    (i : ℕ)
    → i < max_files
    → (file_at sample.files i).used ≡ true
    → IsTerminated (file_at sample.files i)
sample-IsTerminated zero h u = file_a-IsTerminated
sample-IsTerminated (suc i) h u = let unused = sample-unused i in absurd (cc)

fs_write-Spec_example :
    Returns
      (Stores name_b root sample name_b root (
        if is_full (length (text_of hi_lines)) (write_start name_b root sample)
        then none
        else some (text_of hi_lines)))
      (fs_write name_b root sample (type_lines hi_lines (dot_line ++ newline ∷ [])))
fs_write-Spec_example =
    fs_write-Spec name_b root name_b root sample sample-IsValid sample-IsUnique hi_lines dot_line []
      hi_AreLines dot_line-All dot_line_dotted (omega (arith, hi_small)) (omega (arith, kstrlen_b))
      (omega (arith, kstrlen_b)) (omega (arith, kstrlen-root)) (omega (arith, sample_slot))
      sample-IsTerminated

fs_edit-Spec_example :
    let idx = find_file name_a root sample.files in
    let text = content sample (file_at sample.files idx) ++ text_of hi_lines in
    Returns
      (Stores name_a root sample name_a root
        (if is_full (length text) (freed_file idx sample) then some [] else some text))
      (fs_edit name_a root sample (type_lines hi_lines (dot_line ++ newline ∷ [])))
fs_edit-Spec_example =
    fs_edit-Spec name_a root name_a root sample sample-IsValid sample-IsUnique
      (omega (arith, found_a)) (let e = found_a in rw e file_a-IsTerminated) hi_lines dot_line []
      hi_AreLines dot_line-All dot_line_dotted (omega (arith, kstrlen_a))
      (let e = found_a in rw e hi_small)
