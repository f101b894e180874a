-- ===== src/Fs/Spec/Write.antt =====
-- `fs_write` as an operation on the map.
use dug_os.Common.{
  ℕ, ◌*◌, ◌<◌, ◌≤◌, ◌≡◌, refl, sym, ap, ◌∙◌, ◌≢◌, true, false, List, [], ◌∷◌, ◌++◌, Option, none,
  some, length, take_all, arith, ltb, ◌==◌, if◌then◌else◌, if_cases, inl, inr,
}
use dug_os.Strings.{Bytes, kstrlen}
use dug_os.Console.{Reply, newline}
use dug_os.Console.Reading.{All}
use dug_os.Console.Ensures.{Returns, Returns-say, Returns-read}
use dug_os.Fs.{
  Fs, FileEntry, n_blocks, block_size, max_files, name_len, dir_len, file_at, find_file,
  find_free_slot, content,
}
use dug_os.Fs.Input.{Buffer, collect}
use dug_os.Fs.Collect.{Fits}
use dug_os.Fs.Lines.{
  AreLines, is_dot, type_lines, text_of, append_lines, collect_lem, append_lines-text_of,
}
use dug_os.Fs.Invariant.{IsValid, Change, file_at-set_self}
use dug_os.Fs.Invariant.Steps.{
  store_buffer_lem, IsOwned-set_file, valid_but, Change-free, Change-set_file,
}
use dug_os.Fs.Effect.{Effect, found-IsOwned, free_slot_unused}
use dug_os.Fs.Effect.Interactive.{write_slot, write_finish-Effect}
use dug_os.Fs.Command.{
  fs_write, write_finish, write_body, write_prompt, reset_file, claim_slot, set_file, store_buffer,
}
use dug_os.Fs.Lookup.{lookup, IsUnique, IsTerminated}
use dug_os.Fs.Spec.{is_named}
use dug_os.Fs.Spec.Rename.{not_found, found_texts}
use dug_os.Fs.Spec.Copy.{is_full, store_buffer_room}
use dug_os.Fs.Spec.Slot.{IsSlotOf, filled-Slot, dropped-Slot}
use dug_os.Fs.Spec.Titled.{
  IsTitled, titled-IsTitled, found-IsTitled, reset-IsTitled, claim-IsTitled,
}

-- What a file holds once the collected text is stored.
abbrev pub Stores : Bytes → Bytes → Fs → Bytes → Bytes → Option Bytes → Fs → Type 0
Stores name dir fs n d held fs' =
    IsUnique fs' × (lookup n d fs' ≡ (if is_named n d name dir then held else lookup n d fs))

module _ (name dir n d text : Bytes) {idx : ℕ} (fs start : Fs) (v : IsValid fs)
    (unique : IsUnique fs) (c : Change idx fs start) (lt : idx < max_files)
    (slot : IsSlotOf name dir idx fs) (t : IsTitled name dir (file_at start.files idx)) (b : Buffer)
    (holds : b.tmp ≡ text) (counts : b.total ≡ length text)
    (small : b.total ≤ n_blocks * block_size) where
  -- The slot with the stored bytes.
  abbrev filled_slot : Fs
  filled_slot =
      let r = store_buffer b start in
      set_file idx (record (file_at r.1.files idx) { first_block = r.0; size = b.total }) r.1

  pub stored_entry-Stores :
      (store_buffer b start).0 ≢ n_blocks
      → Effect idx fs filled_slot
      → Stores name dir fs n d (some text) filled_slot
  stored_entry-Stores room f =
      let s = store_buffer_lem idx b start c.valid (omega (arith, counts, ap length holds)) in
      let r = store_buffer b start in
      let same = s.same_files in
      let old = file_at r.1.files idx in
      let e : FileEntry = record old { first_block = r.0; size = b.total } in
      let kept : old ≡ file_at start.files idx = rw same refl in
      let here : file_at filled_slot.files idx ≡ e =
        file_at-set_self r.1.files idx e (omega (arith, lt, c.valid.n_files, ap length same)) in
      let texts =
        titled-IsTitled name dir (file_at start.files idx) e t (ap (λ e. e.name) kept)
          (ap (λ e. e.dir) kept) in
      let own = s.stored room e refl refl in
      let bytes : content filled_slot (file_at filled_slot.files idx) ≡ text = rw here (
        (IsOwned-set_file r.1 s.change.valid.owner idx e e own.0).1
        ∙ own.1
        ∙ take_all b.total b.tmp (omega (arith, counts, ap length holds))
        ∙ holds) in
      let used : (file_at filled_slot.files idx).used ≡ true =
        rw here (ap (λ e. e.used) kept ∙ t.used) in
      let all =
        filled-Slot name dir n d fs filled_slot f v.n_files lt unique slot used (rw here texts.0)
          (rw here texts.1) in
      (all.0, all.1 ∙ rw bytes refl)

  write_finish-Stores :
      (keys : List ℕ)
      → Stores name dir fs n d
          (if is_full (length text) start then none else some text)
          (write_finish name idx b start keys).result
  unfolding write_finish
  write_finish-Stores keys =
      let fits : Fits b = record {
        there = omega (arith, counts, ap length holds);
        small = small;
      } in
      let s = store_buffer_lem idx b start c.valid fits.there in
      let r = store_buffer b start in
      let full = store_buffer_room b start c.valid.sized in
      let same = s.same_files in
      let Good : Reply Fs → Type 0 = λ (q : Reply Fs).
        Effect idx fs q.result
        → Stores name dir fs n d (if is_full (length text) start then none else some text)
            q.result in
      let all =
        if_cases Good (r.0 == n_blocks) _ _
          (λ no_room f.
            let e = record (file_at r.1.files idx) { used = false } in
            let here : file_at (set_file idx e r.1).files idx ≡ e =
              file_at-set_self r.1.files idx e
                (omega (arith, lt, c.valid.n_files, ap length same)) in
            let out : is_full (length text) start ≡ true = rw (← counts) (sym full ∙ no_room) in
            let all =
              dropped-Slot name dir n d fs (set_file idx e r.1) f v.n_files lt unique slot
                (rw here refl) in
            (all.0, all.1 ∙ rw out refl))
          (λ room f.
            let out : is_full (length text) start ≡ false = rw (← counts) (sym full ∙ room) in
            let all = stored_entry-Stores (ground arith) f in (all.0, all.1 ∙ rw out refl)) in
      all (write_finish-Effect name b fs start keys c lt t.arrays fits)

-- The state in which `fs_write` collects and stores the text: an existing file has lost its blocks, a
-- new one has its slot.
abbrev pub write_start : Bytes → Bytes → Fs → Fs
write_start name dir fs =
    let idx = find_file name dir fs.files in
    if ltb idx max_files
    then reset_file idx fs
    else claim_slot name dir (find_free_slot fs.files) fs

module _ (name dir n d : Bytes) (fs : Fs) (v : IsValid fs) (unique : IsUnique fs)
    (ls : List (List ℕ)) (last rest : List ℕ) (lines : AreLines ls)
    (last_line : All (λ c. c ≢ newline) last) (dotted : is_dot last ≡ true)
    (small : length (text_of ls) ≤ n_blocks * block_size) where
  write_body-Stores :
      {idx : ℕ} (start : Fs)
      → Change idx fs start
      → idx < max_files
      → IsSlotOf name dir idx fs
      → IsTitled name dir (file_at start.files idx)
      → Returns
          (Stores name dir fs n d
            (if is_full (length (text_of ls)) start then none else some (text_of ls)))
          (write_body name idx start (type_lines ls (last ++ newline ∷ rest)))
  unfolding write_body
  write_body-Stores {idx} start c lt slot t =
      let P =
        Stores name dir fs n d
          (if is_full (length (text_of ls)) start then none else some (text_of ls)) in
      let empty : Buffer = record { tmp = []; total = 0 } in
      let b = append_lines empty ls in
      let a = append_lines-text_of empty ls refl (omega (arith, small)) in
      Returns-say P write_prompt _ (
        Returns-read P (collect empty (type_lines ls (last ++ newline ∷ rest))) _ b rest
          (collect_lem empty ls last rest lines last_line dotted)
          (write_finish-Stores name dir n d (text_of ls) fs start v unique c lt slot t b a.0 a.1
            (omega (arith, a.1, small)) rest))

  -- `fs_write` returns once a line with a single "." is typed. Then the name finds the text of the lines
  -- typed before it, or nothing if the free blocks cannot hold this text, every other name finds what it
  -- found, and no name finds two files: in a valid state where none does, for a name and a directory that
  -- fit their arrays, lines that fit the buffer, entries with a NUL in their arrays, and a slot for the
  -- file.
  pub fs_write-Spec :
      kstrlen name ≢ 0
      → kstrlen name < name_len
      → kstrlen dir < dir_len
      → write_slot name dir fs ≢ max_files
      → ((i : ℕ)
          → i < max_files
          → (file_at fs.files i).used ≡ true
          → IsTerminated (file_at fs.files i))
      → let start = write_start name dir fs in
        Returns
          (Stores name dir fs n d
            (if is_full (length (text_of ls)) start then none else some (text_of ls)))
          (fs_write name dir fs (type_lines ls (last ++ newline ∷ rest)))
  unfolding fs_write
  fs_write-Spec named short short_dir room ends =
      let idx = find_file name dir fs.files in
      let free = find_free_slot fs.files in
      let P : Option (Reply Fs) → Type 0 = Returns (
        Stores name dir fs n d (
          if is_full (length (text_of ls)) (write_start name dir fs)
          then none
          else some (text_of ls))) in
      if_cases P (kstrlen name == 0) _ _ (λ no_name. absurd (ground arith))
        (λ some_name.
          if_cases P (ltb idx max_files) _ _
            (λ found.
              let own = found-IsOwned name dir fs v (ground arith) in
              let here : write_start name dir fs ≡ reset_file idx fs = rw found refl in
              rw here (
                write_body-Stores (reset_file idx fs)
                  (Change-free idx (file_at fs.files idx) _ fs (valid_but idx v) own.1) own.0
                  (inl (refl, ground arith))
                  (reset-IsTitled name dir idx fs (omega (arith, own.0, v.n_files)) (
                    found-IsTitled name dir fs v (ground arith)
                      (ends idx own.0 (found_texts name dir fs (ground arith)).0)))))
            (λ new.
              if_cases P (free == max_files) _ _ (λ full. absurd (ground arith))
                (λ slot.
                  let own = free_slot_unused fs v (ground arith) in
                  let here : write_start name dir fs ≡ claim_slot name dir free fs = rw new refl in
                  rw here (
                    write_body-Stores (claim_slot name dir free fs)
                      (Change-set_file free _ fs (valid_but free v)) own.0
                      (inr (not_found name dir fs v.n_files new, own.1))
                      (claim-IsTitled name dir free fs (omega (arith, own.0, v.n_files)) own.2 short
                        short_dir)))))
