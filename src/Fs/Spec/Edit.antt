-- ===== src/Fs/Spec/Edit.antt =====
-- `fs_edit` as an operation on the map.
use dug_os.Common.{
  ℕ, ◌+◌, ◌*◌, ◌≤◌, ◌≡◌, refl, sym, ap, ◌∙◌, ◌≢◌, true, false, List, [], ◌∷◌, ◌++◌, Option, some,
  length, length-append, arith, ◌==◌, if◌then◌else◌, if_cases, inl,
}
use dug_os.Strings.{Bytes, kstrlen}
use dug_os.Console.{Reply, newline}
use dug_os.Console.Reading.{All}
use dug_os.Console.Ensures.{Returns, Returns-say, Returns-read}
use dug_os.Fs.{
  Fs, FileEntry, n_blocks, block_size, max_files, fat_end, file_at, find_file, free_chain, content,
}
use dug_os.Fs.Input.{Buffer, collect}
use dug_os.Fs.Collect.{Fits}
use dug_os.Fs.Lines.{
  AreLines, is_dot, type_lines, text_of, append_lines, collect_lem, append_lines-text_of,
}
use dug_os.Fs.Invariant.{IsValid, file_at-set_self}
use dug_os.Fs.Invariant.Steps.{store_buffer_lem, valid_but, Change-free_chain}
use dug_os.Fs.Effect.{Effect, found-IsOwned}
use dug_os.Fs.Effect.Interactive.{edit_finish-Effect}
use dug_os.Fs.Command.{fs_edit, edit_finish, edit_prompt, set_file, store_buffer}
use dug_os.Fs.Lookup.{IsUnique, IsTerminated}
use dug_os.Fs.Spec.Copy.{is_full, store_buffer_room}
use dug_os.Fs.Spec.Slot.{filled-Slot}
use dug_os.Fs.Spec.Titled.{titled-IsTitled, found-IsTitled}
use dug_os.Fs.Spec.Write.{Stores, stored_entry-Stores}

-- The state once the old blocks are freed.
abbrev pub freed_file : ℕ → Fs → Fs
freed_file idx fs = record fs { fat = free_chain (file_at fs.files idx).first_block fs.fat }

content-nothing : (fs : Fs) (e : FileEntry) → e.size ≡ 0 → content fs e ≡ []
unfolding content
content-nothing fs e h = rw h refl

module _ (name dir n d : Bytes) (fs : Fs) (v : IsValid fs) (unique : IsUnique fs)
    (found : find_file name dir fs.files ≢ max_files)
    (ends : IsTerminated (file_at fs.files (find_file name dir fs.files))) where
  -- Behind the typing of lines.
  edit_finish-Stores :
      (b : Buffer) (text : Bytes) (keys : List ℕ)
      → b.tmp ≡ text
      → b.total ≡ length text
      → b.total ≤ n_blocks * block_size
      → let idx = find_file name dir fs.files in
        Stores name dir fs n d
          (if is_full (length text) (freed_file idx fs) then some [] else some text)
          (edit_finish name idx b fs keys).result
  unfolding edit_finish
  edit_finish-Stores b text keys holds counts small =
      let idx = find_file name dir fs.files in
      let start = freed_file idx fs in
      let own = found-IsOwned name dir fs v found in
      let c = Change-free_chain idx (file_at fs.files idx) fs (valid_but idx v) own.1 in
      let t = found-IsTitled name dir fs v found ends in
      let fits : Fits b = record {
        there = omega (arith, counts, ap length holds);
        small = small;
      } in
      let s = store_buffer_lem idx b start c.valid fits.there in
      let r = store_buffer b start in
      let full = store_buffer_room b start c.valid.sized in
      let same = s.same_files in
      let Good : Reply Fs → Type 0 = λ (q : Reply Fs).
        Effect idx fs q.result
        → Stores name dir fs n d (if is_full (length text) start then some [] else some text)
            q.result in
      let all =
        if_cases Good (r.0 == n_blocks) _ _
          (λ no_room f.
            let e : FileEntry = record (file_at r.1.files idx) {
              first_block = fat_end;
              size = 0;
            } in
            let kept : file_at r.1.files idx ≡ file_at fs.files idx = rw same refl in
            let fs' = set_file idx e r.1 in
            let here : file_at fs'.files idx ≡ e =
              file_at-set_self r.1.files idx e
                (omega (arith, own.0, c.valid.n_files, ap length same)) in
            let out : is_full (length text) start ≡ true = rw (← counts) (sym full ∙ no_room) in
            let texts =
              titled-IsTitled name dir (file_at fs.files idx) e t (ap (λ e. e.name) kept)
                (ap (λ e. e.dir) kept) in
            let used : (file_at fs'.files idx).used ≡ true =
              rw here (ap (λ e. e.used) kept ∙ t.used) in
            let bytes : content fs' (file_at fs'.files idx) ≡ [] =
              rw here (content-nothing fs' e refl) in
            let all =
              filled-Slot name dir n d fs fs' f v.n_files own.0 unique (inl (refl, found)) used
                (rw here texts.0) (rw here texts.1) in
            (all.0, all.1 ∙ rw (bytes, out) refl))
          (λ room f.
            let out : is_full (length text) start ≡ false = rw (← counts) (sym full ∙ room) in
            let all =
              stored_entry-Stores name dir n d text fs start v unique c own.0 (inl (refl, found)) t
                b holds counts small (ground arith) f in
            (all.0, all.1 ∙ rw out refl)) in
      all (edit_finish-Effect name b fs keys v own.0 own.1 own.2 fits)

  -- `fs_edit` of a file that is there returns once a line with a single "." is typed. Then the name finds
  -- the old bytes followed by the text of the lines typed before it; if the blocks that are free without
  -- the old ones cannot hold this, the name finds no bytes, the old ones are lost. Every other name finds
  -- what it found, and no name finds two files: in a valid state where none does, for an entry with a NUL
  -- in its arrays, and old bytes and lines that together fit the buffer.
  pub fs_edit-Spec :
      (ls : List (List ℕ)) (last rest : List ℕ)
      → AreLines ls
      → All (λ c. c ≢ newline) last
      → is_dot last ≡ true
      → kstrlen name ≢ 0
      → (file_at fs.files (find_file name dir fs.files)).size + length (text_of ls)
        ≤ n_blocks * block_size
      → let idx = find_file name dir fs.files in
        let text = content fs (file_at fs.files idx) ++ text_of ls in
        Returns
          (Stores name dir fs n d
            (if is_full (length text) (freed_file idx fs) then some [] else some text))
          (fs_edit name dir fs (type_lines ls (last ++ newline ∷ rest)))
  unfolding fs_edit
  fs_edit-Spec ls last rest lines last_line dotted named small =
      let idx = find_file name dir fs.files in
      let e = file_at fs.files idx in
      let own = found-IsOwned name dir fs v found in
      let text = content fs e ++ text_of ls in
      let start : Buffer = record { tmp = content fs e; total = e.size } in
      let b = append_lines start ls in
      let a = append_lines-text_of start ls (sym own.1.complete) small in
      let Q : Fs → Type 0 =
        Stores name dir fs n d
          (if is_full (length text) (freed_file idx fs) then some [] else some text) in
      let P : Option (Reply Fs) → Type 0 = Returns Q in
      if_cases P (kstrlen name == 0) _ _ (λ no_name. absurd (ground arith))
        (λ some_name.
          if_cases P (idx == max_files) _ _ (λ missing. absurd (ground arith))
            (λ there. Returns-say Q (edit_prompt name) _ (
              Returns-read Q (collect start (type_lines ls (last ++ newline ∷ rest))) _ b rest
                (collect_lem start ls last rest lines last_line dotted)
                (edit_finish-Stores b text rest a.0 a.1 (
                  omega (
                    arith,
                    a.1,
                    small,
                    own.1.complete,
                    length-append (content fs e) (text_of ls),
                  ))))))
