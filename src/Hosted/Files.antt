-- ===== src/Hosted/Files.antt =====
-- The file commands of dug_os.c. The streams of the C library are files by name, as far as the host, a
-- parameter, lets the program create and change them.
use dug_os.Common.{
  ℕ, zero, suc, ◌+◌, Bool, true, false, not, ◌&&◌, ◌||◌, List, [], ◌∷◌, ◌++◌, Option, none, some,
  ◌==◌, if◌then◌else◌, length, take, drop,
}
use dug_os.Common.Int.{is_zero}
use dug_os.Strings.{Bytes, codes, cstr, kstrlen, kstrcmp, head_byte}
use dug_os.Hosted.{Print, text, str, fgets, trim}

-- What the commands use of the host.
pub record Host (H : Type 0) : Type 0 where
  pub getcwd : H → Option Bytes
  pub chdir : Bytes → H → Option H
  pub mkdir : Bytes → H → Option H
  pub rmdir : Bytes → H → Option H
  pub clock : H → Bytes
  pub allows : Bytes → H → Bool
  -- the file that a name stands for, which other names may stand for too
  pub file : Bytes → H → Bytes

-- The state of the program, with its input, the files of the host by what `file` gives, and the rest of the
-- host.
pub record World (H : Type 0) : Type 0 where
  pub input : Bytes
  pub files : Bytes → Option Bytes
  pub host : H
  pub cwd : Bytes
  pub shutdown_started : Bool
  pub os_running : Bool

abbrev pub set_file : Bytes → Option Bytes → (Bytes → Option Bytes) → Bytes → Option Bytes
set_file file content files other = if is_zero (kstrcmp other file) then content else files other

-- What `err` prints.
abbrev pub err : List Print → List Print → List Print
err cmd msg = text "  [" ∷ (cmd ++ text "] Error: " ∷ (msg ++ text "\n" ∷ []))

-- `!filename || strlen(filename) == 0`
abbrev pub no_name : Option Bytes → Bool
no_name none = true
no_name (some name) = kstrlen name == 0

abbrev pub named : Option Bytes → Bytes
named none = []
named (some name) = name

-- The loop of `cmd_fwrite` and `cmd_fedit`, with the bytes that went to the stream: the input that is
-- left, the stream, and the prompts.
unfoldable pub type_lines : ℕ → Bytes → Bytes → Bytes × Bytes × List Print
type_lines zero input content = (input, content, [])
type_lines (suc n) input content = elim (fgets 256 input) [
  | none ↦ (input, content, [])
  | some r ↦
      let trimmed = trim (cstr r.0) in
      let (input', content', out) = type_lines n r.1 (content ++ trimmed.1) in
      if is_zero (kstrcmp trimmed.0 (codes "."))
      then (r.1, content, [])
      else (input', content', text "  > " ∷ out)
]

-- What can be read from a stream.
abbrev pub contents : Option Bytes → Bytes
contents none = []
contents (some bytes) = bytes

-- `fopen` of this file for reading succeeds.
abbrev pub exists : {H : Type 0} → Bytes → World H → Bool
exists file w = elim (w.files file) [ none ↦ false | some b ↦ true ]

-- `strtok` with '\n' alone: the lines of a chunk that are not empty.
unfoldable pub chunk_lines : Bytes → Bytes → List Bytes
chunk_lines line [] = if length line == 0 then [] else line ∷ []
chunk_lines line (c ∷ p) =
    let next = chunk_lines [] p in
    let longer = chunk_lines (line ++ c ∷ []) p in
    if c == 10 then if length line == 0 then next else line ∷ next else longer

abbrev pub show_lines : List Bytes → List Print
show_lines [] = []
show_lines (l ∷ ls) = text "  " ∷ str l ∷ text "\n" ∷ show_lines ls

-- The loops of `cmd_fread`, over chunks of 4095 bytes.
unfoldable pub show_chunks : ℕ → Bytes → List Print
unfolding chunk_lines
show_chunks zero bytes = []
show_chunks (suc n) bytes =
    let rest = show_chunks n (drop 4095 bytes) in
    if length bytes == 0 then [] else show_lines (chunk_lines [] (cstr (take 4095 bytes))) ++ rest

-- `while ((n = fread(buf, 1, 4096, in)) > 0) fwrite(buf, 1, n, out);`, with fuel for its rounds, the
-- place that `in` is at, and the two files, which may be the same one.
unfoldable pub copy_loop : ℕ → ℕ → Bytes → Bytes → (Bytes → Option Bytes) → Bytes → Option Bytes
copy_loop zero at from to files = files
copy_loop (suc n) at from to files =
    let buf = take 4096 (drop at (contents (files from))) in
    let rest =
      copy_loop n (at + length buf) from to
        (set_file to (some (contents (files to) ++ buf)) files) in
    if length buf == 0 then files else rest

module _ {H : Type 0} (host : Host H) where
  unfoldable pub cmd_fread : Option Bytes → World H → List Print
  unfolding show_chunks
  cmd_fread filename w =
      let name = named filename in
      if no_name filename
      then err (text "fread" ∷ []) (text "usage: fread <filename>" ∷ [])
      else elim (w.files (host.file name w.host)) [
        | none ↦ err (text "fread" ∷ []) (text "file not found" ∷ [])
        | some bytes ↦
            (text "  ---- " ∷ str name ∷ text " ----\n" ∷ show_chunks (length bytes) bytes)
            ++ text "  ---- EOF ----\n" ∷ []
      ]

  -- The lines that are typed go behind `start` in the file.
  abbrev pub store_lines : Bytes → Bytes → World H → World H × List Print
  store_lines name start w =
      let (input', content, out) = type_lines (suc (length w.input)) w.input start in
      (
        record w {
          input = input';
          files = set_file (host.file name w.host) (some content) w.files;
        },
        text "  > " ∷ out,
      )

  unfoldable pub cmd_fwrite : Option Bytes → World H → World H × List Print
  unfolding type_lines
  cmd_fwrite filename w =
      let name = named filename in
      let (w', out) = store_lines name [] w in
      if no_name filename
      then (w, err (text "fwrite" ∷ []) (text "usage: fwrite <filename>" ∷ []))
      else if not (host.allows name w.host)
      then (w, err (text "fwrite" ∷ []) (text "cannot create file" ∷ []))
      else (
        w',
        (text "  Enter content. Type a single dot '.' on a new line to finish:\n" ∷ out)
            ++ text "  [fwrite] '" ∷ str name ∷ text "' written successfully.\n" ∷ [],
      )

  unfoldable pub cmd_fedit : Option Bytes → World H → World H × List Print
  unfolding type_lines
  cmd_fedit filename w =
      let name = named filename in
      if no_name filename
      then (w, err (text "fedit" ∷ []) (text "usage: fedit <filename>" ∷ []))
      else elim (w.files (host.file name w.host)) [
        | none ↦ (
          w,
          err (text "fedit" ∷ []) (text "file not found -- use fwrite to create it first" ∷ []),
        )
        | some old ↦
            let (w', out) = store_lines name old w in
            if not (host.allows name w.host)
            then (w, err (text "fedit" ∷ []) (text "cannot open file for editing" ∷ []))
            else (
              w',
              (text "  Appending to '"
                    ∷ str name
                    ∷ text "'. Type '.' on a new line to finish:\n"
                    ∷ out)
                  ++ text "  [fedit] '" ∷ str name ∷ text "' updated successfully.\n" ∷ [],
            )
      ]

  -- A question that takes a line: whether the answer is yes, `none` at the end of the input.
  abbrev pub confirm : World H → Option (Bool × World H)
  confirm w = elim (fgets 8 w.input) [
    | none ↦ none
    | some r ↦
        let c = head_byte (trim (cstr r.0)).0 in
        some (c == b'y' || c == b'Y', record w { input = r.1 })
  ]

  unfoldable pub cmd_fdel : Option Bytes → World H → World H × List Print
  cmd_fdel filename w =
      let name = named filename in
      let question = text "  Delete '" ∷ str name ∷ text "'? (y/n): " ∷ [] in
      if no_name filename
      then (w, err (text "fdel" ∷ []) (text "usage: fdel <filename>" ∷ []))
      else elim (confirm w) [
        | none ↦ (w, question)
        | some r ↦
            if not r.0
            then (r.1, question ++ text "  [fdel] Cancelled.\n" ∷ [])
            else if exists (host.file name r.1.host) r.1 && host.allows name r.1.host
            then (
              record r.1 { files = set_file (host.file name r.1.host) none r.1.files },
              question ++ text "  [fdel] '" ∷ str name ∷ text "' deleted.\n" ∷ [],
            )
            else (
              r.1,
              question
                  ++ err (text "fdel" ∷ []) (text "could not delete file (does it exist?)" ∷ []),
            )
      ]

  unfoldable pub cmd_rename : Option Bytes → Option Bytes → World H → World H × List Print
  cmd_rename oldname newname w =
      let old = named oldname in
      let new = named newname in
      if no_name oldname || no_name newname
      then (w, err (text "rename" ∷ []) (text "usage: rename <old> <new>" ∷ []))
      else if exists (host.file old w.host) w && host.allows old w.host && host.allows new w.host
      then (
        record w {
          files =
              set_file (host.file new w.host) (w.files (host.file old w.host))
                (set_file (host.file old w.host) none w.files);
        },
        text "  [rename] '" ∷ str old ∷ text "' -> '" ∷ str new ∷ text "'\n" ∷ [],
      )
      else (w, err (text "rename" ∷ []) (text "could not rename file" ∷ []))

  unfoldable pub cmd_copy : Option Bytes → Option Bytes → World H → World H × List Print
  unfolding copy_loop
  cmd_copy src dst w =
      let from = host.file (named src) w.host in
      let to = host.file (named dst) w.host in
      -- `fopen(dst, "wb")` empties the file before `src` is read
      let emptied = set_file to (some []) w.files in
      let rounds = suc (length (contents (emptied from))) in
      if no_name src || no_name dst
      then (w, err (text "copy" ∷ []) (text "usage: copy <source> <destination>" ∷ []))
      else if not (exists from w)
      then (w, err (text "copy" ∷ []) (text "source file not found" ∷ []))
      else if not (host.allows (named dst) w.host)
      then (w, err (text "copy" ∷ []) (text "cannot create destination file" ∷ []))
      else (
        record w { files = copy_loop rounds 0 from to emptied },
        text "  [copy] '" ∷ str (named src) ∷ text "' -> '" ∷ str (named dst) ∷ text "'\n" ∷ [],
      )
