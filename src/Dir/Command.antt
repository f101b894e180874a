-- ===== src/Dir/Command.antt =====
-- The commands of src/dir.c. `none` is an answer that is not typed to its end.
use dug_os.Common.{
  ℕ, zero, suc, ◌+◌, ◌-◌, not, List, [], ◌∷◌, ◌++◌, Option, some, ltb, leb, ◌==◌, if◌then◌else◌,
  set, take,
}
use dug_os.Common.Int.{is_zero}
use dug_os.Strings.{Bytes, kstrlen, kstrcmp, kstrncpy}
use dug_os.Console.{
  Out, Reply, answer, say, ◌>>=◌, write, write_bytes, writeln, writeln_bytes, in_red, in_green,
  in_cyan, readline,
}
use dug_os.Fs.{Fs}
use dug_os.Fs.Command.{fs_dir_empty, fs_list, is_yes}
use dug_os.Dir.{
  Dirs, dir_name_len, dir_max, root_path, row, cwd, find_dir, build_path, parent_path,
  is_immediate_child,
}

abbrev pub dotdot : Bytes
dotdot = b'.' ∷ b'.' ∷ []

-- `dir_mkdir` with the path built.
unfoldable pub mkdir_path : Bytes → Dirs → Dirs × List Out
mkdir_path newpath st =
    if ltb (find_dir newpath st) dir_max
    then (
      st,
      in_red (write "  [mkdir] Error: directory already exists: " ∷ writeln_bytes newpath []),
    )
    else (
      record st {
        dirs = set st.dirs st.dir_count (kstrncpy (row st.dirs st.dir_count) newpath dir_name_len);
        dir_count = st.dir_count + 1;
      },
      in_green (write "  [mkdir] Directory '" ∷ write_bytes newpath ∷ writeln "' created." []),
    )

unfoldable pub dir_mkdir : Bytes → Dirs → Dirs × List Out
unfolding mkdir_path
dir_mkdir name st =
    if kstrlen name == 0
    then (st, in_red (writeln "  [mkdir] Error: usage: mkdir <dirname>" []))
    else if leb dir_max st.dir_count
    then (st, in_red (writeln "  [mkdir] Error: maximum number of directories reached" []))
    else mkdir_path (build_path name st) st

-- The path that `dir_cd` looks for.
unfoldable pub cd_path : Bytes → Dirs → Bytes
cd_path target st =
    if is_zero (kstrcmp target dotdot)
    then parent_path (cwd st)
    else if is_zero (kstrcmp target root_path)
    then root_path
    else build_path target st

-- `dir_cd` with the path built.
unfoldable pub cd_to : Bytes → Dirs → Dirs × List Out
cd_to newpath st =
    let idx = find_dir newpath st in
    if idx == dir_max
    then (st, in_red (write "  [cd] Error: directory not found: " ∷ writeln_bytes newpath []))
    else (
      record st { cwd_idx = idx },
      in_green (write "  [cd] Now in: " ∷ writeln_bytes (row st.dirs idx) []),
    )

unfoldable pub dir_cd : Bytes → Dirs → Dirs × List Out
unfolding cd_path cd_to
dir_cd target st =
    if kstrlen target == 0
    then (st, in_red (writeln "  [cd] Error: usage: cd <dirname>" []))
    else cd_to (cd_path target st) st

-- `for (i = idx; i < dir_count - 1; i++) kstrncpy(dirs[i], dirs[i + 1], DIR_NAME_LEN);`, with the number
-- of its rounds.
unfoldable pub shift_rows : ℕ → ℕ → List Bytes → List Bytes
shift_rows zero i dirs = dirs
shift_rows (suc n) i dirs =
    shift_rows n (i + 1) (set dirs i (kstrncpy (row dirs i) (row dirs (i + 1)) dir_name_len))

-- What `dir_rmdir` does once it is confirmed.
unfoldable pub remove_row : ℕ → Dirs → Dirs
unfolding shift_rows
remove_row idx st =
    let last = st.dir_count - 1 in
    let shifted = shift_rows (last - idx) idx st.dirs in
    record {
      dirs = set shifted last (set (row shifted last) 0 0);
      dir_count = last;
      cwd_idx = if ltb idx st.cwd_idx then st.cwd_idx - 1 else st.cwd_idx;
    }

abbrev pub rmdir_prompt : Bytes → List Out
rmdir_prompt target = write "  Delete directory '" ∷ write_bytes target ∷ write "'? (y/n): " ∷ []

-- `dir_rmdir` with the path built.
unfoldable pub rmdir_path : Bytes → Fs → Dirs → List ℕ → Option (Reply Dirs)
unfolding remove_row
rmdir_path target fs st keys =
    let idx = find_dir target st in
    if is_zero (kstrcmp target root_path)
    then some (answer st keys (in_red (writeln "  [rmdir] Error: cannot remove root directory" [])))
    else if idx == dir_max
    then some (
        answer st keys
          (in_red (write "  [rmdir] Error: directory not found: " ∷ writeln_bytes target [])))
    else if idx == st.cwd_idx
    then some (
        answer st keys
          (in_red (writeln "  [rmdir] Error: cannot remove current working directory" [])))
    else if not (fs_dir_empty target fs)
    then some (
        answer st keys
          (in_red (write "  [rmdir] Error: directory is not empty: " ∷ writeln_bytes target [])))
    else say (rmdir_prompt target) (
        readline 4 keys >>= λ ans rest.
        if is_yes ans
        then some (
            answer (remove_row idx st) rest
              (in_green (write "  [rmdir] '" ∷ write_bytes target ∷ writeln "' removed." [])))
        else some (answer st rest (writeln "  [rmdir] Cancelled." [])))

unfoldable pub dir_rmdir : Bytes → Fs → Dirs → List ℕ → Option (Reply Dirs)
unfolding rmdir_path
dir_rmdir name fs st keys =
    if kstrlen name == 0
    then some (answer st keys (in_red (writeln "  [rmdir] Error: usage: rmdir <dirname>" [])))
    else rmdir_path (build_path name st) fs st keys

-- The loop of `dir_ls`.
ls_from : Bytes → List Bytes → List Out
ls_from path [] = []
ls_from path (r ∷ rows) =
    if is_immediate_child r path
    then write "  [DIR]  " ∷ writeln_bytes r (ls_from path rows)
    else ls_from path rows

unfoldable pub dir_ls : Fs → Dirs → List Out
unfolding ls_from
dir_ls fs st =
    in_cyan (write "  Directory listing: " ∷ writeln_bytes (cwd st) (writeln "" []))
    ++ ls_from (cwd st) (take st.dir_count st.dirs)
    ++ fs_list (cwd st) fs
