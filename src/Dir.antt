-- ===== src/Dir.antt =====
-- src/dir.c and src/dir.h: the table of directories, the working directory, and the helpers on paths.
-- The commands are in `Command`.
pub mod Command
pub mod Find
pub mod Valid
pub mod Remove
pub mod Spec
pub mod Keeps
pub mod Build
pub mod Paths
pub mod Parent
mod Tests
use dug_os.Common.{
  ℕ, zero, suc, ◌+◌, ◌-◌, Bool, true, false, not, ◌&&◌, ◌||◌, List, [], ◌∷◌, Option, none, some,
  ltb, leb, ◌==◌, if◌then◌else◌, get_or, set, take, drop, replicate, ◌++◌,
}
use dug_os.Common.Int.{is_zero}
use dug_os.Strings.{Bytes, head_byte, kstrlen, kstrcmp, kstrncmp, kstrncpy}

abbrev pub dir_name_len : ℕ
dir_name_len = 64

abbrev pub dir_max : ℕ
dir_max = 32

-- The three static variables of dir.c.
pub record Dirs : Type 0 where
  pub dirs : List Bytes
  pub dir_count : ℕ
  pub cwd_idx : ℕ

abbrev pub slash : ℕ
slash = b'/'

abbrev pub root_path : Bytes
root_path = slash ∷ []

-- `dirs[i]`
abbrev pub row : List Bytes → ℕ → Bytes
row dirs i = get_or dirs i []

-- `dirs[cwd_idx]`
abbrev pub cwd : Dirs → Bytes
cwd st = row st.dirs st.cwd_idx

-- The loop of `find_dir`, over the rows that are in use.
find_dir_from : Bytes → List Bytes → ℕ → ℕ
find_dir_from path [] i = dir_max
find_dir_from path (r ∷ rows) i =
    if is_zero (kstrcmp r path) then i else find_dir_from path rows (i + 1)

unfoldable pub find_dir : Bytes → Dirs → ℕ
unfolding find_dir_from
find_dir path st = find_dir_from path (take st.dir_count st.dirs) 0

-- A local buffer of `DIR_NAME_LEN` bytes.
abbrev pub buffer : Bytes
buffer = replicate dir_name_len 0

-- `build_path` for an absolute name. The buffer has no NUL if the name fills it.
unfoldable pub build_absolute : Bytes → Bytes
build_absolute name =
    let out = kstrncpy buffer name dir_name_len in
    let len = kstrlen out in
    if ltb 1 len && get_or out (len - 1) 0 == slash then set out (len - 1) 0 else out

-- The working directory, and a separator behind it.
unfoldable pub with_separator : Bytes → Bytes
with_separator path =
    let out = kstrncpy buffer path dir_name_len in
    let clen = kstrlen out in
    if not (is_zero (kstrcmp path root_path)) && ltb clen (dir_name_len - 2)
    then set (set out clen slash) (clen + 1) 0
    else out

-- `build_path` for a relative name. The buffer has no NUL if the name fills what is left of it.
unfoldable pub build_relative : Bytes → Bytes → Bytes
unfolding with_separator
build_relative path name =
    let out = with_separator path in
    let off = kstrlen out in take off out ++ kstrncpy (drop off out) name (dir_name_len - off)

unfoldable pub build_path : Bytes → Dirs → Bytes
build_path name st =
    if head_byte name == slash then build_absolute name else build_relative (cwd st) name

-- `while (len > 0 && out[len - 1] != '/') len--;`
unfoldable pub walk_back : Bytes → ℕ → ℕ
walk_back out zero = zero
walk_back out (suc n) =
    let rest = walk_back out n in if get_or out n 0 == slash then suc n else rest

unfoldable pub parent_path : Bytes → Bytes
unfolding walk_back
parent_path path =
    let out = kstrncpy buffer path dir_name_len in
    let len = walk_back out (kstrlen out) in
    if is_zero (kstrcmp path root_path)
    then root_path
    else if leb len 1
    then root_path
    else set out (len - 1) 0

-- `while (*rest) { if (*rest == '/') return 0; rest++; }`: no separator before the NUL.
unfoldable pub one_name : Bytes → Bool
one_name [] = true
one_name (c ∷ rest) = if c == 0 then true else if c == slash then false else one_name rest

unfoldable pub is_immediate_child : Bytes → Bytes → Bool
unfolding one_name
is_immediate_child child parent =
    let plen = kstrlen parent in
    let rest = drop (plen + 1) child in
    if is_zero (kstrcmp parent root_path)
    then if not (head_byte child == slash)
      then false
      else if head_byte (drop 1 child) == 0
      then false
      else one_name (drop 1 child)
    else if not (is_zero (kstrncmp child parent plen))
    then false
    else if not (get_or child plen 0 == slash)
    then false
    else if one_name rest
    then not (head_byte rest == 0)
    else false

unfoldable pub dir_init : Dirs → Dirs
dir_init st = record {
  dirs = set st.dirs 0 (set (set (row st.dirs 0) 0 slash) 1 0);
  dir_count = 1;
  cwd_idx = 0;
}

-- The table as the boot loader leaves it.
unfoldable pub bss_dirs : Dirs
bss_dirs = record {
  dirs = replicate dir_max (replicate dir_name_len 0);
  dir_count = 0;
  cwd_idx = 0;
}

unfoldable pub dir_getcwd : Dirs → Bytes
dir_getcwd st = cwd st
