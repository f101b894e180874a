-- ===== src/Dir/Build.antt =====
-- `build_path` of src/dir.c at a name of one directory.
use dug_os.Common.{
  ℕ, ◌+◌, ◌-◌, ◌<◌, ◌≤◌, ◌≡◌, refl, sym, ap, ap₂, ◌∙◌, ◌≢◌, true, false, not, [], ◌∷◌, ◌++◌, length,
  set, take, drop, arith, ◌==◌, ltb, if_cases, ◌&&◌, length-set, length-drop,
}
use dug_os.Common.Int.{is_zero}
use dug_os.Strings.{Bytes, cstr, head_byte, kstrlen, kstrcmp, kstrncpy}
use dug_os.Strings.Cstr.{kstrlen-eq-length, kstrcmp_iff}
use dug_os.Strings.Copy.{kstrncpy_ends, length-kstrncpy}
use dug_os.Dir.{
  Dirs, slash, root_path, cwd, buffer, dir_name_len, with_separator, build_relative, build_path,
  parent_path, is_immediate_child,
}
use dug_os.Dir.Paths.{
  IsName, stem, IsBehind, no_slash, stem_root, stem_other, is_immediate_child_iff,
}
use dug_os.Dir.Parent.{parent_path_lem, length-joined}

-- What is appended at the NUL of a string continues it.
cstr-continue : (s r : Bytes) → cstr (take (kstrlen s) s ++ r) ≡ cstr s ++ cstr r
unfolding cstr kstrlen
cstr-continue [] r = refl
cstr-continue (c ∷ s) r = ground (arith, cstr-continue s r)

-- A separator and a NUL in place of the NUL of a string.
cstr-separated :
    (s : Bytes)
    → kstrlen s + 1 < length s
    → cstr (set (set s (kstrlen s) slash) (kstrlen s + 1) 0) ≡ cstr s ++ slash ∷ []
unfolding cstr kstrlen
cstr-separated [] h = absurd (omega arith)
cstr-separated (c ∷ []) h = ground arith
cstr-separated (c ∷ d ∷ s) h = ground (arith, cstr-separated (d ∷ s))

root_text : cstr root_path ≡ slash ∷ []
unfolding cstr
root_text = refl

stem_short : (p : Bytes) → length (stem p) ≤ length p
unfolding stem
stem_short [] = omega arith
stem_short (c ∷ []) = ground arith
stem_short (c ∷ d ∷ s) = omega arith

append_byte : (p : Bytes) (c : ℕ) (s : Bytes) → (p ++ c ∷ []) ++ s ≡ p ++ c ∷ s
append_byte [] c s = refl
append_byte (b ∷ p) c s = ap (b ∷◌) (append_byte p c s)

name_long : (name : Bytes) → cstr name ≢ [] → 0 < kstrlen name
unfolding cstr kstrlen
name_long [] n = absurd (n refl)
name_long (c ∷ name) n = ground (arith, n)

-- The prefix that a name in the directory `path` gets.
cstr-with_separator :
    (path : Bytes)
    → kstrlen path < dir_name_len - 2
    → (cstr (with_separator path) ≡ stem (cstr path) ++ slash ∷ [])
      × (length (with_separator path) ≡ dir_name_len)
unfolding with_separator
cstr-with_separator path short =
    let out = kstrncpy buffer path dir_name_len in
    let copied = kstrncpy_ends buffer path dir_name_len (omega arith) refl in
    let size : length out ≡ dir_name_len = length-kstrncpy buffer path dir_name_len in
    let clen = kstrlen out in
    let len : clen ≡ kstrlen path =
      kstrlen-eq-length out ∙ ap length copied.0 ∙ sym (kstrlen-eq-length path) in
    let HasPrefix : Bytes → Type 0 =
      λ r. (cstr r ≡ stem (cstr path) ++ slash ∷ []) × (length r ≡ dir_name_len) in
    if_cases HasPrefix (not (is_zero (kstrcmp path root_path)) && ltb clen (dir_name_len - 2)) _ _
      (λ other. (
        cstr-separated out (omega (arith, len, size, short))
            ∙ ap (λ t. t ++ slash ∷ []) (copied.0 ∙ sym (stem_other path (ground (arith, other)))),
        length-set (set out clen slash) (clen + 1) 0 ∙ length-set out clen slash ∙ size,
      ))
      (λ here.
        let root : is_zero (kstrcmp path root_path) ≡ true = ground (arith, here, len, short) in
        (
          copied.0
              ∙ (kstrcmp_iff path root_path).0 root
              ∙ root_text
              ∙ ap (λ p. p ++ slash ∷ []) (sym (stem_root path root)),
          size,
        ))

name_relative : (name : Bytes) → IsName (cstr name) → (head_byte name == slash) ≡ false
unfolding cstr no_slash
name_relative [] named = refl
name_relative (c ∷ name) named = ground (arith, named.0, named.1)

-- The path is the one of the name, and ends in its buffer.
abbrev Builds : Bytes → Bytes → Bytes → Type 0
Builds out p name = (kstrlen out < dir_name_len) × (cstr out ≡ p ++ slash ∷ name)

build_relative_lem :
    (path name : Bytes)
    → IsName (cstr name)
    → kstrlen path + 1 + kstrlen name < dir_name_len
    → Builds (build_relative path name) (stem (cstr path)) (cstr name)
unfolding build_relative
build_relative_lem path name named room =
    let p = stem (cstr path) in
    let start = with_separator path in
    let prefixed = cstr-with_separator path (omega (arith, room, name_long name named.0)) in
    let off = kstrlen start in
    let at : off ≡ length p + 1 =
      kstrlen-eq-length start ∙ ap length prefixed.0 ∙ length-joined p [] ∙ omega arith in
    let fits : off + kstrlen name < dir_name_len =
      omega (arith, at, room, stem_short (cstr path), kstrlen-eq-length path) in
    let copied =
      kstrncpy_ends (drop off start) name (dir_name_len - off) (omega (arith, fits))
        (length-drop off start ∙ ap (λ n. n - off) prefixed.1) in
    let tail = kstrncpy (drop off start) name (dir_name_len - off) in
    let whole : cstr (take off start ++ tail) ≡ p ++ slash ∷ cstr name =
      cstr-continue start tail
      ∙ ap₂ (λ a b. a ++ b) prefixed.0 copied.0
      ∙ append_byte p slash (cstr name) in
    let short : kstrlen (take off start ++ tail) < dir_name_len = omega (
      arith,
      kstrlen-eq-length (take off start ++ tail),
      ap length whole,
      length-joined p (cstr name),
      at,
      fits,
      kstrlen-eq-length name,
    ) in
    (short, whole)

-- The path ends in its buffer, lies in the directory, and its parent is the directory.
abbrev pub IsStep : Bytes → Bytes → Type 0
IsStep path dir =
    (kstrlen path < dir_name_len)
    × (is_immediate_child path dir ≡ true)
    × (cstr (parent_path path) ≡ cstr dir)

step :
    (dir name path : Bytes)
    → cstr dir ≢ []
    → IsName (cstr name)
    → Builds path (stem (cstr dir)) (cstr name)
    → IsStep path dir
step dir name path full named built =
    let inside : IsBehind (cstr path) (stem (cstr dir)) = (cstr name, built.1, named) in
    (
      built.0,
      (is_immediate_child_iff path dir).1 inside,
      parent_path_lem path (cstr dir) built.0 full inside,
    )

-- A step down and a step up. Let the working directory be a string that is not empty, and the name one
-- that is not empty, has no separator, and fits behind the directory and a separator in the 64 bytes.
-- Then `build_path` returns a path that ends in its buffer, `is_immediate_child` accepts it in the
-- working directory, and `parent_path` of it is the working directory again.
pub build_path-parent_path :
    (name : Bytes) (st : Dirs)
    → cstr (cwd st) ≢ []
    → IsName (cstr name)
    → kstrlen (cwd st) + 1 + kstrlen name < dir_name_len
    → IsStep (build_path name st) (cwd st)
unfolding build_path
build_path-parent_path name st full named room =
    if_cases (λ r. IsStep r (cwd st)) (head_byte name == slash) _ _
      (λ absolute. absurd (ground (arith, absolute, name_relative name named)))
      (λ relative. step (cwd st) name _ full named (build_relative_lem (cwd st) name named room))
