-- ===== src/Hosted/Typed.antt =====
-- What `cmd_fwrite` and `cmd_fedit` of dug_os.c store of the lines that are typed.
use mathlib.Core.List.{append_assoc, append-nil}
use dug_os.Common.{
  ℕ, zero, suc, ◌+◌, ◌-◌, ◌≤◌, ◌<◌, ◌≡◌, refl, ap, ◌∙◌, true, false, List, [], ◌∷◌, ◌++◌, some,
  ◌==◌, length, length-append, take, get_or, arith,
}
use dug_os.Common.Int.{is_zero}
use dug_os.Strings.{Bytes, codes, cstr, kstrcmp, kstrlen}
use dug_os.Strings.Cstr.{kstrcmp_iff}
use dug_os.Console.Reading.{All}
use dug_os.Shell.{is_blank, skip_blanks}
use dug_os.Hosted.{Print, fgets_from, fgets, trim_end, trim_from, trim, is_space}
use dug_os.Hosted.Parse.{IsInner}
use dug_os.Hosted.Files.{Host, World, store_lines, type_lines, cmd_fwrite}

-- An empty line, or one without blanks around it, of at most 253 bytes, that is not the single dot.
abbrev pub IsTyped : Bytes → Type 0
IsTyped [] = Unit
IsTyped (c ∷ p) =
    All IsInner (c ∷ p)
    × (is_blank c ≡ false)
    × (is_space (get_or (c ∷ p) (length p) 0) ≡ false)
    × (length p < 253)
    × (is_zero (kstrcmp (c ∷ p) (codes ".")) ≡ false)

abbrev pub AreTyped : List Bytes → Type 0
AreTyped [] = Unit
AreTyped (l ∷ ls) = IsTyped l × AreTyped ls

-- The keys of these lines, of the dot, and of what follows.
abbrev pub typed_input : List Bytes → Bytes → Bytes
typed_input [] rest = b'.' ∷ 10 ∷ rest
typed_input (l ∷ ls) rest = l ++ 10 ∷ typed_input ls rest

-- What is stored of a line: `trim` takes its '\n' off, but keeps the one of an empty line.
abbrev pub kept : Bytes → Bytes
kept [] = 10 ∷ []
kept (c ∷ p) = c ∷ p

-- What is stored of the lines, one behind the other.
abbrev pub joined : List Bytes → Bytes
joined [] = []
joined (l ∷ ls) = kept l ++ joined ls

fgets_from_line :
    (n : ℕ) (l r : Bytes)
    → All IsInner l
    → length l < n
    → fgets_from n (l ++ 10 ∷ r) ≡ (l ++ 10 ∷ [], r)
unfolding fgets_from
fgets_from_line zero l r h lt = absurd (omega arith)
fgets_from_line (suc n) [] r h lt = refl
fgets_from_line (suc n) (c ∷ l) r h lt =
    let other : (c == 10) ≡ false = (let ne = h.0.1 in ground arith) in
    rw (other, fgets_from_line n l r h.1 (omega arith)) refl

cstr_line : (l : Bytes) → All IsInner l → cstr (l ++ 10 ∷ []) ≡ l ++ 10 ∷ []
unfolding cstr
cstr_line [] h = refl
cstr_line (c ∷ l) h =
    let other : (c == 0) ≡ false = (let ne = h.0.0 in ground arith) in
    rw (other, cstr_line l h.1) refl

get_or_end : (l : Bytes) (c : ℕ) → get_or (l ++ c ∷ []) (length l) 0 ≡ c
get_or_end [] c = refl
get_or_end (d ∷ l) c = get_or_end l c

get_or_inside : (l : Bytes) (c i : ℕ) → i < length l → get_or (l ++ c ∷ []) i 0 ≡ get_or l i 0
get_or_inside [] c i h = absurd (omega arith)
get_or_inside (d ∷ l) c zero h = refl
get_or_inside (d ∷ l) c (suc i) h = get_or_inside l c i (omega arith)

take_all : (l : Bytes) (c : ℕ) → take (length l) (l ++ c ∷ []) ≡ l
take_all [] c = refl
take_all (d ∷ l) c = ap (λ x. d ∷ x) (take_all l c)

-- `trim` takes the '\n' off, in the buffer too.
trim_end_line :
    (c : ℕ) (p : Bytes)
    → is_space (get_or (c ∷ p) (length p) 0) ≡ false
    → trim_end (suc (length p)) (c ∷ p ++ 10 ∷ []) ≡ length p
unfolding trim_end
trim_end_line c p h = rw (get_or_end p 10) (at_last p h)
  where
    at_last :
        (p : Bytes)
        → is_space (get_or (c ∷ p) (length p) 0) ≡ false
        → trim_end (length p) (c ∷ (p ++ 10 ∷ [])) ≡ length p
    at_last [] h = refl
    at_last (d ∷ q) h =
        let inside = get_or_inside (d ∷ q) 10 (length q) (omega arith) in rw (inside, h) refl

skip_none : (c : ℕ) (r : Bytes) → is_blank c ≡ false → skip_blanks (c ∷ r) ≡ c ∷ r
unfolding skip_blanks
skip_none c r h = rw (h) refl

trim_from_line :
    (c : ℕ) (p : Bytes)
    → is_space (get_or (c ∷ p) (length p) 0) ≡ false
    → trim_from (c ∷ p ++ 10 ∷ []) (c ∷ p ++ 10 ∷ []) ≡ (c ∷ p, c ∷ p)
unfolding trim_from
trim_from_line c p last =
    let size : length (p ++ 10 ∷ []) ≡ suc (length p) = length-append p (10 ∷ []) ∙ omega arith in
    let end = trim_end_line c p last in
    let one_more : length p + 1 ≡ suc (length p) = omega arith in
    let none_before : suc (suc (length p)) - suc (suc (length p)) ≡ 0 = omega arith in
    rw (size, end, one_more, none_before, take_all p 10) refl

trim_line :
    (c : ℕ) (p : Bytes)
    → is_blank c ≡ false
    → is_space (get_or (c ∷ p) (length p) 0) ≡ false
    → trim (c ∷ p ++ 10 ∷ []) ≡ (c ∷ p, c ∷ p)
unfolding trim
trim_line c p shown last =
    let r = p ++ 10 ∷ [] in
    let skipped : skip_blanks (c ∷ r) ≡ c ∷ r = skip_none c r shown in
    ap (trim_from (c ∷ r)) skipped ∙ trim_from_line c p last

-- A line that is read and trimmed.
read_line : (l r : Bytes) → IsTyped l → fgets 256 (l ++ 10 ∷ r) ≡ some (l ++ 10 ∷ [], r)
unfolding fgets
read_line [] r h = ap some (fgets_from_line 255 [] r tt (omega arith))
read_line (c ∷ p) r h = ap some (fgets_from_line 255 (c ∷ p) r h.0 (omega (arith, h.3)))

empty_trimmed : trim (cstr (10 ∷ [])) ≡ (10 ∷ [], 10 ∷ [])
unfolding trim trim_from trim_end skip_blanks cstr
empty_trimmed = refl

trimmed_line : (l : Bytes) → IsTyped l → trim (cstr (l ++ 10 ∷ [])) ≡ (kept l, kept l)
trimmed_line [] h = empty_trimmed
trimmed_line (c ∷ p) h = ap trim (cstr_line (c ∷ p) h.0) ∙ trim_line c p h.1 h.2

not_dot : (l : Bytes) → IsTyped l → is_zero (kstrcmp (kept l) (codes ".")) ≡ false
unfolding kstrcmp
not_dot [] h = refl
not_dot (c ∷ p) h = h.4

-- What the loop leaves of the input, and has stored.
abbrev stored : Bytes × Bytes × List Print → Bytes × Bytes
stored t = (t.0, t.1)

dot_line : (rest : Bytes) → fgets 256 (b'.' ∷ 10 ∷ rest) ≡ some (b'.' ∷ 10 ∷ [], rest)
unfolding fgets fgets_from
dot_line rest = refl

dot_trimmed : is_zero (kstrcmp (trim (cstr (b'.' ∷ 10 ∷ []))).0 (codes ".")) ≡ true
unfolding trim trim_from trim_end skip_blanks cstr kstrcmp
dot_trimmed = refl

type_lines_lem :
    (n : ℕ) (ls : List Bytes) (content rest : Bytes)
    → AreTyped ls
    → length ls < n
    → stored (type_lines n (typed_input ls rest) content) ≡ (rest, content ++ joined ls)
unfolding type_lines
type_lines_lem zero ls content rest h lt = absurd (omega arith)
type_lines_lem (suc n) [] content rest h lt =
    rw (dot_line rest, stored, type_lines, dot_trimmed, append-nil content) refl
type_lines_lem (suc n) (l ∷ ls) content rest h lt =
    let read = read_line l (typed_input ls rest) h.0 in
    let trimmed = trimmed_line l h.0 in
    let further = type_lines_lem n ls (content ++ kept l) rest h.1 (omega arith) in
    rw (read, stored, type_lines, trimmed, not_dot l h.0)
      (further ∙ ap (λ b. (rest, b)) (append_assoc content (kept l) (joined ls)))

length-typed_input : (ls : List Bytes) (rest : Bytes) → length ls ≤ length (typed_input ls rest)
length-typed_input [] rest = omega arith
length-typed_input (l ∷ ls) rest =
    omega (arith, length-append l (10 ∷ typed_input ls rest), length-typed_input ls rest)

-- `strcmp` of a string with itself.
same_name : (name : Bytes) → is_zero (kstrcmp name name) ≡ true
same_name name = (kstrcmp_iff name name).1 refl

module _ {H : Type 0} (host : Host H) where
  opened :
      (name : Bytes) (w : World H)
      → (kstrlen name == 0) ≡ false
      → host.allows name w.host ≡ true
      → (cmd_fwrite host (some name) w).0 ≡ (store_lines host name [] w).0
  unfolding cmd_fwrite
  opened name w given allowed = rw (cmd_fwrite, given, allowed) refl

  -- `cmd_fwrite` of the prototype, given a file that may be written and lines of at most 253 bytes,
  -- none of them the dot, and none with a blank at its start or end: it stores them one behind the
  -- other, without the '\n' between them, since `trim` takes it out of the buffer that is written; an
  -- empty line is stored as a '\n', which `trim` keeps. It takes the input up to the dot's line, and
  -- leaves all other files.
  pub cmd_fwrite_lem :
      (name : Bytes) (ls : List Bytes) (rest : Bytes) (w : World H)
      → (kstrlen name == 0) ≡ false
      → host.allows name w.host ≡ true
      → AreTyped ls
      → w.input ≡ typed_input ls rest
      → let file = host.file name w.host in
        let w' = (cmd_fwrite host (some name) w).0 in
        (w'.files file ≡ some (joined ls))
        × (w'.input ≡ rest)
        × ((other : Bytes) → is_zero (kstrcmp other file) ≡ false → w'.files other ≡ w.files other)
  cmd_fwrite_lem name ls rest w given allowed typed e =
      let count : length ls < suc (length w.input) =
        rw (e) (omega (arith, length-typed_input ls rest)) in
      let f = suc (length w.input) in
      let done : stored (type_lines f w.input []) ≡ (rest, joined ls) =
        ap (λ i. stored (type_lines f i [])) e ∙ type_lines_lem f ls [] rest typed count in
      let left : (type_lines f w.input []).0 ≡ rest = ap (λ t. t.0) done in
      let bytes : (type_lines f w.input []).1 ≡ joined ls = ap (λ t. t.1) done in
      rw (opened name w given allowed)
        (rw (same_name (host.file name w.host)) (ap some bytes), left, λ other ne. rw (ne) refl)
