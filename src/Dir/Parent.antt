-- ===== src/Dir/Parent.antt =====
-- `parent_path` of src/dir.c undoes a step down.
use dug_os.Common.{
  ℕ, zero, suc, ◌+◌, ◌-◌, ◌<◌, ◌≤◌, ◌≡◌, refl, sym, ap, ◌∙◌, ◌≢◌, true, false, [], ◌∷◌, ◌++◌,
  length, get_or, set, arith, ◌==◌, leb, if_cases,
}
use dug_os.Common.Int.{is_zero}
use dug_os.Strings.{Bytes, cstr, kstrlen, kstrcmp, kstrncpy}
use dug_os.Strings.Cstr.{kstrlen-eq-length, kstrcmp_iff}
use dug_os.Dir.{slash, root_path, buffer, dir_name_len, walk_back, parent_path}
use dug_os.Strings.Copy.{kstrncpy_ends}
use dug_os.Dir.Paths.{joined_slash, no_slash, stem, IsBehind}

name_byte :
    (name : Bytes) (k : ℕ)
    → no_slash name ≡ true
    → k < length name
    → (get_or name k 0 == slash) ≡ false
unfolding no_slash
name_byte [] k e h = absurd (omega arith)
name_byte (c ∷ name) zero e h = ground arith
name_byte (c ∷ name) (suc k) e h = ground (arith, name_byte name k)

text_byte :
    (s name : Bytes) (k : ℕ) → cstr s ≡ name → k < length name → get_or s k 0 ≡ get_or name k 0
unfolding cstr
text_byte [] [] k h l = refl
text_byte [] (b ∷ name) k h l = ground arith
text_byte (c ∷ s) [] k h l = absurd (omega arith)
text_byte (c ∷ s) (b ∷ name) zero h l = ground arith
text_byte (c ∷ s) (b ∷ name) (suc k) h l = ground (arith, text_byte s name k)

joined_byte :
    (s p name : Bytes) (k : ℕ)
    → cstr s ≡ p ++ slash ∷ name
    → k < length name
    → get_or s (length p + 1 + k) 0 ≡ get_or name k 0
unfolding cstr
joined_byte [] [] name k h l = ground arith
joined_byte [] (b ∷ p) name k h l = ground arith
joined_byte (c ∷ s) [] name k h l = ground (arith, text_byte s name k)
joined_byte (c ∷ s) (b ∷ p) name k h l = ground (arith, joined_byte s p name k)

walk_past :
    (s : Bytes) (n m : ℕ)
    → m ≡ suc n
    → (get_or s n 0 == slash) ≡ false
    → walk_back s m ≡ walk_back s n
unfolding walk_back
walk_past s n m e h = ap (walk_back s) e ∙ ground (arith, h)

walk_stops :
    (s : Bytes) (n m : ℕ) → m ≡ suc n → (get_or s n 0 == slash) ≡ true → walk_back s m ≡ suc n
unfolding walk_back
walk_stops s n m e h = ap (walk_back s) e ∙ ground (arith, h)

-- The walk passes over the name and stops behind the separator.
walk_name :
    (s p name : Bytes) (k : ℕ)
    → cstr s ≡ p ++ slash ∷ name
    → no_slash name ≡ true
    → k ≤ length name
    → walk_back s (length p + 1 + k) ≡ length p + 1
walk_name s p name zero h e l =
    walk_stops s (length p) _ (omega arith) (joined_slash s p name h) ∙ omega arith
walk_name s p name (suc k) h e l =
    let n = length p + 1 + k in
    let here : (get_or s n 0 == slash) ≡ false =
      ground (arith, joined_byte s p name k, name_byte name k) in
    walk_past s n _ (omega arith) here ∙ walk_name s p name k h e (omega arith)

-- A NUL in place of the separator leaves the text before it.
cut : (s p name : Bytes) → cstr s ≡ p ++ slash ∷ name → cstr (set s (length p) 0) ≡ p
unfolding cstr
cut [] [] name h = ground arith
cut [] (b ∷ p) name h = ground arith
cut (c ∷ s) [] name h = ground arith
cut (c ∷ s) (b ∷ p) name h = ground (arith, cut s p name)

pub length-joined : (p name : Bytes) → length (p ++ slash ∷ name) ≡ length p + 1 + length name
length-joined [] name = omega arith
length-joined (c ∷ p) name = omega (arith, length-joined p name)

joined-not_root : (p name : Bytes) → name ≢ [] → p ++ slash ∷ name ≢ cstr root_path
unfolding cstr
joined-not_root p [] n e = n refl
joined-not_root p (c ∷ name) n e = absurd (omega (arith, ap length e, length-joined p (c ∷ name)))

stem_empty : (parent : Bytes) → parent ≢ [] → length (stem parent) ≡ 0 → cstr root_path ≡ parent
unfolding stem cstr
stem_empty [] n e = absurd (n refl)
stem_empty (c ∷ []) n e = ground arith
stem_empty (c ∷ d ∷ s) n e = absurd (omega arith)

stem_full : (parent : Bytes) → 0 < length (stem parent) → stem parent ≡ parent
unfolding stem
stem_full [] l = refl
stem_full (c ∷ []) l = ground arith
stem_full (c ∷ d ∷ s) l = refl

-- The parent in the table's form: the root's path, or a text that is not empty.
pub parent_path_lem :
    (path parent : Bytes)
    → kstrlen path < dir_name_len
    → parent ≢ []
    → IsBehind (cstr path) (stem parent)
    → cstr (parent_path path) ≡ parent
unfolding parent_path
parent_path_lem path parent short full inside =
    let P : Bytes → Type 0 = λ r. cstr r ≡ parent in
    let p = stem parent in
    let name = inside.0 in
    let out = kstrncpy buffer path dir_name_len in
    let copied = kstrncpy_ends buffer path dir_name_len short refl in
    let text : cstr out ≡ p ++ slash ∷ name = copied.0 ∙ inside.1 in
    let len : kstrlen out ≡ length p + 1 + length name =
      kstrlen-eq-length out ∙ ap length text ∙ length-joined p name in
    let walked : walk_back out (kstrlen out) ≡ length p + 1 =
      ap (walk_back out) len ∙ walk_name out p name (length name) text inside.2.1 (omega arith) in
    if_cases P (is_zero (kstrcmp path root_path)) _ _
      (λ root.
        absurd
          (joined-not_root p name inside.2.0 (sym inside.1 ∙ (kstrcmp_iff path root_path).0 root)))
      (λ other.
        if_cases P (leb (walk_back out (kstrlen out)) 1) _ _
          (λ top. stem_empty parent full (ground (arith, walked)))
          (λ below.
            ap (λ n. cstr (set out (n - 1) 0)) walked
            ∙ ap (λ n. cstr (set out n 0)) (omega arith)
            ∙ cut out p name text
            ∙ stem_full parent (ground (arith, walked))))
