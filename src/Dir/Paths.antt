-- ===== src/Dir/Paths.antt =====
-- The helper of src/dir.c on the paths of a directory and its parent.
use mathlib.Core.Path.{subst}
use dug_os.Common.{
  ◌+◌, ◌≡◌, refl, sym, ap, ◌∙◌, ◌≢◌, ◌↔◌, Bool, true, false, not, [], ◌∷◌, ◌++◌, length, get_or,
  take, drop, arith, ◌==◌, Bool-cases, inl, inr, if◌then◌else◌, ◌&&◌,
}
use dug_os.Common.Int.{is_zero}
use dug_os.Strings.{Bytes, cstr, head_byte, kstrcmp, kstrncmp}
use dug_os.Strings.Cstr.{kstrlen-eq-length, kstrcmp_iff, kstrncmp_iff}
use dug_os.Dir.{slash, root_path, one_name, is_immediate_child}

-- No byte of the text is a separator.
unfoldable pub no_slash : Bytes → Bool
no_slash [] = true
no_slash (c ∷ s) = if c == slash then false else no_slash s

-- A name of one directory: some bytes, none of them a separator.
abbrev pub IsName : Bytes → Type 0
IsName name = (name ≢ []) × (no_slash name ≡ true)

-- What stands before the separator in the paths of the directories in `parent`: nothing in the root's.
unfoldable pub stem : Bytes → Bytes
stem [] = []
stem (c ∷ []) = if c == slash then [] else c ∷ []
stem (c ∷ d ∷ s) = c ∷ d ∷ s

-- The text is `p`, a separator and a name.
abbrev pub IsBehind : Bytes → Bytes → Type 0
IsBehind text p = (name : Bytes) × (text ≡ p ++ slash ∷ name) × IsName name

-- The text is the path of a directory in the directory whose path is `parent`.
abbrev pub IsIn : Bytes → Bytes → Type 0
IsIn child parent = IsBehind child (stem parent)

one_name-no_slash : (s : Bytes) → one_name s ≡ no_slash (cstr s)
unfolding one_name no_slash cstr
one_name-no_slash [] = refl
one_name-no_slash (c ∷ s) = ground (arith, one_name-no_slash s)

head_byte-cstr : (s : Bytes) → (head_byte s == 0) ≡ true → cstr s ≡ []
unfolding cstr
head_byte-cstr [] e = refl
head_byte-cstr (c ∷ s) e = ground arith

cstr-head_byte : (s : Bytes) → (head_byte s == 0) ≡ false → cstr s ≢ []
unfolding cstr
cstr-head_byte [] e = ground arith
cstr-head_byte (c ∷ s) e = ground arith

-- A string that agrees with `p` on its first bytes and has a separator behind them.
split :
    (s p : Bytes)
    → take (length p) (cstr s) ≡ p
    → (get_or s (length p) 0 == slash) ≡ true
    → cstr s ≡ p ++ slash ∷ cstr (drop (length p + 1) s)
unfolding cstr
split [] [] h e = ground arith
split [] (b ∷ p) h e = ground arith
split (c ∷ s) [] h e = ground arith
split (c ∷ s) (b ∷ p) h e = ground (arith, split s p)

joined_take : (s p name : Bytes) → cstr s ≡ p ++ slash ∷ name → take (length p) (cstr s) ≡ p
unfolding cstr
joined_take [] [] name h = ground arith
joined_take [] (b ∷ p) name h = ground arith
joined_take (c ∷ s) [] name h = ground arith
joined_take (c ∷ s) (b ∷ p) name h = ground (arith, joined_take s p name)

pub joined_slash :
    (s p name : Bytes) → cstr s ≡ p ++ slash ∷ name → (get_or s (length p) 0 == slash) ≡ true
unfolding cstr
joined_slash [] [] name h = ground arith
joined_slash [] (b ∷ p) name h = ground arith
joined_slash (c ∷ s) [] name h = ground arith
joined_slash (c ∷ s) (b ∷ p) name h = ground (arith, joined_slash s p name)

joined_drop : (s p name : Bytes) → cstr s ≡ p ++ slash ∷ name → cstr (drop (length p + 1) s) ≡ name
unfolding cstr
joined_drop [] [] name h = ground arith
joined_drop [] (b ∷ p) name h = ground arith
joined_drop (c ∷ s) [] name h = ground arith
joined_drop (c ∷ s) (b ∷ p) name h = ground (arith, joined_drop s p name)

-- The tests of `is_immediate_child` behind a stem of `p`.
abbrev follows : Bytes → Bytes → Bool
follows child p =
    get_or child (length p) 0 == slash
    && one_name (drop (length p + 1) child)
    && not (head_byte (drop (length p + 1) child) == 0)

follows_there :
    (child p : Bytes)
    → take (length p) (cstr child) ≡ p
    → follows child p ≡ true
    → IsBehind (cstr child) p
follows_there child p h f =
    let rest = drop (length p + 1) child in
    let at : (get_or child (length p) 0 == slash) ≡ true = ground (arith, f) in
    let named : one_name rest ≡ true = ground (arith, f) in
    let some_byte : (head_byte rest == 0) ≡ false = ground (arith, f) in
    (
      cstr rest,
      split child p h at,
      (cstr-head_byte rest some_byte, sym (one_name-no_slash rest) ∙ named),
    )

follows_back :
    (child p name : Bytes) → cstr child ≡ p ++ slash ∷ name → IsName name → follows child p ≡ true
follows_back child p name e named =
    let rest = drop (length p + 1) child in
    let e' : cstr rest ≡ name = joined_drop child p name e in
    ground (
      arith,
      joined_slash child p name e,
      one_name-no_slash rest,
      ap no_slash e',
      named.1,
      head_byte-cstr rest,
      named.0,
      e',
    )

pub stem_root :
    (parent : Bytes) → is_zero (kstrcmp parent root_path) ≡ true → stem (cstr parent) ≡ []
unfolding stem cstr
stem_root parent e = ap stem ((kstrcmp_iff parent root_path).0 e)

stem_text : (text : Bytes) → text ≢ root_path → stem text ≡ text
unfolding stem
stem_text [] n = refl
stem_text (c ∷ []) n = ground (arith, n)
stem_text (c ∷ d ∷ s) n = refl

pub stem_other :
    (parent : Bytes) → is_zero (kstrcmp parent root_path) ≡ false → stem (cstr parent) ≡ cstr parent
unfolding cstr
stem_other parent e =
    stem_text (cstr parent) (λ root. ground (arith, e, (kstrcmp_iff parent root_path).1 root))

root_child :
    (child parent : Bytes)
    → is_zero (kstrcmp parent root_path) ≡ true
    → is_immediate_child child parent ≡ follows child []
unfolding is_immediate_child one_name
root_child [] parent e = ground (arith, e)
root_child (c ∷ child) parent e = ground (arith, e)

other_child :
    (child parent : Bytes)
    → is_zero (kstrcmp parent root_path) ≡ false
    → is_immediate_child child parent
      ≡ (is_zero (kstrncmp child parent (length (cstr parent))) && follows child (cstr parent))
unfolding is_immediate_child
other_child child parent e = ground (arith, e, kstrlen-eq-length parent)

take_whole : (s : Bytes) → take (length s) s ≡ s
take_whole [] = refl
take_whole (c ∷ s) = ap (c ∷◌) (take_whole s)

-- `kstrncmp` finds the parent in front of the child.
begins_iff :
    (child parent : Bytes)
    → (is_zero (kstrncmp child parent (length (cstr parent))) ≡ true)
      ↔ (take (length (cstr parent)) (cstr child) ≡ cstr parent)
begins_iff child parent =
    let n = length (cstr parent) in
    let agree = kstrncmp_iff child parent n in
    (
      (λ z. agree.0 z ∙ take_whole (cstr parent)),
      (λ t. agree.1 (t ∙ sym (take_whole (cstr parent)))),
    )

-- For all strings, `is_immediate_child` accepts a child and a parent exactly when the child is the parent,
-- or nothing where the parent is the root, and behind it a separator and one name, which is not empty
-- and has no separator.
pub is_immediate_child_iff :
    (child parent : Bytes)
    → (is_immediate_child child parent ≡ true) ↔ IsIn (cstr child) (cstr parent)
is_immediate_child_iff child parent =
    let Accepts : Bytes → Type 0 =
      λ p. (is_immediate_child child parent ≡ true) ↔ IsBehind (cstr child) p in
    elim (Bool-cases (is_zero (kstrcmp parent root_path))) [
      | inl root ↦
          let stemmed = stem_root parent root in
          let same = root_child child parent root in
          subst Accepts (sym stemmed) (
            (λ yes. follows_there child [] refl (sym same ∙ yes)),
            (λ there. same ∙ follows_back child [] there.0 there.1 there.2),
          )
      | inr other ↦
          let p = cstr parent in
          let stemmed = stem_other parent other in
          let same = other_child child parent other in
          let begins = begins_iff child parent in
          subst Accepts (sym stemmed) (
            (λ yes.
                follows_there child p (begins.0 (ground (arith, same, yes)))
                  (ground (arith, same, yes))),
            (λ there.
                same
                ∙ ground (
                  arith,
                  begins.1 (joined_take child p there.0 there.1),
                  follows_back child p there.0 there.1 there.2,
                )),
          )
    ]
