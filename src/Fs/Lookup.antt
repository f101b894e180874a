-- ===== src/Fs/Lookup.antt =====
-- The file system as a map from a name and a directory to the bytes of a file, and what work on one
-- slot does to the map.
use dug_os.Common.{
  ℕ, ◌/◌, ◌%◌, ◌<◌, ◌≡◌, refl, sym, ap, ◌∙◌, ◌≢◌, ◌↔◌, Bool, true, false, [], ◌∷◌, Option, none,
  some, length, arith, ltb, if◌then◌else◌, Bool-cases, inl, inr, ℕ_discrete,
}
use dug_os.Strings.{Bytes, cstr, kstrlen}
use dug_os.Strings.Cstr.{kstrcmp_iff, cstr-append}
use dug_os.Fs.{
  Fs, FileEntry, max_files, name_len, dir_len, file_at, name_ptr, dir_ptr, is_file, find_file,
  content,
}
use dug_os.Fs.Find.{find_file_lem}
use dug_os.Fs.Invariant.{HasArrays}
use dug_os.Fs.Effect.{Effect}

-- The content that a name finds.
abbrev pub lookup : Bytes → Bytes → Fs → Option Bytes
lookup name dir fs =
    let idx = find_file name dir fs.files in
    if ltb idx max_files then some (content fs (file_at fs.files idx)) else none

-- Two pointers to the same text find the same files.
pub is_file-same :
    (n n' d d' : Bytes) (e : FileEntry)
    → cstr n ≡ cstr n'
    → cstr d ≡ cstr d'
    → is_file n d e ≡ is_file n' d' e
is_file-same n n' d d' e same_name same_dir = ground (
  arith,
  kstrcmp_iff (name_ptr e) n,
  kstrcmp_iff (name_ptr e) n',
  kstrcmp_iff (dir_ptr e) d,
  kstrcmp_iff (dir_ptr e) d',
)

-- Both arrays of an entry hold a NUL, so that its strings end in them.
abbrev pub IsTerminated : FileEntry → Type 0
IsTerminated e = (kstrlen e.name < name_len) × (kstrlen e.dir < dir_len)

-- An entry with such arrays is found by its two texts, whatever its block and size are.
pub is_file_iff :
    (n d : Bytes) (e : FileEntry)
    → HasArrays e
    → IsTerminated e
    → (is_file n d e ≡ true) ↔ ((e.used ≡ true) × (cstr e.name ≡ cstr n) × (cstr e.dir ≡ cstr d))
is_file_iff n d e arrays ends = ground (
  arith,
  kstrcmp_iff (name_ptr e) n,
  kstrcmp_iff (dir_ptr e) d,
  cstr-append e.name (dir_ptr e) (omega arith),
  cstr-append e.dir (e.first_block % 256 ∷ e.first_block / 256 ∷ 0 ∷ 0 ∷ []) (omega arith),
)

-- No name finds two slots.
abbrev pub IsUnique : Fs → Type 0
IsUnique fs =
    (n d : Bytes) (i j : ℕ)
    → i < max_files
    → j < max_files
    → is_file n d (file_at fs.files i) ≡ true
    → is_file n d (file_at fs.files j) ≡ true
    → i ≡ j

find_unique :
    (n d : Bytes) (fs : Fs) (i : ℕ)
    → length fs.files ≡ max_files
    → IsUnique fs
    → i < max_files
    → is_file n d (file_at fs.files i) ≡ true
    → find_file n d fs.files ≡ i
find_unique n d fs i size unique lt h = elim (find_file_lem n d fs.files) [
  | inl missing ↦ absurd (cc (h, missing.1 i (omega (arith, size))))
  | inr first ↦
      unique n d (find_file n d fs.files) i (omega (arith, first.in_table, size)) lt first.passes h
]

find_none :
    (n d : Bytes) (fs : Fs)
    → length fs.files ≡ max_files
    → ((i : ℕ) → i < max_files → is_file n d (file_at fs.files i) ≡ false)
    → find_file n d fs.files ≡ max_files
find_none n d fs size none_passes = elim (find_file_lem n d fs.files) [
  | inl missing ↦ missing.0
  | inr first ↦ absurd (
      cc (first.passes, none_passes (find_file n d fs.files) (omega (arith, first.in_table, size))))
]

lookup_at :
    (n d : Bytes) (fs : Fs) (i : ℕ)
    → find_file n d fs.files ≡ i
    → i < max_files
    → lookup n d fs ≡ some (content fs (file_at fs.files i))
lookup_at n d fs i e lt = rw e (ground arith)

lookup-none : (n d : Bytes) (fs : Fs) → find_file n d fs.files ≡ max_files → lookup n d fs ≡ none
lookup-none n d fs e = rw e (ground arith)

false_of : (b : Bool) → ¬ (b ≡ true) → b ≡ false
false_of true h = absurd (h refl)
false_of false h = refl

module _ (n d : Bytes) {idx : ℕ} (fs fs' : Fs) (f : Effect idx fs fs')
    (size : length fs.files ≡ max_files) (lt : idx < max_files) (unique : IsUnique fs)
    (unique' : IsUnique fs') (not_new : is_file n d (file_at fs'.files idx) ≡ false) where
  -- The old entry was found, and the new one is not.
  lookup_gone : is_file n d (file_at fs.files idx) ≡ true → lookup n d fs' ≡ none
  lookup_gone old = lookup-none n d fs' (
      find_none n d fs' f.valid.n_files (λ i h. elim (ℕ_discrete i idx) [
        | yes e ↦ rw e not_new
        | no ne ↦
            let e = f.entries i ne in rw e (false_of _ (λ hit. ne (unique n d i idx h lt hit old)))
      ]))

  -- Neither is found.
  lookup_other : is_file n d (file_at fs.files idx) ≡ false → lookup n d fs' ≡ lookup n d fs
  lookup_other not_old = elim (find_file_lem n d fs.files) [
    | inl missing ↦
        lookup-none n d fs' (
          find_none n d fs' f.valid.n_files (λ i h. elim (ℕ_discrete i idx) [
            | yes e ↦ rw e not_new
            | no ne ↦ let e = f.entries i ne in rw e (missing.1 i (omega (arith, size)))
          ]))
        ∙ sym (lookup-none n d fs missing.0)
    | inr first ↦
        let j = find_file n d fs.files in
        let in_table : j < max_files = omega (arith, first.in_table, size) in
        let ne : j ≢ idx =
          λ e. cc (first.passes, not_old, ap (λ i. is_file n d (file_at fs.files i)) e) in
        let e = f.entries j ne in
        let found = find_unique n d fs' j f.valid.n_files unique' in_table (rw e first.passes) in
        lookup_at n d fs' j found in_table
        ∙ ap (λ x. some (content fs' x)) e
        ∙ ap some (f.contents j in_table ne (ground (arith, first.passes)))
        ∙ sym (lookup_at n d fs j refl in_table)
  ]

-- What work on one slot does to the map: the name of the slot's new entry finds its content, the name
-- of its old entry finds nothing more, and every other name finds what it found.
pub lookup-Effect :
    (n d : Bytes) {idx : ℕ} (fs fs' : Fs)
    → Effect idx fs fs'
    → length fs.files ≡ max_files
    → idx < max_files
    → IsUnique fs
    → IsUnique fs'
    → lookup n d fs' ≡ (
        if is_file n d (file_at fs'.files idx)
        then some (content fs' (file_at fs'.files idx))
        else if is_file n d (file_at fs.files idx)
        then none
        else lookup n d fs)
lookup-Effect n d {idx} fs fs' f size lt unique unique' =
    elim (Bool-cases (is_file n d (file_at fs'.files idx))) [
      | inl new ↦
          rw new (lookup_at n d fs' idx (find_unique n d fs' idx f.valid.n_files unique' lt new) lt)
      | inr not_new ↦ elim (Bool-cases (is_file n d (file_at fs.files idx))) [
        | inl old ↦ rw (not_new, old) (lookup_gone n d fs fs' f size lt unique unique' not_new old)
        | inr not_old ↦
            rw (not_new, not_old) (lookup_other n d fs fs' f size lt unique unique' not_new not_old)
      ]
    ]
