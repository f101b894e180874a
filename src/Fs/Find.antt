-- ===== src/Fs/Find.antt =====
-- `find_file` and `find_free_slot`: the first entry that passes the test, or the sentinel exactly
-- when none does.
use dug_os.Common.{
  ℕ, zero, suc, ◌+◌, ◌<◌, ◌≡◌, refl, ◌⊎◌, inl, inr, Bool, true, false, not, List, [], ◌∷◌, length,
  arith, Bool-cases,
}
use dug_os.Strings.{Bytes}
use dug_os.Fs.{FileEntry, max_files, file_at, is_file, find_from, find_file, find_free_slot}

-- Slot `i` passes the test, and no slot below it does.
pub record IsFirst (test : FileEntry → Bool) (files : List FileEntry) (i : ℕ) : Type 0 where
  pub in_table : i < length files
  pub passes : test (file_at files i) ≡ true
  pub lowest : (j : ℕ) → j < i → test (file_at files j) ≡ false

abbrev pub NonePasses : (FileEntry → Bool) → List FileEntry → Type 0
NonePasses test files = (j : ℕ) → j < length files → test (file_at files j) ≡ false

-- What a search says of its result.
abbrev pub Search : (FileEntry → Bool) → List FileEntry → ℕ → Type 0
Search test files r = ((r ≡ max_files) × NonePasses test files) ⊎ IsFirst test files r

data FindFrom (test : FileEntry → Bool) (files : List FileEntry) (i r : ℕ) : Type 0 where
  missing : r ≡ max_files → NonePasses test files → FindFrom test files i r
  at : (d : ℕ) → r ≡ i + d → IsFirst test files d → FindFrom test files i r

module _ (test : FileEntry → Bool) where
  FindFrom-cons :
      (e : FileEntry) (files : List FileEntry) (i r : ℕ)
      → test e ≡ false
      → FindFrom test files (i + 1) r
      → FindFrom test (e ∷ files) i r
  FindFrom-cons e files i r fails (missing p q) = missing p below
    where
      below : NonePasses test (e ∷ files)
      below zero h = fails
      below (suc j) h = q j (omega arith)
  FindFrom-cons e files i r fails (at d p q) =
      at (suc d) (omega arith)
        (record { in_table = omega (arith, q.in_table); passes = q.passes; lowest = below })
    where
      below : (j : ℕ) → j < suc d → test (file_at (e ∷ files) j) ≡ false
      below zero h = fails
      below (suc j) h = q.lowest j (omega arith)

  find_from_lem : (files : List FileEntry) (i : ℕ) → FindFrom test files i (find_from test files i)
  unfolding find_from
  find_from_lem [] i = missing refl (λ j h. absurd (omega arith))
  find_from_lem (e ∷ files) i = elim (Bool-cases (test e)) [
    | inl yes_e ↦ rw yes_e (
        at zero (omega arith)
          (record { in_table = omega arith; passes = yes_e; lowest = λ j h. absurd (omega arith) }))
    | inr no_e ↦
        rw no_e (
          FindFrom-cons e files i (find_from test files (i + 1)) no_e (find_from_lem files (i + 1)))
  ]

  Search-of : (files : List FileEntry) (r : ℕ) → FindFrom test files 0 r → Search test files r
  Search-of files r (missing p q) = inl (p, q)
  Search-of files r (at d p q) = let e : r ≡ d = omega arith in inr (rw e q)

-- `find_file` returns the first entry in use with the name and the directory, or the sentinel exactly
-- when no entry is.
pub find_file_lem :
    (name dir : Bytes) (files : List FileEntry)
    → Search (is_file name dir) files (find_file name dir files)
unfolding find_file
find_file_lem name dir files =
    Search-of (is_file name dir) files _ (find_from_lem (is_file name dir) files 0)

pub find_free_slot_lem :
    (files : List FileEntry) → Search (λ e. not e.used) files (find_free_slot files)
unfolding find_free_slot
find_free_slot_lem files =
    Search-of (λ e. not e.used) files _ (find_from_lem (λ e. not e.used) files 0)
