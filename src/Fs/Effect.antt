-- ===== src/Fs/Effect.antt =====
-- What every command of fs.c does to the whole file system: it works on one slot, keeps the invariant,
-- and leaves the entries and the contents of all other slots as they were.
pub mod Interactive
pub mod Direct
use dug_os.Common.{
  ℕ, zero, suc, ◌+◌, ◌-◌, ◌<◌, ◌≤◌, ◌≡◌, refl, sym, ap, ◌∙◌, ◌≢◌, Bool, true, false, List, [], ◌∷◌,
  ◌++◌, length, get_or, set, take, length-set, arith, ◌==◌, if◌then◌else◌, if_cases, Bool-cases,
  inl, inr, ℕ_discrete,
}
use dug_os.Fs.{
  Fs, FileEntry, n_blocks, max_files, fat_end, file_at, content, find_file, find_free_slot,
}
use dug_os.Fs.Invariant.{
  IsOwned, IsValid, IsValidBut, HasArrays, Change, make-Change, keeps_IsOwned, file_at-set_ne,
  file_at-set_self,
}
use dug_os.Fs.Invariant.Steps.{close_set_file, Change-set_file, Change-trans, valid_but}
use dug_os.Fs.Command.{set_file}
use dug_os.Fs.Find.{find_file_lem, find_free_slot_lem}
use dug_os.Strings.{Bytes}

pub record Effect (idx : ℕ) (fs fs' : Fs) : Type 0 where
  pub valid : IsValid fs'
  pub entries : (i : ℕ) → i ≢ idx → file_at fs'.files i ≡ file_at fs.files i
  pub contents :
      (i : ℕ)
      → i < max_files
      → i ≢ idx
      → (file_at fs.files i).used ≡ true
      → content fs' (file_at fs.files i) ≡ content fs (file_at fs.files i)

pub Effect-refl : (idx : ℕ) (fs : Fs) → IsValid fs → Effect idx fs fs
Effect-refl idx fs v = record { valid = v; entries = λ i ne. refl; contents = λ i h ne u. refl }

pub Effect-of_change : {idx : ℕ} (fs fs' : Fs) → Change idx fs fs' → IsValid fs' → Effect idx fs fs'
Effect-of_change fs fs' c v = record { valid = v; entries = c.entries; contents = c.contents }

-- Work on a slot ends with a new entry, which is unused or owns its blocks. The last step before it is
-- given on its own.
pub finish_change :
    {idx : ℕ} (start fs fs' : Fs) (e : FileEntry)
    → Change idx start fs
    → (c : Change idx fs fs') → idx < max_files
    → HasArrays e
    → (e.used ≡ true → IsOwned fs' c.valid.owner idx e)
    → Effect idx start (set_file idx e fs')
finish_change {idx} start fs fs' e before c lt arrays own =
    let fs'' = set_file idx e fs' in
    Effect-of_change start fs''
      (Change-trans start fs fs'' before
        (Change-trans fs fs' fs'' c (Change-set_file idx e fs' c.valid)))
      (close_set_file idx e fs' c.valid lt arrays own)

abbrev pub Change-same : (idx : ℕ) (fs : Fs) → IsValid fs → Change idx fs fs
Change-same idx fs v = record {
  valid = valid_but idx v;
  entries = λ i ne. refl;
  contents = λ i h ne u. refl;
}

-- What `find_file` finds is a file, in a slot that owns its blocks.
pub found-IsOwned :
    (name dir : Bytes) (fs : Fs) (v : IsValid fs)
    → find_file name dir fs.files ≢ max_files
    → (find_file name dir fs.files < max_files)
      × IsOwned fs v.owner
          (find_file name dir fs.files)
          (file_at fs.files (find_file name dir fs.files))
      × HasArrays (file_at fs.files (find_file name dir fs.files))
found-IsOwned name dir fs v found =
    let idx = find_file name dir fs.files in
    elim (find_file_lem name dir fs.files) [
      | inl missing ↦ absurd (found missing.0)
      | inr first ↦
          let lt : idx < max_files = omega (arith, first.in_table, v.n_files) in
          (lt, v.owned idx lt found (ground (arith, first.passes)), v.arrays idx lt found)
    ]

pub free_slot_unused :
    (fs : Fs)
    → IsValid fs
    → find_free_slot fs.files ≢ max_files
    → (find_free_slot fs.files < max_files)
      × ((file_at fs.files (find_free_slot fs.files)).used ≡ false)
      × HasArrays (file_at fs.files (find_free_slot fs.files))
free_slot_unused fs v room = elim (find_free_slot_lem fs.files) [
  | inl missing ↦ absurd (room missing.0)
  | inr first ↦
      let lt : find_free_slot fs.files < max_files = omega (arith, first.in_table, v.n_files) in
      (lt, ground (arith, first.passes), v.arrays (find_free_slot fs.files) lt room)
]
