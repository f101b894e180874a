-- ===== src/Fs/Invariant.antt =====
-- The invariant of the file system: every block that a file's chain visits belongs to that file, and
-- the chain holds the file's bytes; so no two files share a block. `Change` is what the parts of
-- the commands keep while they work on one slot.
pub mod Steps
use dug_os.Common.{
  ℕ, zero, suc, ◌+◌, ◌-◌, ◌<◌, ◌≤◌, ◌≡◌, refl, sym, ap, ◌∙◌, ◌≢◌, Bool, true, false, List, [], ◌∷◌,
  ◌++◌, length, get_or, set, take, length-set, length-take, arith, get_or-set_self, get_or-set_ne,
  ◌==◌, if◌then◌else◌, if_cases, Bool-cases, inl, inr,
}
use dug_os.Strings.{Bytes}
use dug_os.Fs.{
  Fs, FileEntry, zero_entry, n_blocks, max_files, name_len, dir_len, fat_free, fat_end, file_at,
  free_chain, write_to_blocks, read_chain, content,
}
use dug_os.Fs.Alloc.{IsFree}
use dug_os.Fs.Chain.{Chain, Chain-map, read_chain-same, free_chain-same, length-free_chain}
use dug_os.Fs.Write.{IsSized}
use dug_os.Fs.Write.Loop.{Leaves, Leaves-refl}
use dug_os.Fs.Write.Content.{Holds, Holds-nothing, write_to_blocks_lem}
use dug_os.Fs.Input.{Buffer}
use dug_os.Fs.Command.{set_file, store_buffer}

-- The entry `e` in slot `i`: a chain of blocks that the slot owns, which holds `e.size` bytes.
pub record IsOwned (fs : Fs) (owner : ℕ → ℕ) (i : ℕ) (e : FileEntry) : Type 0 where
  pub k : ℕ
  pub chain : Chain fs.fat (λ j. owner j ≡ i) k e.first_block
  pub complete : length (content fs e) ≡ e.size

-- The two arrays of an entry have their sizes.
abbrev pub HasArrays : FileEntry → Type 0
HasArrays e = (length e.name ≡ name_len) × (length e.dir ≡ dir_len)

-- The invariant, but for what it says of the slot `idx`. Each block has one owner.
pub record IsValidBut (idx : ℕ) (fs : Fs) : Type 0 where
  pub sized : IsSized fs
  pub n_files : length fs.files ≡ max_files
  pub arrays : (i : ℕ) → i < max_files → i ≢ idx → HasArrays (file_at fs.files i)
  pub owner : ℕ → ℕ
  pub owned :
      (i : ℕ)
      → i < max_files
      → i ≢ idx
      → (file_at fs.files i).used ≡ true
      → IsOwned fs owner i (file_at fs.files i)

-- The invariant: no slot is left out.
abbrev pub IsValid : Fs → Type 0
IsValid fs = IsValidBut max_files fs

-- Work on the slot `idx`: the other slots have their entries and their contents as before.
pub record Change (idx : ℕ) (fs fs' : Fs) : Type 0 where
  pub valid : IsValidBut idx fs'
  pub entries : (i : ℕ) → i ≢ idx → file_at fs'.files i ≡ file_at fs.files i
  pub contents :
      (i : ℕ)
      → i < max_files
      → i ≢ idx
      → (file_at fs.files i).used ≡ true
      → content fs' (file_at fs.files i) ≡ content fs (file_at fs.files i)

-- An entry keeps its chain and its content where the blocks of its owner stay.
pub keeps_IsOwned :
    (fs fs' : Fs) (owner owner' : ℕ → ℕ) (i : ℕ) (e : FileEntry)
    → ((j : ℕ)
        → j < n_blocks
        → owner j ≡ i
        → ¬ IsFree fs.fat j
        → (owner' j ≡ i)
          × (get_or fs'.fat j 0 ≡ get_or fs.fat j 0)
          × (get_or fs'.blocks j [] ≡ get_or fs.blocks j []))
    → IsOwned fs owner i e
    → IsOwned fs' owner' i e × (content fs' e ≡ content fs e)
unfolding content
keeps_IsOwned fs fs' owner owner' i e same h = (
  record {
    k = h.k;
    chain =
        Chain-map fs.fat fs'.fat (λ j. owner j ≡ i) (λ j. owner' j ≡ i) h.k e.first_block
          (λ j hj o taken. ((same j hj o taken).0, (same j hj o taken).1)) h.chain;
    complete = ap length bytes ∙ h.complete;
  },
  bytes,
)
  where
    bytes : read_chain fs' e.size e.first_block e.size ≡ read_chain fs e.size e.first_block e.size
    bytes =
        read_chain-same fs fs' (λ j. owner j ≡ i) h.k e.size e.first_block e.size
          (λ j hj o taken. ((same j hj o taken).1, (same j hj o taken).2)) h.chain

pub file_at-set_ne :
    (files : List FileEntry) (idx i : ℕ) (e : FileEntry)
    → i ≢ idx
    → file_at (set files idx e) i ≡ file_at files i
file_at-set_ne files idx i e ne = get_or-set_ne files idx i e zero_entry (λ h. ne (sym h))

pub file_at-set_self :
    (files : List FileEntry) (idx : ℕ) (e : FileEntry)
    → idx < length files
    → file_at (set files idx e) idx ≡ e
file_at-set_self files idx e h = get_or-set_self files idx e zero_entry h

-- A table and blocks that keep what the other slots own, and a new entry for this one.
module _ (idx : ℕ) (fs fs' : Fs) (v : IsValidBut idx fs) (owner' : ℕ → ℕ) (sized : IsSized fs')
    (n_files : length fs'.files ≡ max_files)
    (entries : (i : ℕ) → i ≢ idx → file_at fs'.files i ≡ file_at fs.files i)
    (same : (i j : ℕ)
      → i ≢ idx
      → j < n_blocks
      → v.owner j ≡ i
      → ¬ IsFree fs.fat j
      → (owner' j ≡ i)
        × (get_or fs'.fat j 0 ≡ get_or fs.fat j 0)
        × (get_or fs'.blocks j [] ≡ get_or fs.blocks j [])) where
  pub make-Change : Change idx fs fs'
  make-Change = record {
    valid = record {
      sized = sized;
      n_files = n_files;
      arrays = arrays;
      owner = owner';
      owned = owned;
    };
    entries = entries;
    contents = λ i h ne u.
        (keeps_IsOwned fs fs' v.owner owner' i (file_at fs.files i) (λ j. same i j ne)
          (v.owned i h ne u)).1;
  }
    where
      arrays : (i : ℕ) → i < max_files → i ≢ idx → HasArrays (file_at fs'.files i)
      arrays i h ne = let e = entries i ne in rw e (v.arrays i h ne)

      owned :
          (i : ℕ)
          → i < max_files
          → i ≢ idx
          → (file_at fs'.files i).used ≡ true
          → IsOwned fs' owner' i (file_at fs'.files i)
      owned i h ne u =
          let e = entries i ne in
          rw e
            (keeps_IsOwned fs fs' v.owner owner' i (file_at fs.files i) (λ j. same i j ne)
              (v.owned i h ne (rw e at u))).0
