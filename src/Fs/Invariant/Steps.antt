-- ===== src/Fs/Invariant/Steps.antt =====
-- The parts of the commands, each as a `Change` of one slot: a new entry, the freeing of a chain, and
-- the storing of collected bytes.
use dug_os.Common.{
  ℕ, ◌<◌, ◌≤◌, ◌≡◌, refl, sym, ap, ◌∙◌, ◌≢◌, true, length, get_or, set, take, length-set,
  length-take, arith, ◌==◌, if◌then◌else◌, if_cases, ℕ_discrete,
}
use dug_os.Fs.{
  Fs, FileEntry, n_blocks, max_files, fat_free, fat_end, file_at, free_chain, write_to_blocks,
  read_chain, content,
}
use dug_os.Fs.Alloc.{IsFree}
use dug_os.Fs.Chain.{Chain-map, free_chain-same, length-free_chain}
use dug_os.Fs.Write.Loop.{Leaves, Leaves-refl}
use dug_os.Fs.Write.Content.{Holds, Holds-nothing, write_to_blocks_lem}
use dug_os.Fs.Input.{Buffer}
use dug_os.Fs.Command.{set_file, store_buffer}
use dug_os.Fs.Invariant.{
  IsOwned, IsValid, IsValidBut, HasArrays, Change, make-Change, keeps_IsOwned, file_at-set_ne,
  file_at-set_self,
}

-- A valid state is valid but for any slot.
abbrev pub valid_but : {fs : Fs} (idx : ℕ) → IsValid fs → IsValidBut idx fs
valid_but idx v = record {
  sized = v.sized;
  n_files = v.n_files;
  arrays = λ i h ne. v.arrays i h (omega arith);
  owner = v.owner;
  owned = λ i h ne. v.owned i h (omega arith);
}

pub Change-trans : {idx : ℕ} (a b c : Fs) → Change idx a b → Change idx b c → Change idx a c
Change-trans a b c p q = record {
  valid = q.valid;
  entries = λ i ne. q.entries i ne ∙ p.entries i ne;
  contents = λ i h ne u.
      let e = p.entries i ne in rw (← e) (q.contents i h ne (rw e u)) ∙ p.contents i h ne u;
}

pub Change-set_file :
    (idx : ℕ) (e : FileEntry) (fs : Fs) → IsValidBut idx fs → Change idx fs (set_file idx e fs)
Change-set_file idx e fs v =
    make-Change idx fs (set_file idx e fs) v v.owner
      (record {
        fat_size = v.sized.fat_size;
        n_data = v.sized.n_data;
        block_sizes = v.sized.block_sizes;
      })
      (length-set fs.files idx e ∙ v.n_files) (λ i ne. file_at-set_ne fs.files idx i e ne)
      (λ i j ne hj o taken. (o, refl, refl))

-- `free_chain` of the chain of a slot, and a new entry there.
pub Change-free :
    (idx : ℕ) (e e' : FileEntry) (fs : Fs) (v : IsValidBut idx fs)
    → IsOwned fs v.owner idx e
    → Change idx fs
        (record fs { fat = free_chain e.first_block fs.fat; files = set fs.files idx e' })
Change-free idx e e' fs v own =
    make-Change idx fs _ v v.owner
      (record {
        fat_size = length-free_chain e.first_block fs.fat ∙ v.sized.fat_size;
        n_data = v.sized.n_data;
        block_sizes = v.sized.block_sizes;
      })
      (length-set fs.files idx e' ∙ v.n_files) (λ i ne. file_at-set_ne fs.files idx i e' ne)
      (λ i j ne hj o taken. (
        o,
        free_chain-same (λ b. v.owner b ≡ idx) own.k e.first_block j fs.fat own.chain
            (λ h. ne (sym o ∙ h)),
        refl,
      ))

-- The same with the entry left as it is.
pub Change-free_chain :
    (idx : ℕ) (e : FileEntry) (fs : Fs) (v : IsValidBut idx fs)
    → IsOwned fs v.owner idx e
    → Change idx fs (record fs { fat = free_chain e.first_block fs.fat })
Change-free_chain idx e fs v own =
    make-Change idx fs _ v v.owner
      (record {
        fat_size = length-free_chain e.first_block fs.fat ∙ v.sized.fat_size;
        n_data = v.sized.n_data;
        block_sizes = v.sized.block_sizes;
      })
      v.n_files (λ i ne. refl)
      (λ i j ne hj o taken. (
        o,
        free_chain-same (λ b. v.owner b ≡ idx) own.k e.first_block j fs.fat own.chain
            (λ h. ne (sym o ∙ h)),
        refl,
      ))

-- Free blocks go to the slot that is worked on.
abbrev pub new_owner : ℕ → Fs → (ℕ → ℕ) → ℕ → ℕ
new_owner idx fs owner j = if get_or fs.fat j 0 == fat_free then idx else owner j

-- What storing the bytes of a buffer does. On success an entry with the chain and its size owns its
-- blocks and has the bytes for its content.
pub record Stored (idx : ℕ) (b : Buffer) (fs : Fs) (r : ℕ × Fs) : Type 0 where
  pub change : Change idx fs r.1
  pub same_files : r.1.files ≡ fs.files
  pub stored :
      r.0 ≢ n_blocks
      → (e : FileEntry) → e.first_block ≡ r.0
      → e.size ≡ b.total
      → IsOwned r.1 change.valid.owner idx e × (content r.1 e ≡ take b.total b.tmp)

Stored-make :
    (idx : ℕ) (b : Buffer) (fs : Fs) (r : ℕ × Fs) (v : IsValidBut idx fs)
    → b.total ≤ length b.tmp
    → Leaves fs r.1 fat_end
    → (r.0 ≢ n_blocks → Holds fs r.1 r.0 b.tmp b.total)
    → Stored idx b fs r
unfolding content make-Change
Stored-make idx b fs r v enough l h = record {
  change =
      make-Change idx fs r.1 v (new_owner idx fs v.owner) l.sized (ap length l.files ∙ v.n_files)
        (λ i ne. ap (λ f. file_at f i) l.files)
        (λ i j ne hj o taken.
          (ground (arith, o, taken), l.links j taken (omega arith), l.datas j hj taken));
  same_files = l.files;
  stored = stored;
}
  where
    stored :
        r.0 ≢ n_blocks
        → (e : FileEntry) → e.first_block ≡ r.0
        → e.size ≡ b.total
        → IsOwned r.1 (new_owner idx fs v.owner) idx e × (content r.1 e ≡ take b.total b.tmp)
    stored success e first size =
        let held = h success in
        let bytes : read_chain r.1 e.size e.first_block e.size ≡ take b.total b.tmp =
          rw (first, size) (held.bytes b.total (omega arith)) in
        (
          record {
            k = held.k;
            chain = rw first (
                Chain-map r.1.fat r.1.fat (IsFree fs.fat) (λ j. new_owner idx fs v.owner j ≡ idx)
                  held.k r.0 (λ j hj p taken. (ground arith, refl)) held.chain);
            complete = ap length bytes ∙ omega (arith, length-take b.total b.tmp);
          },
          bytes,
        )

pub store_buffer_lem :
    (idx : ℕ) (b : Buffer) (fs : Fs)
    → IsValidBut idx fs
    → b.total ≤ length b.tmp
    → Stored idx b fs (store_buffer b fs)
store_buffer_lem idx b fs v enough =
    if_cases (λ (r : ℕ × Fs). Stored idx b fs r) (b.total == 0) _ _
      (λ none_left.
        Stored-make idx b fs (fat_end, fs) v enough (Leaves-refl fs fat_end v.sized)
          (λ h. Holds-nothing fs fs b.tmp b.total (ground arith)))
      (λ some_left.
        let w = write_to_blocks_lem b.tmp b.total fs v.sized enough in
        Stored-make idx b fs (write_to_blocks b.tmp b.total fs) v enough w.0 w.1)

-- The slot is done with: its entry is unused, or owns its blocks.
pub close :
    (idx : ℕ) (fs : Fs) (v : IsValidBut idx fs)
    → HasArrays (file_at fs.files idx)
    → ((file_at fs.files idx).used ≡ true → IsOwned fs v.owner idx (file_at fs.files idx))
    → IsValid fs
close idx fs v last_arrays last = record {
  sized = v.sized;
  n_files = v.n_files;
  arrays = arrays;
  owner = v.owner;
  owned = owned;
}
  where
    arrays : (i : ℕ) → i < max_files → i ≢ max_files → HasArrays (file_at fs.files i)
    arrays i h ne = elim (ℕ_discrete i idx) [
      | yes e ↦ rw e last_arrays
      | no other ↦ v.arrays i h other
    ]

    owned :
        (i : ℕ)
        → i < max_files
        → i ≢ max_files
        → (file_at fs.files i).used ≡ true
        → IsOwned fs v.owner i (file_at fs.files i)
    owned i h ne u = elim (ℕ_discrete i idx) [
      | yes e ↦ rw e (last (rw e at u))
      | no other ↦ v.owned i h other u
    ]

-- A new entry does not move any bytes.
pub IsOwned-set_file :
    (fs : Fs) (owner : ℕ → ℕ) (idx : ℕ) (e f : FileEntry)
    → IsOwned fs owner idx e
    → IsOwned (set_file idx f fs) owner idx e × (content (set_file idx f fs) e ≡ content fs e)
IsOwned-set_file fs owner idx e f o =
    keeps_IsOwned fs (set_file idx f fs) owner owner idx e (λ j hj own taken. (own, refl, refl)) o

-- A new entry that is unused, or owns its blocks, is the last step.
pub close_set_file :
    (idx : ℕ) (e : FileEntry) (fs : Fs) (v : IsValidBut idx fs)
    → idx < max_files
    → HasArrays e
    → (e.used ≡ true → IsOwned fs v.owner idx e)
    → IsValid (set_file idx e fs)
unfolding make-Change Change-set_file
close_set_file idx e fs v lt arrays own =
    close idx (set_file idx e fs) (Change-set_file idx e fs v).valid
      (let here = file_at-set_self fs.files idx e (omega (arith, v.n_files)) in rw here arrays)
      (λ u.
        let here = file_at-set_self fs.files idx e (omega (arith, v.n_files)) in
        rw here (IsOwned-set_file fs v.owner idx e e (own (rw here at u))).0)

-- An entry with no blocks owns them all.
pub empty-IsOwned :
    (fs : Fs) (owner : ℕ → ℕ) (idx : ℕ) (e : FileEntry)
    → e.first_block ≡ fat_end
    → e.size ≡ 0
    → IsOwned fs owner idx e
unfolding content
empty-IsOwned fs owner idx e first size = record {
  k = 0;
  chain = first;
  complete = empty e.size size;
}
  where
    empty : (n : ℕ) → n ≡ 0 → length (read_chain fs n e.first_block n) ≡ n
    empty n h = rw h refl

-- A new name does not move any bytes.
pub retitled-IsOwned :
    (fs : Fs) (owner : ℕ → ℕ) (idx : ℕ) (e e' : FileEntry)
    → e'.first_block ≡ e.first_block
    → e'.size ≡ e.size
    → IsOwned fs owner idx e
    → IsOwned fs owner idx e' × (content fs e' ≡ content fs e)
unfolding content
retitled-IsOwned fs owner idx e e' first size own =
    let same : read_chain fs e'.size e'.first_block e'.size
        ≡ read_chain fs e.size e.first_block e.size =
      rw (first, size) refl in
    (
      record {
        k = own.k;
        chain = rw first own.chain;
        complete = ap length same ∙ own.complete ∙ sym size;
      },
      same,
    )
