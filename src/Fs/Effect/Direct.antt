-- ===== src/Fs/Effect/Direct.antt =====
-- The effects of `fs_init`, `fs_rename` and `fs_copy`.
use dug_os.Common.{
  ℕ, zero, suc, ◌<◌, ◌≡◌, refl, ap, ◌∙◌, false, ◌||◌, List, [], ◌∷◌, length, arith, ◌==◌, ltb,
  if_cases,
}
use dug_os.Strings.{Bytes, kstrlen, kstrncpy}
use dug_os.Strings.Copy.{length-kstrncpy}
use dug_os.Console.{Out}
use dug_os.Fs.{
  Fs, FileEntry, zero_entry, n_blocks, max_files, file_at, find_file, find_free_slot, content,
  init_fat, init_files, fs_init, name_len, dir_len,
}
use dug_os.Fs.Write.{IsSized}
use dug_os.Fs.Input.{Buffer}
use dug_os.Fs.Invariant.{IsValid, HasArrays}
use dug_os.Fs.Invariant.Steps.{valid_but, close, store_buffer_lem, retitled-IsOwned}
use dug_os.Fs.Command.{store_buffer, fs_rename, copy_finish, fs_copy}
use dug_os.Fs.Effect.{
  Effect, Effect-refl, Effect-of_change, finish_change, Change-same, found-IsOwned,
  free_slot_unused,
}

length-init_fat : (fat : List ℕ) → length (init_fat fat) ≡ length fat
unfolding init_fat
length-init_fat [] = refl
length-init_fat (e ∷ fat) = ap suc (length-init_fat fat)

length-init_files : (files : List FileEntry) → length (init_files files) ≡ length files
unfolding init_files
length-init_files [] = refl
length-init_files (e ∷ files) = ap suc (length-init_files files)

init_files-unused : (files : List FileEntry) (i : ℕ) → (file_at (init_files files) i).used ≡ false
unfolding init_files zero_entry
init_files-unused [] i = refl
init_files-unused (e ∷ files) zero = refl
init_files-unused (e ∷ files) (suc i) = init_files-unused files i

init_files-HasArrays :
    (files : List FileEntry) (i : ℕ)
    → HasArrays (file_at files i)
    → HasArrays (file_at (init_files files) i)
unfolding init_files
init_files-HasArrays [] i h = h
init_files-HasArrays (e ∷ files) zero h = h
init_files-HasArrays (e ∷ files) (suc i) h = init_files-HasArrays files i h

-- `fs_init` makes a valid file system of any three arrays that have their sizes.
pub fs_init-IsValid :
    (fs : Fs)
    → IsSized fs
    → length fs.files ≡ max_files
    → ((i : ℕ) → i < max_files → HasArrays (file_at fs.files i))
    → IsValid (fs_init fs)
unfolding fs_init
fs_init-IsValid fs s n arrays = record {
  sized = record {
    fat_size = length-init_fat fs.fat ∙ s.fat_size;
    n_data = s.n_data;
    block_sizes = s.block_sizes;
  };
  n_files = length-init_files fs.files ∙ n;
  arrays = λ i h ne. init_files-HasArrays fs.files i (arrays i h);
  owner = λ j. 0;
  owned = λ i h ne u. absurd (cc (init_files-unused fs.files i));
}

-- `fs_rename` takes a valid state to a valid state, and leaves the entry and the content of every slot
-- but that of the old name as they were.
pub fs_rename-Effect :
    (oldname newname dir : Bytes) (fs : Fs)
    → IsValid fs
    → Effect (find_file oldname dir fs.files) fs (fs_rename oldname newname dir fs).0
unfolding fs_rename
fs_rename-Effect oldname newname dir fs v =
    let idx = find_file oldname dir fs.files in
    let e = file_at fs.files idx in
    let P : Fs × List Out → Type 0 = λ r. Effect idx fs r.0 in
    if_cases P (kstrlen oldname == 0 || kstrlen newname == 0) _ _ (λ no_name. Effect-refl idx fs v)
      (λ named.
        if_cases P (idx == max_files) _ _ (λ missing. Effect-refl idx fs v)
          (λ found.
            if_cases P (ltb (find_file newname dir fs.files) max_files) _ _
              (λ taken. Effect-refl idx fs v)
              (λ fresh.
                let own = found-IsOwned oldname dir fs v (ground arith) in
                finish_change fs fs fs (record e { name = kstrncpy e.name newname name_len })
                  (Change-same idx fs v) (Change-same idx fs v) own.0
                  (length-kstrncpy e.name newname name_len ∙ own.2.0, own.2.1)
                  (λ u. (retitled-IsOwned fs v.owner idx e _ refl refl own.1).0))))

-- The arrays of the entry that `fs_copy` fills.
copied :
    (fs fs' : Fs) (dst dir : Bytes) (didx : ℕ)
    → fs'.files ≡ fs.files
    → HasArrays (file_at fs.files didx)
    → (length (kstrncpy (file_at fs'.files didx).name dst name_len) ≡ name_len)
      × (length (kstrncpy (file_at fs'.files didx).dir dir dir_len) ≡ dir_len)
copied fs fs' dst dir didx same arrays = rw same (
  length-kstrncpy (file_at fs.files didx).name dst name_len ∙ arrays.0,
  length-kstrncpy (file_at fs.files didx).dir dir dir_len ∙ arrays.1,
)

-- `fs_copy` takes a valid state to a valid state, also when the disk is full, and leaves the entry and
-- the content of every slot but the first free one as they were.
pub fs_copy-Effect :
    (src dst dir : Bytes) (fs : Fs)
    → IsValid fs
    → Effect (find_free_slot fs.files) fs (fs_copy src dst dir fs).0
unfolding fs_copy copy_finish
fs_copy-Effect src dst dir fs v =
    let sidx = find_file src dir fs.files in
    let didx = find_free_slot fs.files in
    let s = file_at fs.files sidx in
    let b : Buffer = record { tmp = content fs s; total = s.size } in
    let r = store_buffer b fs in
    let P : Fs × List Out → Type 0 = λ r. Effect didx fs r.0 in
    if_cases P (kstrlen src == 0 || kstrlen dst == 0) _ _ (λ no_name. Effect-refl didx fs v)
      (λ named.
        if_cases P (sidx == max_files) _ _ (λ missing. Effect-refl didx fs v)
          (λ found.
            if_cases P (ltb (find_file dst dir fs.files) max_files) _ _
              (λ taken. Effect-refl didx fs v)
              (λ fresh.
                if_cases P (didx == max_files) _ _ (λ full. Effect-refl didx fs v)
                  (λ slot.
                    let own = (found-IsOwned src dir fs v (ground arith)).1 in
                    let stored =
                      store_buffer_lem didx b fs (valid_but didx v) (omega (arith, own.complete)) in
                    let free = free_slot_unused fs v (ground arith) in
                    if_cases P (r.0 == n_blocks) _ _
                      (λ no_room. Effect-of_change fs r.1 stored.change (
                        close didx r.1 stored.change.valid (rw stored.same_files free.2) (λ u.
                          absurd
                            (cc (u, free.1, ap (λ f. (file_at f didx).used) stored.same_files)))))
                      (λ room.
                        finish_change fs fs r.1 _ (Change-same didx fs v) stored.change free.0
                          (copied fs r.1 dst dir didx stored.same_files free.2)
                          (λ u. (stored.stored (ground arith) _ refl refl).0))))))
