-- ===== src/Fs/Session.antt =====
-- Sessions of src/fs.c: what calls of the commands lead to from the state that `fs_init` makes of
-- the zeroed arrays.
use dug_os.Common.{
  ℕ, zero, suc, ◌<◌, ◌≡◌, refl, List, [], some, length, replicate, get_or, length-replicate, arith,
}
use dug_os.Strings.{Bytes}
use dug_os.Console.{Reply}
use dug_os.Fs.{
  Fs, n_blocks, block_size, max_files, name_len, dir_len, zero_entry, file_at, fs_init, bss,
}
use dug_os.Fs.Invariant.{IsValid, HasArrays}
use dug_os.Fs.Command.{fs_write, fs_edit, fs_delete, fs_rename, fs_copy}
use dug_os.Fs.Effect.Interactive.{fs_write-Effect, fs_edit-Effect, fs_delete-Effect}
use dug_os.Fs.Effect.Direct.{fs_init-IsValid, fs_rename-Effect, fs_copy-Effect}

-- One call that changes the state.
pub data Step (fs : Fs) : Fs → Type 0 where
  init : Step fs (fs_init fs)
  write :
      (name dir : Bytes) (keys : List ℕ) (r : Reply Fs)
      → fs_write name dir fs keys ≡ some r
      → Step fs r.result
  edit :
      (name dir : Bytes) (keys : List ℕ) (r : Reply Fs)
      → fs_edit name dir fs keys ≡ some r
      → Step fs r.result
  delete :
      (name dir : Bytes) (keys : List ℕ) (r : Reply Fs)
      → fs_delete name dir fs keys ≡ some r
      → Step fs r.result
  rename : (oldname newname dir : Bytes) → Step fs (fs_rename oldname newname dir fs).0
  copy : (src dst dir : Bytes) → Step fs (fs_copy src dst dir fs).0

pub data Reachable : Fs → Type 0 where
  boot : Reachable (fs_init bss)
  next : {fs fs' : Fs} → Reachable fs → Step fs fs' → Reachable fs'

pub file_at-replicate : (n i : ℕ) → file_at (replicate n zero_entry) i ≡ zero_entry
file_at-replicate zero i = refl
file_at-replicate (suc n) zero = refl
file_at-replicate (suc n) (suc i) = file_at-replicate n i

pub zero_entry-HasArrays : HasArrays zero_entry
unfolding zero_entry
zero_entry-HasArrays = (length-replicate {A = ℕ} name_len 0, length-replicate {A = ℕ} dir_len 0)

pub bss_block :
    (n j : ℕ)
    → j < n
    → length {A = ℕ} (get_or (replicate n (replicate block_size 0)) j []) ≡ block_size
bss_block zero j h = absurd (omega arith)
bss_block (suc n) zero h = length-replicate {A = ℕ} block_size 0
bss_block (suc n) (suc j) h = bss_block n j (omega arith)

pub boot-IsValid : IsValid (fs_init bss)
unfolding bss
boot-IsValid =
    fs_init-IsValid bss
      (record { fat_size = refl; n_data = refl; block_sizes = λ j h. bss_block n_blocks j h })
      (length-replicate max_files zero_entry)
      (λ i h. let e = file_at-replicate max_files i in rw e zero_entry-HasArrays)

init-again : (fs : Fs) → IsValid fs → IsValid (fs_init fs)
init-again fs v = fs_init-IsValid fs v.sized v.n_files (λ i h. v.arrays i h (omega arith))

Step-IsValid : {fs fs' : Fs} → IsValid fs → Step fs fs' → IsValid fs'
Step-IsValid {fs} v init = init-again fs v
Step-IsValid {fs} v (write name dir keys r e) = (fs_write-Effect name dir fs keys r v e).valid
Step-IsValid {fs} v (edit name dir keys r e) = (fs_edit-Effect name dir fs keys r v e).valid
Step-IsValid {fs} v (delete name dir keys r e) = (fs_delete-Effect name dir fs keys r v e).valid
Step-IsValid {fs} v (rename oldname newname dir) = (fs_rename-Effect oldname newname dir fs v).valid
Step-IsValid {fs} v (copy src dst dir) = (fs_copy-Effect src dst dir fs v).valid

-- Every state that calls of `fs_init`, `fs_write`, `fs_edit`, `fs_delete`, `fs_rename` and `fs_copy`
-- lead to from the start has the invariant: each used slot has a chain of blocks of its own that
-- holds all the bytes of its size.
pub Reachable-IsValid : {fs : Fs} → Reachable fs → IsValid fs
Reachable-IsValid boot = boot-IsValid
Reachable-IsValid (next r s) = Step-IsValid (Reachable-IsValid r) s
