-- ===== src/Fs/Sample.antt =====
-- A file system of src/fs.c with one file for the tests: "a" in "/", whose block 1 holds "hi".
use dug_os.Common.{
  ℕ, zero, suc, ◌+◌, ◌<◌, ◌≡◌, refl, ap, true, false, [], ◌∷◌, length, get_or, replicate,
  length-replicate, arith,
}
use dug_os.Strings.{Bytes, kstrlen, kstrcmp}
use dug_os.Fs.{
  Fs, FileEntry, n_blocks, block_size, zero_entry, file_at, find_file, content, fat_end,
}
use dug_os.Fs.Invariant.{IsValid, HasArrays, IsOwned}
use dug_os.Fs.Lookup.{IsUnique}
use dug_os.Fs.Session.{bss_block, file_at-replicate, zero_entry-HasArrays}
use dug_os.Fs.Spec.Copy.{unused_is_file}

abbrev pub name_a : Bytes
name_a = b'a' ∷ []

abbrev pub name_b : Bytes
name_b = b'b' ∷ []

abbrev pub root : Bytes
root = b'/' ∷ []

abbrev pub file_a : FileEntry
file_a = record {
  name = b'a' ∷ replicate 63 0;
  dir = b'/' ∷ replicate 63 0;
  first_block = 1;
  size = 2;
  used = true;
}

-- the block with the text, and a block of zeros
abbrev hi_block : Bytes
hi_block = b'h' ∷ b'i' ∷ replicate 32766 0

abbrev zeros : Bytes
zeros = replicate block_size 0

abbrev pub sample : Fs
sample = record {
  fat = 0 ∷ fat_end ∷ replicate 6 0;
  blocks = zeros ∷ hi_block ∷ replicate 6 zeros;
  files = file_a ∷ replicate 31 zero_entry;
}

pub sample-content : content sample file_a ≡ b'h' ∷ b'i' ∷ []
unfolding content block_size
sample-content = refl

hi_length : length hi_block ≡ block_size
unfolding block_size
hi_length = ap (λ n. n + 2) (length-replicate {A = ℕ} 32766 0)

sample_blocks : (j : ℕ) → j < n_blocks → length (get_or sample.blocks j []) ≡ block_size
sample_blocks zero h = length-replicate {A = ℕ} block_size 0
sample_blocks (suc zero) h = hi_length
sample_blocks (suc (suc j)) h = bss_block 6 j (omega arith)

sample-HasArrays : (i : ℕ) → HasArrays (file_at sample.files i)
sample-HasArrays zero = (refl, refl)
sample-HasArrays (suc i) = let e = file_at-replicate 31 i in rw e zero_entry-HasArrays

zero_entry-unused : zero_entry.used ≡ false
unfolding zero_entry
zero_entry-unused = refl

pub sample-unused : (i : ℕ) → (file_at sample.files (suc i)).used ≡ false
sample-unused i = let e = file_at-replicate 31 i in rw e zero_entry-unused

sample-IsOwned :
    (i : ℕ)
    → (file_at sample.files i).used ≡ true
    → IsOwned sample (λ j. 0) i (file_at sample.files i)
sample-IsOwned zero u = record {
  k = 1;
  chain = (omega arith, refl, omega arith, refl);
  complete = ap length sample-content;
}
sample-IsOwned (suc i) u = let unused = sample-unused i in absurd (cc)

pub sample-IsValid : IsValid sample
sample-IsValid = record {
  sized = record { fat_size = refl; n_data = refl; block_sizes = sample_blocks };
  n_files = refl;
  arrays = λ i h ne. sample-HasArrays i;
  owner = λ j. 0;
  owned = λ i h ne u. sample-IsOwned i u;
}

pub sample-IsUnique : IsUnique sample
sample-IsUnique n d zero zero hi hj p q = refl
sample-IsUnique n d zero (suc j) hi hj p q =
    let hidden = unused_is_file n d (file_at sample.files (suc j)) (sample-unused j) in absurd (cc)
sample-IsUnique n d (suc i) j hi hj p q =
    let hidden = unused_is_file n d (file_at sample.files (suc i)) (sample-unused i) in absurd (cc)

pub found_a : find_file name_a root sample.files ≡ 0
unfolding find_file kstrcmp
found_a = refl

pub kstrlen-root : kstrlen root ≡ 1
unfolding kstrlen
kstrlen-root = refl

pub kstrlen_a : kstrlen name_a ≡ 1
unfolding kstrlen
kstrlen_a = refl

pub kstrlen_b : kstrlen name_b ≡ 1
unfolding kstrlen
kstrlen_b = refl
