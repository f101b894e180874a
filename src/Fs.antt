-- ===== src/Fs.antt =====
-- src/fs.c and src/fs.h: the state of the in-memory file system and the helpers of its commands.
-- The commands are in `Command`, their invariant in `Invariant`, and `Lookup` and `Spec` see the
-- file system as a map.
pub mod Alloc
pub mod Chain
pub mod Free
pub mod Write
pub mod Input
pub mod Command
pub mod Find
pub mod Lookup
pub mod Collect
pub mod Lines
pub mod Effect
pub mod Invariant
pub mod Session
pub mod Spec
mod Tests
pub mod Sample
use dug_os.Common.{
  ℕ, zero, suc, ◌+◌, ◌-◌, ◌*◌, ◌/◌, ◌%◌, Bool, true, false, not, ◌&&◌, ◌||◌, List, [], ◌∷◌, ◌++◌,
  ltb, ◌==◌, if◌then◌else◌, get_or, set, take, drop, replicate,
}
use dug_os.Common.Int.{is_zero}
use dug_os.Strings.{Bytes, kstrlen, kstrcmp, kstrncpy, kmemcpy}

abbrev pub n_blocks : ℕ
n_blocks = 8

-- Shut, so that proofs and tests do not count up to it.
unfoldable pub block_size : ℕ
block_size = 32768

abbrev pub max_files : ℕ
max_files = 32

abbrev pub name_len : ℕ
name_len = 64

abbrev pub dir_len : ℕ
dir_len = 64

abbrev pub fat_free : ℕ
fat_free = 0x0000

abbrev pub fat_end : ℕ
fat_end = 0xffff

-- `struct file_entry`; `name` and `dir` are the arrays of 64 bytes.
pub record FileEntry : Type 0 where
  pub name : Bytes
  pub dir : Bytes
  pub first_block : ℕ
  pub size : ℕ
  pub used : Bool

-- The three static arrays of fs.c.
pub record Fs : Type 0 where
  pub fat : List ℕ
  pub blocks : List Bytes
  pub files : List FileEntry

-- An entry that the boot loader has zeroed.
unfoldable pub zero_entry : FileEntry
zero_entry = record {
  name = replicate name_len 0;
  dir = replicate dir_len 0;
  first_block = 0;
  size = 0;
  used = false;
}

-- The memory at `files[i].dir`: the array, `first_block`, and the padding before `size`, which is 0.
abbrev pub dir_ptr : FileEntry → Bytes
dir_ptr e = e.dir ++ e.first_block % 256 ∷ e.first_block / 256 ∷ 0 ∷ 0 ∷ []

-- The memory at `files[i].name`: the array, and what follows it in the struct.
abbrev pub name_ptr : FileEntry → Bytes
name_ptr e = e.name ++ dir_ptr e

abbrev pub file_at : List FileEntry → ℕ → FileEntry
file_at files i = get_or files i zero_entry

alloc_from : List ℕ → ℕ → ℕ
alloc_from [] i = n_blocks
alloc_from (e ∷ fat) i = if e == fat_free then i else alloc_from fat (i + 1)

unfoldable pub alloc_block : List ℕ → ℕ
unfolding alloc_from
alloc_block fat = alloc_from fat 0

-- The loop of `free_chain`, with fuel for its rounds: `start`, and the table.
pub free_loop : ℕ → ℕ → List ℕ → ℕ × List ℕ
free_loop zero start fat = (start, fat)
free_loop (suc f) start fat =
    let rest = free_loop f (get_or fat start 0) (set fat start fat_free) in
    if ltb start n_blocks && not (start == fat_end) && not (start == fat_free)
    then rest
    else (start, fat)

-- No chain is longer than the table.
unfoldable pub free_chain : ℕ → List ℕ → List ℕ
unfolding free_loop
free_chain start fat = (free_loop (n_blocks + 1) start fat).1

-- The test of `find_file`.
abbrev pub is_file : Bytes → Bytes → FileEntry → Bool
is_file name dir e =
    e.used && is_zero (kstrcmp (name_ptr e) name) && is_zero (kstrcmp (dir_ptr e) dir)

-- The loop `for (i = 0; i < FS_MAX_FILES; i++) if (test(files[i])) return i;`
find_from : (FileEntry → Bool) → List FileEntry → ℕ → ℕ
find_from test [] i = max_files
find_from test (e ∷ files) i = if test e then i else find_from test files (i + 1)

unfoldable pub find_file : Bytes → Bytes → List FileEntry → ℕ
unfolding find_from
find_file name dir files = find_from (is_file name dir) files 0

unfoldable pub find_free_slot : List FileEntry → ℕ
unfolding find_from
find_free_slot files = find_from (λ e. not e.used) files 0

-- The bytes that one round moves: `len - written`, at most a block.
abbrev pub chunk_of : ℕ → ℕ
chunk_of left = if ltb left block_size then left else block_size

-- The block that a round of `write_to_blocks` fills, and its links.
pub write_block : ℕ → ℕ → Bytes → ℕ → Fs → Fs
write_block blk prev source chunk fs =
    let fat' = set fs.fat blk fat_end in
    record fs {
      fat = if prev == fat_end then fat' else set fat' prev blk;
      blocks = set fs.blocks blk (kmemcpy (get_or fs.blocks blk []) source chunk);
    }

-- The loop of `write_to_blocks`, with fuel for its rounds; `left` is `len - written`, and `source`
-- is `data + written`. The result is what the function returns, and the state.
pub write_loop : ℕ → Bytes → ℕ → ℕ → ℕ → Fs → ℕ × Fs
write_loop zero source left first prev fs = (n_blocks, fs)
write_loop (suc f) source left first prev fs =
    let blk = alloc_block fs.fat in
    let chunk = chunk_of left in
    let rest =
      write_loop f (drop chunk source) (left - chunk) (if first == fat_end then blk else first) blk
        (write_block blk prev source chunk fs) in
    if ltb 0 left then (if blk == n_blocks then (n_blocks, fs) else rest) else (first, fs)

-- Each round takes a block, so there are at most `n_blocks`, and one that finds the loop ended.
unfoldable pub write_to_blocks : Bytes → ℕ → Fs → ℕ × Fs
unfolding write_loop write_block
write_to_blocks data' len fs =
    if len == 0 then (fat_end, fs) else write_loop (n_blocks + 1) data' len fat_end fat_end fs

-- The loop that `fs_read`, `fs_edit` and `fs_copy` share: the bytes of a chain from `blk` on, of
-- which `left` are wanted. Every round takes a byte or more, so that `left` rounds are enough.
unfoldable pub read_chain : Fs → ℕ → ℕ → ℕ → Bytes
read_chain fs zero blk left = []
read_chain fs (suc f) blk left =
    let chunk = chunk_of left in
    let rest = read_chain fs f (get_or fs.fat blk 0) (left - chunk) in
    if ltb blk n_blocks && ltb 0 left then take chunk (get_or fs.blocks blk []) ++ rest else []

-- The content of a file: what those loops read.
unfoldable pub content : Fs → FileEntry → Bytes
unfolding read_chain
content fs e = read_chain fs e.size e.first_block e.size

-- The loops of `fs_init`.
init_fat : List ℕ → List ℕ
init_fat [] = []
init_fat (e ∷ fat) = fat_free ∷ init_fat fat

init_files : List FileEntry → List FileEntry
init_files [] = []
init_files (e ∷ files) =
    record e { used = false; size = 0; first_block = fat_end } ∷ init_files files

unfoldable pub fs_init : Fs → Fs
unfolding init_fat init_files
fs_init fs = record fs { fat = init_fat fs.fat; files = init_files fs.files }

-- The arrays as the boot loader leaves them.
unfoldable pub bss : Fs
bss = record {
  fat = replicate n_blocks 0;
  blocks = replicate n_blocks (replicate block_size 0);
  files = replicate max_files zero_entry;
}
