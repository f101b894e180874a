-- ===== src/Fs/Chain.antt =====
-- Chains of blocks: what the entries of a table link up, and what a change of the table or of the
-- blocks does to them.
use dug_os.Common.{
  ℕ, zero, suc, ◌+◌, ◌-◌, ◌*◌, ◌<◌, ◌≤◌, ◌≡◌, refl, List, [], length, get_or, set, length-set, take,
  length-take, length-append, arith, get_or-set_ne,
}
use dug_os.Fs.{
  n_blocks, block_size, fat_free, fat_end, Fs, FileEntry, free_loop, free_chain, read_chain,
  content, chunk_of,
}
use dug_os.Fs.Alloc.{IsFree}

-- `k` blocks in rising order, linked from `blk` on, each with `P`, and the end mark behind the last.
-- An entry above its own index is not 0, so that every block of a chain is taken.
abbrev pub Chain : List ℕ → (ℕ → Type 0) → ℕ → ℕ → Type 0
Chain fat P zero blk = blk ≡ fat_end
Chain fat P (suc k) blk =
    (blk < n_blocks) × P blk × (blk < get_or fat blk 0) × Chain fat P k (get_or fat blk 0)

-- A chain is kept by a table with the same entries at its blocks.
pub Chain-map :
    (fat fat' : List ℕ) (P Q : ℕ → Type 0) (k blk : ℕ)
    → ((j : ℕ) → j < n_blocks → P j → ¬ IsFree fat j → Q j × (get_or fat' j 0 ≡ get_or fat j 0))
    → Chain fat P k blk
    → Chain fat' Q k blk
Chain-map fat fat' P Q zero blk same c = c
Chain-map fat fat' P Q (suc k) blk same c =
    let s = same blk c.0 c.1 (omega arith) in
    (c.0, s.0, rw s.1 c.2, rw s.1 (Chain-map fat fat' P Q k (get_or fat blk 0) same c.3))

-- Every block of a chain lies above what its first one lies above.
Chain-above :
    (fat : List ℕ) (P : ℕ → Type 0) (k blk a : ℕ)
    → a < blk
    → Chain fat P k blk
    → Chain fat (λ j. P j × (a < j)) k blk
Chain-above fat P zero blk a h c = c
Chain-above fat P (suc k) blk a h c =
    (c.0, (c.1, h), c.2, Chain-above fat P k (get_or fat blk 0) a (omega arith) c.3)

-- The rest of a chain does not notice that its first block is freed.
pub Chain-tail :
    (fat : List ℕ) (P : ℕ → Type 0) (k blk v : ℕ)
    → Chain fat P (suc k) blk
    → Chain (set fat blk v) P k (get_or fat blk 0)
Chain-tail fat P k blk v c =
    Chain-map fat (set fat blk v) (λ j. P j × (blk < j)) P k (get_or fat blk 0)
      (λ j hj p used. (p.0, get_or-set_ne fat blk j v 0 (omega arith)))
      (Chain-above fat P k (get_or fat blk 0) blk c.2 c.3)

pub block_size_pos : 0 < block_size
unfolding block_size
block_size_pos = omega arith

pub chunk_of-le : (left : ℕ) → (chunk_of left ≤ left) × (chunk_of left ≤ block_size)
chunk_of-le left = ground arith

-- The bytes that a chain holds stay the same where the table and the blocks do.
pub read_chain-same :
    (a b : Fs) (P : ℕ → Type 0) (k f blk left : ℕ)
    → ((j : ℕ)
        → j < n_blocks
        → P j
        → ¬ IsFree a.fat j
        → (get_or b.fat j 0 ≡ get_or a.fat j 0) × (get_or b.blocks j [] ≡ get_or a.blocks j []))
    → Chain a.fat P k blk
    → read_chain b f blk left ≡ read_chain a f blk left
unfolding read_chain
read_chain-same a b P k zero blk left same c = refl
read_chain-same a b P zero (suc f) blk left same c = ground arith
read_chain-same a b P (suc k) (suc f) blk left same c = ground (
  arith,
  same blk c.0 c.1 (omega arith),
  read_chain-same a b P k f (get_or a.fat blk 0) (left - chunk_of left) same c.3,
)

-- `free_chain` touches only the blocks of the chain.
free_loop-same :
    (P : ℕ → Type 0) (f k blk j : ℕ) (fat : List ℕ)
    → Chain fat P k blk
    → ¬ P j
    → get_or (free_loop f blk fat).1 j 0 ≡ get_or fat j 0
unfolding free_loop
free_loop-same P zero k blk j fat c out = refl
free_loop-same P (suc f) zero blk j fat c out = ground arith
free_loop-same P (suc f) (suc k) blk j fat c out = ground (
  arith,
  free_loop-same P f k (get_or fat blk 0) j (set fat blk fat_free)
      (Chain-tail fat P k blk fat_free c) out,
  get_or-set_ne fat blk j fat_free 0 (λ e. out (rw (← e) c.1)),
)

length-free_loop : (f blk : ℕ) (fat : List ℕ) → length (free_loop f blk fat).1 ≡ length fat
unfolding free_loop
length-free_loop zero blk fat = refl
length-free_loop (suc f) blk fat = ground (
  arith,
  length-free_loop f (get_or fat blk 0) (set fat blk fat_free),
  length-set fat blk fat_free,
)

pub length-free_chain : (blk : ℕ) (fat : List ℕ) → length (free_chain blk fat) ≡ length fat
unfolding free_chain
length-free_chain blk fat = length-free_loop (n_blocks + 1) blk fat

pub free_chain-same :
    (P : ℕ → Type 0) (k blk j : ℕ) (fat : List ℕ)
    → Chain fat P k blk
    → ¬ P j
    → get_or (free_chain blk fat) j 0 ≡ get_or fat j 0
unfolding free_chain
free_chain-same P k blk j fat c out = free_loop-same P (n_blocks + 1) k blk j fat c out

-- A chain rises, so that it has at most as many blocks as there are.
Chain-short :
    (fat : List ℕ) (P : ℕ → Type 0) (k blk : ℕ) → Chain fat P (suc k) blk → suc k + blk ≤ n_blocks
Chain-short fat P zero blk c = omega arith
Chain-short fat P (suc k) blk c = omega (arith, Chain-short fat P k (get_or fat blk 0) c.3)

length-read_chain :
    (fs : Fs) (P : ℕ → Type 0) (f k blk left : ℕ)
    → Chain fs.fat P k blk
    → length (read_chain fs f blk left) ≤ k * block_size
unfolding read_chain
length-read_chain fs P zero k blk left c = omega arith
length-read_chain fs P (suc f) zero blk left c = ground arith
length-read_chain fs P (suc f) (suc k) blk left c =
    let rest = read_chain fs f (get_or fs.fat blk 0) (left - chunk_of left) in
    let piece = take (chunk_of left) (get_or fs.blocks blk []) in
    ground (
      arith,
      length-append piece rest,
      length-take (chunk_of left) (get_or fs.blocks blk []),
      chunk_of-le left,
      length-read_chain fs P f k (get_or fs.fat blk 0) (left - chunk_of left) c.3,
    )

-- The content of a chain fits the blocks.
pub content-small :
    (fs : Fs) (P : ℕ → Type 0) (k : ℕ) (e : FileEntry)
    → Chain fs.fat P k e.first_block
    → length (content fs e) ≤ n_blocks * block_size
unfolding content
content-small fs P zero e c = omega (arith, length-read_chain fs P e.size 0 e.first_block e.size c)
content-small fs P (suc k) e c = grind (
  arith,
  length-read_chain fs P e.size (suc k) e.first_block e.size c,
  Chain-short fs.fat P k e.first_block c,
)
