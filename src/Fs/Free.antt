-- ===== src/Fs/Free.antt =====
-- `free_chain`: which blocks it frees.
use dug_os.Common.{
  ℕ, zero, suc, ◌+◌, ◌<◌, ◌≤◌, ◌≡◌, refl, ◌≢◌, ◌⊎◌, inl, inr, List, [], ◌∷◌, length, get_or, set,
  arith, get_or-set_ne, get_or-set_default, ℕ_discrete, Bool, false, not, ◌&&◌, ltb, ◌==◌,
  if◌then◌else◌,
}
use dug_os.Fs.{n_blocks, fat_free, fat_end, free_loop, free_chain}
use dug_os.Fs.Alloc.{IsFree}
use dug_os.Fs.Chain.{Chain, Chain-tail}

-- `j` is one of the `k` blocks that are linked from `blk` on.
abbrev pub InChain : List ℕ → ℕ → ℕ → ℕ → Type 0
InChain fat zero blk j = ⊥
InChain fat (suc k) blk j = (j ≡ blk) ⊎ InChain fat k (get_or fat blk 0) j

-- What is free stays free.
free_loop-IsFree : (f blk j : ℕ) (fat : List ℕ) → IsFree fat j → IsFree (free_loop f blk fat).1 j
unfolding free_loop
free_loop-IsFree zero blk j fat h = h
free_loop-IsFree (suc f) blk j fat h = elim (ℕ_discrete blk j) [
  | yes e ↦
      let freed : IsFree (set fat blk fat_free) j = rw (← e) (get_or-set_default fat blk 0) in
      ground (arith, free_loop-IsFree f (get_or fat blk 0) j (set fat blk fat_free))
  | no ne ↦ ground (
    arith,
    free_loop-IsFree f (get_or fat blk 0) j (set fat blk fat_free),
    get_or-set_ne fat blk j fat_free 0 ne,
  )
]

InChain-tail :
    (fat : List ℕ) (P : ℕ → Type 0) (k blk a v j : ℕ)
    → a < blk
    → Chain fat P k blk
    → InChain fat k blk j
    → InChain (set fat a v) k blk j
InChain-tail fat P zero blk a v j h c m = m
InChain-tail fat P (suc k) blk a v j h c (inl e) = inl e
InChain-tail fat P (suc k) blk a v j h c (inr m) =
    let same : get_or (set fat a v) blk 0 ≡ get_or fat blk 0 =
      get_or-set_ne fat a blk v 0 (omega arith) in
    inr (rw same (InChain-tail fat P k (get_or fat blk 0) a v j (omega arith) c.3 m))

-- The loop stops only at the end of the chain: with `f` rounds for the blocks from `blk` on.
free_loop-frees :
    (P : ℕ → Type 0) (f k blk j : ℕ) (fat : List ℕ)
    → n_blocks < f + blk
    → blk ≢ fat_free
    → Chain fat P k blk
    → InChain fat k blk j
    → IsFree (free_loop f blk fat).1 j
unfolding free_loop
free_loop-frees P f zero blk j fat h ne c m = absurd m
free_loop-frees P zero (suc k) blk j fat h ne c m = absurd (omega arith)
free_loop-frees P (suc f) (suc k) blk j fat h ne c (inl e) =
    let freed : IsFree (set fat blk fat_free) j = rw e (get_or-set_default fat blk 0) in
    ground (arith, free_loop-IsFree f (get_or fat blk 0) j (set fat blk fat_free))
free_loop-frees P (suc f) (suc k) blk j fat h ne c (inr m) = ground (
  arith,
  free_loop-frees P f k (get_or fat blk 0) j (set fat blk fat_free) (omega arith) (omega arith)
      (Chain-tail fat P k blk fat_free c)
      (InChain-tail fat P k (get_or fat blk 0) blk fat_free j c.2 c.3 m),
)

-- `free_chain` frees every block of a chain that does not begin at block 0.
pub free_chain-frees :
    (P : ℕ → Type 0) (k blk j : ℕ) (fat : List ℕ)
    → blk ≢ fat_free
    → Chain fat P k blk
    → InChain fat k blk j
    → IsFree (free_chain blk fat) j
unfolding free_chain
free_chain-frees P k blk j fat ne c m =
    free_loop-frees P (n_blocks + 1) k blk j fat (omega arith) ne c m

free_loop-block_zero :
    (f start : ℕ) (fat : List ℕ) → get_or (free_loop f start fat).1 0 0 ≡ get_or fat 0 0
unfolding free_loop
free_loop-block_zero zero start fat = refl
free_loop-block_zero (suc f) start fat = elim (ℕ_discrete start 0) [
  | yes e ↦ rw e refl
  | no ne ↦ ground (
    arith,
    free_loop-block_zero f (get_or fat start 0) (set fat start fat_free),
    get_or-set_ne fat start 0 fat_free 0 ne,
  )
]

-- `free_chain` never changes the entry of block 0, wherever it starts and whatever the table links:
-- the index 0 is also the mark of a free block, at which the loop stops.
pub free_chain-block_zero :
    (start : ℕ) (fat : List ℕ) → get_or (free_chain start fat) 0 0 ≡ get_or fat 0 0
unfolding free_chain
free_chain-block_zero start fat = free_loop-block_zero (n_blocks + 1) start fat

-- The taken entries of a table.
abbrev used : List ℕ → ℕ
used [] = 0
used (e ∷ fat) = if e == fat_free then used fat else suc (used fat)

used-set : (fat : List ℕ) (i : ℕ) → ¬ IsFree fat i → suc (used (set fat i fat_free)) ≡ used fat
used-set [] i h = absurd (h refl)
used-set (e ∷ fat) zero h = ground arith
used-set (e ∷ fat) (suc i) h = ground (arith, used-set fat i h)

used-le-length : (fat : List ℕ) → used fat ≤ length fat
used-le-length [] = omega arith
used-le-length (e ∷ fat) = ground (arith, used-le-length fat)

-- The test of the loop of `free_chain`.
abbrev pub goes_on : ℕ → Bool
goes_on start = ltb start n_blocks && not (start == fat_end) && not (start == fat_free)

free_loop-zero : (f : ℕ) (fat : List ℕ) → free_loop f 0 fat ≡ (0, fat)
unfolding free_loop
free_loop-zero zero fat = refl
free_loop-zero (suc f) fat = refl

free_loop_ends :
    (f start : ℕ) (fat : List ℕ) → used fat < f → goes_on (free_loop f start fat).0 ≡ false
unfolding free_loop
free_loop_ends zero start fat h = absurd (omega arith)
free_loop_ends (suc f) start fat h = elim (ℕ_discrete (get_or fat start 0) fat_free) [
  | yes e ↦ rw e (ground (arith, free_loop-zero f (set fat start fat_free)))
  | no ne ↦
      ground (
        arith,
        free_loop_ends f (get_or fat start 0) (set fat start fat_free),
        used-set fat start ne,
      )
]

-- The loop of `free_chain` ends by its own test, whatever a table of eight entries holds, loops of
-- links included: the fuel is never what stops it.
pub free_chain_ends :
    (start : ℕ) (fat : List ℕ)
    → length fat ≡ n_blocks
    → goes_on (free_loop (n_blocks + 1) start fat).0 ≡ false
free_chain_ends start fat h =
    free_loop_ends (n_blocks + 1) start fat (omega (arith, used-le-length fat))
