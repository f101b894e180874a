-- ===== src/Fs/Alloc.antt =====
-- `alloc_block`: the lowest free block, or the sentinel exactly when none is free.
use dug_os.Common.{
  ℕ, zero, suc, ◌+◌, ◌<◌, ◌≡◌, refl, ◌≢◌, ◌⊎◌, inl, inr, List, [], ◌∷◌, length, get_or, arith, ◌==◌,
  Bool-cases,
}
use dug_os.Fs.{n_blocks, fat_free, alloc_from, alloc_block}

-- The block `i` is free.
abbrev pub IsFree : List ℕ → ℕ → Type 0
IsFree fat i = get_or fat i 0 ≡ fat_free

pub record IsFirstFree (fat : List ℕ) (i : ℕ) : Type 0 where
  pub in_table : i < length fat
  pub free : IsFree fat i
  pub lowest : (j : ℕ) → j < i → ¬ IsFree fat j

data AllocFrom (fat : List ℕ) (i r : ℕ) : Type 0 where
  full : r ≡ n_blocks → ((j : ℕ) → j < length fat → ¬ IsFree fat j) → AllocFrom fat i r
  at : (d : ℕ) → r ≡ i + d → IsFirstFree fat d → AllocFrom fat i r

AllocFrom-cons :
    (e i r : ℕ) (fat : List ℕ) → e ≢ fat_free → AllocFrom fat (i + 1) r → AllocFrom (e ∷ fat) i r
AllocFrom-cons e i r fat ne (full p q) = full p below
  where
    below : (j : ℕ) → j < length (e ∷ fat) → ¬ IsFree (e ∷ fat) j
    below zero h = ne
    below (suc j) h = q j (omega arith)
AllocFrom-cons e i r fat ne (at d p q) =
    at (suc d) (omega arith) (record { in_table = omega arith; free = q.free; lowest = below })
  where
    below : (j : ℕ) → j < suc d → ¬ IsFree (e ∷ fat) j
    below zero h = ne
    below (suc j) h = q.lowest j (omega arith)

alloc_from_lem : (fat : List ℕ) (i : ℕ) → AllocFrom fat i (alloc_from fat i)
unfolding alloc_from
alloc_from_lem [] i = full refl (λ j h. absurd (omega arith))
alloc_from_lem (e ∷ fat) i = elim (Bool-cases (e == fat_free)) [
  | inl free ↦
      at zero (ground arith) (record {
        in_table = omega arith;
        free = ground arith;
        lowest = λ j h. absurd (omega arith);
      })
  | inr not_free ↦ ground (
    arith,
    AllocFrom-cons e i (alloc_from fat (i + 1)) fat (ground arith) (alloc_from_lem fat (i + 1)),
  )
]

-- `alloc_block` returns the sentinel when every block is taken, and the lowest free block otherwise.
pub alloc_block_lem :
    (fat : List ℕ)
    → ((alloc_block fat ≡ n_blocks) × ((j : ℕ) → j < length fat → ¬ IsFree fat j))
      ⊎ IsFirstFree fat (alloc_block fat)
unfolding alloc_block
alloc_block_lem fat = cases (alloc_from fat 0) (alloc_from_lem fat 0)
  where
    cases :
        (r : ℕ)
        → AllocFrom fat 0 r
        → ((r ≡ n_blocks) × ((j : ℕ) → j < length fat → ¬ IsFree fat j)) ⊎ IsFirstFree fat r
    cases r (full p q) = inl (p, q)
    cases r (at d p q) = let e : r ≡ d = omega arith in inr (rw e q)
