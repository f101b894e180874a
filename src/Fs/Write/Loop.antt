-- ===== src/Fs/Write/Loop.antt =====
-- The rounds of `write_to_blocks`, by induction on the fuel.
use dug_os.Common.{
  ℕ, zero, suc, ◌-◌, ◌<◌, ◌≤◌, ◌≡◌, refl, sym, ap, ◌∙◌, ◌≢◌, ◌⊎◌, inl, inr, [], get_or, drop, arith,
  ℕ_discrete, dec_lt, if_cases, ltb, ◌==◌, if◌then◌else◌,
}
use dug_os.Strings.{Bytes}
use dug_os.Fs.{n_blocks, fat_end, Fs, alloc_block, chunk_of, write_block, write_loop}
use dug_os.Fs.Alloc.{IsFree, IsFirstFree, alloc_block_lem}
use dug_os.Fs.Write.{
  IsSized, end-write_block, link-write_block, fat-write_block, blocks-write_block,
  write_block-IsSized,
}

-- What a call leaves alone: the taken blocks and their links, but for the link of `prev`.
pub record Leaves (fs fs' : Fs) (prev : ℕ) : Type 0 where
  pub sized : IsSized fs'
  pub files : fs'.files ≡ fs.files
  pub links : (j : ℕ) → ¬ IsFree fs.fat j → j ≢ prev → get_or fs'.fat j 0 ≡ get_or fs.fat j 0
  pub datas :
      (j : ℕ) → j < n_blocks → ¬ IsFree fs.fat j → get_or fs'.blocks j [] ≡ get_or fs.blocks j []

-- The block that a round takes is free, and lies above those taken before.
module _ (fs : Fs) (prev : ℕ) (source : Bytes) (chunk : ℕ) (sized : IsSized fs)
    (first : IsFirstFree fs.fat (alloc_block fs.fat))
    (order : (prev ≡ fat_end) ⊎ (prev < alloc_block fs.fat)) where
  abbrev pub blk : ℕ
  blk = alloc_block fs.fat

  abbrev pub next : Fs
  next = write_block blk prev source chunk fs

  pub in_range : blk < n_blocks
  in_range = omega (arith, first.in_table, sized.fat_size)

  pub prev-ne : prev ≢ blk
  prev-ne = omega (arith, in_range)

  pub next-ends : get_or next.fat blk 0 ≡ fat_end
  next-ends = end-write_block fs blk prev source chunk sized in_range prev-ne

  pub next-IsSized : IsSized next
  next-IsSized = write_block-IsSized fs blk prev source chunk sized in_range

  -- What is free after the round was free before.
  pub next-IsFree : (j : ℕ) → j < n_blocks → IsFree next.fat j → IsFree fs.fat j
  next-IsFree j h free = elim (ℕ_discrete j blk) [
    | yes e ↦ absurd (omega (arith, next-ends, ap (λ i. get_or next.fat i 0) e))
    | no nb ↦ elim (ℕ_discrete j prev) [
      | yes e ↦ absurd (
          omega (
            arith,
            link-write_block fs blk prev source chunk sized in_range,
            ap (λ i. get_or next.fat i 0) e,
            in_range,
          ))
      | no np ↦ sym (fat-write_block fs blk prev source chunk sized in_range j nb np) ∙ free
    ]
  ]

  -- Every block up to the new one is taken.
  pub next-taken : (j : ℕ) → j ≤ blk → ¬ IsFree next.fat j
  next-taken j h free = elim (ℕ_discrete j blk) [
    | yes e ↦ omega (arith, next-ends, ap (λ i. get_or next.fat i 0) e)
    | no nb ↦ first.lowest j (omega arith) (next-IsFree j (omega (arith, in_range)) free)
  ]

  -- The frame of the rounds that follow is a frame of this round and them.
  pub next-Leaves : {fs' : Fs} → Leaves next fs' blk → next.files ≡ fs.files → Leaves fs fs' prev
  next-Leaves {fs'} l same = record {
    sized = l.sized;
    files = l.files ∙ same;
    links = links;
    datas = datas;
  }
    where
      kept : (j : ℕ) → ¬ IsFree fs.fat j → j ≢ blk
      kept j h e = h (rw e first.free)

      still : (j : ℕ) → ¬ IsFree fs.fat j → j ≢ prev → get_or next.fat j 0 ≡ get_or fs.fat j 0
      still j h np = fat-write_block fs blk prev source chunk sized in_range j (kept j h) np

      links : (j : ℕ) → ¬ IsFree fs.fat j → j ≢ prev → get_or fs'.fat j 0 ≡ get_or fs.fat j 0
      links j h np = l.links j (λ f. h (sym (still j h np) ∙ f)) (kept j h) ∙ still j h np

      datas :
          (j : ℕ)
          → j < n_blocks
          → ¬ IsFree fs.fat j
          → get_or fs'.blocks j [] ≡ get_or fs.blocks j []
      datas j hj h =
          l.datas j hj (λ f. h (next-IsFree j hj f))
          ∙ blocks-write_block fs blk prev source chunk sized in_range j (kept j h)

pub files-write_block :
    (b prev : ℕ) (source : Bytes) (chunk : ℕ) (fs : Fs)
    → (write_block b prev source chunk fs).files ≡ fs.files
unfolding write_block
files-write_block b prev source chunk fs = refl

-- Before a round: there is no block yet, or every block up to the last one is taken.
abbrev pub InOrder : Fs → ℕ → Type 0
InOrder fs prev = (prev ≡ fat_end) ⊎ ((prev < n_blocks) × ((j : ℕ) → j ≤ prev → ¬ IsFree fs.fat j))

pub prev_below :
    (fs : Fs) (prev : ℕ)
    → IsFirstFree fs.fat (alloc_block fs.fat)
    → InOrder fs prev
    → (prev ≡ fat_end) ⊎ (prev < alloc_block fs.fat)
prev_below fs prev first (inl e) = inl e
prev_below fs prev first (inr o) = elim (dec_lt prev (alloc_block fs.fat)) [
  | yes h ↦ inr h
  | no n ↦ absurd (o.1 (alloc_block fs.fat) (omega arith) first.free)
]

pub Leaves-refl : (fs : Fs) (prev : ℕ) → IsSized fs → Leaves fs fs prev
Leaves-refl fs prev sized = record {
  sized = sized;
  files = refl;
  links = λ j h np. refl;
  datas = λ j h k. refl;
}

-- The loop leaves alone what it finds taken, whether or not it runs out of blocks.
pub write_loop-Leaves :
    (f : ℕ) (source : Bytes) (left first prev : ℕ) (fs : Fs)
    → IsSized fs
    → InOrder fs prev
    → Leaves fs (write_loop f source left first prev fs).1 prev
unfolding write_loop
write_loop-Leaves zero source left first prev fs sized order = Leaves-refl fs prev sized
write_loop-Leaves (suc f) source left first prev fs sized order =
    let chunk = chunk_of left in
    let b = alloc_block fs.fat in
    if_cases {A = ℕ × Fs} (λ r. Leaves fs r.1 prev) (ltb 0 left) _ _
      (λ more.
        if_cases {A = ℕ × Fs} (λ r. Leaves fs r.1 prev) (b == n_blocks) _ _
          (λ full. Leaves-refl fs prev sized)
          (λ room. elim (alloc_block_lem fs.fat) [
            | inl full ↦ absurd (ground (arith, full.0))
            | inr free ↦
                let below = prev_below fs prev free order in
                next-Leaves fs prev source chunk sized free below
                  (write_loop-Leaves f (drop chunk source) (left - chunk)
                    (if first == fat_end then b else first) b (write_block b prev source chunk fs)
                    (next-IsSized fs prev source chunk sized free below)
                    (inr (
                      in_range fs prev source chunk sized free below,
                      next-taken fs prev source chunk sized free below,
                    )))
                  (files-write_block b prev source chunk fs)
          ]))
      (λ done. Leaves-refl fs prev sized)
