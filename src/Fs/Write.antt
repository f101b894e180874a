-- ===== src/Fs/Write.antt =====
-- `write_to_blocks`: the chain that it makes, and what it leaves alone.
pub mod Loop
pub mod Content
pub mod Room
pub mod Roundtrip
use dug_os.Common.{
  ℕ, zero, suc, ◌+◌, ◌-◌, ◌<◌, ◌≤◌, ◌≡◌, refl, sym, ap, ◌∙◌, ◌≢◌, ◌⊎◌, inl, inr, List, [], ◌∷◌,
  ◌++◌, length, get_or, set, take, drop, length-set, length-take, length-drop, take-append,
  take_all, take-add, arith, get_or-set_self, get_or-set_ne, ℕ_discrete, ltb, ◌==◌, if◌then◌else◌,
  Bool-cases,
}
use dug_os.Strings.{Bytes, kmemcpy}
use dug_os.Strings.Copy.{length-kmemcpy, kmemcpy_lem}
use dug_os.Fs.{
  n_blocks, block_size, fat_free, fat_end, Fs, FileEntry, alloc_block, chunk_of, write_block,
  write_loop, write_to_blocks, read_chain,
}
use dug_os.Fs.Alloc.{IsFree, IsFirstFree, alloc_block_lem}
use dug_os.Fs.Chain.{Chain, Chain-map, chunk_of-le, block_size_pos}

-- The arrays have their sizes.
pub record IsSized (fs : Fs) : Type 0 where
  pub fat_size : length fs.fat ≡ n_blocks
  pub n_data : length fs.blocks ≡ n_blocks
  pub block_sizes : (j : ℕ) → j < n_blocks → length (get_or fs.blocks j []) ≡ block_size

module _ (fs : Fs) (blk prev : ℕ) (source : Bytes) (chunk : ℕ) (sized : IsSized fs)
    (lt : blk < n_blocks) where
  pub end-write_block :
      prev ≢ blk → get_or (write_block blk prev source chunk fs).fat blk 0 ≡ fat_end
  unfolding write_block
  end-write_block ne = ground (
    arith,
    get_or-set_self fs.fat blk fat_end 0,
    get_or-set_ne (set fs.fat blk fat_end) prev blk blk 0 ne,
    sized.fat_size,
  )

  pub link-write_block :
      prev < n_blocks → get_or (write_block blk prev source chunk fs).fat prev 0 ≡ blk
  unfolding write_block
  link-write_block h = ground (
    arith,
    get_or-set_self (set fs.fat blk fat_end) prev blk 0,
    length-set fs.fat blk fat_end,
    sized.fat_size,
  )

  pub fat-write_block :
      (j : ℕ)
      → j ≢ blk
      → j ≢ prev
      → get_or (write_block blk prev source chunk fs).fat j 0 ≡ get_or fs.fat j 0
  unfolding write_block
  fat-write_block j nb np = ground (
    arith,
    get_or-set_ne fs.fat blk j fat_end 0 (λ e. nb (sym e)),
    get_or-set_ne (set fs.fat blk fat_end) prev j blk 0 (λ e. np (sym e)),
  )

  pub filled-write_block :
      chunk ≤ block_size
      → chunk ≤ length source
      → take chunk (get_or (write_block blk prev source chunk fs).blocks blk []) ≡ take chunk source
  unfolding write_block
  filled-write_block small there =
      let old = get_or fs.blocks blk [] in
      let size = sized.block_sizes blk lt in
      rw (get_or-set_self fs.blocks blk (kmemcpy old source chunk) [] (omega (arith, sized.n_data)))
        (rw (kmemcpy_lem old source chunk (omega (arith, size)) there) (
          take-append chunk (take chunk source) (drop chunk old)
            (omega (arith, length-take chunk source))
          ∙ take_all chunk (take chunk source) (omega (arith, length-take chunk source))))

  pub blocks-write_block :
      (j : ℕ)
      → j ≢ blk
      → get_or (write_block blk prev source chunk fs).blocks j [] ≡ get_or fs.blocks j []
  unfolding write_block
  blocks-write_block j nb =
      get_or-set_ne fs.blocks blk j (kmemcpy (get_or fs.blocks blk []) source chunk) []
        (λ e. nb (sym e))

  pub write_block-IsSized : IsSized (write_block blk prev source chunk fs)
  unfolding write_block
  write_block-IsSized = record {
    fat_size = ground (
      arith,
      sized.fat_size,
      length-set fs.fat blk fat_end,
      length-set (set fs.fat blk fat_end) prev blk,
    );
    n_data =
        length-set fs.blocks blk (kmemcpy (get_or fs.blocks blk []) source chunk) ∙ sized.n_data;
    block_sizes = sizes;
  }
    where
      sizes :
          (j : ℕ)
          → j < n_blocks
          → length
              (get_or (set fs.blocks blk (kmemcpy (get_or fs.blocks blk []) source chunk)) j [])
            ≡ block_size
      sizes j h = elim (ℕ_discrete blk j) [
        | yes e ↦ rw (← e) (
            rw
              (get_or-set_self fs.blocks blk (kmemcpy (get_or fs.blocks blk []) source chunk) []
                (omega (arith, sized.n_data)))
              (length-kmemcpy (get_or fs.blocks blk []) source chunk ∙ sized.block_sizes blk lt))
        | no ne ↦
            rw
              (get_or-set_ne fs.blocks blk j (kmemcpy (get_or fs.blocks blk []) source chunk) [] ne)
              (sized.block_sizes j h)
      ]
