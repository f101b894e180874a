-- ===== src/Fs/Write/Content.antt =====
-- What `write_to_blocks` has made when it succeeds: a chain that holds the bytes.
use dug_os.Common.{
  ℕ, zero, suc, ◌-◌, ◌<◌, ◌≤◌, ◌≡◌, refl, ap, ap₂, ◌∙◌, ◌≢◌, ◌⊎◌, inl, inr, [], ◌++◌, length,
  get_or, take, drop, length-drop, take-add, arith, if_cases, ltb, ◌==◌, if◌then◌else◌, true,
}
use dug_os.Strings.{Bytes}
use dug_os.Fs.{
  n_blocks, fat_end, Fs, alloc_block, chunk_of, write_block, write_loop, write_to_blocks,
  read_chain,
}
use dug_os.Fs.Alloc.{IsFree, IsFirstFree, alloc_block_lem}
use dug_os.Fs.Chain.{Chain, Chain-map, chunk_of-le, block_size_pos}
use dug_os.Fs.Write.{IsSized, link-write_block, filled-write_block}
use dug_os.Fs.Write.Loop.{
  Leaves, prev_below, in_range, prev-ne, next-ends, next-IsSized, next-IsFree, next-taken,
  next-Leaves, write_loop-Leaves, files-write_block, Leaves-refl,
}

-- A chain from `b` of blocks that were free, which holds the first `left` bytes of `source`.
pub record Holds (fs fs' : Fs) (b : ℕ) (source : Bytes) (left : ℕ) : Type 0 where
  pub k : ℕ
  pub chain : Chain fs'.fat (IsFree fs.fat) k b
  pub bytes : (f : ℕ) → left ≤ f → read_chain fs' f b left ≡ take left source

read_chain-zero : (fs : Fs) (f blk : ℕ) → read_chain fs f blk 0 ≡ []
unfolding read_chain
read_chain-zero fs zero blk = refl
read_chain-zero fs (suc f) blk = ground arith

pub Holds-nothing :
    (fs fs' : Fs) (source : Bytes) (left : ℕ) → left ≡ 0 → Holds fs fs' fat_end source left
Holds-nothing fs fs' source left e = record {
  k = 0;
  chain = refl;
  bytes = λ f h. rw e (read_chain-zero fs' f fat_end);
}

chunk_of-pos : (left : ℕ) → ltb 0 left ≡ true → 0 < chunk_of left
chunk_of-pos left h = ground (arith, block_size_pos)

pub read_chain-step :
    (fs : Fs) (f blk left : ℕ)
    → blk < n_blocks
    → ltb 0 left ≡ true
    → read_chain fs (suc f) blk left
      ≡ take (chunk_of left) (get_or fs.blocks blk [])
        ++ read_chain fs f (get_or fs.fat blk 0) (left - chunk_of left)
unfolding read_chain
read_chain-step fs f blk left lt more = ground arith

-- One round, and what the rounds behind it have made.
Holds-cons :
    (fs fs' : Fs) (prev : ℕ) (source : Bytes) (left : ℕ) (sized : IsSized fs)
    (free : IsFirstFree fs.fat (alloc_block fs.fat))
    (below : (prev ≡ fat_end) ⊎ (prev < alloc_block fs.fat))
    → left ≤ length source
    → ltb 0 left ≡ true
    → let b = alloc_block fs.fat in
      let chunk = chunk_of left in
      let next = write_block b prev source chunk fs in
      Leaves next fs' b
      → b < get_or fs'.fat b 0
      → Holds next fs' (get_or fs'.fat b 0) (drop chunk source) (left - chunk)
      → Holds fs fs' b source left
Holds-cons fs fs' prev source left sized free below enough more l rises h = record {
  k = suc h.k;
  chain = (
    lt,
    free.free,
    rises,
    Chain-map fs'.fat fs'.fat (IsFree next.fat) (IsFree fs.fat) h.k (get_or fs'.fat b 0)
        (λ j hj p used. (next-IsFree fs prev source chunk sized free below j hj p, refl)) h.chain,
  );
  bytes = bytes;
}
  where
    b : ℕ
    b = alloc_block fs.fat

    chunk : ℕ
    chunk = chunk_of left

    next : Fs
    next = write_block b prev source chunk fs

    lt : b < n_blocks
    lt = in_range fs prev source chunk sized free below

    filled : take chunk (get_or fs'.blocks b []) ≡ take chunk source
    filled =
        ap (take chunk)
          (l.datas b lt (next-taken fs prev source chunk sized free below b (omega arith)))
        ∙ filled-write_block fs b prev source chunk sized lt (chunk_of-le left).1
            (omega (arith, chunk_of-le left))

    bytes : (f : ℕ) → left ≤ f → read_chain fs' f b left ≡ take left source
    bytes zero enough_fuel = absurd (ground arith)
    bytes (suc f) enough_fuel =
        read_chain-step fs' f b left lt more
        ∙ ap₂ ◌++◌ filled (h.bytes f (omega (arith, chunk_of-pos left more)))
        ∙ take-add chunk (left - chunk) source
        ∙ ap (λ n. take n source) (omega (arith, chunk_of-le left))

-- A round that links its block behind `prev`, and the rounds behind it.
round-Holds :
    (fs fs' : Fs) (prev : ℕ) (source : Bytes) (left : ℕ) (sized : IsSized fs)
    (free : IsFirstFree fs.fat (alloc_block fs.fat)) (below : prev < alloc_block fs.fat)
    → left ≤ length source
    → ltb 0 left ≡ true
    → let b = alloc_block fs.fat in
      let chunk = chunk_of left in
      let next = write_block b prev source chunk fs in
      Leaves next fs' b
      → (b < get_or fs'.fat b 0)
        × Holds next fs' (get_or fs'.fat b 0) (drop chunk source) (left - chunk)
      → (prev < get_or fs'.fat prev 0) × Holds fs fs' (get_or fs'.fat prev 0) source left
round-Holds fs fs' prev source left sized free below enough more l h = (
  rw linked below,
  rw linked (Holds-cons fs fs' prev source left sized free (inr below) enough more l h.0 h.1),
)
  where
    b : ℕ
    b = alloc_block fs.fat

    chunk : ℕ
    chunk = chunk_of left

    linked : get_or fs'.fat prev 0 ≡ b
    linked =
        l.links prev (next-taken fs prev source chunk sized free (inr below) prev (omega arith))
          (prev-ne fs prev source chunk sized free (inr below))
        ∙ link-write_block fs b prev source chunk sized
            (in_range fs prev source chunk sized free (inr below))
            (omega (arith, in_range fs prev source chunk sized free (inr below)))

-- The rounds behind the block `prev` link it to what they make.
write_loop-Holds :
    (f : ℕ) (source : Bytes) (left first prev : ℕ) (fs : Fs)
    → IsSized fs
    → left ≤ length source
    → prev < n_blocks
    → get_or fs.fat prev 0 ≡ fat_end
    → ((j : ℕ) → j ≤ prev → ¬ IsFree fs.fat j)
    → first ≢ fat_end
    → let (r, fs') = write_loop f source left first prev fs in
      r ≢ n_blocks
      → (r ≡ first)
        × (prev < get_or fs'.fat prev 0)
        × Holds fs fs' (get_or fs'.fat prev 0) source left
unfolding write_loop
write_loop-Holds zero source left first prev fs sized enough lt ends taken some_first =
    λ h. absurd (h refl)
write_loop-Holds (suc f) source left first prev fs sized enough lt ends taken some_first =
    let chunk = chunk_of left in
    let b = alloc_block fs.fat in
    let next = write_block b prev source chunk fs in
    let Good : ℕ × Fs → Type 0 = λ (r : ℕ × Fs).
      r.0 ≢ n_blocks
      → (r.0 ≡ first)
        × (prev < get_or r.1.fat prev 0)
        × Holds fs r.1 (get_or r.1.fat prev 0) source left in
    if_cases Good (ltb 0 left) _ _
      (λ more.
        if_cases Good (b == n_blocks) _ _ (λ full h. absurd (h refl))
          (λ room. elim (alloc_block_lem fs.fat) [
            | inl full ↦ absurd (ground (arith, full.0))
            | inr free ↦
                let below : prev < b = omega (arith, prev_below fs prev free (inr (lt, taken))) in
                let sized' = next-IsSized fs prev source chunk sized free (inr below) in
                let taken' = next-taken fs prev source chunk sized free (inr below) in
                let lt' = in_range fs prev source chunk sized free (inr below) in
                let first' = (if first == fat_end then b else first) in
                let kept : first' ≡ first = ground arith in
                λ success.
                  let ih =
                    write_loop-Holds f (drop chunk source) (left - chunk) first' b next sized'
                      (omega (arith, length-drop chunk source)) lt'
                      (next-ends fs prev source chunk sized free (inr below)) taken'
                      (rw kept some_first) success in
                  let more_rounds =
                    round-Holds fs (write_loop f (drop chunk source) (left - chunk) first' b next).1
                      prev source left sized free below enough more
                      (write_loop-Leaves f (drop chunk source) (left - chunk) first' b next sized'
                        (inr (lt', taken')))
                      (ih.1, ih.2) in
                  (ih.0 ∙ kept, more_rounds.0, more_rounds.1)
          ]))
      (λ done h.
        (refl, rw ends (omega arith), rw ends (Holds-nothing fs fs source left (ground arith))))

-- What a call of `write_to_blocks` does: it keeps every block that was taken and its link, and on
-- success the bytes stand in a chain of blocks that were free.
pub write_to_blocks_lem :
    (source : Bytes) (len : ℕ) (fs : Fs)
    → IsSized fs
    → len ≤ length source
    → let (r, fs') = write_to_blocks source len fs in
      Leaves fs fs' fat_end × (r ≢ n_blocks → Holds fs fs' r source len)
unfolding write_to_blocks write_loop
write_to_blocks_lem source len fs sized enough =
    let b = alloc_block fs.fat in
    let chunk = chunk_of len in
    let next = write_block b fat_end source chunk fs in
    let Good : ℕ × Fs → Type 0 =
      λ (r : ℕ × Fs). Leaves fs r.1 fat_end × (r.0 ≢ n_blocks → Holds fs r.1 r.0 source len) in
    if_cases Good (len == 0) _ _
      (λ none_left.
        (Leaves-refl fs fat_end sized, λ h. Holds-nothing fs fs source len (ground arith)))
      (λ some_left.
        if_cases Good (ltb 0 len) _ _
          (λ more.
            if_cases Good (b == n_blocks) _ _
              (λ full. (Leaves-refl fs fat_end sized, λ h. absurd (h refl)))
              (λ room. elim (alloc_block_lem fs.fat) [
                | inl full ↦ absurd (ground (arith, full.0))
                | inr free ↦
                    let sized' = next-IsSized fs fat_end source chunk sized free (inl refl) in
                    let taken' = next-taken fs fat_end source chunk sized free (inl refl) in
                    let lt' = in_range fs fat_end source chunk sized free (inl refl) in
                    let ends' = next-ends fs fat_end source chunk sized free (inl refl) in
                    let l =
                      write_loop-Leaves n_blocks (drop chunk source) (len - chunk) b b next sized'
                        (inr (lt', taken')) in
                    (
                      next-Leaves fs fat_end source chunk sized free (inl refl) l
                          (files-write_block b fat_end source chunk fs),
                      λ success.
                          let h =
                            write_loop-Holds n_blocks (drop chunk source) (len - chunk) b b next
                              sized' (omega (arith, length-drop chunk source)) lt' ends' taken'
                              (omega arith) success in
                          rw h.0 (
                            Holds-cons fs _ fat_end source len sized free (inl refl) enough more l
                              h.1 h.2),
                    )
              ]))
          (λ done. absurd (ground arith)))
