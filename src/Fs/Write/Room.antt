-- ===== src/Fs/Write/Room.antt =====
-- When `write_to_blocks` fails: exactly when the free blocks cannot hold the bytes.
use dug_os.Common.{
  ℕ, zero, suc, ◌+◌, ◌-◌, ◌*◌, ◌<◌, ◌≤◌, ◌≡◌, refl, sym, ap, ◌∙◌, ◌≢◌, ◌↔◌, ◌⊎◌, inl, inr, List, [],
  ◌∷◌, length, set, drop, arith, ltb, ◌==◌, if◌then◌else◌, if_cases, get_or-set_ne, true,
}
use dug_os.Strings.{Bytes}
use dug_os.Fs.{
  n_blocks, block_size, fat_free, fat_end, Fs, alloc_block, chunk_of, write_block, write_loop,
  write_to_blocks,
}
use dug_os.Fs.Alloc.{IsFree, IsFirstFree, alloc_block_lem}
use dug_os.Fs.Chain.{block_size_pos}
use dug_os.Fs.Write.{IsSized}
use dug_os.Fs.Write.Loop.{InOrder, prev_below, in_range, next-IsSized, next-taken}

-- The free blocks of a table.
abbrev pub free_blocks : List ℕ → ℕ
free_blocks [] = 0
free_blocks (e ∷ fat) = if e == fat_free then suc (free_blocks fat) else free_blocks fat

-- A free block is taken: there is one fewer.
free_blocks-set :
    (fat : List ℕ) (i v : ℕ)
    → i < length fat
    → IsFree fat i
    → v ≢ fat_free
    → suc (free_blocks (set fat i v)) ≡ free_blocks fat
free_blocks-set [] i v h free ne = absurd (omega arith)
free_blocks-set (e ∷ fat) zero v h free ne = ground arith
free_blocks-set (e ∷ fat) (suc i) v h free ne = ground (arith, free_blocks-set fat i v)

-- A taken one gets another link.
free_blocks-set_taken :
    (fat : List ℕ) (i v : ℕ)
    → ¬ IsFree fat i
    → v ≢ fat_free
    → free_blocks (set fat i v) ≡ free_blocks fat
free_blocks-set_taken [] i v h ne = refl
free_blocks-set_taken (e ∷ fat) zero v h ne = ground arith
free_blocks-set_taken (e ∷ fat) (suc i) v h ne = ground (arith, free_blocks-set_taken fat i v)

free_blocks_none :
    (fat : List ℕ) → ((j : ℕ) → j < length fat → ¬ IsFree fat j) → free_blocks fat ≡ 0
free_blocks_none [] h = refl
free_blocks_none (e ∷ fat) h =
    let first : e ≢ fat_free = h 0 (omega arith) in
    ground (arith, free_blocks_none fat (λ j hj. h (suc j) (omega arith)))

free_blocks-write_block :
    (fs : Fs) (prev : ℕ) (source : Bytes) (chunk : ℕ)
    → IsFirstFree fs.fat (alloc_block fs.fat)
    → (prev ≡ fat_end) ⊎ (prev < alloc_block fs.fat)
    → suc (free_blocks (write_block (alloc_block fs.fat) prev source chunk fs).fat)
      ≡ free_blocks fs.fat
unfolding write_block
free_blocks-write_block fs prev source chunk free (inl e) =
    ground (arith, free_blocks-set fs.fat (alloc_block fs.fat) fat_end free.in_table free.free)
free_blocks-write_block fs prev source chunk free (inr below) =
    let b = alloc_block fs.fat in
    ground (
      arith,
      free_blocks-set fs.fat b fat_end free.in_table free.free,
      free_blocks-set_taken (set fs.fat b fat_end) prev b (λ h.
          free.lowest prev below (sym (get_or-set_ne fs.fat b prev fat_end 0 (omega arith)) ∙ h)),
    )

-- One block fewer, and a block's worth of bytes fewer.
room_step :
    (n m left : ℕ)
    → suc m ≡ n
    → ltb 0 left ≡ true
    → (m * block_size < left - chunk_of left) ↔ (n * block_size < left)
room_step n m left e more = ground (arith, ap (λ t. t * block_size) e, block_size_pos)

write_loop_room :
    (f : ℕ) (source : Bytes) (left first prev : ℕ) (fs : Fs)
    → IsSized fs
    → InOrder fs prev
    → free_blocks fs.fat < f
    → first ≢ n_blocks
    → ((write_loop f source left first prev fs).0 ≡ n_blocks)
      ↔ (free_blocks fs.fat * block_size < left)
unfolding write_loop
write_loop_room zero source left first prev fs sized order fuel ne = absurd (omega arith)
write_loop_room (suc f) source left first prev fs sized order fuel ne =
    let b = alloc_block fs.fat in
    let chunk = chunk_of left in
    let next = write_block b prev source chunk fs in
    let Good : ℕ × Fs → Type 0 =
      λ (r : ℕ × Fs). (r.0 ≡ n_blocks) ↔ (free_blocks fs.fat * block_size < left) in
    if_cases Good (ltb 0 left) _ _
      (λ more.
        if_cases Good (b == n_blocks) _ _
          (λ full. elim (alloc_block_lem fs.fat) [
            | inl none_free ↦
                let no_room = free_blocks_none fs.fat none_free.1 in
                ((λ h. rw no_room (ground arith)), (λ h. refl))
            | inr free ↦ absurd (ground (arith, free.in_table, sized.fat_size))
          ])
          (λ room. elim (alloc_block_lem fs.fat) [
            | inl none_free ↦ absurd (ground (arith, none_free.0))
            | inr free ↦
                let below = prev_below fs prev free order in
                let sized' = next-IsSized fs prev source chunk sized free below in
                let lt' = in_range fs prev source chunk sized free below in
                let taken' = next-taken fs prev source chunk sized free below in
                let first' = (if first == fat_end then b else first) in
                let fewer = free_blocks-write_block fs prev source chunk free below in
                let ih =
                  write_loop_room f (drop chunk source) (left - chunk) first' b next sized'
                    (inr (lt', taken')) (omega (arith, fewer)) (ground arith) in
                let step = room_step (free_blocks fs.fat) (free_blocks next.fat) left fewer more in
                ((λ h. step.0 (ih.0 h)), (λ h. ih.1 (step.1 h)))
          ]))
      (λ done. ((λ h. absurd (ne h)), (λ h. absurd (ground arith))))

free_blocks-le-length : (fat : List ℕ) → free_blocks fat ≤ length fat
free_blocks-le-length [] = omega arith
free_blocks-le-length (e ∷ fat) = ground (arith, free_blocks-le-length fat)

-- `write_to_blocks` reports a full disk exactly when the free blocks cannot hold `len` bytes.
pub write_to_blocks_room :
    (source : Bytes) (len : ℕ) (fs : Fs)
    → IsSized fs
    → ((write_to_blocks source len fs).0 ≡ n_blocks) ↔ (free_blocks fs.fat * block_size < len)
unfolding write_to_blocks
write_to_blocks_room source len fs sized =
    if_cases (λ (r : ℕ × Fs). (r.0 ≡ n_blocks) ↔ (free_blocks fs.fat * block_size < len)) (len == 0)
      _ _ (λ none_left. ((λ h. absurd (omega arith)), (λ h. absurd (ground arith))))
      (λ some_left.
        write_loop_room (n_blocks + 1) source len fat_end fat_end fs sized (inl refl)
          (omega (arith, free_blocks-le-length fs.fat, sized.fat_size)) (omega arith))
