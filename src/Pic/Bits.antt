-- ===== src/Pic/Bits.antt =====
-- Bits of a byte: what setting and clearing one does to each. A table of all bytes, checked by evaluation.
use Prim.Native.Nat.{bit_and, bit_or}
use dug_os.Common.{ℕ, ◌/◌, ◌%◌, ◌^◌, ◌<◌, ◌≡◌, refl, Bool, true, false, ◌==◌, if◌then◌else◌}
use dug_os.Common.Tables.{same, same_sound, passes, passes_at}
use dug_os.Pic.{line_bit, line_hole}

abbrev pub bit : ℕ → ℕ → Bool
bit v k = v / 2 ^ k % 2 == 1

abbrev table : (ℕ → ℕ → ℕ → Bool) → Bool
table p = passes (λ n. passes (λ k. passes (p n k) 256) 8) 8

table_at :
    (p : ℕ → ℕ → ℕ → Bool) (n k v : ℕ) → table p ≡ true → n < 8 → k < 8 → v < 256 → p n k v ≡ true
table_at p n k v all ln lk lv =
    let row = passes_at (λ n. passes (λ k. passes (p n k) 256) 8) 8 n all ln in
    passes_at (p n k) 256 v (passes_at (λ k. passes (p n k) 256) 8 k row lk) lv

abbrev or_case : ℕ → ℕ → ℕ → Bool
or_case n k v = same (bit (bit_or v (line_bit n) % 256) k) (if n == k then true else bit v k)

or_table : table or_case ≡ true
unfolding passes
or_table = refl

abbrev and_case : ℕ → ℕ → ℕ → Bool
and_case n k v = same (bit (bit_and v (line_hole n) % 256) k) (if n == k then false else bit v k)

and_table : table and_case ≡ true
unfolding passes
and_table = refl

pub bit-bit_or :
    (n k v : ℕ)
    → n < 8
    → k < 8
    → v < 256
    → bit (bit_or v (line_bit n) % 256) k ≡ (if n == k then true else bit v k)
bit-bit_or n k v ln lk lv = same_sound _ _ (table_at or_case n k v or_table ln lk lv)

pub bit-bit_and :
    (n k v : ℕ)
    → n < 8
    → k < 8
    → v < 256
    → bit (bit_and v (line_hole n) % 256) k ≡ (if n == k then false else bit v k)
bit-bit_and n k v ln lk lv = same_sound _ _ (table_at and_case n k v and_table ln lk lv)
