-- ===== src/Vga/Numbers.antt =====
-- The numbers that src/vga.c writes.
use dug_os.Common.{
  ℕ, zero, suc, ◌+◌, ◌-◌, ◌*◌, ◌/◌, ◌%◌, ◌^◌, ◌<◌, ◌≤◌, ◌≡◌, refl, ap, ◌∙◌, Bool, true, false, not,
  ◌||◌, List, [], ◌∷◌, ltb, ◌==◌, if◌then◌else◌, if_cases, length, arith, ◌⊎◌, inl, inr,
}
use dug_os.Strings.{Bytes}
use dug_os.Vga.{dec_digits, hex_digit, hex_loop, hex_divisors}

-- The number of some decimal digits, the last one first.
abbrev pub dec_value : Bytes → ℕ
dec_value [] = 0
dec_value (c ∷ cs) = c - b'0' + 10 * dec_value cs

-- `10 ^ f`
abbrev power : ℕ → ℕ
power zero = 1
power (suc f) = 10 * power f

dec_digits-power :
    (f n : ℕ) → n < power f → (dec_value (dec_digits f n) ≡ n) × (length (dec_digits f n) ≤ f)
unfolding dec_digits
dec_digits-power zero n h = (omega arith, omega arith)
dec_digits-power (suc f) n h =
    let rest = dec_digits-power f (n / 10) (omega arith) in
    if_cases (λ (ds : Bytes). (dec_value ds ≡ n) × (length ds ≤ suc f)) (ltb 0 n) _ _
      (λ more. (omega (arith, rest.0), omega (arith, rest.1))) (λ done. (ground arith, omega arith))

-- For a 32-bit number ten rounds of the loop of `vga_write_dec` extract all of its digits: at most ten, so
-- that they fit `buf`, and of this value.
pub dec_digits-dec_value :
    (n : ℕ) → n < 2 ^ 32 → (dec_value (dec_digits 10 n) ≡ n) × (length (dec_digits 10 n) ≤ 10)
dec_digits-dec_value n h = dec_digits-power 10 n (omega arith)

-- The value of a hexadecimal digit.
abbrev pub hex_value : ℕ → ℕ
hex_value c = if ltb c b'A' then c - b'0' else c - b'A' + 10

-- The number of some hexadecimal digits, the first one first, behind the digits of `acc`.
abbrev pub hex_number : ℕ → Bytes → ℕ
hex_number acc [] = acc
hex_number acc (c ∷ cs) = hex_number (acc * 16 + hex_value c) cs

hex_value-hex_digit : (d : ℕ) → d < 16 → hex_value (hex_digit d) ≡ d
hex_value-hex_digit d h = ground arith

hex_digit-zero : (d : ℕ) → d < 16 → (hex_digit d == b'0') ≡ true → d ≡ 0
hex_digit-zero d h e = ground arith

-- Each divisor is a sixteenth of the one before, and the last is 1.
abbrev AreDivisors : ℕ → List ℕ → Type 0
AreDivisors q [] = q ≡ 1
AreDivisors q (p ∷ ps) = ((n : ℕ) → n / q * 16 + n / p % 16 ≡ n / p) × AreDivisors p ps

hex_loop-hex_number :
    (ps : List ℕ) (q n : ℕ) (started : Bool)
    → AreDivisors q ps
    → started ≡ true ⊎ (n / q ≡ 0)
    → hex_number (n / q) (hex_loop ps started n) ≡ n
unfolding hex_loop
hex_loop-hex_number [] q n started d s = rw d (omega arith)
hex_loop-hex_number (p ∷ ps) q n started d s =
    let c = hex_digit (n / p % 16) in
    let P : Bytes → Type 0 = λ (cs : Bytes). hex_number (n / q) cs ≡ n in
    let step = d.0 n in
    if_cases P (not (c == b'0') || started || p == 1) _ _
      (λ shown.
        let digit : n / q * 16 + hex_value c ≡ n / p =
          ap (λ x. n / q * 16 + x) (hex_value-hex_digit (n / p % 16) (omega arith)) ∙ step in
        rw digit (hex_loop-hex_number ps p n true d.1 (inl refl)))
      (λ skipped.
        let none_yet : n / q ≡ 0 = elim s [ inl e ↦ absurd (ground (arith, e)) | inr z ↦ z ] in
        let nothing : n / p % 16 ≡ 0 = hex_digit-zero (n / p % 16) (omega arith) (ground arith) in
        let same : n / q ≡ n / p = omega (arith, step) in
        rw same (hex_loop-hex_number ps p n started d.1 (inr (omega (arith, step)))))

-- The digits that `vga_write_hex` writes have the value of the number, for any 32-bit number.
pub hex_loop_lem : (n : ℕ) → n < 2 ^ 32 → hex_number 0 (hex_loop hex_divisors false n) ≡ n
hex_loop_lem n h =
    let none_before : n / 2 ^ 32 ≡ 0 = omega arith in
    rw (← none_before) (
      hex_loop-hex_number hex_divisors (2 ^ 32) n false
        (
          (λ m. omega arith),
          (
            (λ m. omega arith),
            (
              (λ m. omega arith),
              (
                (λ m. omega arith),
                (
                  (λ m. omega arith),
                  ((λ m. omega arith), ((λ m. omega arith), ((λ m. omega arith), refl))),
                ),
              ),
            ),
          ),
        )
        (inr none_before))
