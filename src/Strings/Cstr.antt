-- ===== src/Strings/Cstr.antt =====
-- What the reading functions of string.c say of the texts: kstrlen, kstrcmp, kstrncmp, kstrchr.
use dug_os.Common.{ℕ, zero, suc, ◌<◌, ◌≡◌, refl, ◌↔◌, true, [], ◌∷◌, ◌++◌, length, take, arith}
use dug_os.Common.Int.{is_zero}
use dug_os.Strings.{Bytes, cstr, kstrlen, kstrcmp, kstrncmp}

pub kstrlen-eq-length : (s : Bytes) → kstrlen s ≡ length (cstr s)
unfolding kstrlen cstr
kstrlen-eq-length [] = refl
kstrlen-eq-length (c ∷ s) = ground (arith, kstrlen-eq-length s)

-- `kstrcmp` returns 0 exactly when the two strings are equal.
pub kstrcmp_iff : (a b : Bytes) → (is_zero (kstrcmp a b) ≡ true) ↔ (cstr a ≡ cstr b)
unfolding kstrcmp cstr
kstrcmp_iff [] [] = ground arith
kstrcmp_iff [] (y ∷ b) = ground arith
kstrcmp_iff (x ∷ a) [] = ground arith
kstrcmp_iff (x ∷ a) (y ∷ b) = ground (arith, kstrcmp_iff a b)

-- `kstrncmp` returns 0 exactly when the strings agree on their first `n` bytes.
pub kstrncmp_iff :
    (a b : Bytes) (n : ℕ) → (is_zero (kstrncmp a b n) ≡ true) ↔ (take n (cstr a) ≡ take n (cstr b))
unfolding kstrncmp cstr
kstrncmp_iff a b zero = ground arith
kstrncmp_iff [] [] (suc n) = ground arith
kstrncmp_iff [] (y ∷ b) (suc n) = ground arith
kstrncmp_iff (x ∷ a) [] (suc n) = ground arith
kstrncmp_iff (x ∷ a) (y ∷ b) (suc n) = ground (arith, kstrncmp_iff a b n)

pub cstr-append_nul : (s r : Bytes) → cstr (cstr s ++ 0 ∷ r) ≡ cstr s
unfolding cstr
cstr-append_nul [] r = refl
cstr-append_nul (c ∷ s) r = ground (arith, cstr-append_nul s r)

-- What follows the NUL of a string is not part of it.
pub cstr-append : (s r : Bytes) → kstrlen s < length s → cstr (s ++ r) ≡ cstr s
unfolding cstr kstrlen
cstr-append [] r h = absurd (omega arith)
cstr-append (c ∷ s) r h = ground (arith, cstr-append s r)
