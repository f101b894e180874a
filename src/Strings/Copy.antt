-- ===== src/Strings/Copy.antt =====
-- What the writing functions of string.c leave in memory: kstrcpy, kstrncpy, kstrcat, kmemcpy.
use mathlib.Core.List.{append-nil}
use dug_os.Strings.Cstr.{kstrlen-eq-length}
use dug_os.Common.{
  ℕ, zero, suc, ◌+◌, ◌<◌, ◌≤◌, ◌≡◌, refl, sym, ◌∙◌, ap, [], ◌∷◌, ◌++◌, length, take, drop, arith,
}
use dug_os.Strings.{Bytes, cstr, kstrlen, kstrcpy, kmemset, kmemcpy, kstrncpy, kstrcat}

pub length-kmemset : (dst : Bytes) (c n : ℕ) → length (kmemset dst c n) ≡ length dst
unfolding kmemset
length-kmemset dst c zero = refl
length-kmemset [] c (suc n) = refl
length-kmemset (d ∷ dst) c (suc n) = ap suc (length-kmemset dst c n)

pub length-kmemcpy : (dst src : Bytes) (n : ℕ) → length (kmemcpy dst src n) ≡ length dst
unfolding kmemcpy
length-kmemcpy dst src zero = refl
length-kmemcpy [] src (suc n) = refl
length-kmemcpy (d ∷ dst) [] (suc n) = ap suc (length-kmemcpy dst [] n)
length-kmemcpy (d ∷ dst) (c ∷ src) (suc n) = ap suc (length-kmemcpy dst src n)

pub length-kstrncpy : (dst src : Bytes) (n : ℕ) → length (kstrncpy dst src n) ≡ length dst
unfolding kstrncpy
length-kstrncpy dst src zero = refl
length-kstrncpy [] src (suc n) = refl
length-kstrncpy (d ∷ dst) [] (suc n) = ap suc (length-kmemset dst 0 n)
length-kstrncpy (d ∷ dst) (c ∷ src) (suc n) =
    ground (arith, length-kmemset dst 0 n, length-kstrncpy dst src n)

-- A string shorter than `n` is copied whole, whatever follows the buffer in memory.
pub cstr-kstrncpy :
    (dst src rest : Bytes) (n : ℕ)
    → kstrlen src < n
    → n ≤ length dst
    → cstr (kstrncpy dst src n ++ rest) ≡ cstr src
unfolding kstrncpy cstr kstrlen
cstr-kstrncpy dst src rest zero h k = absurd (omega arith)
cstr-kstrncpy [] src rest (suc n) h k = absurd (omega arith)
cstr-kstrncpy (d ∷ dst) [] rest (suc n) h k = refl
cstr-kstrncpy (d ∷ dst) (c ∷ src) rest (suc n) h k = ground (arith, cstr-kstrncpy dst src rest n)

-- A short text is copied with its NUL.
pub kstrncpy_ends :
    (dst src : Bytes) (n : ℕ)
    → kstrlen src < n
    → length dst ≡ n
    → (cstr (kstrncpy dst src n) ≡ cstr src) × (kstrlen (kstrncpy dst src n) < n)
kstrncpy_ends dst src n short size =
    let whole : cstr (kstrncpy dst src n) ≡ cstr src =
      ap cstr (sym (append-nil (kstrncpy dst src n)))
      ∙ cstr-kstrncpy dst src [] n short (omega (arith, size)) in
    (
      whole,
      omega (arith, kstrlen-eq-length (kstrncpy dst src n), kstrlen-eq-length src, ap length whole),
    )

-- One of `n` bytes or more leaves no NUL in them: the text runs on into what follows the buffer.
cstr-kstrncpy_long :
    (dst src rest : Bytes) (n : ℕ)
    → n ≤ kstrlen src
    → n ≡ length dst
    → cstr (kstrncpy dst src n ++ rest) ≡ take n (cstr src) ++ cstr rest
unfolding kstrncpy cstr kstrlen
cstr-kstrncpy_long [] src rest zero h k = refl
cstr-kstrncpy_long (d ∷ dst) src rest zero h k = absurd (omega arith)
cstr-kstrncpy_long [] src rest (suc n) h k = absurd (omega arith)
cstr-kstrncpy_long (d ∷ dst) [] rest (suc n) h k = absurd (omega arith)
cstr-kstrncpy_long (d ∷ dst) (c ∷ src) rest (suc n) h k =
    ground (arith, cstr-kstrncpy_long dst src rest n)

pub cstr-kstrcpy : (dst src : Bytes) → kstrlen src < length dst → cstr (kstrcpy dst src) ≡ cstr src
unfolding kstrcpy cstr kstrlen
cstr-kstrcpy [] src h = absurd (omega arith)
cstr-kstrcpy (d ∷ dst) [] h = refl
cstr-kstrcpy (d ∷ dst) (c ∷ src) h = ground (arith, cstr-kstrcpy dst src)

-- `kstrcat` appends, if the buffer has room for both strings and the NUL.
pub cstr-kstrcat :
    (dst src : Bytes)
    → kstrlen dst + kstrlen src < length dst
    → cstr (kstrcat dst src) ≡ cstr dst ++ cstr src
unfolding kstrcat cstr kstrlen
cstr-kstrcat [] src h = absurd (omega arith)
cstr-kstrcat (d ∷ dst) src h = ground (arith, cstr-kstrcat dst src, cstr-kstrcpy (d ∷ dst) src)

-- `kmemcpy` replaces the first `n` bytes by those of the source and keeps the others.
pub kmemcpy_lem :
    (dst src : Bytes) (n : ℕ)
    → n ≤ length dst
    → n ≤ length src
    → kmemcpy dst src n ≡ take n src ++ drop n dst
unfolding kmemcpy
kmemcpy_lem dst src zero h k = refl
kmemcpy_lem [] src (suc n) h k = absurd (omega arith)
kmemcpy_lem (d ∷ dst) [] (suc n) h k = absurd (omega arith)
kmemcpy_lem (d ∷ dst) (c ∷ src) (suc n) h k =
    ap (λ r. c ∷ r) (kmemcpy_lem dst src n (omega arith) (omega arith))
