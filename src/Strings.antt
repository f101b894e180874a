-- ===== src/Strings.antt =====
-- src/string.c and src/string.h: the kernel's string and memory functions.
-- A pointer is the list of the bytes from it to the end of the object that it points into. A byte
-- past that end reads as 0, and a write past it changes nothing; the callers keep within it.
pub mod Cstr
pub mod Copy
mod Tests
use dug_os.Common.{
  ℕ, zero, suc, ◌+◌, ◌-◌, ◌%◌, ◌<◌, ◌≡◌, Bool, true, false, not, ◌&&◌, List, [], ◌∷◌, ◌++◌, Option,
  none, some, ltb, leb, ◌==◌, if◌then◌else◌,
}
use dug_os.Common.Int.{ℤ, pos, sub_ℕ}
use Prim.Native.Char.{code}
use Prim.Native.String.{String}

abbrev pub Bytes : Type 0
Bytes = List ℕ

-- The bytes of a text of the source, which is ASCII.
abbrev pub codes : String → Bytes
codes String.[] = []
codes (String.◌∷◌ c s) = code c ∷ codes s

-- The text that a string pointer stands for: the bytes before the first NUL.
unfoldable pub cstr : Bytes → Bytes
cstr [] = []
cstr (c ∷ s) = if c == 0 then [] else c ∷ cstr s

-- `*p`
abbrev pub head_byte : Bytes → ℕ
head_byte [] = 0
head_byte (c ∷ s) = c

unfoldable pub kstrlen : Bytes → ℕ
kstrlen [] = 0
kstrlen (c ∷ s) = if c == 0 then 0 else suc (kstrlen s)

unfoldable pub kstrcmp : Bytes → Bytes → ℤ
kstrcmp [] b = sub_ℕ 0 (head_byte b)
kstrcmp (x ∷ a) [] = sub_ℕ x 0
kstrcmp (x ∷ a) (y ∷ b) = if not (x == 0) && (x == y) then kstrcmp a b else sub_ℕ x y

unfoldable pub kstrncmp : Bytes → Bytes → ℕ → ℤ
kstrncmp a b zero = pos 0
kstrncmp [] b (suc n) = sub_ℕ 0 (head_byte b)
kstrncmp (x ∷ a) [] (suc n) = sub_ℕ x 0
kstrncmp (x ∷ a) (y ∷ b) (suc n) = if not (x == 0) && (x == y) then kstrncmp a b n else sub_ℕ x y

unfoldable pub kstrcpy : Bytes → Bytes → Bytes
kstrcpy [] src = []
kstrcpy (d ∷ dst) [] = 0 ∷ dst
kstrcpy (d ∷ dst) (c ∷ src) = if c == 0 then 0 ∷ dst else c ∷ kstrcpy dst src

-- `while (n--) *p++ = (unsigned char)c;`
unfoldable pub kmemset : Bytes → ℕ → ℕ → Bytes
kmemset dst c zero = dst
kmemset [] c (suc n) = []
kmemset (d ∷ dst) c (suc n) = (c % 256) ∷ kmemset dst c n

unfoldable pub kmemcpy : Bytes → Bytes → ℕ → Bytes
kmemcpy dst src zero = dst
kmemcpy [] src (suc n) = []
kmemcpy (d ∷ dst) [] (suc n) = 0 ∷ kmemcpy dst [] n
kmemcpy (d ∷ dst) (c ∷ src) (suc n) = c ∷ kmemcpy dst src n

-- The first loop copies up to the NUL, the second is the padding.
unfoldable pub kstrncpy : Bytes → Bytes → ℕ → Bytes
unfolding kmemset
kstrncpy dst src zero = dst
kstrncpy [] src (suc n) = []
kstrncpy (d ∷ dst) [] (suc n) = 0 ∷ kmemset dst 0 n
kstrncpy (d ∷ dst) (c ∷ src) (suc n) =
    if c == 0 then 0 ∷ kmemset dst 0 n else c ∷ kstrncpy dst src n

unfoldable pub kstrcat : Bytes → Bytes → Bytes
unfolding kstrcpy
kstrcat [] src = []
kstrcat (d ∷ dst) src = if d == 0 then kstrcpy (d ∷ dst) src else d ∷ kstrcat dst src

-- The offset of the byte found; `none` is the null pointer.
unfoldable pub kstrchr : Bytes → ℕ → Option ℕ
kstrchr [] c = if c == 0 then some 0 else none
kstrchr (x ∷ s) c =
    let rest = kstrchr s c in
    if x == 0
    then (if c == 0 then some 0 else none)
    else if x == c % 256
    then some 0
    else elim rest [ none ↦ none | some i ↦ some (suc i) ]

pub kto_lower : ℕ → ℕ
kto_lower c = if leb b'A' c && leb c b'Z' then c + (b'a' - b'A') else c

pub kis_print : ℕ → Bool
kis_print c = leb 0x20 c && leb c 0x7E
