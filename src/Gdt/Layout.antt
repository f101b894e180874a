-- ===== src/Gdt/Layout.antt =====
-- The descriptors of src/gdt.c as the processor takes them apart.
use Prim.Native.Nat.{bit_and, bit_or}
use dug_os.Common.{
  [], ◌∷◌, set, ℕ, ◌+◌, ◌*◌, ◌/◌, ◌%◌, ◌^◌, ◌<◌, ◌≡◌, ◌≢◌, refl, Bool, true, List, length,
  get_or-set_self, get_or-set_ne, length-set, arith, ◌==◌, ==_iff,
}
use dug_os.Common.Tables.{passes, passes_at}
use dug_os.Gdt.{Gdt, GdtEntry, entry_at, gdt_set, gdt_init, zero_entry, gdt_entries}

abbrev pub segment_base : GdtEntry → ℕ
segment_base e = e.base_low + e.base_mid * 65536 + e.base_high * 16777216

-- The limit field: the flags byte has its upper four bits.
abbrev pub segment_limit : GdtEntry → ℕ
segment_limit e = e.limit_low + e.flags % 16 * 65536

abbrev pub segment_flags : GdtEntry → ℕ
segment_flags e = e.flags / 16

abbrev nibbles_case : ℕ → ℕ → Bool
nibbles_case a f = bit_or a (bit_and f 0xf0) == a + f / 16 * 16

nibbles_table : passes (λ a. passes (nibbles_case a) 256) 16 ≡ true
unfolding passes
nibbles_table = refl

nibbles : (a f : ℕ) → a < 16 → f < 256 → bit_or a (bit_and f 0xf0) ≡ a + f / 16 * 16
nibbles a f la lf =
    let row = passes_at (λ a. passes (nibbles_case a) 256) 16 a nibbles_table la in
    (==_iff _ _).0 (passes_at (nibbles_case a) 256 f row lf)

-- `gdt_set` writes one descriptor and leaves the others. The processor reads from it the base, the access
-- byte and the upper four flags that were given, and of the limit its lowest 20 bits.
pub gdt_set_lem :
    (idx base limit access flags : ℕ) (gdt : List GdtEntry)
    → idx < length gdt
    → base < 2 ^ 32
    → flags < 256
    → let gdt' = gdt_set idx base limit access flags gdt in
      let e = entry_at gdt' idx in
      (segment_base e ≡ base)
      × (segment_limit e ≡ limit % 2 ^ 20)
      × (segment_flags e ≡ flags / 16)
      × (e.access ≡ access)
      × (length gdt' ≡ length gdt)
      × ((j : ℕ) → idx ≢ j → entry_at gdt' j ≡ entry_at gdt j)
unfolding gdt_set
gdt_set_lem idx base limit access flags gdt h lb lf =
    let high = nibbles (limit / 65536 % 16) flags (omega arith) lf in
    rw (get_or-set_self gdt idx _ zero_entry h) (
      omega arith,
      omega (arith, high),
      omega (arith, high),
      refl,
      length-set gdt idx _,
      λ j ne. get_or-set_ne gdt idx j _ zero_entry ne,
    )

five_set :
    (a b c d e : GdtEntry) (gdt : List GdtEntry)
    → length gdt ≡ gdt_entries
    → set (set (set (set (set gdt 0 a) 1 b) 2 c) 3 d) 4 e ≡ a ∷ b ∷ c ∷ d ∷ e ∷ []
five_set a b c d e [] h = absurd (omega (arith, h))
five_set a b c d e (_ ∷ []) h = absurd (omega (arith, h))
five_set a b c d e (_ ∷ _ ∷ []) h = absurd (omega (arith, h))
five_set a b c d e (_ ∷ _ ∷ _ ∷ []) h = absurd (omega (arith, h))
five_set a b c d e (_ ∷ _ ∷ _ ∷ _ ∷ []) h = absurd (omega (arith, h))
five_set a b c d e (_ ∷ _ ∷ _ ∷ _ ∷ _ ∷ []) h = refl
five_set a b c d e (_ ∷ _ ∷ _ ∷ _ ∷ _ ∷ _ ∷ rest) h = absurd (omega (arith, h))

-- A present code or data segment of a ring that is the whole address space: from 0, with a limit of pages
-- that ends at 4 GiB, for 32-bit code.
abbrev IsFlat : ℕ → ℕ → GdtEntry → Type 0
IsFlat ring code e =
    (segment_base e ≡ 0)
    × ((segment_limit e + 1) * 4096 ≡ 2 ^ 32)
    × (segment_flags e ≡ 0xc)
    × (e.access / 128 ≡ 1)
    × (e.access / 32 % 4 ≡ ring)
    × (e.access / 8 % 2 ≡ code)

-- Whatever the table held, behind `gdt_init` its first descriptor is null, the selectors 8 and 16 are flat
-- code and data of ring 0, those of the last two descriptors flat code and data of ring 3, and `lgdt` gets
-- the size of exactly these five.
gdt_init_lem :
    (address : ℕ) (s : Gdt)
    → length s.gdt ≡ gdt_entries
    → let s' = gdt_init address s in
      (entry_at s'.gdt 0 ≡ zero_entry)
      × IsFlat 0 1 (entry_at s'.gdt (0x08 / 8))
      × IsFlat 0 0 (entry_at s'.gdt (0x10 / 8))
      × IsFlat 3 1 (entry_at s'.gdt 3)
      × IsFlat 3 0 (entry_at s'.gdt 4)
      × (s'.gdt_descriptor.limit + 1 ≡ length s'.gdt * 8)
unfolding gdt_init gdt_set
gdt_init_lem address s h = rw (five_set _ _ _ _ _ s.gdt h) (
  refl,
  (refl, refl, refl, refl, refl, refl),
  (refl, refl, refl, refl, refl, refl),
  (refl, refl, refl, refl, refl, refl),
  (refl, refl, refl, refl, refl, refl),
  refl,
)
