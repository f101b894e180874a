-- ===== src/Gdt.antt =====
-- src/gdt.c: the table of segment descriptors. Its last call, of `gdt_flush` in isr_stubs.s, only hands the
-- address of `gdt_descriptor` to the processor.
pub mod Layout
mod Tests
use Prim.Native.Nat.{bit_and, bit_or}
use dug_os.Common.{ℕ, ◌-◌, ◌*◌, ◌/◌, ◌%◌, ◌^◌, List, [], ◌∷◌, set, replicate, get_or}

abbrev pub gdt_entries : ℕ
gdt_entries = 5

pub record GdtEntry : Type 0 where
  pub limit_low : ℕ
  pub base_low : ℕ
  pub base_mid : ℕ
  pub access : ℕ
  pub flags : ℕ
  pub base_high : ℕ

pub record GdtPtr : Type 0 where
  pub limit : ℕ
  pub base : ℕ

-- `gdt` and `gdt_descriptor`.
pub record Gdt : Type 0 where
  pub gdt : List GdtEntry
  pub gdt_descriptor : GdtPtr

abbrev pub zero_entry : GdtEntry
zero_entry = record {
  limit_low = 0;
  base_low = 0;
  base_mid = 0;
  access = 0;
  flags = 0;
  base_high = 0;
}

-- `gdt[idx]`
abbrev pub entry_at : List GdtEntry → ℕ → GdtEntry
entry_at gdt idx = get_or gdt idx zero_entry

-- The parameters are 32 and 8 bits wide. A mask of ones is a remainder, and a shift a division.
unfoldable pub gdt_set : ℕ → ℕ → ℕ → ℕ → ℕ → List GdtEntry → List GdtEntry
gdt_set idx base limit access flags gdt = set gdt idx (record {
  base_low = base % 65536;
  base_mid = base / 65536 % 256;
  base_high = base / 16777216 % 256;
  limit_low = limit % 65536;
  flags = bit_or (limit / 65536 % 16) (bit_and flags 0xf0);
  access = access;
})

-- The size of a descriptor.
abbrev pub entry_size : ℕ
entry_size = 8

-- `gdt_init`, with the address of `gdt`.
unfoldable pub gdt_init : ℕ → Gdt → Gdt
unfolding gdt_set
gdt_init address s =
    let none = gdt_set 0 0 0 0 0 s.gdt in
    let kernel_code = gdt_set 1 0 0xffffffff 0x9a 0xcf none in
    let kernel_data = gdt_set 2 0 0xffffffff 0x92 0xcf kernel_code in
    let user_code = gdt_set 3 0 0xffffffff 0xfa 0xcf kernel_data in
    let user_data = gdt_set 4 0 0xffffffff 0xf2 0xcf user_code in
    record {
      gdt = user_data;
      gdt_descriptor = record { limit = gdt_entries * entry_size - 1; base = address % 2 ^ 32 };
    }

unfoldable pub bss_gdt : Gdt
bss_gdt = record {
  gdt = replicate gdt_entries zero_entry;
  gdt_descriptor = record { limit = 0; base = 0 };
}
