-- ===== src/Gdt/Tests.antt =====
-- src/gdt.c at a table of null descriptors.
use dug_os.Common.{ℕ, ◌/◌, ◌%◌, ◌^◌, ◌≡◌, ◌≢◌, length, replicate, arith}
use dug_os.Gdt.{entry_at, gdt_set, zero_entry, gdt_entries}
use dug_os.Gdt.Layout.{segment_base, segment_limit, segment_flags, gdt_set_lem}

gdt_set_lem_example :
    let gdt' = gdt_set 3 0x123456 0xffffffff 0xfa 0xcf (replicate gdt_entries zero_entry) in
    let e = entry_at gdt' 3 in
    (segment_base e ≡ 0x123456)
    × (segment_limit e ≡ 0xffffffff % 2 ^ 20)
    × (segment_flags e ≡ 0xcf / 16)
    × (e.access ≡ 0xfa)
    × (length gdt' ≡ 5)
    × ((j : ℕ) → 3 ≢ j → entry_at gdt' j ≡ entry_at (replicate gdt_entries zero_entry) j)
gdt_set_lem_example =
    gdt_set_lem 3 0x123456 0xffffffff 0xfa 0xcf (replicate gdt_entries zero_entry) (omega arith)
      (omega arith) (omega arith)
