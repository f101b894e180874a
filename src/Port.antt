-- ===== src/Port.antt =====
-- src/port.h: the I/O ports. What a port does is the hardware's, so `Bus` is a parameter of all the code
-- that uses ports.
use dug_os.Common.{ℕ, ◌%◌}

-- The `out` and `in` instructions on the state `S` of the devices.
pub record Bus (S : Type 0) : Type 0 where
  pub out_byte : ℕ → ℕ → S → S
  pub in_byte : ℕ → S → ℕ × S

-- The parameters of the C functions are 16 and 8 bits wide.
unfoldable pub outb : {S : Type 0} → Bus S → ℕ → ℕ → S → S
outb bus port val s = bus.out_byte (port % 65536) (val % 256) s

unfoldable pub inb : {S : Type 0} → Bus S → ℕ → S → ℕ × S
inb bus port s = let (val, s') = bus.in_byte (port % 65536) s in (val % 256, s')

unfoldable pub io_wait : {S : Type 0} → Bus S → S → S
unfolding outb
io_wait bus s = outb bus 0x80 0 s
