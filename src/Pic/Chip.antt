-- ===== src/Pic/Chip.antt =====
-- What the code of src/pic.c relies on from the two 8259A controllers, as the data sheet has it.
use dug_os.Common.{
  ℕ, ◌%◌, ◌<◌, ◌≡◌, refl, Bool, true, not, ◌||◌, List, [], ◌∷◌, ◌==◌, if◌then◌else◌, drop, arith,
}
use dug_os.Port.{Bus, outb, io_wait}
use dug_os.Pic.{pic1_cmd, pic1_data, pic2_cmd, pic2_data, icw1_init, eoi, send_all}

-- Which initialization word comes next, if any.
pub data Stage : Type 0 where
  wants_icw2 wants_icw3 wants_icw4 ready : Stage

pub record Chip : Type 0 where
  pub stage : Stage
  pub base : ℕ
  pub mask : ℕ
  pub in_service : List ℕ

pub data Which : Type 0 where
  master slave : Which

abbrev pub cmd_of : Which → ℕ
cmd_of master = pic1_cmd
cmd_of slave = pic2_cmd

abbrev pub data_of : Which → ℕ
data_of master = pic1_data
data_of slave = pic2_data

-- A word at the data port: an initialization word where one is due, or else the mask.
abbrev pub data_at : Stage → ℕ → Chip → Chip
data_at wants_icw2 v c = record c { stage = wants_icw3; base = v }
data_at wants_icw3 v c = record c { stage = wants_icw4 }
data_at wants_icw4 v c = record c { stage = ready }
data_at ready v c = record c { mask = v }

abbrev pub data_written : ℕ → Chip → Chip
data_written v c = data_at c.stage v c

-- A word at the command port: the start of an initialization, or the end of the interrupt that is served.
abbrev pub command_written : ℕ → Chip → Chip
command_written v c =
    if v == icw1_init
    then record { stage = wants_icw2; base = c.base; mask = 0; in_service = [] }
    else record c { in_service = drop 1 c.in_service }

abbrev pub written : Which → ℕ → ℕ → Chip → Chip
written w port v c =
    if port == cmd_of w
    then command_written v c
    else if port == data_of w
    then data_written v c
    else c

-- The words of which the laws speak.
abbrev pub known : Which → ℕ → ℕ → Bool
known w port v = not (port == cmd_of w) || v == icw1_init || v == eoi

-- Two controllers at their ports of a bus.
pub record Pair {S : Type 0} (bus : Bus S) : Type 0 where
  pub chip : Which → S → Chip
  pub writes :
      (w : Which) (port v : ℕ) (s : S)
      → v < 256
      → known w port v ≡ true
      → chip w (bus.out_byte port v s) ≡ written w port v (chip w s)
  pub reads :
      (w : Which) (s : S)
      → (chip w s).stage ≡ ready
      → (bus.in_byte (data_of w) s).0 ≡ (chip w s).mask
  pub keeps : (w : Which) (port : ℕ) (s : S) → chip w (bus.in_byte port s).1 ≡ chip w s
  pub mask_size : (w : Which) (s : S) → (chip w s).mask < 256

module _ {S : Type 0} (bus : Bus S) (pics : Pair bus) where
  pub chip-outb :
      (w : Which) (port v : ℕ) (s : S)
      → known w (port % 65536) (v % 256) ≡ true
      → pics.chip w (outb bus port v s) ≡ written w (port % 65536) (v % 256) (pics.chip w s)
  unfolding outb
  chip-outb w port v s h = pics.writes w (port % 65536) (v % 256) s (omega arith) h

  pub chip-io_wait : (w : Which) (s : S) → pics.chip w (io_wait bus s) ≡ pics.chip w s
  unfolding io_wait
  chip-io_wait master s = chip-outb master 0x80 0 s refl
  chip-io_wait slave s = chip-outb slave 0x80 0 s refl

  abbrev pub written_all : Which → List (ℕ × ℕ) → Chip → Chip
  written_all w [] c = c
  written_all w ((port, v) ∷ rest) c = written_all w rest (written w (port % 65536) (v % 256) c)

  abbrev pub AreKnown : Which → List (ℕ × ℕ) → Type 0
  AreKnown w [] = Unit
  AreKnown w ((port, v) ∷ rest) = (known w (port % 65536) (v % 256) ≡ true) × AreKnown w rest

  pub chip-send_all :
      (w : Which) (words : List (ℕ × ℕ)) (s : S)
      → AreKnown w words
      → pics.chip w (send_all bus words s) ≡ written_all w words (pics.chip w s)
  unfolding send_all
  chip-send_all w [] s h = refl
  chip-send_all w ((port, v) ∷ rest) s h =
      let first = chip-outb w port v s h.0 in
      let waited = chip-io_wait w (outb bus port v s) in
      let others = chip-send_all w rest (io_wait bus (outb bus port v s)) h.1 in
      rw (others, waited, first) refl
