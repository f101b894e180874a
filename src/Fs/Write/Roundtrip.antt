-- ===== src/Fs/Write/Roundtrip.antt =====
-- `write_to_blocks` and the reading of a chain.
use dug_os.Common.{ℕ, ◌*◌, ◌≤◌, ◌≡◌, ◌≢◌, length, take, arith}
use dug_os.Strings.{Bytes}
use dug_os.Fs.{Fs, block_size, n_blocks, fat_end, read_chain, write_to_blocks}
use dug_os.Fs.Write.{IsSized}
use dug_os.Fs.Write.Loop.{Leaves}
use dug_os.Fs.Write.Content.{write_to_blocks_lem}
use dug_os.Fs.Write.Room.{free_blocks, write_to_blocks_room}

-- If the free blocks can hold `len` bytes, `write_to_blocks` succeeds, reading the chain that it
-- returns gives the first `len` bytes of the source, and the blocks that were taken are as before,
-- with their links.
pub write_to_blocks-read_chain :
    (source : Bytes) (len : ℕ) (fs : Fs)
    → IsSized fs
    → len ≤ length source
    → len ≤ free_blocks fs.fat * block_size
    → let (r, fs') = write_to_blocks source len fs in
      (r ≢ n_blocks) × (read_chain fs' len r len ≡ take len source) × Leaves fs fs' fat_end
write_to_blocks-read_chain source len fs sized enough room =
    let w = write_to_blocks_lem source len fs sized enough in
    let success : (write_to_blocks source len fs).0 ≢ n_blocks =
      λ h. absurd (omega (arith, (write_to_blocks_room source len fs sized).0 h, room)) in
    (success, (w.1 success).bytes len (omega arith), w.0)
