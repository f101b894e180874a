-- ===== src/Lib.antt =====
-- DugOS is a small kernel for 32-bit PCs, with a shell on a text console and a file system in memory.
-- This library models its C code (src/*.c of the repository, and the prototype dug_os.c) and proves what makes it correct.
--
-- Parts and files:
--   * Strings models src/string.c and the inline functions of src/string.h under their own names. The
--     memory at a `char *` is a list of bytes, and reading behind its end gives 0. Strings.Cstr says
--     what the reading functions see of a text, Strings.Copy what the writing functions leave.
--   * Console models what the code above the drivers sees of them: the characters that `kbd_getchar`
--     returns are an argument, and the calls of src/vga.c are a result, in their order. It holds the
--     `readline` that src/fs.c and src/dir.c both define.
--   * Fs models src/fs.c: the three static arrays (`fat`, `blocks`, `files`), the static helpers, and
--     under Fs.Input and Fs.Command the commands. Fs.Alloc, Fs.Find, Fs.Free, Fs.Chain and Fs.Write
--     have the lemmas on the helpers; Fs.Invariant states that every file owns its chain of blocks,
--     Fs.Effect that each command works on one slot, Fs.Session that every session keeps the
--     invariant; Fs.Lookup and Fs.Spec see the file system as a map from names to contents.
--   * Dir models src/dir.c: the table of paths (`dirs`, `dir_count`, `cwd_idx`), the helpers on paths, and
--     under Dir.Command the commands. Dir.Find, Dir.Valid and Dir.Remove have the lemmas, Dir.Spec sees
--     the table as a set of paths; Dir.Paths, Dir.Parent and Dir.Build are about the helpers on paths.
--     `dir_rmdir` and `dir_ls` call Fs for the files of a directory.
--   * Vga models src/vga.c: the 80 by 25 cells, the cursor, the color, and the writing of numbers.
--     Vga.Screen has the loops over the cells, Vga.Cursor what a character does, Vga.Numbers the digits,
--     Vga.Frame a memory that goes on behind the screen; Vga.Output runs the calls that the other parts make.
--   * Keyboard models src/keyboard.c: the scan code tables, the interrupt handler, and the ring buffer.
--     Keyboard.Queue sees the ring as a queue of at most 255 characters.
--   * Port, Pic, Isr, Gdt and Idt model src/port.h, src/pic.c, src/isr.c, src/gdt.c and src/idt.c. A `Bus` is
--     the `in` and `out` instructions on the state of the devices; all code that uses ports takes one.
--     Pic.Chip is the contract of the two 8259A chips, a record of laws on what a bus does to them, and
--     Pic.Board an instance of it. Isr.Dispatch joins the handlers with the end of the interrupt.
--   * Keyboard.Driver models `kbd_init` and the handler on the machine: port, dispatch and chips together.
--   * Shell models src/shell.c: `readline` (`shell_readline` here, since its loop has a test that the others
--     lack) and `parse_cmd` in Shell.Line and Shell.Tokens; in Shell.Run the commands, the dispatch and a
--     round of the loop. Shell.Keeps composes the invariants of Fs and Dir, Shell.Round goes from the keys
--     to the command, Shell.Session from the start to the shutdown.
--   * Boot models src/main.c: kmain up to its call of `shell_run`.
--   * Hosted models dug_os.c, the prototype on a host. Its functions keep their names where they are free, and
--     have `host_` in front where the kernel has the same. Hosted.Boot has the tables, Hosted.Files the
--     commands on streams, Hosted.Command the others, the dispatch, the loop (`host_run`) and main.
--     Hosted.Parse compares its command line with the kernel's; Hosted.Slots, Hosted.Typed, Hosted.Copies
--     and Hosted.Session have the other theorems.
--
-- Correspondence of state: a record stands for the static variables of a file, with an array as a
-- list of its size. A function that changes them takes the record and returns the new one. A command
-- that waits for keys takes the keys that will be typed, and returns `none` where it would wait for
-- more of them.
--
-- Bounds and fuel: block indices, sizes and the FAT fit their C types because every value that the code
-- stores is an index below the table's size, the end mark 0xffff, or a size of at most 256 KiB, so
-- that no arithmetic wraps. `free_chain` and `write_to_blocks` have fuel for one round more than
-- there are blocks, the reading loops as many rounds as bytes, and the loop that collects lines one
-- round more than there are keys. A block is 32768 bytes as in the source; the number is shut in the
-- proofs.
--
-- A path of 64 bytes or more fills its buffer without a NUL, and Dir goes on with it as src/dir.c does: the
-- comparisons end at the NUL of a row, so that such a path is not found, and `dir_mkdir` stores it, as a row
-- without a NUL. What the code reads behind the buffer, in `kstrlen`, for a message or from the row, is 0 here
-- by the convention of Strings, where C leaves it open.
--
-- Devices: a `Bus` and the contracts on it (Pic.Chip.Pair for the 8259A chips, Keyboard.Driver.Ps2 for the
-- keyboard's port) are parameters, since hardware is not code of the repository. The addresses of the
-- stubs in isr_stubs.s and of the tables are parameters too. The processor's registers are not modelled:
-- `cli`, `hlt`, `lgdt` and `lidt` leave no state but the flag that ends a session. Shell takes the keys as an
-- argument: the interrupts that bring them while a command waits, and what these do to the devices, are in
-- Keyboard.Driver alone, and the devices in the state of Shell are those that the shell's own code has changed.
--
-- The prototype uses the C library, of which Hosted has the strings and streams that it needs: standard input
-- is a list of bytes, and `Host`, a parameter, has the directories, the clock, which names may be changed, and
-- which file a name stands for, so that two names may be one file. Its loop has fuel, and `none` when this runs
-- out before the loop ends; Hosted.Session shows how much is enough.
--
-- Not modelled here: the assembly files boot.s and isr_stubs.s, what `system` shows on the terminal, and
-- reference/minix, which is another project's code that the build does not use.
pub mod Common
pub mod Strings
pub mod Console
pub mod Port
pub mod Pic
pub mod Isr
pub mod Gdt
pub mod Idt
pub mod Vga
pub mod Keyboard
pub mod Fs
pub mod Dir
pub mod Shell
pub mod Boot
pub mod Hosted
