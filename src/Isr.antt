-- ===== src/Isr.antt =====
-- src/isr.c: the reports of CPU exceptions, and the dispatch of hardware interrupts to the handlers that
-- the drivers register.
pub mod Dispatch
mod Tests
use dug_os.Common.{
  ℕ, ◌%◌, ◌&&◌, String, List, [], ◌∷◌, Option, none, some, ltb, ◌==◌, if◌then◌else◌, get_or, set,
  replicate,
}
use dug_os.Console.{Out, set_color, light_red, write, write_dec, write_hex, writeln}
use dug_os.Port.{Bus}
use dug_os.Pic.{pic_eoi}

-- `struct regs` of src/isr.h.
pub record Regs : Type 0 where
  pub gs : ℕ
  pub fs : ℕ
  pub es : ℕ
  pub ds : ℕ
  pub edi : ℕ
  pub esi : ℕ
  pub ebp : ℕ
  pub esp : ℕ
  pub ebx : ℕ
  pub edx : ℕ
  pub ecx : ℕ
  pub eax : ℕ
  pub vector : ℕ
  pub err_code : ℕ
  pub eip : ℕ
  pub cs : ℕ
  pub eflags : ℕ
  pub useresp : ℕ
  pub ss : ℕ

-- `switch` over a number, with the text of each `case` and of `default`.
unfoldable pub switch : List (ℕ × String) → String → ℕ → String
switch [] other n = other
switch ((k, text) ∷ cases) other n = if n == k then text else switch cases other n

unfoldable pub exception_name : ℕ → String
unfolding switch
exception_name =
    switch
      ((0, "Divide by zero")
        ∷ (1, "Debug")
        ∷ (2, "Non-maskable interrupt")
        ∷ (3, "Breakpoint")
        ∷ (4, "Overflow")
        ∷ (5, "Bound range exceeded")
        ∷ (6, "Invalid opcode")
        ∷ (7, "Device not available")
        ∷ (8, "Double fault")
        ∷ (9, "Coprocessor segment overrun")
        ∷ (10, "Invalid TSS")
        ∷ (11, "Segment not present")
        ∷ (12, "Stack-segment fault")
        ∷ (13, "General protection fault")
        ∷ (14, "Page fault")
        ∷ (16, "x87 FPU exception")
        ∷ (17, "Alignment check")
        ∷ (18, "Machine check")
        ∷ (19, "SIMD FP exception")
        ∷ [])
      "Reserved/unknown"

-- What `isr_common_handler` writes before it halts for ever.
unfoldable pub isr_common_handler : Regs → List Out
unfolding exception_name
isr_common_handler r =
    set_color light_red
    ∷ writeln "" (
        write "  !! EXCEPTION "
        ∷ write_dec r.vector
        ∷ write " ("
        ∷ write (exception_name r.vector)
        ∷ write ")  err=0x"
        ∷ write_hex r.err_code
        ∷ writeln "" (
            write "  Faulting EIP=0x"
            ∷ write_hex r.eip
            ∷ writeln "" (writeln "  CPU halted. Restart QEMU to continue." [])))

-- `irq_handlers`, over the pointers `H` of the drivers' handlers. `none` is a null pointer.
abbrev pub Handlers : Type 0 → Type 0
Handlers H = List (Option H)

-- The table at boot.
abbrev pub bss_handlers : {H : Type 0} → Handlers H
bss_handlers = replicate 16 none

unfoldable pub irq_register : {H : Type 0} → ℕ → Option H → Handlers H → Handlers H
irq_register irq handler table = if ltb irq 16 then set table irq handler else table

-- `irq_handlers[irq]`, where there is one
unfoldable pub handler_of : {H : Type 0} → ℕ → Handlers H → Option H
handler_of irq table = if ltb irq 16 then get_or table irq none else none

-- The handlers run on the state `S` of the machine, which has the devices of the bus.
unfoldable pub irq_dispatch : {H S : Type 0} → Bus S → (H → S → S) → ℕ → Handlers H → S → S
unfolding handler_of
irq_dispatch bus call irq table s =
    pic_eoi bus (irq % 256) (elim (handler_of irq table) [ none ↦ s | some h ↦ call h s ])
