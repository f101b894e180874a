-- ===== src/Isr/Tests.antt =====
-- src/isr.c with one handler on a line of the slave.
use dug_os.Common.{ℕ, ◌≡◌, refl, some, length, arith, set, [], ◌∷◌}
use dug_os.Pic.Chip.{slave}
use dug_os.Pic.Init.{fresh_chip}
use dug_os.Pic.Board.{Board, board, board_pics}
use dug_os.Isr.{Handlers, bss_handlers, irq_register, handler_of, irq_dispatch}
use dug_os.Isr.Dispatch.{after_eoi, handled, irq_dispatch_lem, handler_of-irq_register}

-- line 12 is in service
abbrev mouse_board : Board
mouse_board = (
  record (fresh_chip 0x20 0) { in_service = 2 ∷ [] },
  record (fresh_chip 0x28 0) { in_service = 4 ∷ [] },
)

abbrev call : ℕ → Board → Board
call h s = (record s.0 { mask = h }, s.1)

abbrev table : Handlers ℕ
table = set bss_handlers 12 (some 5)

irq_dispatch_lem_example :
    board_pics.chip slave (irq_dispatch board call 12 table mouse_board)
    ≡ after_eoi 12 slave (board_pics.chip slave (handled call 12 table mouse_board))
irq_dispatch_lem_example =
    irq_dispatch_lem board board_pics call 12 table mouse_board slave (omega arith)

handler_of-irq_register_example :
    (length (irq_register 3 (some 7) table) ≡ 16)
    × (handler_of 12 (irq_register 3 (some 7) table) ≡ handler_of 12 table)
handler_of-irq_register_example = handler_of-irq_register 3 12 (some 7) table refl (omega arith)
