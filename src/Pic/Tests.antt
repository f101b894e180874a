-- ===== src/Pic/Tests.antt =====
-- The controllers of src/pic.c at concrete states.
use dug_os.Common.{◌≡◌, false, arith}
use dug_os.Pic.{pic_restore, pic_unmask}
use dug_os.Pic.Chip.{Which, slave}
use dug_os.Pic.Init.{vectors, fresh_chip, pic_restore_lem}
use dug_os.Pic.Mask.{line_masked, IsReady, pic_unmask_lem}
use dug_os.Pic.Board.{board, board_pics, bios_board, bios_board-IsReady}

pic_restore_lem_example :
    board_pics.chip slave (pic_restore board (bios_board 0xf8 0xff))
    ≡ fresh_chip (vectors 0x08 0x70 slave) 0xff
pic_restore_lem_example = pic_restore_lem board board_pics slave (bios_board 0xf8 0xff)

pic_unmask_lem_example :
    IsReady board board_pics (pic_unmask board 1 (bios_board 0xff 0xff))
    × ((v : Which)
        → (board_pics.chip v (pic_unmask board 1 (bios_board 0xff 0xff))).base
          ≡ (board_pics.chip v (bios_board 0xff 0xff)).base)
    × (line_masked board board_pics 1 (pic_unmask board 1 (bios_board 0xff 0xff)) ≡ false)
pic_unmask_lem_example =
    pic_unmask_lem board board_pics 1 1 (bios_board 0xff 0xff) (bios_board-IsReady 0xff 0xff)
      (omega arith) (omega arith)
