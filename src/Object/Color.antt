-- ===== src/Object/Color.antt =====
-- qz_cell_color_t of quuz.h: QZ_CC_BLACK to QZ_CC_PURPLE.
use quuz.Prelude.{ℕ}

abbrev pub black : ℕ
black = 0

abbrev pub gray : ℕ
gray = 1

abbrev pub white : ℕ
white = 2

abbrev pub purple : ℕ
purple = 3
