-- ===== src/Object/CellType.antt =====
-- qz_cell_type_t of quuz.h: QZ_CT_PAIR to QZ_CT_REAL.
use quuz.Prelude.{ℕ}

abbrev pub pair : ℕ
pair = 0

abbrev pub fun : ℕ
fun = 1

abbrev pub promise : ℕ
promise = 2

abbrev pub error : ℕ
error = 3

abbrev pub string : ℕ
string = 4

abbrev pub vector : ℕ
vector = 5

abbrev pub bytevector : ℕ
bytevector = 6

abbrev pub hash : ℕ
hash = 7

abbrev pub record_type : ℕ
record_type = 8

abbrev pub port : ℕ
port = 9

abbrev pub real : ℕ
real = 10
