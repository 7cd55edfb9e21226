-- ===== src/Object/PointerTag.antt =====
-- qz_pointer_tag_t of quuz.h. The two fixnum tags are tested by the two low bits.
use quuz.Prelude.{ℕ}

abbrev pub cell : ℕ
cell = 2

abbrev pub cfun : ℕ
cfun = 3

abbrev pub sym : ℕ
sym = 1

abbrev pub bool : ℕ
bool = 9

abbrev pub char : ℕ
char = 17

abbrev pub eof : ℕ
eof = 25

abbrev pub none : ℕ
none = 33
