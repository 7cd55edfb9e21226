-- ===== src/Object/Tag.antt =====
-- Tagged words: quuz.h (qz_obj_t and its tags) and the qz_is_*, qz_to_* and qz_from_* functions of
-- quuz-object.c. An object is its 64-bit `size_t value`, a number below 2 ^ 64. A signed value, an
-- `intptr_t` or an `int`, is given by its 64-bit two's complement pattern. The `assert` of a qz_to_*
-- function stands in the code that calls it, where it decides what happens next.
pub mod Laws
use quuz.Object.PointerTag
use quuz.Prelude.{ℕ, ◌+◌, ◌-◌, ◌*◌, ◌/◌, ◌%◌, ◌^◌, Bool, ltb, ◌==◌, if◌then◌else◌}

-- `struct { size_t value; }`
abbrev pub Obj : Type 0
Obj = ℕ

abbrev pub qz_null : Obj
qz_null = PointerTag.cell

abbrev pub qz_true : Obj
qz_true = 64 + PointerTag.bool

abbrev pub qz_false : Obj
qz_false = PointerTag.bool

abbrev pub qz_eof : Obj
qz_eof = PointerTag.eof

abbrev pub qz_none : Obj
qz_none = PointerTag.none

unfoldable pub is_null : Obj → Bool
is_null obj = obj == qz_null

unfoldable pub is_fixnum : Obj → Bool
is_fixnum obj = obj % 4 == 0

unfoldable pub is_cell : Obj → Bool
is_cell obj = obj % 8 == PointerTag.cell

unfoldable pub is_cfun : Obj → Bool
is_cfun obj = obj % 8 == PointerTag.cfun

unfoldable pub is_sym : Obj → Bool
is_sym obj = obj % 64 == PointerTag.sym

unfoldable pub is_bool : Obj → Bool
is_bool obj = obj % 64 == PointerTag.bool

unfoldable pub is_char : Obj → Bool
is_char obj = obj % 64 == PointerTag.char

unfoldable pub is_eof : Obj → Bool
is_eof obj = obj == qz_eof

unfoldable pub is_none : Obj → Bool
is_none obj = obj == qz_none

-- `(intptr_t)obj.value >> 2`: the sign bit is copied into the two top bits.
unfoldable pub to_fixnum : Obj → ℕ
to_fixnum obj = if ltb obj (2 ^ 63) then obj / 4 else obj / 4 + 3 * 2 ^ 62

-- `obj.value & ~(size_t)7`
unfoldable pub to_cell : Obj → ℕ
to_cell obj = obj - obj % 8

unfoldable pub to_cfun : Obj → ℕ
to_cfun obj = obj - obj % 8

unfoldable pub to_sym : Obj → ℕ
to_sym obj = obj / 64

-- The result is an `int`: the low 32 bits.
unfoldable pub to_bool : Obj → ℕ
to_bool obj = obj / 64 % 2 ^ 32

-- The result is a `char`: the low 8 bits.
unfoldable pub to_char : Obj → ℕ
to_char obj = obj / 64 % 2 ^ 8

-- `i << 2`
unfoldable pub from_fixnum : ℕ → Obj
from_fixnum i = i * 4 % 2 ^ 64

-- `(size_t)cell | QZ_PT_CELL`, for a pointer whose three low bits are clear, as the `assert` above
-- it says.
unfoldable pub from_cell : ℕ → Obj
from_cell cell = cell + PointerTag.cell

unfoldable pub from_cfun : ℕ → Obj
from_cfun cfun = cfun + PointerTag.cfun

-- An `int` of 32 bits, moved by 6 and then widened with its sign.
unfoldable pub from_bool : ℕ → Obj
from_bool b =
    if ltb (b * 64 % 2 ^ 32) (2 ^ 31)
    then b * 64 % 2 ^ 32 + PointerTag.bool
    else b * 64 % 2 ^ 32 + (2 ^ 64 - 2 ^ 32) + PointerTag.bool

-- A `char` of 8 bits is signed: it is widened with its sign, and moved by 6.
unfoldable pub from_char : ℕ → Obj
from_char c =
    if ltb (c % 256) 128
    then c % 256 * 64 + PointerTag.char
    else (2 ^ 64 - 256 + c % 256) * 64 % 2 ^ 64 + PointerTag.char
