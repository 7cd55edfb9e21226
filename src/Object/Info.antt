-- ===== src/Object/Info.antt =====
-- The `info` word of a cell: get_bits, set_bits and the five field accessors of quuz-object.c.
pub mod Laws
use quuz.Prelude.{ℕ, ◌+◌, ◌-◌, ◌*◌, ◌/◌, ◌%◌, ◌^◌, bit_and, bit_or}

-- `sizeof(size_t)*CHAR_BIT`
abbrev pub word_bits : ℕ
word_bits = 64

abbrev pub type_bits : ℕ
type_bits = 4

abbrev pub color_bits : ℕ
color_bits = 2

abbrev pub buffered_bits : ℕ
buffered_bits = 1

abbrev pub dirty_bits : ℕ
dirty_bits = 1

abbrev pub refcount_bits : ℕ
refcount_bits = word_bits - type_bits - color_bits - buffered_bits - dirty_bits

-- `~(size_t)0 >> (sizeof(size_t)*CHAR_BIT - len)`
abbrev pub low_mask : ℕ → ℕ
low_mask len = (2 ^ word_bits - 1) / 2 ^ (word_bits - len)

unfoldable pub get_bits : ℕ → ℕ → ℕ → ℕ
get_bits bitfield pos len = bit_and (bitfield / 2 ^ pos) (low_mask len)

-- `~x` is `2 ^ 64 - 1 - x`, and both shifts drop what leaves the word.
unfoldable pub set_bits : ℕ → ℕ → ℕ → ℕ → ℕ
set_bits bitfield pos len value =
    bit_or (bit_and bitfield (2 ^ word_bits - 1 - low_mask len * 2 ^ pos % 2 ^ word_bits))
      (value * 2 ^ pos % 2 ^ word_bits)

unfoldable pub refcount : ℕ → ℕ
refcount info = get_bits info 0 refcount_bits

unfoldable pub cell_type : ℕ → ℕ
cell_type info = get_bits info refcount_bits type_bits

unfoldable pub color : ℕ → ℕ
color info = get_bits info (refcount_bits + type_bits) color_bits

unfoldable pub buffered : ℕ → ℕ
buffered info = get_bits info (refcount_bits + type_bits + color_bits) buffered_bits

unfoldable pub dirty : ℕ → ℕ
dirty info = get_bits info (refcount_bits + type_bits + color_bits + buffered_bits) dirty_bits

unfoldable pub set_refcount : ℕ → ℕ → ℕ
set_refcount info rc = set_bits info 0 refcount_bits rc

unfoldable pub set_type : ℕ → ℕ → ℕ
set_type info ct = set_bits info refcount_bits type_bits ct

unfoldable pub set_color : ℕ → ℕ → ℕ
set_color info cc = set_bits info (refcount_bits + type_bits) color_bits cc

unfoldable pub set_buffered : ℕ → ℕ → ℕ
set_buffered info bu = set_bits info (refcount_bits + type_bits + color_bits) buffered_bits bu

unfoldable pub set_dirty : ℕ → ℕ → ℕ
set_dirty info d =
    set_bits info (refcount_bits + type_bits + color_bits + buffered_bits) dirty_bits d
