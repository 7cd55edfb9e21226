-- ===== src/Object/Info/Laws.antt =====
-- The five fields of `info` are independent: each accessor as arithmetic, and the field laws.
use quuz.Prelude.{ℕ, ◌+◌, ◌-◌, ◌*◌, ◌/◌, ◌%◌, ◌^◌, ◌<◌, ◌≡◌, arith}
use quuz.Prelude.Bits.{and_low, and_ones, put_low, put_above}
use quuz.Object.Info.{
  get_bits, set_bits, refcount, cell_type, color, buffered, dirty, set_refcount, set_type,
  set_color, set_buffered, set_dirty,
}

pub refcount-eq : (b : ℕ) → refcount b ≡ b % 2 ^ 56
unfolding refcount get_bits
refcount-eq b = ground (arith, and_low 56 (b / 2 ^ 56) (b % 2 ^ 56))

pub cell_type-eq : (b : ℕ) → cell_type b ≡ b / 2 ^ 56 % 2 ^ 4
unfolding cell_type get_bits
cell_type-eq b = ground (arith, and_low 4 (b / 2 ^ 60) (b / 2 ^ 56 % 2 ^ 4))

pub color-eq : (b : ℕ) → color b ≡ b / 2 ^ 60 % 2 ^ 2
unfolding color get_bits
color-eq b = ground (arith, and_low 2 (b / 2 ^ 62) (b / 2 ^ 60 % 2 ^ 2))

pub buffered-eq : (b : ℕ) → buffered b ≡ b / 2 ^ 62 % 2
unfolding buffered get_bits
buffered-eq b = ground (arith, and_low 1 (b / 2 ^ 63) (b / 2 ^ 62 % 2))

pub dirty-eq : (b : ℕ) → dirty b ≡ b / 2 ^ 63 % 2
unfolding dirty get_bits
dirty-eq b = ground (arith, and_low 1 (b / 2 ^ 64) (b / 2 ^ 63 % 2))

pub set_refcount-eq :
    (b v : ℕ) → b < 2 ^ 64 → v < 2 ^ 56 → set_refcount b v ≡ b / 2 ^ 56 * 2 ^ 56 + v
unfolding set_refcount set_bits
set_refcount-eq b v h l =
    ground (arith, put_low 56 (b / 2 ^ 56) (b % 2 ^ 56) (2 ^ 8 - 1) v, and_ones 8 (b / 2 ^ 56))

pub set_type-eq :
    (b v : ℕ)
    → b < 2 ^ 64
    → v < 2 ^ 4
    → set_type b v ≡ b / 2 ^ 60 * 2 ^ 60 + v * 2 ^ 56 + b % 2 ^ 56
unfolding set_type set_bits
set_type-eq b v h l = ground (
  arith,
  put_above 56 (b / 2 ^ 56) (b % 2 ^ 56) ((2 ^ 4 - 1) * 2 ^ 4) v,
  put_low 4 (b / 2 ^ 60) (b / 2 ^ 56 % 2 ^ 4) (2 ^ 4 - 1) v,
  and_ones 4 (b / 2 ^ 60),
)

pub set_color-eq :
    (b v : ℕ)
    → b < 2 ^ 64
    → v < 2 ^ 2
    → set_color b v ≡ b / 2 ^ 62 * 2 ^ 62 + v * 2 ^ 60 + b % 2 ^ 60
unfolding set_color set_bits
set_color-eq b v h l = ground (
  arith,
  put_above 60 (b / 2 ^ 60) (b % 2 ^ 60) ((2 ^ 2 - 1) * 2 ^ 2) v,
  put_low 2 (b / 2 ^ 62) (b / 2 ^ 60 % 2 ^ 2) (2 ^ 2 - 1) v,
  and_ones 2 (b / 2 ^ 62),
)

pub set_buffered-eq :
    (b v : ℕ)
    → b < 2 ^ 64
    → v < 2
    → set_buffered b v ≡ b / 2 ^ 63 * 2 ^ 63 + v * 2 ^ 62 + b % 2 ^ 62
unfolding set_buffered set_bits
set_buffered-eq b v h l = ground (
  arith,
  put_above 62 (b / 2 ^ 62) (b % 2 ^ 62) ((2 ^ 1 - 1) * 2 ^ 1) v,
  put_low 1 (b / 2 ^ 63) (b / 2 ^ 62 % 2 ^ 1) (2 ^ 1 - 1) v,
  and_ones 1 (b / 2 ^ 63),
)

pub set_dirty-eq : (b v : ℕ) → b < 2 ^ 64 → v < 2 → set_dirty b v ≡ v * 2 ^ 63 + b % 2 ^ 63
unfolding set_dirty set_bits
set_dirty-eq b v h l =
    ground (arith, put_above 63 (b / 2 ^ 63) (b % 2 ^ 63) 0 v, put_low 1 0 (b / 2 ^ 63) 0 v)

-- What a word holds, field by field.
pub record Fields : Type 0 where
  pub refcount : ℕ
  pub cell_type : ℕ
  pub color : ℕ
  pub buffered : ℕ
  pub dirty : ℕ

abbrev pub fields : ℕ → Fields
fields b = record {
  refcount = refcount b;
  cell_type = cell_type b;
  color = color b;
  buffered = buffered b;
  dirty = dirty b;
}

module _ (b v : ℕ) (word : b < 2 ^ 64) where
  pub fields-set_refcount :
      v < 2 ^ 56 → fields (set_refcount b v) ≡ record (fields b) { refcount = v }
  fields-set_refcount l =
      rw (set_refcount-eq b v word l)
        (simp (refcount-eq, cell_type-eq, color-eq, buffered-eq, dirty-eq) (ground arith))

  pub fields-set_type : v < 2 ^ 4 → fields (set_type b v) ≡ record (fields b) { cell_type = v }
  fields-set_type l =
      rw (set_type-eq b v word l)
        (simp (refcount-eq, cell_type-eq, color-eq, buffered-eq, dirty-eq) (ground arith))

  pub fields-set_color : v < 2 ^ 2 → fields (set_color b v) ≡ record (fields b) { color = v }
  fields-set_color l =
      rw (set_color-eq b v word l)
        (simp (refcount-eq, cell_type-eq, color-eq, buffered-eq, dirty-eq) (ground arith))

  pub fields-set_buffered : v < 2 → fields (set_buffered b v) ≡ record (fields b) { buffered = v }
  fields-set_buffered l =
      rw (set_buffered-eq b v word l)
        (simp (refcount-eq, cell_type-eq, color-eq, buffered-eq, dirty-eq) (ground arith))

  pub fields-set_dirty : v < 2 → fields (set_dirty b v) ≡ record (fields b) { dirty = v }
  fields-set_dirty l =
      rw (set_dirty-eq b v word l)
        (simp (refcount-eq, cell_type-eq, color-eq, buffered-eq, dirty-eq) (ground arith))

-- Values that fit their fields.
pub record IsFields (f : Fields) : Type 0 where
  pub refcount : f.refcount < 2 ^ 56
  pub cell_type : f.cell_type < 2 ^ 4
  pub color : f.color < 2 ^ 2
  pub buffered : f.buffered < 2
  pub dirty : f.dirty < 2

-- In a word, each of the five setters writes a value that fits its field, and the other four fields
-- read as before.
pub setters-fields :
    (b : ℕ) (f : Fields)
    → b < 2 ^ 64
    → IsFields f
    → (fields (set_refcount b f.refcount) ≡ record (fields b) { refcount = f.refcount })
      × (fields (set_type b f.cell_type) ≡ record (fields b) { cell_type = f.cell_type })
      × (fields (set_color b f.color) ≡ record (fields b) { color = f.color })
      × (fields (set_buffered b f.buffered) ≡ record (fields b) { buffered = f.buffered })
      × (fields (set_dirty b f.dirty) ≡ record (fields b) { dirty = f.dirty })
setters-fields b f word fit = (
  fields-set_refcount b f.refcount word fit.refcount,
  fields-set_type b f.cell_type word fit.cell_type,
  fields-set_color b f.color word fit.color,
  fields-set_buffered b f.buffered word fit.buffered,
  fields-set_dirty b f.dirty word fit.dirty,
)
