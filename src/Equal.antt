-- ===== src/Equal.antt =====
-- The equivalence predicates qz_eq, qz_eqv and qz_equal of quuz-object.c.
pub mod Control
pub mod Words
pub mod Pairs
use quuz.Prelude.{
  ℕ, zero, suc, ◌+◌, ◌-◌, ◌*◌, ◌/◌, ◌%◌, ◌^◌, Bool, true, false, not, ◌&&◌, ◌||◌, Option, none,
  some, List, [], ◌∷◌, length, ltb, leb, ◌==◌, if◌then◌else◌,
}
use quuz.Object.Tag.{Obj}
use quuz.Object.PointerTag
use quuz.Object.CellType
use quuz.Object.Info.{cell_type}
use quuz.Machine.Store.{Payload, bytes, objs, real}
use quuz.Machine.Outcome.{out_of_fuel, M, pure, ◌>>=◌, ◌>>◌, crash}
use quuz.Machine.Cell.{load, cell_ptr, pair_at}

unfoldable pub eq : Obj → Obj → Bool
eq a b = a == b

unfoldable pub eqv : Obj → Obj → Bool
eqv a b = a == b

-- `memcmp(...) == 0`
abbrev pub same_bytes : List ℕ → List ℕ → Bool
same_bytes [] [] = true
same_bytes (x ∷ xs) (y ∷ ys) = (x == y) && same_bytes xs ys
same_bytes _ _ = false

abbrev compare_bytes : Payload → Payload → M Bool
compare_bytes (bytes _ xs) (bytes _ ys) =
    if length xs == length ys then pure (same_bytes xs ys) else pure false
compare_bytes _ _ = crash

-- compare_array, where the elements are single bytes
unfoldable pub compare_array : ℕ → ℕ → M Bool
unfolding load
compare_array a b = do x ← load a; y ← load b; compare_bytes x.value y.value

-- `==` on doubles, by their bits: a NaN equals nothing, and the two zeros are equal.
abbrev is_nan : ℕ → Bool
is_nan x = (x / 2 ^ 52 % 2 ^ 11 == 2 ^ 11 - 1) && not (x % 2 ^ 52 == 0)

abbrev same_real : ℕ → ℕ → Bool
same_real x y =
    not (is_nan x) && not (is_nan y) && ((x == y) || ((x % 2 ^ 63 == 0) && (y % 2 ^ 63 == 0)))

abbrev compare_reals : Payload → Payload → M Bool
compare_reals (real x) (real y) = pure (same_real x y)
compare_reals _ _ = crash

-- The loop over two vectors of one size.
unfoldable pub equal_elems : (Obj → Obj → M Bool) → List Obj → List Obj → M Bool
equal_elems rec (x ∷ xs) (y ∷ ys) = do b ← rec x y; if b then equal_elems rec xs ys else pure false
equal_elems rec _ _ = pure true

abbrev compare_vectors : (Obj → Obj → M Bool) → Payload → Payload → M Bool
compare_vectors rec (objs _ xs) (objs _ ys) =
    if length xs == length ys then equal_elems rec xs ys else pure false
compare_vectors rec _ _ = crash

-- The comparison of two cells of one type; `rec` compares their parts. In the clause for pairs the
-- second comparison is that of `b_cell->value.pair.rest` with itself, as in the source.
unfoldable pub equal_cells : (Obj → Obj → M Bool) → (type a b : ℕ) → M Bool
unfolding pair_at compare_array equal_elems load
equal_cells rec type a b =
    if leb type CellType.promise
    then (do
      x ← pair_at a
      y ← pair_at b
      same ← rec x.0 y.0
      (if same then rec y.1 y.1 else pure false))
    else if type == CellType.string
    then compare_array a b
    else if type == CellType.vector
    then (do x ← load a; y ← load b; compare_vectors rec x.value y.value)
    else if type == CellType.bytevector
    then compare_array a b
    else if type == CellType.real
    then (do x ← load a; y ← load b; compare_reals x.value y.value)
    else crash

-- `qz_equal`, on fuel: a cyclic object never ends it.
unfoldable pub equal : ℕ → Obj → Obj → M Bool
unfolding cell_ptr load equal_cells
equal zero a b st = out_of_fuel
equal (suc n) a b st =
    (if a == b
        then pure true
        else if not (a % 8 == b % 8)
        then pure false
        else if not (a % 8 == PointerTag.cell)
        then pure false
        else do
          a_cell ← cell_ptr a
          b_cell ← cell_ptr b
          x ← load a_cell
          y ← load b_cell
          (if cell_type x.info == cell_type y.info
              then equal_cells (equal n) (cell_type x.info) a_cell b_cell
              else pure false))
      st

-- `qz_equal`
unfoldable pub qz_equal : Obj → Obj → M Bool
unfolding equal
qz_equal a b st = equal st.brk a b st
