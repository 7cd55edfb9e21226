-- ===== src/Equal/Control.antt =====
-- Comparisons leave the control state alone.
use quuz.Prelude.{ℕ, zero, suc, ◌%◌, true, false, not, ◌==◌, leb, Bool, List, [], ◌∷◌}
use quuz.Object.Tag.{Obj}
use quuz.Object.Info.{cell_type}
use quuz.Object.CellType
use quuz.Object.PointerTag
use quuz.Machine.Store.{Payload, bytes, objs, real}
use quuz.Machine.Outcome.{M}
use quuz.Machine.Keeps.{
  Keeps, Keeps-bind, Keeps-if, Keeps-pure, Keeps-crash, Keeps-fuel, Keeps-load, Keeps-pair_at,
}
use quuz.Machine.Keeps.Cells.{Keeps-cell_ptr}
use quuz.Equal.{
  compare_bytes, compare_array, compare_reals, compare_vectors, equal_elems, equal_cells, equal,
  qz_equal,
}

compare_bytes-Keeps : (v w : Payload) → Keeps (compare_bytes v w)
compare_bytes-Keeps (bytes c xs) (bytes d ys) = Keeps-if _ (Keeps-pure _) (Keeps-pure _)
compare_bytes-Keeps (bytes c xs) _ = Keeps-crash
compare_bytes-Keeps _ w = Keeps-crash

compare_reals-Keeps : (v w : Payload) → Keeps (compare_reals v w)
compare_reals-Keeps (real x) (real y) = Keeps-pure _
compare_reals-Keeps (real x) _ = Keeps-crash
compare_reals-Keeps _ w = Keeps-crash

compare_array-Keeps : (a b : ℕ) → Keeps (compare_array a b)
unfolding compare_array
compare_array-Keeps a b =
    Keeps-bind (Keeps-load a)
      (λ x. Keeps-bind (Keeps-load b) (λ y. compare_bytes-Keeps x.value y.value))

module _ (rec : Obj → Obj → M Bool) (k : (a b : Obj) → Keeps (rec a b)) where
  equal_elems-Keeps : (xs ys : List Obj) → Keeps (equal_elems rec xs ys)
  unfolding equal_elems
  equal_elems-Keeps (x ∷ xs) (y ∷ ys) =
      Keeps-bind (k x y) (λ b. Keeps-if b (equal_elems-Keeps xs ys) (Keeps-pure _))
  equal_elems-Keeps (x ∷ xs) [] = Keeps-pure _
  equal_elems-Keeps [] ys = Keeps-pure _

  compare_vectors-Keeps : (v w : Payload) → Keeps (compare_vectors rec v w)
  compare_vectors-Keeps (objs c xs) (objs d ys) =
      Keeps-if _ (equal_elems-Keeps xs ys) (Keeps-pure _)
  compare_vectors-Keeps (objs c xs) _ = Keeps-crash
  compare_vectors-Keeps _ w = Keeps-crash

  equal_cells-Keeps : (type a b : ℕ) → Keeps (equal_cells rec type a b)
  unfolding equal_cells
  equal_cells-Keeps type a b =
      Keeps-if (leb type CellType.promise)
        (Keeps-bind (Keeps-pair_at a) (λ x.
          Keeps-bind (Keeps-pair_at b)
            (λ y. Keeps-bind (k x.0 y.0) (λ same. Keeps-if same (k y.1 y.1) (Keeps-pure _)))))
        (Keeps-if (type == CellType.string) (compare_array-Keeps a b) (
          Keeps-if (type == CellType.vector)
            (Keeps-bind (Keeps-load a)
              (λ x. Keeps-bind (Keeps-load b) (λ y. compare_vectors-Keeps x.value y.value)))
            (Keeps-if (type == CellType.bytevector) (compare_array-Keeps a b) (
              Keeps-if (type == CellType.real)
                (Keeps-bind (Keeps-load a)
                  (λ x. Keeps-bind (Keeps-load b) (λ y. compare_reals-Keeps x.value y.value)))
                Keeps-crash))))

equal-Keeps : (n : ℕ) (a b : Obj) → Keeps (equal n a b)
unfolding equal
equal-Keeps zero a b = Keeps-fuel
equal-Keeps (suc n) a b = Keeps-if (a == b) (Keeps-pure true) (
    Keeps-if (not (a % 8 == b % 8)) (Keeps-pure false) (
      Keeps-if (not (a % 8 == PointerTag.cell)) (Keeps-pure false) (
        Keeps-bind (Keeps-cell_ptr a) (λ p. Keeps-bind (Keeps-cell_ptr b) (λ q.
          Keeps-bind (Keeps-load p) (λ x. Keeps-bind (Keeps-load q) (λ y.
            Keeps-if (cell_type x.info == cell_type y.info)
              (equal_cells-Keeps (equal n) (equal-Keeps n) (cell_type x.info) p q)
              (Keeps-pure false))))))))

pub qz_equal-Keeps : (a b : Obj) → Keeps (qz_equal a b)
unfolding qz_equal
qz_equal-Keeps a b = record { kept = λ st. (equal-Keeps st.brk a b).kept st }
