-- ===== src/Hash/Control.antt =====
-- The operations of hash tables leave the control state alone.
use quuz.Prelude.{
  ℕ, zero, suc, ◌+◌, ◌%◌, ◌^◌, not, length, ◌==◌, Option, none, some, List, [], ◌∷◌, get_elem?,
  replicate,
}
use quuz.Object.Tag.{Obj, is_none}
use quuz.Object.CellType
use quuz.Machine.Store.{Payload, Pair, bytes, table}
use quuz.Machine.Outcome.{pure, crash}
use quuz.Machine.Keeps.{
  Keeps, Keeps-bind, Keeps-then, Keeps-if, Keeps-pure, Keeps-crash, Keeps-fuel, Keeps-assert,
  Keeps-load, Keeps-store, Keeps-release,
}
use quuz.Machine.Keeps.Cells.{Keeps-put, Keeps-cell_ptr, Keeps-make_cell}
use quuz.Equal.Control.{qz_equal-Keeps}
use quuz.Collector.{unref}
use quuz.Collector.Control.{unref-Keeps}
use quuz.Hash.{
  CityHash, no_pair, Slot, hash_data, pair_in, put_pair, make_hash_with, make_hash, hash_obj, probe,
  get_hash, copy_pairs, realloc_hash, hash_get, store_value, hash_set, read_slot,
}

pub Keeps-unref : (obj : Obj) → Keeps (unref obj)
Keeps-unref obj = record { kept = unref-Keeps obj }

hash_data-Keeps : (cell : ℕ) → Keeps (hash_data cell)
unfolding hash_data
hash_data-Keeps cell = Keeps-bind (Keeps-load cell) (λ c. of_payload c.value)
  where
    of_payload :
        (v : Payload)
        → Keeps {A = ℕ × List Pair} (elim v [ table size pairs ↦ pure (size, pairs) | _ ↦ crash ])
    of_payload (table size pairs) = Keeps-pure _
    of_payload _ = Keeps-crash

pair_in-Keeps : (cell slot : ℕ) → Keeps (pair_in cell slot)
unfolding pair_in
pair_in-Keeps cell slot = Keeps-bind (hash_data-Keeps cell) (λ d. found (get_elem? d.1 slot))
  where
    found : (o : Option Pair) → Keeps {A = Pair} (elim o [ none ↦ crash | some p ↦ pure p ])
    found none = Keeps-crash
    found (some p) = Keeps-pure p

put_pair-Keeps : (cell slot : ℕ) (p : Pair) → Keeps (put_pair cell slot p)
unfolding put_pair
put_pair-Keeps cell slot p = Keeps-bind (hash_data-Keeps cell) (λ d. Keeps-put cell _)

make_hash_with-Keeps : (capacity : ℕ) → Keeps (make_hash_with capacity)
unfolding make_hash_with
make_hash_with-Keeps capacity = Keeps-make_cell CellType.hash (table 0 (replicate capacity no_pair))

pub Keeps-make_hash : Keeps make_hash
unfolding make_hash
Keeps-make_hash = Keeps-bind (make_hash_with-Keeps 4) (λ cell. Keeps-pure _)

pub Keeps-read_slot : (s : Slot) → Keeps (read_slot s)
unfolding read_slot
Keeps-read_slot s = Keeps-bind (pair_in-Keeps s.cell s.index) (λ p. Keeps-pure _)

module _ ⦃city : CityHash⦄ where
  hash_obj-Keeps : (obj : Obj) → Keeps (hash_obj obj)
  unfolding hash_obj
  hash_obj-Keeps obj =
      Keeps-if _
        (Keeps-bind (Keeps-cell_ptr obj)
          (λ p. Keeps-bind (Keeps-load p) (λ c. Keeps-then (Keeps-assert _) (of_payload c.value))))
        (Keeps-pure _)
    where
      of_payload :
          (v : Payload)
          → Keeps {A = ℕ} (elim v [ bytes _ s ↦ pure (city.city_hash32 s) | _ ↦ crash ])
      of_payload (bytes c s) = Keeps-pure _
      of_payload _ = Keeps-crash

  probe-Keeps : (n cell : ℕ) (key : Obj) (i : ℕ) → Keeps (probe n cell key i)
  unfolding probe
  probe-Keeps zero cell key i = Keeps-fuel
  probe-Keeps (suc n) cell key i = Keeps-bind (hash_data-Keeps cell) (λ d.
      Keeps-then (Keeps-assert (not (length d.1 == 0))) (
        Keeps-bind (pair_in-Keeps cell (i % length d.1)) (λ p.
          Keeps-if (is_none p.first) (Keeps-pure (i % length d.1)) (
            Keeps-bind (qz_equal-Keeps p.first key) (λ same.
              Keeps-if same (Keeps-pure (i % length d.1))
                (probe-Keeps n cell key ((i + 1) % 2 ^ 32)))))))

  get_hash-Keeps : (cell : ℕ) (key : Obj) → Keeps (get_hash cell key)
  unfolding get_hash
  get_hash-Keeps cell key = Keeps-bind (Keeps-load cell) (λ c. Keeps-then (Keeps-assert _) (
      Keeps-bind (hash_data-Keeps cell)
        (λ d. Keeps-bind (hash_obj-Keeps key) (λ i. probe-Keeps _ cell key i))))

  copy_pairs-Keeps : (new_cell : ℕ) (ps : List Pair) → Keeps (copy_pairs new_cell ps)
  unfolding copy_pairs
  copy_pairs-Keeps new_cell [] = Keeps-pure _
  copy_pairs-Keeps new_cell (p ∷ ps) =
      Keeps-then
        (Keeps-if _ (Keeps-pure _)
          (Keeps-bind (get_hash-Keeps new_cell p.first) (λ slot. put_pair-Keeps new_cell slot p)))
        (copy_pairs-Keeps new_cell ps)

  realloc_hash-Keeps : (obj : Obj) → Keeps (realloc_hash obj)
  unfolding realloc_hash
  realloc_hash-Keeps obj = Keeps-bind (Keeps-cell_ptr obj) (λ cell.
      Keeps-bind (Keeps-load cell) (λ c. Keeps-then (Keeps-assert _) (
        Keeps-bind (hash_data-Keeps cell) (λ d. Keeps-bind (make_hash_with-Keeps _) (λ new_cell.
          Keeps-bind (hash_data-Keeps new_cell) (λ n. Keeps-then (Keeps-store new_cell _) (
            Keeps-then (copy_pairs-Keeps new_cell d.1)
              (Keeps-then (Keeps-release cell) (Keeps-pure _)))))))))

  pub Keeps-hash_get : (obj key : Obj) → Keeps (hash_get obj key)
  unfolding hash_get
  Keeps-hash_get obj key = Keeps-bind (Keeps-cell_ptr obj) (λ cell.
      Keeps-bind (get_hash-Keeps cell key)
        (λ slot. Keeps-bind (pair_in-Keeps cell slot) (λ p. Keeps-pure _)))

  store_value-Keeps :
      (cell slot : ℕ) (p : Pair) (key value : Obj) → Keeps (store_value cell slot p key value)
  unfolding store_value
  store_value-Keeps cell slot p key value = Keeps-then (Keeps-unref p.first) (
      Keeps-bind (pair_in-Keeps cell slot) (λ q. Keeps-then (put_pair-Keeps cell slot _) (
        Keeps-bind (pair_in-Keeps cell slot) (λ r.
          Keeps-then (Keeps-unref r.rest)
            (Keeps-bind (pair_in-Keeps cell slot) (λ t. put_pair-Keeps cell slot _))))))

  pub Keeps-hash_set : (obj key value : Obj) → Keeps (hash_set obj key value)
  unfolding hash_set
  Keeps-hash_set obj key value = Keeps-bind (Keeps-cell_ptr obj) (λ cell.
      Keeps-bind (get_hash-Keeps cell key) (λ slot. Keeps-bind (pair_in-Keeps cell slot) (λ p.
        Keeps-then
          (Keeps-if _ (Keeps-bind (hash_data-Keeps cell) (λ d. Keeps-put cell _)) (Keeps-pure _))
          (Keeps-then (store_value-Keeps cell slot p key value) (
            Keeps-bind (hash_data-Keeps cell)
              (λ d. Keeps-if _ (realloc_hash-Keeps obj) (Keeps-pure _)))))))
