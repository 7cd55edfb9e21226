-- ===== src/Hash.antt =====
-- quuz-hash.c: hash tables with linear probing.
pub mod Control
pub mod Ring
pub mod Table
pub mod Load
pub mod Rehash
pub mod Refine
pub mod Write
pub mod Grow
use quuz.Prelude.{
  ℕ, zero, suc, ◌+◌, ◌*◌, ◌/◌, ◌%◌, ◌^◌, ◌<◌, Bool, true, false, not, ◌&&◌, ◌||◌, Option, none,
  some, List, [], ◌∷◌, length, get_elem?, set, replicate, ltb, leb, ◌==◌, if◌then◌else◌,
}
use quuz.Object.Tag.{Obj, qz_none, is_cell, is_none, from_cell}
use quuz.Object.CellType
use quuz.Object.Info.{cell_type, refcount}
use quuz.Machine.Store.{Cell, Payload, Pair, bytes, table}
use quuz.Machine.Outcome.{out_of_fuel, M, pure, ◌>>=◌, ◌>>◌, crash, assert, skip}
use quuz.Machine.Cell.{load, store, release_memory, make_cell, put, cell_ptr}
use quuz.Collector.{unref}
use quuz.Equal.{qz_equal}

-- CityHash32 of the library that city.cc copies: a function of the bytes, with a 32-bit result.
pub record CityHash : Type 0 where
  pub city_hash32 : List ℕ → ℕ
  pub city_hash32-lt : (s : List ℕ) → city_hash32 s < 2 ^ 32

-- The bytes of a word in memory, least significant first.
abbrev word_bytes : ℕ → ℕ → List ℕ
word_bytes zero w = []
word_bytes (suc n) w = w % 256 ∷ word_bytes n (w / 256)

-- The `size` and the pairs of a hash.
unfoldable pub hash_data : ℕ → M (ℕ × List Pair)
unfolding load
hash_data cell = do
  c ← load cell
  elim c.value [ table size pairs ↦ pure (size, pairs) | _ ↦ crash ]

unfoldable pub pair_in : ℕ → ℕ → M Pair
unfolding hash_data
pair_in cell slot = do
  d ← hash_data cell
  elim (get_elem? d.1 slot) [ none ↦ crash | some p ↦ pure p ]

-- `data[slot] = p`
unfoldable pub put_pair : ℕ → ℕ → Pair → M (Unit {0})
unfolding hash_data put
put_pair cell slot p = do d ← hash_data cell; put cell (table d.0 (set d.1 slot p))

abbrev pub no_pair : Pair
no_pair = record { first = qz_none; rest = qz_none }

unfoldable pub make_hash_with : ℕ → M ℕ
unfolding make_cell
make_hash_with capacity = make_cell CellType.hash (table 0 (replicate capacity no_pair))

-- `qz_make_hash`
unfoldable pub make_hash : M Obj
unfolding make_hash_with
make_hash = do cell ← make_hash_with 4; pure (from_cell cell)

-- A slot of a hash: the pair at an index of its array. qz_hash_get returns the address of its
-- `rest`.
pub record Slot : Type 0 where
  pub cell : ℕ
  pub index : ℕ

module _ ⦃city : CityHash⦄ where
  unfoldable pub hash_obj : Obj → M ℕ
  unfolding cell_ptr load
  hash_obj obj =
      if is_cell obj
      then (do
        p ← cell_ptr obj
        c ← load p
        assert (cell_type c.info == CellType.string)
        elim c.value [ bytes _ s ↦ pure (city.city_hash32 s) | _ ↦ crash ])
      else pure (city.city_hash32 (word_bytes 8 obj))

  -- The loop of get_hash; `i` is a `uint32_t`. The remainder by a capacity of 0 is a fault.
  unfoldable pub probe : ℕ → ℕ → Obj → ℕ → M ℕ
  unfolding hash_data pair_in
  probe zero cell key i st = out_of_fuel
  probe (suc n) cell key i st =
      (do
        d ← hash_data cell
        assert (not (length d.1 == 0))
        let slot = i % length d.1
        p ← pair_in cell slot
        (if is_none p.first then pure slot else do
          same ← qz_equal p.first key
          (if same then pure slot else probe n cell key ((i + 1) % 2 ^ 32))))
        st

  -- `get_hash`: the index of the pair. After as many rounds as there are slots the loop has seen
  -- them all.
  unfoldable pub get_hash : ℕ → Obj → M ℕ
  unfolding load hash_data hash_obj probe
  get_hash cell key = do
    c ← load cell
    assert (cell_type c.info == CellType.hash)
    d ← hash_data cell
    i ← hash_obj key
    probe (length d.1) cell key i

  -- The loop of realloc_hash over the old pairs.
  unfoldable pub copy_pairs : ℕ → List Pair → M (Unit {0})
  unfolding get_hash put_pair
  copy_pairs new_cell [] = skip
  copy_pairs new_cell (p ∷ ps) = do
    (if is_none p.first || is_none p.rest
        then skip
        else do slot ← get_hash new_cell p.first; put_pair new_cell slot p)
    copy_pairs new_cell ps

  unfoldable pub realloc_hash : Obj → M Obj
  unfolding cell_ptr load hash_data make_hash_with store copy_pairs release_memory
  realloc_hash obj = do
    cell ← cell_ptr obj
    c ← load cell
    assert (refcount c.info == 1)
    d ← hash_data cell
    new_cell ← make_hash_with (length d.1 * 2)
    n ← hash_data new_cell
    store new_cell (record { info = c.info; value = table d.0 n.1 })
    copy_pairs new_cell d.1
    release_memory cell
    pure (from_cell new_cell)

  unfoldable pub hash_get : Obj → Obj → M (Option Slot)
  unfolding cell_ptr get_hash pair_in
  hash_get obj key = do
    cell ← cell_ptr obj
    slot ← get_hash cell key
    p ← pair_in cell slot
    pure (if is_none p.first then none else some (record { cell = cell; index = slot }))

  -- The lines of qz_hash_set that put key and value into the slot and release what they replace.
  -- `p` is what the slot held.
  unfoldable pub store_value : (cell slot : ℕ) → Pair → (key value : Obj) → M (Unit {0})
  unfolding pair_in put_pair unref
  store_value cell slot p key value = do
    unref p.first
    q ← pair_in cell slot
    put_pair cell slot (record q { first = key })
    r ← pair_in cell slot
    unref r.rest
    t ← pair_in cell slot
    put_pair cell slot (record t { rest = value })

  -- The result is what `*obj` is afterwards.
  unfoldable pub hash_set : Obj → Obj → Obj → M Obj
  unfolding cell_ptr get_hash pair_in hash_data put store_value realloc_hash
  hash_set obj key value = do
    cell ← cell_ptr obj
    slot ← get_hash cell key
    p ← pair_in cell slot
    (if is_none p.first then (do d ← hash_data cell; put cell (table (d.0 + 1) d.1)) else skip)
    store_value cell slot p key value
    d ← hash_data cell
    (if ltb (length d.1 * 7) (d.0 * 10) then realloc_hash obj else pure obj)

-- `*slot`
unfoldable pub read_slot : Slot → M Obj
unfolding pair_in
read_slot s = do p ← pair_in s.cell s.index; pure p.rest

-- `*slot = value`
unfoldable pub write_slot : Slot → Obj → M (Unit {0})
unfolding pair_in put_pair
write_slot s value = do
  p ← pair_in s.cell s.index
  put_pair s.cell s.index (record p { rest = value })
