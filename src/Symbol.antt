-- ===== src/Symbol.antt =====
-- Symbols: qz_make_sym of quuz-object.c, which interns names.
use quuz.Prelude.{◌+◌, ◌*◌, ◌%◌, ◌^◌, none, some}
use quuz.Object.PointerTag
use quuz.Object.Tag.{Obj}
use quuz.Machine.Outcome.{M, pure, ◌>>=◌, ◌>>◌, gets, modify}
use quuz.Collector.{ref, unref}
use quuz.Hash.{CityHash, hash_get, hash_set, read_slot}

-- `(st->next_sym++ << 6) | QZ_PT_SYM`
unfoldable pub new_sym : M Obj
new_sym = do
  n ← gets (λ st. st.next_sym)
  modify (λ st. record st { next_sym = (n + 1) % 2 ^ 64 })
  pure (n * 64 % 2 ^ 64 + PointerTag.sym)

module _ ⦃city : CityHash⦄ where
  -- Both tables are written, name to symbol and back.
  unfoldable pub add_sym : (name sym : Obj) → M (Unit {0})
  unfolding hash_set
  add_sym name sym = do
    names ← gets (λ st. st.name_sym)
    names' ← hash_set names name sym
    modify (λ st. record st { name_sym = names' })
    syms ← gets (λ st. st.sym_name)
    syms' ← hash_set syms sym name
    modify (λ st. record st { sym_name = syms' })

  -- `qz_make_sym`
  unfoldable pub make_sym : Obj → M Obj
  unfolding hash_get unref read_slot new_sym ref add_sym
  make_sym name = do
    names ← gets (λ st. st.name_sym)
    slot ← hash_get names name
    elim slot [
      | some s ↦ do unref name; read_slot s
      | none ↦ do sym ← new_sym; name' ← ref name; add_sym name sym; pure sym
    ]
