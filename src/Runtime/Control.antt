-- ===== src/Runtime/Control.antt =====
-- Building lists and looking up variables leave the control state alone.
use quuz.Prelude.{ℕ, zero, suc, Option, none, some, if◌then◌else◌}
use quuz.Object.Tag.{Obj, is_null}
use quuz.Machine.Store.{State}
use quuz.Machine.Outcome.{M, pure}
use quuz.Machine.Keeps.{Keeps, Keeps-bind, Keeps-then, Keeps-if, Keeps-pure, Keeps-fuel, Keeps-gets}
use quuz.Machine.Keeps.Cells.{Keeps-set_rest, Keeps-to_pair}
use quuz.Hash.{CityHash, Slot}
use quuz.Hash.Control.{Keeps-hash_get}
use quuz.Runtime.{Builder, add_elem, list_head, lookup_loop, lookup}

pub Keeps-add_elem : (b : Builder) (inner_elem : Obj) → Keeps (add_elem b inner_elem)
unfolding add_elem
Keeps-add_elem b inner_elem =
    Keeps-if (is_null b.result) (Keeps-pure _)
      (Keeps-then (Keeps-set_rest b.elem inner_elem) (Keeps-pure _))

found_slot :
    {again : M (Option Slot)} (outer : Obj)
    → Keeps again
    → (slot : Option Slot)
    → Keeps {A = Option Slot}
        (elim slot [ some s ↦ pure (some s) | none ↦ if is_null outer then pure none else again ])
found_slot outer k (some s) = Keeps-pure (some s)
found_slot outer k none = Keeps-if (is_null outer) (Keeps-pure none) k

module _ ⦃city : CityHash⦄ where
  lookup_loop-Keeps : (n : ℕ) (scope sym : Obj) → Keeps (lookup_loop n scope sym)
  unfolding lookup_loop
  lookup_loop-Keeps zero scope sym = Keeps-fuel
  lookup_loop-Keeps (suc n) scope sym =
      Keeps-bind (Keeps-to_pair scope)
        (λ m. Keeps-bind (Keeps-hash_get m.0 sym) (found_slot m.1 (lookup_loop-Keeps n m.1 sym)))

  pub Keeps-lookup : (sym : Obj) → Keeps (lookup sym)
  unfolding lookup list_head
  Keeps-lookup sym = Keeps-bind (Keeps-gets (λ (st : State). st.env)) (λ env.
      Keeps-bind (Keeps-bind (Keeps-to_pair env) (λ m. Keeps-pure m.0)) (λ scope.
        Keeps-bind (Keeps-gets (λ (st : State). st.brk)) (λ n. lookup_loop-Keeps n scope sym)))
