-- ===== src/Machine/Pairs.antt =====
-- Pairs in the heap: which cells they are, and updates of their members.
use quuz.Prelude.{
  List, [], ◌∷◌, ℕ, ◌≡◌, ◌≢◌, sym, ap, ◌∙◌, subst, false, Option, none, some, List, arith,
}
use quuz.Object.Tag.{Obj, is_null, to_cell}
use quuz.Machine.Store.{State, Cell, pair, objs}
use quuz.Machine.Outcome.{ok}
use quuz.Machine.Cell.{set_rest}
use quuz.Machine.Cell.Laws.{put-ok, with_cell}
use quuz.Object.CellType
use quuz.Object.Info.{cell_type}
use quuz.Machine.Chain.{IsPairAt, IsChain, to_pair-ok}

-- The second state has the pairs of the first, but for the one at `p`.
abbrev pub AgreesBut : ℕ → State → State → Type 0
AgreesBut p st st' =
    (q i : ℕ) (a b : Obj)
    → q ≢ p
    → st.heap q ≡ some (record { info = i; value = pair a b })
    → st'.heap q ≡ st.heap q

abbrev rest_of : Option Cell → Obj
rest_of none = 0
rest_of (some c) = elim c.value [ pair a b ↦ b | _ ↦ 0 ]

pub is_pair-ne-null : (st : State) (obj a b : Obj) → IsPairAt st obj a b → is_null obj ≡ false
unfolding is_null to_cell
is_pair-ne-null st obj a b at = let present = at.present in ground arith

pub null-no-pair : (st : State) (obj a b : Obj) → IsPairAt st obj a b → obj ≡ 2 → ⊥
unfolding is_null
null-no-pair st obj a b at e =
    let contra : is_null 2 ≡ false =
      subst (λ o. is_null o ≡ false) e (is_pair-ne-null st obj a b at) in
    ground arith

-- The members of a pair are those of its address.
pub rest-same :
    (st : State) (p q i j a b c d : ℕ)
    → st.heap p ≡ some (record { info = i; value = pair a b })
    → st.heap q ≡ some (record { info = j; value = pair c d })
    → p ≡ q
    → b ≡ d
rest-same st p q i j a b c d left right e = ap rest_of (sym left ∙ ap st.heap e ∙ right)

-- A pair with a pair behind it and a pair that ends a list are two cells.
pub IsPairAt-apart :
    (st : State) (obj last x next z c d : Obj)
    → IsPairAt st obj x next
    → IsPairAt st next c d
    → IsPairAt st last z 2
    → to_cell obj ≢ to_cell last
IsPairAt-apart st obj last x next z c d at behind end e =
    null-no-pair st next c d behind (rest-same st _ _ _ _ _ _ _ _ at.holds end.holds e)

pub IsPairAt-frame :
    (st st' : State) (obj a b : Obj)
    → IsPairAt st obj a b
    → st'.heap (to_cell obj) ≡ st.heap (to_cell obj)
    → IsPairAt st' obj a b
IsPairAt-frame st st' obj a b at e = record {
  cell = at.cell;
  present = at.present;
  info = at.info;
  holds = e ∙ at.holds;
  type = at.type;
}

pub set_rest-ok :
    (st : State) (obj a b : Obj) (at : IsPairAt st obj a b) (v : Obj)
    → set_rest obj v st
      ≡ ok tt (with_cell st (to_cell obj) (record { info = at.info; value = pair a v }))
unfolding set_rest
set_rest-ok st obj a b at v =
    rw (to_pair-ok st obj a b at) (put-ok st (to_cell obj) at.holds (pair a v))

-- An array is no pair.
pub objs-ne-pair :
    (st : State) (p q i j capacity : ℕ) (ys : List Obj) (a b : Obj)
    → st.heap p ≡ some (record { info = i; value = objs capacity ys })
    → st.heap q ≡ some (record { info = j; value = pair a b })
    → p ≢ q
objs-ne-pair st p q i j capacity ys a b array holds e = absurd (
    subst
      (λ (o : Option Cell). elim o [
        | none ↦ Unit {0}
        | some c ↦ elim c.value [ pair _ _ ↦ ⊥ | _ ↦ Unit {0} ]
      ])
      (sym array ∙ ap st.heap e ∙ holds) tt)

-- The pairs of the first state are pairs with the same members in the second.
abbrev pub PairsKept : State → State → Type 0
PairsKept st st' =
    (q i : ℕ) (a b : Obj)
    → st.heap q ≡ some (record { info = i; value = pair a b })
    → cell_type i ≡ CellType.pair
    → (j : ℕ) × (st'.heap q ≡ some (record { info = j; value = pair a b }))
      × (cell_type j ≡ CellType.pair)

pub IsPairAt-kept :
    (st st' : State) (obj a b : Obj) → PairsKept st st' → IsPairAt st obj a b → IsPairAt st' obj a b
IsPairAt-kept st st' obj a b kept at =
    let k = kept (to_cell obj) at.info a b at.holds at.type in
    record { cell = at.cell; present = at.present; info = k.0; holds = k.1; type = k.2 }

pub IsChain-kept :
    (st st' : State) (obj last : Obj) (xs : List Obj)
    → PairsKept st st'
    → IsChain st obj xs last
    → IsChain st' obj xs last
IsChain-kept st st' obj last [] kept e = e
IsChain-kept st st' obj last (x ∷ xs) kept (next, at, more) =
    (next, IsPairAt-kept st st' obj x next kept at, IsChain-kept st st' next last xs kept more)
