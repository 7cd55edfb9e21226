-- ===== src/Library/Ports/Open.antt =====
-- port-open? of quuz-lib.c, whose specification asks for a pair.
use quuz.Prelude.{◌≡◌, refl}
use quuz.Object.Tag.{Obj}
use quuz.Object.CellType
use quuz.Machine.Store.{State}
use quuz.Machine.Outcome.{fault}
use quuz.Machine.Cell.{to_port}
use quuz.Runtime.Post.{Post, and_then-Post}
use quuz.Eval.{Cfun}
use quuz.Eval.Args.{Kind, required, get_arg}
use quuz.Eval.Args.Fits.{Fits, type_test, cell_test-other, cell_of_type-test, get_arg-Fits}
use quuz.Library.Ports.{scm_port_open_q}

-- No result at all.
abbrev pub Nothing : Obj → State → Type 0
Nothing obj st = ⊥

no_port : (obj : Obj) (st : State) → Fits Kind.pair obj st → to_port obj st ≡ fault
unfolding to_port Fits type_test
no_port obj st fits =
    rw
      (
        cell_of_type-test obj CellType.port st,
        cell_test-other st.heap obj CellType.pair CellType.port fits refl,
      )
      refl

-- port-open? never returns a result, for any evaluator, arguments and state: it asks for a pair, and
-- a pair is no port.
pub scm_port_open_q-Nothing :
    (ev : Cfun) (args : Obj) (st : State) → Post Nothing (scm_port_open_q ev args st)
unfolding scm_port_open_q
scm_port_open_q-Nothing ev args st =
    and_then-Post (get_arg ev (required Kind.pair) args st) _ (get_arg-Fits ev Kind.pair args st)
      (λ r s fits. rw (no_port r.0 s fits) (record { ends = tt }))
