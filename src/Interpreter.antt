-- ===== src/Interpreter.antt =====
-- The whole interpreter: the evaluator of quuz-state.c over the functions of quuz-lib.c, and main.
pub mod Call
use quuz.Prelude.{ℕ, zero, suc, Bool, Option, List, [], ◌∷◌, ◌++◌, true, false, ◌==◌, if◌then◌else◌}
use quuz.Object.Tag.{Obj, to_cfun}
use quuz.Machine.Outcome.{M, crash}
use quuz.Hash.{CityHash}
use quuz.Eval.{Cfun, Library, eval, peval}
use quuz.Setup.{NamedCfun, FdOpen}
use quuz.Main.{main}
use quuz.Reader.Actions.{Action}
use quuz.Library.Records.{RecordFuns, make_record, access_record, modify_record, is_record_of}
use quuz.Library.Control.{qz_error_handler}
use quuz.Library.Table.{Host, Entry}
use quuz.Library.Table.Core.{core_functions}
use quuz.Library.Table.Lists.{list_functions}
use quuz.Library.Table.Arrays.{array_functions}
use quuz.Library.Table.Control.{control_functions}
use quuz.Library.Table.World.{world_functions}

module _ ⦃city : CityHash⦄ (host : Host) where
  -- QZ_LIB_FUNCTIONS.
  unfoldable pub lib_functions : List Entry
  unfolding core_functions list_functions array_functions control_functions world_functions
  lib_functions =
      core_functions host
      ++ list_functions host
      ++ array_functions host
      ++ control_functions host
      ++ world_functions host

module _ ⦃city : CityHash⦄ (host : Host) (address : ℕ → ℕ) where
  -- The functions that are not in the table: those for records, and the failsafe handler.
  unfoldable pub other_function : Library
  unfolding make_record access_record modify_record is_record_of qz_error_handler to_cfun
  other_function ev n a args =
      let funs = host.record_funs in
      if a == funs.make_record_fun
      then make_record args
      else if a == funs.access_record_fun
      then access_record ev args
      else if a == funs.modify_record_fun
      then modify_record ev args
      else if a == funs.is_record_fun
      then is_record_of ev args
      else if a == to_cfun host.failsafe
      then qz_error_handler host.libc n args
      else crash

  -- The call of a function by its address: the function number `i` of the table stands at
  -- `address i`.
  unfoldable pub dispatch : List Entry → (i : ℕ) → Library
  unfolding other_function
  dispatch [] i ev n a args = other_function ev n a args
  dispatch (e ∷ es) i ev n a args = elim (address i == a) [
    | true ↦ e.function ev n args
    | false ↦ dispatch es (suc i) ev n a args
  ]

  unfoldable pub library : Library
  unfolding lib_functions dispatch
  library = dispatch (lib_functions host) 0

  -- The entries of a table with the addresses of its functions, from number `i` on.
  unfoldable pub named_cfuns : List Entry → (i : ℕ) → List NamedCfun
  named_cfuns [] i = []
  named_cfuns (e ∷ es) i = record { cfun = address i; name = e.name } ∷ named_cfuns es (suc i)

  -- The program, on fuel `n`.
  unfoldable pub quuz_main :
      FdOpen
      → (input : (fp : ℕ) → (hashbang : Bool) → List (List Action)) → List ℕ
      → (operand : Option (List ℕ)) → ℕ
      → M Bool
  unfolding main named_cfuns lib_functions peval eval library
  quuz_main fdopen input cs operand n =
      main host.libc (peval (eval library n) host.failsafe n) host.files fdopen input
        (named_cfuns (lib_functions host) 0) cs operand n
