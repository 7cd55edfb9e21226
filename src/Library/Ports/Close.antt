-- ===== src/Library/Ports/Close.antt =====
-- Closing a port of quuz-lib.c.
use quuz.Prelude.{ℕ, ◌≡◌, ap, refl, ◌∙◌, true, false, Option, none, some, List, ◌==◌}
use quuz.Object.Tag.{Obj, is_cell, to_cell}
use quuz.Object.Info.{cell_type}
use quuz.Object.CellType
use quuz.Machine.Store.{State, Port, port}
use quuz.Machine.Outcome.{ok}
use quuz.Machine.Cell.{cell_of_type, to_port}
use quuz.Machine.Cell.Laws.{load-ok, put-ok, with_cell, with_cell_self}
use quuz.Library.Files.{Files}
use quuz.Library.Ports.{close_port}

-- An object is a port, with these contents.
pub record IsPort (st : State) (obj : Obj) (p : Port) : Type 0 where
  pub info : ℕ
  pub cell : is_cell obj ≡ true
  pub address : (to_cell obj == 0) ≡ false
  pub holds : st.heap (to_cell obj) ≡ some (record { info = info; value = port p })
  pub type : cell_type info ≡ CellType.port

pub to_port-ok : (st : State) (obj : Obj) (p : Port) → IsPort st obj p → to_port obj st ≡ ok p st
unfolding to_port cell_of_type
to_port-ok st obj p is =
    rw (is.cell, is.address, load-ok st (to_cell obj) is.holds, is.type)
      (rw (load-ok st (to_cell obj) is.holds) refl)

-- `fclose` writes what is left to write, and touches no memory of the interpreter.
unfoldable pub Closes : Files → Type 0
Closes files =
    (fp : ℕ) (st : State)
    → (out : List (ℕ × ℕ)) × (files.fclose fp st ≡ ok tt (record st { output = out }))

-- The port is closed, and closing it again changes nothing.
pub record Closed (files : Files) (st : State) (obj : Obj) (p : Port) : Type 0 where
  pub after : State
  pub run : close_port files obj st ≡ ok tt after
  pub port : IsPort after obj (record p { fp = none })
  pub again : close_port files obj after ≡ ok tt after
  pub others : (q : ℕ) → (q == to_cell obj) ≡ false → after.heap q ≡ st.heap q

pub close-closed :
    (files : Files) (st : State) (obj : Obj) (p : Port)
    → IsPort st obj p
    → p.fp ≡ none
    → close_port files obj st ≡ ok tt st
unfolding close_port
close-closed files st obj p is e = rw (to_port-ok st obj p is, e) refl

module _ (files : Files) (closes : Closes files) (st : State) (obj : Obj) (p : Port)
    (is : IsPort st obj p) where
  closed_st : List (ℕ × ℕ) → State
  closed_st out =
      with_cell (record st { output = out }) (to_cell obj)
        (record { info = is.info; value = port (record p { fp = none }) })

  closed_st-IsPort : (out : List (ℕ × ℕ)) → IsPort (closed_st out) obj (record p { fp = none })
  unfolding closed_st
  closed_st-IsPort out = record {
    info = is.info;
    cell = is.cell;
    address = is.address;
    holds = with_cell_self (record st { output = out }) (to_cell obj) _;
    type = is.type;
  }

  run_open :
      (fp : ℕ)
      → p.fp ≡ some fp
      → (out : List (ℕ × ℕ)) × (close_port files obj st ≡ ok tt (closed_st out))
  unfolding Closes close_port closed_st
  run_open fp at =
      let (out, e) = closes fp st in
      (
        out,
        rw (to_port-ok st obj p is, at, e)
            (put-ok (record st { output = out }) (to_cell obj) is.holds _),
      )

  others_kept :
      (out : List (ℕ × ℕ)) (q : ℕ) → (q == to_cell obj) ≡ false → (closed_st out).heap q ≡ st.heap q
  unfolding closed_st
  others_kept out q ne = rw ne refl

  shut_before : p.fp ≡ none → Closed files st obj p
  shut_before e = record {
    after = st;
    run = close-closed files st obj p is e;
    port = record {
      info = is.info;
      cell = is.cell;
      address = is.address;
      holds =
          is.holds
          ∙ ap
              (λ (fp : Option ℕ).
                some (record { info = is.info; value = port (record p { fp = fp }) }))
              e;
      type = is.type;
    };
    again = close-closed files st obj p is e;
    others = λ q ne. refl;
  }

  open_before : (fp : ℕ) → p.fp ≡ some fp → Closed files st obj p
  open_before fp e =
      let (out, run) = run_open fp e in
      record {
        after = closed_st out;
        run = run;
        port = closed_st-IsPort out;
        again = close-closed files (closed_st out) obj _ (closed_st-IsPort out) refl;
        others = others_kept out;
      }

  -- Closing a port that is open or closed leaves it closed, with its mode, and no other cell changed;
  -- closing it again does nothing. `fclose` is taken to touch no memory of the interpreter.
  pub close_port-Closed : Closed files st obj p
  close_port-Closed =
      elim p.fp as (λ o. p.fp ≡ o → Closed files st obj p) [
        | none ↦ shut_before
        | some fp ↦ open_before fp
      ]
        refl
