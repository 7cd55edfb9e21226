-- ===== src/Library/Table/Control.antt =====
-- A part of QZ_LIB_FUNCTIONS of quuz-lib.c. Sections 6.10 to 6.12: control, exceptions and environments.
use quuz.Prelude.{List, [], ◌∷◌}
use quuz.Prelude.Text.{codes}
use quuz.Hash.{CityHash}
use quuz.Library.Table.{Host, Entry}
use quuz.Library.Control.{
  scm_apply, scm_error, scm_error_object_irritants, scm_error_object_message, scm_eval, scm_raise,
  scm_with_exception_handler,
}
use quuz.Library.Predicates.{scm_error_object_q}
use quuz.Library.Vectors.{scm_procedure_q}

unfoldable pub control_functions : ⦃city : CityHash⦄ → Host → List Entry
unfolding scm_apply scm_error scm_error_object_irritants scm_error_object_message scm_error_object_q
    scm_eval scm_procedure_q scm_raise scm_with_exception_handler
control_functions host =
    record { name = codes "procedure?"; function = λ ev _. scm_procedure_q ev }
    ∷ record { name = codes "apply"; function = scm_apply }
    ∷ record {
      name = codes "with-exception-handler";
      function = λ ev n. scm_with_exception_handler host.failsafe ev n;
    }
    ∷ record { name = codes "raise"; function = λ ev _. scm_raise ev }
    ∷ record { name = codes "error"; function = scm_error }
    ∷ record { name = codes "error-object?"; function = λ ev _. scm_error_object_q ev }
    ∷ record { name = codes "error-object-message"; function = λ ev _. scm_error_object_message ev }
    ∷ record {
      name = codes "error-object-irritants";
      function = λ ev _. scm_error_object_irritants ev;
    }
    ∷ record { name = codes "eval"; function = λ ev _. scm_eval ev }
    ∷ []
