-- ===== src/Library/Table/Core.antt =====
-- A part of QZ_LIB_FUNCTIONS of quuz-lib.c. Sections 4 to 6.3 of the report: syntax, definitions, equivalence, numbers and booleans.
use quuz.Prelude.{List, [], ◌∷◌}
use quuz.Prelude.Text.{codes}
use quuz.Hash.{CityHash}
use quuz.Library.Table.{Host, Entry}
use quuz.Library.Binding.{scm_define, scm_delay, scm_eager, scm_force, scm_lazy, scm_let, scm_let_s}
use quuz.Library.Numbers.{
  scm_not, scm_num_add, scm_num_eq, scm_num_gt, scm_num_gte, scm_num_lt, scm_num_lte, scm_num_mul,
  scm_num_sub,
}
use quuz.Library.Predicates.{scm_boolean_q, scm_eq_q, scm_equal_q, scm_eqv_q}
use quuz.Library.Quasi.{scm_quasiquote, scm_unquote}
use quuz.Library.Records.{scm_define_record_type}
use quuz.Library.Syntax.{
  scm_and, scm_begin, scm_case, scm_cond, scm_if, scm_lambda, scm_or, scm_quote, scm_set_b,
  scm_unless, scm_when,
}

unfoldable pub core_functions : ⦃city : CityHash⦄ → Host → List Entry
unfolding scm_and scm_begin scm_boolean_q scm_case scm_cond scm_define scm_define_record_type
    scm_delay scm_eager scm_eq_q scm_equal_q scm_eqv_q scm_force scm_if scm_lambda scm_lazy scm_let
    scm_let_s scm_not scm_num_add scm_num_eq scm_num_gt scm_num_gte scm_num_lt scm_num_lte
    scm_num_mul scm_num_sub scm_or scm_quasiquote scm_quote scm_set_b scm_unless scm_unquote
    scm_when
core_functions host =
    record { name = codes "quote"; function = λ _ _. scm_quote }
    ∷ record { name = codes "lambda"; function = λ _ _. scm_lambda }
    ∷ record { name = codes "if"; function = λ ev _. scm_if ev }
    ∷ record { name = codes "set!"; function = λ ev _. scm_set_b ev }
    ∷ record { name = codes "cond"; function = scm_cond }
    ∷ record { name = codes "case"; function = scm_case }
    ∷ record { name = codes "and"; function = scm_and }
    ∷ record { name = codes "or"; function = scm_or }
    ∷ record { name = codes "when"; function = scm_when }
    ∷ record { name = codes "unless"; function = scm_unless }
    ∷ record { name = codes "let"; function = scm_let }
    ∷ record { name = codes "let*"; function = scm_let_s }
    ∷ record { name = codes "begin"; function = scm_begin }
    ∷ record { name = codes "delay"; function = λ _ _. scm_delay }
    ∷ record { name = codes "lazy"; function = λ ev _. scm_lazy ev }
    ∷ record { name = codes "force"; function = λ ev _. scm_force ev }
    ∷ record { name = codes "eager"; function = λ ev _. scm_eager ev }
    ∷ record { name = codes "quasiquote"; function = scm_quasiquote }
    ∷ record { name = codes "unquote"; function = λ ev _. scm_unquote ev }
    ∷ record { name = codes "define"; function = λ ev _. scm_define ev }
    ∷ record {
      name = codes "define-record-type";
      function = λ _ _. scm_define_record_type host.record_funs;
    }
    ∷ record { name = codes "eq?"; function = λ ev _. scm_eq_q ev }
    ∷ record { name = codes "eqv?"; function = λ ev _. scm_eqv_q ev }
    ∷ record { name = codes "equal?"; function = λ ev _. scm_equal_q ev }
    ∷ record { name = codes "="; function = scm_num_eq }
    ∷ record { name = codes "<"; function = scm_num_lt }
    ∷ record { name = codes ">"; function = scm_num_gt }
    ∷ record { name = codes "<="; function = scm_num_lte }
    ∷ record { name = codes ">="; function = scm_num_gte }
    ∷ record { name = codes "+"; function = scm_num_add }
    ∷ record { name = codes "*"; function = scm_num_mul }
    ∷ record { name = codes "-"; function = scm_num_sub }
    ∷ record { name = codes "not"; function = λ ev _. scm_not ev }
    ∷ record { name = codes "boolean?"; function = λ ev _. scm_boolean_q ev }
    ∷ []
