-- ===== src/Library/Table/Lists.antt =====
-- A part of QZ_LIB_FUNCTIONS of quuz-lib.c. Sections 6.4 to 6.6: pairs and lists, symbols and chars.
use quuz.Prelude.{List, [], ◌∷◌}
use quuz.Prelude.Text.{codes}
use quuz.Hash.{CityHash}
use quuz.Library.Table.{Host, Entry}
use quuz.Library.Chars.{
  scm_char_a_integer, scm_char_alphabetic_q, scm_char_ci_eq_q, scm_char_ci_gt_q, scm_char_ci_gte_q,
  scm_char_ci_lt_q, scm_char_ci_lte_q, scm_char_eq_q, scm_char_gt_q, scm_char_gte_q,
  scm_char_lower_case_q, scm_char_lt_q, scm_char_lte_q, scm_char_numeric_q, scm_char_q,
  scm_char_upper_case_q, scm_char_whitespace_q, scm_digit_value, scm_integer_a_char,
  scm_string_a_symbol, scm_symbol_a_string, scm_symbol_q,
}
use quuz.Library.Lists.{
  scm_car, scm_cdr, scm_cons, scm_length, scm_list, scm_list_copy, scm_list_ref, scm_list_set_b,
  scm_list_tail, scm_make_list, scm_reverse, scm_set_car_b, scm_set_cdr_b,
}
use quuz.Library.Predicates.{
  scm_assoc, scm_assq, scm_assv, scm_list_q, scm_member, scm_memq, scm_memv, scm_null_q, scm_pair_q,
}

unfoldable pub list_functions : ⦃city : CityHash⦄ → Host → List Entry
unfolding scm_assoc scm_assq scm_assv scm_car scm_cdr scm_char_a_integer scm_char_alphabetic_q
    scm_char_ci_eq_q scm_char_ci_gt_q scm_char_ci_gte_q scm_char_ci_lt_q scm_char_ci_lte_q
    scm_char_eq_q scm_char_gt_q scm_char_gte_q scm_char_lower_case_q scm_char_lt_q scm_char_lte_q
    scm_char_numeric_q scm_char_q scm_char_upper_case_q scm_char_whitespace_q scm_cons
    scm_digit_value scm_integer_a_char scm_length scm_list scm_list_copy scm_list_q scm_list_ref
    scm_list_set_b scm_list_tail scm_make_list scm_member scm_memq scm_memv scm_null_q scm_pair_q
    scm_reverse scm_set_car_b scm_set_cdr_b scm_string_a_symbol scm_symbol_a_string scm_symbol_q
list_functions host =
    record { name = codes "pair?"; function = λ ev _. scm_pair_q ev }
    ∷ record { name = codes "cons"; function = λ ev _. scm_cons ev }
    ∷ record { name = codes "car"; function = λ ev _. scm_car ev }
    ∷ record { name = codes "cdr"; function = λ ev _. scm_cdr ev }
    ∷ record { name = codes "set-car!"; function = λ ev _. scm_set_car_b ev }
    ∷ record { name = codes "set-cdr!"; function = λ ev _. scm_set_cdr_b ev }
    ∷ record { name = codes "null?"; function = λ ev _. scm_null_q ev }
    ∷ record { name = codes "list?"; function = λ ev _. scm_list_q ev }
    ∷ record { name = codes "make-list"; function = λ ev _. scm_make_list ev }
    ∷ record { name = codes "list"; function = scm_list }
    ∷ record { name = codes "length"; function = λ ev _. scm_length ev }
    ∷ record { name = codes "reverse"; function = λ ev _. scm_reverse ev }
    ∷ record { name = codes "list-tail"; function = λ ev _. scm_list_tail ev }
    ∷ record { name = codes "list-ref"; function = λ ev _. scm_list_ref ev }
    ∷ record { name = codes "list-set!"; function = λ ev _. scm_list_set_b ev }
    ∷ record { name = codes "memq"; function = scm_memq }
    ∷ record { name = codes "memv"; function = scm_memv }
    ∷ record { name = codes "member"; function = scm_member }
    ∷ record { name = codes "assq"; function = scm_assq }
    ∷ record { name = codes "assv"; function = scm_assv }
    ∷ record { name = codes "assoc"; function = scm_assoc }
    ∷ record { name = codes "list-copy"; function = λ ev _. scm_list_copy ev }
    ∷ record { name = codes "symbol?"; function = λ ev _. scm_symbol_q ev }
    ∷ record { name = codes "symbol->string"; function = λ ev _. scm_symbol_a_string ev }
    ∷ record { name = codes "string->symbol"; function = λ ev _. scm_string_a_symbol ev }
    ∷ record { name = codes "char?"; function = λ ev _. scm_char_q ev }
    ∷ record { name = codes "char=?"; function = scm_char_eq_q }
    ∷ record { name = codes "char<?"; function = scm_char_lt_q }
    ∷ record { name = codes "char>?"; function = scm_char_gt_q }
    ∷ record { name = codes "char<=?"; function = scm_char_lte_q }
    ∷ record { name = codes "char>=?"; function = scm_char_gte_q }
    ∷ record { name = codes "char-ci=?"; function = λ ev n. scm_char_ci_eq_q host.ctype ev n }
    ∷ record { name = codes "char-ci<?"; function = λ ev n. scm_char_ci_lt_q host.ctype ev n }
    ∷ record { name = codes "char-ci>?"; function = λ ev n. scm_char_ci_gt_q host.ctype ev n }
    ∷ record { name = codes "char-ci<=?"; function = λ ev n. scm_char_ci_lte_q host.ctype ev n }
    ∷ record { name = codes "char-ci>=?"; function = λ ev n. scm_char_ci_gte_q host.ctype ev n }
    ∷ record {
      name = codes "char-alphabetic?";
      function = λ ev _. scm_char_alphabetic_q host.ctype ev;
    }
    ∷ record { name = codes "char-numeric?"; function = λ ev _. scm_char_numeric_q host.ctype ev }
    ∷ record {
      name = codes "char-whitespace?";
      function = λ ev _. scm_char_whitespace_q host.ctype ev;
    }
    ∷ record {
      name = codes "char-upper-case?";
      function = λ ev _. scm_char_upper_case_q host.ctype ev;
    }
    ∷ record {
      name = codes "char-lower-case?";
      function = λ ev _. scm_char_lower_case_q host.ctype ev;
    }
    ∷ record { name = codes "digit-value"; function = λ ev _. scm_digit_value host.ctype ev }
    ∷ record { name = codes "char->integer"; function = λ ev _. scm_char_a_integer ev }
    ∷ record { name = codes "integer->char"; function = λ ev _. scm_integer_a_char ev }
    ∷ []
