-- ===== src/Library/Table/Arrays.antt =====
-- A part of QZ_LIB_FUNCTIONS of quuz-lib.c. Sections 6.7 to 6.9: strings, vectors and bytevectors.
use quuz.Prelude.{List, [], ◌∷◌}
use quuz.Prelude.Text.{codes}
use quuz.Hash.{CityHash}
use quuz.Library.Table.{Host, Entry}
use quuz.Library.Arrays.{
  scm_bytevector_u8_ref, scm_bytevector_u8_set_b, scm_string_a_list, scm_string_a_vector,
  scm_string_ref, scm_string_set_b, scm_vector_a_list, scm_vector_a_string, scm_vector_ref,
  scm_vector_set_b,
}
use quuz.Library.Predicates.{scm_bytevector_length, scm_string_length, scm_vector_length}
use quuz.Library.Strings.{
  scm_list_a_string, scm_make_string, scm_string_ci_eq_q, scm_string_ci_gt_q, scm_string_ci_gte_q,
  scm_string_ci_lt_q, scm_string_ci_lte_q, scm_string_copy, scm_string_downcase, scm_string_eq_q,
  scm_string_gt_q, scm_string_gte_q, scm_string_lt_q, scm_string_lte_q, scm_string_q,
  scm_string_upcase, scm_substring,
}
use quuz.Library.Vectors.{
  scm_bytevector_q, scm_list_a_vector, scm_make_bytevector, scm_make_vector, scm_vector_copy,
  scm_vector_q,
}

unfoldable pub array_functions : ⦃city : CityHash⦄ → Host → List Entry
unfolding scm_bytevector_length scm_bytevector_q scm_bytevector_u8_ref scm_bytevector_u8_set_b
    scm_list_a_string scm_list_a_vector scm_make_bytevector scm_make_string scm_make_vector
    scm_string_a_list scm_string_a_vector scm_string_ci_eq_q scm_string_ci_gt_q scm_string_ci_gte_q
    scm_string_ci_lt_q scm_string_ci_lte_q scm_string_copy scm_string_downcase scm_string_eq_q
    scm_string_gt_q scm_string_gte_q scm_string_length scm_string_lt_q scm_string_lte_q scm_string_q
    scm_string_ref scm_string_set_b scm_string_upcase scm_substring scm_vector_a_list
    scm_vector_a_string scm_vector_copy scm_vector_length scm_vector_q scm_vector_ref
    scm_vector_set_b
array_functions host =
    record { name = codes "string?"; function = λ ev _. scm_string_q ev }
    ∷ record { name = codes "make-string"; function = λ ev _. scm_make_string host.memory ev }
    ∷ record { name = codes "string-length"; function = λ ev _. scm_string_length ev }
    ∷ record { name = codes "string-ref"; function = λ ev _. scm_string_ref ev }
    ∷ record { name = codes "string-set!"; function = λ ev _. scm_string_set_b ev }
    ∷ record { name = codes "string=?"; function = λ ev n. scm_string_eq_q host.memcmp ev n }
    ∷ record { name = codes "string-ci=?"; function = λ ev n. scm_string_ci_eq_q host.ctype ev n }
    ∷ record { name = codes "string<?"; function = λ ev n. scm_string_lt_q host.memcmp ev n }
    ∷ record { name = codes "string-ci<?"; function = λ ev n. scm_string_ci_lt_q host.ctype ev n }
    ∷ record { name = codes "string>?"; function = λ ev n. scm_string_gt_q host.memcmp ev n }
    ∷ record { name = codes "string-ci>?"; function = λ ev n. scm_string_ci_gt_q host.ctype ev n }
    ∷ record { name = codes "string<=?"; function = λ ev n. scm_string_lte_q host.memcmp ev n }
    ∷ record { name = codes "string-ci<=?"; function = λ ev n. scm_string_ci_lte_q host.ctype ev n }
    ∷ record { name = codes "string>=?"; function = λ ev n. scm_string_gte_q host.memcmp ev n }
    ∷ record { name = codes "string-ci>=?"; function = λ ev n. scm_string_ci_gte_q host.ctype ev n }
    ∷ record { name = codes "string-upcase"; function = λ ev _. scm_string_upcase host.ctype ev }
    ∷ record {
      name = codes "string-downcase";
      function = λ ev _. scm_string_downcase host.ctype ev;
    }
    ∷ record { name = codes "substring"; function = λ ev _. scm_substring ev }
    ∷ record { name = codes "string->list"; function = λ ev _. scm_string_a_list ev }
    ∷ record { name = codes "list->string"; function = λ ev _. scm_list_a_string ev }
    ∷ record { name = codes "string-copy"; function = λ ev _. scm_string_copy ev }
    ∷ record { name = codes "vector?"; function = λ ev _. scm_vector_q ev }
    ∷ record { name = codes "make-vector"; function = λ ev _. scm_make_vector host.memory ev }
    ∷ record { name = codes "vector-length"; function = λ ev _. scm_vector_length ev }
    ∷ record { name = codes "vector-ref"; function = λ ev _. scm_vector_ref ev }
    ∷ record { name = codes "vector-set!"; function = λ ev _. scm_vector_set_b ev }
    ∷ record { name = codes "vector->list"; function = λ ev _. scm_vector_a_list ev }
    ∷ record { name = codes "list->vector"; function = λ ev _. scm_list_a_vector ev }
    ∷ record { name = codes "vector->string"; function = λ ev _. scm_vector_a_string ev }
    ∷ record { name = codes "string->vector"; function = λ ev _. scm_string_a_vector ev }
    ∷ record { name = codes "vector-copy"; function = λ ev _. scm_vector_copy ev }
    ∷ record { name = codes "bytevector?"; function = λ ev _. scm_bytevector_q ev }
    ∷ record {
      name = codes "make-bytevector";
      function = λ ev _. scm_make_bytevector host.memory ev;
    }
    ∷ record { name = codes "bytevector-length"; function = λ ev _. scm_bytevector_length ev }
    ∷ record { name = codes "bytevector-u8-ref"; function = λ ev _. scm_bytevector_u8_ref ev }
    ∷ record { name = codes "bytevector-u8-set!"; function = λ ev _. scm_bytevector_u8_set_b ev }
    ∷ []
