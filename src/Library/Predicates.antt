-- ===== src/Library/Predicates.antt =====
-- The functions of quuz-lib.c that pass one C function on to a shared one: the tests of types, the
-- three equivalences, membership by each of them, and the lengths of arrays.
use quuz.Prelude.{ℕ, true, false}
use quuz.Object.Tag.{is_null, is_bool, is_eof}
use quuz.Machine.Outcome.{pure}
use quuz.Machine.Cell.{is_pair, is_error}
use quuz.Equal.{eq, eqv, qz_equal}
use quuz.Eval.{Cfun}
use quuz.Eval.Args.{Kind}
use quuz.Library.Numbers.{predicate, compare}
use quuz.Library.Lists.{is_list, inner_member, inner_assoc}
use quuz.Library.Arrays.{array_length}

unfoldable pub scm_eq_q : Cfun → Cfun
unfolding compare
scm_eq_q ev = compare ev (λ a b. pure (eq a b))

unfoldable pub scm_eqv_q : Cfun → Cfun
unfolding compare
scm_eqv_q ev = compare ev (λ a b. pure (eqv a b))

unfoldable pub scm_equal_q : Cfun → Cfun
unfolding compare
scm_equal_q ev = compare ev qz_equal

unfoldable pub scm_boolean_q : Cfun → Cfun
unfolding predicate
scm_boolean_q ev = predicate ev (λ obj. pure (is_bool obj))

unfoldable pub scm_pair_q : Cfun → Cfun
unfolding predicate
scm_pair_q ev = predicate ev is_pair

unfoldable pub scm_null_q : Cfun → Cfun
unfolding predicate
scm_null_q ev = predicate ev (λ obj. pure (is_null obj))

unfoldable pub scm_list_q : Cfun → Cfun
unfolding predicate
scm_list_q ev = predicate ev is_list

unfoldable pub scm_error_object_q : Cfun → Cfun
unfolding predicate
scm_error_object_q ev = predicate ev is_error

unfoldable pub scm_eof_object_q : Cfun → Cfun
unfolding predicate
scm_eof_object_q ev = predicate ev (λ obj. pure (is_eof obj))

unfoldable pub scm_memq : Cfun → ℕ → Cfun
unfolding inner_member
scm_memq ev n = inner_member ev (λ a b. pure (eq a b)) false n

unfoldable pub scm_memv : Cfun → ℕ → Cfun
unfolding inner_member
scm_memv ev n = inner_member ev (λ a b. pure (eqv a b)) false n

unfoldable pub scm_member : Cfun → ℕ → Cfun
unfolding inner_member
scm_member ev n = inner_member ev qz_equal true n

unfoldable pub scm_assq : Cfun → ℕ → Cfun
unfolding inner_assoc
scm_assq ev n = inner_assoc ev (λ a b. pure (eq a b)) false n

unfoldable pub scm_assv : Cfun → ℕ → Cfun
unfolding inner_assoc
scm_assv ev n = inner_assoc ev (λ a b. pure (eqv a b)) false n

unfoldable pub scm_assoc : Cfun → ℕ → Cfun
unfolding inner_assoc
scm_assoc ev n = inner_assoc ev qz_equal true n

unfoldable pub scm_string_length : Cfun → Cfun
unfolding array_length
scm_string_length ev = array_length ev Kind.string

unfoldable pub scm_vector_length : Cfun → Cfun
unfolding array_length
scm_vector_length ev = array_length ev Kind.vector

unfoldable pub scm_bytevector_length : Cfun → Cfun
unfolding array_length
scm_bytevector_length ev = array_length ev Kind.bytevector
