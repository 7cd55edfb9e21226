-- ===== src/Library/Chars.antt =====
-- quuz-lib.c, section 6.6, and symbols, section 6.5. A `char` is a byte; the functions of ctype.h are
-- a parameter.
pub mod Order
use quuz.Prelude.{ℕ, ◌+◌, ◌-◌, ◌%◌, ◌^◌, Bool, none, some, [], ◌∷◌, ltb, ◌==◌, if◌then◌else◌}
use quuz.Object.Tag.{Obj, qz_false, is_char, is_sym, to_char, to_fixnum, from_char, from_fixnum}
use quuz.Machine.Outcome.{M, pure, ◌>>=◌, ◌>>◌, crash, gets, assert}
use quuz.Machine.Cell.{is_string}
use quuz.Collector.{ref, unref}
use quuz.Hash.{CityHash, hash_get, read_slot}
use quuz.Symbol.{make_sym}
use quuz.Runtime.{required_arg}
use quuz.Eval.{Cfun}
use quuz.Eval.Args.{get_arg, required, sym, char, fixnum}
use quuz.Eval.Args.{Kind}
use quuz.Library.Numbers.{
  Flags, bool_obj, predicate, compare_many, eq_flags, lt_flags, gt_flags, lte_flags, gte_flags,
}

-- The functions of ctype.h and string.h. The result of `tolower` and `memcmp` is an `int`, a pattern
-- of 32 bits.
pub record CType : Type 0 where
  pub tolower : ℕ → ℕ
  pub toupper : ℕ → ℕ
  pub isalpha : ℕ → Bool
  pub isdigit : ℕ → Bool
  pub isspace : ℕ → Bool
  pub isupper : ℕ → Bool
  pub islower : ℕ → Bool

unfoldable pub scm_symbol_q : Cfun → Cfun
unfolding predicate
scm_symbol_q ev = predicate ev (λ x. pure (is_sym x))

module _ ⦃city : CityHash⦄ where
  unfoldable pub scm_symbol_a_string : Cfun → Cfun
  unfolding get_arg hash_get read_slot ref
  scm_symbol_a_string ev args = do
    (name, _) ← get_arg ev (required sym) args
    names ← gets (λ st. st.sym_name)
    slot ← hash_get names name
    elim slot [ none ↦ crash | some s ↦ do str ← read_slot s; b ← is_string str; assert b; ref str ]

  unfoldable pub scm_string_a_symbol : Cfun → Cfun
  unfolding get_arg make_sym
  scm_string_a_symbol ev args = do (str, _) ← get_arg ev (required Kind.string) args; make_sym str

-- `a.value - b.value` as an `int`
unfoldable pub compare_char : Obj → Obj → ℕ
compare_char a b = (a + 2 ^ 64 - b) % 2 ^ 64 % 2 ^ 32

unfoldable pub compare_char_ci : CType → Obj → Obj → ℕ
unfolding to_char
compare_char_ci ct a b = (ct.tolower (to_char a) + 2 ^ 32 - ct.tolower (to_char b)) % 2 ^ 32

unfoldable pub scm_char_q : Cfun → Cfun
unfolding predicate
scm_char_q ev = predicate ev (λ x. pure (is_char x))

abbrev pub compare_chars : Flags → Cfun → ℕ → Cfun
compare_chars flags ev n =
    compare_many ev (λ x. pure (is_char x)) (λ a b. pure (compare_char a b)) flags n

abbrev pub compare_chars_ci : CType → Flags → Cfun → ℕ → Cfun
compare_chars_ci ct flags ev n =
    compare_many ev (λ x. pure (is_char x)) (λ a b. pure (compare_char_ci ct a b)) flags n

unfoldable pub scm_char_eq_q : Cfun → ℕ → Cfun
unfolding compare_many compare_char
scm_char_eq_q = compare_chars eq_flags

unfoldable pub scm_char_lt_q : Cfun → ℕ → Cfun
unfolding compare_many compare_char
scm_char_lt_q = compare_chars lt_flags

unfoldable pub scm_char_gt_q : Cfun → ℕ → Cfun
unfolding compare_many compare_char
scm_char_gt_q = compare_chars gt_flags

unfoldable pub scm_char_lte_q : Cfun → ℕ → Cfun
unfolding compare_many compare_char
scm_char_lte_q = compare_chars lte_flags

unfoldable pub scm_char_gte_q : Cfun → ℕ → Cfun
unfolding compare_many compare_char
scm_char_gte_q = compare_chars gte_flags

unfoldable pub scm_char_ci_eq_q : CType → Cfun → ℕ → Cfun
unfolding compare_many compare_char_ci
scm_char_ci_eq_q ct = compare_chars_ci ct eq_flags

unfoldable pub scm_char_ci_lt_q : CType → Cfun → ℕ → Cfun
unfolding compare_many compare_char_ci
scm_char_ci_lt_q ct = compare_chars_ci ct lt_flags

unfoldable pub scm_char_ci_gt_q : CType → Cfun → ℕ → Cfun
unfolding compare_many compare_char_ci
scm_char_ci_gt_q ct = compare_chars_ci ct gt_flags

unfoldable pub scm_char_ci_lte_q : CType → Cfun → ℕ → Cfun
unfolding compare_many compare_char_ci
scm_char_ci_lte_q ct = compare_chars_ci ct lte_flags

unfoldable pub scm_char_ci_gte_q : CType → Cfun → ℕ → Cfun
unfolding compare_many compare_char_ci
scm_char_ci_gte_q ct = compare_chars_ci ct gte_flags

-- A value that is no char is released.
unfoldable pub inner_char_predicate : Cfun → (ℕ → Bool) → Cfun
unfolding required_arg unref to_char
inner_char_predicate ev cpf args = do
  (expr, _) ← required_arg args
  value ← ev expr
  if is_char value then pure (bool_obj (cpf (to_char value))) else do unref value; pure qz_false

unfoldable pub scm_char_alphabetic_q : CType → Cfun → Cfun
unfolding inner_char_predicate
scm_char_alphabetic_q ct ev = inner_char_predicate ev ct.isalpha

unfoldable pub scm_char_numeric_q : CType → Cfun → Cfun
unfolding inner_char_predicate
scm_char_numeric_q ct ev = inner_char_predicate ev ct.isdigit

unfoldable pub scm_char_whitespace_q : CType → Cfun → Cfun
unfolding inner_char_predicate
scm_char_whitespace_q ct ev = inner_char_predicate ev ct.isspace

unfoldable pub scm_char_upper_case_q : CType → Cfun → Cfun
unfolding inner_char_predicate
scm_char_upper_case_q ct ev = inner_char_predicate ev ct.isupper

unfoldable pub scm_char_lower_case_q : CType → Cfun → Cfun
unfolding inner_char_predicate
scm_char_lower_case_q ct ev = inner_char_predicate ev ct.islower

-- `ch - '0'`, an `int` widened with its sign
abbrev digit_of : ℕ → ℕ
digit_of ch = if ltb ch 128 then (ch + 2 ^ 64 - 48) % 2 ^ 64 else (ch + (2 ^ 64 - 256)) - 48

unfoldable pub scm_digit_value : CType → Cfun → Cfun
unfolding required_arg unref to_char from_fixnum
scm_digit_value ct ev args = do
  (expr, _) ← required_arg args
  value ← ev expr
  if is_char value
      then pure
          (if ct.isdigit (to_char value) then from_fixnum (digit_of (to_char value)) else qz_false)
      else do unref value; pure qz_false

-- A `char` widened with its sign.
abbrev widened : ℕ → ℕ
widened c = if ltb c 128 then c else c + (2 ^ 64 - 256)

unfoldable pub scm_char_a_integer : Cfun → Cfun
unfolding get_arg from_fixnum to_char
scm_char_a_integer ev args = do
  (value, _) ← get_arg ev (required char) args
  pure (from_fixnum (widened (to_char value)))

unfoldable pub scm_integer_a_char : Cfun → Cfun
unfolding get_arg from_char to_fixnum
scm_integer_a_char ev args = do
  (value, _) ← get_arg ev (required fixnum) args
  pure (from_char (to_fixnum value))
