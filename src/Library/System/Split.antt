-- ===== src/Library/System/Split.antt =====
-- How scm_get_environment_variables of quuz-lib.c splits the texts of `environ`.
use quuz.Prelude.{
  ℕ, ◌≡◌, ap, refl, false, Bool-cases, inl, inr, Option, none, some, List, [], ◌∷◌, ◌++◌, ◌==◌,
  ==_iff,
}
use quuz.Library.Files.{contains}
use quuz.Library.System.{split_at_sep}

-- A text without `=`, or the parts before and after the first `=` of it.
pub SplitsAt : List ℕ → Option (List ℕ × List ℕ) → Type 0
SplitsAt e none = contains e b'=' ≡ false
SplitsAt e (some (key, value)) = (e ≡ key ++ b'=' ∷ value) × (contains key b'=' ≡ false)

add_char-SplitsAt :
    (c : ℕ) (e : List ℕ) (o : Option (List ℕ × List ℕ))
    → (c == b'=') ≡ false
    → SplitsAt e o
    → SplitsAt (c ∷ e) (elim o as (λ x. Option (List ℕ × List ℕ)) [
      | none ↦ none
      | some (key, value) ↦ some (c ∷ key, value)
    ])
unfolding SplitsAt contains
add_char-SplitsAt c e none ne h = rw ne h
add_char-SplitsAt c e (some (key, value)) ne (parts, key_clean) =
    (ap (λ x. c ∷ x) parts, rw ne key_clean)

-- A text of the environment is split at its first `=`: what is before it, with no `=` in it, and what
-- is after it; a text without `=` is passed over.
pub split_at_sep-SplitsAt : (e : List ℕ) → SplitsAt e (split_at_sep e)
unfolding SplitsAt split_at_sep contains
split_at_sep-SplitsAt [] = refl
split_at_sep-SplitsAt (c ∷ e) = elim (Bool-cases (c == b'=')) [
  | inl found ↦ rw found (ap (λ x. x ∷ e) ((==_iff c b'=').0 found), refl)
  | inr ne ↦ rw ne (add_char-SplitsAt c e (split_at_sep e) ne (split_at_sep-SplitsAt e))
]
