-- ===== src/Library/Strings/Compare.antt =====
-- compare_string of quuz-lib.c with memicmp: the order of string-ci<? and its like.
use quuz.Prelude.{ℕ, ◌+◌, ◌-◌, ◌%◌, ◌^◌, List, [], ◌∷◌, ltb, ◌==◌, if◌then◌else◌}

-- The dictionary order: by the first place at which two texts differ, and a text comes before its
-- continuations. LESS is 1, EQUAL 2 and GREATER 4.
abbrev pub text_order : (s t : List ℕ) → ℕ
text_order [] [] = 2
text_order [] (b ∷ t) = 1
text_order (a ∷ s) [] = 4
text_order (a ∷ s) (b ∷ t) = if a == b then text_order s t else if ltb a b then 1 else 4

-- What compare_string returns for the result of the comparison of the chars and the two lengths.
abbrev by_length : (cmp m n : ℕ) → ℕ
by_length cmp m n = if cmp == 0 then (m + 2 ^ 64 - n) % 2 ^ 64 % 2 ^ 32 else cmp

-- A char of each text, after which the comparison of what is left is `rest`.
abbrev by_char : (x y rest : ℕ) → ℕ
by_char x y rest = let d = (x + 2 ^ 32 - y) % 2 ^ 32 in if d == 0 then rest else d
