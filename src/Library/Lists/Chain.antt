-- ===== src/Library/Lists/Chain.antt =====
-- list_length and is_list on a list in the heap.
use quuz.Prelude.{
  ℕ, zero, suc, ◌+◌, ◌<◌, ◌≡◌, refl, ap, inl, inr, ◌∙◌, false, none, some, List, [], ◌∷◌, length,
  if◌then◌else◌, arith, Bool-cases,
}
use quuz.Object.Tag.{Obj, is_null, is_cell, to_cell}
use quuz.Object.CellType
use quuz.Machine.Store.{State}
use quuz.Machine.Outcome.{ok}
use quuz.Machine.Cell.{cell_of_type}
use quuz.Machine.Chain.{IsPairAt, IsChain, is_pair-ok, rest-ok}
use quuz.Library.Lists.{list_length_loop, list_length, is_list_loop, is_list}

null-apart : (st : State) (obj front back : Obj) → IsPairAt st obj front back → is_null obj ≡ false
unfolding is_null is_cell to_cell
null-apart st obj front back at = ground (arith, at.cell, at.present)

module _ (st : State) (last : Obj) (ends : cell_of_type last CellType.pair st ≡ ok false st) where
  list_length_loop-chain :
      (n len : ℕ) (obj : Obj) (xs : List Obj)
      → IsChain st obj xs last
      → length xs < n
      → list_length_loop n len obj st
        ≡ ok (if is_null last then some (len + length xs) else none) st
  unfolding list_length_loop
  list_length_loop-chain zero len obj xs c h = absurd (omega arith)
  list_length_loop-chain (suc n) len obj [] c h = elim (Bool-cases (is_null last)) [
    | inl t ↦ rw (c, t) (ap (λ (k : ℕ). ok (some k) st) (omega arith))
    | inr f ↦ rw (c, f, ends) refl
  ]
  list_length_loop-chain (suc n) len obj (x ∷ xs) (next, at, c) h =
      let run = list_length_loop-chain n (len + 1) next xs c (omega arith) in
      let same : len + 1 + length xs ≡ len + length (x ∷ xs) = omega arith in
      rw (null-apart st obj x next at, is_pair-ok st obj x next at, rest-ok st obj x next at)
        (run ∙ ap (λ (k : ℕ). ok (if is_null last then some k else none) st) same)

  is_list_loop-chain :
      (n : ℕ) (obj : Obj) (xs : List Obj)
      → IsChain st obj xs last
      → length xs < n
      → is_list_loop n obj st ≡ ok (is_null last) st
  unfolding is_list_loop
  is_list_loop-chain zero obj xs c h = absurd (omega arith)
  is_list_loop-chain (suc n) obj [] c h = elim (Bool-cases (is_null last)) [
    | inl t ↦ rw (c, t) refl
    | inr f ↦ rw (c, f, ends) refl
  ]
  is_list_loop-chain (suc n) obj (x ∷ xs) (next, at, c) h =
      rw (null-apart st obj x next at, is_pair-ok st obj x next at, rest-ok st obj x next at)
        (is_list_loop-chain n next xs c (omega arith))

  -- On a list of pairs that ends in `last`, which is no pair, both loops end: list_length gives the
  -- number of pairs if `last` is the empty list and else -1, and is_list tells which of the two it is.
  -- The list is shorter than the heap is large.
  pub list_length-chain :
      (obj : Obj) (xs : List Obj)
      → IsChain st obj xs last
      → length xs < st.brk
      → (list_length obj st ≡ ok (if is_null last then some (length xs) else none) st)
        × (is_list obj st ≡ ok (is_null last) st)
  unfolding list_length is_list
  list_length-chain obj xs c h = (
    list_length_loop-chain st.brk 0 obj xs c h
        ∙ ap (λ (k : ℕ). ok (if is_null last then some k else none) st) (omega arith),
    is_list_loop-chain st.brk obj xs c h,
  )
