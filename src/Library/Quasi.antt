-- ===== src/Library/Quasi.antt =====
-- quuz-lib.c, section 4.2.8: quasiquotation. The recursion is on fuel; the functions that qq calls
-- take the recursive call `again`. `depth` is not 0 where they subtract from it, for qq evaluates
-- there.
use quuz.Prelude.{
  ℕ, zero, suc, ◌+◌, ◌-◌, Bool, true, false, not, ◌&&◌, none, some, [], ◌∷◌, ◌++◌, get_elem?, ◌==◌,
  if◌then◌else◌,
}
use quuz.Prelude.Text.{codes}
use quuz.Object.Tag.{Obj, qz_null, is_null, to_cell, from_cell}
use quuz.Object.CellType
use quuz.Machine.Store.{objs}
use quuz.Machine.Outcome.{out_of_fuel, M, pure, ◌>>=◌, ◌>>◌, crash, gets, skip}
use quuz.Machine.Cell.{is_pair, is_vector, make_cell, make_pair, first, rest, set_rest, put}
use quuz.Machine.Array.{size_at, objs_at}
use quuz.Collector.{ref}
use quuz.Equal.{eqv}
use quuz.Runtime.{push_safety, pop_safety, qz_error}
use quuz.Eval.{Cfun}
use quuz.Library.Lists.{list_length}

-- `list_tail`: the last pair.
unfoldable pub end_pair : ℕ → Obj → M Obj
unfolding rest qz_error
end_pair zero obj st = out_of_fuel
end_pair (suc n) obj st =
    (do
      next ← rest obj
      if is_null next then pure obj else do
        p ← is_pair next
        (if p then end_pair n next else qz_error (codes "expected list") (next ∷ [])))
      st

-- A call of qq: an object and a depth.
abbrev pub Template : Type 0
Template = Obj → ℕ → M Obj

module _ (again : Template) where
  -- The object, and whether it is spliced.
  unfoldable pub qq_or_splice : Obj → ℕ → M (Obj × Bool)
  unfolding first rest
  qq_or_splice input depth = do
    pair ← is_pair input
    unquote_splicing_sym ← gets (λ st. st.unquote_splicing_sym)
    splice ← (if pair then (do f ← first input; pure (eqv f unquote_splicing_sym)) else pure false)
    (if splice
        then (do r ← rest input; x ← first r; out ← again x (depth - 1); pure (out, true))
        else (do out ← again input depth; pure (out, false)))

  -- The end of a list of templates: what `out` is linked to, if `input` ends the loop.
  unfoldable pub qq_end : (input out : Obj) → ℕ → M Bool
  unfolding set_rest first list_length
  qq_end input out depth = if is_null input then pure true else do
    pair ← is_pair input
    unquote_sym ← gets (λ st. st.unquote_sym)
    last ←
        (if not pair then pure true else do
          f ← first input
          (if eqv f unquote_sym
              then (do len ← list_length input; pure (elim len [ none ↦ false | some n ↦ n == 2 ]))
              else pure false))
    (if last then (do x ← again input depth; set_rest out x; pure true) else pure false)

  -- The loop of qq_list. `out` is not set before the first element that is kept: it is null here,
  -- which is no pair either.
  unfoldable pub qq_loop : ℕ → (obj input result out : Obj) → ℕ → M Obj
  unfolding qq_or_splice make_pair push_safety set_rest end_pair qq_end first rest
  qq_loop zero obj input result out depth st = out_of_fuel
  qq_loop (suc n) obj input result out depth st =
      (do
        (o, splice) ← qq_or_splice obj depth
        elem ← (if splice then pure o else make_pair o qz_null)
        (result', out') ←
            (if splice && is_null elem then pure (result, out) else do
              (if is_null result then push_safety elem else set_rest out elem)
              p ← is_pair elem
              fuel ← gets (λ st. st.brk)
              last ← (if p then end_pair fuel elem else pure elem)
              pure ((if is_null result then elem else result), last))
        done ← qq_end input out' depth
        (if done then pure result' else do
          obj' ← first input
          input' ← rest input
          qq_loop n obj' input' result' out' depth))
        st

  unfoldable pub qq_list : ℕ → Obj → ℕ → M Obj
  unfolding first rest qq_loop pop_safety
  qq_list n input depth = do
    obj ← first input
    input' ← rest input
    unquote_sym ← gets (λ st. st.unquote_sym)
    quote_sym ← gets (λ st. st.quote_sym)
    quasiquote_sym ← gets (λ st. st.quasiquote_sym)
    (if eqv obj unquote_sym
        then (do x ← first input'; again x (depth - 1))
        else if eqv obj quote_sym
        then (do x ← first input'; again x depth)
        else if eqv obj quasiquote_sym
        then (do x ← first input'; again x (depth + 1))
        else (do
          result ← qq_loop n obj input' qz_null qz_null depth
          (if is_null result then skip else pop_safety 1)
          pure result))

  -- The loop of qq_vector. The elements of the new vector that are not written yet are left out.
  unfoldable pub qq_elems : (in_cell out_cell rounds i depth : ℕ) → M (Unit {0})
  unfolding objs_at qq_or_splice put
  qq_elems in_cell out_cell zero i depth = skip
  qq_elems in_cell out_cell (suc rounds) i depth = do
    a ← objs_at in_cell
    elim (get_elem? a.1 i) [
      | none ↦ crash
      | some obj ↦ do
        (o, splice) ← qq_or_splice obj depth
        b ← objs_at out_cell
        put out_cell (objs b.0 (b.1 ++ o ∷ []))
    ]
    qq_elems in_cell out_cell rounds (i + 1) depth

  unfoldable pub qq_vector : Obj → ℕ → M Obj
  unfolding size_at make_cell push_safety qq_elems pop_safety
  qq_vector input depth = do
    len ← size_at (to_cell input)
    out_cell ← make_cell CellType.vector (objs len [])
    push_safety (from_cell out_cell)
    qq_elems (to_cell input) out_cell len 0 depth
    pop_safety 1
    pure (from_cell out_cell)

unfoldable pub qq : Cfun → ℕ → Template
unfolding qq_list qq_vector ref
qq ev zero input depth st = out_of_fuel
qq ev (suc n) input depth st =
    (if depth == 0 then ev input else do
      pair ← is_pair input
      vector ← is_vector input
      (if pair
          then qq_list (qq ev n) n input depth
          else (if vector then qq_vector (qq ev n) input depth else ref input)))
      st

unfoldable pub scm_quasiquote : Cfun → ℕ → Cfun
unfolding first qq
scm_quasiquote ev n args = do x ← first args; qq ev n x 1

unfoldable pub scm_unquote : Cfun → Cfun
unfolding first
scm_unquote ev args = do x ← first args; y ← ev x; ev y
