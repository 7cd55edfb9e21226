-- ===== src/Reader/Elide.antt =====
-- elide_pair of quuz-read.c: the last element of a list becomes its end.
use quuz.Prelude.{
  ℕ, zero, suc, ◌-◌, ◌<◌, ◌≡◌, ◌≢◌, refl, sym, ap, subst, true, Option, none, some, List, [], ◌∷◌,
  ◌++◌, length, arith,
}
use quuz.Object.Tag.{Obj, is_cell, is_null, to_cell}
use quuz.Machine.Store.{State, Cell, pair}
use quuz.Machine.Outcome.{ok}
use quuz.Machine.Cell.{set_first, update, cell_ptr}
use quuz.Machine.Cell.Laws.{with_cell, put-ok, release_memory-ok}
use quuz.Machine.Chain.{IsPairAt, IsChain, to_pair-ok}
use quuz.Machine.Array.Laws.{IsStack, objs_at-ok, read_place-ok, length-last}
use quuz.Collector.{obliterate, free_cell}
use quuz.Reader.{elide_loop, elide_pair}
use quuz.Machine.Pairs.{
  is_pair-ne-null, IsPairAt-apart, IsPairAt-frame, set_rest-ok, null-no-pair, rest-same,
}
use quuz.Machine.Cell.Laws.{update-other, update_self}

set_first-ok :
    (st : State) (obj a b : Obj) (at : IsPairAt st obj a b) (v : Obj)
    → set_first obj v st
      ≡ ok tt (with_cell st (to_cell obj) (record { info = at.info; value = pair v b }))
unfolding set_first
set_first-ok st obj a b at v =
    rw (to_pair-ok st obj a b at) (put-ok st (to_cell obj) at.holds (pair v b))

obliterate-ok :
    (st : State) (obj : Obj) (c : Cell)
    → is_cell obj ≡ true
    → st.heap (to_cell obj) ≡ some c
    → obliterate obj st ≡ ok tt (record st { heap = update st.heap (to_cell obj) none })
unfolding obliterate free_cell
obliterate-ok st obj c cell holds = rw cell (release_memory-ok st (to_cell obj) c holds)

-- The state that the last round leaves: `prev` ends in the last element, and `curr` is freed.
record Elided (st : State) (prev x curr : Obj) (xs : List Obj) (z : Obj) (n : ℕ) : Type 0 where
  after : State
  run : elide_loop n (some prev) curr st ≡ ok tt after
  chain : IsChain after prev (x ∷ xs) z
  -- A pair that has two pairs behind it is kept.
  kept :
      (q i a b c d e f : Obj)
      → st.heap q ≡ some (record { info = i; value = pair a b })
      → IsPairAt st b c d
      → IsPairAt st d e f
      → after.heap q ≡ st.heap q

module _ (h : ℕ → Option Cell) (p k : ℕ) (c d : Option Cell) where
  freed_prev : p ≢ k → update (update (update h p c) k d) k none p ≡ c
  freed_prev ne = ground arith

  freed_other : (q : ℕ) → q ≢ p → q ≢ k → update (update (update h p c) k d) k none q ≡ h q
  freed_other q ne ne' = ground arith

-- The last round.
elide_last :
    (st : State) (n : ℕ) (prev x curr z : Obj)
    → IsPairAt st prev x curr
    → IsPairAt st curr z 2
    → Elided st prev x curr [] z (suc n)
unfolding elide_loop is_null
elide_last st n prev x curr z at last =
    let apart = IsPairAt-apart st prev curr x curr z z 2 at last last in
    let st1 = with_cell st (to_cell prev) (record { info = at.info; value = pair x z }) in
    let there = update-other st.heap (to_cell prev) (to_cell curr) _ (λ q. apart (sym q)) in
    let last1 = IsPairAt-frame st st1 curr z 2 last there in
    let st2 = with_cell st1 (to_cell curr) (record { info = last1.info; value = pair 2 2 }) in
    record {
      after = record st2 { heap = update st2.heap (to_cell curr) none };
      run = rw (to_pair-ok st curr z 2 last) (
          rw (set_rest-ok st prev x curr at z) (
            rw (set_first-ok st1 curr z 2 last1 2)
              (obliterate-ok st2 curr _ last.cell (update_self st1.heap (to_cell curr) _))));
      chain = (
        z,
        record {
          cell = at.cell;
          present = at.present;
          info = at.info;
          holds = freed_prev st.heap (to_cell prev) (to_cell curr) _ _ apart;
          type = at.type;
        },
        refl,
      );
      kept = λ q i a b c d e f holds one two.
          freed_other st.heap (to_cell prev) (to_cell curr) _ _ q
            (λ same.
              let b_curr = rest-same st _ _ _ _ _ _ _ _ holds at.holds same in
              null-no-pair st d e f two
                (rest-same st _ _ _ _ _ _ _ _ one.holds last.holds (ap to_cell b_curr)))
            (λ same.
              null-no-pair st b c d one (rest-same st _ _ _ _ _ _ _ _ holds last.holds same));
    }

chain-front :
    (st : State) (obj : Obj) (xs : List Obj) (z end : Obj)
    → IsChain st obj (xs ++ z ∷ []) end
    → (a b : Obj) × IsPairAt st obj a b
chain-front st obj [] z end (b, at, _) = (z, b, at)
chain-front st obj (x ∷ xs) z end (b, at, _) = (x, b, at)

elide_loop-Elided :
    (st : State) (n : ℕ) (prev x curr z : Obj) (xs : List Obj)
    → length xs < n
    → IsPairAt st prev x curr
    → IsChain st curr (xs ++ z ∷ []) 2
    → Elided st prev x curr xs z n
unfolding elide_loop is_null
elide_loop-Elided st zero prev x curr z xs lt at chain = absurd (omega arith)
elide_loop-Elided st (suc n) prev x curr z [] lt at (end, last, e) =
    elide_last st n prev x curr z at (subst (IsPairAt st curr z) e last)
elide_loop-Elided st (suc n) prev x curr z (w ∷ xs) lt at (next, here, more) =
    let front = chain-front st next xs z 2 more in
    let r = elide_loop-Elided st n curr w next z xs (omega arith) here more in
    record {
      after = r.after;
      run =
          rw (to_pair-ok st curr w next here)
            (rw (is_pair-ne-null st next front.0 front.1 front.2) r.run);
      chain = (
        curr,
        IsPairAt-frame st r.after prev x curr at
            (r.kept (to_cell prev) at.info x curr w next front.0 front.1 at.holds here front.2),
        r.chain,
      );
      kept = r.kept;
    }

-- The first round has no pair before it.
elide_start :
    (st : State) (n : ℕ) (top x z : Obj) (xs : List Obj)
    → suc (length xs) < n
    → IsChain st top (x ∷ xs ++ z ∷ []) 2
    → (after : State) × (elide_loop n none top st ≡ ok tt after) × IsChain after top (x ∷ xs) z
unfolding elide_loop is_null
elide_start st zero top x z xs lt chain = absurd (omega arith)
elide_start st (suc n) top x z xs lt (next, at, more) =
    let front = chain-front st next xs z 2 more in
    let r = elide_loop-Elided st n top x next z xs (omega arith) at more in
    (
      r.after,
      rw (to_pair-ok st top x next at) (rw (is_pair-ne-null st next front.0 front.1 front.2) r.run),
      r.chain,
    )

-- elide_pair on a list of at least two elements at the top of the stack ends without a fault, and the
-- list then has all elements but the last, which has become its end: (a b c) is (a b . c). The list is
-- shorter than the heap is large.
pub elide_pair-IsChain :
    (st : State) (stack top x z : Obj) (below xs : List Obj)
    → IsStack st stack below top
    → IsChain st top (x ∷ xs ++ z ∷ []) 2
    → suc (length xs) < st.brk
    → (after : State) × (elide_pair stack st ≡ ok tt after) × IsChain after top (x ∷ xs) z
unfolding elide_pair cell_ptr
elide_pair-IsChain st stack top x z below xs at chain lt =
    let r = elide_start st st.brk top x z xs lt chain in
    (
      r.0,
      rw at.cell (
          rw (objs_at-ok st (to_cell stack) at.holds)
            (rw (length-last top below, before) (rw (read_place-ok st stack top below at) r.1))),
      r.2,
    )
  where
    before : suc (length below) - 1 ≡ length below
    before = omega arith
