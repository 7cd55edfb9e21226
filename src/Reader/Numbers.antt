-- ===== src/Reader/Numbers.antt =====
-- The actions of a list of numbers: quuz.leg's `(1 2 3)` between its parentheses.
use mathlib.Core.List.{append_assoc, append-nil}
use quuz.Prelude.{ℕ, ◌<◌, ◌≡◌, refl, subst, List, [], ◌∷◌, ◌++◌, length, length-append, map, arith}
use quuz.Object.Tag.{Obj, from_fixnum}
use quuz.Machine.Store.{State}
use quuz.Machine.Outcome.{ok}
use quuz.Machine.Chain.{IsChain}
use quuz.Machine.Array.Laws.{IsStack}
use quuz.Hash.{CityHash}
use quuz.Reader.{append_number}
use quuz.Reader.Actions.{number, run_action, run_actions}
use quuz.Machine.Builds.{Builds, Builds-self, Builds-trans}
use quuz.Machine.Room.{HasRoom}
use quuz.Reader.Chain.{append-Appended}

module _ ⦃city : CityHash⦄ where
  -- The stack after the actions of numbers.
  pub record Built (is : List ℕ) (st : State) (stack : Obj) (below xs : List Obj) : Type 0 where
    pub after : State
    pub list : Obj
    pub run : run_actions stack (map number is) st ≡ ok stack after
    pub at : IsStack after stack below list
    pub chain : IsChain after list (xs ++ map from_fixnum is) 2
    pub builds : Builds st after

  pub run_actions-Built :
      (is : List ℕ) (st : State) (stack top : Obj) (below xs : List Obj)
      → IsStack st stack below top
      → HasRoom st
      → length xs < st.brk
      → IsChain st top xs 2
      → Built is st stack below xs
  unfolding run_actions run_action append_number
  run_actions-Built [] st stack top below xs at room lt chain = record {
    after = st;
    list = top;
    run = refl;
    at = at;
    chain = rw (append-nil xs) chain;
    builds = Builds-self st;
  }
  run_actions-Built (i ∷ is) st stack top below xs at room lt chain =
      let a = append-Appended st stack top (from_fixnum i) below xs at room lt chain in
      let r =
        run_actions-Built is a.after stack a.top below (xs ++ from_fixnum i ∷ []) a.at a.room
          (let size = a.size in let len = length-append xs (from_fixnum i ∷ []) in omega arith)
          a.chain in
      record {
        after = r.after;
        list = r.list;
        run = rw a.run r.run;
        at = r.at;
        chain =
            subst (λ ys. IsChain r.after r.list ys 2)
              (append_assoc xs (from_fixnum i ∷ []) (map from_fixnum is)) r.chain;
        builds = Builds-trans st a.after r.after a.builds r.builds;
      }

  -- The actions of numbers, run with a list at the top of the stack, end without a fault, leave the
  -- stack where it is, and the list then has the fixnums of the numbers after its former elements, in
  -- order. The list is shorter than the heap is large.
  pub run_actions-numbers :
      (is : List ℕ) (st : State) (stack top : Obj) (below xs : List Obj)
      → IsStack st stack below top
      → HasRoom st
      → length xs < st.brk
      → IsChain st top xs 2
      → (after : State) × (list : Obj) × (run_actions stack (map number is) st ≡ ok stack after)
        × IsStack after stack below list
        × IsChain after list (xs ++ map from_fixnum is) 2
  run_actions-numbers is st stack top below xs at room lt chain =
      let b = run_actions-Built is st stack top below xs at room lt chain in
      (b.after, b.list, b.run, b.at, b.chain)
