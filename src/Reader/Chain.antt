-- ===== src/Reader/Chain.antt =====
-- `append` of quuz-read.c on a list that the reader builds: the list in the heap grows by one element
-- at its end.
use quuz.Prelude.{
  ℕ, zero, suc, ◌+◌, ◌<◌, ◌≡◌, ◌≢◌, refl, sym, ◌∙◌, subst, some, List, [], ◌∷◌, ◌++◌, length, arith,
}
use quuz.Object.Tag.{Obj, is_null, to_cell, from_cell}
use quuz.Object.Tag.Laws.{to_cell-from_cell}
use quuz.Object.CellType
use quuz.Machine.Store.{State, Payload, pair, objs}
use quuz.Machine.Outcome.{ok}
use quuz.Machine.Cell.Laws.{with_cell, update-other, update_self}
use quuz.Machine.Chain.{IsPairAt, IsChain, is_pair-ok, to_pair-ok}
use quuz.Machine.Array.Laws.{
  IsStack, IsStack-frame, with_top, with_top-IsStack, cell_of_type-ok, vector_tail_ptr-ok,
  read_place-ok, write_place-ok,
}
use quuz.Machine.Pairs.{
  AgreesBut, is_pair-ne-null, IsPairAt-apart, IsPairAt-frame, set_rest-ok, objs-ne-pair,
}
use quuz.Machine.Room.{
  HasRoom, with_pair, with_pair-new, ne-brk, with_pair-HasRoom, with_cell-HasRoom,
}
use quuz.Machine.Builds.{Builds, Builds-trans, Builds-write, Builds-pair}
use quuz.Reader.{last_pair, append_to, append}

-- The last pair of a list, and how the list is extended there.
record LastPair (st : State) (obj y : Obj) (xs : List Obj) (n : ℕ) : Type 0 where
  last : Obj
  final : Obj
  run : last_pair n obj st ≡ ok last st
  at : IsPairAt st last final 2
  extend :
      (st' : State) (v new : Obj)
      → AgreesBut (to_cell last) st st'
      → IsPairAt st' last final new
      → IsPairAt st' new v 2
      → IsChain st' obj ((y ∷ xs) ++ v ∷ []) 2

last_pair_lem :
    (st : State) (n : ℕ) (obj y : Obj) (xs : List Obj)
    → length xs < n
    → IsChain st obj (y ∷ xs) 2
    → LastPair st obj y xs n
unfolding last_pair is_null
last_pair_lem st zero obj y xs lt chain = absurd (omega arith)
last_pair_lem st (suc n) obj y [] lt (next, at, end) =
    let at2 : IsPairAt st obj y 2 = subst (IsPairAt st obj y) end at in
    record {
      last = obj;
      final = y;
      run = rw (to_pair-ok st obj y 2 at2) refl;
      at = at2;
      extend = λ st' v new agrees extended added. (new, extended, (2, added, refl));
    }
last_pair_lem st (suc n) obj y (x ∷ xs) lt (next, at, (next', at', more)) =
    let r = last_pair_lem st n next x xs (omega arith) (next', at', more) in
    record {
      last = r.last;
      final = r.final;
      run = rw (to_pair-ok st obj y next at) (rw (is_pair-ne-null st next x next' at') r.run);
      at = r.at;
      extend = λ st' v new agrees extended added. (
        next,
        IsPairAt-frame st st' obj y next at (
            agrees (to_cell obj) at.info y next
              (IsPairAt-apart st obj r.last y next r.final x next' at at' r.at) at.holds),
        r.extend st' v new agrees extended added,
      );
    }

-- The state in which the last pair leads to the new one.
abbrev linked : State → (v last final : Obj) → ℕ → State
linked st v last final info =
    with_cell (with_pair st v) (to_cell last)
      (record { info = info; value = pair final (from_cell st.brk) })

append_to-run :
    (st : State) (obj y next v : Obj)
    → IsPairAt st obj y next
    → (last final : Obj) → last_pair st.brk obj st ≡ ok last st
    → (kept : IsPairAt (with_pair st v) last final 2)
    → append_to obj v st ≡ ok obj (linked st v last final kept.info)
unfolding append_to
append_to-run st obj y next v at last final run kept = rw (is_pair-ne-null st obj y next at) (
    rw (is_pair-ok st obj y next at) (
      rw (cell_of_type-ok st obj CellType.vector at.cell at.present at.holds)
        (rw run (rw (set_rest-ok (with_pair st v) last final 2 kept (from_cell st.brk)) refl))))

linked-other :
    (st : State) (v last final : Obj) (info : ℕ)
    → HasRoom st
    → (p i : ℕ) (value : Payload) → st.heap p ≡ some (record { info = i; value = value })
    → p ≢ to_cell last
    → (linked st v last final info).heap p ≡ st.heap p
linked-other st v last final info room p i value holds ne =
    let unused = ne-brk st v room p _ holds in ground arith

-- What `append_to` leaves where it ends: a pair whose cells hold the longer list, and the other cells
-- that are no pairs, as they were.
record Longer (st : State) (obj : Obj) (xs : List Obj) (v : Obj) : Type 0 where
  list : Obj
  after : State
  run : append_to obj v st ≡ ok list after
  room : HasRoom after
  size : after.brk ≡ st.brk + 8
  builds : Builds st after
  others :
      (p i capacity : ℕ) (ys : List Obj)
      → st.heap p ≡ some (record { info = i; value = objs capacity ys })
      → after.heap p ≡ st.heap p
  chain :
      (st' : State)
      → ((p i : ℕ) (a b : Obj)
          → after.heap p ≡ some (record { info = i; value = pair a b })
          → st'.heap p ≡ after.heap p)
      → IsChain st' list (xs ++ v ∷ []) 2

append_to-Longer :
    (st : State) (obj v : Obj) (xs : List Obj)
    → HasRoom st
    → length xs < st.brk
    → IsChain st obj xs 2
    → Longer st obj xs v
unfolding append_to is_null
append_to-Longer st obj v [] room lt end = record {
  list = from_cell st.brk;
  after = with_pair st v;
  run = rw end refl;
  room = with_pair-HasRoom st v room;
  size = refl;
  builds = Builds-pair st v room;
  others = λ p i capacity ys holds. update-other st.heap st.brk p _ (ne-brk st v room p _ holds);
  chain = λ st' same. (
    2,
    IsPairAt-frame (with_pair st v) st' _ v 2 (with_pair-new st v room)
        (let n = with_pair-new st v room in same _ n.info v 2 n.holds),
    refl,
  );
}
append_to-Longer st obj v (y ∷ xs) room lt chain =
    let r = last_pair_lem st st.brk obj y xs (omega arith) chain in
    let fresh = with_pair-new st v room in
    let apart = ne-brk st v room (to_cell r.last) _ r.at.holds in
    let kept : IsPairAt (with_pair st v) r.last r.final 2 =
      IsPairAt-frame st (with_pair st v) r.last r.final 2 r.at
        (update-other st.heap st.brk (to_cell r.last) _ apart) in
    record {
      list = obj;
      after = linked st v r.last r.final kept.info;
      room =
          with_cell-HasRoom (with_pair st v) (to_cell r.last) _ _ (with_pair-HasRoom st v room)
            kept.holds;
      size = refl;
      builds =
          Builds-trans st (with_pair st v) _ (Builds-pair st v room)
            (Builds-write (with_pair st v) (to_cell r.last) _ _ kept.holds tt (λ h. h));
      run = append_to-run st obj y chain.0 v chain.1 r.last r.final r.run kept;
      others = λ p i capacity ys holds.
          linked-other st v r.last r.final kept.info room p i _ holds
            (objs-ne-pair st p (to_cell r.last) i r.at.info capacity ys r.final 2 holds r.at.holds);
      chain = λ st' same.
          r.extend st' v (from_cell st.brk)
            (λ q i a b ne holds.
              let there = linked-other st v r.last r.final kept.info room q i _ holds ne in
              same q i a b (there ∙ holds) ∙ there)
            (record {
              cell = r.at.cell;
              present = r.at.present;
              info = kept.info;
              holds =
                  (let self = update_self (with_pair st v).heap (to_cell r.last) _ in
                    same (to_cell r.last) kept.info r.final (from_cell st.brk) self ∙ self);
              type = kept.type;
            })
            (IsPairAt-frame (with_pair st v) st' (from_cell st.brk) v 2 fresh (
              let there =
                update-other (with_pair st v).heap (to_cell r.last) (to_cell (from_cell st.brk)) _
                  (λ e. apart (sym e ∙ to_cell-from_cell st.brk room.aligned)) in
              same _ fresh.info v 2 (there ∙ fresh.holds) ∙ there));
    }

-- The stack after an element was added to the list on its top.
pub record Appended (st : State) (stack : Obj) (below xs : List Obj) (v : Obj) : Type 0 where
  pub top : Obj
  pub after : State
  pub run : append stack v st ≡ ok tt after
  pub at : IsStack after stack below top
  pub chain : IsChain after top (xs ++ v ∷ []) 2
  pub room : HasRoom after
  pub size : after.brk ≡ st.brk + 8
  pub builds : Builds st after

-- `append` of an object to a list at the top of the stack ends without a fault, the list then has the
-- object as its last element and ends in the empty list, the stack is otherwise the same, and the heap
-- has grown by one cell. The list is shorter than the heap is large.
pub append-Appended :
    (st : State) (stack top v : Obj) (below xs : List Obj)
    → IsStack st stack below top
    → HasRoom st
    → length xs < st.brk
    → IsChain st top xs 2
    → Appended st stack below xs v
unfolding append
append-Appended st stack top v below xs at room lt chain =
    let r = append_to-Longer st top v xs room lt chain in
    let kept : IsStack r.after stack below top =
      IsStack-frame st r.after stack top below at (r.others _ _ _ _ at.holds) in
    record {
      top = r.list;
      after = with_top r.after stack r.list kept.info kept.capacity below;
      run = rw (vector_tail_ptr-ok st stack top below at) (
          rw (read_place-ok st stack top below at)
            (rw r.run (write_place-ok r.after stack top below kept r.list)));
      at = with_top-IsStack r.after stack top r.list below kept;
      chain = r.chain _ (λ p i a b holds. update-other r.after.heap (to_cell stack) p _ (λ e.
          objs-ne-pair r.after (to_cell stack) p kept.info i _ _ a b kept.holds holds (sym e)));
      room = with_cell-HasRoom r.after (to_cell stack) _ _ r.room kept.holds;
      size = r.size;
      builds =
          Builds-trans st r.after _ r.builds
            (Builds-write r.after (to_cell stack) _ _ kept.holds tt (λ h. tt));
    }
