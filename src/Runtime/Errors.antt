-- ===== src/Runtime/Errors.antt =====
-- qz_error of quuz-state.c: the list of irritants that it builds, and the error that it raises.
use mathlib.Core.List.{append_assoc, append-nil}
use quuz.Prelude.{
  ℕ, ◌+◌, ◌*◌, ◌^◌, ◌%◌, ◌≡◌, refl, sym, ap, ◌∙◌, subst, true, false, Option, none, some, List, [],
  ◌∷◌, ◌++◌, length, arith,
}
use quuz.Object.Tag.{Obj, is_cell, is_null, to_cell, from_cell}
use quuz.Object.Tag.Laws.{to_cell-from_cell}
use quuz.Object.CellType
use quuz.Object.Info.{cell_type, get_bits}
use quuz.Machine.Store.{State, Cell, pair, bytes}
use quuz.Machine.Outcome.{Outcome, M, ok, thrown, and_then}
use quuz.Machine.Cell.{update}
use quuz.Machine.Cell.Laws.{with_cell, update-other, update_self}
use quuz.Machine.Chain.{IsPairAt, IsChain}
use quuz.Machine.Pairs.{
  PairsKept, IsChain-kept, AgreesBut, is_pair-ne-null, IsPairAt-apart, IsPairAt-frame, set_rest-ok,
}
use quuz.Machine.Room.{
  HasRoom, with_pair, with_pair-new, ne-brk, with_pair-HasRoom, with_cell-HasRoom,
}
use quuz.Collector.{ref, call_if_valid_cell}
use quuz.Runtime.{Builder, no_elements, add_elem, irritant_list, qz_error}

-- A list that is built from its front: its elements, and `elem`, its last pair.
abbrev IsRun : State → (obj x : Obj) → List Obj → (elem : Obj) → Type 0
IsRun st obj x [] elem = (obj ≡ elem) × IsPairAt st obj x 2
IsRun st obj x (y ∷ ys) elem = (next : Obj) × IsPairAt st obj x next × IsRun st next y ys elem

run_front :
    (st : State) (obj x elem : Obj) (xs : List Obj)
    → IsRun st obj x xs elem
    → (next : Obj) × IsPairAt st obj x next
run_front st obj x elem [] (e, at) = (2, at)
run_front st obj x elem (y ∷ ys) (next, at, more) = (next, at)

run_end :
    (st : State) (obj x elem : Obj) (xs : List Obj)
    → IsRun st obj x xs elem
    → (z : Obj) × IsPairAt st elem z 2
run_end st obj x elem [] (e, at) = (x, subst (λ o. IsPairAt st o x 2) e at)
run_end st obj x elem (y ∷ ys) (next, at, more) = run_end st next y elem ys more

run-IsChain :
    (st : State) (obj x elem : Obj) (xs : List Obj)
    → IsRun st obj x xs elem
    → IsChain st obj (x ∷ xs) 2
run-IsChain st obj x elem [] (e, at) = (2, at, refl)
run-IsChain st obj x elem (y ∷ ys) (next, at, more) = (next, at, run-IsChain st next y elem ys more)

abbrev first_of : Option Cell → Obj
first_of none = 0
first_of (some c) = elim c.value [ pair a b ↦ a | _ ↦ 0 ]

-- A new last pair.
IsRun-extend :
    (st st' : State) (obj x elem z v new : Obj) (xs : List Obj)
    → IsRun st obj x xs elem
    → IsPairAt st elem z 2
    → AgreesBut (to_cell elem) st st'
    → IsPairAt st' elem z new
    → IsPairAt st' new v 2
    → IsRun st' obj x (xs ++ v ∷ []) new
IsRun-extend st st' obj x elem z v new [] (e, at) end agrees linked added =
    let same : x ≡ z = ap first_of (sym at.holds ∙ ap (λ o. st.heap (to_cell o)) e ∙ end.holds) in
    (
      new,
      subst (λ w. IsPairAt st' obj w new) (sym same)
          (subst (λ o. IsPairAt st' o z new) (sym e) linked),
      (refl, added),
    )
IsRun-extend st st' obj x elem z v new (y ∷ ys) (next, at, more) end agrees linked added =
    let front = run_front st next y elem ys more in
    (
      next,
      IsPairAt-frame st st' obj x next at (
          agrees (to_cell obj) at.info x next
            (IsPairAt-apart st obj elem x next z y front.0 at front.1 end) at.holds),
      IsRun-extend st st' next y elem z v new ys more end agrees linked added,
    )

ref-word : (obj : Obj) (st : State) → is_cell obj ≡ false → ref obj st ≡ ok obj st
unfolding ref call_if_valid_cell
ref-word obj st word = rw word refl

abbrev pub AllWords : List Obj → Type 0
AllWords [] = Unit {0}
AllWords (x ∷ xs) = (is_cell x ≡ false) × AllWords xs

abbrev linked_run : State → (v elem z : Obj) → ℕ → State
linked_run st v elem z info =
    with_cell (with_pair st v) (to_cell elem)
      (record { info = info; value = pair z (from_cell st.brk) })

-- One round of the loop, once there is a first element.
record Round (st : State) (obj x : Obj) (xs : List Obj) (elem v : Obj) : Type 0 where
  after : State
  run :
      add_elem (record { result = obj; elem = elem }) (from_cell st.brk) (with_pair st v)
      ≡ ok (record { result = obj; elem = from_cell st.brk }) after
  list : IsRun after obj x (xs ++ v ∷ []) (from_cell st.brk)
  room : HasRoom after
  jump : after.peval_fail ≡ st.peval_fail
  safety : after.safety_buffer ≡ st.safety_buffer

add_elem-Round :
    (st : State) (obj x elem v : Obj) (xs : List Obj)
    → HasRoom st
    → IsRun st obj x xs elem
    → Round st obj x xs elem v
unfolding add_elem
add_elem-Round st obj x elem v xs room list =
    let front = run_front st obj x elem xs list in
    let end = run_end st obj x elem xs list in
    let at = end.1 in
    let fresh = with_pair-new st v room in
    let apart = ne-brk st v room (to_cell elem) _ at.holds in
    let kept : IsPairAt (with_pair st v) elem end.0 2 =
      IsPairAt-frame st (with_pair st v) elem end.0 2 at
        (update-other st.heap st.brk (to_cell elem) _ apart) in
    let after = linked_run st v elem end.0 kept.info in
    record {
      after = after;
      run =
          rw (is_pair-ne-null st obj x front.0 front.1)
            (rw (set_rest-ok (with_pair st v) elem end.0 2 kept (from_cell st.brk)) refl);
      list =
          IsRun-extend st after obj x elem end.0 v (from_cell st.brk) xs list at
            (λ q i a b ne holds.
              update-other (with_pair st v).heap (to_cell elem) q _ ne
              ∙ update-other st.heap st.brk q _ (ne-brk st v room q _ holds))
            (record {
              cell = at.cell;
              present = at.present;
              info = kept.info;
              holds = update_self (with_pair st v).heap (to_cell elem) _;
              type = kept.type;
            })
            (IsPairAt-frame (with_pair st v) after (from_cell st.brk) v 2 fresh (
              update-other (with_pair st v).heap (to_cell elem) (to_cell (from_cell st.brk)) _
                (λ e. apart (sym e ∙ to_cell-from_cell st.brk room.aligned))));
      room =
          with_cell-HasRoom (with_pair st v) (to_cell elem) _ _ (with_pair-HasRoom st v room)
            kept.holds;
      jump = refl;
      safety = refl;
    }

-- The list of the irritants.
record Irritants (st : State) (b : Builder) (xs objs : List Obj) : Type 0 where
  list : Obj
  after : State
  run : irritant_list b objs st ≡ ok list after
  chain : IsChain after list (xs ++ objs) 2
  room : HasRoom after
  jump : after.peval_fail ≡ st.peval_fail
  safety : after.safety_buffer ≡ st.safety_buffer

irritant_list-more :
    (objs : List Obj) (st : State) (obj x elem : Obj) (xs : List Obj)
    → AllWords objs
    → HasRoom st
    → IsRun st obj x xs elem
    → Irritants st (record { result = obj; elem = elem }) (x ∷ xs) objs
unfolding irritant_list
irritant_list-more [] st obj x elem xs words room list = record {
  list = obj;
  after = st;
  run = refl;
  chain = rw (append-nil xs) (run-IsChain st obj x elem xs list);
  room = room;
  jump = refl;
  safety = refl;
}
irritant_list-more (v ∷ objs) st obj x elem xs (word, words) room list =
    let r = add_elem-Round st obj x elem v xs room list in
    let more =
      irritant_list-more objs r.after obj x (from_cell st.brk) (xs ++ v ∷ []) words r.room r.list in
    record {
      list = more.list;
      after = more.after;
      run =
          rw (ref-word v st word) (
            ap (λ (o : Outcome Builder). and_then o (λ b'. irritant_list b' objs)) r.run
            ∙ more.run);
      chain =
          subst (λ ys. IsChain more.after more.list ys 2) (append_assoc (x ∷ xs) (v ∷ []) objs)
            more.chain;
      room = more.room;
      jump = more.jump ∙ r.jump;
      safety = more.safety ∙ r.safety;
    }

irritant_list-Irritants :
    (objs : List Obj) (st : State) → AllWords objs → HasRoom st → Irritants st no_elements [] objs
unfolding irritant_list is_null
irritant_list-Irritants [] st words room = record {
  list = 2;
  after = st;
  run = refl;
  chain = refl;
  room = room;
  jump = refl;
  safety = refl;
}
irritant_list-Irritants (v ∷ objs) st (word, words) room =
    let more =
      irritant_list-more objs (with_pair st v) (from_cell st.brk) v (from_cell st.brk) [] words
        (with_pair-HasRoom st v room) (refl, with_pair-new st v room) in
    record {
      list = more.list;
      after = more.after;
      run = rw (ref-word v st word) more.run;
      chain = more.chain;
      room = more.room;
      jump = more.jump;
      safety = more.safety;
    }

-- How qz_error ends: the error object is a new error of the text and the list of the objects.
pub record Raised {A : Type 0} (m : M A) (st : State) (msg : List ℕ) (objs : List Obj)
    : Type 0 where
  pub after : State
  pub message : Obj
  pub irritants : Obj
  pub info : ℕ
  pub text_info : ℕ
  pub run : m st ≡ thrown after
  pub error :
      after.heap (to_cell after.error_obj)
      ≡ some (record { info = info; value = pair message irritants })
  pub type : cell_type info ≡ CellType.error
  pub text :
      after.heap (to_cell message)
      ≡ some (record { info = text_info; value = bytes (length msg) msg })
  pub list : IsChain after irritants objs 2
  pub safety : after.safety_buffer ≡ st.safety_buffer

alloc-PairsKept :
    (st st' : State) (c : Cell)
    → HasRoom st
    → ((q : ℕ) → st'.heap q ≡ update st.heap st.brk (some c) q)
    → PairsKept st st'
alloc-PairsKept st st' c room e q i a b holds type =
    (i, e q ∙ update-other st.heap st.brk q (some c) (ne-brk st 0 room q _ holds) ∙ holds, type)

alloc-HasRoom :
    (st : State) (c : Cell)
    → HasRoom st
    → HasRoom (record st { heap = update st.heap st.brk (some c); brk = st.brk + 8 })
alloc-HasRoom st c room = record {
  aligned = let a = room.aligned in omega arith;
  positive = omega arith;
  free = λ p le. update-other st.heap st.brk p _ (omega arith) ∙ room.free p (omega arith);
}

-- qz_error with a jump target in place always raises the error, and never returns or faults: the error
-- object is then a new error cell with the message as its text and the given objects, in order, as its
-- irritants; the safety buffer is as before. The objects are words that are no cells.
pub qz_error-Raised :
    {A : Type 0} (msg : List ℕ) (objs : List Obj) (st : State)
    → AllWords objs
    → HasRoom st
    → st.peval_fail ≡ true
    → Raised {A = A} (qz_error msg objs) st msg objs
unfolding qz_error cell_type get_bits
qz_error-Raised msg objs st words room jump =
    let r = irritant_list-Irritants objs st words room in
    let st1 = r.after in
    let text : Cell = record { info = 4 * 2 ^ 56 + 1; value = bytes (length msg) msg } in
    let error : Cell = record { info = 3 * 2 ^ 56 + 1; value = pair (from_cell st1.brk) r.list } in
    let h1 = update st1.heap st1.brk (some text) in
    let st2 : State = record st1 { heap = h1; brk = st1.brk + 8 } in
    let after : State = record st1 {
      heap = update h1 (st1.brk + 8) (some error);
      brk = st1.brk + 8 + 8;
      error_obj = from_cell (st1.brk + 8);
    } in
    let aligned = r.room.aligned in
    let aligned' : (st1.brk + 8) % 8 ≡ 0 = omega arith in
    record {
      after = after;
      message = from_cell st1.brk;
      irritants = r.list;
      info = 3 * 2 ^ 56 + 1;
      text_info = 4 * 2 ^ 56 + 1;
      run = rw r.run (rw (r.jump ∙ jump) refl);
      error =
          rw (to_cell-from_cell (st1.brk + 8) aligned') (update_self h1 (st1.brk + 8) (some error));
      type = refl;
      text = rw (to_cell-from_cell st1.brk aligned) (
          update-other h1 (st1.brk + 8) st1.brk (some error) (omega arith)
          ∙ update_self st1.heap st1.brk (some text));
      list =
          IsChain-kept st2 after r.list 2 objs
            (alloc-PairsKept st2 after error (alloc-HasRoom st1 text r.room) (λ q. refl))
            (IsChain-kept st1 st2 r.list 2 objs (alloc-PairsKept st1 st2 text r.room (λ q. refl))
              r.chain);
      safety = r.safety;
    }
