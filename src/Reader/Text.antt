-- ===== src/Reader/Text.antt =====
-- concat_string of quuz-read.c: a char is added to the string at the top of the stack, which moves
-- when it is full.
use quuz.Prelude.{
  ℕ, ◌+◌, ◌*◌, ◌%◌, ◌^◌, ◌<◌, ◌≤◌, ◌≡◌, ◌≢◌, refl, sym, ap, subst, ◌∙◌, true, false, Option, some,
  none, inl, inr, List, [], ◌∷◌, ◌++◌, length, length-append, ◌==◌, arith, Bool-cases,
}
use quuz.Object.Tag.{Obj, is_cell, to_cell, from_cell}
use quuz.Object.Tag.Laws.{to_cell-from_cell, is_cell-from_cell}
use quuz.Object.Info.{refcount}
use quuz.Machine.Store.{State, Cell, bytes, objs}
use quuz.Machine.Outcome.{ok}
use quuz.Machine.Cell.{update, cell_ptr}
use quuz.Machine.Cell.Laws.{with_cell, load-ok, put-ok, release_memory-ok}
use quuz.Machine.Array.{malloc}
use quuz.Machine.Array.Laws.{
  IsStack, IsStack-frame, with_top, with_top-IsStack, bytes_at-ok, vector_tail_ptr-ok,
  read_place-ok, write_place-ok,
}
use quuz.Reader.{grow_array, with_room, add_byte, concat_string}
use quuz.Machine.Room.{HasRoom, ne-brk}
use quuz.Machine.Cell.Laws.{update-other, update_self}

-- `obj` is an array of bytes that only one object refers to.
pub record IsText (st : State) (obj : Obj) (capacity : ℕ) (cs : List ℕ) : Type 0 where
  pub cell : is_cell obj ≡ true
  pub info : ℕ
  pub holds : st.heap (to_cell obj) ≡ some (record { info = info; value = bytes capacity cs })
  pub owned : refcount info ≡ 1

-- The array after a byte was added to it.
record Added (st : State) (obj : Obj) (capacity : ℕ) (cs : List ℕ) (c : ℕ) : Type 0 where
  text : Obj
  after : State
  run : add_byte obj c st ≡ ok text after
  room : ℕ
  is : IsText after text room (cs ++ c ∷ [])
  fits : length (cs ++ c ∷ []) ≤ room
  others :
      (p i n : ℕ) (ys : List Obj)
      → st.heap p ≡ some (record { info = i; value = objs n ys })
      → after.heap p ≡ st.heap p

-- The array moved to twice the capacity.
abbrev moved : State → ℕ → (info capacity : ℕ) → List ℕ → State
moved st p info capacity cs = record st {
  heap =
      update (update st.heap st.brk (some (record { info = info; value = bytes capacity cs }))) p
        none;
  brk = st.brk + 8;
}

grow_array-moved :
    (st : State) (p info capacity : ℕ) (cs : List ℕ)
    → HasRoom st
    → st.heap p ≡ some (record { info = info; value = bytes capacity cs })
    → refcount info ≡ 1
    → grow_array p st ≡ ok st.brk (moved st p info (capacity * 2 % 2 ^ 64) cs)
unfolding grow_array malloc
grow_array-moved st p info capacity cs room holds owned =
    let grown : Cell = record { info = info; value = bytes (capacity * 2 % 2 ^ 64) cs } in
    let st1 : State = record st { heap = update st.heap st.brk (some grown); brk = st.brk + 8 } in
    let there : st1.heap p ≡ some (record { info = info; value = bytes capacity cs }) =
      update-other st.heap st.brk p (some grown) (ne-brk st 0 room p _ holds) ∙ holds in
    rw (load-ok st p holds) (rw owned (rw room.aligned (rw (release_memory-ok st1 p _ there) refl)))

bytes-ne-objs :
    (st : State) (p q i j m n : ℕ) (cs : List ℕ) (ys : List Obj)
    → st.heap p ≡ some (record { info = i; value = bytes m cs })
    → st.heap q ≡ some (record { info = j; value = objs n ys })
    → q ≢ p
bytes-ne-objs st p q i j m n cs ys text array e = absurd (
    subst
      (λ (o : Option Cell). elim o [
        | none ↦ Unit {0}
        | some c ↦ elim c.value [ bytes _ _ ↦ ⊥ | _ ↦ Unit {0} ]
      ])
      (sym array ∙ ap st.heap e ∙ text) tt)

module _ (st : State) (obj capacity c : ℕ) (cs : List ℕ) (at : IsText st obj capacity cs)
    (fit : length cs ≤ capacity) where
  Added-in_place : (length cs == capacity) ≡ false → Added st obj capacity cs c
  unfolding add_byte cell_ptr with_room
  Added-in_place space = record {
    text = obj;
    after =
        with_cell st (to_cell obj)
          (record { info = at.info; value = bytes capacity (cs ++ c ∷ []) });
    run = rw at.cell (
        rw (bytes_at-ok st (to_cell obj) at.holds) (
          rw space (
            rw at.cell (
              rw (bytes_at-ok st (to_cell obj) at.holds)
                (rw (put-ok st (to_cell obj) at.holds (bytes capacity (cs ++ c ∷ []))) refl)))));
    room = capacity;
    is = record {
      cell = at.cell;
      info = at.info;
      holds = update_self st.heap (to_cell obj) _;
      owned = at.owned;
    };
    fits = let len = length-append cs (c ∷ []) in ground arith;
    others = λ p i n ys holds.
        update-other st.heap (to_cell obj) p _
          (bytes-ne-objs st (to_cell obj) p at.info i capacity n cs ys at.holds holds);
  }

  Added-moved :
      HasRoom st
      → 0 < capacity
      → capacity * 2 < 2 ^ 64
      → (length cs == capacity) ≡ true
      → Added st obj capacity cs c
  unfolding add_byte cell_ptr with_room
  Added-moved room pos small full =
      let st2 = moved st (to_cell obj) at.info (capacity * 2 % 2 ^ 64) cs in
      let grown : Option Cell =
        some (record { info = at.info; value = bytes (capacity * 2 % 2 ^ 64) cs }) in
      let h1 : ℕ → Option Cell = update st.heap st.brk grown in
      let there : st2.heap st.brk
          ≡ some (record { info = at.info; value = bytes (capacity * 2 % 2 ^ 64) cs }) =
        update-other h1 (to_cell obj) st.brk none
          (λ e. ne-brk st 0 room (to_cell obj) _ at.holds (sym e))
        ∙ update_self st.heap st.brk grown in
      record {
        text = from_cell st.brk;
        after =
            with_cell st2 st.brk
              (record { info = at.info; value = bytes (capacity * 2 % 2 ^ 64) (cs ++ c ∷ []) });
        run = rw at.cell (
            rw (bytes_at-ok st (to_cell obj) at.holds) (
              rw full (
                rw (grow_array-moved st (to_cell obj) at.info capacity cs room at.holds at.owned) (
                  rw (is_cell-from_cell st.brk room.aligned, to_cell-from_cell st.brk room.aligned)
                    (rw (bytes_at-ok st2 st.brk there) (
                      rw (put-ok st2 st.brk there (bytes (capacity * 2 % 2 ^ 64) (cs ++ c ∷ [])))
                        refl))))));
        room = capacity * 2 % 2 ^ 64;
        is = record {
          cell = is_cell-from_cell st.brk room.aligned;
          info = at.info;
          holds = rw (to_cell-from_cell st.brk room.aligned) (update_self st2.heap st.brk _);
          owned = at.owned;
        };
        fits = let len = length-append cs (c ∷ []) in ground arith;
        others = λ p i n ys holds.
            let ne = ne-brk st 0 room p _ holds in
            let ne' = bytes-ne-objs st (to_cell obj) p at.info i capacity n cs ys at.holds holds in
            update-other st2.heap st.brk p _ ne
            ∙ update-other h1 (to_cell obj) p none ne'
            ∙ update-other st.heap st.brk p grown ne;
      }

-- concat_string with a string at the top of the stack that only the stack refers to ends without a
-- fault, whether the string is full or not: the string at the top then has the char, cut to a byte, at
-- its end, its capacity covers its text, and the stack is otherwise the same. The string has a
-- capacity that is not 0 and below 2 ^ 63.
pub concat_string-IsText :
    (st : State) (stack top capacity c : ℕ) (below : List Obj) (cs : List ℕ)
    → IsStack st stack below top
    → HasRoom st
    → IsText st top capacity cs
    → length cs ≤ capacity
    → 0 < capacity
    → capacity * 2 < 2 ^ 64
    → (after : State) × (text room : ℕ) × (concat_string stack c st ≡ ok tt after)
      × IsStack after stack below text
      × IsText after text room (cs ++ c % 256 ∷ [])
      × (length (cs ++ c % 256 ∷ []) ≤ room)
unfolding concat_string
concat_string-IsText st stack top capacity c below cs at room text fit pos small =
    let r = elim (Bool-cases (length cs == capacity)) as (λ x. Added st top capacity cs (c % 256)) [
      | inl full ↦ Added-moved st top capacity (c % 256) cs text fit room pos small full
      | inr space ↦ Added-in_place st top capacity (c % 256) cs text fit space
    ] in
    let kept : IsStack r.after stack below top =
      IsStack-frame st r.after stack top below at (r.others _ _ _ _ at.holds) in
    (
      with_top r.after stack r.text kept.info kept.capacity below,
      r.text,
      r.room,
      rw (vector_tail_ptr-ok st stack top below at) (
          rw (read_place-ok st stack top below at)
            (rw r.run (write_place-ok r.after stack top below kept r.text))),
      with_top-IsStack r.after stack top r.text below kept,
      record {
        cell = r.is.cell;
        info = r.is.info;
        holds =
            update-other r.after.heap (to_cell stack) (to_cell r.text) _ (λ e.
              bytes-ne-objs r.after (to_cell r.text) (to_cell stack) r.is.info kept.info r.room
                kept.capacity _ _ r.is.holds kept.holds (sym e))
            ∙ r.is.holds;
        owned = r.is.owned;
      },
      r.fits,
    )
