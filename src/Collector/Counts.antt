-- ===== src/Collector/Counts.antt =====
-- qz_ref and qz_unref on a cell that others still use: what happens to its count, colour and place in
-- the root buffer.
use quuz.Prelude.{
  ℕ, suc, ◌+◌, ◌-◌, ◌^◌, ◌<◌, ◌≤◌, ◌≡◌, refl, ap, ◌∙◌, inl, inr, true, false, not, ◌||◌, some, List,
  [], ◌∷◌, ◌++◌, length, ltb, ◌==◌, if◌then◌else◌, arith, Bool-cases,
}
use quuz.Object.Tag.{Obj, is_cell, is_null, to_cell}
use quuz.Object.Color
use quuz.Object.Info.{refcount, color, buffered, set_refcount, set_color, set_buffered}
use quuz.Object.Info.Laws.{
  Fields, fields, fields-set_refcount, fields-set_color, fields-set_buffered, refcount-eq,
  buffered-eq, set_refcount-eq, set_color-eq,
}
use quuz.Machine.Store.{State, Cell}
use quuz.Machine.Outcome.{Outcome, ok, pure, and_then, ◌>>◌}
use quuz.Machine.Cell.{update_info}
use quuz.Machine.Cell.Laws.{with_cell, load-ok, update_info-ok, with_cell_self, with_cell-twice}
use quuz.Collector.{
  ref, unref, increment, decrement, call_if_valid_cell, possible_root, set_root_buffer,
  root_buffer_capacity,
}

set_refcount-lt : (b v : ℕ) → b < 2 ^ 64 → v < 2 ^ 56 → set_refcount b v < 2 ^ 64
set_refcount-lt b v h l = rw (set_refcount-eq b v h l) (ground arith)

set_color-lt : (b v : ℕ) → b < 2 ^ 64 → v < 2 ^ 2 → set_color b v < 2 ^ 64
set_color-lt b v h l = rw (set_color-eq b v h l) (ground arith)

-- The cell with another `info`.
abbrev pub with_info : State → ℕ → Cell → ℕ → State
with_info st p c info = with_cell st p (record c { info = info })

-- The three cases of possible_root: a purple cell, one that is in the root buffer, and another.
module _ (st : State) (p : ℕ) (c : Cell) (holds : st.heap p ≡ some c) where
  possible_root-purple : (color c.info == Color.purple) ≡ true → possible_root p st ≡ ok tt st
  unfolding possible_root
  possible_root-purple is_purple = rw (load-ok st p holds) (rw is_purple refl)

  possible_root-buffered :
      (color c.info == Color.purple) ≡ false
      → (buffered c.info == 0) ≡ false
      → possible_root p st ≡ ok tt (with_info st p c (set_color c.info Color.purple))
  unfolding possible_root
  possible_root-buffered other is_buffered = rw (load-ok st p holds) (
      rw other
        (rw (update_info-ok st p holds (λ b. set_color b Color.purple)) (rw is_buffered refl)))

  possible_root-new :
      (color c.info == Color.purple) ≡ false
      → (buffered c.info == 0) ≡ true
      → length st.root_buffer + 1 < root_buffer_capacity
      → possible_root p st
        ≡ ok tt (record (with_info st p c (set_buffered (set_color c.info Color.purple) 1)) {
          root_buffer = st.root_buffer ++ p ∷ [];
        })
  unfolding possible_root set_root_buffer
  possible_root-new other free room =
      let fits : ltb (length st.root_buffer) 16 ≡ true = ground arith in
      let more : (length st.root_buffer + 1 == 16) ≡ false = ground arith in
      let c₁ : Cell = record c { info = set_color c.info Color.purple } in
      let st₁ = with_cell st p c₁ in
      rw (load-ok st p holds) (
        rw other (
          rw (update_info-ok st p holds (λ b. set_color b Color.purple)) (
            rw free (
              rw (update_info-ok st₁ p (with_cell_self st p c₁) (λ b. set_buffered b 1)) (
                rw (fits, more)
                  (ap (λ (s : State). ok tt (record s { root_buffer = st.root_buffer ++ p ∷ [] }))
                    (with_cell-twice st p c₁ _)))))))

module _ (st : State) (obj : Obj) (c : Cell) (cell : is_cell obj ≡ true)
    (valid : is_null obj ≡ false) (holds : st.heap (to_cell obj) ≡ some c)
    (word : c.info < 2 ^ 64) where
  update_twice :
      (f g : ℕ → ℕ)
      → (do update_info (to_cell obj) f; update_info (to_cell obj) g) st
        ≡ ok tt (with_info st (to_cell obj) c (g (f c.info)))
  update_twice f g =
      let p = to_cell obj in
      let c₁ : Cell = record c { info = f c.info } in
      let st₁ = with_cell st p c₁ in
      rw (update_info-ok st p holds f) (
        update_info-ok st₁ p (with_cell_self st p c₁) g
        ∙ ap (λ (s : State). ok tt s) (with_cell-twice st p c₁ _))

  -- qz_ref of a cell returns the object, raises the cell's reference count by one and colours the cell
  -- black; the other fields of `info`, what the cell holds and all other cells stay. The object is a
  -- cell and not null, its `info` has 64 bits, and the count has room for one more.
  pub ref-counts :
      refcount c.info + 1 < 2 ^ 56
      → (info : ℕ) × (ref obj st ≡ ok obj (with_info st (to_cell obj) c info))
        × (fields info
            ≡ record (fields c.info) { refcount = refcount c.info + 1; color = Color.black })
  unfolding ref call_if_valid_cell increment
  ref-counts room = (
    set_color (set_refcount c.info (refcount c.info + 1)) Color.black,
    rw (cell, valid)
        (ap (λ (o : Outcome (Unit {0})). and_then o (λ _. pure obj))
          (update_twice (λ b. set_refcount b (refcount b + 1)) (λ b. set_color b Color.black))),
    fields-set_color _ 0 (set_refcount-lt c.info (refcount c.info + 1) word room) (omega arith)
        ∙ ap (λ (f : Fields). record f { color = Color.black })
            (fields-set_refcount c.info (refcount c.info + 1) word room),
  )

  abbrev lowered : ℕ
  lowered = set_refcount c.info (refcount c.info - 1)

  refcount-lt : refcount c.info < 2 ^ 56
  refcount-lt = rw (refcount-eq c.info) (omega arith)

  lowered-fields : fields lowered ≡ record (fields c.info) { refcount = refcount c.info - 1 }
  lowered-fields =
      fields-set_refcount c.info (refcount c.info - 1) word (omega (arith, refcount-lt))

  lowered-lt : lowered < 2 ^ 64
  lowered-lt = set_refcount-lt c.info (refcount c.info - 1) word (omega (arith, refcount-lt))

  purple-fields :
      fields (set_color lowered Color.purple)
      ≡ record (fields c.info) { refcount = refcount c.info - 1; color = Color.purple }
  purple-fields =
      fields-set_color lowered 3 lowered-lt (omega arith)
      ∙ ap (λ (f : Fields). record f { color = Color.purple }) lowered-fields

  low_cell : Cell
  low_cell = record c { info = lowered }

  low_state : State
  unfolding low_cell
  low_state = with_cell st (to_cell obj) low_cell

  unref-possible_root :
      2 ≤ refcount c.info → 0 < st.brk → unref obj st ≡ possible_root (to_cell obj) low_state
  unfolding unref call_if_valid_cell decrement low_state
  unref-possible_root shared alloc =
      let m = st.brk - 1 in
      let e : st.brk ≡ suc m = omega arith in
      let some_left : (refcount c.info == 0) ≡ false = ground arith in
      let still : (refcount c.info - 1 == 0) ≡ false = ground arith in
      rw (cell, valid)
        (ap (λ (n : ℕ). decrement n (to_cell obj) st) e
          ∙ rw (load-ok st (to_cell obj) holds)
              (rw some_left (rw (update_info-ok st (to_cell obj) holds _) (rw still refl))))

  -- qz_unref of a cell with a count of at least two lowers the count by one, colours the cell purple
  -- and frees nothing. Unless the cell was purple, it is now buffered; if it was neither purple nor
  -- buffered, it is now the last entry of the root buffer, which is otherwise the same. The type, the
  -- dirty bit, what the cell holds and all other cells stay. The object is
  -- not null, its `info` has 64 bits, and the buffer has room for two more.
  pub unref-shared :
      2 ≤ refcount c.info
      → length st.root_buffer + 1 < root_buffer_capacity
      → 0 < st.brk
      → (info : ℕ) × (roots : List ℕ) × (unref obj st
          ≡ ok tt (record (with_info st (to_cell obj) c info) { root_buffer = roots }))
        × (fields info ≡ record (fields c.info) {
          refcount = refcount c.info - 1;
          color = Color.purple;
          buffered = if color c.info == Color.purple then buffered c.info else 1;
        })
        × (roots ≡ (
            if (color c.info == Color.purple) || not (buffered c.info == 0)
            then st.root_buffer
            else st.root_buffer ++ to_cell obj ∷ []))
  unfolding low_state low_cell
  unref-shared shared room alloc =
      let p = to_cell obj in
      let start = unref-possible_root shared alloc in
      let held = with_cell_self st p low_cell in
      let hue : color lowered ≡ color c.info = ap (λ (f : Fields). f.color) lowered-fields in
      let queued : buffered lowered ≡ buffered c.info =
        ap (λ (f : Fields). f.buffered) lowered-fields in
      elim (Bool-cases (color c.info == Color.purple)) [
        | inl is_purple ↦ (
          lowered,
          st.root_buffer,
          start ∙ possible_root-purple low_state p low_cell held (rw hue is_purple),
          rw is_purple (
              lowered-fields
              ∙ ap (λ (k : ℕ). record (fields c.info) { refcount = refcount c.info - 1; color = k })
                  (ground arith)),
          rw is_purple refl,
        )
        | inr other ↦ elim (Bool-cases (buffered c.info == 0)) [
          | inl free ↦ (
            set_buffered (set_color lowered Color.purple) 1,
            st.root_buffer ++ p ∷ [],
            start
                ∙ possible_root-new low_state p low_cell held (rw hue other) (rw queued free) room
                ∙ ap (λ (s : State). ok tt (record s { root_buffer = st.root_buffer ++ p ∷ [] }))
                    (with_cell-twice st p low_cell _),
            rw other (
                fields-set_buffered _ 1 (set_color-lt lowered 3 lowered-lt (omega arith))
                  (omega arith)
                ∙ ap (λ (f : Fields). record f { buffered = 1 }) purple-fields),
            rw (other, free) refl,
          )
          | inr is_buffered ↦ (
            set_color lowered Color.purple,
            st.root_buffer,
            start
                ∙ possible_root-buffered low_state p low_cell held (rw hue other)
                    (rw queued is_buffered)
                ∙ ap (λ (s : State). ok tt s) (with_cell-twice st p low_cell _),
            rw other (
                purple-fields
                ∙ ap
                    (λ (k : ℕ). record (fields c.info) {
                      refcount = refcount c.info - 1;
                      color = Color.purple;
                      buffered = k;
                    })
                    (ground (arith, buffered-eq c.info))),
            rw (other, is_buffered) refl,
          )
        ]
      ]
