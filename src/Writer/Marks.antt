-- ===== src/Writer/Marks.antt =====
-- qz_write of quuz-write.c on a list of fixnums: the marks that the writer leaves are taken away.
use native.Mathlib.Decide.{ℕ_discrete}
use quuz.Prelude.{
  ℕ, suc, ◌/◌, ◌%◌, ◌^◌, ◌<◌, ◌≡◌, ◌⊎◌, inl, inr, refl, sym, ap, subst, ◌∙◌, fun_ext, Bool, true,
  false, Option, some, List, ◌∷◌, ◌++◌, length, arith, Bool-cases,
}
use quuz.Prelude.Text.{codes}
use quuz.Object.Tag.{Obj, is_cell, is_null, is_fixnum, to_cell}
use quuz.Object.Info.{cell_type, dirty, set_dirty}
use quuz.Object.Info.Laws.{dirty-eq, set_dirty-eq}
use quuz.Object.CellType
use quuz.Machine.Store.{State, Cell, pair, port}
use quuz.Machine.Outcome.{ok}
use quuz.Machine.Cell.{update, cell_ptr}
use quuz.Machine.Cell.Laws.{with_cell, load-ok, update_info-ok, update-other, update_self}
use quuz.Machine.Chain.{IsPairAt, IsChain, pair_at-ok}
use quuz.Machine.Pairs.{is_pair-ne-null}
use quuz.Collector.{call_if_valid_cell, all_children, pair_children}
use quuz.Hash.{CityHash}
use quuz.Writer.{CLibrary, clear_dirty, port_fp, write_to}
use quuz.Writer.Lists.{wrote, numbers_text, AllFixnums, cell_type-set_dirty, write_object-list}

-- An object whose cell is marked in no way: a word, null, or a clean pair.
abbrev pub IsClean : State → Obj → Type 0
IsClean st obj =
    (is_null obj ≡ true) ⊎ ((a b : Obj) × (at : IsPairAt st obj a b) × (dirty at.info ≡ 0))

module _ (info : ℕ) (word : info < 2 ^ 64) where
  dirty_marked : dirty (set_dirty info 1) ≡ 1
  dirty_marked =
      rw (dirty-eq (set_dirty info 1), set_dirty-eq info 1 word (omega arith)) (omega arith)

  marked-lt : set_dirty info 1 < 2 ^ 64
  marked-lt = rw (set_dirty-eq info 1 word (omega arith)) (omega arith)

  unmarked : dirty info ≡ 0 → set_dirty (set_dirty info 1) 0 ≡ info
  unmarked clean =
      let d : info / 2 ^ 63 % 2 ≡ 0 = sym (dirty-eq info) ∙ clean in
      rw
        (
          set_dirty-eq (set_dirty info 1) 0 marked-lt (omega arith),
          set_dirty-eq info 1 word (omega arith),
        )
        (omega arith)

-- To write over a cell and then put the old cell back changes nothing.
restored :
    (st : State) (fp p : ℕ) (s : List ℕ) (c d : Cell)
    → st.heap p ≡ some c
    → with_cell (wrote (with_cell st p d) fp s) p c ≡ wrote st fp s
restored st fp p s c d holds =
    ap (λ (h : ℕ → Option Cell). record (wrote st fp s) { heap = h }) (fun_ext same)
  where
    same : (q : ℕ) → update (update st.heap p (some d)) p (some c) q ≡ st.heap q
    same q = elim (ℕ_discrete q p) [
      | yes e ↦
          ap (update (update st.heap p (some d)) p (some c)) e
          ∙ update_self (update st.heap p (some d)) p (some c)
          ∙ sym holds
          ∙ ap st.heap (sym e)
      | no ne ↦
          update-other (update st.heap p (some d)) p q (some c) ne
          ∙ update-other st.heap p q (some d) ne
    ]

fixnum-word : (x : Obj) → is_fixnum x ≡ true → is_cell x ≡ false
unfolding is_fixnum is_cell
fixnum-word x fix = ground arith

-- A clean pair is left as it is.
clear_dirty-clean :
    (st : State) (n : ℕ) (obj : Obj)
    → IsClean st obj
    → call_if_valid_cell obj (clear_dirty (suc n)) st ≡ ok tt st
unfolding call_if_valid_cell clear_dirty
clear_dirty-clean st n obj (inl null) = elim (Bool-cases (is_cell obj)) [
  | inl cell ↦ rw (cell, null) refl
  | inr word ↦ rw word refl
]
clear_dirty-clean st n obj (inr (a, b, at, clean)) =
    rw (at.cell, is_pair-ne-null st obj a b at)
      (rw (load-ok st (to_cell obj) at.holds) (rw clean refl))

-- The mark of a pair with a word in front and a clean object behind is taken away.
clear_dirty-pair :
    (st : State) (n : ℕ) (obj x next : Obj) (at : IsPairAt st obj x next)
    → dirty at.info ≡ 1
    → cell_type (set_dirty at.info 0) ≡ CellType.pair
    → is_cell x ≡ false
    → IsClean
        (with_cell st (to_cell obj) (record { info = set_dirty at.info 0; value = pair x next }))
        next
    → call_if_valid_cell obj (clear_dirty (suc (suc n))) st
      ≡ ok tt
          (with_cell st (to_cell obj) (record { info = set_dirty at.info 0; value = pair x next }))
unfolding call_if_valid_cell clear_dirty all_children pair_children
clear_dirty-pair st n obj x next at marked type word clean =
    let st1 =
      with_cell st (to_cell obj) (record { info = set_dirty at.info 0; value = pair x next }) in
    let at1 : IsPairAt st1 obj x next = record {
      cell = at.cell;
      present = at.present;
      info = set_dirty at.info 0;
      holds = update_self st.heap (to_cell obj) _;
      type = type;
    } in
    rw (at.cell, is_pair-ne-null st obj x next at)
      (rw (load-ok st (to_cell obj) at.holds) (
        rw marked (
          rw (update_info-ok st (to_cell obj) at.holds (λ info. set_dirty info 0)) (
            rw (load-ok st1 (to_cell obj) at1.holds) (
              rw type (
                rw (pair_at-ok st1 obj x next at1) (
                  rw word
                    (rw (pair_at-ok st1 obj x next at1) (clear_dirty-clean st1 n next clean)))))))))

wrote-IsClean :
    (st : State) (fp : ℕ) (s : List ℕ) (obj : Obj) → IsClean st obj → IsClean (wrote st fp s) obj
wrote-IsClean st fp s obj (inl null) = inl null
wrote-IsClean st fp s obj (inr (a, b, at, clean)) = inr (
  a,
  b,
  record { cell = at.cell; present = at.present; info = at.info; holds = at.holds; type = at.type },
  clean,
)

-- An open port.
pub record IsOpen (st : State) (out : Obj) (fp : ℕ) : Type 0 where
  pub cell : is_cell out ≡ true
  pub info : ℕ
  pub mode : List ℕ
  pub holds :
      st.heap (to_cell out)
      ≡ some (record { info = info; value = port (record { fp = some fp; mode = mode }) })

module _ ⦃city : CityHash⦄ (libc : CLibrary) where
  port_fp-open :
      (st : State) (out : Obj) (fp : ℕ) → IsOpen st out fp → port_fp out st ≡ ok (some fp) st
  unfolding port_fp cell_ptr
  port_fp-open st out fp at = rw at.cell (rw (load-ok st (to_cell out) at.holds) refl)

  -- qz_write and qz_display of a list of fixnums to an open port end without a fault, write the numbers
  -- in decimal between parentheses with one space between two of them, and change nothing else: the mark
  -- that the writer sets on the list is taken away. The first two cells of the list are not marked, and
  -- the fuel is above the length of the list.
  pub write_to-list :
      (m : ℕ) (human : Bool) (st : State) (obj x next out fp : ℕ) (xs : List Obj)
      → IsOpen st out fp
      → length xs < suc m
      → (at : IsPairAt st obj x next) → IsChain st next xs 2
      → AllFixnums (x ∷ xs)
      → at.info < 2 ^ 64
      → dirty at.info ≡ 0
      → IsClean st next
      → write_to libc (suc (suc m)) human obj out st
        ≡ ok tt (wrote st fp ((codes "(" ++ numbers_text false (x ∷ xs)) ++ codes ")"))
  unfolding write_to
  write_to-list m human st obj x next out fp xs opened lt at more fix word clean next_clean =
      let s = (codes "(" ++ numbers_text false (x ∷ xs)) ++ codes ")" in
      let marked_cell : Cell = record { info = set_dirty at.info 1; value = pair x next } in
      let written : State = wrote (with_cell st (to_cell obj) marked_cell) fp s in
      let marked_at : IsPairAt written obj x next = record {
        cell = at.cell;
        present = at.present;
        info = set_dirty at.info 1;
        holds = update_self st.heap (to_cell obj) (some marked_cell);
        type = cell_type-set_dirty at.info word ∙ at.type;
      } in
      let back : with_cell written (to_cell obj)
            (record { info = set_dirty (set_dirty at.info 1) 0; value = pair x next })
          ≡ wrote st fp s =
        ap (λ i. with_cell written (to_cell obj) (record { info = i; value = pair x next }))
          (unmarked at.info word clean)
        ∙ restored st fp (to_cell obj) s _ marked_cell at.holds in
      rw (port_fp-open st out fp opened) (
        rw (write_object-list libc fp human m st obj x next xs false lt at more fix word clean) (
          clear_dirty-pair written m obj x next marked_at (dirty_marked at.info word)
            (ap cell_type (unmarked at.info word clean) ∙ at.type) (fixnum-word x fix.0)
            (subst (λ st'. IsClean st' next) (sym back) (wrote-IsClean st fp s next next_clean))
          ∙ ap (ok tt) back))
