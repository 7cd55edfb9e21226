-- ===== src/Writer/Lists.antt =====
-- What quuz-write.c writes for a list of fixnums.
use mathlib.Core.List.{append_assoc, append-nil, map-append}
use native.Mathlib.Decide.{ℕ_discrete}
use quuz.Prelude.{
  ℕ, zero, suc, ◌^◌, ◌<◌, ◌≡◌, refl, sym, ap, ◌∙◌, Bool, true, false, Option, none, some, List, [],
  ◌∷◌, ◌++◌, length, map, if◌then◌else◌, arith,
}
use quuz.Prelude.Text.{codes, signed_decimal}
use quuz.Object.Tag.{Obj, is_cell, is_null, is_fixnum, to_cell, to_fixnum}
use quuz.Object.Info.{cell_type, dirty, set_dirty}
use quuz.Object.Info.Laws.{cell_type-eq, set_dirty-eq}
use quuz.Object.CellType
use quuz.Machine.Store.{State, Cell, Payload, pair, uninit}
use quuz.Machine.Outcome.{Outcome, ok, M, pure, and_then, ◌>>◌}
use quuz.Machine.Cell.{cell_ptr, update}
use quuz.Machine.Cell.Laws.{with_cell, load-ok, update_info-ok}
use quuz.Machine.Chain.{IsPairAt, IsChain, is_pair-ok, pair_at-ok}
use quuz.Hash.{CityHash}
use quuz.Machine.Pairs.{PairsKept, IsPairAt-kept, IsChain-kept, is_pair-ne-null}
use quuz.Machine.Cell.Laws.{update-other, update_self}
use quuz.Writer.{
  CLibrary, Write, emit, space, token, write_list, write_within, write_value, write_cell,
  write_object,
}

-- The state after `s` was written to the stream `fp`.
abbrev pub wrote : State → ℕ → List ℕ → State
wrote st fp s = record st { output = st.output ++ map (λ c. (fp, c)) s }

wrote-append :
    (st : State) (fp : ℕ) (s t : List ℕ) → wrote (wrote st fp s) fp t ≡ wrote st fp (s ++ t)
wrote-append st fp s t =
    ap (λ (o : List (ℕ × ℕ)). record st { output = o })
      (append_assoc st.output (map (λ c. (fp, c)) s) (map (λ c. (fp, c)) t)
        ∙ ap (λ (o : List (ℕ × ℕ)). st.output ++ o) (sym (map-append (λ c. (fp, c)) s t)))

abbrev pub spacing : Bool → List ℕ
spacing need_space = if need_space then b' ' ∷ [] else []

token-run :
    (st : State) (fp : ℕ) (need_space : Bool) (s : List ℕ)
    → token (some fp) need_space s st ≡ ok true (wrote st fp (spacing need_space ++ s))
unfolding token space emit
token-run st fp true s = ap (ok true) (wrote-append st fp (b' ' ∷ []) s)
token-run st fp false s = refl

-- The numbers with a space before each, the first one's if it is needed.
abbrev pub numbers_text : Bool → List Obj → List ℕ
numbers_text need_space [] = []
numbers_text need_space (x ∷ xs) =
    (spacing need_space ++ signed_decimal (to_fixnum x)) ++ numbers_text true xs

abbrev pub AllFixnums : List Obj → Type 0
AllFixnums [] = Unit {0}
AllFixnums (x ∷ xs) = (is_fixnum x ≡ true) × AllFixnums xs

wrote-PairsKept : (st : State) (fp : ℕ) (s : List ℕ) → PairsKept st (wrote st fp s)
wrote-PairsKept st fp s q i a b holds type = (i, holds, type)

pub cell_type-set_dirty : (info : ℕ) → info < 2 ^ 64 → cell_type (set_dirty info 1) ≡ cell_type info
cell_type-set_dirty info word =
    rw (cell_type-eq (set_dirty info 1), cell_type-eq info, set_dirty-eq info 1 word (omega arith))
      (omega arith)

pub not-fixnum : (obj : Obj) → is_cell obj ≡ true → is_fixnum obj ≡ false
unfolding is_cell is_fixnum
not-fixnum obj cell = ground arith

abbrev value_of : Option Cell → Payload
value_of none = uninit
value_of (some c) = c.value

-- A new `info` with the same type.
info-PairsKept :
    (st : State) (p i j : ℕ) (v : Payload)
    → st.heap p ≡ some (record { info = i; value = v })
    → cell_type j ≡ CellType.pair
    → PairsKept st (with_cell st p (record { info = j; value = v }))
info-PairsKept st p i j v holds pair_type q k a b there type = elim (ℕ_discrete q p) [
  | yes e ↦ (
    j,
    ap (update st.heap p _) e
        ∙ update_self st.heap p _
        ∙ ap (λ (w : Payload). some (record { info = j; value = w }))
            (ap value_of (sym holds ∙ ap st.heap (sym e) ∙ there)),
    pair_type,
  )
  | no ne ↦ (k, update-other st.heap p q _ ne ∙ there, type)
]

module _ ⦃city : CityHash⦄ (libc : CLibrary) (fp : ℕ) (human : Bool) where
  write_object-fixnum :
      (m : ℕ) (st : State) (x : Obj) (need_space : Bool)
      → is_fixnum x ≡ true
      → write_object libc (suc m) (some fp) human x need_space st
        ≡ ok true (wrote st fp (spacing need_space ++ signed_decimal (to_fixnum x)))
  unfolding write_object
  write_object-fixnum m st x need_space fix = rw fix (token-run st fp need_space _)

  -- The loop over the pairs.
  write_list-numbers :
      (m n : ℕ) (st : State) (obj x : Obj) (xs : List Obj) (need_space : Bool)
      → length xs < n
      → IsChain st obj (x ∷ xs) 2
      → AllFixnums (x ∷ xs)
      → write_list
          (write_object libc (suc m) (some fp) human)
          (some fp)
          n
          (to_cell obj)
          need_space
          st
        ≡ ok tt (wrote st fp (numbers_text need_space (x ∷ xs)))
  unfolding write_list is_null cell_ptr
  write_list-numbers m zero st obj x xs need_space lt chain fix = absurd (omega arith)
  write_list-numbers m (suc n) st obj x [] need_space lt (next, at, end) (fix, _) =
      let s = spacing need_space ++ signed_decimal (to_fixnum x) in
      let at1 = IsPairAt-kept st (wrote st fp s) obj x next (wrote-PairsKept st fp s) at in
      rw (pair_at-ok st obj x next at) (
        rw (write_object-fixnum m st x need_space fix) (
          rw (pair_at-ok (wrote st fp s) obj x next at1)
            (rw end (ap (λ t. ok tt (wrote st fp t)) (sym (append-nil s))))))
  write_list-numbers m (suc n) st obj x (y ∷ xs) need_space lt (next, at, more) (fix, fixes) =
      let s = spacing need_space ++ signed_decimal (to_fixnum x) in
      let st1 = wrote st fp s in
      let at1 = IsPairAt-kept st st1 obj x next (wrote-PairsKept st fp s) at in
      let more1 = IsChain-kept st st1 next 2 (y ∷ xs) (wrote-PairsKept st fp s) more in
      let next_at = more1.1 in
      let rec = write_list-numbers m n st1 next y xs true (omega arith) more1 fixes in
      rw (pair_at-ok st obj x next at) (
        rw (write_object-fixnum m st x need_space fix) (
          rw (pair_at-ok st1 obj x next at1) (
            rw (is_pair-ne-null st1 next y more1.0 next_at) (
              rw (is_pair-ok st1 next y more1.0 next_at) (
                rw next_at.cell
                  (rec ∙ ap (ok tt) (wrote-append st fp s (numbers_text true (y ∷ xs)))))))))

  -- The end of write_within.
  closing-run :
      (st : State) (t closing s : List ℕ) (inner : M (Unit {0}))
      → inner (wrote st fp s) ≡ ok tt (wrote (wrote st fp s) fp t)
      → and_then (inner (wrote st fp s)) (λ u. emit (some fp) closing >> pure true)
        ≡ ok true (wrote st fp ((s ++ t) ++ closing))
  unfolding emit
  closing-run st t closing s inner runs =
      ap (λ (o : Outcome (Unit {0})). and_then o (λ u. emit (some fp) closing >> pure true)) runs
      ∙ ap (λ (s' : State). ok true (wrote s' fp closing)) (wrote-append st fp s t)
      ∙ ap (ok true) (wrote-append st fp (s ++ t) closing)

  within-run :
      (st : State) (write : Write) (need_space : Bool) (opening t closing : List ℕ)
      (inner : M (Unit {0}))
      → ((s : List ℕ) → inner (wrote st fp s) ≡ ok tt (wrote (wrote st fp s) fp t))
      → write_within write (some fp) opening need_space inner closing st
        ≡ ok true (wrote st fp (((spacing need_space ++ opening) ++ t) ++ closing))
  unfolding write_within space emit
  within-run st write true opening t closing inner runs =
      ap (λ (s : State). and_then (inner s) (λ u. emit (some fp) closing >> pure true))
        (wrote-append st fp (b' ' ∷ []) opening)
      ∙ closing-run st t closing (b' ' ∷ opening) inner (runs (b' ' ∷ opening))
  within-run st write false opening t closing inner runs =
      closing-run st t closing opening inner (runs opening)

  -- write_object of a list of fixnums whose first cell is not dirty ends without a fault, and writes the
  -- numbers in decimal between parentheses, one space between two of them and one before the list if it
  -- is needed; a space is needed afterwards. The only other change is the dirty bit of the first cell.
  pub write_object-list :
      (m : ℕ) (st : State) (obj x next : Obj) (xs : List Obj) (need_space : Bool)
      → length xs < suc m
      → (at : IsPairAt st obj x next) → IsChain st next xs 2
      → AllFixnums (x ∷ xs)
      → at.info < 2 ^ 64
      → dirty at.info ≡ 0
      → write_object libc (suc (suc m)) (some fp) human obj need_space st
        ≡ ok true (
            wrote
              (with_cell st
                (to_cell obj)
                (record { info = set_dirty at.info 1; value = pair x next }))
              fp
              (((spacing need_space ++ codes "(") ++ numbers_text false (x ∷ xs)) ++ codes ")"))
  unfolding write_object write_cell write_value
  write_object-list m st obj x next xs need_space lt at more fix word clean =
      let pair_type = cell_type-set_dirty at.info word ∙ at.type in
      let st1 =
        with_cell st (to_cell obj) (record { info = set_dirty at.info 1; value = pair x next }) in
      let kept =
        info-PairsKept st (to_cell obj) at.info (set_dirty at.info 1) _ at.holds pair_type in
      rw (not-fixnum obj at.cell, at.cell)
        (rw at.present (
          rw (load-ok st (to_cell obj) at.holds) (
            rw clean (
              rw (update_info-ok st (to_cell obj) at.holds (λ info. set_dirty info 1)) (
                rw (load-ok st1 (to_cell obj) (update_self st.heap (to_cell obj) _)) (
                  rw pair_type (
                    within-run st1 (write_object libc (suc m) (some fp) human) need_space
                      (codes "(") (numbers_text false (x ∷ xs)) (codes ")")
                      (write_list (write_object libc (suc m) (some fp) human) (some fp) (suc m)
                        (to_cell obj) false)
                      (λ s.
                        write_list-numbers m (suc m) (wrote st1 fp s) obj x xs false lt
                          (IsChain-kept st1 (wrote st1 fp s) obj 2 (x ∷ xs)
                            (wrote-PairsKept st1 fp s)
                            (IsChain-kept st st1 obj 2 (x ∷ xs) kept (next, at, more)))
                          fix))))))))
