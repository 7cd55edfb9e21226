-- ===== src/Machine/Builds.antt =====
-- Runs that build lists: no pair in the heap gets a mark of the writer, and ports stay.
use native.Mathlib.Decide.{ℕ_discrete}
use quuz.Prelude.{ℕ, ◌^◌, ◌<◌, ◌≡◌, refl, sym, ap, ◌∙◌, subst, Option, none, some, arith}
use quuz.Object.Tag.{Obj}
use quuz.Object.Info.{dirty, get_bits}
use quuz.Machine.Store.{State, Cell, Port, pair, port}
use quuz.Machine.Cell.{update}
use quuz.Machine.Cell.Laws.{with_cell, update-other, update_self}
use quuz.Machine.Room.{HasRoom, with_pair, ne-brk}

-- A cell that is no marked pair.
abbrev pub IsCleanCell : Cell → Type 0
IsCleanCell c = elim c.value [ pair a b ↦ (c.info < 2 ^ 64) × (dirty c.info ≡ 0) | _ ↦ Unit {0} ]

abbrev pub IsCleanHeap : State → Type 0
IsCleanHeap st = (q : ℕ) (c : Cell) → st.heap q ≡ some c → IsCleanCell c

abbrev pub IsNoPort : Cell → Type 0
IsNoPort c = elim c.value [ port p ↦ ⊥ | _ ↦ Unit {0} ]

pub record Builds (st after : State) : Type 0 where
  pub clean : IsCleanHeap st → IsCleanHeap after
  pub ports :
      (q info : ℕ) (p : Port)
      → st.heap q ≡ some (record { info = info; value = port p })
      → after.heap q ≡ st.heap q

pub Builds-self : (st : State) → Builds st st
Builds-self st = record { clean = λ h. h; ports = λ q info p holds. refl }

pub Builds-trans : (st mid after : State) → Builds st mid → Builds mid after → Builds st after
Builds-trans st mid after left right = record {
  clean = λ h. right.clean (left.clean h);
  ports = λ q info p holds.
      let kept = left.ports q info p holds in right.ports q info p (kept ∙ holds) ∙ kept;
}

abbrev pub OnCell : (Cell → Type 0) → Option Cell → Type 0
OnCell P none = Unit {0}
OnCell P (some c) = P c

-- A write to a cell that is no port.
pub Builds-write :
    (st : State) (p : ℕ) (c d : Cell)
    → st.heap p ≡ some c
    → IsNoPort c
    → (IsCleanCell c → IsCleanCell d)
    → Builds st (with_cell st p d)
Builds-write st p c d holds no_port keeps = record {
  clean = λ h q e there. elim (ℕ_discrete q p) [
    | yes same ↦
        subst (OnCell IsCleanCell)
          (sym (update_self st.heap p (some d)) ∙ ap (update st.heap p (some d)) (sym same) ∙ there)
          (keeps (h p c holds))
    | no ne ↦ h q e (sym (update-other st.heap p q (some d) ne) ∙ there)
  ];
  ports = λ q info v there. elim (ℕ_discrete q p) [
    | yes same ↦
        absurd (subst (OnCell IsNoPort) (sym holds ∙ ap st.heap (sym same) ∙ there) no_port)
    | no ne ↦ update-other st.heap p q (some d) ne
  ];
}

-- A new pair.
pub Builds-pair : (st : State) (v : Obj) → HasRoom st → Builds st (with_pair st v)
unfolding dirty get_bits
Builds-pair st v room = record {
  clean = λ h q e there. elim (ℕ_discrete q st.brk) [
    | yes same ↦
        subst (OnCell IsCleanCell)
          (sym (update_self st.heap st.brk (some (record { info = 1; value = pair v 2 })))
            ∙ ap (with_pair st v).heap (sym same)
            ∙ there)
          (omega arith, refl)
    | no ne ↦ h q e (sym (update-other st.heap st.brk q _ ne) ∙ there)
  ];
  ports = λ q info p holds. update-other st.heap st.brk q _ (ne-brk st v room q _ holds);
}
