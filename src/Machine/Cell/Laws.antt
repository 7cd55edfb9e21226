-- ===== src/Machine/Cell/Laws.antt =====
-- What memory accesses do where the cell is there.
use quuz.Prelude.{ℕ, ◌≡◌, ◌≢◌, ap, fun_ext, Option, none, some, arith}
use quuz.Machine.Store.{Cell, Payload, State}
use quuz.Machine.Outcome.{ok}
use quuz.Machine.Cell.{load, store, update, update_info, put, release_memory}

-- A state in which the cell at `p` is replaced.
abbrev pub with_cell : State → ℕ → Cell → State
with_cell st p c = record st { heap = update st.heap p (some c) }

module _ (st : State) (p : ℕ) {c : Cell} (holds : st.heap p ≡ some c) where
  pub load-ok : load p st ≡ ok c st
  unfolding load
  load-ok = rw (holds, load)

  pub store-ok : (d : Cell) → store p d st ≡ ok tt (with_cell st p d)
  unfolding store
  store-ok d = rw (holds, store)

  pub update_info-ok :
      (f : ℕ → ℕ) → update_info p f st ≡ ok tt (with_cell st p (record c { info = f c.info }))
  unfolding update_info
  update_info-ok f = rw load-ok (store-ok _)

  pub put-ok : (v : Payload) → put p v st ≡ ok tt (with_cell st p (record c { value = v }))
  unfolding put
  put-ok v = rw load-ok (store-ok _)

pub release_memory-ok :
    (st : State) (p : ℕ) (c : Cell)
    → st.heap p ≡ some c
    → release_memory p st ≡ ok tt (record st { heap = update st.heap p none })
unfolding release_memory
release_memory-ok st p c holds = rw (release_memory, holds)

pub with_cell_self : (st : State) (p : ℕ) (c : Cell) → (with_cell st p c).heap p ≡ some c
with_cell_self st p c = ground arith

with_cell-update :
    (h : ℕ → Option Cell) (p : ℕ) (c d : Cell) (q : ℕ)
    → update (update h p (some c)) p (some d) q ≡ update h p (some d) q
with_cell-update h p c d q = ground arith

-- Of two writes to one cell the second stays.
pub with_cell-twice :
    (st : State) (p : ℕ) (c d : Cell) → with_cell (with_cell st p c) p d ≡ with_cell st p d
with_cell-twice st p c d =
    ap (λ (h : ℕ → Option Cell). record st { heap = h }) (fun_ext (with_cell-update st.heap p c d))

module _ (h : ℕ → Option Cell) (p : ℕ) where
  pub update-other : (q : ℕ) (c : Option Cell) → q ≢ p → update h p c q ≡ h q
  update-other q c ne = ground arith

  pub update_self : (c : Option Cell) → update h p c p ≡ c
  update_self c = ground arith

-- Writing what a cell holds changes nothing.
pub with_cell_same : (st : State) (p : ℕ) (c : Cell) → st.heap p ≡ some c → with_cell st p c ≡ st
with_cell_same st p c holds =
    ap (λ (h : ℕ → Option Cell). record st { heap = h }) (fun_ext (λ q. same q))
  where
    same : (q : ℕ) → update st.heap p (some c) q ≡ st.heap q
    same q = ground (arith, holds)
