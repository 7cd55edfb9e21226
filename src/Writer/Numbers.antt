-- ===== src/Writer/Numbers.antt =====
-- The reader and the writer together: a list of numbers is written the way it was read.
use quuz.Prelude.{
  ℕ, suc, ◌<◌, ◌≡◌, refl, ap, ◌∙◌, inl, inr, Bool, true, false, List, [], ◌∷◌, ◌++◌, length, map,
}
use quuz.Prelude.Text.{codes, signed_decimal}
use quuz.Object.Tag.{Obj, is_null, from_fixnum}
use quuz.Object.Tag.Laws.{IsFixnumRange, to_fixnum-from_fixnum}
use quuz.Machine.Store.{State}
use quuz.Machine.Outcome.{ok}
use quuz.Machine.Builds.{IsCleanHeap}
use quuz.Machine.Chain.{IsChain}
use quuz.Machine.Array.Laws.{IsStack}
use quuz.Machine.Room.{HasRoom}
use quuz.Hash.{CityHash}
use quuz.Reader.Actions.{number, run_actions}
use quuz.Reader.Numbers.{run_actions-Built}
use quuz.Writer.{CLibrary, write_to}
use quuz.Writer.Lists.{wrote, spacing, numbers_text, AllFixnums}
use quuz.Writer.Marks.{IsClean, IsOpen, write_to-list}

-- The integers in decimal, with a space before each, the first one's if it is needed.
abbrev pub decimals : Bool → List ℕ → List ℕ
decimals need_space [] = []
decimals need_space (i ∷ is) = (spacing need_space ++ signed_decimal i) ++ decimals true is

-- Integers of 62 bits.
abbrev pub AllInRange : List ℕ → Type 0
AllInRange [] = Unit {0}
AllInRange (i ∷ is) = IsFixnumRange i × AllInRange is

map-AllFixnums : (is : List ℕ) → AllInRange is → AllFixnums (map from_fixnum is)
map-AllFixnums [] _ = tt
map-AllFixnums (i ∷ is) (h, hs) = ((to_fixnum-from_fixnum i h).1, map-AllFixnums is hs)

numbers_text-decimals :
    (is : List ℕ) (need_space : Bool)
    → AllInRange is
    → numbers_text need_space (map from_fixnum is) ≡ decimals need_space is
numbers_text-decimals [] need_space _ = refl
numbers_text-decimals (i ∷ is) need_space (h, hs) =
    rw ((to_fixnum-from_fixnum i h).0, numbers_text-decimals is true hs) refl

length-map-from_fixnum : (is : List ℕ) → length (map from_fixnum is) ≡ length is
length-map-from_fixnum [] = refl
length-map-from_fixnum (i ∷ is) = ap suc (length-map-from_fixnum is)

-- The rest of a list in a heap without marks.
chain-IsClean :
    (st : State) (obj : Obj) (xs : List Obj) → IsCleanHeap st → IsChain st obj xs 2 → IsClean st obj
unfolding is_null
chain-IsClean st obj [] clean end = inl (rw end refl)
chain-IsClean st obj (x ∷ xs) clean (next, at, more) = inr (x, next, at, (clean _ _ at.holds).1)

module _ ⦃city : CityHash⦄ (libc : CLibrary) where
  -- The actions of a list of integers, run on an empty list at the top of the stack, and then qz_write
  -- of what they made, both end without a fault, and write the integers in decimal between
  -- parentheses, in their order, with one space between two of them; writing changes nothing else. The
  -- integers have 62 bits, there is one at least, the heap has no cells from its next address on, the
  -- port is open and the writer has left no marks on pairs before, and the fuel is above the number of
  -- integers.
  pub run_actions-write_to :
      (i : ℕ) (is : List ℕ) (m : ℕ) (human : Bool) (st : State) (stack out fp : ℕ)
      (below : List Obj)
      → IsStack st stack below 2
      → HasRoom st
      → IsCleanHeap st
      → IsOpen st out fp
      → AllInRange (i ∷ is)
      → length is < suc m
      → (after : State) × (list : Obj) × (run_actions stack (map number (i ∷ is)) st
          ≡ ok stack after)
        × (write_to libc (suc (suc m)) human list out after
            ≡ ok tt (wrote after fp ((codes "(" ++ decimals false (i ∷ is)) ++ codes ")")))
  run_actions-write_to i is m human st stack out fp below at room clean opened range lt =
      let b = run_actions-Built (i ∷ is) st stack 2 below [] at room room.positive refl in
      let (next, pair, more) = b.chain in
      let cleaned = b.builds.clean clean in
      let (word, unmarked) = cleaned _ _ pair.holds in
      let still : IsOpen b.after out fp = record {
        cell = opened.cell;
        info = opened.info;
        mode = opened.mode;
        holds = b.builds.ports _ _ _ opened.holds ∙ opened.holds;
      } in
      let same = numbers_text-decimals (i ∷ is) false range in
      (
        b.after,
        b.list,
        b.run,
        write_to-list libc m human b.after b.list (from_fixnum i) next out fp (map from_fixnum is)
              still (rw (length-map-from_fixnum is) lt) pair more (map-AllFixnums (i ∷ is) range)
              word unmarked (chain-IsClean b.after next (map from_fixnum is) cleaned more)
            ∙ ap (λ t. ok tt (wrote b.after fp ((codes "(" ++ t) ++ codes ")"))) same,
      )
