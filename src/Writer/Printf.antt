-- ===== src/Writer/Printf.antt =====
-- qz_printf of quuz-util.c.
use quuz.Prelude.{ℕ, not, Option, List, [], ◌∷◌, ◌==◌, if◌then◌else◌}
use quuz.Object.Tag.{Obj}
use quuz.Machine.Outcome.{M, ◌>>=◌, ◌>>◌, crash, skip}
use quuz.Machine.Cell.{to_port}
use quuz.Hash.{CityHash}
use quuz.Writer.{CLibrary, emit, write, display}

module _ ⦃city : CityHash⦄ where
  -- The loop of qz_printf: the format and the arguments that are left. A `%` before another letter is
  -- dropped, and so is one at the end of the format. An argument that was not given is a fault.
  unfoldable pub printf_loop :
      CLibrary → ℕ → Option ℕ → Obj → (fmt : List ℕ) → List Obj → M (Unit {0})
  unfolding emit display write
  printf_loop libc n fp out [] objs = skip
  printf_loop libc n fp out (c ∷ []) objs = emit fp (if c == b'%' then [] else c ∷ [])
  printf_loop libc n fp out (c ∷ d ∷ fmt) objs =
      if not (c == b'%')
      then (do emit fp (c ∷ []); printf_loop libc n fp out (d ∷ fmt) objs)
      else if d == b'%'
      then (do emit fp (d ∷ []); printf_loop libc n fp out fmt objs)
      else if d == b'd'
      then elim objs [
        | [] ↦ crash
        | obj ∷ more ↦ do display libc n obj out; printf_loop libc n fp out fmt more
      ]
      else if d == b'w'
      then elim objs [
        | [] ↦ crash
        | obj ∷ more ↦ do write libc n obj out; printf_loop libc n fp out fmt more
      ]
      else printf_loop libc n fp out (d ∷ fmt) objs

  -- `qz_printf`
  unfoldable pub printf : CLibrary → ℕ → Obj → List ℕ → List Obj → M (Unit {0})
  unfolding to_port printf_loop
  printf libc n out fmt objs = do p ← to_port out; printf_loop libc n p.fp out fmt objs
