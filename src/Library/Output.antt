-- ===== src/Library/Output.antt =====
-- quuz-lib.c, section 6.13.3: output.
use quuz.Prelude.{ℕ, ◌-◌, ◌%◌, [], ◌∷◌, length, take, drop, ◌==◌, if◌then◌else◌}
use quuz.Prelude.Text.{codes}
use quuz.Object.Tag.{qz_none, to_fixnum, to_cell}
use quuz.Machine.Outcome.{pure, ◌>>=◌, ◌>>◌, crash}
use quuz.Machine.Array.{bytes_at}
use quuz.Hash.{CityHash}
use quuz.Runtime.{push_safety, qz_error}
use quuz.Eval.{Cfun}
use quuz.Eval.Args.{Kind, get_arg, get_args3, required, any, fixnum, char}
use quuz.Writer.{CLibrary, write, display}
use quuz.Library.Files.{Files}
use quuz.Library.Input.{get_open_port, bad_indices}

module _ ⦃city : CityHash⦄ where
  unfoldable pub scm_write : CLibrary → Cfun → ℕ → Cfun
  unfolding get_arg push_safety get_open_port write
  scm_write libc ev n args = do
    (obj, args') ← get_arg ev (required any) args
    push_safety obj
    (port, _) ← get_open_port ev (λ st. st.output_port) args'
    write libc n obj port
    pure qz_none

  unfoldable pub scm_display : CLibrary → Cfun → ℕ → Cfun
  unfolding get_arg push_safety get_open_port display
  scm_display libc ev n args = do
    (obj, args') ← get_arg ev (required any) args
    push_safety obj
    (port, _) ← get_open_port ev (λ st. st.output_port) args'
    display libc n obj port
    pure qz_none

unfoldable pub scm_newline : Files → Cfun → Cfun
unfolding get_open_port qz_error
scm_newline files ev args = do
  (port, fp) ← get_open_port ev (λ st. st.output_port) args
  written ← files.fputc 10 fp
  if written then pure qz_none else qz_error (codes "fputc failed") (port ∷ [])

-- The call of qz_get_args gives no place for the char it reads: it is stored through a pointer that
-- was never passed.
unfoldable pub scm_write_char : Cfun → Cfun
unfolding get_arg
scm_write_char ev args = do (_, _) ← get_arg ev (required char) args; crash

unfoldable pub scm_write_u8 : Files → Cfun → Cfun
unfolding get_arg get_open_port to_fixnum qz_error
scm_write_u8 files ev args = do
  (by, args') ← get_arg ev (required fixnum) args
  (port, fp) ← get_open_port ev (λ st. st.output_port) args'
  written ← files.fwrite (to_fixnum by % 256 ∷ []) fp
  if written == 1 then pure qz_none else qz_error (codes "write failed") (port ∷ [])

unfoldable pub scm_write_bytevector : Files → Cfun → Cfun
unfolding get_arg push_safety get_open_port bytes_at qz_error
scm_write_bytevector files ev args = do
  (bvec, args') ← get_arg ev (required Kind.bytevector) args
  push_safety bvec
  (port, fp) ← get_open_port ev (λ st. st.output_port) args'
  a ← bytes_at (to_cell bvec)
  written ← files.fwrite a.1 fp
  if written == length a.1 then pure qz_none else qz_error (codes "write failed") (port ∷ [])

unfoldable pub scm_write_partial_bytevector : Files → Cfun → Cfun
unfolding get_args3 push_safety get_open_port bytes_at to_fixnum qz_error
scm_write_partial_bytevector files ev args = do
  (bvec, start, end, args') ←
      get_args3 ev (required Kind.bytevector) (required fixnum) (required fixnum) args
  push_safety bvec
  (_, fp) ← get_open_port ev (λ st. st.output_port) args'
  a ← bytes_at (to_cell bvec)
  if bad_indices (to_fixnum start) (to_fixnum end) (length a.1)
      then qz_error (codes "invalid indices") (bvec ∷ start ∷ end ∷ [])
      else do
        let count = to_fixnum end - to_fixnum start
        written ← files.fwrite (take count (drop (to_fixnum start) a.1)) fp
        if written == count then pure qz_none else qz_error (codes "write failed") []

unfoldable pub scm_flush_output_port : Files → Cfun → Cfun
unfolding get_open_port
scm_flush_output_port files ev args = do
  (_, fp) ← get_open_port ev (λ st. st.output_port) args
  files.fflush fp
  pure qz_none
