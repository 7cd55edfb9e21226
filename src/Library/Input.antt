-- ===== src/Library/Input.antt =====
-- quuz-lib.c, section 6.13.2: input.
use quuz.Prelude.{
  ℕ, Bool, ◌+◌, ◌-◌, ◌^◌, ◌||◌, none, some, List, [], ◌∷◌, ◌++◌, length, take, drop, ltb, leb, ◌==◌,
  if◌then◌else◌,
}
use quuz.Prelude.Text.{codes}
use quuz.Object.Tag.{Obj, qz_eof, is_none, from_char, from_fixnum, to_fixnum, to_cell, from_cell}
use quuz.Object.CellType
use quuz.Machine.Store.{State, bytes, uninit}
use quuz.Machine.Outcome.{M, pure, ◌>>=◌, ◌>>◌, gets}
use quuz.Machine.Cell.{make_cell, make_string, to_port, put}
use quuz.Machine.Array.{bytes_at}
use quuz.Collector.{ref, unref}
use quuz.Hash.{CityHash}
use quuz.Runtime.{push_safety, qz_error}
use quuz.Eval.{Cfun}
use quuz.Eval.Args.{Kind, get_arg, get_args3, required, optional, fixnum}
use quuz.Reader.Actions.{read}
use quuz.Library.Files.{Files}

-- The port and its open stream. Without an argument it is `def`, read from the state.
unfoldable pub get_open_port : Cfun → (def : State → Obj) → (args : Obj) → M (Obj × ℕ)
unfolding get_arg ref push_safety to_port qz_error
get_open_port ev def args = do
  (given, _) ← get_arg ev (optional Kind.port) args
  port ← (if is_none given then (do p ← gets def; ref p) else pure given)
  push_safety port
  p ← to_port port
  elim p.fp [ none ↦ qz_error (codes "port closed") [] | some fp ↦ pure (port, fp) ]

unfoldable pub scm_read : ⦃city : CityHash⦄ → Files → Cfun → Cfun
unfolding get_open_port read qz_error
scm_read files ev args = do
  (port, fp) ← get_open_port ev (λ st. st.input_port) args
  actions ← files.parse fp
  result ← read actions
  if is_none result
      then qz_error (codes "could not parse data from port") (port ∷ [])
      else pure result

unfoldable pub scm_read_char : Files → Cfun → Cfun
unfolding get_open_port from_char
scm_read_char files ev args = do
  (_, fp) ← get_open_port ev (λ st. st.input_port) args
  ch ← files.fgetc fp
  elim ch [ none ↦ pure qz_eof | some c ↦ pure (from_char c) ]

unfoldable pub scm_peek_char : Files → Cfun → Cfun
unfolding get_open_port from_char
scm_peek_char files ev args = do
  (_, fp) ← get_open_port ev (λ st. st.input_port) args
  ch ← files.fgetc fp
  elim ch [ none ↦ pure qz_eof | some c ↦ do files.ungetc c fp; pure (from_char c) ]

-- After a read without a result: an error, or the end of the file.
unfoldable pub failed_read : Files → (what : List ℕ) → (port : Obj) → (fp : ℕ) → M Obj
unfolding qz_error
failed_read files what port fp = do
  failed ← files.ferror fp
  if failed then qz_error what (port ∷ []) else pure qz_eof

unfoldable pub scm_read_line : Files → Cfun → Cfun
unfolding get_open_port failed_read make_string
scm_read_line files ev args = do
  (port, fp) ← get_open_port ev (λ st. st.input_port) args
  line ← files.fgets 1024 fp
  elim line [
    | none ↦ failed_read files (codes "fgets failed") port fp
    | some text ↦ make_string text
  ]

unfoldable pub scm_read_u8 : Files → Cfun → Cfun
unfolding get_open_port failed_read from_fixnum
scm_read_u8 files ev args = do
  (port, fp) ← get_open_port ev (λ st. st.input_port) args
  by ← files.fread 1 fp
  elim by [ by ∷ [] ↦ pure (from_fixnum by) | _ ↦ failed_read files (codes "fread failed") port fp ]

-- The end of scm_read_bytevector, when the bytes are there.
unfoldable pub set_bytes : (cell length : ℕ) → List ℕ → M Obj
unfolding put
set_bytes cell length read_bytes = do put cell (bytes length read_bytes); pure (from_cell cell)

-- The array is set when the bytes are there; fewer than asked for are an error, the end of the file
-- or a shorter array.
unfoldable pub scm_read_bytevector : Files → Cfun → Cfun
unfolding get_arg get_open_port to_fixnum qz_error make_cell unref set_bytes
scm_read_bytevector files ev args = do
  (len, args') ← get_arg ev (required fixnum) args
  (port, fp) ← get_open_port ev (λ st. st.input_port) args'
  if leb (2 ^ 63) (to_fixnum len) then qz_error (codes "bad length") (len ∷ []) else do
    cell ← make_cell CellType.bytevector uninit
    read_bytes ← files.fread (to_fixnum len) fp
    if length read_bytes == to_fixnum len then set_bytes cell (to_fixnum len) read_bytes else do
      failed ← files.ferror fp
      if failed
          then (do unref (from_cell cell); qz_error (codes "fread failed") (port ∷ []))
          else (if length read_bytes == 0
              then (do unref (from_cell cell); pure qz_eof)
              else set_bytes cell (to_fixnum len) read_bytes)

-- `start < 0 || start > end || end > size`, of two patterns of 64 bits. A negative `end` is less than
-- `start`.
abbrev pub bad_indices : (start end size : ℕ) → Bool
bad_indices start end size = leb (2 ^ 63) start || leb (2 ^ 63) end || ltb end start || ltb size end

-- The bytes that were read take the place of those from `start` on.
unfoldable pub scm_read_bytevector_b : Files → Cfun → Cfun
unfolding get_args3 push_safety get_open_port bytes_at to_fixnum qz_error put from_fixnum
scm_read_bytevector_b files ev args = do
  (bvec, start, end, args') ←
      get_args3 ev (required Kind.bytevector) (required fixnum) (required fixnum) args
  push_safety bvec
  (port, fp) ← get_open_port ev (λ st. st.input_port) args'
  a ← bytes_at (to_cell bvec)
  if bad_indices (to_fixnum start) (to_fixnum end) (length a.1)
      then qz_error (codes "invalid indices") (bvec ∷ start ∷ end ∷ [])
      else do
        let from = to_fixnum start
        read_bytes ← files.fread (to_fixnum end - from) fp
        put (to_cell bvec)
            (bytes a.0 (take from a.1 ++ (read_bytes ++ drop (from + length read_bytes) a.1)))
        failed ← files.ferror fp
        if failed
            then qz_error (codes "fread failed") (port ∷ [])
            else pure (if length read_bytes == 0 then qz_eof else from_fixnum (length read_bytes))
