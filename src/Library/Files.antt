-- ===== src/Library/Files.antt =====
-- What quuz-lib.c takes from the C library for files and the system, as a parameter, and the texts
-- that it hands over.
use quuz.Prelude.{ℕ, Bool, Option, List, [], ◌∷◌, length, ltb, ◌==◌, ◌||◌, false, if◌then◌else◌}
use quuz.Object.Tag.{Obj, to_cell}
use quuz.Machine.Outcome.{M, pure, ◌>>=◌, crash}
use quuz.Machine.Array.{bytes_at}
use quuz.Reader.Actions.{Action}

-- The result of `fopen`: a stream, or the text for `errno`.
pub data Opened : Type 0 where
  opened : ℕ → Opened
  refused : List ℕ → Opened

-- The result of `stat`; `missing` is ENOENT, and `unknown` has the text for another `errno`.
pub data Status : Type 0 where
  present missing : Status
  unknown : List ℕ → Status

-- The functions of <stdio.h>, <sys/stat.h>, <unistd.h>, <stdlib.h> and <time.h> that are called, on
-- streams that are numbers. Where they return EOF or NULL, they are `none` here, and the tests for an
-- error are Booleans. `parse` is the parser that is generated from quuz.leg, reading from a stream.
pub record Files : Type 0 where
  pub fopen : (path mode : List ℕ) → M Opened
  pub fclose : ℕ → M (Unit {0})
  pub fgetc : ℕ → M (Option ℕ)
  pub ungetc : (ch fp : ℕ) → M (Unit {0})
  pub fgets : (size fp : ℕ) → M (Option (List ℕ))
  pub fread : (count fp : ℕ) → M (List ℕ)
  pub ferror : ℕ → M Bool
  pub fputc : (ch fp : ℕ) → M Bool
  pub fwrite : List ℕ → ℕ → M ℕ
  pub fflush : ℕ → M (Unit {0})
  pub stat : List ℕ → M Status
  pub unlink : List ℕ → M (Option (List ℕ))
  pub exit : ℕ → M Obj
  pub getenv : List ℕ → Option (List ℕ)
  pub environ : List (List ℕ)
  pub argv : List (List ℕ)
  pub time : M ℕ
  pub parse : ℕ → M (List Action)

-- A text up to its first '\0'.
unfoldable pub until_zero : List ℕ → List ℕ
until_zero [] = []
until_zero (c ∷ s) = let more = until_zero s in if c == 0 then [] else c ∷ more

-- `strchr(s, c) != NULL`, for `c` that is not '\0'.
unfoldable pub contains : List ℕ → ℕ → Bool
contains [] c = false
contains (d ∷ s) c = (d == c) || contains s c

-- `QZ_CELL_DATA(qz_to_cell(obj), char)`, read as a text of C: it ends at a '\0' in the string, or at
-- the one that the reader leaves in the room after it. A string without room has no end.
unfoldable pub c_string : Obj → M (List ℕ)
unfolding bytes_at until_zero
c_string obj = do
  a ← bytes_at (to_cell obj)
  let text = until_zero a.1
  if ltb (length text) a.0 then pure text else crash
