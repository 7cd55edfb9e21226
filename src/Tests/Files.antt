-- ===== src/Tests/Files.antt =====
-- Arguments, ports and the environment, on the heap of Tests.Text, whose port at 72 is open.
use quuz.Prelude.{◌+◌, ◌*◌, ◌^◌, refl, true, false, none, some, [], ◌∷◌}
use quuz.Prelude.Text.{codes}
use quuz.Object.Tag.{is_cell, to_cell}
use quuz.Object.Info.{cell_type, get_bits}
use quuz.Machine.Store.{Port}
use quuz.Machine.Outcome.{pure, skip}
use quuz.Runtime.Post.{Post}
use quuz.Eval.{Cfun}
use quuz.Eval.Args.{fixnum, required, get_arg}
use quuz.Eval.Args.Fits.{Fits, get_arg-Fits}
use quuz.Library.Files.{Files, refused, missing}
use quuz.Library.Ports.{scm_port_open_q}
use quuz.Library.Ports.Open.{Nothing, scm_port_open_q-Nothing}
use quuz.Library.Ports.Close.{IsPort, Closes, Closed, close_port-Closed}
use quuz.Library.System.{split_at_sep}
use quuz.Library.System.Split.{SplitsAt, split_at_sep-SplitsAt}
use quuz.Tests.Text.{io_state}

-- An evaluator for constants.
abbrev pub constant : Cfun
constant obj = pure obj

-- A C library without files.
abbrev pub no_files : Files
no_files = record {
  fopen = λ path mode. pure (refused (codes "No such file or directory"));
  fclose = λ fp. skip;
  fgetc = λ fp. pure none;
  ungetc = λ ch fp. skip;
  fgets = λ size fp. pure none;
  fread = λ count fp. pure [];
  ferror = λ fp. pure false;
  fputc = λ ch fp. pure true;
  fwrite = λ text fp. pure 0;
  fflush = λ fp. skip;
  stat = λ path. pure missing;
  unlink = λ path. pure none;
  exit = λ code. pure code;
  getenv = λ name. none;
  environ = codes "HOME=/root" ∷ [];
  argv = [];
  time = pure 0;
  parse = λ fp. pure [];
}

no_files-Closes : Closes no_files
unfolding Closes
no_files-Closes fp st = (st.output, refl)

abbrev open_port : Port
open_port = record { fp = some 1; mode = codes "w" }

open_port-IsPort : IsPort io_state 74 open_port
unfolding is_cell to_cell cell_type get_bits
open_port-IsPort = record {
  info = 9 * 2 ^ 56 + 1;
  cell = refl;
  address = refl;
  holds = refl;
  type = refl;
}

get_arg-Fits_example : Post (λ r. Fits fixnum r.0) (get_arg constant (required fixnum) 34 io_state)
get_arg-Fits_example = get_arg-Fits constant fixnum 34 io_state

scm_port_open_q-Nothing_example : Post Nothing (scm_port_open_q constant 34 io_state)
scm_port_open_q-Nothing_example = scm_port_open_q-Nothing constant 34 io_state

close_port-Closed_example : Closed no_files io_state 74 open_port
close_port-Closed_example =
    close_port-Closed no_files no_files-Closes io_state 74 open_port open_port-IsPort

split_at_sep-SplitsAt_example : SplitsAt (codes "HOME=/root") (split_at_sep (codes "HOME=/root"))
split_at_sep-SplitsAt_example = split_at_sep-SplitsAt (codes "HOME=/root")
