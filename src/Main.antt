-- ===== src/Main.antt =====
-- quuz-main.c: the options, the input, and the loop over its data.
pub mod Loop
use quuz.Prelude.{
  ℕ, Bool, true, false, Option, none, some, List, [], ◌∷◌, ◌++◌, map, ◌==◌, if◌then◌else◌,
}
use quuz.Prelude.Text.{codes}
use quuz.Object.Tag.{Obj, is_none}
use quuz.Machine.Store.{State}
use quuz.Machine.Outcome.{M, pure, ◌>>=◌, ◌>>◌, gets, modify, skip}
use quuz.Collector.{unref}
use quuz.Hash.{CityHash}
use quuz.Reader.Actions.{Action, read}
use quuz.Writer.{CLibrary}
use quuz.Writer.Printf.{printf}
use quuz.Eval.{Cfun}
use quuz.Library.Files.{Files, Opened}
use quuz.Setup.{NamedCfun, FdOpen, alloc, free}

-- What to do with a datum.
pub data Mode : Type 0 where
  parse run eval : Mode

-- One option: `-p`, `-r`, `-e` and `-d`; others change nothing.
unfoldable pub option_step : ℕ → Mode × Bool → Mode × Bool
option_step c (mode, debug) =
    if c == b'p'
    then (parse, debug)
    else if c == b'r'
    then (run, debug)
    else if c == b'e'
    then (eval, debug)
    else if c == b'd'
    then (mode, true)
    else (mode, debug)

unfoldable pub options : List ℕ → Mode × Bool → Mode × Bool
unfolding option_step
options [] chosen = chosen
options (c ∷ cs) chosen = options cs (option_step c chosen)

-- `fputs(s, stderr)`; stderr has the number 2.
abbrev to_stderr : List ℕ → State → State
to_stderr s st = record st { output = st.output ++ map (λ c. (2, c)) s }

-- `" %p\n"` for each root.
abbrev root_lines : CLibrary → List ℕ → List ℕ
root_lines libc [] = []
root_lines libc (p ∷ ps) = codes " " ++ libc.format_pointer p ++ codes "\n" ++ root_lines libc ps

-- Where the data come from.
pub data Source : Type 0 where
  stdin refused : Source
  file : ℕ → Source

unfoldable pub open_file : Files → (path : List ℕ) → M Source
open_file files path = do
  fp ← files.fopen path (codes "r")
  pure (elim fp [ Opened.opened f ↦ file f | Opened.refused e ↦ refused ])

-- The stream of the first argument; without one, and for `-`, it is stdin.
unfoldable pub open_input : Files → Option (List ℕ) → M Source
unfolding open_file
open_input files none = pure stdin
open_input files (some (c ∷ [])) = if c == b'-' then pure stdin else open_file files (c ∷ [])
open_input files (some path) = open_file files path

module _ ⦃city : CityHash⦄ (libc : CLibrary) (peval : Cfun) where
  unfoldable pub print_to : (State → Obj) → (fmt : List ℕ) → ℕ → Obj → M (Unit {0})
  unfolding printf
  print_to field fmt n obj = do port ← gets field; printf libc n port fmt (obj ∷ [])

  -- A datum in one of the modes.
  unfoldable pub process : Mode → ℕ → Obj → M (Unit {0})
  unfolding print_to unref
  process parse n obj = print_to (λ st. st.output_port) (codes "%w\n") n obj
  process run n obj = do result ← peval obj; unref result
  process eval n obj = do
    result ← peval obj
    if is_none result
        then skip
        else do print_to (λ st. st.output_port) (codes "%w\n") n result; unref result

  -- The loop, `false` for EXIT_FAILURE. The data are what the parser matches, one after the other,
  -- until the end of the file.
  unfoldable pub main_loop : Mode → ℕ → List (List Action) → M Bool
  unfolding read process unref print_to
  main_loop mode n [] = pure true
  main_loop mode n (actions ∷ more) = do
    obj ← read actions
    if is_none obj then (do modify (to_stderr (codes "parsing failed\n")); pure false) else do
      process mode n obj
      unref obj
      error_obj ← gets (λ st. st.error_obj)
      if is_none error_obj then main_loop mode n more else do
        print_to (λ st. st.error_port) (codes "An error occurred: %w\n") n error_obj
        pure false

  -- `-d`
  unfoldable pub print_debug : ℕ → M (Unit {0})
  unfolding print_to
  print_debug n = do
    env ← gets (λ st. st.env)
    print_to (λ st. st.error_port) (codes "st->env = %w\n") n env
    name_sym ← gets (λ st. st.name_sym)
    print_to (λ st. st.error_port) (codes "st->name_sym = %w\n") n name_sym
    sym_name ← gets (λ st. st.sym_name)
    print_to (λ st. st.error_port) (codes "st->sym_name = %w\n") n sym_name
    roots ← gets (λ st. st.root_buffer)
    modify (to_stderr (codes "st->root_buffer = \n" ++ root_lines libc roots))

  -- main, after the input is open: with the state made and freed.
  unfoldable pub run_input : FdOpen → List NamedCfun → Mode × Bool → ℕ → List (List Action) → M Bool
  unfolding alloc main_loop print_debug free
  run_input fdopen functions chosen n input = do
    alloc fdopen functions
    ret ← main_loop chosen.0 n input
    (if chosen.1 then print_debug n else skip)
    free
    pure ret

  -- main, on the letters of the options and the first argument after them. `input` has what the
  -- parser matches in a stream, after a `#!` line or from its start.
  unfoldable pub main :
      Files
      → FdOpen
      → (input : (fp : ℕ) → (hashbang : Bool) → List (List Action)) → List NamedCfun
      → List ℕ
      → (operand : Option (List ℕ)) → ℕ
      → M Bool
  unfolding options open_input run_input
  main files fdopen input functions cs operand n = do
    let chosen = options cs (run, false)
    source ← open_input files operand
    elim source [
      | refused ↦ do modify (to_stderr (codes "could not open input file\n")); pure false
      | stdin ↦ run_input fdopen functions chosen n (input 0 false)
      | file fp ↦ do
        ret ← run_input fdopen functions chosen n (input fp true)
        files.fclose fp
        pure ret
    ]
