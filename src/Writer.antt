-- ===== src/Writer.antt =====
-- quuz-write.c: the external representation of an object, and of quuz-util.c qz_printf. What is
-- written goes to the end of `output`, with the number of the stream. `need_space` is passed along as
-- a Boolean.
pub mod Numbers
pub mod Printf
pub mod Lists
pub mod Marks
use quuz.Prelude.{
  ℕ, zero, suc, ◌+◌, ◌-◌, ◌^◌, Bool, true, false, not, Option, none, some, List, [], ◌∷◌, ◌++◌, map,
  ltb, ◌==◌, if◌then◌else◌,
}
use quuz.Prelude.Text.{codes, hexadecimal, hexadecimal_02, signed_decimal}
use quuz.Object.Tag.{
  Obj, is_fixnum, is_cell, is_null, is_cfun, is_sym, is_bool, is_char, is_eof, is_none, to_fixnum,
  to_cell, to_cfun, to_sym, to_bool, to_char,
}
use quuz.Object.Info.{cell_type, dirty, set_dirty}
use quuz.Object.CellType
use quuz.Machine.Store.{State, Payload, Port, Pair, bytes, objs, table, port, real}
use quuz.Machine.Outcome.{M, out_of_fuel, pure, ◌>>=◌, ◌>>◌, crash, gets, modify, skip}
use quuz.Machine.Cell.{load, update_info, is_pair, cell_ptr, pair_at}
use quuz.Machine.Array.{bytes_at, objs_at}
use quuz.Collector.{call_if_valid_cell, all_children}
use quuz.Hash.{CityHash, hash_get, hash_data, read_slot}

-- What the writer takes from the C library: the classes of chars, the descriptor of an open file, and
-- the formats `%p` and `%f`.
pub record CLibrary : Type 0 where
  pub isprint : ℕ → Bool
  pub isgraph : ℕ → Bool
  pub fileno : ℕ → ℕ
  pub format_pointer : ℕ → List ℕ
  pub format_real : ℕ → List ℕ

unfoldable pub clear_dirty : ℕ → ℕ → M (Unit {0})
unfolding load update_info all_children
clear_dirty zero cell st = out_of_fuel
clear_dirty (suc n) cell st =
    (do
      c ← load cell
      if dirty c.info == 0
          then skip
          else do update_info cell (λ info. set_dirty info 0); all_children cell (clear_dirty n))
      st

-- `fputs`, `fputc` and `fwrite`; `fp` must not be NULL.
unfoldable pub emit : Option ℕ → List ℕ → M (Unit {0})
emit none s = crash
emit (some fp) s = modify (λ st. record st { output = st.output ++ map (λ c. (fp, c)) s })

-- `if(*need_space) fputc(' ', fp);`
unfoldable pub space : Option ℕ → Bool → M (Unit {0})
unfolding emit
space fp need_space = if need_space then emit fp (b' ' ∷ []) else skip

-- A text with a space before it where one is needed; one is needed after it.
unfoldable pub token : Option ℕ → Bool → List ℕ → M Bool
unfolding space emit
token fp need_space s = do space fp need_space; emit fp s; pure true

-- The value of a `char` under `%02x`: it is widened to an `int` with its sign.
abbrev pub promoted : ℕ → ℕ
promoted c = if ltb c 128 then c else c + (2 ^ 32 - 256)

-- What stands for a char in a string.
unfoldable pub escaped : CLibrary → ℕ → List ℕ
unfolding hexadecimal_02
escaped libc c =
    if c == b'"'
    then codes "\\\""
    else if c == b'\\'
    then codes "\\\\"
    else if libc.isprint c
    then c ∷ []
    else codes "\\x" ++ hexadecimal_02 (promoted c) ++ codes ";"

unfoldable pub string_text : CLibrary → List ℕ → List ℕ
unfolding escaped
string_text libc [] = []
string_text libc (c ∷ cs) = escaped libc c ++ string_text libc cs

-- What stands for a char outside of a string.
unfoldable pub char_text : CLibrary → Bool → ℕ → List ℕ
unfolding hexadecimal_02
char_text libc human c =
    if human
    then c ∷ []
    else if libc.isgraph c
    then codes "#\\" ++ c ∷ []
    else codes "#\\x" ++ hexadecimal_02 (promoted c)

-- A closed port is written with the descriptor -1.
abbrev descriptor : CLibrary → Option ℕ → ℕ
descriptor libc none = 2 ^ 64 - 1
descriptor libc (some fp) = libc.fileno fp

unfoldable pub port_text : CLibrary → Port → List ℕ
unfolding signed_decimal
port_text libc p =
    codes "[port " ++ signed_decimal (descriptor libc p.fp) ++ codes " " ++ p.mode ++ codes "]"

-- The functions below take the recursive call of write_object.
abbrev pub Write : Type 0
Write = Obj → Bool → M Bool

module _ (write : Write) (fp : Option ℕ) where
  unfoldable pub write_pair : ℕ → Bool → List ℕ → M Bool
  unfolding space emit pair_at
  write_pair cell need_space name = do
    space fp need_space
    emit fp (codes "[" ++ name)
    a ← pair_at cell
    need ← write a.0 true
    b ← pair_at cell
    need' ← write b.1 need
    emit fp (codes "]")
    pure true

  -- The loop of write_cell over a list, from the pair at `cell`.
  unfoldable pub write_list : ℕ → ℕ → Bool → M (Unit {0})
  unfolding pair_at cell_ptr space emit
  write_list zero cell need_space st = out_of_fuel
  write_list (suc n) cell need_space st =
      (do
        a ← pair_at cell
        need ← write a.0 need_space
        b ← pair_at cell
        if is_null b.1 then skip else do
          more ← is_pair b.1
          (if more
              then (do next ← cell_ptr b.1; write_list n next need)
              else (do space fp need; emit fp (codes "."); end ← write b.1 true; skip)))
        st

  -- The loop over a vector. What is written does not change the array.
  unfoldable pub write_objs : List Obj → Bool → M (Unit {0})
  write_objs [] need_space = skip
  write_objs (x ∷ xs) need_space = do need ← write x need_space; write_objs xs need

  -- The loop over a bytevector.
  unfoldable pub write_bytes : List ℕ → Bool → M (Unit {0})
  unfolding token hexadecimal_02
  write_bytes [] need_space = skip
  write_bytes (x ∷ xs) need_space = do
    need ← token fp need_space (codes "#x" ++ hexadecimal_02 x)
    write_bytes xs need

  -- The loop over the pairs of a hash.
  unfoldable pub write_pairs : List Pair → (first_pair need_space : Bool) → M (Unit {0})
  unfolding emit token
  write_pairs [] first_pair need_space = skip
  write_pairs (p ∷ ps) first_pair need_space =
      if is_none p.first then write_pairs ps first_pair need_space else do
        (if first_pair then skip else emit fp (codes ","))
        need ← write p.first (if first_pair then need_space else true)
        need' ← token fp need (codes "=")
        need'' ← write p.rest need'
        write_pairs ps false need''

  -- What stands between an opening text and a closing one.
  unfoldable pub write_within : List ℕ → Bool → M (Unit {0}) → List ℕ → M Bool
  unfolding space emit
  write_within opening need_space inner closing = do
    space fp need_space
    emit fp opening
    inner
    emit fp closing
    pure true

-- The part of write_cell for a cell that is not NULL and not dirty, by its type.
unfoldable pub write_value : CLibrary → Write → ℕ → Option ℕ → Bool → ℕ → Bool → M Bool
unfolding load write_within write_list write_pair bytes_at objs_at string_text token write_objs
    write_bytes hash_data write_pairs port_text
write_value libc write n fp human cell need_space = do
  c ← load cell
  let type = cell_type c.info
  if type == CellType.pair
      then write_within write fp (codes "(") need_space (write_list write fp n cell false)
          (codes ")")
      else if type == CellType.fun
      then write_pair write fp cell need_space (codes "fun")
      else if type == CellType.promise
      then write_pair write fp cell need_space (codes "promise")
      else if type == CellType.error
      then write_pair write fp cell need_space (codes "error")
      else if type == CellType.string
      then (do
        a ← bytes_at cell
        token fp need_space
            (if human then a.1 else codes "\"" ++ string_text libc a.1 ++ codes "\""))
      else if type == CellType.vector
      then (do
        a ← objs_at cell
        write_within write fp (codes "#(") need_space (write_objs write fp a.1 false) (codes ")"))
      else if type == CellType.bytevector
      then (do
        a ← bytes_at cell
        write_within write fp (codes "#u8(") need_space (write_bytes write fp a.1 false)
            (codes ")"))
      else if type == CellType.hash
      then (do
        d ← hash_data cell
        write_within write fp (codes "{") need_space (write_pairs write fp d.1 true false)
            (codes "}"))
      else elim c.value [
        | port p ↦ if type == CellType.port then token fp need_space (port_text libc p) else crash
        | real r ↦ if type == CellType.real then token fp need_space (libc.format_real r) else crash
        | _ ↦ crash
      ]

unfoldable pub write_cell : CLibrary → Write → ℕ → Option ℕ → Bool → ℕ → Bool → M Bool
unfolding token load update_info write_value
write_cell libc write n fp human cell need_space =
    if cell == 0 then token fp need_space (codes "()") else (do
      c ← load cell
      (if dirty c.info == 0
          then (do
            update_info cell (λ info. set_dirty info 1)
            write_value libc write n fp human cell need_space)
          else token fp need_space (codes "...")))

module _ ⦃city : CityHash⦄ where
  -- The name of a symbol, or its number if it has none.
  unfoldable pub sym_text : Obj → M (List ℕ)
  unfolding hash_get read_slot cell_ptr bytes_at hexadecimal
  sym_text obj = do
    names ← gets (λ st. st.sym_name)
    slot ← hash_get names obj
    elim slot [
      | none ↦ pure (codes "[sym " ++ hexadecimal (to_sym obj) ++ codes "]")
      | some s ↦ do name ← read_slot s; cell ← cell_ptr name; a ← bytes_at cell; pure a.1
    ]

  unfoldable pub write_object : CLibrary → ℕ → Option ℕ → Bool → Obj → Bool → M Bool
  unfolding token signed_decimal write_cell space sym_text emit char_text
  write_object libc zero fp human obj need_space st = out_of_fuel
  write_object libc (suc n) fp human obj need_space st =
      (if is_fixnum obj
          then token fp need_space (signed_decimal (to_fixnum obj))
          else if is_cell obj
          then write_cell libc (write_object libc n fp human) n fp human (to_cell obj) need_space
          else if is_cfun obj
          then token fp need_space
              (codes "[cfun " ++ libc.format_pointer (to_cfun obj) ++ codes "]")
          else if is_sym obj
          then (do space fp need_space; name ← sym_text obj; emit fp name; pure true)
          else if is_bool obj
          then token fp need_space (if to_bool obj == 0 then codes "#f" else codes "#t")
          else if is_char obj
          then token fp need_space (char_text libc human (to_char obj))
          else if is_eof obj
          then token fp need_space (codes "[eof]")
          else if is_none obj
          then token fp need_space (codes "[unknown]")
          else crash)
        st

  -- `qz_to_cell(port)->value.port.fp`
  unfoldable pub port_fp : Obj → M (Option ℕ)
  unfolding cell_ptr load
  port_fp obj = do
    cell ← cell_ptr obj
    c ← load cell
    elim c.value [ port p ↦ pure p.fp | _ ↦ crash ]

  -- qz_write and qz_display, which differ in `human`.
  unfoldable pub write_to : CLibrary → ℕ → Bool → (obj port : Obj) → M (Unit {0})
  unfolding port_fp write_object call_if_valid_cell clear_dirty
  write_to libc n human obj out = do
    fp ← port_fp out
    need_space ← write_object libc n fp human obj false
    call_if_valid_cell obj (clear_dirty n)

  unfoldable pub write : CLibrary → ℕ → (obj port : Obj) → M (Unit {0})
  unfolding write_to
  write libc n obj out = write_to libc n false obj out

  unfoldable pub display : CLibrary → ℕ → (obj port : Obj) → M (Unit {0})
  unfolding write_to
  display libc n obj out = write_to libc n true obj out
