-- ===== src/Prelude/Text.antt =====
-- Text as lists of bytes.
use Prim.Native.Char.{code}
use Prim.Native.String.{String}
use quuz.Prelude.{ℕ, zero, suc, ◌+◌, ◌-◌, ◌^◌, ◌/◌, ◌%◌, List, [], ◌∷◌, ◌++◌, ltb, if◌then◌else◌}

-- The bytes of a string literal of the source, all of them ASCII.
abbrev pub codes : String → List ℕ
codes String.[] = []
codes (String.◌∷◌ c s) = code c ∷ codes s

-- The digits of a number below `10 ^ fuel`.
unfoldable pub decimal_fuel : ℕ → ℕ → List ℕ
decimal_fuel zero n = []
decimal_fuel (suc k) n =
    let more = decimal_fuel k (n / 10) in
    if ltb n 10 then (b'0' + n) ∷ [] else more ++ (b'0' + n % 10) ∷ []

-- `%lu`: a 64-bit number has at most 20 digits.
unfoldable pub decimal : ℕ → List ℕ
unfolding decimal_fuel
decimal n = decimal_fuel 20 n

abbrev hex_digit : ℕ → ℕ
hex_digit d = if ltb d 10 then b'0' + d else b'a' + (d - 10)

unfoldable pub hexadecimal_fuel : ℕ → ℕ → List ℕ
hexadecimal_fuel zero n = []
hexadecimal_fuel (suc k) n =
    let more = hexadecimal_fuel k (n / 16) in
    if ltb n 16 then hex_digit n ∷ [] else more ++ hex_digit (n % 16) ∷ []

-- `%lx`
unfoldable pub hexadecimal : ℕ → List ℕ
unfolding hexadecimal_fuel
hexadecimal n = hexadecimal_fuel 16 n

-- `%02x`
unfoldable pub hexadecimal_02 : ℕ → List ℕ
unfolding hexadecimal
hexadecimal_02 n = if ltb n 16 then b'0' ∷ hexadecimal n else hexadecimal n

-- `%ld`, of the pattern of a 64-bit integer
unfoldable pub signed_decimal : ℕ → List ℕ
unfolding decimal
signed_decimal i = if ltb i (2 ^ 63) then decimal i else b'-' ∷ decimal (2 ^ 64 - i)
