-- ===== src/Base/Format.antt =====
-- The verbs of fmt.Sprintf: %d, %q, %t. The printability of characters above Latin-1 is a table of
-- the Unicode standard, which enters as a parameter.
pub mod Escapes
pub mod Json
use Prim.Native.Nat.{ℕ, zero, suc, ◌/◌, ◌%◌, ◌-◌}
use Prim.Native.Char.{Char, code}
use Prim.Native.String.{String, [], ◌∷◌, ◌++◌, char_at}
use mathlib.Core.Path.{◌≡◌, refl}
use mathlib.Core.Bool.{Bool, true, false, ◌||◌, ◌&&◌, not}
use cleat_ports.Base.Tests.{ltb, leb, if◌then◌else◌}
use cleat_ports.Base.Int.{ℤ, pos, negsuc}

-- `unicode.IsPrint` above U+00FF.
pub record Unicode : Type 0 where
  pub is_print : ℕ → Bool

abbrev digit_char : ℕ → Char
digit_char d = char_at "0123456789abcdef" d

-- Prints `n` in front of `out`; more fuel than `n` has digits is enough.
digits : ℕ → ℕ → ℕ → String → String
digits zero base n out = out
digits (suc fuel) base n out =
    let more = digits fuel base (n / base) (digit_char (n % base) ∷ out) in
    if ltb n base then digit_char n ∷ out else more

-- `%d` of a number that is not negative
unfoldable pub decimal : ℕ → String
unfolding digits
decimal n = digits (suc n) 10 n []

-- `%d`
unfoldable pub show_int : ℤ → String
unfolding decimal
show_int (pos n) = decimal n
show_int (negsuc n) = "-" ++ decimal (suc n)

-- `%t`
unfoldable pub show_bool : Bool → String
show_bool true = "true"
show_bool false = "false"

-- `%0wx`: the last `w` hexadecimal digits
hex : ℕ → ℕ → String → String
hex zero n out = out
hex (suc w) n out = hex w (n / 16) (digit_char (n % 16) ∷ out)

module _ ⦃u : Unicode⦄ where
  unfoldable pub printable : ℕ → Bool
  printable r =
      if ltb r 256
      then (leb 0x20 r && ltb r 0x7f) || (leb 0xa1 r && not (leb 0xad r && leb r 0xad))
      else u.is_print r

  -- The character `r` between the quotes of `strconv.Quote`, with the text of it alone.
  pub quote_code : ℕ → String → String
  unfolding hex
  quote_code r alone =
      if leb 34 r && leb r 34
      then "\\\""
      else if leb 92 r && leb r 92
      then "\\\\"
      else if printable r
      then alone
      else if leb 7 r && leb r 13
      then "\\" ++ char_at "abtnvfr" (r - 7) ∷ []
      else if ltb r 32 || (leb 127 r && leb r 127)
      then "\\x" ++ hex 2 r []
      else if ltb r 0x10000
      then "\\u" ++ hex 4 r []
      else "\\U" ++ hex 8 r []

  quote_char : Char → String
  quote_char c = quote_code (code c) (c ∷ [])

  quote_from : String → String
  quote_from [] = "\""
  quote_from (c ∷ s) = quote_char c ++ quote_from s

  -- `%q`
  unfoldable pub quote : String → String
  unfolding quote_from quote_char quote_code printable
  quote s = "\"" ++ quote_from s

-- A table for inputs in Latin-1, which consult it nowhere.
instance abbrev pub latin_1 : Unicode
latin_1 = record { is_print = λ r. false }

shows_negative : show_int (negsuc 41) ≡ "-42"
unfolding show_int
shows_negative = refl

quotes : quote "a\"b\\c\n\u{7f}" ≡ "\"a\\\"b\\\\c\\n\\x7f\""
unfolding quote
quotes = refl
