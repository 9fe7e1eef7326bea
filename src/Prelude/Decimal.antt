-- ===== src/Prelude/Decimal.antt =====
-- strconv: decimal numerals.
pub mod RoundTrip
use Prim.Native.Char.{code}
use Prim.Native.String.{String, ◌++◌}
use xtable_go.Prelude.Tests.{ltb, leb, ◌==◌, if◌then◌else◌}
use Prim.Native.Nat.{ℕ, zero, suc, ◌+◌, ◌-◌, ◌*◌, ◌/◌, ◌%◌}
use mathlib.Core.Bool.{◌&&◌}
use mathlib.Core.Option.{Option, none, some}
use xtable_go.Prelude.Int.{ℤ, pos, negsuc, max_int64}

digit_text : ℕ → String
digit_text d =
    if d == 0
    then "0"
    else if d == 1
    then "1"
    else if d == 2
    then "2"
    else if d == 3
    then "3"
    else if d == 4
    then "4"
    else if d == 5
    then "5"
    else if d == 6
    then "6"
    else if d == 7
    then "7"
    else if d == 8
    then "8"
    else "9"

-- the digits of `n` before `acc`; a number has fewer digits than its successor counts
format_digits : ℕ → ℕ → String → String
unfolding digit_text
format_digits zero n acc = acc
format_digits (suc fuel) n acc =
    let text = digit_text (n % 10) ++ acc in
    let rest = format_digits fuel (n / 10) text in if ltb n 10 then text else rest

-- strconv.FormatInt(z, 10)
unfoldable pub format_int : ℤ → String
unfolding format_digits
format_int (pos n) = format_digits (suc n) n ""
format_int (negsuc n) = "-" ++ format_digits (suc (suc n)) (suc n) ""

-- the value of a numeral whose digits before this point are worth `acc`
parse_digits : ℕ → String → Option ℕ
parse_digits acc String.[] = some acc
parse_digits acc (String.◌∷◌ c s) =
    let rest = parse_digits (acc * 10 + (code c - b'0')) s in
    if leb b'0' (code c) && leb (code c) b'9' then rest else none

parse_nat : String → Option ℕ
unfolding parse_digits
parse_nat String.[] = none
parse_nat (String.◌∷◌ c s) = parse_digits 0 (String.◌∷◌ c s)

in_range : Option ℕ → Option ℤ
in_range none = none
in_range (some n) = if leb n max_int64 then some (pos n) else none

negated : Option ℕ → Option ℤ
negated none = none
negated (some zero) = some (pos 0)
negated (some (suc n)) = if leb n max_int64 then some (negsuc n) else none

-- strconv.ParseInt(s, 10, 64): a sign at most, then digits, within the range of int64
unfoldable pub parse_int : String → Option ℤ
unfolding parse_nat in_range negated
parse_int String.[] = none
parse_int (String.◌∷◌ c s) =
    if code c == b'-'
    then negated (parse_nat s)
    else if code c == b'+'
    then in_range (parse_nat s)
    else in_range (parse_nat (String.◌∷◌ c s))

-- as many zeros as are asked for, before the text
zeros : ℕ → String → String
zeros zero s = s
zeros (suc n) s = "0" ++ zeros n s

text_length : String → ℕ
text_length String.[] = 0
text_length (String.◌∷◌ c s) = suc (text_length s)

padded : ℕ → String → String
unfolding zeros text_length
padded width s = zeros (width - text_length s) s

-- fmt.Sprintf("%0<width>d", z): the sign counts towards the width
unfoldable pub format_padded : ℕ → ℤ → String
unfolding padded format_int format_digits
format_padded width (pos n) = padded width (format_int (pos n))
format_padded width (negsuc n) = "-" ++ padded (width - 1) (format_int (pos (suc n)))
