-- ===== src/Prelude/Decimal/RoundTrip.antt =====
-- What strconv.FormatInt writes, strconv.ParseInt reads; and the numeral has digits and a sign only.
use Prim.Native.Char.{Char, code}
use Prim.Native.String.{String, ◌++◌}
use Prim.Native.String.append
use Prim.Native.Nat.{ℕ, zero, suc, ◌+◌, ◌*◌, ◌/◌, ◌%◌, ◌≤◌, ◌<◌}
use mathlib.Core.Path.{◌≡◌, refl, ap}
use mathlib.Core.Logic.{inl, inr}
use mathlib.Core.Bool.{Bool, true, ◌&&◌, ◌||◌}
use mathlib.Core.Option.{Option, none, some}
use native.Mathlib.Omega.{arith}
use xtable_go.Prelude.Tests.{ltb, leb, ◌==◌, if◌then◌else◌, Bool-cases}
use xtable_go.Prelude.Int.{ℤ, pos, negsuc, max_int64}
use xtable_go.Prelude.Decimal.{
  digit_text, format_digits, format_int, parse_digits, parse_nat, in_range, negated, parse_int,
}

-- a digit or a minus sign, and nothing else
unfoldable pub plain_code : ℕ → Bool
plain_code c = leb b'0' c && leb c b'9' || c == b'-'

unfoldable pub plain : String → Bool
unfolding plain_code
plain String.[] = true
plain (String.◌∷◌ c s) = plain_code (code c) && plain s

-- the character of a digit
abbrev Digit : ℕ → Type 0
Digit d =
    (c : Char) × (digit_text d ≡ String.◌∷◌ c "")
    × (plain_code (code c) ≡ true)
    × (d < 10 → code c ≡ b'0' + d)

Digit-text-Digit : (d : ℕ) → Digit d
unfolding digit_text plain_code
Digit-text-Digit zero = ("0", refl, refl, λ _. refl)
Digit-text-Digit (suc zero) = ("1", refl, refl, λ _. refl)
Digit-text-Digit (suc (suc zero)) = ("2", refl, refl, λ _. refl)
Digit-text-Digit (suc (suc (suc zero))) = ("3", refl, refl, λ _. refl)
Digit-text-Digit (suc (suc (suc (suc zero)))) = ("4", refl, refl, λ _. refl)
Digit-text-Digit (suc (suc (suc (suc (suc zero))))) = ("5", refl, refl, λ _. refl)
Digit-text-Digit (suc (suc (suc (suc (suc (suc zero)))))) = ("6", refl, refl, λ _. refl)
Digit-text-Digit (suc (suc (suc (suc (suc (suc (suc zero))))))) = ("7", refl, refl, λ _. refl)
Digit-text-Digit (suc (suc (suc (suc (suc (suc (suc (suc zero)))))))) = ("8", refl, refl, λ _. refl)
Digit-text-Digit (suc (suc (suc (suc (suc (suc (suc (suc (suc zero))))))))) =
    ("9", refl, refl, λ _. refl)
Digit-text-Digit (suc (suc (suc (suc (suc (suc (suc (suc (suc (suc d)))))))))) =
    ("9", ground arith, refl, λ small. omega arith)

digit_text-append :
    (d : ℕ) {c : Char} (s : String)
    → digit_text d ≡ String.◌∷◌ c ""
    → digit_text d ++ s ≡ String.◌∷◌ c s
digit_text-append d {c} s is = rw (is, append.cons c "" s, append.nil s) refl

parse_digits-digit :
    (acc d : ℕ) (s : String)
    → d < 10
    → parse_digits acc (digit_text d ++ s) ≡ parse_digits (acc * 10 + d) s
unfolding parse_digits
parse_digits-digit acc d s h =
    let (c, is, _, worth) = Digit-text-Digit d in
    rw (digit_text-append d s is) (ground (arith, worth h))

digit_text-plain : (d : ℕ) (s : String) → plain (digit_text d ++ s) ≡ plain s
unfolding plain
digit_text-plain d s =
    let (c, is, ok, _) = Digit-text-Digit d in rw (digit_text-append d s is, ok) refl

format_digits-plain :
    (fuel n : ℕ) (s : String) → plain s ≡ true → plain (format_digits fuel n s) ≡ true
unfolding format_digits
format_digits-plain zero n s h = h
format_digits-plain (suc fuel) n s h = elim (Bool-cases (ltb n 10)) [
  | inl small ↦ rw (small, digit_text-plain) h
  | inr large ↦
      rw (large)
        (format_digits-plain fuel (n / 10) (digit_text (n % 10) ++ s) (rw (digit_text-plain) h))
]

pub format_int-plain : (z : ℤ) → plain (format_int z) ≡ true
unfolding format_int plain plain_code
format_int-plain (pos n) = format_digits-plain (suc n) n "" refl
format_int-plain (negsuc n) =
    rw (append.cons "-" "" (format_digits (suc (suc n)) (suc n) ""), append.nil)
      (format_digits-plain (suc (suc n)) (suc n) "" refl)

-- a text with a first character
abbrev Head : String → Type 0
Head s = (c : Char) × (t : String) × (s ≡ String.◌∷◌ c t)

format_digits-Head : (fuel n : ℕ) (s : String) → Head s → Head (format_digits fuel n s)
unfolding format_digits
format_digits-Head zero n s h = h
format_digits-Head (suc fuel) n s h =
    let (c, is, _, _) = Digit-text-Digit (n % 10) in
    elim (Bool-cases (ltb n 10)) [
      | inl small ↦ rw (small) (c, s, digit_text-append (n % 10) s is)
      | inr large ↦ rw (large) (
          format_digits-Head fuel (n / 10) (digit_text (n % 10) ++ s)
            (c, s, digit_text-append (n % 10) s is))
    ]

parse_digits-format_digits :
    (fuel n : ℕ) (s : String)
    → n < fuel
    → parse_digits 0 (format_digits fuel n s) ≡ parse_digits n s
unfolding format_digits
parse_digits-format_digits zero n s h = ground arith
parse_digits-format_digits (suc fuel) n s h = elim (Bool-cases (ltb n 10)) [
  | inl small ↦
      rw (small, parse_digits-digit 0 (n % 10) s (omega arith))
        (ap (λ m. parse_digits m s) (ground (arith, small)))
  | inr large ↦
      rw
        (
          large,
          parse_digits-format_digits fuel (n / 10) (digit_text (n % 10) ++ s)
              (ground (arith, large)),
          parse_digits-digit (n / 10) (n % 10) s (omega arith),
        )
        (ap (λ m. parse_digits m s) (omega arith))
]

-- a text of digits only is read without a sign
parse_nat-digits : (s : String) → Head s → parse_nat s ≡ parse_digits 0 s
unfolding parse_nat
parse_nat-digits String.[] (c, t, is) = cc
parse_nat-digits (String.◌∷◌ c t) _ = refl

parse_int-unsigned :
    (s : String) (n : ℕ) → Head s → parse_digits 0 s ≡ some n → parse_int s ≡ in_range (parse_nat s)
unfolding parse_int parse_digits
parse_int-unsigned String.[] n (c, t, is) h = cc
parse_int-unsigned (String.◌∷◌ c t) n _ h = ground (arith, h)

-- an integer of 64 bits
abbrev pub Int64 : ℤ → Type 0
Int64 (pos n) = n ≤ max_int64
Int64 (negsuc n) = n ≤ max_int64

digits_of : (n : ℕ) → parse_digits 0 (format_digits (suc n) n "") ≡ some n
unfolding parse_digits
digits_of n = rw (parse_digits-format_digits (suc n) n "" (omega arith)) refl

format_digits-starts : (n : ℕ) → Head (format_digits (suc n) n "")
unfolding format_digits
format_digits-starts n =
    let (c, is, _, _) = Digit-text-Digit (n % 10) in
    elim (Bool-cases (ltb n 10)) [
      | inl small ↦ rw (small) (c, "", digit_text-append (n % 10) "" is)
      | inr large ↦ rw (large) (
          format_digits-Head n (n / 10) (digit_text (n % 10) ++ "")
            (c, "", digit_text-append (n % 10) "" is))
    ]

parse_nat-format_digits : (n : ℕ) → parse_nat (format_digits (suc n) n "") ≡ some n
parse_nat-format_digits n =
    rw (parse_nat-digits (format_digits (suc n) n "") (format_digits-starts n)) (digits_of n)

parse_int-minus : (s : String) → parse_int ("-" ++ s) ≡ negated (parse_nat s)
unfolding parse_int
parse_int-minus s = rw (append.cons "-" "" s, append.nil) refl

-- the integer, where it has 64 bits
abbrev pub bounded : ℤ → Option ℤ
bounded (pos n) = if leb n max_int64 then some (pos n) else none
bounded (negsuc n) = if leb n max_int64 then some (negsuc n) else none

pub parse_int-format_int-bounded : (z : ℤ) → parse_int (format_int z) ≡ bounded z
unfolding format_int in_range negated
parse_int-format_int-bounded (pos n) =
    rw
      (
        parse_int-unsigned (format_digits (suc n) n "") n (format_digits-starts n) (digits_of n),
        parse_nat-format_digits n,
      )
      refl
parse_int-format_int-bounded (negsuc n) =
    rw (parse_int-minus (format_digits (suc (suc n)) (suc n) ""), parse_nat-format_digits (suc n))
      refl

pub bounded-Int64 : (z : ℤ) → Int64 z → bounded z ≡ some z
bounded-Int64 (pos n) h = ground arith
bounded-Int64 (negsuc n) h = ground arith

pub parse_int-format_int : (z : ℤ) → Int64 z → parse_int (format_int z) ≡ some z
parse_int-format_int z h = rw (parse_int-format_int-bounded z) (bounded-Int64 z h)
