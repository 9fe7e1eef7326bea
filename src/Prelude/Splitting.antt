-- ===== src/Prelude/Splitting.antt =====
-- package strings: trimming, splitting at commas and lower case, and what they do to a text of digits
-- and signs.
use Prim.Native.Char.{Char, code}
use Prim.Native.String.{String, ◌++◌, char_at}
use Prim.Native.String.append
use Prim.Native.Nat.{ℕ, zero, suc, ◌-◌}
use mathlib.Core.Path.{◌≡◌, refl, ap}
use mathlib.Core.Bool.{Bool, true, ◌&&◌, ◌||◌}
use mathlib.Core.List.{List, [], ◌∷◌}
use mathlib.Core.Option.{Option, none, some}
use native.Mathlib.Omega.{arith}
use xtable_go.Prelude.Tests.{leb, ◌==◌, if◌then◌else◌}
use xtable_go.Prelude.Text.{str_eq}
use xtable_go.Prelude.Decimal.RoundTrip.{plain, plain_code}

is_space : ℕ → Bool
is_space c = c == 32 || c == 9 || c == 10 || c == 11 || c == 12 || c == 13

trim_left : String → String
unfolding is_space
trim_left String.[] = ""
trim_left (String.◌∷◌ c s) =
    let rest = trim_left s in if is_space (code c) then rest else String.◌∷◌ c s

trim_right : String → String
unfolding is_space
trim_right String.[] = ""
trim_right (String.◌∷◌ c s) =
    let rest = trim_right s in if is_space (code c) && str_eq rest "" then "" else String.◌∷◌ c rest

-- strings.TrimSpace, on ASCII
unfoldable pub trim_space : String → String
unfolding trim_left trim_right
trim_space s = trim_left (trim_right s)

-- strings.Split(raw, ",")
unfoldable pub split_commas : String → String × List String
split_commas String.[] = ("", [])
split_commas (String.◌∷◌ c s) =
    let (part, parts) = split_commas s in
    if code c == b',' then ("", part ∷ parts) else (String.◌∷◌ c part, parts)

unfoldable pub lower_char : Char → Char
lower_char c =
    if leb b'A' (code c) && leb (code c) b'Z'
    then char_at "abcdefghijklmnopqrstuvwxyz" (code c - b'A')
    else c

-- strings.ToLower, on ASCII
unfoldable pub to_lower : String → String
unfolding lower_char
to_lower String.[] = ""
to_lower (String.◌∷◌ c s) = String.◌∷◌ (lower_char c) (to_lower s)

pub to_lower-append : (s t : String) → to_lower (s ++ t) ≡ to_lower s ++ to_lower t
unfolding to_lower
to_lower-append String.[] t = rw (append.nil t, append.nil (to_lower t)) refl
to_lower-append (String.◌∷◌ c s) t =
    rw (append.cons c s t, append.cons (lower_char c) (to_lower s) (to_lower t))
      (ap (String.◌∷◌ (lower_char c)) (to_lower-append s t))

pub to_lower-plain : (s : String) → plain s ≡ true → to_lower s ≡ s
unfolding to_lower lower_char plain plain_code
to_lower-plain String.[] h = refl
to_lower-plain (String.◌∷◌ c s) h = ground (arith, to_lower-plain s)

trim_left-plain : (s : String) → plain s ≡ true → trim_left s ≡ s
unfolding trim_left is_space plain plain_code
trim_left-plain String.[] h = refl
trim_left-plain (String.◌∷◌ c s) h = ground arith

trim_right-plain : (s : String) → plain s ≡ true → trim_right s ≡ s
unfolding trim_right is_space plain plain_code
trim_right-plain String.[] h = refl
trim_right-plain (String.◌∷◌ c s) h = ground (arith, trim_right-plain s)

pub trim_space-plain : (s : String) → plain s ≡ true → trim_space s ≡ s
unfolding trim_space
trim_space-plain s h = rw (trim_right-plain s h) (trim_left-plain s h)

-- a numeral up to a comma
pub split_commas-plain :
    (s t : String)
    → plain s ≡ true
    → split_commas (s ++ "," ++ t) ≡ (s, (split_commas t).0 ∷ (split_commas t).1)
unfolding split_commas plain plain_code
split_commas-plain String.[] t h =
    rw (append.nil ("," ++ t), append.cons "," "" t, append.nil t) refl
split_commas-plain (String.◌∷◌ c s) t h =
    rw (append.cons c s ("," ++ t)) (ground (arith, split_commas-plain s t))

pub split_commas-last : (s : String) → plain s ≡ true → split_commas s ≡ (s, [])
unfolding split_commas plain plain_code
split_commas-last String.[] h = refl
split_commas-last (String.◌∷◌ c s) h = ground (arith, split_commas-last s)

upper_char : Char → Char
upper_char c =
    if leb b'a' (code c) && leb (code c) b'z'
    then char_at "ABCDEFGHIJKLMNOPQRSTUVWXYZ" (code c - b'a')
    else c

-- strings.ToUpper, on ASCII
unfoldable pub to_upper : String → String
unfolding upper_char
to_upper String.[] = ""
to_upper (String.◌∷◌ c s) = String.◌∷◌ (upper_char c) (to_upper s)

-- strings.Cut at a character: what stands before its first occurrence, and what stands after it
unfoldable pub cut_at : ℕ → String → Option (String × String)
cut_at sep String.[] = none
cut_at sep (String.◌∷◌ c s) =
    let rest = cut_at sep s in
    if code c == sep
    then some ("", s)
    else elim rest [ none ↦ none | some (before, after) ↦ some (String.◌∷◌ c before, after) ]

-- as much of the second text as the first is long
unfoldable pub take_like : String → String → String
take_like String.[] s = ""
take_like (String.◌∷◌ c r) String.[] = ""
take_like (String.◌∷◌ c r) (String.◌∷◌ d s) = String.◌∷◌ d (take_like r s)

-- the number of characters
unfoldable pub char_count : String → ℕ
char_count String.[] = 0
char_count (String.◌∷◌ c s) = suc (char_count s)

-- `s[:n]`, of a text that is as long
unfoldable pub first_chars : ℕ → String → String
first_chars zero s = ""
first_chars (suc n) String.[] = ""
first_chars (suc n) (String.◌∷◌ c s) = String.◌∷◌ c (first_chars n s)
