-- ===== src/Prelude/Text.antt =====
-- Texts are compared by their code points, which is the order of their UTF-8 bytes.
use Prim.Native.Nat.{Ordering}
use Prim.Native.String.{String, compare}
use Prim.Native.String.compare
use mathlib.Core.Path.{◌≡◌, sym, subst}
use mathlib.Core.Logic.{◌≢◌, inl, inr}
use mathlib.Core.List.{List, [], ◌∷◌}
use mathlib.Core.HLevel.{hedberg}
use xtable_go.Prelude.Tests.{Bool-cases}
use Prim.Native.String.{◌++◌}
use mathlib.Core.Bool.{Bool, true, false}
use native.Mathlib.Omega.{arith}
pub use text.Mathlib.Text.{◌==◌ as str_eq}
pub use text.Mathlib.TextEquality.{eq_iff}
pub use text.Mathlib.TextPositions.{eq_refl}
use text.Mathlib.TextEquality.{path_by_compare}

-- Go's `s < t`
abbrev pub str_lt : String → String → Bool
str_lt s t = elim (compare s t) [ Ordering.lt ↦ true | _ ↦ false ]

-- the answer for the operands the other way round
abbrev flip : Ordering → Ordering
flip Ordering.lt = Ordering.gt
flip Ordering.eq = Ordering.eq
flip Ordering.gt = Ordering.lt

compare-flip : (s t : String) → compare t s ≡ flip (compare s t)
compare-flip String.[] String.[] = rw compare.nil-nil
compare-flip String.[] (String.◌∷◌ d t) = rw (compare.nil-cons, compare.cons-nil)
compare-flip (String.◌∷◌ c s) String.[] = rw (compare.nil-cons, compare.cons-nil)
compare-flip (String.◌∷◌ c s) (String.◌∷◌ d t) =
    ground (arith, compare.cons-cons c d s t, compare.cons-cons d c t s, compare-flip s t)

compare_trans :
    (s t u : String)
    → compare s t ≡ Ordering.lt
    → compare t u ≡ Ordering.lt
    → compare s u ≡ Ordering.lt
compare_trans (String.◌∷◌ c s) (String.◌∷◌ d t) (String.◌∷◌ e u) h k = ground (
  arith,
  compare.cons-cons c d s t,
  compare.cons-cons d e t u,
  compare.cons-cons c e s u,
  compare_trans s t u,
)
compare_trans String.[] String.[] u h k = cc
compare_trans String.[] (String.◌∷◌ d t) String.[] h k = cc (compare.cons-nil d t)
compare_trans String.[] (String.◌∷◌ d t) (String.◌∷◌ e u) h k = compare.nil-cons e u
compare_trans (String.◌∷◌ c s) String.[] u h k = cc (compare.cons-nil c s)
compare_trans (String.◌∷◌ c s) (String.◌∷◌ d t) String.[] h k = cc (compare.cons-nil d t)

-- `<` on texts is a strict total order.
pub str_lt_asym : (s t : String) → str_lt s t ≡ true → str_lt t s ≡ false
str_lt_asym s t h = ground (arith, compare-flip s t)

pub str_lt_trans : (s t u : String) → str_lt s t ≡ true → str_lt t u ≡ true → str_lt s u ≡ true
str_lt_trans s t u h k = ground (arith, compare_trans s t u)

ne_of_test : (s t : String) → str_eq s t ≡ false → s ≢ t
ne_of_test s t h e = cc ((eq_iff s t).1 e)

pub str_lt_total : (s t : String) → s ≢ t → str_lt s t ≡ false → str_lt t s ≡ true
str_lt_total s t h k = ground (arith, compare-flip s t, path_by_compare s t)

pub str_lt_co_trans :
    (s t u : String) → str_lt s t ≡ false → str_lt t u ≡ false → str_lt s u ≡ false
str_lt_co_trans s t u h k = elim (Bool-cases (str_eq s t)) [
  | inl e ↦ rw ((eq_iff s t).0 e) k
  | inr e ↦ elim (Bool-cases (str_eq t u)) [
    | inl f ↦ rw (← (eq_iff t u).0 f) h
    | inr f ↦ str_lt_asym u s (
        str_lt_trans u t s (str_lt_total t u (ne_of_test t u f) k)
          (str_lt_total s t (ne_of_test s t e) h))
  ]
]

pub str_lt_irrefl : (s : String) → str_lt s s ≡ false
str_lt_irrefl s = ground (arith, compare-flip s s)

pub str_discrete : Discrete String
str_discrete s t = elim (Bool-cases (str_eq s t)) [
  | inl e ↦ yes ((eq_iff s t).0 e)
  | inr e ↦ no (λ p. cc ((eq_iff s t).1 p))
]

pub str_set : IsSet String
str_set = hedberg str_discrete

-- strings.Join
unfoldable pub join : String → List String → String
join sep [] = ""
join sep (s ∷ []) = s
join sep (s ∷ t ∷ l) = s ++ sep ++ join sep (t ∷ l)

-- texts one after the other, as `+` and the verbs of fmt.Sprintf join them
unfoldable pub concat : List String → String
concat [] = ""
concat (s ∷ l) = s ++ concat l

-- the text is none of the names
abbrev pub IsNoneOf : List String → String → Type 0
IsNoneOf [] t = Unit
IsNoneOf (name ∷ names) t = (str_eq t name ≡ false) × IsNoneOf names t

abbrev pub HoldsAt {ℓ} : (String → Type ℓ) → List String → Type ℓ
HoldsAt P [] = Unit
HoldsAt P (name ∷ names) = P name × HoldsAt P names

-- what holds of each name and of every other text holds of all
pub by_name {ℓ} :
    (P : String → Type ℓ) (names : List String)
    → HoldsAt P names
    → (t : String) → (IsNoneOf names t → P t)
    → P t
by_name P [] known t others = others tt
by_name P (name ∷ names) known t others = elim (Bool-cases (str_eq t name)) [
  | inl e ↦ subst P (sym ((eq_iff t name).0 e)) known.0
  | inr e ↦ by_name P names known.1 t (λ rest. others (e, rest))
]
