-- ===== src/Io/Cuts.antt =====
-- pkg/io/storage.go: what is left of a text when its beginning or its end is cut off.
use Prim.Native.String.{◌++◌}
use Prim.Native.String.append
use text.Mathlib.TextLemmas.{append-ne-nil_of_right_ne-nil, tail-eq_of_cons-eq, cons≢nil}
use xtable_go.Prelude.{
  String, List, [], ◌∷◌, none, some, ◌≡◌, refl, ap, true, false, inl, inr, arith, Bool-cases,
}
use xtable_go.Prelude.Text.{str_eq, eq_iff, IsNoneOf, HoldsAt}
use xtable_go.Io.{cut_prefix, has_prefix, cut_suffix}

pub cut_prefix-append : (p s : String) → cut_prefix p (p ++ s) ≡ some s
unfolding cut_prefix
cut_prefix-append String.[] s = rw (append.nil s) refl
cut_prefix-append (String.◌∷◌ c p) s =
    rw (append.cons c p s) (ground (arith, cut_prefix-append p s))

pub has_prefix-append : (p s : String) → has_prefix p (p ++ s) ≡ true
unfolding has_prefix
has_prefix-append p s = rw (cut_prefix-append p s, has_prefix) refl

-- texts of which only one has the prefix are different
str_eq_of_prefix :
    (p s t : String) {rest : String}
    → cut_prefix p s ≡ some rest
    → cut_prefix p t ≡ none
    → str_eq s t ≡ false
str_eq_of_prefix p s t h k = elim (Bool-cases (str_eq s t)) [
  | inl e ↦ cc (ap (cut_prefix p) ((eq_iff s t).0 e))
  | inr e ↦ e
]

pub none_with_prefix :
    (p rest : String) (names : List String)
    → HoldsAt (λ name. cut_prefix p name ≡ none) names
    → IsNoneOf names (p ++ rest)
none_with_prefix p rest [] h = tt
none_with_prefix p rest (name ∷ names) (h, hs) = (
  str_eq_of_prefix p (p ++ rest) name (cut_prefix-append p rest) h,
  none_with_prefix p rest names hs,
)

pub cut_suffix-paren : (s : String) → cut_suffix ")" (s ++ ")") ≡ some s
unfolding cut_suffix
cut_suffix-paren String.[] = refl
cut_suffix-paren (String.◌∷◌ c s) = elim (Bool-cases (str_eq (String.◌∷◌ c (s ++ ")")) ")")) [
  | inl e ↦ absurd (
      append-ne-nil_of_right_ne-nil s (cons≢nil {x = ")"} {xs = ""})
        (tail-eq_of_cons-eq ((eq_iff (String.◌∷◌ c (s ++ ")")) ")").0 e)))
  | inr e ↦ rw (append.cons c s ")") (ground (arith, e, cut_suffix-paren s))
]
