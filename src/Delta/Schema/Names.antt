-- ===== src/Delta/Schema/Names.antt =====
-- pkg/formats/delta/schema.go: what the reader makes of the names that the writer gives.
use Prim.Native.String.{◌++◌}
use text.Mathlib.TextLemmas.{append_assoc}
use xtable_go.Prelude.{
  String, Bool, true, List, [], ◌∷◌, none, some, ◌≡◌, refl, ap, sym, ◌∙◌, arith, if◌then◌else◌,
  ◌||◌,
}
use xtable_go.Prelude.Int.{ℤ, pos}
use xtable_go.Prelude.Text.{str_eq, concat, by_name, IsNoneOf}
use xtable_go.Prelude.Decimal.{format_int}
use xtable_go.Prelude.Decimal.RoundTrip.{format_int-plain, bounded, parse_int-format_int-bounded}
use xtable_go.Prelude.Splitting.{
  split_commas, to_lower, lower_char, to_lower-append, to_lower-plain, trim_space-plain,
  split_commas-plain, split_commas-last,
}
use xtable_go.Io.{cut_prefix, has_prefix}
use xtable_go.Io.Cuts.{cut_prefix-append, has_prefix-append, none_with_prefix, cut_suffix-paren}
use xtable_go.Model.Schema.{new_primitive_schema}
use xtable_go.Model.Types.{new_decimal_schema}
use xtable_go.Delta.Schema.{
  scalar_name, decimal_name, primitive_type, parse_name, parse_decimal, decimal_sizes, or_size,
  trim_prefix, trim_suffix,
}

-- the type that is read where a type without parts was written
unfoldable pub reread_type : String → String
reread_type t =
    if str_eq t "BOOLEAN"
      || str_eq t "INT"
      || str_eq t "LONG"
      || str_eq t "FLOAT"
      || str_eq t "DOUBLE"
      || str_eq t "BYTES"
      || str_eq t "DATE"
      || str_eq t "TIMESTAMP"
      || str_eq t "TIMESTAMP_NTZ"
    then t
    else if str_eq t "FIXED"
    then "BYTES"
    else "STRING"

written_types : List String
written_types =
    "BOOLEAN" ∷ "INT" ∷ "LONG" ∷ "FLOAT" ∷ "DOUBLE" ∷ "STRING" ∷ "ENUM" ∷ "UUID" ∷ "BYTES" ∷ "FIXED"
    ∷ "DATE" ∷ "TIMESTAMP" ∷ "TIMESTAMP_NTZ" ∷ []

scalar_name-other : (t : String) → IsNoneOf written_types t → scalar_name t ≡ "string"
unfolding scalar_name written_types
scalar_name-other t others = ground arith

reread_type-other : (t : String) → IsNoneOf written_types t → reread_type t ≡ "STRING"
unfolding reread_type written_types
reread_type-other t others = ground arith

scalar_name-read : (t : String) → primitive_type (to_lower (scalar_name t)) ≡ some (reread_type t)
unfolding scalar_name primitive_type reread_type to_lower lower_char written_types
scalar_name-read t =
    by_name (λ t. primitive_type (to_lower (scalar_name t)) ≡ some (reread_type t)) written_types
      (
        refl,
        (
          refl,
          (
            refl,
            (refl, (refl, (refl, (refl, (refl, (refl, (refl, (refl, (refl, (refl, tt)))))))))),
          ),
        ),
      )
      t (λ others. rw (scalar_name-other t others, reread_type-other t others) refl)

decimal_tail : ℤ → ℤ → String
decimal_tail precision scale = format_int precision ++ "," ++ format_int scale

decimal_name-shape : (p s : ℤ) → decimal_name p s ≡ "decimal(" ++ decimal_tail p s ++ ")"
unfolding decimal_name concat decimal_tail
decimal_name-shape p s =
    ap (λ t. "decimal(" ++ t)
      (sym (
        append_assoc (format_int p) ("," ++ format_int s) ")"
        ∙ ap (λ t. format_int p ++ t) (append_assoc "," (format_int s) ")")))

decimal_name-lower : (p s : ℤ) → to_lower (decimal_name p s) ≡ decimal_name p s
unfolding decimal_name concat to_lower lower_char
decimal_name-lower p s =
    rw
      (
        to_lower-append "decimal(" (format_int p ++ "," ++ format_int s ++ ")"),
        to_lower-append (format_int p) ("," ++ format_int s ++ ")"),
        to_lower-append "," (format_int s ++ ")"),
        to_lower-append (format_int s) ")",
        to_lower-plain (format_int p) (format_int-plain p),
        to_lower-plain (format_int s) (format_int-plain s),
      )
      refl

primitive_names : List String
primitive_names =
    "boolean" ∷ "integer" ∷ "int" ∷ "short" ∷ "byte" ∷ "long" ∷ "float" ∷ "double" ∷ "string"
    ∷ "binary" ∷ "date" ∷ "timestamp" ∷ "timestamp_ntz" ∷ []

primitive_type-other : (t : String) → IsNoneOf primitive_names t → primitive_type t ≡ none
unfolding primitive_type primitive_names
primitive_type-other t others = ground arith

primitive_type-decimal : (rest : String) → primitive_type ("decimal(" ++ rest) ≡ none
unfolding primitive_names cut_prefix
primitive_type-decimal rest = primitive_type-other ("decimal(" ++ rest) (
    none_with_prefix "decimal(" rest primitive_names (
      refl,
      (
        refl,
        (refl, (refl, (refl, (refl, (refl, (refl, (refl, (refl, (refl, (refl, (refl, tt))))))))))),
      ),
    ))

decimal_sizes-split :
    (p s : ℤ)
    → decimal_sizes (split_commas (decimal_tail p s))
      ≡ (or_size (pos 10) (bounded p), or_size (pos 0) (bounded s))
unfolding decimal_tail decimal_sizes
decimal_sizes-split p s =
    rw
      (
        split_commas-plain (format_int p) (format_int s) (format_int-plain p),
        split_commas-last (format_int s) (format_int-plain s),
      )
      (rw
        (
          trim_space-plain (format_int p) (format_int-plain p),
          trim_space-plain (format_int s) (format_int-plain s),
          parse_int-format_int-bounded p,
          parse_int-format_int-bounded s,
        )
        refl)

decimal_name-cut :
    (p s : ℤ) → trim_suffix ")" (trim_prefix "decimal(" (decimal_name p s)) ≡ decimal_tail p s
unfolding trim_prefix trim_suffix
decimal_name-cut p s =
    rw (decimal_name-shape p s, cut_prefix-append "decimal(" (decimal_tail p s ++ ")"), trim_prefix)
      (rw (cut_suffix-paren (decimal_tail p s), trim_suffix) refl)

parse_decimal-decimal_name :
    (p s : ℤ) (nullable : Bool)
    → parse_decimal (decimal_name p s) nullable
      ≡ new_decimal_schema (or_size (pos 10) (bounded p)) (or_size (pos 0) (bounded s)) nullable
unfolding parse_decimal
parse_decimal-decimal_name p s nullable =
    rw (decimal_name-cut p s, decimal_sizes-split p s, parse_decimal) refl

decimal_name-other : (p s : ℤ) → primitive_type (decimal_name p s) ≡ none
decimal_name-other p s =
    rw (decimal_name-shape p s) (primitive_type-decimal (decimal_tail p s ++ ")"))

decimal_name-prefix : (p s : ℤ) → has_prefix "decimal" (decimal_name p s) ≡ true
decimal_name-prefix p s =
    rw (decimal_name-shape p s, append_assoc "decimal" "(" (decimal_tail p s ++ ")"))
      (has_prefix-append "decimal" ("(" ++ decimal_tail p s ++ ")"))

parse_name-decimal_text :
    (name : String) (nullable : Bool)
    → primitive_type name ≡ none
    → has_prefix "decimal" name ≡ true
    → parse_name name nullable ≡ parse_decimal name nullable
unfolding parse_name
parse_name-decimal_text name nullable h k = ground arith

pub parse_name-decimal :
    (p s : ℤ) (nullable : Bool)
    → parse_name (to_lower (decimal_name p s)) nullable
      ≡ new_decimal_schema (or_size (pos 10) (bounded p)) (or_size (pos 0) (bounded s)) nullable
parse_name-decimal p s nullable = rw (decimal_name-lower p s) (
    parse_name-decimal_text (decimal_name p s) nullable (decimal_name-other p s)
      (decimal_name-prefix p s)
    ∙ parse_decimal-decimal_name p s nullable)

pub parse_name-scalar :
    (t : String) (nullable : Bool)
    → parse_name (to_lower (scalar_name t)) nullable ≡ new_primitive_schema (reread_type t) nullable
unfolding parse_name
parse_name-scalar t nullable = rw (scalar_name-read t, parse_name) refl

-- what was read is written as it was
pub reread_type-reread_type : (t : String) → reread_type (reread_type t) ≡ reread_type t
unfolding reread_type written_types
reread_type-reread_type t =
    by_name (λ t. reread_type (reread_type t) ≡ reread_type t) written_types
      (
        refl,
        (
          refl,
          (
            refl,
            (refl, (refl, (refl, (refl, (refl, (refl, (refl, (refl, (refl, (refl, tt)))))))))),
          ),
        ),
      )
      t (λ others. rw (reread_type-other t others) refl)
