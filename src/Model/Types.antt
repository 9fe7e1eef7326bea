-- ===== src/Model/Types.antt =====
-- pkg/model/types.go: the names of types and of the metadata of types, and what depends on them.
use xtable_go.Prelude.{String, Bool, ◌||◌, [], ◌∷◌, if◌then◌else◌}
use xtable_go.Prelude.Int.{ℤ}
use xtable_go.Prelude.Text.{str_eq, concat}
use xtable_go.Model.Value.{Value, int}
use xtable_go.Model.Schema.{Schema, schema, Field, field, nil, no_field, type_record}
use xtable_go.Model.Table.{Range}

abbrev pub type_list : String
type_list = "LIST"

abbrev pub type_map : String
type_map = "MAP"

abbrev pub type_union : String
type_union = "UNION"

abbrev pub type_decimal : String
type_decimal = "DECIMAL"

abbrev pub metadata_key_decimal_precision : String
metadata_key_decimal_precision = "DECIMAL_PRECISION"

abbrev pub metadata_key_decimal_scale : String
metadata_key_decimal_scale = "DECIMAL_SCALE"

-- Type.IsNonScalar
unfoldable pub is_non_scalar : String → Bool
is_non_scalar t =
    str_eq t type_record || str_eq t type_list || str_eq t type_map || str_eq t type_union

unfoldable pub new_decimal_schema : ℤ → ℤ → Bool → Schema
new_decimal_schema precision scale nullable =
    schema "" type_decimal "" nullable nil no_field no_field no_field nil (
      (metadata_key_decimal_precision, int precision)
      ∷ (metadata_key_decimal_scale, int scale)
      ∷ [])

-- Field.Path
unfoldable pub field_path : Field → String
field_path (field name parent _ _ _) =
    if str_eq parent "" then name else concat (parent ∷ "." ∷ name ∷ [])

abbrev pub new_range : Value → Value → Range
new_range min max = record { min_value = min; max_value = max }
