-- ===== src/Parquet/Footer.antt =====
-- pkg/formats/parquet/schema.go: the schema of one Parquet file. What parquet-go makes of a footer is
-- given as data: a tree of columns, and below in Stats the chunks of the row groups.
use xtable_go.Prelude.{
  ℕ, zero, suc, String, Bool, false, [], ◌∷◌, Option, none, some, if◌then◌else◌,
}
use xtable_go.Prelude.Int.{ℤ, pos}
use xtable_go.Prelude.Results.{Result, ok, err, ◌>>=◌}
use xtable_go.Prelude.Text.{str_eq, concat}
use xtable_go.Prelude.Decimal.{format_int}
use xtable_go.Model.Value.{null}
use xtable_go.Model.Schema.{
  Schema, schema, schema_ref, Field, field, field_ref, no_field, Fields, nil, cons,
  new_primitive_schema, new_record_schema, type_string,
}
use xtable_go.Model.Types.{type_list, new_decimal_schema}

-- the logical types that are told apart
pub data Logical : Type 0 where
  string_type enum_type date_type timestamp_type uuid_type : Logical
  decimal_type : (precision scale : ℤ) → Logical
  other_type : Logical

pub data Kind : Type 0 where
  boolean int32 int64 int96 float_kind double byte_array fixed_len_byte_array : Kind

-- parquet.Type, of a leaf
pub record LeafType : Type 0 where
  pub logical : Option Logical
  pub kind : Kind

-- parquet.Field
mutual
  pub data Node : Type 0 where
    leaf : (name : String) (repeated optional : Bool) (type : Option LeafType) → Node
    group : (name : String) (repeated optional : Bool) (children : Nodes) → Node

  pub data Nodes : Type 0 where
    no_nodes : Nodes
    node_cons : Node → Nodes → Nodes

abbrev pub unmappable_schema : String
unmappable_schema = "parquet: unmappable schema"

abbrev pub type_date : String
type_date = "DATE"

abbrev pub type_timestamp : String
type_timestamp = "TIMESTAMP"

abbrev pub type_uuid : String
type_uuid = "UUID"

abbrev pub type_boolean : String
type_boolean = "BOOLEAN"

abbrev pub type_int : String
type_int = "INT"

abbrev pub type_long : String
type_long = "LONG"

abbrev pub type_float : String
type_float = "FLOAT"

abbrev pub type_double : String
type_double = "DOUBLE"

abbrev pub type_bytes : String
type_bytes = "BYTES"

abbrev pub type_enum : String
type_enum = "ENUM"

-- the schema of a logical type, where it decides
logical_schema : Option Logical → Bool → Option Schema
logical_schema (some string_type) nullable = some (new_primitive_schema type_string nullable)
logical_schema (some enum_type) nullable = some (new_primitive_schema type_string nullable)
logical_schema (some date_type) nullable = some (new_primitive_schema type_date nullable)
logical_schema (some timestamp_type) nullable = some (new_primitive_schema type_timestamp nullable)
logical_schema (some uuid_type) nullable = some (new_primitive_schema type_uuid nullable)
logical_schema (some (decimal_type precision scale)) nullable =
    some (new_decimal_schema precision scale nullable)
logical_schema _ nullable = none

kind_name : Kind → String
kind_name boolean = type_boolean
kind_name int32 = type_int
kind_name int64 = type_long
kind_name float_kind = type_float
kind_name double = type_double
kind_name byte_array = type_string
kind_name fixed_len_byte_array = type_bytes
kind_name int96 = type_string

-- convertType
unfoldable pub convert_type : Option LeafType → Bool → String → Result Schema
unfolding logical_schema kind_name
convert_type none nullable path =
    err
      (concat ("column " ∷ path ∷ ": " ∷ unmappable_schema ∷ ": no physical or logical type" ∷ []))
convert_type (some t) nullable path = elim (logical_schema t.logical nullable) [
  | some s ↦ ok s
  | none ↦ ok (new_primitive_schema (kind_name t.kind) nullable)
]

abbrev pub path_below : String → String → String
path_below parent name = if str_eq parent "" then name else concat (parent ∷ "." ∷ name ∷ [])

abbrev plain_field : String → Schema → Field
plain_field name s = field name "" (schema_ref s) none null

-- a list of a column that repeats, in the old encoding
abbrev repeated_schema : Bool → Schema → Schema
repeated_schema nullable element =
    schema "" type_list "" nullable nil (field_ref (plain_field "element" element)) no_field
      no_field nil []

node_count : Nodes → ℕ
node_count no_nodes = zero
node_count (node_cons _ nodes) = suc (node_count nodes)

-- convertField and convertGroupFields
unfoldable mutual
  unfolding convert_type node_count

  pub convert_field : Node → String → Result Field
  convert_field (leaf name repeated optional type) parent =
      if repeated
      then (convert_type type false (path_below parent name) >>= λ element.
          ok (plain_field name (repeated_schema optional element)))
      else (convert_type type optional (path_below parent name) >>= λ s. ok (plain_field name s))
  convert_field (group name repeated optional children) parent =
      let below = convert_group_fields children (path_below parent name) in
      if repeated
      then err (
          concat (
            "column "
            ∷ path_below parent name
            ∷ ": "
            ∷ unmappable_schema
            ∷ ": repeated group with "
            ∷ format_int (pos (node_count children))
            ∷ " child field(s) (LIST/MAP-shaped nested repetition is not supported)"
            ∷ []))
      else (below >>= λ fields. ok (plain_field name (new_record_schema name fields optional)))

  pub convert_group_fields : Nodes → String → Result Fields
  convert_group_fields no_nodes parent = ok nil
  convert_group_fields (node_cons node nodes) parent =
      convert_field node parent >>= λ f. convert_group_fields nodes parent >>= λ fs. ok (cons f fs)

-- ParquetSchemaToModel, of a schema that is there. A tree of nodes has nothing to panic on.
unfoldable pub parquet_schema_to_model : Nodes → Result Schema
unfolding convert_group_fields
parquet_schema_to_model nodes =
    convert_group_fields nodes "" >>= λ fields. ok (new_record_schema "root" fields false)
