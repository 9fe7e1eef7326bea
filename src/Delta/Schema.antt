-- ===== src/Delta/Schema.antt =====
-- pkg/formats/delta/schema.go: the schemaString of a Delta table. encoding/json makes a tree of it,
-- which the functions here write and read; the text of the whole is an argument.
pub mod Names
pub mod Canonical
pub mod Cases
pub mod Rereads
use xtable_go.Prelude.{String, Bool, false, ◌||◌, List, [], ◌∷◌, Option, none, some, if◌then◌else◌}
use xtable_go.Prelude.Int.{ℤ, pos}
use xtable_go.Prelude.Results.{Result, ok, err, ◌>>=◌, map_err}
use xtable_go.Prelude.Text.{str_eq, concat}
use xtable_go.Prelude.Decimal.{format_int, parse_int}
use xtable_go.Prelude.Splitting.{trim_space, split_commas, to_lower}
use xtable_go.Prelude.Dict
use xtable_go.Prelude.Dict.{Dict}
use xtable_go.Io.{cut_prefix, has_prefix, cut_suffix}
use xtable_go.Model.Value.{Value, int}
use xtable_go.Model.Schema.{
  Schema, schema, SchemaRef, no_schema, schema_ref, field, FieldRef, no_field, field_ref, Fields,
  nil, cons, new_primitive_schema, new_record_schema, type_record,
}
use xtable_go.Model.Types.{
  type_list, type_map, type_decimal, new_decimal_schema, metadata_key_decimal_precision,
  metadata_key_decimal_scale,
}

-- A JSON value at a type's place: a string, an object with a type that the reader knows, or
-- something else, as the text it is. A null is read as the empty string.
mutual
  pub data DeltaType : Type 0 where
    named : String → DeltaType
    struct : DeltaFields → DeltaType
    array : (element_type : DeltaType) (contains_null : Bool) → DeltaType
    map_of : (key_type value_type : DeltaType) (value_contains_null : Bool) → DeltaType
    other : String → DeltaType

  pub data DeltaStructField : Type 0 where
    struct_field :
        (name : String) (type : DeltaType) (nullable : Bool) (metadata : Dict Value)
        → DeltaStructField

  pub data DeltaFields : Type 0 where
    no_fields : DeltaFields
    more_fields : DeltaStructField → DeltaFields → DeltaFields

-- the panic at a pointer that is nil
abbrev pub nil_dereference : String
nil_dereference = "invalid memory address or nil pointer dereference"

-- the names of the types that have no parts
unfoldable pub scalar_name : String → String
scalar_name t =
    if str_eq t "BOOLEAN"
    then "boolean"
    else if str_eq t "INT"
    then "integer"
    else if str_eq t "LONG"
    then "long"
    else if str_eq t "FLOAT"
    then "float"
    else if str_eq t "DOUBLE"
    then "double"
    else if str_eq t "STRING" || str_eq t "ENUM" || str_eq t "UUID"
    then "string"
    else if str_eq t "BYTES" || str_eq t "FIXED"
    then "binary"
    else if str_eq t "DATE"
    then "date"
    else if str_eq t "TIMESTAMP"
    then "timestamp"
    else if str_eq t "TIMESTAMP_NTZ"
    then "timestamp_ntz"
    else "string"

-- `v, ok := s.Metadata[key].(int)`, with the value where there is none
pub int_or : ℤ → String → Dict Value → ℤ
int_or default key metadata = elim (Dict.lookup key metadata) [ some (int n) ↦ n | _ ↦ default ]

pub decimal_name : ℤ → ℤ → String
decimal_name precision scale =
    concat ("decimal(" ∷ format_int precision ∷ "," ∷ format_int scale ∷ ")" ∷ [])

abbrev pub is_nullable : SchemaRef → Result Bool
is_nullable no_schema = err nil_dereference
is_nullable (schema_ref (schema _ _ _ nullable _ _ _ _ _ _)) = ok nullable

-- toDeltaStruct and typeToDeltaJSON
unfoldable mutual
  unfolding scalar_name int_or decimal_name

  pub to_delta_struct : Fields → Result DeltaFields
  to_delta_struct nil = ok no_fields
  to_delta_struct (cons (field name _ type _ _) fs) = type_to_delta type >>= λ t.
      is_nullable type >>= λ nullable.
      to_delta_struct fs >>= λ rest. ok (more_fields (struct_field name t nullable []) rest)

  pub type_to_delta : SchemaRef → Result DeltaType
  type_to_delta no_schema = ok (named "string")
  type_to_delta (schema_ref s) = schema_to_delta s

  pub schema_to_delta : Schema → Result DeltaType
  schema_to_delta (schema _ t _ _ fs element key value _ metadata) =
      let fields = to_delta_struct fs in
      let elements = array_to_delta element in
      let keys = key_to_delta key in
      let values = value_to_delta value in
      if str_eq t type_decimal
      then ok (
          named (
            decimal_name (int_or (pos 10) metadata_key_decimal_precision metadata)
              (int_or (pos 0) metadata_key_decimal_scale metadata)))
      else if str_eq t type_record
      then (fields >>= λ ds. ok (struct ds))
      else if str_eq t type_list
      then elements
      else if str_eq t type_map
      then (keys >>= λ k. values >>= λ v. ok (map_of k v.0 v.1))
      else ok (named (scalar_name t))

  pub array_to_delta : FieldRef → Result DeltaType
  array_to_delta no_field = err nil_dereference
  array_to_delta (field_ref (field _ _ type _ _)) =
      type_to_delta type >>= λ t. is_nullable type >>= λ nullable. ok (array t nullable)

  pub key_to_delta : FieldRef → Result DeltaType
  key_to_delta no_field = err nil_dereference
  key_to_delta (field_ref (field _ _ type _ _)) = type_to_delta type

  pub value_to_delta : FieldRef → Result (DeltaType × Bool)
  value_to_delta no_field = err nil_dereference
  value_to_delta (field_ref (field _ _ type _ _)) =
      type_to_delta type >>= λ t. is_nullable type >>= λ nullable. ok (t, nullable)

-- SchemaToDeltaJSON, with json.Marshal of the struct
module _ (marshal : DeltaFields → Result String) where
  unfoldable pub schema_to_delta_json : SchemaRef → Result String
  schema_to_delta_json no_schema = err "schema cannot be nil"
  schema_to_delta_json (schema_ref (schema _ _ _ _ fs _ _ _ _ _)) = to_delta_struct fs >>= λ ds.
      map_err (λ e. concat ("failed to marshal delta schema: " ∷ e ∷ [])) (marshal ds)

-- the type that the name of a type without parts stands for
primitive_type : String → Option String
primitive_type name =
    if str_eq name "boolean"
    then some "BOOLEAN"
    else if str_eq name "integer" || str_eq name "int" || str_eq name "short" || str_eq name "byte"
    then some "INT"
    else if str_eq name "long"
    then some "LONG"
    else if str_eq name "float"
    then some "FLOAT"
    else if str_eq name "double"
    then some "DOUBLE"
    else if str_eq name "string"
    then some "STRING"
    else if str_eq name "binary"
    then some "BYTES"
    else if str_eq name "date"
    then some "DATE"
    else if str_eq name "timestamp"
    then some "TIMESTAMP"
    else if str_eq name "timestamp_ntz"
    then some "TIMESTAMP_NTZ"
    else none

-- a number that strconv.Atoi reads, or what stands where it reads none
pub or_size : ℤ → Option ℤ → ℤ
or_size default none = default
or_size default (some n) = n

decimal_sizes : String × List String → ℤ × ℤ
unfolding or_size
decimal_sizes (p, s ∷ []) =
    (or_size (pos 10) (parse_int (trim_space p)), or_size (pos 0) (parse_int (trim_space s)))
decimal_sizes (p, parts) = (pos 10, pos 0)

-- strings.TrimPrefix and strings.TrimSuffix
trim_prefix : String → String → String
trim_prefix p s = elim (cut_prefix p s) [ none ↦ s | some rest ↦ rest ]

trim_suffix : String → String → String
trim_suffix suffix s = elim (cut_suffix suffix s) [ none ↦ s | some rest ↦ rest ]

parse_decimal : String → Bool → Schema
unfolding trim_prefix trim_suffix decimal_sizes
parse_decimal name nullable =
    let (p, s) = decimal_sizes (split_commas (trim_suffix ")" (trim_prefix "decimal(" name))) in
    new_decimal_schema p s nullable

-- the cases of a name in lower case
pub parse_name : String → Bool → Schema
unfolding primitive_type parse_decimal
parse_name name nullable = elim (primitive_type name) [
  | some t ↦ new_primitive_schema t nullable
  | none ↦
      if has_prefix "decimal" name
      then parse_decimal name nullable
      else new_primitive_schema "STRING" nullable
]

abbrev pub unnamed_list : Schema → Bool → Schema
unnamed_list element nullable =
    schema "" type_list "" nullable nil
      (field_ref (field "element" "" (schema_ref element) none Value.null)) no_field no_field nil []

abbrev pub unnamed_map : Schema → Schema → Bool → Schema
unnamed_map key value nullable =
    schema "" type_map "" nullable nil no_field
      (field_ref (field "key" "" (schema_ref key) none Value.null))
      (field_ref (field "value" "" (schema_ref value) none Value.null)) nil []

-- parseDeltaType
unfoldable mutual
  unfolding parse_name

  pub parse_delta_type : DeltaType → Bool → Result Schema
  parse_delta_type (named name) nullable = ok (parse_name (to_lower name) nullable)
  parse_delta_type (struct ds) nullable =
      parse_delta_fields ds >>= λ fs. ok (new_record_schema "" fs nullable)
  parse_delta_type (array element contains_null) nullable =
      parse_delta_type element contains_null >>= λ e. ok (unnamed_list e nullable)
  parse_delta_type (map_of key value contains_null) nullable = parse_delta_type key false >>= λ k.
      parse_delta_type value contains_null >>= λ v. ok (unnamed_map k v nullable)
  parse_delta_type (other raw) nullable =
      err (concat ("unrecognized delta type structure: " ∷ raw ∷ []))

  pub parse_delta_fields : DeltaFields → Result Fields
  parse_delta_fields no_fields = ok nil
  parse_delta_fields (more_fields (struct_field name type nullable _) ds) =
      parse_delta_type type nullable >>= λ s.
      parse_delta_fields ds >>= λ fs. ok (cons (field name "" (schema_ref s) none Value.null) fs)

-- the fields of the whole schema; an error names the field
unfoldable pub root_fields : DeltaFields → Result Fields
root_fields no_fields = ok nil
root_fields (more_fields (struct_field name type nullable _) ds) =
    map_err (λ e. concat ("failed to parse field " ∷ name ∷ ": " ∷ e ∷ []))
      (parse_delta_type type nullable)
    >>= λ s. root_fields ds >>= λ fs. ok (cons (field name "" (schema_ref s) none Value.null) fs)

-- DeltaJSONToSchema, with json.Unmarshal into a DeltaStructType
module _ (unmarshal : String → Result DeltaFields) where
  unfoldable pub delta_json_to_schema : String → Result Schema
  unfolding root_fields
  delta_json_to_schema schema_string =
      map_err (λ e. concat ("invalid delta schema JSON: " ∷ e ∷ [])) (unmarshal schema_string)
      >>= λ ds. root_fields ds >>= λ fs. ok (new_record_schema "root" fs false)
