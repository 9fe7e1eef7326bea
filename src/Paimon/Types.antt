-- ===== src/Paimon/Types.antt =====
-- pkg/formats/paimon/schema.go: the schema of a Paimon table, as it is written. encoding/json makes a
-- tree of a schema file and a file of a tree.
use xtable_go.Prelude.{
  String, Bool, true, false, ◌||◌, List, [], ◌∷◌, Option, none, some, if◌then◌else◌, ◌&&◌, not,
}
use xtable_go.Prelude.Int.{ℤ, pos, ltb_ℤ, inc64}
use xtable_go.Prelude.Results.{Result, ok, err, ◌>>=◌, map_err}
use xtable_go.Prelude.Text.{str_eq, concat}
use xtable_go.Prelude.Decimal.{format_int}
use xtable_go.Prelude.Dict
use xtable_go.Prelude.Dict.{Dict}
use xtable_go.Model.Value.{Value, text}
use xtable_go.Model.Schema.{
  Schema, schema, SchemaRef, no_schema, schema_ref, field, FieldRef, no_field, field_ref, Fields,
  nil, cons, type_record,
}
use xtable_go.Model.Types.{
  type_list, type_map, type_decimal, metadata_key_decimal_precision, metadata_key_decimal_scale,
}
use xtable_go.Delta.Schema.{int_or}

-- The JSON value at a type's place: nothing at all, a string, an object by its members, of which
-- those that it lacks are empty, or a value of another kind, with the error that decoding it gives.
mutual
  pub data PaimonType : Type 0 where
    empty_type : PaimonType
    atomic : String → PaimonType
    composite :
        (header : String) (fields : DataFields) (element key value : PaimonType) → PaimonType
    malformed : String → PaimonType

  pub data DataField : Type 0 where
    data_field : (id : ℤ) (name : String) (type : PaimonType) (description : String) → DataField

  pub data DataFields : Type 0 where
    no_more : DataFields
    more : DataField → DataFields → DataFields

-- schema/schema-<id>
pub record TableSchema : Type 0 where
  pub id : ℤ
  pub fields : DataFields
  pub highest_field_id : ℤ
  pub partition_keys : List String
  pub primary_keys : List String
  pub options : Dict String

abbrev pub unsupported_type : String
unsupported_type = "unsupported paimon type"

abbrev pub metadata_key_timestamp_precision : String
metadata_key_timestamp_precision = "TIMESTAMP_PRECISION"

abbrev pub millis : String
millis = "MILLIS"

abbrev pub micros : String
micros = "MICROS"

abbrev pub nanos : String
nanos = "NANOS"

unfoldable pub with_nullability_suffix : String → Bool → String
with_nullability_suffix base nullable =
    if not nullable then concat (base ∷ " NOT NULL" ∷ []) else base

unfoldable pub timestamp_write_precision : Dict Value → ℤ
timestamp_write_precision metadata = elim (Dict.lookup metadata_key_timestamp_precision metadata) [
  | some (text v) ↦
      if str_eq v millis
      then pos 3
      else if str_eq v micros
      then pos 6
      else if str_eq v nanos
      then pos 9
      else pos 6
  | _ ↦ pos 6
]

-- the SQL names of the types that have no parts
unfoldable pub atomic_name : String → Dict Value → Option String
unfolding timestamp_write_precision
atomic_name t metadata =
    if str_eq t "BOOLEAN"
    then some "BOOLEAN"
    else if str_eq t "INT"
    then some "INT"
    else if str_eq t "LONG"
    then some "BIGINT"
    else if str_eq t "FLOAT"
    then some "FLOAT"
    else if str_eq t "DOUBLE"
    then some "DOUBLE"
    else if str_eq t "STRING" || str_eq t "UUID"
    then some "STRING"
    else if str_eq t "BYTES" || str_eq t "FIXED"
    then some "BYTES"
    else if str_eq t "DATE"
    then some "DATE"
    else if str_eq t "TIMESTAMP_NTZ"
    then some (concat ("TIMESTAMP(" ∷ format_int (timestamp_write_precision metadata) ∷ ")" ∷ []))
    else if str_eq t "TIMESTAMP"
    then some (
        concat (
          "TIMESTAMP("
          ∷ format_int (timestamp_write_precision metadata)
          ∷ ") WITH LOCAL TIME ZONE"
          ∷ []))
    else if str_eq t type_decimal
    then some (
        concat (
          "DECIMAL("
          ∷ format_int (int_or (pos 10) metadata_key_decimal_precision metadata)
          ∷ ", "
          ∷ format_int (int_or (pos 0) metadata_key_decimal_scale metadata)
          ∷ ")"
          ∷ []))
    else none

unfoldable pub atomic_type : String → Bool → Dict Value → Result PaimonType
unfolding atomic_name with_nullability_suffix
atomic_type t nullable metadata = elim (atomic_name t metadata) [
  | none ↦ err (concat (unsupported_type ∷ ": " ∷ t ∷ []))
  | some name ↦ ok (atomic (with_nullability_suffix name nullable))
]

unfoldable pub row_type : Bool → DataFields → PaimonType
unfolding with_nullability_suffix
row_type nullable fields =
    composite (with_nullability_suffix "ROW" nullable) fields empty_type empty_type empty_type

unfoldable pub array_type : Bool → PaimonType → PaimonType
unfolding with_nullability_suffix
array_type nullable element =
    composite (with_nullability_suffix "ARRAY" nullable) no_more element empty_type empty_type

unfoldable pub map_type : Bool → PaimonType → PaimonType → PaimonType
unfolding with_nullability_suffix
map_type nullable key value =
    composite (with_nullability_suffix "MAP" nullable) no_more empty_type key value

-- the id of a field and the counter after it: an id of its own stays, else the counter goes up
unfoldable pub taken_id : Option ℤ → ℤ → ℤ × ℤ
taken_id none next = (inc64 next, inc64 next)
taken_id (some id) next =
    if ltb_ℤ (pos 0) id
    then (if ltb_ℤ next id then (id, id) else (id, next))
    else (inc64 next, inc64 next)

abbrev pub comment_of : SchemaRef → String
comment_of no_schema = ""
comment_of (schema_ref (schema _ _ comment _ _ _ _ _ _ _)) = comment

abbrev pub has_type : FieldRef → Bool
has_type (field_ref (field _ _ (schema_ref _) _ _)) = true
has_type _ = false

-- modelFieldToPaimonField over a list, and modelTypeToPaimonType. The counter of the ids is one for
-- the whole tree, and is passed from part to part.
unfoldable mutual
  unfolding taken_id atomic_type row_type array_type map_type

  pub fields_to_paimon : Fields → ℤ → Result (DataFields × ℤ)
  fields_to_paimon nil next = ok (no_more, next)
  fields_to_paimon (cons (field name _ type id _) fs) next =
      let (field_id, next') = taken_id id next in
      map_err (λ e. concat ("field " ∷ name ∷ ": " ∷ e ∷ [])) (ref_to_paimon type next') >>= λ t.
      fields_to_paimon fs t.1 >>= λ rest.
      ok (more (data_field field_id name t.0 (comment_of type)) rest.0, rest.1)

  pub ref_to_paimon : SchemaRef → ℤ → Result (PaimonType × ℤ)
  ref_to_paimon no_schema next = err (concat (unsupported_type ∷ ": nil schema" ∷ []))
  ref_to_paimon (schema_ref s) next = type_to_paimon s next

  pub type_to_paimon : Schema → ℤ → Result (PaimonType × ℤ)
  type_to_paimon (schema _ t _ nullable fs element key value _ metadata) next =
      let fields = fields_to_paimon fs next in
      let elements = part_to_paimon element next in
      let keys = part_to_paimon key next in
      let values = part_to_paimon value in
      if str_eq t type_record
      then (fields >>= λ ds. ok (row_type nullable ds.0, ds.1))
      else if str_eq t type_list
      then if has_type element
        then (map_err (λ e. concat ("array element: " ∷ e ∷ [])) elements >>= λ e.
            ok (array_type nullable e.0, e.1))
        else err (concat (unsupported_type ∷ ": LIST with no element schema" ∷ []))
      else if str_eq t type_map
      then if has_type key && has_type value
        then (map_err (λ e. concat ("map key: " ∷ e ∷ [])) keys >>= λ k.
            map_err (λ e. concat ("map value: " ∷ e ∷ [])) (values k.1) >>= λ v.
            ok (map_type nullable k.0 v.0, v.1))
        else err (concat (unsupported_type ∷ ": MAP with no key/value schema" ∷ []))
      else (atomic_type t nullable metadata >>= λ a. ok (a, next))

  pub part_to_paimon : FieldRef → ℤ → Result (PaimonType × ℤ)
  part_to_paimon no_field next = err (concat (unsupported_type ∷ ": nil schema" ∷ []))
  part_to_paimon (field_ref (field _ _ type _ _)) next = ref_to_paimon type next

-- SchemaToPaimon
unfoldable pub schema_to_paimon : SchemaRef → List String → Result TableSchema
unfolding fields_to_paimon
schema_to_paimon no_schema partition_keys = err "schema cannot be nil"
schema_to_paimon (schema_ref (schema _ _ _ _ fs _ _ _ _ _)) partition_keys =
    fields_to_paimon fs (pos 0) >>= λ ds. ok (record {
      id = pos 0;
      fields = ds.0;
      highest_field_id = ds.1;
      partition_keys = partition_keys;
      primary_keys = [];
      options = [];
    })
