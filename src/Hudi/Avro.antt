-- ===== src/Hudi/Avro.antt =====
-- pkg/formats/hudi/schema.go: Avro schemas, written from the canonical model and read into it.
-- encoding/json makes a tree of the text of a schema and a text of the tree.
use xtable_go.Prelude.{String, Bool, true, false, ◌||◌, [], ◌∷◌, Option, none, some, if◌then◌else◌}
use xtable_go.Prelude.Int.{ℤ, pos}
use xtable_go.Prelude.Results.{Result, ok, err, ◌>>=◌, map_err}
use xtable_go.Prelude.Text.{str_eq, concat}
use xtable_go.Prelude.Dict.{Dict}
use xtable_go.Model.Value.{Value}
use xtable_go.Model.Schema.{
  Schema, schema, SchemaRef, no_schema, schema_ref, field, FieldRef, no_field, field_ref, Fields,
  nil, cons, type_record, new_primitive_schema, new_record_schema,
}
use xtable_go.Model.Types.{
  type_list, type_map, type_decimal, new_decimal_schema, metadata_key_decimal_precision,
  metadata_key_decimal_scale,
}
use xtable_go.Delta.Schema.{int_or, nil_dereference}

-- A JSON value at a type's place: a null or nothing, a string, an array, an object by the members
-- that the reader looks at, or a value of another kind. A member that is not there or has another
-- kind is the empty text, 0, nothing, or no fields, and a number is what `int` makes of it; a field
-- that is not an object is left out.
mutual
  pub data AvroType : Type 0 where
    nothing : AvroType
    named : String → AvroType
    union : AvroItems → AvroType
    object :
        (logical_type type name : String) (precision scale : ℤ) (items values : AvroType)
        (fields : AvroFields)
        → AvroType
    other : AvroType

  pub data AvroItems : Type 0 where
    no_items : AvroItems
    item : AvroType → AvroItems → AvroItems

  pub data AvroFields : Type 0 where
    no_avro_fields : AvroFields
    avro_field : (name : String) (type : AvroType) (doc : String) → AvroFields → AvroFields

-- AvroRecordSchema
pub record AvroRecord : Type 0 where
  pub record_name : String
  pub namespace : String
  pub record_fields : AvroFields

abbrev logical : String → String → AvroType
logical t name = object name t "" (pos 0) (pos 0) nothing nothing no_avro_fields

-- the types that have no parts
unfoldable pub scalar_type : String → Dict Value → AvroType
scalar_type t metadata =
    if str_eq t "BOOLEAN"
    then named "boolean"
    else if str_eq t "INT"
    then named "int"
    else if str_eq t "LONG"
    then named "long"
    else if str_eq t "FLOAT"
    then named "float"
    else if str_eq t "DOUBLE"
    then named "double"
    else if str_eq t "STRING" || str_eq t "ENUM"
    then named "string"
    else if str_eq t "UUID"
    then logical "string" "uuid"
    else if str_eq t "BYTES" || str_eq t "FIXED"
    then named "bytes"
    else if str_eq t "DATE"
    then logical "int" "date"
    else if str_eq t "TIMESTAMP"
    then logical "long" "timestamp-micros"
    else if str_eq t "TIMESTAMP_NTZ"
    then logical "long" "local-timestamp-micros"
    else if str_eq t type_decimal
    then object "decimal" "bytes" "" (int_or (pos 10) metadata_key_decimal_precision metadata)
        (int_or (pos 0) metadata_key_decimal_scale metadata) nothing nothing no_avro_fields
    else named "string"

abbrev or_null : Bool → AvroType → AvroType
or_null true t = union (item (named "null") (item t no_items))
or_null false t = t

abbrev comment_of : SchemaRef → Result String
comment_of no_schema = err nil_dereference
comment_of (schema_ref (schema _ _ comment _ _ _ _ _ _ _)) = ok comment

-- convertTypeToAvro; the fields of a nested record have no doc
unfoldable mutual
  unfolding scalar_type

  pub ref_to_avro : SchemaRef → Result AvroType
  ref_to_avro no_schema = ok (named "string")
  ref_to_avro (schema_ref s) = type_to_avro s

  pub type_to_avro : Schema → Result AvroType
  type_to_avro (schema name t _ nullable fs element _ value _ metadata) =
      let fields = nested_to_avro fs in
      let items = part_to_avro element in
      let values = part_to_avro value in
      let base =
        (if str_eq t type_record
          then (fields >>= λ as'. ok (object "" "record" name (pos 0) (pos 0) nothing nothing as'))
          else if str_eq t type_list
          then (items >>= λ i. ok (object "" "array" "" (pos 0) (pos 0) i nothing no_avro_fields))
          else if str_eq t type_map
          then (values >>= λ v. ok (object "" "map" "" (pos 0) (pos 0) nothing v no_avro_fields))
          else ok (scalar_type t metadata)) in
      base >>= λ b. ok (or_null nullable b)

  pub part_to_avro : FieldRef → Result AvroType
  part_to_avro no_field = err nil_dereference
  part_to_avro (field_ref (field _ _ type _ _)) = ref_to_avro type

  pub nested_to_avro : Fields → Result AvroFields
  nested_to_avro nil = ok no_avro_fields
  nested_to_avro (cons (field name _ type _ _) fs) =
      ref_to_avro type >>= λ t. nested_to_avro fs >>= λ rest. ok (avro_field name t "" rest)

-- the loop of SchemaToAvroJSON over the fields
unfoldable pub fields_to_avro : Fields → Result AvroFields
unfolding ref_to_avro
fields_to_avro nil = ok no_avro_fields
fields_to_avro (cons (field name _ type _ _) fs) = ref_to_avro type >>= λ t.
    comment_of type >>= λ doc. fields_to_avro fs >>= λ rest. ok (avro_field name t doc rest)

-- SchemaToAvroJSON, with json.Marshal of the record
unfoldable pub schema_to_avro_json :
    (AvroRecord → Result String) → SchemaRef → String → String → Result String
unfolding fields_to_avro
schema_to_avro_json marshal no_schema record_name namespace = err "schema cannot be nil"
schema_to_avro_json marshal (schema_ref (schema _ _ _ _ fs _ _ _ _ _)) record_name namespace =
    fields_to_avro fs >>= λ as'.
    map_err (λ e. concat ("failed to serialize avro schema: " ∷ e ∷ []))
      (marshal (record {
        record_name = if str_eq record_name "" then "record" else record_name;
        namespace = namespace;
        record_fields = as';
      }))

unfoldable pub parse_avro_name : String → Schema
parse_avro_name name =
    if str_eq name "boolean"
    then new_primitive_schema "BOOLEAN" false
    else if str_eq name "int"
    then new_primitive_schema "INT" false
    else if str_eq name "long"
    then new_primitive_schema "LONG" false
    else if str_eq name "float"
    then new_primitive_schema "FLOAT" false
    else if str_eq name "double"
    then new_primitive_schema "DOUBLE" false
    else if str_eq name "bytes"
    then new_primitive_schema "BYTES" false
    else new_primitive_schema "STRING" false

-- the types that a logical type decides
unfoldable pub parse_logical : String → ℤ → ℤ → Option Schema
parse_logical name precision scale =
    if str_eq name "date"
    then some (new_primitive_schema "DATE" false)
    else if str_eq name "timestamp-millis" || str_eq name "timestamp-micros"
    then some (new_primitive_schema "TIMESTAMP" false)
    else if str_eq name "local-timestamp-millis" || str_eq name "local-timestamp-micros"
    then some (new_primitive_schema "TIMESTAMP_NTZ" false)
    else if str_eq name "uuid"
    then some (new_primitive_schema "UUID" false)
    else if str_eq name "decimal"
    then some (new_decimal_schema precision scale false)
    else none

abbrev with_nullable : Bool → Schema → Schema
with_nullable nullable (schema name t comment _ fs element key value ids metadata) =
    schema name t comment nullable fs element key value ids metadata

abbrev list_of : Schema → Schema
list_of element =
    schema "" type_list "" false nil
      (field_ref (field "element" "" (schema_ref element) none Value.null)) no_field no_field nil []

abbrev map_of : Schema → Schema
map_of value =
    schema "" type_map "" false nil no_field
      (field_ref
        (field "key" "" (schema_ref (new_primitive_schema "STRING" false)) none Value.null))
      (field_ref (field "value" "" (schema_ref value) none Value.null)) nil []

-- parseAvroType, which has no error of its own
unfoldable mutual
  unfolding parse_avro_name parse_logical

  pub parse_avro_type : AvroType → Schema
  parse_avro_type (named name) = parse_avro_name name
  parse_avro_type (union items) =
      let (nullable, actual) = parse_union items false none in
      elim actual [ none ↦ new_primitive_schema "STRING" true | some s ↦ with_nullable nullable s ]
  parse_avro_type (object logical_type type _ precision scale items values fields) =
      let element = parse_avro_type items in
      let value = parse_avro_type values in
      let rows = parse_avro_fields fields in
      elim (parse_logical logical_type precision scale) [
        | some s ↦ s
        | none ↦
            if str_eq type "array"
            then list_of element
            else if str_eq type "map"
            then map_of value
            else if str_eq type "record"
            then new_record_schema "" rows false
            else new_primitive_schema "STRING" false
      ]
  parse_avro_type nothing = new_primitive_schema "STRING" false
  parse_avro_type other = new_primitive_schema "STRING" false

  -- the loop over a union: whether there is a "null", and the last of the other items, unless it is
  -- a null value
  pub parse_union : AvroItems → Bool → Option Schema → Bool × Option Schema
  parse_union no_items nullable actual = (nullable, actual)
  parse_union (item (named name) rest) nullable actual =
      let s = parse_avro_type (named name) in
      let is_null = str_eq name "null" in
      parse_union rest (is_null || nullable) (if is_null then actual else some s)
  parse_union (item nothing rest) nullable actual = parse_union rest nullable none
  parse_union (item (union items) rest) nullable actual =
      parse_union rest nullable (some (parse_avro_type (union items)))
  parse_union (item (object l t n p s i v fs) rest) nullable actual =
      parse_union rest nullable (some (parse_avro_type (object l t n p s i v fs)))
  parse_union (item other rest) nullable actual =
      parse_union rest nullable (some (parse_avro_type other))

  pub parse_avro_fields : AvroFields → Fields
  parse_avro_fields no_avro_fields = nil
  parse_avro_fields (avro_field name type _ fs) =
      cons (field name "" (schema_ref (parse_avro_type type)) none Value.null)
        (parse_avro_fields fs)

-- AvroJSONToSchema, with json.Unmarshal of the text; no record means that there are no fields in it
unfoldable pub avro_json_to_schema : (String → Result (Option AvroRecord)) → String → Result Schema
unfolding parse_avro_fields
avro_json_to_schema unmarshal text =
    map_err (λ e. concat ("failed to parse avro JSON: " ∷ e ∷ [])) (unmarshal text) >>= λ found.
    elim found [
      | none ↦ err "invalid avro record schema: missing fields"
      | some r ↦ ok (new_record_schema r.record_name (parse_avro_fields r.record_fields) false)
    ]
