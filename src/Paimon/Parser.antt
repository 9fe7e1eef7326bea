-- ===== src/Paimon/Parser.antt =====
-- pkg/formats/paimon/schema.go: the schema of a Paimon table, as it is read.
use xtable_go.Prelude.{
  String, Bool, true, false, not, ◌||◌, [], ◌∷◌, Option, none, some, if◌then◌else◌,
}
use xtable_go.Prelude.Int.{ℤ, pos, leb_ℤ, max_int64}
use xtable_go.Prelude.Results.{Result, ok, err, ◌>>=◌, map_err}
use xtable_go.Prelude.Text.{str_eq, concat}
use xtable_go.Prelude.Decimal.{parse_int}
use xtable_go.Prelude.Splitting.{trim_space, to_upper, cut_at, take_like}
use xtable_go.Io.{cut_prefix, has_prefix, cut_suffix}
use xtable_go.Io.Relativize.{contains_text}
use xtable_go.Model.Value.{Value, text}
use xtable_go.Model.Schema.{
  Schema, schema, schema_ref, field, Fields, no_field, field_ref, nil, cons, new_primitive_schema,
  new_record_schema,
}
use xtable_go.Model.Types.{type_list, type_map, new_decimal_schema}
use xtable_go.Paimon.Types.{
  PaimonType, empty_type, atomic, composite, malformed, data_field, DataFields, no_more, more,
  TableSchema, unsupported_type, metadata_key_timestamp_precision, millis, micros, nanos,
}

unfoldable pub timestamp_precision_bucket : ℤ → String
timestamp_precision_bucket precision =
    if leb_ℤ precision (pos 3) then millis else if leb_ℤ precision (pos 6) then micros else nanos

abbrev pub unsupported : String → String
unsupported what = concat (unsupported_type ∷ ": " ∷ what ∷ [])

abbrev timestamp_schema : Bool → Bool → ℤ → Schema
timestamp_schema zone_aware nullable precision =
    schema "" (if zone_aware then "TIMESTAMP" else "TIMESTAMP_NTZ") "" nullable nil no_field
      no_field no_field nil
      ((metadata_key_timestamp_precision, text (timestamp_precision_bucket precision)) ∷ [])

-- the precision in front of a timestamp's zone, and the zone
unfoldable pub timestamp_precision : String → String → Result (ℤ × String)
timestamp_precision upper body = elim (cut_prefix "(" body) [
  | none ↦ ok (pos 6, body)
  | some rest ↦ elim (cut_at b')' rest) [
    | none ↦ err (unsupported (concat ("malformed TIMESTAMP precision in " ∷ upper ∷ [])))
    | some (digits, zone) ↦ elim (parse_int (trim_space digits)) [
      | none ↦ err (unsupported (concat ("malformed TIMESTAMP precision in " ∷ upper ∷ [])))
      | some p ↦ ok (p, trim_space zone)
    ]
  ]
]

-- the zone decides between the two types of timestamps, unless the name has done so
unfoldable pub timestamp_zone : String → Bool → Bool → ℤ × String → Result Schema
unfolding timestamp_precision_bucket
timestamp_zone upper zone_aware nullable (precision, zone) =
    if str_eq zone "" || str_eq zone "WITHOUT TIME ZONE"
    then ok (timestamp_schema zone_aware nullable precision)
    else if str_eq zone "WITH LOCAL TIME ZONE"
    then ok (timestamp_schema true nullable precision)
    else err (unsupported upper)

-- parseTimestampSQLString
unfoldable pub parse_timestamp : String → Bool → Result Schema
unfolding timestamp_precision timestamp_zone
parse_timestamp upper nullable = elim (cut_prefix "TIMESTAMP_LTZ" upper) [
  | some body ↦
      timestamp_precision upper (trim_space body) >>= λ p. timestamp_zone upper true nullable p
  | none ↦ elim (cut_prefix "TIMESTAMP" upper) [
    | some body ↦
        timestamp_precision upper (trim_space body) >>= λ p. timestamp_zone upper false nullable p
    | none ↦
        timestamp_precision upper (trim_space upper) >>= λ p. timestamp_zone upper false nullable p
  ]
]

-- strconv.Atoi of digits, where a number out of range gives the greatest
unfoldable pub digits_value : String → ℤ
digits_value s = elim (parse_int s) [ none ↦ pos max_int64 | some n ↦ n ]

-- `find_decimal` is decimalParamsPattern.FindStringSubmatch, with its two groups
module _ (find_decimal : String → Option (String × String)) where
  decimal_type : String → Bool → Schema
  unfolding digits_value
  decimal_type upper nullable = elim (find_decimal upper) [
    | none ↦ new_decimal_schema (pos 10) (pos 0) nullable
    | some (p, s) ↦ new_decimal_schema (digits_value p) (digits_value s) nullable
  ]

  -- the switch of parseAtomicTypeSQLString over a name in capitals; `clean` is for the message
  unfoldable pub parse_atomic_name : String → String → Bool → Result Schema
  unfolding decimal_type parse_timestamp
  parse_atomic_name clean upper nullable =
      if str_eq upper "BOOLEAN"
      then ok (new_primitive_schema "BOOLEAN" nullable)
      else if str_eq upper "TINYINT"
          || str_eq upper "SMALLINT"
          || str_eq upper "INT"
          || str_eq upper "INTEGER"
      then ok (new_primitive_schema "INT" nullable)
      else if str_eq upper "BIGINT"
      then ok (new_primitive_schema "LONG" nullable)
      else if str_eq upper "FLOAT"
      then ok (new_primitive_schema "FLOAT" nullable)
      else if str_eq upper "DOUBLE" || str_eq upper "DOUBLE PRECISION"
      then ok (new_primitive_schema "DOUBLE" nullable)
      else if str_eq upper "STRING" || has_prefix "VARCHAR" upper || has_prefix "CHAR" upper
      then ok (new_primitive_schema "STRING" nullable)
      else if str_eq upper "BYTES" || has_prefix "BINARY" upper || has_prefix "VARBINARY" upper
      then ok (new_primitive_schema "BYTES" nullable)
      else if str_eq upper "DATE"
      then ok (new_primitive_schema "DATE" nullable)
      else if has_prefix "DECIMAL" upper || has_prefix "NUMERIC" upper || has_prefix "DEC" upper
      then ok (decimal_type upper nullable)
      else if has_prefix "TIMESTAMP" upper
      then parse_timestamp upper nullable
      else err (unsupported clean)

  -- parseAtomicTypeSQLString
  unfoldable pub parse_atomic : String → Result Schema
  unfolding parse_atomic_name
  parse_atomic raw =
      let clean = trim_space raw in
      elim (cut_suffix "NOT NULL" (to_upper clean)) [
        | none ↦ parse_atomic_name clean (to_upper clean) true
        | some rest ↦
            let bare = trim_space (take_like rest clean) in
            parse_atomic_name bare (to_upper bare) false
      ]

  abbrev with_comment : String → Schema → Schema
  with_comment comment (schema name t _ nullable fs element key value ids metadata) =
      schema name t comment nullable fs element key value ids metadata

  abbrev list_of : Bool → Schema → Schema
  list_of nullable element =
      schema "" type_list "" nullable nil
        (field_ref (field "element" "" (schema_ref element) none Value.null)) no_field no_field nil
        []

  abbrev map_from : Bool → Schema → Schema → Schema
  map_from nullable key value =
      schema "" type_map "" nullable nil no_field
        (field_ref (field "key" "" (schema_ref key) none Value.null))
        (field_ref (field "value" "" (schema_ref value) none Value.null)) nil []

  -- parsePaimonType, parseCompositePaimonType and paimonFieldsToModelFields
  unfoldable mutual
    unfolding parse_atomic

    pub parse_type : PaimonType → Result Schema
    parse_type empty_type = err (unsupported "empty type")
    parse_type (atomic name) = parse_atomic name
    parse_type (malformed e) = err e
    parse_type (composite header fields element key value) =
        let upper = to_upper (trim_space header) in
        let nullable = not (contains_text "NOT NULL" upper) in
        let rows = parse_fields fields in
        let elements = parse_type element in
        let keys = parse_type key in
        let values = parse_type value in
        if has_prefix "ROW" upper
        then (rows >>= λ fs. ok (new_record_schema "" fs nullable))
        else if has_prefix "ARRAY" upper
        then (map_err (λ e. concat ("array element: " ∷ e ∷ [])) elements >>= λ e.
            ok (list_of nullable e))
        else if has_prefix "MAP" upper
        then (map_err (λ e. concat ("map key: " ∷ e ∷ [])) keys >>= λ k.
            map_err (λ e. concat ("map value: " ∷ e ∷ [])) values >>= λ v.
            ok (map_from nullable k v))
        else err (unsupported header)

    pub parse_fields : DataFields → Result Fields
    parse_fields no_more = ok nil
    parse_fields (more (data_field id name type description) ds) =
        map_err (λ e. concat ("field " ∷ name ∷ ": " ∷ e ∷ [])) (parse_type type) >>= λ s.
        parse_fields ds >>= λ fs.
        ok (cons (field name "" (schema_ref (with_comment description s)) (some id) Value.null) fs)

  -- PaimonToSchema
  unfoldable pub paimon_to_schema : TableSchema → Result Schema
  unfolding parse_fields
  paimon_to_schema ts =
      parse_fields ts.fields >>= λ fs. ok (new_record_schema "paimon_table" fs false)
