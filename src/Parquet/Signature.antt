-- ===== src/Parquet/Signature.antt =====
-- pkg/formats/parquet/merge.go: the text of a type in a conflict between two files.
use xtable_go.Prelude.{String, List, [], ◌∷◌, Option, none, some, if◌then◌else◌}
use xtable_go.Prelude.Text.{str_eq, concat, join}
use xtable_go.Prelude.Dict
use xtable_go.Prelude.Dict.{Dict}
use xtable_go.Model.Value.{Value, null}
use xtable_go.Model.Schema.{
  Schema, schema, SchemaRef, no_schema, schema_ref, field, FieldRef, no_field, field_ref, Fields,
  nil, cons, type_record,
}
use xtable_go.Model.Types.{
  type_list, type_map, type_decimal, metadata_key_decimal_precision, metadata_key_decimal_scale,
}

or_null : Option Value → Value
or_null none = null
or_null (some v) = v

-- typeSignature and fieldSignature; `show` is the verb %v
module _ (show : Value → String) where
  unfoldable mutual
    unfolding or_null

    pub type_signature : SchemaRef → String
    type_signature no_schema = "<none>"
    type_signature (schema_ref s) = schema_signature s

    pub schema_signature : Schema → String
    schema_signature (schema _ t _ _ fs element key value _ metadata) =
        let names = field_signatures fs in
        let element' = field_signature element in
        let key' = field_signature key in
        let value' = field_signature value in
        if str_eq t type_decimal
        then concat (
            "DECIMAL("
            ∷ show (or_null (Dict.lookup metadata_key_decimal_precision metadata))
            ∷ ","
            ∷ show (or_null (Dict.lookup metadata_key_decimal_scale metadata))
            ∷ ")"
            ∷ [])
        else if str_eq t type_list
        then concat ("LIST<" ∷ element' ∷ ">" ∷ [])
        else if str_eq t type_map
        then concat ("MAP<" ∷ key' ∷ "," ∷ value' ∷ ">" ∷ [])
        else if str_eq t type_record
        then concat ("RECORD<" ∷ join "," names ∷ ">" ∷ [])
        else t

    pub field_signature : FieldRef → String
    field_signature no_field = "<none>"
    field_signature (field_ref (field _ _ type _ _)) = type_signature type

    pub field_signatures : Fields → List String
    field_signatures nil = []
    field_signatures (cons (field name _ type _ _) fs) =
        concat (name ∷ ":" ∷ type_signature type ∷ []) ∷ field_signatures fs
