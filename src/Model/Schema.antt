-- ===== src/Model/Schema.antt =====
-- pkg/model/schema.go and the type names of pkg/model/types.go. A pointer that the source tests for
-- nil is a reference with a case for nil; string types of the source are texts.
use Prim.Native.Char.{code}
use xtable_go.Prelude.{
  ℕ, ◌+◌, leb, ◌==◌, ◌&&◌, if◌then◌else◌, true, false, none, some, String, Bool, List, [], ◌∷◌,
  Option,
}
use xtable_go.Prelude.Int.{ℤ}
use xtable_go.Prelude.Text.{str_eq}
use xtable_go.Prelude.Dict.{Dict}
use xtable_go.Model.Value.{Value}

mutual
  pub data Schema : Type 0 where
    schema :
        (name data_type comment : String) (is_nullable : Bool) (fields : Fields)
        (element key value : FieldRef) (record_key_fields : Fields) (metadata : Dict Value)
        → Schema

  pub data SchemaRef : Type 0 where
    no_schema : SchemaRef
    schema_ref : Schema → SchemaRef

  pub data Field : Type 0 where
    field :
        (name parent_path : String) (type : SchemaRef) (field_id : Option ℤ) (default_value : Value)
        → Field

  pub data FieldRef : Type 0 where
    no_field : FieldRef
    field_ref : Field → FieldRef

  pub data Fields : Type 0 where
    nil : Fields
    cons : Field → Fields → Fields

abbrev pub field_name : Field → String
field_name (field name _ _ _ _) = name

-- Type, TableFormat, FileFormat and the like are string types.
abbrev pub TableFormat : Type 0
TableFormat = String

abbrev pub type_record : String
type_record = "RECORD"

abbrev pub type_string : String
type_string = "STRING"

abbrev pub delta_format : TableFormat
delta_format = "DELTA"

abbrev pub file_format_parquet : String
file_format_parquet = "APACHE_PARQUET"

abbrev pub transform_value : String
transform_value = "VALUE"

abbrev pub new_primitive_schema : String → Bool → Schema
new_primitive_schema t nullable = schema "" t "" nullable nil no_field no_field no_field nil []

abbrev pub new_record_schema : String → Fields → Bool → Schema
new_record_schema name fields nullable =
    schema name type_record "" nullable fields no_field no_field no_field nil []

-- strings.Split(path, "."): the part before the first dot, and the parts after it
unfoldable pub split_dots : String → String × List String
split_dots String.[] = ("", [])
split_dots (String.◌∷◌ c s) =
    let (part, parts) = split_dots s in
    if code c == b'.' then ("", part ∷ parts) else (String.◌∷◌ c part, parts)

fold_code : ℕ → ℕ
fold_code c = if leb b'A' c && leb c b'Z' then c + 32 else c

-- strings.EqualFold, on ASCII letters
unfoldable pub equal_fold : String → String → Bool
unfolding fold_code
equal_fold String.[] String.[] = true
equal_fold (String.◌∷◌ c s) (String.◌∷◌ d t) =
    fold_code (code c) == fold_code (code d) && equal_fold s t
equal_fold _ _ = false

abbrev or_field : FieldRef → FieldRef → FieldRef
or_field no_field f = f
or_field (field_ref g) f = field_ref g

exact_match : String → Fields → FieldRef
exact_match part nil = no_field
exact_match part (cons f fs) =
    if str_eq (field_name f) part then field_ref f else exact_match part fs

fold_match : String → Fields → FieldRef
fold_match part nil = no_field
fold_match part (cons f fs) =
    if equal_fold (field_name f) part then field_ref f else fold_match part fs

-- the inner loop of FieldByPath: an exact match anywhere before a match that ignores case
match_field : String → Fields → FieldRef
unfolding exact_match fold_match
match_field part fs = or_field (exact_match part fs) (fold_match part fs)

-- the fields in which the next part of a path is looked for, where the matched field is a record
record_fields : FieldRef → Option Fields
record_fields (field_ref (field _ _ (schema_ref (schema _ t _ _ fs _ _ _ _ _)) _ _)) =
    if str_eq t type_record then some fs else none
record_fields _ = none

walk_path : String → List String → Fields → FieldRef
unfolding match_field record_fields
walk_path part [] fs = match_field part fs
walk_path part (next ∷ parts) fs = elim (record_fields (match_field part fs)) [
  | none ↦ no_field
  | some below ↦ walk_path next parts below
]

-- FieldByPath
unfoldable pub field_by_path : SchemaRef → String → FieldRef
unfolding split_dots walk_path
field_by_path no_schema path = no_field
field_by_path (schema_ref (schema _ _ _ _ fs _ _ _ _ _)) path =
    let (part, parts) = split_dots path in walk_path part parts fs

-- PartitionField
pub record PartitionField : Type 0 where
  pub source_field : Option Field
  pub transform_type : String
  pub format : String
  pub custom_partition_name : String
