-- ===== src/Parquet/Partitions.antt =====
-- pkg/formats/parquet/partition.go: the columns that are in the names of directories.
use xtable_go.Prelude.{
  String, Bool, true, false, ◌&&◌, ◌||◌, List, [], ◌∷◌, Option, none, some, if◌then◌else◌, map,
}
use xtable_go.Prelude.Results.{Result, ok, err, ◌>>=◌}
use xtable_go.Prelude.Text.{str_eq, concat}
use xtable_go.Prelude.Keyed.{is_some}
use xtable_go.Prelude.Decimal.{parse_int}
use xtable_go.Prelude.Splitting.{cut_at}
use xtable_go.Model.Value.{Value, null}
use xtable_go.Model.Schema.{
  Schema, schema, SchemaRef, no_schema, schema_ref, Field, field, field_ref, no_field, Fields, nil,
  cons, field_by_path, new_primitive_schema, type_string, PartitionField, transform_value,
}
use xtable_go.Model.Types.{type_decimal, field_path}
use xtable_go.Io.{cut_prefix}
use xtable_go.Io.Metadata.{split_slashes}
use xtable_go.Parquet.Footer.{type_int, type_long, type_float, type_double, type_boolean, type_date}
use xtable_go.Parquet.Signature.{type_signature}

abbrev pub hive_null_marker : String
hive_null_marker = "__HIVE_DEFAULT_PARTITION__"

pub record HivePartition : Type 0 where
  pub key : String
  pub value : String

-- strings.TrimPrefix
trim_prefix : String → String → String
trim_prefix prefix s = elim (cut_prefix prefix s) [ none ↦ s | some rest ↦ rest ]

hive_segments : List String → List HivePartition
hive_segments [] = []
hive_segments (segment ∷ segments) =
    let rest = hive_segments segments in
    elim (cut_at b'=' segment) [
      | none ↦ rest
      | some (key, value) ↦ record { key = key; value = value } ∷ rest
    ]

-- HivePartitionsForFile; `dir` is filepath.Dir
unfoldable pub hive_partitions_for_file : (String → String) → String → String → List HivePartition
unfolding trim_prefix hive_segments
hive_partitions_for_file dir file_path base_path =
    let directory = dir (trim_prefix "/" (trim_prefix base_path file_path)) in
    let (segment, segments) = split_slashes directory in
    if str_eq directory "." || str_eq directory "" then [] else hive_segments (segment ∷ segments)

-- whether strconv.ParseFloat, strconv.ParseBool and time.Parse with the layout time.DateOnly take a
-- text
pub record Readers : Type 0 where
  pub is_float : String → Bool
  pub is_bool : String → Bool
  pub is_date : String → Bool

abbrev pub no_partition_value : String → Bool
no_partition_value value = str_eq value "" || str_eq value hive_null_marker

all_texts : (String → Bool) → List String → Bool
all_texts test [] = true
all_texts test (value ∷ values) = test value && all_texts test values

any_without_value : List String → Bool
any_without_value [] = false
any_without_value (value ∷ values) = no_partition_value value || any_without_value values

-- PartitionColumnSchema
unfoldable pub partition_column_schema : Readers → List String → Schema
unfolding all_texts any_without_value
partition_column_schema readers [] = new_primitive_schema type_string true
partition_column_schema readers (first ∷ others) =
    let values = first ∷ others in
    if any_without_value values
    then new_primitive_schema type_string true
    else if all_texts (λ v. is_some (parse_int v)) values
    then new_primitive_schema type_long true
    else if all_texts readers.is_float values
    then new_primitive_schema type_double true
    else if all_texts readers.is_date values
    then new_primitive_schema type_date true
    else new_primitive_schema type_string true

pub record PartitionSample : Type 0 where
  pub sample_value : String
  pub sample_file : String

pub record ObservedPartition : Type 0 where
  pub observed_key : String
  pub samples : List PartitionSample

-- valueFitsType
unfoldable pub value_fits_type : Readers → String → SchemaRef → Bool
value_fits_type readers value no_schema = true
value_fits_type readers value (schema_ref (schema _ t _ _ _ _ _ _ _ _)) =
    if no_partition_value value
    then true
    else if str_eq t type_int || str_eq t type_long
    then is_some (parse_int value)
    else if str_eq t type_float || str_eq t type_double || str_eq t type_decimal
    then readers.is_float value
    else if str_eq t type_boolean
    then readers.is_bool value
    else if str_eq t type_date
    then readers.is_date value
    else true

abbrev pub field_type : Field → SchemaRef
field_type (field _ _ type _ _) = type

-- `append(fields, f)`
unfoldable pub add_field : Fields → Field → Fields
add_field nil f = cons f nil
add_field (cons g fs) f = cons g (add_field fs f)

abbrev pub with_field : Schema → Field → Schema
with_field (schema name t comment nullable fs element key value keys metadata) f =
    schema name t comment nullable (add_field fs f) element key value keys metadata

module _ (readers : Readers) (show : Value → String) where
  -- checkValuesFitColumn, with the error, if any
  unfoldable pub check_values_fit_column : String → List PartitionSample → Field → Option String
  unfolding value_fits_type
  check_values_fit_column key [] f = none
  check_values_fit_column key (sample ∷ samples) f =
      if value_fits_type readers sample.sample_value (field_type f)
      then check_values_fit_column key samples f
      else some (
          concat (
            "partition directory "
            ∷ key
            ∷ "="
            ∷ sample.sample_value
            ∷ " does not fit column "
            ∷ field_path f
            ∷ ", which the data files declare "
            ∷ type_signature show (field_type f)
            ∷ " ("
            ∷ sample.sample_file
            ∷ ")"
            ∷ []))

  -- the column of a key: that of the schema, if all values fit, or a new one at its end
  partition_source : Schema → ObservedPartition → Result (Schema × Field)
  unfolding check_values_fit_column partition_column_schema
  partition_source s column = elim (field_by_path (schema_ref s) column.observed_key) [
    | field_ref f ↦ elim (check_values_fit_column column.observed_key column.samples f) [
      | some e ↦ err e
      | none ↦ ok (s, f)
    ]
    | no_field ↦
        let made =
          field column.observed_key ""
            (schema_ref (
              partition_column_schema readers
                (map (λ (sample : PartitionSample). sample.sample_value) column.samples)))
            none null in
        ok (with_field s made, made)
  ]

  -- partitionSpec, of a schema that is there
  unfoldable pub partition_spec :
      Schema → List ObservedPartition → Result (Schema × List PartitionField)
  unfolding partition_source
  partition_spec s [] = ok (s, [])
  partition_spec s (column ∷ columns) = partition_source s column >>= λ found.
      partition_spec found.0 columns >>= λ rest. ok (
        rest.0,
        record {
          source_field = some found.1;
          transform_type = transform_value;
          format = "";
          custom_partition_name = "";
        }
            ∷ rest.1,
      )
