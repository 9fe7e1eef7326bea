-- ===== src/Delta/Files.antt =====
-- pkg/formats/delta/source.go: what a Delta action says of a table or of a data file.
use xtable_go.Prelude.{ℕ, String, true, ◌||◌, not, List, [], ◌∷◌, Option, none, some, if◌then◌else◌}
use xtable_go.Prelude.Int.{ℤ, pos}
use xtable_go.Prelude.Results.{Result, ok, ◌>>=◌, map_err}
use xtable_go.Prelude.Text.{str_eq, concat}
use xtable_go.Prelude.Dict
use xtable_go.Prelude.Dict.{Dict}
use xtable_go.Io.{trim_scheme, has_prefix, join_path}
use xtable_go.Model.Value.{Value, text}
use xtable_go.Model.Schema.{
  Schema, schema_ref, field, no_field, field_ref, PartitionField, field_by_path, field_name,
  new_primitive_schema, type_string, transform_value, delta_format, file_format_parquet,
}
use xtable_go.Model.Table.{
  Table, DataFile, PartitionValue, DeletionVector, ColumnStat, new_scalar_range,
}
use xtable_go.Delta.Actions.{AddAction, MetadataAction, DeletionVectorInfo, StatsBlob}
use xtable_go.Delta.Schema.{DeltaFields, delta_json_to_schema}
use xtable_go.Delta.Stats.{flatten_stats_map, column_stats}

-- What the reader of a Delta log gets from elsewhere: json.Unmarshal at the schema and of the
-- statistics, filepath.Join, the conversion of a float64 to an int64, and its own base path.
pub record Reader : Type 0 where
  pub base_path : String
  pub local_join : List String → String
  pub unmarshal_schema : String → Result DeltaFields
  pub decode_stats : String → Result StatsBlob
  pub truncate : ℕ → ℤ

module _ (r : Reader) where
  unfoldable pub resolve_data_path : String → String
  unfolding trim_scheme has_prefix
  resolve_data_path rel_path =
      if not (str_eq (trim_scheme rel_path).0 "") || has_prefix "/" rel_path
      then rel_path
      else join_path r.local_join r.base_path (rel_path ∷ [])

  -- the column of the schema, or a nullable text column where the schema has none of the name
  partition_column : Schema → String → PartitionField
  partition_column s col = record {
    source_field = elim (field_by_path (schema_ref s) col) [
      | field_ref f ↦ some f
      | no_field ↦
          some (field col "" (schema_ref (new_primitive_schema type_string true)) none Value.null)
    ];
    transform_type = transform_value;
    format = "";
    custom_partition_name = "";
  }

  partition_columns : Schema → List String → List PartitionField
  unfolding partition_column
  partition_columns s [] = []
  partition_columns s (col ∷ cols) = partition_column s col ∷ partition_columns s cols

  unfoldable pub table_from_metadata : MetadataAction → ℤ → Result Table
  unfolding partition_columns
  table_from_metadata meta commit_time =
      map_err (λ e. concat ("failed to parse delta schema: " ∷ e ∷ []))
        (delta_json_to_schema r.unmarshal_schema meta.schema_string)
      >>= λ s. ok (record {
        name = meta.name;
        table_format = delta_format;
        read_schema = s;
        layout_strategy = "";
        base_path = r.base_path;
        data_path = "";
        partitioning_fields = partition_columns s meta.partition_columns;
        latest_commit_time = commit_time;
        latest_metadata_path = "";
      })

  -- the values of an add action for the partition fields that it has, in the order of the table's
  partition_values_of : Dict (Option String) → List PartitionField → List PartitionValue
  partition_values_of values [] = []
  partition_values_of values (pf ∷ pfs) =
      let rest = partition_values_of values pfs in
      elim pf.source_field [
        | none ↦ rest
        | some f ↦ elim (Dict.lookup (field_name f) values) [
          | none ↦ rest
          | some none ↦
              record { partition_field = some pf; range = some (new_scalar_range Value.null) }
              ∷ rest
          | some (some v) ↦
              record { partition_field = some pf; range = some (new_scalar_range (text v)) } ∷ rest
        ]
      ]

  deletion_vector_of : Option DeletionVectorInfo → Option DeletionVector
  deletion_vector_of none = none
  deletion_vector_of (some dv) = some (record {
    storage_path = dv.path_or_inline_dv;
    offset = elim dv.offset [ none ↦ pos 0 | some n ↦ n ];
    size_in_bytes = dv.size_in_bytes;
    cardinality = dv.cardinality;
    inline_bytes = [];
  })

  -- the record count and the column statistics of an add action
  stats_of : AddAction → Table → Result (ℤ × List ColumnStat)
  stats_of add table =
      if str_eq add.stats ""
      then ok (pos 0, [])
      else (map_err (λ e. concat ("delta: parsing stats for " ∷ add.path ∷ ": " ∷ e ∷ []))
            (r.decode_stats add.stats)
          >>= λ stats.
              map_err (λ e. concat ("delta: stats for " ∷ add.path ∷ ": " ∷ e ∷ []))
                (column_stats r.truncate (flatten_stats_map stats.min_values "" [])
                  (flatten_stats_map stats.max_values "" [])
                  (flatten_stats_map stats.null_count "" []) (schema_ref table.read_schema) "")
              >>= λ cols. ok (stats.num_records, cols))

  unfoldable pub convert_add_action : AddAction → Table → Result DataFile
  unfolding stats_of partition_values_of deletion_vector_of
  convert_add_action add table = stats_of add table >>= λ stats. ok (record {
    physical_path = resolve_data_path add.path;
    file_format = file_format_parquet;
    file_size_bytes = add.size;
    record_count = stats.0;
    partition_values = partition_values_of add.partition_values table.partitioning_fields;
    column_stats = stats.1;
    last_modified = add.modification_time;
    deletion_vector = deletion_vector_of add.deletion_vector;
  })
