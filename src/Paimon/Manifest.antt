-- ===== src/Paimon/Manifest.antt =====
-- pkg/formats/paimon/manifest.go and snapshot.go: the files that a snapshot is made of, and the
-- conversion of data files to entries of a manifest and back.
use xtable_go.Prelude.{String, List, [], ◌∷◌, Option, none, some, if◌then◌else◌}
use xtable_go.Prelude.Int.{ℤ, pos}
use xtable_go.Prelude.Results.{Result, ok, ◌>>=◌, map_err}
use xtable_go.Prelude.Text.{str_eq, str_lt, concat}
use xtable_go.Prelude.Sort.{sort}
use xtable_go.Prelude.Dict
use xtable_go.Prelude.Dict.{Dict}
use xtable_go.Io.{join_path}
use xtable_go.Io.Relativize.{relativize_path}
use xtable_go.Model.Value.{Value, text}
use xtable_go.Model.Schema.{Field, field_name, PartitionField, file_format_parquet}
use xtable_go.Model.Table.{DataFile, PartitionValue, new_scalar_range}

abbrev pub manifest_dir : String
manifest_dir = "manifest"

abbrev pub manifest_prefix : String
manifest_prefix = "manifest-"

abbrev pub manifest_list_prefix : String
manifest_list_prefix = "manifest-list-"

abbrev pub snapshot_dir : String
snapshot_dir = "snapshot"

abbrev pub snapshot_prefix : String
snapshot_prefix = "snapshot-"

abbrev pub schema_dir : String
schema_dir = "schema"

abbrev pub schema_prefix : String
schema_prefix = "schema-"

abbrev pub latest_hint_file : String
latest_hint_file = "LATEST"

abbrev pub earliest_hint_file : String
earliest_hint_file = "EARLIEST"

abbrev pub commit_kind_append : String
commit_kind_append = "APPEND"

abbrev pub commit_kind_overwrite : String
commit_kind_overwrite = "OVERWRITE"

abbrev pub kind_add : ℤ
kind_add = pos 0

abbrev pub kind_delete : ℤ
kind_delete = pos 1

pub record FileMeta : Type 0 where
  pub file_name : String
  pub file_size : ℤ
  pub row_count : ℤ
  pub file_schema_id : ℤ
  pub level : ℤ
  pub creation_time : ℤ
  pub file_format : String
  pub file_partition : Dict String

pub record ManifestEntry : Type 0 where
  pub kind : ℤ
  pub partition : Dict String
  pub bucket : ℤ
  pub total_buckets : ℤ
  pub file : FileMeta

pub record ManifestFileMeta : Type 0 where
  pub manifest_name : String
  pub manifest_size : ℤ
  pub num_added_files : ℤ
  pub num_deleted_files : ℤ
  pub manifest_schema_id : ℤ

pub record PaimonSnapshot : Type 0 where
  pub version : ℤ
  pub id : ℤ
  pub schema_id : ℤ
  pub base_manifest_list : String
  pub delta_manifest_list : String
  pub commit_user : String
  pub commit_identifier : ℤ
  pub commit_kind : String
  pub time_millis : ℤ
  pub total_record_count : Option ℤ
  pub delta_record_count : Option ℤ
  pub properties : Dict String

-- the field of a partition value that takes part
value_field : PartitionValue → Option Field
value_field pv = elim pv.partition_field [ none ↦ none | some pf ↦ pf.source_field ]

-- partitionMap, over the values so far. `show` is fmt.Sprintf with the verb %v.
unfoldable pub partition_map : (Value → String) → List PartitionValue → Dict String → Dict String
unfolding value_field
partition_map show [] values = values
partition_map show (pv ∷ pvs) values = elim (value_field pv) [
  | none ↦ partition_map show pvs values
  | some f ↦ elim pv.range [
    | none ↦ partition_map show pvs values
    | some r ↦ elim r.min_value [
      | Value.null ↦ partition_map show pvs (Dict.insert (field_name f) "" values)
      | v ↦ partition_map show pvs (Dict.insert (field_name f) (show v) values)
    ]
  ]
]

-- `clean` is path.Clean
unfoldable pub entry_for_data_file :
    (String → String) → (Value → String) → String → DataFile → ℤ → ℤ → Result ManifestEntry
unfolding partition_map
entry_for_data_file clean show base_path df kind schema_id =
    map_err (λ e. concat ("failed to place data file under " ∷ base_path ∷ ": " ∷ e ∷ []))
      (relativize_path clean df.physical_path base_path)
    >>= λ file_name.
        let partition = partition_map show df.partition_values [] in
        ok (record {
          kind = kind;
          partition = partition;
          bucket = pos 0;
          total_buckets = pos 1;
          file = record {
            file_name = file_name;
            file_size = df.file_size_bytes;
            row_count = df.record_count;
            file_schema_id = schema_id;
            level = pos 0;
            creation_time = df.last_modified;
            file_format = df.file_format;
            file_partition = partition;
          };
        })

keys : Dict String → List String
keys [] = []
keys ((k, v) ∷ m) = k ∷ keys m

unfoldable pub sorted_keys : Dict String → List String
unfolding keys
sorted_keys values = sort str_lt (keys values)

-- the values for the partition fields that the table has, by the order of their names
unfoldable pub partition_values_for :
    Dict PartitionField → Dict String → List String → List PartitionValue
partition_values_for fields values [] = []
partition_values_for fields values (name ∷ names) =
    let rest = partition_values_for fields values names in
    elim (Dict.lookup name fields) [
      | none ↦ rest
      | some pf ↦
          record {
            partition_field = some pf;
            range = some (
                new_scalar_range
                  (text (elim (Dict.lookup name values) [ none ↦ "" | some v ↦ v ])));
          }
          ∷ rest
    ]

-- the values of an entry, or else those of its file
abbrev pub entry_values : ManifestEntry → Dict String
entry_values entry = elim entry.partition [ [] ↦ entry.file.file_partition | p ∷ ps ↦ p ∷ ps ]

-- `join` is filepath.Join
unfoldable pub data_file_for_entry :
    (List String → String) → String → Dict PartitionField → ManifestEntry → DataFile
unfolding sorted_keys partition_values_for
data_file_for_entry join base_path fields entry = record {
  physical_path = join_path join base_path (entry.file.file_name ∷ []);
  file_format =
      if str_eq entry.file.file_format "" then file_format_parquet else entry.file.file_format;
  file_size_bytes = entry.file.file_size;
  record_count = entry.file.row_count;
  partition_values =
      partition_values_for fields (entry_values entry) (sorted_keys (entry_values entry));
  column_stats = [];
  last_modified = entry.file.creation_time;
  deletion_vector = none;
}
