-- ===== src/Hudi/Target.antt =====
-- pkg/formats/hudi/target.go: commits to a Hudi table. A commit writes its file in the timeline and
-- then the properties.
use Prim.Native.String.{◌++◌}
use xtable_go.Prelude.{String, List, [], ◌∷◌, Option, none, some, get_last?}
use xtable_go.Prelude.Int.{ℤ}
use xtable_go.Prelude.Results.{Result, ok, err, ◌>>=◌, map_err, traverse}
use xtable_go.Prelude.Text.{join, concat}
use xtable_go.Prelude.Dict
use xtable_go.Prelude.Dict.{Dict}
use xtable_go.Io.Relativize.{relativize_path}
use xtable_go.Model.Value.{Value}
use xtable_go.Model.Schema.{schema_ref, field_name, PartitionField}
use xtable_go.Model.Table.{
  DataFile, PartitionValue, Snapshot, TableChange, IncrementalTableChanges, all_data_files,
}
use xtable_go.Model.SyncMetadata.{TableSyncMetadata, Codec, read_sync_metadata, write_sync_metadata}
use xtable_go.Spi.{ConversionTarget}
use xtable_go.Delta.Schema.{nil_dereference}
use xtable_go.Hudi.Properties.{
  serialized_lines, prop_table_name, prop_table_type, prop_table_version, prop_base_file_format,
  prop_partition_fields, prop_table_schema, prop_timeline_layout_version, prop_populate_meta_fields,
}
use xtable_go.Hudi.Avro.{AvroRecord, schema_to_avro_json}
use xtable_go.Hudi.Timeline.{WriteStat, CommitMetadata, instant_from_time}
use xtable_go.Hudi.Source.{
  Source, found, failed, absent, unusable, hoodie_path, read_properties, list_completed_commits,
  commit_metadata, hudi_format,
}

-- The writer of one table: its reader, the storage's writing, encoding/json, path.Clean, the verb %v,
-- the clock, new ids (the n-th in a state), and the orders in which maps are ranged over.
pub record Target (S : Type 0) : Type 0 where
  pub source : Source S
  pub write : String → String → S → S × Option String
  pub encode_commit : CommitMetadata → Result String
  pub encode_schema : AvroRecord → Result String
  pub codec : Codec
  pub clean : String → String
  pub show : Value → String
  pub now : S → ℤ
  pub new_id : S → DataFile → String
  pub range_properties : Dict String → Dict String

abbrev pub hive_default_partition : String
hive_default_partition = "__HIVE_DEFAULT_PARTITION__"

-- the directory of a partition, from the first value
unfoldable pub partition_path : (Value → String) → List PartitionValue → String
partition_path show [] = ""
partition_path show (pv ∷ pvs) = elim pv.range [
  | none ↦ ""
  | some r ↦ elim r.min_value [ Value.null ↦ hive_default_partition | v ↦ show v ]
]

partition_name : PartitionField → Result String
partition_name pf = elim pf.source_field [ none ↦ err nil_dereference | some f ↦ ok (field_name f) ]

-- `append(stats, ws)`
add_stat : WriteStat → List WriteStat → List WriteStat
add_stat ws [] = ws ∷ []
add_stat ws (first ∷ stats) = first ∷ add_stat ws stats

-- `m[key] = append(m[key], ws)`
unfoldable pub append_at : String → WriteStat → Dict (List WriteStat) → Dict (List WriteStat)
unfolding add_stat
append_at key ws m =
    Dict.insert key (elim (Dict.lookup key m) [ none ↦ ws ∷ [] | some stats ↦ add_stat ws stats ]) m

-- `for k, v := range from { to[k] = v }`
unfoldable pub set_all : Dict String → Dict String → Dict String
set_all [] to = to
set_all ((key, value) ∷ from) to = set_all from (Dict.insert key value to)

module _ {S : Type 0} (t : Target S) where
  -- the loop over the files: what was written to each partition
  unfoldable pub write_stats_of :
      S → List DataFile → Dict (List WriteStat) → Result (Dict (List WriteStat))
  unfolding partition_path append_at
  write_stats_of st [] stats = ok stats
  write_stats_of st (df ∷ dfs) stats =
      map_err
        (λ e. concat ("failed to place data file under " ∷ t.source.base_path ∷ ": " ∷ e ∷ []))
        (relativize_path t.clean df.physical_path t.source.base_path)
      >>= λ path. write_stats_of st dfs (
          append_at (partition_path t.show df.partition_values)
            (record {
              file_id = t.new_id st df;
              path = path;
              prev_commit = "";
              num_writes = df.record_count;
              total_write_bytes = df.file_size_bytes;
              file_size_in_bytes = df.file_size_bytes;
            })
            stats)

  -- the sync metadata of a commit
  unfoldable pub extra_metadata_of : Snapshot → Dict String
  extra_metadata_of snapshot = write_sync_metadata t.codec [] (record {
    last_instant_synced = snapshot.table.latest_commit_time;
    instants_to_consider_for_next_sync = [];
    source_format = snapshot.table.table_format;
    target_format = "";
    source_identifier = snapshot.source_identifier;
    custom_properties = [];
  })

  -- what a commit file of a snapshot says
  unfoldable pub metadata_of : Snapshot → S → Result CommitMetadata
  unfolding write_stats_of extra_metadata_of
  metadata_of snapshot st = write_stats_of st (all_data_files snapshot) [] >>= λ stats. ok (record {
    partition_to_write_stats = stats;
    partition_to_replace_file_ids = [];
    extra_metadata = extra_metadata_of snapshot;
    operation_type = "POLYTABLE_SYNC";
  })

  -- the properties after a commit, over those that there were
  unfoldable pub updated_properties : Snapshot → String → List String → Dict String → Dict String
  unfolding set_all extra_metadata_of
  updated_properties snapshot avro_json names props =
      let known = Dict.insert prop_base_file_format "PARQUET" (
        Dict.insert prop_populate_meta_fields "false" (
          Dict.insert prop_timeline_layout_version "1" (
            Dict.insert prop_table_version "6" (
              Dict.insert prop_table_type "COPY_ON_WRITE"
                (Dict.insert prop_table_name snapshot.table.name props))))) in
      let partitioned : Dict String = elim names [
        | [] ↦ known
        | n ∷ ns ↦ Dict.insert prop_partition_fields (join "," (n ∷ ns)) known
      ] in
      set_all (t.range_properties (extra_metadata_of snapshot))
        (Dict.insert prop_table_schema avro_json partitioned)

  -- the lines of a file
  lines_text : List String → String
  lines_text [] = ""
  lines_text (line ∷ lines) = concat (line ∷ "\n" ∷ []) ++ lines_text lines

  write_properties : Dict String → S → S × Option String
  unfolding lines_text
  write_properties props st =
      t.write (hoodie_path t.source ("hoodie.properties" ∷ []))
        (lines_text (serialized_lines (t.range_properties props))) st

  -- the last part of a commit: properties that exist and cannot be read are left alone
  unfoldable pub update_properties : Snapshot → String → List String → S → S × Option String
  unfolding updated_properties write_properties
  update_properties snapshot avro_json names st = elim (read_properties t.source st) [
    | found props ↦ write_properties (updated_properties snapshot avro_json names props) st
    | failed (absent _) ↦ write_properties (updated_properties snapshot avro_json names []) st
    | failed (unusable e) ↦
        (st, some (concat ("refusing to overwrite unreadable hoodie.properties: " ∷ e ∷ [])))
  ]

  -- the text of the schema, the partition columns and the commit file's text
  commit_texts : Snapshot → S → Result (String × List String × String)
  unfolding metadata_of partition_name
  commit_texts snapshot st =
      map_err (λ e. concat ("failed to convert schema to avro JSON: " ∷ e ∷ []))
        (schema_to_avro_json t.encode_schema (schema_ref snapshot.table.read_schema)
          snapshot.table.name (concat ("hoodie." ∷ snapshot.table.name ∷ [])))
      >>= λ avro_json. traverse partition_name snapshot.table.partitioning_fields >>= λ names.
          metadata_of snapshot st >>= λ meta.
          map_err (λ e. concat ("failed to serialize commit metadata: " ∷ e ∷ []))
            (t.encode_commit meta)
          >>= λ text. ok (avro_json, names, text)

  -- the path of the commit file of the instant that it is now
  abbrev pub commit_path : S → String
  commit_path st =
      hoodie_path t.source
        (concat (instant_from_time t.source.times (t.now st) ∷ ".commit" ∷ []) ∷ [])

  unfoldable pub commit_snapshot : Snapshot → S → S × Option String
  unfolding commit_texts update_properties
  commit_snapshot snapshot st = elim (commit_texts snapshot st) [
    | err e ↦ (st, some e)
    | ok (avro_json, names, text) ↦
        let (st', failure) = t.write (commit_path st) text st in
        elim failure [
          | some e ↦
              (st', some (concat ("failed to write commit file " ∷ commit_path st ∷ ": " ∷ e ∷ [])))
          | none ↦ update_properties snapshot avro_json names st'
        ]
  ]

  -- a change as a snapshot of the files that it adds
  abbrev pub snapshot_of_change : TableChange → Snapshot
  snapshot_of_change change = record {
    table = change.table_as_of_change;
    partitioned_data_files = [];
    data_files = change.files_diff.files_added;
    source_identifier = change.source_identifier;
  }

  unfoldable pub commit_each : List TableChange → S → S × Option String
  unfolding commit_snapshot
  commit_each [] st = (st, none)
  commit_each (change ∷ changes) st =
      let (st', failure) = commit_snapshot (snapshot_of_change change) st in
      elim failure [ some e ↦ (st', some e) | none ↦ commit_each changes st' ]

  unfoldable pub commit_changes : IncrementalTableChanges → S → S × Option String
  unfolding commit_each
  commit_changes changes st = commit_each changes.table_changes st

  as_hudi : Dict String → Option TableSyncMetadata → Option TableSyncMetadata
  as_hudi props none = none
  as_hudi props (some m) = some (record {
    last_instant_synced = m.last_instant_synced;
    instants_to_consider_for_next_sync = m.instants_to_consider_for_next_sync;
    source_format = m.source_format;
    target_format = hudi_format;
    source_identifier = m.source_identifier;
    custom_properties = props;
  })

  -- what the properties say; a missing file is no metadata
  properties_metadata : S → Option TableSyncMetadata × Option String
  unfolding as_hudi
  properties_metadata st = elim (read_properties t.source st) [
    | found props ↦ (as_hudi props (read_sync_metadata t.codec props), none)
    | failed (absent _) ↦ (none, none)
    | failed (unusable e) ↦ (none, some e)
  ]

  -- what the last commit file says
  last_commit_metadata : Option CommitMetadata → Option TableSyncMetadata
  unfolding as_hudi
  last_commit_metadata none = none
  last_commit_metadata (some meta) =
      as_hudi meta.extra_metadata (read_sync_metadata t.codec meta.extra_metadata)

  -- GetTableMetadata: the last commit file first, and then the properties
  unfoldable pub get_table_metadata : S → Option TableSyncMetadata × Option String
  unfolding properties_metadata last_commit_metadata
  get_table_metadata st = elim (list_completed_commits t.source st) [
    | err e ↦ (none, some e)
    | ok commits ↦ elim (get_last? commits) [
      | none ↦ properties_metadata st
      | some latest ↦ elim (last_commit_metadata (commit_metadata t.source latest st)) [
        | some meta ↦ (some meta, none)
        | none ↦ properties_metadata st
      ]
    ]
  ]

  -- the target as the controller calls it
  abbrev pub hudi_target : ConversionTarget S
  hudi_target = record {
    get_table_metadata = get_table_metadata;
    commit_changes = commit_changes;
    commit_snapshot = commit_snapshot;
  }
