-- ===== src/Delta/Target.antt =====
-- pkg/formats/delta/target.go: the commits of a Delta table.
pub mod Versions
pub mod Commits
pub mod Watermark
use xtable_go.Prelude.{
  String, Bool, true, false, List, [], ◌∷◌, ◌++◌, map, Option, none, some, if◌then◌else◌, get_last?,
}
use xtable_go.Prelude.Int.{ℤ, pos, inc64}
use xtable_go.Prelude.Results.{Result, ok, err, ◌>>=◌, map_err, traverse}
use xtable_go.Prelude.Text.{concat}
use xtable_go.Prelude.Dict
use xtable_go.Prelude.Dict.{Dict}
use xtable_go.Prelude.Decimal.{format_padded}
use xtable_go.Io.{join_path}
use xtable_go.Io.Relativize.{relativize_path}
use xtable_go.Model.Value.{Value, float32, float64, is_special32, is_special64}
use xtable_go.Model.Schema.{Field, SchemaRef, schema_ref, PartitionField, field_name, delta_format}
use xtable_go.Model.Table.{
  Table, DataFile, PartitionValue, DeletionVector, ColumnStat, Range, Snapshot, all_data_files,
  TableChange, IncrementalTableChanges,
}
use xtable_go.Model.SyncMetadata.{TableSyncMetadata, Codec, read_sync_metadata, write_sync_metadata}
use xtable_go.Spi.{ConversionTarget}
use xtable_go.Delta.Actions.{
  SingleAction, AddAction, RemoveAction, MetadataAction, DeletionVectorInfo, StatsJson, no_action,
  new_parquet_format,
}
use xtable_go.Delta.Schema.{DeltaFields, schema_to_delta_json, nil_dereference}
use xtable_go.Delta.Writer.{Target, make_relative_path, convert_data_file_to_add_action}
use xtable_go.Delta.Log.{Source, list_commit_files, read_commit}

-- the version after the last one
unfoldable pub next_version : List ℤ → ℤ
next_version versions = elim (get_last? versions) [ none ↦ pos 0 | some v ↦ inc64 v ]

-- the metadata as the target gives it back, with its own format and all properties
unfoldable pub as_delta : Dict String → Option TableSyncMetadata → Option TableSyncMetadata
as_delta props none = none
as_delta props (some m) = some (record {
  last_instant_synced = m.last_instant_synced;
  instants_to_consider_for_next_sync = m.instants_to_consider_for_next_sync;
  source_format = m.source_format;
  target_format = delta_format;
  source_identifier = m.source_identifier;
  custom_properties = props;
})

-- what the properties of a metaData action say; no properties at all count as nil, where the loop
-- goes on
configured : Codec → Dict String → Option TableSyncMetadata → Option TableSyncMetadata
unfolding as_delta
configured c [] later = later
configured c (p ∷ ps) later = as_delta (p ∷ ps) (read_sync_metadata c (p ∷ ps))

-- the loop of GetTableMetadata over the actions of the last commit
metadata_in : Codec → List SingleAction → Option TableSyncMetadata
unfolding configured
metadata_in c [] = none
metadata_in c (a ∷ acts) =
    let later = metadata_in c acts in
    elim a.meta_data [ none ↦ later | some meta ↦ configured c meta.configuration later ]

abbrev protocol_line : SingleAction
protocol_line = record {
  protocol = some (record { min_reader_version = pos 1; min_writer_version = pos 2 });
  meta_data = none;
  add = none;
  remove = none;
  commit_info = none;
}

abbrev pub add_line : AddAction → SingleAction
add_line a = record {
  protocol = none;
  meta_data = none;
  add = some a;
  remove = none;
  commit_info = none;
}

abbrev info_line : String → ℤ → SingleAction
info_line operation now = record {
  protocol = none;
  meta_data = none;
  add = none;
  remove = none;
  commit_info = some (record {
    timestamp = now;
    operation = operation;
    operation_parameters = [];
    engine_info = "polytable";
    app_id = "";
  });
}

partition_column : PartitionField → Result String
partition_column pf = elim pf.source_field [
  | none ↦ err nil_dereference
  | some f ↦ ok (field_name f)
]

module _ {S : Type 0} (t : Target S) where
  add_lines : List DataFile → List SingleAction
  unfolding convert_data_file_to_add_action
  add_lines [] = []
  add_lines (df ∷ dfs) = add_line (convert_data_file_to_add_action t df) ∷ add_lines dfs

  remove_lines : ℤ → List DataFile → List SingleAction
  remove_lines now [] = []
  remove_lines now (df ∷ dfs) =
      record {
        protocol = none;
        meta_data = none;
        add = none;
        remove = some (record {
          path = make_relative_path t df.physical_path;
          deletion_timestamp = now;
          data_change = true;
          extended_file_metadata = false;
          partition_values = [];
          size = none;
        });
        commit_info = none;
      }
      ∷ remove_lines now dfs

  -- what a commit keeps of the sync that wrote it
  abbrev commit_metadata : ℤ → Table → String → TableSyncMetadata
  commit_metadata instant table identifier = record {
    last_instant_synced = instant;
    instants_to_consider_for_next_sync = [];
    source_format = table.table_format;
    target_format = "";
    source_identifier = identifier;
    custom_properties = [];
  }

  abbrev pub snapshot_metadata : Snapshot → TableSyncMetadata
  snapshot_metadata snapshot =
      commit_metadata snapshot.table.latest_commit_time snapshot.table snapshot.source_identifier

  abbrev pub change_metadata : TableChange → TableSyncMetadata
  change_metadata change =
      commit_metadata change.commit_time change.table_as_of_change change.source_identifier

  -- the metaData action of a commit
  metadata_line : Table → TableSyncMetadata → String → List String → S → SingleAction
  metadata_line table sync schema columns s = record {
    protocol = none;
    meta_data = some (record {
      id = t.new_id s;
      name = table.name;
      description = "";
      format = new_parquet_format;
      schema_string = schema;
      partition_columns = columns;
      configuration = write_sync_metadata t.codec [] sync;
      created_time = t.now s;
    });
    add = none;
    remove = none;
    commit_info = none;
  }

  unfoldable pub snapshot_actions : Snapshot → String → List String → S → List SingleAction
  unfolding metadata_line add_lines
  snapshot_actions snapshot schema columns s =
      protocol_line
        ∷ metadata_line snapshot.table (snapshot_metadata snapshot) schema columns s
        ∷ add_lines (all_data_files snapshot)
      ++ info_line "POLYTABLE_SYNC_SNAPSHOT" (t.now s) ∷ []

  unfoldable pub change_actions : TableChange → String → List String → S → List SingleAction
  unfolding metadata_line add_lines remove_lines
  change_actions change schema columns s =
      metadata_line change.table_as_of_change (change_metadata change) schema columns s
        ∷ remove_lines (t.now s) change.files_diff.files_removed
      ++ add_lines change.files_diff.files_added
      ++ info_line "POLYTABLE_SYNC_INCREMENTAL" (t.now s) ∷ []

  line_text : SingleAction → Result String
  line_text action =
      map_err (λ e. concat ("failed to marshal delta action: " ∷ e ∷ [])) (t.marshal_action action)
      >>= λ line. ok (concat (line ∷ "\n" ∷ []))

  unfoldable pub write_commit_file : ℤ → List SingleAction → S → S × Option String
  unfolding line_text
  write_commit_file version actions s = elim (traverse line_text actions) [
    | err e ↦ (s, some e)
    | ok lines ↦
        t.write
          (join_path t.local_join t.base_path
            ("_delta_log" ∷ concat (format_padded 20 version ∷ ".json" ∷ []) ∷ []))
          (concat lines) s
  ]

  -- the versions there are, where an error of the listing counts as none
  listed_versions : S → List ℤ
  listed_versions s = elim (list_commit_files (t.source s)) [ err _ ↦ [] | ok versions ↦ versions ]

  -- the schema and the partition columns of a table as the log has them
  table_texts : (String → String) → Table → Result (String × List String)
  unfolding partition_column
  table_texts prefix table =
      map_err prefix (schema_to_delta_json t.marshal_schema (schema_ref table.read_schema))
      >>= λ schema.
          traverse partition_column table.partitioning_fields >>= λ columns. ok (schema, columns)

  unfoldable pub commit_snapshot : Snapshot → S → S × Option String
  unfolding listed_versions table_texts
  commit_snapshot snapshot s =
      let texts =
        table_texts (λ e. concat ("failed to convert schema to delta JSON: " ∷ e ∷ []))
          snapshot.table in
      elim texts [
        | err e ↦ (s, some e)
        | ok (schema, columns) ↦
            write_commit_file (next_version (listed_versions s))
              (snapshot_actions snapshot schema columns s) s
      ]

  -- the body of the loop over the changes
  unfoldable pub commit_change : TableChange → S → S × Option String
  unfolding table_texts
  commit_change change s = elim (list_commit_files (t.source s)) [
    | err e ↦ (s, some e)
    | ok versions ↦ elim (table_texts (λ e. e) change.table_as_of_change) [
      | err e ↦ (s, some e)
      | ok (schema, columns) ↦
          write_commit_file (next_version versions) (change_actions change schema columns s) s
    ]
  ]

  unfoldable pub commit_each : List TableChange → S → S × Option String
  commit_each [] s = (s, none)
  commit_each (change ∷ changes) s =
      let (s', failed) = commit_change change s in
      elim failed [ some e ↦ (s', some e) | none ↦ commit_each changes s' ]

  abbrev pub commit_changes : IncrementalTableChanges → S → S × Option String
  commit_changes changes s = commit_each changes.table_changes s

  unfoldable pub get_table_metadata : S → Option TableSyncMetadata × Option String
  unfolding metadata_in
  get_table_metadata s = elim (list_commit_files (t.source s)) [
    | err _ ↦ (none, none)
    | ok versions ↦ elim (get_last? versions) [
      | none ↦ (none, none)
      | some v ↦ elim (read_commit (t.source s) v) [
        | err e ↦ (none, some e)
        | ok commit ↦ (metadata_in t.codec commit.actions, none)
      ]
    ]
  ]

  -- the target as the controller calls it
  abbrev pub delta_target : ConversionTarget S
  delta_target = record {
    get_table_metadata = get_table_metadata;
    commit_changes = commit_changes;
    commit_snapshot = commit_snapshot;
  }
