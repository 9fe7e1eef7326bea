-- ===== src/Parquet/Target.antt =====
-- pkg/formats/parquet/target.go: manifests beside the data files of a directory.
use xtable_go.Prelude.{String, List, [], ◌∷◌, Option, none, some, if◌then◌else◌}
use xtable_go.Prelude.Int.{ℤ, pos, ltb_ℤ}
use xtable_go.Prelude.Results.{Result, ok, err}
use xtable_go.Prelude.Text.{concat}
use xtable_go.Model.Schema.{Schema, PartitionField, TableFormat}
use xtable_go.Model.Table.{DataFile, Snapshot, TableChange, IncrementalTableChanges}
use xtable_go.Model.SyncMetadata.{TableSyncMetadata}
use xtable_go.Io.Storage.{Storage}
use xtable_go.Spi.{ConversionTarget}
use xtable_go.Parquet.Source.{parquet_format}

abbrev parquet_metadata_dir : String
parquet_metadata_dir = "_polytable_metadata"

abbrev parquet_manifest_file : String
parquet_manifest_file = "manifest.json"

abbrev parquet_sync_metadata_file : String
parquet_sync_metadata_file = "sync_metadata.json"

-- the manifest of a snapshot
pub record Manifest : Type 0 where
  pub version : String
  pub manifest_id : String
  pub timestamp : ℤ
  pub manifest_schema : Schema
  pub data_files : List DataFile
  pub partition_fields : List PartitionField

-- the manifest of a change
pub record ChangeManifest : Type 0 where
  pub change_version : String
  pub change_id : String
  pub snapshot_id : String
  pub change_timestamp : ℤ
  pub change_schema : Schema
  pub added_files : List DataFile
  pub removed_files : List DataFile
  pub change_partition_fields : List PartitionField

-- The writer of one directory: the storage, filepath.Join, encoding/json, new ids and the clock.
pub record Target (S : Type 0) : Type 0 where
  pub storage : Storage S
  pub base_path : String
  pub local_join : List String → String
  pub encode_manifest : Manifest → Result String
  pub encode_change : ChangeManifest → Result String
  pub encode_metadata : TableSyncMetadata → Result String
  pub decode_metadata : String → Result TableSyncMetadata
  pub new_id : S → String
  pub now : S → ℤ

-- the largest commit time of the changes above the one so far
unfoldable pub latest_instant : List TableChange → ℤ → ℤ
latest_instant [] latest = latest
latest_instant (change ∷ changes) latest =
    latest_instant changes (if ltb_ℤ latest change.commit_time then change.commit_time else latest)

abbrev pub synced_metadata : ℤ → TableFormat → TableSyncMetadata
synced_metadata instant source_format = record {
  last_instant_synced = instant;
  instants_to_consider_for_next_sync = [];
  source_format = source_format;
  target_format = parquet_format;
  source_identifier = "";
  custom_properties = [];
}

module _ {S : Type 0} where
  -- the error of a step, with what its caller puts before it
  abbrev pub explained : String → S × Option String → S × Option String
  explained what (st, none) = (st, none)
  explained what (st, some e) = (st, some (concat (what ∷ ": " ∷ e ∷ [])))

  -- the next step, where the one before did not fail
  abbrev pub and_then : S × Option String → (S → S × Option String) → S × Option String
  and_then (st, none) next = next st
  and_then (st, some e) next = (st, some e)

module _ {S : Type 0} (t : Target S) where
  abbrev metadata_dir : String
  metadata_dir = t.local_join (t.base_path ∷ parquet_metadata_dir ∷ [])

  abbrev pub metadata_file : String → String
  metadata_file name = t.local_join (metadata_dir ∷ name ∷ [])

  -- a text that is written, or the error of making it; `made` and `wrote` say what failed
  write_text : String → String → String → Result String → S → S × Option String
  write_text made wrote path (err e) st = (st, some (concat (made ∷ ": " ∷ e ∷ [])))
  write_text made wrote path (ok contents) st = explained wrote (t.storage.write path contents st)

  write_sync_metadata_file : TableSyncMetadata → S → S × Option String
  unfolding write_text
  write_sync_metadata_file metadata st = explained "failed to write sync metadata" (
      write_text "failed to marshal sync metadata" "failed to write sync metadata file"
        (metadata_file parquet_sync_metadata_file) (t.encode_metadata metadata) st)

  unfoldable pub get_table_metadata : S → Option TableSyncMetadata × Option String
  get_table_metadata st = elim (t.storage.read (metadata_file parquet_sync_metadata_file) st) [
    | err _ ↦ (none, none)
    | ok contents ↦ elim (t.decode_metadata contents) [
      | ok metadata ↦ (some metadata, none)
      | err e ↦ (none, some (concat ("failed to parse sync metadata: " ∷ e ∷ [])))
    ]
  ]

  unfoldable pub manifest_of : Snapshot → S → Manifest
  manifest_of snapshot st = record {
    version = "1.0";
    manifest_id = t.new_id st;
    timestamp = t.now st;
    manifest_schema = snapshot.table.read_schema;
    data_files = snapshot.data_files;
    partition_fields = snapshot.table.partitioning_fields;
  }

  unfoldable pub commit_snapshot : Snapshot → S → S × Option String
  unfolding write_text manifest_of write_sync_metadata_file
  commit_snapshot snapshot st =
      and_then
        (write_text "failed to marshal manifest" "failed to write manifest file"
          (metadata_file parquet_manifest_file) (t.encode_manifest (manifest_of snapshot st)) st)
        (λ st'.
          write_sync_metadata_file
            (synced_metadata snapshot.table.latest_commit_time snapshot.table.table_format) st')

  unfoldable pub change_manifest_of : TableChange → S → ChangeManifest
  change_manifest_of change st = record {
    change_version = "1.0";
    change_id = t.new_id st;
    snapshot_id = change.source_identifier;
    change_timestamp = t.now st;
    change_schema = change.table_as_of_change.read_schema;
    added_files = change.files_diff.files_added;
    removed_files = change.files_diff.files_removed;
    change_partition_fields = change.table_as_of_change.partitioning_fields;
  }

  -- the loop over the changes
  unfoldable pub write_changes : List TableChange → S → S × Option String
  unfolding write_text change_manifest_of
  write_changes [] st = (st, none)
  write_changes (change ∷ changes) st =
      and_then
        (write_text "failed to marshal change manifest" "failed to write change manifest"
          (metadata_file (concat ("change_" ∷ change.source_identifier ∷ ".json" ∷ [])))
          (t.encode_change (change_manifest_of change st)) st)
        (write_changes changes)

  unfoldable pub commit_changes : IncrementalTableChanges → S → S × Option String
  unfolding write_changes latest_instant write_sync_metadata_file
  commit_changes changes st = and_then (write_changes changes.table_changes st) (λ st'.
      write_sync_metadata_file
        (synced_metadata (latest_instant changes.table_changes (pos 0))
          changes.current_table.table_format)
        st')

  abbrev pub parquet_target : ConversionTarget S
  parquet_target = record {
    get_table_metadata = λ st. get_table_metadata st;
    commit_changes = commit_changes;
    commit_snapshot = commit_snapshot;
  }
