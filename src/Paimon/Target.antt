-- ===== src/Paimon/Target.antt =====
-- pkg/formats/paimon/target.go: commits to a Paimon directory. Every commit writes its manifests, the
-- lists of them, the snapshot and the hints.
pub mod Folds
use xtable_go.Prelude.{
  String, Bool, List, [], ◌∷◌, ◌++◌, Option, none, some, if◌then◌else◌, get_last?,
}
use xtable_go.Prelude.Int.{ℤ, pos, inc64, add64, sub64, ltb_ℤ, ◌==ℤ◌}
use xtable_go.Prelude.Results.{Result, ok, err, ◌>>=◌, map_err, traverse}
use xtable_go.Prelude.Text.{concat}
use xtable_go.Prelude.Decimal.{format_int}
use xtable_go.Prelude.Keyed.{is_some}
use xtable_go.Prelude.Dict
use xtable_go.Prelude.Dict.{Dict}
use xtable_go.Io.{join_path}
use xtable_go.Io.Relativize.{relativize_path}
use xtable_go.Model.Value.{Value}
use xtable_go.Model.Schema.{schema_ref, field_name, PartitionField, TableFormat}
use xtable_go.Model.Table.{
  Table, DataFile, Snapshot, TableChange, IncrementalTableChanges, all_data_files,
}
use xtable_go.Model.SyncMetadata.{TableSyncMetadata, Codec, read_sync_metadata, write_sync_metadata}
use xtable_go.Spi.{ConversionTarget}
use xtable_go.Paimon.Types.{TableSchema, schema_to_paimon}
use xtable_go.Paimon.Manifest.{
  ManifestEntry, ManifestFileMeta, PaimonSnapshot, entry_for_data_file, manifest_dir,
  manifest_prefix, manifest_list_prefix, snapshot_dir, snapshot_prefix, schema_dir, schema_prefix,
  latest_hint_file, earliest_hint_file, commit_kind_append, commit_kind_overwrite, kind_add,
  kind_delete,
}
use xtable_go.Paimon.Source.{
  Source, paimon_format, path_in, list_versioned, read_schema, latest_snapshot, table_for_schema,
  live_files,
}
use xtable_go.Paimon.Writer.{
  Target, CommitParams, ◌>>>◌, written, partition_keys_of, with_id, counted, base_path, file_path,
  entries_for, file_key, apply_diff, sync_properties,
}

module _ {S : Type 0} (t : Target S) where
  -- the manifest of a list that is not empty, and what the list of manifests says of it
  write_manifest : List ManifestEntry → ℤ → String → S → S × Result (List ManifestFileMeta)
  unfolding counted
  write_manifest [] schema_id batch st = (st, ok [])
  write_manifest (entry ∷ entries) schema_id batch st =
      let name = concat (manifest_prefix ∷ batch ∷ "-0" ∷ []) in
      elim (t.encode_manifest (entry ∷ entries)) [
        | err e ↦ (st, err (concat ("failed to marshal paimon manifest: " ∷ e ∷ [])))
        | ok text ↦
            written (λ e. concat ("failed to write manifest " ∷ name ∷ ": " ∷ e ∷ []))
              (t.source.storage.write (file_path t manifest_dir name) text st)
            >>> λ _ st'.
                let (added, deleted) = counted (entry ∷ entries) (pos 0, pos 0) in
                (
                  st',
                  ok (
                      record {
                        manifest_name = name;
                        manifest_size = t.size_of text;
                        num_added_files = added;
                        num_deleted_files = deleted;
                        manifest_schema_id = schema_id;
                      }
                      ∷ []),
                )
      ]

  -- writeManifestList: the name of the list
  unfoldable pub write_manifest_list : List ManifestEntry → ℤ → S → S × Result String
  unfolding write_manifest
  write_manifest_list entries schema_id st =
      let batch = t.new_id st in
      let name = concat (manifest_list_prefix ∷ batch ∷ "-0" ∷ []) in
      write_manifest entries schema_id batch st >>> λ metas st1.
      elim (t.encode_manifest_list metas) [
        | err e ↦ (st1, err (concat ("failed to marshal paimon manifest list: " ∷ e ∷ [])))
        | ok text ↦
            written (λ e. concat ("failed to write manifest list " ∷ name ∷ ": " ∷ e ∷ []))
              (t.source.storage.write (file_path t manifest_dir name) text st1)
            >>> λ _ st2. (st2, ok name)
      ]

  -- nextSnapshotID
  unfoldable pub next_snapshot_id : S → Result ℤ
  next_snapshot_id st =
      map_err (λ e. concat ("failed to list paimon snapshot directory: " ∷ e ∷ []))
        (list_versioned t.source (path_in t.source (snapshot_dir ∷ [])) snapshot_prefix st)
      >>= λ snapshots. elim (get_last? snapshots) [ none ↦ ok (pos 1) | some v ↦ ok (inc64 v.id) ]

  write_hint : String → ℤ → S → S × Result (Unit {0})
  write_hint name id st =
      written
        (λ e.
          concat ("failed to write snapshot hint " ∷ file_path t snapshot_dir name ∷ ": " ∷ e ∷ []))
        (t.source.storage.write (file_path t snapshot_dir name) (format_int id) st)

  -- the numbers of records, over those of the files so far
  summed : (ℤ → ℤ → ℤ) → List DataFile → ℤ → ℤ
  summed op [] total = total
  summed op (file ∷ files) total = summed op files (op total file.record_count)

  delta_records : CommitParams → ℤ → ℤ
  unfolding summed
  delta_records p start = summed sub64 p.removed (summed add64 p.added start)

  snapshot_of : CommitParams → ℤ → String → String → ℤ → PaimonSnapshot
  unfolding delta_records summed
  snapshot_of p id base_list delta_list now = record {
    version = pos 3;
    id = id;
    schema_id = p.params_schema_id;
    base_manifest_list = base_list;
    delta_manifest_list = delta_list;
    commit_user = "polytable";
    commit_identifier = id;
    commit_kind = p.params_commit_kind;
    time_millis = now;
    total_record_count = some (delta_records p (summed add64 p.base (pos 0)));
    delta_record_count = some (delta_records p (pos 0));
    properties = p.params_properties;
  }

  -- the snapshot file and the hints
  write_snapshot : ℤ → PaimonSnapshot → S → S × Result (Unit {0})
  unfolding write_hint
  write_snapshot id snap st =
      let path = file_path t snapshot_dir (concat (snapshot_prefix ∷ format_int id ∷ [])) in
      elim (t.encode_snapshot snap) [
        | err e ↦ (st, err (concat ("failed to marshal paimon snapshot: " ∷ e ∷ [])))
        | ok text ↦
            written (λ e. concat ("failed to write snapshot " ∷ path ∷ ": " ∷ e ∷ []))
              (t.source.storage.write path text st)
            >>> λ _ st1.
                (if id ==ℤ pos 1 then write_hint earliest_hint_file id st1 else (st1, ok tt))
                >>> λ _ st2. write_hint latest_hint_file id st2
      ]

  -- the entries of a commit: those of the base, and those that it deletes and then adds
  unfoldable pub commit_entries : CommitParams → Result (List ManifestEntry × List ManifestEntry)
  unfolding entries_for
  commit_entries p = entries_for t kind_add p.params_schema_id p.base >>= λ base.
      entries_for t kind_delete p.params_schema_id p.removed >>= λ removed.
      entries_for t kind_add p.params_schema_id p.added >>= λ added. ok (base, removed ++ added)

  unfoldable pub commit : CommitParams → S → S × Result (Unit {0})
  unfolding commit_entries write_manifest_list next_snapshot_id snapshot_of write_snapshot
  commit p st = elim (commit_entries p) [
    | err e ↦ (st, err e)
    | ok (base, delta) ↦ write_manifest_list base p.params_schema_id st >>> λ base_list st1.
        write_manifest_list delta p.params_schema_id st1 >>> λ delta_list st2.
        elim (next_snapshot_id st2) [
          | err e ↦ (st2, err e)
          | ok id ↦ write_snapshot id (snapshot_of p id base_list delta_list (t.now st2)) st2
        ]
  ]

  -- a new schema file
  write_schema : ℤ → TableSchema → S → S × Result ℤ
  write_schema id ts st =
      let path = file_path t schema_dir (concat (schema_prefix ∷ format_int id ∷ [])) in
      elim (t.encode_schema (with_id id ts)) [
        | err e ↦ (st, err (concat ("failed to marshal paimon schema: " ∷ e ∷ [])))
        | ok text ↦
            written (λ e. concat ("failed to write schema file " ∷ path ∷ ": " ∷ e ∷ []))
              (t.source.storage.write path text st)
            >>> λ _ st'. (st', ok id)
      ]

  -- ensureSchema: the id of the recorded schema where it is the same, else that of a new file
  unfoldable pub ensure_schema : Table → S → S × Result ℤ
  unfolding partition_keys_of write_schema
  ensure_schema table st =
      elim (schema_to_paimon (schema_ref table.read_schema)
        (partition_keys_of table.partitioning_fields)) [
          | err e ↦ (st, err (concat ("failed to convert schema to paimon: " ∷ e ∷ [])))
          | ok ts ↦
              elim (list_versioned t.source (path_in t.source (schema_dir ∷ [])) schema_prefix st) [
                | err e ↦ (st, err (concat ("failed to list paimon schema directory: " ∷ e ∷ [])))
                | ok existing ↦ elim (get_last? existing) [
                  | none ↦ write_schema (pos 0) ts st
                  | some latest ↦ elim (read_schema t.source latest.id st) [
                    | err e ↦ (st, err e)
                    | ok previous ↦
                        if t.deep_equal (with_id previous.id ts) previous
                        then (st, ok previous.id)
                        else write_schema (inc64 latest.id) ts st
                  ]
                ]
              ]
        ]

  abbrev pub reported : S × Result (Unit {0}) → S × Option String
  reported (st, ok _) = (st, none)
  reported (st, err e) = (st, some e)

  -- CommitSnapshot: the commit has no base, so that its files are the whole list
  unfoldable pub commit_snapshot : Snapshot → S → S × Option String
  unfolding ensure_schema commit sync_properties
  commit_snapshot snapshot st = reported (
      ensure_schema snapshot.table st >>> λ schema_id st1.
      commit
        (record {
          params_schema_id = schema_id;
          base = [];
          added = all_data_files snapshot;
          removed = [];
          params_commit_kind = commit_kind_overwrite;
          params_properties =
              sync_properties t snapshot.table.latest_commit_time snapshot.table.table_format
                snapshot.source_identifier;
        })
        st1)

  -- currentFiles: the files of the latest snapshot, if there is one
  unfoldable pub current_files : S → Result (List DataFile)
  current_files st = latest_snapshot t.source st >>= λ found. elim found [
    | none ↦ ok []
    | some snap ↦ read_schema t.source snap.schema_id st >>= λ ts.
        table_for_schema t.source ts >>= λ table. live_files t.source snap table st
  ]

  -- the loop of CommitChanges, with the greatest instant and the files so far
  unfoldable pub commit_each :
      TableFormat → List TableChange → ℤ → List DataFile → S → S × Result (Unit {0})
  unfolding ensure_schema commit sync_properties apply_diff
  commit_each format [] latest base st = (st, ok tt)
  commit_each format (change ∷ changes) latest base st =
      let latest' = if ltb_ℤ latest change.commit_time then change.commit_time else latest in
      let added = change.files_diff.files_added in
      let removed = change.files_diff.files_removed in
      ensure_schema change.table_as_of_change st >>> λ schema_id st1.
      commit
        (record {
          params_schema_id = schema_id;
          base = base;
          added = added;
          removed = removed;
          params_commit_kind = commit_kind_append;
          params_properties = sync_properties t latest' format change.source_identifier;
        })
        st1
      >>> λ _ st2. commit_each format changes latest' (apply_diff t base added removed) st2

  unfoldable pub commit_changes : IncrementalTableChanges → S → S × Option String
  unfolding current_files commit_each
  commit_changes changes st = elim (current_files st) [
    | err e ↦ (st, some e)
    | ok base ↦
        reported
          (commit_each changes.current_table.table_format changes.table_changes (pos 0) base st)
  ]

  as_paimon : Dict String → Option TableSyncMetadata → Option TableSyncMetadata
  as_paimon props none = none
  as_paimon props (some m) = some (record {
    last_instant_synced = m.last_instant_synced;
    instants_to_consider_for_next_sync = m.instants_to_consider_for_next_sync;
    source_format = m.source_format;
    target_format = paimon_format;
    source_identifier = m.source_identifier;
    custom_properties = props;
  })

  -- GetTableMetadata: an error of the reader is no metadata
  unfoldable pub get_table_metadata : S → Option TableSyncMetadata × Option String
  unfolding as_paimon
  get_table_metadata st = elim (latest_snapshot t.source st) [
    | err _ ↦ (none, none)
    | ok none ↦ (none, none)
    | ok (some snap) ↦
        (as_paimon snap.properties (read_sync_metadata t.codec snap.properties), none)
  ]

  -- the target as the controller calls it
  abbrev pub paimon_target : ConversionTarget S
  paimon_target = record {
    get_table_metadata = get_table_metadata;
    commit_changes = commit_changes;
    commit_snapshot = commit_snapshot;
  }
