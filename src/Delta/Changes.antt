-- ===== src/Delta/Changes.antt =====
-- pkg/formats/delta/source.go: the changes that the commits of a log make, and whether a sync may
-- start from an instant.
pub mod Instants
pub mod Backlog
pub mod Retention
use xtable_go.Prelude.{
  String, Bool, true, false, List, [], ◌∷◌, ◌++◌, Option, none, some, if◌then◌else◌,
}
use xtable_go.Prelude.Int.{ℤ, pos, ltb_ℤ, leb_ℤ}
use xtable_go.Prelude.Results.{Result, ok, err, ◌>>=◌, map_err}
use xtable_go.Prelude.Text.{concat}
use xtable_go.Prelude.Decimal.{format_int, parse_int}
use xtable_go.Model.Schema.{file_format_parquet}
use xtable_go.Model.Table.{
  Table, DataFile, FilesDiff, TableChange, IncrementalTableChanges, Snapshot,
}
use xtable_go.Delta.Actions.{SingleAction, AddAction, RemoveAction, MetadataAction}
use xtable_go.Delta.Checkpoint.{CheckpointState}
use xtable_go.Delta.Files.{Reader, table_from_metadata, resolve_data_path, convert_add_action}
use xtable_go.Delta.Log.{
  Source, DeltaCommit, LogState, latest_version, advance_commit_time, list_commit_files,
  load_log_state, read_commit,
}
use xtable_go.Delta.Source.{get_table, table_as_of, no_metadata}

-- What the walk of GetChangesSince has at its end: the changes, the table and the last instant.
pub record Walked : Type 0 where
  pub changes : List TableChange
  pub table : Option Table
  pub time : ℤ

-- the end of GetChangesSince, after the walk
unfoldable pub changes_of : ℤ → Walked → Result IncrementalTableChanges
unfolding no_metadata
changes_of latest walked = elim walked.table [
  | none ↦ err (no_metadata latest)
  | some t ↦
      ok (record { table_changes = walked.changes; current_table = table_as_of t walked.time })
]

module _ (s : Source) where
  removed_file : RemoveAction → DataFile
  removed_file a = record {
    physical_path = resolve_data_path s.reader a.path;
    file_format = file_format_parquet;
    file_size_bytes = pos 0;
    record_count = pos 0;
    partition_values = [];
    column_stats = [];
    last_modified = pos 0;
    deletion_vector = none;
  }

  unfoldable pub added_files : Table → List SingleAction → Result (List DataFile)
  added_files table [] = ok []
  added_files table (a ∷ acts) = elim a.add [
    | none ↦ added_files table acts
    | some add ↦ convert_add_action s.reader add table >>= λ file.
        added_files table acts >>= λ files. ok (file ∷ files)
  ]

  unfoldable pub removed_files : List SingleAction → List DataFile
  unfolding removed_file
  removed_files [] = []
  removed_files (a ∷ acts) =
      let rest = removed_files acts in
      elim a.remove [ none ↦ rest | some gone ↦ removed_file gone ∷ rest ]

  unfoldable pub change_from_commit : DeltaCommit → Table → Result TableChange
  unfolding added_files removed_files
  change_from_commit commit table = added_files table commit.actions >>= λ added. ok (record {
    files_diff = record { files_added = added; files_removed = removed_files commit.actions };
    table_as_of_change = table;
    source_identifier = format_int commit.version;
    commit_time = table.latest_commit_time;
  })

  unfoldable pub get_table_change_for_commit : String → Result TableChange
  unfolding get_table change_from_commit
  get_table_change_for_commit commit_id = elim (parse_int commit_id) [
    | none ↦ err (concat ("invalid commit ID " ∷ commit_id ∷ []))
    | some v ↦ read_commit s v >>= λ commit.
        get_table s commit_id >>= λ table. change_from_commit commit table
  ]

  -- the tables that a commit's metaData actions describe, the last of them kept
  unfoldable pub tables_of : ℤ → List SingleAction → Option Table → Result (Option Table)
  tables_of time [] table = ok table
  tables_of time (a ∷ acts) table = elim a.meta_data [
    | none ↦ tables_of time acts table
    | some meta ↦ table_from_metadata s.reader meta time >>= λ t. tables_of time acts (some t)
  ]

  -- the change of a commit whose instant is `time`, where that is after `from`
  unfoldable pub change_after : ℤ → DeltaCommit → ℤ → Option Table → Result (List TableChange)
  unfolding change_from_commit no_metadata
  change_after from commit time table = if leb_ℤ time from then ok [] else elim table [
    | none ↦ err (no_metadata commit.version)
    | some t ↦ change_from_commit commit (table_as_of t time) >>= λ c. ok (c ∷ [])
  ]

  unfoldable pub walk : ℤ → List ℤ → Option Table → ℤ → Result Walked
  unfolding tables_of change_after
  walk from [] table time = ok (record { changes = []; table = table; time = time })
  walk from (v ∷ vs) table time = read_commit s v >>= λ commit.
      let now = advance_commit_time time commit.commit_time in
      tables_of now commit.actions table >>= λ table'.
      change_after from commit now table' >>= λ change. walk from vs table' now >>= λ rest.
      ok (record { changes = change ++ rest.changes; table = rest.table; time = rest.time })

  -- the table of the checkpoint, where there is one
  unfoldable pub first_table : LogState → Result (Option Table)
  first_table state = elim state.checkpoint [
    | none ↦ ok none
    | some cp ↦ table_from_metadata s.reader cp.meta (pos 0) >>= λ t. ok (some t)
  ]

  unfoldable pub changes_in : LogState → ℤ → Result IncrementalTableChanges
  unfolding walk first_table changes_of
  changes_in state from = elim (latest_version state) [
    | none ↦ err (concat ("no delta log commits found in " ∷ s.reader.base_path ∷ []))
    | some latest ↦ first_table state >>= λ first.
        walk from state.versions first (pos 0) >>= λ walked. changes_of latest walked
  ]

  unfoldable pub get_changes_since : ℤ → Result IncrementalTableChanges
  unfolding changes_in
  get_changes_since from = load_log_state s >>= λ state. changes_in state from

  unfoldable pub is_incremental_sync_safe_from : ℤ → Result Bool
  is_incremental_sync_safe_from earliest = list_commit_files s >>= λ versions. elim versions [
    | [] ↦ ok false
    | v ∷ vs ↦ read_commit s v >>= λ first.
        if leb_ℤ first.commit_time (pos 0) then ok false else ok (leb_ℤ first.commit_time earliest)
  ]
