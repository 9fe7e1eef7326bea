-- ===== src/Delta/Source.antt =====
-- pkg/formats/delta/source.go: the table and the snapshot that a log describes.
pub mod Replay
pub mod Snapshots
use xtable_go.Prelude.{
  String, Bool, true, false, List, [], ◌∷◌, ◌++◌, Option, none, some, if◌then◌else◌,
}
use xtable_go.Prelude.Int.{ℤ, pos, ltb_ℤ, leb_ℤ}
use xtable_go.Prelude.Results.{Result, ok, err, ◌>>=◌, map_err}
use xtable_go.Prelude.Text.{concat}
use xtable_go.Prelude.Dict
use xtable_go.Prelude.Dict.{Dict}
use xtable_go.Prelude.Decimal.{format_int, parse_int}
use xtable_go.Model.Schema.{file_format_parquet}
use xtable_go.Model.Table.{
  Table, DataFile, FilesDiff, TableChange, IncrementalTableChanges, Snapshot,
}
use xtable_go.Delta.Actions.{SingleAction, AddAction, RemoveAction, MetadataAction}
use xtable_go.Delta.Checkpoint.{CheckpointState}
use xtable_go.Delta.Files.{Reader, table_from_metadata, resolve_data_path, convert_add_action}
use xtable_go.Delta.Log.{
  Source, DeltaCommit, LogState, latest_version, advance_commit_time, list_commit_files,
  load_log_state, read_commit,
}

-- the last metaData action of a commit, over what was known before
unfoldable pub latest_meta : List SingleAction → Option MetadataAction → Option MetadataAction
latest_meta [] meta = meta
latest_meta (a ∷ acts) meta = latest_meta acts (elim a.meta_data [ none ↦ meta | some m ↦ some m ])

abbrev pub table_as_of : Table → ℤ → Table
table_as_of t time = record {
  name = t.name;
  table_format = t.table_format;
  read_schema = t.read_schema;
  layout_strategy = t.layout_strategy;
  base_path = t.base_path;
  data_path = t.data_path;
  partitioning_fields = t.partitioning_fields;
  latest_commit_time = time;
  latest_metadata_path = t.latest_metadata_path;
}

unfoldable pub no_metadata : ℤ → String
no_metadata v = concat ("no metadata action found in delta log up to version " ∷ format_int v ∷ [])

module _ (s : Source) where
  -- the loop of tableAt over the commits up to the target, which `target < v` ends
  walk_meta : ℤ → List ℤ → Option MetadataAction → ℤ → Result (Option MetadataAction × ℤ)
  walk_meta target [] meta time = ok (meta, time)
  walk_meta target (v ∷ vs) meta time =
      if ltb_ℤ target v
      then ok (meta, time)
      else (read_commit s v >>= λ commit.
          walk_meta target vs (latest_meta commit.actions meta)
            (advance_commit_time time commit.commit_time))

  unfoldable pub table_at : LogState → ℤ → Result Table
  unfolding walk_meta latest_meta no_metadata
  table_at state target =
      elim state.checkpoint [
        | none ↦ ok none
        | some cp ↦
            if ltb_ℤ target cp.version
            then err (
                concat (
                  "delta version "
                  ∷ format_int target
                  ∷ " predates the checkpoint at version "
                  ∷ format_int cp.version
                  ∷ " and its history has been cleaned up"
                  ∷ []))
            else ok (some cp.meta)
      ]
      >>= λ first. walk_meta target state.versions first (pos 0) >>= λ found. elim found.0 [
        | none ↦ err (no_metadata target)
        | some meta ↦ table_from_metadata s.reader meta found.1
      ]

  unfoldable pub get_current_table : Result Table
  unfolding table_at
  get_current_table = load_log_state s >>= λ state. elim (latest_version state) [
    | none ↦ err (concat ("no delta log commits found in " ∷ s.reader.base_path ∷ []))
    | some v ↦ table_at state v
  ]

  unfoldable pub get_table : String → Result Table
  unfolding table_at
  get_table commit_id = elim (parse_int commit_id) [
    | none ↦ err (concat ("invalid delta commit version " ∷ commit_id ∷ []))
    | some target ↦ load_log_state s >>= λ state. table_at state target
  ]

  -- one action on the active files: an add puts its file at its path, and only an action without an
  -- add can remove
  unfoldable pub replay_action : Table → SingleAction → Dict DataFile → Result (Dict DataFile)
  replay_action table a active = elim a.add [
    | some add ↦
        convert_add_action s.reader add table >>= λ file. ok (Dict.insert add.path file active)
    | none ↦ elim a.remove [ some gone ↦ ok (Dict.remove gone.path active) | none ↦ ok active ]
  ]

  unfoldable pub replay_actions : Table → List SingleAction → Dict DataFile → Result (Dict DataFile)
  unfolding replay_action
  replay_actions table [] active = ok active
  replay_actions table (a ∷ acts) active =
      replay_action table a active >>= λ active'. replay_actions table acts active'

  unfoldable pub replay_checkpoint : Table → List AddAction → Dict DataFile → Result (Dict DataFile)
  replay_checkpoint table [] active = ok active
  replay_checkpoint table (add ∷ adds) active = convert_add_action s.reader add table >>= λ file.
      replay_checkpoint table adds (Dict.insert add.path file active)

  unfoldable pub replay_commits : Table → List ℤ → Dict DataFile → Result (Dict DataFile)
  unfolding replay_actions
  replay_commits table [] active = ok active
  replay_commits table (v ∷ vs) active = read_commit s v >>= λ commit.
      replay_actions table commit.actions active >>= λ active'. replay_commits table vs active'

  -- the files that the log leaves active, by their paths in it
  unfoldable pub active_files : Table → LogState → Result (Dict DataFile)
  unfolding replay_checkpoint replay_commits
  active_files table state =
      elim state.checkpoint [ none ↦ ok [] | some cp ↦ replay_checkpoint table cp.adds [] ]
      >>= λ active. replay_commits table state.versions active

  unfoldable pub snapshot_at : LogState → ℤ → Result Snapshot
  unfolding table_at active_files
  snapshot_at state v = table_at state v >>= λ table. active_files table state >>= λ active.
      ok (record {
        table = table;
        partitioned_data_files = [];
        data_files = s.range_order (Dict.values active);
        source_identifier = format_int v;
      })

  unfoldable pub get_current_snapshot : Result Snapshot
  unfolding snapshot_at
  get_current_snapshot = load_log_state s >>= λ state. elim (latest_version state) [
    | none ↦ err (concat ("no delta commits found in " ∷ s.reader.base_path ∷ []))
    | some v ↦ snapshot_at state v
  ]
