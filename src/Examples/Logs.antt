-- ===== src/Examples/Logs.antt =====
-- A small Delta log: version 0 describes the table and adds a file, version 1 adds another under
-- an earlier date, version 2 removes the first. It is read whole, and again with a checkpoint at version 1.
use xtable_go.Prelude.{
  ℕ, ◌+◌, ◌≤◌, String, true, false, List, [], ◌∷◌, Option, none, some, ◌≡◌, refl, subst, arith, All,
  zero, suc, map, length,
}
use mathlib.Core.List.Perm
use xtable_go.Prelude.Int.{pos, max_int64, ◌≤ℤ◌, ◌<ℤ◌}
use xtable_go.Prelude.Results.{Result, ok, err, ok-injective}
use xtable_go.Prelude.Text.{join, concat}
use xtable_go.Prelude.Dict
use xtable_go.Prelude.Dict.{Dict}
use xtable_go.Model.Table.{DataFile, TableChange, IncrementalTableChanges, Snapshot}
use xtable_go.Delta.Actions.{SingleAction, MetadataAction, AddAction, CommitInfoAction}
use xtable_go.Delta.Checkpoint.{CpRow, CheckpointState, read_checkpoint}
use xtable_go.Delta.Log.{
  Source, Contents, content, missing, DeltaCommit, LogState, load_log_state, read_commit,
  list_commit_files, latest_version, advance_commit_time, state_from, read_last_checkpoint,
  log_path, commit_text, parse_commit, parse_lines, truncated_at,
}
use xtable_go.Delta.Source.{
  get_current_snapshot, snapshot_at, table_at, active_files, replay_checkpoint, replay_commits,
  replay_actions, replay_action, latest_meta,
}
use xtable_go.Io.{join_path, has_prefix, cut_prefix, base_name, cut_suffix, trim_scheme}
use xtable_go.Prelude.Sort.{sort}
use xtable_go.Prelude.Decimal.{parse_int, format_padded, format_int}
use xtable_go.Delta.Schema.{no_fields, delta_json_to_schema, root_fields}
use xtable_go.Delta.Files.{table_from_metadata, convert_add_action, resolve_data_path}
use xtable_go.Delta.Target.{next_version}
use xtable_go.Delta.Target.Versions.{list_commit_files-next_version}
use xtable_go.Delta.Source.Snapshots.{IsReplayOf, get_current_snapshot-IsSaid}
use xtable_go.Delta.Changes.{
  get_changes_since, is_incremental_sync_safe_from, walk, tables_of, change_after, changes_in,
  changes_of, first_table, change_from_commit, added_files, removed_files,
}
use xtable_go.Delta.Changes.Backlog.{changes_after, get_changes_since-later}
use xtable_go.Delta.Changes.Instants.{
  Increases, UpTo, IsDatedUpTo, HasRoom, get_changes_since-Increases,
}
use xtable_go.Delta.Changes.Retention.{ComeFrom, get_changes_since-ComeFrom}

abbrev describe : MetadataAction
describe = record {
  id = "1";
  name = "t";
  description = "";
  format = record { provider = "parquet"; options = [] };
  schema_string = "{}";
  partition_columns = [];
  configuration = [];
  created_time = pos 0;
}

abbrev put : String → AddAction
put path = record {
  path = path;
  partition_values = [];
  size = pos 10;
  modification_time = pos 0;
  data_change = true;
  stats = "";
  tags = [];
  deletion_vector = none;
}

abbrev dated : ℕ → CommitInfoAction
dated n = record {
  timestamp = pos n;
  operation = "";
  operation_parameters = [];
  engine_info = "";
  app_id = "";
}

-- the lines of the commits, and what each decodes to
abbrev lines : Dict SingleAction
lines =
    (
      "meta",
      record {
        protocol = none;
        meta_data = some describe;
        add = none;
        remove = none;
        commit_info = some (dated 5);
      },
    )
    ∷ (
      "add a",
      record {
        protocol = none;
        meta_data = none;
        add = some (put "a");
        remove = none;
        commit_info = none;
      },
    )
    ∷ (
      "add b",
      record {
        protocol = none;
        meta_data = none;
        add = some (put "b");
        remove = none;
        commit_info = some (dated 3);
      },
    )
    ∷ (
      "remove a",
      record {
        protocol = none;
        meta_data = none;
        add = none;
        commit_info = some (dated 9);
        remove = some (record {
          path = "a";
          deletion_timestamp = pos 3;
          data_change = true;
          extended_file_metadata = false;
          partition_values = [];
          size = none;
        });
      },
    )
    ∷ []

abbrev at_log : String → String
at_log name = join "" ("mem://t/_delta_log/" ∷ name ∷ [])

abbrev commit_files : Dict Contents
commit_files =
    ("mem://t/_delta_log/00000000000000000000.json", content "0")
    ∷ ("mem://t/_delta_log/00000000000000000001.json", content "1")
    ∷ ("mem://t/_delta_log/00000000000000000002.json", content "2")
    ∷ []

abbrev checkpoint_files : Dict Contents
checkpoint_files =
    ("mem://t/_delta_log/_last_checkpoint", content "pointer")
    ∷ ("mem://t/_delta_log/00000000000000000001.checkpoint.parquet", content "rows")
    ∷ commit_files

abbrev or_missing : Option Contents → Contents
or_missing none = missing "not found"
or_missing (some c) = c

abbrev or_err {ℓ} : {A : Type ℓ} → Option A → Result A
or_err none = err "malformed"
or_err (some a) = ok a

abbrev texts : Dict (List String)
texts = ("0", "meta" ∷ "add a" ∷ []) ∷ ("1", "add b" ∷ []) ∷ ("2", " " ∷ "remove a" ∷ []) ∷ []

abbrev scan_text : String → List String × Option String
scan_text text = elim (Dict.lookup text texts) [ none ↦ ([], none) | some l ↦ (l, none) ]

abbrev row_of : String → CpRow
row_of p = record {
  meta_data = none;
  protocol = none;
  sidecar = none;
  add = some (record {
    path = p;
    partition_values = [];
    size = pos 10;
    modification_time = pos 0;
    data_change = true;
    stats = "";
    tags = [];
    deletion_vector = none;
  });
}

abbrev checkpoint_rows : List CpRow
checkpoint_rows =
    record {
      add = none;
      protocol = none;
      sidecar = none;
      meta_data = some (record {
        id = "1";
        name = "t";
        description = "";
        format = record { provider = "parquet"; options = [] };
        schema_string = "{}";
        partition_columns = [];
        created_time = none;
        configuration = [];
      });
    }
    ∷ row_of "a"
    ∷ row_of "b"
    ∷ []

abbrev source_of : Dict Contents → Source
source_of files = record {
  reader = record {
    base_path = "mem://t";
    local_join = join "/";
    unmarshal_schema = λ _. ok no_fields;
    decode_stats = λ _. err "no statistics";
    truncate = pos;
  };
  list = λ _. ok (
      "_delta_log/00000000000000000002.json" ∷ "_delta_log/00000000000000000000.json"
      ∷ "_delta_log/00000000000000000001.json" ∷ "_delta_log/_last_checkpoint" ∷ []);
  read = λ path. or_missing (Dict.lookup path files);
  scan = scan_text;
  decode_action = λ line. or_err (Dict.lookup line lines);
  decode_last_checkpoint = λ _. ok (record { version = pos 1; size = pos 2; parts = none });
  decode_rows = λ _. ok checkpoint_rows;
  range_order = λ l. l;
}

abbrev pub whole_log : Source
whole_log = source_of commit_files

abbrev checkpointed_log : Source
checkpointed_log = source_of checkpoint_files

-- the log as it is loaded, and what it comes to
whole : (state : LogState) × (load_log_state whole_log ≡ ok state)
unfolding get_changes_since Dict.lookup join load_log_state join_path has_prefix cut_prefix concat
    sort base_name cut_suffix parse_int latest_version read_commit format_padded format_int
    advance_commit_time walk tables_of table_from_metadata delta_json_to_schema root_fields
    change_after convert_add_action resolve_data_path trim_scheme changes_in changes_of first_table
    change_from_commit added_files removed_files state_from list_commit_files read_last_checkpoint
    log_path commit_text parse_commit parse_lines truncated_at
whole = (_, refl)

read_whole : (c : IncrementalTableChanges) × (get_changes_since whole_log (pos 0) ≡ ok c)
unfolding get_changes_since Dict.lookup join load_log_state join_path has_prefix cut_prefix concat
    sort base_name cut_suffix parse_int latest_version read_commit format_padded format_int
    advance_commit_time walk tables_of table_from_metadata delta_json_to_schema root_fields
    change_after convert_add_action resolve_data_path trim_scheme changes_in changes_of first_table
    change_from_commit added_files removed_files state_from list_commit_files read_last_checkpoint
    log_path commit_text parse_commit parse_lines truncated_at
read_whole = (_, refl)

read_later : (c : IncrementalTableChanges) × (get_changes_since whole_log (pos 5) ≡ ok c)
unfolding get_changes_since Dict.lookup join load_log_state join_path has_prefix cut_prefix concat
    sort base_name cut_suffix parse_int latest_version read_commit format_padded format_int
    advance_commit_time walk tables_of table_from_metadata delta_json_to_schema root_fields
    change_after convert_add_action resolve_data_path trim_scheme changes_in changes_of first_table
    change_from_commit added_files removed_files state_from list_commit_files read_last_checkpoint
    log_path commit_text parse_commit parse_lines truncated_at
read_later = (_, refl)

read_checkpointed :
    (c : IncrementalTableChanges) × (get_changes_since checkpointed_log (pos 5) ≡ ok c)
unfolding get_changes_since Dict.lookup join load_log_state join_path has_prefix cut_prefix concat
    sort base_name cut_suffix parse_int latest_version read_commit format_padded format_int
    advance_commit_time walk tables_of table_from_metadata delta_json_to_schema root_fields
    change_after convert_add_action resolve_data_path trim_scheme changes_in changes_of first_table
    change_from_commit added_files removed_files state_from list_commit_files read_last_checkpoint
    log_path commit_text parse_commit parse_lines truncated_at read_checkpoint
read_checkpointed = (_, refl)

-- The instants are in order though the date of the second commit goes back.
read_whole_instants :
    (map (λ (c : TableChange). c.commit_time) read_whole.0.table_changes
      ≡ pos 5 ∷ pos 6 ∷ pos 9 ∷ [])
    × (map (λ (c : TableChange). c.source_identifier) read_checkpointed.0.table_changes ≡ "2" ∷ [])
unfolding read_whole read_checkpointed
read_whole_instants = (refl, refl)

get_changes_since-later_example :
    get_changes_since whole_log (pos 5) ≡ ok (changes_after (pos 5) read_whole.0)
get_changes_since-later_example =
    get_changes_since-later whole_log (pos 0) (pos 5) (omega arith) read_whole.0 read_whole.1

dated_up_to : (v : ℕ) → v ≤ 2 → IsDatedUpTo whole_log 9 (pos v)
unfolding Dict.lookup join load_log_state join_path has_prefix cut_prefix concat sort base_name
    cut_suffix parse_int format_padded format_int state_from list_commit_files read_last_checkpoint
    log_path commit_text parse_commit parse_lines truncated_at read_commit
dated_up_to zero h commit e =
    subst (λ (z : DeltaCommit). z.commit_time ≤ℤ pos 9) (ok-injective e) (omega arith)
dated_up_to (suc zero) h commit e =
    subst (λ (z : DeltaCommit). z.commit_time ≤ℤ pos 9) (ok-injective e) (omega arith)
dated_up_to (suc (suc zero)) h commit e =
    subst (λ (z : DeltaCommit). z.commit_time ≤ℤ pos 9) (ok-injective e) (omega arith)
dated_up_to (suc (suc (suc n))) h commit e = absurd (omega arith)

whole_log-HasRoom : HasRoom whole_log 9
unfolding Dict.lookup join load_log_state join_path has_prefix cut_prefix concat sort base_name
    cut_suffix parse_int format_padded format_int state_from list_commit_files read_last_checkpoint
    log_path commit_text parse_commit parse_lines truncated_at read_commit
whole_log-HasRoom state h =
    subst
      (λ (z : LogState).
        (9 + length z.versions ≤ max_int64) × All (IsDatedUpTo whole_log 9) z.versions)
      (ok-injective h)
      (
        omega arith,
        (
          dated_up_to 0 (omega arith),
          (dated_up_to 1 (omega arith), (dated_up_to 2 (omega arith), tt)),
        ),
      )

get_changes_since-Increases_example :
    Increases (pos 5) read_later.0.table_changes
    × Increases (pos 0) read_later.0.table_changes
    × UpTo read_later.0.current_table.latest_commit_time read_later.0.table_changes
get_changes_since-Increases_example =
    get_changes_since-Increases whole_log 9 (pos 5) read_later.0 whole_log-HasRoom read_later.1

snapshot : (snap : Snapshot) × (get_current_snapshot checkpointed_log ≡ ok snap)
unfolding Dict.lookup join load_log_state join_path has_prefix cut_prefix concat sort base_name
    cut_suffix parse_int format_padded format_int state_from list_commit_files read_last_checkpoint
    log_path commit_text parse_commit parse_lines truncated_at read_commit get_current_snapshot
    snapshot_at latest_version table_at active_files replay_checkpoint replay_commits replay_actions
    replay_action latest_meta advance_commit_time table_from_metadata delta_json_to_schema
    root_fields convert_add_action resolve_data_path trim_scheme Dict.insert Dict.remove
    read_checkpoint
snapshot = (_, refl)

snapshot_paths : map (λ (f : DataFile). f.physical_path) snapshot.0.data_files ≡ "mem://t/b" ∷ []
unfolding snapshot
snapshot_paths = refl

get_current_snapshot-IsSaid_example :
    (state : LogState) × (load_log_state checkpointed_log ≡ ok state)
    × IsReplayOf checkpointed_log state snapshot.0
get_current_snapshot-IsSaid_example =
    get_current_snapshot-IsSaid checkpointed_log (λ l. Perm.rfl) snapshot.0 snapshot.1

abbrev checkpoint_at_1 : CheckpointState
checkpoint_at_1 = record { version = pos 1; meta = describe; adds = put "a" ∷ put "b" ∷ [] }

abbrev checkpointed_state : LogState
checkpointed_state = record { checkpoint = some checkpoint_at_1; versions = pos 2 ∷ [] }

loads_checkpointed : load_log_state checkpointed_log ≡ ok checkpointed_state
unfolding Dict.lookup join load_log_state join_path has_prefix cut_prefix concat sort base_name
    cut_suffix parse_int format_padded format_int state_from list_commit_files read_last_checkpoint
    log_path commit_text parse_commit parse_lines truncated_at read_commit read_checkpoint
loads_checkpointed = refl

lists_checkpointed : list_commit_files checkpointed_log ≡ ok (pos 0 ∷ pos 1 ∷ pos 2 ∷ [])
unfolding Dict.lookup join load_log_state join_path has_prefix cut_prefix concat sort base_name
    cut_suffix parse_int format_padded format_int state_from list_commit_files read_last_checkpoint
    log_path commit_text parse_commit parse_lines truncated_at read_commit read_checkpoint
lists_checkpointed = refl

first_checkpointed :
    (first : DeltaCommit) × (read_commit checkpointed_log (pos 0) ≡ ok first)
    × (pos 0 <ℤ first.commit_time)
    × (first.commit_time ≤ℤ pos 5)
unfolding Dict.lookup join load_log_state join_path has_prefix cut_prefix concat sort base_name
    cut_suffix parse_int format_padded format_int state_from list_commit_files read_last_checkpoint
    log_path commit_text parse_commit parse_lines truncated_at read_commit read_checkpoint
first_checkpointed = (_, refl, omega arith, omega arith)

get_changes_since-ComeFrom_example :
    (is_incremental_sync_safe_from checkpointed_log (pos 5) ≡ ok true)
    × ComeFrom (λ u. pos 1 <ℤ u) read_checkpointed.0.table_changes
get_changes_since-ComeFrom_example =
    get_changes_since-ComeFrom checkpointed_log checkpointed_state checkpoint_at_1 (pos 0)
      (pos 1 ∷ pos 2 ∷ []) first_checkpointed.0 (pos 5) read_checkpointed.0 loads_checkpointed refl
      lists_checkpointed first_checkpointed.1 first_checkpointed.2 first_checkpointed.3
      read_checkpointed.1

listed_whole : list_commit_files whole_log ≡ ok (pos 0 ∷ pos 1 ∷ pos 2 ∷ [])
unfolding Dict.lookup join load_log_state join_path has_prefix cut_prefix concat sort base_name
    cut_suffix parse_int format_padded format_int list_commit_files log_path
listed_whole = refl

two_is_less : pos 2 <ℤ pos max_int64
two_is_less = ground arith

list_commit_files-next_version_example :
    All (λ v. v <ℤ next_version (pos 0 ∷ pos 1 ∷ pos 2 ∷ [])) (pos 0 ∷ pos 1 ∷ pos 2 ∷ [])
list_commit_files-next_version_example =
    list_commit_files-next_version whole_log (pos 0 ∷ pos 1 ∷ pos 2 ∷ []) (pos 2) listed_whole refl
      two_is_less
