-- ===== src/Examples/Commits.antt =====
-- A target over a small Delta log, in which a change takes one file away and brings another, and a
-- snapshot has one file.
use xtable_go.Prelude.{[], ◌∷◌, none, ◌≡◌, refl}
use xtable_go.Prelude.Int.{pos}
use xtable_go.Prelude.Results.{ok, err}
use xtable_go.Prelude.Text.{join}
use xtable_go.Prelude.Dict
use xtable_go.Prelude.Dict.{Dict}
use xtable_go.Model.Table.{DataFile, Snapshot, TableChange, plain_file, all_data_files}
use xtable_go.Delta.Log.{Source}
use xtable_go.Delta.Source.{replay_actions}
use xtable_go.Delta.Source.Replay.{and_then, IsSaid}
use xtable_go.Delta.Files.{convert_add_action}
use xtable_go.Delta.Writer.{Target}
use xtable_go.Delta.Target.{change_actions, snapshot_actions}
use xtable_go.Delta.Target.Commits.{
  written_at, removed_at, change_actions-IsSaid, snapshot_actions-IsSaid,
}
use xtable_go.Examples.Logs.{whole_log}
use xtable_go.Examples.Syncs.{table_at}
use xtable_go.Examples.Watermarks.{one_text}

abbrev at_whole_log : Target Source
at_whole_log = record {
  base_path = "mem://t";
  local_join = join "/";
  source = λ s. s;
  write = λ path text s. (s, none);
  marshal_action = λ _. ok "{}";
  marshal_schema = λ _. ok "{}";
  marshal_stats = λ _. err "no statistics";
  codec = one_text;
  show = λ _. "";
  clean = λ p. p;
  now = λ _. pos 7;
  new_id = λ _. "1";
}

abbrev a_for_b : TableChange
a_for_b = record {
  files_diff = record {
    files_added = plain_file "b" 1 ∷ [];
    files_removed = plain_file "a" 1 ∷ [];
  };
  table_as_of_change = table_at (pos 9);
  source_identifier = "1";
  commit_time = pos 9;
}

abbrev with_b : Snapshot
with_b = record {
  table = table_at (pos 9);
  partitioned_data_files = [];
  data_files = plain_file "b" 1 ∷ [];
  source_identifier = "1";
}

abbrev a_is_there : Dict DataFile
a_is_there = ("a", plain_file "a" 1) ∷ []

replayed_change :
    (active : Dict DataFile) × (replay_actions whole_log
        (table_at (pos 9))
        (change_actions at_whole_log a_for_b "{}" [] whole_log)
        a_is_there
      ≡ ok active)
unfolding replay_actions change_actions convert_add_action
replayed_change = (_, refl)

replayed_snapshot :
    (active : Dict DataFile) × (replay_actions whole_log
        (table_at (pos 9))
        (snapshot_actions at_whole_log with_b "{}" [] whole_log)
        a_is_there
      ≡ ok active)
unfolding replay_actions snapshot_actions all_data_files convert_add_action
replayed_snapshot = (_, refl)

change_actions-IsSaid_example :
    IsSaid whole_log
      (table_at (pos 9))
      (and_then
        (removed_at at_whole_log "a" a_for_b.files_diff.files_removed)
        (written_at at_whole_log "a" a_for_b.files_diff.files_added))
      (Dict.lookup "a" a_is_there)
      (Dict.lookup "a" replayed_change.0)
change_actions-IsSaid_example =
    change_actions-IsSaid at_whole_log whole_log (table_at (pos 9)) a_is_there replayed_change.0
      a_for_b "{}" [] whole_log replayed_change.1 "a"

snapshot_actions-IsSaid_example :
    IsSaid whole_log
      (table_at (pos 9))
      (written_at at_whole_log "a" (all_data_files with_b))
      (Dict.lookup "a" a_is_there)
      (Dict.lookup "a" replayed_snapshot.0)
snapshot_actions-IsSaid_example =
    snapshot_actions-IsSaid at_whole_log whole_log (table_at (pos 9)) a_is_there replayed_snapshot.0
      with_b "{}" [] whole_log replayed_snapshot.1 "a"
