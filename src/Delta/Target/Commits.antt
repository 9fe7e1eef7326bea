-- ===== src/Delta/Target/Commits.antt =====
-- pkg/formats/delta/target.go: what a commit does to the files of the table, as a reader of the log
-- sees them.
use xtable_go.Prelude.{String, List, [], ◌∷◌, ◌++◌, ◌≡◌, refl, ap, subst, ◌∙◌, if◌then◌else◌}
use mathlib.Core.Path.{ap₂}
use xtable_go.Prelude.Int.{ℤ}
use xtable_go.Prelude.Results.{ok}
use xtable_go.Prelude.Text.{str_eq}
use xtable_go.Prelude.Dict
use xtable_go.Prelude.Dict.{Dict}
use xtable_go.Model.Table.{DataFile, Snapshot, Table, TableChange, all_data_files}
use xtable_go.Delta.Log.{Source}
use xtable_go.Delta.Source.{replay_actions}
use xtable_go.Delta.Source.Replay.{
  Said, nothing, present, absent, said, and_then, IsSaid, replay_actions-Follows,
}
use xtable_go.Delta.Source.Snapshots.{said-append, and_then-nothing}
use xtable_go.Delta.Writer.{Target, make_relative_path, convert_data_file_to_add_action}
use xtable_go.Delta.Target.{
  snapshot_actions, change_actions, add_lines, remove_lines, metadata_line, info_line,
}

module _ {S : Type 0} (t : Target S) where
  -- what the files that are written say of a path of the log: the last of them at it
  abbrev pub written_at : String → List DataFile → Said
  written_at p [] = nothing
  written_at p (df ∷ dfs) =
      and_then
        (if str_eq (make_relative_path t df.physical_path) p
          then present (convert_data_file_to_add_action t df)
          else nothing)
        (written_at p dfs)

  -- what the files that are removed say of a path of the log
  abbrev pub removed_at : String → List DataFile → Said
  removed_at p [] = nothing
  removed_at p (df ∷ dfs) =
      and_then (if str_eq (make_relative_path t df.physical_path) p then absent else nothing)
        (removed_at p dfs)

  said-add_lines : (p : String) (dfs : List DataFile) → said p (add_lines t dfs) ≡ written_at p dfs
  unfolding add_lines convert_data_file_to_add_action
  said-add_lines p [] = refl
  said-add_lines p (df ∷ dfs) = ap (and_then _) (said-add_lines p dfs)

  said-remove_lines :
      (p : String) (now : ℤ) (dfs : List DataFile)
      → said p (remove_lines t now dfs) ≡ removed_at p dfs
  unfolding remove_lines
  said-remove_lines p now [] = refl
  said-remove_lines p now (df ∷ dfs) = ap (and_then _) (said-remove_lines p now dfs)

  said-change_actions :
      (p : String) (change : TableChange) (schema : String) (columns : List String) (s : S)
      → said p (change_actions t change schema columns s)
        ≡ and_then
            (removed_at p change.files_diff.files_removed)
            (written_at p change.files_diff.files_added)
  unfolding change_actions metadata_line
  said-change_actions p change schema columns s =
      let removed = remove_lines t (t.now s) change.files_diff.files_removed in
      let added = add_lines t change.files_diff.files_added in
      let info = info_line "POLYTABLE_SYNC_INCREMENTAL" (t.now s) ∷ [] in
      and_then-nothing (said p (removed ++ added ++ info))
      ∙ said-append p (removed ++ added) info
      ∙ said-append p removed added
      ∙ ap₂ and_then (said-remove_lines p (t.now s) change.files_diff.files_removed)
          (said-add_lines p change.files_diff.files_added)

  said-snapshot_actions :
      (p : String) (snapshot : Snapshot) (schema : String) (columns : List String) (s : S)
      → said p (snapshot_actions t snapshot schema columns s)
        ≡ written_at p (all_data_files snapshot)
  unfolding snapshot_actions metadata_line
  said-snapshot_actions p snapshot schema columns s =
      let added = add_lines t (all_data_files snapshot) in
      let info = info_line "POLYTABLE_SYNC_SNAPSHOT" (t.now s) ∷ [] in
      and_then-nothing (and_then nothing (said p (added ++ info)))
      ∙ and_then-nothing (said p (added ++ info))
      ∙ said-append p added info
      ∙ said-add_lines p (all_data_files snapshot)

  module _ (r : Source) (table : Table) (active active' : Dict DataFile) where
    -- A reader that replays the commit of a change over the active files of the log finds at each
    -- path the last of the added files that are written at it, else nothing where a removed file is
    -- written at it, and else what was there.
    pub change_actions-IsSaid :
        (change : TableChange) (schema : String) (columns : List String) (s : S)
        → replay_actions r table (change_actions t change schema columns s) active ≡ ok active'
        → (p : String)
        → IsSaid r table
            (and_then
              (removed_at p change.files_diff.files_removed)
              (written_at p change.files_diff.files_added))
            (Dict.lookup p active)
            (Dict.lookup p active')
    change_actions-IsSaid change schema columns s replayed p =
        subst (λ says. IsSaid r table says (Dict.lookup p active) (Dict.lookup p active'))
          (said-change_actions p change schema columns s)
          ((replay_actions-Follows r table (change_actions t change schema columns s) active active'
              replayed).0
            p)

    -- A reader that replays the commit of a snapshot over the active files of the log finds at each
    -- path the last of the snapshot's files that are written at it, and else what was there: a file
    -- that the snapshot does not have stays active.
    pub snapshot_actions-IsSaid :
        (snapshot : Snapshot) (schema : String) (columns : List String) (s : S)
        → replay_actions r table (snapshot_actions t snapshot schema columns s) active ≡ ok active'
        → (p : String)
        → IsSaid r table
            (written_at p (all_data_files snapshot))
            (Dict.lookup p active)
            (Dict.lookup p active')
    snapshot_actions-IsSaid snapshot schema columns s replayed p =
        subst (λ says. IsSaid r table says (Dict.lookup p active) (Dict.lookup p active'))
          (said-snapshot_actions p snapshot schema columns s)
          ((replay_actions-Follows r table (snapshot_actions t snapshot schema columns s) active
              active' replayed).0
            p)
