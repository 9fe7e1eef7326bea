-- ===== src/Model/Diff.antt =====
-- pkg/model/diff.go: the files added and removed between two listings of a table.
pub mod Apply
use xtable_go.Prelude.{
  String, Bool, true, false, not, ◌&&◌, ◌||◌, List, [], ◌∷◌, ◌++◌, Option, none, some, keep,
  if◌then◌else◌,
}
use xtable_go.Prelude.Int.{◌==ℤ◌}
use xtable_go.Prelude.Text.{str_lt}
use xtable_go.Prelude.Sort.{sort}
use xtable_go.Prelude.Dict
use xtable_go.Prelude.Keyed.{index_by}
use xtable_go.Prelude.Dict.{Dict}
use xtable_go.Model.Table.{DataFile, FilesDiff}

unfoldable pub has_changes : FilesDiff → Bool
has_changes d = elim d.files_added [
  | [] ↦ elim d.files_removed [ [] ↦ false | _ ↦ true ]
  | _ ↦ true
]

unfoldable pub file_content_changed : DataFile → DataFile → Bool
file_content_changed a b =
    not (a.file_size_bytes ==ℤ b.file_size_bytes) || not (a.record_count ==ℤ b.record_count)

abbrev pub path_of : DataFile → String
path_of f = f.physical_path

-- `oldMap` and `newMap`: the last file at a path stays
unfoldable pub by_path : List DataFile → Dict DataFile
by_path files = index_by path_of files

-- The loop over the new files: what it appends to `added` and to `removed`.
unfoldable pub compare_new : Dict DataFile → List DataFile → List DataFile × List DataFile
unfolding file_content_changed
compare_new old_map [] = ([], [])
compare_new old_map (file ∷ files) =
    let (added, removed) = compare_new old_map files in
    elim (Dict.lookup file.physical_path old_map) [
      | none ↦ (file ∷ added, removed)
      | some prev ↦
          if file_content_changed prev file
          then (file ∷ added, prev ∷ removed)
          else (added, removed)
    ]

unfoldable pub is_absent : Dict DataFile → DataFile → Bool
is_absent m file = elim (Dict.lookup file.physical_path m) [ none ↦ true | some _ ↦ false ]

abbrev pub path_less : DataFile → DataFile → Bool
path_less a b = str_lt a.physical_path b.physical_path

unfoldable pub diff_files : List DataFile → List DataFile → FilesDiff
unfolding by_path compare_new is_absent
diff_files old_files new_files =
    let (added, removed) = compare_new (by_path old_files) new_files in
    record {
      files_added = sort path_less added;
      files_removed = sort path_less (removed ++ keep (is_absent (by_path new_files)) old_files);
    }
