-- ===== src/Hudi/Timeline.antt =====
-- pkg/formats/hudi/timeline.go: instants, and what a commit file says.
use xtable_go.Prelude.{String, ◌==◌, leb, List, [], ◌∷◌, none, some, if◌then◌else◌}
use xtable_go.Prelude.Int.{ℤ, negsuc}
use xtable_go.Prelude.Results.{Result, err}
use xtable_go.Prelude.Text.{str_eq, concat}
use xtable_go.Prelude.Splitting.{char_count, first_chars, cut_at}
use xtable_go.Prelude.Dict.{Dict}
use xtable_go.Io.{base_name}

abbrev pub hudi_instant_format : String
hudi_instant_format = "20060102150405000"

-- package time: parsing by a layout, and formatting a time in UTC; a time is its milliseconds
pub record Times : Type 0 where
  pub parse : String → String → Result ℤ
  pub format : String → ℤ → String

-- the milliseconds of time.Time{}
abbrev pub zero_time : ℤ
zero_time = negsuc 62135596799999

abbrev pub instant_from_time : Times → ℤ → String
instant_from_time times now = times.format hudi_instant_format now

unfoldable pub time_from_instant : Times → String → Result ℤ
time_from_instant times instant =
    if char_count instant == 14
    then times.parse "20060102150405" instant
    else if leb 17 (char_count instant)
    then times.parse hudi_instant_format (first_chars 17 instant)
    else err (concat ("invalid hudi instant format: " ∷ instant ∷ []))

-- HoodieWriteStat; the statistics of its columns are never looked at
pub record WriteStat : Type 0 where
  pub file_id : String
  pub path : String
  pub prev_commit : String
  pub num_writes : ℤ
  pub total_write_bytes : ℤ
  pub file_size_in_bytes : ℤ

-- HoodieCommitMetadata
pub record CommitMetadata : Type 0 where
  pub partition_to_write_stats : Dict (List WriteStat)
  pub partition_to_replace_file_ids : Dict (List String)
  pub extra_metadata : Dict String
  pub operation_type : String

-- FileGroupID
unfoldable pub file_group_id : WriteStat → String
file_group_id ws =
    let base = base_name ws.path in
    if str_eq ws.file_id ""
    then elim (cut_at b'_' base) [
      | none ↦ base
      | some (group, _) ↦ if str_eq group "" then base else group
    ]
    else ws.file_id

-- InstantAction
pub record InstantAction : Type 0 where
  pub instant_time : String
  pub action : String
  pub state : String
  pub file_name : String
