-- ===== src/Hudi/Source.antt =====
-- pkg/formats/hudi/source.go: the table and the files that a Hudi timeline describes.
pub mod Groups
pub mod Snapshots
use Prim.Native.String.{◌++◌}
use xtable_go.Prelude.{
  String, Bool, true, false, not, ◌&&◌, ◌||◌, List, [], ◌∷◌, Option, none, some, if◌then◌else◌,
  get_last?,
}
use xtable_go.Prelude.Int.{ℤ, pos, ltb_ℤ, leb_ℤ}
use xtable_go.Prelude.Results.{Result, ok, err, ◌>>=◌, map_err}
use xtable_go.Prelude.Text.{str_eq, str_lt, concat}
use xtable_go.Prelude.Sort.{sort}
use xtable_go.Prelude.Splitting.{trim_space, split_commas}
use xtable_go.Prelude.Dict
use xtable_go.Prelude.Dict.{Dict}
use xtable_go.Io.{has_prefix, cut_suffix, base_name, join_path}
use xtable_go.Io.Storage.{FileInfo}
use xtable_go.Model.Schema.{
  Schema, schema_ref, Field, field, no_field, field_ref, nil, field_by_path, PartitionField,
  transform_value, TableFormat, new_primitive_schema, new_record_schema, file_format_parquet,
  split_dots,
}
use xtable_go.Model.Value.{Value}
use xtable_go.Model.Table.{
  Table, DataFile, PartitionValue, Snapshot, TableChange, IncrementalTableChanges, new_scalar_range,
}
use xtable_go.Spi.{ConversionSource}
use xtable_go.Hudi.Properties.{
  get_property, assert_readable_version, parse_lines, prop_table_name, prop_partition_fields,
  prop_table_schema,
}
use xtable_go.Hudi.Avro.{AvroRecord, avro_json_to_schema}
use xtable_go.Hudi.Timeline.{
  Times, zero_time, time_from_instant, WriteStat, CommitMetadata, file_group_id, InstantAction,
}
use xtable_go.Hudi.Active.{
  partition_fields, partition_values, ActiveFile, drop_groups, apply_replaced_file_groups,
  data_files_of,
}

-- what reading a file comes to: an error says whether the file is missing
pub data Contents : Type 0 where
  content : String → Contents
  missing : String → Contents
  unreadable : String → Contents

-- The reader of one table: reading and listing of the storage, filepath.Join, bufio.Scanner with the
-- error that it ends on, encoding/json, package time, and the orders in which the maps of a commit
-- and of the active files are ranged over.
pub record Source (S : Type 0) : Type 0 where
  pub base_path : String
  pub local_join : List String → String
  pub read : String → S → Contents
  pub list : String → S → Result (List FileInfo)
  pub scan : String → List String × Option String
  pub decode_commit : String → Result CommitMetadata
  pub decode_schema : String → Result (Option AvroRecord)
  pub times : Times
  pub range_writes : Dict (List WriteStat) → Dict (List WriteStat)
  pub range_order : List DataFile → List DataFile

abbrev pub hudi_format : TableFormat
hudi_format = "HUDI"

-- strings.HasSuffix
has_suffix : String → String → Bool
has_suffix suffix s = elim (cut_suffix suffix s) [ none ↦ false | some _ ↦ true ]

-- an error of ReadProperties, and whether it is that of a missing file
pub data PropertiesError : Type 0 where
  absent : String → PropertiesError
  unusable : String → PropertiesError

pub data ReadProperties : Type 0 where
  found : Dict String → ReadProperties
  failed : PropertiesError → ReadProperties

abbrev pub error_text : PropertiesError → String
error_text (absent e) = e
error_text (unusable e) = e

abbrev pub required : ReadProperties → Result (Dict String)
required (found props) = ok props
required (failed e) = err (error_text e)

-- an instant, where the file is that of a completed commit
completed_instant : String → Option InstantAction
unfolding has_suffix
completed_instant base =
    if not (has_prefix "." base)
      && (has_suffix ".commit" base
          || has_suffix ".deltacommit" base
          || has_suffix ".replacecommit" base)
    then elim (split_dots base).1 [
      | [] ↦ none
      | action ∷ _ ↦ some (record {
        instant_time = (split_dots base).0;
        action = action;
        state = "completed";
        file_name = base;
      })
    ]
    else none

completed_instants : List FileInfo → List InstantAction
unfolding completed_instant
completed_instants [] = []
completed_instants (f ∷ fs) =
    let rest = completed_instants fs in
    elim (completed_instant (base_name f.path)) [ none ↦ rest | some c ↦ c ∷ rest ]

abbrev pub instant_less : InstantAction → InstantAction → Bool
instant_less a b = str_lt a.instant_time b.instant_time

module _ {S : Type 0} (s : Source S) where
  unfoldable pub hoodie_path : List String → String
  hoodie_path elements = join_path s.local_join s.base_path (".hoodie" ∷ elements)

  unfoldable pub read_properties : S → ReadProperties
  unfolding hoodie_path
  read_properties st =
      let path = hoodie_path ("hoodie.properties" ∷ []) in
      let wrapped =
        λ (e : String). concat ("failed to read hoodie.properties at " ∷ path ∷ ": " ∷ e ∷ []) in
      elim (s.read path st) [
        | missing e ↦ failed (absent (wrapped e))
        | unreadable e ↦ failed (unusable (wrapped e))
        | content text ↦
            let (lines, stopped) = s.scan text in
            let props = parse_lines lines [] in
            elim stopped [
              | some e ↦ failed (unusable e)
              | none ↦ elim (assert_readable_version props) [
                | some e ↦ failed (unusable e)
                | none ↦ found props
              ]
            ]
      ]

  unfoldable pub list_completed_commits : S → Result (List InstantAction)
  unfolding hoodie_path completed_instants
  list_completed_commits st =
      let dir = hoodie_path [] in
      map_err (λ e. concat ("failed to list .hoodie directory " ∷ dir ∷ ": " ∷ e ∷ []))
        (s.list dir st)
      >>= λ files. ok (sort instant_less (completed_instants files))

  -- a schema, where the text is one
  schema_in : String → Option Schema
  schema_in json = elim (avro_json_to_schema s.decode_schema json) [
    | err _ ↦ none
    | ok sch ↦ some sch
  ]

  -- the schema of the properties, or else that of the commit's schema file
  known_schema : Dict String → String → S → Option Schema
  unfolding schema_in hoodie_path
  known_schema props commit_id st =
      let json = get_property prop_table_schema props in
      let in_file : Option Schema =
        elim (s.read (hoodie_path (".schema" ∷ concat (commit_id ∷ ".avsc" ∷ []) ∷ [])) st) [
          | content text ↦ schema_in text
          | _ ↦ none
        ] in
      if str_eq json ""
      then in_file
      else elim (schema_in json) [ none ↦ in_file | some sch ↦ some sch ]

  -- the descriptor, from the properties
  table_from : Dict String → String → S → Table
  unfolding known_schema partition_fields
  table_from props commit_id st =
      let given = get_property prop_table_name props in
      let table_name = if str_eq given "" then base_name s.base_path else given in
      let sch : Schema = elim (known_schema props commit_id st) [
        | none ↦ new_record_schema table_name nil false
        | some known ↦ known
      ] in
      let listed = get_property prop_partition_fields props in
      let fields =
        (let (part, parts) = split_commas listed in
          if str_eq listed "" then [] else partition_fields sch (part ∷ parts)) in
      record {
        name = table_name;
        table_format = hudi_format;
        read_schema = sch;
        layout_strategy = "";
        base_path = s.base_path;
        data_path = "";
        partitioning_fields = fields;
        latest_commit_time = elim (time_from_instant s.times commit_id) [
          | err _ ↦ pos 0
          | ok time ↦ time
        ];
        latest_metadata_path = "";
      }

  unfoldable pub get_table : String → S → Result Table
  unfolding read_properties table_from
  get_table commit_id st =
      required (read_properties st) >>= λ props. ok (table_from props commit_id st)

  unfoldable pub get_current_table : S → Result Table
  unfolding list_completed_commits get_table
  get_current_table st = list_completed_commits st >>= λ commits. elim (get_last? commits) [
    | none ↦ err (concat ("no completed commits found in timeline for " ∷ s.base_path ∷ []))
    | some latest ↦ get_table latest.instant_time st
  ]

  -- what a commit file says, where it can be read
  unfoldable pub commit_metadata : InstantAction → S → Option CommitMetadata
  unfolding hoodie_path
  commit_metadata c st = elim (s.read (hoodie_path (c.file_name ∷ [])) st) [
    | content text ↦ elim (s.decode_commit text) [ err _ ↦ none | ok meta ↦ some meta ]
    | _ ↦ none
  ]

  -- the file of a write stat
  unfoldable pub active_file : Table → ℤ → String → WriteStat → ActiveFile
  unfolding partition_values
  active_file table time partition ws = record {
    partition = partition;
    file_group = file_group_id ws;
    file = record {
      physical_path = join_path s.local_join s.base_path (ws.path ∷ []);
      file_format = file_format_parquet;
      file_size_bytes = ws.file_size_in_bytes;
      record_count = ws.num_writes;
      partition_values = partition_values table.partitioning_fields partition;
      column_stats = [];
      last_modified = time;
      deletion_vector = none;
    };
  }

  unfoldable pub write_stats :
      Table → ℤ → String → List WriteStat → Dict ActiveFile → Dict ActiveFile
  unfolding active_file
  write_stats table time partition [] active = active
  write_stats table time partition (ws ∷ stats) active =
      write_stats table time partition stats
        (Dict.insert ws.path (active_file table time partition ws) active)

  unfoldable pub write_partitions :
      Table → ℤ → Dict (List WriteStat) → Dict ActiveFile → Dict ActiveFile
  unfolding write_stats
  write_partitions table time [] active = active
  write_partitions table time ((partition, stats) ∷ later) active =
      write_partitions table time later (write_stats table time partition stats active)

  -- the replacements of a commit, and then its writes
  unfoldable pub apply_commit : Table → ℤ → CommitMetadata → Dict ActiveFile → Dict ActiveFile
  unfolding apply_replaced_file_groups write_partitions
  apply_commit table time meta active =
      write_partitions table time (s.range_writes meta.partition_to_write_stats)
        (apply_replaced_file_groups meta.partition_to_replace_file_ids active)

  -- the time of a commit, which is that of time.Time{} where the instant is none
  abbrev pub commit_time : InstantAction → ℤ
  commit_time c = elim (time_from_instant s.times c.instant_time) [
    | err _ ↦ zero_time
    | ok time ↦ time
  ]

  -- the loop over the timeline: a commit that cannot be read is passed over
  unfoldable pub active_files : Table → S → List InstantAction → Dict ActiveFile → Dict ActiveFile
  unfolding commit_metadata apply_commit
  active_files table st [] active = active
  active_files table st (c ∷ commits) active =
      active_files table st commits (elim (commit_metadata c st) [
        | none ↦ active
        | some meta ↦ apply_commit table (commit_time c) meta active
      ])

  unfoldable pub get_current_snapshot : S → Result Snapshot
  unfolding list_completed_commits get_table active_files
  get_current_snapshot st = list_completed_commits st >>= λ commits. elim (get_last? commits) [
    | none ↦ err (concat ("no completed commits in " ∷ s.base_path ∷ []))
    | some latest ↦ get_table latest.instant_time st >>= λ table. ok (record {
      table = table;
      partitioned_data_files = [];
      data_files = s.range_order (data_files_of (active_files table st commits []));
      source_identifier = latest.instant_time;
    })
  ]

  -- GetTableChangeForCommit: all files of the current snapshot, as added
  unfoldable pub get_table_change_for_commit : String → S → Result TableChange
  unfolding get_current_snapshot
  get_table_change_for_commit commit_id st = get_current_snapshot st >>= λ snap. ok (record {
    files_diff = record { files_added = snap.data_files; files_removed = [] };
    table_as_of_change = snap.table;
    source_identifier = commit_id;
    commit_time = snap.table.latest_commit_time;
  })

  unfoldable pub get_changes_since : ℤ → S → Result IncrementalTableChanges
  unfolding get_table_change_for_commit get_current_snapshot
  get_changes_since from_instant st = get_current_snapshot st >>= λ snap.
      let change = get_table_change_for_commit snap.source_identifier st in
      if ltb_ℤ from_instant snap.table.latest_commit_time
      then (change >>= λ c. ok (record { table_changes = c ∷ []; current_table = snap.table }))
      else ok (record { table_changes = []; current_table = snap.table })

  unfoldable pub is_incremental_sync_safe_from : ℤ → S → Result Bool
  unfolding list_completed_commits
  is_incremental_sync_safe_from earliest_instant st = list_completed_commits st >>= λ commits.
      elim commits [
        | [] ↦ ok false
        | first ∷ _ ↦ time_from_instant s.times first.instant_time >>= λ time.
            ok (leb_ℤ time earliest_instant)
      ]

  -- the source as the controller calls it
  abbrev pub hudi_source : ConversionSource S
  hudi_source = record {
    is_incremental_sync_safe_from = is_incremental_sync_safe_from;
    get_changes_since = get_changes_since;
    get_current_snapshot = get_current_snapshot;
  }
