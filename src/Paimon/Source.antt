-- ===== src/Paimon/Source.antt =====
-- pkg/formats/paimon/source.go: the table and the files that a Paimon directory holds.
pub mod Live
pub mod Rewritten
use xtable_go.Prelude.{
  String, Bool, false, List, [], ◌∷◌, ◌++◌, Option, none, some, if◌then◌else◌, get_last?,
}
use xtable_go.Prelude.Int.{ℤ, pos, negsuc, ltb_ℤ, ◌==ℤ◌}
use xtable_go.Prelude.Results.{Result, ok, err, ◌>>=◌, map_err}
use xtable_go.Prelude.Text.{concat, str_eq}
use xtable_go.Prelude.Sort.{sort}
use xtable_go.Prelude.Keyed.{is_some}
use xtable_go.Prelude.Decimal.{parse_int, format_int}
use xtable_go.Prelude.Splitting.{trim_space}
use xtable_go.Prelude.Dict
use xtable_go.Prelude.Dict.{Dict}
use xtable_go.Io.{cut_prefix, base_name, join_path}
use xtable_go.Io.Storage.{FileInfo, Storage}
use xtable_go.Model.Schema.{
  Schema, schema_ref, field_ref, no_field, field_by_path, field_name, PartitionField,
  transform_value, TableFormat,
}
use xtable_go.Model.Table.{Table, DataFile, Snapshot, TableChange, IncrementalTableChanges}
use xtable_go.Spi.{ConversionSource}
use xtable_go.Delta.Source.{table_as_of}
use xtable_go.Paimon.Types.{TableSchema}
use xtable_go.Paimon.Parser.{paimon_to_schema}
use xtable_go.Paimon.Manifest.{
  ManifestEntry, ManifestFileMeta, PaimonSnapshot, data_file_for_entry, manifest_dir, snapshot_dir,
  snapshot_prefix, schema_dir, schema_prefix, latest_hint_file, kind_delete,
}

-- The reader of one table: the storage, filepath.Join, encoding/json for each kind of file, and the
-- regular expression of the schema parser.
pub record Source (S : Type 0) : Type 0 where
  pub storage : Storage S
  pub base_path : String
  pub local_join : List String → String
  pub decode_schema : String → Result TableSchema
  pub decode_snapshot : String → Result PaimonSnapshot
  pub decode_manifest_list : String → Result (List ManifestFileMeta)
  pub decode_manifest : String → Result (List ManifestEntry)
  pub find_decimal : String → Option (String × String)

pub record VersionedFile : Type 0 where
  pub id : ℤ
  pub path : String

abbrev pub paimon_format : TableFormat
paimon_format = "PAIMON"

abbrev pub id_less : VersionedFile → VersionedFile → Bool
id_less a b = ltb_ℤ a.id b.id

-- the version that a file's name ends in, after the prefix
version_of : String → FileInfo → Option VersionedFile
version_of prefix f = if f.is_dir then none else elim (cut_prefix prefix (base_name f.path)) [
  | none ↦ none
  | some digits ↦ elim (parse_int digits) [
    | none ↦ none
    | some v ↦ some (record { id = v; path = f.path })
  ]
]

unfoldable pub versions_of : String → List FileInfo → List VersionedFile
unfolding version_of
versions_of prefix [] = []
versions_of prefix (f ∷ fs) =
    let rest = versions_of prefix fs in
    elim (version_of prefix f) [ none ↦ rest | some v ↦ v ∷ rest ]

-- the fields of the partition keys that the schema has
partition_fields_of : Schema → List String → List PartitionField
partition_fields_of s [] = []
partition_fields_of s (key ∷ later) =
    let rest = partition_fields_of s later in
    elim (field_by_path (schema_ref s) key) [
      | no_field ↦ rest
      | field_ref f ↦
          record {
            source_field = some f;
            transform_type = transform_value;
            format = "";
            custom_partition_name = "";
          }
          ∷ rest
    ]

-- the partition fields by the names of their columns
unfoldable pub fields_by_name : List PartitionField → Dict PartitionField → Dict PartitionField
fields_by_name [] m = m
fields_by_name (pf ∷ pfs) m =
    fields_by_name pfs
      (elim pf.source_field [ none ↦ m | some f ↦ Dict.insert (field_name f) pf m ])

-- The loop over the entries: a name comes into the order when it is added and is not there. `order`
-- is built from its end, and the result is in the order of the code's list.
module _ (file_of : ManifestEntry → DataFile) where
  unfoldable pub replay_entries : List ManifestEntry → Dict DataFile → List String × Dict DataFile
  replay_entries [] live = ([], live)
  replay_entries (entry ∷ entries) live =
      let name = entry.file.file_name in
      let deleted = replay_entries entries (Dict.remove name live) in
      let added = replay_entries entries (Dict.insert name (file_of entry) live) in
      if entry.kind ==ℤ kind_delete
      then deleted
      else (if is_some (Dict.lookup name live) then added.0 else name ∷ added.0, added.1)

-- the files at the names that are still there
unfoldable pub files_at : Dict DataFile → List String → List DataFile
files_at live [] = []
files_at live (name ∷ names) =
    let rest = files_at live names in
    elim (Dict.lookup name live) [ none ↦ rest | some f ↦ f ∷ rest ]

module _ {S : Type 0} (s : Source S) where
  unfoldable pub path_in : List String → String
  path_in elements = join_path s.local_join s.base_path elements

  unfoldable pub list_versioned : String → String → S → Result (List VersionedFile)
  unfolding versions_of
  list_versioned dir prefix st =
      s.storage.list dir st >>= λ files. ok (sort id_less (versions_of prefix files))

  unfoldable pub read_hint : String → String → S → Option ℤ
  read_hint dir name st = elim (s.storage.read (join_path s.local_join dir (name ∷ [])) st) [
    | err _ ↦ none
    | ok text ↦ parse_int (trim_space text)
  ]

  -- the path of the schema of an id, or of the last one where the id is negative
  schema_path : ℤ → S → Result String
  unfolding path_in list_versioned
  schema_path id st =
      let dir = path_in (schema_dir ∷ []) in
      let last =
        map_err (λ e. concat ("failed to list paimon schema directory: " ∷ e ∷ []))
          (list_versioned dir schema_prefix st)
        >>= λ schemas. elim (get_last? schemas) [
          | none ↦ err (concat ("no paimon schema files found in " ∷ dir ∷ []))
          | some v ↦ ok v.path
        ] in
      if ltb_ℤ id (pos 0)
      then last
      else ok (join_path s.local_join dir (concat (schema_prefix ∷ format_int id ∷ []) ∷ []))

  unfoldable pub read_schema : ℤ → S → Result TableSchema
  unfolding schema_path
  read_schema id st = schema_path id st >>= λ path.
      map_err (λ e. concat ("failed to read schema file " ∷ path ∷ ": " ∷ e ∷ []))
        (s.storage.read path st)
      >>= λ text.
          map_err (λ e. concat ("failed to parse schema " ∷ path ∷ ": " ∷ e ∷ []))
            (s.decode_schema text)

  unfoldable pub table_for_schema : TableSchema → Result Table
  unfolding partition_fields_of
  table_for_schema ts = paimon_to_schema s.find_decimal ts >>= λ sch. ok (record {
    name = base_name s.base_path;
    table_format = paimon_format;
    read_schema = sch;
    layout_strategy = "";
    base_path = s.base_path;
    data_path = "";
    partitioning_fields = partition_fields_of sch ts.partition_keys;
    latest_commit_time = pos 0;
    latest_metadata_path = "";
  })

  unfoldable pub get_current_table : S → Result Table
  unfolding read_schema table_for_schema
  get_current_table st = read_schema (negsuc 0) st >>= table_for_schema

  -- the text of the snapshot that the hint names, where there is one
  hinted_snapshot : S → Option String
  unfolding read_hint path_in
  hinted_snapshot st =
      let dir = path_in (snapshot_dir ∷ []) in
      elim (read_hint dir latest_hint_file st) [
        | none ↦ none
        | some id ↦
            elim (s.storage.read
              (join_path s.local_join dir (concat (snapshot_prefix ∷ format_int id ∷ []) ∷ []))
              st) [ err _ ↦ none | ok text ↦ some text ]
      ]

  -- the snapshot with the highest number in the listing
  listed_snapshot : S → Result (Option PaimonSnapshot)
  unfolding path_in list_versioned
  listed_snapshot st =
      map_err (λ e. concat ("failed to list paimon snapshot directory: " ∷ e ∷ []))
        (list_versioned (path_in (snapshot_dir ∷ [])) snapshot_prefix st)
      >>= λ snapshots. elim (get_last? snapshots) [
        | none ↦ ok none
        | some latest ↦
            map_err (λ e. concat ("failed to read snapshot " ∷ latest.path ∷ ": " ∷ e ∷ []))
              (s.storage.read latest.path st)
            >>= λ text.
                map_err (λ e. concat ("failed to parse snapshot " ∷ latest.path ∷ ": " ∷ e ∷ []))
                  (s.decode_snapshot text)
                >>= λ snap. ok (some snap)
      ]

  unfoldable pub latest_snapshot : S → Result (Option PaimonSnapshot)
  unfolding hinted_snapshot listed_snapshot
  latest_snapshot st = elim (hinted_snapshot st) [
    | some text ↦ s.decode_snapshot text >>= λ snap. ok (some snap)
    | none ↦ listed_snapshot st
  ]

  -- the loop over the manifests of a list
  manifest_entries : List ManifestFileMeta → S → Result (List ManifestEntry)
  unfolding path_in
  manifest_entries [] st = ok []
  manifest_entries (meta ∷ metas) st =
      let dir = path_in (manifest_dir ∷ []) in
      let name = meta.manifest_name in
      map_err (λ e. concat ("failed to read manifest " ∷ name ∷ ": " ∷ e ∷ []))
        (s.storage.read (join_path s.local_join dir (name ∷ [])) st)
      >>= λ text.
          map_err (λ e. concat ("failed to parse manifest " ∷ name ∷ ": " ∷ e ∷ []))
            (s.decode_manifest text)
          >>= λ entries. manifest_entries metas st >>= λ rest. ok (entries ++ rest)

  unfoldable pub read_manifest_list : String → S → Result (List ManifestEntry)
  unfolding manifest_entries path_in
  read_manifest_list name st =
      let dir = path_in (manifest_dir ∷ []) in
      let read =
        map_err (λ e. concat ("failed to read manifest list " ∷ name ∷ ": " ∷ e ∷ []))
          (s.storage.read (join_path s.local_join dir (name ∷ [])) st)
        >>= λ text.
            map_err (λ e. concat ("failed to parse manifest list " ∷ name ∷ ": " ∷ e ∷ []))
              (s.decode_manifest_list text)
            >>= λ metas. manifest_entries metas st in
      if str_eq name "" then ok [] else read

  -- the file of an entry, for a table with these partition fields
  abbrev pub file_for : Table → ManifestEntry → DataFile
  file_for table =
      data_file_for_entry s.local_join s.base_path (fields_by_name table.partitioning_fields [])

  unfoldable pub live_of : Table → List ManifestEntry → List DataFile
  unfolding replay_entries files_at
  live_of table entries =
      let (order, live) = replay_entries (file_for table) entries [] in files_at live order

  unfoldable pub live_files : PaimonSnapshot → Table → S → Result (List DataFile)
  unfolding read_manifest_list live_of
  live_files snap table st = read_manifest_list snap.base_manifest_list st >>= λ base.
      read_manifest_list snap.delta_manifest_list st >>= λ delta. ok (live_of table (base ++ delta))

  -- the snapshot of a table whose latest snapshot file is this
  snapshot_from : Option PaimonSnapshot → S → Result Snapshot
  unfolding get_current_table read_schema table_for_schema live_files
  snapshot_from none st = get_current_table st >>= λ table. ok (record {
    table = table;
    partitioned_data_files = [];
    data_files = [];
    source_identifier = "0";
  })
  snapshot_from (some snap) st = read_schema snap.schema_id st >>= λ ts.
      table_for_schema ts >>= λ t.
      let table = table_as_of t snap.time_millis in
      live_files snap table st >>= λ files. ok (record {
        table = table;
        partitioned_data_files = [];
        data_files = files;
        source_identifier = format_int snap.id;
      })

  unfoldable pub get_current_snapshot : S → Result Snapshot
  unfolding latest_snapshot snapshot_from
  get_current_snapshot st = latest_snapshot st >>= λ snap. snapshot_from snap st

  -- GetTableChangeForCommit: all files of the current snapshot, as added
  unfoldable pub get_table_change_for_commit : String → S → Result TableChange
  unfolding get_current_snapshot
  get_table_change_for_commit commit_id st = get_current_snapshot st >>= λ snap. ok (record {
    files_diff = record { files_added = snap.data_files; files_removed = [] };
    table_as_of_change = snap.table;
    source_identifier = commit_id;
    commit_time = snap.table.latest_commit_time;
  })

  unfoldable pub get_changes_since : ℤ → S → Result IncrementalTableChanges
  unfolding get_table_change_for_commit get_current_snapshot
  get_changes_since from_instant st = get_current_snapshot st >>= λ snap.
      let change = get_table_change_for_commit snap.source_identifier st in
      if ltb_ℤ from_instant snap.table.latest_commit_time
      then (change >>= λ c. ok (record { table_changes = c ∷ []; current_table = snap.table }))
      else ok (record { table_changes = []; current_table = snap.table })

  -- the source as the controller calls it
  abbrev pub paimon_source : ConversionSource S
  paimon_source = record {
    is_incremental_sync_safe_from = λ instant st. ok false;
    get_changes_since = get_changes_since;
    get_current_snapshot = get_current_snapshot;
  }
