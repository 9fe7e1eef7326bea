-- ===== src/Parquet/Source.antt =====
-- pkg/formats/parquet/source.go: a table that is made of the Parquet files below a directory.
pub mod Listed
use xtable_go.Prelude.{
  ℕ, String, Bool, true, false, ◌||◌, not, List, [], ◌∷◌, ◌++◌, Option, none, some, if◌then◌else◌,
}
use xtable_go.Prelude.Int.{ℤ, pos, ltb_ℤ, ◌==ℤ◌}
use xtable_go.Prelude.Results.{Result, ok, err, ◌>>=◌, map_err}
use xtable_go.Prelude.Text.{str_eq, str_lt, concat}
use xtable_go.Prelude.Sort.{sort}
use xtable_go.Prelude.Keyed.{is_some}
use xtable_go.Prelude.Dict
use xtable_go.Prelude.Dict.{Dict}
use xtable_go.Model.Value.{Value, text}
use xtable_go.Model.Schema.{
  Schema, SchemaRef, no_schema, schema_ref, PartitionField, TableFormat, file_format_parquet,
}
use xtable_go.Model.Table.{
  Table, DataFile, PartitionValue, Snapshot, TableChange, IncrementalTableChanges, new_scalar_range,
}
use xtable_go.Io.{base_name, cut_suffix}
use xtable_go.Io.Relativize.{relativize_path}
use xtable_go.Io.Metadata.{is_metadata_path}
use xtable_go.Io.Storage.{FileInfo, Storage, unix_milli}
use xtable_go.Spi.{ConversionSource}
use xtable_go.Delta.Schema.{nil_dereference}
use xtable_go.Parquet.Footer.{LeafType, Nodes, parquet_schema_to_model}
use xtable_go.Parquet.Stats.{
  ParquetValue, RowGroups, ColumnAggregate, footer_aggregates, column_stats_for_schema,
}
use xtable_go.Parquet.Merge.{FooterSchema, merge_footer_schemas}
use xtable_go.Parquet.Partitions.{
  HivePartition, hive_partitions_for_file, Readers, PartitionSample, ObservedPartition,
  partition_spec,
}
use xtable_go.Parquet.Crawled.{
  CrawledFile, observed_partitions, fields_by_key, partition_values, data_files_of, footers_of,
  files_of,
}

-- what parquet.OpenFile gives
pub record ParquetFile : Type 0 where
  pub file_schema : Nodes
  pub num_rows : ℤ
  pub groups : RowGroups

-- The reader of one directory: the storage, parquet.OpenFile and the Compare of its types, path.Clean,
-- filepath.Dir, the verb %v, what strconv and time read, and the clock.
pub record Source (S : Type 0) : Type 0 where
  pub storage : Storage S
  pub base_path : String
  pub open_file : String → Result ParquetFile
  pub compare : LeafType → ParquetValue → ParquetValue → ℤ
  pub clean : String → String
  pub dir : String → String
  pub show : Value → String
  pub readers : Readers
  pub now : S → ℤ

abbrev pub parquet_format : TableFormat
parquet_format = "PARQUET"

abbrev pub path_order : FileInfo → FileInfo → Bool
path_order a b = str_lt a.path b.path

-- the largest modification time above the one so far
unfoldable pub latest_mod_time : List FileInfo → ℤ → ℤ
latest_mod_time [] latest = latest
latest_mod_time (f ∷ fs) latest =
    latest_mod_time fs
      (if ltb_ℤ latest (unix_milli f.mod_time) then unix_milli f.mod_time else latest)

-- the merged schema, which is there because there is a file
merged_schema : SchemaRef → Result Schema
merged_schema no_schema = err nil_dereference
merged_schema (schema_ref s) = ok s

module _ {S : Type 0} (s : Source S) where
  -- the loop of listDataFiles
  unfoldable pub keep_data_files : List FileInfo → Result (List FileInfo)
  keep_data_files [] = ok []
  keep_data_files (f ∷ fs) =
      let rest = keep_data_files fs in
      if f.is_dir || not (is_some (cut_suffix ".parquet" f.path))
      then rest
      else (map_err
            (λ e.
              concat ("failed to relativize " ∷ f.path ∷ " under " ∷ s.base_path ∷ ": " ∷ e ∷ []))
            (relativize_path s.clean f.path s.base_path)
          >>= λ rel. if is_metadata_path rel then rest else (rest >>= λ later. ok (f ∷ later)))

  unfoldable pub list_data_files : S → Result (List FileInfo)
  unfolding keep_data_files
  list_data_files st =
      map_err (λ e. concat ("failed to list directory " ∷ s.base_path ∷ ": " ∷ e ∷ []))
        (s.storage.list s.base_path st)
      >>= λ all. keep_data_files all >>= λ files. elim files [
        | [] ↦ err (concat ("no parquet files found under " ∷ s.base_path ∷ []))
        | f ∷ fs ↦ ok (sort path_order (f ∷ fs))
      ]

  -- one pass over a file
  unfoldable pub crawl_file : FileInfo → S → Result (CrawledFile × SchemaRef)
  crawl_file f st =
      map_err (λ e. concat ("failed to read " ∷ f.path ∷ ": " ∷ e ∷ [])) (s.storage.read f.path st)
      >>= λ contents.
          map_err (λ e. concat ("failed to parse " ∷ f.path ∷ ": " ∷ e ∷ [])) (s.open_file contents)
          >>= λ file.
              map_err (λ e. concat ("failed to read the schema of " ∷ f.path ∷ ": " ∷ e ∷ []))
                (parquet_schema_to_model file.file_schema)
              >>= λ schema. ok (
                record {
                  info = f;
                  crawled_rows = file.num_rows;
                  aggregates = footer_aggregates s.compare file.groups;
                  partitions = hive_partitions_for_file s.dir f.path s.base_path;
                },
                schema_ref schema,
              )

  unfoldable pub crawl : List FileInfo → S → Result (List (CrawledFile × SchemaRef))
  unfolding crawl_file
  crawl [] st = ok []
  crawl (f ∷ fs) st = crawl_file f st >>= λ file. crawl fs st >>= λ files. ok (file ∷ files)

  -- the schema, the partition fields and the keys of the directories
  unfoldable pub layout_of : List (CrawledFile × SchemaRef) → Result (Schema × List PartitionField)
  unfolding merged_schema footers_of files_of observed_partitions
  layout_of crawled =
      map_err
        (λ e. concat ("failed to merge the parquet schemas under " ∷ s.base_path ∷ ": " ∷ e ∷ []))
        (merge_footer_schemas s.show (footers_of crawled))
      >>= λ merged. merged_schema merged >>= λ schema.
          map_err
            (λ e. concat ("failed to read the partition layout of " ∷ s.base_path ∷ ": " ∷ e ∷ []))
            (partition_spec s.readers s.show schema (observed_partitions (files_of crawled) []))

  unfoldable pub get_current_snapshot : S → Result Snapshot
  unfolding list_data_files crawl layout_of fields_by_key data_files_of files_of observed_partitions
      latest_mod_time
  get_current_snapshot st = list_data_files st >>= λ infos. crawl infos st >>= λ crawled.
      layout_of crawled >>= λ layout.
      let files = files_of crawled in
      let latest = latest_mod_time infos (pos 0) in
      let fields = fields_by_key (observed_partitions files []) layout.1 [] in
      ok (record {
        table = record {
          name = base_name s.base_path;
          table_format = parquet_format;
          read_schema = layout.0;
          layout_strategy = "";
          base_path = s.base_path;
          data_path = "";
          partitioning_fields = layout.1;
          latest_commit_time = if latest ==ℤ pos 0 then unix_milli (s.now st) else latest;
          latest_metadata_path = "";
        };
        partitioned_data_files = [];
        data_files = data_files_of fields layout.0 files;
        source_identifier = "0";
      })

  unfoldable pub get_current_table : S → Result Table
  unfolding get_current_snapshot
  get_current_table st = get_current_snapshot st >>= λ snap. ok snap.table

  -- GetTableChangeForCommit: all files of the current snapshot, as added
  unfoldable pub get_table_change_for_commit : String → S → Result TableChange
  unfolding get_current_snapshot
  get_table_change_for_commit commit_id st = get_current_snapshot st >>= λ snap. ok (record {
    files_diff = record { files_added = snap.data_files; files_removed = [] };
    table_as_of_change = snap.table;
    source_identifier = commit_id;
    commit_time = snap.table.latest_commit_time;
  })

  unfoldable pub get_changes_since : ℤ → S → Result IncrementalTableChanges
  unfolding get_table_change_for_commit get_current_snapshot
  get_changes_since from_instant st = get_current_snapshot st >>= λ snap.
      let change = get_table_change_for_commit snap.source_identifier st in
      if ltb_ℤ from_instant snap.table.latest_commit_time
      then (change >>= λ c. ok (record { table_changes = c ∷ []; current_table = snap.table }))
      else ok (record { table_changes = []; current_table = snap.table })

  -- the source as the controller calls it; a directory is never safe to sync incrementally
  abbrev pub parquet_source : ConversionSource S
  parquet_source = record {
    is_incremental_sync_safe_from = λ instant st. ok false;
    get_changes_since = get_changes_since;
    get_current_snapshot = get_current_snapshot;
  }
