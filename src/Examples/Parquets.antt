-- ===== src/Examples/Parquets.antt =====
-- A directory of two Parquet files, one of which has a column less, beside the log of another format.
use xtable_go.Prelude.{ℕ, ◌↔◌, String, false, List, [], ◌∷◌, some, none, ◌≡◌, refl, length, map}
use mathlib.Core.List.{Perm}
use xtable_go.Prelude.Int.{pos}
use xtable_go.Prelude.Results.{ok}
use xtable_go.Prelude.Sort.{sort, IsSorted}
use xtable_go.Prelude.Dict
use xtable_go.Model.Value.{null}
use xtable_go.Model.Schema.{
  Schema, schema_ref, Field, field, nil, cons, new_primitive_schema, new_record_schema,
}
use xtable_go.Model.Table.{Snapshot, DataFile}
use xtable_go.Io.{trim_scheme, has_prefix, cut_suffix}
use xtable_go.Io.Relativize.{relativize_path, suffix_under, canonical_host_for_compare}
use xtable_go.Io.Metadata.{is_metadata_path, is_metadata_path_component, split_slashes}
use xtable_go.Io.Storage.{FileInfo}
use xtable_go.Io.Memory.{MemoryStorage, memory_storage, list_files, read_file}
use xtable_go.Parquet.Footer.{leaf, no_nodes, node_cons, int64, parquet_schema_to_model}
use xtable_go.Parquet.Partitions.{partition_spec, hive_partitions_for_file}
use xtable_go.Parquet.Merge.{
  RecordPart, FooterSchema, merge_records, parts_depth, depth, schema_fields, merge_footer_schemas,
  with_schema, record_parts,
}
use xtable_go.Parquet.Merge.Columns.{columns_of, find_column, IsMerged, merge_records-IsMerged}
use xtable_go.Parquet.Merge.Mergeable.{IsMergeable}
use xtable_go.Parquet.Merge.Total.{parts_of, merge_footer_schemas-IsMergeable}
use xtable_go.Parquet.Source.{Source, path_order, get_current_snapshot, list_data_files}
use xtable_go.Parquet.Source.Listed.{AreDataFilesOf, get_current_snapshot-AreDataFilesOf}

abbrev long_column : String → Field
long_column name = field name "" (schema_ref (new_primitive_schema "LONG" false)) none null

abbrev two_columns : RecordPart
two_columns = record {
  record_file = "b";
  record_schema =
      new_record_schema "root" (cons (long_column "x") (cons (long_column "y") nil)) false;
}

abbrev one_column : RecordPart
one_column = record {
  record_file = "a";
  record_schema = new_record_schema "root" (cons (long_column "x") nil) false;
}

abbrev both_parts : List RecordPart
both_parts = two_columns ∷ one_column ∷ []

abbrev merged_parts : (s : Schema) × (merge_records (λ v. "") 2 both_parts "" ≡ ok s)
unfolding merge_records Dict.lookup Dict.insert
merged_parts = (_, refl)

-- the column "y" is nullable, as one file lacks it
merge_records-IsMerged_example :
    IsMerged
      (length both_parts)
      "y"
      (columns_of "y" both_parts)
      (find_column "y" (schema_fields merged_parts.0))
merge_records-IsMerged_example =
    merge_records-IsMerged (λ v. "") 2 both_parts "" merged_parts.0 merged_parts.1 "y"

abbrev footer : String → ℕ → RecordPart → FooterSchema
footer path time part = record {
  footer_path = path;
  footer_time = pos time;
  footer_schema = schema_ref part.record_schema;
}

-- a column that is a record, of the columns of another file
abbrev nested : RecordPart → RecordPart
nested part = record {
  record_file = part.record_file;
  record_schema =
      new_record_schema "root"
        (cons (field "inner" "" (schema_ref part.record_schema) none null) nil) false;
}

abbrev nested_footers : List FooterSchema
nested_footers = footer "a" 1 (nested one_column) ∷ footer "b" 2 (nested two_columns) ∷ []

merge_footer_schemas-IsMergeable_example :
    (parts : List RecordPart) × Perm parts (parts_of nested_footers)
    × (((s : Schema) × (merge_footer_schemas (λ v. "") nested_footers ≡ ok (schema_ref s)))
        ↔ IsMergeable (λ v. "") parts)
merge_footer_schemas-IsMergeable_example = merge_footer_schemas-IsMergeable (λ v. "") nested_footers

-- a test: the merge goes down into the record
nested_footers_merge :
    (s : Schema) × (merge_footer_schemas (λ v. "") nested_footers ≡ ok (schema_ref s))
unfolding merge_footer_schemas merge_records Dict.lookup Dict.insert parts_depth depth sort
    with_schema record_parts
nested_footers_merge = (_, refl)

abbrev parquet_dir : Source MemoryStorage
parquet_dir = record {
  storage = memory_storage;
  base_path = "mem://t";
  open_file = λ contents. ok (record {
    file_schema =
        node_cons (leaf "x" false false (some (record { logical = none; kind = int64 }))) no_nodes;
    num_rows = pos 3;
    groups = record { columns = ("x" ∷ []) ∷ []; row_groups = [] };
  });
  compare = λ type a b. pos 0;
  clean = λ p. p;
  dir = λ p. ".";
  show = λ v. "";
  readers = record { is_float = λ s. false; is_bool = λ s. false; is_date = λ s. false };
  now = λ st. st.now;
}

abbrev three_files : MemoryStorage
three_files = record {
  now = pos 9;
  files =
      ("mem://t/b.parquet", record { contents = "b"; modified = pos 2 })
      ∷ ("mem://t/_delta_log/c.parquet", record { contents = "c"; modified = pos 3 })
      ∷ ("mem://t/a.parquet", record { contents = "a"; modified = pos 1 })
      ∷ [];
}

abbrev crawled_files : (snap : Snapshot) × (get_current_snapshot parquet_dir three_files ≡ ok snap)
unfolding get_current_snapshot list_data_files list_files sort has_prefix cut_suffix relativize_path
    trim_scheme suffix_under canonical_host_for_compare is_metadata_path is_metadata_path_component
    split_slashes read_file Dict.lookup parquet_schema_to_model merge_footer_schemas Dict.insert
    partition_spec hive_partitions_for_file
crawled_files = (_, refl)

get_current_snapshot-AreDataFilesOf_example :
    (all kept infos : List FileInfo) × (list_files "mem://t" three_files ≡ ok all)
    × AreDataFilesOf parquet_dir all kept
    × Perm infos kept
    × IsSorted path_order infos
    × (map (λ (f : DataFile). f.physical_path) crawled_files.0.data_files
        ≡ map (λ (f : FileInfo). f.path) infos)
get_current_snapshot-AreDataFilesOf_example =
    get_current_snapshot-AreDataFilesOf parquet_dir three_files crawled_files.0 crawled_files.1
