-- ===== src/Model/Table.antt =====
-- pkg/model/table.go, datafile.go, stats.go, snapshot.go and changes.go: tables, data files and
-- what a source reports of them. Pointers that the source never leaves nil are plain values.
use xtable_go.Prelude.{
  ℕ, String, List, [], ◌∷◌, ◌++◌, Option, none, Bool, true, false, if◌then◌else◌,
}
use xtable_go.Prelude.Int.{ℤ, pos}
use xtable_go.Prelude.Text.{str_eq}
use xtable_go.Model.Value.{Value}
use xtable_go.Model.Schema.{Schema, Field, PartitionField, TableFormat}

pub record Table : Type 0 where
  pub name : String
  pub table_format : TableFormat
  pub read_schema : Schema
  pub layout_strategy : String
  pub base_path : String
  pub data_path : String
  pub partitioning_fields : List PartitionField
  pub latest_commit_time : ℤ
  pub latest_metadata_path : String

unfoldable pub get_data_path : Table → String
get_data_path t = if str_eq t.data_path "" then t.base_path else t.data_path

unfoldable pub is_partitioned : Table → Bool
is_partitioned t = elim t.partitioning_fields [ [] ↦ false | _ ↦ true ]

pub record Range : Type 0 where
  pub min_value : Value
  pub max_value : Value

abbrev pub new_scalar_range : Value → Range
new_scalar_range v = record { min_value = v; max_value = v }

pub record ColumnStat : Type 0 where
  pub of_field : Option Field
  pub range : Option Range
  pub num_nulls : ℤ
  pub num_nans : ℤ
  pub total_values : ℤ

pub record PartitionValue : Type 0 where
  pub partition_field : Option PartitionField
  pub range : Option Range

pub record DeletionVector : Type 0 where
  pub storage_path : String
  pub offset : ℤ
  pub size_in_bytes : ℤ
  pub cardinality : ℤ
  pub inline_bytes : List ℕ

pub record DataFile : Type 0 where
  pub physical_path : String
  pub file_format : String
  pub file_size_bytes : ℤ
  pub record_count : ℤ
  pub partition_values : List PartitionValue
  pub column_stats : List ColumnStat
  pub last_modified : ℤ
  pub deletion_vector : Option DeletionVector

pub record PartitionFileGroup : Type 0 where
  pub partition_path : String
  pub files : List DataFile

pub record Snapshot : Type 0 where
  pub table : Table
  pub partitioned_data_files : List PartitionFileGroup
  pub data_files : List DataFile
  pub source_identifier : String

group_files : List PartitionFileGroup → List DataFile
group_files [] = []
group_files (g ∷ gs) = g.files ++ group_files gs

unfoldable pub all_data_files : Snapshot → List DataFile
unfolding group_files
all_data_files s = elim s.data_files [ [] ↦ group_files s.partitioned_data_files | f ∷ fs ↦ f ∷ fs ]

pub record FilesDiff : Type 0 where
  pub files_added : List DataFile
  pub files_removed : List DataFile

pub record TableChange : Type 0 where
  pub files_diff : FilesDiff
  pub table_as_of_change : Table
  pub source_identifier : String
  pub commit_time : ℤ

pub record IncrementalTableChanges : Type 0 where
  pub table_changes : List TableChange
  pub current_table : Table

-- a file of which only the path and the size matter
abbrev pub plain_file : String → ℕ → DataFile
plain_file path size = record {
  physical_path = path;
  file_format = "APACHE_PARQUET";
  file_size_bytes = pos size;
  record_count = pos 1;
  partition_values = [];
  column_stats = [];
  last_modified = pos 0;
  deletion_vector = none;
}
