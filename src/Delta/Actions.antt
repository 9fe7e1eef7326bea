-- ===== src/Delta/Actions.antt =====
-- pkg/formats/delta/actions.go: the actions of a Delta log, and the rows of a checkpoint
-- (checkpoint.go) as the columns that the reader uses.
use xtable_go.Prelude.{String, Bool, List, [], Option, none}
use xtable_go.Prelude.Int.{ℤ}
use xtable_go.Prelude.Dict.{Dict}
use xtable_go.Model.Value.{Value, Members}

pub record FormatProvider : Type 0 where
  pub provider : String
  pub options : Dict String

pub record ProtocolAction : Type 0 where
  pub min_reader_version : ℤ
  pub min_writer_version : ℤ

pub record MetadataAction : Type 0 where
  pub id : String
  pub name : String
  pub description : String
  pub format : FormatProvider
  pub schema_string : String
  pub partition_columns : List String
  pub configuration : Dict String
  pub created_time : ℤ

pub record DeletionVectorInfo : Type 0 where
  pub storage_type : String
  pub path_or_inline_dv : String
  pub offset : Option ℤ
  pub size_in_bytes : ℤ
  pub cardinality : ℤ

-- A partition value that is null is an entry with nothing in it.
pub record AddAction : Type 0 where
  pub path : String
  pub partition_values : Dict (Option String)
  pub size : ℤ
  pub modification_time : ℤ
  pub data_change : Bool
  pub stats : String
  pub tags : Dict String
  pub deletion_vector : Option DeletionVectorInfo

pub record RemoveAction : Type 0 where
  pub path : String
  pub deletion_timestamp : ℤ
  pub data_change : Bool
  pub extended_file_metadata : Bool
  pub partition_values : Dict (Option String)
  pub size : Option ℤ

pub record CommitInfoAction : Type 0 where
  pub timestamp : ℤ
  pub operation : String
  pub operation_parameters : Dict String
  pub engine_info : String
  pub app_id : String

pub record SingleAction : Type 0 where
  pub protocol : Option ProtocolAction
  pub meta_data : Option MetadataAction
  pub add : Option AddAction
  pub remove : Option RemoveAction
  pub commit_info : Option CommitInfoAction

-- statsBlob
pub record StatsBlob : Type 0 where
  pub num_records : ℤ
  pub min_values : Members
  pub max_values : Members
  pub null_count : Members

-- a line of a commit file that holds one kind of action
abbrev pub no_action : SingleAction
no_action = record {
  protocol = none;
  meta_data = none;
  add = none;
  remove = none;
  commit_info = none;
}

-- NewParquetFormat
abbrev pub new_parquet_format : FormatProvider
new_parquet_format = record { provider = "parquet"; options = [] }

pub record StatsJson : Type 0 where
  pub record_number : ℤ
  pub least_values : Dict Value
  pub greatest_values : Dict Value
  pub null_numbers : Dict ℤ
