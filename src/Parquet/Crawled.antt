-- ===== src/Parquet/Crawled.antt =====
-- pkg/formats/parquet/source.go: what one pass over the files of a directory gives, and the data files
-- that are made of it.
use xtable_go.Prelude.{
  String, Bool, false, ◌||◌, not, List, [], ◌∷◌, ◌++◌, none, some, if◌then◌else◌,
}
use xtable_go.Prelude.Int.{ℤ}
use xtable_go.Prelude.Text.{str_eq}
use xtable_go.Prelude.Dict
use xtable_go.Prelude.Dict.{Dict}
use xtable_go.Model.Value.{text}
use xtable_go.Model.Schema.{Schema, SchemaRef, schema_ref, PartitionField, file_format_parquet}
use xtable_go.Model.Table.{DataFile, PartitionValue, new_scalar_range}
use xtable_go.Io.Storage.{FileInfo, unix_milli}
use xtable_go.Parquet.Stats.{ColumnAggregate, column_stats_for_schema}
use xtable_go.Parquet.Merge.{FooterSchema}
use xtable_go.Parquet.Partitions.{HivePartition, PartitionSample, ObservedPartition}

-- crawledFile
pub record CrawledFile : Type 0 where
  pub info : FileInfo
  pub crawled_rows : ℤ
  pub aggregates : List ColumnAggregate
  pub partitions : List HivePartition

has_sample : String → List PartitionSample → Bool
has_sample value [] = false
has_sample value (sample ∷ samples) = str_eq sample.sample_value value || has_sample value samples

-- one value of a key, in the list of the keys so far: a value that was seen adds nothing
observe : String → HivePartition → List ObservedPartition → List ObservedPartition
unfolding has_sample
observe file p [] =
    record {
      observed_key = p.key;
      samples = record { sample_value = p.value; sample_file = file } ∷ [];
    }
    ∷ []
observe file p (column ∷ columns) =
    let later = observe file p columns in
    if not (str_eq column.observed_key p.key)
    then column ∷ later
    else if has_sample p.value column.samples
    then column ∷ columns
    else record {
      observed_key = column.observed_key;
      samples = column.samples ++ record { sample_value = p.value; sample_file = file } ∷ [];
    }
      ∷ columns

observe_all : String → List HivePartition → List ObservedPartition → List ObservedPartition
unfolding observe
observe_all file [] observed = observed
observe_all file (p ∷ ps) observed = observe_all file ps (observe file p observed)

-- observedPartitions, over those so far
unfoldable pub observed_partitions :
    List CrawledFile → List ObservedPartition → List ObservedPartition
unfolding observe_all
observed_partitions [] observed = observed
observed_partitions (file ∷ files) observed =
    observed_partitions files (observe_all file.info.path file.partitions observed)

-- the partition fields by the keys of the directories
unfoldable pub fields_by_key :
    List ObservedPartition → List PartitionField → Dict PartitionField → Dict PartitionField
fields_by_key (column ∷ columns) (pf ∷ pfs) m =
    fields_by_key columns pfs (Dict.insert column.observed_key pf m)
fields_by_key _ _ m = m

-- partitionValues
unfoldable pub partition_values : Dict PartitionField → List HivePartition → List PartitionValue
partition_values fields [] = []
partition_values fields (p ∷ ps) =
    let rest = partition_values fields ps in
    elim (Dict.lookup p.key fields) [
      | none ↦ rest
      | some pf ↦
          record { partition_field = some pf; range = some (new_scalar_range (text p.value)) }
          ∷ rest
    ]

abbrev pub data_file_of : Dict PartitionField → Schema → CrawledFile → DataFile
data_file_of fields s file = record {
  physical_path = file.info.path;
  file_format = file_format_parquet;
  file_size_bytes = file.info.size;
  record_count = file.crawled_rows;
  partition_values = partition_values fields file.partitions;
  column_stats = column_stats_for_schema file.aggregates (schema_ref s);
  last_modified = unix_milli file.info.mod_time;
  deletion_vector = none;
}

unfoldable pub data_files_of : Dict PartitionField → Schema → List CrawledFile → List DataFile
unfolding partition_values
data_files_of fields s [] = []
data_files_of fields s (file ∷ files) = data_file_of fields s file ∷ data_files_of fields s files

unfoldable pub footers_of : List (CrawledFile × SchemaRef) → List FooterSchema
footers_of [] = []
footers_of ((file, s) ∷ files) =
    record { footer_path = file.info.path; footer_time = file.info.mod_time; footer_schema = s }
    ∷ footers_of files

unfoldable pub files_of : List (CrawledFile × SchemaRef) → List CrawledFile
files_of [] = []
files_of ((file, s) ∷ files) = file ∷ files_of files
