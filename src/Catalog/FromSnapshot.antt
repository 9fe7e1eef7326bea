-- ===== src/Catalog/FromSnapshot.antt =====
-- pkg/catalog/partition.go: the partitions that the data files of a snapshot lie in.
use Prim.Native.Char.{code}
use xtable_go.Prelude.{◌==◌, String, List, [], ◌∷◌, Option, none, some, if◌then◌else◌}
use xtable_go.Prelude.Text.{str_eq, str_lt}
use xtable_go.Prelude.Sort.{sort}
use xtable_go.Prelude.Dict
use xtable_go.Prelude.Dict.{Dict}
use xtable_go.Model.Value.{Value}
use xtable_go.Model.Table.{PartitionValue, DataFile, Snapshot}
use xtable_go.Catalog.Partition.{Partition, key}

-- parentDir: the text before the last slash
before_last_slash : String → Option String
before_last_slash String.[] = none
before_last_slash (String.◌∷◌ c s) = elim (before_last_slash s) [
  | some r ↦ some (String.◌∷◌ c r)
  | none ↦ if code c == b'/' then some "" else none
]

unfoldable pub parent_dir : String → String
unfolding before_last_slash
parent_dir p = elim (before_last_slash p) [ none ↦ p | some dir ↦ if str_eq dir "" then p else dir ]

-- PartitionsFromSnapshot. `show` is fmt.Sprintf with the verb %v.
module _ (show : Value → String) where
  unfoldable pub partition_strings : List PartitionValue → List String
  partition_strings [] = []
  partition_strings (pv ∷ pvs) = elim pv.range [
    | none ↦ partition_strings pvs
    | some r ↦ show r.min_value ∷ partition_strings pvs
  ]

  -- the partition of one data file, if it has any value
  unfoldable pub file_partition : DataFile → Option Partition
  unfolding partition_strings
  file_partition file = elim (partition_strings file.partition_values) [
    | [] ↦ none
    | v ∷ vs ↦ some (record { values = v ∷ vs; storage_location = parent_dir file.physical_path })
  ]

  unfoldable pub collect_partitions : List DataFile → Dict Partition → Dict Partition
  unfolding file_partition
  collect_partitions [] by_key = by_key
  collect_partitions (file ∷ files) by_key =
      collect_partitions files
        (elim (file_partition file) [ none ↦ by_key | some p ↦ Dict.insert (key p) p by_key ])

  unfoldable pub partitions_from_snapshot : Snapshot → List Partition
  unfolding collect_partitions
  partitions_from_snapshot snapshot =
      sort (λ p q. str_lt (key p) (key q)) (Dict.values (collect_partitions snapshot.data_files []))
