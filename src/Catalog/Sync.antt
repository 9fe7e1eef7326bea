-- ===== src/Catalog/Sync.antt =====
-- pkg/catalog/partition.go: sending the events to the catalog. The catalog itself is a service:
-- its four calls are a parameter, over a state of its own.
pub mod Batches
pub mod Attempts
pub mod Working
pub mod Reconcile
use Prim.Native.Char.{code}
use xtable_go.Prelude.{
  ◌==◌, ℕ, zero, suc, String, Bool, true, false, not, List, [], ◌∷◌, ◌++◌, Option, none, some,
  length, take, drop, leb, if◌then◌else◌,
}
use xtable_go.Prelude.Int.{ℤ, pos, negsuc}
use xtable_go.Prelude.Results.{Result, ok, err}
use xtable_go.Prelude.Text.{str_eq, str_lt, join, concat}
use xtable_go.Prelude.Sort.{sort}
use xtable_go.Prelude.Dict
use xtable_go.Prelude.Keyed.{index_by}
use xtable_go.Prelude.Dict.{Dict}
use xtable_go.Model.Value.{Value}
use xtable_go.Model.Table.{Range, PartitionValue, DataFile, Snapshot}
use xtable_go.Catalog.Partition.{
  Partition, PartitionEvent, PartitionEventType, add, update, drops, key, select, diff_partitions,
}

-- What the program uses of a catalog that tracks partitions. A call may fail, and then says why;
-- what it has done to the catalog until then stays done.
pub record PartitionSyncOperations (S : Type 0) : Type 0 where
  pub get_all_partitions : S → Result (List Partition)
  pub add_partitions : List Partition → S → S × Option String
  pub update_partitions : List Partition → S → S × Option String
  pub drop_partitions : List Partition → S → S × Option String

-- the slices `partitions[start:end]`; each round takes at least one element off, so the length of
-- the list is fuel enough
unfoldable pub batches {ℓ} : {A : Type ℓ} → ℕ → ℕ → List A → List (List A)
batches zero size l = []
batches (suc fuel) size [] = []
batches (suc fuel) size (x ∷ xs) = take size (x ∷ xs) ∷ batches fuel size (drop size (x ∷ xs))

-- each batch is tried, whether the ones before it failed or not
unfoldable pub each_batch :
    {S : Type 0}
    → (List Partition → S → S × Option String)
    → List (List Partition)
    → S
    → S × List String
each_batch fn [] s = (s, [])
each_batch fn (batch ∷ rest) s =
    let (s', e) = fn batch s in
    let (s'', errs) = each_batch fn rest s' in (s'', elim e [ none ↦ errs | some m ↦ m ∷ errs ])

-- errors.Join
unfoldable pub join_errors : List String → Option String
join_errors [] = none
join_errors (e ∷ es) = some (join "\n" (e ∷ es))

unfoldable pub in_batches :
    {S : Type 0}
    → List Partition
    → ℕ
    → (List Partition → S → S × Option String)
    → S
    → S × Option String
unfolding each_batch join_errors
in_batches partitions batch_size fn s =
    let (s', errs) = each_batch fn (batches (length partitions) batch_size partitions) s in
    (s', join_errors errs)

pub record TableIdentifier : Type 0 where
  pub database : String
  pub table : String

unfoldable pub identifier_string : TableIdentifier → String
identifier_string id = concat (id.database ∷ "." ∷ id.table ∷ [])

-- TableIdentifier.Validate: the message, where there is one
unfoldable pub validate_identifier : TableIdentifier → Option String
validate_identifier id =
    if str_eq id.database ""
    then some "catalog table identifier requires a database"
    else if str_eq id.table ""
    then some "catalog table identifier requires a table name"
    else none

abbrev pub default_max_partitions_per_request : ℕ
default_max_partitions_per_request = 1000

-- `if batchSize <= 0 { batchSize = DefaultMaxPartitionsPerRequest }`
unfoldable pub effective_batch_size : ℤ → ℕ
effective_batch_size (pos (suc n)) = suc n
effective_batch_size _ = default_max_partitions_per_request

-- `if err != nil { errs = append(errs, fmt.Errorf("prefix id: %w", err)) }`
labelled : String → String → Option String → List String → List String
labelled label id none errs = errs
labelled label id (some e) errs = concat (label ∷ id ∷ ": " ∷ e ∷ []) ∷ errs

-- the three actions that bring the catalog in line, each of them tried
unfoldable pub send_events :
    {S : Type 0}
    → PartitionSyncOperations S
    → String
    → List PartitionEvent
    → ℕ
    → S
    → S × Option String
unfolding in_batches select labelled
send_events ops id events batch_size s =
    let (s1, added) = in_batches (select add events) batch_size ops.add_partitions s in
    let (s2, updated) = in_batches (select update events) batch_size ops.update_partitions s1 in
    let (s3, dropped) = in_batches (select drops events) batch_size ops.drop_partitions s2 in
    let errs : List String = labelled "failed to add partitions to " id added (
      labelled "failed to update partitions on " id updated
        (labelled "failed to drop partitions from " id dropped [])) in
    (s3, join_errors errs)

-- SyncPartitions
unfoldable pub sync_partitions :
    {S : Type 0}
    → PartitionSyncOperations S
    → TableIdentifier
    → List Partition
    → ℤ
    → S
    → S × Option String
unfolding validate_identifier identifier_string effective_batch_size diff_partitions send_events
sync_partitions ops id desired batch_size s = elim (validate_identifier id) [
  | some e ↦ (s, some e)
  | none ↦ elim (ops.get_all_partitions s) [
    | err e ↦
        (s, some (concat ("failed to list partitions for " ∷ identifier_string id ∷ ": " ∷ e ∷ [])))
    | ok existing ↦
        send_events ops (identifier_string id) (diff_partitions existing desired)
          (effective_batch_size batch_size) s
  ]
]
