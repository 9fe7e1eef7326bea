-- ===== src/Catalog/Partition.antt =====
-- pkg/catalog/partition.go: bringing the partitions that a catalog records in line with a table's.
-- Here: partitions, and the events that tell two sets of them apart.
pub mod Events
pub mod Order
use Prim.Native.Char.{code}
use xtable_go.Prelude.{
  ◌==◌, ℕ, zero, suc, String, Bool, true, false, not, List, [], ◌∷◌, ◌++◌, Option, none, some,
  length, take, drop, leb, if◌then◌else◌,
}
use xtable_go.Prelude.Int.{ℤ, pos, negsuc}
use xtable_go.Prelude.Results.{Result, ok, err}
use xtable_go.Prelude.Text.{str_eq, str_lt, join, concat}
use xtable_go.Prelude.Sort.{sort}
use xtable_go.Prelude.Dict
use xtable_go.Prelude.Keyed.{index_by}
use xtable_go.Prelude.Dict.{Dict}
use xtable_go.Model.Value.{Value}
use xtable_go.Model.Table.{Range, PartitionValue, DataFile, Snapshot}

pub record Partition : Type 0 where
  pub values : List String
  pub storage_location : String

-- Partition.Key: the values between unit separators
unfoldable pub key : Partition → String
key p = join "\u{1f}" p.values

pub data PartitionEventType : Type 0 where
  add update drops : PartitionEventType

abbrev pub type_name : PartitionEventType → String
type_name add = "ADD"
type_name update = "UPDATE"
type_name drops = "DROP"

pub record PartitionEvent : Type 0 where
  pub type : PartitionEventType
  pub partition : Partition

unfoldable pub by_key : List Partition → Dict Partition
by_key ps = index_by key ps

-- the loop over `desiredByKey`, which meets its entries in the order given
unfoldable pub desired_events : Dict Partition → Dict Partition → List PartitionEvent
desired_events existing_by_key [] = []
desired_events existing_by_key ((k, want) ∷ entries) =
    let events = desired_events existing_by_key entries in
    elim (Dict.lookup k existing_by_key) [
      | none ↦ record { type = add; partition = want } ∷ events
      | some have ↦
          if not (str_eq have.storage_location want.storage_location)
          then record { type = update; partition = want } ∷ events
          else events
    ]

-- the loop over `existingByKey`
unfoldable pub drop_events : Dict Partition → Dict Partition → List PartitionEvent
drop_events desired_by_key [] = []
drop_events desired_by_key ((k, have) ∷ entries) =
    let events = drop_events desired_by_key entries in
    elim (Dict.lookup k desired_by_key) [
      | none ↦ record { type = drops; partition = have } ∷ events
      | some _ ↦ events
    ]

unfoldable pub event_less : PartitionEvent → PartitionEvent → Bool
event_less a b =
    if not (str_eq (type_name a.type) (type_name b.type))
    then str_lt (type_name a.type) (type_name b.type)
    else str_lt (key a.partition) (key b.partition)

-- DiffPartitions, for the order in which Go happens to range over the two maps
unfoldable pub diff_in_order :
    (desired_order existing_order : Dict Partition) (existing desired : List Partition)
    → List PartitionEvent
unfolding desired_events drop_events
diff_in_order desired_order existing_order existing desired =
    sort event_less (
      desired_events (by_key existing) desired_order ++ drop_events (by_key desired) existing_order)

unfoldable pub diff_partitions : List Partition → List Partition → List PartitionEvent
unfolding diff_in_order
diff_partitions existing desired = diff_in_order (by_key desired) (by_key existing) existing desired

-- the loop of SyncPartitions that sorts the events out
unfoldable pub select : PartitionEventType → List PartitionEvent → List Partition
select t [] = []
select t (e ∷ es) =
    let rest = select t es in
    if str_eq (type_name e.type) (type_name t) then e.partition ∷ rest else rest
