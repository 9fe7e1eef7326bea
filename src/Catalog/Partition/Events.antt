-- ===== src/Catalog/Partition/Events.antt =====
-- Which event a partition key has in a diff, if any.
use xtable_go.Prelude.{
  String, not, List, [], ◌∷◌, ◌++◌, Option, none, some, ◌≡◌, refl, ◌∙◌, arith, if◌then◌else◌,
}
use xtable_go.Prelude.Text.{str_eq, eq_iff}
use xtable_go.Prelude.Dict
use xtable_go.Prelude.Dict.{Dict, HasUniqueKeys}
use xtable_go.Prelude.Keyed.{
  find_by, IsUnique, HasKeyedEntries, or_else, find_by-append, append-IsUnique, find_by-sort,
  sort-IsUnique, index_by-HasUniqueKeys, index_by-HasKeyedEntries,
}
use xtable_go.Catalog.Partition.{
  Partition, PartitionEvent, PartitionEventType, add, update, drops, key, by_key, desired_events,
  drop_events, event_less, diff_partitions, select, type_name,
}

abbrev pub event_key : PartitionEvent → String
event_key e = key e.partition

-- The event that a key calls for, given what the catalog has there and what the table wants.
abbrev pub event_at : Option Partition → Option Partition → Option PartitionEvent
event_at none none = none
event_at none (some want) = some (record { type = add; partition = want })
event_at (some have) none = some (record { type = drops; partition = have })
event_at (some have) (some want) =
    if not (str_eq have.storage_location want.storage_location)
    then some (record { type = update; partition = want })
    else none

abbrev wanted_at : Option Partition → Option Partition → Option PartitionEvent
wanted_at o none = none
wanted_at o (some want) = event_at o (some want)

abbrev dropped_at : Option Partition → Option Partition → Option PartitionEvent
dropped_at (some want) o = none
dropped_at none none = none
dropped_at none (some have) = some (record { type = drops; partition = have })

find_by-desired_events :
    (k : String) (m entries : Dict Partition)
    → HasUniqueKeys entries
    → HasKeyedEntries key entries
    → find_by event_key k (desired_events m entries)
      ≡ wanted_at (Dict.lookup k m) (Dict.lookup k entries)
unfolding desired_events Dict.lookup
find_by-desired_events k m [] u h = ground arith
find_by-desired_events k m ((j, want) ∷ entries) u h =
    ground (arith, find_by-desired_events k m entries u.1 h.1, eq_iff j k, eq_iff (key want) k)

find_by-drop_events :
    (k : String) (m entries : Dict Partition)
    → HasUniqueKeys entries
    → HasKeyedEntries key entries
    → find_by event_key k (drop_events m entries)
      ≡ dropped_at (Dict.lookup k m) (Dict.lookup k entries)
unfolding drop_events Dict.lookup
find_by-drop_events k m [] u h = ground arith
find_by-drop_events k m ((j, have) ∷ entries) u h =
    ground (arith, find_by-drop_events k m entries u.1 h.1, eq_iff j k, eq_iff (key have) k)

desired_events-IsUnique :
    (m entries : Dict Partition)
    → HasUniqueKeys entries
    → HasKeyedEntries key entries
    → IsUnique event_key (desired_events m entries)
unfolding desired_events
desired_events-IsUnique m [] u h = tt
desired_events-IsUnique m ((j, want) ∷ entries) u h = ground (
  arith,
  desired_events-IsUnique m entries u.1 h.1,
  find_by-desired_events (key want) m entries u.1 h.1,
)

drop_events-IsUnique :
    (m entries : Dict Partition)
    → HasUniqueKeys entries
    → HasKeyedEntries key entries
    → IsUnique event_key (drop_events m entries)
unfolding drop_events
drop_events-IsUnique m [] u h = tt
drop_events-IsUnique m ((j, have) ∷ entries) u h = ground (
  arith,
  drop_events-IsUnique m entries u.1 h.1,
  find_by-drop_events (key have) m entries u.1 h.1,
)

event_at_parts :
    (have want : Option Partition)
    → or_else (wanted_at have want) (dropped_at want have) ≡ event_at have want
event_at_parts none none = refl
event_at_parts none (some want) = refl
event_at_parts (some have) none = refl
event_at_parts (some have) (some want) = ground arith

module _ (existing desired : List Partition) where
  unfoldable pub unsorted : List PartitionEvent
  unsorted =
      desired_events (by_key existing) (by_key desired)
      ++ drop_events (by_key desired) (by_key existing)

  find_by-unsorted :
      (k : String)
      → find_by event_key k unsorted
        ≡ event_at (Dict.lookup k (by_key existing)) (Dict.lookup k (by_key desired))
  unfolding unsorted by_key
  find_by-unsorted k = ground (
    arith,
    find_by-append event_key k (desired_events (by_key existing) (by_key desired))
        (drop_events (by_key desired) (by_key existing)),
    find_by-desired_events k (by_key existing) (by_key desired) (index_by-HasUniqueKeys key desired)
        (index_by-HasKeyedEntries key desired),
    find_by-drop_events k (by_key desired) (by_key existing) (index_by-HasUniqueKeys key existing)
        (index_by-HasKeyedEntries key existing),
    event_at_parts (Dict.lookup k (by_key existing)) (Dict.lookup k (by_key desired)),
  )

  wanted_not_dropped :
      (e : PartitionEvent)
      → find_by event_key (event_key e) (desired_events (by_key existing) (by_key desired)) ≡ some e
      → find_by event_key (event_key e) (drop_events (by_key desired) (by_key existing)) ≡ none
  unfolding by_key
  wanted_not_dropped e h = ground (
    arith,
    find_by-desired_events (event_key e) (by_key existing) (by_key desired)
        (index_by-HasUniqueKeys key desired) (index_by-HasKeyedEntries key desired),
    find_by-drop_events (event_key e) (by_key desired) (by_key existing)
        (index_by-HasUniqueKeys key existing) (index_by-HasKeyedEntries key existing),
  )

  pub unsorted-IsUnique : IsUnique event_key unsorted
  unfolding unsorted by_key
  unsorted-IsUnique =
      append-IsUnique event_key (desired_events (by_key existing) (by_key desired))
        (drop_events (by_key desired) (by_key existing)) wanted_not_dropped
        (desired_events-IsUnique (by_key existing) (by_key desired)
          (index_by-HasUniqueKeys key desired) (index_by-HasKeyedEntries key desired))
        (drop_events-IsUnique (by_key desired) (by_key existing)
          (index_by-HasUniqueKeys key existing) (index_by-HasKeyedEntries key existing))

  -- The diff has an event at a key exactly where the two sides differ there: an addition where only
  -- the table has the partition, a removal where only the catalog has it, an update where both have
  -- it at different locations. No key has two events.
  pub find_by-diff_partitions :
      ((k : String)
        → find_by event_key k (diff_partitions existing desired)
          ≡ event_at (Dict.lookup k (by_key existing)) (Dict.lookup k (by_key desired)))
      × IsUnique event_key (diff_partitions existing desired)
  unfolding diff_partitions unsorted
  find_by-diff_partitions = (
    λ k. find_by-sort event_key event_less k unsorted unsorted-IsUnique ∙ find_by-unsorted k,
    sort-IsUnique event_key event_less unsorted unsorted-IsUnique,
  )

-- what `select` finds at a key
abbrev pub partition_of_type : PartitionEventType → Option PartitionEvent → Option Partition
partition_of_type t none = none
partition_of_type t (some e) =
    if str_eq (type_name e.type) (type_name t) then some e.partition else none

pub find_by-select :
    (t : PartitionEventType) (k : String) (es : List PartitionEvent)
    → IsUnique event_key es
    → find_by key k (select t es) ≡ partition_of_type t (find_by event_key k es)
unfolding select
find_by-select t k [] u = refl
find_by-select t k (e ∷ es) u = ground (arith, find_by-select t k es u.1, eq_iff (event_key e) k)

pub select-IsUnique :
    (t : PartitionEventType) (es : List PartitionEvent)
    → IsUnique event_key es
    → IsUnique key (select t es)
unfolding select
select-IsUnique t [] u = tt
select-IsUnique t (e ∷ es) u =
    ground (arith, select-IsUnique t es u.1, find_by-select t (event_key e) es u.1)
