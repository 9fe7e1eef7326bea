-- ===== src/Catalog/Sync/Reconcile.antt =====
-- A catalog whose calls do what they are for ends up with the partitions of the table.
use xtable_go.Prelude.{
  ℕ, zero, suc, ◌<◌, ◌≤◌, Bool, true, false, String, List, ◌++◌, Option, none, some, ◌≡◌, refl, sym,
  ◌∙◌, ap, subst, arith, if◌then◌else◌,
}
use xtable_go.Prelude.Int.{ℤ, pos, negsuc}
use xtable_go.Prelude.Text.{eq_iff}
use xtable_go.Prelude.Dict
use xtable_go.Prelude.Keyed.{
  has_by, or_else, is_some, lookup-index_by-append, lookup-index_by, is_some-index_by,
  has_by-append,
}
use xtable_go.Catalog.Partition.{
  Partition, PartitionEvent, PartitionEventType, add, update, drops, key, by_key, select,
  diff_partitions,
}
use xtable_go.Catalog.Partition.Events.{
  event_at, find_by-diff_partitions, partition_of_type, find_by-select, select-IsUnique,
}
use xtable_go.Catalog.Sync.{
  PartitionSyncOperations, TableIdentifier, validate_identifier, identifier_string,
  effective_batch_size, in_batches, send_events, sync_partitions,
}
use xtable_go.Catalog.Sync.Working.{IsWorking, in_batches-effect}

overlay : String → List Partition → Option Partition → Option Partition
overlay k b o = or_else (Dict.lookup k (by_key b)) o

deletion : String → List Partition → Option Partition → Option Partition
deletion k b o = if has_by key k b then none else o

overlay-outside :
    (k : String) (b : List Partition) (o : Option Partition)
    → has_by key k b ≡ false
    → overlay k b o ≡ o
unfolding overlay by_key
overlay-outside k b o h = ground (arith, is_some-index_by key k b, h)

deletion-outside :
    (k : String) (b : List Partition) (o : Option Partition)
    → has_by key k b ≡ false
    → deletion k b o ≡ o
unfolding deletion
deletion-outside k b o h = rw h refl

-- an overlay takes nothing away
is_some-overlay :
    (k : String) (b : List Partition) (o : Option Partition)
    → is_some o ≡ true
    → is_some (overlay k b o) ≡ true
unfolding overlay
is_some-overlay k b o h = ground (arith, h)

overlay-append :
    (k : String) (xs ys : List Partition) (o : Option Partition)
    → overlay k (xs ++ ys) o ≡ overlay k ys (overlay k xs o)
unfolding overlay by_key
overlay-append k xs ys o = ground (arith, lookup-index_by-append key k xs ys)

deletion-append :
    (k : String) (xs ys : List Partition) (o : Option Partition)
    → deletion k (xs ++ ys) o ≡ deletion k ys (deletion k xs o)
unfolding deletion
deletion-append k xs ys o = ground (arith, has_by-append key k xs ys)

-- Both sides have no partition, or both have one at the same location.
abbrev pub SameLocation : Option Partition → Option Partition → Type 0
SameLocation none none = Unit
SameLocation (some p) (some q) = p.storage_location ≡ q.storage_location
SameLocation _ _ = ⊥

module _ (existing desired : List Partition) (k : String) where
  event : Option PartitionEvent
  event = event_at (Dict.lookup k (by_key existing)) (Dict.lookup k (by_key desired))

  lookup-select :
      (t : PartitionEventType)
      → Dict.lookup k (by_key (select t (diff_partitions existing desired)))
        ≡ partition_of_type t event
  unfolding by_key event
  lookup-select t =
      let diff = find_by-diff_partitions existing desired in
      lookup-index_by key k _ (select-IsUnique t _ diff.1)
      ∙ find_by-select t k _ diff.1
      ∙ ap (partition_of_type t) (diff.0 k)

  has_by-select :
      (t : PartitionEventType)
      → has_by key k (select t (diff_partitions existing desired))
        ≡ is_some (partition_of_type t event)
  unfolding by_key
  has_by-select t = sym (is_some-index_by key k _) ∙ ap is_some (lookup-select t)

-- what is added was not there, and what is updated or removed was
abbrev was_there : PartitionEventType → Bool
was_there add = false
was_there update = true
was_there drops = true

event_at-was_there :
    (t : PartitionEventType) (have want : Option Partition)
    → is_some (partition_of_type t (event_at have want)) ≡ true
    → is_some have ≡ was_there t
event_at-was_there t none none h = cc
event_at-was_there add none (some want) h = refl
event_at-was_there update none (some want) h = cc
event_at-was_there drops none (some want) h = cc
event_at-was_there add (some have) none h = cc
event_at-was_there update (some have) none h = cc
event_at-was_there drops (some have) none h = refl
event_at-was_there add (some have) (some want) h = ground arith
event_at-was_there update (some have) (some want) h = refl
event_at-was_there drops (some have) (some want) h = refl

select-was_there :
    (existing desired : List Partition) (t : PartitionEventType) (k : String)
    → has_by key k (select t (diff_partitions existing desired)) ≡ true
    → is_some (Dict.lookup k (by_key existing)) ≡ was_there t
unfolding event
select-was_there existing desired t k h =
    event_at-was_there t (Dict.lookup k (by_key existing)) (Dict.lookup k (by_key desired))
      (sym (has_by-select existing desired k t) ∙ h)

reconciled-SameLocation :
    (have want : Option Partition)
    → SameLocation
        (if is_some (partition_of_type drops (event_at have want))
          then none
          else or_else
              (partition_of_type update (event_at have want))
              (or_else (partition_of_type add (event_at have want)) have))
        want
reconciled-SameLocation none none = tt
reconciled-SameLocation none (some want) = refl
reconciled-SameLocation (some have) none = tt
reconciled-SameLocation (some have) (some want) =
    ground (arith, eq_iff have.storage_location want.storage_location)

-- what the three actions together leave at a key
module _ (existing desired : List Partition) (k : String) where
  actions : Option Partition → Option Partition
  unfolding overlay deletion
  actions o =
      let events = diff_partitions existing desired in
      deletion k (select drops events)
        (overlay k (select update events) (overlay k (select add events) o))

  actions-SameLocation :
      SameLocation (actions (Dict.lookup k (by_key existing))) (Dict.lookup k (by_key desired))
  unfolding actions event
  actions-SameLocation =
      rw
        (
          has_by-select existing desired k drops,
          lookup-select existing desired k update,
          lookup-select existing desired k add,
        )
        (reconciled-SameLocation (Dict.lookup k (by_key existing)) (Dict.lookup k (by_key desired)))

effective_batch_size-pos : (n : ℤ) → 0 < effective_batch_size n
unfolding effective_batch_size
effective_batch_size-pos (pos zero) = omega arith
effective_batch_size-pos (pos (suc n)) = omega arith
effective_batch_size-pos (negsuc n) = omega arith

module _ {S : Type 0} (ops : PartitionSyncOperations S) (at : S → String → Option Partition)
    (limit : ℕ) (w : IsWorking ops at limit) where
  send_events-effect :
      (existing desired : List Partition) (id : String) (size : ℕ) (s : S)
      → 0 < size
      → size ≤ limit
      → ((k : String) → Dict.lookup k (by_key existing) ≡ at s k)
      → let done = send_events ops id (diff_partitions existing desired) size s in
        (done.1 ≡ none)
        × ((k : String) → SameLocation (at done.0 k) (Dict.lookup k (by_key desired)))
  unfolding send_events actions
  send_events-effect existing desired id size s h small listed =
      let events = diff_partitions existing desired in
      let unique = λ (t : PartitionEventType).
        select-IsUnique t events (find_by-diff_partitions existing desired).1 in
      let before =
        λ (t : PartitionEventType) (k : String) (e : has_by key k (select t events) ≡ true).
          ap is_some (sym (listed k)) ∙ select-was_there existing desired t k e in
      let (a0, a1) =
        in_batches-effect at limit false ops.add_partitions overlay (w.adds) overlay-outside
          overlay-append (select add events) size s h small (unique add) (before add) in
      let s1 = (in_batches (select add events) size ops.add_partitions s).0 in
      let kept1 = λ (t : PartitionEventType) (k : String) (o : is_some (at s k) ≡ true).
        ap is_some (a1 k) ∙ is_some-overlay k (select add events) (at s k) o in
      let (u0, u1) =
        in_batches-effect at limit true ops.update_partitions overlay (w.updates) overlay-outside
          overlay-append (select update events) size s1 h small (unique update)
          (λ k e. kept1 update k (before update k e)) in
      let s2 = (in_batches (select update events) size ops.update_partitions s1).0 in
      let (d0, d1) =
        in_batches-effect at limit true ops.drop_partitions deletion (w.removals) deletion-outside
          deletion-append (select drops events) size s2 h small (unique drops)
          (λ k e.
            ap is_some (u1 k)
            ∙ is_some-overlay k (select update events) (at s1 k)
                (kept1 drops k (before drops k e))) in
      (
        ground (arith, a0, u0, d0),
        λ k.
            subst (λ o. SameLocation o (Dict.lookup k (by_key desired)))
              (ap (actions existing desired k) (listed k)
                ∙ sym (
                    d1 k
                    ∙ ap (deletion k (select drops events))
                        (u1 k ∙ ap (overlay k (select update events)) (a1 k))))
              (actions-SameLocation existing desired k),
      )

  -- Against a catalog whose calls add partitions that are not there and update and remove ones that
  -- are, as long as a request is not empty, not above the catalog's limit and names no key twice, and
  -- under a usable identifier and a batch size up to the limit, a synchronisation reports no error and
  -- leaves at every key what the table has there: no partition, or one at the table's location.
  pub sync_partitions-reconciles :
      (id : TableIdentifier) (desired : List Partition) (batch_size : ℤ) (s : S)
      → validate_identifier id ≡ none
      → effective_batch_size batch_size ≤ limit
      → let done = sync_partitions ops id desired batch_size s in
        (done.1 ≡ none)
        × ((k : String) → SameLocation (at done.0 k) (Dict.lookup k (by_key desired)))
  unfolding sync_partitions
  sync_partitions-reconciles id desired batch_size s valid small =
      let (existing, e, listed) = w.lists s in
      rw (valid, sync_partitions, e)
        (send_events-effect existing desired (identifier_string id)
          (effective_batch_size batch_size) s (effective_batch_size-pos batch_size) small listed)
