-- ===== src/Examples/Partitions.antt =====
-- A table with two partitions against a catalog with two, one of them in another place.
use xtable_go.Prelude.{
  ℕ, ◌<◌, ◌≤◌, Bool, true, false, ◌&&◌, ◌||◌, String, List, [], ◌∷◌, ◌++◌, Option, none, some, ◌≡◌,
  refl, arith, All, length, flatten, keep, not, if◌then◌else◌, inl, inr, Bool-cases,
}
use mathlib.Core.List.{Perm}
use mathlib.Core.List.Perm
use xtable_go.Prelude.Int.{pos}
use xtable_go.Prelude.Results.{ok}
use xtable_go.Prelude.Text.{join, eq_iff, eq_refl}
use xtable_go.Prelude.Dict
use xtable_go.Prelude.Dict.{Dict, lookup-insert}
use xtable_go.Prelude.Keyed.{
  put_all, index_by, find_by, has_by, IsUnique, or_else, lookup-index_by-append, is_some-index_by,
}
use xtable_go.Catalog.Partition.{Partition, key, by_key, diff_in_order, diff_partitions}
use xtable_go.Catalog.Partition.Events.{event_key, event_at, find_by-diff_partitions}
use xtable_go.Catalog.Partition.Order.{diff_in_order-diff_partitions}
use xtable_go.Catalog.Sync.{
  PartitionSyncOperations, TableIdentifier, batches, sync_partitions, validate_identifier,
  effective_batch_size,
}
use xtable_go.Catalog.Sync.Batches.{flatten-batches, batches_bounds}
use xtable_go.Catalog.Sync.Attempts.{
  Call, adds, recorder, planned_calls, all_succeed, succeeds, sync_partitions-calls,
}
use xtable_go.Catalog.Sync.Working.{IsWorking, AreThere}
use xtable_go.Catalog.Sync.Reconcile.{SameLocation, sync_partitions-reconciles}

abbrev at_place : String → String → Partition
at_place v place = record { values = v ∷ []; storage_location = place }

abbrev recorded : List Partition
recorded = at_place "1" "s3://t/1" ∷ at_place "2" "s3://t/2" ∷ []

abbrev wanted : List Partition
wanted = at_place "2" "s3://t/moved" ∷ at_place "3" "s3://t/3" ∷ []

abbrev orders : TableIdentifier
orders = record { database = "sales"; table = "orders" }

find_by-diff_partitions_example :
    ((k : String)
      → find_by event_key k (diff_partitions recorded wanted)
        ≡ event_at (Dict.lookup k (by_key recorded)) (Dict.lookup k (by_key wanted)))
    × IsUnique event_key (diff_partitions recorded wanted)
find_by-diff_partitions_example = find_by-diff_partitions recorded wanted

abbrev wanted_backwards : Dict Partition
wanted_backwards = ("3", at_place "3" "s3://t/3") ∷ ("2", at_place "2" "s3://t/moved") ∷ []

abbrev recorded_in_order : Dict Partition
recorded_in_order = ("1", at_place "1" "s3://t/1") ∷ ("2", at_place "2" "s3://t/2") ∷ []

wanted-backwards : Perm (by_key wanted) wanted_backwards
unfolding by_key index_by Dict.insert key join
wanted-backwards = Perm.swap _ _ []

recorded-in_order : Perm (by_key recorded) recorded_in_order
unfolding by_key index_by Dict.insert key join
recorded-in_order = Perm.rfl

diff_in_order-diff_partitions_example :
    diff_in_order wanted_backwards recorded_in_order recorded wanted
    ≡ diff_partitions recorded wanted
diff_in_order-diff_partitions_example =
    diff_in_order-diff_partitions wanted_backwards recorded_in_order recorded wanted
      wanted-backwards recorded-in_order

abbrev three : List ℕ
three = 1 ∷ 2 ∷ 3 ∷ []

flatten-batches_example : flatten (batches 3 2 three) ≡ three
flatten-batches_example = flatten-batches 3 2 three (omega arith) (omega arith)

batches_bounds_example : All (λ batch. (0 < length batch) × (length batch ≤ 2)) (batches 3 2 three)
batches_bounds_example = batches_bounds 3 2 three (omega arith)

-- a catalog that refuses to add
abbrev no_additions : Call → Option String
no_additions (adds b) = some "denied"
no_additions _ = none

orders-valid : validate_identifier orders ≡ none
unfolding validate_identifier
orders-valid = refl

sync_partitions-calls_example :
    ((sync_partitions (recorder recorded no_additions) orders wanted (pos 1) []).0
      ≡ planned_calls recorded wanted (pos 1))
    × (succeeds (sync_partitions (recorder recorded no_additions) orders wanted (pos 1) []).1
        ≡ all_succeed no_additions (planned_calls recorded wanted (pos 1)))
sync_partitions-calls_example =
    sync_partitions-calls recorded wanted (pos 1) orders no_additions orders-valid

-- A catalog that is the list of what it was told last. It refuses to add what it has, and to update
-- or to remove what it has not.
abbrev others : List Partition → List Partition → List Partition
others b s = keep (λ p. not (has_by key (key p) b)) s

abbrev any_there : List Partition → List Partition → Bool
any_there [] s = false
any_there (p ∷ b) s = has_by key (key p) s || any_there b s

abbrev all_there : List Partition → List Partition → Bool
all_there [] s = true
all_there (p ∷ b) s = has_by key (key p) s && all_there b s

abbrev simple_catalog : PartitionSyncOperations (List Partition)
simple_catalog = record {
  get_all_partitions = λ s. ok s;
  add_partitions = λ b s. if any_there b s then (s, some "already there") else (s ++ b, none);
  update_partitions = λ b s. if all_there b s then (s ++ b, none) else (s, some "not found");
  drop_partitions = λ b s. if all_there b s then (others b s, none) else (s, some "not found");
}

lookup-put_all-others :
    (k : String) (b l : List Partition) (m m' : Dict Partition)
    → Dict.lookup k m' ≡ (if has_by key k b then none else Dict.lookup k m)
    → Dict.lookup k (put_all key (others b l) m')
      ≡ (if has_by key k b then none else Dict.lookup k (put_all key l m))
unfolding put_all
lookup-put_all-others k b [] m m' h = h
lookup-put_all-others k b (p ∷ l) m m' h = elim (Bool-cases (has_by key (key p) b)) [
  | inl q ↦
      rw (q, put_all)
        (lookup-put_all-others k b l (Dict.insert (key p) p m) m'
          (ground (arith, h, q, lookup-insert (key p) k p m, eq_iff (key p) k)))
  | inr q ↦
      rw (q, put_all)
        (lookup-put_all-others k b l (Dict.insert (key p) p m) (Dict.insert (key p) p m') (
          ground (
            arith,
            h,
            q,
            lookup-insert (key p) k p m,
            lookup-insert (key p) k p m',
            eq_iff (key p) k,
          )))
]

lookup-others :
    (k : String) (b s : List Partition)
    → Dict.lookup k (by_key (others b s))
      ≡ (if has_by key k b then none else Dict.lookup k (by_key s))
unfolding by_key index_by
lookup-others k b s =
    lookup-put_all-others k b s [] [] (ground (arith, Dict.lookup-nil {V = Partition} k))

lookup-told :
    (k : String) (s b : List Partition)
    → Dict.lookup k (by_key (s ++ b))
      ≡ or_else (Dict.lookup k (by_key b)) (Dict.lookup k (by_key s))
unfolding by_key
lookup-told k s b = lookup-index_by-append key k s b

any_there-AreThere :
    (b s : List Partition)
    → AreThere (λ s k. Dict.lookup k (by_key s)) false b s
    → any_there b s ≡ false
unfolding by_key
any_there-AreThere [] s h = refl
any_there-AreThere (p ∷ b) s h = ground (
  arith,
  h (key p),
  eq_refl (key p),
  is_some-index_by key (key p) s,
  any_there-AreThere b s (λ k e. h k (ground (arith, e))),
)

all_there-AreThere :
    (b s : List Partition)
    → AreThere (λ s k. Dict.lookup k (by_key s)) true b s
    → all_there b s ≡ true
unfolding by_key
all_there-AreThere [] s h = refl
all_there-AreThere (p ∷ b) s h = ground (
  arith,
  h (key p),
  eq_refl (key p),
  is_some-index_by key (key p) s,
  all_there-AreThere b s (λ k e. h k (ground (arith, e))),
)

simple_catalog-IsWorking : IsWorking simple_catalog (λ s k. Dict.lookup k (by_key s)) 1
simple_catalog-IsWorking = record {
  lists = λ s. (s, refl, λ k. refl);
  adds = λ b s r h. rw (any_there-AreThere b s h) (refl, λ k. lookup-told k s b);
  updates = λ b s r h. rw (all_there-AreThere b s h) (refl, λ k. lookup-told k s b);
  removals = λ b s r h. rw (all_there-AreThere b s h) (refl, λ k. lookup-others k b s);
}

one_at_a_time : effective_batch_size (pos 1) ≤ 1
unfolding effective_batch_size
one_at_a_time = omega arith

sync_partitions-reconciles_example :
    ((sync_partitions simple_catalog orders wanted (pos 1) recorded).1 ≡ none)
    × ((k : String)
        → SameLocation
            (Dict.lookup k
              (by_key (sync_partitions simple_catalog orders wanted (pos 1) recorded).0))
            (Dict.lookup k (by_key wanted)))
sync_partitions-reconciles_example =
    sync_partitions-reconciles simple_catalog (λ s k. Dict.lookup k (by_key s)) 1
      simple_catalog-IsWorking orders wanted (pos 1) recorded orders-valid one_at_a_time
