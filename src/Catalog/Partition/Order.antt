-- ===== src/Catalog/Partition/Order.antt =====
-- The diff of two sets of partitions does not depend on the order in which Go ranges over maps.
use xtable_go.Prelude.{
  String, Bool, true, false, not, List, [], ◌∷◌, ◌≡◌, refl, sym, ◌∙◌, ap, arith, Option, none, some,
  if◌then◌else◌,
}
use mathlib.Core.List.{Perm, filter_map}
use mathlib.Core.List.Perm
use mathlib.Core.Option
use mathlib.Core.HLevel.{hedberg}
use xtable_go.Prelude.Text.{
  str_eq, eq_iff, str_lt, str_lt_asym, str_lt_co_trans, str_lt_total, str_discrete,
}
use xtable_go.Prelude.Sort.{IsOrder, Separates, sort-perm-eq}
use xtable_go.Prelude.Dict
use xtable_go.Prelude.Dict.{Dict}
use xtable_go.Prelude.Keyed.{mem-find_by, find_by}
use xtable_go.Catalog.Partition.{
  Partition, PartitionEvent, add, update, drops, key, by_key, desired_events, drop_events,
  event_less, diff_in_order, diff_partitions, type_name,
}
use xtable_go.Catalog.Partition.Events.{event_key, unsorted, unsorted-IsUnique}

Partition-discrete : Discrete Partition
Partition-discrete = hlevel str_discrete

PartitionEvent-set : IsSet PartitionEvent
PartitionEvent-set = hlevel (hedberg Partition-discrete)

-- pairs of texts in lexicographic order
abbrev pair_less : String → String → String → String → Bool
pair_less s k t j = if not (str_eq s t) then str_lt s t else str_lt k j

pair_less_asym : (s k t j : String) → pair_less s k t j ≡ true → pair_less t j s k ≡ false
pair_less_asym s k t j h = ground (arith, eq_iff s t, eq_iff t s, str_lt_asym s t, str_lt_asym k j)

pair_less_co_trans :
    (s k t j u l : String)
    → pair_less s k t j ≡ false
    → pair_less t j u l ≡ false
    → pair_less s k u l ≡ false
pair_less_co_trans s k t j u l h h' = ground (
  arith,
  eq_iff s t,
  eq_iff t u,
  eq_iff s u,
  str_lt_co_trans s t u,
  str_lt_co_trans k j l,
  str_lt_total s t,
  str_lt_asym t s,
)

event_less-IsOrder : IsOrder event_less
unfolding event_less
event_less-IsOrder = record {
  asym = λ x y.
      pair_less_asym (type_name x.type) (key x.partition) (type_name y.type) (key y.partition);
  co_trans = λ x y z.
      pair_less_co_trans (type_name x.type) (key x.partition) (type_name y.type) (key y.partition)
        (type_name z.type) (key z.partition);
}

pair_less_eq : (s k t j : String) → pair_less s k t j ≡ false → pair_less t j s k ≡ false → k ≡ j
pair_less_eq s k t j h h' =
    ground (arith, eq_iff s t, eq_iff t s, eq_iff k j, str_lt_total s t, str_lt_total k j)

module _ (existing desired : List Partition) where
  unsorted-Separates : Separates event_less (unsorted existing desired)
  unfolding event_less
  unsorted-Separates a b m n h h' =
      let same_key =
        pair_less_eq (type_name a.type) (event_key a) (type_name b.type) (event_key b) h h' in
      let u = unsorted-IsUnique existing desired in
      Option.some-injective a b (
        sym (mem-find_by event_key PartitionEvent-set a (unsorted existing desired) u m)
        ∙ ap (λ k. find_by event_key k (unsorted existing desired)) same_key
        ∙ mem-find_by event_key PartitionEvent-set b (unsorted existing desired) u n)

wanted : Dict Partition → String × Partition → Option PartitionEvent
wanted m e = elim (Dict.lookup e.0 m) [
  | none ↦ some (record { type = add; partition = e.1 })
  | some have ↦
      if not (str_eq have.storage_location e.1.storage_location)
      then some (record { type = update; partition = e.1 })
      else none
]

dropped : Dict Partition → String × Partition → Option PartitionEvent
dropped m e = elim (Dict.lookup e.0 m) [
  | none ↦ some (record { type = drops; partition = e.1 })
  | some _ ↦ none
]

desired_events-filter_map :
    (m entries : Dict Partition) → desired_events m entries ≡ filter_map (wanted m) entries
unfolding desired_events wanted filter_map
desired_events-filter_map m [] = refl
desired_events-filter_map m ((k, want) ∷ entries) =
    ground (arith, desired_events-filter_map m entries)

drop_events-filter_map :
    (m entries : Dict Partition) → drop_events m entries ≡ filter_map (dropped m) entries
unfolding drop_events dropped filter_map
drop_events-filter_map m [] = refl
drop_events-filter_map m ((k, have) ∷ entries) = ground (arith, drop_events-filter_map m entries)

desired_events-perm :
    (m : Dict Partition) {ds es : Dict Partition}
    → Perm ds es
    → Perm (desired_events m ds) (desired_events m es)
desired_events-perm m p = simp desired_events-filter_map (Perm.filter_map (wanted m) p)

drop_events-perm :
    (m : Dict Partition) {ds es : Dict Partition}
    → Perm ds es
    → Perm (drop_events m ds) (drop_events m es)
drop_events-perm m p = simp drop_events-filter_map (Perm.filter_map (dropped m) p)

-- In whatever order Go ranges over the two maps, the diff is the same list.
pub diff_in_order-diff_partitions :
    (desired_order existing_order : Dict Partition) (existing desired : List Partition)
    → Perm (by_key desired) desired_order
    → Perm (by_key existing) existing_order
    → diff_in_order desired_order existing_order existing desired ≡ diff_partitions existing desired
unfolding diff_in_order diff_partitions unsorted
diff_in_order-diff_partitions ds es existing desired p q = sym (
    sort-perm-eq PartitionEvent-set event_less-IsOrder (unsorted existing desired) _
      (Perm.append (desired_events-perm (by_key existing) p) (drop_events-perm (by_key desired) q))
      (unsorted-Separates existing desired))
