-- ===== src/Catalog/Sync/Working.antt =====
-- A catalog whose calls do what they are for, and what a batched call makes of it.
use xtable_go.Prelude.{
  ℕ, ◌<◌, ◌≤◌, Bool, true, false, All, String, List, [], ◌∷◌, ◌++◌, Option, none, ◌≡◌, refl, sym,
  ◌∙◌, ap, arith, length, flatten, if◌then◌else◌,
}
use xtable_go.Prelude.Results.{ok}
use xtable_go.Prelude.Dict
use xtable_go.Prelude.Keyed.{has_by, or_else, is_some, has_by-append, IsUnique, IsUnique-append}
use xtable_go.Catalog.Partition.{Partition, key, by_key}
use xtable_go.Catalog.Sync.{PartitionSyncOperations, batches, each_batch, in_batches, join_errors}
use xtable_go.Catalog.Sync.Batches.{flatten-batches, batches_bounds}

-- a request that a catalog takes: not empty, not above its limit, and with no key twice
abbrev pub IsRequest : ℕ → List Partition → Type 0
IsRequest limit b = (0 < length b) × (length b ≤ limit) × IsUnique key b

-- every key of a request has, or has not, a partition
abbrev pub AreThere :
    {S : Type 0} → (S → String → Option Partition) → Bool → List Partition → S → Type 0
AreThere at there b s = (k : String) → has_by key k b ≡ true → is_some (at s k) ≡ there

-- A catalog in working order: it has at most one partition at a key and lists what it has. An
-- addition of partitions that are all new registers them, an update of partitions that are all there
-- rewrites them, and a removal of such removes them. What a call does with any other request is
-- left open: it may fail, or do something else.
pub record IsWorking {S : Type 0} (ops : PartitionSyncOperations S)
    (at : S → String → Option Partition) (limit : ℕ) : Type 0 where
  pub lists :
      (s : S)
      → (l : List Partition) × (ops.get_all_partitions s ≡ ok l)
        × ((k : String) → Dict.lookup k (by_key l) ≡ at s k)
  pub adds :
      (b : List Partition) (s : S)
      → IsRequest limit b
      → AreThere at false b s
      → ((ops.add_partitions b s).1 ≡ none)
        × ((k : String)
            → at (ops.add_partitions b s).0 k ≡ or_else (Dict.lookup k (by_key b)) (at s k))
  pub updates :
      (b : List Partition) (s : S)
      → IsRequest limit b
      → AreThere at true b s
      → ((ops.update_partitions b s).1 ≡ none)
        × ((k : String)
            → at (ops.update_partitions b s).0 k ≡ or_else (Dict.lookup k (by_key b)) (at s k))
  pub removals :
      (b : List Partition) (s : S)
      → IsRequest limit b
      → AreThere at true b s
      → ((ops.drop_partitions b s).1 ≡ none)
        × ((k : String)
            → at (ops.drop_partitions b s).0 k ≡ (if has_by key k b then none else at s k))

below_limit :
    (size limit : ℕ)
    → size ≤ limit
    → (bs : List (List Partition)) → All (λ b. (0 < length b) × (length b ≤ size)) bs
    → All (λ b. (0 < length b) × (length b ≤ limit)) bs
below_limit size limit h [] small = tt
below_limit size limit h (b ∷ bs) ((more, less), small) =
    ((more, omega (arith, less, h)), below_limit size limit h bs small)

module _ {S : Type 0} (at : S → String → Option Partition) (limit : ℕ) (there : Bool)
    (call : List Partition → S → S × Option String)
    (effect : String → List Partition → Option Partition → Option Partition)
    (does : (b : List Partition) (s : S)
      → IsRequest limit b
      → AreThere at there b s
      → ((call b s).1 ≡ none) × ((k : String) → at (call b s).0 k ≡ effect k b (at s k)))
    (effect-outside : (k : String) (b : List Partition) (o : Option Partition)
      → has_by key k b ≡ false
      → effect k b o ≡ o)
    (effect-append : (k : String) (xs ys : List Partition) (o : Option Partition)
      → effect k (xs ++ ys) o ≡ effect k ys (effect k xs o)) where
  each_batch-effect :
      (bs : List (List Partition)) (s : S)
      → All (λ b. (0 < length b) × (length b ≤ limit)) bs
      → IsUnique key (flatten bs)
      → AreThere at there (flatten bs) s
      → ((each_batch call bs s).1 ≡ [])
        × ((k : String) → at (each_batch call bs s).0 k ≡ effect k (flatten bs) (at s k))
  unfolding each_batch
  each_batch-effect [] s small u ready = (refl, λ k. sym (effect-outside k [] (at s k) refl))
  each_batch-effect (b ∷ bs) s ((some_there, below), small) u ready =
      let (first, second, apart) = IsUnique-append key b (flatten bs) u in
      let (fine, now) =
        does b s (some_there, below, first)
          (λ k h. ready k (ground (arith, has_by-append key k b (flatten bs)))) in
      let (later, then_at) = each_batch-effect bs (call b s).0 small second (λ k h.
        ap is_some (now k ∙ effect-outside k b (at s k) (apart k h))
        ∙ ready k (ground (arith, has_by-append key k b (flatten bs)))) in
      (
        ground (arith, fine, later),
        λ k.
            then_at k
            ∙ ap (effect k (flatten bs)) (now k)
            ∙ sym (effect-append k b (flatten bs) (at s k)),
      )

  pub in_batches-effect :
      (ps : List Partition) (size : ℕ) (s : S)
      → 0 < size
      → size ≤ limit
      → IsUnique key ps
      → AreThere at there ps s
      → ((in_batches ps size call s).1 ≡ none)
        × ((k : String) → at (in_batches ps size call s).0 k ≡ effect k ps (at s k))
  unfolding in_batches join_errors
  in_batches-effect ps size s h k u ready =
      let whole = flatten-batches (length ps) size ps (omega arith) h in
      let (fine, done) =
        each_batch-effect (batches (length ps) size ps) s
          (below_limit size limit k (batches (length ps) size ps)
            (batches_bounds (length ps) size ps h))
          (rw whole u) (rw whole ready) in
      (ground (arith, fine), λ k. rw whole at (done k))
