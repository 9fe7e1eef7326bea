-- ===== src/Catalog/Sync/Attempts.antt =====
-- Which calls a synchronisation makes, whatever the catalog answers.
use xtable_go.Prelude.{
  ℕ, String, List, [], ◌∷◌, ◌++◌, Option, none, some, ◌≡◌, refl, ap, ◌∙◌, sym, arith, length, map,
  Bool, true, false, ◌&&◌,
}
use mathlib.Core.List.{append-nil, append_assoc}
use xtable_go.Prelude.Int.{ℤ}
use xtable_go.Prelude.Results.{ok}
use xtable_go.Catalog.Partition.{
  Partition, PartitionEvent, add, update, drops, select, diff_partitions,
}
use xtable_go.Catalog.Sync.{
  PartitionSyncOperations, TableIdentifier, validate_identifier, effective_batch_size, batches,
  each_batch, in_batches, join_errors, send_events, sync_partitions, labelled, identifier_string,
}

pub data Call : Type 0 where
  adds updates removals : List Partition → Call

-- A catalog that holds the given partitions, answers each call as `answer` says, and keeps a record
-- of the calls.
abbrev pub recorder : List Partition → (Call → Option String) → PartitionSyncOperations (List Call)
recorder existing answer = record {
  get_all_partitions = λ _. ok existing;
  add_partitions = λ b calls. (calls ++ adds b ∷ [], answer (adds b));
  update_partitions = λ b calls. (calls ++ updates b ∷ [], answer (updates b));
  drop_partitions = λ b calls. (calls ++ removals b ∷ [], answer (removals b));
}

abbrev pub succeeds : Option String → Bool
succeeds none = true
succeeds (some e) = false

-- every call of the list is answered without an error
abbrev pub all_succeed : (Call → Option String) → List Call → Bool
all_succeed answer [] = true
all_succeed answer (c ∷ cs) = succeeds (answer c) && all_succeed answer cs

-- The calls that `sync_partitions` owes: all additions, then all updates, then all removals.
pub planned_calls : List Partition → List Partition → ℤ → List Call
planned_calls existing desired batch_size =
    let events = diff_partitions existing desired in
    let size = effective_batch_size batch_size in
    let slices = λ (ps : List Partition). batches (length ps) size ps in
    map adds (slices (select add events))
    ++ (map updates (slices (select update events)) ++ map removals (slices (select drops events)))

module _ (answer : Call → Option String) (kind : List Partition → Call) where
  record_call : List Partition → List Call → List Call × Option String
  record_call b calls = (calls ++ kind b ∷ [], answer (kind b))

  each_batch-record_call :
      (bs : List (List Partition)) (calls : List Call)
      → (each_batch record_call bs calls).0 ≡ calls ++ map kind bs
  unfolding each_batch record_call
  each_batch-record_call [] calls = sym (append-nil calls)
  each_batch-record_call (b ∷ bs) calls =
      each_batch-record_call bs (calls ++ kind b ∷ [])
      ∙ append_assoc calls (kind b ∷ []) (map kind bs)

  in_batches-errors :
      (bs : List (List Partition)) (calls : List Call)
      → succeeds (join_errors (each_batch record_call bs calls).1)
        ≡ all_succeed answer (map kind bs)
  unfolding each_batch record_call join_errors
  in_batches-errors [] calls = refl
  in_batches-errors (b ∷ bs) calls = ground (arith, in_batches-errors bs (calls ++ kind b ∷ []))

all_succeed-append :
    (answer : Call → Option String) (xs ys : List Call)
    → all_succeed answer (xs ++ ys) ≡ (all_succeed answer xs && all_succeed answer ys)
all_succeed-append answer [] ys = refl
all_succeed-append answer (x ∷ xs) ys = ground (arith, all_succeed-append answer xs ys)

succeeds-labelled :
    (add_label update_label drop_label id : String) (a u d : Option String)
    → succeeds (
        join_errors
          (labelled add_label id a (labelled update_label id u (labelled drop_label id d []))))
      ≡ (succeeds a && (succeeds u && succeeds d))
unfolding labelled join_errors
succeeds-labelled al ul dl id a u d = ground arith

slices_of : ℕ → List Partition → List (List Partition)
slices_of size ps = batches (length ps) size ps

module _ (answer : Call → Option String) (kind : List Partition → Call) (ps : List Partition)
    (size : ℕ) where
  calls-in_batches :
      (calls : List Call)
      → (in_batches ps size (record_call answer kind) calls).0
        ≡ calls ++ map kind (slices_of size ps)
  unfolding in_batches slices_of
  calls-in_batches calls = each_batch-record_call answer kind (batches (length ps) size ps) calls

  errors-in_batches :
      (calls : List Call)
      → succeeds (in_batches ps size (record_call answer kind) calls).1
        ≡ all_succeed answer (map kind (slices_of size ps))
  unfolding in_batches slices_of
  errors-in_batches calls = in_batches-errors answer kind (batches (length ps) size ps) calls

module _ (existing : List Partition) (answer : Call → Option String) (id : String)
    (events : List PartitionEvent) (size : ℕ) where
  additions : List Call
  additions = map adds (slices_of size (select add events))

  changes : List Call
  changes = map updates (slices_of size (select update events))

  deletions : List Call
  deletions = map removals (slices_of size (select drops events))

  calls-send_events :
      (send_events (recorder existing answer) id events size []).0
      ≡ additions ++ (changes ++ deletions)
  unfolding send_events record_call additions changes deletions
  calls-send_events =
      calls-in_batches answer removals (select drops events) size _
      ∙ ap (λ (c : List Call). c ++ deletions)
          (calls-in_batches answer updates (select update events) size _
            ∙ ap (λ (c : List Call). c ++ changes)
                (calls-in_batches answer adds (select add events) size []))
      ∙ append_assoc additions changes deletions

  errors-send_events :
      succeeds (send_events (recorder existing answer) id events size []).1
      ≡ all_succeed answer (additions ++ (changes ++ deletions))
  unfolding send_events record_call additions changes deletions
  errors-send_events =
      let a = in_batches (select add events) size (record_call answer adds) [] in
      let u = in_batches (select update events) size (record_call answer updates) a.0 in
      let d = in_batches (select drops events) size (record_call answer removals) u.0 in
      succeeds-labelled "failed to add partitions to " "failed to update partitions on "
        "failed to drop partitions from " id a.1 u.1 d.1
      ∙ (λ i.
          errors-in_batches answer adds (select add events) size [] i
          && (errors-in_batches answer updates (select update events) size a.0 i
              && errors-in_batches answer removals (select drops events) size u.0 i))
      ∙ sym (
          all_succeed-append answer additions (changes ++ deletions)
          ∙ ap (λ b. all_succeed answer additions && b)
              (all_succeed-append answer changes deletions))

module _ (existing desired : List Partition) (batch_size : ℤ) (id : TableIdentifier)
    (answer : Call → Option String) where
  -- Against a catalog that answers as it likes, a synchronisation under a usable identifier makes
  -- exactly the planned calls, in order, and reports no error exactly when every call had none.
  pub sync_partitions-calls :
      validate_identifier id ≡ none
      → ((sync_partitions (recorder existing answer) id desired batch_size []).0
          ≡ planned_calls existing desired batch_size)
        × (succeeds (sync_partitions (recorder existing answer) id desired batch_size []).1
            ≡ all_succeed answer (planned_calls existing desired batch_size))
  unfolding sync_partitions planned_calls additions changes deletions slices_of
  sync_partitions-calls valid =
      rw (valid, sync_partitions)
        (
          calls-send_events existing answer (identifier_string id)
              (diff_partitions existing desired) (effective_batch_size batch_size),
          errors-send_events existing answer (identifier_string id)
              (diff_partitions existing desired) (effective_batch_size batch_size),
        )
