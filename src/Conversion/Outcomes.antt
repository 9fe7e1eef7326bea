-- ===== src/Conversion/Outcomes.antt =====
-- What a sync of one target does to the storage, and what it says of that.
use xtable_go.Prelude.{
  String, Bool, true, false, not, Option, none, some, ◌≡◌, ◌≢◌, inl, inr, refl, arith, Option-cases,
  Bool-cases, get_last?,
}
use xtable_go.Prelude.Int.{ℤ}
use xtable_go.Prelude.Results.{Result-cases}
use xtable_go.Prelude.Text.{str_eq}
use xtable_go.Model.Schema.{TableFormat}
use xtable_go.Spi.{
  ConversionSource, ConversionTarget, SyncResult, sync_status_error, sync_status_success,
}
use xtable_go.Conversion.{
  Plan, run_plan, unless_dry, incremental, full, plan, committed, sync_incrementally, sync_whole,
  sync_to_target, apply_fallback_reason,
}

-- A result says that it fell back exactly when it gives a reason, and one that reports nothing to
-- do is a success without an error and without a fallback.
pub record IsCoherent (r : SyncResult) : Type 0 where
  pub reasoned : r.fell_back_to_full_sync ≡ not (str_eq r.fallback_reason "")
  pub idle :
      r.no_op ≡ true
      → (r.status_code ≡ sync_status_success) × (r.error ≡ "") × (r.fallback_reason ≡ "")

apply_fallback_reason-IsCoherent :
    (r : SyncResult) (reason : String)
    → r.no_op ≡ false
    → r.fell_back_to_full_sync ≡ false
    → r.fallback_reason ≡ ""
    → IsCoherent (apply_fallback_reason r reason)
apply_fallback_reason-IsCoherent r reason p q e = elim (Bool-cases (str_eq reason "")) [
  | inl h ↦ rw h (record { reasoned = rw (q, e) refl; idle = λ n. ground (arith, n, p) })
  | inr h ↦ rw h (record { reasoned = rw h refl; idle = λ n. ground (arith, n, p) })
]

pub apply_fallback_reason-status :
    (r : SyncResult) (reason : String)
    → (apply_fallback_reason r reason).status_code ≡ r.status_code
apply_fallback_reason-status r reason = elim (Bool-cases (str_eq reason "")) [
  | inl h ↦ rw h refl
  | inr h ↦ rw h refl
]

pub apply_fallback_reason-instant :
    (r : SyncResult) (reason : String)
    → (apply_fallback_reason r reason).last_instant_synced ≡ r.last_instant_synced
apply_fallback_reason-instant r reason = elim (Bool-cases (str_eq reason "")) [
  | inl h ↦ rw h refl
  | inr h ↦ rw h refl
]

module _ {S : Type 0} where
  -- whatever a commit comes to, a result that is no error is the one for a commit that succeeds
  committed-agrees :
      (x : S × Option String) (on_error : String → SyncResult) (r : SyncResult)
      → ((e : String) → (on_error e).status_code ≡ sync_status_error)
      → (committed x on_error r).1.status_code ≢ sync_status_error
      → r ≡ (committed x on_error r).1
  unfolding committed
  committed-agrees (s, none) on_error r fails h = refl
  committed-agrees (s, some e) on_error r fails h = absurd (h (fails e))

  committed-IsCoherent :
      (x : S × Option String) (on_error : String → SyncResult) (r : SyncResult)
      → ((e : String) → IsCoherent (on_error e))
      → IsCoherent r
      → IsCoherent (committed x on_error r).1
  unfolding committed
  committed-IsCoherent (s, none) on_error r c d = d
  committed-IsCoherent (s, some e) on_error r c d = c e

-- The two runs of a part of a sync, one dry and one not: the dry one leaves the storage alone, and
-- reports what the other does, unless that one ends in an error.
abbrev pub Agree : {S : Type 0} → (Bool → S × SyncResult) → S → Type 0
Agree part s =
    ((part true).0 ≡ s)
    × ((part false).1.status_code ≢ sync_status_error → (part true).1 ≡ (part false).1)

module _ {S : Type 0} (source : ConversionSource S) (target : ConversionTarget S)
    (format : TableFormat) (elapsed : ℤ) where
  sync_incrementally-Agree :
      (instant : ℤ) (s : S)
      → Agree (λ dry. sync_incrementally source target format elapsed dry instant s) s
  unfolding sync_incrementally
  sync_incrementally-Agree instant s = elim (Result-cases (source.get_changes_since instant s)) [
    | inl (e, p) ↦ rw (p, sync_incrementally) (refl, λ h. refl)
    | inr (changes, p) ↦ elim (Option-cases (get_last? changes.table_changes)) [
      | inl q ↦ rw (p, sync_incrementally, q) (refl, λ h. refl)
      | inr (last, q) ↦
          rw (p, sync_incrementally, q)
            (refl, committed-agrees (target.commit_changes changes s) _ _ (λ e. refl))
    ]
  ]

  sync_whole-Agree :
      (reason : String) (s : S)
      → Agree (λ dry. sync_whole source target format elapsed dry reason s) s
  unfolding sync_whole
  sync_whole-Agree reason s = elim (Result-cases (source.get_current_snapshot s)) [
    | inl (e, p) ↦ rw (p, sync_whole) (refl, λ h. refl)
    | inr (snap, p) ↦
        rw (p, sync_whole)
          (
            refl,
            committed-agrees (target.commit_snapshot snap s) _ _
                (λ e. apply_fallback_reason-status _ reason),
          )
  ]

  run_plan-Agree :
      (p : Plan) (s : S) → Agree (λ dry. run_plan source target format elapsed dry p s) s
  unfolding run_plan
  run_plan-Agree (incremental instant) s = sync_incrementally-Agree instant s
  run_plan-Agree (full reason) s = sync_whole-Agree reason s

  -- A dry run leaves the storage as it is, and what it reports is what the same sync would report
  -- if it were not dry, unless that one ends in an error.
  pub sync_to_target-Agree :
      (mode : String) (s : S)
      → Agree (λ dry. sync_to_target mode source target format elapsed dry s) s
  unfolding sync_to_target
  sync_to_target-Agree mode s = run_plan-Agree (plan mode source target s) s

  sync_incrementally-IsCoherent :
      (dry : Bool) (instant : ℤ) (s : S)
      → IsCoherent (sync_incrementally source target format elapsed dry instant s).1
  unfolding sync_incrementally
  sync_incrementally-IsCoherent dry instant s =
      elim (Result-cases (source.get_changes_since instant s)) [
        | inl (e, p) ↦ rw (p, sync_incrementally) (record { reasoned = refl; idle = λ n. cc })
        | inr (changes, p) ↦ elim (Option-cases (get_last? changes.table_changes)) [
          | inl q ↦
              rw (p, sync_incrementally, q)
                (record { reasoned = refl; idle = λ n. (refl, refl, refl) })
          | inr (last, q) ↦
              rw (p, sync_incrementally, q)
                (committed-IsCoherent
                  (unless_dry source target format elapsed dry (target.commit_changes changes) s) _
                  _ (λ e. record { reasoned = refl; idle = λ n. cc })
                  (record { reasoned = refl; idle = λ n. cc }))
        ]
      ]

  sync_whole-IsCoherent :
      (dry : Bool) (reason : String) (s : S)
      → IsCoherent (sync_whole source target format elapsed dry reason s).1
  unfolding sync_whole
  sync_whole-IsCoherent dry reason s = elim (Result-cases (source.get_current_snapshot s)) [
    | inl (e, p) ↦ rw (p, sync_whole) (apply_fallback_reason-IsCoherent _ reason refl refl refl)
    | inr (snap, p) ↦
        rw (p, sync_whole)
          (committed-IsCoherent
            (unless_dry source target format elapsed dry (target.commit_snapshot snap) s) _ _
            (λ e. apply_fallback_reason-IsCoherent _ reason refl refl refl)
            (apply_fallback_reason-IsCoherent _ reason refl refl refl))
  ]

  -- Every result, dry or not, gives a reason for falling back exactly when it says that it fell
  -- back, and reports nothing to do only as a success with neither an error nor a fallback.
  pub sync_to_target-IsCoherent :
      (mode : String) (dry : Bool) (s : S)
      → IsCoherent (sync_to_target mode source target format elapsed dry s).1
  unfolding sync_to_target run_plan
  sync_to_target-IsCoherent mode dry s = of_plan (plan mode source target s)
    where
      of_plan : (p : Plan) → IsCoherent (run_plan source target format elapsed dry p s).1
      of_plan (incremental instant) = sync_incrementally-IsCoherent dry instant s
      of_plan (full reason) = sync_whole-IsCoherent dry reason s
