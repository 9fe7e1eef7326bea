-- ===== src/Conversion.antt =====
-- pkg/conversion/controller.go: one sync of a source to one target.
pub mod Outcomes
pub mod Commits
pub mod Targets
pub mod DryRun
use xtable_go.Prelude.{
  String, Bool, true, false, not, ◌&&◌, Option, none, some, if◌then◌else◌, List, [], ◌∷◌, get_last?,
}
use xtable_go.Prelude.Int.{ℤ, pos, ltb_ℤ}
use xtable_go.Prelude.Results.{Result, ok, err}
use xtable_go.Prelude.Text.{str_eq, concat}
use xtable_go.Prelude.Decimal.{format_int}
use xtable_go.Model.Schema.{TableFormat}
use xtable_go.Model.Table.{Table, TableChange, IncrementalTableChanges, Snapshot}
use xtable_go.Spi.{
  TableSyncMetadata, ConversionSource, ConversionTarget, SyncResult, sync_mode_full,
  new_success_sync_result, new_error_sync_result,
}

abbrev pub apply_fallback_reason : SyncResult → String → SyncResult
apply_fallback_reason r reason = if str_eq reason "" then r else record {
  table_format = r.table_format;
  status_code = r.status_code;
  error = r.error;
  last_instant_synced = r.last_instant_synced;
  duration = r.duration;
  no_op = r.no_op;
  fell_back_to_full_sync = true;
  fallback_reason = reason;
}

-- How a sync is to be done: from an instant, or whole, with the reason where that is a fallback.
pub data Plan : Type 0 where
  incremental : ℤ → Plan
  full : String → Plan

unverified : ℤ → String → String
unverified instant e =
    concat (
      "could not verify incremental sync safety from instant " ∷ format_int instant ∷ ": " ∷ e ∷ [])

unsafe : ℤ → String
unsafe instant = concat (
    "incremental sync from instant "
    ∷ format_int instant
    ∷ " is not safe: the source no longer retains history back to that point"
    ∷ [])

module _ {S : Type 0} (mode : String) (source : ConversionSource S)
    (target : ConversionTarget S) where
  unfoldable pub plan : S → Plan
  unfolding unverified unsafe
  plan s = elim (target.get_table_metadata s).0 [
    | none ↦ full ""
    | some meta ↦
        if ltb_ℤ (pos 0) meta.last_instant_synced && not (str_eq mode sync_mode_full)
        then (elim (source.is_incremental_sync_safe_from meta.last_instant_synced s) [
          | err e ↦ full (unverified meta.last_instant_synced e)
          | ok false ↦ full (unsafe meta.last_instant_synced)
          | ok true ↦ incremental meta.last_instant_synced
        ])
        else full ""
  ]

-- the result of a commit that was tried
unfoldable pub committed :
    {S : Type 0} → S × Option String → (String → SyncResult) → SyncResult → S × SyncResult
committed (s, none) on_error on_success = (s, on_success)
committed (s, some e) on_error on_success = (s, on_error e)

-- The sync of one target, in a time that the clock tells.
module _ {S : Type 0} (source : ConversionSource S) (target : ConversionTarget S)
    (format : TableFormat) (elapsed : ℤ) (dry_run : Bool) where
  -- a commit, which a dry run leaves out
  abbrev pub unless_dry : (S → S × Option String) → S → S × Option String
  unless_dry commit s = if dry_run then (s, none) else commit s

  succeed : ℤ → SyncResult
  succeed instant = new_success_sync_result format instant elapsed

  fail : String → String → SyncResult
  fail label e = new_error_sync_result format (concat (label ∷ e ∷ [])) elapsed

  nothing_new : ℤ → SyncResult
  nothing_new instant = record {
    table_format = format;
    status_code = (new_success_sync_result format instant elapsed).status_code;
    error = "";
    last_instant_synced = instant;
    duration = elapsed;
    no_op = true;
    fell_back_to_full_sync = false;
    fallback_reason = "";
  }

  unfoldable pub sync_incrementally : ℤ → S → S × SyncResult
  unfolding succeed fail nothing_new committed
  sync_incrementally instant s = elim (source.get_changes_since instant s) [
    | err e ↦ (s, fail "failed to extract changes: " e)
    | ok changes ↦ elim (get_last? changes.table_changes) [
      | none ↦ (s, nothing_new instant)
      | some last ↦
          committed (unless_dry (target.commit_changes changes) s)
            (fail "failed to commit changes: ") (succeed last.commit_time)
    ]
  ]

  unfoldable pub sync_whole : String → S → S × SyncResult
  unfolding succeed fail committed
  sync_whole reason s = elim (source.get_current_snapshot s) [
    | err e ↦ (s, apply_fallback_reason (fail "failed to extract current snapshot: " e) reason)
    | ok snapshot ↦
        committed (unless_dry (target.commit_snapshot snapshot) s)
          (λ e. apply_fallback_reason (fail "failed to commit snapshot: " e) reason)
          (apply_fallback_reason (succeed snapshot.table.latest_commit_time) reason)
  ]

  unfoldable pub run_plan : Plan → S → S × SyncResult
  unfolding sync_incrementally sync_whole
  run_plan (incremental instant) s = sync_incrementally instant s
  run_plan (full reason) s = sync_whole reason s

-- syncToTarget
unfoldable pub sync_to_target :
    {S : Type 0}
    → String
    → ConversionSource S
    → ConversionTarget S
    → TableFormat
    → ℤ
    → Bool
    → S
    → S × SyncResult
unfolding plan run_plan
sync_to_target mode source target format elapsed dry_run s =
    run_plan source target format elapsed dry_run (plan mode source target s) s
