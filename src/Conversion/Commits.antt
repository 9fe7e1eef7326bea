-- ===== src/Conversion/Commits.antt =====
-- What has been committed where a sync of one target reports no error.
use xtable_go.Prelude.{
  String, false, Option, none, some, ◌≡◌, ◌≢◌, inl, inr, refl, Option-cases, get_last?,
}
use xtable_go.Prelude.Int.{ℤ}
use xtable_go.Prelude.Results.{ok, Result-cases}
use xtable_go.Model.Schema.{TableFormat}
use xtable_go.Model.Table.{TableChange, IncrementalTableChanges, Snapshot}
use xtable_go.Spi.{ConversionSource, ConversionTarget, SyncResult, sync_status_error}
use xtable_go.Conversion.{
  Plan, incremental, full, plan, committed, run_plan, sync_incrementally, sync_whole,
  sync_to_target,
}
use xtable_go.Conversion.Outcomes.{apply_fallback_reason-status, apply_fallback_reason-instant}

module _ {S : Type 0} (source : ConversionSource S) (target : ConversionTarget S) where
  -- What the target was given, from the storage `s` to the state and the result `out`: the changes
  -- since an instant, nothing because there are none, or a snapshot.
  pub data Delivered (s : S) (out : S × SyncResult) : Type 0 where
    changed :
        (instant : ℤ) (changes : IncrementalTableChanges) (last : TableChange)
        → source.get_changes_since instant s ≡ ok changes
        → get_last? changes.table_changes ≡ some last
        → target.commit_changes changes s ≡ (out.0, none)
        → out.1.last_instant_synced ≡ last.commit_time
        → Delivered s out
    idle :
        (instant : ℤ) (changes : IncrementalTableChanges)
        → source.get_changes_since instant s ≡ ok changes
        → get_last? changes.table_changes ≡ none
        → out.0 ≡ s
        → out.1.last_instant_synced ≡ instant
        → Delivered s out
    rebuilt :
        (snap : Snapshot)
        → source.get_current_snapshot s ≡ ok snap
        → target.commit_snapshot snap s ≡ (out.0, none)
        → out.1.last_instant_synced ≡ snap.table.latest_commit_time
        → Delivered s out

  changed-Delivered :
      (instant : ℤ) (changes : IncrementalTableChanges) (last : TableChange) (s : S)
      (x : S × Option String) (on_error : String → SyncResult) (r : SyncResult)
      → source.get_changes_since instant s ≡ ok changes
      → get_last? changes.table_changes ≡ some last
      → target.commit_changes changes s ≡ x
      → r.last_instant_synced ≡ last.commit_time
      → ((e : String) → (on_error e).status_code ≡ sync_status_error)
      → (committed x on_error r).1.status_code ≢ sync_status_error
      → Delivered s (committed x on_error r)
  unfolding committed
  changed-Delivered instant changes last s (s', none) on_error r p q c i fails h =
      changed instant changes last p q c i
  changed-Delivered instant changes last s (s', some e) on_error r p q c i fails h =
      absurd (h (fails e))

  rebuilt-Delivered :
      (snap : Snapshot) (s : S) (x : S × Option String) (on_error : String → SyncResult)
      (r : SyncResult)
      → source.get_current_snapshot s ≡ ok snap
      → target.commit_snapshot snap s ≡ x
      → r.last_instant_synced ≡ snap.table.latest_commit_time
      → ((e : String) → (on_error e).status_code ≡ sync_status_error)
      → (committed x on_error r).1.status_code ≢ sync_status_error
      → Delivered s (committed x on_error r)
  unfolding committed
  rebuilt-Delivered snap s (s', none) on_error r p c i fails h = rebuilt snap p c i
  rebuilt-Delivered snap s (s', some e) on_error r p c i fails h = absurd (h (fails e))

  module _ (format : TableFormat) (elapsed : ℤ) where
    sync_incrementally-Delivered :
        (instant : ℤ) (s : S)
        → (sync_incrementally source target format elapsed false instant s).1.status_code
          ≢ sync_status_error
        → Delivered s (sync_incrementally source target format elapsed false instant s)
    unfolding sync_incrementally
    sync_incrementally-Delivered instant s =
        elim (Result-cases (source.get_changes_since instant s)) [
          | inl (e, p) ↦ rw (p, sync_incrementally) (λ h. absurd (h refl))
          | inr (changes, p) ↦ elim (Option-cases (get_last? changes.table_changes)) [
            | inl q ↦ rw (p, sync_incrementally, q) (λ h. idle instant changes p q refl refl)
            | inr (last, q) ↦
                rw (p, sync_incrementally, q)
                  (changed-Delivered instant changes last s (target.commit_changes changes s) _ _ p
                    q refl refl (λ e. refl))
          ]
        ]

    sync_whole-Delivered :
        (reason : String) (s : S)
        → (sync_whole source target format elapsed false reason s).1.status_code ≢ sync_status_error
        → Delivered s (sync_whole source target format elapsed false reason s)
    unfolding sync_whole
    sync_whole-Delivered reason s = elim (Result-cases (source.get_current_snapshot s)) [
      | inl (e, p) ↦ rw (p, sync_whole) (λ h. absurd (h (apply_fallback_reason-status _ reason)))
      | inr (snap, p) ↦
          rw (p, sync_whole)
            (rebuilt-Delivered snap s (target.commit_snapshot snap s) _ _ p refl
              (apply_fallback_reason-instant _ reason) (λ e. apply_fallback_reason-status _ reason))
    ]

    -- Where a sync that is not dry does not report an error, the target took, without an error, the
    -- changes that the source has since an instant, and the instant reported is that of the last of
    -- them; or the source had none, and the storage is as it was; or the target took the source's
    -- snapshot, and the instant reported is that of the snapshot's table.
    pub sync_to_target-Delivered :
        (mode : String) (s : S)
        → (sync_to_target mode source target format elapsed false s).1.status_code
          ≢ sync_status_error
        → Delivered s (sync_to_target mode source target format elapsed false s)
    unfolding sync_to_target run_plan
    sync_to_target-Delivered mode s = of_plan (plan mode source target s)
      where
        of_plan :
            (p : Plan)
            → (run_plan source target format elapsed false p s).1.status_code ≢ sync_status_error
            → Delivered s (run_plan source target format elapsed false p s)
        of_plan (incremental instant) = sync_incrementally-Delivered instant s
        of_plan (full reason) = sync_whole-Delivered reason s
