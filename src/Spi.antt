-- ===== src/Spi.antt =====
-- pkg/spi: what a table format does as a source and as a target of a sync, and what a sync reports.
-- `S` is the state of the storage; a call may fail, and then says why.
use xtable_go.Prelude.{String, Bool, false, Option, if◌then◌else◌}
use xtable_go.Prelude.Int.{ℤ, pos}
use xtable_go.Prelude.Results.{Result}
use xtable_go.Prelude.Text.{str_eq}
use xtable_go.Model.Schema.{TableFormat}
pub use xtable_go.Model.SyncMetadata.{TableSyncMetadata}
use xtable_go.Model.Table.{IncrementalTableChanges, Snapshot}

pub record ConversionSource (S : Type 0) : Type 0 where
  pub is_incremental_sync_safe_from : ℤ → S → Result Bool
  pub get_changes_since : ℤ → S → Result IncrementalTableChanges
  pub get_current_snapshot : S → Result Snapshot

pub record ConversionTarget (S : Type 0) : Type 0 where
  pub get_table_metadata : S → Option TableSyncMetadata × Option String
  pub commit_changes : IncrementalTableChanges → S → S × Option String
  pub commit_snapshot : Snapshot → S → S × Option String

abbrev pub sync_mode_full : String
sync_mode_full = "FULL"

abbrev pub sync_status_success : String
sync_status_success = "SUCCESS"

abbrev pub sync_status_error : String
sync_status_error = "ERROR"

pub record SyncResult : Type 0 where
  pub table_format : TableFormat
  pub status_code : String
  pub error : String
  pub last_instant_synced : ℤ
  pub duration : ℤ
  pub no_op : Bool
  pub fell_back_to_full_sync : Bool
  pub fallback_reason : String

pub data SyncVerdict : Type 0 where
  success failed no_op : SyncVerdict

unfoldable pub verdict : SyncResult → SyncVerdict
verdict r =
    if str_eq r.status_code sync_status_error then failed else if r.no_op then no_op else success

abbrev pub new_success_sync_result : TableFormat → ℤ → ℤ → SyncResult
new_success_sync_result format instant duration = record {
  table_format = format;
  status_code = sync_status_success;
  error = "";
  last_instant_synced = instant;
  duration = duration;
  no_op = false;
  fell_back_to_full_sync = false;
  fallback_reason = "";
}

abbrev pub new_error_sync_result : TableFormat → String → ℤ → SyncResult
new_error_sync_result format message duration = record {
  table_format = format;
  status_code = sync_status_error;
  error = message;
  last_instant_synced = pos 0;
  duration = duration;
  no_op = false;
  fell_back_to_full_sync = false;
  fallback_reason = "";
}
