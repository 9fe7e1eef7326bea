-- ===== src/Examples/Syncs.antt =====
-- A sync of a source with one change at instant 9 to a target whose state is the last instant that
-- it took.
use xtable_go.Prelude.{List, ◌||◌, true, false, [], ◌∷◌, none, some, ◌≡◌, ◌≢◌, refl, if◌then◌else◌}
use xtable_go.Prelude.Int.{ℤ, pos, ltb_ℤ}
use xtable_go.Prelude.Text.{concat}
use xtable_go.Prelude.Decimal.{format_int}
use xtable_go.Prelude.Results.{ok, err}
use xtable_go.Model.Schema.{new_record_schema, nil, delta_format}
use xtable_go.Model.Table.{Table, TableChange, plain_file}
use xtable_go.Spi.{
  SyncResult, ConversionSource, ConversionTarget, sync_status_error, verdict, success, SyncVerdict,
}
use xtable_go.Conversion.{sync_to_target, plan, run_plan, sync_incrementally, sync_whole, committed}
use xtable_go.Conversion.Targets.{
  CatalogConfig, Controller, sync_targets, is_target, sync_targets-is_target,
}
use xtable_go.Conversion.DryRun.{sync_targets-dry_run}
use xtable_go.Prelude.Text.{str_eq}
use xtable_go.Prelude.Dict
use xtable_go.Prelude.Keyed.{is_some}
use xtable_go.Conversion.Outcomes.{
  Agree, IsCoherent, sync_to_target-Agree, sync_to_target-IsCoherent,
}
use xtable_go.Conversion.Commits.{Delivered, sync_to_target-Delivered}

abbrev pub table_at : ℤ → Table
table_at time = record {
  name = "t";
  table_format = delta_format;
  read_schema = new_record_schema "t" nil false;
  layout_strategy = "";
  base_path = "mem://t";
  data_path = "";
  partitioning_fields = [];
  latest_commit_time = time;
  latest_metadata_path = "";
}

abbrev change_at_9 : TableChange
change_at_9 = record {
  files_diff = record { files_added = plain_file "a" 1 ∷ []; files_removed = [] };
  table_as_of_change = table_at (pos 9);
  source_identifier = "1";
  commit_time = pos 9;
}

abbrev pub source_at_9 : ConversionSource ℤ
source_at_9 = record {
  is_incremental_sync_safe_from = λ from s. ok (ltb_ℤ (pos 3) from);
  get_changes_since = λ from s. ok (record {
    table_changes = if ltb_ℤ from (pos 9) then change_at_9 ∷ [] else [];
    current_table = table_at (pos 9);
  });
  get_current_snapshot = λ s. ok (record {
    table = table_at (pos 9);
    partitioned_data_files = [];
    data_files = plain_file "a" 1 ∷ [];
    source_identifier = "1";
  });
}

abbrev pub last_instant : ConversionTarget ℤ
last_instant = record {
  get_table_metadata = λ s. (
    some (record {
      last_instant_synced = s;
      instants_to_consider_for_next_sync = [];
      source_format = delta_format;
      target_format = "ICEBERG";
      source_identifier = "";
      custom_properties = [];
    }),
    none,
  );
  commit_changes = λ changes s. (changes.current_table.latest_commit_time, none);
  commit_snapshot = λ snap s. (snap.table.latest_commit_time, none);
}

sync_to_target-Agree_example :
    Agree
      (λ dry. sync_to_target "INCREMENTAL" source_at_9 last_instant "ICEBERG" (pos 1) dry (pos 5))
      (pos 5)
sync_to_target-Agree_example =
    sync_to_target-Agree source_at_9 last_instant "ICEBERG" (pos 1) "INCREMENTAL" (pos 5)

-- from instant 2, which the source calls unsafe
sync_to_target-IsCoherent_example :
    IsCoherent
      (sync_to_target "INCREMENTAL" source_at_9 last_instant "ICEBERG" (pos 1) false (pos 2)).1
sync_to_target-IsCoherent_example =
    sync_to_target-IsCoherent source_at_9 last_instant "ICEBERG" (pos 1) "INCREMENTAL" false (pos 2)

no_error :
    (sync_to_target "INCREMENTAL" source_at_9 last_instant "ICEBERG"
      (pos 1)
      false
      (pos 5)).1.status_code
    ≢ sync_status_error
unfolding sync_to_target plan run_plan sync_incrementally sync_whole committed
no_error h = cc

sync_to_target-Delivered_example :
    Delivered source_at_9 last_instant
      (pos 5)
      (sync_to_target "INCREMENTAL" source_at_9 last_instant "ICEBERG" (pos 1) false (pos 5))
sync_to_target-Delivered_example =
    sync_to_target-Delivered source_at_9 last_instant "ICEBERG" (pos 1) "INCREMENTAL" (pos 5)
      no_error

verdicts :
    (verdict
        (sync_to_target "INCREMENTAL" source_at_9 last_instant "ICEBERG" (pos 1) false (pos 5)).1
      ≡ success)
    × (verdict
          (sync_to_target "INCREMENTAL" source_at_9 last_instant "ICEBERG" (pos 1) false (pos 9)).1
        ≡ SyncVerdict.no_op)
    × ((sync_to_target "INCREMENTAL" source_at_9 last_instant "ICEBERG"
          (pos 1)
          false
          (pos 2)).1.fell_back_to_full_sync
        ≡ true)
unfolding sync_to_target plan run_plan sync_incrementally sync_whole committed verdict concat
    format_int
verdicts = (refl, refl, refl)

-- a controller whose one target is this one, and whose catalogs cannot be reached
abbrev controller : Controller ℤ
controller = record {
  create_source = λ f. err "no source";
  create_target = λ f. if str_eq f "ICEBERG" then ok last_instant else err "no target";
  new_catalog_client = λ cfg. err "unreachable";
  show = λ v. "";
  elapsed = pos 1;
}

abbrev one_catalog : List CatalogConfig
one_catalog =
    record {
      type = "GLUE";
      catalog_id = "";
      database_name = "d";
      uri = "";
      properties = [];
      max_partitions_per_request = pos 0;
    }
    ∷ []

sync_targets-is_target_example :
    is_some (
      Dict.lookup "HUDI"
        (sync_targets controller source_at_9 "DELTA" "FULL" one_catalog false
          ("HUDI" ∷ "DELTA" ∷ "ICEBERG" ∷ [])
          (pos 5)
          []).1)
    ≡ (is_target controller source_at_9 "DELTA" "FULL" one_catalog false "HUDI"
          ("HUDI" ∷ "DELTA" ∷ "ICEBERG" ∷ [])
        || is_some (Dict.lookup {V = SyncResult} "HUDI" []))
sync_targets-is_target_example =
    sync_targets-is_target controller source_at_9 "DELTA" "FULL" one_catalog false
      ("HUDI" ∷ "DELTA" ∷ "ICEBERG" ∷ []) (pos 5) [] "HUDI"

sync_targets-dry_run_example :
    (sync_targets controller source_at_9 "DELTA" "FULL" one_catalog true
      ("HUDI" ∷ "ICEBERG" ∷ [])
      (pos 5)
      []).0
    ≡ pos 5
sync_targets-dry_run_example =
    sync_targets-dry_run controller source_at_9 "DELTA" "FULL" one_catalog ("HUDI" ∷ "ICEBERG" ∷ [])
      (pos 5) []
