-- ===== src/Conversion/Targets.antt =====
-- pkg/conversion/controller.go: the loop of a sync over its targets, and the catalogs after each.
-- Sources, targets and catalog clients are what the factories of the controller give.
use xtable_go.Prelude.{
  String, Bool, true, false, not, ◌&&◌, ◌||◌, List, [], ◌∷◌, Option, none, some, if◌then◌else◌, ◌≡◌,
  refl, arith, inl, inr, Bool-cases,
}
use xtable_go.Prelude.Int.{ℤ}
use xtable_go.Prelude.Results.{Result, ok, err}
use xtable_go.Prelude.Text.{str_eq, eq_iff, concat}
use xtable_go.Prelude.Dict
use xtable_go.Prelude.Dict.{Dict, lookup-insert}
use xtable_go.Prelude.Keyed.{is_some}
use xtable_go.Model.Value.{Value}
use xtable_go.Model.Schema.{TableFormat}
use xtable_go.Model.Table.{Table, Snapshot, is_partitioned}
use xtable_go.Spi.{
  ConversionSource, ConversionTarget, SyncResult, sync_status_success, new_error_sync_result,
}
use xtable_go.Catalog.Sync.{PartitionSyncOperations, sync_partitions, join_errors}
use xtable_go.Catalog.FromSnapshot.{partitions_from_snapshot}
use xtable_go.Conversion.{sync_to_target}

pub record CatalogConfig : Type 0 where
  pub type : String
  pub catalog_id : String
  pub database_name : String
  pub uri : String
  pub properties : Dict String
  pub max_partitions_per_request : ℤ

-- A client of a catalog; one that keeps partitions has the operations for them.
pub record SyncClient (S : Type 0) : Type 0 where
  pub create_or_update_table : Table → Snapshot → S → S × Option String
  pub partition_operations : Option (PartitionSyncOperations S)

-- What the controller is made of. `show` is the verb %v, `elapsed` the clock.
pub record Controller (S : Type 0) : Type 0 where
  pub create_source : TableFormat → Result (ConversionSource S)
  pub create_target : TableFormat → Result (ConversionTarget S)
  pub new_catalog_client : CatalogConfig → Result (SyncClient S)
  pub show : Value → String
  pub elapsed : ℤ

module _ {S : Type 0} (c : Controller S) where
  -- syncPartitions
  unfoldable pub sync_client_partitions :
      SyncClient S → CatalogConfig → Snapshot → S → S × Option String
  unfolding is_partitioned
  sync_client_partitions client cfg snapshot s = elim client.partition_operations [
    | none ↦ (s, none)
    | some ops ↦
        if is_partitioned snapshot.table
        then sync_partitions ops
            (record { database = cfg.database_name; table = snapshot.table.name })
            (partitions_from_snapshot c.show snapshot) cfg.max_partitions_per_request s
        else (s, none)
  ]

  catalog_error : String → CatalogConfig → String → String
  catalog_error label cfg e = concat (label ∷ cfg.type ∷ ": " ∷ e ∷ [])

  -- one catalog: the table first, and the partitions where that went through
  sync_catalog : Snapshot → CatalogConfig → S → S × Option String
  unfolding sync_client_partitions catalog_error
  sync_catalog snapshot cfg s = elim (c.new_catalog_client cfg) [
    | err e ↦ (s, some (catalog_error "failed to create catalog sync client for " cfg e))
    | ok client ↦
        let (s', created) = client.create_or_update_table snapshot.table snapshot s in
        elim created [
          | some e ↦ (s', some (catalog_error "failed to sync to catalog " cfg e))
          | none ↦
              let (s'', synced) = sync_client_partitions client cfg snapshot s' in
              (
                s'',
                elim synced [
                  | none ↦ none
                  | some e ↦ some (catalog_error "failed to sync partitions to catalog " cfg e)
                ],
              )
        ]
  ]

  sync_each_catalog : Snapshot → List CatalogConfig → S → S × List String
  unfolding sync_catalog
  sync_each_catalog snapshot [] s = (s, [])
  sync_each_catalog snapshot (cfg ∷ cfgs) s =
      let (s', e) = sync_catalog snapshot cfg s in
      let (s'', errs) = sync_each_catalog snapshot cfgs s' in
      (s'', elim e [ none ↦ errs | some m ↦ m ∷ errs ])

  unfoldable pub sync_target_to_catalogs : List CatalogConfig → TableFormat → S → S × Option String
  unfolding sync_each_catalog join_errors
  sync_target_to_catalogs catalogs format s = elim (c.create_source format) [
    | err e ↦ (s, some (concat ("failed to create target source for catalog sync: " ∷ e ∷ [])))
    | ok source ↦ elim (source.get_current_snapshot s) [
      | err e ↦ (s, some (concat ("failed to get target snapshot for catalog sync: " ∷ e ∷ [])))
      | ok snapshot ↦
          let (s', errs) = sync_each_catalog snapshot catalogs s in
          (
            s',
            elim (join_errors errs) [
              | none ↦ none
              | some e ↦ some (concat ("catalog sync errors: " ∷ e ∷ []))
            ],
          )
    ]
  ]

  append_catalog_error : String → String → String
  append_catalog_error base e =
      if str_eq base ""
      then concat ("catalog sync error: " ∷ e ∷ [])
      else concat (base ∷ "; catalog sync error: " ∷ e ∷ [])

  with_catalog_error : SyncResult → Option String → SyncResult
  unfolding append_catalog_error
  with_catalog_error r none = r
  with_catalog_error r (some e) = record {
    table_format = r.table_format;
    status_code = r.status_code;
    error = append_catalog_error r.error e;
    last_instant_synced = r.last_instant_synced;
    duration = r.duration;
    no_op = r.no_op;
    fell_back_to_full_sync = r.fell_back_to_full_sync;
    fallback_reason = r.fallback_reason;
  }

  is_empty : List CatalogConfig → Bool
  is_empty [] = true
  is_empty (x ∷ xs) = false

  module _ (source : ConversionSource S) (source_format : TableFormat) (mode : String)
      (catalogs : List CatalogConfig) (dry_run : Bool) where
    -- one target, and the catalogs where it has been written
    unfoldable pub sync_one : TableFormat → S → S × SyncResult
    unfolding sync_target_to_catalogs with_catalog_error is_empty
    sync_one format s = elim (c.create_target format) [
      | err e ↦ (s, new_error_sync_result format e c.elapsed)
      | ok target ↦
          let (s', r) = sync_to_target mode source target format c.elapsed dry_run s in
          if not dry_run && (str_eq r.status_code sync_status_success && not (is_empty catalogs))
          then (let (s'', e) = sync_target_to_catalogs catalogs format s' in
              (s'', with_catalog_error r e))
          else (s', r)
    ]

    -- the loop of Sync
    unfoldable pub sync_targets : List TableFormat → S → Dict SyncResult → S × Dict SyncResult
    unfolding sync_one
    sync_targets [] s results = (s, results)
    sync_targets (format ∷ formats) s results =
        let (s', r) = sync_one format s in
        if str_eq format source_format
        then sync_targets formats s results
        else sync_targets formats s' (Dict.insert format r results)

    -- a format is among those listed, and is not the source's
    abbrev pub is_target : TableFormat → List TableFormat → Bool
    is_target f [] = false
    is_target f (g ∷ gs) = (str_eq g f && not (str_eq g source_format)) || is_target f gs

    -- Each target that is listed and is not the source's own format has a result, whatever becomes
    -- of the others, and nothing else has a new one.
    pub sync_targets-is_target :
        (formats : List TableFormat) (s : S) (results : Dict SyncResult) (f : TableFormat)
        → is_some (Dict.lookup f (sync_targets formats s results).1)
          ≡ (is_target f formats || is_some (Dict.lookup f results))
    unfolding sync_targets
    sync_targets-is_target [] s results f = refl
    sync_targets-is_target (g ∷ gs) s results f = elim (Bool-cases (str_eq g source_format)) [
      | inl p ↦ rw (p, sync_targets) (ground (arith, p, sync_targets-is_target gs s results f))
      | inr p ↦
          let (s', r) = sync_one g s in
          rw (p, sync_targets)
            (ground (
              arith,
              p,
              sync_targets-is_target gs s' (Dict.insert g r results) f,
              lookup-insert g f r results,
              eq_iff g f,
            ))
    ]
