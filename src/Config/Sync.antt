-- ===== src/Config/Sync.antt =====
-- pkg/conversion/controller.go: a sync as a whole, from the validation of its configuration on.
use xtable_go.Prelude.{
  String, Bool, ◌&&◌, ◌||◌, not, true, false, List, [], ◌∷◌, Option, none, some, ◌≡◌,
}
use xtable_go.Prelude.Results.{Result, ok, err}
use xtable_go.Prelude.Text.{str_eq, concat}
use xtable_go.Prelude.Dict
use xtable_go.Prelude.Dict.{Dict}
use xtable_go.Prelude.Keyed.{is_some}
use xtable_go.Model.Schema.{TableFormat}
use xtable_go.Spi.{SyncResult, ConversionSource}
use xtable_go.Conversion.Targets.{Controller, sync_targets}
use xtable_go.Config.{DatasetConfig, validate}

module _ {S : Type 0} (c : Controller S) (dry_run : Bool) where
  -- the loop over the targets, once there is a source
  sync_from : DatasetConfig → Result (ConversionSource S) → S → S × Result (Dict SyncResult)
  sync_from cfg (err e) s = (s, err (concat ("failed to create source converter: " ∷ e ∷ [])))
  sync_from cfg (ok source) s =
      let (s', results) =
        sync_targets c source cfg.source_format cfg.sync_mode cfg.catalogs dry_run
          cfg.target_formats s [] in
      (s', ok results)

  -- Controller.Sync, of a configuration with what validation made of it
  sync_validated : DatasetConfig × Option String → S → S × Result (Dict SyncResult)
  unfolding sync_from
  sync_validated (cfg, some e) s = (s, err (concat ("invalid dataset configuration: " ∷ e ∷ [])))
  sync_validated (cfg, none) s = sync_from cfg (c.create_source cfg.source_format) s

  unfoldable pub sync : DatasetConfig → S → S × Result (Dict SyncResult)
  unfolding sync_validated
  sync cfg s = sync_validated (validate cfg) s

-- a format is among those listed, and is not the source's
abbrev pub is_wanted : TableFormat → TableFormat → List TableFormat → Bool
is_wanted source_format f [] = false
is_wanted source_format f (g ∷ gs) =
    (str_eq g f && not (str_eq g source_format)) || is_wanted source_format f gs

-- what a sync comes to: an error and a storage left alone, or a result for each target and for
-- nothing else, and a storage left alone where the run is dry
abbrev pub HasSynced :
    {S : Type 0} → Bool → TableFormat → List TableFormat → S → S × Result (Dict SyncResult) → Type 0
HasSynced dry_run source_format targets s (s', err e) = s' ≡ s
HasSynced dry_run source_format targets s (s', ok results) =
    ((f : TableFormat) → is_some (Dict.lookup f results) ≡ is_wanted source_format f targets)
    × (dry_run ≡ true → s' ≡ s)
