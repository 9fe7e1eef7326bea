-- ===== src/Conversion/DryRun.antt =====
-- A dry run over all targets.
use xtable_go.Prelude.{true, String, List, [], ◌∷◌, ◌≡◌, refl, ◌∙◌, inl, inr, Bool-cases}
use xtable_go.Prelude.Results.{Result-cases}
use xtable_go.Prelude.Text.{str_eq}
use xtable_go.Prelude.Dict
use xtable_go.Prelude.Dict.{Dict}
use xtable_go.Model.Schema.{TableFormat}
use xtable_go.Spi.{ConversionSource, SyncResult}
use xtable_go.Conversion.Targets.{CatalogConfig, Controller, sync_one, sync_targets}
use xtable_go.Conversion.Outcomes.{sync_to_target-Agree}

module _ {S : Type 0} (c : Controller S) (source : ConversionSource S) (source_format : TableFormat)
    (mode : String) (catalogs : List CatalogConfig) where
  sync_one-dry_run :
      (format : TableFormat) (s : S)
      → (sync_one c source source_format mode catalogs true format s).0 ≡ s
  unfolding sync_one
  sync_one-dry_run format s = elim (Result-cases (c.create_target format)) [
    | inl (e, p) ↦ rw (p, sync_one) refl
    | inr (target, p) ↦
        rw (p, sync_one) (sync_to_target-Agree source target format c.elapsed mode s).0
  ]

  -- A dry run leaves the storage as it is, catalogs included, whatever the targets are.
  pub sync_targets-dry_run :
      (formats : List TableFormat) (s : S) (results : Dict SyncResult)
      → (sync_targets c source source_format mode catalogs true formats s results).0 ≡ s
  unfolding sync_targets
  sync_targets-dry_run [] s results = refl
  sync_targets-dry_run (g ∷ gs) s results = elim (Bool-cases (str_eq g source_format)) [
    | inl p ↦ rw (p, sync_targets) (sync_targets-dry_run gs s results)
    | inr p ↦
        let (s', r) = sync_one c source source_format mode catalogs true g s in
        rw (p, sync_targets)
          (sync_targets-dry_run gs s' (Dict.insert g r results) ∙ sync_one-dry_run g s)
  ]
