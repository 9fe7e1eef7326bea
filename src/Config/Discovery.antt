-- ===== src/Config/Discovery.antt =====
-- pkg/conversion/discovery.go: what a scan of a catalog makes of its tables.
use xtable_go.Prelude.{
  Option, none, some, String, List, [], ◌∷◌, ◌++◌, Option, none, some, ◌≡◌, subst, ◌≢◌, All, true,
}
use xtable_go.Prelude.Results.{Result, ok, >>=-eq-ok, map_err-eq-ok, map_err, ok-injective}
use xtable_go.Prelude.Text.{concat}
use xtable_go.Model.Schema.{TableFormat}
use xtable_go.Catalog.Sync.{TableIdentifier, identifier_string}
use xtable_go.Catalog.Properties.{target_formats_from_properties}
use xtable_go.Catalog.Properties.Formats.{IsLocated, target_formats_from_properties-IsLocated}
use xtable_go.Config.{
  unless_invalid, DatasetConfig, SourceTable, CatalogSource, dataset_of, picked, discover,
  discover_all, discover_datasets, validate_catalog, unresolved,
}
use xtable_go.Conversion.Targets.{CatalogConfig}

-- a dataset with targets, in each of which the location of the data can be told
abbrev pub IsConvertible : DatasetConfig → Type 0
IsConvertible d = (d.target_formats ≢ []) × All IsLocated d.target_formats

-- the entry of a listing was had and read
unfoldable pub IsRead : CatalogSource → Result TableIdentifier → Type 0
IsRead src listed =
    (id : TableIdentifier) × (resolved : SourceTable) × (listed ≡ ok id)
    × (src.get_source_table id ≡ ok resolved)

All-append {ℓ} :
    {A : Type 0} (P : A → Type ℓ) (xs ys : List A) → All P xs → All P ys → All P (xs ++ ys)
All-append P [] ys h k = k
All-append P (x ∷ xs) ys (h, hs) k = (h, All-append P xs ys hs k)

unless_invalid-ok :
    {A : Type 0} (o : Option String) {r : Result A} {a : A} → unless_invalid o r ≡ ok a → r ≡ ok a
unfolding unless_invalid
unless_invalid-ok none h = h
unless_invalid-ok (some e) h = cc

picked-IsConvertible :
    (id : TableIdentifier) (resolved : SourceTable) (targets : List TableFormat)
    → All IsLocated targets
    → All IsConvertible (picked id resolved targets)
unfolding picked dataset_of
picked-IsConvertible id resolved [] h = tt
picked-IsConvertible id resolved (f ∷ fs) h = (((λ e. cc), h), tt)

discover-IsConvertible :
    (src : CatalogSource) (id : TableIdentifier) (ds : List DatasetConfig)
    → discover src id ≡ ok ds
    → ((resolved : SourceTable) × (src.get_source_table id ≡ ok resolved)) × All IsConvertible ds
unfolding discover
discover-IsConvertible src id ds h =
    let (resolved, read, went) =
      >>=-eq-ok (map_err (unresolved id) (src.get_source_table id)) _ h in
    let (targets, marked, made) =
      >>=-eq-ok
        (map_err (λ e. concat ("table " ∷ identifier_string id ∷ ": " ∷ e ∷ []))
          (target_formats_from_properties resolved.properties))
        _ went in
    (
      (resolved, map_err-eq-ok _ (src.get_source_table id) read),
      subst (All IsConvertible) (ok-injective made) (
          picked-IsConvertible id resolved targets (
            (target_formats_from_properties-IsLocated resolved.properties).0 targets
              (map_err-eq-ok _ (target_formats_from_properties resolved.properties) marked))),
    )

discover_all-IsConvertible :
    (database : String) (src : CatalogSource) (listing : List (Result TableIdentifier))
    (ds : List DatasetConfig)
    → discover_all database src listing ≡ ok ds
    → All (IsRead src) listing × All IsConvertible ds
unfolding discover_all IsRead
discover_all-IsConvertible database src [] ds h =
    (tt, subst (All IsConvertible) (ok-injective h) tt)
discover_all-IsConvertible database src (listed ∷ later) ds h =
    let (id, had, h1) =
      >>=-eq-ok
        (map_err
          (λ e. concat ("failed to list tables in catalog database " ∷ database ∷ ": " ∷ e ∷ []))
          listed)
        _ h in
    let (here, read, h2) = >>=-eq-ok (discover src id) _ h1 in
    let (there, read_later, made) = >>=-eq-ok (discover_all database src later) _ h2 in
    let ((resolved, got), convertible) = discover-IsConvertible src id here read in
    let (read_all, convertible_all) =
      discover_all-IsConvertible database src later there read_later in
    (
      ((id, resolved, map_err-eq-ok _ listed had, got), read_all),
      subst (All IsConvertible) (ok-injective made)
          (All-append IsConvertible here there convertible convertible_all),
    )

-- Where a scan of a catalog goes through, its source could be had, every entry of the whole listing
-- was had and read, and each dataset has targets, in each of which the location of the data can be
-- told: an entry that cannot be listed or read is never left out silently.
pub discover_datasets-IsConvertible :
    (new_source : CatalogConfig → Result CatalogSource) (cfg : CatalogConfig)
    (ds : List DatasetConfig)
    → discover_datasets new_source (some cfg) ≡ ok ds
    → (src : CatalogSource) × (new_source cfg ≡ ok src)
      × All
          (IsRead src)
          (src.list_tables cfg.database_name (record { require_conversion_markers = true }))
      × All IsConvertible ds
unfolding discover_datasets
discover_datasets-IsConvertible new_source cfg ds h =
    let (src, had, went) =
      >>=-eq-ok
        (map_err (λ e. concat ("failed to create catalog conversion source: " ∷ e ∷ []))
          (new_source cfg))
        _ (unless_invalid-ok (validate_catalog cfg) h) in
    let (read, convertible) =
      discover_all-IsConvertible cfg.database_name src
        (src.list_tables cfg.database_name (record { require_conversion_markers = true })) ds
        went in
    (src, map_err-eq-ok _ (new_source cfg) had, read, convertible)
