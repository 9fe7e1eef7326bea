-- ===== src/Config.antt =====
-- pkg/conversion/config.go and discovery.go, with what they use of pkg/catalog: the configuration of a
-- dataset, its validation, and the table behind an entry of a catalog. Calls of a catalog are
-- arguments.
pub mod Options
pub mod Resolution
pub mod Discovery
pub mod Sync
use xtable_go.Prelude.{
  String, Bool, List, [], ◌∷◌, Option, none, some, if◌then◌else◌, true, false, ◌++◌,
}
use xtable_go.Prelude.Int.{ℤ}
use xtable_go.Prelude.Results.{Result, ok, err, ◌>>=◌, map_err}
use xtable_go.Prelude.Text.{str_eq, concat}
use xtable_go.Prelude.Dict.{Dict}
use xtable_go.Model.Schema.{TableFormat}
use xtable_go.Catalog.Sync.{TableIdentifier, identifier_string}
use xtable_go.Catalog.Properties.{TableFilter, target_formats_from_properties}
use xtable_go.Conversion.Targets.{CatalogConfig}

abbrev pub sync_mode_incremental : String
sync_mode_incremental = "INCREMENTAL"

pub record AzureStorageConfig : Type 0 where
  pub azure_endpoint : String
  pub account_name : String
  pub account_key_env : String
  pub sas_token_env : String
  pub anonymous : Bool

pub record GcsStorageConfig : Type 0 where
  pub gcs_endpoint : String
  pub anonymous_access : Bool
  pub credentials_file : String

pub record StorageConfig : Type 0 where
  pub region : String
  pub endpoint : String
  pub use_path_style : Bool
  pub azure : Option AzureStorageConfig
  pub gcs : Option GcsStorageConfig

-- catalog.StorageCredentials
pub record StorageCredentials : Type 0 where
  pub access_key_id : String
  pub secret_access_key : String
  pub session_token : String
  pub vended_region : String
  pub expiration : ℤ

pub record SourceCatalogConfig : Type 0 where
  pub catalog : CatalogConfig
  pub table : String

pub record DatasetConfig : Type 0 where
  pub source_format : TableFormat
  pub target_formats : List TableFormat
  pub table_base_path : String
  pub table_data_path : String
  pub table_name : String
  pub namespace : String
  pub sync_mode : String
  pub storage : Option StorageConfig
  pub catalogs : List CatalogConfig
  pub source_catalog : Option SourceCatalogConfig
  pub vended_credentials : Option StorageCredentials

-- catalog.SourceTable
pub record SourceTable : Type 0 where
  pub source_name : String
  pub base_path : String
  pub data_path : String
  pub format : TableFormat
  pub properties : Dict String
  pub storage_credentials : Option StorageCredentials

-- catalog.ConversionSource; a listing is the sequence that it yields
pub record CatalogSource : Type 0 where
  pub get_source_table : TableIdentifier → Result SourceTable
  pub list_tables : String → TableFilter → List (Result TableIdentifier)

-- `if err := validate(); err != nil { return err }`
unless_invalid : {A : Type 0} → Option String → Result A → Result A
unless_invalid none r = r
unless_invalid (some e) r = err e

-- Config.Validate of pkg/catalog: the message, where there is one
unfoldable pub validate_catalog : CatalogConfig → Option String
validate_catalog c =
    if str_eq c.type ""
    then some "catalog type is required"
    else if str_eq c.database_name ""
    then some "databaseName is required"
    else none

unfoldable pub validate_source_catalog : SourceCatalogConfig → Option String
unfolding validate_catalog
validate_source_catalog s =
    if str_eq s.table ""
    then some "sourceCatalog.table is required"
    else if str_eq s.catalog.database_name ""
    then some "sourceCatalog.catalog.databaseName is required"
    else validate_catalog s.catalog

with_sync_mode : String → DatasetConfig → DatasetConfig
with_sync_mode mode c = record {
  source_format = c.source_format;
  target_formats = c.target_formats;
  table_base_path = c.table_base_path;
  table_data_path = c.table_data_path;
  table_name = c.table_name;
  namespace = c.namespace;
  sync_mode = mode;
  storage = c.storage;
  catalogs = c.catalogs;
  source_catalog = c.source_catalog;
  vended_credentials = c.vended_credentials;
}

is_nil : List TableFormat → Bool
is_nil [] = true
is_nil (f ∷ fs) = false

-- a dataset without a path: the reference to a catalog stands in for it
validate_reference : Option SourceCatalogConfig → Option String
unfolding validate_source_catalog
validate_reference none = some "either tableBasePath or sourceCatalog is required"
validate_reference (some s) = validate_source_catalog s

-- DatasetConfig.Validate: the configuration with its default, and the message where there is one
unfoldable pub validate : DatasetConfig → DatasetConfig × Option String
unfolding with_sync_mode is_nil validate_reference
validate c =
    if str_eq c.source_format ""
    then (c, some "sourceFormat is required")
    else if is_nil c.target_formats
    then (c, some "at least one targetFormat must be specified")
    else if str_eq c.table_base_path ""
    then (c, validate_reference c.source_catalog)
    else if str_eq c.sync_mode ""
    then (with_sync_mode sync_mode_incremental c, none)
    else (c, none)

-- `if x == "" { x = y }`
unfoldable pub or_else : String → String → String
or_else x y = if str_eq x "" then y else x

-- what an entry of a catalog fills in
unfoldable pub filled_from : SourceTable → DatasetConfig → DatasetConfig
unfolding or_else
filled_from resolved c = record {
  source_format = or_else c.source_format resolved.format;
  target_formats = c.target_formats;
  table_base_path = or_else c.table_base_path resolved.base_path;
  table_data_path = or_else c.table_data_path resolved.data_path;
  table_name = or_else c.table_name resolved.source_name;
  namespace = c.namespace;
  sync_mode = c.sync_mode;
  storage = c.storage;
  catalogs = c.catalogs;
  source_catalog = c.source_catalog;
  vended_credentials = resolved.storage_credentials;
}

identifier : SourceCatalogConfig → TableIdentifier
identifier s = record { database = s.catalog.database_name; table = s.table }

unresolved : TableIdentifier → String → String
unresolved id e = concat ("failed to resolve " ∷ identifier_string id ∷ " from catalog: " ∷ e ∷ [])

-- the dataset of a table that is marked for these formats
dataset_of : TableIdentifier → SourceTable → List TableFormat → DatasetConfig
unfolding or_else
dataset_of id resolved targets = record {
  source_format = resolved.format;
  target_formats = targets;
  table_base_path = resolved.base_path;
  table_data_path = resolved.data_path;
  table_name = or_else resolved.source_name id.table;
  namespace = id.database;
  sync_mode = "";
  storage = none;
  catalogs = [];
  source_catalog = none;
  vended_credentials = resolved.storage_credentials;
}

-- a table that is marked for no format is left out
picked : TableIdentifier → SourceTable → List TableFormat → List DatasetConfig
unfolding dataset_of
picked id resolved [] = []
picked id resolved (f ∷ fs) = dataset_of id resolved (f ∷ fs) ∷ []

-- the dataset of one entry, if it is marked
discover : CatalogSource → TableIdentifier → Result (List DatasetConfig)
unfolding unresolved picked
discover src id = map_err (unresolved id) (src.get_source_table id) >>= λ resolved.
    map_err (λ e. concat ("table " ∷ identifier_string id ∷ ": " ∷ e ∷ []))
      (target_formats_from_properties resolved.properties)
    >>= λ targets. ok (picked id resolved targets)

-- the loop over the listing
discover_all : String → CatalogSource → List (Result TableIdentifier) → Result (List DatasetConfig)
unfolding discover
discover_all database src [] = ok []
discover_all database src (listed ∷ later) =
    map_err (λ e. concat ("failed to list tables in catalog database " ∷ database ∷ ": " ∷ e ∷ []))
      listed
    >>= λ id.
        discover src id >>= λ here. discover_all database src later >>= λ there. ok (here ++ there)

module _ (new_source : CatalogConfig → Result CatalogSource) where
  -- the entry of a catalog, once its reference is valid
  unfoldable pub look_up : SourceCatalogConfig → Result SourceTable
  unfolding identifier unresolved
  look_up s =
      map_err (λ e. concat ("failed to create catalog conversion source: " ∷ e ∷ []))
        (new_source s.catalog)
      >>= λ src. map_err (unresolved (identifier s)) (src.get_source_table (identifier s))

  resolve_reference : Option SourceCatalogConfig → DatasetConfig → Result DatasetConfig
  unfolding look_up filled_from
  resolve_reference none c = ok c
  resolve_reference (some s) c = elim (validate_source_catalog s) [
    | some e ↦ err e
    | none ↦ look_up s >>= λ resolved. ok (filled_from resolved c)
  ]

  -- ResolveSourceCatalog
  unfoldable pub resolve_source_catalog : DatasetConfig → Result DatasetConfig
  unfolding resolve_reference
  resolve_source_catalog c = resolve_reference c.source_catalog c

  -- DiscoverDatasets
  unfoldable pub discover_datasets : Option CatalogConfig → Result (List DatasetConfig)
  unfolding discover_all unless_invalid
  discover_datasets none = err "a catalog configuration is required to discover tables"
  discover_datasets (some cfg) = unless_invalid (validate_catalog cfg) (
      map_err (λ e. concat ("failed to create catalog conversion source: " ∷ e ∷ []))
        (new_source cfg)
      >>= λ src.
          discover_all cfg.database_name src
            (src.list_tables cfg.database_name (record { require_conversion_markers = true })))
