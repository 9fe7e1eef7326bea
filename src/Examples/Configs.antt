-- ===== src/Examples/Configs.antt =====
-- A dataset that is known by its entry in a catalog.
use xtable_go.Prelude.{List, [], ◌∷◌, none, some, ◌≡◌, ◌≢◌, refl, All, true}
use xtable_go.Prelude.Results.{Result, ok, err}
use xtable_go.Prelude.Int.{ℤ, pos}
use xtable_go.Prelude.Dict
use xtable_go.Prelude.Dict.{Dict}
use xtable_go.Model.Schema.{equal_fold}
use xtable_go.Prelude.Splitting.{trim_space}
use xtable_go.Catalog.Properties.{target_formats_from_properties}
use xtable_go.Conversion.Targets.{CatalogConfig, Controller}
use xtable_go.Config.{
  DatasetConfig, SourceCatalogConfig, SourceTable, CatalogSource, StorageCredentials, validate,
  resolve_source_catalog, look_up, discover_datasets, validate_catalog,
}
use xtable_go.Config.Resolution.{IsReference, IsFilled, resolve_source_catalog-IsUsable}
use xtable_go.Config.Discovery.{IsConvertible, IsRead, discover_datasets-IsConvertible}
use xtable_go.Examples.Syncs.{source_at_9, last_instant}

abbrev glue : CatalogConfig
glue = record {
  type = "GLUE";
  catalog_id = "";
  database_name = "sales";
  uri = "";
  properties = [];
  max_partitions_per_request = pos 0;
}

abbrev orders : SourceCatalogConfig
orders = record { catalog = glue; table = "orders" }

abbrev keys : StorageCredentials
keys = record {
  access_key_id = "id";
  secret_access_key = "secret";
  session_token = "";
  vended_region = "eu-west-1";
  expiration = pos 0;
}

abbrev entry : SourceTable
entry = record {
  source_name = "orders";
  base_path = "s3://lake/orders";
  data_path = "s3://lake/orders";
  format = "DELTA";
  properties = ("polytable_target_formats", "ICEBERG") ∷ [];
  storage_credentials = some keys;
}

abbrev dataset : DatasetConfig
dataset = record {
  source_format = "";
  target_formats = "ICEBERG" ∷ [];
  table_base_path = "";
  table_data_path = "";
  table_name = "renamed";
  namespace = "";
  sync_mode = "";
  storage = some (record {
    region = "us-west-2";
    endpoint = "";
    use_path_style = true;
    azure = none;
    gcs = none;
  });
  catalogs = [];
  source_catalog = some orders;
  vended_credentials = some keys;
}

abbrev one_table : CatalogConfig → Result CatalogSource
one_table cfg = ok (record {
  get_source_table = λ id. ok entry;
  list_tables = λ database filter. ok (record { database = "sales"; table = "orders" }) ∷ [];
})

orders-IsReference : IsReference orders
orders-IsReference = ((λ e. cc), (λ e. cc), (λ e. cc))

found : look_up one_table orders ≡ ok entry
unfolding look_up
found = refl

resolve_source_catalog-IsUsable_example :
    (c' : DatasetConfig) × (resolve_source_catalog one_table dataset ≡ ok c')
    × IsFilled "" "DELTA" c'.source_format
    × IsFilled "" "s3://lake/orders" c'.table_base_path
    × IsFilled "" "s3://lake/orders" c'.table_data_path
    × IsFilled "renamed" "orders" c'.table_name
    × (c'.table_base_path ≢ "")
    × ((validate c').1 ≡ none)
resolve_source_catalog-IsUsable_example =
    resolve_source_catalog-IsUsable one_table dataset orders entry refl orders-IsReference found
      (λ e. cc) (λ e. cc) (λ e. cc)

scan : (ds : List DatasetConfig) × (discover_datasets one_table (some glue) ≡ ok ds)
unfolding discover_datasets target_formats_from_properties Dict.lookup equal_fold trim_space
    validate_catalog
scan = (_, refl)

discover_datasets-IsConvertible_example :
    (src : CatalogSource) × (one_table glue ≡ ok src)
    × All (IsRead src) (src.list_tables "sales" (record { require_conversion_markers = true }))
    × All IsConvertible scan.0
discover_datasets-IsConvertible_example =
    discover_datasets-IsConvertible one_table glue scan.0 scan.1

abbrev one_source : Controller ℤ
one_source = record {
  create_source = λ format. ok source_at_9;
  create_target = λ format. ok last_instant;
  new_catalog_client = λ cfg. err "no catalog";
  show = λ v. "";
  elapsed = pos 1;
}

-- a dataset at a path
abbrev dataset_at_path : DatasetConfig
dataset_at_path = record {
  source_format = "DELTA";
  target_formats = "ICEBERG" ∷ [];
  table_base_path = "s3://lake/orders";
  table_data_path = "";
  table_name = "orders";
  namespace = "";
  sync_mode = "";
  storage = none;
  catalogs = [];
  source_catalog = none;
  vended_credentials = none;
}
