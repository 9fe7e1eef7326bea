-- ===== src/Config/Options.antt =====
-- pkg/conversion/config.go with the options of pkg/io: what a configuration sets on the storage. The
-- HTTP client that tests put in is left out.
pub mod Precedence
use xtable_go.Prelude.{
  String, Bool, not, List, [], ◌∷◌, ◌++◌, Option, none, some, if◌then◌else◌, false, true,
}
use xtable_go.Prelude.Text.{str_eq}
use xtable_go.Config.{
  DatasetConfig, StorageConfig, AzureStorageConfig, GcsStorageConfig, StorageCredentials,
}

pub record S3Options : Type 0 where
  pub s3_region : String
  pub s3_endpoint : String
  pub s3_use_path_style : Bool
  pub s3_credentials : Option StorageCredentials

pub record AzureOptions : Type 0 where
  pub blob_endpoint : String
  pub blob_account_name : String
  pub blob_account_key : String
  pub blob_account_key_env : String
  pub blob_sas_token : String
  pub blob_sas_token_env : String
  pub blob_anonymous : Bool

pub record GcsOptions : Type 0 where
  pub bucket_endpoint : String
  pub bucket_anonymous_access : Bool
  pub bucket_credentials_file : String

-- io.Options
pub record Options : Type 0 where
  pub s3 : S3Options
  pub azure_options : AzureOptions
  pub gcs_options : GcsOptions

-- `var opts Options`
abbrev pub no_options : Options
no_options = record {
  s3 = record {
    s3_region = "";
    s3_endpoint = "";
    s3_use_path_style = false;
    s3_credentials = none;
  };
  azure_options = record {
    blob_endpoint = "";
    blob_account_name = "";
    blob_account_key = "";
    blob_account_key_env = "";
    blob_sas_token = "";
    blob_sas_token_env = "";
    blob_anonymous = false;
  };
  gcs_options = record {
    bucket_endpoint = "";
    bucket_anonymous_access = false;
    bucket_credentials_file = "";
  };
}

-- a setting on one of the three backends
abbrev pub on_s3 : (S3Options → S3Options) → Options → Options
on_s3 set o = record { s3 = set o.s3; azure_options = o.azure_options; gcs_options = o.gcs_options }

abbrev pub on_azure : (AzureOptions → AzureOptions) → Options → Options
on_azure set o = record {
  s3 = o.s3;
  azure_options = set o.azure_options;
  gcs_options = o.gcs_options;
}

abbrev pub on_gcs : (GcsOptions → GcsOptions) → Options → Options
on_gcs set o = record {
  s3 = o.s3;
  azure_options = o.azure_options;
  gcs_options = set o.gcs_options;
}

abbrev pub set_when : Bool → (Options → Options) → List (Options → Options)
set_when test set = if test then set ∷ [] else []

abbrev pub is_set : String → Bool
is_set s = not (str_eq s "")

azure_option_funcs : AzureStorageConfig → List (Options → Options)
azure_option_funcs c =
    set_when (is_set c.azure_endpoint)
      (on_azure (λ o. record o { blob_endpoint = c.azure_endpoint }))
    ++ set_when (is_set c.account_name)
        (on_azure (λ o. record o { blob_account_name = c.account_name }))
    ++ set_when (is_set c.account_key_env)
        (on_azure (λ o. record o { blob_account_key_env = c.account_key_env }))
    ++ set_when (is_set c.sas_token_env)
        (on_azure (λ o. record o { blob_sas_token_env = c.sas_token_env }))
    ++ set_when c.anonymous (on_azure (λ o. record o { blob_anonymous = true }))

gcs_option_funcs : GcsStorageConfig → List (Options → Options)
gcs_option_funcs c =
    set_when (is_set c.gcs_endpoint) (on_gcs (λ o. record o { bucket_endpoint = c.gcs_endpoint }))
    ++ set_when c.anonymous_access (on_gcs (λ o. record o { bucket_anonymous_access = true }))
    ++ set_when (is_set c.credentials_file)
        (on_gcs (λ o. record o { bucket_credentials_file = c.credentials_file }))

s3_option_funcs : StorageConfig → List (Options → Options)
s3_option_funcs c =
    set_when (is_set c.region) (on_s3 (λ o. record o { s3_region = c.region }))
    ++ set_when (is_set c.endpoint) (on_s3 (λ o. record o { s3_endpoint = c.endpoint }))
    ++ set_when c.use_path_style (on_s3 (λ o. record o { s3_use_path_style = true }))

-- StorageConfig.ToOptionFuncs
unfoldable pub to_option_funcs : Option StorageConfig → List (Options → Options)
unfolding s3_option_funcs azure_option_funcs gcs_option_funcs
to_option_funcs none = []
to_option_funcs (some c) =
    s3_option_funcs c
    ++ (elim c.azure [ none ↦ [] | some azure ↦ azure_option_funcs azure ])
    ++ (elim c.gcs [ none ↦ [] | some gcs ↦ gcs_option_funcs gcs ])

-- the credentials that a catalog has vended, and their region where they have one
with_vended : StorageCredentials → Options → Options
with_vended creds = on_s3 (λ o. record {
  s3_region = if is_set creds.vended_region then creds.vended_region else o.s3_region;
  s3_endpoint = o.s3_endpoint;
  s3_use_path_style = o.s3_use_path_style;
  s3_credentials = some creds;
})

-- DatasetConfig.StorageOptionFuncs
unfoldable pub storage_option_funcs : DatasetConfig → List (Options → Options)
unfolding with_vended
storage_option_funcs c = elim c.vended_credentials [
  | none ↦ to_option_funcs c.storage
  | some creds ↦ to_option_funcs c.storage ++ with_vended creds ∷ []
]

-- the loop of NewStorageForPathWithOptions
unfoldable pub apply_options : List (Options → Options) → Options → Options
apply_options [] o = o
apply_options (set ∷ later) o = apply_options later (set o)
