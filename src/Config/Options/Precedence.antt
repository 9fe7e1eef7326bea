-- ===== src/Config/Options/Precedence.antt =====
-- pkg/conversion/config.go: the options that a storage is made with are those of the configuration.
use xtable_go.Prelude.{List, [], Option, none, some, if◌then◌else◌}
use xtable_go.Prelude.Text.{str_eq}
use xtable_go.Config.{StorageConfig, AzureStorageConfig, GcsStorageConfig, StorageCredentials}
use xtable_go.Config.Options.{
  Options, S3Options, AzureOptions, GcsOptions, no_options, azure_option_funcs, gcs_option_funcs,
}

-- the options of a configuration's parts, where a text that is not set is empty
abbrev pub s3_of : StorageConfig → S3Options
s3_of c = record {
  s3_region = c.region;
  s3_endpoint = c.endpoint;
  s3_use_path_style = c.use_path_style;
  s3_credentials = none;
}

abbrev pub azure_of : Option AzureStorageConfig → AzureOptions
azure_of none = no_options.azure_options
azure_of (some c) = record {
  blob_endpoint = c.azure_endpoint;
  blob_account_name = c.account_name;
  blob_account_key = "";
  blob_account_key_env = c.account_key_env;
  blob_sas_token = "";
  blob_sas_token_env = c.sas_token_env;
  blob_anonymous = c.anonymous;
}

abbrev pub gcs_of : Option GcsStorageConfig → GcsOptions
gcs_of none = no_options.gcs_options
gcs_of (some c) = record {
  bucket_endpoint = c.gcs_endpoint;
  bucket_anonymous_access = c.anonymous_access;
  bucket_credentials_file = c.credentials_file;
}

azure_funcs : Option AzureStorageConfig → List (Options → Options)
azure_funcs o = elim o [ none ↦ [] | some azure ↦ azure_option_funcs azure ]

gcs_funcs : Option GcsStorageConfig → List (Options → Options)
gcs_funcs o = elim o [ none ↦ [] | some gcs ↦ gcs_option_funcs gcs ]

-- the options that a configuration stands for
abbrev pub options_of : Option StorageConfig → Options
options_of none = no_options
options_of (some c) = record {
  s3 = s3_of c;
  azure_options = azure_of c.azure;
  gcs_options = gcs_of c.gcs;
}

-- the vended credentials and their region come before those of the configuration
abbrev pub vended_over : Option StorageCredentials → Options → Options
vended_over none o = o
vended_over (some creds) o = record {
  s3 = record {
    s3_region = if str_eq creds.vended_region "" then o.s3.s3_region else creds.vended_region;
    s3_endpoint = o.s3.s3_endpoint;
    s3_use_path_style = o.s3.s3_use_path_style;
    s3_credentials = some creds;
  };
  azure_options = o.azure_options;
  gcs_options = o.gcs_options;
}
