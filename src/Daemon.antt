-- ===== src/Daemon.antt =====
-- pkg/daemon/server.go and types.go: the HTTP service. `S` is the state of the storage; encoding/json,
-- fresh ids and the clock are arguments. A background conversion is a task that has yet to end.
pub mod Steps
pub mod Jobs
use xtable_go.Prelude.{
  ℕ, String, Bool, not, List, [], ◌∷◌, Option, none, some, if◌then◌else◌, false, length,
}
use xtable_go.Prelude.Int.{ℤ}
use xtable_go.Prelude.Results.{Result, ok, err, ◌>>=◌, map_err, traverse}
use xtable_go.Prelude.Text.{str_eq, concat}
use xtable_go.Prelude.Dict
use xtable_go.Prelude.Dict.{Dict}
use xtable_go.Io.{cut_prefix}
use xtable_go.Model.Schema.{Schema, TableFormat, PartitionField, field_name}
use xtable_go.Model.Table.{Table, Snapshot}
use xtable_go.Spi.{SyncResult}
use xtable_go.Conversion.Targets.{Controller}
use xtable_go.Config.{DatasetConfig, StorageConfig}
use xtable_go.Config.Options.{Options, to_option_funcs}
use xtable_go.Config.Sync.{sync}
use xtable_go.Delta.Schema.{nil_dereference}

pub record ConvertTableRequest : Type 0 where
  pub source_format : TableFormat
  pub target_formats : List TableFormat
  pub table_name : String
  pub table_base_path : String
  pub table_data_path : String
  pub namespace : String
  pub sync_mode : String
  pub configurations : Dict String
  pub storage : Option StorageConfig

pub record ConvertTableResponse : Type 0 where
  pub conversion_id : String
  pub status : String
  pub submitted_at : ℤ
  pub finished_at : Option ℤ
  pub results : Dict SyncResult
  pub error : String

pub record InspectTableRequest : Type 0 where
  pub format : TableFormat
  pub inspected_path : String
  pub inspected_storage : Option StorageConfig

pub record InspectTableResponse : Type 0 where
  pub inspected_name : String
  pub inspected_format : TableFormat
  pub inspected_base_path : String
  pub latest_commit_time : ℤ
  pub active_data_files_count : ℕ
  pub partition_fields : List String
  pub inspected_schema : Schema

abbrev pub running : String
running = "RUNNING"

abbrev pub completed : String
completed = "COMPLETED"

abbrev pub failed : String
failed = "FAILED"

-- A handler that panics sends no reply.
pub data Body : Type 0 where
  panicked : String → Body
  message : String → Body
  conversion : ConvertTableResponse → Body
  inspection : InspectTableResponse → Body

pub record Reply : Type 0 where
  pub status_code : ℕ
  pub body : Body

abbrev pub http_error : String → ℕ → Reply
http_error text code = record { status_code = code; body = message text }

-- what a handler reads of a request
pub record HttpRequest : Type 0 where
  pub method : String
  pub path : String
  pub prefer : String
  pub content : String

-- the jobs that were submitted, and the tasks that have not ended
pub record Server : Type 0 where
  pub conversions : Dict ConvertTableResponse
  pub tasks : Dict DatasetConfig

-- A table as formats.NewSource reads it.
pub record TableReader (S : Type 0) : Type 0 where
  pub get_current_table : S → Result Table
  pub get_current_snapshot : S → Result Snapshot

-- What the server is made of: the storage it was given, if any, or else that of
-- io.NewStorageForPathWithOptions, each as the controller on it; and json.Decoder at the two requests.
pub record Service (S : Type 0) : Type 0 where
  pub fixed_storage : Option (Controller S)
  pub new_storage : String → List (Options → Options) → Result (Controller S)
  pub new_source : Controller S → TableFormat → String → Result (TableReader S)
  pub decode_convert : String → Result ConvertTableRequest
  pub decode_inspect : String → Result InspectTableRequest

dataset_config : ConvertTableRequest → DatasetConfig
dataset_config req = record {
  source_format = req.source_format;
  target_formats = req.target_formats;
  table_base_path = req.table_base_path;
  table_data_path = req.table_data_path;
  table_name = req.table_name;
  namespace = req.namespace;
  sync_mode = req.sync_mode;
  storage = req.storage;
  catalogs = [];
  source_catalog = none;
  vended_credentials = none;
}

-- the entry of a job that has just been submitted
unfoldable pub submitted_response : String → ℤ → ConvertTableResponse
submitted_response id now = record {
  conversion_id = id;
  status = running;
  submitted_at = now;
  finished_at = none;
  results = [];
  error = "";
}

-- the entry of a job whose task has ended
unfoldable pub ended_response :
    ℤ → Result (Dict SyncResult) → ConvertTableResponse → ConvertTableResponse
ended_response now (ok results) r = record {
  conversion_id = r.conversion_id;
  status = completed;
  submitted_at = r.submitted_at;
  finished_at = some now;
  results = results;
  error = r.error;
}
ended_response now (err e) r = record {
  conversion_id = r.conversion_id;
  status = failed;
  submitted_at = r.submitted_at;
  finished_at = some now;
  results = r.results;
  error = e;
}

-- the part of the handler that submits a job
unfoldable pub submit : String → ℤ → DatasetConfig → Server → Server
unfolding submitted_response
submit id now cfg server = record {
  conversions = Dict.insert id (submitted_response id now) server.conversions;
  tasks = Dict.insert id cfg server.tasks;
}

-- the end of a background task, with what the conversion came to: recordFailure, or the entry is
-- completed; an entry that is not there stays out
unfoldable pub record_outcome : String → ℤ → Result (Dict SyncResult) → Server → Server
unfolding ended_response
record_outcome id now outcome server = record {
  conversions = elim (Dict.lookup id server.conversions) [
    | none ↦ server.conversions
    | some r ↦ Dict.insert id (ended_response now outcome r) server.conversions
  ];
  tasks = Dict.remove id server.tasks;
}

-- strings.TrimPrefix of the path that the handler is registered at
unfoldable pub job_of : String → String
job_of path = elim (cut_prefix "/v1/conversion/table/" path) [ none ↦ path | some rest ↦ rest ]

-- the reply for an entry, which is cloned; a value needs no step for that
unfoldable pub status_reply : Option ConvertTableResponse → Reply
status_reply none = http_error "conversion job not found" 404
status_reply (some job) = record {
  status_code = if str_eq job.status running then 202 else 200;
  body = conversion job;
}

-- handleGetConversionStatus
unfoldable pub handle_get_conversion_status : HttpRequest → Server → Reply
unfolding job_of status_reply
handle_get_conversion_status r server =
    let id = job_of r.path in
    if str_eq id ""
    then http_error "missing conversionId" 400
    else status_reply (Dict.lookup id server.conversions)

module _ {S : Type 0} (v : Service S) where
  get_storage : String → Option StorageConfig → Result (Controller S)
  get_storage path config = elim v.fixed_storage [
    | some c ↦ ok c
    | none ↦ v.new_storage path (to_option_funcs config)
  ]

  -- the work of a background task
  unfoldable pub convert : DatasetConfig → S → S × Result (Dict SyncResult)
  unfolding get_storage
  convert cfg s = elim (get_storage cfg.table_base_path cfg.storage) [
    | err e ↦ (s, err e)
    | ok c ↦ sync c false cfg s
  ]

  -- the reply to a conversion that was not put in the background
  converted : String → ℤ → Result (Dict SyncResult) → Reply
  converted id now (ok results) = record {
    status_code = 200;
    body = conversion (record {
      conversion_id = id;
      status = completed;
      submitted_at = now;
      finished_at = some now;
      results = results;
      error = "";
    });
  }
  converted id now (err e) = record {
    status_code = 500;
    body = conversion (record {
      conversion_id = id;
      status = failed;
      submitted_at = now;
      finished_at = some now;
      results = [];
      error = e;
    });
  }

  -- a conversion that the caller waits for
  convert_now : String → ℤ → DatasetConfig → S → S × Reply
  unfolding get_storage converted
  convert_now id now cfg s = elim (get_storage cfg.table_base_path cfg.storage) [
    | err e ↦ (s, http_error (concat ("failed to init storage: " ∷ e ∷ [])) 500)
    | ok c ↦ let (s', outcome) = sync c false cfg s in (s', converted id now outcome)
  ]

  unfoldable pub handle_convert_table : HttpRequest → String → ℤ → S → Server → S × Server × Reply
  unfolding dataset_config submit convert_now submitted_response
  handle_convert_table r id now s server =
      if not (str_eq r.method "POST")
      then (s, server, http_error "Method not allowed" 405)
      else elim (v.decode_convert r.content) [
        | err e ↦ (s, server, http_error (concat ("invalid JSON payload: " ∷ e ∷ [])) 400)
        | ok req ↦
            let (s', reply) = convert_now id now (dataset_config req) s in
            if str_eq r.prefer "respond-async"
            then (
              s,
              submit id now (dataset_config req) server,
              record { status_code = 202; body = conversion (submitted_response id now) },
            )
            else (s', server, reply)
      ]

  partition_name : PartitionField → Result String
  partition_name pf = elim pf.source_field [
    | none ↦ err nil_dereference
    | some f ↦ ok (field_name f)
  ]

  -- the table that a reader finds, as the reply has it
  inspected : TableReader S → S → Reply
  unfolding partition_name
  inspected source s = elim (source.get_current_table s) [
    | err e ↦ http_error (concat ("failed to read table metadata: " ∷ e ∷ [])) 500
    | ok table ↦ elim (source.get_current_snapshot s) [
      | err e ↦ http_error (concat ("failed to read table snapshot: " ∷ e ∷ [])) 500
      | ok snapshot ↦ elim (traverse partition_name table.partitioning_fields) [
        | err e ↦ record { status_code = 0; body = panicked e }
        | ok fields ↦ record {
          status_code = 200;
          body = inspection (record {
            inspected_name = table.name;
            inspected_format = table.table_format;
            inspected_base_path = table.base_path;
            latest_commit_time = table.latest_commit_time;
            active_data_files_count = length snapshot.data_files;
            partition_fields = fields;
            inspected_schema = table.read_schema;
          });
        }
      ]
    ]
  ]

  unfoldable pub handle_inspect_table : HttpRequest → S → Reply
  unfolding get_storage inspected
  handle_inspect_table r s =
      if not (str_eq r.method "POST")
      then http_error "Method not allowed" 405
      else elim (v.decode_inspect r.content) [
        | err e ↦ http_error (concat ("invalid payload: " ∷ e ∷ [])) 400
        | ok req ↦ elim (get_storage req.inspected_path req.inspected_storage) [
          | err e ↦ http_error (concat ("storage error: " ∷ e ∷ [])) 500
          | ok c ↦ elim (v.new_source c req.format req.inspected_path) [
            | err e ↦ http_error (concat ("failed to create format source: " ∷ e ∷ [])) 400
            | ok source ↦ inspected source s
          ]
        ]
      ]
