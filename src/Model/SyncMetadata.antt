-- ===== src/Model/SyncMetadata.antt =====
-- pkg/model/metadata.go: what a target keeps of its last sync, as properties of the table. Two shapes
-- are written side by side: flat keys, and the JSON text of Apache XTable. encoding/json and the
-- package time are arguments.
pub mod RoundTrip
use xtable_go.Prelude.{
  ℕ, ◌%◌, ◌==◌, ◌^◌, String, Bool, List, [], ◌∷◌, Option, none, some, if◌then◌else◌, not,
}
use xtable_go.Prelude.Int.{ℤ, pos, ltb_ℤ}
use xtable_go.Prelude.Results.{Result, ok, err, ◌>>=◌, map_err, traverse}
use xtable_go.Prelude.Text.{str_eq, concat}
use xtable_go.Prelude.Decimal.{format_int, parse_int}
use xtable_go.Prelude.Dict
use xtable_go.Prelude.Dict.{Dict}
use xtable_go.Model.Schema.{TableFormat}

pub record TableSyncMetadata : Type 0 where
  pub last_instant_synced : ℤ
  pub instants_to_consider_for_next_sync : List ℤ
  pub source_format : TableFormat
  pub target_format : TableFormat
  pub source_identifier : String
  pub custom_properties : Dict String

abbrev pub key_last_instant_synced : String
key_last_instant_synced = "xtable_last_instant_synced"

abbrev pub key_source_format : String
key_source_format = "xtable_source_format"

abbrev pub key_xtable_metadata : String
key_xtable_metadata = "XTABLE_METADATA"

abbrev xtable_metadata_version : ℤ
xtable_metadata_version = pos 0

pub record JavaSyncMetadataJson : Type 0 where
  pub last_instant : String
  pub pending_instants : List String
  pub version : ℤ
  pub source_table_format : String
  pub source_id : String

-- what the source asks of a time.Time
pub record Time : Type 0 where
  pub nanosecond : ℕ
  pub unix_milli : ℤ

-- json.Marshal and json.Unmarshal at JavaSyncMetadataJson, and time.UnixMilli(ms).UTC().Format and
-- time.Parse with the layout time.RFC3339Nano
pub record Codec : Type 0 where
  pub marshal : JavaSyncMetadataJson → Result String
  pub unmarshal : String → Result JavaSyncMetadataJson
  pub format_time : ℤ → String
  pub parse_time : String → Result Time

flat_at : Option ℤ → Option TableFormat → Option TableSyncMetadata
flat_at none source_format = none
flat_at (some last_instant) source_format = some (record {
  last_instant_synced = last_instant;
  instants_to_consider_for_next_sync = [];
  source_format = elim source_format [ none ↦ "" | some f ↦ f ];
  target_format = "";
  source_identifier = "";
  custom_properties = [];
})

flat_fields : String → Option TableFormat → Option TableSyncMetadata
unfolding flat_at
flat_fields numeral source_format = flat_at (parse_int numeral) source_format

-- the metadata in the flat keys
flat_metadata : Dict String → Option TableSyncMetadata
unfolding flat_fields
flat_metadata props = elim (Dict.lookup key_last_instant_synced props) [
  | none ↦ none
  | some numeral ↦ flat_fields numeral (Dict.lookup key_source_format props)
]

with_source_format : TableFormat → Dict String → Dict String
with_source_format format props =
    if not (str_eq format "") then Dict.insert key_source_format format props else props

flat_properties : Dict String → TableSyncMetadata → Dict String
unfolding with_source_format
flat_properties props meta =
    with_source_format meta.source_format
      (Dict.insert key_last_instant_synced (format_int meta.last_instant_synced) props)

module _ (c : Codec) where
  abbrev pub instant_to_iso8601 : ℤ → String
  instant_to_iso8601 epoch_millis = c.format_time epoch_millis

  unfoldable pub iso8601_to_instant : String → Result ℤ
  iso8601_to_instant s =
      map_err (λ e. concat ("invalid ISO-8601 instant " ∷ s ∷ ": " ∷ e ∷ [])) (c.parse_time s)
      >>= λ t.
          if t.nanosecond % 10 ^ 6 == 0
          then ok t.unix_milli
          else err (
              concat (
                "instant " ∷ s
                ∷ " has sub-millisecond precision polytable cannot represent losslessly" ∷ []))

  unfoldable pub instants_to_iso8601 : List ℤ → List String
  instants_to_iso8601 [] = []
  instants_to_iso8601 (ms ∷ later) = instant_to_iso8601 ms ∷ instants_to_iso8601 later

  unfoldable pub java_json : TableSyncMetadata → JavaSyncMetadataJson
  unfolding instants_to_iso8601
  java_json meta = record {
    last_instant = instant_to_iso8601 meta.last_instant_synced;
    pending_instants = instants_to_iso8601 meta.instants_to_consider_for_next_sync;
    version = xtable_metadata_version;
    source_table_format = meta.source_format;
    source_id = meta.source_identifier;
  }

  xtable_metadata_json : TableSyncMetadata → Result String
  unfolding java_json
  xtable_metadata_json meta =
      map_err (λ e. concat ("failed to marshal XTABLE_METADATA: " ∷ e ∷ []))
        (c.marshal (java_json meta))

  java_fields : JavaSyncMetadataJson → Result TableSyncMetadata
  java_fields raw =
      map_err (λ e. concat ("XTABLE_METADATA lastInstantSynced: " ∷ e ∷ []))
        (iso8601_to_instant raw.last_instant)
      >>= λ last_instant.
          map_err (λ e. concat ("XTABLE_METADATA instantsToConsiderForNextSync: " ∷ e ∷ []))
            (traverse iso8601_to_instant raw.pending_instants)
          >>= λ pending. ok (record {
            last_instant_synced = last_instant;
            instants_to_consider_for_next_sync = pending;
            source_format = raw.source_table_format;
            target_format = "";
            source_identifier = raw.source_id;
            custom_properties = [];
          })

  java_metadata : JavaSyncMetadataJson → Result TableSyncMetadata
  unfolding java_fields
  java_metadata raw =
      if str_eq raw.last_instant ""
      then err "XTABLE_METADATA is missing required field lastInstantSynced"
      else if ltb_ℤ xtable_metadata_version raw.version
      then err (
          concat (
            "XTABLE_METADATA version "
            ∷ format_int raw.version
            ∷ " is newer than the supported version 0"
            ∷ []))
      else java_fields raw

  parse_xtable_metadata_json : String → Result TableSyncMetadata
  unfolding java_metadata
  parse_xtable_metadata_json blob =
      map_err (λ e. concat ("invalid XTABLE_METADATA JSON: " ∷ e ∷ [])) (c.unmarshal blob)
      >>= java_metadata

  usable_blob : String → Option TableSyncMetadata
  unfolding parse_xtable_metadata_json
  usable_blob blob =
      if str_eq blob ""
      then none
      else elim (parse_xtable_metadata_json blob) [ err _ ↦ none | ok meta ↦ some meta ]

  -- the metadata in the JSON text, where there is a usable one
  blob_metadata : Dict String → Option TableSyncMetadata
  unfolding usable_blob
  blob_metadata props = elim (Dict.lookup key_xtable_metadata props) [
    | none ↦ none
    | some blob ↦ usable_blob blob
  ]

  -- ReadSyncMetadataFromProperties
  unfoldable pub read_sync_metadata : Dict String → Option TableSyncMetadata
  unfolding blob_metadata flat_metadata
  read_sync_metadata [] = none
  read_sync_metadata (p ∷ props) = elim (blob_metadata (p ∷ props)) [
    | some meta ↦ some meta
    | none ↦ flat_metadata (p ∷ props)
  ]

  -- WriteSyncMetadataProperties
  unfoldable pub write_sync_metadata : Dict String → TableSyncMetadata → Dict String
  unfolding flat_properties xtable_metadata_json
  write_sync_metadata props meta = elim (xtable_metadata_json meta) [
    | err _ ↦ flat_properties props meta
    | ok blob ↦ Dict.insert key_xtable_metadata blob (flat_properties props meta)
  ]
