-- ===== src/Examples/Watermarks.antt =====
-- The properties of a table that was synced at the epoch's first second, with a stale entry among
-- them. The codec knows the one text that it wrote.
use xtable_go.Prelude.{String, [], ◌∷◌, refl, arith}
use xtable_go.Prelude.Int.{pos}
use xtable_go.Prelude.Results.{ok, ok-injective}
use xtable_go.Prelude.Dict.{Dict}
use xtable_go.Model.SyncMetadata.{
  TableSyncMetadata, Codec, JavaSyncMetadataJson, read_sync_metadata, write_sync_metadata,
  java_json, instants_to_iso8601,
}
use xtable_go.Model.SyncMetadata.RoundTrip.{
  IsFaithfulAt, Survives, read_sync_metadata-write_sync_metadata,
}

abbrev synced : TableSyncMetadata
synced = record {
  last_instant_synced = pos 1000;
  instants_to_consider_for_next_sync = [];
  source_format = "HUDI";
  target_format = "DELTA";
  source_identifier = "7";
  custom_properties = [];
}

abbrev synced_json : JavaSyncMetadataJson
synced_json = record {
  last_instant = "1970-01-01T00:00:01Z";
  pending_instants = [];
  version = pos 0;
  source_table_format = "HUDI";
  source_id = "7";
}

abbrev pub one_text : Codec
one_text = record {
  marshal = λ m. ok "{}";
  unmarshal = λ s. ok synced_json;
  format_time = λ ms. "1970-01-01T00:00:01Z";
  parse_time = λ s. ok (record { nanosecond = 0; unix_milli = pos 1000 });
}

abbrev pub one_text-IsFaithfulAt : IsFaithfulAt one_text synced
unfolding java_json instants_to_iso8601
one_text-IsFaithfulAt = record {
  blob = "{}";
  written = refl;
  read_back = refl;
  parsed_back = λ t h. rw (← ok-injective h);
}

abbrev stale : Dict String
stale = ("xtable_source_format", "ICEBERG") ∷ ("owner", "etl") ∷ []

read_sync_metadata-write_sync_metadata_example :
    Survives synced (read_sync_metadata one_text (write_sync_metadata one_text stale synced))
read_sync_metadata-write_sync_metadata_example =
    read_sync_metadata-write_sync_metadata one_text synced one_text-IsFaithfulAt stale (omega arith)
      refl
