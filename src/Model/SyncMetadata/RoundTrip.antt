-- ===== src/Model/SyncMetadata/RoundTrip.antt =====
-- What a sync writes into the properties of a table, the next sync reads.
use xtable_go.Prelude.{
  ◌≡◌, refl, ap, sym, subst, String, [], ◌∷◌, Option, none, some, false, inl, inr, arith,
  Option-cases,
}
use xtable_go.Prelude.Int.{ℤ}
use xtable_go.Prelude.Results.{ok, traverse, >>=-eq-ok, map_err, map_err-eq-ok, ok-injective}
use xtable_go.Prelude.Text.{str_eq, concat}
use xtable_go.Prelude.Decimal.{format_int}
use xtable_go.Prelude.Decimal.RoundTrip.{Int64, parse_int-format_int}
use xtable_go.Prelude.Dict
use xtable_go.Prelude.Dict.{Dict, lookup-insert}
use xtable_go.Model.SyncMetadata.{
  TableSyncMetadata, Codec, JavaSyncMetadataJson, Time, iso8601_to_instant, instant_to_iso8601,
  xtable_metadata_json, java_metadata, java_fields, parse_xtable_metadata_json, blob_metadata,
  usable_blob, flat_metadata, flat_fields, flat_at, read_sync_metadata, write_sync_metadata,
  with_source_format, flat_properties, java_json, key_xtable_metadata, key_last_instant_synced,
  key_source_format,
}

-- What encoding/json and the package time say of the metadata of one sync: its JSON can be written,
-- the text is read as what was written, and the formatted instant, if it can be parsed, is that
-- instant.
pub record IsFaithfulAt (c : Codec) (meta : TableSyncMetadata) : Type 0 where
  pub blob : String
  pub written : c.marshal (java_json c meta) ≡ ok blob
  pub read_back : c.unmarshal blob ≡ ok (java_json c meta)
  pub parsed_back :
      (t : Time)
      → c.parse_time (c.format_time meta.last_instant_synced) ≡ ok t
      → t.unix_milli ≡ meta.last_instant_synced

-- the last instant and the source format survive
abbrev pub Survives : TableSyncMetadata → Option TableSyncMetadata → Type 0
Survives meta none = ⊥
Survives meta (some m) =
    (m.last_instant_synced ≡ meta.last_instant_synced) × (m.source_format ≡ meta.source_format)

flat_properties-instant :
    (props : Dict String) (meta : TableSyncMetadata) (blob : String)
    → Dict.lookup key_last_instant_synced
        (Dict.insert key_xtable_metadata blob (flat_properties props meta))
      ≡ some (format_int meta.last_instant_synced)
unfolding flat_properties with_source_format
flat_properties-instant props meta blob = ground (
  arith,
  lookup-insert key_xtable_metadata key_last_instant_synced blob (flat_properties props meta),
  lookup-insert key_source_format key_last_instant_synced meta.source_format
      (Dict.insert key_last_instant_synced (format_int meta.last_instant_synced) props),
  lookup-insert key_last_instant_synced key_last_instant_synced
      (format_int meta.last_instant_synced) props,
)

flat_properties-format :
    (props : Dict String) (meta : TableSyncMetadata) (blob : String)
    → str_eq meta.source_format "" ≡ false
    → Dict.lookup key_source_format
        (Dict.insert key_xtable_metadata blob (flat_properties props meta))
      ≡ some meta.source_format
unfolding flat_properties with_source_format
flat_properties-format props meta blob there = ground (
  arith,
  lookup-insert key_xtable_metadata key_source_format blob (flat_properties props meta),
  lookup-insert key_source_format key_source_format meta.source_format
      (Dict.insert key_last_instant_synced (format_int meta.last_instant_synced) props),
)

flat_fields-Survives :
    (meta : TableSyncMetadata)
    → Int64 meta.last_instant_synced
    → Survives meta (flat_fields (format_int meta.last_instant_synced) (some meta.source_format))
unfolding flat_fields flat_at
flat_fields-Survives meta small =
    subst (λ found. Survives meta (flat_at found (some meta.source_format)))
      (sym (parse_int-format_int meta.last_instant_synced small)) (refl, refl)

flat_metadata-found :
    (props : Dict String) (numeral : String) (format : Option String)
    → Dict.lookup key_last_instant_synced props ≡ some numeral
    → Dict.lookup key_source_format props ≡ format
    → flat_metadata props ≡ flat_fields numeral format
unfolding flat_metadata
flat_metadata-found props numeral format at_instant at_format =
    rw (at_instant, flat_metadata) (ap (flat_fields numeral) at_format)

flat_metadata-Survives :
    (props : Dict String) (meta : TableSyncMetadata)
    → Int64 meta.last_instant_synced
    → Dict.lookup key_last_instant_synced props ≡ some (format_int meta.last_instant_synced)
    → Dict.lookup key_source_format props ≡ some meta.source_format
    → Survives meta (flat_metadata props)
flat_metadata-Survives props meta small at_instant at_format =
    rw
      (flat_metadata-found props (format_int meta.last_instant_synced) (some meta.source_format)
        at_instant at_format)
      (flat_fields-Survives meta small)

module _ (c : Codec) where
  read-either :
      (props : Dict String)
      → read_sync_metadata c props
        ≡ elim (blob_metadata c props) [ some m ↦ some m | none ↦ flat_metadata props ]
  unfolding read_sync_metadata blob_metadata flat_metadata Dict.lookup
  read-either [] = refl
  read-either (p ∷ props) = refl

  parse_xtable_metadata_json-read :
      (blob : String) (raw : JavaSyncMetadataJson)
      → c.unmarshal blob ≡ ok raw
      → parse_xtable_metadata_json c blob ≡ java_metadata c raw
  unfolding parse_xtable_metadata_json
  parse_xtable_metadata_json-read blob raw h = rw (h) refl

  usable_blob-parsed :
      (blob : String) (m : TableSyncMetadata)
      → usable_blob c blob ≡ some m
      → parse_xtable_metadata_json c blob ≡ ok m
  unfolding usable_blob
  usable_blob-parsed blob m h = ground (arith, h)

  blob_metadata-insert :
      (blob : String) (props : Dict String)
      → blob_metadata c (Dict.insert key_xtable_metadata blob props) ≡ usable_blob c blob
  unfolding blob_metadata
  blob_metadata-insert blob props =
      rw (lookup-insert key_xtable_metadata key_xtable_metadata blob props, blob_metadata) refl

  write_sync_metadata-written :
      (props : Dict String) (meta : TableSyncMetadata) (blob : String)
      → c.marshal (java_json c meta) ≡ ok blob
      → write_sync_metadata c props meta
        ≡ Dict.insert key_xtable_metadata blob (flat_properties props meta)
  unfolding xtable_metadata_json write_sync_metadata
  write_sync_metadata-written props meta blob h = rw (h, write_sync_metadata) refl

  module _ (meta : TableSyncMetadata) (faithful : IsFaithfulAt c meta) where
    iso8601_to_instant-instant_to_iso8601 :
        (z : ℤ)
        → iso8601_to_instant c (instant_to_iso8601 c meta.last_instant_synced) ≡ ok z
        → z ≡ meta.last_instant_synced
    unfolding iso8601_to_instant
    iso8601_to_instant-instant_to_iso8601 z h =
        let (t, parsed, went) =
          >>=-eq-ok
            (map_err
              (λ e. concat (
                "invalid ISO-8601 instant "
                ∷ c.format_time meta.last_instant_synced
                ∷ ": "
                ∷ e
                ∷ []))
              (c.parse_time (c.format_time meta.last_instant_synced)))
            _ h in
        let got =
          faithful.parsed_back t
            (map_err-eq-ok _ (c.parse_time (c.format_time meta.last_instant_synced)) parsed) in
        ground (arith, got, went)

    java_fields-Survives :
        (m : TableSyncMetadata) → java_fields c (java_json c meta) ≡ ok m → Survives meta (some m)
    unfolding java_fields java_json
    java_fields-Survives m h =
        let (z, parsed, went) =
          >>=-eq-ok
            (map_err (λ e. concat ("XTABLE_METADATA lastInstantSynced: " ∷ e ∷ []))
              (iso8601_to_instant c (instant_to_iso8601 c meta.last_instant_synced)))
            _ h in
        let (pending, _, made) =
          >>=-eq-ok
            (map_err (λ e. concat ("XTABLE_METADATA instantsToConsiderForNextSync: " ∷ e ∷ []))
              (traverse (iso8601_to_instant c) (java_json c meta).pending_instants))
            _ went in
        let same = iso8601_to_instant-instant_to_iso8601 z (
          map_err-eq-ok _ (iso8601_to_instant c (instant_to_iso8601 c meta.last_instant_synced))
            parsed) in
        rw (← ok-injective made) (same, refl)

    java_metadata-Survives :
        (m : TableSyncMetadata) → java_metadata c (java_json c meta) ≡ ok m → Survives meta (some m)
    unfolding java_metadata
    java_metadata-Survives m h = ground (arith, java_fields-Survives m)

    usable_blob-Survives :
        (m : TableSyncMetadata) → usable_blob c faithful.blob ≡ some m → Survives meta (some m)
    usable_blob-Survives m h = java_metadata-Survives m (
        rw (← parse_xtable_metadata_json-read faithful.blob (java_json c meta) faithful.read_back)
          (usable_blob-parsed faithful.blob m h))

    either-Survives :
        (props : Dict String)
        → blob_metadata c props ≡ usable_blob c faithful.blob
        → Survives meta (flat_metadata props)
        → Survives meta (read_sync_metadata c props)
    either-Survives props at_blob flat = elim (Option-cases (usable_blob c faithful.blob)) [
      | inl unusable ↦ rw (read-either props, at_blob, unusable) flat
      | inr (m, usable) ↦ rw (read-either props, at_blob, usable) (usable_blob-Survives m usable)
    ]

    -- Writing the metadata of a sync into any properties of a table and reading it back gives the same
    -- last instant and source format, whether or not the time format can be parsed, where the instant
    -- is an int64 and the source format is not empty, and encoding/json and time do what they say.
    pub read_sync_metadata-write_sync_metadata :
        (props : Dict String)
        → Int64 meta.last_instant_synced
        → str_eq meta.source_format "" ≡ false
        → Survives meta (read_sync_metadata c (write_sync_metadata c props meta))
    read_sync_metadata-write_sync_metadata props small there =
        let stored = Dict.insert key_xtable_metadata faithful.blob (flat_properties props meta) in
        rw (write_sync_metadata-written props meta faithful.blob faithful.written) (
          either-Survives stored (blob_metadata-insert faithful.blob (flat_properties props meta)) (
            flat_metadata-Survives stored meta small
              (flat_properties-instant props meta faithful.blob)
              (flat_properties-format props meta faithful.blob there)))
