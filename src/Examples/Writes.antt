-- ===== src/Examples/Writes.antt =====
-- A Delta table that is written: its schema, and a first commit. The storage is the list of the
-- versions that were written.
use xtable_go.Prelude.{String, [], none, ◌≡◌, ◌⊎◌, refl, sym, ◌∙◌, false, true, arith}
use xtable_go.Prelude.Results.{ok, ◌>>=◌}
use xtable_go.Io.{trim_scheme, cut_prefix, has_prefix}
use xtable_go.Io.Relativize.{
  relativize_path, canonical_host_for_compare, contains_text, suffix_under,
}
use xtable_go.Io.Under.{IsRelative, StandsUnder, relativize_path-StandsUnder}
use xtable_go.Model.Value.{Value}
use xtable_go.Model.Schema.{
  Schema, schema, schema_ref, field, no_field, field_ref, Fields, nil, cons, new_primitive_schema,
  new_record_schema,
}
use xtable_go.Delta.Schema.{
  DeltaFields, to_delta_struct, schema_to_delta, parse_delta_type, schema_to_delta_json,
  delta_json_to_schema,
}
use xtable_go.Delta.Schema.Canonical.{reread, reread_fields, IsWhole, AreWhole}
use xtable_go.Delta.Schema.Rereads.{
  parse_delta_type-schema_to_delta, delta_json_to_schema-schema_to_delta_json,
}
use xtable_go.Model.Types.{type_list}

-- an id, and a list of enumerated tags
abbrev event_fields : Fields
event_fields =
    cons (field "id" "" (schema_ref (new_primitive_schema "UUID" false)) none Value.null) (
      cons
        (field "tags" ""
          (schema_ref (
            schema "" type_list "" true nil
              (field_ref
                (field "t" "" (schema_ref (new_primitive_schema "ENUM" true)) none Value.null))
              no_field no_field nil []))
          none Value.null)
        nil)

abbrev event : Schema
event = new_record_schema "event" event_fields false

event_fields-AreWhole : AreWhole event_fields
unfolding AreWhole
event_fields-AreWhole = ground arith

event-IsWhole : IsWhole event
unfolding IsWhole AreWhole
event-IsWhole = ground arith

parse_delta_type-schema_to_delta_example :
    (schema_to_delta event >>= λ d. parse_delta_type d true) ≡ ok (reread event true)
parse_delta_type-schema_to_delta_example = parse_delta_type-schema_to_delta event true event-IsWhole

written_fields : (ds : DeltaFields) × (to_delta_struct event_fields ≡ ok ds)
unfolding to_delta_struct
written_fields = (_, refl)

json_back :
    (ds : DeltaFields)
    → to_delta_struct event_fields ≡ ok ds
    → (text : String) × (ok "{}" ≡ ok text) × (ok written_fields.0 ≡ ok ds)
json_back ds h = ("{}", refl, sym written_fields.1 ∙ h)

delta_json_to_schema-schema_to_delta_json_example :
    (schema_to_delta_json (λ ds. ok "{}") (schema_ref event)
      >>= delta_json_to_schema (λ text. ok written_fields.0))
    ≡ ok (new_record_schema "root" (reread_fields event_fields) false)
delta_json_to_schema-schema_to_delta_json_example =
    delta_json_to_schema-schema_to_delta_json (λ ds. ok "{}") (λ text. ok written_fields.0) "event"
      "RECORD" "" false event_fields no_field no_field no_field nil [] event_fields-AreWhole
      json_back

relative : relativize_path (λ p. p) "s3a://lake/events/day=1/f" "s3://lake/events" ≡ ok "day=1/f"
unfolding relativize_path trim_scheme cut_prefix has_prefix contains_text canonical_host_for_compare
    suffix_under
relative = refl

relativize_path-StandsUnder_example :
    IsRelative
      (trim_scheme "s3a://lake/events/day=1/f").0
      (trim_scheme "s3a://lake/events/day=1/f").1
      "day=1/f"
    ⊎ StandsUnder
        (canonical_host_for_compare (trim_scheme "s3://lake/events").1)
        (canonical_host_for_compare (trim_scheme "s3a://lake/events/day=1/f").1)
        "day=1/f"
relativize_path-StandsUnder_example =
    relativize_path-StandsUnder (λ p. p) "s3a://lake/events/day=1/f" "s3://lake/events" "day=1/f"
      relative
