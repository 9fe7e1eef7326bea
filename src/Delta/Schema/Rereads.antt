-- ===== src/Delta/Schema/Rereads.antt =====
-- pkg/formats/delta/schema.go: a schema that is written into a Delta log and read back.
use xtable_go.Prelude.{String, Bool, false, ◌≡◌, refl}
use xtable_go.Prelude.Dict.{Dict}
use xtable_go.Model.Value.{Value}
use xtable_go.Prelude.Results.{Result, ok, >>=-eq-ok, ◌>>=◌}
use xtable_go.Model.Schema.{
  Schema, schema, SchemaRef, no_schema, schema_ref, field, FieldRef, no_field, field_ref, Fields,
  nil, cons, new_record_schema,
}
use xtable_go.Delta.Schema.{
  more_fields, struct_field, DeltaFields, root_fields, delta_json_to_schema, schema_to_delta_json,
  to_delta_struct, schema_to_delta, parse_delta_type, parse_delta_fields, no_fields,
}
use xtable_go.Delta.Schema.Canonical.{
  reread, reread_fields, IsWhole, AreWhole, IsWholeRef, IsWholePart,
}
use xtable_go.Delta.Schema.Cases.{
  Rereads, FieldsReread, RefRereads, PartRereads, fields-Reread, ref-Rereads, schema-Rereads,
}

mutual
  unfolding IsWhole AreWhole IsWholeRef IsWholePart FieldsReread RefRereads PartRereads
      to_delta_struct parse_delta_fields reread_fields

  IsWhole-Rereads : (s : Schema) → IsWhole s → Rereads s
  IsWhole-Rereads (schema n t c nl fs element key value ids metadata) (records, lists, maps) =
      let below = fields_reread fs in
      let inner = part_rereads element in
      let k = part_rereads key in
      let v = part_rereads value in
      schema-Rereads n t c nl fs element key value ids metadata (λ is. below (records is))
        (λ is. inner (lists is)) (λ is. (k (maps is).0, v (maps is).1))

  fields_reread : (fs : Fields) → AreWhole fs → FieldsReread fs
  fields_reread nil h = (no_fields, refl, refl)
  fields_reread (cons (field name parent type id default) fs) (h, hs) =
      fields-Reread name parent type id default fs (ref_rereads type h) (fields_reread fs hs)

  ref_rereads : (r : SchemaRef) → IsWholeRef r → RefRereads r
  ref_rereads no_schema h = absurd h
  ref_rereads (schema_ref s) h = ref-Rereads s (IsWhole-Rereads s h)

  part_rereads : (part : FieldRef) → IsWholePart part → PartRereads part
  part_rereads no_field h = absurd h
  part_rereads (field_ref (field name parent type id default)) h = ref_rereads type h

-- A schema in which no pointer that the writer follows is nil is written without an error, and the
-- reader makes of it its canonical form: the same fields, parts, sizes of decimals and nullability,
-- with a type of Delta for each type.
pub parse_delta_type-schema_to_delta :
    (s : Schema) (nullable : Bool)
    → IsWhole s
    → (schema_to_delta s >>= λ d. parse_delta_type d nullable) ≡ ok (reread s nullable)
unfolding Rereads
parse_delta_type-schema_to_delta s nullable whole =
    let (d, wrote, read) = IsWhole-Rereads s whole in rw (wrote) (read nullable)

root_fields-read :
    (ds : DeltaFields) {fs : Fields} → parse_delta_fields ds ≡ ok fs → root_fields ds ≡ ok fs
unfolding root_fields parse_delta_fields
root_fields-read no_fields h = h
root_fields-read (more_fields (struct_field name type nullable metadata) ds) h =
    let (t, read, went) = >>=-eq-ok (parse_delta_type type nullable) _ h in
    let (fs, read_rest, made) = >>=-eq-ok (parse_delta_fields ds) _ went in
    rw (read, root_fields-read ds read_rest) made

-- A record that the writer can write is read back from the text in the log as the record "root" of
-- its fields in canonical form, where encoding/json gives back what it wrote.
pub delta_json_to_schema-schema_to_delta_json :
    (marshal : DeltaFields → Result String) (unmarshal : String → Result DeltaFields)
    (name t comment : String) (nullable : Bool) (fs : Fields) (element key value : FieldRef)
    (ids : Fields) (metadata : Dict Value)
    → AreWhole fs
    → ((ds : DeltaFields)
        → to_delta_struct fs ≡ ok ds
        → (text : String) × (marshal ds ≡ ok text) × (unmarshal text ≡ ok ds))
    → (schema_to_delta_json marshal
          (schema_ref (schema name t comment nullable fs element key value ids metadata))
        >>= delta_json_to_schema unmarshal)
      ≡ ok (new_record_schema "root" (reread_fields fs) false)
unfolding schema_to_delta_json delta_json_to_schema FieldsReread
delta_json_to_schema-schema_to_delta_json marshal unmarshal name t comment nullable fs element key
      value ids metadata whole json =
    let (ds, wrote, read) = fields_reread fs whole in
    let (text, encoded, decoded) = json ds wrote in
    rw (wrote, encoded, decoded, root_fields-read ds read) refl
