-- ===== src/Delta/Schema/Canonical.antt =====
-- pkg/formats/delta/schema.go: the canonical form of a schema, which is what a reader makes of it once
-- it is written, and the schemas that can be written.
use xtable_go.Prelude.{Bool, true, false, none, ◌≡◌, if◌then◌else◌}
use xtable_go.Prelude.Int.{pos}
use xtable_go.Prelude.Text.{str_eq}
use xtable_go.Prelude.Decimal.RoundTrip.{bounded}
use xtable_go.Model.Value.{Value}
use xtable_go.Model.Schema.{
  Schema, schema, SchemaRef, no_schema, schema_ref, field, FieldRef, no_field, field_ref, Fields,
  nil, cons, new_primitive_schema, new_record_schema, type_record,
}
use xtable_go.Model.Types.{
  type_list, type_map, type_decimal, new_decimal_schema, metadata_key_decimal_precision,
  metadata_key_decimal_scale,
}
use xtable_go.Delta.Schema.{int_or, or_size, unnamed_list, unnamed_map}
use xtable_go.Delta.Schema.Names.{reread_type}

abbrev pub own_nullable : Schema → Bool
own_nullable (schema _ _ _ nullable _ _ _ _ _ _) = nullable

-- The schema that the reader makes of a written one: names of records, comments, ids, defaults and
-- most metadata are gone, enumerations and UUIDs are texts, and the nullability is the container's.
unfoldable mutual
  unfolding reread_type

  pub reread : Schema → Bool → Schema
  reread (schema _ t _ _ fs element key value _ metadata) nullable =
      let below = reread_fields fs in
      let inner = reread_part element in
      let k = reread_key key in
      let v = reread_part value in
      if str_eq t type_decimal
      then new_decimal_schema
          (or_size (pos 10) (bounded (int_or (pos 10) metadata_key_decimal_precision metadata)))
          (or_size (pos 0) (bounded (int_or (pos 0) metadata_key_decimal_scale metadata))) nullable
      else if str_eq t type_record
      then new_record_schema "" below nullable
      else if str_eq t type_list
      then unnamed_list inner nullable
      else if str_eq t type_map
      then unnamed_map k v nullable
      else new_primitive_schema (reread_type t) nullable

  pub reread_fields : Fields → Fields
  reread_fields nil = nil
  reread_fields (cons (field name _ type _ _) fs) =
      cons (field name "" (schema_ref (reread_own type)) none Value.null) (reread_fields fs)

  pub reread_own : SchemaRef → Schema
  reread_own no_schema = new_primitive_schema "STRING" true
  reread_own (schema_ref s) = reread s (own_nullable s)

  pub reread_required : SchemaRef → Schema
  reread_required no_schema = new_primitive_schema "STRING" false
  reread_required (schema_ref s) = reread s false

  pub reread_part : FieldRef → Schema
  reread_part no_field = new_primitive_schema "STRING" true
  reread_part (field_ref (field _ _ type _ _)) = reread_own type

  pub reread_key : FieldRef → Schema
  reread_key no_field = new_primitive_schema "STRING" false
  reread_key (field_ref (field _ _ type _ _)) = reread_required type

-- no pointer that the writer follows is nil
unfoldable mutual
  pub IsWhole : Schema → Type 0
  IsWhole (schema _ t _ _ fs element key value _ _) =
      let below = AreWhole fs in
      let inner = IsWholePart element in
      let k = IsWholePart key in
      let v = IsWholePart value in
      (str_eq t type_record ≡ true → below)
      × (str_eq t type_list ≡ true → inner)
      × (str_eq t type_map ≡ true → k × v)

  pub AreWhole : Fields → Type 0
  AreWhole nil = Unit
  AreWhole (cons (field _ _ type _ _) fs) = IsWholeRef type × AreWhole fs

  pub IsWholeRef : SchemaRef → Type 0
  IsWholeRef no_schema = ⊥
  IsWholeRef (schema_ref s) = IsWhole s

  pub IsWholePart : FieldRef → Type 0
  IsWholePart no_field = ⊥
  IsWholePart (field_ref (field _ _ type _ _)) = IsWholeRef type
