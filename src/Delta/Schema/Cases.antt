-- ===== src/Delta/Schema/Cases.antt =====
-- pkg/formats/delta/schema.go: writing and reading back a schema, by its type.
use xtable_go.Prelude.{String, Bool, true, false, [], Option, ◌≡◌, refl, ap, inl, inr, Bool-cases}
use xtable_go.Prelude.Int.{ℤ, pos}
use xtable_go.Prelude.Results.{ok}
use xtable_go.Prelude.Text.{str_eq}
use xtable_go.Prelude.Dict.{Dict}
use xtable_go.Model.Value.{Value}
use xtable_go.Model.Schema.{
  Schema, schema, SchemaRef, schema_ref, field, FieldRef, no_field, field_ref, Fields, cons,
  type_record,
}
use xtable_go.Model.Types.{
  type_list, type_map, type_decimal, metadata_key_decimal_precision, metadata_key_decimal_scale,
}
use xtable_go.Delta.Schema.{
  DeltaType, DeltaFields, more_fields, struct_field, to_delta_struct, type_to_delta,
  schema_to_delta, parse_delta_type, parse_delta_fields, array, named, struct, map_of, decimal_name,
  scalar_name, array_to_delta, key_to_delta, value_to_delta, int_or, unnamed_list, is_nullable,
}
use xtable_go.Delta.Schema.Names.{parse_name-decimal, parse_name-scalar}
use xtable_go.Delta.Schema.Canonical.{
  reread, reread_fields, reread_own, reread_required, reread_part, reread_key,
}

-- a schema is written, and what is written is read back
unfoldable pub Rereads : Schema → Type 0
Rereads s =
    (d : DeltaType) × (schema_to_delta s ≡ ok d)
    × ((nullable : Bool) → parse_delta_type d nullable ≡ ok (reread s nullable))

unfoldable pub FieldsReread : Fields → Type 0
FieldsReread fs =
    (ds : DeltaFields) × (to_delta_struct fs ≡ ok ds)
    × (parse_delta_fields ds ≡ ok (reread_fields fs))

unfoldable pub RefRereads : SchemaRef → Type 0
RefRereads r =
    (d : DeltaType) × (nullable : Bool) × (type_to_delta r ≡ ok d)
    × (is_nullable r ≡ ok nullable)
    × (parse_delta_type d nullable ≡ ok (reread_own r))
    × (parse_delta_type d false ≡ ok (reread_required r))

pub fields-Reread :
    (name parent : String) (type : SchemaRef) (id : Option ℤ) (default : Value) (fs : Fields)
    → RefRereads type
    → FieldsReread fs
    → FieldsReread (cons (field name parent type id default) fs)
unfolding RefRereads FieldsReread to_delta_struct parse_delta_fields reread_fields
fields-Reread name parent type id default fs (d, nullable, wrote, flag, read, _)
      (ds, wrote_rest, read_rest) =
    (
      more_fields (struct_field name d nullable []) ds,
      rw (wrote, flag, wrote_rest) refl,
      rw (read, read_rest) refl,
    )

pub ref-Rereads : (s : Schema) → Rereads s → RefRereads (schema_ref s)
unfolding RefRereads Rereads type_to_delta reread_own reread_required
ref-Rereads (schema n t c nullable fs e k v r m) (d, wrote, read) =
    (d, nullable, wrote, refl, read nullable, read false)

array-Rereads :
    (name parent : String) (type : SchemaRef) (id : Option ℤ) (default : Value)
    → RefRereads type
    → (d : DeltaType) × (array_to_delta (field_ref (field name parent type id default)) ≡ ok d)
      × ((nullable : Bool)
          → parse_delta_type d nullable ≡ ok (unnamed_list (reread_own type) nullable))
unfolding RefRereads array_to_delta parse_delta_type
array-Rereads name parent type id default (d, nullable, wrote, flag, read, _) =
    (array d nullable, rw (wrote, flag) refl, λ n. rw (read) refl)

module _ (n t c : String) (nl : Bool) (fs : Fields) (element key value : FieldRef) (ids : Fields)
    (metadata : Dict Value) where
  abbrev the_schema : Schema
  the_schema = schema n t c nl fs element key value ids metadata

  decimal-Rereads : str_eq t type_decimal ≡ true → Rereads (the_schema)
  unfolding Rereads schema_to_delta parse_delta_type reread
  decimal-Rereads h = (
    named (
        decimal_name (int_or (pos 10) metadata_key_decimal_precision metadata)
          (int_or (pos 0) metadata_key_decimal_scale metadata)),
    rw (h) refl,
    λ nullable. rw (h) (
        ap ok (
          parse_name-decimal (int_or (pos 10) metadata_key_decimal_precision metadata)
            (int_or (pos 0) metadata_key_decimal_scale metadata) nullable)),
  )

  record-Rereads :
      str_eq t type_decimal ≡ false
      → str_eq t type_record ≡ true
      → FieldsReread fs
      → Rereads the_schema
  unfolding Rereads schema_to_delta parse_delta_type reread FieldsReread
  record-Rereads h k (ds, wrote, read) =
      (struct ds, rw (h, k, wrote) refl, λ nullable. rw (h, k, read) refl)

  list-Rereads :
      str_eq t type_decimal ≡ false
      → str_eq t type_record ≡ false
      → str_eq t type_list ≡ true
      → (d : DeltaType) → (array_to_delta element ≡ ok d)
      → ((nullable : Bool)
          → parse_delta_type d nullable ≡ ok (unnamed_list (reread_part element) nullable))
      → Rereads the_schema
  unfolding Rereads schema_to_delta parse_delta_type reread
  list-Rereads h k l d wrote read =
      (d, rw (h, k, l) wrote, λ nullable. rw (h, k, l) (read nullable))

  scalar-Rereads :
      str_eq t type_decimal ≡ false
      → str_eq t type_record ≡ false
      → str_eq t type_list ≡ false
      → str_eq t type_map ≡ false
      → Rereads the_schema
  unfolding Rereads schema_to_delta parse_delta_type reread
  scalar-Rereads h k l m = (
    named (scalar_name t),
    rw (h, k, l, m) refl,
    λ nullable. rw (h, k, l, m) (ap ok (parse_name-scalar t nullable)),
  )

  map-Rereads :
      str_eq t type_decimal ≡ false
      → str_eq t type_record ≡ false
      → str_eq t type_list ≡ false
      → str_eq t type_map ≡ true
      → (d e : DeltaType) (b : Bool) → key_to_delta key ≡ ok d
      → value_to_delta value ≡ ok (e, b)
      → parse_delta_type d false ≡ ok (reread_key key)
      → parse_delta_type e b ≡ ok (reread_part value)
      → Rereads the_schema
  unfolding Rereads schema_to_delta parse_delta_type reread
  map-Rereads h k l m d e b wrote_key wrote_value read_key read_value = (
    map_of d e b,
    rw (h, k, l, m, wrote_key, wrote_value) refl,
    λ nullable. rw (h, k, l, m, read_key, read_value) refl,
  )

-- the parts of a list and of a map
unfoldable pub PartRereads : FieldRef → Type 0
PartRereads no_field = ⊥
PartRereads (field_ref (field _ _ type _ _)) = RefRereads type

list_part-Rereads :
    (part : FieldRef)
    → PartRereads part
    → (d : DeltaType) × (array_to_delta part ≡ ok d)
      × ((nullable : Bool)
          → parse_delta_type d nullable ≡ ok (unnamed_list (reread_part part) nullable))
unfolding PartRereads reread_part
list_part-Rereads no_field h = absurd h
list_part-Rereads (field_ref (field name parent type id default)) h =
    array-Rereads name parent type id default h

key_part-Rereads :
    (part : FieldRef)
    → PartRereads part
    → (d : DeltaType) × (key_to_delta part ≡ ok d)
      × (parse_delta_type d false ≡ ok (reread_key part))
unfolding PartRereads RefRereads key_to_delta reread_key
key_part-Rereads no_field h = absurd h
key_part-Rereads (field_ref (field name parent type id default)) (d, b, wrote, _, _, read) =
    (d, wrote, read)

value_part-Rereads :
    (part : FieldRef)
    → PartRereads part
    → (d : DeltaType) × (b : Bool) × (value_to_delta part ≡ ok (d, b))
      × (parse_delta_type d b ≡ ok (reread_part part))
unfolding PartRereads RefRereads value_to_delta reread_part
value_part-Rereads no_field h = absurd h
value_part-Rereads (field_ref (field name parent type id default)) (d, b, wrote, flag, read, _) =
    (d, b, rw (wrote, flag) refl, read)

-- a schema rereads if the parts that its type has do
pub schema-Rereads :
    (n t c : String) (nl : Bool) (fs : Fields) (element key value : FieldRef) (ids : Fields)
    (metadata : Dict Value)
    → (str_eq t type_record ≡ true → FieldsReread fs)
    → (str_eq t type_list ≡ true → PartRereads element)
    → (str_eq t type_map ≡ true → PartRereads key × PartRereads value)
    → Rereads (schema n t c nl fs element key value ids metadata)
schema-Rereads n t c nl fs element key value ids metadata records lists maps =
    elim (Bool-cases (str_eq t type_decimal)) [
      | inl h ↦ decimal-Rereads n t c nl fs element key value ids metadata h
      | inr h ↦ elim (Bool-cases (str_eq t type_record)) [
        | inl k ↦ record-Rereads n t c nl fs element key value ids metadata h k (records k)
        | inr k ↦ elim (Bool-cases (str_eq t type_list)) [
          | inl l ↦
              let (d, wrote, read) = list_part-Rereads element (lists l) in
              list-Rereads n t c nl fs element key value ids metadata h k l d wrote read
          | inr l ↦ elim (Bool-cases (str_eq t type_map)) [
            | inl m ↦
                let (d, wrote_key, read_key) = key_part-Rereads key (maps m).0 in
                let (e, b, wrote_value, read_value) = value_part-Rereads value (maps m).1 in
                map-Rereads n t c nl fs element key value ids metadata h k l m d e b wrote_key
                  wrote_value read_key read_value
            | inr m ↦ scalar-Rereads n t c nl fs element key value ids metadata h k l m
          ]
        ]
      ]
    ]
