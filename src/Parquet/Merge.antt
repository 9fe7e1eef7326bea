-- ===== src/Parquet/Merge.antt =====
-- pkg/formats/parquet/merge.go: one read schema of the schemas of all files.
pub mod Columns
pub mod Fuel
pub mod Agreement
pub mod Mergeable
pub mod Total
use xtable_go.Prelude.{
  ℕ, zero, suc, ◌+◌, String, Bool, true, false, ◌&&◌, ◌||◌, List, [], ◌∷◌, ◌++◌, Option, none, some,
  if◌then◌else◌, length, leb, map, ltb,
}
use xtable_go.Prelude.Int.{ℤ, ltb_ℤ, ◌==ℤ◌}
use xtable_go.Prelude.Results.{Result, ok, err, ◌>>=◌}
use xtable_go.Prelude.Text.{str_eq, str_lt, concat, join}
use xtable_go.Prelude.Sort.{sort}
use xtable_go.Prelude.Dict
use xtable_go.Prelude.Dict.{Dict}
use xtable_go.Model.Value.{Value, null}
use xtable_go.Model.Schema.{
  Schema, schema, SchemaRef, no_schema, schema_ref, Field, field, FieldRef, no_field, field_ref,
  Fields, nil, cons, field_name, new_record_schema, type_record,
}
use xtable_go.Model.Types.{
  type_list, type_map, type_decimal, metadata_key_decimal_precision, metadata_key_decimal_scale,
}
use xtable_go.Parquet.Footer.{path_below}
use xtable_go.Parquet.Signature.{type_signature}

pub record FooterSchema : Type 0 where
  pub footer_path : String
  pub footer_time : ℤ
  pub footer_schema : SchemaRef

-- a file's view of a record
pub record RecordPart : Type 0 where
  pub record_file : String
  pub record_schema : Schema

-- a file's view of a column
pub record FieldPart : Type 0 where
  pub field_file : String
  pub part_field : Field

abbrev pub part_type : FieldPart → SchemaRef
part_type part = elim part.part_field [ field _ _ type _ _ ↦ type ]

abbrev pub is_nullable : SchemaRef → Bool
is_nullable no_schema = false
is_nullable (schema_ref (schema _ _ _ nullable _ _ _ _ _ _)) = nullable

abbrev pub is_record : SchemaRef → Bool
is_record no_schema = false
is_record (schema_ref (schema _ t _ _ _ _ _ _ _ _)) = str_eq t type_record

abbrev pub with_nullable : Bool → Schema → Schema
with_nullable nullable (schema name t comment _ fs element key value keys metadata) =
    schema name t comment nullable fs element key value keys metadata

abbrev pub schema_name : Schema → String
schema_name (schema name _ _ _ _ _ _ _ _ _) = name

abbrev pub schema_fields : Schema → Fields
schema_fields (schema _ _ _ _ fs _ _ _ _ _) = fs

-- the fields of one part, into the order of the names and the occurrences of each
unfoldable pub gather_fields :
    String → Fields → List String × Dict (List FieldPart) → List String × Dict (List FieldPart)
gather_fields file nil gathered = gathered
gather_fields file (cons f fs) (order, occurrences) =
    let part : FieldPart = record { field_file = file; part_field = f } in
    gather_fields file fs (elim (Dict.lookup (field_name f) occurrences) [
      | none ↦ (order ++ field_name f ∷ [], Dict.insert (field_name f) (part ∷ []) occurrences)
      | some parts ↦ (order, Dict.insert (field_name f) (parts ++ part ∷ []) occurrences)
    ])

unfoldable pub gather :
    List RecordPart → List String × Dict (List FieldPart) → List String × Dict (List FieldPart)
unfolding gather_fields
gather [] gathered = gathered
gather (part ∷ parts) gathered =
    gather parts (gather_fields part.record_file (schema_fields part.record_schema) gathered)

-- the first loop over the occurrences: whether one is nullable, or that one has no type
unfoldable pub nullable_part : String → List FieldPart → Bool → Result Bool
nullable_part path [] nullable = ok nullable
nullable_part path (part ∷ parts) nullable =
    let rest = nullable_part path parts (nullable || is_nullable (part_type part)) in
    elim (part_type part) [
      | no_schema ↦ err (concat ("column " ∷ path ∷ " of " ∷ part.field_file ∷ " has no type" ∷ []))
      | schema_ref _ ↦ rest
    ]

-- the parts of a nested record
pub nested_parts : List FieldPart → List RecordPart
nested_parts [] = []
nested_parts (part ∷ parts) =
    let rest = nested_parts parts in
    elim (part_type part) [
      | no_schema ↦ rest
      | schema_ref s ↦ record { record_file = part.field_file; record_schema = s } ∷ rest
    ]

module _ (show : Value → String) where
  -- checkTypesAgree, with the error, if any
  check_types_agree : String → FieldPart → FieldPart → Option String
  unfolding type_signature
  check_types_agree path first other =
      let first_type = type_signature show (part_type first) in
      let other_type = type_signature show (part_type other) in
      if is_record (part_type first) && is_record (part_type other)
      then none
      else if str_eq first_type other_type
      then none
      else some (
          concat (
            "column " ∷ path ∷ " is " ∷ first_type ∷ " in " ∷ first.field_file ∷ " and "
            ∷ other_type ∷ " in " ∷ other.field_file ∷ []))

  pub check_all : String → FieldPart → List FieldPart → Option String
  unfolding check_types_agree
  check_all path first [] = none
  check_all path first (other ∷ others) = elim (check_types_agree path first other) [
    | some e ↦ some e
    | none ↦ check_all path first others
  ]

  -- mergeRecords recurses on the nested records of a column
  module _ (merge_nested : List RecordPart → String → Result Schema) where
    -- the schema of a column, from its first part
    pub column_schema : String → FieldPart → List FieldPart → Result Schema
    unfolding nested_parts
    column_schema path first found = elim (part_type first) [
      | no_schema ↦ err (concat ("column " ∷ path ∷ " has no type" ∷ []))
      | schema_ref s ↦
          if is_record (schema_ref s) then merge_nested (nested_parts found) path else ok s
    ]

    -- one column of the merge, of as many parts of the record
    unfoldable pub merge_column : ℕ → String → String → List FieldPart → Result Field
    unfolding nullable_part check_all column_schema
    merge_column parts parent name [] = err (concat ("column " ∷ name ∷ " is in no file" ∷ []))
    merge_column parts parent name (first ∷ others) =
        let path = path_below parent name in
        let found = first ∷ others in
        nullable_part path found (ltb (length found) parts) >>= λ nullable.
        elim (check_all path first others) [
          | some e ↦ err e
          | none ↦ column_schema path first found >>= λ s. elim first.part_field [
            | field _ parent_path _ id default ↦
                ok (field name parent_path (schema_ref (with_nullable nullable s)) id default)
          ]
        ]

    unfoldable pub merge_columns : ℕ → String → Dict (List FieldPart) → List String → Result Fields
    unfolding merge_column
    merge_columns parts parent occurrences [] = ok nil
    merge_columns parts parent occurrences (name ∷ names) =
        merge_column parts parent name
          (elim (Dict.lookup name occurrences) [ none ↦ [] | some found ↦ found ])
        >>= λ f. merge_columns parts parent occurrences names >>= λ fs. ok (cons f fs)

  -- mergeRecords, on fuel: one unit for each level of nesting
  unfoldable pub merge_records : ℕ → List RecordPart → String → Result Schema
  unfolding gather merge_columns
  merge_records fuel [] parent = err "no parts"
  merge_records zero (part ∷ parts) parent = err "no fuel"
  merge_records (suc fuel) (part ∷ parts) parent =
      let (order, occurrences) = gather (part ∷ parts) ([], []) in
      merge_columns (merge_records fuel) (length (part ∷ parts)) parent occurrences order >>= λ fs.
      ok (
        new_record_schema (schema_name part.record_schema) fs
          (is_nullable (schema_ref part.record_schema)))

-- the depth of nesting
unfoldable mutual
  pub depth : Schema → ℕ
  depth (schema _ _ _ _ fs _ _ _ _ _) = suc (fields_depth fs)

  pub ref_depth : SchemaRef → ℕ
  ref_depth no_schema = zero
  ref_depth (schema_ref s) = depth s

  pub fields_depth : Fields → ℕ
  fields_depth nil = zero
  fields_depth (cons (field _ _ type _ _) fs) =
      if leb (ref_depth type) (fields_depth fs) then fields_depth fs else ref_depth type

unfoldable pub parts_depth : List RecordPart → ℕ
unfolding depth
parts_depth [] = zero
parts_depth (part ∷ parts) =
    let rest = parts_depth parts in
    if leb (depth part.record_schema) rest then rest else depth part.record_schema

-- the newest first, and then by path
abbrev pub footer_less : FooterSchema → FooterSchema → Bool
footer_less a b =
    ltb_ℤ b.footer_time a.footer_time
    || ((a.footer_time ==ℤ b.footer_time) && str_lt a.footer_path b.footer_path)

unfoldable pub with_schema : List FooterSchema → List FooterSchema
with_schema [] = []
with_schema (footer ∷ footers) =
    let rest = with_schema footers in
    elim footer.footer_schema [ no_schema ↦ rest | schema_ref _ ↦ footer ∷ rest ]

unfoldable pub record_parts : List FooterSchema → List RecordPart
record_parts [] = []
record_parts (footer ∷ footers) =
    let rest = record_parts footers in
    elim footer.footer_schema [
      | no_schema ↦ rest
      | schema_ref s ↦ record { record_file = footer.footer_path; record_schema = s } ∷ rest
    ]

merged : (Value → String) → List RecordPart → Result SchemaRef
unfolding merge_records parts_depth
merged show [] = ok no_schema
merged show (part ∷ parts) =
    merge_records show (parts_depth (part ∷ parts)) (part ∷ parts) "" >>= λ s. ok (schema_ref s)

-- MergeFooterSchemas; no footer with a schema gives a nil schema
unfoldable pub merge_footer_schemas : (Value → String) → List FooterSchema → Result SchemaRef
unfolding with_schema record_parts merged
merge_footer_schemas show footers =
    merged show (record_parts (sort footer_less (with_schema footers)))
