-- ===== src/Parquet/Merge/Fuel.antt =====
-- pkg/formats/parquet/merge.go: how deep the records are whose columns are merged.
use xtable_go.Prelude.{
  ℕ, suc, ◌≤◌, String, List, [], ◌∷◌, ◌++◌, ◌≡◌, refl, subst, arith, leb, Bool-cases, inl, inr,
  if◌then◌else◌, All,
}
use xtable_go.Prelude.Text.{str_eq}
use xtable_go.Prelude.Dict
use xtable_go.Prelude.Dict.{Dict}
use xtable_go.Model.Schema.{Schema, schema, field, Fields, nil, cons}
use xtable_go.Parquet.Merge.{
  RecordPart, FieldPart, part_type, schema_fields, gather, nested_parts, depth, ref_depth,
  fields_depth, parts_depth,
}
use xtable_go.Parquet.Merge.Columns.{
  named, columns_of, or_empty, is_in, non_empty, gather-IsGathered,
}

-- no type of the occurrences is deeper
abbrev pub IsShallow : ℕ → List FieldPart → Type 0
IsShallow d = All (λ part. ref_depth (part_type part) ≤ d)

append-IsShallow :
    (d : ℕ) (xs ys : List FieldPart) → IsShallow d xs → IsShallow d ys → IsShallow d (xs ++ ys)
append-IsShallow d [] ys h k = k
append-IsShallow d (x ∷ xs) ys (h, hs) k = (h, append-IsShallow d xs ys hs k)

both_below : (a b d : ℕ) → (if leb a b then b else a) ≤ d → (a ≤ d) × (b ≤ d)
both_below a b d h = ground arith

named-IsShallow :
    (d : ℕ) (name file : String) (fs : Fields)
    → fields_depth fs ≤ d
    → IsShallow d (named name file fs)
unfolding depth
named-IsShallow d name file nil h = tt
named-IsShallow d name file (cons (field n _ type _ _) fs) h =
    let (here, later) = both_below (ref_depth type) (fields_depth fs) d h in
    elim (Bool-cases (str_eq n name)) [
      | inl e ↦ rw e (here, named-IsShallow d name file fs later)
      | inr e ↦ rw e (named-IsShallow d name file fs later)
    ]

depth-schema_fields : (s : Schema) → depth s ≡ suc (fields_depth (schema_fields s))
unfolding depth
depth-schema_fields (schema _ _ _ _ _ _ _ _ _ _) = refl

pub parts_depth-cons :
    (part : RecordPart) (parts : List RecordPart) (d : ℕ)
    → parts_depth (part ∷ parts) ≤ d
    → (suc (fields_depth (schema_fields part.record_schema)) ≤ d) × (parts_depth parts ≤ d)
unfolding parts_depth
parts_depth-cons part parts d h =
    let (here, later) = both_below (depth part.record_schema) (parts_depth parts) d h in
    (subst (λ x. x ≤ d) (depth-schema_fields part.record_schema) here, later)

pub columns_of-IsShallow :
    (d : ℕ) (name : String) (parts : List RecordPart)
    → parts_depth parts ≤ suc d
    → IsShallow d (columns_of name parts)
columns_of-IsShallow d name [] h = tt
columns_of-IsShallow d name (part ∷ parts) h =
    let (here, later) = parts_depth-cons part parts (suc d) h in
    append-IsShallow d _ _
      (named-IsShallow d name part.record_file (schema_fields part.record_schema)
        (omega (arith, here)))
      (columns_of-IsShallow d name parts later)

pub parts_depth-nested_parts :
    (d : ℕ) (found : List FieldPart) → IsShallow d found → parts_depth (nested_parts found) ≤ d
unfolding parts_depth nested_parts depth
parts_depth-nested_parts d [] h = ground arith
parts_depth-nested_parts d (part ∷ parts) (h, hs) =
    ground (arith, parts_depth-nested_parts d parts hs)

-- what the map has at a name are the columns there, and the order has the names of columns
pub gathered :
    (name : String) (part : RecordPart) (parts : List RecordPart)
    → let (order, occurrences) = gather (part ∷ parts) ([], []) in
      (or_empty (Dict.lookup name occurrences) ≡ columns_of name (part ∷ parts))
      × (is_in name order ≡ non_empty (columns_of name (part ∷ parts)))
gathered name part parts =
    let (at, listed, _) =
      gather-IsGathered name (part ∷ parts) [] [] []
        (rw (Dict.lookup-nil {V = List FieldPart} name) (refl, refl, refl)) in
    (at, listed)
