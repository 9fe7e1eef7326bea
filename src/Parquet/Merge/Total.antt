-- ===== src/Parquet/Merge/Total.antt =====
-- pkg/formats/parquet/merge.go: the merge of files against a description of those that fit.
use xtable_go.Prelude.{
  ℕ, suc, zero, String, Bool, true, List, [], ◌∷◌, ◌≡◌, refl, subst, arith, length, ltb, Bool-cases,
  Option-cases, Option, none, some, inl, inr, ◌↔◌, ◌≢◌,
}
use xtable_go.Prelude.Results.{Result, ok, >>=-eq-ok}
use xtable_go.Prelude.Text.{str_eq, eq_iff}
use xtable_go.Prelude.Sort.{sort, sort-perm}
use xtable_go.Prelude.Dict
use xtable_go.Prelude.Dict.{Dict}
use xtable_go.Model.Value.{Value}
use xtable_go.Model.Schema.{Schema, no_schema, schema_ref, Field, Fields}
use xtable_go.Parquet.Footer.{path_below}
use xtable_go.Parquet.Merge.{
  RecordPart, FieldPart, FooterSchema, part_type, is_record, gather, nested_parts, column_schema,
  nullable_part, check_all, merge_column, merge_columns, merge_records, parts_depth, merged,
  merge_footer_schemas, footer_less, with_schema, record_parts,
}
use xtable_go.Parquet.Merge.Columns.{columns_of, or_empty, is_in, non_empty}
use xtable_go.Parquet.Merge.Fuel.{gathered}
use xtable_go.Parquet.Merge.Agreement.{
  AreTyped, starts_record, nullable_part-AreTyped, AllAgree, check_all_lem, SchemaRef-cases,
}
use xtable_go.Parquet.Merge.Mergeable.{
  IsMergeable, mergeable, merge_records-mergeable, nested_parts_lem,
}
use mathlib.Core.List.{Perm, filter_map}
use mathlib.Core.List.Perm

-- what a merge that went through says of its columns
module _ (show : Value → String) (m : List RecordPart → String → Result Schema) where
  abbrev IsColumn : String → List FieldPart → Type 0
  IsColumn path found =
      AreTyped found
      × AllAgree show found
      × (starts_record found ≡ true → (n : Schema) × (m (nested_parts found) path ≡ ok n))

  column_schema-nested :
      (path : String) (first : FieldPart) (found : List FieldPart) (n : Schema)
      → (s : Schema) × (part_type first ≡ schema_ref s)
      → column_schema show m path first found ≡ ok n
      → is_record (part_type first) ≡ true
      → m (nested_parts found) path ≡ ok n
  unfolding column_schema
  column_schema-nested path first found n (s, e) h starts = ground (arith, e, starts, h)

  merge_column-IsColumn :
      (parts : ℕ) (parent name : String) (found : List FieldPart) (g : Field)
      → merge_column show m parts parent name found ≡ ok g
      → IsColumn (path_below parent name) found
  unfolding merge_column
  merge_column-IsColumn parts parent name [] g h = cc
  merge_column-IsColumn parts parent name (first ∷ others) g h =
      let path = path_below parent name in
      let found = first ∷ others in
      let (nullable, told, h1) =
        >>=-eq-ok (nullable_part path found (ltb (length found) parts)) _ h in
      let typed = nullable_part-AreTyped path found (ltb (length found) parts) nullable told in
      elim (Option-cases (check_all show path first others)) [
        | inr (e, refused) ↦ absurd (let wrong = rw refused at h1 in cc)
        | inl agree ↦
            let (n, made, h2) =
              >>=-eq-ok (column_schema show m path first found) _ (rw agree at h1) in
            (
              typed,
              (check_all_lem show path first others).0 agree,
              λ starts. (n, column_schema-nested path first found n typed.0 made starts),
            )
      ]

  merge_columns-each :
      (parts : ℕ) (parent : String) (occurrences : Dict (List FieldPart)) (names : List String)
      (fs : Fields)
      → merge_columns show m parts parent occurrences names ≡ ok fs
      → (name : String) → is_in name names ≡ true
      → (g : Field) × (merge_column show m parts parent name
            (or_empty (Dict.lookup name occurrences))
          ≡ ok g)
  unfolding merge_columns
  merge_columns-each parts parent occurrences [] fs h name listed = cc
  merge_columns-each parts parent occurrences (n ∷ names) fs h name listed =
      let (g, here, h1) =
        >>=-eq-ok (merge_column show m parts parent n (or_empty (Dict.lookup n occurrences))) _ h in
      let (later, rest, h2) =
        >>=-eq-ok (merge_columns show m parts parent occurrences names) _ h1 in
      elim (Bool-cases (str_eq n name)) [
        | inl e ↦
            subst
              (λ x.
                (g : Field) × (merge_column show m parts parent x
                    (or_empty (Dict.lookup x occurrences))
                  ≡ ok g))
              ((eq_iff n name).0 e) (g, here)
        | inr e ↦
            merge_columns-each parts parent occurrences names later rest name
              (ground (arith, e, listed))
      ]

  -- a name that stands in no file has nothing that could be refused
  either_way :
      (path : String) (found : List FieldPart) (listed : Bool)
      → listed ≡ non_empty found
      → (listed ≡ true → IsColumn path found)
      → IsColumn path found
  either_way path [] listed h there = (tt, tt, λ starts. cc)
  either_way path (first ∷ others) listed h there = there h

-- the records of the files that have a schema
abbrev pub record_of : FooterSchema → Option RecordPart
record_of footer = elim footer.footer_schema [
  | no_schema ↦ none
  | schema_ref s ↦ some (record { record_file = footer.footer_path; record_schema = s })
]

abbrev pub parts_of : List FooterSchema → List RecordPart
parts_of = filter_map record_of

record_parts_lem : (footers : List FooterSchema) → record_parts footers ≡ parts_of footers
unfolding record_parts filter_map
record_parts_lem [] = refl
record_parts_lem (f ∷ fs) = elim (SchemaRef-cases f.footer_schema) [
  | inl e ↦ rw (e, record_parts_lem fs) refl
  | inr (s, e) ↦ rw (e, record_parts_lem fs) refl
]

parts_of-with_schema :
    (footers : List FooterSchema) → parts_of (with_schema footers) ≡ parts_of footers
unfolding with_schema filter_map
parts_of-with_schema [] = refl
parts_of-with_schema (f ∷ fs) = elim (SchemaRef-cases f.footer_schema) [
  | inl e ↦ rw (e, parts_of-with_schema fs) refl
  | inr (s, e) ↦ rw (e, filter_map, e, parts_of-with_schema fs) refl
]

sorted-Perm :
    (footers : List FooterSchema)
    → Perm (record_parts (sort footer_less (with_schema footers))) (parts_of footers)
sorted-Perm footers =
    rw (record_parts_lem (sort footer_less (with_schema footers)), ← parts_of-with_schema footers)
      (Perm.filter_map record_of (sort-perm footer_less (with_schema footers)))

module _ (show : Value → String) where
  merge_records-IsMergeable :
      (fuel : ℕ) (parts : List RecordPart) (parent : String) (s : Schema)
      → merge_records show fuel parts parent ≡ ok s
      → IsMergeable show parts
  unfolding merge_records
  merge_records-IsMergeable fuel [] parent s h = cc
  merge_records-IsMergeable zero (part ∷ rest) parent s h = cc
  merge_records-IsMergeable (suc fuel) (part ∷ rest) parent s h =
      let (order, occurrences) = gather (part ∷ rest) ([], []) in
      let (fs, columns, made) =
        >>=-eq-ok
          (merge_columns show (merge_records show fuel) (length (part ∷ rest)) parent occurrences
            order)
          _ h in
      let column = λ (name : String).
        let (at, listed) = gathered name part rest in
        either_way show (merge_records show fuel) (path_below parent name)
          (columns_of name (part ∷ rest)) (is_in name order) listed
          (λ there.
            let (g, one) =
              merge_columns-each show (merge_records show fuel) (length (part ∷ rest)) parent
                occurrences order fs columns name there in
            subst (IsColumn show (merge_records show fuel) (path_below parent name)) at (
              merge_column-IsColumn show (merge_records show fuel) (length (part ∷ rest)) parent
                name _ g one)) in
      mergeable part rest (λ name. (column name).0) (λ name. (column name).1)
        (λ name starts.
          let (n, nested) = (column name).2 starts in
          subst (IsMergeable show) (nested_parts_lem (columns_of name (part ∷ rest))) (
            merge_records-IsMergeable fuel (nested_parts (columns_of name (part ∷ rest)))
              (path_below parent name) n nested))

  IsMergeable-some : (parts : List RecordPart) → IsMergeable show parts → parts ≢ []
  IsMergeable-some parts (mergeable part rest typed agree nested) e = cc

  merged_lem :
      (parts : List RecordPart)
      → ((s : Schema) × (merged show parts ≡ ok (schema_ref s))) ↔ IsMergeable show parts
  unfolding merged
  merged_lem [] = ((λ (s, h). cc), (λ fit. absurd (IsMergeable-some [] fit refl)))
  merged_lem (part ∷ rest) =
      let parts = part ∷ rest in
      (
        (λ (s, h).
            let (n, made, h1) = >>=-eq-ok (merge_records show (parts_depth parts) parts "") _ h in
            merge_records-IsMergeable (parts_depth parts) parts "" n made),
        (λ fit.
            let (n, made) =
              merge_records-mergeable show (parts_depth parts) parts "" (omega arith) fit in
            (n, rw made refl)),
      )

  -- The merge of the schemas of the files ends in a schema exactly where the records of the files that
  -- have one, taken in some order, can be made one: there is such a file, at each column every file
  -- has a type and the same as the first or a record each, and the records at a column can be made
  -- one in turn.
  pub merge_footer_schemas-IsMergeable :
      (footers : List FooterSchema)
      → (parts : List RecordPart) × Perm parts (parts_of footers)
        × (((s : Schema) × (merge_footer_schemas show footers ≡ ok (schema_ref s)))
            ↔ IsMergeable show parts)
  unfolding merge_footer_schemas
  merge_footer_schemas-IsMergeable footers = (
    record_parts (sort footer_less (with_schema footers)),
    sorted-Perm footers,
    merged_lem (record_parts (sort footer_less (with_schema footers))),
  )
