-- ===== src/Parquet/Merge/Mergeable.antt =====
-- pkg/formats/parquet/merge.go: records that can be made one, and the merge of such.
use xtable_go.Prelude.{
  ℕ, suc, zero, ◌≤◌, String, Bool, true, List, [], ◌∷◌, ◌≡◌, refl, sym, ◌∙◌, subst, arith, length,
  ltb, Bool-cases, inl, inr,
}
use xtable_go.Prelude.Results.{Result, ok, ◌>>=◌}
use xtable_go.Prelude.Text.{eq_refl}
use xtable_go.Prelude.Dict
use xtable_go.Prelude.Dict.{Dict}
use xtable_go.Model.Value.{Value}
use xtable_go.Model.Schema.{
  Schema, no_schema, schema_ref, Field, field, Fields, nil, cons, new_record_schema,
}
use xtable_go.Parquet.Footer.{path_below}
use xtable_go.Parquet.Merge.{
  RecordPart, FieldPart, part_type, is_record, is_nullable, gather, nested_parts, column_schema,
  with_nullable, merge_column, merge_columns, merge_records, parts_depth, schema_name,
}
use xtable_go.Parquet.Merge.Columns.{columns_of, or_empty, is_in, non_empty}
use xtable_go.Parquet.Merge.Fuel.{
  parts_depth-cons, columns_of-IsShallow, parts_depth-nested_parts, gathered,
}
use xtable_go.Parquet.Merge.Agreement.{
  AreTyped, starts_record, nullable_part-typed, AllAgree, check_all_lem,
}

-- the records among the occurrences of a column
abbrev pub records_of : List FieldPart → List RecordPart
records_of [] = []
records_of (part ∷ parts) = elim (part_type part) [
  | no_schema ↦ records_of parts
  | schema_ref s ↦ record { record_file = part.field_file; record_schema = s } ∷ records_of parts
]

pub nested_parts_lem : (found : List FieldPart) → nested_parts found ≡ records_of found
unfolding nested_parts
nested_parts_lem [] = refl
nested_parts_lem (part ∷ parts) = ground (arith, nested_parts_lem parts)

-- Files whose records can be made one: there is one at least; at each name all occurrences have a
-- type, and the same as the first or a record each; and the records at a name can be made one.
pub data IsMergeable (show : Value → String) : List RecordPart → Type 0 where
  mergeable :
      (part : RecordPart) (parts : List RecordPart)
      → ((name : String) → AreTyped (columns_of name (part ∷ parts)))
      → ((name : String) → AllAgree show (columns_of name (part ∷ parts)))
      → ((name : String)
          → starts_record (columns_of name (part ∷ parts)) ≡ true
          → IsMergeable show (records_of (columns_of name (part ∷ parts))))
      → IsMergeable show (part ∷ parts)

module _ (show : Value → String) (m : List RecordPart → String → Result Schema) where
  finished :
      (name : String) (nullable : Bool) (f : Field) (s : Schema)
      → (g : Field) × ((ok s >>= λ s. elim f as (λ x. Result Field) [
        | field _ parent_path _ id default ↦
            ok (field name parent_path (schema_ref (with_nullable nullable s)) id default)
      ])
          ≡ ok g)
  finished name nullable (field _ parent_path _ id default) s = (_, refl)

  column_schema-typed :
      (path : String) (first : FieldPart) (found : List FieldPart)
      → (s : Schema) × (part_type first ≡ schema_ref s)
      → (is_record (part_type first) ≡ true → (n : Schema) × (m (nested_parts found) path ≡ ok n))
      → (n : Schema) × (column_schema show m path first found ≡ ok n)
  unfolding column_schema
  column_schema-typed path first found (s, e) nested =
      elim (Bool-cases (is_record (part_type first))) [
        | inl starts ↦ let (n, made) = nested starts in (n, ground (arith, e, starts, made))
        | inr starts ↦ (s, ground (arith, e, starts))
      ]

  merge_column-typed :
      (parts : ℕ) (parent name : String) (found : List FieldPart)
      → non_empty found ≡ true
      → AreTyped found
      → AllAgree show found
      → (starts_record found ≡ true
          → (n : Schema) × (m (nested_parts found) (path_below parent name) ≡ ok n))
      → (g : Field) × (merge_column show m parts parent name found ≡ ok g)
  unfolding merge_column
  merge_column-typed parts parent name [] h typed agree nested = cc
  merge_column-typed parts parent name (first ∷ others) h typed agree nested =
      let path = path_below parent name in
      let found = first ∷ others in
      let (nullable, n) = nullable_part-typed path found (ltb (length found) parts) typed in
      let (s, c) = column_schema-typed path first found typed.0 nested in
      rw (n, (check_all_lem show path first others).1 agree, c)
        (finished name nullable first.part_field s)

  merge_columns-typed :
      (parts : ℕ) (parent : String) (occurrences : Dict (List FieldPart)) (names : List String)
      → ((name : String)
          → is_in name names ≡ true
          → (g : Field) × (merge_column show m parts parent name
                (or_empty (Dict.lookup name occurrences))
              ≡ ok g))
      → (fs : Fields) × (merge_columns show m parts parent occurrences names ≡ ok fs)
  unfolding merge_columns
  merge_columns-typed parts parent occurrences [] each = (nil, refl)
  merge_columns-typed parts parent occurrences (n ∷ names) each =
      let (g, here) = each n (ground (arith, eq_refl n)) in
      let (fs, rest) =
        merge_columns-typed parts parent occurrences names
          (λ name h. each name (ground (arith, h))) in
      (cons g fs, rw (here, rest) refl)

module _ (show : Value → String) where
  pub merge_records-mergeable :
      (fuel : ℕ) (parts : List RecordPart) (parent : String)
      → parts_depth parts ≤ fuel
      → IsMergeable show parts
      → (s : Schema) × (merge_records show fuel parts parent ≡ ok s)
  unfolding merge_records
  merge_records-mergeable zero parts parent h (mergeable part rest typed agree nested) =
      absurd (omega (arith, (parts_depth-cons part rest 0 h).0))
  merge_records-mergeable (suc fuel) parts parent h (mergeable part rest typed agree nested) =
      let (order, occurrences) = gather (part ∷ rest) ([], []) in
      let (fs, columns) =
        merge_columns-typed show (merge_records show fuel) (length (part ∷ rest)) parent occurrences
          order
          (λ name listed.
            let at = gathered name part rest in
            subst
              (λ found.
                (g : Field) × (merge_column show (merge_records show fuel) (length (part ∷ rest))
                    parent name found
                  ≡ ok g))
              (sym (at.0))
              (merge_column-typed show (merge_records show fuel) (length (part ∷ rest)) parent name
                (columns_of name (part ∷ rest)) (sym (at.1) ∙ listed) (typed name) (agree name)
                (λ starts.
                  merge_records-mergeable fuel (nested_parts (columns_of name (part ∷ rest)))
                    (path_below parent name)
                    (parts_depth-nested_parts fuel (columns_of name (part ∷ rest))
                      (columns_of-IsShallow fuel name (part ∷ rest) h))
                    (subst (IsMergeable show)
                      (sym (nested_parts_lem (columns_of name (part ∷ rest))))
                      (nested name starts))))) in
      (
        new_record_schema (schema_name part.record_schema) fs
            (is_nullable (schema_ref part.record_schema)),
        rw columns refl,
      )
