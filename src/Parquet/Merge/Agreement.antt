-- ===== src/Parquet/Merge/Agreement.antt =====
-- pkg/formats/parquet/merge.go: which occurrences of one column are merged.
use xtable_go.Prelude.{
  String, Bool, true, false, ◌||◌, List, [], ◌∷◌, none, ◌≡◌, refl, arith, inl, inr, All, ◌⊎◌, ◌↔◌,
}
use xtable_go.Prelude.Results.{ok}
use xtable_go.Prelude.Text.{eq_iff}
use xtable_go.Model.Value.{Value}
use xtable_go.Model.Schema.{Schema, SchemaRef, no_schema, schema_ref}
use xtable_go.Parquet.Signature.{type_signature}
use xtable_go.Parquet.Merge.{
  FieldPart, part_type, is_record, is_nullable, nullable_part, check_types_agree, check_all,
}

abbrev pub AreTyped : List FieldPart → Type 0
AreTyped = All (λ part. (s : Schema) × (part_type part ≡ schema_ref s))

-- the column is a record in the first of its files
abbrev pub starts_record : List FieldPart → Bool
starts_record [] = false
starts_record (first ∷ others) = is_record (part_type first)

pub SchemaRef-cases : (r : SchemaRef) → (r ≡ no_schema) ⊎ ((s : Schema) × (r ≡ schema_ref s))
SchemaRef-cases no_schema = inl refl
SchemaRef-cases (schema_ref s) = inr (s, refl)

pub nullable_part-typed :
    (path : String) (found : List FieldPart) (before : Bool)
    → AreTyped found
    → (after : Bool) × (nullable_part path found before ≡ ok after)
unfolding nullable_part
nullable_part-typed path [] before typed = (before, refl)
nullable_part-typed path (part ∷ parts) before ((s, e), typed) =
    let (after, rest) =
      nullable_part-typed path parts (before || is_nullable (part_type part)) typed in
    (after, ground (arith, e, rest))

pub nullable_part-AreTyped :
    (path : String) (found : List FieldPart) (before after : Bool)
    → nullable_part path found before ≡ ok after
    → AreTyped found
unfolding nullable_part
nullable_part-AreTyped path [] before after h = tt
nullable_part-AreTyped path (part ∷ parts) before after h =
    elim (SchemaRef-cases (part_type part)) [
      | inl e ↦ absurd (ground (arith, e, h))
      | inr (s, e) ↦ (
        (s, e),
        nullable_part-AreTyped path parts (before || is_nullable (part_type part)) after
            (ground (arith, e, h)),
      )
    ]

module _ (show : Value → String) where
  -- two files have one type for a column, or a record each
  abbrev pub Agree : FieldPart → FieldPart → Type 0
  Agree first other =
      ((is_record (part_type first) ≡ true) × (is_record (part_type other) ≡ true))
      ⊎ (type_signature show (part_type first) ≡ type_signature show (part_type other))

  abbrev pub AllAgree : List FieldPart → Type 0
  AllAgree [] = Unit
  AllAgree (first ∷ others) = All (Agree first) others

  pub check_all_lem :
      (path : String) (first : FieldPart) (others : List FieldPart)
      → (check_all show path first others ≡ none) ↔ All (Agree first) others
  unfolding check_all check_types_agree
  check_all_lem path first [] = ((λ h. tt), (λ h. refl))
  check_all_lem path first (other ∷ others) =
      let later = check_all_lem path first others in
      let same =
        eq_iff (type_signature show (part_type first)) (type_signature show (part_type other)) in
      (
        (λ h. (ground (arith, same, h), later.0 (ground (arith, same, h)))),
        (λ (here, rest). let fine = later.1 rest in ground (arith, same, here, fine)),
      )
