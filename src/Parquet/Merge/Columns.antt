-- ===== src/Parquet/Merge/Columns.antt =====
-- Which columns the merge of several files' schemas has, and which of them are nullable.
use mathlib.Core.List.{append-nil, append_assoc}
use xtable_go.Prelude.{
  ℕ, suc, zero, String, Bool, true, false, ◌||◌, List, [], ◌∷◌, ◌++◌, Option, none, some, ◌≡◌, refl,
  sym, ap, ◌∙◌, arith, if◌then◌else◌, Bool-cases, inl, inr, subst, length, ltb,
}
use xtable_go.Prelude.Results.{Result, ok, err, ◌>>=◌, >>=-eq-ok, ok-injective}
use xtable_go.Prelude.Text.{str_eq, eq_iff}
use xtable_go.Prelude.Keyed.{is_some}
use xtable_go.Prelude.Dict
use xtable_go.Prelude.Dict.{Dict}
use xtable_go.Model.Value.{Value}
use xtable_go.Model.Schema.{
  Schema, schema, SchemaRef, schema_ref, Field, field, Fields, nil, cons, field_name,
}
use xtable_go.Parquet.Footer.{path_below}
use xtable_go.Parquet.Merge.{
  RecordPart, FieldPart, part_type, is_nullable, with_nullable, check_all, schema_fields,
  gather_fields, gather, nullable_part, merge_column, merge_columns, merge_records,
}

-- the occurrences of a column in a list of fields, and in all parts
abbrev pub named : String → String → Fields → List FieldPart
named name file nil = []
named name file (cons f fs) =
    if str_eq (field_name f) name
    then record { field_file = file; part_field = f } ∷ named name file fs
    else named name file fs

abbrev pub columns_of : String → List RecordPart → List FieldPart
columns_of name [] = []
columns_of name (part ∷ parts) =
    named name part.record_file (schema_fields part.record_schema) ++ columns_of name parts

abbrev pub any_nullable : List FieldPart → Bool
any_nullable [] = false
any_nullable (part ∷ parts) = is_nullable (part_type part) || any_nullable parts

abbrev pub find_column : String → Fields → Option Field
find_column name nil = none
find_column name (cons f fs) = if str_eq (field_name f) name then some f else find_column name fs

abbrev pub is_in : String → List String → Bool
is_in name [] = false
is_in name (n ∷ ns) = str_eq n name || is_in name ns

abbrev pub non_empty : List FieldPart → Bool
non_empty [] = false
non_empty (part ∷ parts) = true

abbrev pub or_empty : Option (List FieldPart) → List FieldPart
or_empty none = []
or_empty (some parts) = parts

-- what has been gathered of a name is this list, and the name is in the order where it is not empty
abbrev pub IsGathered : String → List FieldPart → List String × Dict (List FieldPart) → Type 0
IsGathered name found (order, occurrences) =
    (or_empty (Dict.lookup name occurrences) ≡ found)
    × (is_in name order ≡ non_empty found)
    × (is_some (Dict.lookup name occurrences) ≡ non_empty found)

is_in-append :
    (name : String) (xs ys : List String) → is_in name (xs ++ ys) ≡ (is_in name xs || is_in name ys)
is_in-append name [] ys = refl
is_in-append name (x ∷ xs) ys = ground (arith, is_in-append name xs ys)

non_empty-append : (xs : List FieldPart) (y : FieldPart) → non_empty (xs ++ y ∷ []) ≡ true
non_empty-append [] y = refl
non_empty-append (x ∷ xs) y = refl

abbrev part_of : String → Field → FieldPart
part_of file f = record { field_file = file; part_field = f }

abbrev with_one :
    String → Field → List String × Dict (List FieldPart) → List String × Dict (List FieldPart)
with_one file f (order, occurrences) = elim (Dict.lookup (field_name f) occurrences) [
  | none ↦
      (order ++ field_name f ∷ [], Dict.insert (field_name f) (part_of file f ∷ []) occurrences)
  | some parts ↦ (order, Dict.insert (field_name f) (parts ++ part_of file f ∷ []) occurrences)
]

with_one-IsGathered :
    (name file : String) (f : Field) (found : List FieldPart) (order : List String)
    (occurrences : Dict (List FieldPart))
    → IsGathered name found (order, occurrences)
    → IsGathered name (found ++ named name file (cons f nil)) (with_one file f (order, occurrences))
with_one-IsGathered name file f found order occurrences (at, listed, there) =
    let inserted = Dict.lookup-insert {V = List FieldPart} (field_name f) name in
    ground (
      arith,
      inserted (part_of file f ∷ []) occurrences,
      inserted (or_empty (Dict.lookup (field_name f) occurrences) ++ part_of file f ∷ [])
          occurrences,
      eq_iff (field_name f) name,
      is_in-append name order (field_name f ∷ []),
      non_empty-append found (part_of file f),
      append-nil found,
    )

gather_fields-IsGathered :
    (name file : String) (fs : Fields) (found : List FieldPart) (order : List String)
    (occurrences : Dict (List FieldPart))
    → IsGathered name found (order, occurrences)
    → IsGathered name (found ++ named name file fs) (gather_fields file fs (order, occurrences))
unfolding gather_fields
gather_fields-IsGathered name file nil found order occurrences h = rw (append-nil found) h
gather_fields-IsGathered name file (cons f fs) found order occurrences h =
    let (order', occurrences') = with_one file f (order, occurrences) in
    subst (λ l. IsGathered name l (gather_fields file fs (with_one file f (order, occurrences))))
      (append_assoc found (named name file (cons f nil)) (named name file fs)
        ∙ ap (found ++◌) (ground arith))
      (gather_fields-IsGathered name file fs (found ++ named name file (cons f nil)) order'
        occurrences' (with_one-IsGathered name file f found order occurrences h))

pub gather-IsGathered :
    (name : String) (parts : List RecordPart) (found : List FieldPart) (order : List String)
    (occurrences : Dict (List FieldPart))
    → IsGathered name found (order, occurrences)
    → IsGathered name (found ++ columns_of name parts) (gather parts (order, occurrences))
unfolding gather
gather-IsGathered name [] found order occurrences h = rw (append-nil found) h
gather-IsGathered name (part ∷ parts) found order occurrences h =
    let file = part.record_file in
    let fs = schema_fields part.record_schema in
    let gathered = gather_fields file fs (order, occurrences) in
    subst (λ l. IsGathered name l (gather parts gathered))
      (append_assoc found (named name file fs) (columns_of name parts))
      (gather-IsGathered name parts (found ++ named name file fs) gathered.0 gathered.1
        (gather_fields-IsGathered name file fs found order occurrences h))

nullable_part-any :
    (path : String) (parts : List FieldPart) (before after : Bool)
    → nullable_part path parts before ≡ ok after
    → after ≡ (before || any_nullable parts)
unfolding nullable_part
nullable_part-any path [] before after h = ground (arith, ok-injective h)
nullable_part-any path (part ∷ parts) before after h =
    ground (arith, nullable_part-any path parts (before || is_nullable (part_type part)) after)

abbrev field_type : Field → SchemaRef
field_type (field _ _ type _ _) = type

-- the column of the merge at a name, of what stands in the parts at it
abbrev pub IsMerged : ℕ → String → List FieldPart → Option Field → Type 0
IsMerged parts name [] f = f ≡ none
IsMerged parts name (first ∷ others) f =
    (g : Field) × (f ≡ some g)
    × (field_name g ≡ name)
    × (is_nullable (field_type g)
        ≡ (ltb (length (first ∷ others)) parts || any_nullable (first ∷ others)))

module _ (show : Value → String) (merge_nested : List RecordPart → String → Result Schema) where
  merge_column-IsMerged :
      (parts : ℕ) (parent name : String) (found : List FieldPart) (g : Field)
      → merge_column show merge_nested parts parent name found ≡ ok g
      → (field_name g ≡ name) × IsMerged parts name found (some g)
  unfolding merge_column
  merge_column-IsMerged parts parent name [] g h = cc
  merge_column-IsMerged parts parent name (first ∷ others) g h =
      let found = first ∷ others in
      let (nullable, told, h1) =
        >>=-eq-ok (nullable_part (path_below parent name) found (ltb (length found) parts)) _ h in
      let same = nullable_part-any _ found _ nullable told in
      made nullable first.part_field (check_all show (path_below parent name) first others) _ g h1
        same
    where
      made :
          (nullable : Bool) (f : Field) (refused : Option String) (type : Result Schema) (g : Field)
          → elim refused as (λ x. Result Field) [
            | some e ↦ err e
            | none ↦ type >>= λ s. elim f [
              | field _ parent_path _ id default ↦
                  ok (field name parent_path (schema_ref (with_nullable nullable s)) id default)
            ]
          ]
            ≡ ok g
          → nullable ≡ (ltb (length (first ∷ others)) parts || any_nullable (first ∷ others))
          → (field_name g ≡ name) × IsMerged parts name (first ∷ others) (some g)
      made nullable f (some e) type g h same = cc
      made nullable f none (err e) g h same = cc
      made nullable (field _ parent_path _ id default) none (ok (schema _ _ _ _ _ _ _ _ _ _)) g h
            same =
          let built = ok-injective h in
          (
            ap field_name (sym built),
            (
              g,
              refl,
              ap field_name (sym built),
              ap (λ x. is_nullable (field_type x)) (sym built) ∙ same,
            ),
          )

  merge_columns-IsMerged :
      (parts : ℕ) (parent name : String) (occurrences : Dict (List FieldPart)) (names : List String)
      (fs : Fields)
      → merge_columns show merge_nested parts parent occurrences names ≡ ok fs
      → (is_in name names ≡ true
          → IsMerged parts name (or_empty (Dict.lookup name occurrences)) (find_column name fs))
        × (is_in name names ≡ false → find_column name fs ≡ none)
  unfolding merge_columns
  merge_columns-IsMerged parts parent name occurrences [] fs h =
      (λ there. cc, λ out. rw (← ok-injective h) refl)
  merge_columns-IsMerged parts parent name occurrences (n ∷ names) fs h =
      let (g, merged, h1) =
        >>=-eq-ok
          (merge_column show merge_nested parts parent n (or_empty (Dict.lookup n occurrences))) _
          h in
      let (later, rest, h2) =
        >>=-eq-ok (merge_columns show merge_nested parts parent occurrences names) _ h1 in
      let at =
        merge_column-IsMerged parts parent n (or_empty (Dict.lookup n occurrences)) g merged in
      let below = merge_columns-IsMerged parts parent name occurrences names later rest in
      rw (← ok-injective h2) (elim (Bool-cases (str_eq n name)) [
        | inl e ↦ (
          λ there.
              rw (at.0, e)
                (subst (λ x. IsMerged parts x (or_empty (Dict.lookup x occurrences)) (some g))
                  ((eq_iff n name).0 e) at.1),
          λ out. absurd (ground arith),
        )
        | inr e ↦ rw (at.0, e) below
      ])

-- a name that is in the order where something stands at it
either_way :
    (parts : ℕ) (name : String) (found : List FieldPart) (f : Option Field) (listed : Bool)
    → listed ≡ non_empty found
    → (listed ≡ true → IsMerged parts name found f)
    → (listed ≡ false → f ≡ none)
    → IsMerged parts name found f
either_way parts name [] f listed h there out = out h
either_way parts name (first ∷ others) f listed h there out = there h

module _ (show : Value → String) where
  -- A merge of records that can be had has a column at exactly the names that a field of one of them
  -- has, and the column is nullable exactly where it stands in fewer fields than there are records, or
  -- is nullable in one of them.
  pub merge_records-IsMerged :
      (fuel : ℕ) (parts : List RecordPart) (parent : String) (s : Schema)
      → merge_records show fuel parts parent ≡ ok s
      → (name : String)
      → IsMerged (length parts) name (columns_of name parts) (find_column name (schema_fields s))
  unfolding merge_records
  merge_records-IsMerged fuel [] parent s h name = cc
  merge_records-IsMerged zero (part ∷ parts) parent s h name = cc
  merge_records-IsMerged (suc fuel) (part ∷ parts) parent s h name =
      let (order, occurrences) = gather (part ∷ parts) ([], []) in
      let gathered =
        gather-IsGathered name (part ∷ parts) [] [] []
          (rw (Dict.lookup-nil {V = List FieldPart} name) (refl, refl, refl)) in
      let (fs, columns, made) =
        >>=-eq-ok
          (merge_columns show (merge_records show fuel) (length (part ∷ parts)) parent occurrences
            order)
          _ h in
      let at =
        merge_columns-IsMerged show (merge_records show fuel) (length (part ∷ parts)) parent name
          occurrences order fs columns in
      rw (← ok-injective made) (
        either_way _ name _ _ _ gathered.1
          (λ there.
            subst (λ l. IsMerged (length (part ∷ parts)) name l (find_column name fs)) gathered.0
              (at.0 there))
          at.1)
