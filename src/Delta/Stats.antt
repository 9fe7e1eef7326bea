-- ===== src/Delta/Stats.antt =====
-- pkg/formats/delta: the statistics of a data file, out of the JSON that an add action carries.
use xtable_go.Prelude.{
  ℕ, String, Bool, false, List, [], ◌∷◌, ◌++◌, Option, none, some, if◌then◌else◌,
}
use xtable_go.Prelude.Int.{ℤ, pos}
use xtable_go.Prelude.Results.{Result, ok, err, ◌>>=◌}
use xtable_go.Prelude.Text.{str_eq, concat}
use xtable_go.Prelude.Dict
use xtable_go.Prelude.Dict.{Dict}
use xtable_go.Model.Value.{Value, Members, object, end, member, float64}
use xtable_go.Model.Schema.{
  Schema, schema, SchemaRef, no_schema, schema_ref, Field, field, Fields, nil, cons, type_record,
}
use xtable_go.Model.Table.{ColumnStat}

abbrev path_under : String → String → String
path_under prefix name = if str_eq prefix "" then name else concat (prefix ∷ "." ∷ name ∷ [])

-- flattenStatsMap: each value that is no object, at its dotted path
unfoldable mutual
  pub flatten_stats_map : Members → String → Dict Value → Dict Value
  flatten_stats_map end prefix out = out
  flatten_stats_map (member name v rest) prefix out =
      flatten_stats_map rest prefix (flatten_stats_value v (path_under prefix name) out)

  flatten_stats_value : Value → String → Dict Value → Dict Value
  flatten_stats_value (object nested) path out = flatten_stats_map nested path out
  flatten_stats_value v path out = Dict.insert path v out

abbrev or_null : Option Value → Value
or_null none = Value.null
or_null (some v) = v

abbrev is_record : SchemaRef → Bool
is_record no_schema = false
is_record (schema_ref (schema _ data_type _ _ _ _ _ _ _ _)) = str_eq data_type type_record

-- int64FromStatsValue. `truncate` is the conversion of a float64 to int64.
module _ (truncate : ℕ → ℤ) where
  unfoldable pub int64_from_stats_value : Value → Option ℤ
  int64_from_stats_value (float64 bits) = some (truncate bits)
  int64_from_stats_value v = none

  -- the null count at a path: absent, malformed, or a number
  pub null_count_at : Dict Value → String → Result (Option ℤ)
  unfolding int64_from_stats_value
  null_count_at null_counts path = elim (Dict.lookup path null_counts) [
    | none ↦ ok none
    | some raw ↦ elim (int64_from_stats_value raw) [
      | none ↦ err (concat ("nullCount at " ∷ path ∷ " is not a number" ∷ []))
      | some n ↦ ok (some n)
    ]
  ]

  -- the statistics of one field, if there are any
  pub field_stat : Field → Option Value → Option Value → Option ℤ → List ColumnStat
  field_stat f none none none = []
  field_stat f none none (some nulls) =
      record {
        of_field = some f;
        range = none;
        num_nulls = nulls;
        num_nans = pos 0;
        total_values = pos 0;
      }
      ∷ []
  field_stat f min max nulls =
      record {
        of_field = some f;
        range = some (record { min_value = or_null min; max_value = or_null max });
        num_nulls = elim nulls [ none ↦ pos 0 | some n ↦ n ];
        num_nans = pos 0;
        total_values = pos 0;
      }
      ∷ []

  -- columnStatsFromFlatMaps
  module _ (min_values max_values null_counts : Dict Value) where
    unfoldable mutual
      pub column_stats : SchemaRef → String → Result (List ColumnStat)
      column_stats no_schema prefix = ok []
      column_stats (schema_ref s) prefix = schema_column_stats s prefix

      schema_column_stats : Schema → String → Result (List ColumnStat)
      schema_column_stats (schema _ _ _ _ fields _ _ _ _ _) prefix =
          fields_column_stats fields prefix

      fields_column_stats : Fields → String → Result (List ColumnStat)
      fields_column_stats nil prefix = ok []
      fields_column_stats (cons f fields) prefix = field_column_stats f prefix >>= λ here.
          fields_column_stats fields prefix >>= λ later. ok (here ++ later)

      field_column_stats : Field → String → Result (List ColumnStat)
      field_column_stats (field name parent type id default) prefix =
          let path = path_under prefix name in
          let nested = column_stats type path in
          null_count_at null_counts path >>= λ nulls.
          (if is_record type then nested else ok []) >>= λ below. ok (
            field_stat (field name parent type id default) (Dict.lookup path min_values)
              (Dict.lookup path max_values) nulls
            ++ below)
