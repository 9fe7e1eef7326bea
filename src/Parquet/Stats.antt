-- ===== src/Parquet/Stats.antt =====
-- pkg/formats/parquet/stats.go: the statistics of a file's columns, from the footer's row groups.
use xtable_go.Prelude.{
  ℕ, zero, suc, String, Bool, ◌||◌, List, [], ◌∷◌, Option, none, some, ◌^◌, ◌/◌, ◌%◌, ◌==◌, ◌&&◌,
  not, if◌then◌else◌,
}
use xtable_go.Prelude.Int.{ℤ, pos, negsuc, add64, ltb_ℤ}
use xtable_go.Prelude.Text.{str_eq, join}
use xtable_go.Prelude.Keyed.{is_some}
use xtable_go.Model.Value.{Value, null, bool, int, float32, float64, text, bytes}
use xtable_go.Model.Schema.{
  Schema, schema, SchemaRef, no_schema, schema_ref, field, field_ref, no_field, field_by_path,
  type_string,
}
use xtable_go.Model.Types.{type_decimal, new_range}
use xtable_go.Model.Table.{ColumnStat, Range}
use xtable_go.Parquet.Footer.{LeafType, type_enum}

-- parquet.Value; bytes are the text of them, and a float is its bit pattern
pub data ParquetValue : Type 0 where
  null_value : ParquetValue
  boolean_value : Bool → ParquetValue
  int32_value int64_value : ℤ → ParquetValue
  int96_value : ParquetValue
  float_value double_value : ℕ → ParquetValue
  bytes_value : String → ParquetValue

-- a column chunk of a row group; those of other kinds than FileColumnChunk are passed over
pub record ColumnChunk : Type 0 where
  pub is_file_chunk : Bool
  pub column : ℤ
  pub chunk_type : Option LeafType
  pub num_values : ℤ
  pub null_count : ℤ
  pub bounds : Option (ParquetValue × ParquetValue)

-- what the footer says beside the schema: the paths of the leaf columns, and the row groups
pub record RowGroups : Type 0 where
  pub columns : List (List String)
  pub row_groups : List (List ColumnChunk)

pub record ColumnAggregate : Type 0 where
  pub aggregate_path : String
  pub column_type : Option LeafType
  pub total_values : ℤ
  pub total_nulls : ℤ
  pub aggregate_bounds : Option (ParquetValue × ParquetValue)

-- math.IsNaN
is_nan32 : ℕ → Bool
is_nan32 bits = bits / 2 ^ 23 % 2 ^ 8 == 255 && not (bits % 2 ^ 23 == 0)

is_nan64 : ℕ → Bool
is_nan64 bits = bits / 2 ^ 52 % 2 ^ 11 == 2047 && not (bits % 2 ^ 52 == 0)

type_of : Schema → String
type_of (schema _ t _ _ _ _ _ _ _ _) = t

-- valueToModel, of a value and a schema that are there
bound_value : ParquetValue → String → Option Value
unfolding is_nan32 is_nan64
bound_value null_value t = none
bound_value (boolean_value b) t = some (bool b)
bound_value (int32_value n) t = some (int n)
bound_value (int64_value n) t = some (int n)
bound_value int96_value t = none
bound_value (float_value bits) t = if is_nan32 bits then none else some (float32 bits)
bound_value (double_value bits) t = if is_nan64 bits then none else some (float64 bits)
bound_value (bytes_value raw) t =
    if str_eq t type_string || str_eq t type_enum then some (text raw) else some (bytes raw)

unfoldable pub value_to_model : ParquetValue → SchemaRef → Option Value
unfolding bound_value type_of
value_to_model value no_schema = none
value_to_model value (schema_ref s) =
    if str_eq (type_of s) type_decimal then none else bound_value value (type_of s)

-- `any` of a bound that may be missing
abbrev or_nil : Option Value → Value
or_nil none = null
or_nil (some v) = v

-- the range, where a bound can be told
abbrev range_of : SchemaRef → Option (ParquetValue × ParquetValue) → Option Range
range_of type none = none
range_of type (some (min, max)) =
    let low = value_to_model min type in
    let high = value_to_model max type in
    if is_some low || is_some high then some (new_range (or_nil low) (or_nil high)) else none

-- columnStatsForSchema
unfoldable pub column_stats_for_schema : List ColumnAggregate → SchemaRef → List ColumnStat
unfolding value_to_model
column_stats_for_schema [] s = []
column_stats_for_schema (agg ∷ aggs) s =
    let rest = column_stats_for_schema aggs s in
    elim (field_by_path s agg.aggregate_path) [
      | no_field ↦ rest
      | field_ref (field name parent type id default) ↦
          record {
            of_field = some (field name parent type id default);
            range = range_of type agg.aggregate_bounds;
            num_nulls = agg.total_nulls;
            num_nans = pos 0;
            total_values = agg.total_values;
          }
          ∷ rest
    ]

-- `compare` is the Compare of a column's type
module _ (compare : LeafType → ParquetValue → ParquetValue → ℤ) where
  -- columnAggregate.merge
  unfoldable pub merge_bounds :
      Option LeafType
      → Option (ParquetValue × ParquetValue)
      → ParquetValue × ParquetValue
      → ParquetValue × ParquetValue
  merge_bounds type none new = new
  merge_bounds none (some old) new = old
  merge_bounds (some type) (some (old_min, old_max)) (new_min, new_max) = (
    if ltb_ℤ (compare type new_min old_min) (pos 0) then new_min else old_min,
    if ltb_ℤ (pos 0) (compare type new_max old_max) then new_max else old_max,
  )

  -- a chunk's part in the aggregate of its column
  add_chunk : ColumnChunk → List String → Option ColumnAggregate → ColumnAggregate
  unfolding merge_bounds
  add_chunk chunk path known =
      let agg : ColumnAggregate = elim known [
        | some a ↦ a
        | none ↦ record {
          aggregate_path = join "." path;
          column_type = chunk.chunk_type;
          total_values = pos 0;
          total_nulls = pos 0;
          aggregate_bounds = none;
        }
      ] in
      record {
        aggregate_path = agg.aggregate_path;
        column_type = agg.column_type;
        total_values = add64 agg.total_values chunk.num_values;
        total_nulls = add64 agg.total_nulls chunk.null_count;
        aggregate_bounds = elim chunk.bounds [
          | none ↦ agg.aggregate_bounds
          | some new ↦ some (merge_bounds agg.column_type agg.aggregate_bounds new)
        ];
      }

  -- the aggregate at an index, where there is a column of it
  at_column :
      ℕ
      → ColumnChunk
      → List (List String)
      → List (Option ColumnAggregate)
      → List (Option ColumnAggregate)
  unfolding add_chunk
  at_column n chunk [] aggs = aggs
  at_column n chunk (path ∷ paths) [] = []
  at_column zero chunk (path ∷ paths) (agg ∷ aggs) = some (add_chunk chunk path agg) ∷ aggs
  at_column (suc n) chunk (path ∷ paths) (agg ∷ aggs) = agg ∷ at_column n chunk paths aggs

  fold_chunk :
      List (List String)
      → ColumnChunk
      → List (Option ColumnAggregate)
      → List (Option ColumnAggregate)
  unfolding at_column
  fold_chunk paths chunk aggs =
      if chunk.is_file_chunk
      then elim chunk.column [ pos n ↦ at_column n chunk paths aggs | negsuc _ ↦ aggs ]
      else aggs

  fold_chunks :
      List (List String)
      → List ColumnChunk
      → List (Option ColumnAggregate)
      → List (Option ColumnAggregate)
  unfolding fold_chunk
  fold_chunks paths [] aggs = aggs
  fold_chunks paths (chunk ∷ chunks) aggs = fold_chunks paths chunks (fold_chunk paths chunk aggs)

  fold_row_groups :
      List (List String)
      → List (List ColumnChunk)
      → List (Option ColumnAggregate)
      → List (Option ColumnAggregate)
  unfolding fold_chunks
  fold_row_groups paths [] aggs = aggs
  fold_row_groups paths (chunks ∷ groups) aggs =
      fold_row_groups paths groups (fold_chunks paths chunks aggs)

  -- `make([]*columnAggregate, len(paths))`
  no_aggregates : List (List String) → List (Option ColumnAggregate)
  no_aggregates [] = []
  no_aggregates (path ∷ paths) = none ∷ no_aggregates paths

  present : List (Option ColumnAggregate) → List ColumnAggregate
  present [] = []
  present (none ∷ aggs) = present aggs
  present (some agg ∷ aggs) = agg ∷ present aggs

  -- footerAggregates
  unfoldable pub footer_aggregates : RowGroups → List ColumnAggregate
  unfolding fold_row_groups no_aggregates present
  footer_aggregates file =
      present (fold_row_groups file.columns file.row_groups (no_aggregates file.columns))
