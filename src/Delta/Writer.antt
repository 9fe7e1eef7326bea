-- ===== src/Delta/Writer.antt =====
-- pkg/formats/delta/target.go: the writer of a table, and the add action of a data file. `S` is the
-- state of the storage and of what else a commit reads of the world, the clock and fresh ids.
use xtable_go.Prelude.{String, true, List, [], ◌∷◌, Option, none, some, if◌then◌else◌}
use xtable_go.Prelude.Int.{ℤ}
use xtable_go.Prelude.Results.{Result, ok, err}
use xtable_go.Prelude.Dict
use xtable_go.Prelude.Dict.{Dict}
use xtable_go.Io.Relativize.{relativize_path}
use xtable_go.Model.Value.{Value, float32, float64, is_special32, is_special64}
use xtable_go.Model.Schema.{Field, field_name}
use xtable_go.Model.Table.{DataFile, PartitionValue, DeletionVector, ColumnStat}
use xtable_go.Model.SyncMetadata.{Codec}
use xtable_go.Delta.Actions.{SingleAction, AddAction, DeletionVectorInfo, StatsJson}
use xtable_go.Delta.Schema.{DeltaFields}
use xtable_go.Delta.Log.{Source}

-- The writer of one table. `source` reads the table in a state of the storage and `write` is
-- storage.Write; the others are json.Marshal, the verb %v, path.Clean, time.Now and uuid.New.
pub record Target (S : Type 0) : Type 0 where
  pub base_path : String
  pub local_join : List String → String
  pub source : S → Source
  pub write : String → String → S → S × Option String
  pub marshal_action : SingleAction → Result String
  pub marshal_schema : DeltaFields → Result String
  pub marshal_stats : StatsJson → Result String
  pub codec : Codec
  pub show : Value → String
  pub clean : String → String
  pub now : S → ℤ
  pub new_id : S → String

-- finiteBound
unfoldable pub finite_bound : Value → Option Value
finite_bound Value.null = none
finite_bound (float32 bits) = if is_special32 bits then none else some (float32 bits)
finite_bound (float64 bits) = if is_special64 bits then none else some (float64 bits)
finite_bound v = some v

unfoldable pub with_bound : String → Value → Dict Value → Dict Value
unfolding finite_bound
with_bound name v bounds = elim (finite_bound v) [
  | none ↦ bounds
  | some bound ↦ Dict.insert name bound bounds
]

-- one column's part of the statistics
unfoldable pub with_column : ColumnStat → StatsJson → StatsJson
unfolding with_bound
with_column cs stats = elim cs.of_field [
  | none ↦ stats
  | some f ↦ record {
    record_number = stats.record_number;
    least_values = elim cs.range [
      | none ↦ stats.least_values
      | some r ↦ with_bound (field_name f) r.min_value stats.least_values
    ];
    greatest_values = elim cs.range [
      | none ↦ stats.greatest_values
      | some r ↦ with_bound (field_name f) r.max_value stats.greatest_values
    ];
    null_numbers = Dict.insert (field_name f) cs.num_nulls stats.null_numbers;
  }
]

unfoldable pub with_columns : List ColumnStat → StatsJson → StatsJson
unfolding with_column
with_columns [] stats = stats
with_columns (cs ∷ later) stats = with_columns later (with_column cs stats)

file_stats : DataFile → StatsJson
unfolding with_columns
file_stats df = with_columns df.column_stats (record {
  record_number = df.record_count;
  least_values = [];
  greatest_values = [];
  null_numbers = [];
})

vector_info : DeletionVector → DeletionVectorInfo
vector_info dv = record {
  storage_type = "u";
  path_or_inline_dv = dv.storage_path;
  offset = some dv.offset;
  size_in_bytes = dv.size_in_bytes;
  cardinality = dv.cardinality;
}

-- the column that a partition value is of, where it has one
value_field : PartitionValue → Option Field
value_field pv = elim pv.partition_field [ none ↦ none | some pf ↦ pf.source_field ]

module _ {S : Type 0} (t : Target S) where
  -- makeRelativePath
  unfoldable pub make_relative_path : String → String
  make_relative_path path = elim (relativize_path t.clean path t.base_path) [
    | err _ ↦ path
    | ok rel ↦ rel
  ]

  partition_strings : List PartitionValue → Dict (Option String) → Dict (Option String)
  unfolding value_field
  partition_strings [] out = out
  partition_strings (pv ∷ pvs) out = elim (value_field pv) [
    | none ↦ partition_strings pvs out
    | some f ↦ elim pv.range [
      | none ↦ partition_strings pvs out
      | some r ↦ elim r.min_value [
        | Value.null ↦ partition_strings pvs (Dict.insert (field_name f) none out)
        | v ↦ partition_strings pvs (Dict.insert (field_name f) (some (t.show v)) out)
      ]
    ]
  ]

  unfoldable pub convert_data_file_to_add_action : DataFile → AddAction
  unfolding partition_strings file_stats vector_info
  convert_data_file_to_add_action df = record {
    path = make_relative_path df.physical_path;
    partition_values = partition_strings df.partition_values [];
    size = df.file_size_bytes;
    modification_time = df.last_modified;
    data_change = true;
    stats = elim (t.marshal_stats (file_stats df)) [ err _ ↦ "" | ok text ↦ text ];
    tags = [];
    deletion_vector = elim df.deletion_vector [ none ↦ none | some dv ↦ some (vector_info dv) ];
  }
