-- ===== src/Delta/Checkpoint.antt =====
-- pkg/formats/delta/checkpoint.go: the pointer to the last checkpoint and the rows of a checkpoint.
-- Decoding the JSON of the one and the Parquet of the other is done by libraries.
use xtable_go.Prelude.{
  ℕ, zero, suc, String, Bool, true, false, ◌||◌, List, [], ◌∷◌, ◌++◌, Option, none, some,
  if◌then◌else◌,
}
use xtable_go.Prelude.Int.{ℤ, pos}
use xtable_go.Prelude.Results.{Result, ok, err, ◌>>=◌}
use xtable_go.Prelude.Text.{str_eq, concat}
use xtable_go.Prelude.Dict.{Dict}
use xtable_go.Prelude.Decimal.{format_int, format_padded}
use xtable_go.Delta.Actions.{AddAction, MetadataAction, DeletionVectorInfo, FormatProvider}

pub record LastCheckpointFile : Type 0 where
  pub version : ℤ
  pub size : ℤ
  pub parts : Option ℤ

pub record CheckpointState : Type 0 where
  pub version : ℤ
  pub meta : MetadataAction
  pub adds : List AddAction

pub record CpDeletionVector : Type 0 where
  pub storage_type : String
  pub path_or_inline_dv : String
  pub offset : Option ℤ
  pub size_in_bytes : ℤ
  pub cardinality : ℤ

pub record CpAdd : Type 0 where
  pub path : String
  pub partition_values : Dict (Option String)
  pub size : ℤ
  pub modification_time : ℤ
  pub data_change : Bool
  pub stats : String
  pub tags : Dict String
  pub deletion_vector : Option CpDeletionVector

pub record CpMetaData : Type 0 where
  pub id : String
  pub name : String
  pub description : String
  pub format : FormatProvider
  pub schema_string : String
  pub partition_columns : List String
  pub created_time : Option ℤ
  pub configuration : Dict String

pub record CpProtocol : Type 0 where
  pub min_reader_version : ℤ
  pub min_writer_version : ℤ
  pub reader_features : List String
  pub writer_features : List String

pub record CpRow : Type 0 where
  pub add : Option CpAdd
  pub meta_data : Option CpMetaData
  pub protocol : Option CpProtocol
  pub sidecar : Option String

meta_to_action : CpMetaData → MetadataAction
meta_to_action m = record {
  id = m.id;
  name = m.name;
  description = m.description;
  format = m.format;
  schema_string = m.schema_string;
  partition_columns = m.partition_columns;
  configuration = m.configuration;
  created_time = elim m.created_time [ none ↦ pos 0 | some t ↦ t ];
}

vector_to_info : CpDeletionVector → DeletionVectorInfo
vector_to_info dv = record {
  storage_type = dv.storage_type;
  path_or_inline_dv = dv.path_or_inline_dv;
  offset = dv.offset;
  size_in_bytes = dv.size_in_bytes;
  cardinality = dv.cardinality;
}

add_to_action : CpAdd → AddAction
unfolding vector_to_info
add_to_action a = record {
  path = a.path;
  partition_values = a.partition_values;
  size = a.size;
  modification_time = a.modification_time;
  data_change = a.data_change;
  stats = a.stats;
  tags = a.tags;
  deletion_vector = elim a.deletion_vector [ none ↦ none | some dv ↦ some (vector_to_info dv) ];
}

checkpoint_prefix : ℤ → String
checkpoint_prefix version = concat (format_padded 20 version ∷ ".checkpoint" ∷ [])

-- the names of parts i, i + 1, … of `parts`, with `left` of them to come
part_names : ℕ → ℕ → ℕ → String → List String
unfolding checkpoint_prefix
part_names zero i parts prefix = []
part_names (suc left) i parts prefix =
    concat (
      prefix
      ∷ "."
      ∷ format_padded 10 (pos i)
      ∷ "."
      ∷ format_padded 10 (pos parts)
      ∷ ".parquet"
      ∷ [])
    ∷ part_names left (suc i) parts prefix

unfoldable pub checkpoint_part_files : LastCheckpointFile → List String
unfolding part_names checkpoint_prefix
checkpoint_part_files cp = elim cp.parts [
  | some (pos (suc (suc n))) ↦
      part_names (suc (suc n)) 1 (suc (suc n)) (checkpoint_prefix cp.version)
  | _ ↦ concat (checkpoint_prefix cp.version ∷ ".parquet" ∷ []) ∷ []
]

contains : List String → String → Bool
contains [] x = false
contains (y ∷ ys) x = str_eq y x || contains ys x

has_sidecar : CpRow → Bool
has_sidecar row = elim row.sidecar [ none ↦ false | some p ↦ if str_eq p "" then false else true ]

is_v2 : CpRow → Bool
unfolding contains
is_v2 row = elim row.protocol [ none ↦ false | some p ↦ contains p.reader_features "v2Checkpoint" ]

-- the metadata and the files that the rows read so far have
abbrev pub Found : Type 0
Found = Option MetadataAction × List AddAction

-- one row: the first case that holds
found_in_row : CpRow → Found → Found
unfolding meta_to_action add_to_action
found_in_row row (meta, adds) = elim row.meta_data [
  | some m ↦ (some (meta_to_action m), adds)
  | none ↦ elim row.add [ some a ↦ (meta, adds ++ (add_to_action a ∷ [])) | none ↦ (meta, adds) ]
]

unfoldable pub read_rows : String → List CpRow → Found → Result Found
unfolding has_sidecar is_v2 found_in_row
read_rows path [] found = ok found
read_rows path (row ∷ rows) found =
    let rest = read_rows path rows (found_in_row row found) in
    if has_sidecar row
    then err (
        concat (
          "delta checkpoint " ∷ path
          ∷ " is a v2 checkpoint with sidecar files, which is not supported yet" ∷ []))
    else if is_v2 row
    then err (
        concat (
          "delta checkpoint " ∷ path
          ∷ " declares the v2Checkpoint reader feature, which is not supported yet" ∷ []))
    else rest

-- the part files in turn; `rows_at` reads and decodes one
unfoldable pub read_parts :
    (String → String) → (String → Result (List CpRow)) → List String → Found → Result Found
unfolding read_rows
read_parts path_of rows_at [] found = ok found
read_parts path_of rows_at (name ∷ names) found = rows_at (path_of name) >>= λ rows.
    read_rows (path_of name) rows found >>= λ found'. read_parts path_of rows_at names found'

unfoldable pub read_checkpoint :
    (String → String) → (String → Result (List CpRow)) → LastCheckpointFile → Result CheckpointState
unfolding read_parts checkpoint_part_files
read_checkpoint path_of rows_at cp =
    read_parts path_of rows_at (checkpoint_part_files cp) (none, []) >>= λ found. elim found.0 [
      | none ↦ err (
          concat (
            "delta checkpoint at version "
            ∷ format_int cp.version
            ∷ " carries no metaData action"
            ∷ []))
      | some m ↦ ok (record { version = cp.version; meta = m; adds = found.1 })
    ]
