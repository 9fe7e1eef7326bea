-- ===== src/Hudi/Active.antt =====
-- pkg/formats/hudi/source.go: the active files of a timeline by their paths, and partition columns.
use xtable_go.Prelude.{
  String, Bool, true, false, ◌&&◌, ◌||◌, List, [], ◌∷◌, none, some, if◌then◌else◌,
}
use xtable_go.Prelude.Text.{str_eq}
use xtable_go.Prelude.Splitting.{trim_space}
use xtable_go.Prelude.Dict.{Dict}
use xtable_go.Model.Schema.{
  Schema, schema_ref, field, no_field, field_ref, field_by_path, PartitionField, transform_value,
  new_primitive_schema,
}
use xtable_go.Model.Value.{Value}
use xtable_go.Model.Table.{DataFile, PartitionValue, new_scalar_range}

-- a partition field of a name: that of the schema, or else a new text column
partition_field : Schema → String → PartitionField
partition_field s name = record {
  source_field = elim (field_by_path (schema_ref s) name) [
    | field_ref f ↦ some f
    | no_field ↦
        some (field name "" (schema_ref (new_primitive_schema "STRING" true)) none Value.null)
  ];
  transform_type = transform_value;
  format = "";
  custom_partition_name = "";
}

unfoldable pub partition_fields : Schema → List String → List PartitionField
unfolding partition_field
partition_fields s [] = []
partition_fields s (raw ∷ names) =
    let name = trim_space raw in
    let rest = partition_fields s names in
    if str_eq name "" then rest else partition_field s name ∷ rest

unfoldable pub partition_values : List PartitionField → String → List PartitionValue
partition_values [] path = []
partition_values (pf ∷ pfs) path =
    record { partition_field = some pf; range = some (new_scalar_range (Value.text path)) }
    ∷ partition_values pfs path

-- activeFile
pub record ActiveFile : Type 0 where
  pub file : DataFile
  pub partition : String
  pub file_group : String

-- an id is among those of a list
abbrev pub contains : String → List String → Bool
contains id [] = false
contains id (other ∷ ids) = str_eq other id || contains id ids

-- the entries of a map that are not of a replaced file group of a partition
unfoldable pub drop_groups : String → List String → Dict ActiveFile → Dict ActiveFile
drop_groups partition ids [] = []
drop_groups partition ids ((path, f) ∷ active) =
    let rest = drop_groups partition ids active in
    if str_eq f.partition partition && contains f.file_group ids then rest else (path, f) ∷ rest

-- applyReplacedFileGroups; an empty list of ids drops nothing
unfoldable pub apply_replaced_file_groups : Dict (List String) → Dict ActiveFile → Dict ActiveFile
unfolding drop_groups
apply_replaced_file_groups [] active = active
apply_replaced_file_groups ((partition, ids) ∷ later) active =
    apply_replaced_file_groups later (drop_groups partition ids active)

abbrev pub data_files_of : Dict ActiveFile → List DataFile
data_files_of [] = []
data_files_of ((path, f) ∷ active) = f.file ∷ data_files_of active
