-- ===== src/Hudi/Properties.antt =====
-- pkg/formats/hudi/properties.go: the file .hoodie/hoodie.properties.
use xtable_go.Prelude.{String, ◌||◌, List, [], ◌∷◌, Option, none, some, if◌then◌else◌}
use xtable_go.Prelude.Int.{pos, ltb_ℤ}
use xtable_go.Prelude.Text.{str_eq, concat}
use xtable_go.Prelude.Decimal.{parse_int, format_int}
use xtable_go.Prelude.Splitting.{trim_space, cut_at}
use xtable_go.Prelude.Dict
use xtable_go.Prelude.Dict.{Dict}
use xtable_go.Io.{has_prefix}

abbrev pub prop_table_name : String
prop_table_name = "hoodie.table.name"

abbrev pub prop_table_type : String
prop_table_type = "hoodie.table.type"

abbrev pub prop_table_version : String
prop_table_version = "hoodie.table.version"

abbrev pub prop_base_file_format : String
prop_base_file_format = "hoodie.table.base.file.format"

abbrev pub prop_partition_fields : String
prop_partition_fields = "hoodie.table.partition.fields"

abbrev pub prop_table_schema : String
prop_table_schema = "hoodie.table.schema"

abbrev pub prop_timeline_layout_version : String
prop_timeline_layout_version = "hoodie.timeline.layout.version"

abbrev pub prop_populate_meta_fields : String
prop_populate_meta_fields = "hoodie.populate.meta.fields"

-- Get: the empty text where there is no value
unfoldable pub get_property : String → Dict String → String
get_property key props = elim (Dict.lookup key props) [ none ↦ "" | some v ↦ v ]

-- AssertReadableVersion: the error, for a version above 6
unfoldable pub assert_readable_version : Dict String → Option String
unfolding get_property
assert_readable_version props =
    elim (parse_int (trim_space (get_property prop_table_version props))) [
      | none ↦ none
      | some v ↦
          if ltb_ℤ (pos 6) v
          then some (
              concat (
                "hoodie.table.version "
                ∷ format_int v
                ∷ " is a Hudi 1.x table, which polytable cannot read yet (supported: version 6 and"
                ∷ " older)"
                ∷ []))
          else none
    ]

-- the loop of ParseProperties over the lines
unfoldable pub parse_lines : List String → Dict String → Dict String
parse_lines [] props = props
parse_lines (raw ∷ lines) props =
    let line = trim_space raw in
    parse_lines lines (
      if str_eq line "" || has_prefix "#" line || has_prefix "!" line
      then props
      else elim (cut_at b'=' line) [
        | none ↦ props
        | some (key, value) ↦ Dict.insert (trim_space key) (trim_space value) props
      ])

-- Serialize, line by line
unfoldable pub property_lines : Dict String → List String
property_lines [] = []
property_lines ((key, value) ∷ props) = concat (key ∷ "=" ∷ value ∷ []) ∷ property_lines props

unfoldable pub serialized_lines : Dict String → List String
unfolding property_lines
serialized_lines props = "# Generated by polytable" ∷ property_lines props
