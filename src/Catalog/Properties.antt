-- ===== src/Catalog/Properties.antt =====
-- pkg/catalog/conversion.go and pkg/model/types.go: what a catalog's properties say of a table.
pub mod Formats
use Prim.Native.Char.{code}
use xtable_go.Prelude.{
  ℕ, ◌==◌, String, Bool, not, ◌&&◌, ◌||◌, List, [], ◌∷◌, Option, none, some, if◌then◌else◌,
}
use xtable_go.Prelude.Results.{Result, ok, err, ◌>>=◌, map_err}
use xtable_go.Prelude.Text.{str_eq, concat}
use xtable_go.Prelude.Splitting.{trim_space, split_commas}
use xtable_go.Prelude.Dict
use xtable_go.Prelude.Dict.{Dict}
use xtable_go.Io.{cut_suffix}
use xtable_go.Model.Schema.{equal_fold}
use xtable_go.Model.Schema.{TableFormat}

-- model.SupportedTableFormats
abbrev pub supported_table_formats : List TableFormat
supported_table_formats = "HUDI" ∷ "ICEBERG" ∷ "DELTA" ∷ "PAIMON" ∷ "PARQUET" ∷ []

-- the first of the names that is the text but for the case of its letters
find_format : String → List TableFormat → Option TableFormat
find_format s [] = none
find_format s (f ∷ fs) = if equal_fold s f then some f else find_format s fs

-- model.ParseTableFormat; the names are in upper case, so a text whose upper case is the name is one
-- that is the same but for the case of its letters
unfoldable pub parse_table_format : String → Result TableFormat
unfolding find_format trim_space
parse_table_format s = elim (find_format (trim_space s) supported_table_formats) [
  | some f ↦ ok f
  | none ↦ err (
      concat (
        "unknown table format " ∷ s ∷ " (expected one of: DELTA, ICEBERG, HUDI, PAIMON, PARQUET)"
        ∷ []))
]

abbrev pub prop_table_type : String
prop_table_type = "table_type"

abbrev pub prop_spark_sql_sources_provider : String
prop_spark_sql_sources_provider = "spark.sql.sources.provider"

abbrev pub prop_target_formats : String
prop_target_formats = "polytable_target_formats"

-- `properties[key]`, with nothing around it
unfoldable pub property : String → Dict String → String
unfolding trim_space
property key properties = elim (Dict.lookup key properties) [ none ↦ "" | some v ↦ trim_space v ]

pub record TableFilter : Type 0 where
  pub require_conversion_markers : Bool

-- TableFilter.Matches
unfoldable pub matches : TableFilter → Dict String → Bool
unfolding property
matches f properties =
    not (f.require_conversion_markers && str_eq (property prop_target_formats properties) "")

unfoldable pub table_format_from_properties : Dict String → Result TableFormat
unfolding property parse_table_format
table_format_from_properties properties =
    let type = property prop_table_type properties in
    let raw =
      if str_eq type "" then property prop_spark_sql_sources_provider properties else type in
    if str_eq raw ""
    then err (
        concat (
          "catalog table properties carry neither " ∷ prop_table_type ∷ " nor "
          ∷ prop_spark_sql_sources_provider ∷ ", so the table format cannot be determined" ∷ []))
    else parse_table_format raw

unfoldable pub parse_formats : List String → Result (List TableFormat)
unfolding parse_table_format trim_space
parse_formats [] = ok []
parse_formats (part ∷ parts) =
    let rest = parse_formats parts in
    if str_eq (trim_space part) ""
    then rest
    else (map_err (λ e. concat ("property " ∷ prop_target_formats ∷ ": " ∷ e ∷ []))
          (parse_table_format (trim_space part))
        >>= λ f. rest >>= λ fs. ok (f ∷ fs))

unfoldable pub target_formats_from_properties : Dict String → Result (List TableFormat)
unfolding property split_commas parse_formats
target_formats_from_properties properties =
    let raw = property prop_target_formats properties in
    let (part, parts) = split_commas raw in
    if str_eq raw "" then ok [] else parse_formats (part ∷ parts)

-- the first of the properties that is not blank
first_property : List String → Dict String → Option String
unfolding property
first_property [] properties = none
first_property (k ∷ ks) properties =
    if str_eq (property k properties) ""
    then first_property ks properties
    else some (property k properties)

unfoldable pub data_location_for_format : TableFormat → String → Dict String → Result String
unfolding first_property
data_location_for_format format base_path properties =
    if str_eq format "DELTA"
      || str_eq format "HUDI"
      || str_eq format "PAIMON"
      || str_eq format "PARQUET"
    then ok base_path
    else if str_eq format "ICEBERG"
    then (elim (first_property
        ("write.data.path" ∷ "write.folder-storage.path" ∷ "write.object-storage.path" ∷ [])
        properties) [
          | some v ↦ ok v
          | none ↦ elim (cut_suffix "/" base_path) [
            | some trimmed ↦ ok (concat (trimmed ∷ "/data" ∷ []))
            | none ↦ ok (concat (base_path ∷ "/data" ∷ []))
          ]
        ])
    else err (concat ("unsupported table format for data location: " ∷ format ∷ []))
