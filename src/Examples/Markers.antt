-- ===== src/Examples/Markers.antt =====
-- A table that its properties mark for two formats.
use xtable_go.Prelude.{String, List, [], ◌∷◌, ◌≡◌, refl, All, true, false}
use xtable_go.Prelude.Results.{ok}
use xtable_go.Prelude.Dict
use xtable_go.Prelude.Dict.{Dict}
use xtable_go.Model.Schema.{TableFormat, equal_fold}
use xtable_go.Catalog.Properties.{target_formats_from_properties, matches}
use xtable_go.Prelude.Splitting.{trim_space}
use xtable_go.Catalog.Properties.Formats.{IsLocated, target_formats_from_properties-IsLocated}

abbrev marked : Dict String
marked = ("polytable_target_formats", " iceberg, Delta ,") ∷ []

marked_formats : target_formats_from_properties marked ≡ ok ("ICEBERG" ∷ "DELTA" ∷ [])
unfolding target_formats_from_properties Dict.lookup equal_fold trim_space
marked_formats = refl

target_formats_from_properties-IsLocated_example :
    ((fs : List TableFormat) → target_formats_from_properties marked ≡ ok fs → All IsLocated fs)
    × (matches (record { require_conversion_markers = true }) marked ≡ false
        → target_formats_from_properties marked ≡ ok [])
target_formats_from_properties-IsLocated_example = target_formats_from_properties-IsLocated marked
