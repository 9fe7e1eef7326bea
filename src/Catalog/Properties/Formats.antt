-- ===== src/Catalog/Properties/Formats.antt =====
-- The formats that a table is marked for, and where their data lies.
use xtable_go.Prelude.{
  String, true, false, List, [], ◌∷◌, some, ◌≡◌, refl, subst, All, inl, inr, Bool-cases,
  Option-cases,
}
use xtable_go.Prelude.Splitting.{trim_space, split_commas}
use xtable_go.Prelude.Results.{map_err-eq-ok, ok, err, >>=-eq-ok, ok-injective}
use xtable_go.Prelude.Text.{str_eq}
use xtable_go.Prelude.Dict.{Dict}
use xtable_go.Io.{cut_suffix}
use xtable_go.Model.Schema.{TableFormat, equal_fold}
use xtable_go.Catalog.Properties.{
  supported_table_formats, find_format, parse_table_format, property, prop_target_formats,
  parse_formats, target_formats_from_properties, first_property, data_location_for_format, matches,
}

-- a location of the data is told, whatever the base path and the properties
abbrev pub IsLocated : TableFormat → Type 0
IsLocated f =
    (base : String) (properties : Dict String)
    → (loc : String) × (data_location_for_format f base properties ≡ ok loc)

iceberg-IsLocated : IsLocated "ICEBERG"
unfolding data_location_for_format
iceberg-IsLocated base properties =
    elim (Option-cases (
      first_property
        ("write.data.path" ∷ "write.folder-storage.path" ∷ "write.object-storage.path" ∷ [])
        properties)) [
          | inl p ↦ elim (Option-cases (cut_suffix "/" base)) [
            | inl q ↦ rw (p, q) (_, refl)
            | inr (t, q) ↦ rw (p, q) (_, refl)
          ]
          | inr (v, p) ↦ rw p (_, refl)
        ]

supported-IsLocated : All IsLocated supported_table_formats
unfolding data_location_for_format
supported-IsLocated = (
  (λ b p. (b, refl)),
  (iceberg-IsLocated, ((λ b p. (b, refl)), ((λ b p. (b, refl)), ((λ b p. (b, refl)), tt)))),
)

find_format-All :
    (P : TableFormat → Type 0) (s : String) (fs : List TableFormat) (f : TableFormat)
    → All P fs
    → find_format s fs ≡ some f
    → P f
unfolding find_format
find_format-All P s [] f all h = cc
find_format-All P s (g ∷ gs) f all h = elim (Bool-cases (equal_fold s g)) [
  | inl p ↦ subst P (some_injective (rw (p, find_format) at h)) all.0
  | inr p ↦ find_format-All P s gs f all.1 (rw (p, find_format) at h)
]
  where
    some_injective : {a b : TableFormat} → some a ≡ some b → a ≡ b
    some_injective e = cc

parse_table_format-IsLocated :
    (s : String) (f : TableFormat) → parse_table_format s ≡ ok f → IsLocated f
unfolding parse_table_format
parse_table_format-IsLocated s f h =
    elim (Option-cases (find_format (trim_space s) supported_table_formats)) [
      | inl p ↦ absurd (no_error (rw (p, parse_table_format) at h))
      | inr (g, p) ↦
          subst IsLocated (ok-injective (rw (p, parse_table_format) at h)) (
            find_format-All IsLocated (trim_space s) supported_table_formats g supported-IsLocated
              p)
    ]
  where
    no_error : {m : String} → ¬ (err m ≡ ok f)
    no_error q = cc

parse_formats-IsLocated :
    (parts : List String) (fs : List TableFormat) → parse_formats parts ≡ ok fs → All IsLocated fs
unfolding parse_formats
parse_formats-IsLocated [] fs h = subst (All IsLocated) (ok-injective h) tt
parse_formats-IsLocated (part ∷ parts) fs h = elim (Bool-cases (str_eq (trim_space part) "")) [
  | inl p ↦ parse_formats-IsLocated parts fs (rw (p, parse_formats) at h)
  | inr p ↦
      let (f, e, h1) = >>=-eq-ok _ _ (rw (p, parse_formats) at h) in
      let (rest, e1, h2) = >>=-eq-ok (parse_formats parts) _ h1 in
      subst (All IsLocated) {x = f ∷ rest} (ok-injective h2) (
        parse_table_format-IsLocated (trim_space part) f (map_err-eq-ok _ _ e),
        parse_formats-IsLocated parts rest e1,
      )
]

-- Where the formats that a table is marked for can be read from its properties, the location of its
-- data can be told in each of them, whatever the base path and the properties; and a table that a
-- filter for the marked ones does not let through is marked for none.
pub target_formats_from_properties-IsLocated :
    (properties : Dict String)
    → ((fs : List TableFormat)
        → target_formats_from_properties properties ≡ ok fs
        → All IsLocated fs)
      × (matches (record { require_conversion_markers = true }) properties ≡ false
          → target_formats_from_properties properties ≡ ok [])
unfolding target_formats_from_properties matches
target_formats_from_properties-IsLocated properties =
    elim (Bool-cases (str_eq (property prop_target_formats properties) "")) [
      | inl p ↦ rw p ((λ fs h. subst (All IsLocated) (ok-injective h) tt), λ h. refl)
      | inr p ↦ rw p (
        (λ fs h.
            parse_formats-IsLocated
              ((split_commas (property prop_target_formats properties)).0
                ∷ (split_commas (property prop_target_formats properties)).1)
              fs h),
        λ h. cc,
      )
    ]
