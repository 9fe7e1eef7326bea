-- ===== src/Config/Resolution.antt =====
-- pkg/conversion/config.go: which configurations are accepted, and what the entry of a catalog makes
-- of one.
use xtable_go.Prelude.{
  ap, ◌∙◌, Option, String, List, [], ◌∷◌, none, some, ◌≡◌, refl, false, ◌⊎◌, inl, ◌↔◌, ◌≢◌, arith,
}
use xtable_go.Prelude.Results.{Result, ok}
use xtable_go.Prelude.Text.{eq_iff}
use xtable_go.Model.Schema.{TableFormat}
use xtable_go.Config.{
  DatasetConfig, SourceCatalogConfig, SourceTable, CatalogSource, validate, validate_source_catalog,
  validate_reference, validate_catalog, is_nil, or_else, filled_from, resolve_source_catalog,
  look_up, resolve_reference,
}
use xtable_go.Conversion.Targets.{CatalogConfig}

-- a reference to a catalog with all that a lookup needs
abbrev pub IsReference : SourceCatalogConfig → Type 0
IsReference s = (s.table ≢ "") × (s.catalog.database_name ≢ "") × (s.catalog.type ≢ "")

abbrev pub IsReferenced : Option SourceCatalogConfig → Type 0
IsReferenced none = ⊥
IsReferenced (some s) = IsReference s

abbrev pub IsUsable : DatasetConfig → Type 0
IsUsable c =
    (c.source_format ≢ "")
    × (c.target_formats ≢ [])
    × ((c.table_base_path ≢ "") ⊎ IsReferenced c.source_catalog)

validate_source_catalog_lem :
    (s : SourceCatalogConfig) → (validate_source_catalog s ≡ none) ↔ IsReference s
unfolding validate_source_catalog validate_catalog
validate_source_catalog_lem s =
    ground (arith, eq_iff s.table "", eq_iff s.catalog.database_name "", eq_iff s.catalog.type "")

validate_reference_lem :
    (o : Option SourceCatalogConfig) → (validate_reference o ≡ none) ↔ IsReferenced o
unfolding validate_reference
validate_reference_lem none = ground arith
validate_reference_lem (some s) = validate_source_catalog_lem s

is_nil_lem : (l : List TableFormat) → (is_nil l ≡ false) ↔ (l ≢ [])
unfolding is_nil
is_nil_lem [] = ground arith
is_nil_lem (f ∷ fs) = ground arith

-- Validation accepts a configuration exactly where it has a source format, a target and a place: a
-- path, or without one a full reference to a catalog.
pub validate_iff_IsUsable : (c : DatasetConfig) → ((validate c).1 ≡ none) ↔ IsUsable c
unfolding validate
validate_iff_IsUsable c = ground (
  arith,
  validate_reference_lem c.source_catalog,
  is_nil_lem c.target_formats,
  eq_iff c.source_format "",
  eq_iff c.table_base_path "",
)

-- a field that was set stays, and an empty one is filled in
abbrev pub IsFilled : String → String → String → Type 0
IsFilled before entry after = ((before ≢ "") × (after ≡ before)) ⊎ ((before ≡ "") × (after ≡ entry))

or_else-IsFilled : (before entry : String) → IsFilled before entry (or_else before entry)
unfolding or_else
or_else-IsFilled before entry = ground (arith, eq_iff before "")

module _ (new_source : CatalogConfig → Result CatalogSource) (c : DatasetConfig)
    (s : SourceCatalogConfig) (resolved : SourceTable) where
  resolve_source_catalog-found :
      c.source_catalog ≡ some s
      → IsReference s
      → look_up new_source s ≡ ok resolved
      → resolve_source_catalog new_source c ≡ ok (filled_from resolved c)
  unfolding resolve_source_catalog resolve_reference
  resolve_source_catalog-found e reference found =
      ap (λ o. resolve_reference new_source o c) e
      ∙ rw ((validate_source_catalog_lem s).1 reference, found, resolve_reference) refl

  -- Where a configuration with a full reference to a catalog is looked up to an entry, each of the
  -- format, the two paths and the name stays as it was set and is filled in from the entry where it
  -- was empty; and if there are targets and the entry has a format and a path, what comes out is
  -- accepted with a path.
  pub resolve_source_catalog-IsUsable :
      c.source_catalog ≡ some s
      → IsReference s
      → look_up new_source s ≡ ok resolved
      → c.target_formats ≢ []
      → resolved.format ≢ ""
      → resolved.base_path ≢ ""
      → (c' : DatasetConfig) × (resolve_source_catalog new_source c ≡ ok c')
        × IsFilled c.source_format resolved.format c'.source_format
        × IsFilled c.table_base_path resolved.base_path c'.table_base_path
        × IsFilled c.table_data_path resolved.data_path c'.table_data_path
        × IsFilled c.table_name resolved.source_name c'.table_name
        × (c'.table_base_path ≢ "")
        × ((validate c').1 ≡ none)
  unfolding filled_from
  resolve_source_catalog-IsUsable e reference found targets formatted placed =
      let base = or_else-IsFilled c.table_base_path resolved.base_path in
      let format = or_else-IsFilled c.source_format resolved.format in
      let there : or_else c.table_base_path resolved.base_path ≢ "" =
        ground (arith, base, placed) in
      (
        filled_from resolved c,
        resolve_source_catalog-found e reference found,
        format,
        base,
        or_else-IsFilled c.table_data_path resolved.data_path,
        or_else-IsFilled c.table_name resolved.source_name,
        there,
        (validate_iff_IsUsable (filled_from resolved c)).1
            (ground (arith, format, formatted), targets, inl there),
      )
