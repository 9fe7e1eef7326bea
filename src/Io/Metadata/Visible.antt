-- ===== src/Io/Metadata/Visible.antt =====
-- pkg/io/metadata.go: which paths are not hidden as metadata, told without the code's own test.
use xtable_go.Prelude.{
  String, false, List, [], ◌∷◌, ◌≡◌, ◌≢◌, ◌↔◌, refl, sym, subst, arith, All, Bool-cases, inl, inr,
}
use xtable_go.Prelude.Text.{str_eq, eq_iff}
use xtable_go.Io.{has_prefix}
use xtable_go.Io.Metadata.{
  is_metadata_path_component, is_metadata_path, any_component, is_one_of, split_slashes,
}

-- a component of a path that does not begin with `_` or `.` and is not a directory of metadata
abbrev pub IsVisible : String → Type 0
IsVisible part =
    (has_prefix "_" part ≡ false)
    × (has_prefix "." part ≡ false)
    × (part ≢ "metadata")
    × (part ≢ "schema")
    × (part ≢ "snapshot")
    × (part ≢ "manifest")

nothing-IsVisible : IsVisible ""
unfolding has_prefix
nothing-IsVisible = (refl, refl, (λ e. cc), (λ e. cc), (λ e. cc), (λ e. cc))

is_metadata_path_component-IsVisible :
    (part : String) → (is_metadata_path_component part ≡ false) ↔ IsVisible part
unfolding is_metadata_path_component is_one_of
is_metadata_path_component-IsVisible part = elim (Bool-cases (str_eq part "")) [
  | inl e ↦
      ((λ h. subst IsVisible (sym ((eq_iff part "").0 e)) nothing-IsVisible), (λ h. rw e refl))
  | inr e ↦ ground (
    arith,
    eq_iff "metadata" part,
    eq_iff "schema" part,
    eq_iff "snapshot" part,
    eq_iff "manifest" part,
  )
]

any_component-IsVisible :
    (parts : List String) → (any_component parts ≡ false) ↔ All IsVisible parts
unfolding any_component
any_component-IsVisible [] = ((λ h. tt), (λ h. refl))
any_component-IsVisible (part ∷ parts) =
    let here = is_metadata_path_component-IsVisible part in
    let later = any_component-IsVisible parts in
    (
      (λ h. (here.0 (ground arith), later.0 (ground arith))),
      (λ (v, vs). let visible = here.1 v in let all_visible = later.1 vs in ground arith),
    )

pub is_metadata_path-IsVisible :
    (path : String)
    → (is_metadata_path path ≡ false)
      ↔ (let (part, parts) = split_slashes path in All IsVisible (part ∷ parts))
unfolding is_metadata_path
is_metadata_path-IsVisible path =
    let (part, parts) = split_slashes path in any_component-IsVisible (part ∷ parts)
