-- ===== src/Io/Metadata.antt =====
-- pkg/io/metadata.go: which paths below a table are the metadata of a format.
pub mod Visible
use Prim.Native.Char.{code}
use xtable_go.Prelude.{String, Bool, false, ◌||◌, List, [], ◌∷◌, ◌==◌, if◌then◌else◌}
use xtable_go.Prelude.Text.{str_eq}
use xtable_go.Io.{has_prefix}

abbrev metadata_dir_names : List String
metadata_dir_names = "metadata" ∷ "schema" ∷ "snapshot" ∷ "manifest" ∷ []

is_one_of : String → List String → Bool
is_one_of name [] = false
is_one_of name (other ∷ names) = str_eq other name || is_one_of name names

unfoldable pub is_metadata_path_component : String → Bool
unfolding is_one_of
is_metadata_path_component name =
    if str_eq name ""
    then false
    else has_prefix "_" name || has_prefix "." name || is_one_of name metadata_dir_names

-- strings.Split(path, "/")
unfoldable pub split_slashes : String → String × List String
split_slashes String.[] = ("", [])
split_slashes (String.◌∷◌ c s) =
    let (part, parts) = split_slashes s in
    if code c == b'/' then ("", part ∷ parts) else (String.◌∷◌ c part, parts)

any_component : List String → Bool
any_component [] = false
any_component (part ∷ parts) = is_metadata_path_component part || any_component parts

-- filepath.ToSlash leaves a path as it is where the separator is a slash
unfoldable pub is_metadata_path : String → Bool
unfolding any_component
is_metadata_path path = let (part, parts) = split_slashes path in any_component (part ∷ parts)
