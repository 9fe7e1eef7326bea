-- ===== src/Io.antt =====
-- pkg/io/storage.go: paths. The files of a table are addressed by URIs or by local paths.
pub mod Cuts
pub mod Relativize
pub mod Under
pub mod Storage
pub mod Memory
pub mod Metadata
use Prim.Native.Char.{code}
use xtable_go.Prelude.{
  String, Bool, true, false, ◌&&◌, ◌||◌, List, [], ◌∷◌, Option, none, some, ◌==◌, if◌then◌else◌,
}
use xtable_go.Prelude.Text.{str_eq, join, concat}

-- strings.CutPrefix
unfoldable pub cut_prefix : String → String → Option String
cut_prefix String.[] s = some s
cut_prefix (String.◌∷◌ c p) String.[] = none
cut_prefix (String.◌∷◌ c p) (String.◌∷◌ d s) =
    let rest = cut_prefix p s in if code c == code d then rest else none

unfoldable pub has_prefix : String → String → Bool
unfolding cut_prefix
has_prefix p s = elim (cut_prefix p s) [ none ↦ false | some _ ↦ true ]

-- strings.CutSuffix
unfoldable pub cut_suffix : String → String → Option String
cut_suffix suffix String.[] = if str_eq suffix "" then some "" else none
cut_suffix suffix (String.◌∷◌ c s) =
    let rest = cut_suffix suffix s in
    if str_eq (String.◌∷◌ c s) suffix
    then some ""
    else elim rest [ none ↦ none | some r ↦ some (String.◌∷◌ c r) ]

has_slash : String → Bool
has_slash String.[] = false
has_slash (String.◌∷◌ c s) = code c == b'/' || has_slash s

-- filepath.Base of a path that does not end in a slash
unfoldable pub base_name : String → String
unfolding has_slash
base_name String.[] = ""
base_name (String.◌∷◌ c s) =
    let rest = base_name s in
    if has_slash s then rest else if code c == b'/' then s else String.◌∷◌ c s

abbrev pub uri_schemes : List String
uri_schemes =
    "s3://" ∷ "s3a://" ∷ "gs://" ∷ "abfss://" ∷ "abfs://" ∷ "wasbs://" ∷ "wasb://" ∷ "mem://"
    ∷ "file://" ∷ []

-- the loop of TrimScheme and of JoinPath: the first scheme that the path begins with, and the rest
find_scheme : List String → String → Option (String × String)
unfolding cut_prefix
find_scheme [] p = none
find_scheme (s ∷ schemes) p = elim (cut_prefix s p) [
  | some rest ↦ some (s, rest)
  | none ↦ find_scheme schemes p
]

unfoldable pub trim_scheme : String → String × String
unfolding find_scheme
trim_scheme p = elim (find_scheme uri_schemes p) [ none ↦ ("", p) | some r ↦ r ]

-- `for strings.Contains(joined, "//")`: where the loop ends, each run of slashes is one
collapse_slashes : Bool → String → String
collapse_slashes after_slash String.[] = ""
collapse_slashes after_slash (String.◌∷◌ c s) =
    let is_slash = code c == b'/' in
    let rest = collapse_slashes is_slash s in
    if is_slash && after_slash then rest else String.◌∷◌ c rest

-- JoinPath. `local_join` is filepath.Join, which serves the paths without a scheme.
module _ (local_join : List String → String) where
  unfoldable pub join_path : String → List String → String
  unfolding find_scheme collapse_slashes
  join_path base elements = elim (find_scheme uri_schemes base) [
    | none ↦ local_join (base ∷ elements)
    | some (scheme, trimmed) ↦
        let joined = collapse_slashes false (join "/" (trimmed ∷ elements)) in
        if has_prefix "/" trimmed
        then concat (scheme ∷ joined ∷ [])
        else elim (cut_prefix "/" joined) [
          | some rest ↦ concat (scheme ∷ rest ∷ [])
          | none ↦ concat (scheme ∷ joined ∷ [])
        ]
  ]
