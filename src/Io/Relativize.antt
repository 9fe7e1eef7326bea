-- ===== src/Io/Relativize.antt =====
-- pkg/io/storage.go: paths relative to the directory of a table. `clean` is path.Clean.
use Prim.Native.Char.{code}
use Prim.Native.String.{◌++◌}
use xtable_go.Prelude.{String, Bool, not, ◌&&◌, ◌||◌, ◌==◌, [], ◌∷◌, none, some, if◌then◌else◌}
use xtable_go.Prelude.Results.{Result, ok, err}
use xtable_go.Prelude.Text.{str_eq, concat, join}
use xtable_go.Io.{cut_prefix, has_prefix, cut_suffix, trim_scheme, uri_schemes}

-- strings.Contains
unfoldable pub contains_text : String → String → Bool
contains_text part String.[] = has_prefix part ""
contains_text part (String.◌∷◌ c s) = has_prefix part (String.◌∷◌ c s) || contains_text part s

-- strings.Replace with a limit of 1
replace_first : String → String → String → String
replace_first old new String.[] = elim (cut_prefix old "") [ none ↦ "" | some rest ↦ new ++ rest ]
replace_first old new (String.◌∷◌ c s) =
    let later = replace_first old new s in
    elim (cut_prefix old (String.◌∷◌ c s)) [ none ↦ String.◌∷◌ c later | some rest ↦ new ++ rest ]

-- the text before the first slash, and the text from it on
before_slash : String → String × String
before_slash String.[] = ("", "")
before_slash (String.◌∷◌ c s) =
    let (authority, rest) = before_slash s in
    if code c == b'/' then ("", String.◌∷◌ c s) else (String.◌∷◌ c authority, rest)

-- a slash at the very beginning belongs to the authority
split_authority : String → String × String
unfolding before_slash
split_authority p = elim (cut_prefix "/" p) [
  | none ↦ before_slash p
  | some trimmed ↦ let (authority, rest) = before_slash trimmed in ("/" ++ authority, rest)
]

unfoldable pub canonical_host_for_compare : String → String
unfolding split_authority replace_first
canonical_host_for_compare p =
    let (authority, rest) = split_authority p in
    replace_first "onelake.blob.fabric.microsoft.com" "onelake.dfs.fabric.microsoft.com"
      (replace_first ".blob.core.windows.net" ".dfs.core.windows.net" authority)
    ++ rest

abbrev pub invalid_path : String
invalid_path = "invalid storage path"

abbrev pub path_not_under_base : String
path_not_under_base = "path is not under the base path"

unfoldable pub not_under : String → String → Result String
not_under physical_path base_path =
    err (concat (path_not_under_base ∷ ": " ∷ physical_path ∷ " is not under " ∷ base_path ∷ []))

-- what is left of an absolute file under a base, where the messages name the paths as given
unfoldable pub suffix_under : String → String → String → String → Result String
suffix_under physical_path base_path file base =
    if str_eq file base
    then err (concat (path_not_under_base ∷ ": " ∷ physical_path ∷ " is the base path itself" ∷ []))
    else elim (cut_prefix base file) [
      | none ↦ not_under physical_path base_path
      | some rest ↦ elim (cut_prefix "/" rest) [
        | some below ↦ ok below
        | none ↦ elim (cut_suffix "/" base) [
          | none ↦ not_under physical_path base_path
          | some _ ↦ ok rest
        ]
      ]
    ]

-- a file with no scheme that does not start at the root
unfoldable pub relative_file : String → String → String → Result String
relative_file physical_path base_path file =
    if str_eq file ".." || has_prefix "../" file
    then err
        (concat (path_not_under_base ∷ ": " ∷ physical_path ∷ " climbs out of " ∷ base_path ∷ []))
    else ok file

module _ (clean : String → String) where
  unfoldable pub relativize_path : String → String → Result String
  unfolding contains_text
  relativize_path physical_path base_path =
      let base = clean (trim_scheme base_path).1 in
      let file = clean (trim_scheme physical_path).1 in
      if str_eq (trim_scheme base_path).1 ""
      then err (concat (invalid_path ∷ ": base path " ∷ base_path ∷ " has no path component" ∷ []))
      else if str_eq (trim_scheme physical_path).1 ""
      then err
          (concat (invalid_path ∷ ": file path " ∷ physical_path ∷ " has no path component" ∷ []))
      else if str_eq (trim_scheme physical_path).0 "" && contains_text "://" physical_path
      then err (
          concat (
            invalid_path
            ∷ ": "
            ∷ physical_path
            ∷ " carries a scheme this package does not recognise; recognised schemes are "
            ∷ join ", " uri_schemes
            ∷ []))
      else if str_eq (trim_scheme physical_path).0 "" && not (has_prefix "/" file)
      then relative_file physical_path base_path file
      else suffix_under physical_path base_path (canonical_host_for_compare file)
          (canonical_host_for_compare base)
