-- ===== src/Io/Under.antt =====
-- pkg/io/storage.go: which paths are under the directory of a table.
use Prim.Native.String.{◌++◌}
use Prim.Native.String.append
use text.Mathlib.TextEquality.{Char-path}
use xtable_go.Prelude.{
  String, false, some, ◌≡◌, ◌≢◌, ◌⊎◌, inl, inr, arith, Bool-cases, Option-cases,
}
use xtable_go.Prelude.Results.{ok}
use xtable_go.Prelude.Text.{str_eq, eq_iff}
use xtable_go.Io.{cut_prefix, has_prefix, cut_suffix, trim_scheme}
use xtable_go.Io.Relativize.{
  relativize_path, canonical_host_for_compare, suffix_under, not_under, relative_file,
}

some-injective : {A : Type 0} {a b : A} → some a ≡ some b → a ≡ b
some-injective h = cc

cut_prefix-found : (p s : String) (rest : String) → cut_prefix p s ≡ some rest → s ≡ p ++ rest
unfolding cut_prefix
cut_prefix-found String.[] s rest h = rw (append.nil rest) (some-injective h)
cut_prefix-found (String.◌∷◌ c p) String.[] rest h = cc
cut_prefix-found (String.◌∷◌ c p) (String.◌∷◌ d s) rest h =
    ground (arith, Char-path c d, cut_prefix-found p s rest, append.cons c p rest)

cut_suffix-found : (t s : String) (rest : String) → cut_suffix t s ≡ some rest → s ≡ rest ++ t
unfolding cut_suffix
cut_suffix-found t String.[] rest h = ground (arith, eq_iff t "", append.nil t)
cut_suffix-found t (String.◌∷◌ c s) rest h = elim (Option-cases (cut_suffix t s)) [
  | inl n ↦ ground (arith, eq_iff (String.◌∷◌ c s) t, append.nil t)
  | inr (r, n) ↦
      ground (
        arith,
        eq_iff (String.◌∷◌ c s) t,
        append.nil t,
        append.cons c r t,
        cut_suffix-found t s r n,
      )
]

-- where the result stands: it is the file as it came, or the file is the base, a slash and the
-- result, in which the slash may be the end of the base
abbrev pub StandsUnder : String → String → String → Type 0
StandsUnder base file rest =
    (file ≡ base ++ "/" ++ rest) ⊎ ((dir : String) × (base ≡ dir ++ "/") × (file ≡ base ++ rest))

suffix_under-StandsUnder :
    (physical_path base_path file base rest : String)
    → suffix_under physical_path base_path file base ≡ ok rest
    → StandsUnder base file rest
unfolding suffix_under not_under
suffix_under-StandsUnder physical_path base_path file base rest h =
    elim (Bool-cases (str_eq file base)) [
      | inl e ↦ ground arith
      | inr e ↦ elim (Option-cases (cut_prefix base file)) [
        | inl n ↦ ground arith
        | inr (r, n) ↦ elim (Option-cases (cut_prefix "/" r)) [
          | inr (below, m) ↦
              inl (ground (arith, cut_prefix-found base file r n, cut_prefix-found "/" r below m))
          | inl m ↦ elim (Option-cases (cut_suffix "/" base)) [
            | inl k ↦ ground arith
            | inr (dir, k) ↦ inr (
              dir,
              cut_suffix-found "/" base dir k,
              ground (arith, cut_prefix-found base file r n),
            )
          ]
        ]
      ]
    ]

-- a file with no scheme, not at the root, not the parent directory and not below it
abbrev pub IsRelative : String → String → String → Type 0
IsRelative scheme file rest =
    (scheme ≡ "")
    × (rest ≡ file)
    × (has_prefix "/" file ≡ false)
    × (file ≢ "..")
    × (has_prefix "../" file ≡ false)

module _ (clean : String → String) where
  -- The relative path of a file under a base, where there is one: either the file came with no
  -- scheme and is relative as it stands, neither `..` nor below it, or the cleaned file is the cleaned base, a
  -- slash and the result, but for the two spellings of a host.
  pub relativize_path-StandsUnder :
      (physical_path base_path rest : String)
      → relativize_path clean physical_path base_path ≡ ok rest
      → IsRelative (trim_scheme physical_path).0 (clean (trim_scheme physical_path).1) rest
        ⊎ StandsUnder
            (canonical_host_for_compare (clean (trim_scheme base_path).1))
            (canonical_host_for_compare (clean (trim_scheme physical_path).1))
            rest
  unfolding relativize_path relative_file
  relativize_path-StandsUnder physical_path base_path rest h = ground (
    arith,
    suffix_under-StandsUnder physical_path base_path
        (canonical_host_for_compare (clean (trim_scheme physical_path).1))
        (canonical_host_for_compare (clean (trim_scheme base_path).1)) rest,
    eq_iff (trim_scheme physical_path).0 "",
    eq_iff (clean (trim_scheme physical_path).1) "..",
  )
