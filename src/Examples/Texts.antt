-- ===== src/Examples/Texts.antt =====
-- Paths and numerals.
use xtable_go.Prelude.{[], ◌∷◌, some, none, ◌≡◌, refl}
use xtable_go.Prelude.Int.{pos, negsuc, max_int64}
use xtable_go.Prelude.Text.{join, concat}
use xtable_go.Prelude.Decimal.{parse_int, format_int, format_padded}
use xtable_go.Io.{join_path, base_name, cut_suffix, has_prefix, cut_prefix}

paths :
    (join_path (λ _. "") "s3://bucket/tbl" ("_delta_log" ∷ "/x.json" ∷ [])
      ≡ "s3://bucket/tbl/_delta_log/x.json")
    × (join_path (λ _. "") "file:///data" ("f" ∷ []) ≡ "file:///data/f")
    × (base_name "a/b/00.json" ≡ "00.json")
    × (cut_suffix ".json" "12.json" ≡ some "12")
unfolding join_path join concat base_name cut_suffix has_prefix cut_prefix
paths = (refl, refl, refl, refl)

format_and_parse :
    (parse_int "-9223372036854775808" ≡ some (negsuc max_int64))
    × (parse_int "9223372036854775808" ≡ none)
    × (parse_int "00000000000000000012" ≡ some (pos 12))
    × (format_int (pos 1204) ≡ "1204")
    × (format_int (negsuc 9) ≡ "-10")
    × (format_padded 20 (pos 12) ≡ "00000000000000000012")
unfolding parse_int format_int format_padded
format_and_parse = (refl, refl, refl, refl, refl, refl)
