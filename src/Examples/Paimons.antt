-- ===== src/Examples/Paimons.antt =====
-- A Paimon table of two files, one of which is rewritten in place.
use xtable_go.Prelude.{ℕ, String, false, List, [], ◌∷◌, ◌++◌, none, ◌≡◌, refl, All}
use mathlib.Core.List.{Mem}
use xtable_go.Prelude.Int.{ℤ, pos}
use xtable_go.Prelude.Results.{ok, err}
use xtable_go.Prelude.Text.{join, concat}
use xtable_go.Prelude.Keyed.{is_some, has_by}
use xtable_go.Prelude.Dict
use xtable_go.Io.Memory.{MemoryStorage, memory_storage}
use xtable_go.Io.{trim_scheme, join_path, has_prefix}
use xtable_go.Io.Relativize.{relativize_path, suffix_under, canonical_host_for_compare}
use xtable_go.Model.Table.{plain_file}
use xtable_go.Paimon.Manifest.{
  ManifestEntry, kind_add, kind_delete, entry_for_data_file, data_file_for_entry, partition_map,
  commit_kind_append,
}
use xtable_go.Paimon.Source.{Source, file_for, live_of, replay_entries}
use xtable_go.Paimon.Source.Live.{IsLast, live_of-IsLast}
use xtable_go.Paimon.Source.Rewritten.{paths, paths-live_of-rewritten}
use xtable_go.Paimon.Target.{commit_entries}
use xtable_go.Paimon.Writer.{Target, CommitParams, entries_for, file_key, apply_diff}
use xtable_go.Paimon.Target.Folds.{replay_entries-apply_diff}
use xtable_go.Examples.Syncs.{table_at}
use xtable_go.Examples.Watermarks.{one_text}

-- the directory of the table, whose files are not looked at
abbrev paimon_dir : Source MemoryStorage
paimon_dir = record {
  storage = memory_storage;
  base_path = "mem://t";
  local_join = join "/";
  decode_schema = λ s. err "no schema";
  decode_snapshot = λ s. err "no snapshot";
  decode_manifest_list = λ s. err "no list";
  decode_manifest = λ s. err "no manifest";
  find_decimal = λ s. none;
}

abbrev entry_of : ℤ → String → ℕ → ManifestEntry
entry_of kind name size = record {
  kind = kind;
  partition = [];
  bucket = pos 0;
  total_buckets = pos 1;
  file = record {
    file_name = name;
    file_size = pos size;
    row_count = pos 1;
    file_schema_id = pos 0;
    level = pos 0;
    creation_time = pos 0;
    file_format = "APACHE_PARQUET";
    file_partition = [];
  };
}

abbrev first_entries : List ManifestEntry
first_entries = entry_of kind_add "a" 5 ∷ entry_of kind_add "b" 3 ∷ []

-- the file "b" is gone, and "a" is rewritten
abbrev rewrite_entries : List ManifestEntry
rewrite_entries =
    entry_of kind_delete "b" 3 ∷ entry_of kind_delete "a" 5 ∷ entry_of kind_add "a" 7 ∷ []

live_of-IsLast_example :
    All
      (λ f.
        (e : ManifestEntry) × IsLast (first_entries ++ rewrite_entries) e
        × (f ≡ file_for paimon_dir (table_at (pos 1)) e))
      (live_of paimon_dir (table_at (pos 1)) (first_entries ++ rewrite_entries))
    × ((e : ManifestEntry)
        → IsLast (first_entries ++ rewrite_entries) e
        → Mem
            (file_for paimon_dir (table_at (pos 1)) e)
            (live_of paimon_dir (table_at (pos 1)) (first_entries ++ rewrite_entries)))
live_of-IsLast_example =
    live_of-IsLast paimon_dir (table_at (pos 1)) (first_entries ++ rewrite_entries)

paths-live_of-rewritten_example :
    (paths (
        live_of paimon_dir
          (table_at (pos 1))
          (first_entries ++ entry_of kind_delete "a" 5 ∷ entry_of kind_add "a" 7 ∷ []))
      ≡ paths (live_of paimon_dir (table_at (pos 1)) first_entries) ++ "mem://t/a" ∷ [])
    × Mem "mem://t/a" (paths (live_of paimon_dir (table_at (pos 1)) first_entries))
unfolding data_file_for_entry join_path has_prefix join concat
paths-live_of-rewritten_example =
    paths-live_of-rewritten paimon_dir (table_at (pos 1)) first_entries (entry_of kind_add "a" 5)
      (entry_of kind_delete "a" 5) (entry_of kind_add "a" 7) (refl, refl) refl refl refl refl

abbrev paimon_writer : Target MemoryStorage
paimon_writer = record {
  source = paimon_dir;
  encode_schema = λ s. ok "schema";
  encode_snapshot = λ s. ok "snapshot";
  encode_manifest_list = λ m. ok "list";
  encode_manifest = λ m. ok "manifest";
  deep_equal = λ a b. false;
  codec = one_text;
  clean = λ p. p;
  show = λ v. "";
  new_id = λ st. "id";
  now = λ st. st.now;
  size_of = λ s. pos 8;
}

abbrev rewrite_params : CommitParams
rewrite_params = record {
  params_schema_id = pos 0;
  base = plain_file "mem://t/a" 5 ∷ plain_file "mem://t/b" 3 ∷ [];
  added = plain_file "mem://t/a" 7 ∷ [];
  removed = plain_file "mem://t/b" 3 ∷ plain_file "mem://t/a" 5 ∷ [];
  params_commit_kind = commit_kind_append;
  params_properties = [];
}

rewrite_entries_made :
    commit_entries paimon_writer rewrite_params ≡ ok (first_entries, rewrite_entries)
unfolding commit_entries entries_for entry_for_data_file partition_map relativize_path trim_scheme
    suffix_under canonical_host_for_compare
rewrite_entries_made = refl

replay_entries-apply_diff_example :
    is_some (
      Dict.lookup "a"
        (replay_entries
          (file_for paimon_dir (table_at (pos 1)))
          (first_entries ++ rewrite_entries)
          []).1)
    ≡ has_by
        (file_key paimon_writer)
        "a"
        (apply_diff paimon_writer rewrite_params.base rewrite_params.added rewrite_params.removed)
replay_entries-apply_diff_example =
    replay_entries-apply_diff paimon_writer (file_for paimon_dir (table_at (pos 1))) rewrite_params
      first_entries rewrite_entries rewrite_entries_made "a"
