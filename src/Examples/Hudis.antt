-- ===== src/Examples/Hudis.antt =====
-- A Hudi timeline of two commits, the second of which replaces a file group of the first.
use xtable_go.Prelude.{false, String, List, [], ◌∷◌, none, ◌≡◌, refl, if◌then◌else◌}
use mathlib.Core.List.Perm
use xtable_go.Prelude.Sort.{sort}
use xtable_go.Prelude.Decimal.{parse_int}
use xtable_go.Prelude.Splitting.{trim_space, cut_at}
use xtable_go.Prelude.Dict
use xtable_go.Io.{has_prefix, base_name, cut_suffix, join_path}
use xtable_go.Model.Schema.{split_dots}
use xtable_go.Hudi.Properties.{assert_readable_version, parse_lines}
use xtable_go.Prelude.Int.{pos}
use xtable_go.Prelude.Results.{ok, err}
use xtable_go.Prelude.Text.{join, concat, str_eq}
use xtable_go.Model.Table.{Snapshot}
use xtable_go.Hudi.Timeline.{WriteStat, CommitMetadata, InstantAction}
use xtable_go.Hudi.Source.{Source, content, missing, get_current_snapshot, list_completed_commits}
use xtable_go.Hudi.Source.Snapshots.{IsActiveFilesOf, get_current_snapshot-IsActive}

abbrev stat_of : String → String → WriteStat
stat_of id path = record {
  file_id = id;
  path = path;
  prev_commit = "";
  num_writes = pos 1;
  total_write_bytes = pos 5;
  file_size_in_bytes = pos 5;
}

-- two files are written
abbrev first_commit : CommitMetadata
first_commit = record {
  partition_to_write_stats = ("", stat_of "g1" "a" ∷ stat_of "g2" "b" ∷ []) ∷ [];
  partition_to_replace_file_ids = [];
  extra_metadata = [];
  operation_type = "INSERT";
}

-- the group of the first one is replaced
abbrev second_commit : CommitMetadata
second_commit = record {
  partition_to_write_stats = ("", stat_of "g3" "c" ∷ []) ∷ [];
  partition_to_replace_file_ids = ("", "g1" ∷ []) ∷ [];
  extra_metadata = [];
  operation_type = "INSERT_OVERWRITE";
}

abbrev hudi_dir : Source String
hudi_dir = record {
  base_path = "mem://t";
  local_join = join "/";
  read = λ path st.
      if str_eq path "mem://t/.hoodie/20240101000000.commit"
      then content "1"
      else if str_eq path "mem://t/.hoodie/20240102000000.replacecommit"
      then content "2"
      else if str_eq path "mem://t/.hoodie/hoodie.properties"
      then content "properties"
      else missing "not found";
  list = λ path st. ok (
      record {
        path = "mem://t/.hoodie/20240102000000.replacecommit";
        size = pos 1;
        mod_time = pos 2;
        is_dir = false;
      }
      ∷ record {
        path = "mem://t/.hoodie/20240101000000.commit";
        size = pos 1;
        mod_time = pos 1;
        is_dir = false;
      }
      ∷ []);
  scan = λ text. ("hoodie.table.name=t" ∷ "hoodie.table.version=6" ∷ [], none);
  decode_commit = λ text. ok (if str_eq text "1" then first_commit else second_commit);
  decode_schema = λ text. err "no schema";
  times = record { parse = λ layout text. ok (pos 7); format = λ layout time. "20240101000000" };
  range_writes = λ w. w;
  range_order = λ l. l;
}

-- the snapshot holds "b" and "c", as the group of "a" is replaced
abbrev second_snapshot : (snap : Snapshot) × (get_current_snapshot hudi_dir "" ≡ ok snap)
unfolding get_current_snapshot list_completed_commits sort has_prefix base_name cut_suffix
    split_dots join_path join concat assert_readable_version parse_int trim_space Dict.lookup
    parse_lines cut_at Dict.insert
second_snapshot = (_, refl)

get_current_snapshot-IsActive_example :
    (commits : List InstantAction) × (list_completed_commits hudi_dir "" ≡ ok commits)
    × IsActiveFilesOf hudi_dir "" commits second_snapshot.0
get_current_snapshot-IsActive_example =
    get_current_snapshot-IsActive hudi_dir (λ l. Perm.rfl) "" second_snapshot.0 second_snapshot.1
