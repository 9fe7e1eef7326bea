-- ===== src/Paimon/Writer.antt =====
-- pkg/formats/paimon/target.go: what a writer of a Paimon directory holds, and the entries and the
-- files of a commit.
use xtable_go.Prelude.{String, Bool, List, [], ◌∷◌, ◌++◌, Option, none, some, if◌then◌else◌}
use xtable_go.Prelude.Int.{ℤ, inc64, ◌==ℤ◌}
use xtable_go.Prelude.Results.{Result, ok, err, traverse}
use xtable_go.Prelude.Keyed.{is_some}
use xtable_go.Prelude.Dict
use xtable_go.Prelude.Dict.{Dict}
use xtable_go.Io.{join_path}
use xtable_go.Io.Relativize.{relativize_path}
use xtable_go.Model.Value.{Value}
use xtable_go.Model.Schema.{field_name, PartitionField, TableFormat}
use xtable_go.Model.Table.{DataFile}
use xtable_go.Model.SyncMetadata.{Codec, write_sync_metadata}
use xtable_go.Paimon.Types.{TableSchema}
use xtable_go.Paimon.Manifest.{
  ManifestEntry, ManifestFileMeta, PaimonSnapshot, entry_for_data_file, kind_delete,
}
use xtable_go.Paimon.Source.{Source, path_in}

-- The writer of one table: its reader, encoding/json for each kind of file, reflect.DeepEqual on two
-- schemas, path.Clean, the verb %v, new ids, the clock, and the number of bytes of a text.
pub record Target (S : Type 0) : Type 0 where
  pub source : Source S
  pub encode_schema : TableSchema → Result String
  pub encode_snapshot : PaimonSnapshot → Result String
  pub encode_manifest_list : List ManifestFileMeta → Result String
  pub encode_manifest : List ManifestEntry → Result String
  pub deep_equal : TableSchema → TableSchema → Bool
  pub codec : Codec
  pub clean : String → String
  pub show : Value → String
  pub new_id : S → String
  pub now : S → ℤ
  pub size_of : String → ℤ

pub record CommitParams : Type 0 where
  pub params_schema_id : ℤ
  pub base : List DataFile
  pub added : List DataFile
  pub removed : List DataFile
  pub params_commit_kind : String
  pub params_properties : Dict String

module _ {S : Type 0} where
  -- a step that changes the storage and may fail, and the next one where it does not
  infixl 5 ◌>>>◌
  abbrev pub ◌>>>◌ : {A B : Type 0} → S × Result A → (A → S → S × Result B) → S × Result B
  (st, err e) >>> next = (st, err e)
  (st, ok a) >>> next = next a st

  -- a write, with what its caller makes of the error
  abbrev pub written : (String → String) → S × Option String → S × Result (Unit {0})
  written wrap (st, none) = (st, ok tt)
  written wrap (st, some e) = (st, err (wrap e))

unfoldable pub partition_keys_of : List PartitionField → List String
partition_keys_of [] = []
partition_keys_of (pf ∷ pfs) =
    let rest = partition_keys_of pfs in
    elim pf.source_field [ none ↦ rest | some f ↦ field_name f ∷ rest ]

abbrev pub with_id : ℤ → TableSchema → TableSchema
with_id id ts = record {
  id = id;
  fields = ts.fields;
  highest_field_id = ts.highest_field_id;
  partition_keys = ts.partition_keys;
  primary_keys = ts.primary_keys;
  options = ts.options;
}

-- the added and the deleted files of a manifest
unfoldable pub counted : List ManifestEntry → ℤ × ℤ → ℤ × ℤ
counted [] counts = counts
counted (entry ∷ entries) (added, deleted) =
    counted entries
      (if entry.kind ==ℤ kind_delete then (added, inc64 deleted) else (inc64 added, deleted))

module _ {S : Type 0} (t : Target S) where
  abbrev pub base_path : String
  base_path = t.source.base_path

  abbrev pub file_path : String → String → String
  file_path dir name = join_path t.source.local_join (path_in t.source (dir ∷ [])) (name ∷ [])

  -- entriesFor
  unfoldable pub entries_for : ℤ → ℤ → List DataFile → Result (List ManifestEntry)
  entries_for kind schema_id =
      traverse (λ file. entry_for_data_file t.clean t.show t.source.base_path file kind schema_id)

  unfoldable pub file_key : DataFile → String
  file_key file = elim (relativize_path t.clean file.physical_path t.source.base_path) [
    | err _ ↦ file.physical_path
    | ok name ↦ name
  ]

  -- a set of names: `m[name] = struct{}{}` over a list of files
  unfoldable pub names_of : List DataFile → Dict (Unit {0}) → Dict (Unit {0})
  unfolding file_key
  names_of [] m = m
  names_of (file ∷ files) m = names_of files (Dict.insert (file_key file) tt m)

  -- the loop over the base: what is not dropped
  unfoldable pub kept : Dict (Unit {0}) → List DataFile → List DataFile
  unfolding file_key
  kept dropped [] = []
  kept dropped (file ∷ files) =
      let rest = kept dropped files in
      if is_some (Dict.lookup (file_key file) dropped) then rest else file ∷ rest

  -- the loop over the additions: what was not seen
  unfoldable pub unseen : List DataFile → Dict (Unit {0}) → List DataFile
  unfolding file_key
  unseen [] seen = []
  unseen (file ∷ files) seen =
      let skipped = unseen files seen in
      let rest = unseen files (Dict.insert (file_key file) tt seen) in
      if is_some (Dict.lookup (file_key file) seen) then skipped else file ∷ rest

  -- applyDiff
  unfoldable pub apply_diff : List DataFile → List DataFile → List DataFile → List DataFile
  unfolding names_of kept unseen
  apply_diff base added removed =
      let left = kept (names_of removed []) base in left ++ unseen added (names_of left [])

  unfoldable pub sync_properties : ℤ → TableFormat → String → Dict String
  sync_properties last_instant source_format source_identifier =
      write_sync_metadata t.codec [] (record {
        last_instant_synced = last_instant;
        instants_to_consider_for_next_sync = [];
        source_format = source_format;
        target_format = "";
        source_identifier = source_identifier;
        custom_properties = [];
      })
