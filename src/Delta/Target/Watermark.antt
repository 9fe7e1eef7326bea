-- ===== src/Delta/Target/Watermark.antt =====
-- pkg/formats/delta/target.go: what a target reads back of the sync that wrote its last commit.
use xtable_go.Prelude.{String, List, [], ◌∷◌, Option, none, some, ◌≡◌, refl, false, get_last?}
use xtable_go.Prelude.Int.{ℤ}
use xtable_go.Prelude.Results.{ok}
use xtable_go.Prelude.Text.{str_eq}
use xtable_go.Prelude.Decimal.RoundTrip.{Int64}
use xtable_go.Prelude.Dict.{Dict}
use xtable_go.Model.Schema.{delta_format}
use xtable_go.Model.Table.{Snapshot, TableChange}
use xtable_go.Model.SyncMetadata.{TableSyncMetadata, Codec, read_sync_metadata, write_sync_metadata}
use xtable_go.Model.SyncMetadata.RoundTrip.{
  IsFaithfulAt, Survives, read_sync_metadata-write_sync_metadata,
}
use xtable_go.Delta.Log.{DeltaCommit, list_commit_files, read_commit}
use xtable_go.Delta.Writer.{Target}
use xtable_go.Delta.Target.{
  as_delta, configured, metadata_in, metadata_line, snapshot_metadata, change_metadata,
  get_table_metadata, snapshot_actions, change_actions,
}

-- what the target gives back: the last instant and the source format, under its own format
abbrev pub IsRemembered : TableSyncMetadata → Option TableSyncMetadata → Type 0
IsRemembered meta none = ⊥
IsRemembered meta (some m) =
    (m.last_instant_synced ≡ meta.last_instant_synced)
    × (m.source_format ≡ meta.source_format)
    × (m.target_format ≡ delta_format)

as_delta-IsRemembered :
    (meta : TableSyncMetadata) (props : Dict String) (found : Option TableSyncMetadata)
    → Survives meta found
    → IsRemembered meta (as_delta props found)
unfolding as_delta
as_delta-IsRemembered meta props none h = h
as_delta-IsRemembered meta props (some m) (same_instant, same_format) =
    (same_instant, same_format, refl)

configured-IsRemembered :
    (c : Codec) (meta : TableSyncMetadata) (props : Dict String) (later : Option TableSyncMetadata)
    → Survives meta (read_sync_metadata c props)
    → IsRemembered meta (configured c props later)
unfolding configured read_sync_metadata
configured-IsRemembered c meta [] later h = absurd h
configured-IsRemembered c meta (p ∷ ps) later h =
    as_delta-IsRemembered meta (p ∷ ps) (read_sync_metadata c (p ∷ ps)) h

module _ {S : Type 0} (t : Target S) where
  get_table_metadata-last :
      (s : S) (versions : List ℤ) (v : ℤ) (commit : DeltaCommit)
      → list_commit_files (t.source s) ≡ ok versions
      → get_last? versions ≡ some v
      → read_commit (t.source s) v ≡ ok commit
      → (get_table_metadata t s).0 ≡ metadata_in t.codec commit.actions
  unfolding get_table_metadata
  get_table_metadata-last s versions v commit listed at_end read =
      rw (listed, at_end, read, get_table_metadata) refl

  module _ (s : S) (versions : List ℤ) (v : ℤ) (commit : DeltaCommit)
      (listed : list_commit_files (t.source s) ≡ ok versions) (at_end : get_last? versions ≡ some v)
      (read : read_commit (t.source s) v ≡ ok commit) where
    -- Where the last commit that can be listed reads as that of a snapshot, the target gives back
    -- the commit time of the snapshot's table and its format, if the time is an int64 and the format
    -- is not empty, and encoding/json and time are faithful at them.
    pub get_table_metadata-snapshot_actions :
        (snapshot : Snapshot) (schema : String) (columns : List String) (before : S)
        → commit.actions ≡ snapshot_actions t snapshot schema columns before
        → IsFaithfulAt t.codec (snapshot_metadata t snapshot)
        → Int64 snapshot.table.latest_commit_time
        → str_eq snapshot.table.table_format "" ≡ false
        → IsRemembered (snapshot_metadata t snapshot) (get_table_metadata t s).0
    unfolding snapshot_actions metadata_line metadata_in
    get_table_metadata-snapshot_actions snapshot schema columns before written faithful small
          there =
        rw (get_table_metadata-last s versions v commit listed at_end read, written)
          (configured-IsRemembered t.codec (snapshot_metadata t snapshot)
            (write_sync_metadata t.codec [] (snapshot_metadata t snapshot)) _
            (read_sync_metadata-write_sync_metadata t.codec _ faithful [] small there))

    -- Where the last commit that can be listed reads as that of a change, the target gives back the
    -- commit time of the change and the format of its table, if the time is an int64 and the format
    -- is not empty, and encoding/json and time are faithful at them.
    pub get_table_metadata-change_actions :
        (change : TableChange) (schema : String) (columns : List String) (before : S)
        → commit.actions ≡ change_actions t change schema columns before
        → IsFaithfulAt t.codec (change_metadata t change)
        → Int64 change.commit_time
        → str_eq change.table_as_of_change.table_format "" ≡ false
        → IsRemembered (change_metadata t change) (get_table_metadata t s).0
    unfolding change_actions metadata_line metadata_in
    get_table_metadata-change_actions change schema columns before written faithful small there =
        rw (get_table_metadata-last s versions v commit listed at_end read, written)
          (configured-IsRemembered t.codec (change_metadata t change)
            (write_sync_metadata t.codec [] (change_metadata t change)) _
            (read_sync_metadata-write_sync_metadata t.codec _ faithful [] small there))
