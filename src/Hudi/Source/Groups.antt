-- ===== src/Hudi/Source/Groups.antt =====
-- What a commit of the timeline does to the files at each path.
use xtable_go.Prelude.{
  String, Bool, false, ◌&&◌, ◌||◌, List, [], ◌∷◌, Option, none, some, ◌≡◌, refl, arith,
  if◌then◌else◌,
}
use xtable_go.Prelude.Int.{ℤ}
use xtable_go.Prelude.Text.{str_eq, eq_iff}
use xtable_go.Prelude.Keyed.{or_else}
use xtable_go.Prelude.Dict
use xtable_go.Prelude.Dict.{Dict, HasUniqueKeys}
use xtable_go.Model.Table.{Table}
use xtable_go.Hudi.Timeline.{WriteStat, CommitMetadata}
use xtable_go.Hudi.Source.{Source, active_file, write_stats, write_partitions, apply_commit}
use xtable_go.Hudi.Active.{ActiveFile, contains, drop_groups, apply_replaced_file_groups}

-- the file's group is among those that are replaced
abbrev pub is_replaced : Dict (List String) → ActiveFile → Bool
is_replaced [] f = false
is_replaced ((partition, ids) ∷ later) f =
    (str_eq f.partition partition && contains f.file_group ids) || is_replaced later f

-- what a replacement leaves of a file
abbrev pub unless_replaced : Dict (List String) → Option ActiveFile → Option ActiveFile
unless_replaced replaced none = none
unless_replaced replaced (some f) = if is_replaced replaced f then none else some f

lookup-drop_groups :
    (p partition : String) (ids : List String) (m : Dict ActiveFile)
    → HasUniqueKeys m
    → Dict.lookup p (drop_groups partition ids m)
      ≡ unless_replaced ((partition, ids) ∷ []) (Dict.lookup p m)
unfolding drop_groups Dict.lookup
lookup-drop_groups p partition ids [] u = refl
lookup-drop_groups p partition ids ((path, f) ∷ m) u =
    ground (arith, lookup-drop_groups p partition ids m, eq_iff path p)

drop_groups-HasUniqueKeys :
    (partition : String) (ids : List String) (m : Dict ActiveFile)
    → HasUniqueKeys m
    → HasUniqueKeys (drop_groups partition ids m)
unfolding drop_groups
drop_groups-HasUniqueKeys partition ids [] u = tt
drop_groups-HasUniqueKeys partition ids ((path, f) ∷ m) u =
    ground
      (arith, lookup-drop_groups path partition ids m, drop_groups-HasUniqueKeys partition ids m)

lookup-apply_replaced :
    (p : String) (replaced : Dict (List String)) (m : Dict ActiveFile)
    → HasUniqueKeys m
    → Dict.lookup p (apply_replaced_file_groups replaced m)
      ≡ unless_replaced replaced (Dict.lookup p m)
unfolding apply_replaced_file_groups
lookup-apply_replaced p [] m u = ground arith
lookup-apply_replaced p ((partition, ids) ∷ later) m u = ground (
  arith,
  lookup-apply_replaced p later (drop_groups partition ids m),
  lookup-drop_groups p partition ids m,
  drop_groups-HasUniqueKeys partition ids m,
)

apply_replaced-HasUniqueKeys :
    (replaced : Dict (List String)) (m : Dict ActiveFile)
    → HasUniqueKeys m
    → HasUniqueKeys (apply_replaced_file_groups replaced m)
unfolding apply_replaced_file_groups
apply_replaced-HasUniqueKeys [] m u = u
apply_replaced-HasUniqueKeys ((partition, ids) ∷ later) m u =
    apply_replaced-HasUniqueKeys later (drop_groups partition ids m)
      (drop_groups-HasUniqueKeys partition ids m u)

module _ {S : Type 0} (s : Source S) (table : Table) (time : ℤ) where
  -- the last file that is written at a path, in one partition and in all
  abbrev pub written_in : String → String → List WriteStat → Option ActiveFile
  written_in p partition [] = none
  written_in p partition (ws ∷ stats) =
      or_else (written_in p partition stats)
        (if str_eq ws.path p then some (active_file s table time partition ws) else none)

  abbrev pub written_at : String → Dict (List WriteStat) → Option ActiveFile
  written_at p [] = none
  written_at p ((partition, stats) ∷ later) =
      or_else (written_at p later) (written_in p partition stats)

  lookup-write_stats :
      (p partition : String) (stats : List WriteStat) (m : Dict ActiveFile)
      → Dict.lookup p (write_stats s table time partition stats m)
        ≡ or_else (written_in p partition stats) (Dict.lookup p m)
  unfolding write_stats
  lookup-write_stats p partition [] m = refl
  lookup-write_stats p partition (ws ∷ stats) m = ground (
    arith,
    lookup-write_stats p partition stats
        (Dict.insert ws.path (active_file s table time partition ws) m),
    Dict.lookup-insert ws.path p (active_file s table time partition ws) m,
  )

  write_stats-HasUniqueKeys :
      (partition : String) (stats : List WriteStat) (m : Dict ActiveFile)
      → HasUniqueKeys m
      → HasUniqueKeys (write_stats s table time partition stats m)
  unfolding write_stats
  write_stats-HasUniqueKeys partition [] m u = u
  write_stats-HasUniqueKeys partition (ws ∷ stats) m u =
      write_stats-HasUniqueKeys partition stats _ (Dict.insert-HasUniqueKeys ws.path _ m u)

  lookup-write_partitions :
      (p : String) (writes : Dict (List WriteStat)) (m : Dict ActiveFile)
      → Dict.lookup p (write_partitions s table time writes m)
        ≡ or_else (written_at p writes) (Dict.lookup p m)
  unfolding write_partitions
  lookup-write_partitions p [] m = refl
  lookup-write_partitions p ((partition, stats) ∷ later) m = ground (
    arith,
    lookup-write_partitions p later (write_stats s table time partition stats m),
    lookup-write_stats p partition stats m,
  )

  write_partitions-HasUniqueKeys :
      (writes : Dict (List WriteStat)) (m : Dict ActiveFile)
      → HasUniqueKeys m
      → HasUniqueKeys (write_partitions s table time writes m)
  unfolding write_partitions
  write_partitions-HasUniqueKeys [] m u = u
  write_partitions-HasUniqueKeys ((partition, stats) ∷ later) m u =
      write_partitions-HasUniqueKeys later _ (write_stats-HasUniqueKeys partition stats m u)

  -- what a commit writes at a path
  abbrev pub written_by : String → CommitMetadata → Option ActiveFile
  written_by p meta = written_at p (s.range_writes meta.partition_to_write_stats)

  -- At each path a commit leaves what it writes there, and else what was there and is not replaced.
  pub lookup-apply_commit :
      (p : String) (meta : CommitMetadata) (m : Dict ActiveFile)
      → HasUniqueKeys m
      → Dict.lookup p (apply_commit s table time meta m)
        ≡ or_else
            (written_by p meta)
            (unless_replaced meta.partition_to_replace_file_ids (Dict.lookup p m))
  unfolding apply_commit
  lookup-apply_commit p meta m u = ground (
    arith,
    lookup-write_partitions p (s.range_writes meta.partition_to_write_stats)
        (apply_replaced_file_groups meta.partition_to_replace_file_ids m),
    lookup-apply_replaced p meta.partition_to_replace_file_ids m,
  )

  pub apply_commit-HasUniqueKeys :
      (meta : CommitMetadata) (m : Dict ActiveFile)
      → HasUniqueKeys m
      → HasUniqueKeys (apply_commit s table time meta m)
  unfolding apply_commit
  apply_commit-HasUniqueKeys meta m u =
      write_partitions-HasUniqueKeys (s.range_writes meta.partition_to_write_stats) _
        (apply_replaced-HasUniqueKeys meta.partition_to_replace_file_ids m u)
