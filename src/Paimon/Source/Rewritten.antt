-- ===== src/Paimon/Source/Rewritten.antt =====
-- What the listing of a snapshot makes of a file that one commit deletes and adds again.
use mathlib.Core.List.{Mem, mem-map_of_mem}
use mathlib.Core.Path.{ap₂}
use xtable_go.Prelude.{
  String, true, false, List, [], ◌∷◌, ◌++◌, Option, none, some, ◌≡◌, refl, sym, subst, ap, ◌∙◌,
  arith, map,
}
use xtable_go.Prelude.Text.{eq_iff, eq_refl}
use xtable_go.Prelude.Dict
use xtable_go.Prelude.Dict.{Dict}
use xtable_go.Io.{join_path}
use xtable_go.Model.Table.{DataFile, Table}
use xtable_go.Paimon.Manifest.{ManifestEntry, data_file_for_entry}
use xtable_go.Paimon.Source.{Source, replay_entries, files_at, live_of, file_for}
use xtable_go.Paimon.Source.Live.{is_delete, IsLast, at_last, live_of-IsLast}

-- the paths of a listing
abbrev pub paths : List DataFile → List String
paths = map (λ f. f.physical_path)

abbrev path_at : Option DataFile → Option String
path_at none = none
path_at (some f) = some f.physical_path

paths-files_at :
    (l m : Dict DataFile) (names : List String)
    → ((p : String) → path_at (Dict.lookup p l) ≡ path_at (Dict.lookup p m))
    → paths (files_at l names) ≡ paths (files_at m names)
unfolding files_at
paths-files_at l m [] same = refl
paths-files_at l m (n ∷ ns) same = ground (arith, same n, paths-files_at l m ns same)

paths-append : (xs ys : List DataFile) → paths (xs ++ ys) ≡ paths xs ++ paths ys
paths-append [] ys = refl
paths-append (x ∷ xs) ys = ap (x.physical_path ∷◌) (paths-append xs ys)

files_at-append :
    (l : Dict DataFile) (xs ys : List String)
    → files_at l (xs ++ ys) ≡ files_at l xs ++ files_at l ys
unfolding files_at
files_at-append l [] ys = refl
files_at-append l (x ∷ xs) ys = ground (arith, files_at-append l xs ys)

module _ (file_of : ManifestEntry → DataFile) where
  pub replay_entries-append :
      (xs ys : List ManifestEntry) (live : Dict DataFile)
      → replay_entries file_of (xs ++ ys) live ≡ (
        (replay_entries file_of xs live).0
            ++ (replay_entries file_of ys (replay_entries file_of xs live).1).0,
        (replay_entries file_of ys (replay_entries file_of xs live).1).1,
      )
  unfolding replay_entries
  replay_entries-append [] ys live = refl
  replay_entries-append (x ∷ xs) ys live = ground (
    arith,
    replay_entries-append xs ys (Dict.remove x.file.file_name live),
    replay_entries-append xs ys (Dict.insert x.file.file_name (file_of x) live),
  )

  -- a deletion and an addition on one name that was there
  replay_rewrite :
      (d e : ManifestEntry) (live : Dict DataFile)
      → is_delete d ≡ true
      → is_delete e ≡ false
      → d.file.file_name ≡ e.file.file_name
      → replay_entries file_of (d ∷ e ∷ []) live ≡ (
        e.file.file_name ∷ [],
        Dict.insert e.file.file_name (file_of e) (Dict.remove d.file.file_name live),
      )
  unfolding replay_entries
  replay_rewrite d e live deletes adds same = ground (
    arith,
    Dict.lookup-remove d.file.file_name e.file.file_name live,
    eq_iff d.file.file_name e.file.file_name,
  )

  -- it leaves the same paths behind, where the two files have one path
  same_paths :
      (d e : ManifestEntry) (live : Dict DataFile) (f : DataFile)
      → d.file.file_name ≡ e.file.file_name
      → Dict.lookup e.file.file_name live ≡ some f
      → f.physical_path ≡ (file_of e).physical_path
      → (p : String)
      → path_at (
          Dict.lookup p
            (Dict.insert e.file.file_name (file_of e) (Dict.remove d.file.file_name live)))
        ≡ path_at (Dict.lookup p live)
  same_paths d e live f same found path p = ground (
    arith,
    Dict.lookup-insert e.file.file_name p (file_of e) (Dict.remove d.file.file_name live),
    Dict.lookup-remove d.file.file_name p live,
    eq_iff e.file.file_name p,
  )

paths-files_at_one :
    (n : String) (f : DataFile) (live : Dict DataFile)
    → paths (files_at (Dict.insert n f live) (n ∷ [])) ≡ f.physical_path ∷ []
unfolding files_at
paths-files_at_one n f live = ground (arith, Dict.lookup-insert n n f live, eq_refl n)

module _ {S : Type 0} (s : Source S) (table : Table) where
  paths-live_of-append :
      (es new : List ManifestEntry)
      → let (order, live) = replay_entries (file_for s table) es [] in
        let (added, live') = replay_entries (file_for s table) new live in
        paths (live_of s table (es ++ new))
        ≡ paths (files_at live' order) ++ paths (files_at live' added)
  unfolding live_of
  paths-live_of-append es new =
      rw (replay_entries-append (file_for s table) es new [])
        (ap paths (files_at-append _ _ _) ∙ paths-append _ _)

  path-file_for :
      (old e : ManifestEntry)
      → e.file.file_name ≡ old.file.file_name
      → (file_for s table old).physical_path ≡ (file_for s table e).physical_path
  unfolding data_file_for_entry
  path-file_for old e same = ap (λ n. join_path s.local_join s.base_path (n ∷ [])) (sym same)

  -- Where the last entry on a file's name has it in the listing, an entry that deletes the name and
  -- one that adds it again, as the writer makes for a file that was rewritten in place, give the
  -- paths of the listing before with that file's path once more at the end, while it was there before.
  pub paths-live_of-rewritten :
      (es : List ManifestEntry) (old d e : ManifestEntry)
      → IsLast es old
      → is_delete d ≡ true
      → is_delete e ≡ false
      → d.file.file_name ≡ old.file.file_name
      → e.file.file_name ≡ old.file.file_name
      → (paths (live_of s table (es ++ d ∷ e ∷ []))
          ≡ paths (live_of s table es) ++ (file_for s table e).physical_path ∷ [])
        × Mem (file_for s table e).physical_path (paths (live_of s table es))
  unfolding live_of
  paths-live_of-rewritten es old d e last deletes adds same_d same_e =
      let live = (replay_entries (file_for s table) es []).1 in
      let found =
        subst (λ n. Dict.lookup n live ≡ some (file_for s table old)) (sym same_e)
          (at_last (file_for s table) es old last) in
      let same = same_d ∙ sym same_e in
      let path = path-file_for old e same_e in
      (
        paths-live_of-append es (d ∷ e ∷ [])
            ∙ rw (replay_rewrite (file_for s table) d e live deletes adds same) (
                ap₂ ◌++◌
                  (paths-files_at _ live (replay_entries (file_for s table) es []).0
                    (same_paths (file_for s table) d e live (file_for s table old) same found path))
                  (paths-files_at_one e.file.file_name (file_for s table e)
                    (Dict.remove d.file.file_name live))),
        subst (λ p. Mem p (paths (live_of s table es))) path
            (mem-map_of_mem (λ (f : DataFile). f.physical_path)
              ((live_of-IsLast s table es).1 old last)),
      )
