-- ===== src/Paimon/Target/Folds.antt =====
-- applyDiff against the reader: the files that the writer goes on with are those that it wrote.
use xtable_go.Prelude.{String, Bool, not, ◌&&◌, ◌||◌, List, [], ◌∷◌, ◌++◌, ◌≡◌, refl, ap, arith}
use xtable_go.Prelude.Int.{ℤ}
use xtable_go.Prelude.Results.{ok, >>=-eq-ok, ok-injective, map_err-eq-ok}
use xtable_go.Prelude.Text.{eq_iff}
use xtable_go.Prelude.Keyed.{is_some, has_by, has_by-append}
use xtable_go.Prelude.Dict
use xtable_go.Prelude.Dict.{Dict}
use xtable_go.Io.Relativize.{relativize_path}
use xtable_go.Model.Table.{DataFile}
use xtable_go.Paimon.Manifest.{ManifestEntry, entry_for_data_file, kind_add, kind_delete}
use xtable_go.Paimon.Source.{replay_entries}
use xtable_go.Paimon.Source.Rewritten.{replay_entries-append}
use xtable_go.Paimon.Target.{commit_entries}
use xtable_go.Paimon.Writer.{
  Target, CommitParams, entries_for, file_key, names_of, kept, unseen, apply_diff,
}

abbrev is_in : {V : Type 0} → String → Dict V → Bool
is_in name m = is_some (Dict.lookup name m)

module _ {S : Type 0} (t : Target S) where
  abbrev has : String → List DataFile → Bool
  has name files = has_by (file_key t) name files

  entry_name :
      (df : DataFile) (kind id : ℤ) (e : ManifestEntry)
      → entry_for_data_file t.clean t.show t.source.base_path df kind id ≡ ok e
      → (e.file.file_name ≡ file_key t df) × (e.kind ≡ kind)
  unfolding entry_for_data_file file_key
  entry_name df kind id e h =
      let (name, found, made) = >>=-eq-ok _ _ h in
      let placed =
        map_err-eq-ok _ (relativize_path t.clean df.physical_path t.source.base_path) found in
      let same = ok-injective made in rw (placed, file_key) (rw (← same) (refl, refl))

  has-kept :
      (name : String) (dropped : Dict (Unit {0})) (files : List DataFile)
      → has name (kept t dropped files) ≡ (not (is_in name dropped) && has name files)
  unfolding kept
  has-kept name dropped [] = ground arith
  has-kept name dropped (f ∷ fs) =
      ground (arith, has-kept name dropped fs, eq_iff (file_key t f) name)

  names_of-has :
      (name : String) (files : List DataFile) (m : Dict (Unit {0}))
      → is_in name (names_of t files m) ≡ (has name files || is_in name m)
  unfolding names_of
  names_of-has name [] m = refl
  names_of-has name (f ∷ fs) m = ground (
    arith,
    names_of-has name fs (Dict.insert (file_key t f) tt m),
    Dict.lookup-insert (file_key t f) name tt m,
    eq_iff (file_key t f) name,
  )

  has-unseen :
      (name : String) (files : List DataFile) (seen : Dict (Unit {0}))
      → (has name (unseen t files seen) || is_in name seen) ≡ (has name files || is_in name seen)
  unfolding unseen
  has-unseen name [] seen = refl
  has-unseen name (f ∷ fs) seen = ground (
    arith,
    has-unseen name fs seen,
    has-unseen name fs (Dict.insert (file_key t f) tt seen),
    Dict.lookup-insert (file_key t f) name tt seen,
    eq_iff (file_key t f) name,
  )

  -- what a writer's fold has at a name: what was added, and what was there and was not removed
  pub has-apply_diff :
      (name : String) (base added removed : List DataFile)
      → has name (apply_diff t base added removed)
        ≡ (has name added || (not (has name removed) && has name base))
  unfolding apply_diff
  has-apply_diff name base added removed =
      let left = kept t (names_of t removed []) base in
      ground (
        arith,
        has_by-append (file_key t) name left (unseen t added (names_of t left [])),
        has-unseen name added (names_of t left []),
        names_of-has name left [],
        has-kept name (names_of t removed []) base,
        names_of-has name removed [],
        Dict.lookup-nil {V = Unit {0}} name,
      )

  module _ (file_of : ManifestEntry → DataFile) (id : ℤ) where
    abbrev live_after : List ManifestEntry → Dict DataFile → Dict DataFile
    live_after es live = (replay_entries file_of es live).1

    replay-added :
        (name : String) (files : List DataFile) (es : List ManifestEntry) (live : Dict DataFile)
        → entries_for t kind_add id files ≡ ok es
        → is_in name (live_after es live) ≡ (has name files || is_in name live)
    unfolding entries_for replay_entries
    replay-added name [] es live h = let same : [] ≡ es = ok-injective h in rw (← same) refl
    replay-added name (f ∷ fs) es live h =
        let (e, made, h1) =
          >>=-eq-ok (entry_for_data_file t.clean t.show t.source.base_path f kind_add id) _ h in
        let (later, rest, same) = >>=-eq-ok (entries_for t kind_add id fs) _ h1 in
        let (at_name, adds) = entry_name f kind_add id e made in
        let same_es : (e ∷ later) ≡ es = ok-injective same in
        rw (← same_es) (
          ground (
            arith,
            replay-added name fs later (Dict.insert e.file.file_name (file_of e) live) rest,
            Dict.lookup-insert e.file.file_name name (file_of e) live,
          ))

    replay-removed :
        (name : String) (files : List DataFile) (es : List ManifestEntry) (live : Dict DataFile)
        → entries_for t kind_delete id files ≡ ok es
        → is_in name (live_after es live) ≡ (not (has name files) && is_in name live)
    unfolding entries_for replay_entries
    replay-removed name [] es live h = let same : [] ≡ es = ok-injective h in rw (← same) refl
    replay-removed name (f ∷ fs) es live h =
        let (e, made, h1) =
          >>=-eq-ok (entry_for_data_file t.clean t.show t.source.base_path f kind_delete id) _ h in
        let (later, rest, same) = >>=-eq-ok (entries_for t kind_delete id fs) _ h1 in
        let (at_name, deletes) = entry_name f kind_delete id e made in
        let same_es : (e ∷ later) ≡ es = ok-injective same in
        rw (← same_es) (
          ground (
            arith,
            replay-removed name fs later (Dict.remove e.file.file_name live) rest,
            Dict.lookup-remove e.file.file_name name live,
          ))

    live_after-append :
        (xs ys : List ManifestEntry) (live : Dict DataFile)
        → live_after (xs ++ ys) live ≡ live_after ys (live_after xs live)
    live_after-append xs ys live =
        ap (λ (r : List String × Dict DataFile). r.1) (replay_entries-append file_of xs ys live)

  -- A reader that replays the entries of a commit finds a file at exactly the names of the list that
  -- the writer goes on with.
  pub replay_entries-apply_diff :
      (file_of : ManifestEntry → DataFile) (p : CommitParams) (base delta : List ManifestEntry)
      → commit_entries t p ≡ ok (base, delta)
      → (name : String)
      → is_some (Dict.lookup name (replay_entries file_of (base ++ delta) []).1)
        ≡ has_by (file_key t) name (apply_diff t p.base p.added p.removed)
  unfolding commit_entries
  replay_entries-apply_diff file_of p base delta h name =
      let (b, of_base, h1) = >>=-eq-ok (entries_for t kind_add p.params_schema_id p.base) _ h in
      let (r, of_removed, h2) =
        >>=-eq-ok (entries_for t kind_delete p.params_schema_id p.removed) _ h1 in
      let (a, of_added, h3) = >>=-eq-ok (entries_for t kind_add p.params_schema_id p.added) _ h2 in
      let both : (b, r ++ a) ≡ (base, delta) = ok-injective h3 in
      let at_base = live_after file_of p.params_schema_id b [] in
      let at_removed = live_after file_of p.params_schema_id r at_base in
      rw
        (
          ← ap (λ (x : List ManifestEntry × List ManifestEntry). x.0) both,
          ← ap (λ (x : List ManifestEntry × List ManifestEntry). x.1) both,
          live_after-append file_of p.params_schema_id b (r ++ a) [],
          live_after-append file_of p.params_schema_id r a at_base,
        )
        (ground (
          arith,
          replay-added file_of p.params_schema_id name p.added a at_removed of_added,
          replay-removed file_of p.params_schema_id name p.removed r at_base of_removed,
          replay-added file_of p.params_schema_id name p.base b [] of_base,
          has-apply_diff name p.base p.added p.removed,
          Dict.lookup-nil {V = DataFile} name,
        ))
