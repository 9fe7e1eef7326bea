-- ===== src/Hudi/Source/Snapshots.antt =====
-- What the snapshot of a timeline holds: the files that were written and not replaced since.
use mathlib.Core.List.{Perm}
use xtable_go.Prelude.{
  String, false, List, [], ◌∷◌, Option, none, some, ◌≡◌, refl, sym, subst, ap, ◌∙◌, ◌⊎◌, inl, inr,
  ◌↔◌, Bool-cases, Option-cases, get_last?,
}
use xtable_go.Prelude.Results.{ok, err, >>=-eq-ok, ok-injective}
use xtable_go.Prelude.Keyed.{or_else}
use xtable_go.Prelude.Dict
use xtable_go.Prelude.Dict.{Dict, HasUniqueKeys}
use xtable_go.Model.Table.{DataFile, Snapshot, Table}
use xtable_go.Hudi.Timeline.{CommitMetadata, InstantAction}
use xtable_go.Hudi.Source.{
  Source, commit_metadata, commit_time, active_files, apply_commit, get_current_snapshot,
  list_completed_commits, get_table,
}
use xtable_go.Hudi.Active.{ActiveFile, data_files_of}
use xtable_go.Hudi.Source.Groups.{
  is_replaced, unless_replaced, written_by, lookup-apply_commit, apply_commit-HasUniqueKeys,
}

module _ {S : Type 0} (s : Source S) (table : Table) where
  -- the commits that can be read, with what they say
  abbrev pub readable : S → List InstantAction → List (InstantAction × CommitMetadata)
  readable st [] = []
  readable st (c ∷ cs) =
      let rest = readable st cs in
      elim (commit_metadata s c st) [ none ↦ rest | some meta ↦ (c, meta) ∷ rest ]

  abbrev writes : String → InstantAction × CommitMetadata → Option ActiveFile
  writes p (c, meta) = written_by s table (commit_time s c) p meta

  -- no commit writes at the path or replaces the group of the file
  abbrev pub IsKept : String → List (InstantAction × CommitMetadata) → ActiveFile → Type 0
  IsKept p [] f = Unit
  IsKept p (c ∷ cs) f =
      (writes p c ≡ none)
      × (is_replaced c.1.partition_to_replace_file_ids f ≡ false)
      × IsKept p cs f

  -- a commit writes the file at the path, and it is kept by all later ones
  abbrev pub IsActive : String → List (InstantAction × CommitMetadata) → ActiveFile → Type 0
  IsActive p [] f = ⊥
  IsActive p (c ∷ cs) f = IsActive p cs f ⊎ ((writes p c ≡ some f) × IsKept p cs f)

  -- what the commits leave at a path, one after the other
  abbrev left_at :
      String → List (InstantAction × CommitMetadata) → Option ActiveFile → Option ActiveFile
  left_at p [] before = before
  left_at p (c ∷ cs) before =
      left_at p cs (or_else (writes p c) (unless_replaced c.1.partition_to_replace_file_ids before))

  -- where there was a file before the commits
  abbrev WasKept :
      String → List (InstantAction × CommitMetadata) → ActiveFile → Option ActiveFile → Type 0
  WasKept p cs f none = ⊥
  WasKept p cs f (some g) = (g ≡ f) × IsKept p cs f

  left_at-IsActive :
      (p : String) (cs : List (InstantAction × CommitMetadata)) (before : Option ActiveFile)
      (f : ActiveFile)
      → left_at p cs before ≡ some f
      → IsActive p cs f ⊎ WasKept p cs f before
  left_at-IsActive p [] none f h = cc
  left_at-IsActive p [] (some g) f h = inr (cc, tt)
  left_at-IsActive p (c ∷ cs) before f h = elim (Option-cases (writes p c)) [
    | inr (g, wrote) ↦ elim (left_at-IsActive p cs (some g) f (rw wrote at h)) [
      | inl later ↦ inl (inl later)
      | inr (same, kept) ↦ inl (inr (wrote ∙ ap some same, kept))
    ]
    | inl silent ↦ survived before (λ b k. left_at-IsActive p cs b f k) (rw silent at h) silent
  ]
    where
      survived :
          (was : Option ActiveFile)
          → ((b : Option ActiveFile) → left_at p cs b ≡ some f → IsActive p cs f ⊎ WasKept p cs f b)
          → left_at p cs (unless_replaced c.1.partition_to_replace_file_ids was) ≡ some f
          → writes p c ≡ none
          → IsActive p (c ∷ cs) f ⊎ WasKept p (c ∷ cs) f was
      survived none ih k silent = elim (ih none k) [
        | inl later ↦ inl (inl later)
        | inr none_there ↦ absurd none_there
      ]
      survived (some g) ih k silent =
          elim (Bool-cases (is_replaced c.1.partition_to_replace_file_ids g)) [
            | inl gone ↦ elim (ih none (rw gone at k)) [
              | inl later ↦ inl (inl later)
              | inr none_there ↦ absurd none_there
            ]
            | inr stays ↦ elim (ih (some g) (rw stays at k)) [
              | inl later ↦ inl (inl later)
              | inr (same, kept) ↦ inr (
                same,
                (
                  silent,
                  subst (λ x. is_replaced c.1.partition_to_replace_file_ids x ≡ false) same stays,
                  kept,
                ),
              )
            ]
          ]

  IsKept-left_at :
      (p : String) (cs : List (InstantAction × CommitMetadata)) (f : ActiveFile)
      → IsKept p cs f
      → left_at p cs (some f) ≡ some f
  IsKept-left_at p [] f k = refl
  IsKept-left_at p (c ∷ cs) f k = rw (k.0, k.1) (IsKept-left_at p cs f k.2)

  IsActive-left_at :
      (p : String) (cs : List (InstantAction × CommitMetadata)) (before : Option ActiveFile)
      (f : ActiveFile)
      → IsActive p cs f
      → left_at p cs before ≡ some f
  IsActive-left_at p [] before f h = absurd h
  IsActive-left_at p (c ∷ cs) before f (inl later) = IsActive-left_at p cs _ f later
  IsActive-left_at p (c ∷ cs) before f (inr (wrote, kept)) = rw wrote (IsKept-left_at p cs f kept)

  lookup-active_files :
      (st : S) (p : String) (cs : List InstantAction) (m : Dict ActiveFile)
      → HasUniqueKeys m
      → Dict.lookup p (active_files s table st cs m) ≡ left_at p (readable st cs) (Dict.lookup p m)
  unfolding active_files
  lookup-active_files st p [] m u = refl
  lookup-active_files st p (c ∷ cs) m u = elim (Option-cases (commit_metadata s c st)) [
    | inl unread ↦ rw (unread, active_files, readable) (lookup-active_files st p cs m u)
    | inr (meta, read) ↦
        rw (read, active_files, readable)
          (lookup-active_files st p cs (apply_commit s table (commit_time s c) meta m)
              (apply_commit-HasUniqueKeys s table (commit_time s c) meta m u)
            ∙ ap (left_at p (readable st cs))
                (lookup-apply_commit s table (commit_time s c) p meta m u))
  ]

  active_files-HasUniqueKeys :
      (st : S) (cs : List InstantAction) (m : Dict ActiveFile)
      → HasUniqueKeys m
      → HasUniqueKeys (active_files s table st cs m)
  unfolding active_files
  active_files-HasUniqueKeys st [] m u = u
  active_files-HasUniqueKeys st (c ∷ cs) m u = elim (Option-cases (commit_metadata s c st)) [
    | inl unread ↦ rw (unread, active_files) (active_files-HasUniqueKeys st cs m u)
    | inr (meta, read) ↦
        rw (read, active_files)
          (active_files-HasUniqueKeys st cs (apply_commit s table (commit_time s c) meta m)
            (apply_commit-HasUniqueKeys s table (commit_time s c) meta m u))
  ]

  at_path :
      (st : S) (p : String) (cs : List InstantAction) (f : ActiveFile)
      → (Dict.lookup p (active_files s table st cs []) ≡ some f) ↔ IsActive p (readable st cs) f
  at_path st p cs f =
      let at =
        lookup-active_files st p cs [] tt
        ∙ ap (left_at p (readable st cs)) (Dict.lookup-nil {V = ActiveFile} p) in
      (
        λ h. elim (left_at-IsActive p (readable st cs) none f (sym at ∙ h)) [
          | inl active ↦ active
          | inr none_there ↦ absurd none_there
        ],
        λ active. at ∙ IsActive-left_at p (readable st cs) none f active,
      )

-- The data files are, in some order, those of a map with one entry for each path, which has the
-- active files of the timeline.
abbrev pub IsActiveFilesOf : {S : Type 0} → Source S → S → List InstantAction → Snapshot → Type 0
IsActiveFilesOf s st commits snap =
    (m : Dict ActiveFile) × Perm snap.data_files (data_files_of m)
    × HasUniqueKeys m
    × ((p : String) (f : ActiveFile)
        → (Dict.lookup p m ≡ some f) ↔ IsActive s snap.table p (readable s snap.table st commits) f)

module _ {S : Type 0} (s : Source S)
    (any_order : (l : List DataFile) → Perm (s.range_order l) l) where
  -- A snapshot that can be had holds, in some order and one for each path, exactly the files that a
  -- commit which can be read wrote last at their paths, and whose file groups no later commit which
  -- can be read replaces in their partitions.
  pub get_current_snapshot-IsActive :
      (st : S) (snap : Snapshot)
      → get_current_snapshot s st ≡ ok snap
      → (commits : List InstantAction) × (list_completed_commits s st ≡ ok commits)
        × IsActiveFilesOf s st commits snap
  unfolding get_current_snapshot
  get_current_snapshot-IsActive st snap h =
      let (commits, listed, h1) = >>=-eq-ok (list_completed_commits s st) _ h in
      elim (Option-cases (get_last? commits)) [
        | inl no_commit ↦ absurd (no_error (rw no_commit at h1))
        | inr (latest, last) ↦
            let (table, known, made) =
              >>=-eq-ok (get_table s latest.instant_time st) _ (rw last at h1) in
            (commits, listed, made_from commits table latest (ok-injective made))
      ]
    where
      no_error : {e : String} → ¬ (err e ≡ ok snap)
      no_error q = cc

      made_from :
          (commits : List InstantAction) (table : Table) (latest : InstantAction)
          → ◌≡◌ {A = Snapshot}
              (record {
                table = table;
                partitioned_data_files = [];
                data_files = s.range_order (data_files_of (active_files s table st commits []));
                source_identifier = latest.instant_time;
              })
              snap
          → IsActiveFilesOf s st commits snap
      made_from commits table latest same =
          subst (λ x. IsActiveFilesOf s st commits x) same
            (
              active_files s table st commits [],
              any_order (data_files_of (active_files s table st commits [])),
              active_files-HasUniqueKeys s table st commits [] tt,
              λ p f. at_path s table st p commits f,
            )
