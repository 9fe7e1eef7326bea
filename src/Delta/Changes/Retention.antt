-- ===== src/Delta/Changes/Retention.antt =====
-- Which commits of the log the changes come from, beside what the retention check looks at.
use xtable_go.Prelude.{
  String, List, [], ◌∷◌, ◌++◌, Option, none, some, ◌≡◌, sym, subst, ap, ◌∙◌, arith, inl, inr,
  Bool-cases, Option-cases, All, true,
}
use xtable_go.Prelude.Int.{ℤ, pos, leb_ℤ, ◌<ℤ◌, ◌≤ℤ◌}
use xtable_go.Prelude.Results.{ok, err, >>=-eq-ok, ok-injective}
use xtable_go.Prelude.Decimal.{format_int}
use xtable_go.Model.Table.{Table, TableChange, IncrementalTableChanges}
use xtable_go.Delta.Checkpoint.{CheckpointState, LastCheckpointFile, read_checkpoint}
use xtable_go.Delta.Log.{
  Source, DeltaCommit, LogState, latest_version, load_log_state, read_commit, list_commit_files,
  versions_after, read_last_checkpoint, truncated_at, state_from, commit_text, parse_commit,
  parse_lines, advance_commit_time, rows_at, log_path,
}
use xtable_go.Delta.Source.{table_as_of}
use xtable_go.Delta.Changes.{
  Walked, added_files, change_from_commit, change_after, walk, changes_of, first_table, changes_in,
  get_changes_since, is_incremental_sync_safe_from,
}
use xtable_go.Delta.Changes.Backlog.{walk-Visit}

-- each change is that of a commit whose version has the property
abbrev pub ComeFrom {ℓ} : (ℤ → Type ℓ) → List TableChange → Type ℓ
ComeFrom P cs = All (λ (c : TableChange). (v : ℤ) × P v × (c.source_identifier ≡ format_int v)) cs

some-injective : {A : Type 0} {a b : A} → some a ≡ some b → a ≡ b
some-injective h = cc

module _ (s : Source) (P : ℤ → Type 0) (from : ℤ) where
  change_after-ComeFrom :
      (commit : DeltaCommit) (now : ℤ) (table : Option Table) (cs : List TableChange)
      → P commit.version
      → change_after s from commit now table ≡ ok cs
      → ComeFrom P cs
  unfolding change_after change_from_commit
  change_after-ComeFrom commit now none cs p h = elim (Bool-cases (leb_ℤ now from)) [
    | inl q ↦ subst (ComeFrom P) (ok-injective (rw (q, change_after) at h)) tt
    | inr q ↦ ground (arith, q)
  ]
  change_after-ComeFrom commit now (some t) cs p h = elim (Bool-cases (leb_ℤ now from)) [
    | inl q ↦ subst (ComeFrom P) (ok-injective (rw (q, change_after) at h)) tt
    | inr q ↦
        let (c, e, r) =
          >>=-eq-ok (change_from_commit s commit (table_as_of t now)) _
            (rw (q, change_after) at h) in
        let (added, e1, r1) = >>=-eq-ok (added_files s (table_as_of t now) commit.actions) _ e in
        subst (ComeFrom P) (ok-injective r) (
          (
            commit.version,
            p,
            ap (λ (z : TableChange). z.source_identifier) (sym (ok-injective r1)),
          ),
          tt,
        )
  ]

  ComeFrom-append :
      (xs ys : List TableChange) → ComeFrom P xs → ComeFrom P ys → ComeFrom P (xs ++ ys)
  ComeFrom-append [] ys h k = k
  ComeFrom-append (x ∷ xs) ys h k = (h.0, ComeFrom-append xs ys h.1 k)

  walk-ComeFrom :
      (vs : List ℤ) (table : Option Table) (time : ℤ) (w : Walked)
      → ((v : ℤ) (commit : DeltaCommit) → read_commit s v ≡ ok commit → commit.version ≡ v)
      → All P vs
      → walk s from vs table time ≡ ok w
      → ComeFrom P w.changes
  unfolding walk
  walk-ComeFrom [] table time w named all h =
      subst (λ (z : Walked). ComeFrom P z.changes) (ok-injective h) tt
  walk-ComeFrom (v ∷ vs) table time w named all h =
      let vis = walk-Visit s from v vs table time w h in
      let at_v = subst P (sym (named v vis.commit vis.reads)) all.0 in
      subst (λ (z : Walked). ComeFrom P z.changes) vis.outcome
        (ComeFrom-append vis.change vis.rest.changes
          (change_after-ComeFrom vis.commit (advance_commit_time time vis.commit.commit_time)
            vis.table' vis.change at_v vis.changed)
          (walk-ComeFrom vs vis.table' (advance_commit_time time vis.commit.commit_time) vis.rest
            named all.1 vis.goes_on))

versions_after-All : (v : ℤ) (vs : List ℤ) → All (λ u. v <ℤ u) (versions_after v vs)
versions_after-All v [] = tt
versions_after-All v (u ∷ us) = ground (arith, versions_after-All v us)

module _ (s : Source) where
  read_commit-version :
      (v : ℤ) (commit : DeltaCommit) → read_commit s v ≡ ok commit → commit.version ≡ v
  unfolding read_commit parse_commit
  read_commit-version v commit h =
      let (text, e, h1) = >>=-eq-ok (commit_text s v) _ h in
      let (parsed, e1, h2) =
        >>=-eq-ok (parse_lines s.decode_action v (s.scan text).0 (pos 0)) _ h1 in
      elim (Option-cases (s.scan text).1) [
        | inl p ↦ ap (λ (z : DeltaCommit). z.version) (sym (ok-injective (rw p at h2)))
        | inr (m, p) ↦ absurd (no_error (rw p at h2))
      ]
    where
      no_error : {m : String} → ¬ (err m ≡ ok commit)
      no_error q = cc

  -- what loading leaves of the log: the commits strictly after the checkpoint
  state_from-All :
      (versions : List ℤ) (last : Option LastCheckpointFile) (state : LogState)
      (cp : CheckpointState)
      → state_from s versions last ≡ ok state
      → state.checkpoint ≡ some cp
      → All (λ v. cp.version <ℤ v) state.versions
  unfolding state_from
  state_from-All versions none state cp h is_cp = elim (Option-cases (truncated_at versions)) [
    | inl p ↦ absurd (no_checkpoint (ok-injective (rw (p, state_from) at h)))
    | inr (v, p) ↦ absurd (no_error (rw (p, state_from) at h))
  ]
    where
      no_error : {m : String} → ¬ (err m ≡ ok state)
      no_error q = cc

      no_checkpoint : ¬ (record { checkpoint = none; versions = versions } ≡ state)
      no_checkpoint q = cc
  state_from-All versions (some pointer) state cp h is_cp =
      let (c, e, h1) =
        >>=-eq-ok (read_checkpoint (λ name. log_path s (name ∷ [])) (rows_at s) pointer) _ h in
      let same = ok-injective h1 in
      let same_cp = some-injective (ap (λ (z : LogState). z.checkpoint) same ∙ is_cp) in
      subst (λ (z : LogState). All (λ v. cp.version <ℤ v) z.versions) same
        (subst
          (λ (z : CheckpointState). All (λ v. z.version <ℤ v) (versions_after c.version versions))
          same_cp (versions_after-All c.version versions))

  load_log_state-All :
      (state : LogState) (cp : CheckpointState)
      → load_log_state s ≡ ok state
      → state.checkpoint ≡ some cp
      → All (λ v. cp.version <ℤ v) state.versions
  unfolding load_log_state
  load_log_state-All state cp h is_cp =
      let (versions, e, h1) = >>=-eq-ok (list_commit_files s) _ h in
      let (last, e1, h2) = >>=-eq-ok (read_last_checkpoint s) _ h1 in
      state_from-All versions last state cp h2 is_cp

  changes_in-ComeFrom :
      (P : ℤ → Type 0) (state : LogState) (from : ℤ) (c : IncrementalTableChanges)
      → All P state.versions
      → changes_in s state from ≡ ok c
      → ComeFrom P c.table_changes
  unfolding changes_in changes_of
  changes_in-ComeFrom P state from c all h = elim (Option-cases (latest_version state)) [
    | inl p ↦ ground arith
    | inr (v, p) ↦
        let h0 = rw (p, changes_in) at h in
        let (first, e1, h1) = >>=-eq-ok (first_table s state) _ h0 in
        let (w, e2, h2) = >>=-eq-ok (walk s from state.versions first (pos 0)) _ h1 in
        let come =
          walk-ComeFrom s P from state.versions first (pos 0) w read_commit-version all e2 in
        elim (Option-cases w.table) [
          | inl q ↦ ground (arith, q)
          | inr (t, q) ↦
              subst (λ (z : IncrementalTableChanges). ComeFrom P z.table_changes)
                (ok-injective (rw (q, changes_of) at h2)) come
        ]
  ]

  -- In a log with a checkpoint and an older commit that is still there, dated after 0 and not after
  -- an instant, an incremental sync from that instant counts as safe, and the changes that it gets
  -- all come from commits with versions greater than the checkpoint's: those that the checkpoint
  -- covers are never among them, whether they are after the instant or not.
  pub get_changes_since-ComeFrom :
      (state : LogState) (cp : CheckpointState) (v : ℤ) (vs : List ℤ) (first : DeltaCommit)
      (from : ℤ) (c : IncrementalTableChanges)
      → load_log_state s ≡ ok state
      → state.checkpoint ≡ some cp
      → list_commit_files s ≡ ok (v ∷ vs)
      → read_commit s v ≡ ok first
      → pos 0 <ℤ first.commit_time
      → first.commit_time ≤ℤ from
      → get_changes_since s from ≡ ok c
      → (is_incremental_sync_safe_from s from ≡ ok true)
        × ComeFrom (λ u. cp.version <ℤ u) c.table_changes
  unfolding get_changes_since is_incremental_sync_safe_from
  get_changes_since-ComeFrom state cp v vs first from c loads is_cp lists reads dated old h = (
    rw (lists, reads) (ground (arith, dated, old)),
    changes_in-ComeFrom (λ u. cp.version <ℤ u) state from c
        (load_log_state-All state cp loads is_cp) (rw (loads, get_changes_since) at h),
  )
