-- ===== src/Delta/Source/Snapshots.antt =====
-- What the snapshot of a log holds at a path: what the last action on the path says.
use xtable_go.Prelude.{
  String, List, [], ◌∷◌, ◌++◌, Option, none, some, ◌≡◌, refl, sym, ap, subst, ◌∙◌, inl, inr,
  Option-cases,
}
use xtable_go.Prelude.Int.{ℤ}
use xtable_go.Prelude.Results.{Result, ok, err, ◌>>=◌, >>=-eq-ok, ok-injective}
use xtable_go.Prelude.Dict
use xtable_go.Prelude.Dict.{Dict, HasUniqueKeys}
use xtable_go.Model.Table.{Table, DataFile}
use xtable_go.Delta.Actions.{SingleAction}
use xtable_go.Delta.Log.{Source, LogState, read_commit}
use xtable_go.Delta.Checkpoint.{CheckpointState}
use xtable_go.Delta.Source.{replay_actions, replay_checkpoint, replay_commits, active_files}
use mathlib.Core.List.{Perm}
use xtable_go.Model.Table.{Snapshot}
use xtable_go.Delta.Log.{load_log_state, latest_version}
use xtable_go.Delta.Source.{get_current_snapshot, snapshot_at, table_at}
use xtable_go.Delta.Source.Replay.{
  Said, nothing, present, absent, said, said_by, said_by_adds, and_then, and_then_assoc, IsSaid,
  Follows, resaid, unchanged-Follows, Follows-trans, replay_actions-Follows,
  replay_checkpoint-Follows,
}

-- the actions of the commits, in the order of the log
abbrev pub log_actions : Source → List ℤ → Result (List SingleAction)
log_actions s [] = ok []
log_actions s (v ∷ vs) =
    read_commit s v >>= λ commit. log_actions s vs >>= λ acts. ok (commit.actions ++ acts)

pub and_then-nothing : (x : Said) → and_then nothing x ≡ x
and_then-nothing nothing = refl
and_then-nothing (present a) = refl
and_then-nothing absent = refl

pub said-append :
    (p : String) (xs ys : List SingleAction) → said p (xs ++ ys) ≡ and_then (said p xs) (said p ys)
said-append p [] ys = sym (and_then-nothing (said p ys))
said-append p (x ∷ xs) ys =
    ap (and_then (said_by p x)) (said-append p xs ys)
    ∙ sym (and_then_assoc (said_by p x) (said p xs) (said p ys))

module _ (s : Source) (table : Table) where
  replay_commits-Follows :
      (vs : List ℤ) (m m' : Dict DataFile)
      → replay_commits s table vs m ≡ ok m'
      → (acts : List SingleAction) × (log_actions s vs ≡ ok acts)
        × Follows s table (λ p. said p acts) m m'
  unfolding replay_commits
  replay_commits-Follows [] m m' h = ([], refl, unchanged-Follows s table m m' (ok-injective h))
  replay_commits-Follows (v ∷ vs) m m' h =
      let (commit, e, h1) = >>=-eq-ok (read_commit s v) _ h in
      let (next, e1, h2) = >>=-eq-ok (replay_actions s table commit.actions m) _ h1 in
      let (acts, e2, f) = replay_commits-Follows vs next m' h2 in
      (
        commit.actions ++ acts,
        rw (e, e2) refl,
        resaid s table _ _ m m' (λ p. sym (said-append p commit.actions acts))
            (Follows-trans s table (λ p. said p commit.actions) (λ p. said p acts) m next m'
              (replay_actions-Follows s table commit.actions m next e1) f),
      )

-- what a log says of a path: the checkpoint first, then the commits after it
abbrev pub said_by_log : String → LogState → List SingleAction → Said
said_by_log p state acts =
    and_then (elim state.checkpoint [ none ↦ nothing | some cp ↦ said_by_adds p cp.adds ])
      (said p acts)

module _ (s : Source) (table : Table) where
  first_files-Follows :
      (cp : Option CheckpointState) (m : Dict DataFile)
      → elim cp [ none ↦ ok [] | some c ↦ replay_checkpoint s table c.adds [] ] ≡ ok m
      → Follows s table (λ p. elim cp [ none ↦ nothing | some c ↦ said_by_adds p c.adds ]) [] m
  first_files-Follows none m h = unchanged-Follows s table [] m (ok-injective h)
  first_files-Follows (some c) m h = replay_checkpoint-Follows s table c.adds [] m h

  active_files-Follows :
      (state : LogState) (m : Dict DataFile)
      → active_files s table state ≡ ok m
      → (acts : List SingleAction) × (log_actions s state.versions ≡ ok acts)
        × Follows s table (λ p. said_by_log p state acts) [] m
  unfolding active_files
  active_files-Follows state m h =
      let (first, e, h1) = >>=-eq-ok _ _ h in
      let (acts, e1, f) = replay_commits-Follows s table state.versions first m h1 in
      (
        acts,
        e1,
        Follows-trans s table _ (λ p. said p acts) [] first m
            (first_files-Follows state.checkpoint first e) f,
      )

-- The data files are, in some order, the values of a map with one entry for each path, in which a
-- path has what the log says of it.
abbrev pub IsReplayOf : Source → LogState → Snapshot → Type 0
IsReplayOf s state snap =
    (acts : List SingleAction) × (m : Dict DataFile) × (log_actions s state.versions ≡ ok acts)
    × Perm snap.data_files (Dict.values m)
    × HasUniqueKeys m
    × ((p : String) → IsSaid s snap.table (said_by_log p state acts) none (Dict.lookup p m))

module _ (s : Source) (any_order : (l : List DataFile) → Perm (s.range_order l) l) where
  snapshot_at-IsSaid :
      (state : LogState) (v : ℤ) (snap : Snapshot)
      → snapshot_at s state v ≡ ok snap
      → IsReplayOf s state snap
  unfolding snapshot_at
  snapshot_at-IsSaid state v snap h =
      let (table, e, h1) = >>=-eq-ok (table_at s state v) _ h in
      let (m, e1, h2) = >>=-eq-ok (active_files s table state) _ h1 in
      let (acts, e2, f) = active_files-Follows s table state m e1 in
      let same = ok-injective h2 in
      (
        acts,
        m,
        e2,
        subst (λ (z : Snapshot). Perm z.data_files (Dict.values m)) same
            (any_order (Dict.values m)),
        f.1 tt,
        λ p.
            subst
              (λ (z : Snapshot). IsSaid s z.table (said_by_log p state acts) none (Dict.lookup p m))
              same
              (subst (λ z. IsSaid s table (said_by_log p state acts) z (Dict.lookup p m))
                (Dict.lookup-nil p) (f.0 p)),
      )

  -- A snapshot that can be had holds, in some order, the values of a map with one entry for each
  -- path, in which a path of the log has the file of the last add on it, converted for the
  -- snapshot's table, when no remove comes later, and none where the last action on it is a remove
  -- or where it has none. The checkpoint's adds come before the actions of the commits after it.
  pub get_current_snapshot-IsSaid :
      (snap : Snapshot)
      → get_current_snapshot s ≡ ok snap
      → (state : LogState) × (load_log_state s ≡ ok state) × IsReplayOf s state snap
  unfolding get_current_snapshot
  get_current_snapshot-IsSaid snap h =
      let (state, e, h1) = >>=-eq-ok (load_log_state s) _ h in
      elim (Option-cases (latest_version state)) [
        | inl p ↦ absurd (no_error (rw p at h1))
        | inr (v, p) ↦ (state, e, snapshot_at-IsSaid state v snap (rw p at h1))
      ]
    where
      no_error : {m : String} → ¬ (err m ≡ ok snap)
      no_error q = cc
