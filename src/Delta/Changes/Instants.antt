-- ===== src/Delta/Changes/Instants.antt =====
-- The instants of the changes, which the next sync starts from.
use xtable_go.Prelude.{
  ℕ, zero, suc, ◌+◌, ◌≤◌, List, [], ◌∷◌, ◌++◌, Option, none, some, ◌≡◌, subst, ◌⊎◌, arith, inl, inr,
  Bool-cases, Option-cases, length, All,
}
use xtable_go.Prelude.Int.{ℤ, pos, negsuc, leb_ℤ, max_int64, ◌≤ℤ◌, ◌<ℤ◌}
use xtable_go.Prelude.Results.{ok, >>=-eq-ok, ok-injective}
use xtable_go.Model.Table.{Table, TableChange, IncrementalTableChanges}
use xtable_go.Delta.Log.{
  Source, DeltaCommit, LogState, latest_version, advance_commit_time, load_log_state, read_commit,
}
use xtable_go.Delta.Source.{table_as_of}
use xtable_go.Delta.Changes.{
  Walked, change_from_commit, change_after, walk, changes_of, first_table, changes_in,
  get_changes_since,
}
use xtable_go.Delta.Changes.Backlog.{walk-Visit, change_from_commit-time}

-- each change's instant is after the one before it, the first one's after `p`
abbrev pub Increases : ℤ → List TableChange → Type 0
Increases p [] = Unit
Increases p (c ∷ cs) = (p <ℤ c.commit_time) × Increases c.commit_time cs

weaken : (p q : ℤ) (cs : List TableChange) → p ≤ℤ q → Increases q cs → Increases p cs
weaken p q [] h i = tt
weaken p q (c ∷ cs) h i = (omega (arith, h, i.0), i.1)

advance-lt : (time raw : ℤ) → time <ℤ pos max_int64 → time <ℤ advance_commit_time time raw
unfolding advance_commit_time
advance-lt (pos a) (pos b) h = ground arith
advance-lt (pos a) (negsuc b) h = ground arith
advance-lt (negsuc zero) (pos b) h = ground arith
advance-lt (negsuc zero) (negsuc b) h = ground arith
advance-lt (negsuc (suc a)) (pos b) h = ground arith
advance-lt (negsuc (suc a)) (negsuc b) h = ground arith

advance-le :
    (time raw : ℤ) (m : ℕ)
    → time ≤ℤ pos m
    → raw ≤ℤ pos m
    → advance_commit_time time raw ≤ℤ pos (suc m)
unfolding advance_commit_time
advance-le (pos a) (pos b) m h k = ground arith
advance-le (pos a) (negsuc b) m h k = ground arith
advance-le (negsuc zero) (pos b) m h k = ground arith
advance-le (negsuc zero) (negsuc b) m h k = ground arith
advance-le (negsuc (suc a)) (pos b) m h k = ground arith
advance-le (negsuc (suc a)) (negsuc b) m h k = ground arith

-- a commit that can be read is dated at most `b`
abbrev pub IsDatedUpTo : Source → ℕ → ℤ → Type 0
IsDatedUpTo s b v =
    (commit : DeltaCommit) → read_commit s v ≡ ok commit → commit.commit_time ≤ℤ pos b

-- no commit of the log is dated after `b`, and `b` and the number of commits together fit an int64
abbrev pub HasRoom : Source → ℕ → Type 0
HasRoom s b =
    (state : LogState)
    → load_log_state s ≡ ok state
    → (b + length state.versions ≤ max_int64) × All (IsDatedUpTo s b) state.versions

abbrev pub UpTo : ℤ → List TableChange → Type 0
UpTo time cs = All (λ (c : TableChange). c.commit_time ≤ℤ time) cs

module _ (s : Source) (b : ℕ) (from : ℤ) where
  -- the changes of one commit: none, or one at its instant
  change_after-cases :
      (commit : DeltaCommit) (now : ℤ) (table : Option Table) (cs : List TableChange)
      → change_after s from commit now table ≡ ok cs
      → (cs ≡ []) ⊎ ((c : TableChange) × (cs ≡ c ∷ []) × (c.commit_time ≡ now) × (from <ℤ now))
  unfolding change_after
  change_after-cases commit now none cs h = ground arith
  change_after-cases commit now (some t) cs h = elim (Bool-cases (leb_ℤ now from)) [
    | inl p ↦ ground arith
    | inr p ↦
        let (c, e, r) = >>=-eq-ok (change_from_commit s commit (table_as_of t now)) _ (rw p at h) in
        let same = change_from_commit-time s commit (table_as_of t now) c e in
        inr (c, ground arith, same, ground arith)
  ]

  abbrev Good : ℤ → Walked → Type 0
  Good time w =
      Increases from w.changes × Increases time w.changes × UpTo w.time w.changes × (time ≤ℤ w.time)

  joined-Good :
      (time now : ℤ) (cs : List TableChange) (rest : Walked)
      → time <ℤ now
      → (cs ≡ []) ⊎ ((c : TableChange) × (cs ≡ c ∷ []) × (c.commit_time ≡ now) × (from <ℤ now))
      → Good now rest
      → Good time (record { changes = cs ++ rest.changes; table = rest.table; time = rest.time })
  joined-Good time now cs rest lt (inl e) (g0, g1, g2, g3) =
      rw e (g0, weaken time now rest.changes (omega (arith, lt)) g1, g2, omega (arith, lt, g3))
  joined-Good time now cs rest lt (inr (c, e, same, after)) (g0, g1, g2, g3) =
      rw (e, same) ((after, g1), (lt, g1), (g3, g2), omega (arith, lt, g3))

  walk-Good :
      (vs : List ℤ) (table : Option Table) (time : ℤ) (m : ℕ) (w : Walked)
      → time ≤ℤ pos m
      → b ≤ m
      → m + length vs ≤ max_int64
      → All (IsDatedUpTo s b) vs
      → walk s from vs table time ≡ ok w
      → Good time w
  unfolding walk
  walk-Good [] table time m w h k room dated e = ground arith
  walk-Good (v ∷ vs) table time m w h k room dated e =
      let vis = walk-Visit s from v vs table time w e in
      let raw = vis.commit.commit_time in
      let now = advance_commit_time time raw in
      let up = dated.0 vis.commit vis.reads in
      subst (Good time) vis.outcome (
        joined-Good time now vis.change vis.rest (advance-lt time raw (omega (arith, h, room)))
          (change_after-cases vis.commit now vis.table' vis.change vis.changed)
          (walk-Good vs vis.table' now (suc m) vis.rest
            (advance-le time raw m h (omega (arith, up, k))) (omega (arith, k))
            (omega (arith, room)) dated.1 vis.goes_on))

  changes_of-Increases :
      (latest : ℤ) (w : Walked) (c : IncrementalTableChanges)
      → Good (pos 0) w
      → changes_of latest w ≡ ok c
      → Increases from c.table_changes
        × Increases (pos 0) c.table_changes
        × UpTo c.current_table.latest_commit_time c.table_changes
  unfolding changes_of
  changes_of-Increases latest w c g e = elim (Option-cases w.table) [
    | inl p ↦ ground arith
    | inr (t, p) ↦
        let (g0, g1, g2, g3) = g in
        let same = ok-injective (rw (p, changes_of) at e) in
        subst
          (λ (c : IncrementalTableChanges).
            Increases from c.table_changes
            × Increases (pos 0) c.table_changes
            × UpTo c.current_table.latest_commit_time c.table_changes)
          same (g0, g1, g2)
  ]

  changes_in-Increases :
      (state : LogState) (c : IncrementalTableChanges)
      → (b + length state.versions ≤ max_int64) × All (IsDatedUpTo s b) state.versions
      → changes_in s state from ≡ ok c
      → Increases from c.table_changes
        × Increases (pos 0) c.table_changes
        × UpTo c.current_table.latest_commit_time c.table_changes
  unfolding changes_in
  changes_in-Increases state c room h = elim (Option-cases (latest_version state)) [
    | inl p ↦ ground arith
    | inr (v, p) ↦
        let h0 = rw (p, changes_in) at h in
        let (first, e1, h1) = >>=-eq-ok (first_table s state) _ h0 in
        let (w, e2, h2) = >>=-eq-ok (walk s from state.versions first (pos 0)) _ h1 in
        changes_of-Increases v w c
          (walk-Good state.versions first (pos 0) b w (omega arith) (omega arith) room.0 room.1 e2)
          h2
  ]

  -- Where no commit is dated after `b`, and `b` and the number of commits together fit an int64, the
  -- changes since an instant stand at instants that increase strictly, whatever the dates of the
  -- commits are: each is after that instant, after 0, and after the one before it, and none is after
  -- the instant of the table that comes with them, from which the next sync starts.
  pub get_changes_since-Increases :
      (c : IncrementalTableChanges)
      → HasRoom s b
      → get_changes_since s from ≡ ok c
      → Increases from c.table_changes
        × Increases (pos 0) c.table_changes
        × UpTo c.current_table.latest_commit_time c.table_changes
  unfolding get_changes_since
  get_changes_since-Increases c room h =
      let (state, e, h1) = >>=-eq-ok (load_log_state s) _ h in
      changes_in-Increases state c (room state e) h1
