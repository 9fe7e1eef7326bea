-- ===== src/Delta/Changes/Backlog.antt =====
-- What asking for the changes since a later instant leaves out.
use xtable_go.Prelude.{
  List, [], ◌∷◌, ◌++◌, Option, none, some, ◌≡◌, ap, arith, keep, keep-append, inl, inr,
  Option-cases, Bool-cases, sym,
}
use xtable_go.Prelude.Int.{ℤ, pos, ltb_ℤ, leb_ℤ, ◌≤ℤ◌}
use xtable_go.Prelude.Results.{ok, >>=-eq-ok, ok-injective}
use xtable_go.Model.Table.{Table, TableChange, IncrementalTableChanges}
use xtable_go.Delta.Log.{
  Source, DeltaCommit, LogState, latest_version, advance_commit_time, load_log_state, read_commit,
}
use xtable_go.Delta.Source.{table_as_of}
use xtable_go.Delta.Changes.{
  Walked, added_files, change_from_commit, change_after, tables_of, walk, first_table, changes_of,
  changes_in, get_changes_since,
}

-- the changes whose instant is after `from`
abbrev pub later_than : ℤ → List TableChange → List TableChange
later_than from cs = keep (λ c. ltb_ℤ from c.commit_time) cs

abbrev pub changes_after : ℤ → IncrementalTableChanges → IncrementalTableChanges
changes_after from c = record {
  table_changes = later_than from c.table_changes;
  current_table = c.current_table;
}

-- What a walk that succeeds finds at its first version.
pub record Visit (s : Source) (from v : ℤ) (vs : List ℤ) (table : Option Table) (time : ℤ)
    (w : Walked) : Type 0 where
  pub commit : DeltaCommit
  pub table' : Option Table
  pub change : List TableChange
  pub rest : Walked
  pub reads : read_commit s v ≡ ok commit
  pub finds :
      tables_of s (advance_commit_time time commit.commit_time) commit.actions table ≡ ok table'
  pub changed :
      change_after s from commit (advance_commit_time time commit.commit_time) table' ≡ ok change
  pub goes_on : walk s from vs table' (advance_commit_time time commit.commit_time) ≡ ok rest
  pub outcome :
      record { changes = change ++ rest.changes; table = rest.table; time = rest.time } ≡ w

module _ (s : Source) where
  pub walk-Visit :
      (from v : ℤ) (vs : List ℤ) (table : Option Table) (time : ℤ) (w : Walked)
      → walk s from (v ∷ vs) table time ≡ ok w
      → Visit s from v vs table time w
  unfolding walk
  walk-Visit from v vs table time w h =
      let (commit, e1, h1) = >>=-eq-ok (read_commit s v) _ h in
      let (table', e2, h2) =
        >>=-eq-ok (tables_of s (advance_commit_time time commit.commit_time) commit.actions table) _
          h1 in
      let (cs, e3, h3) = >>=-eq-ok _ _ h2 in
      let (rest, e4, h4) = >>=-eq-ok _ _ h3 in
      record {
        commit = commit;
        table' = table';
        change = cs;
        rest = rest;
        reads = e1;
        finds = e2;
        changed = e3;
        goes_on = e4;
        outcome = ok-injective h4;
      }

  pub Visit-walk :
      {from v : ℤ} {vs : List ℤ} {table : Option Table} {time : ℤ} {w : Walked}
      → Visit s from v vs table time w
      → walk s from (v ∷ vs) table time ≡ ok w
  unfolding walk
  Visit-walk vis = rw (vis.reads, vis.finds, vis.changed, vis.goes_on) (ap ok vis.outcome)

  pub change_from_commit-time :
      (commit : DeltaCommit) (t : Table) (c : TableChange)
      → change_from_commit s commit t ≡ ok c
      → c.commit_time ≡ t.latest_commit_time
  unfolding change_from_commit
  change_from_commit-time commit t c h =
      let (files, e, r) = >>=-eq-ok (added_files s t commit.actions) _ h in ground arith

  module _ (low from : ℤ) (later : low ≤ℤ from) where
    change_after-later :
        (commit : DeltaCommit) (time : ℤ) (table : Option Table) (cs : List TableChange)
        → change_after s low commit time table ≡ ok cs
        → change_after s from commit time table ≡ ok (later_than from cs)
    unfolding change_after
    change_after-later commit time none cs h = ground (arith, later)
    change_after-later commit time (some t) cs h = elim (Bool-cases (leb_ℤ time low)) [
      | inl p ↦ ground (arith, later)
      | inr p ↦
          let (c, e, r) =
            >>=-eq-ok (change_from_commit s commit (table_as_of t time)) _ (rw p at h) in
          let same = change_from_commit-time commit (table_as_of t time) c e in
          ground (arith, later)
    ]

    shown : Walked → Walked
    shown w = record { changes = later_than from w.changes; table = w.table; time = w.time }

    walk-later :
        (vs : List ℤ) (table : Option Table) (time : ℤ) (w : Walked)
        → walk s low vs table time ≡ ok w
        → walk s from vs table time ≡ ok (shown w)
    unfolding walk shown
    walk-later [] table time w h = ground arith
    walk-later (v ∷ vs) table time w h =
        let vis = walk-Visit low v vs table time w h in
        let kept = keep-append (λ c. ltb_ℤ from c.commit_time) vis.change vis.rest.changes in
        Visit-walk (record {
          commit = vis.commit;
          table' = vis.table';
          reads = vis.reads;
          finds = vis.finds;
          change = later_than from vis.change;
          rest = record {
            changes = later_than from vis.rest.changes;
            table = vis.rest.table;
            time = vis.rest.time;
          };
          changed =
              change_after-later vis.commit (advance_commit_time time vis.commit.commit_time)
                vis.table' vis.change vis.changed;
          goes_on = walk-later vs vis.table' _ vis.rest vis.goes_on;
          outcome = rw (sym kept) (ap shown vis.outcome);
        })

    changes_of-later :
        (latest : ℤ) (w : Walked) (c : IncrementalTableChanges)
        → changes_of latest w ≡ ok c
        → changes_of latest (shown w) ≡ ok (changes_after from c)
    unfolding changes_of shown
    changes_of-later latest w c h = elim (Option-cases w.table) [
      | inl p ↦ ground arith
      | inr (t, p) ↦ ground arith
    ]

    changes_in-later :
        (state : LogState) (c : IncrementalTableChanges)
        → changes_in s state low ≡ ok c
        → changes_in s state from ≡ ok (changes_after from c)
    unfolding changes_in
    changes_in-later state c h = elim (Option-cases (latest_version state)) [
      | inl p ↦ ground arith
      | inr (v, p) ↦
          let h0 = rw (p, changes_in) at h in
          let (first, e1, h1) = >>=-eq-ok (first_table s state) _ h0 in
          let (w, e2, h2) = >>=-eq-ok (walk s low state.versions first (pos 0)) _ h1 in
          rw (p, changes_in, e1, walk-later state.versions first (pos 0) w e2)
            (changes_of-later v w c h2)
    ]

    -- Where the changes since one instant can be told, those since a later instant can be told too:
    -- they are the ones of them whose own instant is after it, in the same order, and the table that
    -- comes with them is the same.
    pub get_changes_since-later :
        (c : IncrementalTableChanges)
        → get_changes_since s low ≡ ok c
        → get_changes_since s from ≡ ok (changes_after from c)
    unfolding get_changes_since
    get_changes_since-later c h =
        let (state, e, h1) = >>=-eq-ok (load_log_state s) _ h in rw e (changes_in-later state c h1)
