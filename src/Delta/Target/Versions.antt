-- ===== src/Delta/Target/Versions.antt =====
-- pkg/formats/delta/target.go: the version that a commit is written at.
use mathlib.Core.List.{mem-cons_self}
use xtable_go.Prelude.{List, [], ◌∷◌, some, get_last?, ◌≡◌, subst, arith, All}
use xtable_go.Prelude.Int.{ℤ, pos, ltb_ℤ, ◌<ℤ◌, ◌≤ℤ◌, inc64, inc64-lt, max_int64}
use xtable_go.Prelude.Text.{concat}
use xtable_go.Prelude.Results.{ok, >>=-eq-ok, map_err, ok-injective}
use xtable_go.Prelude.Sort.{IsSorted, IsOrder, sort-IsSorted}
use xtable_go.Delta.Log.{Source, list_commit_files, commit_versions, log_path}
use xtable_go.Delta.Target.{next_version}

ltb_ℤ-IsOrder : IsOrder ltb_ℤ
ltb_ℤ-IsOrder = record { asym = λ x y h. ground arith; co_trans = λ x y z h k. ground arith }

-- the last version of a sorted list is no less than any of it
last-AllLe :
    (vs : List ℤ) (last : ℤ)
    → IsSorted ltb_ℤ vs
    → get_last? vs ≡ some last
    → All (λ v. v ≤ℤ last) vs
last-AllLe [] last s h = tt
last-AllLe (v ∷ []) last s h = (ground arith, tt)
last-AllLe (v ∷ w ∷ vs) last (above, s) h =
    let later = last-AllLe (w ∷ vs) last s h in
    (ground (arith, later.0, above w mem-cons_self), later)

AllLe-next :
    (vs : List ℤ) (last : ℤ)
    → last <ℤ pos max_int64
    → All (λ v. v ≤ℤ last) vs
    → All (λ v. v <ℤ inc64 last) vs
AllLe-next [] last small h = tt
AllLe-next (v ∷ vs) last small (h, hs) =
    (omega (arith, inc64-lt last small), AllLe-next vs last small hs)

-- The next version is above every version that the listing of the log finds, where the last of them
-- is not the greatest int64.
pub list_commit_files-next_version :
    (s : Source) (versions : List ℤ) (last : ℤ)
    → list_commit_files s ≡ ok versions
    → get_last? versions ≡ some last
    → last <ℤ pos max_int64
    → All (λ v. v <ℤ next_version versions) versions
unfolding list_commit_files next_version
list_commit_files-next_version s versions last listed at_end small =
    let (files, _, sorted) =
      >>=-eq-ok
        (map_err
          (λ e. concat ("failed to list delta log directory " ∷ log_path s [] ∷ ": " ∷ e ∷ []))
          (s.list (log_path s [])))
        _ listed in
    let in_order =
      subst (IsSorted ltb_ℤ) (ok-injective sorted)
        (sort-IsSorted ltb_ℤ-IsOrder (commit_versions files)) in
    rw (at_end, next_version)
      (AllLe-next versions last small (last-AllLe versions last in_order at_end))
