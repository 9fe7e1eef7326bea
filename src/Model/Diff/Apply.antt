-- ===== src/Model/Diff/Apply.antt =====
-- A diff carries one listing over into the other.
use xtable_go.Prelude.{
  String, Bool, false, not, ◌&&◌, ◌||◌, List, [], ◌∷◌, ◌++◌, Option, none, some, ◌≡◌, refl, sym,
  ◌∙◌, inl, inr, arith, keep, if◌then◌else◌, Option-cases, Bool-cases,
}
use xtable_go.Prelude.Int.{==ℤ_iff}
use xtable_go.Prelude.Text.{eq_iff}
use xtable_go.Prelude.Dict
use xtable_go.Prelude.Dict.{Dict, lookup-remove}
use xtable_go.Prelude.Keyed.{
  put_all, find_by, has_by, IsUnique, IsKeyed, is_some, has_by-append, has_by-sort, find_by-sort,
  sort-IsUnique, lookup-put_all, lookup-index_by, is_some-index_by, index_by-IsKeyed,
}
use xtable_go.Model.Table.{DataFile, FilesDiff}
use xtable_go.Model.Diff.{
  path_of, path_less, by_path, compare_new, is_absent, diff_files, file_content_changed,
}

abbrev pub find_path : String → List DataFile → Option DataFile
find_path = find_by path_of

abbrev pub has_path : String → List DataFile → Bool
has_path = has_by path_of

-- No path stands twice in the listing.
abbrev pub HasUniquePaths : List DataFile → Type 0
HasUniquePaths = IsUnique path_of

-- The maps by path see the listings through `find_path` and `has_path`.
lookup-by_path :
    (p : String) (fs : List DataFile)
    → HasUniquePaths fs
    → Dict.lookup p (by_path fs) ≡ find_path p fs
unfolding by_path
lookup-by_path p fs u = lookup-index_by path_of p fs u

is_some-by_path :
    (p : String) (fs : List DataFile) → is_some (Dict.lookup p (by_path fs)) ≡ has_path p fs
unfolding by_path
is_some-by_path p fs = is_some-index_by path_of p fs

by_path-IsKeyed : (fs : List DataFile) → IsKeyed path_of (by_path fs)
unfolding by_path
by_path-IsKeyed fs = index_by-IsKeyed path_of fs

-- What a target makes of a diff: the removed paths go, then the added files come.
pub remove_all : List DataFile → Dict DataFile → Dict DataFile
remove_all [] m = m
remove_all (f ∷ fs) m = remove_all fs (Dict.remove f.physical_path m)

pub apply_diff : FilesDiff → Dict DataFile → Dict DataFile
unfolding remove_all
apply_diff d m = put_all path_of d.files_added (remove_all d.files_removed m)

lookup-remove_all :
    (p : String) (fs : List DataFile) (m : Dict DataFile)
    → Dict.lookup p (remove_all fs m) ≡ (if has_path p fs then none else Dict.lookup p m)
unfolding remove_all
lookup-remove_all p [] m = refl
lookup-remove_all p (f ∷ fs) m = ground (
  arith,
  lookup-remove_all p fs (Dict.remove f.physical_path m),
  lookup-remove f.physical_path p m,
)

-- the file that the diff adds at a path, given what stands there in the old and the new listing
abbrev pub added_at : Option DataFile → Option DataFile → Option DataFile
added_at o none = none
added_at none (some f) = some f
added_at (some prev) (some f) = if file_content_changed prev f then some f else none

abbrev pub changed_at : Option DataFile → Option DataFile → Bool
changed_at (some prev) (some f) = file_content_changed prev f
changed_at _ _ = false

find_path-compare_new :
    (p : String) (m : Dict DataFile) (fs : List DataFile)
    → HasUniquePaths fs
    → find_path p (compare_new m fs).0 ≡ added_at (Dict.lookup p m) (find_path p fs)
unfolding compare_new
find_path-compare_new p m [] u = ground arith
find_path-compare_new p m (f ∷ fs) u =
    ground (arith, find_path-compare_new p m fs u.1, eq_iff f.physical_path p)

compare_new-HasUniquePaths :
    (m : Dict DataFile) (fs : List DataFile)
    → HasUniquePaths fs
    → HasUniquePaths (compare_new m fs).0
unfolding compare_new
compare_new-HasUniquePaths m [] u = tt
compare_new-HasUniquePaths m (f ∷ fs) u =
    ground
      (arith, compare_new-HasUniquePaths m fs u.1, find_path-compare_new f.physical_path m fs u.1)

has_path-compare_new :
    (p : String) (m : Dict DataFile) (fs : List DataFile)
    → HasUniquePaths fs
    → IsKeyed path_of m
    → has_path p (compare_new m fs).1 ≡ changed_at (Dict.lookup p m) (find_path p fs)
unfolding compare_new
has_path-compare_new p m [] u k = ground arith
has_path-compare_new p m (f ∷ fs) u k = elim (Option-cases (Dict.lookup f.physical_path m)) [
  | inl e ↦ ground (arith, has_path-compare_new p m fs u.1 k, eq_iff f.physical_path p)
  | inr (prev, e) ↦
      ground (
        arith,
        has_path-compare_new p m fs u.1 k,
        eq_iff f.physical_path p,
        k f.physical_path prev e,
      )
]

has_path-keep :
    (p : String) (m : Dict DataFile) (fs : List DataFile)
    → has_path p (keep (is_absent m) fs) ≡ (has_path p fs && not (is_some (Dict.lookup p m)))
unfolding is_absent
has_path-keep p m [] = refl
has_path-keep p m (f ∷ fs) = ground (arith, has_path-keep p m fs, eq_iff f.physical_path p)

-- The diff lists a path as added exactly where the new listing has a file that the old one lacks
-- or holds with another size or record count, and the file listed is the new one.
pub find_path-diff_files :
    (p : String) (old new : List DataFile)
    → HasUniquePaths new
    → find_path p (diff_files old new).files_added
      ≡ added_at (Dict.lookup p (by_path old)) (find_path p new)
unfolding diff_files
find_path-diff_files p old new u = ground (
  arith,
  find_by-sort path_of path_less p (compare_new (by_path old) new).0
      (compare_new-HasUniquePaths (by_path old) new u),
  find_path-compare_new p (by_path old) new u,
)

-- A path is listed as removed exactly where the old listing has it and the new one lacks it or
-- holds it with another size or record count.
pub has_path-diff_files :
    (p : String) (old new : List DataFile)
    → HasUniquePaths new
    → has_path p (diff_files old new).files_removed ≡ (
        has_path p old
        && (not (has_path p new) || changed_at (Dict.lookup p (by_path old)) (find_path p new)))
unfolding diff_files
has_path-diff_files p old new u = ground (
  arith,
  has_by-sort path_of path_less p
      ((compare_new (by_path old) new).1 ++ keep (is_absent (by_path new)) old),
  has_by-append path_of p (compare_new (by_path old) new).1 (keep (is_absent (by_path new)) old),
  has_path-compare_new p (by_path old) new u (by_path-IsKeyed old),
  has_path-keep p (by_path new) old,
  is_some-by_path p new,
  is_some-by_path p old,
)

diff_files-HasUniquePaths :
    (old new : List DataFile) → HasUniquePaths new → HasUniquePaths (diff_files old new).files_added
unfolding diff_files
diff_files-HasUniquePaths old new u =
    sort-IsUnique path_of path_less (compare_new (by_path old) new).0
      (compare_new-HasUniquePaths (by_path old) new u)

-- the same file, as far as the diff can tell
abbrev pub SameContent : Option DataFile → Option DataFile → Type 0
SameContent none none = Unit
SameContent (some f) (some g) =
    (f.physical_path ≡ g.physical_path)
    × (f.file_size_bytes ≡ g.file_size_bytes)
    × (f.record_count ≡ g.record_count)
SameContent _ _ = ⊥

abbrev merged_at : Option DataFile → Option DataFile → Option DataFile
merged_at o none = none
merged_at none (some f) = some f
merged_at (some prev) (some f) = if file_content_changed prev f then some f else some prev

lookup-apply_diff :
    (p : String) (old new : List DataFile)
    → HasUniquePaths new
    → Dict.lookup p (apply_diff (diff_files old new) (by_path old))
      ≡ merged_at (Dict.lookup p (by_path old)) (Dict.lookup p (by_path new))
unfolding apply_diff
lookup-apply_diff p old new u = ground (
  arith,
  lookup-put_all path_of p (diff_files old new).files_added
      (remove_all (diff_files old new).files_removed (by_path old))
      (diff_files-HasUniquePaths old new u),
  lookup-remove_all p (diff_files old new).files_removed (by_path old),
  find_path-diff_files p old new u,
  has_path-diff_files p old new u,
  lookup-by_path p new u,
  is_some-by_path p old,
  is_some-by_path p new,
)

unchanged-SameContent :
    (prev f : DataFile)
    → prev.physical_path ≡ f.physical_path
    → file_content_changed prev f ≡ false
    → SameContent (some prev) (some f)
unfolding file_content_changed
unchanged-SameContent prev f e h = ground (
  arith,
  ==ℤ_iff prev.file_size_bytes f.file_size_bytes,
  ==ℤ_iff prev.record_count f.record_count,
)

merged_at-SameContent :
    (p : String) (o n : Option DataFile)
    → ((f : DataFile) → o ≡ some f → f.physical_path ≡ p)
    → ((f : DataFile) → n ≡ some f → f.physical_path ≡ p)
    → SameContent (merged_at o n) n
merged_at-SameContent p none none h k = tt
merged_at-SameContent p (some prev) none h k = tt
merged_at-SameContent p none (some f) h k = (refl, refl, refl)
merged_at-SameContent p (some prev) (some f) h k = elim (Bool-cases (file_content_changed prev f)) [
  | inl e ↦ rw e (refl, refl, refl)
  | inr e ↦ rw e (unchanged-SameContent prev f (h prev refl ∙ sym (k f refl)) e)
]

-- Applying the diff to the old listing, removals first, gives the new listing: at every path
-- either both have nothing, or both have a file of the same size and record count.
pub apply_diff-diff_files :
    (old new : List DataFile) (p : String)
    → HasUniquePaths new
    → SameContent
        (Dict.lookup p (apply_diff (diff_files old new) (by_path old)))
        (Dict.lookup p (by_path new))
apply_diff-diff_files old new p u =
    rw (lookup-apply_diff p old new u)
      (merged_at-SameContent p _ _ (by_path-IsKeyed old p) (by_path-IsKeyed new p))
