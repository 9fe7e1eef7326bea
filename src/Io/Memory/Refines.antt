-- ===== src/Io/Memory/Refines.antt =====
-- pkg/io/memory.go: the storage in memory against the sequence of the calls that changed it.
use xtable_go.Prelude.{
  String, false, ◌&&◌, List, [], ◌∷◌, Option, none, some, ◌≡◌, ◌↔◌, refl, ap, ◌∙◌, arith,
  if◌then◌else◌,
}
use xtable_go.Prelude.Int.{ℤ}
use xtable_go.Prelude.Results.{ok}
use xtable_go.Prelude.Text.{str_eq, eq_iff, str_lt_asym, str_lt_co_trans}
use xtable_go.Prelude.Sort.{sort, IsOrder, IsSorted, sort-IsSorted}
use xtable_go.Prelude.Keyed.{is_some, has_by, has_by-sort, find_by, IsUnique, sort-IsUnique}
use xtable_go.Prelude.Dict
use xtable_go.Prelude.Dict.{Dict, HasUniqueKeys}
use xtable_go.Io.{has_prefix}
use xtable_go.Io.Storage.{FileInfo}
use xtable_go.Io.Memory.{
  MemFile, MemoryStorage, new_memory_storage, read_file, write_file, delete_file, file_exists,
  list_files, files_under, info_less,
}

-- a call that changes the storage, at the time that the clock shows
pub data Call : Type 0 where
  write : (now : ℤ) (path contents : String) → Call
  delete : (path : String) → Call

abbrev at_time : ℤ → MemoryStorage → MemoryStorage
at_time now s = record { files = s.files; now = now }

abbrev pub after : List Call → MemoryStorage → MemoryStorage
after [] s = s
after (write now path contents ∷ calls) s = after calls (write_file path contents (at_time now s)).0
after (delete path ∷ calls) s = after calls (delete_file path s).0

-- what the last call on a path left there, over what was there before
abbrev pub held : String → List Call → Option String → Option String
held p [] before = before
held p (write now path contents ∷ calls) before =
    held p calls (if str_eq path p then some contents else before)
held p (delete path ∷ calls) before = held p calls (if str_eq path p then none else before)

abbrev contents_at : String → MemoryStorage → Option String
contents_at p s = elim (Dict.lookup p s.files) [ none ↦ none | some f ↦ some f.contents ]

contents_at-after :
    (p : String) (calls : List Call) (s : MemoryStorage)
    → contents_at p (after calls s) ≡ held p calls (contents_at p s)
unfolding write_file delete_file
contents_at-after p [] s = refl
contents_at-after p (write now path contents ∷ calls) s =
    contents_at-after p calls (write_file path contents (at_time now s)).0
    ∙ ap (held p calls) (
        let found =
          Dict.lookup-insert path p (record { contents = contents; modified = now }) s.files in
        ground arith)
contents_at-after p (delete path ∷ calls) s =
    contents_at-after p calls (delete_file path s).0
    ∙ ap (held p calls) (let found = Dict.lookup-remove path p s.files in ground arith)

after-HasUniqueKeys :
    (calls : List Call) (s : MemoryStorage)
    → HasUniqueKeys s.files
    → HasUniqueKeys (after calls s).files
unfolding write_file delete_file
after-HasUniqueKeys [] s u = u
after-HasUniqueKeys (write now path contents ∷ calls) s u =
    after-HasUniqueKeys calls (write_file path contents (at_time now s)).0
      (Dict.insert-HasUniqueKeys path _ s.files u)
after-HasUniqueKeys (delete path ∷ calls) s u =
    after-HasUniqueKeys calls (delete_file path s).0 (Dict.remove-HasUniqueKeys path s.files u)

abbrev pub path_of : FileInfo → String
path_of f = f.path

has-files_under :
    (p prefix : String) (m : Dict MemFile)
    → has_by path_of p (files_under prefix m) ≡ (has_prefix prefix p && is_some (Dict.lookup p m))
unfolding files_under Dict.lookup
has-files_under p prefix [] = ground arith
has-files_under p prefix ((path, f) ∷ m) = ground (arith, has-files_under p prefix m, eq_iff path p)

find-has :
    (p : String) (l : List FileInfo) → has_by path_of p l ≡ false → find_by path_of p l ≡ none
find-has p [] h = refl
find-has p (f ∷ fs) h = ground (arith, find-has p fs)

files_under-IsUnique :
    (prefix : String) (m : Dict MemFile) → HasUniqueKeys m → IsUnique path_of (files_under prefix m)
unfolding files_under
files_under-IsUnique prefix [] u = tt
files_under-IsUnique prefix ((path, f) ∷ m) u = ground (
  arith,
  files_under-IsUnique prefix m,
  find-has path (files_under prefix m),
  has-files_under path prefix m,
)

info_less-IsOrder : IsOrder info_less
info_less-IsOrder = record {
  asym = λ x y. str_lt_asym x.path y.path;
  co_trans = λ x y z. str_lt_co_trans x.path y.path z.path;
}

-- what the storage says of a path, and of a directory, where this is held at each path
abbrev pub Holds : (String → Option String) → MemoryStorage → Type 0
Holds at s =
    ((p contents : String) → (read_file p s ≡ ok contents) ↔ (at p ≡ some contents))
    × ((p : String) → file_exists p s ≡ ok (is_some (at p)))
    × ((prefix : String)
        → (infos : List FileInfo) × (list_files prefix s ≡ ok infos)
          × ((p : String) → has_by path_of p infos ≡ (has_prefix prefix p && is_some (at p)))
          × IsUnique path_of infos
          × IsSorted info_less infos)

contents-held :
    (p : String) (calls : List Call) (start : ℤ)
    → contents_at p (after calls (new_memory_storage start)) ≡ held p calls none
unfolding Dict.lookup
contents-held p calls start = contents_at-after p calls (new_memory_storage start)

-- After any calls on an empty storage, a path reads as what the last write to it put there, unless
-- it was deleted since; it exists exactly then; and a listing has exactly the paths that exist and
-- begin with the prefix, each once, in order.
pub after-Holds :
    (calls : List Call) (start : ℤ)
    → Holds (λ p. held p calls none) (after calls (new_memory_storage start))
unfolding read_file file_exists list_files
after-Holds calls start =
    let s = after calls (new_memory_storage start) in
    let unique = after-HasUniqueKeys calls (new_memory_storage start) tt in
    (
      λ p contents.
          let here = contents-held p calls start in (λ h. ground arith, λ h. ground arith),
      λ p. let here = contents-held p calls start in ground arith,
      λ prefix. (
        sort info_less (files_under prefix s.files),
        refl,
        λ p.
            let here = contents-held p calls start in
            ground (
              arith,
              has_by-sort path_of info_less p (files_under prefix s.files),
              has-files_under p prefix s.files,
            ),
        sort-IsUnique path_of info_less (files_under prefix s.files)
            (files_under-IsUnique prefix s.files unique),
        sort-IsSorted info_less-IsOrder (files_under prefix s.files),
      ),
    )
