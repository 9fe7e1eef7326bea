-- ===== src/Examples/Listings.antt =====
-- Two listings of a table: one file goes, one stays, one grows, one comes.
use xtable_go.Prelude.{List, [], ◌∷◌, refl}
use xtable_go.Prelude.Dict
use xtable_go.Model.Table.{DataFile, plain_file}
use xtable_go.Model.Diff.{diff_files, by_path}
use xtable_go.Model.Diff.Apply.{apply_diff, SameContent, HasUniquePaths, apply_diff-diff_files}

abbrev before : List DataFile
before = plain_file "a" 1 ∷ plain_file "b" 2 ∷ plain_file "c" 3 ∷ []

abbrev after : List DataFile
after = plain_file "b" 2 ∷ plain_file "c" 4 ∷ plain_file "d" 5 ∷ []

after-HasUniquePaths : HasUniquePaths after
after-HasUniquePaths = (refl, (refl, (refl, tt)))

apply_diff-diff_files_example :
    SameContent
      (Dict.lookup "c" (apply_diff (diff_files before after) (by_path before)))
      (Dict.lookup "c" (by_path after))
apply_diff-diff_files_example = apply_diff-diff_files before after "c" after-HasUniquePaths
