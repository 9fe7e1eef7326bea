-- ===== src/Io/Memory.antt =====
-- pkg/io/memory.go: the storage in memory. The locks make each call one step, and the copies of the
-- contents are what makes a text a value.
pub mod Refines
use Prim.Native.Nat.{suc}
use xtable_go.Prelude.{
  ℕ, String, Bool, true, false, List, [], ◌∷◌, Option, none, some, if◌then◌else◌,
}
use xtable_go.Prelude.Int.{ℤ, pos}
use xtable_go.Prelude.Results.{Result, ok, err}
use xtable_go.Prelude.Text.{str_lt, concat}
use xtable_go.Prelude.Sort.{sort}
use xtable_go.Prelude.Keyed.{is_some}
use xtable_go.Prelude.Dict
use xtable_go.Prelude.Dict.{Dict}
use xtable_go.Io.{has_prefix}
use xtable_go.Io.Storage.{FileInfo, Storage}

pub record MemFile : Type 0 where
  pub contents : String
  pub modified : ℤ

-- the files, and the time that the clock shows, in nanoseconds
pub record MemoryStorage : Type 0 where
  pub files : Dict MemFile
  pub now : ℤ

abbrev pub new_memory_storage : ℤ → MemoryStorage
new_memory_storage now = record { files = []; now = now }

abbrev pub not_found : String
not_found = "file not found"

unfoldable pub read_file : String → MemoryStorage → Result String
read_file path s = elim (Dict.lookup path s.files) [
  | none ↦ err (concat (not_found ∷ ": " ∷ path ∷ []))
  | some f ↦ ok f.contents
]

unfoldable pub write_file : String → String → MemoryStorage → MemoryStorage × Option String
write_file path contents s = (
  record {
    files = Dict.insert path (record { contents = contents; modified = s.now }) s.files;
    now = s.now;
  },
  none,
)

byte_count : String → ℕ
byte_count String.[] = 0
byte_count (String.◌∷◌ c s) = suc (byte_count s)

abbrev info_of : String → MemFile → FileInfo
unfolding byte_count
info_of path f = record {
  path = path;
  size = pos (byte_count f.contents);
  mod_time = f.modified;
  is_dir = false;
}

-- the loop over the map
files_under : String → Dict MemFile → List FileInfo
unfolding byte_count
files_under prefix [] = []
files_under prefix ((path, f) ∷ files) =
    let rest = files_under prefix files in
    if has_prefix prefix path then info_of path f ∷ rest else rest

abbrev pub info_less : FileInfo → FileInfo → Bool
info_less a b = str_lt a.path b.path

unfoldable pub list_files : String → MemoryStorage → Result (List FileInfo)
unfolding files_under
list_files prefix s = ok (sort info_less (files_under prefix s.files))

unfoldable pub file_exists : String → MemoryStorage → Result Bool
file_exists path s = ok (is_some (Dict.lookup path s.files))

unfoldable pub delete_file : String → MemoryStorage → MemoryStorage × Option String
delete_file path s = (record { files = Dict.remove path s.files; now = s.now }, none)

abbrev pub memory_storage : Storage MemoryStorage
memory_storage = record {
  read = read_file;
  write = write_file;
  list = list_files;
  exists = file_exists;
  delete = delete_file;
}
