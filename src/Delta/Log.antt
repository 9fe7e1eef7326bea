-- ===== src/Delta/Log.antt =====
-- pkg/formats/delta/source.go: which commits a log has, what is in one, and what a reader starts
-- from. Storage, the JSON and Parquet decoders and the line scanner are parameters.
use Prim.Native.Char.{code}
use xtable_go.Prelude.{
  String, Bool, true, ◌&&◌, ◌||◌, List, [], ◌∷◌, Option, none, some, if◌then◌else◌, ◌==◌, keep,
  get_last?,
}
use xtable_go.Prelude.Int.{ℤ, pos, ltb_ℤ, inc64}
use xtable_go.Prelude.Results.{Result, ok, err, ◌>>=◌, map_err}
use xtable_go.Prelude.Text.{concat}
use xtable_go.Prelude.Sort.{sort}
use xtable_go.Prelude.Decimal.{parse_int, format_int, format_padded}
use xtable_go.Io.{has_prefix, cut_suffix, base_name, join_path}
use xtable_go.Model.Table.{DataFile}
use xtable_go.Delta.Actions.{SingleAction}
use xtable_go.Delta.Checkpoint.{LastCheckpointFile, CheckpointState, CpRow, read_checkpoint}
use xtable_go.Delta.Files.{Reader}

-- what reading a file comes to; a file that is not there is an error of its own
pub data Contents : Type 0 where
  content : String → Contents
  missing : String → Contents
  unreadable : String → Contents

-- The reader of one table: `list` and `read` are the storage's, `scan` is bufio.Scanner with the
-- error that it ends on, and `range_order` is the order in which a map gives its values.
pub record Source : Type 0 where
  pub reader : Reader
  pub list : String → Result (List String)
  pub read : String → Contents
  pub scan : String → List String × Option String
  pub decode_action : String → Result SingleAction
  pub decode_last_checkpoint : String → Result LastCheckpointFile
  pub decode_rows : String → Result (List CpRow)
  pub range_order : List DataFile → List DataFile

-- storage.Read where every error is the same
abbrev pub required : Contents → Result String
required (content s) = ok s
required (missing e) = err e
required (unreadable e) = err e

pub record DeltaCommit : Type 0 where
  pub version : ℤ
  pub actions : List SingleAction
  pub commit_time : ℤ

pub record LogState : Type 0 where
  pub checkpoint : Option CheckpointState
  pub versions : List ℤ

-- bytes.TrimSpace leaves nothing
is_blank : String → Bool
is_blank String.[] = true
is_blank (String.◌∷◌ c s) =
    (code c == 32 || code c == 9 || code c == 10 || code c == 11 || code c == 12 || code c == 13)
    && is_blank s

-- the version that a file's name stands for, where it is the name of a commit
commit_version : String → Option ℤ
commit_version path =
    let base = base_name path in
    if has_prefix "." base
    then none
    else elim (cut_suffix ".json" base) [ none ↦ none | some v ↦ parse_int v ]

pub commit_versions : List String → List ℤ
unfolding commit_version
commit_versions [] = []
commit_versions (f ∷ fs) =
    let rest = commit_versions fs in elim (commit_version f) [ none ↦ rest | some v ↦ v ∷ rest ]

-- the loop over the lines: the actions read, and the time of the last commitInfo
unfoldable pub parse_lines :
    (String → Result SingleAction) → ℤ → List String → ℤ → Result (List SingleAction × ℤ)
unfolding is_blank
parse_lines decode version [] time = ok ([], time)
parse_lines decode version (line ∷ lines) time =
    let skipped = parse_lines decode version lines time in
    if is_blank line
    then skipped
    else (map_err
          (λ e.
            concat ("failed to parse action line in commit " ∷ format_int version ∷ ": " ∷ e ∷ []))
          (decode line)
        >>= λ action.
            parse_lines decode version lines
              (elim action.commit_info [ none ↦ time | some info ↦ info.timestamp ])
            >>= λ rest. ok (action ∷ rest.0, rest.1))

unfoldable pub latest_version : LogState → Option ℤ
latest_version st = elim (get_last? st.versions) [
  | some v ↦ some v
  | none ↦ elim st.checkpoint [ none ↦ none | some cp ↦ some cp.version ]
]

-- the versions strictly after the checkpoint
abbrev pub versions_after : ℤ → List ℤ → List ℤ
versions_after v vs = keep (ltb_ℤ v) vs

-- the version that the log begins at, where that is later than 0
unfoldable pub truncated_at : List ℤ → Option ℤ
truncated_at [] = none
truncated_at (v ∷ vs) = if ltb_ℤ (pos 0) v then some v else none

unfoldable pub advance_commit_time : ℤ → ℤ → ℤ
advance_commit_time previous raw = if ltb_ℤ previous raw then raw else inc64 previous

module _ (s : Source) where
  unfoldable pub log_path : List String → String
  log_path elements = join_path s.reader.local_join s.reader.base_path ("_delta_log" ∷ elements)

  unfoldable pub list_commit_files : Result (List ℤ)
  unfolding log_path commit_versions
  list_commit_files =
      map_err (λ e. concat ("failed to list delta log directory " ∷ log_path [] ∷ ": " ∷ e ∷ []))
        (s.list (log_path []))
      >>= λ files. ok (sort ltb_ℤ (commit_versions files))

  unfoldable pub read_last_checkpoint : Result (Option LastCheckpointFile)
  unfolding log_path
  read_last_checkpoint =
      let path = log_path ("_last_checkpoint" ∷ []) in
      elim (s.read path) [
        | missing e ↦ ok none
        | unreadable e ↦ err (concat ("failed to read " ∷ path ∷ ": " ∷ e ∷ []))
        | content text ↦
            map_err (λ e. concat ("failed to parse " ∷ path ∷ ": " ∷ e ∷ []))
              (s.decode_last_checkpoint text)
            >>= λ cp. ok (some cp)
      ]

  -- storage.Read and parquet.Read of one part of a checkpoint
  unfoldable pub rows_at : String → Result (List CpRow)
  rows_at path =
      map_err (λ e. concat ("failed to read delta checkpoint " ∷ path ∷ ": " ∷ e ∷ []))
        (required (s.read path))
      >>= λ text.
          map_err (λ e. concat ("failed to decode delta checkpoint " ∷ path ∷ ": " ∷ e ∷ []))
            (s.decode_rows text)

  -- the state of a log with these commits and this pointer to a checkpoint
  unfoldable pub state_from : List ℤ → Option LastCheckpointFile → Result LogState
  unfolding rows_at truncated_at log_path
  state_from versions none = elim (truncated_at versions) [
    | some v ↦ err (
        concat (
          "delta log at "
          ∷ s.reader.base_path
          ∷ " is truncated: earliest commit is version "
          ∷ format_int v
          ∷ " and no checkpoint exists"
          ∷ []))
    | none ↦ ok (record { checkpoint = none; versions = versions })
  ]
  state_from versions (some pointer) =
      read_checkpoint (λ name. log_path (name ∷ [])) rows_at pointer >>= λ cp.
      ok (record { checkpoint = some cp; versions = versions_after cp.version versions })

  unfoldable pub load_log_state : Result LogState
  unfolding list_commit_files read_last_checkpoint state_from
  load_log_state =
      list_commit_files >>= λ versions. read_last_checkpoint >>= λ last. state_from versions last

  -- the commit of a version whose file has these lines
  unfoldable pub parse_commit : ℤ → List String × Option String → Result DeltaCommit
  unfolding parse_lines
  parse_commit version scanned = parse_lines s.decode_action version scanned.0 (pos 0) >>= λ parsed.
      elim scanned.1 [
        | some e ↦ err e
        | none ↦ ok (record { version = version; actions = parsed.0; commit_time = parsed.1 })
      ]

  -- the file of a commit
  unfoldable pub commit_text : ℤ → Result String
  unfolding log_path
  commit_text version =
      let path = log_path (concat (format_padded 20 version ∷ ".json" ∷ []) ∷ []) in
      map_err (λ e. concat ("failed to read delta commit " ∷ path ∷ ": " ∷ e ∷ []))
        (required (s.read path))

  unfoldable pub read_commit : ℤ → Result DeltaCommit
  unfolding commit_text parse_commit
  read_commit version = commit_text version >>= λ text. parse_commit version (s.scan text)
