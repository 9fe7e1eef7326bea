-- ===== src/Paimon/Source/Live.antt =====
-- Which files a snapshot of a Paimon table lists: those of the last entries on their names.
use mathlib.Core.List.{Mem, mem-cons_self, mem-cons_of_mem}
use xtable_go.Prelude.{
  String, Bool, true, false, ◌||◌, List, [], ◌∷◌, Option, none, some, ◌≡◌, refl, sym, subst, inl,
  inr, arith, if◌then◌else◌, Bool-cases, Option-cases, All,
}
use xtable_go.Prelude.Int.{◌==ℤ◌}
use xtable_go.Prelude.Text.{str_eq, eq_iff}
use xtable_go.Prelude.Keyed.{or_else, is_some}
use xtable_go.Prelude.Dict
use xtable_go.Prelude.Dict.{Dict}
use xtable_go.Model.Table.{DataFile, Table}
use xtable_go.Paimon.Manifest.{ManifestEntry, kind_delete}
use xtable_go.Paimon.Source.{Source, replay_entries, files_at, live_of, file_for}

-- the last entry on a name
abbrev pub last_on : String → List ManifestEntry → Option ManifestEntry
last_on p [] = none
last_on p (e ∷ es) = or_else (last_on p es) (if str_eq e.file.file_name p then some e else none)

abbrev pub is_delete : ManifestEntry → Bool
is_delete e = e.kind ==ℤ kind_delete

-- the name stands in the list
abbrev pub mentions : String → List String → Bool
mentions p [] = false
mentions p (n ∷ ns) = str_eq n p || mentions p ns

module _ (file_of : ManifestEntry → DataFile) where
  abbrev after : Option ManifestEntry → Option DataFile → Option DataFile
  after none before = before
  after (some e) before = if is_delete e then none else some (file_of e)

  pub lookup-replay_entries :
      (p : String) (es : List ManifestEntry) (live : Dict DataFile)
      → Dict.lookup p (replay_entries file_of es live).1 ≡ after (last_on p es) (Dict.lookup p live)
  unfolding replay_entries
  lookup-replay_entries p [] live = refl
  lookup-replay_entries p (e ∷ es) live = ground (
    arith,
    lookup-replay_entries p es (Dict.remove e.file.file_name live),
    lookup-replay_entries p es (Dict.insert e.file.file_name (file_of e) live),
    Dict.lookup-remove e.file.file_name p live,
    Dict.lookup-insert e.file.file_name p (file_of e) live,
  )

  -- a name that is there in the end was there, or is in the order
  pub mentions-replay_entries :
      (p : String) (es : List ManifestEntry) (live : Dict DataFile)
      → is_some (Dict.lookup p (replay_entries file_of es live).1) ≡ true
      → (is_some (Dict.lookup p live) || mentions p (replay_entries file_of es live).0) ≡ true
  unfolding replay_entries
  mentions-replay_entries p [] live h = ground arith
  mentions-replay_entries p (e ∷ es) live h = ground (
    arith,
    mentions-replay_entries p es (Dict.remove e.file.file_name live),
    mentions-replay_entries p es (Dict.insert e.file.file_name (file_of e) live),
    Dict.lookup-remove e.file.file_name p live,
    Dict.lookup-insert e.file.file_name p (file_of e) live,
    eq_iff e.file.file_name p,
  )

mem-files_at :
    (p : String) (f : DataFile) (live : Dict DataFile) (names : List String)
    → mentions p names ≡ true
    → Dict.lookup p live ≡ some f
    → Mem f (files_at live names)
unfolding files_at
mem-files_at p f live [] h found = cc
mem-files_at p f live (n ∷ ns) h found = elim (Bool-cases (str_eq n p)) [
  | inl e ↦ rw ((eq_iff n p).0 e, found, files_at) mem-cons_self
  | inr e ↦ elim (Option-cases (Dict.lookup n live)) [
    | inl m ↦ rw (m, files_at) (mem-files_at p f live ns (ground arith) found)
    | inr (g, m) ↦
        rw (m, files_at) (mem-cons_of_mem g (mem-files_at p f live ns (ground arith) found))
  ]
]

All-files_at :
    (P : DataFile → Type 0) (live : Dict DataFile) (names : List String)
    → ((p : String) (f : DataFile) → Dict.lookup p live ≡ some f → P f)
    → All P (files_at live names)
unfolding files_at
All-files_at P live [] holds = tt
All-files_at P live (n ∷ ns) holds = elim (Option-cases (Dict.lookup n live)) [
  | inl m ↦ rw (m, files_at) (All-files_at P live ns holds)
  | inr (g, m) ↦ rw (m, files_at) (holds n g m, All-files_at P live ns holds)
]

last_on-name :
    (p : String) (es : List ManifestEntry) (e : ManifestEntry)
    → last_on p es ≡ some e
    → e.file.file_name ≡ p
last_on-name p [] e h = cc
last_on-name p (d ∷ es) e h = ground (arith, last_on-name p es e, eq_iff d.file.file_name p)

-- the entry is the last on its name, and does not delete it
abbrev pub IsLast : List ManifestEntry → ManifestEntry → Type 0
IsLast es e = (last_on e.file.file_name es ≡ some e) × (is_delete e ≡ false)

module _ (file_of : ManifestEntry → DataFile) where
  -- what a replay leaves at a name is the file of the last entry on it
  replayed-IsLast :
      (es : List ManifestEntry) (p : String) (f : DataFile)
      → Dict.lookup p (replay_entries file_of es []).1 ≡ some f
      → (e : ManifestEntry) × IsLast es e × (f ≡ file_of e)
  replayed-IsLast es p f h =
      let at = lookup-replay_entries file_of p es [] in
      elim (Option-cases (last_on p es)) [
        | inl m ↦ absurd (let none_there = Dict.lookup-nil {V = DataFile} p in cc)
        | inr (e, m) ↦ elim (Bool-cases (is_delete e)) [
          | inl d ↦ absurd (ground arith)
          | inr d ↦
              let name = last_on-name p es e m in
              (e, (subst (λ n. last_on n es ≡ some e) (sym name) m, d), ground arith)
        ]
      ]

  pub at_last :
      (es : List ManifestEntry) (e : ManifestEntry)
      → IsLast es e
      → Dict.lookup e.file.file_name (replay_entries file_of es []).1 ≡ some (file_of e)
  at_last es e h = let at = lookup-replay_entries file_of e.file.file_name es [] in ground arith

module _ {S : Type 0} (s : Source S) (table : Table) where
  -- The files of a snapshot are those of the entries that are the last on their names and do not
  -- delete them: each file is that of such an entry, and the file of each such entry is there.
  pub live_of-IsLast :
      (es : List ManifestEntry)
      → All (λ f. (e : ManifestEntry) × IsLast es e × (f ≡ file_for s table e)) (live_of s table es)
        × ((e : ManifestEntry) → IsLast es e → Mem (file_for s table e) (live_of s table es))
  unfolding live_of
  live_of-IsLast es = (
    All-files_at _ _ _ (replayed-IsLast (file_for s table) es),
    λ e last.
        let found = at_last (file_for s table) es e last in
        let mentioned =
          mentions-replay_entries (file_for s table) e.file.file_name es [] (rw found refl) in
        mem-files_at e.file.file_name (file_for s table e) _ _
          (rw (Dict.lookup-nil {V = DataFile} e.file.file_name) at mentioned) found,
  )
