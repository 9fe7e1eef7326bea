-- ===== src/Delta/Source/Replay.antt =====
-- What the log leaves active at a path: the last action on it decides.
use xtable_go.Prelude.{
  String, List, [], ◌∷◌, Option, none, some, ◌≡◌, refl, sym, subst, arith, inl, inr, Bool-cases,
  Option-cases, if◌then◌else◌,
}
use xtable_go.Prelude.Text.{str_eq}
use xtable_go.Prelude.Results.{ok, >>=-eq-ok, ok-injective}
use xtable_go.Prelude.Dict
use xtable_go.Prelude.Dict.{Dict, HasUniqueKeys}
use xtable_go.Model.Table.{Table, DataFile}
use xtable_go.Delta.Actions.{SingleAction, AddAction}
use xtable_go.Delta.Files.{convert_add_action}
use xtable_go.Delta.Log.{Source}
use xtable_go.Delta.Source.{replay_action, replay_actions, replay_checkpoint}

-- what an action says of a path, and what a list of them says last
pub data Said : Type 0 where
  nothing : Said
  present : AddAction → Said
  absent : Said

abbrev pub said_by : String → SingleAction → Said
said_by p a = elim a.add [
  | some add ↦ if str_eq add.path p then present add else nothing
  | none ↦ elim a.remove [
    | some gone ↦ if str_eq gone.path p then absent else nothing
    | none ↦ nothing
  ]
]

abbrev pub and_then : Said → Said → Said
and_then first nothing = first
and_then first later = later

abbrev pub said : String → List SingleAction → Said
said p [] = nothing
said p (a ∷ acts) = and_then (said_by p a) (said p acts)

abbrev pub said_by_adds : String → List AddAction → Said
said_by_adds p [] = nothing
said_by_adds p (a ∷ adds) =
    and_then (if str_eq a.path p then present a else nothing) (said_by_adds p adds)

pub and_then_assoc : (a b c : Said) → and_then (and_then a b) c ≡ and_then a (and_then b c)
and_then_assoc a b nothing = refl
and_then_assoc a b (present x) = refl
and_then_assoc a b absent = refl

module _ (s : Source) (table : Table) where
  -- The file found is the one that the last action put there, or the one from before.
  abbrev pub IsSaid : Said → Option DataFile → Option DataFile → Type 0
  IsSaid nothing before after = after ≡ before
  IsSaid (present add) before after =
      (f : DataFile) × (convert_add_action s.reader add table ≡ ok f) × (after ≡ some f)
  IsSaid absent before after = after ≡ none

  IsSaid-trans :
      (x y : Said) (a b c : Option DataFile)
      → IsSaid x a b
      → IsSaid y b c
      → IsSaid (and_then x y) a c
  IsSaid-trans x nothing a b c h k = subst (IsSaid x a) (sym k) h
  IsSaid-trans x (present add) a b c h k = k
  IsSaid-trans x absent a b c h k = k

  -- a step from one map to the next does what was said, at each path
  abbrev pub Follows : (String → Said) → Dict DataFile → Dict DataFile → Type 0
  Follows says m m' =
      ((p : String) → IsSaid (says p) (Dict.lookup p m) (Dict.lookup p m'))
      × (HasUniqueKeys m → HasUniqueKeys m')

  insert-Follows :
      (add : AddAction) (f : DataFile) (m : Dict DataFile)
      → convert_add_action s.reader add table ≡ ok f
      → Follows
          (λ p. if str_eq add.path p then present add else nothing)
          m
          (Dict.insert add.path f m)
  insert-Follows add f m e = (at, Dict.insert-HasUniqueKeys add.path f m)
    where
      at :
          (p : String)
          → IsSaid
              (if str_eq add.path p then present add else nothing)
              (Dict.lookup p m)
              (Dict.lookup p (Dict.insert add.path f m))
      at p = elim (Bool-cases (str_eq add.path p)) [
        | inl h ↦ rw h (f, e, ground (arith, h, Dict.lookup-insert add.path p f m))
        | inr h ↦ rw h (ground (arith, h, Dict.lookup-insert add.path p f m))
      ]

  remove-Follows :
      (path : String) (m : Dict DataFile)
      → Follows (λ p. if str_eq path p then absent else nothing) m (Dict.remove path m)
  remove-Follows path m = (at, Dict.remove-HasUniqueKeys path m)
    where
      at :
          (p : String)
          → IsSaid
              (if str_eq path p then absent else nothing)
              (Dict.lookup p m)
              (Dict.lookup p (Dict.remove path m))
      at p = elim (Bool-cases (str_eq path p)) [
        | inl h ↦ rw h (ground (arith, h, Dict.lookup-remove path p m))
        | inr h ↦ rw h (ground (arith, h, Dict.lookup-remove path p m))
      ]

  move-Follows :
      (says : String → Said) (m a b : Dict DataFile) → a ≡ b → Follows says m a → Follows says m b
  move-Follows says m a b e f = subst (λ x. Follows says m x) e f

  pub resaid :
      (x y : String → Said) (m m' : Dict DataFile)
      → ((p : String) → x p ≡ y p)
      → Follows x m m'
      → Follows y m m'
  resaid x y m m' same f =
      ((λ p. subst (λ z. IsSaid z (Dict.lookup p m) (Dict.lookup p m')) (same p) (f.0 p)), f.1)

  pub unchanged-Follows : (m m' : Dict DataFile) → m ≡ m' → Follows (λ _. nothing) m m'
  unchanged-Follows m m' e = move-Follows (λ _. nothing) m m m' e ((λ p. refl), (λ u. u))

  replay_action-Follows :
      (a : SingleAction) (m m' : Dict DataFile)
      → replay_action s table a m ≡ ok m'
      → Follows (λ p. said_by p a) m m'
  unfolding replay_action
  replay_action-Follows a m m' h = elim (Option-cases a.add) [
    | inl no_add ↦ elim (Option-cases a.remove) [
      | inl no_remove ↦
          rw (no_add, no_remove)
            (unchanged-Follows m m' (ok-injective (rw (no_add, no_remove, replay_action) at h)))
      | inr (gone, is_gone) ↦
          rw (no_add, is_gone)
            (move-Follows _ m (Dict.remove gone.path m) m'
              (ok-injective (rw (no_add, is_gone, replay_action) at h))
              (remove-Follows gone.path m))
    ]
    | inr (add, is_add) ↦
        let (f, e, r) =
          >>=-eq-ok (convert_add_action s.reader add table) _ (rw (is_add, replay_action) at h) in
        rw is_add (
          move-Follows _ m (Dict.insert add.path f m) m' (ok-injective r)
            (insert-Follows add f m e))
  ]

  pub Follows-trans :
      (x y : String → Said) (a b c : Dict DataFile)
      → Follows x a b
      → Follows y b c
      → Follows (λ p. and_then (x p) (y p)) a c
  Follows-trans x y a b c h k = (
    (λ p.
        IsSaid-trans (x p) (y p) (Dict.lookup p a) (Dict.lookup p b) (Dict.lookup p c) (h.0 p)
          (k.0 p)),
    λ u. k.1 (h.1 u),
  )

  pub replay_actions-Follows :
      (acts : List SingleAction) (m m' : Dict DataFile)
      → replay_actions s table acts m ≡ ok m'
      → Follows (λ p. said p acts) m m'
  unfolding replay_actions
  replay_actions-Follows [] m m' h = unchanged-Follows m m' (ok-injective h)
  replay_actions-Follows (a ∷ acts) m m' h =
      let (next, e, r) = >>=-eq-ok (replay_action s table a m) _ h in
      Follows-trans (said_by_action a) (λ p. said p acts) m next m'
        (replay_action-Follows a m next e) (replay_actions-Follows acts next m' r)
    where
      said_by_action : SingleAction → String → Said
      said_by_action a p = said_by p a

  pub replay_checkpoint-Follows :
      (adds : List AddAction) (m m' : Dict DataFile)
      → replay_checkpoint s table adds m ≡ ok m'
      → Follows (λ p. said_by_adds p adds) m m'
  unfolding replay_checkpoint
  replay_checkpoint-Follows [] m m' h = unchanged-Follows m m' (ok-injective h)
  replay_checkpoint-Follows (add ∷ adds) m m' h =
      let (f, e, r) = >>=-eq-ok (convert_add_action s.reader add table) _ h in
      Follows-trans (λ p. if str_eq add.path p then present add else nothing)
        (λ p. said_by_adds p adds) m (Dict.insert add.path f m) m' (insert-Follows add f m e)
        (replay_checkpoint-Follows adds (Dict.insert add.path f m) m' r)
