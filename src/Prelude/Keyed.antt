-- ===== src/Prelude/Keyed.antt =====
-- Lists of values that carry a key of their own, and the maps that Go code fills from them.
use xtable_go.Prelude.Tests.{if◌then◌else◌}
use Prim.Native.String.{String}
use mathlib.Core.Path.{◌≡◌, refl, ◌∙◌}
use mathlib.Core.Bool.{Bool, true, false, ◌||◌}
use mathlib.Core.Option.{Option, none, some}
use mathlib.Core.Logic.Or
use mathlib.Core.Option
use mathlib.Core.List.{List, [], ◌∷◌, ◌++◌, Mem, mem-cons, not-mem-nil}
use native.Mathlib.Omega.{arith}
use xtable_go.Prelude.Text.{str_eq, eq_iff, eq_refl}
use xtable_go.Prelude.Sort.{sort, insert}
use xtable_go.Prelude.Dict
use xtable_go.Prelude.Dict.{Dict, lookup-insert, lookup-nil, HasUniqueKeys, insert-HasUniqueKeys}

abbrev pub or_else {ℓ} : {V : Type ℓ} → Option V → Option V → Option V
or_else none o = o
or_else (some v) o = some v

abbrev pub is_some {ℓ} : {V : Type ℓ} → Option V → Bool
is_some none = false
is_some (some v) = true

module _ {V : Type 0} (key : V → String) where
  -- one round for each value: the last value of a key stays
  unfoldable pub put_all : List V → Dict V → Dict V
  put_all [] m = m
  put_all (v ∷ vs) m = put_all vs (Dict.insert (key v) v m)

  -- `for _, v := range vs { m[key(v)] = v }` over an empty map
  unfoldable pub index_by : List V → Dict V
  unfolding put_all
  index_by vs = put_all vs []

  -- the first value at a key
  abbrev pub find_by : String → List V → Option V
  find_by p [] = none
  find_by p (f ∷ fs) = if str_eq (key f) p then some f else find_by p fs

  abbrev pub has_by : String → List V → Bool
  has_by p [] = false
  has_by p (f ∷ fs) = str_eq (key f) p || has_by p fs

  -- No key stands twice in the list.
  abbrev pub IsUnique : List V → Type 0
  IsUnique [] = Unit
  IsUnique (f ∷ fs) = (find_by (key f) fs ≡ none) × IsUnique fs

  pub has_by-append :
      (p : String) (xs ys : List V) → has_by p (xs ++ ys) ≡ (has_by p xs || has_by p ys)
  has_by-append p [] ys = refl
  has_by-append p (x ∷ xs) ys = ground (arith, has_by-append p xs ys)

  has_by-insert :
      (less : V → V → Bool) (p : String) (x : V) (l : List V)
      → has_by p (insert less x l) ≡ has_by p (x ∷ l)
  unfolding insert
  has_by-insert less p x [] = refl
  has_by-insert less p x (y ∷ ys) = ground (arith, has_by-insert less p x ys)

  pub has_by-sort :
      (less : V → V → Bool) (p : String) (l : List V) → has_by p (sort less l) ≡ has_by p l
  unfolding sort
  has_by-sort less p [] = refl
  has_by-sort less p (x ∷ xs) =
      ground (arith, has_by-insert less p x (sort less xs), has_by-sort less p xs)

  find_by-insert :
      (less : V → V → Bool) (p : String) (x : V) (l : List V)
      → find_by (key x) l ≡ none
      → find_by p (insert less x l) ≡ find_by p (x ∷ l)
  unfolding insert
  find_by-insert less p x [] h = refl
  find_by-insert less p x (y ∷ ys) h = ground (
    arith,
    find_by-insert less p x ys,
    eq_iff (key y) (key x),
    eq_iff (key y) p,
    eq_iff (key x) p,
  )

  pub find_by-sort :
      (less : V → V → Bool) (p : String) (l : List V)
      → IsUnique l
      → find_by p (sort less l) ≡ find_by p l
  unfolding sort
  find_by-sort less p [] u = refl
  find_by-sort less p (x ∷ xs) u = ground (
    arith,
    find_by-insert less p x (sort less xs),
    find_by-sort less p xs u.1,
    find_by-sort less (key x) xs u.1,
  )

  insert-IsUnique :
      (less : V → V → Bool) (x : V) (l : List V)
      → find_by (key x) l ≡ none
      → IsUnique l
      → IsUnique (insert less x l)
  unfolding insert
  insert-IsUnique less x [] h u = (refl, tt)
  insert-IsUnique less x (y ∷ ys) h u = ground (
    arith,
    insert-IsUnique less x ys,
    find_by-insert less (key y) x ys,
    eq_iff (key y) (key x),
    eq_iff (key x) (key y),
  )

  pub sort-IsUnique : (less : V → V → Bool) (l : List V) → IsUnique l → IsUnique (sort less l)
  unfolding sort
  sort-IsUnique less [] u = tt
  sort-IsUnique less (x ∷ xs) u =
      insert-IsUnique less x (sort less xs) (find_by-sort less (key x) xs u.1 ∙ u.0)
        (sort-IsUnique less xs u.1)

  -- Filling a map from a list overlays the map by the list.
  pub lookup-put_all :
      (p : String) (fs : List V) (m : Dict V)
      → IsUnique fs
      → Dict.lookup p (put_all fs m) ≡ or_else (find_by p fs) (Dict.lookup p m)
  unfolding put_all
  lookup-put_all p [] m u = refl
  lookup-put_all p (f ∷ fs) m u = ground (
    arith,
    lookup-put_all p fs (Dict.insert (key f) f m) u.1,
    lookup-insert (key f) p f m,
    eq_iff (key f) p,
  )

  pub lookup-index_by :
      (p : String) (fs : List V) → IsUnique fs → Dict.lookup p (index_by fs) ≡ find_by p fs
  unfolding index_by
  lookup-index_by p fs u = ground (arith, lookup-put_all p fs [] u, lookup-nil {V = V} p)

  is_some-put_all :
      (p : String) (fs : List V) (m : Dict V)
      → is_some (Dict.lookup p (put_all fs m)) ≡ (has_by p fs || is_some (Dict.lookup p m))
  unfolding put_all
  is_some-put_all p [] m = refl
  is_some-put_all p (f ∷ fs) m =
      ground (arith, is_some-put_all p fs (Dict.insert (key f) f m), lookup-insert (key f) p f m)

  -- The map has exactly the keys of the list, whether they repeat or not.
  pub is_some-index_by :
      (p : String) (fs : List V) → is_some (Dict.lookup p (index_by fs)) ≡ has_by p fs
  unfolding index_by
  is_some-index_by p fs = ground (arith, is_some-put_all p fs [], lookup-nil {V = V} p)

  -- Each value stands under its own key.
  abbrev pub IsKeyed : Dict V → Type 0
  IsKeyed m = (k : String) (f : V) → Dict.lookup k m ≡ some f → (key f) ≡ k

  put_all-IsKeyed : (fs : List V) (m : Dict V) → IsKeyed m → IsKeyed (put_all fs m)
  unfolding put_all
  put_all-IsKeyed [] m h = h
  put_all-IsKeyed (f ∷ fs) m h =
      put_all-IsKeyed fs (Dict.insert (key f) f m)
        λ k g e. ground (arith, lookup-insert (key f) k f m, eq_iff (key f) k, h k g)

  pub index_by-IsKeyed : (fs : List V) → IsKeyed (index_by fs)
  unfolding index_by
  index_by-IsKeyed fs = put_all-IsKeyed fs [] (λ k f e. cc (lookup-nil {V = V} k))

  -- Filling a map that is not empty overlays it by the map that the list alone gives.
  pub lookup-put_all_overlay :
      (p : String) (fs : List V) (m : Dict V)
      → Dict.lookup p (put_all fs m) ≡ or_else (Dict.lookup p (index_by fs)) (Dict.lookup p m)
  unfolding put_all index_by
  lookup-put_all_overlay p [] m = ground (arith, lookup-nil {V = V} p)
  lookup-put_all_overlay p (f ∷ fs) m = ground (
    arith,
    lookup-put_all_overlay p fs (Dict.insert (key f) f m),
    lookup-put_all_overlay p fs (Dict.insert (key f) f []),
    lookup-insert (key f) p f m,
    lookup-insert (key f) p f [],
    lookup-nil {V = V} p,
  )

  put_all-append : (xs ys : List V) (m : Dict V) → put_all (xs ++ ys) m ≡ put_all ys (put_all xs m)
  unfolding put_all
  put_all-append [] ys m = refl
  put_all-append (x ∷ xs) ys m = put_all-append xs ys (Dict.insert (key x) x m)

  pub lookup-index_by-append :
      (p : String) (xs ys : List V)
      → Dict.lookup p (index_by (xs ++ ys))
        ≡ or_else (Dict.lookup p (index_by ys)) (Dict.lookup p (index_by xs))
  unfolding index_by
  lookup-index_by-append p xs ys =
      rw (put_all-append xs ys []) (lookup-put_all_overlay p ys (put_all xs []))

  put_all-HasUniqueKeys :
      (fs : List V) (m : Dict V) → HasUniqueKeys m → HasUniqueKeys (put_all fs m)
  unfolding put_all
  put_all-HasUniqueKeys [] m u = u
  put_all-HasUniqueKeys (f ∷ fs) m u =
      put_all-HasUniqueKeys fs (Dict.insert (key f) f m) (insert-HasUniqueKeys (key f) f m u)

  pub index_by-HasUniqueKeys : (fs : List V) → HasUniqueKeys (index_by fs)
  unfolding index_by
  index_by-HasUniqueKeys fs = put_all-HasUniqueKeys fs [] tt

  pub find_by-append :
      (p : String) (xs ys : List V) → find_by p (xs ++ ys) ≡ or_else (find_by p xs) (find_by p ys)
  find_by-append p [] ys = refl
  find_by-append p (x ∷ xs) ys = ground (arith, find_by-append p xs ys)

  pub append-IsUnique :
      (xs ys : List V)
      → ((v : V) → find_by (key v) xs ≡ some v → find_by (key v) ys ≡ none)
      → IsUnique xs
      → IsUnique ys
      → IsUnique (xs ++ ys)
  append-IsUnique [] ys d u w = w
  append-IsUnique (x ∷ xs) ys d u w = (
    ground (arith, find_by-append (key x) xs ys, d x, eq_refl (key x)),
    append-IsUnique xs ys (λ v e. ground (arith, d v, eq_iff (key x) (key v))) u.1 w,
  )

  pub has_by-find_by : (p : String) (l : List V) → has_by p l ≡ is_some (find_by p l)
  has_by-find_by p [] = refl
  has_by-find_by p (x ∷ xs) = ground (arith, has_by-find_by p xs)

  -- The two parts of a list of unique keys have unique keys, and have none in common.
  pub IsUnique-append :
      (xs ys : List V)
      → IsUnique (xs ++ ys)
      → IsUnique xs × IsUnique ys × ((p : String) → has_by p ys ≡ true → has_by p xs ≡ false)
  IsUnique-append [] ys u = (tt, u, λ p h. refl)
  IsUnique-append (x ∷ xs) ys (fresh, u) =
      let (first, second, apart) = IsUnique-append xs ys u in
      (
        (ground (arith, find_by-append (key x) xs ys), first),
        second,
        λ p h.
            ground (
              arith,
              apart p h,
              find_by-append (key x) xs ys,
              has_by-find_by p ys,
              eq_iff (key x) p,
            ),
      )

  -- In a list of unique keys a member is what is found at its key.
  pub mem-find_by :
      IsSet V → (v : V) (l : List V) → IsUnique l → Mem v l → find_by (key v) l ≡ some v
  mem-find_by s v [] u m = absurd (not-mem-nil m)
  mem-find_by s v (x ∷ xs) u m =
      Or.elim (Option.is_set s _ _) (mem-cons.0 m) (λ e. rw (← e, eq_refl (key v)))
        (λ n. let found = mem-find_by s v xs u.1 n in ground (arith, eq_iff (key x) (key v)))

  -- Each entry of the map stands under the key of its value.
  abbrev pub HasKeyedEntries : Dict V → Type 0
  HasKeyedEntries [] = Unit
  HasKeyedEntries ((k, v) ∷ m) = (key v ≡ k) × HasKeyedEntries m

  insert-HasKeyedEntries :
      (v : V) (m : Dict V) → HasKeyedEntries m → HasKeyedEntries (Dict.insert (key v) v m)
  unfolding Dict.insert
  insert-HasKeyedEntries v [] h = (refl, tt)
  insert-HasKeyedEntries v ((j, w) ∷ m) h =
      ground (arith, insert-HasKeyedEntries v m, eq_iff j (key v))

  put_all-HasKeyedEntries :
      (fs : List V) (m : Dict V) → HasKeyedEntries m → HasKeyedEntries (put_all fs m)
  unfolding put_all
  put_all-HasKeyedEntries [] m h = h
  put_all-HasKeyedEntries (f ∷ fs) m h =
      put_all-HasKeyedEntries fs (Dict.insert (key f) f m) (insert-HasKeyedEntries f m h)

  pub index_by-HasKeyedEntries : (fs : List V) → HasKeyedEntries (index_by fs)
  unfolding index_by
  index_by-HasKeyedEntries fs = put_all-HasKeyedEntries fs [] tt
