-- ===== src/Prelude/Dict.antt =====
-- Go's `map[string]V`: an association list, its entries in the order in which the keys came in.
-- Go ranges over a map in any order; a definition that does takes the order as an argument.
use mathlib.Core.Path.{◌≡◌, refl, ap}
use mathlib.Core.Logic.{inl, inr}
use mathlib.Core.Logic.Or
use mathlib.Core.Option
use mathlib.Core.Option.{Option, none, some}
use mathlib.Core.List.{List, [], ◌∷◌, Mem, mem-cons, mem-cons_of_mem, not-mem-nil}
use Prim.Native.String.{String}
use native.Mathlib.Omega.{arith}
use xtable_go.Prelude.Tests.{if◌then◌else◌, Bool-cases}
use xtable_go.Prelude.Text.{str_eq, eq_iff}

abbrev pub Dict {ℓ} : Type ℓ → Type ℓ
Dict V = List (String × V)

module _ {ℓ} {V : Type ℓ} where
  -- `v, ok := m[k]`
  unfoldable pub lookup : String → Dict V → Option V
  lookup key ((first, v) ∷ rest) = if str_eq first key then some v else lookup key rest
  lookup key [] = none

  -- `m[k] = v`
  unfoldable pub insert : String → V → Dict V → Dict V
  insert key v ((first, w) ∷ rest) =
      let later = insert key v rest in
      if str_eq first key then (first, v) ∷ rest else (first, w) ∷ later
  insert key v [] = (key, v) ∷ []

  -- `delete(m, k)`
  unfoldable pub remove : String → Dict V → Dict V
  remove k [] = []
  remove k ((j, w) ∷ m) = let rest = remove k m in if str_eq j k then rest else (j, w) ∷ rest

  -- the values, as `for _, v := range m` meets them
  abbrev pub values : Dict V → List V
  values [] = []
  values ((k, v) ∷ m) = v ∷ values m

  pub lookup-nil : (k : String) → lookup k [] ≡ none
  unfolding lookup
  lookup-nil k = refl

  pub lookup-insert :
      (at key : String) (v : V) (m : Dict V)
      → lookup key (insert at v m) ≡ (if str_eq at key then some v else lookup key m)
  unfolding insert lookup
  lookup-insert at key v ((first, w) ∷ rest) =
      let below = lookup-insert at key v rest in
      ground (below, eq_iff first key, eq_iff first at, eq_iff at key, arith)
  lookup-insert at key v [] = refl

  pub lookup-remove :
      (k j : String) (m : Dict V)
      → lookup j (remove k m) ≡ (if str_eq k j then none else lookup j m)
  unfolding lookup remove
  lookup-remove k j [] = ground arith
  lookup-remove k j ((i, w) ∷ m) =
      ground (arith, eq_iff k j, eq_iff i k, eq_iff i j, lookup-remove k j m)

  pub lookup-mem : (k : String) (v : V) (m : Dict V) → lookup k m ≡ some v → Mem (k, v) m
  unfolding lookup
  lookup-mem k v [] h = cc
  lookup-mem k v ((j, w) ∷ m) h = elim (Bool-cases (str_eq j k)) [
    | inl p ↦ mem-cons.1 (Or.inl (ground (arith, eq_iff j k)))
    | inr p ↦ mem-cons_of_mem (j, w) (lookup-mem k v m (ground arith))
  ]

  -- no key stands twice
  abbrev pub HasUniqueKeys : Dict V → Type ℓ
  HasUniqueKeys [] = Unit
  HasUniqueKeys ((k, v) ∷ m) = (lookup k m ≡ none) × HasUniqueKeys m

  pub insert-HasUniqueKeys :
      (k : String) (v : V) (m : Dict V) → HasUniqueKeys m → HasUniqueKeys (insert k v m)
  unfolding insert lookup
  insert-HasUniqueKeys k v [] u = (refl, tt)
  insert-HasUniqueKeys k v ((j, w) ∷ m) u =
      ground (arith, lookup-insert k j v m, insert-HasUniqueKeys k v m, eq_iff k j, eq_iff j k)

  pub remove-HasUniqueKeys :
      (k : String) (m : Dict V) → HasUniqueKeys m → HasUniqueKeys (remove k m)
  unfolding remove
  remove-HasUniqueKeys k [] u = tt
  remove-HasUniqueKeys k ((j, w) ∷ m) u =
      ground (arith, lookup-remove k j m, remove-HasUniqueKeys k m)

  pub mem-lookup :
      IsSet V
      → (k : String) (v : V) (m : Dict V) → HasUniqueKeys m
      → Mem (k, v) m
      → lookup k m ≡ some v
  unfolding lookup
  mem-lookup s k v [] u h = absurd (not-mem-nil h)
  mem-lookup s k v ((j, w) ∷ m) u h =
      Or.elim (Option.is_set s _ _) (mem-cons.0 h)
        (λ e.
          let at_key = ap (λ (q : String × V). q.0) e in
          let at_value = ap (λ (q : String × V). q.1) e in ground (arith, eq_iff j k))
        (λ m'. let found = mem-lookup s k v m u.1 m' in ground (arith, eq_iff j k))
