-- ===== src/Prelude/Sort.antt =====
-- `sort.Slice(l, less)`, as insertion sort. Go promises nothing on the order of elements that
-- `less` does not tell apart; here they keep the order that they had.
use mathlib.Core.Path.{◌≡◌, sym, ap₂, subst}
use mathlib.Core.Logic.{inl, inr}
use mathlib.Core.Logic.Or
use mathlib.Core.Bool.{Bool, true, false, Bool-set}
use mathlib.Core.List.{
  not-mem-nil, mem-cons, mem-cons_self, mem-cons_of_mem, List, [], ◌∷◌, Mem, Perm,
}
use mathlib.Core.List.Perm
use xtable_go.Prelude.Tests.{if◌then◌else◌, Bool-cases}

module _ {ℓ} {A : Type ℓ} (less : A → A → Bool) where
  unfoldable pub insert : A → List A → List A
  insert x [] = x ∷ []
  insert x (y ∷ ys) = let rest = insert x ys in if less y x then y ∷ rest else x ∷ y ∷ ys

  unfoldable pub sort : List A → List A
  unfolding insert
  sort [] = []
  sort (x ∷ xs) = insert x (sort xs)

  insert-perm : (x : A) (l : List A) → Perm (insert x l) (x ∷ l)
  unfolding insert
  insert-perm x [] = Perm.rfl
  insert-perm x (y ∷ ys) = elim (Bool-cases (less y x)) [
    | inl p ↦ rw p (Perm.trans (Perm.cons y (insert-perm x ys)) (Perm.swap x y ys))
    | inr p ↦ rw p Perm.rfl
  ]

  -- Sorting rearranges.
  pub sort-perm : (l : List A) → Perm (sort l) l
  unfolding sort
  sort-perm [] = Perm.rfl
  sort-perm (x ∷ xs) = Perm.trans (insert-perm x (sort xs)) (Perm.cons x (sort-perm xs))

  -- no later element is less than an earlier one
  abbrev pub IsSorted : List A → Type ℓ
  IsSorted [] = Unit
  IsSorted (x ∷ xs) = ((y : A) → Mem y xs → less y x ≡ false) × IsSorted xs

-- What `less` has to be for the result to be in order: a strict order on classes of elements that
-- it does not tell apart.
pub record IsOrder {ℓ} {A : Type ℓ} (less : A → A → Bool) : Type ℓ where
  pub asym : (x y : A) → less x y ≡ true → less y x ≡ false
  pub co_trans : (x y z : A) → less x y ≡ false → less y z ≡ false → less x z ≡ false

module _ {ℓ} {A : Type ℓ} {less : A → A → Bool} (o : IsOrder less) where
  insert-IsSorted : (x : A) (l : List A) → IsSorted less l → IsSorted less (insert less x l)
  unfolding insert
  insert-IsSorted x [] s = ((λ y m. absurd (not-mem-nil m)), tt)
  insert-IsSorted x (y ∷ ys) s = elim (Bool-cases (less y x)) [
    | inl p ↦ rw (p, insert) (below p, insert-IsSorted x ys s.1)
    | inr p ↦ rw (p, insert) (above p, s)
  ]
    where
      below : less y x ≡ true → (z : A) → Mem z (insert less x ys) → less z y ≡ false
      below p z m =
          Or.elim (Bool-set _ _) (mem-cons.0 ((Perm.mem_iff (insert-perm less x ys)).0 m))
            (λ e. rw e (o.asym y x p)) (s.0 z)

      above : less y x ≡ false → (z : A) → Mem z (y ∷ ys) → less z x ≡ false
      above p z m =
          Or.elim (Bool-set _ _) (mem-cons.0 m) (λ e. rw e p) (λ n. o.co_trans z y x (s.0 z n) p)

  -- Sorting puts in order.
  pub sort-IsSorted : (l : List A) → IsSorted less (sort less l)
  unfolding sort
  sort-IsSorted [] = tt
  sort-IsSorted (x ∷ xs) = insert-IsSorted x (sort less xs) (sort-IsSorted xs)

-- `less` tells the members of the list apart
abbrev pub Separates {ℓ} : {A : Type ℓ} → (A → A → Bool) → List A → Type ℓ
Separates {A = A} less l =
    (a b : A) → Mem a l → Mem b l → less a b ≡ false → less b a ≡ false → a ≡ b

module _ {ℓ} {A : Type ℓ} {less : A → A → Bool} (is_set : IsSet A) where
  -- A list whose members `less` tells apart has one arrangement in order.
  sorted_unique :
      (l r : List A) → Perm l r → Separates less l → IsSorted less l → IsSorted less r → l ≡ r
  sorted_unique [] r p sep sl sr = Perm.nil-eq p
  sorted_unique (x ∷ xs) [] p sep sl sr = Perm.eq-nil p
  sorted_unique (x ∷ xs) (y ∷ ys) p sep sl sr =
      ap₂ ◌∷◌ heads (sorted_unique xs ys tails later sl.1 sr.1)
    where
      y_in : Mem y (x ∷ xs)
      y_in = (Perm.mem_iff p).1 mem-cons_self

      heads : x ≡ y
      heads =
          Or.elim (is_set x y) (mem-cons.0 ((Perm.mem_iff p).0 mem-cons_self)) (λ e. e)
            (λ m.
              Or.elim (is_set x y) (mem-cons.0 y_in) (λ e. sym e)
                (λ n. sep x y mem-cons_self y_in (sr.0 x m) (sl.0 y n)))

      tails : Perm xs ys
      tails = Perm.cons_inv (subst (λ z. Perm (x ∷ xs) (z ∷ ys)) (sym heads) p)

      later : Separates less xs
      later a b m n = sep a b (mem-cons_of_mem x m) (mem-cons_of_mem x n)

  -- So what goes in need only be a rearrangement for the same to come out.
  pub sort-perm-eq :
      (o : IsOrder less) (l r : List A) → Perm l r → Separates less l → sort less l ≡ sort less r
  sort-perm-eq o l r p sep =
      sorted_unique (sort less l) (sort less r)
        (Perm.trans (sort-perm less l) (Perm.trans p (Perm.symm (sort-perm less r))))
        (λ a b m n.
          sep a b ((Perm.mem_iff (sort-perm less l)).0 m) ((Perm.mem_iff (sort-perm less l)).0 n))
        (sort-IsSorted o l) (sort-IsSorted o r)
