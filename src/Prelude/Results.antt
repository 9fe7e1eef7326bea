-- ===== src/Prelude/Results.antt =====
-- Go's pair of a value and an error: exactly one of the two is there. An error is its message.
use Prim.Native.String.{String}
use mathlib.Core.Path.{◌≡◌, refl}
use mathlib.Core.Logic.{◌⊎◌, inl, inr}
use mathlib.Core.List.{List, [], ◌∷◌}

pub data Result {ℓ} (V : Type ℓ) : Type ℓ where
  err : (message : String) → Result V
  ok : (value : V) → Result V

-- `if err != nil { return err }`
infixl 5 ◌>>=◌
abbrev pub ◌>>=◌ {κ ℓ} : {V : Type κ} {W : Type ℓ} → Result V → (V → Result W) → Result W
r >>= next = elim r [ err message ↦ err message | ok value ↦ next value ]

-- `return fmt.Errorf("prefix: %w", err)`, with what the caller makes of the message
abbrev pub map_err {ℓ} : {A : Type ℓ} → (String → String) → Result A → Result A
map_err f (ok a) = ok a
map_err f (err e) = err (f e)

-- a loop that stops at the first error
abbrev pub traverse {ℓ κ} : {A : Type ℓ} {B : Type κ} → (A → Result B) → List A → Result (List B)
traverse f [] = ok []
traverse f (x ∷ xs) = f x >>= λ y. traverse f xs >>= λ ys. ok (y ∷ ys)

-- what a call that goes through has got from its first part
abbrev pub Passed {κ ℓ} : {V : Type κ} {W : Type ℓ} → Result V → (V → Result W) → W → Type (κ ⊔ ℓ)
Passed {V = V} r next w = (v : V) × (r ≡ ok v) × (next v ≡ ok w)

pub >>=-eq-ok {κ ℓ} :
    {V : Type κ} {W : Type ℓ} (r : Result V) (next : V → Result W) {w : W}
    → (r >>= next) ≡ ok w
    → Passed r next w
>>=-eq-ok (err message) next went = cc
>>=-eq-ok (ok value) next went = (value, refl, went)

pub ok-injective {ℓ} : {A : Type ℓ} {a b : A} → ok a ≡ ok b → a ≡ b
ok-injective h = cc

pub Result-cases {ℓ} :
    {A : Type ℓ} (m : Result A) → ((e : String) × (m ≡ err e)) ⊎ ((a : A) × (m ≡ ok a))
Result-cases (ok a) = inr (a, refl)
Result-cases (err e) = inl (e, refl)

-- a renamed error is still one
pub map_err-eq-ok {ℓ} :
    {A : Type ℓ} (f : String → String) (r : Result A) {a : A} → map_err f r ≡ ok a → r ≡ ok a
map_err-eq-ok f (ok b) h = h
map_err-eq-ok f (err e) h = cc
