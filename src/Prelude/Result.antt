-- ===== src/Prelude/Result.antt =====
-- A result with Go's error, as the error's text.
use Prim.Native.String.{String}
use mathlib.Core.Path.{◌≡◌, refl}
use mathlib.Core.Logic.{◌⊎◌, inl, inr}

pub data Result {ℓ} (Value : Type ℓ) : Type ℓ where
  err : String → Result Value
  ok : Value → Result Value

-- What follows where `err == nil`.
infixl 5 ◌>>=◌
abbrev pub ◌>>=◌ {ℓ κ} : {V : Type ℓ} {W : Type κ} → Result V → (V → Result W) → Result W
err e >>= next = err e
ok value >>= next = next value

-- `fmt.Errorf("…: %w", err)`: an error gets a prefix.
abbrev pub wrap {ℓ} : {A : Type ℓ} → (String → String) → Result A → Result A
wrap f (ok a) = ok a
wrap f (err e) = err (f e)

pub Result-cases {ℓ} :
    {A : Type ℓ} (r : Result A) → ((a : A) × (r ≡ ok a)) ⊎ ((e : String) × (r ≡ err e))
Result-cases (ok a) = inl (a, refl)
Result-cases (err e) = inr (e, refl)

pub ok-injective {ℓ} : {A : Type ℓ} {a b : A} → ok a ≡ ok b → a ≡ b
ok-injective e = cc

-- Inversion of a chain of steps that succeeds.
pub bind-eq-ok {ℓ κ} :
    {V : Type ℓ} {W : Type κ} (step : Result V) (next : V → Result W) {result : W}
    → (step >>= next) ≡ ok result
    → (value : V) × (step ≡ ok value) × (next value ≡ ok result)
bind-eq-ok (err msg) next chain = cc
bind-eq-ok (ok value) next chain = (value, refl, chain)

pub bind-wrap-congr {ℓ κ} :
    {A : Type ℓ} {B : Type κ} (p : String → String) (m n : Result A) (f g : A → Result B)
    → m ≡ n
    → ((a : A) → f a ≡ g a)
    → (wrap p m >>= f) ≡ (wrap p n >>= g)
bind-wrap-congr p (ok a) n f g e h = rw (← e) (h a)
bind-wrap-congr p (err x) n f g e h = rw (← e) refl

pub bind-congr {ℓ κ} :
    {A : Type ℓ} {B : Type κ} (m n : Result A) (f g : A → Result B)
    → m ≡ n
    → ((a : A) → m ≡ ok a → f a ≡ g a)
    → (m >>= f) ≡ (n >>= g)
bind-congr (ok a) n f g e h = rw (← e) (h a refl)
bind-congr (err x) n f g e h = rw (← e) refl
