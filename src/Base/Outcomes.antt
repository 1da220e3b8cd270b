-- ===== src/Base/Outcomes.antt =====
-- What a call that may fail or panic gives.
use mathlib.Core.Path.{◌≡◌, refl}
use mathlib.Core.Logic.{◌⊎◌, inl, inr}

-- A Go pair `(value, error)` in which one of the two counts.
pub data Result {ℓ κ} (E : Type ℓ) (A : Type κ) : Type (ℓ ⊔ κ) where
  ok : A → Result E A
  err : E → Result E A

pub Result-cases {ℓ κ} :
    {E : Type ℓ} {A : Type κ} (r : Result E A) → ((a : A) × (r ≡ ok a)) ⊎ ((e : E) × (r ≡ err e))
Result-cases (ok a) = inl (a, refl)
Result-cases (err e) = inr (e, refl)

-- The value that an answer sets, or the one a field starts with.
unfoldable pub answered {ℓ κ} : {E : Type ℓ} {A : Type κ} → A → Result E A → A
answered start (ok a) = a
answered start (err e) = start

-- The run-time panics that the modelled code can raise. A recursion that goes deeper than the fuel of
-- the model counts as one that overflows the stack, which ends the program.
pub data Panic : Type 0 where
  index_out_of_range : Panic
  nil_dereference : Panic
  close_of_closed_channel : Panic
  bad_length : Panic
  non_positive_ticker : Panic
  failed_type_assertion : Panic
  stack_overflow : Panic

pub data Outcome {ℓ} (A : Type ℓ) : Type ℓ where
  ret : A → Outcome A
  panic : Panic → Outcome A

pub Outcome-cases {ℓ} :
    {A : Type ℓ} (o : Outcome A) → ((a : A) × (o ≡ ret a)) ⊎ ((p : Panic) × (o ≡ panic p))
Outcome-cases (ret a) = inl (a, refl)
Outcome-cases (panic p) = inr (p, refl)

infixl 5 ◌>>=◌
abbrev pub ◌>>=◌ {ℓ κ} : {A : Type ℓ} {B : Type κ} → Outcome A → (A → Outcome B) → Outcome B
ret a >>= f = f a
panic p >>= f = panic p

pub >>=_assoc {ℓ κ ν} :
    {A : Type ℓ} {B : Type κ} {C : Type ν} (m : Outcome A) (f : A → Outcome B) (g : B → Outcome C)
    → ((m >>= f) >>= g) ≡ (m >>= λ a. f a >>= g)
>>=_assoc (ret a) f g = refl
>>=_assoc (panic p) f g = refl

-- Inversion of a bind that returns.
pub >>=-eq-ret {ℓ κ} :
    {A : Type ℓ} {B : Type κ} (m : Outcome A) (f : A → Outcome B) {b : B}
    → (m >>= f) ≡ ret b
    → (a : A) × (m ≡ ret a) × (f a ≡ ret b)
>>=-eq-ret (ret a) f h = (a, refl, h)
>>=-eq-ret (panic p) f h = cc

-- A call that returns, with a value of which `P` holds.
abbrev pub Returns {ℓ} : {A : Type ℓ} → (A → Type 0) → Outcome A → Type 0
Returns P (ret a) = P a
Returns P (panic p) = ⊥

pub Returns-ret {ℓ} :
    {A : Type ℓ} (P : A → Type 0) (m : Outcome A) → Returns P m → (a : A) × (m ≡ ret a) × P a
Returns-ret P (ret a) h = (a, refl, h)
Returns-ret P (panic p) h = absurd h

-- A call that does not panic.
abbrev pub Finishes {ℓ} : {A : Type ℓ} → Outcome A → Type ℓ
Finishes {A = A} m = (a : A) × (m ≡ ret a)

pub >>=-Finishes {ℓ κ} :
    {A : Type ℓ} {B : Type κ} (m : Outcome A) (f : A → Outcome B)
    → Finishes m
    → ((a : A) → Finishes (f a))
    → Finishes (m >>= f)
>>=-Finishes (ret a) f h k = k a
>>=-Finishes (panic p) f h k = cc h.1

pub panic_not_Finishes {ℓ κ} :
    {A : Type ℓ} {C : Type κ} {m : Outcome A} (p : Panic) → m ≡ panic p → Finishes m → C
panic_not_Finishes p e (a, f) = cc
