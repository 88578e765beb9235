-- ===== src/Prelude/Outcome.antt =====
-- What a call of the source comes to: a value, an exception that nobody catches, behaviour that the
-- language leaves undefined, or, in a loop on fuel, no end within the rounds given.

use mathlib.Core.Path.{◌≡◌, refl}

pub data Outcome {ℓ} (A : Type ℓ) : Type ℓ where
  returned : A → Outcome A
  thrown : Outcome A
  undefined : Outcome A
  unfinished : Outcome A

-- `abbrev`, so that a bind computes wherever its first part is known.
infixl 5 ◌>>=◌
abbrev pub ◌>>=◌ {ℓ κ} : {A : Type ℓ} {B : Type κ} → Outcome A → (A → Outcome B) → Outcome B
returned a >>= f = f a
thrown >>= f = thrown
undefined >>= f = undefined
unfinished >>= f = unfinished

-- What holds of a value if the call returns one.
abbrev pub Ensures {ℓ κ} : {A : Type ℓ} → (A → Type κ) → Outcome A → Type κ
Ensures P (returned a) = P a
Ensures P thrown = Unit
Ensures P undefined = Unit
Ensures P unfinished = Unit

pub Ensures-bind {ℓ κ μ ν} :
    {A : Type ℓ} {B : Type κ} (P : A → Type μ) (Q : B → Type ν) (m : Outcome A) (f : A → Outcome B)
    → Ensures P m
    → ((a : A) → P a → Ensures Q (f a))
    → Ensures Q (m >>= f)
Ensures-bind P Q (returned a) f h k = k a h
Ensures-bind P Q thrown f h k = tt
Ensures-bind P Q undefined f h k = tt
Ensures-bind P Q unfinished f h k = tt

pub Ensures-map {ℓ κ μ} :
    {A : Type ℓ} (P : A → Type κ) (Q : A → Type μ) (m : Outcome A)
    → Ensures P m
    → ((a : A) → P a → Q a)
    → Ensures Q m
Ensures-map P Q (returned a) h k = k a h
Ensures-map P Q thrown h k = tt
Ensures-map P Q undefined h k = tt
Ensures-map P Q unfinished h k = tt

pub Ensures-any {ℓ} : {A : Type ℓ} (m : Outcome A) → Ensures (λ (a : A). Unit {0}) m
Ensures-any (returned a) = tt
Ensures-any thrown = tt
Ensures-any undefined = tt
Ensures-any unfinished = tt

-- The call returns a value.
abbrev pub Returns {ℓ} : {A : Type ℓ} → Outcome A → Type ℓ
Returns {A} m = (a : A) × (m ≡ returned a)

pub Returns-bind {ℓ κ} :
    {A : Type ℓ} {B : Type κ} (m : Outcome A) (f : A → Outcome B)
    → Returns m
    → ((a : A) → Returns (f a))
    → Returns (m >>= f)
Returns-bind m f (a, e) k = rw e (k a)

-- The call returns a value of which `P` holds.
abbrev pub Gives {ℓ} : {A : Type ℓ} → (A → Type 0) → Outcome A → Type 0
Gives P (returned a) = P a
Gives P thrown = ⊥
Gives P undefined = ⊥
Gives P unfinished = ⊥

pub Gives-bind {ℓ κ} :
    {A : Type ℓ} {B : Type κ} (P : A → Type 0) (Q : B → Type 0) (m : Outcome A) (f : A → Outcome B)
    → Gives P m
    → ((a : A) → P a → Gives Q (f a))
    → Gives Q (m >>= f)
Gives-bind P Q (returned a) f h k = k a h
Gives-bind P Q thrown f h k = absurd h
Gives-bind P Q undefined f h k = absurd h
Gives-bind P Q unfinished f h k = absurd h

pub Gives-map {ℓ} :
    {A : Type ℓ} (P Q : A → Type 0) (m : Outcome A) → Gives P m → ((a : A) → P a → Q a) → Gives Q m
Gives-map P Q (returned a) h k = k a h
Gives-map P Q thrown h k = absurd h
Gives-map P Q undefined h k = absurd h
Gives-map P Q unfinished h k = absurd h

-- Binds, one behind the other
pub bind_assoc {ℓ κ μ} :
    {A : Type ℓ} {B : Type κ} {C : Type μ} (m : Outcome A) (f : A → Outcome B) (g : B → Outcome C)
    → ((m >>= f) >>= g) ≡ (m >>= λ a. f a >>= g)
bind_assoc (returned a) f g = refl
bind_assoc thrown f g = refl
bind_assoc undefined f g = refl
bind_assoc unfinished f g = refl

pub bind_eq {ℓ κ} :
    {A : Type ℓ} {B : Type κ} (m : Outcome A) (f g : A → Outcome B)
    → ((a : A) → f a ≡ g a)
    → (m >>= f) ≡ (m >>= g)
bind_eq (returned a) f g e = e a
bind_eq thrown f g e = refl
bind_eq undefined f g e = refl
bind_eq unfinished f g e = refl
