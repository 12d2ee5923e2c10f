-- ===== src/Base/Effect.antt =====
-- The results of calls, and what is said of them.
use mathlib.Core.Path.{◌≡◌, refl}

-- What a call of the kernel comes to: a value, a panic (which never returns), or no more fuel
-- where a loop is modelled with fuel.
pub data Outcome {ℓ} (A : Type ℓ) : Type ℓ where
  ok : A → Outcome A
  panic : Outcome A
  out_of_fuel : Outcome A

infixl 5 ◌>>=◌
abbrev pub ◌>>=◌ {ℓ κ} : {A : Type ℓ} {B : Type κ} → Outcome A → (A → Outcome B) → Outcome B
ok a >>= f = f a
panic >>= f = panic
out_of_fuel >>= f = out_of_fuel

-- The call returns, with a value that meets `P`.
pub data Returns {A : Type 0} (P : A → Type 0) : Outcome A → Type 0 where
  returns : {a : A} → P a → Returns P (ok a)

pub Returns-ok : {A : Type 0} {P : A → Type 0} {a : A} → Returns P (ok a) → P a
Returns-ok (returns h) = h

pub Returns-bind :
    {A B : Type 0} {P : A → Type 0} {Q : B → Type 0} {m : Outcome A} (f : A → Outcome B)
    → Returns P m
    → ((a : A) → P a → Returns Q (f a))
    → Returns Q (m >>= f)
Returns-bind f (returns h) k = k _ h

pub Returns-mono :
    {A : Type 0} {P Q : A → Type 0} {m : Outcome A}
    → Returns P m
    → ((a : A) → P a → Q a)
    → Returns Q m
Returns-mono (returns h) k = returns (k _ h)

-- A second fact about a call, under a condition.
pub Returns-when :
    {A F : Type 0} {P Q : A → Type 0} {m : Outcome A}
    → Returns P m
    → (F → Returns Q m)
    → Returns (λ a. P a × (F → Q a)) m
Returns-when (returns h) k = returns (h, λ f. Returns-ok (k f))

-- The value of a call that returns.
pub Returns-value :
    {A : Type 0} {P : A → Type 0} {m : Outcome A} → Returns P m → (a : A) × (m ≡ ok a) × P a
Returns-value (returns {a} h) = (a, refl, h)
