-- ===== src/Common/Effects.antt =====
-- What a run of Go code can do: return, panic, or, for a loop on fuel, run out of it.
use mathlib.Core.Path.{◌≡◌, refl}
use mathlib.Core.Logic.{◌≢◌}
use mathlib.Core.Bool.{Bool, true, false}
use emicro.Common.Tests.{if◌then◌else◌}

pub data Outcome {ℓ} (A : Type ℓ) : Type ℓ where
  ok : A → Outcome A
  panic : Outcome A
  no_fuel : Outcome A

infixl 5 ◌>>=◌ ◌>>◌
abbrev pub ◌>>=◌ {ℓ κ} : {A : Type ℓ} {B : Type κ} → Outcome A → (A → Outcome B) → Outcome B
ok a >>= f = f a
panic >>= f = panic
no_fuel >>= f = no_fuel

abbrev pub ◌>>◌ {ℓ} : {B : Type ℓ} → Outcome (Unit {0}) → Outcome B → Outcome B
m >> k = m >>= λ _. k

-- A run-time check of Go: index or slice bounds, a nil pointer, a failed type assertion.
abbrev pub must : Bool → Outcome (Unit {0})
must true = ok tt
must false = panic

-- The run returns, and what it returns has the property.
abbrev pub Returns {ℓ} : {A : Type ℓ} → (A → Type 0) → Outcome A → Type 0
Returns P (ok a) = P a
Returns P panic = ⊥
Returns P no_fuel = ⊥

-- A run that ends, by returning or by a panic.
pub record Ends {ℓ} {A : Type ℓ} (m : Outcome A) : Type ℓ where
  pub ends : m ≢ no_fuel

module _ {ℓ} {A : Type ℓ} where
  pub Ends-ok : (a : A) → Ends (ok a)
  Ends-ok a = record { ends = λ e. cc }

  pub Ends-panic : Ends {A = A} panic
  Ends-panic = record { ends = λ e. cc }

  pub Ends-if : (b : Bool) (m n : Outcome A) → Ends m → Ends n → Ends (if b then m else n)
  Ends-if true m n hm hn = hm
  Ends-if false m n hm hn = hn

pub Ends-bind {ℓ κ} :
    {A : Type ℓ} {B : Type κ} (m : Outcome A) (f : A → Outcome B)
    → Ends m
    → ((a : A) → Ends (f a))
    → Ends (m >>= f)
Ends-bind (ok a) f h k = k a
Ends-bind panic f h k = Ends-panic
Ends-bind no_fuel f h k = absurd (h.ends refl)

pub Ends-must : (b : Bool) → Ends (must b)
Ends-must true = Ends-ok tt
Ends-must false = Ends-panic

pub ruleset ends_rules = (Ends-ok, Ends-panic, Ends-if, Ends-bind, Ends-must)

pub bind-ok {ℓ κ} :
    {A : Type ℓ} {B : Type κ} (m : Outcome A) (f : A → Outcome B) (b : B)
    → (m >>= f) ≡ ok b
    → (a : A) × (m ≡ ok a) × (f a ≡ ok b)
bind-ok (ok a) f b e = (a, refl, e)
bind-ok panic f b e = cc
bind-ok no_fuel f b e = cc

-- Two functions of what a run returns, one after the other.
pub bind-bind {ℓ κ μ} :
    {A : Type ℓ} {B : Type κ} {C : Type μ} (m : Outcome A) (f : A → B) (g : B → C)
    → (do b ← (do a ← m; ok (f a)); ok (g b)) ≡ (do a ← m; ok (g (f a)))
bind-bind (ok a) f g = refl
bind-bind panic f g = refl
bind-bind no_fuel f g = refl

-- What a run returns, when it is known that it returns something with the property.
pub Returns-ok {ℓ} :
    {A : Type ℓ} (P : A → Type 0) (m : Outcome A) → Returns P m → (a : A) × (m ≡ ok a) × P a
Returns-ok P (ok a) h = (a, refl, h)
Returns-ok P panic h = absurd h
Returns-ok P no_fuel h = absurd h

pub Returns-bind {ℓ κ} :
    {A : Type ℓ} {B : Type κ} (P : A → Type 0) (Q : B → Type 0) (m : Outcome A) (f : A → Outcome B)
    → Returns P m
    → ((a : A) → P a → Returns Q (f a))
    → Returns Q (m >>= f)
Returns-bind P Q (ok a) f h k = k a h
Returns-bind P Q panic f h k = absurd h
Returns-bind P Q no_fuel f h k = absurd h

pub Returns-weaken {ℓ} :
    {A : Type ℓ} (P Q : A → Type 0) (m : Outcome A)
    → ((a : A) → P a → Q a)
    → Returns P m
    → Returns Q m
Returns-weaken P Q (ok a) k h = k a h
Returns-weaken P Q panic k h = h
Returns-weaken P Q no_fuel k h = h

-- If the run returns, what it returns has the property.
abbrev pub IfReturns {ℓ} : {A : Type ℓ} → (A → Type 0) → Outcome A → Type 0
IfReturns P (ok a) = P a
IfReturns P panic = Unit
IfReturns P no_fuel = Unit

pub IfReturns-bind {ℓ κ} :
    {A : Type ℓ} {B : Type κ} (Q : B → Type 0) (m : Outcome A) (f : A → Outcome B)
    → ((a : A) → m ≡ ok a → IfReturns Q (f a))
    → IfReturns Q (m >>= f)
IfReturns-bind Q (ok a) f k = k a refl
IfReturns-bind Q panic f k = tt
IfReturns-bind Q no_fuel f k = tt
