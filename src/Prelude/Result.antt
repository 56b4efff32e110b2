-- ===== src/Prelude/Result.antt =====
-- Python's exceptions as values: a call returns, or raises.
use mathlib.Core.Path.{◌≡◌}

pub data Result {ℓ κ} (E : Type ℓ) (A : Type κ) : Type (ℓ ⊔ κ) where
  ok : A → Result E A
  err : E → Result E A

pub ok-injective {ℓ κ} :
    {E : Type ℓ} {A : Type κ} {a b : A} → ◌≡◌ {A = Result E A} (ok a) (ok b) → a ≡ b
ok-injective h = cc

-- A call, then what follows where it returns.
abbrev pub and_then {ℓ κ μ} :
    {E : Type ℓ} {A : Type κ} {B : Type μ} → Result E A → (A → Result E B) → Result E B
and_then (ok a) next = next a
and_then (err e) next = err e

-- What holds of the value, where the call returns one.
abbrev pub Returns {ℓ κ μ} : {E : Type ℓ} {A : Type κ} → (A → Type μ) → Result E A → Type μ
Returns P (ok a) = P a
Returns P (err e) = Unit

pub and_then-Returns {ℓ κ μ ν η} :
    {E : Type ℓ} {A : Type κ} {B : Type μ}
    → (P : A → Type ν) → (Q : B → Type η) → (x : Result E A) → (next : A → Result E B) → Returns P x
    → ((a : A) → P a → Returns Q (next a))
    → Returns Q (and_then x next)
and_then-Returns P Q (ok a) next p step = step a p
and_then-Returns P Q (err e) next p step = tt
