-- ===== src/Base/Outcomes.antt =====
-- A computation that may end the process: `klog.Fatalf` logs and exits.
use mathlib.Core.Path.{◌≡◌}

pub data Outcome {ℓ} (A : Type ℓ) : Type ℓ where
  returns : A → Outcome A
  fatal : Outcome A

infixl 5 ◌>>=◌
abbrev pub ◌>>=◌ {ℓ κ} : {A : Type ℓ} {B : Type κ} → Outcome A → (A → Outcome B) → Outcome B
returns a >>= f = f a
fatal >>= f = fatal

-- A Go result with an error beside it.
pub data Result {ℓ κ} (E : Type κ) (A : Type ℓ) : Type (ℓ ⊔ κ) where
  ok : A → Result E A
  err : E → Result E A

pub Outcome-returns_inj {ℓ} : {A : Type ℓ} {a b : A} → returns a ≡ returns b → a ≡ b
Outcome-returns_inj h = cc
