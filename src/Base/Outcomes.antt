-- ===== src/Base/Outcomes.antt =====
-- What a run of C code comes to: a result, an exit by `panic`, `die` or a failed `assert`, or a
-- step that the C standard leaves undefined (a read through NULL or of a freed block).
use mathlib.Core.Path.{◌≡◌, refl}

pub data Outcome {ℓ} (A : Type ℓ) : Type ℓ where
  panic undefined : Outcome A
  ok : A → Outcome A

-- The rest of a function runs only after a step that has a result.
infixl 5 ◌>>=◌
abbrev pub ◌>>=◌ {ℓ κ} : {R : Type ℓ} {S : Type κ} → Outcome R → (R → Outcome S) → Outcome S
panic >>= rest = panic
undefined >>= rest = undefined
ok r >>= rest = rest r

-- A sequence that returns has a first step that returned.
pub first_returned {ℓ κ} :
    {R : Type ℓ} {S : Type κ} (step : Outcome R) (rest : R → Outcome S) {s : S}
    → (step >>= rest) ≡ ok s
    → (r : R) × (step ≡ ok r) × (rest r ≡ ok s)
first_returned panic rest both = cc
first_returned undefined rest both = cc
first_returned (ok r) rest both = (r, refl, both)
