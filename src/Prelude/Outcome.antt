-- ===== src/Prelude/Outcome.antt =====
-- A value or a thrown error.
use mathlib.Core.Option.{Option, none, some}

pub data Result {ℓ} (E A : Type ℓ) : Type ℓ where
  ok : A → Result E A
  err : E → Result E A

-- A parse that throws `e` where it has no value.
abbrev pub or_throw {ℓ} : {E A : Type ℓ} → E → Option A → Result E A
or_throw e none = err e
or_throw e (some a) = ok a
