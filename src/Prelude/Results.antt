-- ===== src/Prelude/Results.antt =====
-- A Go function's pair of a value and an `error`: the value, or the error's text.
use koprobe.Prelude.Keys.{Text}

pub data Result {ℓ} (A : Type ℓ) : Type ℓ where
  ok : A → Result A
  err : Text → Result A
