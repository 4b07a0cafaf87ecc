-- ===== src/Prelude/Attempts.antt =====
-- What a call gives: a value, an exception, or undefined behaviour.
pub data Attempt {ℓ} (A : Type ℓ) : Type ℓ where
  completed : A → Attempt A
  threw undefined : Attempt A

-- A call behind another.
abbrev pub and_then {ℓ κ} : {A : Type ℓ} {B : Type κ} → Attempt A → (A → Attempt B) → Attempt B
and_then (completed a) f = f a
and_then threw f = threw
and_then undefined f = undefined
