-- ===== src/Prelude/Outcome.antt =====
-- What a call into the kernel ends in: a value, `panic` (which halts the machine and does not
-- return), or an access outside an array, whose effect the C text does not define.

pub data Run {ℓ} (A : Type ℓ) : Type ℓ where
  ok : A → Run A
  panic : Run A
  fault : Run A

infixl 5 ◌>>=◌
abbrev pub ◌>>=◌ {ℓ κ} : {A : Type ℓ} {B : Type κ} → Run A → (A → Run B) → Run B
ok a >>= f = f a
panic >>= f = panic
fault >>= f = fault

-- The value returned, or `a` where there is none.
abbrev pub returned {ℓ} : {A : Type ℓ} → A → Run A → A
returned a (ok b) = b
returned a panic = a
returned a fault = a
