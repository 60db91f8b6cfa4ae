-- ===== src/Prelude/Bits/Step.antt =====
-- One equation for the lowest digit of `&` and of `|`. The native operations mean a recursion on
-- binary digits whose fuel is the first number; here one more round of fuel changes nothing.
use Prim.Native.Nat.{bit_or-bitwise, bit_and-bitwise, digits, bit_and, bit_or, min, max}
use Prim.Native.Nat.{ℕ, zero, suc, ◌+◌, ◌*◌, ◌/◌, ◌%◌, ◌≤◌}
use mathlib.Core.Path.{◌≡◌, refl, ◌∙◌, ap}
use native.Mathlib.Decide.{ℕ_discrete}
use native.Mathlib.Omega.{arith}

-- `z` is the result where the first number has run out, `f` the operation on two digits.
one_round :
    (z : ℕ → ℕ) (f : ℕ → ℕ → ℕ) (n a b : ℕ) → a ≤ n → digits z f (suc n) a b ≡ digits z f n a b
one_round z f zero zero b h = refl
one_round z f zero (suc a) b h = absurd (omega arith)
one_round z f (suc n) zero b h = refl
one_round z f (suc n) (suc a) b h =
    ap (λ (t : ℕ). t * 2 + f (suc a % 2) (b % 2))
      (one_round z f n (suc a / 2) (b / 2) (omega arith))

rounds :
    (z : ℕ → ℕ) (f : ℕ → ℕ → ℕ) (m n a b : ℕ) → n ≤ m → a ≤ n → digits z f m a b ≡ digits z f n a b
rounds z f m n a b h k = elim (ℕ_discrete n m) [
  | yes e ↦ ap (λ (t : ℕ). digits z f t a b) (omega arith)
  | no ne ↦ down m ne h
]
  where
    down : (m : ℕ) → ¬ (n ≡ m) → n ≤ m → digits z f m a b ≡ digits z f n a b
    down zero ne h = absurd (ne (omega arith))
    down (suc m) ne h = elim (ℕ_discrete n m) [
      | yes e ↦ one_round z f m a b (omega arith) ∙ ap (λ (t : ℕ). digits z f t a b) (omega arith)
      | no off ↦ one_round z f m a b (omega arith) ∙ down m off (omega arith)
    ]

half_fuel :
    (z : ℕ → ℕ) (f : ℕ → ℕ → ℕ) (a b : ℕ)
    → digits z f a (suc a / 2) b ≡ digits z f (suc a / 2) (suc a / 2) b
half_fuel z f a b = rounds z f a (suc a / 2) (suc a / 2) b (omega arith) (omega arith)

module _ (y : ℕ) where
  pub bit_or_step : (x : ℕ) → bit_or x y ≡ bit_or (x / 2) (y / 2) * 2 + max (x % 2) (y % 2)
  bit_or_step zero = simp bit_or-bitwise (omega arith)
  bit_or_step (suc x) =
      let fuel = half_fuel (λ d. d) max x (y / 2) in simp bit_or-bitwise (omega (arith, fuel))

  pub bit_and_step : (x : ℕ) → bit_and x y ≡ bit_and (x / 2) (y / 2) * 2 + min (x % 2) (y % 2)
  bit_and_step zero = simp bit_and-bitwise (omega arith)
  bit_and_step (suc x) =
      let fuel = half_fuel (λ d. 0) min x (y / 2) in simp bit_and-bitwise (omega (arith, fuel))
