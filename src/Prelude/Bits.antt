-- ===== src/Prelude/Bits.antt =====
-- The bits of a machine word, and what `&`, `|` and `<<` do to each of them.
mod Step
use Step.{bit_or_step, bit_and_step}
use Prim.Native.Nat.{
  ℕ, zero, suc, ◌+◌, ◌-◌, ◌*◌, ◌/◌, ◌%◌, ◌^◌, ◌≤◌, ◌<◌, bit_and, bit_or, min, max, bit_and-bitwise,
}
use mathlib.Core.Path.{◌≡◌, refl, ◌∙◌, ap}
use mathlib.Core.Bool.{Bool, true, false, not, ◌&&◌, ◌||◌}
use native.Mathlib.Nat.{pow-suc, one-le-pow}
use native.Mathlib.Omega.{arith}
use simple_os.Prelude.Tests.{◌==◌, if◌then◌else◌}

-- Bit `i` of a word.
unfoldable pub bit : ℕ → ℕ → Bool
bit x zero = x % 2 == 1
bit x (suc i) = bit (x / 2) i

-- The 32 bit complement of `1 << i`.
abbrev pub not_bit32 : ℕ → ℕ
not_bit32 i = 2 ^ 32 - 1 - 2 ^ i

low_or : (a b : ℕ) → (max (a % 2) (b % 2) == 1) ≡ ((a % 2 == 1) || (b % 2 == 1))
low_or a b = ground arith

pub bit-bit_or : (i a b : ℕ) → bit (bit_or a b) i ≡ (bit a i || bit b i)
unfolding bit
bit-bit_or zero a b = ground (arith, bit_or_step b a)
bit-bit_or (suc i) a b =
    let e : bit_or a b / 2 ≡ bit_or (a / 2) (b / 2) = omega (arith, bit_or_step b a) in
    rw e (bit-bit_or i (a / 2) (b / 2))

pub bit-bit_and : (i a b : ℕ) → bit (bit_and a b) i ≡ (bit a i && bit b i)
unfolding bit
bit-bit_and zero a b = ground (arith, bit_and_step b a)
bit-bit_and (suc i) a b =
    let e : bit_and a b / 2 ≡ bit_and (a / 2) (b / 2) = omega (arith, bit_and_step b a) in
    rw e (bit-bit_and i (a / 2) (b / 2))

zero-bit : (i : ℕ) → bit 0 i ≡ false
unfolding bit
zero-bit zero = refl
zero-bit (suc i) = zero-bit i

double_half : (k : ℕ) → 2 ^ suc k / 2 ≡ 2 ^ k
double_half k = omega (arith, pow-suc 2 k)

pub bit-two_pow : (i k : ℕ) → bit (2 ^ k) i ≡ (i == k)
unfolding bit
bit-two_pow zero zero = refl
bit-two_pow zero (suc k) = ground (arith, pow-suc 2 k)
bit-two_pow (suc i) zero = zero-bit i ∙ ground arith
bit-two_pow (suc i) (suc k) = rw (double_half k) (bit-two_pow i k ∙ ground arith)

pub bit_of_ones : (w i : ℕ) → i < w → bit (2 ^ w - 1) i ≡ true
unfolding bit
bit_of_ones zero i h = elim h [ ]
bit_of_ones (suc w) zero h = ground (arith, pow-suc 2 w, one-le-pow w 2)
bit_of_ones (suc w) (suc i) h =
    let e : (2 ^ suc w - 1) / 2 ≡ 2 ^ w - 1 = omega (arith, pow-suc 2 w, one-le-pow w 2) in
    rw e (bit_of_ones w i (omega arith))

pub two_pow-lt : (w k : ℕ) → k < w → 2 ^ k < 2 ^ w
two_pow-lt zero k h = elim h [ ]
two_pow-lt (suc w) zero h = omega (arith, pow-suc 2 w, one-le-pow w 2)
two_pow-lt (suc w) (suc k) h = omega (arith, pow-suc 2 w, pow-suc 2 k, two_pow-lt w k (omega arith))

-- The complement of one bit of a `w` bit word has every other bit.
pub bit_of_mask : (w k i : ℕ) → k < w → i < w → bit (2 ^ w - 1 - 2 ^ k) i ≡ not (i == k)
unfolding bit
bit_of_mask zero k i h g = elim h [ ]
bit_of_mask (suc w) zero zero h g = ground (arith, pow-suc 2 w, one-le-pow w 2)
bit_of_mask (suc w) zero (suc i) h g =
    let e : (2 ^ suc w - 1 - 1) / 2 ≡ 2 ^ w - 1 = omega (arith, pow-suc 2 w, one-le-pow w 2) in
    rw e (bit_of_ones w i (omega arith) ∙ ground arith)
bit_of_mask (suc w) (suc k) zero h g =
    ground (arith, pow-suc 2 w, pow-suc 2 k, two_pow-lt w k (omega arith))
bit_of_mask (suc w) (suc k) (suc i) h g =
    let e : (2 ^ suc w - 1 - 2 ^ suc k) / 2 ≡ 2 ^ w - 1 - 2 ^ k =
      omega (arith, pow-suc 2 w, pow-suc 2 k, two_pow-lt w k (omega arith)) in
    rw e (bit_of_mask w k i (omega arith) (omega arith) ∙ ground arith)

bit_and_zero_left : (b : ℕ) → bit_and 0 b ≡ 0
bit_and_zero_left b = bit_and-bitwise 0 b

-- `&` is below both of its arguments; the fuel bounds the first.
below_both : (n x y : ℕ) → x ≤ n → (bit_and x y ≤ x) × (bit_and x y ≤ y)
below_both n zero y h = (omega (arith, bit_and_zero_left y), omega (arith, bit_and_zero_left y))
below_both zero (suc x) y h = absurd (omega arith)
below_both (suc n) (suc x) y h =
    let rest = below_both n (suc x / 2) (y / 2) (omega arith) in
    (omega (arith, bit_and_step y (suc x), rest), omega (arith, bit_and_step y (suc x), rest))

pub bit_and-zero : (x : ℕ) → bit_and x 0 ≡ 0
bit_and-zero x = omega (arith, below_both x x 0 (omega arith))

pub bit_and-le : (x y : ℕ) → bit_and x y ≤ x
bit_and-le x y = (below_both x x y (omega arith)).0

-- The test `x & (1 << i)` of C.
unfoldable pub has_bit : ℕ → ℕ → Bool
has_bit x i = not (bit_and x (2 ^ i) == 0)

pub has_bit-eq-bit : (i x : ℕ) → has_bit x i ≡ bit x i
unfolding has_bit bit
has_bit-eq-bit zero x = ground (arith, bit_and_step 1 x, bit_and-zero (x / 2))
has_bit-eq-bit (suc i) x =
    ground (arith, bit_and_step (2 ^ suc i) x, double_half i, pow-suc 2 i, has_bit-eq-bit i (x / 2))

-- A word whose bits are all set is the word of ones.
pub ones_of_bits : (w x : ℕ) → x < 2 ^ w → ((i : ℕ) → i < w → bit x i ≡ true) → x ≡ 2 ^ w - 1
unfolding bit
ones_of_bits zero x h f = omega arith
ones_of_bits (suc w) x h f = ground (
  arith,
  f 0 (omega arith),
  pow-suc 2 w,
  one-le-pow w 2,
  ones_of_bits w (x / 2) (omega (arith, pow-suc 2 w)) (λ i g. f (suc i) (omega arith)),
)

pub bit_or-lt : (w a b : ℕ) → a < 2 ^ w → b < 2 ^ w → bit_or a b < 2 ^ w
bit_or-lt zero a b h g =
    let e : a ≡ 0 = omega arith in let f : b ≡ 0 = omega arith in rw (e, f) (omega arith)
bit_or-lt (suc w) a b h g = omega (
  arith,
  bit_or_step b a,
  pow-suc 2 w,
  bit_or-lt w (a / 2) (b / 2) (omega (arith, pow-suc 2 w)) (omega (arith, pow-suc 2 w)),
)

pub bit_and_ones : (w x : ℕ) → x < 2 ^ w → bit_and x (2 ^ w - 1) ≡ x
bit_and_ones zero x h = omega (arith, bit_and-zero x)
bit_and_ones (suc w) x h =
    let half : (2 ^ suc w - 1) / 2 ≡ 2 ^ w - 1 = omega (arith, pow-suc 2 w, one-le-pow w 2) in
    let odd : (2 ^ suc w - 1) % 2 ≡ 1 = omega (arith, pow-suc 2 w, one-le-pow w 2) in
    let rest = bit_and_ones w (x / 2) (omega (arith, pow-suc 2 w)) in
    let step = bit_and_step (2 ^ suc w - 1) x in step ∙ rw (half, rest, odd) (omega arith)

-- Rounding a 64 bit word down to a multiple of 8.
pub bit_and-align : (x : ℕ) → x < 2 ^ 64 → bit_and x (2 ^ 64 - 8) ≡ x / 8 * 8
bit_and-align x h = omega (
  arith,
  bit_and_step (2 ^ 64 - 8) x,
  bit_and_step (2 ^ 63 - 4) (x / 2),
  bit_and_step (2 ^ 62 - 2) (x / 2 / 2),
  bit_and_ones 61 (x / 2 / 2 / 2) (omega arith),
)

pub bit_or-zero : (x : ℕ) → bit_or x 0 ≡ x
bit_or-zero x = zeros x x (omega arith)
  where
    zeros : (n x : ℕ) → x ≤ n → bit_or x 0 ≡ x
    zeros zero x h = let e : x ≡ 0 = omega arith in rw e refl
    zeros (suc n) x h = omega (arith, bit_or_step 0 x, zeros n (x / 2) (omega arith))

-- A flag in the lowest bit, and flags below an aligned address.
pub bit_or-one : (x : ℕ) → bit_or x 1 ≡ x / 2 * 2 + 1
bit_or-one x = omega (arith, bit_or_step 1 x, bit_or-zero (x / 2))

pub bit_or_low : (k a f : ℕ) → f < 2 ^ k → bit_or (a * 2 ^ k) f ≡ a * 2 ^ k + f
bit_or_low zero a f h = let e : f ≡ 0 = omega arith in rw e (bit_or-zero (a * 2 ^ 0) ∙ omega arith)
bit_or_low (suc k) a f h =
    let p : a * 2 ^ suc k ≡ a * 2 ^ k * 2 = omega (arith, ap (λ (t : ℕ). a * t) (pow-suc 2 k)) in
    let half : a * 2 ^ suc k / 2 ≡ a * 2 ^ k = omega arith in
    let even : a * 2 ^ suc k % 2 ≡ 0 = omega arith in
    let rest = bit_or_low k a (f / 2) (omega (arith, pow-suc 2 k)) in
    bit_or_step f (a * 2 ^ suc k) ∙ rw (half, even, rest) (omega arith)

pub bit_and-one : (x : ℕ) → bit_and x 1 ≡ x % 2
bit_and-one x = omega (arith, bit_and_step 1 x, bit_and-zero (x / 2))
