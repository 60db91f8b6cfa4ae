-- ===== src/Programs/Decimal.antt =====
-- The decimal digits of `int_to_string` in src/kernel/syscall.c and, for numbers that are not negative, of
-- `int_to_str` in src/programs/wc.c: the two have the same loops.
use simple_os.Prelude.{
  ℕ, zero, suc, ◌+◌, ◌-◌, ◌*◌, ◌/◌, ◌%◌, ◌^◌, ◌≤◌, ◌<◌, ◌≡◌, refl, ap, ◌∙◌, inl, inr, ◌==◌,
  if◌then◌else◌, Bool-cases, List, [], ◌∷◌, length, arith,
}

-- The loop that counts, on ten rounds: a number below 2^32 has no more digits.
unfoldable pub count_digits : ℕ → ℕ → ℕ
count_digits zero temp = 0
count_digits (suc n) temp =
    let rest = count_digits n (temp / 10) in if temp == 0 then 0 else suc rest

-- The loop that fills the buffer from its end, with `n` places left, in front of `buf`.
unfoldable pub fill_digits : ℕ → ℕ → List ℕ → List ℕ
fill_digits zero num buf = buf
fill_digits (suc n) num buf = fill_digits n (num / 10) ((48 + num % 10) ∷ buf)

unfoldable pub int_to_string : ℕ → List ℕ
int_to_string num = if num == 0 then 48 ∷ [] else fill_digits (count_digits 10 num) num []

-- The number that digits stand for.
unfoldable pub number_from : ℕ → List ℕ → ℕ
number_from acc [] = acc
number_from acc (d ∷ ds) = number_from (10 * acc + (d - 48)) ds

-- The digits in front of the buffer stand for the number.
number_from-fill_digits :
    (n num : ℕ) (buf : List ℕ)
    → num < 10 ^ n
    → number_from 0 (fill_digits n num buf) ≡ number_from num buf
unfolding fill_digits number_from
number_from-fill_digits zero num buf h = let none : num ≡ 0 = omega (arith, h) in rw none refl
number_from-fill_digits (suc n) num buf h =
    let less : num / 10 < 10 ^ n = omega (arith, h) in
    let all : 10 * (num / 10) + (48 + num % 10 - 48) ≡ num = omega arith in
    number_from-fill_digits n (num / 10) ((48 + num % 10) ∷ buf) less
    ∙ ap (λ k. number_from k buf) all

count_digits-enough : (n num : ℕ) → num < 10 ^ n → num < 10 ^ count_digits n num
unfolding count_digits
count_digits-enough zero num h = h
count_digits-enough (suc n) num h = elim (Bool-cases (num == 0)) [
  | inl e ↦ rw e (ground (arith, e))
  | inr e ↦
      let less : num / 10 < 10 ^ n = omega (arith, h) in
      let rest = count_digits-enough n (num / 10) less in
      rw e (let up : num < 10 ^ suc (count_digits n (num / 10)) = omega (arith, rest) in up)
]

count_digits-le : (n num : ℕ) → count_digits n num ≤ n
unfolding count_digits
count_digits-le zero num = omega arith
count_digits-le (suc n) num = ground (arith, count_digits-le n (num / 10))

length-fill_digits : (n num : ℕ) (buf : List ℕ) → length (fill_digits n num buf) ≡ n + length buf
unfolding fill_digits
length-fill_digits zero num buf = omega arith
length-fill_digits (suc n) num buf =
    omega (arith, length-fill_digits n (num / 10) ((48 + num % 10) ∷ buf))

-- Every byte is a digit.
abbrev pub AreDigits : List ℕ → Type 0
AreDigits [] = Unit
AreDigits (d ∷ ds) = (48 ≤ d) × (d ≤ 57) × AreDigits ds

fill_digits-AreDigits :
    (n num : ℕ) (buf : List ℕ) → AreDigits buf → AreDigits (fill_digits n num buf)
unfolding fill_digits
fill_digits-AreDigits zero num buf h = h
fill_digits-AreDigits (suc n) num buf h =
    fill_digits-AreDigits n (num / 10) ((48 + num % 10) ∷ buf) (omega arith, omega arith, h)

zero_digit : number_from 0 (48 ∷ []) ≡ 0
unfolding number_from
zero_digit = refl

number_from-nil : (n : ℕ) → number_from n [] ≡ n
unfolding number_from
number_from-nil n = refl

-- For a number of 32 bits the text is of at most ten bytes, all of them digits, and the digits stand for the
-- number.
pub number_from-int_to_string :
    (num : ℕ)
    → num < 2 ^ 32
    → (number_from 0 (int_to_string num) ≡ num)
      × AreDigits (int_to_string num)
      × (length (int_to_string num) ≤ 10)
unfolding int_to_string
number_from-int_to_string num h = elim (Bool-cases (num == 0)) [
  | inl e ↦ rw e (zero_digit ∙ ground (arith, e), (omega arith, omega arith, tt), omega arith)
  | inr e ↦
      let d = count_digits 10 num in
      rw e (
        number_from-fill_digits d num [] (count_digits-enough 10 num (omega (arith, h)))
            ∙ number_from-nil num,
        fill_digits-AreDigits d num [] tt,
        omega (arith, length-fill_digits d num [], count_digits-le 10 num),
      )
]
