-- ===== src/Programs/Match.antt =====
-- src/programs/grep.c: `str_str` and `grep_main`. A string is a list of bytes without its terminating 0.
use simple_os.Prelude.{
  ℕ, ◌≡◌, ◌≢◌, refl, ap, ap₂, ◌⊎◌, inl, inr, ◌==◌, ltb, if◌then◌else◌, ◌&&◌, Bool, Bool-cases, true,
  false, List, [], ◌∷◌, ◌++◌, length, take, arith,
}

-- The inner loop of `str_str`: is `n` at the front of `h`?
unfoldable pub same_front : List ℕ → List ℕ → Bool
same_front h [] = true
same_front [] (d ∷ n) = false
same_front (c ∷ h) (d ∷ n) = (c == d) && same_front h n

-- Its result is a pointer, of which the callers see only whether it is NULL.
unfoldable pub str_str : List ℕ → List ℕ → Bool
str_str [] needle = same_front [] needle
str_str (c ∷ h) needle = if same_front (c ∷ h) needle then true else str_str h needle

-- What is before the first 0.
unfoldable pub c_string : List ℕ → List ℕ
c_string [] = []
c_string (c ∷ cs) = let rest = c_string cs in if c == 0 then [] else c ∷ rest

-- A line that has the pattern is printed with a newline.
abbrev pub print_line : List ℕ → List ℕ → List ℕ
print_line pattern line = if str_str (c_string line) pattern then c_string line ++ 10 ∷ [] else []

-- The loop over the bytes that are read, with the bytes of `line` in the buffer of 256.
unfoldable pub grep_loop : List ℕ → List ℕ → List ℕ → List ℕ
grep_loop pattern line [] = if ltb 0 (length line) then print_line pattern line else []
grep_loop pattern line (c ∷ cs) =
    let ended = grep_loop pattern [] cs in
    let longer = grep_loop pattern (line ++ c ∷ []) cs in
    let dropped = grep_loop pattern line cs in
    if c == 10
    then print_line pattern line ++ ended
    else if ltb (length line) 255
    then longer
    else dropped

-- What `grep_main` prints for a pattern.
unfoldable pub grep_main : List ℕ → List ℕ → List ℕ
grep_main pattern input = grep_loop pattern [] input

-- `n` stands somewhere in `h`.
abbrev pub Occurs : List ℕ → List ℕ → Type 0
Occurs n h = (xs : List ℕ) × (ys : List ℕ) × (h ≡ xs ++ n ++ ys)

same_front_sound : (h n : List ℕ) → same_front h n ≡ true → (ys : List ℕ) × (h ≡ n ++ ys)
unfolding same_front
same_front_sound h [] e = (h, refl)
same_front_sound [] (d ∷ n) e = absurd (cc e)
same_front_sound (c ∷ h) (d ∷ n) e =
    let head : c ≡ d = ground (arith, e) in
    let tail : same_front h n ≡ true = ground (arith, e) in
    let (ys, rest) = same_front_sound h n tail in (ys, ap₂ (λ x xs. x ∷ xs) head rest)

same_front-append : (n ys : List ℕ) → same_front (n ++ ys) n ≡ true
unfolding same_front
same_front-append [] ys = refl
same_front-append (d ∷ n) ys =
    let same : (d == d) ≡ true = ground arith in rw same (same_front-append n ys)

not_front : (h n : List ℕ) → same_front h n ≡ false → (ys : List ℕ) → h ≢ n ++ ys
not_front h n e ys at =
    let yes : same_front h n ≡ true = rw at (same_front-append n ys) in ground (arith, e, yes)

not_later :
    (c : ℕ) (h n : List ℕ)
    → same_front (c ∷ h) n ≡ false
    → ¬ Occurs n h
    → (xs ys : List ℕ) → (c ∷ h) ≢ xs ++ n ++ ys
not_later c h n e none [] ys at = not_front (c ∷ h) n e ys at
not_later c h n e none (x ∷ xs) ys at = none (xs, ys, cc at)

not_in_nil :
    (n : List ℕ) → same_front [] n ≡ false → (xs ys : List ℕ) → ◌≢◌ {A = List ℕ} [] (xs ++ n ++ ys)
not_in_nil n e [] ys at = not_front [] n e ys at
not_in_nil n e (x ∷ xs) ys at = cc at

-- `str_str` decides whether the pattern occurs.
pub str_str_lem :
    (h n : List ℕ) → ((str_str h n ≡ true) × Occurs n h) ⊎ ((str_str h n ≡ false) × (¬ Occurs n h))
unfolding str_str
str_str_lem [] n = elim (Bool-cases (same_front [] n)) [
  | inl e ↦ (let (ys, at) = same_front_sound [] n e in inl (e, ([], ys, at)))
  | inr e ↦ inr (e, λ (xs, ys, at). not_in_nil n e xs ys at)
]
str_str_lem (c ∷ h) n = elim (Bool-cases (same_front (c ∷ h) n)) [
  | inl e ↦ (let (ys, at) = same_front_sound (c ∷ h) n e in inl (rw e refl, ([], ys, at)))
  | inr e ↦ elim (str_str_lem h n) [
    | inl (d, (xs, ys, at)) ↦ inl (rw e d, (c ∷ xs, ys, ap (λ z. c ∷ z) at))
    | inr (d, none) ↦ inr (rw e d, λ (xs, ys, at). not_later c h n e none xs ys at)
  ]
]

-- The lines of a text, of which the last is what stands behind the last newline.
abbrev pub in_line : ℕ → List (List ℕ) → List (List ℕ)
in_line c [] = (c ∷ []) ∷ []
in_line c (w ∷ ws) = (c ∷ w) ∷ ws

unfoldable pub lines_of : List ℕ → List (List ℕ)
lines_of [] = [] ∷ []
lines_of (c ∷ cs) = let ws = lines_of cs in if c == 10 then [] ∷ ws else in_line c ws

-- What a line is cut down to, and what is printed for it.
abbrev pub kept : List ℕ → List ℕ
kept line = c_string (take 255 line)

abbrev pub Printed : List ℕ → List ℕ → List ℕ → Type 0
Printed pattern line out =
    (Occurs pattern (kept line) × (out ≡ kept line ++ 10 ∷ []))
    ⊎ ((¬ Occurs pattern (kept line)) × (out ≡ []))

-- `out` is what is printed for the lines, one after the other; for the last only if it is not empty.
abbrev pub Prints : List ℕ → List (List ℕ) → List ℕ → Type 0
Prints pattern [] out = out ≡ []
Prints pattern (line ∷ []) out =
    ((line ≡ []) × (out ≡ [])) ⊎ ((line ≢ []) × Printed pattern line out)
Prints pattern (line ∷ next ∷ lines) out =
    (a : List ℕ) × (b : List ℕ) × (out ≡ a ++ b)
    × Printed pattern line a
    × Prints pattern (next ∷ lines) b
