-- ===== src/Programs/Grep.antt =====
-- `grep_main` prints the lines that have the pattern.
use simple_os.Prelude.{
  ℕ, zero, suc, ◌≡◌, refl, sym, ap, subst, ◌∙◌, inl, inr, ◌==◌, ltb, if◌then◌else◌, Bool-cases,
  true, false, List, [], ◌∷◌, ◌++◌, length, take, append_nil, append_assoc, take-nil, arith,
}
use simple_os.Programs.Match.{
  str_str_lem, print_line, grep_loop, grep_main, in_line, lines_of, kept, Printed, Prints,
}

take-snoc :
    (n : ℕ) (xs : List ℕ) (c : ℕ)
    → take n (xs ++ c ∷ [])
      ≡ (if ltb (length (take n xs)) n then take n xs ++ c ∷ [] else take n xs)
take-snoc zero xs c = refl
take-snoc (suc n) [] c =
    let first : ltb 0 (suc n) ≡ true = ground arith in rw first (ap (λ z. c ∷ z) (take-nil n))
take-snoc (suc n) (x ∷ xs) c = elim (Bool-cases (ltb (length (take n xs)) n)) [
  | inl e ↦
      (let more : ltb (suc (length (take n xs))) (suc n) ≡ true = ground (arith, e) in
        rw more (ap (λ z. x ∷ z) (take-snoc n xs c ∙ rw e refl)))
  | inr e ↦
      (let more : ltb (suc (length (take n xs))) (suc n) ≡ false = ground (arith, e) in
        rw more (ap (λ z. x ∷ z) (take-snoc n xs c ∙ rw e refl)))
]

lines_of-cons : (cs : List ℕ) → (w : List ℕ) × (ws : List (List ℕ)) × (lines_of cs ≡ w ∷ ws)
unfolding lines_of
lines_of-cons [] = ([], [], refl)
lines_of-cons (c ∷ cs) =
    let (w, ws, e) = lines_of-cons cs in
    elim (Bool-cases (c == 10)) [
      | inl d ↦ ([], lines_of cs, rw d refl)
      | inr d ↦ (c ∷ w, ws, rw d (rw e refl))
    ]

print_line-Printed :
    (pattern line : List ℕ) → Printed pattern line (print_line pattern (take 255 line))
print_line-Printed pattern line = elim (str_str_lem (kept line) pattern) [
  | inl (e, at) ↦ inl (at, rw e refl)
  | inr (e, none) ↦ inr (none, rw e refl)
]

-- The text `pre` in front of the first line.
abbrev behind : List ℕ → List (List ℕ) → List (List ℕ)
behind pre [] = pre ∷ []
behind pre (w ∷ ws) = (pre ++ w) ∷ ws

-- What the loop prints for the end of the text.
at_end :
    (pattern pre : List ℕ)
    → Prints pattern
        ((pre ++ []) ∷ [])
        (if ltb 0 (length (take 255 pre)) then print_line pattern (take 255 pre) else [])
at_end pattern [] = inl (refl, refl)
at_end pattern (c ∷ cs) =
    let some_bytes : ltb 0 (suc (length (take 254 cs))) ≡ true = ground arith in
    rw some_bytes (rw (append_nil cs) (inr ((λ e. cc e), print_line-Printed pattern (c ∷ cs))))

new_line :
    (pattern pre out w : List ℕ) (ls ws : List (List ℕ))
    → ls ≡ w ∷ ws
    → Prints pattern (behind [] ls) out
    → Prints pattern ((pre ++ []) ∷ ls) (print_line pattern (take 255 pre) ++ out)
new_line pattern pre out w [] ws e h = absurd (cc e)
new_line pattern pre out w (v ∷ vs) ws e h = (
  print_line pattern (take 255 pre),
  out,
  refl,
  rw (append_nil pre) (print_line-Printed pattern pre),
  h,
)

longer_line :
    (pattern pre out : List ℕ) (c : ℕ) (ls : List (List ℕ))
    → Prints pattern (behind (pre ++ c ∷ []) ls) out
    → Prints pattern (behind pre (in_line c ls)) out
longer_line pattern pre out c [] h = h
longer_line pattern pre out c (v ∷ vs) h =
    subst (λ l. Prints pattern (l ∷ vs) out) (append_assoc pre (c ∷ []) v) h

grep_loop_lem :
    (cs pattern pre line : List ℕ)
    → line ≡ take 255 pre
    → Prints pattern (behind pre (lines_of cs)) (grep_loop pattern line cs)
unfolding grep_loop lines_of
grep_loop_lem [] pattern pre line at = rw at (at_end pattern pre)
grep_loop_lem (c ∷ cs) pattern pre line at =
    let (w, ws, e) = lines_of-cons cs in
    elim (Bool-cases (c == 10)) [
      | inl d ↦
          let rest : Prints pattern (behind [] (lines_of cs)) (grep_loop pattern [] cs) =
            grep_loop_lem cs pattern [] [] refl in
          rw (d, at) (new_line pattern pre (grep_loop pattern [] cs) w (lines_of cs) ws e rest)
      | inr d ↦
          let longer : Prints pattern (behind (pre ++ c ∷ []) (lines_of cs))
              (grep_loop pattern (take 255 (pre ++ c ∷ [])) cs) =
            grep_loop_lem cs pattern (pre ++ c ∷ []) (take 255 (pre ++ c ∷ [])) refl in
          let kept_line : take 255 (pre ++ c ∷ [])
              ≡ (if ltb (length line) 255 then line ++ c ∷ [] else line) =
            take-snoc 255 pre c
            ∙ ap (λ l. if ltb (length l) 255 then l ++ c ∷ [] else l) (sym at) in
          rw d (
            longer_line pattern pre _ c (lines_of cs) (elim (Bool-cases (ltb (length line) 255)) [
              | inl f ↦ rw f (
                  subst
                    (λ l.
                      Prints pattern (behind (pre ++ c ∷ []) (lines_of cs))
                        (grep_loop pattern l cs))
                    (kept_line ∙ rw f refl) longer)
              | inr f ↦ rw f (
                  subst
                    (λ l.
                      Prints pattern (behind (pre ++ c ∷ []) (lines_of cs))
                        (grep_loop pattern l cs))
                    (kept_line ∙ rw f refl) longer)
            ]))
    ]

-- For each line of the input, cut down to 255 bytes and to what is before a byte 0, `grep_main` prints it
-- with a newline exactly where the pattern occurs in it, in the order of the lines; what stands behind
-- the last newline counts as a line if it is not empty.
pub grep_main_lem :
    (pattern input : List ℕ) → Prints pattern (lines_of input) (grep_main pattern input)
unfolding grep_main
grep_main_lem pattern input =
    let (w, ws, e) = lines_of-cons input in
    let same : behind [] (lines_of input) ≡ lines_of input = rw e refl in
    subst (λ ls. Prints pattern ls (grep_loop pattern [] input)) same
      (grep_loop_lem input pattern [] [] refl)
