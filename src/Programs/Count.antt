-- ===== src/Programs/Count.antt =====
-- src/programs/wc.c: `wc_main` counts lines, words and bytes; against the words as a list. An int is kept
-- as its 32 bits.
use simple_os.Prelude.{
  ℕ, ◌+◌, ◌%◌, ◌^◌, ◌<◌, ◌≡◌, refl, sym, ◌∙◌, inl, inr, ◌==◌, if◌then◌else◌, not, ◌||◌, ◌&&◌, Bool,
  Bool-cases, true, false, List, [], ◌∷◌, ◌++◌, length, arith,
}

pub record Counters : Type 0 where
  pub lines : ℕ
  pub words : ℕ
  pub chars : ℕ
  pub in_word : Bool

abbrev pub is_blank : ℕ → Bool
is_blank c = (c == 32) || (c == 9) || (c == 10)

unfoldable pub count_byte : Counters → ℕ → Counters
count_byte k c =
    let k1 = record k {
      chars = (k.chars + 1) % 2 ^ 32;
      lines = if c == 10 then (k.lines + 1) % 2 ^ 32 else k.lines;
    } in
    if is_blank c
    then (if k1.in_word then record k1 { words = (k1.words + 1) % 2 ^ 32; in_word = false } else k1)
    else record k1 { in_word = true }

unfoldable pub count_bytes : Counters → List ℕ → Counters
count_bytes k [] = k
count_bytes k (c ∷ cs) = count_bytes (count_byte k c) cs

-- The loop over the reads, each of the bytes in the buffer; it ends with one of no bytes, or an error.
unfoldable pub count_reads : Counters → List (List ℕ) → Counters
count_reads k [] = k
count_reads k (read ∷ reads) =
    let rest = count_reads (count_bytes k read) reads in if length read == 0 then k else rest

-- The three numbers that `wc_main` prints.
unfoldable pub wc_main : List (List ℕ) → ℕ × ℕ × ℕ
wc_main reads =
    let k = count_reads (record { lines = 0; words = 0; chars = 0; in_word = false }) reads in
    (k.lines, (if k.in_word then (k.words + 1) % 2 ^ 32 else k.words), k.chars)

-- What it should print: newlines, words as the runs of other bytes than blanks, and bytes.
unfoldable pub newlines : List ℕ → ℕ
newlines [] = 0
newlines (c ∷ cs) = if c == 10 then newlines cs + 1 else newlines cs

abbrev pub in_first : ℕ → List (List ℕ) → List (List ℕ)
in_first c [] = (c ∷ []) ∷ []
in_first c (w ∷ ws) = (c ∷ w) ∷ ws

abbrev pub starts_word : List ℕ → Bool
starts_word [] = false
starts_word (c ∷ cs) = not (is_blank c)

unfoldable pub words_of : List ℕ → List (List ℕ)
words_of [] = []
words_of (c ∷ cs) =
    let ws = words_of cs in
    if is_blank c then ws else if starts_word cs then in_first c ws else (c ∷ []) ∷ ws

-- The bytes read before the end.
unfoldable pub text_of : List (List ℕ) → List ℕ
text_of [] = []
text_of (read ∷ reads) = let rest = text_of reads in if length read == 0 then [] else read ++ rest

-- A text that starts with a word has one.
words_of-starts :
    (cs : List ℕ)
    → starts_word cs ≡ true
    → (w : List ℕ) × (ws : List (List ℕ)) × (words_of cs ≡ w ∷ ws)
unfolding words_of
words_of-starts [] e = absurd (cc e)
words_of-starts (c ∷ cs) e =
    let blank : is_blank c ≡ false = ground (arith, e) in
    elim (Bool-cases (starts_word cs)) [
      | inl s ↦
          (let (w, ws, same) = words_of-starts cs s in (c ∷ w, ws, rw (blank, s) (rw same refl)))
      | inr s ↦ (c ∷ [], words_of cs, rw (blank, s) refl)
    ]

abbrev total : Counters → ℕ
total k = if k.in_word then (k.words + 1) % 2 ^ 32 else k.words

byte_words :
    (k : Counters) (c : ℕ)
    → (count_byte k c).words ≡ (if is_blank c && k.in_word then (k.words + 1) % 2 ^ 32 else k.words)
unfolding count_byte
byte_words k c = elim (Bool-cases (is_blank c)) [
  | inl e ↦ rw e (elim (Bool-cases k.in_word) [ inl d ↦ rw d refl | inr d ↦ rw d refl ])
  | inr e ↦ rw e refl
]

byte_in_word : (k : Counters) (c : ℕ) → (count_byte k c).in_word ≡ not (is_blank c)
unfolding count_byte
byte_in_word k c = elim (Bool-cases (is_blank c)) [
  | inl e ↦ rw e (elim (Bool-cases k.in_word) [ inl d ↦ rw d refl | inr d ↦ rw d refl ])
  | inr e ↦ rw e refl
]

length-in_first :
    (c : ℕ) (cs : List ℕ)
    → starts_word cs ≡ true
    → length (in_first c (words_of cs)) ≡ length (words_of cs)
length-in_first c cs e = let (w, ws, same) = words_of-starts cs e in rw same refl

words_of-cons :
    (c : ℕ) (cs : List ℕ)
    → length (words_of (c ∷ cs))
      ≡ (if is_blank c || starts_word cs then length (words_of cs) else length (words_of cs) + 1)
unfolding words_of
words_of-cons c cs = elim (Bool-cases (is_blank c)) [
  | inl e ↦ rw e refl
  | inr e ↦ elim (Bool-cases (starts_word cs)) [
    | inl s ↦ rw (e, s) (length-in_first c cs s)
    | inr s ↦ rw (e, s) (omega arith)
  ]
]

words_of-nil : length (words_of []) ≡ 0
unfolding words_of
words_of-nil = refl

-- The words of a text after a word has begun or not: one more where the word ends at its start.
words_from :
    (cs : List ℕ) (k : Counters)
    → k.words + length cs < 2 ^ 31
    → total (count_bytes k cs)
      ≡ k.words + length (words_of cs) + (if k.in_word && not (starts_word cs) then 1 else 0)
unfolding count_bytes
words_from [] k few = elim (Bool-cases k.in_word) [
  | inl e ↦ rw e (omega (arith, words_of-nil))
  | inr e ↦ rw e (omega (arith, words_of-nil))
]
words_from (c ∷ cs) k few =
    let rest = words_from cs (count_byte k c) (ground (arith, byte_words k c)) in
    ground (arith, rest, byte_words k c, byte_in_word k c, words_of-cons c cs)

byte_lines :
    (k : Counters) (c : ℕ)
    → (count_byte k c).lines ≡ (if c == 10 then (k.lines + 1) % 2 ^ 32 else k.lines)
unfolding count_byte
byte_lines k c = elim (Bool-cases (is_blank c)) [
  | inl e ↦ rw e (elim (Bool-cases k.in_word) [ inl d ↦ rw d refl | inr d ↦ rw d refl ])
  | inr e ↦ rw e refl
]

byte_chars : (k : Counters) (c : ℕ) → (count_byte k c).chars ≡ (k.chars + 1) % 2 ^ 32
unfolding count_byte
byte_chars k c = elim (Bool-cases (is_blank c)) [
  | inl e ↦ rw e (elim (Bool-cases k.in_word) [ inl d ↦ rw d refl | inr d ↦ rw d refl ])
  | inr e ↦ rw e refl
]

lines_from :
    (cs : List ℕ) (k : Counters)
    → k.lines + length cs < 2 ^ 31
    → (count_bytes k cs).lines ≡ k.lines + newlines cs
unfolding count_bytes newlines
lines_from [] k few = omega arith
lines_from (c ∷ cs) k few =
    let line = byte_lines k c in
    ground (arith, lines_from cs (count_byte k c) (ground (arith, line)), line)

chars_from :
    (cs : List ℕ) (k : Counters)
    → k.chars + length cs < 2 ^ 31
    → (count_bytes k cs).chars ≡ k.chars + length cs
unfolding count_bytes
chars_from [] k few = omega arith
chars_from (c ∷ cs) k few =
    let char = byte_chars k c in
    omega (arith, chars_from cs (count_byte k c) (omega (arith, char)), char)

count_bytes-append :
    (cs ds : List ℕ) (k : Counters) → count_bytes k (cs ++ ds) ≡ count_bytes (count_bytes k cs) ds
unfolding count_bytes
count_bytes-append [] ds k = refl
count_bytes-append (c ∷ cs) ds k = count_bytes-append cs ds (count_byte k c)

count_reads-text :
    (reads : List (List ℕ)) (k : Counters) → count_reads k reads ≡ count_bytes k (text_of reads)
unfolding count_reads text_of count_bytes
count_reads-text [] k = refl
count_reads-text (read ∷ reads) k = elim (Bool-cases (length read == 0)) [
  | inl e ↦ rw e refl
  | inr e ↦ rw e (
      count_reads-text reads (count_bytes k read) ∙ sym (count_bytes-append read (text_of reads) k))
]

-- However an input of fewer than 2^31 bytes comes in reads, wc prints its newlines, its words and its bytes.
pub wc_main_lem :
    (reads : List (List ℕ))
    → length (text_of reads) < 2 ^ 31
    → wc_main reads
      ≡ (newlines (text_of reads), length (words_of (text_of reads)), length (text_of reads))
unfolding wc_main
wc_main_lem reads few =
    let k : Counters = record { lines = 0; words = 0; chars = 0; in_word = false } in
    let end : Counters = count_bytes k (text_of reads) in
    let lines : end.lines ≡ newlines (text_of reads) =
      lines_from (text_of reads) k (omega arith) ∙ omega arith in
    let words : total end ≡ length (words_of (text_of reads)) =
      words_from (text_of reads) k (omega arith) ∙ omega arith in
    let chars : end.chars ≡ length (text_of reads) =
      chars_from (text_of reads) k (omega arith) ∙ omega arith in
    rw (count_reads-text reads k) (rw (lines, words, chars) refl)
