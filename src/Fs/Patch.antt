-- ===== src/Fs/Patch.antt =====
-- One block's part of a write: the block that is written to, and what is behind it.
use simple_os.Prelude.{
  append_nil, ℕ, zero, suc, ◌+◌, ◌-◌, ◌*◌, ◌≤◌, ◌<◌, ◌≡◌, refl, sym, ap, subst, ◌∙◌, ◌⊎◌, inl, inr,
  ltb, ◌==◌, min, true, false, List, [], ◌∷◌, ◌++◌, length, length-append, take, drop, get_or,
  arith, Bool-cases, Away-In,
}
use simple_os.Fs.{Ramfs, block_size, put, write_bytes}
use simple_os.Fs.Chain.{Chained, held, held-append, held-same}
use simple_os.Fs.Grow.{Grown}

-- A memcpy writes where it writes.
pub write_bytes_out :
    (xs : List ℕ) (off : ℕ) (d : ℕ → ℕ) (j : ℕ)
    → (j < off) ⊎ (off + length xs ≤ j)
    → write_bytes xs off d j ≡ d j
unfolding write_bytes
write_bytes_out [] off d j h = refl
write_bytes_out (x ∷ xs) off d j h =
    let no : (j == off) ≡ false = ground (arith, h) in
    write_bytes_out xs (off + 1) (put d off x) j (ground (arith, h)) ∙ rw no refl

pub write_bytes_in :
    (xs : List ℕ) (off : ℕ) (d : ℕ → ℕ) (j : ℕ)
    → off ≤ j
    → j < off + length xs
    → write_bytes xs off d j ≡ get_or xs (j - off) 0
unfolding write_bytes
write_bytes_in [] off d j a b = absurd (omega arith)
write_bytes_in (x ∷ xs) off d j a b = elim (Bool-cases (j == off)) [
  | inl e ↦
      let at : j - off ≡ 0 = ground (arith, e) in
      let here = write_bytes_out xs (off + 1) (put d off x) j (inl (ground (arith, e))) in
      here ∙ rw (e, at) refl
  | inr e ↦
      let at : j - off ≡ suc (j - (off + 1)) = ground (arith, e) in
      write_bytes_in xs (off + 1) (put d off x) j (ground (arith, e)) (omega arith) ∙ rw at refl
]

length-take : (n : ℕ) (xs : List ℕ) → length (take n xs) ≡ min n (length xs)
length-take zero xs = omega arith
length-take (suc n) [] = omega arith
length-take (suc n) (x ∷ xs) = omega (arith, length-take n xs)

get_or-take : (n : ℕ) (xs : List ℕ) (i : ℕ) → i < n → get_or (take n xs) i 0 ≡ get_or xs i 0
get_or-take zero xs i h = absurd (omega arith)
get_or-take (suc n) [] i h = refl
get_or-take (suc n) (x ∷ xs) zero h = refl
get_or-take (suc n) (x ∷ xs) (suc i) h = get_or-take n xs i (omega arith)

get_or-drop : (n : ℕ) (xs : List ℕ) (i : ℕ) → get_or (drop n xs) i 0 ≡ get_or xs (n + i) 0
get_or-drop zero xs i = ap (λ k. get_or xs k 0) {y = 0 + i} (omega arith)
get_or-drop (suc n) [] i = refl
get_or-drop (suc n) (x ∷ xs) i =
    let at : suc n + i ≡ suc (n + i) = omega arith in get_or-drop n xs i ∙ rw at refl

-- `k` bytes of the buffer have been stored from `off` on.
pub record Stored (c c' : ℕ → ℕ → ℕ) (bs bs' : List ℕ) (off : ℕ) (buffer : List ℕ) (k : ℕ)
    : Type 0 where
  pub reached : off + k ≤ block_size * length bs'
  pub inside : (j : ℕ) → off ≤ j → j < off + k → held c' bs' j ≡ get_or buffer (j - off) 0
  pub outside :
      (j : ℕ) → j < block_size * length bs → (j < off) ⊎ (off + k ≤ j) → held c' bs' j ≡ held c bs j

-- One block's part of the buffer, put into it.
abbrev pub patched : Ramfs → ℕ → ℕ → List ℕ → Ramfs
patched fs b off buffer = record fs {
  content =
      put fs.content b
        (write_bytes (take (min (block_size - off) (length buffer)) buffer) off (fs.content b));
}

patched_in :
    (fs : Ramfs) (x off : ℕ) (buffer : List ℕ) (j : ℕ)
    → off ≤ j
    → j < off + min (block_size - off) (length buffer)
    → (patched fs x off buffer).content x j ≡ get_or buffer (j - off) 0
patched_in fs x off buffer j a b =
    let n = min (512 - off) (length buffer) in
    let same : (x == x) ≡ true = ground arith in
    rw same (
      write_bytes_in (take n buffer) off (fs.content x) j a (omega (arith, b, length-take n buffer))
      ∙ get_or-take n buffer (j - off) (omega (arith, a, b)))

patched_out :
    (fs : Ramfs) (x off : ℕ) (buffer : List ℕ) (j : ℕ)
    → (j < off) ⊎ (off + min (block_size - off) (length buffer) ≤ j)
    → (patched fs x off buffer).content x j ≡ fs.content x j
patched_out fs x off buffer j h =
    let n = min (512 - off) (length buffer) in
    let same : (x == x) ≡ true = ground arith in
    rw same (
      write_bytes_out (take n buffer) off (fs.content x) j (omega (arith, h, length-take n buffer)))

Chained-content :
    (fs : Ramfs) (c : ℕ → ℕ → ℕ) (b : ℕ) (bs : List ℕ)
    → Chained fs b bs
    → Chained (record fs { content = c }) b bs
Chained-content fs c b [] h = h
Chained-content fs c b (x ∷ xs) h =
    (h.0, h.1, h.2, h.3, Chained-content fs c (fs.next_block x) xs h.4)

pub patched-Grown :
    (fs : Ramfs) (b x : ℕ) (xs : List ℕ) (off : ℕ) (buffer : List ℕ)
    → Chained fs b (x ∷ xs)
    → Grown fs (patched fs x off buffer) b (x ∷ xs) []
patched-Grown fs b x xs off buffer c = record {
  nodes = refl;
  words = refl;
  still = λ d t. t;
  kept = λ d t a. (let no : (d == x) ≡ false = ground (arith, a.0) in rw no refl, refl);
  fresh = λ d k. absurd k;
  chain =
      subst (Chained (patched fs x off buffer) b) (sym (append_nil (x ∷ xs)))
        (Chained-content fs (patched fs x off buffer).content b (x ∷ xs) c);
}

patched_behind :
    (fs : Ramfs) (b x : ℕ) (xs : List ℕ) (off : ℕ) (buffer : List ℕ) (j : ℕ)
    → Chained fs b (x ∷ xs)
    → held (patched fs x off buffer).content xs j ≡ held fs.content xs j
patched_behind fs b x xs off buffer j c =
    held-same (patched fs x off buffer).content fs.content xs j
      (λ d k. let no : (d == x) ≡ false = ground (arith, Away-In x d xs c.3 k) in rw no refl)

-- The buffer's part in the first block of a chain is stored.
pub patched-Stored :
    (fs : Ramfs) (b x : ℕ) (xs : List ℕ) (off : ℕ) (buffer : List ℕ)
    → Chained fs b (x ∷ xs)
    → off < block_size
    → Stored fs.content
        (patched fs x off buffer).content
        (x ∷ xs)
        ((x ∷ xs) ++ [])
        off
        buffer
        (min (block_size - off) (length buffer))
unfolding held
patched-Stored fs b x xs off buffer c l = rw (append_nil (x ∷ xs)) record {
  reached = omega (arith, l);
  inside = λ j a h.
      let low : ltb j 512 ≡ true = ground (arith, h, l) in
      rw low (patched_in fs x off buffer j a h);
  outside = λ j a h. elim (Bool-cases (ltb j 512)) [
    | inl e ↦ rw e (patched_out fs x off buffer j h)
    | inr e ↦ rw e (patched_behind fs b x xs off buffer (j - 512) c)
  ];
}

-- What was behind the first block is still there.
behind_same :
    (fs q : Ramfs) (b x y off : ℕ) (xs ys e1 buffer : List ℕ) (j : ℕ)
    → Chained fs b (x ∷ xs)
    → q.content ≡ (patched fs x off buffer).content
    → xs ++ e1 ≡ y ∷ ys
    → j < block_size * length xs
    → (j < block_size * length (y ∷ ys)) × (held q.content (y ∷ ys) j ≡ held fs.content xs j)
behind_same fs q b x y off xs ys e1 buffer j c same joined l =
    let long : ltb j (512 * length xs) ≡ true = ground (arith, l) in
    let total : length (y ∷ ys) ≡ length xs + length e1 =
      ap length (sym joined) ∙ length-append xs e1 in
    (
      omega (arith, l, total),
      ap (λ bs. held q.content bs j) (sym joined)
          ∙ ap (λ d. held d (xs ++ e1) j) same
          ∙ held-append (patched fs x off buffer).content xs e1 j
          ∙ rw long (patched_behind fs b x xs off buffer j c),
    )

-- The rest of the buffer is stored in the blocks behind.
pub then_Stored :
    (fs q r : Ramfs) (b x y off k : ℕ) (xs ys e1 e2 buffer : List ℕ)
    → Chained fs b (x ∷ xs)
    → off < block_size
    → block_size - off ≤ length buffer
    → q.content ≡ (patched fs x off buffer).content
    → xs ++ e1 ≡ y ∷ ys
    → r.content x ≡ q.content x
    → Stored q.content r.content (y ∷ ys) ((y ∷ ys) ++ e2) 0 (drop (block_size - off) buffer) k
    → Stored fs.content r.content (x ∷ xs) (x ∷ ((y ∷ ys) ++ e2)) off buffer (block_size - off + k)
unfolding held
then_Stored fs q r b x y off k xs ys e1 e2 buffer c l n same joined first s = record {
  reached = omega (arith, s.reached);
  inside = λ j a h. elim (Bool-cases (ltb j 512)) [
    | inl e ↦ rw e (first_same j ∙ patched_in fs x off buffer j a (ground (arith, e, n)))
    | inr e ↦
        let at : 512 - off + (j - 512 - 0) ≡ j - off = ground (arith, e, l) in
        rw e (
          s.inside (j - 512) (omega arith) (ground (arith, e, h))
          ∙ get_or-drop (512 - off) buffer (j - 512 - 0)
          ∙ ap (λ i. get_or buffer i 0) at)
  ];
  outside = λ j a h. elim (Bool-cases (ltb j 512)) [
    | inl e ↦ rw e (first_same j ∙ patched_out fs x off buffer j (ground (arith, e, h, n)))
    | inr e ↦
        let short : j - 512 < 512 * length xs = ground (arith, e, a) in
        let (inside, behind) =
          behind_same fs q b x y off xs ys e1 buffer (j - 512) c same joined short in
        rw e (s.outside (j - 512) inside (inr (ground (arith, e, h))) ∙ behind)
  ];
}
  where
    first_same : (j : ℕ) → r.content x j ≡ (patched fs x off buffer).content x j
    first_same j = ap (λ d. d j) first ∙ ap (λ c. c x j) same
