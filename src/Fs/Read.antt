-- ===== src/Fs/Read.antt =====
-- `ramfs_read` against what the file holds.
use simple_os.Prelude.{
  ℕ, zero, suc, ◌+◌, ◌-◌, ◌*◌, ◌/◌, ◌%◌, ◌^◌, ◌≤◌, ◌<◌, ◌≡◌, refl, ap, ap₂, ◌∙◌, inl, inr, ltb, leb,
  ◌==◌, min, if◌then◌else◌, ◌||◌, true, false, List, [], ◌∷◌, ◌++◌, length, some, arith, Bool-cases,
  ok,
}
use simple_os.Fs.{
  Ramfs, is_file, block_size, max_blocks, no_block, bytes_at, skip_blocks, read_loop, ramfs_read,
}
use simple_os.Fs.Chain.{Chained, held}

pub bytes_at-eq :
    (n off off' : ℕ) (d e : ℕ → ℕ)
    → ((j : ℕ) → j < n → d (off + j) ≡ e (off' + j))
    → bytes_at n off d ≡ bytes_at n off' e
unfolding bytes_at
bytes_at-eq zero off off' d e h = refl
bytes_at-eq (suc n) off off' d e h =
    let here : d off ≡ e off' = ap d (omega arith) ∙ h 0 (omega arith) ∙ ap e (omega arith) in
    ap₂ (λ x xs. x ∷ xs) here
      (bytes_at-eq n (off + 1) (off' + 1) d e
        (λ j l. ap d (omega arith) ∙ h (suc j) (omega arith) ∙ ap e (omega arith)))

bytes_at-append :
    (m n off : ℕ) (d : ℕ → ℕ) → bytes_at m off d ++ bytes_at n (off + m) d ≡ bytes_at (m + n) off d
unfolding bytes_at
bytes_at-append zero n off d =
    let at : off + 0 ≡ off = omega arith in let all : 0 + n ≡ n = omega arith in rw (at, all) refl
bytes_at-append (suc m) n off d =
    let at : off + suc m ≡ off + 1 + m = omega arith in
    let all : suc m + n ≡ suc (m + n) = omega arith in
    rw (at, all) (ap (λ xs. d off ∷ xs) (bytes_at-append m n (off + 1) d))

-- A first part out of one block, and the rest out of those after it.
bytes_at-held :
    (c : ℕ → ℕ → ℕ) (x : ℕ) (xs : List ℕ) (off size : ℕ)
    → off < block_size
    → bytes_at (min (block_size - off) size) off (c x)
        ++ bytes_at (size - min (block_size - off) size) 0 (held c xs)
      ≡ bytes_at size off (held c (x ∷ xs))
unfolding held
bytes_at-held c x xs off size h =
    let n = min (block_size - off) size in
    let here : bytes_at n off (c x) ≡ bytes_at n off (held c (x ∷ xs)) =
      bytes_at-eq n off off (c x) (held c (x ∷ xs))
        (λ j l. let low : ltb (off + j) 512 ≡ true = ground (arith, l, h) in rw low refl) in
    let there : bytes_at (size - n) 0 (held c xs)
        ≡ bytes_at (size - n) (off + n) (held c (x ∷ xs)) =
      bytes_at-eq (size - n) 0 (off + n) (held c xs) (held c (x ∷ xs)) (λ j l.
        let high : ltb (off + n + j) 512 ≡ false = ground (arith, l, h) in
        let at : off + n + j - 512 ≡ 0 + j = omega (arith, l, h) in rw (high, at) refl) in
    let all : n + (size - n) ≡ size = omega arith in
    rw (here, there)
      (bytes_at-append n (size - n) off (held c (x ∷ xs))
        ∙ ap (λ s. bytes_at s off (held c (x ∷ xs))) all)

read_loop_lem :
    (n : ℕ) (fs : Ramfs) (b : ℕ) (bs : List ℕ) (off size : ℕ)
    → size ≤ n
    → Chained fs b bs
    → off < block_size
    → off + size ≤ block_size * length bs
    → read_loop n fs b off size ≡ ok (bytes_at size off (held fs.content bs))
unfolding read_loop bytes_at
read_loop_lem zero fs b bs off size l h o s = let e : size ≡ 0 = omega arith in rw e refl
read_loop_lem (suc n) fs b bs off zero l h o s = refl
read_loop_lem (suc n) fs b [] off (suc size) l h o s = absurd (omega arith)
read_loop_lem (suc n) fs b (x ∷ xs) off (suc size) l h o s =
    let rest =
      read_loop_lem n fs (fs.next_block x) xs 0 (suc size - min (512 - off) (suc size))
        (omega arith) h.4 (omega arith) (omega arith) in
    let some_left : (suc size == 0) ≡ false = ground arith in
    let there : (x == no_block) ≡ false = ground (arith, h.1) in
    let inside : leb max_blocks x ≡ false = ground (arith, h.1) in
    rw (h.0, some_left, there, inside, rest)
      (ap ok (bytes_at-held fs.content x xs off (suc size) o))

skip_blocks_lem :
    (n : ℕ) (fs : Ramfs) (b : ℕ) (bs : List ℕ) (off : ℕ)
    → Chained fs b bs
    → block_size * n ≤ off
    → off < block_size * length bs
    → (b' : ℕ) × (bs' : List ℕ) × (skip_blocks n fs b off ≡ ok (b', off - block_size * n))
      × Chained fs b' bs'
      × (length bs ≡ n + length bs')
      × ((j : ℕ) → held fs.content bs' j ≡ held fs.content bs (block_size * n + j))
unfolding skip_blocks held
skip_blocks_lem zero fs b bs off h l u =
    let same : off - 512 * 0 ≡ off = omega arith in
    (
      b,
      bs,
      rw same refl,
      h,
      omega arith,
      λ j. ap (held fs.content bs) {y = 512 * 0 + j} (omega arith),
    )
skip_blocks_lem (suc n) fs b [] off h l u = absurd (omega arith)
skip_blocks_lem (suc n) fs b (x ∷ xs) off h l u =
    let (b', bs', e, c, len, same) =
      skip_blocks_lem n fs (fs.next_block x) xs (off - 512) h.4 (omega arith) (omega arith) in
    let there : (ltb off 512 || (x == no_block)) ≡ false = ground (arith, h.1, l) in
    let inside : leb max_blocks x ≡ false = ground (arith, h.1) in
    let left : off - 512 - 512 * n ≡ off - 512 * suc n = omega arith in
    (
      b',
      bs',
      rw (h.0, there, inside) (e ∙ rw left refl),
      c,
      omega (arith, len),
      λ j.
          let past : ltb (512 * suc n + j) 512 ≡ false = ground arith in
          let at : 512 * suc n + j - 512 ≡ 512 * n + j = omega arith in same j ∙ rw (past, at) refl,
    )

-- A file: its blocks are those of the list, and hold as many bytes as its size says at least.
pub record FileAt (fs : Ramfs) (node : ℕ) (bs : List ℕ) : Type 0 where
  pub file : is_file (fs.nodes node).type ≡ true
  pub chained : Chained fs (fs.nodes node).first_block bs
  pub covered : (fs.nodes node).size ≤ block_size * length bs

-- The read of a file from an offset, for numbers of bytes that do not wrap around with the offset, gives
-- exactly the bytes that the file holds there, up to its size; from its size on none.
pub ramfs_read_lem :
    (fs : Ramfs) (node : ℕ) (bs : List ℕ) (offset size : ℕ)
    → FileAt fs node bs
    → offset + size < 2 ^ 32
    → ramfs_read fs node offset size
      ≡ ok (some (bytes_at (min size ((fs.nodes node).size - offset)) offset (held fs.content bs)))
unfolding ramfs_read bytes_at
ramfs_read_lem fs node bs offset size f h = elim (Bool-cases (leb (fs.nodes node).size offset)) [
  | inl e ↦
      let none_left : min size ((fs.nodes node).size - offset) ≡ 0 = ground (arith, e) in
      rw (f.file, e, none_left) refl
  | inr e ↦
      let total = (fs.nodes node).size in
      let lt : offset < total = ground (arith, e) in
      let left : (if ltb total ((offset + size) % 2 ^ 32) then total - offset else size)
          ≡ min size (total - offset) =
        ground (arith, e, h) in
      let n = offset / 512 in
      let (b, bs', g, c, len, same) =
        skip_blocks_lem n fs (fs.nodes node).first_block bs offset f.chained (omega arith)
          (omega (arith, lt, f.covered)) in
      let count = min size (total - offset) in
      let loop =
        read_loop_lem count fs b bs' (offset - 512 * n) count (omega arith) c (omega arith)
          (omega (arith, lt, f.covered, len)) in
      let at : bytes_at count (offset - 512 * n) (held fs.content bs')
          ≡ bytes_at count offset (held fs.content bs) =
        bytes_at-eq count (offset - 512 * n) offset (held fs.content bs') (held fs.content bs)
          (λ j l. same (offset - 512 * n + j) ∙ ap (held fs.content bs) (omega arith)) in
      rw (f.file, e, left, g) (rw loop (rw at refl))
]
