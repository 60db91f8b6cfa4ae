-- ===== src/Fs/Skip.antt =====
-- The loop of `ramfs_write` that skips to the block of an offset, and the chain in front of that block.
use simple_os.Prelude.{
  append_assoc, ℕ, zero, suc, ◌+◌, ◌-◌, ◌*◌, ◌≤◌, ◌<◌, ◌≡◌, refl, sym, ap, subst, ◌∙◌, ◌⊎◌, inl,
  inr, ltb, ◌==◌, false, List, [], ◌∷◌, ◌++◌, length, get_or, arith, Bool-cases, ok,
}
use simple_os.Fs.{Ramfs, block_size, max_blocks, no_block, skip_write, next_or_new}
use simple_os.Fs.Chain.{Chained, held}
use simple_os.Fs.Grow.{Full, Grown, Grown-cons, Grown-refl, next_or_new_lem}
use simple_os.Fs.Patch.{Stored}
use simple_os.Fs.Write.{Copied, Grown-behind}

Stored-cons :
    (c d : ℕ → ℕ → ℕ) (x : ℕ) (bs bs' : List ℕ) (off : ℕ) (buffer : List ℕ) (k : ℕ)
    → d x ≡ c x
    → Stored c d bs bs' off buffer k
    → Stored c d (x ∷ bs) (x ∷ bs') (block_size + off) buffer k
unfolding held
Stored-cons c d x bs bs' off buffer k same s = record {
  reached = omega (arith, s.reached);
  inside = λ j a h.
      let high : ltb j 512 ≡ false = ground (arith, a) in
      let at : j - 512 - off ≡ j - (512 + off) = omega arith in
      rw high (s.inside (j - 512) (omega arith) (omega arith) ∙ ap (λ i. get_or buffer i 0) at);
  outside = λ j a h. elim (Bool-cases (ltb j 512)) [
    | inl e ↦ rw e (ap (λ f. f j) same)
    | inr e ↦ rw e (s.outside (j - 512) (ground (arith, e, a)) (ground (arith, e, h)))
  ];
}

-- What is copied into a part of a chain is copied into the chain, behind the blocks in front of that part.
pub Copied-append :
    (fs q : Ramfs) (b : ℕ) (pre : List ℕ) (y : ℕ) (ys : List ℕ) (off : ℕ) (buffer : List ℕ) (k : ℕ)
    (ext : List ℕ)
    → Chained fs b (pre ++ (y ∷ ys))
    → Copied fs y (y ∷ ys) off buffer k q ext
    → Copied fs b (pre ++ (y ∷ ys)) (block_size * length pre + off) buffer k q ext
Copied-append fs q b [] y ys off buffer k ext c d =
    let at : 512 * 0 + off ≡ off = omega arith in rw (c.0, at) d
Copied-append fs q b (p ∷ pre) y ys off buffer k ext c d =
    let rest = Copied-append fs q (fs.next_block p) pre y ys off buffer k ext c.4 d in
    let at : 512 * suc (length pre) + off ≡ 512 + (512 * length pre + off) = omega arith in
    rw at record {
      bounded = rest.bounded;
      complete = rest.complete;
      grown = Grown-cons b p (pre ++ (y ∷ ys)) ext c rest.grown;
      stored =
          Stored-cons fs.content q.content p (pre ++ (y ∷ ys)) ((pre ++ (y ∷ ys)) ++ ext)
            (512 * length pre + off) buffer k (rest.grown.kept p c.2 c.3).0 rest.stored;
    }

-- Where the loop ends: at the block of the offset, after `n` others, or without a free block.
abbrev pub Arrived : Ramfs → List ℕ → ℕ → ℕ → Type 0
Arrived q blocks n y =
    ((y ≡ no_block) × Full q)
    ⊎ ((pre : List ℕ) × (ys : List ℕ) × (blocks ≡ pre ++ (y ∷ ys))
        × (length pre ≡ n)
        × (y < max_blocks)
        × Chained q y (y ∷ ys))

skip_more :
    (n : ℕ) (fs q r : Ramfs) (x off y z off' : ℕ)
    → ltb off block_size ≡ false
    → next_or_new fs x ≡ ok (y, q)
    → (y == no_block) ≡ false
    → skip_write n q y (off - block_size) ≡ ok (z, off', r)
    → skip_write (suc n) fs x off ≡ ok (z, off', r)
unfolding skip_write
skip_more n fs q r x off y z off' e g there f = rw (e, g) (rw there f)

pub skip_write_lem :
    (n : ℕ) (fs : Ramfs) (x : ℕ) (xs : List ℕ) (off : ℕ)
    → length fs.free_blocks ≡ 32
    → block_size * n ≤ off
    → Chained fs x (x ∷ xs)
    → (y : ℕ) × (off' : ℕ) × (q : Ramfs) × (ext : List ℕ) × (skip_write n fs x off
        ≡ ok (y, off', q))
      × Grown fs q x (x ∷ xs) ext
      × (q.content ≡ fs.content)
      × ((off' ≡ off - block_size * n) ⊎ (y ≡ no_block))
      × Arrived q ((x ∷ xs) ++ ext) n y
unfolding skip_write
skip_write_lem zero fs x xs off w l c = (
  x,
  off,
  fs,
  [],
  refl,
  Grown-refl fs x (x ∷ xs) c,
  refl,
  inl (omega arith),
  inr ([], xs ++ [], refl, refl, c.1, (Grown-refl fs x (x ∷ xs) c).chain),
)
skip_write_lem (suc n) fs x xs off w l c =
    let far : ltb off 512 ≡ false = ground (arith, l) in
    elim (next_or_new_lem fs x x xs w c) [
      | inl (g, nil, full) ↦ (
        no_block,
        off,
        fs,
        [],
        rw (far, g) refl,
        Grown-refl fs x (x ∷ xs) c,
        refl,
        inr refl,
        inl (refl, full),
      )
      | inr (y, ys, q, e1, g, inside, joined, g1, same) ↦
          let there : (y == no_block) ≡ false = ground (arith, inside) in
          let cq : Chained q x (x ∷ y ∷ ys) = subst (λ zs. Chained q x (x ∷ zs)) joined g1.chain in
          let (z, off', r, e2, f, d, kept, at, arrived) =
            skip_write_lem n q y ys (off - 512) (g1.words ∙ w) (omega arith)
              (refl, cq.4.1, cq.4.2, cq.4.3, cq.4.4) in
          let blocks : xs ++ (e1 ++ e2) ≡ (y ∷ ys) ++ e2 =
            sym (append_assoc xs e1 e2) ∙ ap (λ zs. zs ++ e2) joined in
          (
            z,
            off',
            r,
            e1 ++ e2,
            skip_more n fs q r x off y z off' far g there f,
            Grown-behind fs fs q r x y xs ys e1 e2 (Grown-refl fs x (x ∷ xs) c) g1 joined cq d,
            kept ∙ same,
            elim at [ inl e ↦ inl (omega (arith, e)) | inr e ↦ inr e ],
            elim arrived [
              | inl full ↦ inl full
              | inr (pre, zs, here, len, low, chain) ↦
                  inr (x ∷ pre, zs, ap (λ zs. x ∷ zs) (blocks ∙ here), ap suc len, low, chain)
            ],
          )
    ]
