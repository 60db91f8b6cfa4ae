-- ===== src/Fs/Write.antt =====
-- The loop of `ramfs_write` that copies into the blocks, against what the file holds.
use simple_os.Prelude.{
  append_assoc, append_nil, ℕ, zero, suc, ◌+◌, ◌-◌, ◌≤◌, ◌<◌, ◌≡◌, refl, sym, ap, subst, ◌∙◌, ◌⊎◌,
  inl, inr, leb, ◌==◌, min, false, List, [], ◌∷◌, ◌++◌, length, length-drop, drop, arith,
  Bool-cases, ok,
}
use simple_os.Fs.{Ramfs, block_size, max_blocks, no_block, write_loop, next_or_new}
use simple_os.Fs.Chain.{Chained}
use simple_os.Fs.Grow.{Full, Grown, Grown-trans, Grown-cons, Grown-refl, next_or_new_lem}
use simple_os.Fs.Patch.{Stored, patched, patched-Grown, patched-Stored, then_Stored}

-- `buffer` is written to the chain from `b`, at an offset in its first block: `k` bytes of it, which are all
-- of them if a free block is left.
pub record Copied (fs : Ramfs) (b : ℕ) (bs : List ℕ) (off : ℕ) (buffer : List ℕ) (k : ℕ) (q : Ramfs)
    (ext : List ℕ) : Type 0 where
  pub bounded : k ≤ length buffer
  pub complete : (k ≡ length buffer) ⊎ Full q
  pub grown : Grown fs q b bs ext
  pub stored : Stored fs.content q.content bs (bs ++ ext) off buffer k

Copied-empty :
    (fs : Ramfs) (x : ℕ) (xs : List ℕ) (off : ℕ) (buffer : List ℕ)
    → Chained fs x (x ∷ xs)
    → off < block_size
    → length buffer ≡ 0
    → Copied fs x (x ∷ xs) off buffer 0 fs []
Copied-empty fs x xs off buffer c l e = record {
  bounded = omega arith;
  complete = inl (sym e);
  grown = Grown-refl fs x (x ∷ xs) c;
  stored = rw (append_nil (x ∷ xs)) record {
    reached = omega (arith, l);
    inside = λ j a h. absurd (omega arith);
    outside = λ j a h. refl;
  };
}

-- The blocks of both steps together.
pub Grown-behind :
    (fs p q r : Ramfs) (x y : ℕ) (xs ys e1 e2 : List ℕ)
    → Grown fs p x (x ∷ xs) []
    → Grown p q x (x ∷ xs) e1
    → xs ++ e1 ≡ y ∷ ys
    → Chained q x (x ∷ y ∷ ys)
    → Grown q r y (y ∷ ys) e2
    → Grown fs r x (x ∷ xs) (e1 ++ e2)
Grown-behind fs p q r x y xs ys e1 e2 g0 g1 joined c d =
    let to_q : Grown fs q x (x ∷ xs) e1 =
      Grown-trans x (x ∷ xs) [] e1 g0
        (subst (λ zs. Grown p q x zs e1) (sym (append_nil (x ∷ xs))) g1) in
    let behind : Grown q r x (x ∷ y ∷ ys) e2 =
      Grown-cons x x (y ∷ ys) e2 c (subst (λ z. Grown q r z (y ∷ ys) e2) (sym c.4.0) d) in
    Grown-trans x (x ∷ xs) e1 e2 to_q (subst (λ zs. Grown q r x (x ∷ zs) e2) (sym joined) behind)

-- One block is filled, and the rest is copied behind it.
Copied-behind :
    (fs q r : Ramfs) (x y off k : ℕ) (xs ys e1 e2 buffer : List ℕ)
    → Chained fs x (x ∷ xs)
    → off < block_size
    → block_size - off < length buffer
    → Grown (patched fs x off buffer) q x (x ∷ xs) e1
    → q.content ≡ (patched fs x off buffer).content
    → xs ++ e1 ≡ y ∷ ys
    → Copied q y (y ∷ ys) 0 (drop (block_size - off) buffer) k r e2
    → Copied fs x (x ∷ xs) off buffer (block_size - off + k) r (e1 ++ e2)
Copied-behind fs q r x y off k xs ys e1 e2 buffer c l n g1 same joined d =
    let cq : Chained q x (x ∷ y ∷ ys) = subst (λ zs. Chained q x (x ∷ zs)) joined g1.chain in
    let first = (d.grown.kept x cq.2 cq.3).0 in
    let blocks : (y ∷ ys) ++ e2 ≡ xs ++ (e1 ++ e2) =
      ap (λ zs. zs ++ e2) (sym joined) ∙ append_assoc xs e1 e2 in
    record {
      bounded = omega (arith, d.bounded, length-drop (512 - off) buffer);
      complete = elim d.complete [
        | inl e ↦ inl (omega (arith, e, length-drop (512 - off) buffer))
        | inr full ↦ inr full
      ];
      grown =
          Grown-behind fs (patched fs x off buffer) q r x y xs ys e1 e2
            (patched-Grown fs x x xs off buffer c) g1 joined cq d.grown;
      stored =
          subst (λ zs. Stored fs.content r.content (x ∷ xs) (x ∷ zs) off buffer (512 - off + k))
            blocks
            (then_Stored fs q r x x y off k xs ys e1 e2 buffer c l (omega arith) same joined first
              d.stored);
    }

-- One round that goes on.
write_more :
    (n : ℕ) (fs q r : Ramfs) (x y off k : ℕ) (buffer : List ℕ)
    → (length buffer == 0) ≡ false
    → leb max_blocks x ≡ false
    → (length buffer == min (block_size - off) (length buffer)) ≡ false
    → next_or_new (patched fs x off buffer) x ≡ ok (y, q)
    → (y == no_block) ≡ false
    → min (block_size - off) (length buffer) ≡ block_size - off
    → write_loop n q y 0 (drop (block_size - off) buffer) ≡ ok (k, r)
    → write_loop (suc n) fs x off buffer ≡ ok (block_size - off + k, r)
unfolding write_loop
write_more n fs q r x y off k buffer e here more g there filled f =
    rw (e, here, more, g) (rw (there, filled, f) refl)

pub write_loop_lem :
    (n : ℕ) (fs : Ramfs) (x : ℕ) (xs : List ℕ) (off : ℕ) (buffer : List ℕ)
    → length buffer ≤ n
    → off < block_size
    → length fs.free_blocks ≡ 32
    → Chained fs x (x ∷ xs)
    → (k : ℕ) × (q : Ramfs) × (ext : List ℕ) × (write_loop n fs x off buffer ≡ ok (k, q))
      × Copied fs x (x ∷ xs) off buffer k q ext
unfolding write_loop
write_loop_lem zero fs x xs off buffer u l w c =
    (0, fs, [], refl, Copied-empty fs x xs off buffer c l (omega arith))
write_loop_lem (suc n) fs x xs off buffer u l w c = elim (Bool-cases (length buffer == 0)) [
  | inl e ↦ (0, fs, [], rw e refl, Copied-empty fs x xs off buffer c l (ground (arith, e)))
  | inr e ↦
      let here : leb max_blocks x ≡ false = ground (arith, c.1) in
      let k0 = min (512 - off) (length buffer) in
      let p : Ramfs = patched fs x off buffer in
      let g0 = patched-Grown fs x x xs off buffer c in
      let s0 = patched-Stored fs x x xs off buffer c l in
      elim (Bool-cases (length buffer == k0)) [
        | inl all ↦ (
          k0,
          p,
          [],
          rw (e, here, all) refl,
          record {
            bounded = omega arith;
            complete = inl (ground (arith, all));
            grown = g0;
            stored = s0;
          },
        )
        | inr more ↦
            elim (next_or_new_lem p x x xs w (subst (Chained p x) (append_nil (x ∷ xs)) g0.chain)) [
              | inl (g, nil, full) ↦ (
                k0,
                p,
                [],
                rw (e, here, more, g) refl,
                record { bounded = omega arith; complete = inr full; grown = g0; stored = s0 },
              )
              | inr (y, ys, q, e1, g, inside, joined, g1, same) ↦
                  let long : 512 - off < length buffer = ground (arith, more) in
                  let filled : k0 ≡ 512 - off = omega arith in
                  let cq : Chained q x (x ∷ y ∷ ys) =
                    subst (λ zs. Chained q x (x ∷ zs)) joined g1.chain in
                  let (k, r, e2, f, d) =
                    write_loop_lem n q y ys 0 (drop (512 - off) buffer)
                      (omega (arith, length-drop (512 - off) buffer)) (omega arith) (g1.words ∙ w)
                      (refl, cq.4.1, cq.4.2, cq.4.3, cq.4.4) in
                  let there : (y == no_block) ≡ false = ground (arith, inside) in
                  (
                    512 - off + k,
                    r,
                    e1 ++ e2,
                    write_more n fs q r x y off k buffer e here more g there filled f,
                    Copied-behind fs q r x y off k xs ys e1 e2 buffer c l long g1 same joined d,
                  )
            ]
      ]
]
