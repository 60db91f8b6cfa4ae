-- ===== src/Fs/From.antt =====
-- `ramfs_write` once the file has a first block: the skip and the copy together.
use simple_os.Prelude.{
  append_assoc, ℕ, ◌+◌, ◌-◌, ◌*◌, ◌/◌, ◌≡◌, refl, sym, ap, subst, ◌∙◌, ◌⊎◌, inl, inr, ltb, ◌==◌,
  if◌then◌else◌, true, false, List, ◌∷◌, ◌++◌, length, length-append, Option, none, some, arith,
  Run, ok, ◌>>=◌,
}
use simple_os.Fs.{Ramfs, block_size, no_block, skip_write, write_loop, grow}
use simple_os.Fs.Chain.{Chained, held, held-append}
use simple_os.Fs.Grow.{Full, Grown, Grown-trans}
use simple_os.Fs.Patch.{Stored}
use simple_os.Fs.Write.{Copied, write_loop_lem}
use simple_os.Fs.Skip.{Copied-append, skip_write_lem}

-- `ramfs_write` from its first block on.
abbrev pub write_from : Ramfs → ℕ → ℕ → ℕ → List ℕ → Run (Option ℕ × Ramfs)
write_from p node first offset buffer =
    skip_write (offset / block_size) p first offset >>= λ (block, off, q).
    if block == no_block
    then ok (none, q)
    else write_loop (length buffer) q block off buffer >>= λ (written, r).
        ok (some written, grow r node offset written)

write_from-skipped :
    (p q : Ramfs) (node x offset off : ℕ) (buffer : List ℕ)
    → skip_write (offset / block_size) p x offset ≡ ok (no_block, off, q)
    → write_from p node x offset buffer ≡ ok (none, q)
write_from-skipped p q node x offset off buffer e = rw e refl

write_from-written :
    (p q r : Ramfs) (node x y offset off k : ℕ) (buffer : List ℕ)
    → skip_write (offset / block_size) p x offset ≡ ok (y, off, q)
    → (y == no_block) ≡ false
    → write_loop (length buffer) q y off buffer ≡ ok (k, r)
    → write_from p node x offset buffer ≡ ok (some k, grow r node offset k)
write_from-written p q r node x y offset off k buffer e there f = rw e (rw (there, f) refl)

-- The chain was longer than thought: it had been grown by `e1`.
Stored-shorter :
    (c d e : ℕ → ℕ → ℕ) (bs e1 e2 : List ℕ) (off : ℕ) (buffer : List ℕ) (k : ℕ)
    → d ≡ c
    → Stored d e (bs ++ e1) ((bs ++ e1) ++ e2) off buffer k
    → Stored c e bs (bs ++ (e1 ++ e2)) off buffer k
Stored-shorter c d e bs e1 e2 off buffer k same s =
    let longer : Stored d e (bs ++ e1) (bs ++ (e1 ++ e2)) off buffer k =
      subst (λ zs. Stored d e (bs ++ e1) zs off buffer k) (append_assoc bs e1 e2) s in
    record {
      reached = longer.reached;
      inside = longer.inside;
      outside = λ j a h.
          let low : ltb j (512 * length bs) ≡ true = ground (arith, a) in
          longer.outside j (omega (arith, a, length-append bs e1)) h
          ∙ ap (λ f. held f (bs ++ e1) j) same
          ∙ held-append c bs e1 j
          ∙ rw low refl;
    }

-- Either no block is free for the way to the offset, or `k` bytes are stored.
pub write_from_lem :
    (p : Ramfs) (node x : ℕ) (xs : List ℕ) (offset : ℕ) (buffer : List ℕ)
    → length p.free_blocks ≡ 32
    → Chained p x (x ∷ xs)
    → ((q : Ramfs) × (ext : List ℕ) × (write_from p node x offset buffer ≡ ok (none, q))
        × Grown p q x (x ∷ xs) ext
        × (q.content ≡ p.content)
        × Full q)
      ⊎ ((k : ℕ) × (q : Ramfs) × (ext : List ℕ) × (write_from p node x offset buffer
            ≡ ok (some k, grow q node offset k))
          × Copied p x (x ∷ xs) offset buffer k q ext)
write_from_lem p node x xs offset buffer w c =
    let n = offset / 512 in
    let (y, off, q, e1, f, g, same, at, arrived) =
      skip_write_lem n p x xs offset w (omega arith) c in
    elim arrived [
      | inl (nowhere, full) ↦ inl (
        q,
        e1,
        write_from-skipped p q node x offset off buffer (f ∙ ap (λ z. ok (z, off, q)) nowhere),
        g,
        same,
        full,
      )
      | inr (pre, ys, blocks, len, low, chain) ↦
          let there : (y == no_block) ≡ false = ground (arith, low) in
          let here : off ≡ offset - 512 * n = ground (arith, at, low) in
          let (k, r, e2, h, d) =
            write_loop_lem (length buffer) q y ys off buffer (omega arith) (omega (arith, here))
              (g.words ∙ w) chain in
          let place : 512 * length pre + off ≡ offset = omega (arith, len, here) in
          let whole : Copied q x ((x ∷ xs) ++ e1) offset buffer k r e2 =
            subst (λ o. Copied q x ((x ∷ xs) ++ e1) o buffer k r e2) place
              (subst (λ zs. Copied q x zs (512 * length pre + off) buffer k r e2) (sym blocks)
                (Copied-append q r x pre y ys off buffer k e2 (subst (Chained q x) blocks g.chain)
                  d)) in
          inr (
            k,
            r,
            e1 ++ e2,
            write_from-written p q r node x y offset off k buffer f there h,
            record {
              bounded = whole.bounded;
              complete = whole.complete;
              grown = Grown-trans x (x ∷ xs) e1 e2 g whole.grown;
              stored =
                  Stored-shorter p.content q.content r.content (x ∷ xs) e1 e2 offset buffer k same
                    whole.stored;
            },
          )
    ]
