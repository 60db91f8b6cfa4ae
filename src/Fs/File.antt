-- ===== src/Fs/File.antt =====
-- `ramfs_write` as a whole, and a read of what it wrote.
use simple_os.Prelude.{
  ℕ, zero, suc, ◌+◌, ◌-◌, ◌/◌, ◌^◌, ◌≤◌, ◌<◌, ◌≡◌, ◌≢◌, refl, sym, ap, subst, ◌∙◌, inl, inr, ◌==◌,
  max, min, if◌then◌else◌, true, false, List, [], ◌∷◌, ◌++◌, length, length-set, get_or, take,
  Option, none, some, arith, ok, returned,
}
use simple_os.Fs.{
  Ramfs, max_blocks, no_block, set_node, is_file, taken, take_block, allocate_block, bytes_at,
  ramfs_write, ramfs_read,
}
use simple_os.Fs.Chain.{held}
use simple_os.Fs.Read.{FileAt, bytes_at-eq, ramfs_read_lem}
use simple_os.Fs.Grow.{Full, allocate_block_lem, taken-take_block}
use simple_os.Fs.From.{write_from}
use simple_os.Fs.Touched.{Touched, Saved, write_known, written_to}

-- A file without blocks, which has been given one.
opened : Ramfs → ℕ → ℕ → Ramfs
opened fs node i = set_node (take_block fs i) node (record (fs.nodes node) { first_block = i })

opened-Saved :
    (fs q : Ramfs) (node i : ℕ) (offset : ℕ) (buffer : List ℕ) (o : Option ℕ) (ext : List ℕ)
    → Saved (opened fs node i) node (i ∷ []) offset buffer o q ext
    → Saved fs node [] offset buffer o q (i ∷ ext)
unfolding opened
opened-Saved fs q node i offset buffer none ext s =
    let here : (node == node) ≡ true = ground arith in
    let at : (opened fs node i).nodes node ≡ record (fs.nodes node) { first_block = i } =
      rw here refl in
    (s.0, s.1 ∙ ap (λ v. v.size) at, λ j l. absurd (omega arith))
opened-Saved fs q node i offset buffer (some k) ext s =
    let here : (node == node) ≡ true = ground arith in
    let at : (opened fs node i).nodes node ≡ record (fs.nodes node) { first_block = i } =
      rw here refl in
    (
      s.0,
      s.1,
      s.2 ∙ ap (λ v. max v.size (offset + k)) at,
      record {
        reached = s.3.reached;
        inside = s.3.inside;
        outside = λ j a h. absurd (omega arith);
      },
    )

opened-Touched :
    (fs q : Ramfs) (node i : ℕ) (offset : ℕ) (buffer : List ℕ) (o : Option ℕ) (ext : List ℕ)
    → length fs.free_blocks ≡ 32
    → i < max_blocks
    → taken fs.free_blocks i ≡ false
    → Touched (opened fs node i) node (i ∷ []) q ext
    → Saved (opened fs node i) node (i ∷ []) offset buffer o q ext
    → Touched fs node [] q (i ∷ ext) × Saved fs node [] offset buffer o q (i ∷ ext)
unfolding opened
opened-Touched fs q node i offset buffer o ext w l f t s =
    let bits : (j : ℕ)
        → taken (take_block fs i).free_blocks j
          ≡ (if j == i then true else taken fs.free_blocks j) =
      λ j. taken-take_block fs i j (omega (arith, w)) in
    let here : (node == node) ≡ true = ground arith in
    (
      record {
        file = t.file;
        words = t.words;
        others =
            λ n h. (let no : (n == node) ≡ false = ground (arith, h) in t.others n h ∙ rw no refl);
        still = λ c h. t.still c (ground (arith, bits c, h));
        kept = λ c h _.
            let off : c ≢ i = λ e. cc (h, f, ap (taken fs.free_blocks) e) in
            let no : (c == i) ≡ false = ground (arith, off) in
            let (d, n) = t.kept c (ground (arith, bits c, h)) (off, tt) in (d, n ∙ rw no refl);
        fresh = λ c k. elim k [ inl e ↦ rw e f | inr m ↦ ground (arith, bits c, t.fresh c m) ];
      },
      opened-Saved fs q node i offset buffer o ext s,
    )

opened-FileAt :
    (fs : Ramfs) (node i : ℕ)
    → length fs.free_blocks ≡ 32
    → i < max_blocks
    → FileAt fs node []
    → FileAt (opened fs node i) node (i ∷ [])
unfolding opened
opened-FileAt fs node i w l f =
    let here : (node == node) ≡ true = ground arith in
    let at : (opened fs node i).nodes node ≡ record (fs.nodes node) { first_block = i } =
      rw here refl in
    let self : (i == i) ≡ true = ground arith in
    record {
      file = ap (λ v. is_file v.type) at ∙ f.file;
      chained = (
        ap (λ v. v.first_block) at,
        l,
        ground (arith, taken-take_block fs i i (omega (arith, w))),
        tt,
        rw self refl,
      );
      covered = omega (arith, ap (λ v. v.size) at, f.covered);
    }

write_opened :
    (fs q : Ramfs) (node i : ℕ) (offset : ℕ) (buffer : List ℕ)
    → is_file (fs.nodes node).type ≡ true
    → (fs.nodes node).first_block ≡ no_block
    → allocate_block fs ≡ (i, q)
    → ramfs_write fs node offset buffer ≡ (
        let p = set_node q node (record (fs.nodes node) { first_block = i }) in
        if i == no_block then ok (none, p) else write_from p node i offset buffer)
unfolding ramfs_write
write_opened fs q node i offset buffer f e a = rw (f, e, a) refl

-- A file without blocks where no block is free.
unopened :
    (fs : Ramfs) (node : ℕ) (offset : ℕ) (buffer : List ℕ)
    → length fs.free_blocks ≡ 32
    → FileAt fs node []
    → Full fs
    → (let p = set_node fs node (record (fs.nodes node) { first_block = no_block }) in
        Touched fs node [] p [] × Saved fs node [] offset buffer none p [])
unopened fs node offset buffer w f full =
    let here : (node == node) ≡ true = ground arith in
    let p = set_node fs node (record (fs.nodes node) { first_block = no_block }) in
    let at : p.nodes node ≡ record (fs.nodes node) { first_block = no_block } = rw here refl in
    (
      record {
        file = record {
          file = ap (λ v. is_file v.type) at ∙ f.file;
          chained = ap (λ v. v.first_block) at;
          covered = omega (arith, ap (λ v. v.size) at, f.covered);
        };
        words = w;
        others = λ n h. (let no : (n == node) ≡ false = ground (arith, h) in rw no refl);
        still = λ c t. t;
        kept = λ c t a. (refl, refl);
        fresh = λ c k. absurd k;
      },
      (full, ap (λ v. v.size) at, λ j l. refl),
    )

-- A write to a file, at an offset with which it does not wrap around, returns. The result is -1 only if no
-- block is left, and the file then holds what it held; otherwise it is the number of bytes written, all of
-- the buffer unless no block is left. These bytes are in the file at the offset, what else the file held
-- has stayed, and its size is the larger of the old size and the end of the write. The blocks that the file
-- gets were free, and no other file and no other block in use has changed.
pub ramfs_write_lem :
    (fs : Ramfs) (node : ℕ) (bs : List ℕ) (offset : ℕ) (buffer : List ℕ)
    → length fs.free_blocks ≡ 32
    → offset + length buffer < 2 ^ 32
    → FileAt fs node bs
    → (o : Option ℕ) × (q : Ramfs) × (ext : List ℕ) × (ramfs_write fs node offset buffer
        ≡ ok (o, q))
      × Touched fs node bs q ext
      × Saved fs node bs offset buffer o q ext
unfolding opened
ramfs_write_lem fs node (x ∷ xs) offset buffer w h f =
    let there : (x == no_block) ≡ false = ground (arith, f.chained.1) in
    let (o, q, ext, e, t, s) = written_to fs node x xs offset buffer w h f in
    (o, q, ext, write_known fs node x offset buffer f.file f.chained.0 there ∙ e, t, s)
ramfs_write_lem fs node [] offset buffer w h f = elim (allocate_block_lem fs) [
  | inl (a, full) ↦
      let (t, s) = unopened fs node offset buffer w f full in
      (
        none,
        set_node fs node (record (fs.nodes node) { first_block = no_block }),
        [],
        write_opened fs fs node no_block offset buffer f.file f.chained a,
        t,
        s,
      )
  | inr (i, a, l, free, _) ↦
      let there : (i == no_block) ≡ false = ground (arith, l) in
      let p : Ramfs = opened fs node i in
      let (o, q, ext, e, t, s) =
        written_to p node i [] offset buffer (length-set fs.free_blocks (i / 32) _ ∙ w) h
          (opened-FileAt fs node i w l f) in
      let (t', s') = opened-Touched fs q node i offset buffer o ext w l free t s in
      (
        o,
        q,
        i ∷ ext,
        write_opened fs (take_block fs i) node i offset buffer f.file f.chained a ∙ rw there e,
        t',
        s',
      )
]

bytes_at-take :
    (k : ℕ) (buffer : List ℕ)
    → k ≤ length buffer
    → bytes_at k 0 (λ j. get_or buffer j 0) ≡ take k buffer
unfolding bytes_at
bytes_at-take zero buffer h = refl
bytes_at-take (suc k) [] h = absurd (omega arith)
bytes_at-take (suc k) (x ∷ xs) h =
    ap (λ rest. x ∷ rest)
      (bytes_at-eq k 1 0 (λ j. get_or (x ∷ xs) j 0) (λ j. get_or xs j 0)
          (λ j l. let at : 1 + j ≡ suc (0 + j) = omega arith in rw at refl)
        ∙ bytes_at-take k xs (omega arith))

-- What a write reports to have written to a file is what a read of as many bytes at the offset gives.
pub ramfs_read-ramfs_write :
    (fs : Ramfs) (node : ℕ) (bs : List ℕ) (offset : ℕ) (buffer : List ℕ) (k : ℕ) (q : Ramfs)
    → length fs.free_blocks ≡ 32
    → offset + length buffer < 2 ^ 32
    → FileAt fs node bs
    → ramfs_write fs node offset buffer ≡ ok (some k, q)
    → ramfs_read q node offset k ≡ ok (some (take k buffer))
ramfs_read-ramfs_write fs node bs offset buffer k q w h f e =
    let (o, r, ext, g, t, s) = ramfs_write_lem fs node bs offset buffer w h f in
    let same : (o, r) ≡ (some k, q) = ap (returned (o, r)) (sym g ∙ e) in
    let (touched, saved) =
      subst
        (λ ((o, r) : Option ℕ × Ramfs).
          Touched fs node bs r ext × Saved fs node bs offset buffer o r ext)
        same (t, s) in
    let room : min k ((q.nodes node).size - offset) ≡ k = omega (arith, saved.2) in
    let low : offset + k < 2 ^ 32 = omega (arith, saved.0) in
    ramfs_read_lem q node (bs ++ ext) offset k touched.file low
    ∙ rw room (
        ap (λ bytes. ok (some bytes))
          (bytes_at-eq k offset 0 (held q.content (bs ++ ext)) (λ j. get_or buffer j 0)
              (λ j l.
                saved.3.inside (offset + j) (omega arith) (omega arith)
                ∙ ap (λ i. get_or buffer i 0) {y = 0 + j} (omega arith))
            ∙ bytes_at-take k buffer saved.0))
