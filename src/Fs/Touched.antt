-- ===== src/Fs/Touched.antt =====
-- What `ramfs_write` leaves of a file that has blocks: its node, its size and its blocks.
use simple_os.Prelude.{
  ℕ, ◌+◌, ◌*◌, ◌%◌, ◌^◌, ◌≤◌, ◌<◌, ◌≡◌, ◌≢◌, refl, sym, ap, subst, ◌∙◌, ◌⊎◌, inl, inr, ltb, ◌==◌,
  max, if◌then◌else◌, true, false, List, [], ◌∷◌, ◌++◌, length, length-append, Option, none, some,
  arith, Bool-cases, ok, In, Away,
}
use simple_os.Fs.{Ramfs, Node, block_size, no_block, set_node, is_file, taken, grow, ramfs_write}
use simple_os.Fs.Chain.{Chained, held, held-append}
use simple_os.Fs.Read.{FileAt}
use simple_os.Fs.Grow.{Full, Grown}
use simple_os.Fs.Patch.{Stored}
use simple_os.Fs.From.{write_from, write_from_lem}

-- After a write to the file at `node`: it has the blocks `ext` more, which were free, and nothing else has
-- changed.
pub record Touched (fs : Ramfs) (node : ℕ) (bs : List ℕ) (q : Ramfs) (ext : List ℕ) : Type 0 where
  pub file : FileAt q node (bs ++ ext)
  pub words : length q.free_blocks ≡ 32
  pub others : (n : ℕ) → n ≢ node → q.nodes n ≡ fs.nodes n
  pub still : (c : ℕ) → taken fs.free_blocks c ≡ true → taken q.free_blocks c ≡ true
  pub kept :
      (c : ℕ)
      → taken fs.free_blocks c ≡ true
      → Away c bs
      → (q.content c ≡ fs.content c) × (q.next_block c ≡ fs.next_block c)
  pub fresh : (c : ℕ) → In c ext → taken fs.free_blocks c ≡ false

-- What a write has done, by its result.
abbrev pub Saved : Ramfs → ℕ → List ℕ → ℕ → List ℕ → Option ℕ → Ramfs → List ℕ → Type 0
Saved fs node bs offset buffer none q ext =
    Full q
    × ((q.nodes node).size ≡ (fs.nodes node).size)
    × ((j : ℕ) → j < block_size * length bs → held q.content (bs ++ ext) j ≡ held fs.content bs j)
Saved fs node bs offset buffer (some k) q ext =
    (k ≤ length buffer)
    × ((k ≡ length buffer) ⊎ Full q)
    × ((q.nodes node).size ≡ max (fs.nodes node).size (offset + k))
    × Stored fs.content q.content bs (bs ++ ext) offset buffer k

pub Touched-Grown :
    (fs q : Ramfs) (node x : ℕ) (xs ext : List ℕ)
    → length fs.free_blocks ≡ 32
    → FileAt fs node (x ∷ xs)
    → Grown fs q x (x ∷ xs) ext
    → Touched fs node (x ∷ xs) q ext
Touched-Grown fs q node x xs ext w f g = record {
  file = record {
    file = ap (λ ns. is_file (ns node).type) g.nodes ∙ f.file;
    chained =
        subst (λ b. Chained q b ((x ∷ xs) ++ ext))
          (sym (ap (λ ns. (ns node).first_block) g.nodes ∙ f.chained.0)) g.chain;
    covered =
        let same : (q.nodes node).size ≡ (fs.nodes node).size = ap (λ ns. (ns node).size) g.nodes in
        omega (arith, same, f.covered, length-append (x ∷ xs) ext);
  };
  words = g.words ∙ w;
  others = λ n h. ap (λ ns. ns n) g.nodes;
  still = g.still;
  kept = g.kept;
  fresh = g.fresh;
}

-- A larger size, as far as the blocks go.
Touched-size :
    (fs q : Ramfs) (node size : ℕ) (bs ext : List ℕ)
    → size ≤ block_size * length (bs ++ ext)
    → Touched fs node bs q ext
    → Touched fs node bs (set_node q node (record (q.nodes node) { size = size })) ext
Touched-size fs q node size bs ext l t =
    let here : (node == node) ≡ true = ground arith in
    let r : Ramfs = set_node q node (record (q.nodes node) { size = size }) in
    let at : r.nodes node ≡ record (q.nodes node) { size = size } = rw here refl in
    record {
      file = record {
        file = ap (λ v. is_file v.type) at ∙ t.file.file;
        chained =
            subst (λ b. Chained r b (bs ++ ext)) (sym (ap (λ v. v.first_block) at))
              (Chained-nodes q r.nodes (q.nodes node).first_block (bs ++ ext) t.file.chained);
        covered = omega (arith, l, ap (λ v. v.size) at);
      };
      words = t.words;
      others = λ n h. (let no : (n == node) ≡ false = ground (arith, h) in rw no (t.others n h));
      still = t.still;
      kept = t.kept;
      fresh = t.fresh;
    }
  where
    Chained-nodes :
        (q : Ramfs) (ns : ℕ → Node) (b : ℕ) (zs : List ℕ)
        → Chained q b zs
        → Chained (record q { nodes = ns }) b zs
    Chained-nodes q ns b [] h = h
    Chained-nodes q ns b (z ∷ zs) h =
        (h.0, h.1, h.2, h.3, Chained-nodes q ns (q.next_block z) zs h.4)

grown_size :
    (fs q : Ramfs) (node offset k : ℕ) (bs ext : List ℕ)
    → offset + k < 2 ^ 32
    → offset + k ≤ block_size * length (bs ++ ext)
    → Touched fs node bs q ext
    → Touched fs node bs (grow q node offset k) ext
      × (((grow q node offset k).nodes node).size ≡ max (q.nodes node).size (offset + k))
      × ((grow q node offset k).content ≡ q.content)
      × ((grow q node offset k).free_blocks ≡ q.free_blocks)
grown_size fs q node offset k bs ext h l t =
    let here : (node == node) ≡ true = ground arith in
    let reached : (offset + k) % 2 ^ 32 ≡ offset + k = omega arith in
    elim (Bool-cases (ltb (q.nodes node).size (offset + k))) [
      | inl e ↦
          rw (reached, e)
            (
              Touched-size fs q node (offset + k) bs ext l t,
              rw here (ground (arith, e)),
              refl,
              refl,
            )
      | inr e ↦ rw (reached, e) (t, ground (arith, e), refl, refl)
    ]

pub write_known :
    (fs : Ramfs) (node x : ℕ) (offset : ℕ) (buffer : List ℕ)
    → is_file (fs.nodes node).type ≡ true
    → (fs.nodes node).first_block ≡ x
    → (x == no_block) ≡ false
    → ramfs_write fs node offset buffer ≡ write_from fs node x offset buffer
unfolding ramfs_write
write_known fs node x offset buffer f e there =
    let on : (if x == no_block then ok (none, fs) else write_from fs node x offset buffer)
        ≡ write_from fs node x offset buffer =
      rw there refl in
    rw (f, e, there) on

pub written_to :
    (p : Ramfs) (node x : ℕ) (xs : List ℕ) (offset : ℕ) (buffer : List ℕ)
    → length p.free_blocks ≡ 32
    → offset + length buffer < 2 ^ 32
    → FileAt p node (x ∷ xs)
    → (o : Option ℕ) × (q : Ramfs) × (ext : List ℕ) × (write_from p node x offset buffer
        ≡ ok (o, q))
      × Touched p node (x ∷ xs) q ext
      × Saved p node (x ∷ xs) offset buffer o q ext
written_to p node x xs offset buffer w h f =
    let c : Chained p x (x ∷ xs) = (refl, f.chained.1, f.chained.2, f.chained.3, f.chained.4) in
    elim (write_from_lem p node x xs offset buffer w c) [
      | inl (q, ext, e, g, same, full) ↦ (
        none,
        q,
        ext,
        e,
        Touched-Grown p q node x xs ext w f g,
        (
          full,
          ap (λ ns. (ns node).size) g.nodes,
          λ j l.
              let low : ltb j (512 * length (x ∷ xs)) ≡ true = ground (arith, l) in
              ap (λ d. held d ((x ∷ xs) ++ ext) j) same
              ∙ held-append p.content (x ∷ xs) ext j
              ∙ rw low refl,
        ),
      )
      | inr (k, q, ext, e, d) ↦
          let t = Touched-Grown p q node x xs ext w f d.grown in
          let (t', size, same, bits) =
            grown_size p q node offset k (x ∷ xs) ext (omega (arith, d.bounded)) d.stored.reached
              t in
          (
            some k,
            grow q node offset k,
            ext,
            e,
            t',
            (
              d.bounded,
              elim d.complete [
                | inl all ↦ inl all
                | inr full ↦ inr (λ i l. ap (λ bm. taken bm i) bits ∙ full i l)
              ],
              size ∙ ap (λ ns. max (ns node).size (offset + k)) d.grown.nodes,
              subst (λ c. Stored p.content c (x ∷ xs) ((x ∷ xs) ++ ext) offset buffer k) (sym same)
                  d.stored,
            ),
          )
    ]
