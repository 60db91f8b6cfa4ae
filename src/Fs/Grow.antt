-- ===== src/Fs/Grow.antt =====
-- How a chain of blocks grows: `allocate_block` and the calls that link its blocks.
use simple_os.Prelude.{
  append_assoc, append_nil, ℕ, zero, suc, ◌+◌, ◌*◌, ◌/◌, ◌%◌, ◌^◌, ◌≤◌, ◌<◌, ◌≡◌, ◌≢◌, refl, sym,
  ap, subst, ◌∙◌, ◌⊎◌, inl, inr, leb, ◌==◌, if◌then◌else◌, true, false, List, [], ◌∷◌, ◌++◌, length,
  length-set, get_or, bit_or, has_bit-eq-bit, bit-bit_or, bit-two_pow, Option, none, some, arith,
  Bool-cases, ok, In, Away, Away-all, Away-append,
}
use simple_os.Pmm.View.{used, used-set}
use simple_os.Fs.{
  Ramfs, max_blocks, no_block, put, taken, find_block, take_block, allocated, allocate_block,
  next_or_new,
}
use simple_os.Fs.Chain.{Chained}

-- The bitmap of blocks is one of bits, like that of pages.
taken-used : (bm : List ℕ) (i : ℕ) → taken bm i ≡ used bm i
unfolding taken used
taken-used bm i = has_bit-eq-bit (i % 32) (get_or bm (i / 32) no_block)

pub taken-take_block :
    (fs : Ramfs) (i j : ℕ)
    → i < 32 * length fs.free_blocks
    → taken (take_block fs i).free_blocks j ≡ (if j == i then true else taken fs.free_blocks j)
unfolding used
taken-take_block fs i j h = ground (
  arith,
  taken-used (take_block fs i).free_blocks j,
  taken-used fs.free_blocks j,
  used-set fs.free_blocks (i / 32) (bit_or (get_or fs.free_blocks (i / 32) no_block) (2 ^ (i % 32)))
      j,
  bit-bit_or (j % 32) (get_or fs.free_blocks (i / 32) no_block) (2 ^ (i % 32)),
  bit-two_pow (j % 32) (i % 32),
)

abbrev FindsFree : List ℕ → ℕ → ℕ → Option ℕ → Type 0
FindsFree bm n i none = (j : ℕ) → i ≤ j → j < i + n → taken bm j ≡ true
FindsFree bm n i (some k) =
    (i ≤ k) × (k < i + n) × (taken bm k ≡ false) × ((j : ℕ) → i ≤ j → j < k → taken bm j ≡ true)

from_next :
    (bm : List ℕ) (n i : ℕ) (o : Option ℕ)
    → taken bm i ≡ true
    → FindsFree bm n (i + 1) o
    → FindsFree bm (suc n) i o
from_next bm n i none e h = λ j a b. elim (Bool-cases (j == i)) [
  | inl s ↦ (let same : j ≡ i = ground (arith, s) in rw same e)
  | inr s ↦ h j (ground (arith, s)) (omega arith)
]
from_next bm n i (some k) e h = (
  omega arith,
  omega arith,
  h.2,
  λ j a b. elim (Bool-cases (j == i)) [
    | inl s ↦ (let same : j ≡ i = ground (arith, s) in rw same e)
    | inr s ↦ h.3 j (ground (arith, s)) b
  ],
)

find_block_lem : (bm : List ℕ) (n i : ℕ) → FindsFree bm n i (find_block bm n i)
unfolding find_block
find_block_lem bm zero i = λ j a b. absurd (omega arith)
find_block_lem bm (suc n) i = elim (Bool-cases (taken bm i)) [
  | inl e ↦ rw e (from_next bm n i (find_block bm n (i + 1)) e (find_block_lem bm n (i + 1)))
  | inr e ↦ rw e (omega arith, omega arith, e, λ j a b. absurd (omega arith))
]

abbrev pub Full : Ramfs → Type 0
Full fs = (i : ℕ) → i < max_blocks → taken fs.free_blocks i ≡ true

-- `allocate_block` takes the first free block, which it makes the end of a chain; or it returns -1 and
-- changes nothing, and no block is free.
pub allocate_block_lem :
    (fs : Ramfs)
    → ((allocate_block fs ≡ (no_block, fs)) × Full fs)
      ⊎ ((i : ℕ) × (allocate_block fs ≡ (i, take_block fs i))
          × (i < max_blocks)
          × (taken fs.free_blocks i ≡ false)
          × ((j : ℕ) → j < i → taken fs.free_blocks j ≡ true))
unfolding allocate_block
allocate_block_lem fs =
    go (find_block fs.free_blocks max_blocks 0) (find_block_lem fs.free_blocks max_blocks 0)
  where
    go :
        (o : Option ℕ)
        → FindsFree fs.free_blocks max_blocks 0 o
        → ((allocated fs o ≡ (no_block, fs)) × Full fs)
          ⊎ ((i : ℕ) × (allocated fs o ≡ (i, take_block fs i))
              × (i < max_blocks)
              × (taken fs.free_blocks i ≡ false)
              × ((j : ℕ) → j < i → taken fs.free_blocks j ≡ true))
    go none h = inl (refl, λ i l. h i (omega arith) (omega arith))
    go (some k) h = inr (k, refl, omega (arith, h.1), h.2, λ j l. h.3 j (omega arith) l)

-- From `fs` to `q` the chain from `b` has been written to and grown by the blocks `ext`, which were free.
pub record Grown (fs q : Ramfs) (b : ℕ) (bs ext : List ℕ) : Type 0 where
  pub nodes : q.nodes ≡ fs.nodes
  pub words : length q.free_blocks ≡ length fs.free_blocks
  pub still : (c : ℕ) → taken fs.free_blocks c ≡ true → taken q.free_blocks c ≡ true
  pub kept :
      (c : ℕ)
      → taken fs.free_blocks c ≡ true
      → Away c bs
      → (q.content c ≡ fs.content c) × (q.next_block c ≡ fs.next_block c)
  pub fresh : (c : ℕ) → In c ext → taken fs.free_blocks c ≡ false
  pub chain : Chained q b (bs ++ ext)

Away-fresh :
    (fs : Ramfs) (c : ℕ) (ext : List ℕ)
    → taken fs.free_blocks c ≡ true
    → ((d : ℕ) → In d ext → taken fs.free_blocks d ≡ false)
    → Away c ext
Away-fresh fs c ext h f = Away-all c ext (λ d k e. cc (h, f d k, ap (taken fs.free_blocks) e))

In-append : (c : ℕ) (xs ys : List ℕ) → In c (xs ++ ys) → In c xs ⊎ In c ys
In-append c [] ys h = inr h
In-append c (x ∷ xs) ys (inl e) = inl (inl e)
In-append c (x ∷ xs) ys (inr h) = elim (In-append c xs ys h) [ inl k ↦ inl (inr k) | inr k ↦ inr k ]

pub Grown-trans :
    {fs q r : Ramfs} (b : ℕ) (bs e1 e2 : List ℕ)
    → Grown fs q b bs e1
    → Grown q r b (bs ++ e1) e2
    → Grown fs r b bs (e1 ++ e2)
Grown-trans {fs} {q} {r} b bs e1 e2 g h = record {
  nodes = h.nodes ∙ g.nodes;
  words = h.words ∙ g.words;
  still = λ c t. h.still c (g.still c t);
  kept = λ c t a.
      let one = g.kept c t a in
      let two = h.kept c (g.still c t) (Away-append c bs e1 a (Away-fresh fs c e1 t g.fresh)) in
      (two.0 ∙ one.0, two.1 ∙ one.1);
  fresh = λ c k. elim (In-append c e1 e2 k) [
    | inl l ↦ g.fresh c l
    | inr l ↦ elim (Bool-cases (taken fs.free_blocks c)) [
      | inl t ↦ absurd (ground (arith, h.fresh c l, g.still c t))
      | inr t ↦ t
    ]
  ];
  chain = subst (Chained r b) (append_assoc bs e1 e2) h.chain;
}

-- What grows behind a block, grows with the block in front.
pub Grown-cons :
    {fs q : Ramfs} (b x : ℕ) (xs ext : List ℕ)
    → Chained fs b (x ∷ xs)
    → Grown fs q (fs.next_block x) xs ext
    → Grown fs q b (x ∷ xs) ext
Grown-cons {fs} {q} b x xs ext c g = record {
  nodes = g.nodes;
  words = g.words;
  still = g.still;
  kept = λ d t a. g.kept d t a.1;
  fresh = g.fresh;
  chain =
      let next = (g.kept x c.2 c.3).1 in
      (
        c.0,
        c.1,
        g.still x c.2,
        Away-append x xs ext c.3 (Away-fresh fs x ext c.2 g.fresh),
        rw next g.chain,
      );
}

pub Grown-refl : (fs : Ramfs) (b : ℕ) (bs : List ℕ) → Chained fs b bs → Grown fs fs b bs []
Grown-refl fs b bs c = record {
  nodes = refl;
  words = refl;
  still = λ c t. t;
  kept = λ c t a. (refl, refl);
  fresh = λ c k. absurd k;
  chain = subst (Chained fs b) (sym (append_nil bs)) c;
}

-- A block taken and linked behind the last one of a chain.
linked :
    (fs : Ramfs) (b x i : ℕ)
    → length fs.free_blocks ≡ 32
    → i < max_blocks
    → taken fs.free_blocks i ≡ false
    → Chained fs b (x ∷ [])
    → Grown fs
        (record (take_block fs i) { next_block = put (take_block fs i).next_block x i })
        b
        (x ∷ [])
        (i ∷ [])
linked fs b x i w l f c =
    let off : (d : ℕ) → taken fs.free_blocks d ≡ true → d ≢ i =
      λ d t e. cc (t, f, ap (taken fs.free_blocks) e) in
    let apart : (x == i) ≡ false = ground (arith, off x c.2) in
    let apart' : (i == x) ≡ false = ground (arith, off x c.2) in
    let q : Ramfs = record (take_block fs i) {
      next_block = put (take_block fs i).next_block x i;
    } in
    let bits : (j : ℕ) → taken q.free_blocks j ≡ (if j == i then true else taken fs.free_blocks j) =
      λ j. taken-take_block fs i j (omega (arith, w)) in
    record {
      nodes = refl;
      words = length-set fs.free_blocks (i / 32) _;
      still = λ d t. ground (arith, bits d, t);
      kept = λ d t a.
          let no_x : (d == x) ≡ false = ground (arith, a.0) in
          let no_i : (d == i) ≡ false = ground (arith, off d t) in (refl, rw (no_x, no_i) refl);
      fresh = λ d k. elim k [ inl e ↦ rw e f | inr e ↦ absurd e ];
      chain = (
        c.0,
        c.1,
        ground (arith, bits x, c.2),
        (off x c.2, tt),
        (ground arith, l, ground (arith, bits i), tt, rw apart' (ground arith)),
      );
    }

-- The next block of a chain that is not empty: a block of the chain, a new one at its end, or none where
-- no block is free.
pub next_or_new_lem :
    (fs : Ramfs) (b x : ℕ) (xs : List ℕ)
    → length fs.free_blocks ≡ 32
    → Chained fs b (x ∷ xs)
    → ((next_or_new fs b ≡ ok (no_block, fs)) × (xs ≡ []) × Full fs)
      ⊎ ((y : ℕ) × (ys : List ℕ) × (q : Ramfs) × (ext : List ℕ) × (next_or_new fs b ≡ ok (y, q))
          × (y < max_blocks)
          × (xs ++ ext ≡ y ∷ ys)
          × Grown fs q b (x ∷ xs) ext
          × (q.content ≡ fs.content))
unfolding next_or_new
next_or_new_lem fs b x (y ∷ ys) w c =
    let inside : leb max_blocks x ≡ false = ground (arith, c.1) in
    let next = c.4.0 in
    let there : (y == no_block) ≡ false = ground (arith, c.4.1) in
    inr (
      y,
      ys,
      fs,
      [],
      rw (c.0, inside, next, there) refl,
      c.4.1,
      append_nil (y ∷ ys),
      Grown-refl fs b (x ∷ y ∷ ys) c,
      refl,
    )
next_or_new_lem fs b x [] w c =
    let inside : leb max_blocks x ≡ false = ground (arith, c.1) in
    elim (allocate_block_lem fs) [
      | inl (e, full) ↦ inl (rw (c.0, inside, c.4, e) refl, refl, full)
      | inr (i, e, l, f, _) ↦
          let there : (i == no_block) ≡ false = ground (arith, l) in
          inr (
            i,
            [],
            record (take_block fs i) { next_block = put (take_block fs i).next_block x i },
            i ∷ [],
            rw (c.0, inside, c.4, e) (rw there refl),
            l,
            refl,
            linked fs b x i w l f c,
            refl,
          )
    ]
