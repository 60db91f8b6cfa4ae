-- ===== src/Kmalloc/Free.antt =====
-- `kfree` gives back exactly the block that it is given.
use simple_os.Prelude.{
  ℕ, zero, suc, ◌+◌, ◌-◌, ◌%◌, ◌^◌, ◌≤◌, ◌≡◌, ◌≢◌, refl, sym, ap, ap₂, ◌∙◌, subst, inl, inr, ◌==◌,
  ltb, leb, if◌then◌else◌, ◌||◌, Bool, true, false, ok, panic, List, [], ◌∷◌, ◌++◌, arith,
  Bool-cases, length,
}
use simple_os.Kmalloc.{
  Block, Heap, write, heap_start, heap_end, header_size, max_blocks, mark_free, kfree,
}
use simple_os.Kmalloc.Tiles.{after, Tiles, used, Tiles-le, Tiles-frame}
use simple_os.Kmalloc.Alloc.{IsHeap, bytes, bytes-le, length-le, bytes_insert, length_insert}
use simple_os.Kmalloc.Coalesce.{Merged, coalesce_free_blocks_lem}

front_of : List (ℕ × ℕ) → ℕ × ℕ
front_of [] = (0, 0)
front_of (x ∷ xs) = x

rest_of : List (ℕ × ℕ) → List (ℕ × ℕ)
rest_of [] = []
rest_of (x ∷ xs) = xs

abbrev unmarked : (ℕ → Block) → ℕ → ℕ → Block
unmarked f p = write f p (record (f p) { free = true })

unmarked-other : (f : ℕ → Block) (p x : ℕ) → x ≢ p → unmarked f p x ≡ f x
unmarked-other f p x h = let no : (x == p) ≡ false = ground (arith, h) in rw no refl

unmarked_self : (f : ℕ → Block) (p : ℕ) → unmarked f p p ≡ record (f p) { free = true }
unmarked_self f p = let yes : (p == p) ≡ true = ground arith in rw yes refl

-- The block at `p`, of `s` bytes, stands among the blocks, and freeing it takes it out of those in
-- use.
record Freed (f : ℕ → Block) (n a e p s : ℕ) (xs : List (ℕ × ℕ)) : Type 0 where
  in_use : (f p).free ≡ false
  size : (f p).size ≡ s
  low : a ≤ p
  high : p + header_size ≤ e
  tiled : Tiles (unmarked f p) n a e
  uses : used (unmarked f p) n a ≡ xs

module _ (f : ℕ → Block) (n a e : ℕ) (t : Tiles f (suc n) a e) where
  skip :
      (p s : ℕ) (xs : List (ℕ × ℕ))
      → (f a).free ≡ true
      → Freed f n (after f a) e p s xs
      → Freed f (suc n) a e p s xs
  skip p s xs c r =
      let at = unmarked-other f p a (omega (arith, r.low)) in
      record {
        in_use = r.in_use;
        size = r.size;
        low = omega (arith, r.low);
        high = r.high;
        tiled = rw at (t.0, r.tiled);
        uses = rw (at, c) r.uses;
      }

  pass :
      (p s : ℕ) (y : ℕ × ℕ) (xs : List (ℕ × ℕ))
      → (f a).free ≡ false
      → (a, (f a).size) ≡ y
      → Freed f n (after f a) e p s xs
      → Freed f (suc n) a e p s (y ∷ xs)
  pass p s y xs c i r =
      let at = unmarked-other f p a (omega (arith, r.low)) in
      record {
        in_use = r.in_use;
        size = r.size;
        low = omega (arith, r.low);
        high = r.high;
        tiled = rw at (t.0, r.tiled);
        uses = rw (at, c) (ap₂ ◌∷◌ i r.uses);
      }

  found : (f a).free ≡ false → Freed f (suc n) a e a (f a).size (used f n (after f a))
  found c =
      let at = unmarked_self f a in
      let low = Tiles-le f n (after f a) e t.1 in
      let (u, l) =
        Tiles-frame f (unmarked f a) n (after f a) e (λ x h _. unmarked-other f a x (omega arith))
          t.1 in
      record {
        in_use = c;
        size = refl;
        low = omega arith;
        high = omega (arith, low);
        tiled = rw at (t.0, u);
        uses = rw at l;
      }

abbrev marked : (ℕ → Block) → ℕ → ℕ → Bool → List (ℕ × ℕ)
marked f n a free = if free then used f n (after f a) else (a, (f a).size) ∷ used f n (after f a)

freed :
    (f : ℕ → Block) (n a e p s : ℕ) (ys zs : List (ℕ × ℕ))
    → Tiles f n a e
    → used f n a ≡ ys ++ (p, s) ∷ zs
    → Freed f n a e p s (ys ++ zs)
unfolding front_of rest_of
freed f zero a e p s ys zs t u =
    absurd (let l = ap length u ∙ length_insert ys zs (p, s) in omega (arith, l))
freed f (suc n) a e p s [] zs t u = elim (Bool-cases (f a).free) [
  | inl c ↦
      skip f n a e t p s zs c
        (freed f n (after f a) e p s [] zs t.1 (sym (ap (marked f n a) c) ∙ u))
  | inr c ↦
      let w = sym (ap (marked f n a) c) ∙ u in
      subst (λ x. Freed f (suc n) a e x.0 x.1 zs) (ap front_of w)
        (subst (λ l. Freed f (suc n) a e a (f a).size l) (ap rest_of w) (found f n a e t c))
]
freed f (suc n) a e p s (y ∷ ys) zs t u = elim (Bool-cases (f a).free) [
  | inl c ↦
      skip f n a e t p s (y ∷ ys ++ zs) c
        (freed f n (after f a) e p s (y ∷ ys) zs t.1 (sym (ap (marked f n a) c) ∙ u))
  | inr c ↦
      let w = sym (ap (marked f n a) c) ∙ u in
      pass f n a e t p s y (ys ++ zs) c (ap front_of w)
        (freed f n (after f a) e p s ys zs t.1 (ap rest_of w))
]

-- Given the data of a block in use, `kfree` returns. That block is no longer in use, the others are
-- as before, no two free neighbours are left apart, and the heap is in order, with its statistics
-- right. Giving the same pointer back once more panics.
pub kfree_lem :
    (h : Heap) (ys zs : List (ℕ × ℕ)) (p s : ℕ)
    → IsHeap h (ys ++ (p, s) ∷ zs)
    → (q : Heap) × (kfree h (p + header_size) ≡ ok q)
      × (w : IsHeap q (ys ++ zs)) × Merged q.block w.blocks heap_start
      × (kfree q (p + header_size) ≡ panic)
unfolding kfree mark_free
kfree_lem h ys zs p s v =
    let f = h.block in
    let r = freed f v.blocks heap_start heap_end p s ys zs v.tiled v.in_use in
    let low = Tiles-le f v.blocks heap_start heap_end v.tiled in
    let (g, e, c) =
      coalesce_free_blocks_lem max_blocks (unmarked f p) v.blocks heap_start r.tiled (omega arith)
        (omega (arith, low)) in
    let sum = bytes_insert ys zs p s in
    let count = length_insert ys zs (p, s) in
    let room = bytes-le f v.blocks heap_start heap_end v.tiled in
    let total = ap bytes v.in_use in
    let few = length-le f v.blocks heap_start in
    let all = ap length v.in_use in
    let addr : (p + header_size + (2 ^ 64 - header_size)) % 2 ^ 64 ≡ p = omega (arith, r.high) in
    let nonzero : (p + header_size == 0) ≡ false = ground arith in
    let inside : (ltb p heap_start || leb heap_end p) ≡ false = ground (arith, r.low, r.high) in
    let flag : (g p).free ≡ true = c.flags p ∙ ap (λ b. b.free) (unmarked_self f p) in
    let q = record (mark_free h p) { block = g } in
    (
      q,
      rw (nonzero, addr, inside, r.in_use, v.first, e) refl,
      record {
        initialized = v.initialized;
        first = v.first;
        blocks = c.m;
        tiled = c.tiled;
        in_use = c.same_use ∙ r.uses;
        allocated = omega (arith, v.allocated, sum, r.size, room, total);
        left = omega (arith, v.left, sum, r.size, room, total);
        allocations = omega (arith, v.allocations, count, few, all, low);
      },
      c.joined,
      rw (nonzero, addr, inside, flag) refl,
    )
