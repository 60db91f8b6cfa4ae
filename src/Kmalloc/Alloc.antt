-- ===== src/Kmalloc/Alloc.antt =====
-- `kmalloc` on a heap whose blocks tile it.
use simple_os.Prelude.{
  ℕ, zero, suc, ◌+◌, ◌*◌, ◌≤◌, ◌<◌, ◌≡◌, refl, sym, ap, ap₂, ◌∙◌, ◌⊎◌, inl, inr, ◌==◌,
  if◌then◌else◌, true, false, ok, panic, List, [], ◌∷◌, ◌++◌, arith, Bool-cases, length,
  length-append,
}
use simple_os.Kmalloc.{
  Block, Heap, heap_start, heap_end, heap_size, header_size, max_blocks, align8, started,
  claim_block, kmalloc,
}
use simple_os.Kmalloc.Tiles.{
  after, Tiles, used, NoFit, Tiles-le, Tiles-append, used-append, Tiles-frame,
}
use simple_os.Kmalloc.Claim.{Fits, find_free_block_lem, claimed, claimed-Claimed}

abbrev pub bytes : List (ℕ × ℕ) → ℕ
bytes [] = 0
bytes (x ∷ xs) = x.1 + bytes xs

pub bytes-append : (xs ys : List (ℕ × ℕ)) → bytes (xs ++ ys) ≡ bytes xs + bytes ys
bytes-append [] ys = omega arith
bytes-append (x ∷ xs) ys = omega (arith, bytes-append xs ys)

pub bytes_insert :
    (ys zs : List (ℕ × ℕ)) (p s : ℕ) → bytes (ys ++ (p, s) ∷ zs) ≡ bytes (ys ++ zs) + s
bytes_insert ys zs p s = omega (arith, bytes-append ys ((p, s) ∷ zs), bytes-append ys zs)

pub length_insert :
    (ys zs : List (ℕ × ℕ)) (x : ℕ × ℕ) → length (ys ++ x ∷ zs) ≡ length (ys ++ zs) + 1
length_insert ys zs x = omega (arith, length-append ys (x ∷ zs), length-append ys zs)

-- The blocks tile the heap, `xs` are those in use, and the statistics count them.
pub record IsHeap (h : Heap) (xs : List (ℕ × ℕ)) : Type 0 where
  pub initialized : h.heap_initialized ≡ true
  pub first : h.head ≡ heap_start
  pub blocks : ℕ
  pub tiled : Tiles h.block blocks heap_start heap_end
  pub in_use : used h.block blocks heap_start ≡ xs
  pub allocated : h.total_allocated ≡ bytes xs
  pub left : h.total_free + bytes xs ≡ heap_size
  pub allocations : h.allocation_count ≡ length xs

-- No block of a heap in use has bytes past the heap.
pub bytes-le :
    (f : ℕ → Block) (n a e : ℕ) → Tiles f n a e → a + bytes (used f n a) + n * header_size ≤ e
bytes-le f zero a e t = omega arith
bytes-le f (suc n) a e t = elim (Bool-cases (f a).free) [
  | inl c ↦ rw c (omega (arith, bytes-le f n (after f a) e t.1))
  | inr c ↦ rw c (omega (arith, bytes-le f n (after f a) e t.1))
]

pub length-le : (f : ℕ → Block) (n a : ℕ) → length (used f n a) ≤ n
length-le f zero a = omega arith
length-le f (suc n) a = elim (Bool-cases (f a).free) [
  | inl c ↦ rw c (omega (arith, length-le f n (after f a)))
  | inr c ↦ rw c (omega (arith, length-le f n (after f a)))
]

-- Claiming a block that fits puts it among those in use and keeps the heap in order.
pub claim-IsHeap :
    (h : Heap) (xs : List (ℕ × ℕ)) (size p : ℕ)
    → (v : IsHeap h xs) → Fits h.block size v.blocks heap_start p
    → (ys : List (ℕ × ℕ)) × (zs : List (ℕ × ℕ)) × (xs ≡ ys ++ zs)
      × (size ≤ ((claim_block h p size).block p).size)
      × IsHeap (claim_block h p size) (ys ++ (p, ((claim_block h p size).block p).size) ∷ zs)
unfolding claim_block claimed
claim-IsHeap h xs size p v c =
    let f = h.block in
    let g = claimed f p size in
    let d = claimed-Claimed f p c.m size c.back c.is_large in
    let ys = used f c.i heap_start in
    let zs = used f c.m (after f p) in
    let old : xs ≡ ys ++ zs =
      sym v.in_use
      ∙ ap (λ n. used f n heap_start) (sym c.all)
      ∙ used-append f c.i (suc c.m) heap_start p c.front
      ∙ ap (λ b. ys ++ (if b then zs else (p, (f p).size) ∷ zs)) c.is_free in
    let (front, same) = Tiles-frame f g c.i heap_start p (λ x _ k. d.below x k) c.front in
    let tiled = Tiles-append g c.i (suc d.k) heap_start p heap_end front d.tiled in
    let new : used g (c.i + suc d.k) heap_start ≡ ys ++ (p, (g p).size) ∷ zs =
      used-append g c.i (suc d.k) heap_start p front ∙ ap₂ ◌++◌ same d.uses in
    let fits = bytes-le g (c.i + suc d.k) heap_start heap_end tiled in
    let sum : bytes (ys ++ (p, (g p).size) ∷ zs) ≡ bytes xs + (g p).size =
      bytes_insert ys zs p (g p).size ∙ ap (λ l. bytes l + (g p).size) (sym old) in
    let count : length (ys ++ (p, (g p).size) ∷ zs) ≡ length xs + 1 =
      length_insert ys zs (p, (g p).size) ∙ ap (λ l. length l + 1) (sym old) in
    let room : bytes xs + (g p).size ≤ heap_size = omega (arith, fits, ap bytes new, sum) in
    let few : length xs ≤ heap_size = omega (
      arith,
      length-le f v.blocks heap_start,
      ap length v.in_use,
      Tiles-le f v.blocks heap_start heap_end v.tiled,
    ) in
    (
      ys,
      zs,
      old,
      d.large,
      record {
        initialized = v.initialized;
        first = v.first;
        blocks = c.i + suc d.k;
        tiled = tiled;
        in_use = new;
        allocated = omega (arith, v.allocated, sum, room);
        left = omega (arith, v.left, sum, room);
        allocations = omega (arith, v.allocations, count, few);
      },
    )

-- On a heap that is in order, `kmalloc` returns or panics. It panics exactly if no free block has
-- `align8 size` bytes. Otherwise it returns the data of the first block that has; that block is now
-- in use and still large enough, the others in use are the same as before, at the same places and
-- of the same sizes, and the heap is in order, with its statistics right.
pub kmalloc_lem :
    (h : Heap) (size : ℕ) (xs : List (ℕ × ℕ))
    → (v : IsHeap (started h) xs)
    → ((kmalloc h size ≡ panic) × NoFit (started h).block (align8 size) v.blocks heap_start)
      ⊎ ((p : ℕ) × (q : Heap) × (ys : List (ℕ × ℕ)) × (zs : List (ℕ × ℕ)) × (kmalloc h size
            ≡ ok (p + header_size, q))
          × Fits (started h).block (align8 size) v.blocks heap_start p
          × (xs ≡ ys ++ zs)
          × (align8 size ≤ (q.block p).size)
          × IsHeap q (ys ++ (p, (q.block p).size) ∷ zs))
unfolding kmalloc
kmalloc_lem h size xs v =
    let s = started h in
    let few : v.blocks < max_blocks =
      omega (arith, Tiles-le s.block v.blocks heap_start heap_end v.tiled) in
    elim (find_free_block_lem s.block (align8 size) v.blocks max_blocks heap_start v.tiled
      (omega arith) few) [
        | inl (e, none) ↦ inl (rw (v.first, e) refl, none)
        | inr (p, e, c, le) ↦
            let (ys, zs, old, large, w) = claim-IsHeap s xs (align8 size) p v c in
            let nonzero : (p == 0) ≡ false = ground (arith, le) in
            inr (
              p,
              claim_block s p (align8 size),
              ys,
              zs,
              rw (v.first, e, nonzero) refl,
              c,
              old,
              large,
              w,
            )
      ]
