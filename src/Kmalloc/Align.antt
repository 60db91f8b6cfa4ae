-- ===== src/Kmalloc/Align.antt =====
-- The size that `kmalloc` rounds up to a multiple of 8, and what becomes of it near the end of
-- `size_t`.
use simple_os.Prelude.{
  ℕ, ◌+◌, ◌*◌, ◌/◌, ◌%◌, ◌^◌, ◌≤◌, ◌<◌, ◌≡◌, refl, sym, ◌∙◌, ◌⊎◌, inl, inr, List, arith,
  bit_and-align, ok, panic,
}
use simple_os.Kmalloc.{Heap, header_size, align8, started, kmalloc, kfree}
use simple_os.Kmalloc.Alloc.{IsHeap, kmalloc_lem}
use simple_os.Kmalloc.Free.{kfree_lem}

align8_lem : (size : ℕ) → size + 7 < 2 ^ 64 → align8 size ≡ (size + 7) / 8 * 8
unfolding align8
align8_lem size h = omega (arith, bit_and-align ((size + 7) % 2 ^ 64) (omega arith))

align8_wraps : (size : ℕ) → size < 2 ^ 64 → 2 ^ 64 ≤ size + 7 → align8 size ≡ 0
unfolding align8
align8_wraps size h k = omega (arith, bit_and-align ((size + 7) % 2 ^ 64) (omega arith))

-- A request within 7 bytes of 2^64 wraps around: `kmalloc` answers it as a request of 0 bytes.
pub kmalloc_wraps :
    (h : Heap) (size : ℕ) → size < 2 ^ 64 → 2 ^ 64 ≤ size + 7 → kmalloc h size ≡ kmalloc h 0
unfolding kmalloc
kmalloc_wraps h size k l =
    let e : align8 size ≡ align8 0 = align8_wraps size k l ∙ sym (align8_lem 0 (omega arith)) in
    rw e refl

-- On a heap that is in order, and for a size that does not wrap around, `kmalloc` panics or returns
-- the data of a block of at least that many bytes. Giving that back to `kfree` succeeds in a heap
-- in order, with the blocks in use as they were before; giving it back once more panics.
pub kfree-kmalloc :
    (h : Heap) (size : ℕ) (xs : List (ℕ × ℕ))
    → IsHeap (started h) xs
    → size + 7 < 2 ^ 64
    → (kmalloc h size ≡ panic)
      ⊎ ((p : ℕ) × (q : Heap) × (r : Heap) × (kmalloc h size ≡ ok (p + header_size, q))
          × (size ≤ (q.block p).size)
          × (kfree q (p + header_size) ≡ ok r)
          × IsHeap r xs
          × (kfree r (p + header_size) ≡ panic))
kfree-kmalloc h size xs v fits = elim (kmalloc_lem h size xs v) [
  | inl (e, _) ↦ inl e
  | inr (p, q, ys, zs, e, _, old, large, w) ↦
      let (r, f, u, _, again) = kfree_lem q ys zs p (q.block p).size w in
      let enough : size ≤ align8 size = omega (arith, align8_lem size fits) in
      inr (p, q, r, e, omega (arith, enough, large), f, rw old u, again)
]
