-- ===== src/Kmalloc/Tests.antt =====
-- A heap before its first use.
use simple_os.Prelude.{
  ℕ, ◌+◌, ◌-◌, ◌^◌, ◌==◌, ◌≡◌, ◌≤◌, refl, ◌⊎◌, false, true, List, [], ◌∷◌, ◌++◌, arith, ok, panic,
}
use simple_os.Kmalloc.{
  Block, Heap, fresh, heap_start, heap_size, header_size, align8, started, init_heap, kmalloc,
  kfree,
}
use simple_os.Kmalloc.Tiles.{NoFit}
use simple_os.Kmalloc.Claim.{Fits}
use simple_os.Kmalloc.Alloc.{IsHeap, kmalloc_lem}
use simple_os.Kmalloc.Coalesce.{Merged}
use simple_os.Kmalloc.Free.{kfree_lem}
use simple_os.Kmalloc.Align.{kmalloc_wraps, kfree-kmalloc}

abbrev blank : ℕ → Block
blank p = record { size = 0; next = 0; free = false }

fresh-IsHeap : IsHeap (started (fresh blank)) []
unfolding init_heap
fresh-IsHeap = record {
  initialized = refl;
  first = refl;
  blocks = 1;
  tiled = (refl, refl);
  in_use = refl;
  allocated = refl;
  left = refl;
  allocations = refl;
}

-- Two blocks, of 16 and of 32 bytes, the first in use.
abbrev two_blocks : ℕ → Block
two_blocks p = elim (p == heap_start) [
  | true ↦ record { size = 16; next = heap_start + 40; free = false }
  | false ↦ record { size = heap_size - 64; next = 0; free = true }
]

abbrev in_use : Heap
in_use = record {
  block = two_blocks;
  head = heap_start;
  heap_initialized = true;
  total_allocated = 16;
  total_free = heap_size - 16;
  allocation_count = 1;
}

in_use-IsHeap : IsHeap in_use ((heap_start, 16) ∷ [])
in_use-IsHeap = record {
  initialized = refl;
  first = refl;
  blocks = 2;
  tiled = (refl, (refl, refl));
  in_use = refl;
  allocated = refl;
  left = refl;
  allocations = refl;
}

kmalloc_lem_example :
    ((kmalloc (fresh blank) 5 ≡ panic)
      × NoFit (started (fresh blank)).block (align8 5) fresh-IsHeap.blocks heap_start)
    ⊎ ((p : ℕ) × (q : Heap) × (ys : List (ℕ × ℕ)) × (zs : List (ℕ × ℕ)) × (kmalloc (fresh blank) 5
          ≡ ok (p + header_size, q))
        × Fits (started (fresh blank)).block (align8 5) fresh-IsHeap.blocks heap_start p
        × ([] ≡ ys ++ zs)
        × (align8 5 ≤ (q.block p).size)
        × IsHeap q (ys ++ (p, (q.block p).size) ∷ zs))
kmalloc_lem_example = kmalloc_lem (fresh blank) 5 [] fresh-IsHeap

kfree_lem_example :
    (q : Heap) × (kfree in_use (heap_start + header_size) ≡ ok q)
    × (w : IsHeap q []) × Merged q.block w.blocks heap_start
    × (kfree q (heap_start + header_size) ≡ panic)
kfree_lem_example = kfree_lem in_use [] [] heap_start 16 in_use-IsHeap

kmalloc_wraps_example : kmalloc in_use (2 ^ 64 - 1) ≡ kmalloc in_use 0
kmalloc_wraps_example = kmalloc_wraps in_use (2 ^ 64 - 1) (omega arith) (omega arith)

kfree-kmalloc_example :
    (kmalloc (fresh blank) 5 ≡ panic)
    ⊎ ((p : ℕ) × (q : Heap) × (r : Heap) × (kmalloc (fresh blank) 5 ≡ ok (p + header_size, q))
        × (5 ≤ (q.block p).size)
        × (kfree q (p + header_size) ≡ ok r)
        × IsHeap r []
        × (kfree r (p + header_size) ≡ panic))
kfree-kmalloc_example = kfree-kmalloc (fresh blank) 5 [] fresh-IsHeap (omega arith)
