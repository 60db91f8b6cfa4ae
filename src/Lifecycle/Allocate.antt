-- ===== src/Lifecycle/Allocate.antt =====
-- `allocate_process_struct`, and a failed fork's `free_process_struct`.
use simple_os.Prelude.{
  ℕ, ◌+◌, ◌-◌, ◌*◌, ◌%◌, ◌^◌, ◌≡◌, ◌≢◌, refl, ◌∙◌, ◌⊎◌, inl, inr, ◌==◌, true, false, List, Option,
  none, some, arith, ok, panic,
}
use simple_os.Kmalloc.{Heap, header_size, started, kmalloc}
use simple_os.Kmalloc.Alloc.{IsHeap}
use simple_os.Process.{Process}
use simple_os.Lifecycle.{
  System, zero_process, zero_image, max_processes, process_bytes, kernel_stack_bytes,
  fd_entry_bytes, max_fds, find_slot, enter,
}
use simple_os.Lifecycle.Begin.{allocate_at, allocate_in, allocate_process_struct}
use simple_os.Lifecycle.Fresh.{
  OneMore, Holds, OneMore-Holds, kmalloc_more, FindsSlot, find_slot_lem,
}
use simple_os.Lifecycle.Start.{init_process_fd_table_lem}

-- The heap has no room for the block, the stack or the descriptors of a new process.
pub data HeapFull (h : Heap) : Type 0 where
  no_block : kmalloc h process_bytes ≡ panic → HeapFull h
  no_stack :
      (child : ℕ) (g : Heap)
      → kmalloc h process_bytes ≡ ok (child, g)
      → kmalloc g kernel_stack_bytes ≡ panic
      → HeapFull h
  no_fds :
      (child stack : ℕ) (f g : Heap)
      → kmalloc h process_bytes ≡ ok (child, f)
      → kmalloc f kernel_stack_bytes ≡ ok (stack, g)
      → kmalloc g (fd_entry_bytes * max_fds) ≡ panic
      → HeapFull h

-- The control block of the child in `q`: zero but for its identity and its kernel stack.
abbrev pub new_block : System → ℕ → Process
new_block s stack = record zero_process {
  pid = s.next_pid;
  kernel_stack = stack;
  kernel_stack_size = kernel_stack_bytes;
}

-- The block at `child` is new in `q`: `xs` are the blocks of the heap before.
pub record Allocated (s q : System) (child : ℕ) (xs : List (ℕ × ℕ)) : Type 0 where
  pub slot : ℕ
  pub lowest : FindsSlot s.kernel.process_table (max_processes - 1) 1 (some slot)
  pub not_null : child ≢ 0
  pub was_free : ((started s.heap).block (child - header_size)).free ≡ true
  pub stack : ℕ
  pub kernel : q.kernel ≡ (enter s slot child (new_block s stack) zero_image).kernel
  pub pages : q.pages ≡ s.pages
  pub counted : q.next_pid ≡ (s.next_pid + 1) % 2 ^ 32
  pub images : (p : ℕ) → p ≢ child → q.image p ≡ s.image p
  pub with_block : List (ℕ × ℕ)
  pub with_stack : List (ℕ × ℕ)
  pub with_fds : List (ℕ × ℕ)
  pub own_block : OneMore xs child with_block
  pub own_stack : OneMore with_block stack with_stack
  pub own_fds : OneMore with_stack (q.image child).fd_table with_fds
  pub heap : IsHeap q.heap with_fds
  pub apart : (p : ℕ) → Holds p xs → (q.image child).fd_table ≢ p
  pub fds : (t : ℕ) → t ≢ (q.image child).fd_table → q.fds t ≡ s.fds t

allocate_at_lem :
    (s : System) (xs : List (ℕ × ℕ)) (slot : ℕ)
    → FindsSlot s.kernel.process_table (max_processes - 1) 1 (some slot)
    → IsHeap (started s.heap) xs
    → ((allocate_at s slot ≡ panic) × HeapFull s.heap)
      ⊎ ((child : ℕ) × (q : System) × (allocate_at s slot ≡ ok (child, q)) × Allocated s q child xs)
unfolding allocate_at
allocate_at_lem s xs slot lowest heap = elim (kmalloc_more s.heap process_bytes xs heap) [
  | inl a ↦ inl (rw a refl, no_block a)
  | inr (child, h1, ys, a, nz, m1, was_free, _, v1) ↦
      elim (kmalloc_more h1 kernel_stack_bytes ys v1) [
        | inl b ↦ inl (rw (a, nz, b) refl, no_stack child h1 a b)
        | inr (stack, h2, zs, b, nz2, m2, _, _, v2) ↦
            let e : System =
              enter (record s { heap = h2 }) slot child (new_block s stack) zero_image in
            elim (init_process_fd_table_lem e child zs v2) [
              | inl (d, c) ↦
                  inl (rw (a, nz) (rw (b, nz2) (rw c refl)), no_fds child stack h1 h2 a b d)
              | inr (q, ws, c, m3, v3, kernel, pages, counted, images, _, _, apart, fds) ↦ inr (
                child,
                q,
                rw (a, nz) (rw (b, nz2) (rw c refl)),
                record {
                  slot = slot;
                  lowest = lowest;
                  not_null = ground (arith, nz);
                  was_free = was_free;
                  stack = stack;
                  kernel = kernel;
                  pages = pages;
                  counted = counted;
                  images = λ p off.
                      (let no : (p == child) ≡ false = ground (arith, off) in
                        images p off ∙ rw no refl);
                  with_block = ys;
                  with_stack = zs;
                  with_fds = ws;
                  own_block = m1;
                  own_stack = m2;
                  own_fds = m3;
                  heap = v3;
                  apart = λ p h.
                      apart p (OneMore-Holds p stack ys zs m2 (OneMore-Holds p child xs ys m1 h));
                  fds = fds;
                },
              )
            ]
      ]
]

-- With no free slot the result is NULL; else the call panics for want of room in the heap, or the block is new.
pub allocate_process_struct_lem :
    (s : System) (xs : List (ℕ × ℕ))
    → IsHeap (started s.heap) xs
    → (FindsSlot s.kernel.process_table (max_processes - 1) 1 none
        × (allocate_process_struct s ≡ ok (0, s)))
      ⊎ (((allocate_process_struct s ≡ panic) × HeapFull s.heap)
          ⊎ ((child : ℕ) × (q : System) × (allocate_process_struct s ≡ ok (child, q))
              × Allocated s q child xs))
unfolding allocate_process_struct
allocate_process_struct_lem s xs heap =
    by_slot (find_slot s.kernel.process_table (max_processes - 1) 1)
      (find_slot_lem s.kernel.process_table (max_processes - 1) 1)
  where
    by_slot :
        (o : Option ℕ)
        → FindsSlot s.kernel.process_table (max_processes - 1) 1 o
        → (FindsSlot s.kernel.process_table (max_processes - 1) 1 none
            × (allocate_in s o ≡ ok (0, s)))
          ⊎ (((allocate_in s o ≡ panic) × HeapFull s.heap)
              ⊎ ((child : ℕ) × (q : System) × (allocate_in s o ≡ ok (child, q))
                  × Allocated s q child xs))
    by_slot none found = inl (found, refl)
    by_slot (some slot) found = inr (allocate_at_lem s xs slot found heap)
