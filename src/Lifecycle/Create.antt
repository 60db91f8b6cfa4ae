-- ===== src/Lifecycle/Create.antt =====
-- `process_create`, over the heap, the pages and the ready queue.
use simple_os.Prelude.{
  ℕ, ◌+◌, ◌-◌, ◌*◌, ◌≡◌, ◌≢◌, refl, ap, ◌∙◌, ◌⊎◌, inl, inr, ◌==◌, Bool-cases, true, false, List,
  take, Option, none, some, arith, ok, panic, fault, not, Bool,
}
use simple_os.Pmm.{Pmm}
use simple_os.Pmm.Inv.{IsValid}
use simple_os.Kmalloc.{Heap, header_size, started, kmalloc}
use simple_os.Kmalloc.Alloc.{IsHeap}
use simple_os.Process.Links.{In}
use simple_os.Process.Queue.{IsQueue}
use simple_os.Vmm.{
  Layout, create_address_space, destroy_address_space, setup_user_stack, setup_user_heap,
}
use simple_os.Vmm.Total.{Grew, Grew-trans, create_address_space_total, setup_user_stack_total}
use simple_os.Scheduler.{default_quantum}
use simple_os.Lifecycle.{
  System, zero_layout, zero_image, zero_process, zero_context, process_bytes, kernel_stack_bytes,
  fd_entry_bytes, max_fds, max_processes, find_slot, spoils,
}
use simple_os.Lifecycle.Begin.{finish_create, create_at, create_in, process_create}
use simple_os.Lifecycle.Spoil.{HeapTaken, spoils-HeapTaken}
use simple_os.Lifecycle.Fresh.{OneMore, kmalloc_more, FindsSlot, find_slot_lem}
use simple_os.Lifecycle.Start.{Created, free_two, start_process_lem}

-- Why a process cannot be created: the heap or the pages have no more room.
pub data Starved (pml4 : ℕ) (s : System) : Type 0 where
  no_block : kmalloc s.heap process_bytes ≡ panic → Starved pml4 s
  no_stack :
      (proc : ℕ) (h : Heap)
      → kmalloc s.heap process_bytes ≡ ok (proc, h)
      → kmalloc h kernel_stack_bytes ≡ panic
      → Starved pml4 s
  no_table : (p : Pmm) → create_address_space pml4 s.pages ≡ ok (0, p) → Starved pml4 s
  no_pages :
      (table : ℕ) (p q : Pmm) (l : Layout)
      → create_address_space pml4 s.pages ≡ ok (table, p)
      → setup_user_stack (record zero_layout { page_table = table }) p ≡ ok (false, l, q)
      → Starved pml4 s
  no_fds :
      (proc stack : ℕ) (g h : Heap)
      → kmalloc s.heap process_bytes ≡ ok (proc, g)
      → kmalloc g kernel_stack_bytes ≡ ok (stack, h)
      → kmalloc h (fd_entry_bytes * max_fds) ≡ panic
      → Starved pml4 s

-- Which of its two calls that take pages was handed out a page of the heap.
pub data Overrun (pml4 : ℕ) (s : System) : Type 0 where
  at_table :
      (table : ℕ) (p : Pmm)
      → create_address_space pml4 s.pages ≡ ok (table, p)
      → HeapTaken s.pages p (not (table == 0))
      → Overrun pml4 s
  at_stack :
      (table : ℕ) (p q : Pmm) (l : Layout) (up : Bool)
      → create_address_space pml4 s.pages ≡ ok (table, p)
      → setup_user_stack (record zero_layout { page_table = table }) p ≡ ok (up, l, q)
      → HeapTaken p q up
      → Overrun pml4 s

module _ (pml4 : ℕ) (trampoline : ℕ) (s : System) (xs : List (ℕ × ℕ)) (ps : List ℕ)
    (queue : IsQueue s.kernel ps) where
  -- The call once it has its slot, its blocks and its page table.
  finish_create_lem :
      (slot : ℕ) (name : List ℕ) (entry_point priority proc stack table : ℕ) (h : Heap) (p : Pmm)
      (ys zs : List (ℕ × ℕ))
      → FindsSlot s.kernel.process_table (max_processes - 1) 1 (some slot)
      → proc ≢ 0
      → ¬ In proc ps
      → ((started s.heap).block (proc - header_size)).free ≡ true
      → OneMore xs proc ys
      → OneMore ys stack zs
      → IsHeap h zs
      → IsHeap (started h) zs
      → Grew s.pages p
      → ((table == 0) ≡ false)
      → ((r : Pmm)
          → Grew p r
          → (u : Pmm) × (destroy_address_space pml4 r table ≡ ok u) × Grew s.pages u)
      → ((finish_create pml4 trampoline
              (record s { heap = h; pages = p })
              slot
              name
              entry_point
              priority
              proc
              stack
              table
            ≡ panic)
          × (((q : Pmm) × (l : Layout) × (setup_user_stack
                    (record zero_layout { page_table = table })
                    p
                  ≡ ok (false, l, q)))
              ⊎ (kmalloc h (fd_entry_bytes * max_fds) ≡ panic)))
        ⊎ (((finish_create pml4 trampoline
                  (record s { heap = h; pages = p })
                  slot
                  name
                  entry_point
                  priority
                  proc
                  stack
                  table
                ≡ fault)
              × ((q : Pmm) × (l : Layout) × (up : Bool) × (setup_user_stack
                      (record zero_layout { page_table = table })
                      p
                    ≡ ok (up, l, q))
                  × HeapTaken p q up))
            ⊎ ((q : System) × (finish_create pml4 trampoline
                    (record s { heap = h; pages = p })
                    slot
                    name
                    entry_point
                    priority
                    proc
                    stack
                    table
                  ≡ ok (proc, q))
                × Created pml4 trampoline s q proc xs ps))
  unfolding finish_create
  finish_create_lem slot name entry_point priority proc stack table h p ys zs lowest nz out was_free
        m1 m2 v w g has_table undo =
      let (up, l, q, e, grew) =
        setup_user_stack_total (record zero_layout { page_table = table }) p g.valid in
      elim (Bool-cases (spoils p q up)) [
        | inl over ↦ inr (inl (rw e (rw over refl), (q, l, up, e, spoils-HeapTaken p q up over)))
        | inr spared ↦ elim (Bool-cases up) [
          | inl yes_up ↦
              elim (start_process_lem pml4 trampoline s xs ps queue slot proc stack
                (record zero_process {
                  pid = s.next_pid;
                  page_table = table;
                  kernel_stack = stack;
                  kernel_stack_size = kernel_stack_bytes;
                  ticks_remaining = default_quantum;
                  priority = priority;
                })
                (record zero_image {
                  name = take 31 name;
                  context = record zero_context {
                    rsp = stack + kernel_stack_bytes - 8;
                    rip = trampoline;
                    rflags = 0x202;
                  };
                  layout = record (setup_user_heap l) { pages_allocated = 0 };
                  entry_point = entry_point;
                })
                h q ys zs lowest nz out was_free (refl, refl, refl, refl, has_table) (refl, refl) m1
                m2 w (Grew-trans g grew) (undo q grew)) [
                  | inl (a, d) ↦ inl (rw e (rw spared (rw yes_up d)), inr a)
                  | inr (r, d, c) ↦ inr (inr (r, rw e (rw spared (rw yes_up d)), c))
                ]
          | inr no_up ↦
              let (u, d, _) = undo q grew in
              inl (
                rw e (rw spared (rw no_up (rw d (free_two h proc stack xs ys zs m1 m2 v)))),
                inl (q, l, e ∙ rw no_up refl),
              )
        ]
      ]

  create_at_lem :
      (slot : ℕ) (name : List ℕ) (entry_point priority : ℕ)
      → FindsSlot s.kernel.process_table (max_processes - 1) 1 (some slot)
      → ((p : ℕ) → In p ps → ((started s.heap).block (p - header_size)).free ≡ false)
      → IsHeap (started s.heap) xs
      → IsValid s.pages
      → ((create_at pml4 trampoline s slot name entry_point priority ≡ panic) × Starved pml4 s)
        ⊎ (((create_at pml4 trampoline s slot name entry_point priority ≡ fault) × Overrun pml4 s)
            ⊎ ((proc : ℕ) × (q : System) × (create_at pml4 trampoline s slot name entry_point
                    priority
                  ≡ ok (proc, q))
                × Created pml4 trampoline s q proc xs ps))
  unfolding create_at
  create_at_lem slot name entry_point priority lowest held heap pages =
      elim (kmalloc_more s.heap process_bytes xs heap) [
        | inl a ↦ inl (rw a refl, no_block a)
        | inr (proc, h1, ys, a, nz, m1, was_free, _, v1) ↦
            elim (kmalloc_more h1 kernel_stack_bytes ys v1) [
              | inl b ↦ inl (rw (a, nz, b) refl, no_stack proc h1 a b)
              | inr (stack, h2, zs, b, nz2, m2, _, v2, w2) ↦
                  let (table, p1, c, g, cases) = create_address_space_total pml4 s.pages pages in
                  elim (Bool-cases (spoils s.pages p1 (not (table == 0)))) [
                    | inl over ↦ inr (
                        inl (
                          rw (a, nz) (rw (b, nz2) (rw c (rw over refl))),
                          at_table table p1 c (spoils-HeapTaken s.pages p1 (not (table == 0)) over),
                        ))
                    | inr spared ↦ elim cases [
                      | inl null ↦
                          (let zero_table : (table == 0) ≡ true = ground (arith, null) in
                            let fails : create_at pml4 trampoline s slot name entry_point priority
                                ≡ panic =
                              rw (a, nz)
                                (rw (b, nz2)
                                  (rw c (
                                    rw spared (
                                      rw zero_table
                                        (free_two h2 proc stack xs ys zs m1 m2 v2))))) in
                            inl (fails, no_table p1 (c ∙ ap (λ t. ok (t, p1)) null)))
                      | inr (nz3, undo) ↦
                          elim (finish_create_lem slot name entry_point priority proc stack table h2
                            p1 ys zs lowest (ground (arith, nz))
                            (λ i. ground (arith, held proc i, was_free)) was_free m1 m2 v2 w2 g nz3
                            undo) [
                              | inl (d, why) ↦ inl (
                                rw (a, nz) (rw (b, nz2) (rw c (rw spared (rw nz3 d)))),
                                elim why [
                                  | inl (q, l, e) ↦ no_pages table p1 q l c e
                                  | inr e ↦ no_fds proc stack h1 h2 a b e
                                ],
                              )
                              | inr (inl (d, (q, l, up, e, taken))) ↦ inr (
                                  inl (
                                    rw (a, nz) (rw (b, nz2) (rw c (rw spared (rw nz3 d)))),
                                    at_stack table p1 q l up c e taken,
                                  ))
                              | inr (inr (q, d, made)) ↦ inr (
                                  inr (
                                    proc,
                                    q,
                                    rw (a, nz) (rw (b, nz2) (rw c (rw spared (rw nz3 d)))),
                                    made,
                                  ))
                            ]
                    ]
                  ]
            ]
      ]

-- `process_create` on a heap, pages and a queue in order, the queue's blocks among those in use. With no
-- free slot nothing changes; when the heap or the pages run out it panics; where it is handed out a page in
-- which the heap lies, what it does is not defined; else the process is new.
pub process_create_lem :
    (pml4 : ℕ) (trampoline : ℕ) (s : System) (xs : List (ℕ × ℕ)) (ps : List ℕ) (name : List ℕ)
    (entry_point priority : ℕ)
    → IsQueue s.kernel ps
    → ((p : ℕ) → In p ps → ((started s.heap).block (p - header_size)).free ≡ false)
    → IsHeap (started s.heap) xs
    → IsValid s.pages
    → (FindsSlot s.kernel.process_table (max_processes - 1) 1 none
        × (process_create pml4 trampoline s name entry_point priority ≡ ok (0, s)))
      ⊎ (((process_create pml4 trampoline s name entry_point priority ≡ panic) × Starved pml4 s)
          ⊎ (((process_create pml4 trampoline s name entry_point priority ≡ fault) × Overrun pml4 s)
              ⊎ ((proc : ℕ) × (q : System) × (process_create pml4 trampoline s name entry_point
                      priority
                    ≡ ok (proc, q))
                  × Created pml4 trampoline s q proc xs ps)))
unfolding process_create create_in
process_create_lem pml4 trampoline s xs ps name entry_point priority queue held heap pages =
    by_slot (find_slot s.kernel.process_table (max_processes - 1) 1)
      (find_slot_lem s.kernel.process_table (max_processes - 1) 1)
  where
    by_slot :
        (o : Option ℕ)
        → FindsSlot s.kernel.process_table (max_processes - 1) 1 o
        → (FindsSlot s.kernel.process_table (max_processes - 1) 1 none
            × (create_in pml4 trampoline s o name entry_point priority ≡ ok (0, s)))
          ⊎ (((create_in pml4 trampoline s o name entry_point priority ≡ panic) × Starved pml4 s)
              ⊎ (((create_in pml4 trampoline s o name entry_point priority ≡ fault)
                    × Overrun pml4 s)
                  ⊎ ((proc : ℕ) × (q : System) × (create_in pml4 trampoline s o name entry_point
                          priority
                        ≡ ok (proc, q))
                      × Created pml4 trampoline s q proc xs ps)))
    by_slot none found = inl (found, refl)
    by_slot (some slot) found = inr (
        create_at_lem pml4 trampoline s xs ps queue slot name entry_point priority found held heap
          pages)
