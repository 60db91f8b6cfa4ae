-- ===== src/Lifecycle/Start.antt =====
-- What a new process is, and the end of `process_create`.
use simple_os.Prelude.{
  ℕ, ◌+◌, ◌-◌, ◌*◌, ◌%◌, ◌^◌, ◌<◌, ◌≡◌, ◌≢◌, refl, sym, ap, subst, ◌∙◌, ◌⊎◌, inl, inr, ◌==◌, ltb,
  if◌then◌else◌, true, false, List, [], ◌∷◌, ◌++◌, set, some, arith, Run, ok, panic, ◌>>=◌,
}
use simple_os.Pmm.{Pmm}
use simple_os.Kmalloc.{Heap, header_size, started, kmalloc, kfree}
use simple_os.Kmalloc.Alloc.{IsHeap}
use simple_os.Process.{Process, ProcessState, Kernel, write, ready_queue_push}
use simple_os.Process.Links.{In, Seg}
use simple_os.Process.Queue.{IsQueue, push-KeepsBlocks, push-IsQueue}
use simple_os.Vmm.{destroy_address_space}
use simple_os.Vmm.Total.{Grew}
use simple_os.Scheduler.{default_quantum}
use simple_os.Lifecycle.{
  System, Image, closed, zero_image, put, enter, queued, kernel_stack_bytes, fd_entry_bytes,
  max_fds, max_processes, init_process_fd_table,
}
use simple_os.Lifecycle.Begin.{start_process}
use simple_os.Lifecycle.Fresh.{Holds, Holds-apart, OneMore, kmalloc_more, kfree_more, FindsSlot}

-- The descriptors and the heap after `init_process_fd_table`.
pub init_process_fd_table_lem :
    (s : System) (proc : ℕ) (xs : List (ℕ × ℕ))
    → IsHeap (started s.heap) xs
    → ((kmalloc s.heap (fd_entry_bytes * max_fds) ≡ panic) × (init_process_fd_table s proc ≡ panic))
      ⊎ ((q : System) × (xs' : List (ℕ × ℕ)) × (init_process_fd_table s proc ≡ ok q)
          × OneMore xs (q.image proc).fd_table xs'
          × IsHeap q.heap xs'
          × (q.kernel ≡ s.kernel)
          × (q.pages ≡ s.pages)
          × (q.next_pid ≡ s.next_pid)
          × ((p : ℕ) → p ≢ proc → q.image p ≡ s.image p)
          × ((q.image proc).context ≡ (s.image proc).context)
          × ((i : ℕ) → i < max_fds → q.fds (q.image proc).fd_table i ≡ closed)
          × ((p : ℕ) → Holds p xs → (q.image proc).fd_table ≢ p)
          × ((t : ℕ) → t ≢ (q.image proc).fd_table → q.fds t ≡ s.fds t))
unfolding init_process_fd_table
init_process_fd_table_lem s proc xs v = elim (kmalloc_more s.heap (fd_entry_bytes * max_fds) xs v) [
  | inl e ↦ inl (e, rw e refl)
  | inr (table, h, xs', e, nz, more, was_free, w, _) ↦
      let q : System = record s {
        heap = h;
        image = put s.image proc (record (s.image proc) { fd_table = table });
        fds = put s.fds table (λ i. if ltb i max_fds then closed else s.fds table i);
      } in
      let self : (proc == proc) ≡ true = ground arith in
      let at : (q.image proc).fd_table ≡ table = rw self refl in
      inr (
        q,
        xs',
        rw e refl,
        subst (λ t. OneMore xs t xs') (sym at) more,
        w,
        refl,
        refl,
        refl,
        (λ p off. let no : (p == proc) ≡ false = ground (arith, off) in rw no refl),
        rw self refl,
        λ i low.
            let here : (table == table) ≡ true = ground arith in
            let inside : ltb i max_fds ≡ true = ground (arith, low) in
            rw at (rw here (rw inside refl)),
        (λ p held same. Holds-apart (started s.heap) xs table p v was_free held (sym at ∙ same)),
        λ t off. let no : (t == table) ≡ false = ground (arith, off, at) in rw no refl,
      )
]

-- Giving back two blocks, the latest first, and panicking.
pub free_two :
    (h : Heap) (a b : ℕ) (xs ys zs : List (ℕ × ℕ))
    → OneMore xs a ys
    → OneMore ys b zs
    → IsHeap h zs
    → Path (Run (ℕ × System)) (kfree h b >>= λ g. kfree g a >>= λ _. panic) panic
free_two h a b xs ys zs m1 m2 v =
    let (g, e, w) = kfree_more h b ys zs m2 v in
    let (f, d, _) = kfree_more g a xs ys m1 w in rw e (rw d refl)

Seg-write :
    (f : ℕ → Process) (a : ℕ) (b : Process) (p n : ℕ) (xs : List ℕ)
    → ¬ In a xs
    → Seg f p n xs
    → Seg (write f a b) p n xs
Seg-write f a b p n [] out s = tt
Seg-write f a b p n (x ∷ xs) out s =
    let off : (x == a) ≡ false = ground (arith, λ (e : x ≡ a). out (inl (sym e))) in
    (s.0, rw off s.1, rw off s.2, Seg-write f a b x n xs (λ h. out (inr h)) s.3)

-- The process at `proc` is new in `q`: `xs` are the blocks of the heap before, `ps` the queue before.
pub record Created (pml4 trampoline : ℕ) (s q : System) (proc : ℕ) (xs : List (ℕ × ℕ)) (ps : List ℕ)
    : Type 0 where
  pub not_null : proc ≢ 0
  pub slot : ℕ
  pub lowest : FindsSlot s.kernel.process_table (max_processes - 1) 1 (some slot)
  pub listed : q.kernel.process_table ≡ set s.kernel.process_table slot proc
  pub pid : (q.kernel.block proc).pid ≡ s.next_pid
  pub counted : q.next_pid ≡ (s.next_pid + 1) % 2 ^ 32
  pub is_ready : (q.kernel.block proc).state ≡ ProcessState.ready
  pub quantum : (q.kernel.block proc).ticks_remaining ≡ default_quantum
  pub starts : (q.image proc).context.rip ≡ trampoline
  pub queue : IsQueue q.kernel (ps ++ proc ∷ [])
  pub pids : (p : ℕ) → p ≢ proc → (q.kernel.block p).pid ≡ (s.kernel.block p).pid
  pub states : (p : ℕ) → p ≢ proc → (q.kernel.block p).state ≡ (s.kernel.block p).state
  pub images : (p : ℕ) → p ≢ proc → q.image p ≡ s.image p
  pub with_block : List (ℕ × ℕ)
  pub with_stack : List (ℕ × ℕ)
  pub with_fds : List (ℕ × ℕ)
  pub own_block : OneMore xs proc with_block
  pub stack : ℕ
  pub own_stack : OneMore with_block stack with_stack
  pub stack_top : (q.image proc).context.rsp ≡ stack + kernel_stack_bytes - 8
  pub own_fds : OneMore with_stack (q.image proc).fd_table with_fds
  pub heap : IsHeap q.heap with_fds
  pub all_closed : (i : ℕ) → i < max_fds → q.fds (q.image proc).fd_table i ≡ closed
  pub pages : Grew s.pages q.pages
  pub was_free : ((started s.heap).block (proc - header_size)).free ≡ true
  pub idle : q.kernel.idle_process ≡ s.kernel.idle_process
  pub kernel_stack : (q.kernel.block proc).kernel_stack ≡ stack
  pub has_table : ((q.kernel.block proc).page_table == 0) ≡ false
  pub destroys :
      (u : Pmm) × (destroy_address_space pml4 q.pages (q.kernel.block proc).page_table ≡ ok u)
      × Grew s.pages u

pub write-IsQueue :
    (k : Kernel) (a : ℕ) (b : Process) (t : List ℕ) (ps : List ℕ)
    → ¬ In a ps
    → IsQueue k ps
    → IsQueue (record k { block = write k.block a b; process_table = t }) ps
write-IsQueue k a b t ps out v = record {
  front = v.front;
  back = v.back;
  links = Seg-write k.block a b 0 0 ps out v.links;
  distinct = v.distinct;
}

module _ (pml4 : ℕ) (trampoline : ℕ) (s : System) (xs : List (ℕ × ℕ)) (ps : List ℕ)
    (queue : IsQueue s.kernel ps) where
  -- The queue and the blocks once the new block is entered and pushed.
  pushed :
      (slot proc : ℕ) (b : Process)
      → proc ≢ 0
      → ¬ In proc ps
      → IsQueue (ready_queue_push (enter s slot proc b zero_image).kernel proc) (ps ++ proc ∷ [])
  pushed slot proc b nz out =
      push-IsQueue (enter s slot proc b zero_image).kernel proc nz ps
        (write-IsQueue s.kernel proc b (set s.kernel.process_table slot proc) ps out queue) out

  -- The new process, from what is written to its block and the blocks it takes.
  created :
      (slot proc stack : ℕ) (b : Process) (i : Image) (q : System) (ys zs ws : List (ℕ × ℕ))
      → FindsSlot s.kernel.process_table (max_processes - 1) 1 (some slot)
      → proc ≢ 0
      → ¬ In proc ps
      → ((started s.heap).block (proc - header_size)).free ≡ true
      → (b.pid ≡ s.next_pid)
        × (b.state ≡ ProcessState.ready)
        × (b.ticks_remaining ≡ default_quantum)
        × (b.kernel_stack ≡ stack)
        × ((b.page_table == 0) ≡ false)
      → (i.context.rip ≡ trampoline) × (i.context.rsp ≡ stack + kernel_stack_bytes - 8)
      → OneMore xs proc ys
      → OneMore ys stack zs
      → OneMore zs (q.image proc).fd_table ws
      → IsHeap q.heap ws
      → (q.kernel ≡ (enter s slot proc b i).kernel)
        × Grew s.pages q.pages
        × (q.next_pid ≡ (s.next_pid + 1) % 2 ^ 32)
        × ((p : ℕ) → p ≢ proc → q.image p ≡ s.image p)
        × ((q.image proc).context ≡ i.context)
        × ((j : ℕ) → j < max_fds → q.fds (q.image proc).fd_table j ≡ closed)
        × ((u : Pmm) × (destroy_address_space pml4 q.pages b.page_table ≡ ok u) × Grew s.pages u)
      → Created pml4 trampoline s (queued q proc) proc xs ps
  created slot proc stack b i q ys zs ws lowest nz out was_free fields starts m1 m2 m3 heap
        (kernel, pages, counted, images, context, closes, destroys) =
      let e = (enter s slot proc b i).kernel in
      let k = push-KeepsBlocks e proc in
      let self : (proc == proc) ≡ true = ground arith in
      let same : ready_queue_push q.kernel proc ≡ ready_queue_push e proc =
        ap (λ x. ready_queue_push x proc) kernel in
      let at_table : ((ready_queue_push q.kernel proc).block proc).page_table ≡ b.page_table =
        ap (λ x. (x.block proc).page_table) same ∙ k.page_table proc ∙ rw self refl in
      record {
        not_null = nz;
        slot = slot;
        lowest = lowest;
        listed = ap (λ x. x.process_table) same ∙ k.process_table;
        pid = ap (λ x. (x.block proc).pid) same ∙ k.pid proc ∙ rw self fields.0;
        counted = counted;
        is_ready = ap (λ x. (x.block proc).state) same ∙ k.state proc ∙ rw self fields.1;
        quantum = ap (λ x. (x.block proc).ticks_remaining) same ∙ k.ticks proc ∙ rw self fields.2;
        starts = ap (λ c. c.rip) context ∙ starts.0;
        queue = subst (λ x. IsQueue x (ps ++ proc ∷ [])) (sym same) (pushed slot proc b nz out);
        pids = λ p off.
            (let no : (p == proc) ≡ false = ground (arith, off) in
              ap (λ x. (x.block p).pid) same ∙ k.pid p ∙ rw no refl);
        states = λ p off.
            (let no : (p == proc) ≡ false = ground (arith, off) in
              ap (λ x. (x.block p).state) same ∙ k.state p ∙ rw no refl);
        images = images;
        with_block = ys;
        with_stack = zs;
        with_fds = ws;
        own_block = m1;
        stack = stack;
        own_stack = m2;
        stack_top = ap (λ c. c.rsp) context ∙ starts.1;
        own_fds = m3;
        heap = heap;
        all_closed = closes;
        pages = pages;
        was_free = was_free;
        idle = ap (λ x. x.idle_process) same ∙ k.idle;
        kernel_stack =
            ap (λ x. (x.block proc).kernel_stack) same ∙ k.kernel_stack proc ∙ rw self fields.3;
        has_table = ap (λ t. t == 0) at_table ∙ fields.4;
        destroys =
            subst (λ t. (u : Pmm) × (destroy_address_space pml4 q.pages t ≡ ok u) × Grew s.pages u)
              (sym at_table) destroys;
      }

  -- The end of the call, once the process has its slot, its blocks and its pages.
  pub start_process_lem :
      (slot proc stack : ℕ) (b : Process) (i : Image) (h : Heap) (p : Pmm) (ys zs : List (ℕ × ℕ))
      → FindsSlot s.kernel.process_table (max_processes - 1) 1 (some slot)
      → proc ≢ 0
      → ¬ In proc ps
      → ((started s.heap).block (proc - header_size)).free ≡ true
      → (b.pid ≡ s.next_pid)
        × (b.state ≡ ProcessState.ready)
        × (b.ticks_remaining ≡ default_quantum)
        × (b.kernel_stack ≡ stack)
        × ((b.page_table == 0) ≡ false)
      → (i.context.rip ≡ trampoline) × (i.context.rsp ≡ stack + kernel_stack_bytes - 8)
      → OneMore xs proc ys
      → OneMore ys stack zs
      → IsHeap (started h) zs
      → Grew s.pages p
      → ((u : Pmm) × (destroy_address_space pml4 p b.page_table ≡ ok u) × Grew s.pages u)
      → ((kmalloc h (fd_entry_bytes * max_fds) ≡ panic)
          × (start_process (record s { heap = h; pages = p }) slot proc b i ≡ panic))
        ⊎ ((q : System) × (start_process (record s { heap = h; pages = p }) slot proc b i
              ≡ ok (proc, q))
            × Created pml4 trampoline s q proc xs ps)
  unfolding start_process
  start_process_lem slot proc stack b i h p ys zs lowest nz out was_free fields starts m1 m2 w g
        destroys =
      let e = enter (record s { heap = h; pages = p }) slot proc b i in
      let self : (proc == proc) ≡ true = ground arith in
      elim (init_process_fd_table_lem e proc zs w) [
        | inl (a, d) ↦ inl (a, rw d refl)
        | inr (q, ws, d, m3, v, kernel, pages, counted, images, context, closes, _, _) ↦ inr (
          queued q proc,
          rw d refl,
          created slot proc stack b i q ys zs ws lowest nz out was_free fields starts m1 m2 m3 v (
            kernel,
            subst (Grew s.pages) (sym pages) g,
            counted,
            (λ j off.
                let no : (j == proc) ≡ false = ground (arith, off) in images j off ∙ rw no refl),
            context ∙ rw self refl,
            closes,
            subst
                (λ r.
                  (u : Pmm) × (destroy_address_space pml4 r b.page_table ≡ ok u) × Grew s.pages u)
                (sym pages) destroys,
          ),
        )
      ]
