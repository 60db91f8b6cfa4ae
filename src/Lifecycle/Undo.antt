-- ===== src/Lifecycle/Undo.antt =====
-- `process_destroy` takes back what `process_create` took.
use simple_os.Prelude.{
  ℕ, ◌-◌, ◌<◌, ◌≡◌, ◌≢◌, sym, ap, subst, ◌∙◌, ◌⊎◌, inl, inr, true, false, List, [], get_or, none,
  arith, ok, panic, fault, length, append_nil,
}
use simple_os.Pmm.Inv.{IsValid}
use simple_os.Kmalloc.{header_size, started}
use simple_os.Kmalloc.Alloc.{IsHeap}
use simple_os.Process.Links.{In}
use simple_os.Process.Queue.{IsQueue}
use simple_os.Vmm.Total.{Grew}
use simple_os.Lifecycle.{System, max_processes}
use simple_os.Lifecycle.Begin.{process_create}
use simple_os.Lifecycle.End.{clear_slot, process_destroy}
use simple_os.Lifecycle.Fresh.{OneMore, FindsSlot}
use simple_os.Lifecycle.Order.{OneMore-swap, clear_slot-set}
use simple_os.Lifecycle.Create.{Starved, Overrun, process_create_lem}
use simple_os.Lifecycle.Start.{Created}
use simple_os.Lifecycle.Destroy.{process_destroy_lem}

-- Destroying a process that is new.
destroy_created :
    (pml4 trampoline : ℕ) (s q : System) (xs : List (ℕ × ℕ)) (ps : List ℕ) (proc : ℕ)
    → ((j : ℕ)
        → j < length s.kernel.process_table
        → ((started s.heap).block (get_or s.kernel.process_table j 0 - header_size)).free ≡ true
        → get_or s.kernel.process_table j 0 ≡ 0)
    → ((started s.heap).block (s.kernel.idle_process - header_size)).free ≡ false
    → proc ≢ 0
    → Created pml4 trampoline s q proc xs ps
    → (r : System) × (process_destroy pml4 q proc ≡ ok r)
      × (r.kernel.process_table ≡ s.kernel.process_table)
      × IsQueue r.kernel ps
      × IsHeap r.heap xs
      × Grew s.pages r.pages
destroy_created pml4 trampoline s q xs ps proc listed idle nz c =
    let live : proc ≢ s.kernel.idle_process = λ e. ground (
      arith,
      subst (λ p. ((started s.heap).block (p - header_size)).free ≡ true) e c.was_free,
      idle,
    ) in
    let out : (j : ℕ)
        → j < length s.kernel.process_table
        → get_or s.kernel.process_table j 0 ≢ proc =
      λ j low d. nz (
        sym d
        ∙ listed j low (
            subst (λ p. ((started s.heap).block (p - header_size)).free ≡ true) (sym d)
              c.was_free)) in
    let (mid, m2, m3) =
      OneMore-swap c.stack (q.image proc).fd_table c.with_block c.with_stack c.with_fds c.own_stack
        c.own_fds in
    let (u, d, g) = c.destroys in
    let (r, run, table, back, w, at) =
      process_destroy_lem pml4 q proc ps [] xs c.with_block mid c.with_fds u (ground (arith, nz))
        (ground (arith, live, c.idle)) c.is_ready c.queue c.own_block m2
        (subst (λ p. OneMore mid p c.with_fds) (sym c.kernel_stack) m3) c.heap c.has_table d in
    (
      r,
      run,
      table
          ∙ ap (λ t. clear_slot t proc) c.listed
          ∙ clear_slot-set s.kernel.process_table c.slot proc c.lowest.2 out,
      subst (IsQueue r.kernel) (append_nil ps) back,
      w,
      subst (Grew s.pages) (sym at) g,
    )

-- On a heap, pages and a queue in order, the blocks of the queue, of the table and of the idle process not
-- free: `process_create` returns NULL for want of a slot, or panics for want of memory, or is handed out a page
-- in which the heap lies, after which nothing is defined, or returns a new process, and destroying that one puts the table, the queue and the heap's blocks in use back as they
-- were, and leaves every page that was in use in use.
pub process_destroy-process_create :
    (pml4 trampoline : ℕ) (s : System) (xs : List (ℕ × ℕ)) (ps : List ℕ) (name : List ℕ)
    (entry_point priority : ℕ)
    → IsQueue s.kernel ps
    → ((p : ℕ) → In p ps → ((started s.heap).block (p - header_size)).free ≡ false)
    → ((j : ℕ)
        → j < length s.kernel.process_table
        → ((started s.heap).block (get_or s.kernel.process_table j 0 - header_size)).free ≡ true
        → get_or s.kernel.process_table j 0 ≡ 0)
    → ((started s.heap).block (s.kernel.idle_process - header_size)).free ≡ false
    → IsHeap (started s.heap) xs
    → IsValid s.pages
    → (FindsSlot s.kernel.process_table (max_processes - 1) 1 none
        × (process_create pml4 trampoline s name entry_point priority ≡ ok (0, s)))
      ⊎ (((process_create pml4 trampoline s name entry_point priority ≡ panic) × Starved pml4 s)
          ⊎ (((process_create pml4 trampoline s name entry_point priority ≡ fault) × Overrun pml4 s)
              ⊎ ((proc : ℕ) × (q : System) × (r : System) × (process_create pml4 trampoline s name
                      entry_point priority
                    ≡ ok (proc, q))
                  × (process_destroy pml4 q proc ≡ ok r)
                  × (r.kernel.process_table ≡ s.kernel.process_table)
                  × IsQueue r.kernel ps
                  × IsHeap r.heap xs
                  × Grew s.pages r.pages)))
process_destroy-process_create pml4 trampoline s xs ps name entry_point priority queue held listed
      idle heap pages =
    elim (process_create_lem pml4 trampoline s xs ps name entry_point priority queue held heap
      pages) [
        | inl full ↦ inl full
        | inr (inl starved) ↦ inr (inl starved)
        | inr (inr (inl over)) ↦ inr (inr (inl over))
        | inr (inr (inr (proc, q, e, c))) ↦
            let (r, d, table, back, w, g) =
              destroy_created pml4 trampoline s q xs ps proc listed idle c.not_null c in
            inr (inr (inr (proc, q, r, e, d, table, back, w, g)))
      ]
