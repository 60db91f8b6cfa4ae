-- ===== src/Syscall/Fork.antt =====
-- `sys_fork`: the child has a copy of its parent's memory and descriptors.
use simple_os.Prelude.{
  ℕ, ◌-◌, ◌<◌, ◌≡◌, ◌≢◌, refl, sym, ap, ap₂, subst, ◌∙◌, ◌⊎◌, inl, inr, ◌==◌, ltb, not, ◌&&◌, true,
  false, List, [], ◌∷◌, ◌++◌, set, none, arith, ok, panic, fault, ◌≤◌, Bool-cases,
}
use simple_os.Scheduler.{default_quantum}
use simple_os.Pmm.{Pmm}
use simple_os.Pmm.Inv.{IsValid}
use simple_os.Kmalloc.{header_size, started}
use simple_os.Kmalloc.Alloc.{IsHeap}
use simple_os.Process.{Process, ProcessState, process_get_current, ready_queue_push}
use simple_os.Process.Links.{In}
use simple_os.Process.Queue.{IsQueue, push-KeepsBlocks, push-IsQueue}
use simple_os.Vmm.{clone_address_space}
use simple_os.Vmm.Walk.{Extends}
use simple_os.Vmm.Mirror.{HeldBelow}
use simple_os.Vmm.Space.{Forked, clone_address_space_lem}
use simple_os.Lifecycle.{System, max_processes, max_fds, spoils}
use simple_os.Lifecycle.Spoil.{HeapTaken, spoils-HeapTaken}
use simple_os.Lifecycle.End.{leave, free_process_struct}
use simple_os.Lifecycle.Fresh.{OneMore, Holds, FindsSlot, kfree_more}
use simple_os.Lifecycle.Order.{OneMore-swap}
use simple_os.Lifecycle.Start.{write-IsQueue}
use simple_os.Lifecycle.Destroy.{free_if_lem}
use simple_os.Lifecycle.Allocate.{Allocated, HeapFull, new_block, allocate_process_struct_lem}
use simple_os.Syscall.{Os, returns, minus_one}
use simple_os.Syscall.Task.{fork_child, sys_fork, set_block}

-- Where the memory cannot be cloned, the block and the stack are given back, the descriptors are not.
free-Allocated :
    (pml4 : ℕ) (s q : System) (child : ℕ) (xs : List (ℕ × ℕ)) (p : Pmm)
    → Allocated s q child xs
    → (r : System) × (ws : List (ℕ × ℕ)) × (free_process_struct pml4 (record q { pages = p }) child
        ≡ ok r)
      × (r.pages ≡ p)
      × OneMore xs (q.image child).fd_table ws
      × IsHeap r.heap ws
unfolding free_process_struct
free-Allocated pml4 s q child xs p a =
    let b : Process = q.kernel.block child in
    let self : (child == child) ≡ true = ground arith in
    let same : b ≡ new_block s a.stack = ap (λ k. k.block child) a.kernel ∙ rw self refl in
    let stack : b.kernel_stack ≡ a.stack = ap (λ x. x.kernel_stack) same in
    let no_table : (b.page_table == 0) ≡ true = ap (λ x. x.page_table == 0) same in
    let nz : (child == 0) ≡ false = ground (arith, a.not_null) in
    let s1 : System = leave (record q { pages = p }) child in
    let (m, m2, m3) =
      OneMore-swap a.stack (q.image child).fd_table a.with_block a.with_stack a.with_fds a.own_stack
        a.own_fds in
    let (ws, m4, m5) =
      OneMore-swap child (q.image child).fd_table xs a.with_block m a.own_block m2 in
    let (h2, e2, v2) =
      free_if_lem s1 b.kernel_stack m a.with_fds
        (subst (λ t. OneMore m t a.with_fds) (sym stack) m3) a.heap in
    let (h3, e3, v3) = kfree_more h2 child ws m m5 v2 in
    (record s1 { heap = h3 }, ws, rw nz (rw e2 (rw no_table (rw e3 refl))), refl, m4, v3)

-- `child` is a process of its own in `q`, and `parent` its parent.
pub record IsFork (os q : Os) (parent child : ℕ) (ps : List ℕ) : Type 0 where
  pub not_null : child ≢ 0
  pub pid : (q.system.kernel.block child).pid ≡ os.system.next_pid
  pub parent_pid : (q.system.kernel.block child).parent_pid ≡ (os.system.kernel.block parent).pid
  pub is_ready : (q.system.kernel.block child).state ≡ ProcessState.ready
  pub queue : IsQueue q.system.kernel (ps ++ child ∷ [])
  pub context : (q.system.image child).context ≡ (os.system.image parent).context
  pub fds :
      (fd : ℕ)
      → fd < max_fds
      → q.system.fds (q.system.image child).fd_table fd
        ≡ os.system.fds (os.system.image parent).fd_table fd
  pub parent_image : q.system.image parent ≡ os.system.image parent
  pub parent_fds :
      q.system.fds (os.system.image parent).fd_table
      ≡ os.system.fds (os.system.image parent).fd_table
  pub pages : Extends os.system.pages q.system.pages
  pub memory :
      Forked os.system.pages
        (os.system.kernel.block parent).page_table
        q.system.pages
        (q.system.kernel.block child).page_table

-- The parts of `fork_child`.
module _ (os : Os) (s : System) (parent child table : ℕ) (p : Pmm) (xs : List (ℕ × ℕ)) (ps : List ℕ)
    (a : Allocated os.system s child xs) (queue : IsQueue os.system.kernel ps) (out : ¬ In child ps)
    (other : parent ≢ child) (held : Holds (os.system.image parent).fd_table xs)
    (some_table : (os.system.image parent).fd_table ≢ 0) where
  self : (child == child) ≡ true
  self = ground arith

  parent_off : (parent == child) ≡ false
  parent_off = ground (arith, other)

  parent_block : s.kernel.block parent ≡ os.system.kernel.block parent
  parent_block = ap (λ k. k.block parent) a.kernel ∙ rw parent_off refl

  child_block : s.kernel.block child ≡ new_block os.system a.stack
  child_block = ap (λ k. k.block child) a.kernel ∙ rw self refl

  parent_image : s.image parent ≡ os.system.image parent
  parent_image = a.images parent other

  abbrev block : Process
  block = record (s.kernel.block child) {
    page_table = table;
    parent_pid = (s.kernel.block parent).pid;
    state = ProcessState.ready;
    priority = (s.kernel.block parent).priority;
    ticks_remaining = default_quantum;
    ticks_total = 0;
  }

  abbrev forked : Os
  forked = fork_child (record os { system = s }) parent child table p

  IsQueue-now : IsQueue (ready_queue_push (set_block s.kernel child block) child) (ps ++ child ∷ [])
  IsQueue-now =
      let before : IsQueue s.kernel ps =
        subst (λ k. IsQueue k ps) (sym a.kernel)
          (write-IsQueue os.system.kernel child (new_block os.system a.stack)
            (set os.system.kernel.process_table a.slot child) ps out queue) in
      push-IsQueue (set_block s.kernel child block) child a.not_null ps
        (write-IsQueue s.kernel child block s.kernel.process_table ps out before) out

  tables_apart : (s.image child).fd_table ≢ (os.system.image parent).fd_table
  tables_apart = a.apart (os.system.image parent).fd_table held

  both_tables : (not ((s.image parent).fd_table == 0) && not ((s.image child).fd_table == 0)) ≡ true
  both_tables =
      let one : (s.image parent).fd_table ≡ (os.system.image parent).fd_table =
        ap (λ i. i.fd_table) parent_image in
      ground (arith, one, some_table, a.own_fds.4)

  child-IsFork :
      Extends os.system.pages p
      → Forked os.system.pages (os.system.kernel.block parent).page_table p table
      → IsFork os forked parent child ps
  unfolding fork_child
  child-IsFork extends memory =
      let k = push-KeepsBlocks (set_block s.kernel child block) child in
      let one : (s.image parent).fd_table ≡ (os.system.image parent).fd_table =
        ap (λ i. i.fd_table) parent_image in
      let kept : s.fds (os.system.image parent).fd_table
          ≡ os.system.fds (os.system.image parent).fd_table =
        a.fds (os.system.image parent).fd_table (λ e. tables_apart (sym e)) in
      record {
        not_null = a.not_null;
        pid = k.pid child ∙ rw self (ap (λ b. b.pid) child_block);
        parent_pid = k.parent_pid child ∙ rw self (ap (λ b. b.pid) parent_block);
        is_ready = k.state child ∙ rw self refl;
        queue = IsQueue-now;
        context = rw self (ap (λ i. i.context) parent_image);
        fds = λ fd low.
            let here : ((s.image child).fd_table == (s.image child).fd_table) ≡ true =
              ground arith in
            let inside : ltb fd max_fds ≡ true = ground (arith, low) in
            rw self (
              rw both_tables
                (rw here (rw inside (ap (λ t. s.fds t fd) one ∙ ap (λ g. g fd) kept))));
        parent_image = rw parent_off parent_image;
        parent_fds =
            (let off : ((os.system.image parent).fd_table == (s.image child).fd_table) ≡ false =
                ground (
                  arith,
                  λ (e : (os.system.image parent).fd_table ≡ (s.image child).fd_table).
                      tables_apart (sym e),
                ) in
              rw both_tables (rw off kept));
        pages = extends;
        memory =
            subst (λ t. Forked os.system.pages (os.system.kernel.block parent).page_table p t)
              (sym (k.page_table child ∙ rw self refl)) memory;
      }

-- The clone of the parent's memory was handed out a page of the heap.
abbrev pub CloneOverrun : ℕ → Os → ℕ → Type 0
CloneOverrun pml4 os parent =
    (table : ℕ) × (p : Pmm) × (clone_address_space pml4 (os.system.kernel.block parent).page_table
        os.system.pages
      ≡ ok (table, p))
    × HeapTaken os.system.pages p (not (table == 0))

-- The queue, the heap and the pages are in order, the blocks of the queue and of the parent are in use, and so
-- are the parent's descriptors and its address space: `sys_fork` returns -1 for want of a slot and changes
-- nothing, or panics where the heap has no room for the block, the stack or the descriptors, or is handed
-- out a page in which the heap lies, after which nothing is defined, or returns -1 where the memory cannot
-- be cloned, at most 4 pages being free then, and the child's table of descriptors stays in use, or returns
-- the new process's identity. The new process is queued, with its parent's context, descriptors, and a copy
-- of its memory.
pub sys_fork_lem :
    (pml4 : ℕ) (os : Os) (xs : List (ℕ × ℕ)) (ps : List ℕ) (parent : ℕ)
    → process_get_current os.system.kernel ≡ parent
    → IsQueue os.system.kernel ps
    → ((p : ℕ) → In p ps → ((started os.system.heap).block (p - header_size)).free ≡ false)
    → ((started os.system.heap).block (parent - header_size)).free ≡ false
    → Holds (os.system.image parent).fd_table xs
    → (os.system.image parent).fd_table ≢ 0
    → IsHeap (started os.system.heap) xs
    → IsValid os.system.pages
    → HeldBelow 256 3 os.system.pages (os.system.kernel.block parent).page_table
    → (FindsSlot os.system.kernel.process_table (max_processes - 1) 1 none
        × (sys_fork pml4 os ≡ ok (returns minus_one [] os)))
      ⊎ (((sys_fork pml4 os ≡ panic) × HeapFull os.system.heap)
          ⊎ (((sys_fork pml4 os ≡ fault) × CloneOverrun pml4 os parent)
              ⊎ (((q : Os) × (fds : ℕ) × (ws : List (ℕ × ℕ)) × (sys_fork pml4 os
                      ≡ ok (returns minus_one [] q))
                    × (q.system.pages.free_pages ≤ 4)
                    × OneMore xs fds ws
                    × IsHeap q.system.heap ws)
                  ⊎ ((child : ℕ) × (q : Os) × (sys_fork pml4 os
                        ≡ ok (returns os.system.next_pid [] q))
                      × IsFork os q parent child ps))))
unfolding sys_fork
sys_fork_lem pml4 os xs ps parent at queue held live table some_table heap pages space =
    elim (allocate_process_struct_lem os.system xs heap) [
      | inl (full, e) ↦ inl (full, rw e refl)
      | inr (inl (e, full)) ↦ inr (inl (rw e refl, full))
      | inr (inr (child, s, e, a)) ↦
          let other : parent ≢ child = λ d. ground (
            arith,
            live,
            subst (λ x. ((started os.system.heap).block (x - header_size)).free ≡ true) (sym d)
                a.was_free,
          ) in
          let out : ¬ In child ps = λ i. ground (arith, held child i, a.was_free) in
          let nz : (child == 0) ≡ false = ground (arith, a.not_null) in
          let (t, p, c, extends, cases) =
            clone_address_space_lem pml4 (os.system.kernel.block parent).page_table os.system.pages
              pages space in
          let same : (s.kernel.block parent).page_table
              ≡ (os.system.kernel.block parent).page_table =
            ap (λ b. b.page_table)
              (parent_block os s parent child t p xs ps a queue out other table some_table) in
          let clone : clone_address_space pml4 (s.kernel.block parent).page_table s.pages
              ≡ ok (t, p) =
            ap₂ (λ b g. clone_address_space pml4 b g) same a.pages ∙ c in
          elim (Bool-cases (spoils s.pages p (not (t == 0)))) [
            | inl over ↦ inr (
                inr (
                  inl (
                    rw at (rw e (rw nz (rw clone (rw over refl)))),
                    (
                      t,
                      p,
                      c,
                      spoils-HeapTaken os.system.pages p (not (t == 0))
                          (ap (λ g. spoils g p (not (t == 0))) (sym a.pages) ∙ over),
                    ),
                  )))
            | inr spared ↦ elim cases [
              | inl (null, few) ↦
                  let zero_table : (t == 0) ≡ true = ground (arith, null) in
                  let (r, ws, f, still, more, v) = free-Allocated pml4 os.system s child xs p a in
                  inr (
                    inr (
                      inr (
                        inl (
                          record os { system = r },
                          (s.image child).fd_table,
                          ws,
                          rw at (rw e (rw nz (rw clone (rw spared (rw zero_table (rw f refl)))))),
                          rw still few,
                          more,
                          v,
                        ))))
              | inr forks ↦
                  let some_space : (t == 0) ≡ false = ground (arith, forks.nonzero) in
                  let pid : (s.kernel.block child).pid ≡ os.system.next_pid =
                    ap (λ b. b.pid)
                      (child_block os s parent child t p xs ps a queue out other table
                        some_table) in
                  inr (
                    inr (
                      inr (
                        inr (
                          child,
                          fork_child (record os { system = s }) parent child t p,
                          rw at (
                              rw e (
                                rw nz (
                                  rw clone (
                                    rw spared (
                                      rw some_space (
                                        ap
                                          (λ n. ok (
                                            returns n [] (
                                              fork_child (record os { system = s }) parent child t
                                                p)))
                                          pid)))))),
                          child-IsFork os s parent child t p xs ps a queue out other table
                              some_table extends forks,
                        ))))
            ]
          ]
    ]
