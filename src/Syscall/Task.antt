-- ===== src/Syscall/Task.antt =====
-- src/kernel/syscall.c: the calls on processes and their memory, and the handler of the interrupt.
use simple_os.Prelude.{
  ℕ, zero, suc, ◌+◌, ◌-◌, ◌/◌, ◌%◌, ◌^◌, ◌==◌, ltb, leb, if◌then◌else◌, not, ◌||◌, ◌&&◌, Bool, true,
  false, List, [], ◌∷◌, ◌++◌, take, Option, none, some, Run, ok, fault, ◌>>=◌,
}
use simple_os.Process.{
  Process, ProcessState, Kernel, write, is_null, process_get_current, ready_queue_push,
  find_zombie_child,
}
use simple_os.Scheduler.{default_quantum, schedule, process_exit}
use simple_os.Signal.{signal_send}
use simple_os.Pmm.{Pmm, page_size}
use simple_os.Vmm.{
  Layout, page_of, user_stack_top, alloc_user_pages, clone_address_space, clear_user_space,
}
use simple_os.Lifecycle.{max_fds, put, spoils}
use simple_os.Lifecycle.Begin.{allocate_process_struct}
use simple_os.Lifecycle.End.{free_process_struct}
use simple_os.Syscall.{Os, Reply, returns, waits, minus_one}

abbrev pub with_kernel : Os → Kernel → Os
with_kernel os k = record os { system = record os.system { kernel = k } }

abbrev pub set_block : Kernel → ℕ → Process → Kernel
set_block k p b = record k { block = write k.block p b }

-- The caller runs on only where `schedule` has not switched.
abbrev scheduled : Os → Kernel × Bool → Reply
scheduled os (k, switched) =
    if switched then waits [] (with_kernel os k) else returns 0 [] (with_kernel os k)

unfoldable pub sys_exit : Os → ℕ → Run Reply
sys_exit os status =
    let k = os.system.kernel in
    let current = process_get_current k in
    let k1 =
      set_block k current
        (record (k.block current) { exit_status = status % 2 ^ 32; state = ProcessState.zombie }) in
    if (k.block current).parent_pid == 0
    then (process_exit k1 >>= λ k2. ok (
        if is_null k1.current_process || k1.current_process == k1.idle_process
        then returns 0 [] (with_kernel os k2)
        else waits [] (with_kernel os k2)))
    else ok (scheduled os (schedule k1))

-- The loop over the pages of the larger heap, with `n` pages left, the next at `page`; `brk` is the old end.
unfoldable pub sbrk_loop : ℕ → ℕ → ℕ → Layout → Pmm → Run (Bool × Layout × Pmm)
sbrk_loop zero page brk l p = ok (true, l, p)
sbrk_loop (suc n) page brk l p =
    let skip = sbrk_loop n (page + page_size) brk l p in
    if leb brk page
    then (alloc_user_pages l page 1 p >>= λ (done, k, q).
        if done then sbrk_loop n (page + page_size) brk k q else ok (false, k, q))
    else skip

-- The pages that the heap from `brk` to `new` reaches into, from that of `brk` on.
abbrev pub sbrk_pages : ℕ → ℕ → ℕ
sbrk_pages brk new = (page_of ((new + (page_size - 1)) % 2 ^ 64) - page_of brk) / page_size

abbrev pub set_layout : Os → ℕ → Layout → Pmm → Os
set_layout os process l p = record os {
  system = record os.system {
    image = put os.system.image process (record (os.system.image process) { layout = l });
    pages = p;
  };
}

unfoldable pub sys_sbrk : Os → ℕ → Run Reply
sys_sbrk os increment =
    let current = process_get_current os.system.kernel in
    let l = (os.system.image current).layout in
    let old = l.heap_current in
    let new = (old + increment) % 2 ^ 64 in
    if increment == 0
    then ok (returns old [] os)
    else if ltb l.heap_max new
    then ok (returns minus_one [] os)
    else if ltb new l.heap_start
    then ok (returns minus_one [] os)
    else if ltb increment (2 ^ 63)
    then (sbrk_loop (sbrk_pages old new) (page_of old) old l os.system.pages >>= λ (done, k, p).
        if spoils os.system.pages p done
        then fault
        else ok (
            if done
            then returns old [] (set_layout os current (record k { heap_current = new }) p)
            else returns minus_one [] (set_layout os current k p)))
    else ok
        (returns old [] (set_layout os current (record l { heap_current = new }) os.system.pages))

abbrev child_suffix : List ℕ
child_suffix = 91 ∷ 99 ∷ 104 ∷ 105 ∷ 108 ∷ 100 ∷ 93 ∷ []

-- What the child takes from its parent once it has an address space; the layout names that.
unfoldable pub fork_child : Os → ℕ → ℕ → ℕ → Pmm → Os
fork_child os parent child table p =
    let s = os.system in
    let k = s.kernel in
    let from = k.block parent in
    let i = s.image parent in
    let j = s.image child in
    let k1 = set_block k child (record (k.block child) {
      page_table = table;
      parent_pid = from.pid;
      state = ProcessState.ready;
      priority = from.priority;
      ticks_remaining = default_quantum;
      ticks_total = 0;
    }) in
    record os {
      system = record s {
        kernel = ready_queue_push k1 child;
        image = put s.image child (record j {
          name = take 24 i.name ++ child_suffix;
          context = i.context;
          layout = record i.layout { page_table = table };
          page_faults = 0;
        });
        fds =
            if not (i.fd_table == 0) && not (j.fd_table == 0)
            then put s.fds j.fd_table
                (λ fd. if ltb fd max_fds then s.fds i.fd_table fd else s.fds j.fd_table fd)
            else s.fds;
        pages = p;
      };
    }

module _ (pml4 : ℕ) where
  unfoldable pub sys_fork : Os → Run Reply
  sys_fork os =
      let parent = process_get_current os.system.kernel in
      allocate_process_struct os.system >>= λ (child, s).
      if child == 0
      then ok (returns minus_one [] (record os { system = s }))
      else clone_address_space pml4 (s.kernel.block parent).page_table s.pages >>= λ (table, p).
          if spoils s.pages p (not (table == 0))
          then fault
          else if table == 0
          then (free_process_struct pml4 (record s { pages = p }) child >>= λ q.
              ok (returns minus_one [] (record os { system = q })))
          else ok (
              returns (s.kernel.block child).pid []
                (fork_child (record os { system = s }) parent child table p))

  -- One round of the loop: a child is reaped, its status being what is stored, or the caller waits.
  unfoldable pub sys_wait : Os → ℕ → Run Reply
  sys_wait os status_ptr =
      let k = os.system.kernel in
      let parent = process_get_current k in
      let child = find_zombie_child k (k.block parent).pid in
      let k1 = set_block k parent (record (k.block parent) { state = ProcessState.waiting }) in
      if not (child == 0)
      then (free_process_struct pml4 os.system child >>= λ s. ok (
          returns (k.block child).pid
            (if status_ptr == 0 then [] else (k.block child).exit_status ∷ [])
            (record os { system = s })))
      else ok (waits [] (with_kernel os (schedule k1).0))

-- The programs that are built in: the path, the entry point and the name.
abbrev pub Builtin : Type 0
Builtin = List ℕ × ℕ × List ℕ

unfoldable pub same_text : List ℕ → List ℕ → Bool
same_text [] [] = true
same_text [] (d ∷ ds) = false
same_text (c ∷ cs) [] = false
same_text (c ∷ cs) (d ∷ ds) = (c == d) && same_text cs ds

unfoldable pub find_builtin : List ℕ → List Builtin → Option Builtin
find_builtin path [] = none
find_builtin path (b ∷ bs) =
    let rest = find_builtin path bs in if same_text path b.0 then some b else rest

module _ (builtins : List Builtin) where
  abbrev executed : Os → ℕ → Option Builtin → Reply
  executed os current none = returns minus_one [] os
  executed os current (some (path, entry, name)) =
      let i = os.system.image current in
      returns 0 [] (record os {
        system = record os.system {
          pages = clear_user_space os.system.pages (os.system.kernel.block current).page_table;
          image = put os.system.image current (record i {
            name = take 31 name;
            context = record i.context { rip = entry; rsp = user_stack_top - 16; rflags = 0x202 };
          });
        };
      })

  unfoldable pub sys_execve : Os → Option (List ℕ) → Reply
  sys_execve os none = returns minus_one [] os
  sys_execve os (some path) =
      executed os (process_get_current os.system.kernel) (find_builtin path builtins)

module _ (process_find_by_pid : Kernel → ℕ → ℕ) where
  unfoldable pub sys_kill : Os → ℕ → ℕ → Reply
  sys_kill os pid sig = returns 0 [] (
      with_kernel os
        (signal_send process_find_by_pid os.system.kernel (pid % 2 ^ 32) (sig % 2 ^ 32)))
