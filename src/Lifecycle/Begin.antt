-- ===== src/Lifecycle/Begin.antt =====
-- src/kernel/process.c: `process_create` and `allocate_process_struct`.
use simple_os.Prelude.{
  ℕ, ◌+◌, ◌-◌, ◌==◌, if◌then◌else◌, not, List, take, Option, none, some, Run, ok, panic, fault,
  ◌>>=◌,
}
use simple_os.Process.{Process}
use simple_os.Scheduler.{default_quantum}
use simple_os.Kmalloc.{kmalloc, kfree}
use simple_os.Vmm.{create_address_space, destroy_address_space, setup_user_stack, setup_user_heap}
use simple_os.Lifecycle.{
  System, Image, max_processes, kernel_stack_bytes, process_bytes, zero_process, zero_layout,
  zero_context, zero_image, spoils, find_slot, init_process_fd_table, enter, queued,
}

-- The slot and the identity of a process for `fork`.
unfoldable pub allocate_at : System → ℕ → Run (ℕ × System)
allocate_at s slot = kmalloc s.heap process_bytes >>= λ (proc, h1).
    if proc == 0
    then ok (0, record s { heap = h1 })
    else kmalloc h1 kernel_stack_bytes >>= λ (stack, h2).
        if stack == 0
        then (kfree h2 proc >>= λ h3. ok (0, record s { heap = h3 }))
        else init_process_fd_table
            (enter (record s { heap = h2 }) slot proc
              (record zero_process {
                pid = s.next_pid;
                kernel_stack = stack;
                kernel_stack_size = kernel_stack_bytes;
              })
              zero_image)
            proc
          >>= λ q. ok (proc, q)

abbrev pub allocate_in : System → Option ℕ → Run (ℕ × System)
allocate_in s none = ok (0, s)
allocate_in s (some slot) = allocate_at s slot

unfoldable pub allocate_process_struct : System → Run (ℕ × System)
allocate_process_struct s = allocate_in s (find_slot s.kernel.process_table (max_processes - 1) 1)

-- The end of `process_create`: the new block, its descriptors, the queue.
unfoldable pub start_process : System → ℕ → ℕ → Process → Image → Run (ℕ × System)
start_process s slot proc b i =
    init_process_fd_table (enter s slot proc b i) proc >>= λ q. ok (proc, queued q proc)

module _ (pml4 : ℕ) (process_entry_trampoline : ℕ) where
  -- `process_create` once it has its slot, its blocks and its page table: the user's stack and heap, the
  -- fields, and the queue.
  unfoldable pub finish_create : System → ℕ → List ℕ → ℕ → ℕ → ℕ → ℕ → ℕ → Run (ℕ × System)
  finish_create s slot name entry_point priority proc stack table =
      setup_user_stack (record zero_layout { page_table = table }) s.pages >>= λ (up, l, p).
      if spoils s.pages p up
      then fault
      else if not up
      then (destroy_address_space pml4 p table >>= λ _.
          kfree s.heap stack >>= λ h. kfree h proc >>= λ _. panic)
      else start_process (record s { pages = p }) slot proc
          (record zero_process {
            pid = s.next_pid;
            page_table = table;
            kernel_stack = stack;
            kernel_stack_size = kernel_stack_bytes;
            ticks_remaining = default_quantum;
            priority = priority;
          })
          (record zero_image {
            name = take 31 name;
            context = record zero_context {
              rsp = stack + kernel_stack_bytes - 8;
              rip = process_entry_trampoline;
              rflags = 0x202;
            };
            layout = record (setup_user_heap l) { pages_allocated = 0 };
            entry_point = entry_point;
          })

  unfoldable pub create_at : System → ℕ → List ℕ → ℕ → ℕ → Run (ℕ × System)
  create_at s slot name entry_point priority = kmalloc s.heap process_bytes >>= λ (proc, h1).
      if proc == 0
      then panic
      else kmalloc h1 kernel_stack_bytes >>= λ (stack, h2).
          if stack == 0
          then (kfree h2 proc >>= λ _. panic)
          else create_address_space pml4 s.pages >>= λ (table, p1).
              if spoils s.pages p1 (not (table == 0))
              then fault
              else if table == 0
              then (kfree h2 stack >>= λ h3. kfree h3 proc >>= λ _. panic)
              else finish_create (record s { heap = h2; pages = p1 }) slot name entry_point priority
                  proc stack table

  -- The result 0 is NULL.
  unfoldable pub create_in : System → Option ℕ → List ℕ → ℕ → ℕ → Run (ℕ × System)
  create_in s none name entry_point priority = ok (0, s)
  create_in s (some slot) name entry_point priority = create_at s slot name entry_point priority

  unfoldable pub process_create : System → List ℕ → ℕ → ℕ → Run (ℕ × System)
  process_create s name entry_point priority =
      create_in s (find_slot s.kernel.process_table (max_processes - 1) 1) name entry_point priority
