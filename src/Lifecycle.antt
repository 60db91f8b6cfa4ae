-- ===== src/Lifecycle.antt =====
-- src/kernel/process.c and init_process_fd_table of src/kernel/syscall.c: how processes begin and end.
-- The control blocks stand in the kernel heap; their page tables, in the pages of Pmm. The heap itself lies
-- in pages that Pmm hands out: see `spoils`. The word that
-- `process_create` pushes on the new kernel stack is data of the heap and left out, as is the text.
pub mod Spoil
pub mod Fresh
pub mod Order
pub mod Begin
pub mod Start
pub mod Create
pub mod End
pub mod Destroy
pub mod Undo
pub mod Allocate
pub mod Ready
mod Tests
use simple_os.Prelude.{
  ℕ, zero, suc, ◌+◌, ◌-◌, ◌*◌, ◌/◌, ◌%◌, ◌^◌, ◌==◌, ltb, if◌then◌else◌, not, ◌||◌, ◌&&◌, Bool, true,
  false, List, [], ◌∷◌, ◌++◌, take, replicate, get_or, set, Option, none, some, Run, ok, panic,
  fault, ◌>>=◌,
}
use simple_os.Process.{
  Process, ProcessState, Kernel, write, is_null, is_state, ready_queue_push, ready_queue_remove,
}
use simple_os.Scheduler.{default_quantum}
use simple_os.Kmalloc.{Heap, heap_start, heap_size, kmalloc, kfree}
use simple_os.Pmm.{Pmm, page_size}
use simple_os.Pmm.View.{used}
use simple_os.Vmm.{
  Layout, create_address_space, destroy_address_space, setup_user_stack, setup_user_heap,
}

abbrev pub max_processes : ℕ
max_processes = 64

abbrev pub kernel_stack_bytes : ℕ
kernel_stack_bytes = 8192

-- `sizeof(process_t)` under the System V ABI.
abbrev pub process_bytes : ℕ
process_bytes = 264

abbrev pub max_fds : ℕ
max_fds = 16

-- `sizeof(fd_entry_t)`.
abbrev pub fd_entry_bytes : ℕ
fd_entry_bytes = 32

-- `fd_entry_t`: a node of the file system or a pipe; 0 is no pipe.
pub record FdEntry : Type 0 where
  pub node : Option ℕ
  pub pipe : ℕ
  pub offset : ℕ
  pub flags : ℕ
  pub is_pipe : Bool

abbrev pub closed : FdEntry
closed = record { node = none; pipe = 0; offset = 0; flags = 0; is_pipe = false }

-- `context_t`.
pub record Context : Type 0 where
  pub r15 : ℕ
  pub r14 : ℕ
  pub r13 : ℕ
  pub r12 : ℕ
  pub rbx : ℕ
  pub rbp : ℕ
  pub rsp : ℕ
  pub rip : ℕ
  pub rflags : ℕ

-- The fields of `process_t` that `Process` leaves out. The page table is a field of both.
pub record Image : Type 0 where
  pub name : List ℕ
  pub context : Context
  pub layout : Layout
  pub page_faults : ℕ
  pub fd_table : ℕ
  pub entry_point : ℕ

-- The pages of the heap, which `pmm_init` does not reserve: it counts them among the free ones.
abbrev pub heap_page : ℕ
heap_page = heap_start / page_size

abbrev pub heap_pages : ℕ
heap_pages = heap_size / page_size

unfoldable pub any_page : (ℕ → Bool) → ℕ → ℕ → Bool
any_page f zero page = false
any_page f (suc n) page = let rest = any_page f n (page + 1) in f page || rest

-- Was a page handed out by a call that took the allocator from `p` to `q`? A call that fails does so because
-- no page is left: it has had every page that was free.
abbrev pub handed_out : Pmm → Pmm → Bool → ℕ → Bool
handed_out p q done page = not (used p.bitmap page) && (not done || used q.bitmap page)

-- Has the call cleared what the heap holds? `Heap` and the blocks in it are stores of their own here, apart
-- from the memory of `Pmm`. That is true to the source until a page of the heap is handed out, and cleared
-- and written as a page; what the heap holds from then on is not modelled, and the operations that take
-- pages end in `fault` there.
unfoldable pub spoils : Pmm → Pmm → Bool → Bool
spoils p q done = any_page (handed_out p q done) heap_pages heap_page

-- The control blocks by address, each in two parts, and the tables of descriptors by theirs; they stand in
-- the heap, which is apart from the pages as long as no call `spoils` it.
pub record System : Type 0 where
  pub kernel : Kernel
  pub image : ℕ → Image
  pub fds : ℕ → ℕ → FdEntry
  pub heap : Heap
  pub pages : Pmm
  pub next_pid : ℕ

-- What kzalloc leaves of a control block.
abbrev pub zero_process : Process
zero_process = record {
  pid = 0;
  state = ProcessState.ready;
  page_table = 0;
  kernel_stack = 0;
  kernel_stack_size = 0;
  ticks_total = 0;
  ticks_remaining = 0;
  priority = 0;
  parent_pid = 0;
  exit_status = 0;
  next = 0;
  prev = 0;
}

abbrev pub zero_layout : Layout
zero_layout = record {
  page_table = 0;
  heap_start = 0;
  heap_current = 0;
  heap_max = 0;
  stack_bottom = 0;
  stack_top = 0;
  pages_allocated = 0;
}

abbrev pub zero_context : Context
zero_context = record {
  r15 = 0;
  r14 = 0;
  r13 = 0;
  r12 = 0;
  rbx = 0;
  rbp = 0;
  rsp = 0;
  rip = 0;
  rflags = 0;
}

abbrev pub zero_image : Image
zero_image = record {
  name = [];
  context = zero_context;
  layout = zero_layout;
  page_faults = 0;
  fd_table = 0;
  entry_point = 0;
}

-- The first slot from `i` on, of `n`, that holds NULL.
unfoldable pub find_slot : List ℕ → ℕ → ℕ → Option ℕ
find_slot table zero i = none
find_slot table (suc n) i =
    let rest = find_slot table n (i + 1) in if is_null (get_or table i 0) then some i else rest

abbrev pub put {ℓ} : {A : Type ℓ} → (ℕ → A) → ℕ → A → ℕ → A
put f p a q = if q == p then a else f q

-- The table's address is written to the control block at `proc`; `kmalloc` does not return NULL.
unfoldable pub init_process_fd_table : System → ℕ → Run System
init_process_fd_table s proc = kmalloc s.heap (fd_entry_bytes * max_fds) >>= λ (table, h).
    ok (record s {
      heap = h;
      image = put s.image proc (record (s.image proc) { fd_table = table });
      fds = put s.fds table (λ i. if ltb i max_fds then closed else s.fds table i);
    })

-- The new control block in its slot of the table.
abbrev pub enter : System → ℕ → ℕ → Process → Image → System
enter s slot proc b i = record s {
  kernel = record s.kernel {
    block = write s.kernel.block proc b;
    process_table = set s.kernel.process_table slot proc;
  };
  image = put s.image proc i;
  next_pid = (s.next_pid + 1) % 2 ^ 32;
}

abbrev pub queued : System → ℕ → System
queued s proc = record s { kernel = ready_queue_push s.kernel proc }

-- `idle_stack` and `idle_task` are addresses of the image; the table is cleared before.
unfoldable pub process_init : System → ℕ → ℕ → Run System
process_init s idle_stack idle_task =
    let k = s.kernel in
    let idle = k.idle_process in
    init_process_fd_table
      (record s {
        kernel = record k {
          process_table = set (replicate max_processes 0) 0 idle;
          block = write k.block idle (record (k.block idle) {
            pid = 0;
            state = ProcessState.ready;
            kernel_stack = idle_stack;
            kernel_stack_size = kernel_stack_bytes;
            priority = 255;
            ticks_total = 0;
            ticks_remaining = 1;
          });
        };
        image = put s.image idle (record (s.image idle) {
          name = 105 ∷ 100 ∷ 108 ∷ 101 ∷ [];
          entry_point = idle_task;
          context = record (s.image idle).context {
            rsp = idle_stack + kernel_stack_bytes;
            rip = idle_task;
            rflags = 0x202;
          };
        });
      })
      idle
