-- ===== src/Process.antt =====
-- src/kernel/process.c: the process control blocks, the ready queue that runs through them, and the
-- calls that change a process's state; src/kernel/scheduler.c stands in Scheduler.
pub mod Links
pub mod Queue
use simple_os.Prelude.{
  ℕ, ◌+◌, ◌==◌, if◌then◌else◌, not, ◌&&◌, ◌||◌, Bool, true, false, List, [], ◌∷◌, Option, none,
  some,
}

pub data ProcessState : Type 0 where
  ready running blocked waiting zombie terminated : ProcessState

-- `process_t`, without the CPU context, the name and the memory layout, which the code of this
-- part only hands on. Pointers are addresses, 0 is NULL.
pub record Process : Type 0 where
  pub pid : ℕ
  pub state : ProcessState
  pub page_table : ℕ
  pub kernel_stack : ℕ
  pub kernel_stack_size : ℕ
  pub ticks_total : ℕ
  pub ticks_remaining : ℕ
  pub priority : ℕ
  pub parent_pid : ℕ
  pub exit_status : ℕ
  pub next : ℕ
  pub prev : ℕ

-- What the kernel asks of the processor: the calls that leave the C code.
pub data Event : Type 0 where
  load_cr3 : ℕ → Event
  switch_context : ℕ → ℕ → Event
  set_kernel_stack : ℕ → Event

-- The control blocks by address, and the variables of process.c and scheduler.c. `idle_process` is
-- the address of the static block; the latest event stands first.
pub record Kernel : Type 0 where
  pub block : ℕ → Process
  pub process_table : List ℕ
  pub ready_queue_head : ℕ
  pub ready_queue_tail : ℕ
  pub current_process : ℕ
  pub idle_process : ℕ
  pub scheduler_enabled : Bool
  pub schedule_count : ℕ
  pub events : List Event

abbrev pub is_null : ℕ → Bool
is_null p = p == 0

abbrev pub is_state : ProcessState → ProcessState → Bool
is_state ProcessState.ready s = elim s [ ProcessState.ready ↦ true | _ ↦ false ]
is_state ProcessState.running s = elim s [ ProcessState.running ↦ true | _ ↦ false ]
is_state ProcessState.blocked s = elim s [ ProcessState.blocked ↦ true | _ ↦ false ]
is_state ProcessState.waiting s = elim s [ ProcessState.waiting ↦ true | _ ↦ false ]
is_state ProcessState.zombie s = elim s [ ProcessState.zombie ↦ true | _ ↦ false ]
is_state ProcessState.terminated s = elim s [ ProcessState.terminated ↦ true | _ ↦ false ]

-- A write to the control block at `p`.
abbrev pub write : (ℕ → Process) → ℕ → Process → ℕ → Process
write f p b q = if q == p then b else f q

abbrev pub set_next : Kernel → ℕ → ℕ → Kernel
set_next k p v = record k { block = write k.block p (record (k.block p) { next = v }) }

abbrev pub set_prev : Kernel → ℕ → ℕ → Kernel
set_prev k p v = record k { block = write k.block p (record (k.block p) { prev = v }) }

abbrev pub set_state : Kernel → ℕ → ProcessState → Kernel
set_state k p s = record k { block = write k.block p (record (k.block p) { state = s }) }

unfoldable pub ready_queue_push : Kernel → ℕ → Kernel
ready_queue_push k p =
    let k1 = set_prev (set_next k p 0) p k.ready_queue_tail in
    let k2 =
      if not (is_null k.ready_queue_tail)
      then set_next k1 k.ready_queue_tail p
      else record k1 { ready_queue_head = p } in
    record k2 { ready_queue_tail = p }

-- The two conditionals of `ready_queue_remove`, each on what the block holds when it is reached.
unfoldable pub unlink_prev : Kernel → ℕ → Kernel
unlink_prev k p =
    if not (is_null (k.block p).prev)
    then set_next k (k.block p).prev (k.block p).next
    else record k { ready_queue_head = (k.block p).next }

unfoldable pub unlink_next : Kernel → ℕ → Kernel
unlink_next k p =
    if not (is_null (k.block p).next)
    then set_prev k (k.block p).next (k.block p).prev
    else record k { ready_queue_tail = (k.block p).prev }

unfoldable pub ready_queue_remove : Kernel → ℕ → Kernel
unfolding unlink_prev unlink_next
ready_queue_remove k p = let k2 = unlink_next (unlink_prev k p) p in set_prev (set_next k2 p 0) p 0

unfoldable pub ready_queue_pop : Kernel → ℕ × Kernel
ready_queue_pop k =
    let p = k.ready_queue_head in if not (is_null p) then (p, ready_queue_remove k p) else (p, k)

unfoldable pub process_get_current : Kernel → ℕ
process_get_current k =
    if not (is_null k.current_process) then k.current_process else k.idle_process

unfoldable pub process_get_pid : Kernel → ℕ
process_get_pid k = (k.block (process_get_current k)).pid

unfoldable pub process_get_state : Kernel → ℕ → ProcessState
process_get_state k p = if not (is_null p) then (k.block p).state else ProcessState.terminated

unfoldable pub process_unblock : Kernel → ℕ → Kernel
process_unblock k p =
    if not (is_null p) && is_state ProcessState.blocked (k.block p).state
    then ready_queue_push (set_state k p ProcessState.ready) p
    else k

-- The loop of `find_zombie_child` over the rest of the table; 0 is NULL.
unfoldable pub find_zombie_in : Kernel → ℕ → List ℕ → ℕ
find_zombie_in k parent_pid [] = 0
find_zombie_in k parent_pid (p ∷ ps) =
    if not (is_null p)
      && (k.block p).parent_pid == parent_pid
      && is_state ProcessState.zombie (k.block p).state
    then p
    else find_zombie_in k parent_pid ps

unfoldable pub find_zombie_child : Kernel → ℕ → ℕ
find_zombie_child k parent_pid = find_zombie_in k parent_pid k.process_table
