-- ===== src/Scheduler.antt =====
-- src/kernel/scheduler.c, and the calls of src/kernel/process.c that end in `schedule`. A call of
-- `context_switch` is recorded as an event: the code after it runs when the old process is chosen
-- again.
pub mod Choice
pub mod Rounds
pub mod Lost
pub mod Quantum
mod Tests
use simple_os.Prelude.{
  ℕ, ◌+◌, ◌-◌, ◌%◌, ◌^◌, ◌==◌, ltb, if◌then◌else◌, not, ◌&&◌, ◌||◌, Bool, true, false, List, [],
  ◌∷◌, get_or, Run, ok, panic, ◌>>=◌,
}
use simple_os.Process.{
  ProcessState, Process, Event, Kernel, is_null, is_state, write, set_state, ready_queue_push,
  ready_queue_pop, process_get_current,
}

abbrev pub default_quantum : ℕ
default_quantum = 10

-- The start of `schedule`: a current process that runs goes back to the queue.
unfoldable pub requeue_current : Kernel → ℕ → Kernel
requeue_current k current =
    if not (is_null current) && is_state ProcessState.running (k.block current).state
    then ready_queue_push (set_state k current ProcessState.ready) current
    else k

-- The end of `schedule`: the next process runs, on its page table.
unfoldable pub switch_to : Kernel → ℕ → ℕ → Kernel
switch_to k current next =
    let k1 = record (set_state k next ProcessState.running) { current_process = next } in
    let pt = (k1.block next).page_table in
    let k2 =
      if (is_null current || not ((k1.block current).page_table == pt)) && not (is_null pt)
      then record k1 { events = Event.load_cr3 pt ∷ k1.events }
      else k1 in
    record k2 { events = Event.switch_context current next ∷ k2.events }

-- The second component is whether the processor has changed hands.
unfoldable pub schedule_next : Kernel → ℕ → Kernel × Bool
schedule_next k current =
    let (popped, k1) = ready_queue_pop k in
    let next = if is_null popped then get_or k1.process_table 0 0 else popped in
    if not (current == next) then (switch_to k1 current next, true) else (k1, false)

unfoldable pub schedule : Kernel → Kernel × Bool
schedule k =
    if not k.scheduler_enabled
    then (k, false)
    else let current = process_get_current k in
      let k1 = record k { schedule_count = (k.schedule_count + 1) % 2 ^ 64 } in
      schedule_next (requeue_current k1 current) current

abbrev pub set_ticks : Kernel → ℕ → ℕ → ℕ → Kernel
set_ticks k p total remaining = record k {
  block = write k.block p (record (k.block p) { ticks_total = total; ticks_remaining = remaining });
}

unfoldable pub scheduler_tick : Kernel → Kernel
scheduler_tick k =
    if not k.scheduler_enabled
    then k
    else let current = process_get_current k in
      let b = k.block current in
      let left = if ltb 0 b.ticks_remaining then b.ticks_remaining - 1 else b.ticks_remaining in
      let total = (b.ticks_total + 1) % 2 ^ 64 in
      if is_null current
      then k
      else if left == 0
      then (schedule (set_ticks k current total default_quantum)).0
      else set_ticks k current total left

unfoldable pub scheduler_init : Kernel → Kernel
scheduler_init k = record k { scheduler_enabled = false; schedule_count = 0 }

unfoldable pub scheduler_enable : Kernel → Kernel
scheduler_enable k = (schedule (record k { scheduler_enabled = true })).0

unfoldable pub scheduler_disable : Kernel → Kernel
scheduler_disable k = record k { scheduler_enabled = false }

unfoldable pub process_block : Kernel → Kernel
process_block k =
    if not (is_null k.current_process) && not (k.current_process == k.idle_process)
    then (schedule (set_state k k.current_process ProcessState.blocked)).0
    else k

unfoldable pub process_yield : Kernel → Kernel
process_yield k =
    let current = process_get_current k in
    let b = k.block current in
    let stack_top = (b.kernel_stack + b.kernel_stack_size) % 2 ^ 64 in
    let k1 =
      if not (is_null current) && not (current == k.idle_process)
      then record k { events = Event.set_kernel_stack stack_top ∷ k.events }
      else k in
    (schedule k1).0

-- If `schedule` comes back to the process that exits, the kernel panics.
unfoldable pub process_exit : Kernel → Run Kernel
process_exit k =
    if not (is_null k.current_process) && not (k.current_process == k.idle_process)
    then (let (k1, switched) = schedule (set_state k k.current_process ProcessState.terminated) in
        if switched then ok k1 else panic)
    else ok k
