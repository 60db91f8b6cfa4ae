-- ===== src/Scheduler/Tests.antt =====
-- Three blocks: the idle process at 100, and processes at 200 and 300. The one at 200 runs, the one
-- at 300 is queued.
use simple_os.Prelude.{ℕ, ◌≡◌, refl, ◌==◌, if◌then◌else◌, true, [], ◌∷◌, arith, inl, inr}
use simple_os.Process.{
  ProcessState, Process, Kernel, process_get_current, ready_queue_push, ready_queue_remove,
  ready_queue_pop,
}
use simple_os.Process.Queue.{IsQueue, remove-IsQueue}
use simple_os.Scheduler.{requeue_current, switch_to, schedule, schedule_next}
use simple_os.Scheduler.Choice.{IsScheduled, schedule_lem, state_after}
use simple_os.Scheduler.Rounds.{schedules, schedules_serve}
use simple_os.Scheduler.Lost.{schedules_lose}
use simple_os.Scheduler.Quantum.{ticks, ticks_preempt}
use simple_os.Signal.{signal_send}
use simple_os.Signal.Queued.{schedule-signal_send}

abbrev block_of : ℕ → ProcessState → Process
block_of pid s = record {
  pid = pid;
  state = s;
  page_table = pid;
  kernel_stack = 4096;
  kernel_stack_size = 8192;
  ticks_total = 0;
  ticks_remaining = 2;
  priority = 1;
  parent_pid = 0;
  exit_status = 0;
  next = 0;
  prev = 0;
}

abbrev blocks : ℕ → Process
blocks p =
    if p == 200
    then block_of 1 ProcessState.running
    else if p == 300
    then block_of 2 ProcessState.ready
    else if p == 400
    then block_of 3 ProcessState.blocked
    else block_of 0 ProcessState.ready

abbrev alone : Kernel
alone = record {
  block = blocks;
  process_table = 100 ∷ 200 ∷ [];
  ready_queue_head = 0;
  ready_queue_tail = 0;
  current_process = 200;
  idle_process = 100;
  scheduler_enabled = true;
  schedule_count = 0;
  events = [];
}

abbrev both : Kernel
both = record alone {
  process_table = 100 ∷ 200 ∷ 300 ∷ [];
  ready_queue_head = 300;
  ready_queue_tail = 300;
}

alone-IsQueue : IsQueue alone []
alone-IsQueue = record { front = refl; back = refl; links = tt; distinct = tt }

both-IsQueue : IsQueue both (300 ∷ [])
both-IsQueue = record {
  front = refl;
  back = refl;
  links = (omega arith, refl, refl, tt);
  distinct = ((λ h. h), tt);
}

alone-IsScheduled : IsScheduled alone 200 []
unfolding process_get_current
alone-IsScheduled = record {
  queue = alone-IsQueue;
  current = refl;
  nonzero = omega arith;
  off_queue = λ h. h;
  enabled = refl;
  idle_first = refl;
  idle_nonzero = omega arith;
}

both-IsScheduled : IsScheduled both 200 (300 ∷ [])
unfolding process_get_current
both-IsScheduled = record {
  queue = both-IsQueue;
  current = refl;
  nonzero = omega arith;
  off_queue = λ h. elim h [ inl e ↦ omega arith | inr f ↦ f ];
  enabled = refl;
  idle_first = refl;
  idle_nonzero = omega arith;
}

abbrev find_third : Kernel → ℕ → ℕ
find_third k pid = if pid == 2 then 300 else if pid == 3 then 400 else 0

schedule_switches : process_get_current (schedule both).0 ≡ 300
unfolding schedule schedule_next requeue_current switch_to process_get_current ready_queue_pop
    ready_queue_push ready_queue_remove
schedule_switches = refl

schedule_lem_example :
    IsScheduled (schedule both).0 300 (200 ∷ [])
    × ((schedule both).1 ≡ true)
    × ((p : ℕ) → ((schedule both).0.block p).state ≡ state_after true 200 300 p (blocks p).state)
    × ((schedule both).0.idle_process ≡ 100)
schedule_lem_example = schedule_lem both 200 (300 ∷ []) both-IsScheduled

schedules_serve_example :
    (process_get_current (schedules 1 both) ≡ 300)
    × (((schedules 1 both).block 300).state ≡ ProcessState.running)
schedules_serve_example = schedules_serve [] 300 [] both 200 both-IsScheduled refl

schedules_lose_example :
    let q = schedules 5 alone in
    (process_get_current q ≡ q.idle_process)
    × IsQueue q []
    × ((q.block 200).state ≡ ProcessState.ready)
schedules_lose_example = schedules_lose 3 alone 200 alone-IsScheduled refl (omega arith)

ticks_preempt_example :
    (process_get_current (ticks 1 both) ≡ 200)
    × IsScheduled (ticks 2 both) 300 (200 ∷ [])
    × (((ticks 2 both).block 300).state ≡ ProcessState.running)
    × (((ticks 2 both).block 200).ticks_remaining ≡ 10)
ticks_preempt_example = ticks_preempt 1 both 200 300 [] both-IsScheduled refl refl

schedule-signal_send_example :
    let q = signal_send find_third both 2 9 in
    ((q.block 300).state ≡ ProcessState.terminated)
    × (process_get_current (schedule q).0 ≡ 300)
    × (((schedule q).0.block 300).state ≡ ProcessState.running)
schedule-signal_send_example =
    schedule-signal_send find_third both 2 9 200 300 [] both-IsScheduled refl refl (inl refl)

remove-IsQueue_example : IsQueue (ready_queue_remove both 300) []
remove-IsQueue_example = remove-IsQueue both 300 [] [] both-IsQueue
