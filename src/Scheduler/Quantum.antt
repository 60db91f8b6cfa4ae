-- ===== src/Scheduler/Quantum.antt =====
-- `scheduler_tick`: a process keeps the processor for the ticks of its quantum, and no longer.
use simple_os.Prelude.{
  ℕ, zero, suc, ◌+◌, ◌-◌, ◌%◌, ◌^◌, ◌<◌, ◌≡◌, refl, sym, ◌∙◌, subst, inl, inr, ◌==◌, ltb,
  if◌then◌else◌, not, ◌&&◌, Bool, Bool-cases, true, false, List, [], ◌∷◌, ◌++◌, get_or, arith,
}
use simple_os.Process.{
  ProcessState, Kernel, is_null, is_state, set_state, ready_queue_pop, process_get_current,
}
use simple_os.Process.Queue.{push-KeepsBlocks, remove-KeepsBlocks}
use simple_os.Scheduler.{
  requeue_current, switch_to, schedule_next, schedule, scheduler_tick, set_ticks, default_quantum,
}
use simple_os.Scheduler.Choice.{IsScheduled, IsQueue-frame}
use simple_os.Scheduler.Rounds.{schedule-cons}

-- `n` timer interrupts.
pub ticks : ℕ → Kernel → Kernel
ticks zero k = k
ticks (suc n) k = ticks n (scheduler_tick k)

abbrev spent : Kernel → ℕ → ℕ → Kernel
spent k c left = set_ticks k c (((k.block c).ticks_total + 1) % 2 ^ 64) left

spent-IsScheduled :
    (k : Kernel) (c left : ℕ) (xs : List ℕ) → IsScheduled k c xs → IsScheduled (spent k c left) c xs
unfolding process_get_current
spent-IsScheduled k c left xs v = record {
  queue =
      IsQueue-frame {k = k} (spent k c left) (λ y. (ground arith, ground arith)) refl refl v.queue;
  current = ground (arith, v.current);
  nonzero = v.nonzero;
  off_queue = v.off_queue;
  enabled = v.enabled;
  idle_first = v.idle_first;
  idle_nonzero = v.idle_nonzero;
}

-- A tick that leaves some of the quantum, and one that does not.
tick_within :
    (k : Kernel) (c : ℕ) (xs : List ℕ)
    → IsScheduled k c xs
    → 1 < (k.block c).ticks_remaining
    → scheduler_tick k ≡ spent k c ((k.block c).ticks_remaining - 1)
unfolding scheduler_tick
tick_within k c xs v h =
    let live : is_null c ≡ false = ground (arith, v.nonzero) in
    let more : ltb 0 (k.block c).ticks_remaining ≡ true = ground arith in
    let some_left : ((k.block c).ticks_remaining - 1 == 0) ≡ false = ground arith in
    simp (v.current, v.enabled, live, more, some_left)

tick_last :
    (k : Kernel) (c : ℕ) (xs : List ℕ)
    → IsScheduled k c xs
    → (k.block c).ticks_remaining ≡ 1
    → scheduler_tick k ≡ (schedule (spent k c default_quantum)).0
unfolding scheduler_tick
tick_last k c xs v h =
    let live : is_null c ≡ false = ground (arith, v.nonzero) in simp (v.current, v.enabled, live, h)

-- `schedule` spends nothing of any quantum.
abbrev left_of : Kernel → ℕ → ℕ
left_of k p = (k.block p).ticks_remaining

switch_to-left_of : (k : Kernel) (c n p : ℕ) → left_of (switch_to k c n) p ≡ left_of k p
unfolding switch_to
switch_to-left_of k c n p = ground arith

requeue_current-left_of : (k : Kernel) (c p : ℕ) → left_of (requeue_current k c) p ≡ left_of k p
unfolding requeue_current
requeue_current-left_of k c p =
    let runs = not (is_null c) && is_state ProcessState.running (k.block c).state in
    let pushed = push-KeepsBlocks (set_state k c ProcessState.ready) c in
    elim (Bool-cases runs) [ inl e ↦ rw e (pushed.ticks p ∙ ground arith) | inr e ↦ rw e refl ]

ready_queue_pop-left_of : (k : Kernel) (p : ℕ) → left_of (ready_queue_pop k).1 p ≡ left_of k p
unfolding ready_queue_pop
ready_queue_pop-left_of k p = elim (Bool-cases (is_null k.ready_queue_head)) [
  | inl e ↦ rw e refl
  | inr e ↦ rw e ((remove-KeepsBlocks k k.ready_queue_head).ticks p)
]

abbrev finish : Kernel → ℕ → ℕ → Kernel × Bool
finish k c n = if not (c == n) then (switch_to k c n, true) else (k, false)

finish-left_of : (k : Kernel) (c n p : ℕ) → left_of (finish k c n).0 p ≡ left_of k p
finish-left_of k c n p = elim (Bool-cases (c == n)) [
  | inl e ↦ rw e refl
  | inr e ↦ rw e (switch_to-left_of k c n p)
]

schedule_next-left_of : (k : Kernel) (c p : ℕ) → left_of (schedule_next k c).0 p ≡ left_of k p
unfolding schedule_next
schedule_next-left_of k c p =
    let popped = ready_queue_pop k in
    let n = if is_null popped.0 then get_or popped.1.process_table 0 0 else popped.0 in
    finish-left_of popped.1 c n p ∙ ready_queue_pop-left_of k p

either-left_of :
    (k : Kernel) (r : Kernel × Bool) (p : ℕ) (b : Bool)
    → left_of r.0 p ≡ left_of k p
    → left_of (if◌then◌else◌ {A = Kernel × Bool} b (k, false) r).0 p ≡ left_of k p
either-left_of k r p true h = refl
either-left_of k r p false h = h

schedule-left_of : (k : Kernel) (p : ℕ) → left_of (schedule k).0 p ≡ left_of k p
unfolding schedule
schedule-left_of k p =
    let c = process_get_current k in
    let counted : Kernel = record k { schedule_count = (k.schedule_count + 1) % 2 ^ 64 } in
    either-left_of k (schedule_next (requeue_current counted c) c) p (not k.scheduler_enabled)
      (schedule_next-left_of (requeue_current counted c) c p ∙ requeue_current-left_of counted c p)

-- A RUNNING process with `n + 1` ticks left of its quantum is still current after `n` ticks, and
-- after one more the first process of the queue is, RUNNING, with the other behind the queue and
-- with a full quantum of 10 ticks for its next turn.
pub ticks_preempt :
    (n : ℕ) (k : Kernel) (c x : ℕ) (xs : List ℕ)
    → IsScheduled k c (x ∷ xs)
    → (k.block c).state ≡ ProcessState.running
    → (k.block c).ticks_remaining ≡ suc n
    → (process_get_current (ticks n k) ≡ c)
      × IsScheduled (ticks (suc n) k) x (xs ++ c ∷ [])
      × (((ticks (suc n) k).block x).state ≡ ProcessState.running)
      × (((ticks (suc n) k).block c).ticks_remaining ≡ 10)
unfolding ticks
ticks_preempt zero k c x xs v runs left =
    let w = spent-IsScheduled k c default_quantum (x ∷ xs) v in
    let (next, run) = schedule-cons (spent k c default_quantum) c x xs w (ground (arith, runs)) in
    let last = tick_last k c (x ∷ xs) v left in
    let again : left_of (schedule (spent k c default_quantum)).0 c ≡ 10 =
      schedule-left_of (spent k c default_quantum) c ∙ ground arith in
    (v.current, rw last next, rw last run, rw last again)
ticks_preempt (suc n) k c x xs v runs left =
    let left' = (k.block c).ticks_remaining - 1 in
    subst
      (λ s.
        (process_get_current (ticks n s) ≡ c)
        × IsScheduled (ticks (suc n) s) x (xs ++ c ∷ [])
        × (((ticks (suc n) s).block x).state ≡ ProcessState.running)
        × (((ticks (suc n) s).block c).ticks_remaining ≡ 10))
      (sym (tick_within k c (x ∷ xs) v (omega arith)))
      (ticks_preempt n (spent k c left') c x xs (spent-IsScheduled k c left' (x ∷ xs) v)
        (ground (arith, runs)) (ground (arith, left)))
