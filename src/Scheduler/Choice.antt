-- ===== src/Scheduler/Choice.antt =====
-- Which process `schedule` chooses: the oldest of the queue, behind which a running process has put
-- itself, and the idle process if the queue is empty.
use simple_os.Prelude.{
  ℕ, ◌+◌, ◌%◌, ◌^◌, ◌≡◌, ◌≢◌, refl, ◌∙◌, sym, ap, subst, inl, inr, ◌==◌, if◌then◌else◌, not, ◌&&◌,
  Bool, true, false, List, [], ◌∷◌, ◌++◌, get_or, arith, Bool-cases,
}
use simple_os.Process.{
  ProcessState, Process, Kernel, is_null, is_state, set_state, ready_queue_remove,
  process_get_current,
}
use simple_os.Process.Links.{In, Distinct, Seg, head_of}
use simple_os.Process.Queue.{
  IsQueue, KeepsBlocks, push-IsQueue, push-KeepsBlocks, remove-KeepsBlocks, pop-IsQueue_nil,
  pop-IsQueue_cons,
}
use simple_os.Scheduler.{requeue_current, switch_to, schedule_next, schedule}

Seg-frame :
    (f g : ℕ → Process) (p n : ℕ) (xs : List ℕ)
    → ((y : ℕ) → ((g y).next ≡ (f y).next) × ((g y).prev ≡ (f y).prev))
    → Seg f p n xs
    → Seg g p n xs
Seg-frame f g p n [] same s = tt
Seg-frame f g p n (x ∷ xs) same s =
    (s.0, (same x).1 ∙ s.1, (same x).0 ∙ s.2, Seg-frame f g x n xs same s.3)

-- The queue is untouched by a change that leaves the links alone.
pub IsQueue-frame :
    {k : Kernel} (q : Kernel) {xs : List ℕ}
    → ((y : ℕ) → ((q.block y).next ≡ (k.block y).next) × ((q.block y).prev ≡ (k.block y).prev))
    → q.ready_queue_head ≡ k.ready_queue_head
    → q.ready_queue_tail ≡ k.ready_queue_tail
    → IsQueue k xs
    → IsQueue q xs
IsQueue-frame {k} q {xs} same h t v = record {
  front = h ∙ v.front;
  back = t ∙ v.back;
  links = Seg-frame k.block q.block 0 0 xs same v.links;
  distinct = v.distinct;
}

-- The scheduler is on, `c` is the current process and not queued, and the queue holds `xs`.
pub record IsScheduled (k : Kernel) (c : ℕ) (xs : List ℕ) : Type 0 where
  pub queue : IsQueue k xs
  pub current : process_get_current k ≡ c
  pub nonzero : c ≢ 0
  pub off_queue : ¬ In c xs
  pub enabled : k.scheduler_enabled ≡ true
  pub idle_first : get_or k.process_table 0 0 ≡ k.idle_process
  pub idle_nonzero : k.idle_process ≢ 0

-- The queue once `c` has gone back to it if it runs, and what is taken from it.
abbrev pub requeued : Bool → ℕ → List ℕ → List ℕ
requeued true c xs = xs ++ c ∷ []
requeued false c xs = xs

abbrev pub chosen : List ℕ → ℕ → ℕ
chosen xs idle = head_of xs idle

abbrev pub left_over : List ℕ → List ℕ
left_over [] = []
left_over (x ∷ xs) = xs

-- The outcome of `schedule_next` when `n` is next and `ys` stay queued.
record Chosen (k : Kernel) (c n : ℕ) (ys : List ℕ) (q : Kernel) (switched : Bool) : Type 0 where
  queue : IsQueue q ys
  current : q.current_process ≡ (if c == n then k.current_process else n)
  states :
      (p : ℕ)
      → (q.block p).state
        ≡ (if not (c == n) && p == n then ProcessState.running else (k.block p).state)
  table : q.process_table ≡ k.process_table
  idle : q.idle_process ≡ k.idle_process
  enabled : q.scheduler_enabled ≡ k.scheduler_enabled
  hands : switched ≡ not (c == n)

-- What `switch_to` changes.
record Switched (k : Kernel) (n : ℕ) (ys : List ℕ) (q : Kernel) : Type 0 where
  queue : IsQueue q ys
  current : q.current_process ≡ n
  states :
      (p : ℕ) → (q.block p).state ≡ (if p == n then ProcessState.running else (k.block p).state)
  table : q.process_table ≡ k.process_table
  idle : q.idle_process ≡ k.idle_process
  enabled : q.scheduler_enabled ≡ k.scheduler_enabled

switch_to-Switched :
    (k : Kernel) (c n : ℕ) (ys : List ℕ) → IsQueue k ys → Switched k n ys (switch_to k c n)
unfolding switch_to
switch_to-Switched k c n ys v = record {
  queue =
      IsQueue-frame {k = k} (switch_to k c n) (λ y. (ground arith, ground arith)) (ground arith)
        (ground arith) v;
  current = ground arith;
  states = λ p. ground arith;
  table = ground arith;
  idle = ground arith;
  enabled = ground arith;
}

abbrev finish : Kernel → ℕ → ℕ → Kernel × Bool
finish k c n = if not (c == n) then (switch_to k c n, true) else (k, false)

finish-Chosen :
    (k : Kernel) (c n : ℕ) (ys : List ℕ)
    → IsQueue k ys
    → Chosen k c n ys (finish k c n).0 (finish k c n).1
finish-Chosen k c n ys v = elim (Bool-cases (c == n)) [
  | inl e ↦ rw e (record {
    queue = v;
    current = ground arith;
    states = λ p. ground arith;
    table = refl;
    idle = refl;
    enabled = refl;
    hands = ground arith;
  })
  | inr e ↦
      let s = switch_to-Switched k c n ys v in
      rw e (record {
        queue = s.queue;
        current = ground (arith, s.current);
        states = λ p. ground (arith, s.states p);
        table = s.table;
        idle = s.idle;
        enabled = s.enabled;
        hands = ground arith;
      })
]

Chosen-from :
    {k r q : Kernel} {c n : ℕ} {ys : List ℕ} {switched : Bool}
    → KeepsBlocks k r
    → Chosen r c n ys q switched
    → Chosen k c n ys q switched
Chosen-from keeps h = record {
  queue = h.queue;
  current = ground (arith, h.current, keeps.current);
  states = λ p. ground (arith, h.states p, keeps.state p);
  table = h.table ∙ keeps.process_table;
  idle = h.idle ∙ keeps.idle;
  enabled = h.enabled ∙ keeps.enabled;
  hands = h.hands;
}

schedule_next-Chosen :
    (k : Kernel) (c : ℕ) (xs : List ℕ)
    → IsQueue k xs
    → Chosen k c
        (chosen xs (get_or k.process_table 0 0))
        (left_over xs)
        (schedule_next k c).0
        (schedule_next k c).1
unfolding schedule_next
schedule_next-Chosen k c [] v = rw (pop-IsQueue_nil k v) (finish-Chosen k c _ [] v)
schedule_next-Chosen k c (x ∷ xs) v =
    let (popped, rest) = pop-IsQueue_cons k x xs v in
    let live : is_null x ≡ false = ground (arith, v.links.0) in
    rw (popped, live)
      (Chosen-from (remove-KeepsBlocks k x) (finish-Chosen (ready_queue_remove k x) c x xs rest))

-- What `requeue_current` does, where `r` says whether `c` runs.
record Requeued (k : Kernel) (c : ℕ) (xs : List ℕ) (r : Bool) (q : Kernel) : Type 0 where
  queue : IsQueue q (requeued r c xs)
  states :
      (p : ℕ) → (q.block p).state ≡ (if r && p == c then ProcessState.ready else (k.block p).state)
  current : q.current_process ≡ k.current_process
  table : q.process_table ≡ k.process_table
  idle : q.idle_process ≡ k.idle_process
  enabled : q.scheduler_enabled ≡ k.scheduler_enabled

requeue_current-Requeued :
    (k : Kernel) (c : ℕ) (xs : List ℕ) (r : Bool)
    → is_state ProcessState.running (k.block c).state ≡ r
    → IsQueue k xs
    → c ≢ 0
    → ¬ In c xs
    → Requeued k c xs r (requeue_current k c)
unfolding requeue_current
requeue_current-Requeued k c xs true e v nz out =
    let marked = set_state k c ProcessState.ready in
    let keeps = push-KeepsBlocks marked c in
    let live : is_null c ≡ false = ground (arith, nz) in
    rw (e, live)
      (record {
        queue =
            push-IsQueue marked c nz xs
              (IsQueue-frame {k = k} marked (λ y. (ground arith, ground arith)) refl refl v) out;
        states = λ p. ground (arith, keeps.state p);
        current = keeps.current;
        table = keeps.process_table;
        idle = keeps.idle;
        enabled = keeps.enabled;
      })
requeue_current-Requeued k c xs false e v nz out =
    let live : is_null c ≡ false = ground (arith, nz) in
    rw (e, live)
      (record {
        queue = v;
        states = λ p. refl;
        current = refl;
        table = refl;
        idle = refl;
        enabled = refl;
      })

not-In-left_over : (zs : List ℕ) (idle : ℕ) → Distinct zs → ¬ In (chosen zs idle) (left_over zs)
not-In-left_over [] idle d = λ h. h
not-In-left_over (z ∷ zs) idle d = d.0

chosen-nonzero :
    (f : ℕ → Process) (zs : List ℕ) (idle : ℕ) → Seg f 0 0 zs → idle ≢ 0 → chosen zs idle ≢ 0
chosen-nonzero f [] idle s h = h
chosen-nonzero f (z ∷ zs) idle s h = s.0

-- The state of a process after `schedule` has chosen `n` while `c` was current, from its state
-- before; `r` says whether `c` was running.
abbrev pub state_after : Bool → ℕ → ℕ → ℕ → ProcessState → ProcessState
state_after r c n p s =
    if not (c == n) && p == n
    then ProcessState.running
    else if r && p == c
    then ProcessState.ready
    else s

abbrev counted : Kernel → Kernel
counted k = record k { schedule_count = (k.schedule_count + 1) % 2 ^ 64 }

schedule_eq :
    (k : Kernel) (c : ℕ)
    → k.scheduler_enabled ≡ true
    → process_get_current k ≡ c
    → schedule k ≡ schedule_next (requeue_current (counted k) c) c
unfolding schedule
schedule_eq k c on e = simp (e, on)

-- The current process once `n` has been chosen.
current_after :
    (k q : Kernel) (c n : ℕ)
    → process_get_current k ≡ c
    → n ≢ 0
    → q.current_process ≡ (if c == n then k.current_process else n)
    → q.idle_process ≡ k.idle_process
    → process_get_current q ≡ n
unfolding process_get_current
current_after k q c n e nz h i = ground arith

abbrev Outcome : Kernel → ℕ → List ℕ → Bool → Type 0
Outcome k c xs r =
    let zs = requeued r c xs in
    let n = chosen zs k.idle_process in
    IsScheduled (schedule k).0 n (left_over zs)
    × ((schedule k).1 ≡ not (c == n))
    × ((p : ℕ) → ((schedule k).0.block p).state ≡ state_after r c n p (k.block p).state)
    × ((schedule k).0.idle_process ≡ k.idle_process)

module _ (k : Kernel) (c : ℕ) (xs : List ℕ) (r : Bool)
    (runs : is_state ProcessState.running (k.block c).state ≡ r) (v : IsScheduled k c xs) where
  k1 : Kernel
  k1 = requeue_current (counted k) c

  requeue : Requeued (counted k) c xs r k1
  unfolding k1
  requeue =
      requeue_current-Requeued (counted k) c xs r runs
        (record {
          front = v.queue.front;
          back = v.queue.back;
          links = v.queue.links;
          distinct = v.queue.distinct;
        })
        v.nonzero v.off_queue

  zs : List ℕ
  zs = requeued r c xs

  n : ℕ
  n = chosen zs k.idle_process

  n_nonzero : n ≢ 0
  unfolding n zs
  n_nonzero = chosen-nonzero k1.block zs k.idle_process requeue.queue.links v.idle_nonzero

  result : Kernel × Bool
  result = schedule_next k1 c

  next : Chosen k1 c n (left_over zs) result.0 result.1
  unfolding n zs result
  next =
      let idle : get_or k1.process_table 0 0 ≡ k.idle_process =
        ap (λ t. get_or t 0 0) requeue.table ∙ v.idle_first in
      subst (λ i. Chosen k1 c (chosen zs i) (left_over zs) result.0 result.1) idle
        (schedule_next-Chosen k1 c zs requeue.queue)

  result-IsScheduled : IsScheduled result.0 n (left_over zs)
  unfolding n zs
  result-IsScheduled = record {
    queue = next.queue;
    current =
        current_after k result.0 c n v.current n_nonzero
          (ground (arith, next.current, requeue.current)) (next.idle ∙ requeue.idle);
    nonzero = n_nonzero;
    off_queue = not-In-left_over zs k.idle_process requeue.queue.distinct;
    enabled = next.enabled ∙ requeue.enabled ∙ v.enabled;
    idle_first =
        ap (λ t. get_or t 0 0) (next.table ∙ requeue.table)
        ∙ v.idle_first
        ∙ sym (next.idle ∙ requeue.idle);
    idle_nonzero = rw (next.idle, requeue.idle) v.idle_nonzero;
  }

  schedule-Outcome : Outcome k c xs r
  unfolding n zs result k1
  schedule-Outcome = rw (schedule_eq k c v.enabled v.current) (
    result-IsScheduled,
    next.hands,
    λ p. ground (arith, next.states p, requeue.states p),
    next.idle ∙ requeue.idle,
  )

-- With the scheduler on and `c` current, `schedule` puts `c` behind the queue if its state is
-- RUNNING, then takes the front of the queue, or the idle process if the queue is empty. That
-- process is current afterwards, not queued, and the rest stays queued in order. The processor
-- changes hands exactly if it is another process than `c`; then it is RUNNING. A `c` that was
-- RUNNING and is not chosen so is READY, and no other process changes its state.
pub schedule_lem :
    (k : Kernel) (c : ℕ) (xs : List ℕ)
    → IsScheduled k c xs
    → let r = is_state ProcessState.running (k.block c).state in
      let zs = requeued r c xs in
      let n = chosen zs k.idle_process in
      IsScheduled (schedule k).0 n (left_over zs)
      × ((schedule k).1 ≡ not (c == n))
      × ((p : ℕ) → ((schedule k).0.block p).state ≡ state_after r c n p (k.block p).state)
      × ((schedule k).0.idle_process ≡ k.idle_process)
schedule_lem k c xs v = schedule-Outcome k c xs _ refl v
