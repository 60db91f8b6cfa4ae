-- ===== src/Scheduler/Lost.antt =====
-- How the scheduler loses a process that has the processor for itself.
use simple_os.Prelude.{
  ℕ, zero, suc, ◌≡◌, ◌≢◌, ◌∙◌, sym, subst, inl, inr, ◌==◌, not, Bool, true, false, [], arith,
  Bool-cases,
}
use simple_os.Process.{ProcessState, Kernel, is_state, process_get_current}
use simple_os.Process.Queue.{IsQueue}
use simple_os.Scheduler.{schedule}
use simple_os.Scheduler.Choice.{IsScheduled, schedule_lem, state_after, requeued, chosen, left_over}
use simple_os.Scheduler.Rounds.{schedules}

-- The idle process is current, nothing is queued, and `c` waits, READY, outside the queue.
record IsLost (k : Kernel) (c : ℕ) : Type 0 where
  scheduled : IsScheduled k k.idle_process []
  other : c ≢ k.idle_process
  waits : (k.block c).state ≡ ProcessState.ready

abbrev Outcome : Kernel → ℕ → Bool → Type 0
Outcome k c r =
    let zs = requeued r c [] in
    let n = chosen zs k.idle_process in
    IsScheduled (schedule k).0 n (left_over zs)
    × ((schedule k).1 ≡ not (c == n))
    × ((p : ℕ) → ((schedule k).0.block p).state ≡ state_after r c n p (k.block p).state)
    × ((schedule k).0.idle_process ≡ k.idle_process)

schedule-IsLost : (k : Kernel) (c : ℕ) → IsLost k c → IsLost (schedule k).0 c
schedule-IsLost k c v =
    elim (Bool-cases (is_state ProcessState.running (k.block k.idle_process).state)) [
      | inl e ↦ finish true (subst (Outcome k k.idle_process) e found)
      | inr e ↦ finish false (subst (Outcome k k.idle_process) e found)
    ]
  where
    found : Outcome k k.idle_process (is_state ProcessState.running (k.block k.idle_process).state)
    found = schedule_lem k k.idle_process [] v.scheduled

    finish : (r : Bool) → Outcome k k.idle_process r → IsLost (schedule k).0 c
    finish true h = record {
      scheduled = subst (λ i. IsScheduled (schedule k).0 i []) (sym h.3) h.0;
      other = rw h.3 v.other;
      waits = h.2 c ∙ ground (arith, v.other, v.waits);
    }
    finish false h = record {
      scheduled = subst (λ i. IsScheduled (schedule k).0 i []) (sym h.3) h.0;
      other = rw h.3 v.other;
      waits = h.2 c ∙ ground (arith, v.other, v.waits);
    }

schedules-IsLost : (n : ℕ) (k : Kernel) (c : ℕ) → IsLost k c → IsLost (schedules n k) c
unfolding schedules
schedules-IsLost zero k c v = v
schedules-IsLost (suc n) k c v = schedules-IsLost n (schedule k).0 c (schedule-IsLost k c v)

-- A RUNNING process other than the idle one, while nothing is queued, is lost by `schedule`: after
-- two or more calls the idle process is current, the queue is empty and the process is still READY.
pub schedules_lose :
    (n : ℕ) (k : Kernel) (c : ℕ)
    → IsScheduled k c []
    → (k.block c).state ≡ ProcessState.running
    → c ≢ k.idle_process
    → let q = schedules (suc (suc n)) k in
      (process_get_current q ≡ q.idle_process)
      × IsQueue q []
      × ((q.block c).state ≡ ProcessState.ready)
unfolding schedules
schedules_lose n k c v runs other =
    let was : is_state ProcessState.running (k.block c).state ≡ true = ground (arith, runs) in
    let one : Outcome k c true = subst (Outcome k c) was (schedule_lem k c [] v) in
    let q = (schedule k).0 in
    let ready : (q.block c).state ≡ ProcessState.ready = one.2 c ∙ ground arith in
    let is : is_state ProcessState.running (q.block c).state ≡ false = ground (arith, ready) in
    let two : Outcome q c false = subst (Outcome q c) is (schedule_lem q c [] one.0) in
    let ne : c ≢ q.idle_process = rw one.3 other in
    let lost = schedules-IsLost n (schedule q).0 c (record {
      scheduled = subst (λ i. IsScheduled (schedule q).0 i []) (sym two.3) two.0;
      other = rw two.3 ne;
      waits = two.2 c ∙ ground (arith, ne, ready);
    }) in
    (lost.scheduled.current, lost.scheduled.queue, lost.waits)
