-- ===== src/Scheduler/Rounds.antt =====
-- Round robin: how long a queued process waits.
use simple_os.Prelude.{
  ℕ, zero, suc, ◌≡◌, ◌∙◌, sym, subst, inl, true, List, [], ◌∷◌, ◌++◌, length, arith,
}
use mathlib.Core.List.{append_assoc}
use simple_os.Process.{ProcessState, Kernel, is_state, process_get_current}
use simple_os.Scheduler.{schedule}
use simple_os.Scheduler.Choice.{IsScheduled, schedule_lem, state_after, requeued, chosen, left_over}

-- `schedule` called `n` times, with nothing between that changes a state.
unfoldable pub schedules : ℕ → Kernel → Kernel
schedules zero k = k
schedules (suc n) k = schedules n (schedule k).0

-- One call while the queue is not empty and the current process runs.
pub schedule-cons :
    (k : Kernel) (c x : ℕ) (xs : List ℕ)
    → IsScheduled k c (x ∷ xs)
    → (k.block c).state ≡ ProcessState.running
    → IsScheduled (schedule k).0 x (xs ++ c ∷ [])
      × (((schedule k).0.block x).state ≡ ProcessState.running)
schedule-cons k c x xs v runs =
    let e : is_state ProcessState.running (k.block c).state ≡ true = ground (arith, runs) in
    let (next, _, states, _) = schedule_lem k c (x ∷ xs) v in
    (
      subst
          (λ r.
            IsScheduled (schedule k).0 (chosen (requeued r c (x ∷ xs)) k.idle_process)
              (left_over (requeued r c (x ∷ xs))))
          e next,
      subst
            (λ r.
              ((schedule k).0.block x).state
              ≡ state_after r c (chosen (requeued r c (x ∷ xs)) k.idle_process) x (k.block x).state)
            e (states x)
          ∙ ground (arith, λ (q : x ≡ c). v.off_queue (inl (sym q))),
    )

-- If the current process runs, a process that stands behind `xs` in the queue is the current one,
-- and RUNNING, after one more call of `schedule` than `xs` has processes.
pub schedules_serve :
    (xs : List ℕ) (a : ℕ) (ys : List ℕ) (k : Kernel) (c : ℕ)
    → IsScheduled k c (xs ++ a ∷ ys)
    → (k.block c).state ≡ ProcessState.running
    → (process_get_current (schedules (suc (length xs)) k) ≡ a)
      × (((schedules (suc (length xs)) k).block a).state ≡ ProcessState.running)
unfolding schedules
schedules_serve [] a ys k c v runs =
    let (next, run) = schedule-cons k c a ys v runs in (next.current, run)
schedules_serve (x ∷ xs) a ys k c v runs =
    let (next, run) = schedule-cons k c x (xs ++ a ∷ ys) v runs in
    schedules_serve xs a (ys ++ c ∷ []) (schedule k).0 x
      (subst (IsScheduled (schedule k).0 x) (append_assoc xs (a ∷ ys) (c ∷ [])) next) run
