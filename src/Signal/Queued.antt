-- ===== src/Signal/Queued.antt =====
-- Signals change the state of a process and leave the ready queue as it is.
use simple_os.Prelude.{
  ℕ, ◌≡◌, ◌≢◌, refl, ◌∙◌, true, false, List, [], ◌∷◌, ◌++◌, arith, Bool-cases, ◌⊎◌, inl, inr,
}
use simple_os.Process.{
  ProcessState, Kernel, is_null, is_state, set_state, process_get_current, process_unblock,
}
use simple_os.Process.Queue.{IsQueue, push-IsQueue}
use simple_os.Process.Links.{In}
use simple_os.Scheduler.{schedule}
use simple_os.Scheduler.Choice.{IsScheduled, IsQueue-frame}
use simple_os.Scheduler.Rounds.{schedule-cons}
use simple_os.Signal.{sigint, sigkill, sigterm, sigcont, deliver, signal_send}

-- `deliver` leaves all but the states alone.
deliver_links :
    (k : Kernel) (p sig y : ℕ)
    → (((deliver k p sig).block y).next ≡ (k.block y).next)
      × (((deliver k p sig).block y).prev ≡ (k.block y).prev)
unfolding deliver
deliver_links k p sig y = (ground arith, ground arith)

deliver-IsScheduled :
    (k : Kernel) (p sig c : ℕ) (xs : List ℕ)
    → IsScheduled k c xs
    → IsScheduled (deliver k p sig) c xs
unfolding deliver process_get_current
deliver-IsScheduled k p sig c xs v = record {
  queue =
      IsQueue-frame {k = k} (deliver k p sig) (deliver_links k p sig) (ground arith) (ground arith)
        v.queue;
  current = ground (arith, v.current);
  nonzero = v.nonzero;
  off_queue = v.off_queue;
  enabled = ground (arith, v.enabled);
  idle_first = ground (arith, v.idle_first);
  idle_nonzero = ground (arith, v.idle_nonzero);
}

-- Whatever the signal and the process, `signal_send` leaves the ready queue, the current process
-- and the scheduler as they were: nothing is queued or taken out of the queue.
pub signal_send-IsScheduled :
    (find : Kernel → ℕ → ℕ) (k : Kernel) (pid sig c : ℕ) (xs : List ℕ)
    → IsScheduled k c xs
    → IsScheduled (signal_send find k pid sig) c xs
unfolding signal_send
signal_send-IsScheduled find k pid sig c xs v = elim (Bool-cases (is_null (find k pid))) [
  | inl e ↦ rw e v
  | inr e ↦ rw e (deliver-IsScheduled k (find k pid) sig c xs v)
]

killed :
    (find : Kernel → ℕ → ℕ) (k : Kernel) (pid sig x : ℕ)
    → x ≢ 0
    → find k pid ≡ x
    → (sig ≡ sigkill) ⊎ (sig ≡ sigterm) ⊎ (sig ≡ sigint)
    → ((signal_send find k pid sig).block x).state ≡ ProcessState.terminated
unfolding signal_send deliver
killed find k pid sig x nz e which = rw e (ground (arith, nz))

kept :
    (find : Kernel → ℕ → ℕ) (k : Kernel) (pid sig c x : ℕ)
    → c ≢ x
    → find k pid ≡ x
    → ((signal_send find k pid sig).block c).state ≡ (k.block c).state
unfolding signal_send deliver
kept find k pid sig c x ne e = rw e (ground (arith, ne))

-- A process that waits at the front of the ready queue and is sent SIGKILL, SIGTERM or SIGINT is
-- TERMINATED, and yet the next call of `schedule` makes it the current process and RUNNING, if the
-- process that runs now is another, RUNNING one.
pub schedule-signal_send :
    (find : Kernel → ℕ → ℕ) (k : Kernel) (pid sig c x : ℕ) (xs : List ℕ)
    → IsScheduled k c (x ∷ xs)
    → (k.block c).state ≡ ProcessState.running
    → find k pid ≡ x
    → (sig ≡ sigkill) ⊎ (sig ≡ sigterm) ⊎ (sig ≡ sigint)
    → let q = signal_send find k pid sig in
      ((q.block x).state ≡ ProcessState.terminated)
      × (process_get_current (schedule q).0 ≡ x)
      × (((schedule q).0.block x).state ≡ ProcessState.running)
schedule-signal_send find k pid sig c x xs v runs found which =
    let q = signal_send find k pid sig in
    let (next, run) =
      schedule-cons q c x xs (signal_send-IsScheduled find k pid sig c (x ∷ xs) v)
        (kept find k pid sig c x (λ e. v.off_queue (inl e)) found ∙ runs) in
    (killed find k pid sig x (v.queue.links.0) found which, next.current, run)

-- A BLOCKED process outside the ready queue that is sent SIGCONT becomes READY and is still outside
-- the queue, which `process_unblock` in its place would have put it on.
pub signal_send-sigcont :
    (find : Kernel → ℕ → ℕ) (k : Kernel) (pid x : ℕ) (xs : List ℕ)
    → IsQueue k xs
    → ¬ In x xs
    → x ≢ 0
    → (k.block x).state ≡ ProcessState.blocked
    → find k pid ≡ x
    → let q = signal_send find k pid sigcont in
      ((q.block x).state ≡ ProcessState.ready)
      × IsQueue q xs
      × IsQueue (process_unblock k x) (xs ++ x ∷ [])
unfolding signal_send deliver process_unblock
signal_send-sigcont find k pid x xs v out nz state found =
    let marked = set_state k x ProcessState.ready in
    let same : IsQueue marked xs =
      IsQueue-frame {k = k} marked (λ y. (ground arith, ground arith)) refl refl v in
    let live : is_null x ≡ false = ground (arith, nz) in
    let asleep : is_state ProcessState.blocked (k.block x).state ≡ true = ground (arith, state) in
    rw (found, live, asleep) (ground arith, same, push-IsQueue marked x nz xs same out)
