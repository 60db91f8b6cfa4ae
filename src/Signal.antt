-- ===== src/Signal.antt =====
-- src/ipc/signal.c. `process_find_by_pid`, which the repository declares nowhere, is a parameter.
pub mod Queued
use simple_os.Prelude.{ℕ, ◌==◌, if◌then◌else◌, ◌||◌, Bool}
use simple_os.Process.{ProcessState, Kernel, is_null, is_state, set_state}

abbrev pub sigint : ℕ
sigint = 2

abbrev pub sigkill : ℕ
sigkill = 9

abbrev pub sigterm : ℕ
sigterm = 15

abbrev pub sigcont : ℕ
sigcont = 18

abbrev pub sigstop : ℕ
sigstop = 19

-- The switch of `signal_send` on the process found.
unfoldable pub deliver : Kernel → ℕ → ℕ → Kernel
deliver k p sig =
    let state = (k.block p).state in
    if sig == sigkill || sig == sigterm || sig == sigint
    then set_state k p ProcessState.terminated
    else if sig == sigstop
    then (if is_state ProcessState.running state || is_state ProcessState.ready state
        then set_state k p ProcessState.blocked
        else k)
    else if sig == sigcont
    then (if is_state ProcessState.blocked state then set_state k p ProcessState.ready else k)
    else k

module _ (process_find_by_pid : Kernel → ℕ → ℕ) where
  unfoldable pub signal_send : Kernel → ℕ → ℕ → Kernel
  signal_send k pid sig =
      let p = process_find_by_pid k pid in if is_null p then k else deliver k p sig
