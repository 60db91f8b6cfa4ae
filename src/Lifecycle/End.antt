-- ===== src/Lifecycle/End.antt =====
-- src/kernel/process.c: `process_destroy` and `free_process_struct`.
use simple_os.Prelude.{ℕ, ◌==◌, if◌then◌else◌, ◌||◌, List, [], ◌∷◌, Run, ok, ◌>>=◌}
use simple_os.Process.{ProcessState, is_null, is_state, ready_queue_remove}
use simple_os.Kmalloc.{kfree}
use simple_os.Vmm.{destroy_address_space}
use simple_os.Lifecycle.{System}

-- The first slot that holds `process` is cleared.
unfoldable pub clear_slot : List ℕ → ℕ → List ℕ
clear_slot [] process = []
clear_slot (p ∷ ps) process = if p == process then 0 ∷ ps else p ∷ clear_slot ps process

abbrev pub leave : System → ℕ → System
leave s process = record s {
  kernel = record s.kernel { process_table = clear_slot s.kernel.process_table process };
}

-- `if (ptr) kfree(ptr)`.
abbrev pub free_if : System → ℕ → Run System
free_if s ptr = if ptr == 0 then ok s else (kfree s.heap ptr >>= λ h. ok (record s { heap = h }))

module _ (pml4 : ℕ) where
  -- The same for an address space.
  abbrev pub destroy_if : System → ℕ → Run System
  destroy_if s table =
      if table == 0
      then ok s
      else (destroy_address_space pml4 s.pages table >>= λ p. ok (record s { pages = p }))

  unfoldable pub process_destroy : System → ℕ → Run System
  process_destroy s process =
      let b = s.kernel.block process in
      let s1 =
        if is_state ProcessState.ready b.state
        then record s { kernel = ready_queue_remove s.kernel process }
        else s in
      if is_null process || process == s.kernel.idle_process
      then ok s
      else free_if (leave s1 process) b.kernel_stack >>= λ s2.
          free_if s2 (s.image process).fd_table >>= λ s3. destroy_if s3 b.page_table >>= λ s4.
          kfree s4.heap process >>= λ h. ok (record s4 { heap = h })

  unfoldable pub free_process_struct : System → ℕ → Run System
  free_process_struct s process =
      let b = s.kernel.block process in
      if is_null process
      then ok s
      else free_if (leave s process) b.kernel_stack >>= λ s2. destroy_if s2 b.page_table >>= λ s3.
          kfree s3.heap process >>= λ h. ok (record s3 { heap = h })
