-- ===== src/Lifecycle/Tests.antt =====
-- A system after its start: the idle process at 100, a heap before its first use, 64 MB of memory.
use simple_os.Prelude.{
  ℕ, zero, suc, ◌-◌, ◌<◌, ◌≡◌, refl, ◌⊎◌, true, false, List, [], ◌∷◌, replicate, get_or, none,
  arith, ok, panic, fault, length,
}
use simple_os.Kmalloc.{started, header_size, init_heap}
use simple_os.Kmalloc.Alloc.{IsHeap}
use simple_os.Process.Queue.{IsQueue}
use simple_os.Vmm.Total.{Grew}
use simple_os.Lifecycle.{System, max_processes}
use simple_os.Lifecycle.Ready.{booted, idle_only-IsQueue, booted-IsHeap, booted-IsValid}
use simple_os.Lifecycle.Begin.{process_create}
use simple_os.Lifecycle.End.{process_destroy}
use simple_os.Lifecycle.Fresh.{FindsSlot}
use simple_os.Lifecycle.Create.{Starved, Overrun, process_create_lem}
use simple_os.Lifecycle.Start.{Created}
use simple_os.Lifecycle.Undo.{process_destroy-process_create}

abbrev name : List ℕ
name = 105 ∷ 110 ∷ 105 ∷ 116 ∷ []

empty_slots : (n j : ℕ) → Path ℕ (get_or (replicate n 0) j 0) 0
empty_slots zero j = refl
empty_slots (suc n) zero = refl
empty_slots (suc n) (suc j) = empty_slots n j

listed :
    (j : ℕ)
    → j < length booted.kernel.process_table
    → ((started booted.heap).block (get_or booted.kernel.process_table j 0 - header_size)).free
      ≡ true
    → get_or booted.kernel.process_table j 0 ≡ 0
unfolding init_heap
listed zero low e = ground (arith, e)
listed (suc j) low e = empty_slots 63 j

idle_block : ((started booted.heap).block (booted.kernel.idle_process - header_size)).free ≡ false
unfolding init_heap
idle_block = refl

process_create_lem_example :
    (FindsSlot booted.kernel.process_table (max_processes - 1) 1 none
      × (process_create 0x1000000 0x100000 booted name 0x200000 1 ≡ ok (0, booted)))
    ⊎ (((process_create 0x1000000 0x100000 booted name 0x200000 1 ≡ panic)
          × Starved 0x1000000 booted)
        ⊎ (((process_create 0x1000000 0x100000 booted name 0x200000 1 ≡ fault)
              × Overrun 0x1000000 booted)
            ⊎ ((proc : ℕ) × (q : System) × (process_create 0x1000000 0x100000 booted name 0x200000 1
                  ≡ ok (proc, q))
                × Created 0x1000000 0x100000 booted q proc [] [])))
process_create_lem_example =
    process_create_lem 0x1000000 0x100000 booted [] [] name 0x200000 1 idle_only-IsQueue
      (λ p h. absurd h) booted-IsHeap booted-IsValid

process_destroy-process_create_example :
    (FindsSlot booted.kernel.process_table (max_processes - 1) 1 none
      × (process_create 0x1000000 0x100000 booted name 0x200000 1 ≡ ok (0, booted)))
    ⊎ (((process_create 0x1000000 0x100000 booted name 0x200000 1 ≡ panic)
          × Starved 0x1000000 booted)
        ⊎ (((process_create 0x1000000 0x100000 booted name 0x200000 1 ≡ fault)
              × Overrun 0x1000000 booted)
            ⊎ ((proc : ℕ) × (q : System) × (r : System) × (process_create 0x1000000 0x100000 booted
                    name 0x200000 1
                  ≡ ok (proc, q))
                × (process_destroy 0x1000000 q proc ≡ ok r)
                × (r.kernel.process_table ≡ booted.kernel.process_table)
                × IsQueue r.kernel []
                × IsHeap r.heap []
                × Grew booted.pages r.pages)))
process_destroy-process_create_example =
    process_destroy-process_create 0x1000000 0x100000 booted [] [] name 0x200000 1 idle_only-IsQueue
      (λ p h. absurd h) listed idle_block booted-IsHeap booted-IsValid
