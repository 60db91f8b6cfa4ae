-- ===== src/Lifecycle/Ready.antt =====
-- A system after its start, for the tests of this part and of its clients.
use simple_os.Prelude.{ℕ, refl, sym, subst, ap, true, false, [], ◌∷◌, replicate, arith, returned}
use simple_os.Pmm.{init}
use simple_os.Pmm.Inv.{IsValid}
use simple_os.Pmm.Init.{init_lem}
use simple_os.Pmm.Ready.{blank}
use simple_os.Kmalloc.{Block, fresh, started, init_heap}
use simple_os.Kmalloc.Alloc.{IsHeap}
use simple_os.Process.{Kernel}
use simple_os.Process.Queue.{IsQueue}
use simple_os.Lifecycle.{System, closed, zero_process, zero_image}

abbrev pub idle_only : Kernel
idle_only = record {
  block = λ p. zero_process;
  process_table = 100 ∷ replicate 63 0;
  ready_queue_head = 0;
  ready_queue_tail = 0;
  current_process = 100;
  idle_process = 100;
  scheduler_enabled = true;
  schedule_count = 0;
  events = [];
}

abbrev pub no_block : ℕ → Block
no_block p = record { size = 0; next = 0; free = false }

abbrev pub booted : System
booted = record {
  kernel = idle_only;
  image = λ p. zero_image;
  fds = λ t i. closed;
  heap = fresh no_block;
  pages = returned blank (init (record blank { bitmap = replicate 512 0 }) 0x4000000);
  next_pid = 1;
}

pub idle_only-IsQueue : IsQueue idle_only []
idle_only-IsQueue = record { front = refl; back = refl; links = tt; distinct = tt }

pub booted-IsHeap : IsHeap (started booted.heap) []
unfolding init_heap
booted-IsHeap = record {
  initialized = refl;
  first = refl;
  blocks = 1;
  tiled = (refl, refl);
  in_use = refl;
  allocated = refl;
  left = refl;
  allocations = refl;
}

pub booted-IsValid : IsValid booted.pages
booted-IsValid =
    let (q, e, v, _, _, _) =
      init_lem (record blank { bitmap = replicate 512 0 }) 0x4000000 (omega arith) (omega arith) in
    subst IsValid (sym (ap (λ x. returned blank x) e)) v
