-- ===== src/Syscall/Tests.antt =====
-- A system with an empty directory and one with a file, whose current process has free descriptors.
use simple_os.Prelude.{
  ℕ, suc, ◌+◌, ◌<◌, ◌≡◌, ◌≢◌, refl, ◌⊎◌, false, [], ◌∷◌, take, replicate, some, arith, ok, panic,
  fault, ◌≤◌, ◌-◌, ◌==◌, if◌then◌else◌, inl, true, none, List,
}
use simple_os.Process.{process_get_current}
use simple_os.Pmm.{Pmm}
use simple_os.Pmm.Inv.{IsValid}
use simple_os.Pmm.Ready.{ready, ready-IsValid}
use simple_os.Kmalloc.{Block, Heap, heap_start, heap_size, started}
use simple_os.Kmalloc.Alloc.{IsHeap}
use simple_os.Vmm.Walk.{memory-IsValid}
use simple_os.Vmm.Mirror.{HeldBelow}
use simple_os.Lifecycle.Allocate.{HeapFull}
use simple_os.Lifecycle.Fresh.{OneMore, FindsSlot}
use simple_os.Syscall.Fork.{IsFork, CloneOverrun, sys_fork_lem}
use simple_os.Pipe.{pipe_create}
use simple_os.Keyboard.{Keyboard}
use simple_os.Terminal.{Terminal}
use simple_os.Lifecycle.{closed, zero_image, zero_process, max_processes, max_fds}
use simple_os.Lifecycle.Ready.{booted, idle_only}
use simple_os.Fs.Create.{hello_name}
use simple_os.Fs.Grow.{Full}
use simple_os.Fs.Read.{FileAt}
use simple_os.Fs.Ready.{one_file, one_file-FileAt, one_dir, one_dir-HasRoom, one_dir-FreshInode}
use simple_os.Syscall.{Os, returns, minus_one, get_fd_table, fd_at, sys_read, sys_write}
use simple_os.Syscall.Path.{sys_open}
use simple_os.Syscall.Task.{sys_fork}
use simple_os.Syscall.Files.{IsFile, sys_read-sys_write}
use simple_os.Syscall.Open.{IsFirst, sys_open-sys_open}

abbrev keys : Keyboard
keys = record {
  kbd_buffer = replicate 256 0;
  kbd_read_pos = 0;
  kbd_write_pos = 0;
  ctrl_pressed = false;
  alt_pressed = false;
}

abbrev screen : Terminal
screen = record {
  console = record { terminals = []; current_terminal = 0; vga_buffer = []; cursor = (0, 0) };
  terminal_row = 0;
  terminal_column = 0;
  terminal_color = 7;
  vt_enabled = false;
}

-- All descriptors are free; the table stands at 5000.
abbrev no_files : Os
no_files = record {
  system = record booted { image = λ p. record zero_image { fd_table = 5000 } };
  fs = one_dir;
  pipe = λ p. pipe_create (replicate 4096 0);
  keys = keys;
  screen = screen;
}

-- Every descriptor stands at the start of node 1.
abbrev one_open : Os
one_open = record no_files {
  system = record booted {
    image = λ p. record zero_image { fd_table = 5000 };
    fds = λ t i. record closed { node = some 1 };
  };
  fs = one_file;
}

one_open-IsFile : (fd : ℕ) → 2 < fd → fd < max_fds → IsFile one_open fd 1 0
unfolding get_fd_table
one_open-IsFile fd a b = record {
  past_standard = a;
  inside = b;
  has_table = omega arith;
  no_pipe = refl;
  at_node = refl;
  at_offset = refl;
}

sys_read-sys_write_example :
    ((q : Os) × (sys_write one_open 3 8000 (1 ∷ 2 ∷ []) ≡ ok (returns minus_one [] q)) × Full q.fs)
    ⊎ ((k : ℕ) × (q r : Os) × (sys_write one_open 3 8000 (1 ∷ 2 ∷ []) ≡ ok (returns k [] q))
        × ((k ≡ 2) ⊎ Full q.fs)
        × (sys_read q 4 9000 k ≡ ok (returns k (take k (1 ∷ 2 ∷ [])) r))
        × IsFile r 3 1 (0 + k)
        × IsFile r 4 1 (0 + k))
sys_read-sys_write_example =
    sys_read-sys_write one_open 3 4 1 0 8000 9000 [] (1 ∷ 2 ∷ []) (omega arith)
      (one_open-IsFile 3 (omega arith) (omega arith))
      (one_open-IsFile 4 (omega arith) (omega arith)) one_file-FileAt refl (omega arith)
      (omega arith) (omega arith) (omega arith) (omega arith)

no_files-IsFirst :
    (i n : ℕ) → i + suc n ≡ max_fds → IsFirst (fd_at no_files (get_fd_table no_files)) (suc n) i i
no_files-IsFirst i n e = record {
  from = omega arith;
  below = omega arith;
  free = refl;
  first = λ j a b. absurd (omega (arith, a, b));
}

no_files-has_table : get_fd_table no_files ≢ 0
unfolding get_fd_table
no_files-has_table = omega arith

sys_open-sys_open_example :
    (q r : Os) × (sys_open no_files (some (47 ∷ hello_name)) 0 ≡ ok (returns 3 [] q))
    × (sys_open q (some (47 ∷ hello_name)) 0 ≡ ok (returns 4 [] r))
    × IsFile r 3 1 0
    × IsFile r 4 1 0
    × FileAt r.fs 1 []
    × (r.fs.free_blocks ≡ no_files.fs.free_blocks)
    × ((j : ℕ)
        → j ≢ 3
        → j ≢ 4
        → fd_at r (get_fd_table no_files) j ≡ fd_at no_files (get_fd_table no_files) j)
    × ((t : ℕ) → t ≢ get_fd_table no_files → r.system.fds t ≡ no_files.system.fds t)
sys_open-sys_open_example =
    sys_open-sys_open no_files (47 ∷ hello_name) hello_name 0 1 0 3 4 0 0 one_dir-HasRoom
      one_dir-FreshInode (omega arith) refl no_files-has_table (no_files-IsFirst 3 12 refl)
      (no_files-IsFirst 4 11 refl)

-- A process at 100 whose descriptors stand in the only block in use, and whose address space is empty.
abbrev one_block : ℕ → Block
one_block p =
    if p == heap_start
    then record { size = 512; next = heap_start + 536; free = false }
    else record { size = heap_size - 560; next = 0; free = p == heap_start + 536 }

abbrev parent_heap : Heap
parent_heap = record {
  block = one_block;
  head = heap_start;
  heap_initialized = true;
  total_allocated = 512;
  total_free = heap_size - 512;
  allocation_count = 1;
}

parent_heap-IsHeap : IsHeap (started parent_heap) ((heap_start, 512) ∷ [])
parent_heap-IsHeap = record {
  initialized = refl;
  first = refl;
  blocks = 2;
  tiled = (refl, (refl, refl));
  in_use = refl;
  allocated = refl;
  left = refl;
  allocations = refl;
}

abbrev parent_pages : Pmm
parent_pages = record ready { memory = λ a. 0 }

parent_pages-IsValid : IsValid parent_pages
parent_pages-IsValid = memory-IsValid (λ a. 0) ready-IsValid

abbrev parent_os : Os
parent_os = record no_files {
  system = record booted {
    kernel = record idle_only { block = λ p. record zero_process { page_table = 0x1000 } };
    image = λ p. record zero_image { fd_table = heap_start + 24 };
    heap = parent_heap;
    pages = parent_pages;
  };
}

parent_space : HeldBelow 256 3 parent_pages 0x1000
parent_space = (refl, parent_pages-IsValid.low 1 (omega arith), λ i l e. absurd (cc e))

parent_current : process_get_current parent_os.system.kernel ≡ 100
unfolding process_get_current
parent_current = refl

sys_fork_lem_example :
    (FindsSlot parent_os.system.kernel.process_table (max_processes - 1) 1 none
      × (sys_fork 0x1000000 parent_os ≡ ok (returns minus_one [] parent_os)))
    ⊎ (((sys_fork 0x1000000 parent_os ≡ panic) × HeapFull parent_heap)
        ⊎ (((sys_fork 0x1000000 parent_os ≡ fault) × CloneOverrun 0x1000000 parent_os 100)
            ⊎ (((q : Os) × (fds : ℕ) × (ws : List (ℕ × ℕ)) × (sys_fork 0x1000000 parent_os
                    ≡ ok (returns minus_one [] q))
                  × (q.system.pages.free_pages ≤ 4)
                  × OneMore ((heap_start, 512) ∷ []) fds ws
                  × IsHeap q.system.heap ws)
                ⊎ ((child : ℕ) × (q : Os) × (sys_fork 0x1000000 parent_os ≡ ok (returns 1 [] q))
                    × IsFork parent_os q 100 child []))))
sys_fork_lem_example =
    sys_fork_lem 0x1000000 parent_os ((heap_start, 512) ∷ []) [] 100 parent_current
      (record { front = refl; back = refl; links = tt; distinct = tt }) (λ p h. absurd h) refl
      (inl refl) (omega arith) parent_heap-IsHeap parent_pages-IsValid parent_space
