-- ===== src/Lib.antt =====
-- A verification library for the kernel of simple-os: models of its C code and the theorems that
-- make it correct.
--
-- The parts and how they interact. The physical page allocator hands out 4 KB pages to the virtual
-- memory manager, which builds address spaces of them. Processes are control blocks in a table,
-- linked into one ready queue that process.c keeps; the kernel heap holds the control blocks and the
-- pipes; the scheduler takes the next process off that queue on each timer tick or yield, and
-- signals change the state of a process. Pipes carry bytes between two processes. The text terminal
-- and the virtual terminals behind it show text, and the keyboard's interrupt handler echoes to
-- them, switches between them and sends a signal on Ctrl+C. The file system keeps files as chains
-- of blocks in memory. System calls join these parts: descriptors of a process stand for files and
-- pipes, and fork copies a process with its memory and descriptors.
--
-- Prelude: the helpers that the modules share: Boolean tests and lists over the native numbers,
-- the result type `Run` of C calls (return, panic, or an access out of bounds), and facts on
-- single bits of a word.
-- Pmm (src/mm/pmm.c): the record `Pmm` holds the static variables and physical memory as 64 bit
-- words by address; `init`, `alloc_page`, `free_page`, `alloc_pages`, `free_range` and `get_stats`
-- are pmm_init, pmm_alloc_page, pmm_free_page, pmm_alloc_pages, the function pmm_free_pages (which
-- shares its name with a variable there) and pmm_get_stats. Its loops are structural recursion on
-- the rounds left: words of the bitmap, bits of a word, pages of a block.
-- Kmalloc (src/mm/kmalloc.c): `Heap` holds the static variables and the block headers by address;
-- `kmalloc`, `kfree` and their helpers bear the names of the source. The two loops over the blocks
-- run on fuel, `max_blocks`, more than the headers that fit in the heap.
-- Vmm (src/mm/vmm.c): tables are pages of the physical memory in `Pmm`, an entry is the word at its
-- index; the operations bear the names of the source without their prefix. The loops of clone_pt,
-- clone_pd and clone_pdpt are one, `clone_entries`, on the rounds left.
-- Fs (src/fs/fs.c): `Ramfs` is ramfs_t; Fs/Create models the creation of files and directories and
-- fs_init. The loops of a read and a write run on rounds that are enough: the blocks' sizes in the
-- offset for those that skip, the bytes for those that copy.
-- Keyboard (src/drivers/keyboard.c): `Machine` joins the ring of characters with the `Terminal` and
-- the `Kernel` that the interrupt handler acts on.
-- Process (src/kernel/process.c): `Kernel` holds control blocks by address (0 is NULL), the
-- process table, the queue's ends, the variables of scheduler.c and the events that leave the C
-- code.
-- Lifecycle (src/kernel/process.c, init_process_fd_table of src/kernel/syscall.c): `System` joins the
-- `Kernel` of Process with the heap, the pages and the tables of descriptors; process_init,
-- process_create, process_destroy and the helpers of fork bear the names of the source. The text
-- they print is left out, and the word pushed on the new kernel stack. The heap and what stands in it
-- are stores apart from the memory of `Pmm`. In the source the heap (0x2000000 to 0x3000000) lies in
-- pages that pmm_init frees and the page allocator hands out and clears: `spoils` finds such a page,
-- and process_create, sbrk and fork end in `fault` where a call of theirs was handed one.
-- Syscall (src/kernel/syscall.c): `Os` joins `System` with the file system, the pipes, the keys and
-- the screen; the calls bear the names of the source and end in a `Reply`. A round of a loop that
-- waits for an interrupt or for another process is the reply `waits`.
-- Scheduler (src/kernel/scheduler.c and process_yield, process_block and process_exit of
-- process.c): `schedule` with its parts `requeue_current`, `schedule_next` and `switch_to`, and
-- `scheduler_tick`. Interrupts are off while `schedule` runs, so each call is one step.
-- Signal (src/ipc/signal.c): `signal_send`; process_find_by_pid, which the repository does not
-- define, is a parameter.
-- Pipe (src/ipc/pipe.c): `Pipe` is pipe_t; a wait in a loop of pipe_read or pipe_write, which
-- spins until another context changes the pipe, is the result `blocked`.
-- Vt (src/drivers/vt.c): `Console` holds the terminals, the cells on display and the cursor, and
-- the operations bear the names of the source; a write outside of a terminal's buffer is a
-- `fault`.
-- Terminal (src/drivers/terminal.c): `Terminal` holds the cursor and the `Console` of Vt, whose
-- VGA memory it writes; the operations bear the names of the source.
-- Programs (src/programs/wc.c, src/programs/grep.c, int_to_string of src/kernel/syscall.c): what the
-- two programs compute from the bytes they read. The digits of a number of 32 bits are counted on ten
-- rounds, which are enough.
--
-- Words: a counter of 64 bits is kept modulo 2^64 where it can wrap, and physical pages have
-- bounds below 2^63 bytes where a theorem needs them.
--
-- Not modelled: the bytes in the blocks of the heap, hence krealloc, and kzalloc but for the control
-- blocks; of the system calls the table with its handler, sys_sleep and the text of sys_ps; the ELF
-- loader (src/lib/elf.c), the timer, the boot code, the shells and init, and the assembly. The text
-- that calls print is left out, except where it goes through the terminal that Keyboard models.
pub mod Prelude
pub mod Pmm
pub mod Fs
pub mod Keyboard
pub mod Kmalloc
pub mod Lifecycle
pub mod Syscall
pub mod Programs
pub mod Pipe
pub mod Process
pub mod Scheduler
pub mod Signal
pub mod Terminal
pub mod Vmm
pub mod Vt
