-- ===== src/Syscall.antt =====
-- src/kernel/syscall.c: the calls on file descriptors; Syscall/Path holds those that take a path or make a
-- pipe, Syscall/Memory those on processes. An argument that points to bytes is its address, 0 being
-- NULL, with the bytes; what a call stores at the caller's pointer is part of its reply.
pub mod Path
pub mod Task
pub mod Fork
pub mod Files
pub mod Open
mod Tests
use simple_os.Prelude.{
  ℕ, zero, suc, ◌+◌, ◌-◌, ◌%◌, ◌^◌, ◌==◌, ltb, if◌then◌else◌, not, ◌||◌, ◌&&◌, Bool, true, false,
  List, [], ◌∷◌, ◌++◌, length, take, Option, none, some, Run, ok, ◌>>=◌,
}
use simple_os.Process.{process_get_current, process_get_pid}
use simple_os.Lifecycle.{System, FdEntry, closed, max_fds, put}
use simple_os.Fs.{Ramfs, ramfs_read, ramfs_write}
use simple_os.Pipe.{Pipe, Transfer, error, returned, blocked, pipe_read, pipe_write}
use simple_os.Keyboard.{Keyboard, keyboard_has_char, keyboard_getchar}
use simple_os.Terminal.{Terminal, terminal_putchar}

-- What the calls act on; the pipes are by address.
pub record Os : Type 0 where
  pub system : System
  pub fs : Ramfs
  pub pipe : ℕ → Pipe
  pub keys : Keyboard
  pub screen : Terminal

-- A call returns a value and what it stores at the caller's pointer, or it spins until an interrupt or
-- another process changes what it waits for, with what it has stored so far.
pub data Reply : Type 0 where
  returns : ℕ → List ℕ → Os → Reply
  waits : List ℕ → Os → Reply

-- (uint64_t)-1.
abbrev pub minus_one : ℕ
minus_one = 0xFFFFFFFFFFFFFFFF

-- An int as the call returns it.
abbrev pub as_int : ℕ → ℕ
as_int n = if ltb (n % 2 ^ 32) (2 ^ 31) then n % 2 ^ 32 else n % 2 ^ 32 + (2 ^ 64 - 2 ^ 32)

-- The address of the current process's table; 0 is NULL.
unfoldable pub get_fd_table : Os → ℕ
get_fd_table os = (os.system.image (process_get_current os.system.kernel)).fd_table

abbrev pub fd_at : Os → ℕ → ℕ → FdEntry
fd_at os table fd = os.system.fds table fd

abbrev pub set_fd : Os → ℕ → ℕ → FdEntry → Os
set_fd os table fd e = record os {
  system = record os.system { fds = put os.system.fds table (put (os.system.fds table) fd e) };
}

-- "if (n > 0) offset += n" for the int `n` that the file system returned.
abbrev pub moved : Os → ℕ → ℕ → ℕ → Os
moved os table fd n =
    let e = fd_at os table fd in
    if ltb 0 (n % 2 ^ 32) && ltb (n % 2 ^ 32) (2 ^ 31)
    then set_fd os table fd (record e { offset = (e.offset + n) % 2 ^ 32 })
    else os

-- The end of a write to a file and to a pipe.
abbrev pub wrote_file : Os → ℕ → ℕ → Option ℕ → Reply
wrote_file os table fd none = returns minus_one [] os
wrote_file os table fd (some n) = returns (as_int n) [] (moved os table fd n)

abbrev pub wrote_pipe : Os → ℕ → Transfer → Reply
wrote_pipe os p error = returns minus_one [] os
wrote_pipe os p (returned bytes q) =
    returns (as_int (length bytes)) [] (record os { pipe = put os.pipe p q })
wrote_pipe os p (blocked bytes q) = waits [] (record os { pipe = put os.pipe p q })

unfoldable pub write_node : Os → ℕ → ℕ → Option ℕ → List ℕ → Run Reply
write_node os table fd none buf = ok (returns minus_one [] os)
write_node os table fd (some node) buf =
    ramfs_write os.fs node (fd_at os table fd).offset (take (length buf % 2 ^ 32) buf) >>= λ (n, q).
    ok (wrote_file (record os { fs = q }) table fd n)

unfoldable pub write_screen : Terminal → List ℕ → Run Terminal
write_screen t [] = ok t
write_screen t (c ∷ cs) = terminal_putchar t c >>= λ u. write_screen u cs

-- `buf` are the `count` bytes at `buf_ptr`.
unfoldable pub sys_write : Os → ℕ → ℕ → List ℕ → Run Reply
sys_write os fd buf_ptr buf =
    let table = get_fd_table os in
    let e = fd_at os table fd in
    if (buf_ptr == 0) || (length buf == 0)
    then ok (returns 0 [] os)
    else if (fd == 1) || (fd == 2)
    then (write_screen os.screen buf >>= λ t.
        ok (returns (length buf) [] (record os { screen = t })))
    else if not (table == 0) && ltb fd max_fds
    then (if e.is_pipe && not (e.pipe == 0)
        then ok (wrote_pipe os e.pipe (pipe_write (os.pipe e.pipe) buf))
        else write_node os table fd e.node buf)
    else ok (returns minus_one [] os)

-- The loop over the keys with `n` bytes left; false where it waits for a key.
unfoldable pub read_keys : ℕ → List ℕ → Keyboard → Bool × List ℕ × Keyboard
read_keys zero out k = (true, out, k)
read_keys (suc n) out k =
    let (c, q) = keyboard_getchar k in
    let rest = read_keys n (out ++ c ∷ []) q in
    if keyboard_has_char k
    then (if c == 10 then (true, out ++ c ∷ [], q) else rest)
    else (false, out, k)

abbrev pub read_file : Os → ℕ → ℕ → Option (List ℕ) → Reply
read_file os table fd none = returns minus_one [] os
read_file os table fd (some bytes) =
    returns (as_int (length bytes)) bytes (moved os table fd (length bytes))

abbrev pub read_pipe : Os → ℕ → Transfer → Reply
read_pipe os p error = returns minus_one [] os
read_pipe os p (returned bytes q) =
    returns (as_int (length bytes)) bytes (record os { pipe = put os.pipe p q })
read_pipe os p (blocked bytes q) = waits bytes (record os { pipe = put os.pipe p q })

unfoldable pub read_node : Os → ℕ → ℕ → Option ℕ → ℕ → Run Reply
read_node os table fd none count = ok (returns minus_one [] os)
read_node os table fd (some node) count =
    ramfs_read os.fs node (fd_at os table fd).offset (count % 2 ^ 32) >>= λ bytes.
    ok (read_file os table fd bytes)

unfoldable pub sys_read : Os → ℕ → ℕ → ℕ → Run Reply
sys_read os fd buf_ptr count =
    let table = get_fd_table os in
    let e = fd_at os table fd in
    let (done, line, k) = read_keys count [] os.keys in
    let typed = record os { keys = k } in
    if (buf_ptr == 0) || (count == 0)
    then ok (returns 0 [] os)
    else if fd == 0
    then ok (if done then returns (length line) line typed else waits line typed)
    else if not (table == 0) && ltb fd max_fds
    then (if e.is_pipe && not (e.pipe == 0)
        then ok (read_pipe os e.pipe (pipe_read (os.pipe e.pipe) count))
        else read_node os table fd e.node count)
    else ok (returns minus_one [] os)

unfoldable pub sys_close : Os → ℕ → Reply
sys_close os fd =
    let table = get_fd_table os in
    if (table == 0) || not (ltb fd max_fds)
    then returns minus_one [] os
    else returns 0 [] (set_fd os table fd closed)

-- Neither a node nor a pipe.
abbrev pub is_open : FdEntry → Bool
is_open e = not (e.pipe == 0) || elim e.node [ none ↦ false | some node ↦ true ]

unfoldable pub sys_dup2 : Os → ℕ → ℕ → Reply
sys_dup2 os oldfd newfd =
    let table = get_fd_table os in
    if table == 0
    then returns minus_one [] os
    else if not (ltb oldfd max_fds) || not (ltb newfd max_fds)
    then returns minus_one [] os
    else if not (is_open (fd_at os table oldfd))
    then returns minus_one [] os
    else if oldfd == newfd
    then returns newfd [] os
    else returns newfd [] (set_fd os table newfd (fd_at os table oldfd))

abbrev pub sys_getpid : Os → ℕ
sys_getpid os = process_get_pid os.system.kernel
