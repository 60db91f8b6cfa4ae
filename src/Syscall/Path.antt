-- ===== src/Syscall/Path.antt =====
-- src/kernel/syscall.c: sys_open, sys_stat, sys_mkdir, sys_readdir and sys_pipe. A path is given without its
-- terminating 0; `none` is NULL.
use simple_os.Prelude.{
  ℕ, zero, suc, ◌+◌, ◌-◌, ◌%◌, ◌^◌, ◌==◌, ltb, if◌then◌else◌, not, ◌||◌, true, false, List, [], ◌∷◌,
  ◌++◌, Option, none, some, Run, ok, ◌>>=◌,
}
use simple_os.Lifecycle.{FdEntry, max_fds, put}
use simple_os.Kmalloc.{kmalloc}
use simple_os.Fs.{Ramfs, Dirent, is_dir, type_file, ramfs_finddir, ramfs_readdir}
use simple_os.Fs.Create.{ramfs_create_file, ramfs_create_dir}
use simple_os.Pipe.{pipe_create, pipe_destroy}
use simple_os.Syscall.{Os, Reply, returns, minus_one, get_fd_table, fd_at, set_fd, is_open}

-- The first descriptor from `i` on, of `n`, that is free.
unfoldable pub find_fd : (ℕ → FdEntry) → ℕ → ℕ → Option ℕ
find_fd fds zero i = none
find_fd fds (suc n) i = let rest = find_fd fds n (i + 1) in if is_open (fds i) then rest else some i

abbrev pub skip_slash : List ℕ → List ℕ
skip_slash [] = []
skip_slash (c ∷ cs) = if c == 47 then cs else c ∷ cs

-- The node found in the root, or a new file there.
unfoldable pub or_create : Ramfs → List ℕ → Option ℕ → Run (Option ℕ × Ramfs)
or_create fs name none = ramfs_create_file fs 0 name
or_create fs name (some node) = ok (some node, fs)

abbrev pub opened : Os → ℕ → ℕ → ℕ → Option ℕ → Reply
opened os table flags fd none = returns minus_one [] os
opened os table flags fd (some node) = returns fd [] (
    set_fd os table fd (record (fd_at os table fd) {
      node = some node;
      offset = 0;
      flags = flags % 2 ^ 32;
      is_pipe = false;
    }))

unfoldable pub open_at : Os → ℕ → List ℕ → ℕ → Option ℕ → Run Reply
open_at os table name flags none = ok (returns minus_one [] os)
open_at os table name flags (some fd) = ramfs_finddir os.fs 0 name >>= λ found.
    or_create os.fs name found >>= λ (node, q).
    ok (opened (record os { fs = q }) table flags fd node)

unfoldable pub sys_open : Os → Option (List ℕ) → ℕ → Run Reply
sys_open os none flags = ok (returns minus_one [] os)
sys_open os (some path) flags =
    let table = get_fd_table os in
    if table == 0
    then ok (returns minus_one [] os)
    else open_at os table (skip_slash path) flags (find_fd (fd_at os table) (max_fds - 3) 3)

-- The size and the type of the node.
abbrev pub stat_of : Os → Option ℕ → Reply
stat_of os none = returns minus_one [] os
stat_of os (some node) = returns 0 ((os.fs.nodes node).size ∷ (os.fs.nodes node).type ∷ []) os

unfoldable pub sys_stat : Os → Option (List ℕ) → ℕ → Run Reply
sys_stat os none stat_ptr = ok (returns minus_one [] os)
sys_stat os (some path) stat_ptr =
    if stat_ptr == 0
    then ok (returns minus_one [] os)
    else (ramfs_finddir os.fs 0 (skip_slash path) >>= λ found. ok (stat_of os found))

abbrev pub made_dir : Os → Option ℕ → Reply
made_dir os none = returns minus_one [] os
made_dir os (some node) = returns 0 [] os

unfoldable pub sys_mkdir : Os → Option (List ℕ) → Run Reply
sys_mkdir os none = ok (returns minus_one [] os)
sys_mkdir os (some path) = ramfs_create_dir os.fs 0 (skip_slash path) >>= λ (dir, q).
    ok (made_dir (record os { fs = q }) dir)

unfoldable pub strncpy : ℕ → List ℕ → List ℕ
strncpy zero src = []
strncpy (suc n) [] = 0 ∷ strncpy n []
strncpy (suc n) (c ∷ cs) = if c == 0 then 0 ∷ strncpy n [] else c ∷ strncpy n cs

-- The name of 32 bytes and the type.
abbrev pub read_entry : Os → ℕ → ℕ → Option Dirent → Reply
read_entry os table fd none = returns 0 [] os
read_entry os table fd (some entry) =
    let e = fd_at os table fd in
    returns 1 (strncpy 31 entry.name ++ 0 ∷ type_file ∷ [])
      (set_fd os table fd (record e { offset = (e.offset + 1) % 2 ^ 32 }))

unfoldable pub readdir_node : Os → ℕ → ℕ → Option ℕ → Run Reply
readdir_node os table fd none = ok (returns minus_one [] os)
readdir_node os table fd (some node) =
    if not (is_dir (os.fs.nodes node).type)
    then ok (returns minus_one [] os)
    else (ramfs_readdir os.fs node (fd_at os table fd).offset >>= λ entry.
        ok (read_entry os table fd entry))

unfoldable pub sys_readdir : Os → ℕ → Run Reply
sys_readdir os fd =
    let table = get_fd_table os in
    if (table == 0) || not (ltb fd max_fds)
    then ok (returns minus_one [] os)
    else readdir_node os table fd (fd_at os table fd).node

-- `sizeof(pipe_t)`.
abbrev pub pipe_bytes : ℕ
pipe_bytes = 4116

-- The new pipe at `p`, where no two descriptors are free, and where they are.
unfoldable pub pipe_at : Os → ℕ → ℕ → Option ℕ → Option ℕ → Reply
pipe_at os table p none write_fd =
    returns minus_one [] (record os { pipe = put os.pipe p (pipe_destroy (os.pipe p)) })
pipe_at os table p (some read_fd) none =
    returns minus_one [] (record os { pipe = put os.pipe p (pipe_destroy (os.pipe p)) })
pipe_at os table p (some read_fd) (some write_fd) =
    let r =
      set_fd os table read_fd
        (record (fd_at os table read_fd) { pipe = p; is_pipe = true; flags = 0 }) in
    returns 0 (read_fd ∷ write_fd ∷ []) (
      set_fd r table write_fd
        (record (fd_at r table write_fd) { pipe = p; is_pipe = true; flags = 1 }))

-- The next free descriptor after the first.
abbrev pub find_second : (ℕ → FdEntry) → Option ℕ → Option ℕ
find_second fds none = none
find_second fds (some fd) = find_fd fds (max_fds - (fd + 1)) (fd + 1)

unfoldable pub sys_pipe : Os → ℕ → Run Reply
sys_pipe os pipefd_ptr =
    let table = get_fd_table os in
    if (pipefd_ptr == 0) || (table == 0)
    then ok (returns minus_one [] os)
    else kmalloc os.system.heap pipe_bytes >>= λ (p, h).
        let q = record os {
          system = record os.system { heap = h };
          pipe = put os.pipe p (pipe_create (os.pipe p).buffer);
        } in
        let read_fd = find_fd (fd_at os table) (max_fds - 3) 3 in
        ok (
          if p == 0
          then returns minus_one [] (record os { system = record os.system { heap = h } })
          else pipe_at q table p read_fd (find_second (fd_at os table) read_fd))
