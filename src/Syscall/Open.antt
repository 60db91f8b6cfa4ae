-- ===== src/Syscall/Open.antt =====
-- `sys_open` and the descriptor it gives.
use simple_os.Prelude.{
  ℕ, zero, suc, ◌+◌, ◌-◌, ◌%◌, ◌^◌, ◌≤◌, ◌<◌, ◌≡◌, ◌≢◌, refl, sym, ap, ◌∙◌, inl, inr, ◌==◌, ltb,
  not, Bool-cases, true, false, List, [], length, Option, none, some, arith, ok,
}
use simple_os.Fs.{Ramfs, filename_max, ramfs_finddir}
use simple_os.Fs.Read.{FileAt}
use simple_os.Fs.Dir.{HasRoom, FreshInode, ramfs_finddir-none, ramfs_finddir-ramfs_create_file}
use simple_os.Lifecycle.{FdEntry, max_fds}
use simple_os.Syscall.{Os, returns, get_fd_table, fd_at, set_fd, is_open}
use simple_os.Syscall.Path.{find_fd, skip_slash, or_create, open_at, sys_open}
use simple_os.Syscall.Files.{IsFile, other-IsFile}

-- The first of `n` descriptors from `i` on that is free.
pub record IsFirst (fds : ℕ → FdEntry) (n i fd : ℕ) : Type 0 where
  pub from : i ≤ fd
  pub below : fd < i + n
  pub free : is_open (fds fd) ≡ false
  pub first : (j : ℕ) → i ≤ j → j < fd → is_open (fds j) ≡ true

find_fd_lem : (fds : ℕ → FdEntry) (n i fd : ℕ) → IsFirst fds n i fd → find_fd fds n i ≡ some fd
unfolding find_fd
find_fd_lem fds zero i fd f = absurd (omega (arith, f.from, f.below))
find_fd_lem fds (suc n) i fd f = elim (Bool-cases (fd == i)) [
  | inl e ↦
      let here : fd ≡ i = ground (arith, e) in
      let free : is_open (fds i) ≡ false = ap (λ j. is_open (fds j)) (sym here) ∙ f.free in
      rw free (ap some (sym here))
  | inr e ↦
      let past : i < fd = ground (arith, e, f.from) in
      let used : is_open (fds i) ≡ true = f.first i (omega arith) past in
      rw used (
        find_fd_lem fds n (i + 1) fd (record {
          from = omega (arith, past);
          below = omega (arith, f.below);
          free = f.free;
          first = λ j a b. f.first j (omega (arith, a)) b;
        }))
]

-- The descriptor that `sys_open` sets up.
abbrev pub entry_for : FdEntry → ℕ → ℕ → FdEntry
entry_for e node flags = record e {
  node = some node;
  offset = 0;
  flags = flags % 2 ^ 32;
  is_pipe = false;
}

open_run :
    (os : Os) (path name : List ℕ) (flags fd node : ℕ) (found : Option ℕ) (q : Ramfs)
    → get_fd_table os ≢ 0
    → skip_slash path ≡ name
    → IsFirst (fd_at os (get_fd_table os)) (max_fds - 3) 3 fd
    → ramfs_finddir os.fs 0 name ≡ ok found
    → or_create os.fs name found ≡ ok (some node, q)
    → sys_open os (some path) flags
      ≡ ok (
          returns fd [] (
            set_fd
              (record os { fs = q })
              (get_fd_table os)
              fd
              (entry_for (fd_at os (get_fd_table os) fd) node flags)))
unfolding sys_open open_at
open_run os path name flags fd node found q table at first e c =
    let t0 : (get_fd_table os == 0) ≡ false = ground (arith, table) in
    let which = find_fd_lem (fd_at os (get_fd_table os)) (max_fds - 3) 3 fd first in
    rw t0 (rw which (rw at (rw e (rw c refl))))

set_fd-here :
    (os : Os) (fd : ℕ) (e : FdEntry)
    → fd_at (set_fd os (get_fd_table os) fd e) (get_fd_table os) fd ≡ e
set_fd-here os fd e =
    let t : ℕ = get_fd_table os in
    let table : (t == t) ≡ true = ground arith in
    let self : (fd == fd) ≡ true = ground arith in rw table (rw self refl)

set_fd-other :
    (os : Os) (fd j : ℕ) (e : FdEntry)
    → j ≢ fd
    → fd_at (set_fd os (get_fd_table os) fd e) (get_fd_table os) j ≡ fd_at os (get_fd_table os) j
set_fd-other os fd j e off =
    let t : ℕ = get_fd_table os in
    let table : (t == t) ≡ true = ground arith in
    let miss : (j == fd) ≡ false = ground (arith, off) in rw table (rw miss refl)

entry-is_open : (e : FdEntry) (node flags : ℕ) → is_open (entry_for e node flags) ≡ true
entry-is_open e node flags = elim (Bool-cases (not (e.pipe == 0))) [
  | inl h ↦ rw h refl
  | inr h ↦ rw h refl
]

-- With `a` set up, the first free descriptor is the one that was next after it.
next-IsFirst :
    (os : Os) (q : Ramfs) (a b : ℕ) (e : FdEntry)
    → is_open e ≡ true
    → IsFirst (fd_at os (get_fd_table os)) (max_fds - 3) 3 a
    → IsFirst (fd_at os (get_fd_table os)) (max_fds - (a + 1)) (a + 1) b
    → IsFirst
        (fd_at (set_fd (record os { fs = q }) (get_fd_table os) a e) (get_fd_table os))
        (max_fds - 3)
        3
        b
next-IsFirst os q a b e used f s = record {
  from = omega (arith, f.from, s.from);
  below = omega (arith, f.below, s.below, s.from);
  free = ap is_open (set_fd-other os a b e (omega (arith, s.from))) ∙ s.free;
  first = λ j l h. elim (Bool-cases (ltb j a)) [
    | inl low ↦
        ap is_open (set_fd-other os a j e (ground (arith, low))) ∙ f.first j l (ground (arith, low))
    | inr high ↦ elim (Bool-cases (j == a)) [
      | inl same ↦
          (let at : j ≡ a = ground (arith, same) in rw at (ap is_open (set_fd-here os a e) ∙ used))
      | inr past ↦
          ap is_open (set_fd-other os a j e (ground (arith, past)))
          ∙ s.first j (ground (arith, high, past)) h
    ]
  ];
}

open-IsFile :
    (os : Os) (q : Ramfs) (fd n i node flags : ℕ)
    → 2 < i
    → i + n ≤ max_fds
    → get_fd_table os ≢ 0
    → IsFirst (fd_at os (get_fd_table os)) n i fd
    → IsFile
        (set_fd
          (record os { fs = q })
          (get_fd_table os)
          fd
          (entry_for (fd_at os (get_fd_table os) fd) node flags))
        fd
        node
        0
unfolding get_fd_table
open-IsFile os q fd n i node flags low high table f =
    let at = set_fd-here os fd (entry_for (fd_at os (get_fd_table os) fd) node flags) in
    record {
      past_standard = omega (arith, f.from, low);
      inside = omega (arith, f.below, high);
      has_table = table;
      no_pipe = ap (λ e. e.is_pipe) at;
      at_node = ap (λ e. e.node) at;
      at_offset = ap (λ e. e.offset) at;
    }

-- The process has a table with two free descriptors, the root has room and no file of the path, whose name
-- (without its first slash) has fewer than 32 bytes, and the next inode is fresh: opening the path creates
-- an empty file, and opening it again finds it; the calls return the two lowest free descriptors, which
-- both stand at the start of the file. The file takes no block, and no other descriptor changes.
pub sys_open-sys_open :
    (os : Os) (path name : List ℕ) (block node i a b flags flags2 : ℕ)
    → HasRoom os.fs 0 name block node i
    → FreshInode os.fs
    → length name < filename_max
    → skip_slash path ≡ name
    → get_fd_table os ≢ 0
    → IsFirst (fd_at os (get_fd_table os)) (max_fds - 3) 3 a
    → IsFirst (fd_at os (get_fd_table os)) (max_fds - (a + 1)) (a + 1) b
    → (q r : Os) × (sys_open os (some path) flags ≡ ok (returns a [] q))
      × (sys_open q (some path) flags2 ≡ ok (returns b [] r))
      × IsFile r a node 0
      × IsFile r b node 0
      × FileAt r.fs node []
      × (r.fs.free_blocks ≡ os.fs.free_blocks)
      × ((j : ℕ) → j ≢ a → j ≢ b → fd_at r (get_fd_table os) j ≡ fd_at os (get_fd_table os) j)
      × ((t : ℕ) → t ≢ get_fd_table os → r.system.fds t ≡ os.system.fds t)
unfolding get_fd_table or_create
sys_open-sys_open os path name block node i a b flags flags2 room f short at table fa fb =
    let (g, made, file, size, empty, blocks, found) =
      ramfs_finddir-ramfs_create_file os.fs 0 name block node i room f short in
    let ea : FdEntry = entry_for (fd_at os (get_fd_table os) a) node flags in
    let q : Os = set_fd (record os { fs = g }) (get_fd_table os) a ea in
    let eb : FdEntry = entry_for (fd_at q (get_fd_table q) b) node flags2 in
    let r : Os = set_fd q (get_fd_table q) b eb in
    let apart : b ≢ a = omega (arith, fb.from) in
    let next =
      next-IsFirst os g a b ea (entry-is_open (fd_at os (get_fd_table os) a) node flags) fa fb in
    let here = open-IsFile os g a (max_fds - 3) 3 node flags (omega arith) (omega arith) table fa in
    (
      q,
      r,
      open_run os path name flags a node none g table at fa
          (ramfs_finddir-none os.fs 0 name block node i room) made,
      open_run q path name flags2 b node (some node) g table at next found refl,
      other-IsFile q a b node 0 eb (λ e. apart (sym e)) here,
      open-IsFile q g b (max_fds - 3) 3 node flags2 (omega arith) (omega arith) table next,
      record { file = file; chained = empty; covered = omega (arith, size) },
      blocks,
      (λ j na nb. set_fd-other q b j eb nb ∙ set_fd-other os a j ea na),
      λ t off. (let miss : (t == get_fd_table os) ≡ false = ground (arith, off) in rw miss refl),
    )
