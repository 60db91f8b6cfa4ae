-- ===== src/Fs.antt =====
-- src/fs/fs.c: the RAM file system. A pointer to a node is its index in `nodes`; the arrays of blocks are
-- functions of the block's number, and an access to a block past their end is a `fault`. The
-- operations behind `ramfs_ops` are called directly; open and close do nothing.
pub mod Chain
pub mod Read
pub mod Create
pub mod Grow
pub mod Patch
pub mod Write
pub mod Skip
pub mod From
pub mod Touched
pub mod File
pub mod Dir
pub mod Ready
mod Tests
use simple_os.Prelude.{
  ℕ, zero, suc, ◌+◌, ◌-◌, ◌*◌, ◌/◌, ◌%◌, ◌^◌, bit_or, bit_and, ◌==◌, ltb, leb, min, if◌then◌else◌,
  not, ◌||◌, ◌&&◌, Bool, true, false, List, [], ◌∷◌, ◌++◌, length, take, drop, get_or, set, Option,
  none, some, Run, ok, fault, ◌>>=◌, has_bit, not_bit32,
}

abbrev pub filename_max : ℕ
filename_max = 32

abbrev pub max_files : ℕ
max_files = 64

abbrev pub block_size : ℕ
block_size = 512

abbrev pub max_blocks : ℕ
max_blocks = 1024

abbrev pub type_file : ℕ
type_file = 1

abbrev pub type_dir : ℕ
type_dir = 2

-- (uint32_t)-1.
abbrev pub no_block : ℕ
no_block = 0xFFFFFFFF

pub record Node : Type 0 where
  pub name : List ℕ
  pub type : ℕ
  pub size : ℕ
  pub permissions : ℕ
  pub first_block : ℕ
  pub inode_num : ℕ

-- `content b` are the bytes of block `b`, and `next_block b` is the block after it.
pub record Ramfs : Type 0 where
  pub nodes : ℕ → Node
  pub content : ℕ → ℕ → ℕ
  pub next_block : ℕ → ℕ
  pub free_blocks : List ℕ
  pub next_inode : ℕ

abbrev pub put {ℓ} : {A : Type ℓ} → (ℕ → A) → ℕ → A → ℕ → A
put f i a j = if j == i then a else f j

abbrev pub set_node : Ramfs → ℕ → Node → Ramfs
set_node fs i n = record fs { nodes = put fs.nodes i n }

abbrev pub is_file : ℕ → Bool
is_file type = type == type_file

abbrev pub is_dir : ℕ → Bool
is_dir type = type == type_dir

-- Is the bit of block `i` set? The bits of blocks past the bitmap are taken as set.
unfoldable pub taken : List ℕ → ℕ → Bool
taken bm i = has_bit (get_or bm (i / 32) no_block) (i % 32)

unfoldable pub find_block : List ℕ → ℕ → ℕ → Option ℕ
find_block bm zero i = none
find_block bm (suc n) i = let rest = find_block bm n (i + 1) in if taken bm i then rest else some i

abbrev pub take_block : Ramfs → ℕ → Ramfs
take_block fs i = record fs {
  free_blocks =
      set fs.free_blocks (i / 32) (bit_or (get_or fs.free_blocks (i / 32) no_block) (2 ^ (i % 32)));
  next_block = put fs.next_block i no_block;
}

-- What the search of `allocate_block` found, and the result as a uint32_t.
abbrev pub allocated : Ramfs → Option ℕ → ℕ × Ramfs
allocated fs none = (no_block, fs)
allocated fs (some i) = (i, take_block fs i)

unfoldable pub allocate_block : Ramfs → ℕ × Ramfs
allocate_block fs = allocated fs (find_block fs.free_blocks max_blocks 0)

unfoldable pub free_block : Ramfs → ℕ → Ramfs
free_block fs block = if leb max_blocks block then fs else record fs {
  free_blocks =
      set fs.free_blocks (block / 32)
        (bit_and (get_or fs.free_blocks (block / 32) no_block) (not_bit32 (block % 32)));
}

-- `n` bytes from `off` on, and a memcpy of bytes to `off`.
unfoldable pub bytes_at : ℕ → ℕ → (ℕ → ℕ) → List ℕ
bytes_at zero off d = []
bytes_at (suc n) off d = d off ∷ bytes_at n (off + 1) d

unfoldable pub write_bytes : List ℕ → ℕ → (ℕ → ℕ) → ℕ → ℕ
write_bytes [] off d = d
write_bytes (x ∷ xs) off d = write_bytes xs (off + 1) (put d off x)

-- The loop that skips to the block of an offset; each round takes a block's size off the offset, so that
-- `off / block_size` rounds are all.
unfoldable pub skip_blocks : ℕ → Ramfs → ℕ → ℕ → Run (ℕ × ℕ)
skip_blocks zero fs block off = ok (block, off)
skip_blocks (suc n) fs block off =
    let rest = skip_blocks n fs (fs.next_block block) (off - block_size) in
    if ltb off block_size || (block == no_block)
    then ok (block, off)
    else if leb max_blocks block
    then fault
    else rest

-- The loop that copies out of the blocks, with `size` bytes left; each round copies at least one.
unfoldable pub read_loop : ℕ → Ramfs → ℕ → ℕ → ℕ → Run (List ℕ)
read_loop zero fs block off size = ok []
read_loop (suc n) fs block off size =
    let to_read = min (block_size - off) size in
    let rest = read_loop n fs (fs.next_block block) 0 (size - to_read) in
    if (size == 0) || (block == no_block)
    then ok []
    else if leb max_blocks block
    then fault
    else (rest >>= λ bytes. ok (bytes_at to_read off (fs.content block) ++ bytes))

-- The bytes copied to the buffer, whose number is the result; `none` is -1.
unfoldable pub ramfs_read : Ramfs → ℕ → ℕ → ℕ → Run (Option (List ℕ))
ramfs_read fs node offset size =
    let n = fs.nodes node in
    let left = if ltb n.size ((offset + size) % 2 ^ 32) then n.size - offset else size in
    if not (is_file n.type)
    then ok none
    else if leb n.size offset
    then ok (some [])
    else skip_blocks (offset / block_size) fs n.first_block offset >>= λ (block, off).
        read_loop left fs block off left >>= λ bytes. ok (some bytes)

-- The block after `block`, which is allocated if there is none; `no_block` where that fails.
unfoldable pub next_or_new : Ramfs → ℕ → Run (ℕ × Ramfs)
next_or_new fs block =
    let (new, q) = allocate_block fs in
    if leb max_blocks block
    then fault
    else if not (fs.next_block block == no_block)
    then ok (fs.next_block block, fs)
    else if new == no_block
    then ok (no_block, q)
    else ok (new, record q { next_block = put q.next_block block new })

-- The loop that skips to the block of an offset and allocates on the way. The first component is `no_block`
-- where an allocation fails.
unfoldable pub skip_write : ℕ → Ramfs → ℕ → ℕ → Run (ℕ × ℕ × Ramfs)
skip_write zero fs block off = ok (block, off, fs)
skip_write (suc n) fs block off =
    if ltb off block_size
    then ok (block, off, fs)
    else next_or_new fs block >>= λ (next, q).
        if next == no_block then ok (no_block, off, q) else skip_write n q next (off - block_size)

-- The loop that copies `buffer` into the blocks, with the number of bytes it has copied.
unfoldable pub write_loop : ℕ → Ramfs → ℕ → ℕ → List ℕ → Run (ℕ × Ramfs)
write_loop zero fs block off buffer = ok (0, fs)
write_loop (suc n) fs block off buffer =
    let to_write = min (block_size - off) (length buffer) in
    let written = record fs {
      content = put fs.content block (write_bytes (take to_write buffer) off (fs.content block));
    } in
    if length buffer == 0
    then ok (0, fs)
    else if leb max_blocks block
    then fault
    else if length buffer == to_write
    then ok (to_write, written)
    else next_or_new written block >>= λ (next, q).
        if next == no_block
        then ok (to_write, q)
        else write_loop n q next 0 (drop to_write buffer) >>= λ (more, r). ok (to_write + more, r)

-- The end of `ramfs_write`.
abbrev pub grow : Ramfs → ℕ → ℕ → ℕ → Ramfs
grow fs node offset written =
    let n = fs.nodes node in
    let reached = (offset + written) % 2 ^ 32 in
    if ltb n.size reached then set_node fs node (record n { size = reached }) else fs

-- The node's first block, which is allocated if there is none.
abbrev pub first_or_new : Ramfs → ℕ → ℕ × Ramfs
first_or_new fs node =
    let n = fs.nodes node in
    let (new, q) = allocate_block fs in
    if n.first_block == no_block
    then (new, set_node q node (record n { first_block = new }))
    else (n.first_block, fs)

-- The result is the number of bytes written; `none` is -1.
unfoldable pub ramfs_write : Ramfs → ℕ → ℕ → List ℕ → Run (Option ℕ × Ramfs)
ramfs_write fs node offset buffer =
    let (first, p) = first_or_new fs node in
    if not (is_file (fs.nodes node).type)
    then ok (none, fs)
    else if first == no_block
    then ok (none, p)
    else skip_write (offset / block_size) p first offset >>= λ (block, off, q).
        if block == no_block
        then ok (none, q)
        else write_loop (length buffer) q block off buffer >>= λ (written, r).
            ok (some written, grow r node offset written)

-- Directory entries: a name of `filename_max` bytes and an inode number of four.
pub record Dirent : Type 0 where
  pub name : List ℕ
  pub inode : ℕ

abbrev pub dirent_size : ℕ
dirent_size = filename_max + 4

abbrev pub max_entries : ℕ
max_entries = block_size / dirent_size

abbrev pub inode_at : (ℕ → ℕ) → ℕ → ℕ
inode_at d i =
    let a = i * dirent_size + filename_max in
    d a + 256 * d (a + 1) + 65536 * d (a + 2) + 16777216 * d (a + 3)

-- `entries[i].inode = v`, byte by byte.
abbrev pub inode_bytes : ℕ → List ℕ
inode_bytes v = v % 256 ∷ v / 256 % 256 ∷ v / 65536 % 256 ∷ v / 16777216 % 256 ∷ []

-- `strcmp(s, name) == 0` for the string at `off`; `name` is without its terminating 0.
unfoldable pub same_name : List ℕ → ℕ → (ℕ → ℕ) → Bool
same_name [] off d = d off == 0
same_name (c ∷ cs) off d = (d off == c) && same_name cs (off + 1) d

unfoldable pub readdir_loop : ℕ → (ℕ → ℕ) → ℕ → ℕ → ℕ → Option Dirent
readdir_loop zero d i count index = none
readdir_loop (suc n) d i count index =
    let later = readdir_loop n d (i + 1) (count + 1) index in
    let skipped = readdir_loop n d (i + 1) count index in
    if inode_at d i == 0
    then skipped
    else if count == index
    then some (record { name = bytes_at filename_max (i * dirent_size) d; inode = inode_at d i })
    else later

-- The bytes of a directory's block; `none` where it has none.
abbrev pub entries : Ramfs → ℕ → Run (Option (ℕ → ℕ))
entries fs block =
    if block == no_block
    then ok none
    else if leb max_blocks block
    then fault
    else ok (some (fs.content block))

unfoldable pub ramfs_readdir : Ramfs → ℕ → ℕ → Run (Option Dirent)
ramfs_readdir fs node index =
    let n = fs.nodes node in
    let read : Option (ℕ → ℕ) → Option Dirent =
      λ o. elim o [ none ↦ none | some d ↦ readdir_loop max_entries d 0 0 index ] in
    if not (is_dir n.type) then ok none else (entries fs n.first_block >>= λ o. ok (read o))

-- The first node from `j` on, of `n`, with this inode number.
unfoldable pub find_node : (ℕ → Node) → ℕ → ℕ → ℕ → Option ℕ
find_node nodes inode zero j = none
find_node nodes inode (suc n) j =
    let rest = find_node nodes inode n (j + 1) in
    if (nodes j).inode_num == inode then some j else rest

abbrev or_else : Option ℕ → Option ℕ → Option ℕ
or_else none b = b
or_else (some a) b = some a

unfoldable pub finddir_loop : (ℕ → Node) → List ℕ → ℕ → (ℕ → ℕ) → ℕ → Option ℕ
finddir_loop nodes name zero d i = none
finddir_loop nodes name (suc n) d i =
    let rest = finddir_loop nodes name n d (i + 1) in
    if not (inode_at d i == 0) && same_name name (i * dirent_size) d
    then or_else (find_node nodes (inode_at d i) max_files 0) rest
    else rest

unfoldable pub ramfs_finddir : Ramfs → ℕ → List ℕ → Run (Option ℕ)
ramfs_finddir fs node name =
    let n = fs.nodes node in
    let find : Option (ℕ → ℕ) → Option ℕ =
      λ o. elim o [ none ↦ none | some d ↦ finddir_loop fs.nodes name max_entries d 0 ] in
    if not (is_dir n.type) then ok none else (entries fs n.first_block >>= λ o. ok (find o))
