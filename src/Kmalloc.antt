-- ===== src/Kmalloc.antt =====
-- src/mm/kmalloc.c: the kernel heap, a list of blocks in address order, each a header and its data.
-- A block is known by the address of its header; the headers are a function of the address, and
-- their data is left to the callers. A loop that outlives its fuel is a `fault`.
pub mod Tiles
pub mod Claim
pub mod Alloc
pub mod Coalesce
pub mod Free
pub mod Align
mod Tests
use simple_os.Prelude.{
  ℕ, zero, suc, ◌+◌, ◌-◌, ◌*◌, ◌/◌, ◌%◌, ◌^◌, bit_and, ◌==◌, ltb, leb, if◌then◌else◌, not, ◌&&◌,
  ◌||◌, Bool, true, false, Run, ok, panic, fault, ◌>>=◌,
}

abbrev pub header_size : ℕ
header_size = 24

abbrev pub min_block_size : ℕ
min_block_size = 16

abbrev pub heap_start : ℕ
heap_start = 0x2000000

abbrev pub heap_size : ℕ
heap_size = 0x1000000

abbrev pub heap_end : ℕ
heap_end = heap_start + heap_size

-- `block_t`; `next` 0 is NULL.
pub record Block : Type 0 where
  pub size : ℕ
  pub next : ℕ
  pub free : Bool

pub record Heap : Type 0 where
  pub block : ℕ → Block
  pub head : ℕ
  pub heap_initialized : Bool
  pub total_allocated : ℕ
  pub total_free : ℕ
  pub allocation_count : ℕ

-- The static variables before the first call, over what memory holds.
abbrev pub fresh : (ℕ → Block) → Heap
fresh memory = record {
  block = memory;
  head = 0;
  heap_initialized = false;
  total_allocated = 0;
  total_free = heap_size;
  allocation_count = 0;
}

abbrev pub write : (ℕ → Block) → ℕ → Block → ℕ → Block
write f p b q = if q == p then b else f q

unfoldable pub init_heap : Heap → Heap
init_heap h = record h {
  block =
      write h.block heap_start (record { size = heap_size - header_size; next = 0; free = true });
  head = heap_start;
  heap_initialized = true;
}

-- The loop of `find_free_block`; the result 0 is NULL.
unfoldable pub find_free_block : (ℕ → Block) → ℕ → ℕ → ℕ → Run ℕ
find_free_block f size zero current = fault
find_free_block f size (suc fuel) current =
    let rest = find_free_block f size fuel (f current).next in
    if current == 0
    then ok 0
    else if (f current).free && leb size (f current).size
    then ok current
    else rest

-- The new header is written first, then the old one.
unfoldable pub split_block : (ℕ → Block) → ℕ → ℕ → ℕ → Block
split_block f p size =
    let new = p + header_size + size in
    let g =
      write f new
        (record { size = (f p).size - size - header_size; next = (f p).next; free = true }) in
    if leb ((size + header_size + min_block_size) % 2 ^ 64) (f p).size
    then write g p (record (g p) { size = size; next = new })
    else f

-- The block and its successor made one.
unfoldable pub merge : (ℕ → Block) → ℕ → ℕ → Block
merge f p =
    let n = f (f p).next in
    write f p (record (f p) { size = (f p).size + (header_size + n.size); next = n.next })

-- The loop of `coalesce_free_blocks`.
unfoldable pub coalesce_free_blocks : ℕ → ℕ → (ℕ → Block) → Run (ℕ → Block)
coalesce_free_blocks zero current f = fault
coalesce_free_blocks (suc fuel) current f =
    let merged = coalesce_free_blocks fuel current (merge f current) in
    let advanced = coalesce_free_blocks fuel (f current).next f in
    if current == 0 || (f current).next == 0
    then ok f
    else if (f current).free && (f (f current).next).free
    then merged
    else advanced

-- No heap has as many blocks: a header takes 24 bytes.
abbrev pub max_blocks : ℕ
max_blocks = heap_size / header_size + 2

unfoldable pub align8 : ℕ → ℕ
align8 size = bit_and ((size + 7) % 2 ^ 64) (2 ^ 64 - 8)

abbrev pub started : Heap → Heap
started h = if h.heap_initialized then h else init_heap h

-- `kmalloc` once it has found a block: split it, mark it and count it.
unfoldable pub claim_block : Heap → ℕ → ℕ → Heap
claim_block h p size =
    let f = split_block h.block p size in
    let g = write f p (record (f p) { free = false }) in
    record h {
      block = g;
      total_allocated = (h.total_allocated + (g p).size) % 2 ^ 64;
      total_free = (h.total_free + (2 ^ 64 - (g p).size)) % 2 ^ 64;
      allocation_count = (h.allocation_count + 1) % 2 ^ 64;
    }

unfoldable pub kmalloc : Heap → ℕ → Run (ℕ × Heap)
kmalloc h size =
    let h1 = started h in
    find_free_block h1.block (align8 size) max_blocks h1.head >>= λ p.
    if p == 0 then panic else ok (p + header_size, claim_block h1 p (align8 size))

-- `kfree` past its checks, up to the coalescing.
unfoldable pub mark_free : Heap → ℕ → Heap
mark_free h p =
    let b = h.block p in
    record h {
      block = write h.block p (record b { free = true });
      total_allocated = (h.total_allocated + (2 ^ 64 - b.size)) % 2 ^ 64;
      total_free = (h.total_free + b.size) % 2 ^ 64;
      allocation_count = (h.allocation_count + (2 ^ 64 - 1)) % 2 ^ 64;
    }

unfoldable pub kfree : Heap → ℕ → Run Heap
kfree h ptr =
    let p = (ptr + (2 ^ 64 - header_size)) % 2 ^ 64 in
    if ptr == 0
    then ok h
    else if ltb p heap_start || leb heap_end p
    then panic
    else if (h.block p).free
    then panic
    else coalesce_free_blocks max_blocks h.head (mark_free h p).block >>= λ f.
        ok (record (mark_free h p) { block = f })

unfoldable pub kmalloc_stats : Heap → ℕ × ℕ × ℕ
kmalloc_stats h = (h.total_allocated, h.total_free, h.allocation_count)
