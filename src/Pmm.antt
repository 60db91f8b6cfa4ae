-- ===== src/Pmm.antt =====
-- src/mm/pmm.c: the physical page allocator over a bitmap of 32 bit words.
pub mod View
pub mod Find
pub mod Inv
pub mod Memory
pub mod Alloc
pub mod Free
pub mod Block
pub mod Init
pub mod Range
pub mod Ready
mod Tests
use simple_os.Prelude.{
  ℕ, zero, suc, ◌+◌, ◌-◌, ◌*◌, ◌/◌, ◌%◌, ◌^◌, bit_and, bit_or, ◌==◌, ltb, leb, if◌then◌else◌, not,
  ◌||◌, Bool, true, false, Option, none, some, List, [], ◌∷◌, length, get_or, set, Run, ok, panic,
  fault, ◌>>=◌, has_bit, not_bit32,
}

abbrev pub page_size : ℕ
page_size = 4096

-- Memory is managed from 4 MB on.
abbrev pub pmm_start : ℕ
pmm_start = 0x400000

abbrev pub bitmap_size : ℕ
bitmap_size = 128 * 1024

abbrev pub all_ones : ℕ
all_ones = 0xFFFFFFFF

-- `size_t` arithmetic wraps.
abbrev pub add64 : ℕ → ℕ → ℕ
add64 a b = (a + b) % 2 ^ 64

abbrev pub sub64 : ℕ → ℕ → ℕ
sub64 a b = (a + 2 ^ 64 - b) % 2 ^ 64

-- The static variables of the file, and the physical memory as 64 bit words by address.
pub record Pmm : Type 0 where
  pub bitmap : List ℕ
  pub total_pages : ℕ
  pub free_pages : ℕ
  pub reserved_pages : ℕ
  pub memory : ℕ → ℕ

-- The inner loop of `bitmap_find_free`, with `n` rounds left.
pub find_bit : ℕ → ℕ → ℕ → Option ℕ
find_bit word zero i = none
find_bit word (suc n) i = if has_bit word i then find_bit word n (i + 1) else some i

-- The first page that is free; `none` is the -1 of the source. The list is `pmm_bitmap` from word
-- `i` on.
pub bitmap_find_free : List ℕ → ℕ → Option ℕ
unfolding find_bit
bitmap_find_free [] i = none
bitmap_find_free (w ∷ ws) i =
    let rest = bitmap_find_free ws (i + 1) in
    if w == all_ones
    then rest
    else elim (find_bit w 32 0) [ some b ↦ some (i * 32 + b) | none ↦ rest ]

pub bitmap_set : Pmm → ℕ → Run Pmm
bitmap_set p page =
    let i = page / 32 in
    let word = bit_or (get_or p.bitmap i all_ones) (2 ^ (page % 32)) in
    if ltb i (length p.bitmap) then ok (record p { bitmap = set p.bitmap i word }) else fault

pub bitmap_clear : Pmm → ℕ → Run Pmm
bitmap_clear p page =
    let i = page / 32 in
    let word = bit_and (get_or p.bitmap i all_ones) (not_bit32 (page % 32)) in
    if ltb i (length p.bitmap) then ok (record p { bitmap = set p.bitmap i word }) else fault

pub bitmap_test : Pmm → ℕ → Run Bool
bitmap_test p page =
    let i = page / 32 in
    if ltb i (length p.bitmap) then ok (has_bit (get_or p.bitmap i all_ones) (page % 32)) else fault

abbrev pub store : (ℕ → ℕ) → ℕ → ℕ → ℕ → ℕ
store m a v b = if a == b then v else m b

-- `for (i = 0; i < n; i++) ptr[i] = 0` over 64 bit words from address `a` on.
pub clear_words : ℕ → ℕ → (ℕ → ℕ) → ℕ → ℕ
clear_words zero a m = m
clear_words (suc n) a m = clear_words n (a + 8) (store m a 0)

-- The loop of `pmm_init` over the pages to free, with `n` pages left.
pub init_free : ℕ → ℕ → Pmm → Run Pmm
init_free zero page p = ok p
init_free (suc n) page p = do
  q ← bitmap_clear p page
  init_free n (page + 1) (record q { free_pages = add64 q.free_pages 1 })

-- The first loop of `pmm_init`.
pub fill_ones : List ℕ → List ℕ
fill_ones [] = []
fill_ones (w ∷ ws) = all_ones ∷ fill_ones ws

pub init : Pmm → ℕ → Run Pmm
init p memory_size = do
  let total = memory_size / page_size
  let first = pmm_start / page_size
  let last = if ltb (bitmap_size * 32) total then bitmap_size * 32 else total
  q ←
      init_free (last - first) first
        (record p { bitmap = fill_ones p.bitmap; total_pages = total; free_pages = 0 })
  ok (record q { reserved_pages = first })

-- `pmm_alloc_page` once it has found a page: mark it, and clear its memory.
pub take_page : Pmm → ℕ → Run (ℕ × Pmm)
take_page p page = do
  q ← bitmap_set p page
  ok (
    page * page_size,
    record q {
      free_pages = sub64 q.free_pages 1;
      memory = clear_words (page_size / 8) (page * page_size) q.memory;
    },
  )

-- The address returned is 0 for NULL.
pub alloc_page : Pmm → Run (ℕ × Pmm)
alloc_page p = elim (bitmap_find_free p.bitmap 0) [
  | none ↦ ok (0, p)
  | some page ↦ take_page p page
]

-- The end of `pmm_free_page`, past its checks.
pub release : Pmm → ℕ → Run Pmm
release p page = do q ← bitmap_clear p page; ok (record q { free_pages = add64 q.free_pages 1 })

pub free_page : Pmm → ℕ → Run Pmm
free_page p addr =
    if not (addr % page_size == 0) || ltb addr pmm_start
    then panic
    else if leb p.total_pages (addr / page_size)
    then panic
    else do
      used ← bitmap_test p (addr / page_size)
      if used then release p (addr / page_size) else panic

-- Are the `n` pages from `page` on free? The loop stops at the first that is not.
pub all_free : Pmm → ℕ → ℕ → Run Bool
all_free p zero page = ok true
all_free p (suc n) page = do
  used ← bitmap_test p page
  let rest = all_free p n (page + 1)
  if used then ok false else rest

pub set_range : ℕ → ℕ → Pmm → Run Pmm
set_range zero page p = ok p
set_range (suc n) page p = do q ← bitmap_set p page; set_range n (page + 1) q

-- The search of `pmm_alloc_pages` from page `start` on; `none` when no block is found. The fuel is
-- a bound on the rounds.
pub find_block : Pmm → ℕ → ℕ → ℕ → Run (Option ℕ)
find_block p count zero start = fault
find_block p count (suc fuel) start =
    let rest = find_block p count fuel (start + 1) in
    if leb (add64 start count) p.total_pages
    then (do found ← all_free p count start; if found then ok (some start) else rest)
    else ok none

-- Taking the block found.
pub take_block : Pmm → ℕ → ℕ → Run (ℕ × Pmm)
take_block p count start = do
  q ← set_range count start p
  ok (
    start * page_size,
    record q {
      free_pages = sub64 q.free_pages count;
      memory = clear_words (count * page_size % 2 ^ 64 / 8) (start * page_size) q.memory;
    },
  )

-- A round of the search that does not end it raises `start`, and `start + count` wraps only where
-- `count` is within `start` of 2^64, so `total_pages + 2` rounds are enough.
pub alloc_pages : Pmm → ℕ → Run (ℕ × Pmm)
alloc_pages p count = if count == 0 then ok (0, p) else do
  found ← find_block p count (p.total_pages + 2) (pmm_start / page_size)
  elim found [ none ↦ ok (0, p) | some start ↦ take_block p count start ]

-- `pmm_free_pages`, the function: page by page, with `n` pages left.
pub free_range : ℕ → ℕ → Pmm → Run Pmm
free_range zero addr p = ok p
free_range (suc n) addr p = do q ← free_page p addr; free_range n (add64 addr page_size) q

pub get_stats : Pmm → ℕ × ℕ × ℕ
get_stats p = (p.total_pages, p.free_pages, sub64 p.total_pages p.free_pages)
