-- ===== src/Pmm/Tests.antt =====
-- Runs of pmm.c on a bitmap of 33 words, whose last covers pages 1024 to 1055, and the theorems at
-- this state.
use simple_os.Prelude.{
  ℕ, ◌+◌, ◌*◌, ◌^◌, ◌≤◌, ◌<◌, ◌≡◌, ◌≢◌, refl, ◌⊎◌, true, [], ◌∷◌, replicate, length-replicate,
  arith, ok, panic, fault, some, leb, ltb, ◌&&◌, not, ◌++◌, has_bit,
}
use simple_os.Pmm.{
  Pmm, init, alloc_page, take_page, free_page, alloc_pages, take_block, clear_words, bitmap_set,
  bitmap_test, bitmap_find_free, all_free, set_range, find_block, get_stats,
}
use simple_os.Pmm.Alloc.{Taken, alloc_page_lem}
use simple_os.Pmm.Free.{Freeable, Released, Restored, free_page_lem, free_page-alloc_page}
use simple_os.Pmm.Block.{IsFree, FindsBlock, BlockTaken, alloc_pages_lem}
use simple_os.Pmm.Range.{RangeRestored, free_range-alloc_pages}
use simple_os.Pmm.Ready.{blank, ready, ready-IsValid}
use simple_os.Pmm.View.{used}
use simple_os.Pmm.Inv.{IsValid, first_page}
use simple_os.Pmm.Init.{init_lem, init_overflow}

init_lem_example :
    (q : Pmm) × (init blank 0x404000 ≡ ok q)
    × IsValid q
    × (q.total_pages ≡ 1028)
    × (q.free_pages ≡ 4)
    × ((j : ℕ) → used q.bitmap j ≡ not (leb first_page j && ltb j 1028))
init_lem_example = init_lem blank 0x404000 (omega arith) (omega arith)

init_overflow_example : init (record blank { bitmap = replicate 32768 0 }) (2 ^ 33) ≡ fault
init_overflow_example =
    init_overflow (record blank { bitmap = replicate 32768 0 }) (2 ^ 33)
      (length-replicate {A = ℕ} 32768 0) (omega arith)

abbrev first_taken : Pmm
first_taken = record ready {
  bitmap = replicate 32 0xFFFFFFFF ++ (0xFFFFFFF1 ∷ []);
  free_pages = 3;
  memory = clear_words 512 0x400000 ready.memory;
}

alloc-ready : alloc_page ready ≡ ok (0x400000, first_taken)
unfolding alloc_page take_page bitmap_find_free bitmap_set has_bit
alloc-ready = refl

free_rejects : (free_page ready 0x400001 ≡ panic) × (free_page ready 0x404000 ≡ panic)
unfolding free_page bitmap_test has_bit
free_rejects = (refl, refl)

get_stats-ready : get_stats ready ≡ (1028, 4, 1024)
unfolding get_stats
get_stats-ready = refl

alloc_page_lem_example :
    ((alloc_page ready ≡ ok (0, ready)) × ((j : ℕ) → used ready.bitmap j ≡ true))
    ⊎ ((page : ℕ) × (q : Pmm) × (alloc_page ready ≡ ok (page * 4096, q))
        × Taken ready page q
        × (page * 4096 ≢ 0)
        × ((j : ℕ) → j < page → used ready.bitmap j ≡ true))
alloc_page_lem_example = alloc_page_lem ready-IsValid

free_page_lem_example :
    (Freeable ready 0x404000
      × (q : Pmm) × (free_page ready 0x404000 ≡ ok q)
      × Released ready 1028 q)
    ⊎ (¬ Freeable ready 0x404000 × (free_page ready 0x404000 ≡ panic))
free_page_lem_example = free_page_lem 0x404000 ready-IsValid

free_page-alloc_page_example : Restored ready first_taken 0x400000
free_page-alloc_page_example =
    free_page-alloc_page 0x400000 first_taken ready-IsValid alloc-ready (omega arith)

alloc_pages_lem_example :
    ((alloc_pages ready 3 ≡ ok (0, ready))
      × ((s : ℕ) → first_page ≤ s → s + 3 ≤ 1028 → ¬ IsFree ready 3 s))
    ⊎ ((s : ℕ) × (q : Pmm) × (alloc_pages ready 3 ≡ ok (s * 4096, q))
        × (s * 4096 ≢ 0)
        × FindsBlock ready 3 first_page (some s)
        × BlockTaken ready 3 s q)
alloc_pages_lem_example = alloc_pages_lem 3 ready-IsValid (omega arith) (omega arith)

abbrev three_taken : Pmm
three_taken = record ready {
  bitmap = replicate 32 0xFFFFFFFF ++ (0xFFFFFFF7 ∷ []);
  free_pages = 1;
  memory = clear_words 1536 0x400000 ready.memory;
}

alloc-three : alloc_pages ready 3 ≡ ok (0x400000, three_taken)
unfolding alloc_pages take_block find_block all_free set_range bitmap_set bitmap_test has_bit
alloc-three = refl

free_range-alloc_pages_example : RangeRestored ready three_taken 3 0x400000
free_range-alloc_pages_example =
    free_range-alloc_pages 3 0x400000 three_taken ready-IsValid (omega arith) (omega arith)
      alloc-three (omega arith)
