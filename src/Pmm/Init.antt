-- ===== src/Pmm/Init.antt =====
-- `pmm_init`: which pages it makes available, and the memory size from which it runs past the
-- bitmap.
use simple_os.Prelude.{
  ℕ, zero, suc, ◌+◌, ◌-◌, ◌*◌, ◌/◌, ◌^◌, ◌≤◌, ◌<◌, ◌≡◌, refl, ◌∙◌, ap, ◌⊎◌, inl, inr, ltb, ltb_iff,
  leb, not, ◌&&◌, if◌then◌else◌, Bool, true, false, List, [], ◌∷◌, length, get_or, arith,
  Bool-cases, ok, fault, ◌>>=◌,
}
use simple_os.Pmm.{
  Pmm, page_size, bitmap_size, all_ones, add64, bitmap_clear, init_free, fill_ones, init,
}
use simple_os.Pmm.View.{
  used, HasWords, cleared, bitmap_clear-eq, used-cleared, cleared-HasWords, length-cleared,
  used_outside,
}
use simple_os.Pmm.Inv.{IsValid, first_page, count_free}

length-fill_ones : (bm : List ℕ) → length (fill_ones bm) ≡ length bm
unfolding fill_ones
length-fill_ones [] = refl
length-fill_ones (w ∷ ws) = ap suc (length-fill_ones ws)

get_or-fill_ones : (bm : List ℕ) (i : ℕ) → get_or (fill_ones bm) i all_ones ≡ all_ones
unfolding fill_ones
get_or-fill_ones [] i = refl
get_or-fill_ones (w ∷ ws) zero = refl
get_or-fill_ones (w ∷ ws) (suc i) = get_or-fill_ones ws i

used-fill_ones : (bm : List ℕ) (j : ℕ) → used (fill_ones bm) j ≡ true
unfolding used
used-fill_ones bm j = rw (get_or-fill_ones bm (j / 32)) (used_outside [] j (omega arith))

-- `q` is `p` with the `n` pages from `page` on free.
record BlockFreed (p : Pmm) (n page : ℕ) (q : Pmm) : Type 0 where
  clears :
      (j : ℕ)
      → used q.bitmap j ≡ (if leb page j && ltb j (page + n) then false else used p.bitmap j)
  words : HasWords q.bitmap
  len : length q.bitmap ≡ length p.bitmap
  total : q.total_pages ≡ p.total_pages
  free : q.free_pages ≡ p.free_pages + n
  memory : q.memory ≡ p.memory

init_free_lem :
    (n page : ℕ) (p : Pmm)
    → HasWords p.bitmap
    → (n ≡ 0) ⊎ (page + n ≤ 32 * length p.bitmap)
    → p.free_pages + n < 2 ^ 64
    → (q : Pmm) × (init_free n page p ≡ ok q) × BlockFreed p n page q
unfolding init_free cleared
init_free_lem zero page p w h t = (
  p,
  refl,
  record {
    clears = λ j. ground arith;
    words = w;
    len = refl;
    total = refl;
    free = omega arith;
    memory = refl;
  },
)
init_free_lem (suc n) page p w h t =
    let (q, e, b) =
      init_free_lem n (page + 1) (record (cleared p page) { free_pages = add64 p.free_pages 1 })
        (cleared-HasWords p page (omega arith) w) (omega (arith, length-cleared p page))
        (omega arith) in
    (
      q,
      rw (bitmap_clear-eq p page (omega arith)) e,
      record {
        clears = λ j. ground (arith, b.clears j, used-cleared p page (omega arith) j);
        words = b.words;
        len = b.len ∙ length-cleared p page;
        total = b.total;
        free = omega (arith, b.free);
        memory = b.memory;
      },
    )

clear_past : (p : Pmm) (page : ℕ) → 32 * length p.bitmap ≤ page → bitmap_clear p page ≡ fault
unfolding bitmap_clear
clear_past p page h = ground arith

-- The loop leaves the bitmap if its range does.
init_free_fault :
    (n page : ℕ) (p : Pmm)
    → page ≤ 32 * length p.bitmap
    → 32 * length p.bitmap < page + n
    → init_free n page p ≡ fault
unfolding init_free
init_free_fault zero page p a b = absurd (omega arith)
init_free_fault (suc n) page p a b = elim (Bool-cases (ltb page (32 * length p.bitmap))) [
  | inl inside ↦ rw (bitmap_clear-eq p page ((ltb_iff page (32 * length p.bitmap)).0 inside)) (
      init_free_fault n (page + 1) _ (ground (arith, length-cleared p page))
        (ground (arith, length-cleared p page)))
  | inr past ↦ rw (clear_past p page (ground arith))
]

count_managed :
    (f : ℕ → Bool) (n : ℕ)
    → ((j : ℕ) → f j ≡ not (leb first_page j && ltb j n))
    → (m : ℕ) → m ≤ n
    → count_free f m ≡ m - first_page
unfolding count_free
count_managed f n h zero a = omega arith
count_managed f n h (suc m) a = ground (arith, h m, count_managed f n h m (omega arith))

abbrev emptied : Pmm → ℕ → Pmm
emptied p memory_size = record p {
  bitmap = fill_ones p.bitmap;
  total_pages = memory_size / page_size;
  free_pages = 0;
}

abbrev last_page : ℕ → ℕ
last_page memory_size =
    if ltb (bitmap_size * 32) (memory_size / page_size)
    then bitmap_size * 32
    else memory_size / page_size

init_eq :
    (p : Pmm) (memory_size : ℕ)
    → init p memory_size ≡ (
        init_free (last_page memory_size - first_page) first_page (emptied p memory_size) >>= λ q.
        ok (record q { reserved_pages = first_page }))
unfolding init
init_eq p memory_size = refl

-- For a memory size that the bitmap covers `pmm_init` returns in a valid state whose free pages
-- are exactly those from PMM_START up to the end of the memory.
pub init_lem :
    (p : Pmm) (memory_size : ℕ)
    → length p.bitmap ≤ bitmap_size / 4
    → memory_size / page_size ≤ 32 * length p.bitmap
    → (q : Pmm) × (init p memory_size ≡ ok q)
      × IsValid q
      × (q.total_pages ≡ memory_size / page_size)
      × (q.free_pages ≡ memory_size / page_size - first_page)
      × ((j : ℕ) → used q.bitmap j ≡ not (leb first_page j && ltb j (memory_size / page_size)))
init_lem p m sized fits =
    let (q, e, b) =
      init_free_lem (last - first_page) first_page start words covered (omega arith) in
    (
      record q { reserved_pages = first_page },
      init_eq p m ∙ rw (no_limit, e),
      record {
        words = b.words;
        covered = omega (arith, b.total, b.len, length-fill_ones p.bitmap);
        sized = omega (arith, b.len, length-fill_ones p.bitmap);
        low = λ j h. ground (arith, freed q b j);
        high = λ j h. ground (arith, freed q b j, b.total);
        counted = omega (
          arith,
          b.free,
          b.total,
          ap (count_free (used q.bitmap)) b.total,
          count_managed (used q.bitmap) last (freed q b) last (omega arith),
        );
      },
      b.total,
      omega (arith, b.free),
      freed q b,
    )
  where
    last : ℕ
    last = m / page_size

    start : Pmm
    start = emptied p m

    no_limit : last_page m ≡ last
    no_limit = ground arith

    words : HasWords start.bitmap
    words i = rw (get_or-fill_ones p.bitmap i) (omega arith)

    covered :
        (last - first_page ≡ 0) ⊎ (first_page + (last - first_page) ≤ 32 * length start.bitmap)
    covered = omega (arith, length-fill_ones p.bitmap)

    freed :
        (q : Pmm)
        → BlockFreed start (last - first_page) first_page q
        → (j : ℕ) → used q.bitmap j ≡ not (leb first_page j && ltb j last)
    freed q b j = ground (arith, b.clears j, used-fill_ones p.bitmap j)

-- With the bitmap of the source, of 32768 words, a memory of more than 4 GB makes `pmm_init` write
-- past the end of the bitmap: its limit on the last page is four times what the bitmap holds.
pub init_overflow :
    (p : Pmm) (memory_size : ℕ)
    → length p.bitmap ≡ bitmap_size / 4
    → 2 ^ 20 < memory_size / page_size
    → init p memory_size ≡ fault
init_overflow p m len big =
    init_eq p m
    ∙ rw (
        init_free_fault (last_page m - first_page) first_page (emptied p m)
          (ground (arith, length-fill_ones p.bitmap)) (ground (arith, length-fill_ones p.bitmap)))
