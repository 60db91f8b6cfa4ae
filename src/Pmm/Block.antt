-- ===== src/Pmm/Block.antt =====
-- `pmm_alloc_pages`: the first block of free pages that is long enough, or NULL.
use simple_os.Prelude.{
  ℕ, zero, suc, ◌+◌, ◌*◌, ◌/◌, ◌%◌, ◌^◌, ◌≤◌, ◌<◌, ◌≡◌, ◌≢◌, refl, ◌∙◌, ap, ◌⊎◌, inl, inr, ◌==◌,
  ltb, leb, ==_iff, ◌&&◌, if◌then◌else◌, Bool, true, false, Option, none, some, length, arith,
  Bool-cases, ok,
}
use simple_os.Pmm.{
  Pmm, page_size, add64, sub64, clear_words, all_free, set_range, find_block, take_block,
  alloc_pages,
}
use simple_os.Pmm.View.{
  used, HasWords, marked, bitmap_set-eq, bitmap_test-eq, used-marked, marked-HasWords,
  length-marked,
}
use simple_os.Pmm.Inv.{IsValid, first_page, free-le-total, count_free, count_free_mark}
use simple_os.Pmm.Memory.{Cleared, clear_words-Cleared}

-- The `n` pages from `page` on are free.
abbrev pub IsFree : Pmm → ℕ → ℕ → Type 0
IsFree p n page = (j : ℕ) → page ≤ j → j < page + n → used p.bitmap j ≡ false

-- Inside the bitmap `all_free` answers, and rightly.
all_free_lem :
    (p : Pmm) (n page : ℕ)
    → page + n ≤ 32 * length p.bitmap
    → ((all_free p n page ≡ ok true) × IsFree p n page)
      ⊎ ((all_free p n page ≡ ok false) × ¬ IsFree p n page)
unfolding all_free
all_free_lem p zero page h = inl (refl, λ j a b. absurd (omega arith))
all_free_lem p (suc n) page h = elim (Bool-cases (used p.bitmap page)) [
  | inl taken ↦ inr (
    rw (bitmap_test-eq p page (omega arith), taken),
    λ free. ground (arith, taken, free page (omega arith) (omega arith)),
  )
  | inr free ↦ elim (all_free_lem p n (page + 1) (omega arith)) [
    | inl (e, rest) ↦ inl (
      rw (bitmap_test-eq p page (omega arith), free) e,
      λ j a b. elim (Bool-cases (j == page)) [
        | inl here ↦ ap (used p.bitmap) ((==_iff j page).0 here) ∙ free
        | inr past ↦ rest j (ground arith) (omega arith)
      ],
    )
    | inr (e, rest) ↦ inr (
      rw (bitmap_test-eq p page (omega arith), free) e,
      λ all. rest (λ j a b. all j (omega arith) (omega arith)),
    )
  ]
]

-- What the search finds from page `start` on: the first free block, or nothing.
abbrev pub FindsBlock : Pmm → ℕ → ℕ → Option ℕ → Type 0
FindsBlock p count start none = (s : ℕ) → start ≤ s → s + count ≤ p.total_pages → ¬ IsFree p count s
FindsBlock p count start (some s) =
    (start ≤ s)
    × (s + count ≤ p.total_pages)
    × IsFree p count s
    × ((t : ℕ) → start ≤ t → t < s → ¬ IsFree p count t)

FindsBlock-next :
    (p : Pmm) (count start : ℕ) (r : Option ℕ)
    → ¬ IsFree p count start
    → FindsBlock p count (start + 1) r
    → FindsBlock p count start r
FindsBlock-next p count start none h f = λ s a b. elim (Bool-cases (s == start)) [
  | inl e ↦ rw ((==_iff s start).0 e) h
  | inr e ↦ f s (ground arith) b
]
FindsBlock-next p count start (some s) h f = (
  omega arith,
  f.1,
  f.2,
  λ t a b. elim (Bool-cases (t == start)) [
    | inl e ↦ rw ((==_iff t start).0 e) h
    | inr e ↦ f.3 t (ground arith) b
  ],
)

module _ {p : Pmm} (v : IsValid p) (count : ℕ) (pos : 0 < count) (small : count < 2 ^ 63) where
  -- With fuel to reach the end of the managed pages, the search answers, and rightly.
  find_block_lem :
      (fuel start : ℕ)
      → start ≤ p.total_pages + 1024
      → p.total_pages < start + fuel
      → 0 < fuel
      → (r : Option ℕ) × (find_block p count fuel start ≡ ok r) × FindsBlock p count start r
  unfolding find_block
  find_block_lem zero start a b c = absurd (omega arith)
  find_block_lem (suc fuel) start a b c =
      elim (Bool-cases (leb (add64 start count) p.total_pages)) [
        | inl more ↦
            let fits : start + count ≤ p.total_pages = ground (arith, v.covered, v.sized) in
            elim (all_free_lem p count start (omega (arith, v.covered))) [
              | inl (e, free) ↦ (
                some start,
                rw (more, e),
                (omega arith, fits, free, λ t c d. absurd (omega arith)),
              )
              | inr (e, blocked) ↦
                  let (r, q, f) =
                    find_block_lem fuel (start + 1) (omega arith) (omega arith) (omega arith) in
                  (r, rw (more, e) q, FindsBlock-next p count start r blocked f)
            ]
        | inr stop ↦ (none, rw stop, λ s c d. absurd (ground (arith, v.covered, v.sized)))
      ]

abbrev in_block : ℕ → ℕ → ℕ → Bool
in_block n page j = leb page j && ltb j (page + n)

-- `q` is `p` with the `n` pages from `page` on used.
record BlockMarked (p : Pmm) (n page : ℕ) (q : Pmm) : Type 0 where
  marks : (j : ℕ) → used q.bitmap j ≡ (if in_block n page j then true else used p.bitmap j)
  words : HasWords q.bitmap
  len : length q.bitmap ≡ length p.bitmap
  total : q.total_pages ≡ p.total_pages
  free : q.free_pages ≡ p.free_pages
  memory : q.memory ≡ p.memory
  counts : count_free (used q.bitmap) p.total_pages + n ≡ count_free (used p.bitmap) p.total_pages

BlockMarked-next :
    (p : Pmm) (n page : ℕ) (q : Pmm)
    → page < 32 * length p.bitmap
    → page < p.total_pages
    → used p.bitmap page ≡ false
    → BlockMarked (marked p page) n (page + 1) q
    → BlockMarked p (suc n) page q
unfolding marked
BlockMarked-next p n page q h t free b = record {
  marks = λ j. ground (arith, b.marks j, used-marked p page h j);
  words = b.words;
  len = b.len ∙ length-marked p page;
  total = b.total;
  free = b.free;
  memory = b.memory;
  counts = omega (
    arith,
    b.counts,
    count_free_mark (used p.bitmap) (used (marked p page).bitmap) page p.total_pages t free
        (used-marked p page h),
  );
}

set_range_lem :
    (n page : ℕ) (p : Pmm)
    → HasWords p.bitmap
    → page + n ≤ 32 * length p.bitmap
    → page + n ≤ p.total_pages
    → IsFree p n page
    → (q : Pmm) × (set_range n page p ≡ ok q) × BlockMarked p n page q
unfolding set_range marked
set_range_lem zero page p w h t free = (
  p,
  refl,
  record {
    marks = λ j. ground arith;
    words = w;
    len = refl;
    total = refl;
    free = refl;
    memory = refl;
    counts = omega arith;
  },
)
set_range_lem (suc n) page p w h t free =
    let (q, e, b) =
      set_range_lem n (page + 1) (marked p page) (marked-HasWords p page (omega arith) w)
        (omega (arith, length-marked p page)) (omega arith) later in
    (
      q,
      rw (bitmap_set-eq p page (omega arith)) e,
      BlockMarked-next p n page q (omega arith) (omega arith)
          (free page (omega arith) (omega arith)) b,
    )
  where
    later : IsFree (marked p page) n (page + 1)
    later j a b =
        ground (arith, used-marked p page (omega arith) j, free j (omega arith) (omega arith))

-- `q` is `p` after the block of `count` pages from `s` on has been handed out.
pub record BlockTaken (p : Pmm) (count s : ℕ) (q : Pmm) : Type 0 where
  pub marks :
      (j : ℕ) → used q.bitmap j ≡ (if leb s j && ltb j (s + count) then true else used p.bitmap j)
  pub count_down : q.free_pages + count ≡ p.free_pages
  pub total : q.total_pages ≡ p.total_pages
  pub memory : Cleared (512 * count) (s * page_size) p.memory q.memory
  pub valid : IsValid q

module _ {p : Pmm} (v : IsValid p) (count s : ℕ) (from_start : first_page ≤ s)
    (fits : s + count ≤ p.total_pages) (free : IsFree p count s) where
  taken : Pmm → Pmm
  taken q = record q {
    free_pages = sub64 q.free_pages count;
    memory = clear_words (count * page_size % 2 ^ 64 / 8) (s * page_size) q.memory;
  }

  count_taken :
      {q : Pmm} → BlockMarked p count s q → sub64 q.free_pages count + count ≡ p.free_pages
  count_taken b = omega (arith, v.counted, b.counts, b.free, free-le-total v, v.covered, v.sized)

  taken-BlockTaken : {q : Pmm} → BlockMarked p count s q → BlockTaken p count s (taken q)
  unfolding taken
  taken-BlockTaken {q} b = record {
    marks = b.marks;
    count_down = count_taken b;
    total = b.total;
    memory =
        let words : count * page_size % 2 ^ 64 / 8 ≡ 512 * count =
          omega (arith, v.covered, v.sized) in
        rw (words, b.memory) (clear_words-Cleared (512 * count) (s * page_size) p.memory);
    valid = record {
      words = b.words;
      covered = omega (arith, b.total, b.len, v.covered);
      sized = omega (arith, b.len, v.sized);
      low = λ j h. ground (arith, b.marks j, v.low j h);
      high = λ j h. ground (arith, b.marks j, v.high j (omega (arith, b.total)));
      counted =
          omega
            (arith, count_taken b, v.counted, b.counts, ap (count_free (used q.bitmap)) b.total);
    };
  }

  take_block_lem :
      (q : Pmm) × (take_block p count s ≡ ok (s * page_size, q)) × BlockTaken p count s q
  unfolding take_block taken
  take_block_lem =
      let (q, e, b) = set_range_lem count s p v.words (omega (arith, v.covered)) fits free in
      (taken q, rw e, taken-BlockTaken b)

-- In a valid state and for 0 < count < 2^63 `pmm_alloc_pages` returns. Either no block of `count`
-- managed pages is free, the result is NULL and the state unchanged, or the result is the address,
-- not NULL, of the first such block, and after the call the pages of the block and no others have
-- become used, its memory is zero, other memory is unchanged, `count` pages fewer are counted
-- free, and the state is valid.
pub alloc_pages_lem :
    {p : Pmm} (count : ℕ)
    → IsValid p
    → 0 < count
    → count < 2 ^ 63
    → ((alloc_pages p count ≡ ok (0, p))
        × ((s : ℕ) → first_page ≤ s → s + count ≤ p.total_pages → ¬ IsFree p count s))
      ⊎ ((s : ℕ) × (q : Pmm) × (alloc_pages p count ≡ ok (s * page_size, q))
          × (s * page_size ≢ 0)
          × FindsBlock p count first_page (some s)
          × BlockTaken p count s q)
unfolding alloc_pages
alloc_pages_lem {p} count v pos small = finish (
    find_block_lem v count pos small (p.total_pages + 2) first_page (omega arith) (omega arith)
      (omega arith))
  where
    nonzero : (count == 0) ≡ false
    nonzero = ground arith

    finish :
        (r : Option ℕ) × (find_block p count (p.total_pages + 2) first_page ≡ ok r)
          × FindsBlock p count first_page r
        → ((alloc_pages p count ≡ ok (0, p))
            × ((s : ℕ) → first_page ≤ s → s + count ≤ p.total_pages → ¬ IsFree p count s))
          ⊎ ((s : ℕ) × (q : Pmm) × (alloc_pages p count ≡ ok (s * page_size, q))
              × (s * page_size ≢ 0)
              × FindsBlock p count first_page (some s)
              × BlockTaken p count s q)
    finish (none, e, f) = inl (rw (nonzero, e), f)
    finish (some s, e, f) =
        let (q, t, b) = take_block_lem v count s f.0 f.1 f.2 in
        inr (s, q, rw (nonzero, e) t, omega (arith, f.0), f, b)
