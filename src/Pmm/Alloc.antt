-- ===== src/Pmm/Alloc.antt =====
-- `pmm_alloc_page`: the lowest free page, cleared, or NULL.
use simple_os.Prelude.{
  ℕ, ◌+◌, ◌*◌, ◌/◌, ◌≤◌, ◌<◌, ◌≡◌, refl, subst, ◌⊎◌, ◌≢◌, inl, inr, ◌==◌, if◌then◌else◌, true,
  false, Option, none, some, length, arith, Option-cases, ltb, ltb_iff, Bool-cases, ok,
}
use simple_os.Pmm.{Pmm, page_size, sub64, bitmap_find_free, clear_words, take_page, alloc_page}
use simple_os.Pmm.View.{
  used, marked, bitmap_set-eq, used-marked, marked-HasWords, length-marked, used_outside,
}
use simple_os.Pmm.Find.{First, bitmap_find_free-First}
use simple_os.Pmm.Inv.{
  IsValid, first_page, free_in_range, mark_keeps, count_free_pos, free-le-total,
}
use simple_os.Pmm.Memory.{Cleared, clear_words-Cleared}

-- The page was free and managed; `q` differs from `p` in that the page is used, its memory zero.
pub record Taken (p : Pmm) (page : ℕ) (q : Pmm) : Type 0 where
  pub was_free : used p.bitmap page ≡ false
  pub from_start : first_page ≤ page
  pub managed : page < p.total_pages
  pub marks : (j : ℕ) → used q.bitmap j ≡ (if j == page then true else used p.bitmap j)
  pub count : q.free_pages + 1 ≡ p.free_pages
  pub total : q.total_pages ≡ p.total_pages
  pub memory : Cleared 512 (page * page_size) p.memory q.memory
  pub valid : IsValid q

module _ {p : Pmm} (v : IsValid p) (page : ℕ) (free : used p.bitmap page ≡ false) where
  inside : page < 32 * length p.bitmap
  inside = (free_in_range v page free).2

  taken : Pmm
  taken = record (marked p page) {
    free_pages = sub64 p.free_pages 1;
    memory = clear_words (page_size / 8) (page * page_size) p.memory;
  }

  take_page-eq : take_page p page ≡ ok (page * page_size, taken)
  unfolding take_page taken marked
  take_page-eq = rw (bitmap_set-eq p page inside)

  count_down : sub64 p.free_pages 1 + 1 ≡ p.free_pages
  count_down = omega (
    arith,
    v.counted,
    v.covered,
    v.sized,
    free-le-total v,
    count_free_pos (used p.bitmap) page p.total_pages (free_in_range v page free).1 free,
  )

  taken-Taken : Taken p page taken
  unfolding taken marked
  taken-Taken = record {
    was_free = free;
    from_start = (free_in_range v page free).0;
    managed = (free_in_range v page free).1;
    marks = used-marked p page inside;
    count = count_down;
    total = refl;
    memory = clear_words-Cleared 512 (page * page_size) p.memory;
    valid =
        mark_keeps v page taken (marked-HasWords p page inside v.words) (length-marked p page) refl
          free (used-marked p page inside) count_down;
  }

  -- A free page is taken.
  pub take_page_lem : (q : Pmm) × (take_page p page ≡ ok (page * page_size, q)) × Taken p page q
  take_page_lem = (taken, take_page-eq, taken-Taken)

-- In a valid state `pmm_alloc_page` returns, without a fault. Either no page is free, the result is
-- NULL and the state unchanged, or the result is the address of the lowest free page, which is a
-- managed one and not NULL, and after the call that page and no other has become used, its 512
-- words are zero, other memory is unchanged, one page fewer is counted free, and the state is valid.
pub alloc_page_lem :
    {p : Pmm}
    → IsValid p
    → ((alloc_page p ≡ ok (0, p)) × ((j : ℕ) → used p.bitmap j ≡ true))
      ⊎ ((page : ℕ) × (q : Pmm) × (alloc_page p ≡ ok (page * page_size, q))
          × Taken p page q
          × (page * page_size ≢ 0)
          × ((j : ℕ) → j < page → used p.bitmap j ≡ true))
unfolding alloc_page
alloc_page_lem {p} v = elim (Option-cases (bitmap_find_free p.bitmap 0)) [
  | inl miss ↦ inl (rw (miss, alloc_page), all_used (subst search miss searched))
  | inr (page, hit) ↦
      let found : search (some page) = subst search hit searched in
      let (q, e, t) = take_page_lem v page found.2 in
      inr (
        page,
        q,
        rw (hit, alloc_page) e,
        t,
        omega (arith, t.from_start),
        λ j. found.3 j (omega arith),
      )
]
  where
    search : Option ℕ → Type 0
    search = First (used p.bitmap) 0 (32 * length p.bitmap)

    searched : search (bitmap_find_free p.bitmap 0)
    searched = bitmap_find_free-First p.bitmap v.words

    all_used : search none → (j : ℕ) → used p.bitmap j ≡ true
    all_used h j = elim (Bool-cases (ltb j (32 * length p.bitmap))) [
      | inl e ↦ h j (omega arith) ((ltb_iff j (32 * length p.bitmap)).0 e)
      | inr e ↦ used_outside p.bitmap j (ground arith)
    ]
