-- ===== src/Pmm/Free.antt =====
-- `pmm_free_page`: its three panics, and what a successful call gives back.
use simple_os.Prelude.{
  ℕ, ◌+◌, ◌*◌, ◌/◌, ◌%◌, ◌≤◌, ◌<◌, ◌≡◌, ◌≢◌, refl, ◌∙◌, ap, subst₂, ==_iff, ◌⊎◌, inl, inr, ◌==◌,
  ltb, leb, not, ◌||◌, if◌then◌else◌, true, false, length, arith, Bool-cases, ok, panic,
}
use simple_os.Pmm.{Pmm, page_size, pmm_start, add64, release, free_page, alloc_page}
use simple_os.Pmm.View.{
  used, cleared, bitmap_clear-eq, bitmap_test-eq, used-cleared, cleared-HasWords, length-cleared,
}
use simple_os.Pmm.Inv.{IsValid, first_page, clear_keeps, free-le-total}
use simple_os.Pmm.Alloc.{Taken, alloc_page_lem}

-- What `pmm_free_page` demands of its argument.
abbrev pub Freeable : Pmm → ℕ → Type 0
Freeable p addr =
    (addr % page_size ≡ 0)
    × (pmm_start ≤ addr)
    × (addr / page_size < p.total_pages)
    × (used p.bitmap (addr / page_size) ≡ true)

-- `q` differs from `p` in that the page is free.
pub record Released (p : Pmm) (page : ℕ) (q : Pmm) : Type 0 where
  pub clears : (j : ℕ) → used q.bitmap j ≡ (if j == page then false else used p.bitmap j)
  pub count : q.free_pages ≡ p.free_pages + 1
  pub total : q.total_pages ≡ p.total_pages
  pub memory : q.memory ≡ p.memory
  pub valid : IsValid q

module _ {p : Pmm} (v : IsValid p) (page : ℕ) (from_start : first_page ≤ page)
    (managed : page < p.total_pages) (taken : used p.bitmap page ≡ true) where
  inside : page < 32 * length p.bitmap
  inside = omega (arith, v.covered)

  count_up : add64 p.free_pages 1 ≡ p.free_pages + 1
  count_up = omega (arith, free-le-total v, v.covered, v.sized)

  pub release_lem : (q : Pmm) × (release p page ≡ ok q) × Released p page q
  unfolding release cleared
  release_lem = (
    q,
    rw (bitmap_clear-eq p page inside),
    record {
      clears = used-cleared p page inside;
      count = count_up;
      total = refl;
      memory = refl;
      valid =
          clear_keeps v page q (cleared-HasWords p page inside v.words) (length-cleared p page) refl
            taken from_start managed (used-cleared p page inside) count_up;
    },
  )
    where
      q : Pmm
      q = record (cleared p page) { free_pages = add64 p.free_pages 1 }

-- The chain of checks, with the test of the bitmap answered.
free_page_eq :
    {p : Pmm} (addr : ℕ)
    → IsValid p
    → free_page p addr ≡ (
        if not (addr % page_size == 0)
          || ltb addr pmm_start
          || leb p.total_pages (addr / page_size)
          || not (used p.bitmap (addr / page_size))
        then panic
        else release p (addr / page_size))
unfolding free_page
free_page_eq {p} addr v = ground (arith, bitmap_test-eq p (addr / page_size), v.covered)

Freeable-dec : (p : Pmm) (addr : ℕ) → Freeable p addr ⊎ (¬ Freeable p addr)
Freeable-dec p addr = elim (Bool-cases (used p.bitmap (addr / page_size))) [
  | inl taken ↦ elim (Bool-cases (addr % page_size == 0)) [
    | inl aligned ↦ elim (Bool-cases (ltb addr pmm_start)) [
      | inl below ↦ inr (λ h. ground (arith, h.1))
      | inr above ↦ elim (Bool-cases (ltb (addr / page_size) p.total_pages)) [
        | inl managed ↦ inl (ground arith, ground arith, ground arith, taken)
        | inr past ↦ inr (λ h. ground (arith, h.2))
      ]
    ]
    | inr off ↦ inr (λ h. ground (arith, h.0))
  ]
  | inr free ↦ inr (λ h. ground (arith, h.3))
]

-- In a valid state `pmm_free_page` panics exactly on an address that is not page aligned, lies
-- below PMM_START or past the managed pages, or names a page that is free already. On any other
-- address it returns, that page and no other has become free, one page more is counted free, the
-- memory is unchanged, and the state is valid.
pub free_page_lem :
    {p : Pmm} (addr : ℕ)
    → IsValid p
    → (Freeable p addr × (q : Pmm) × (free_page p addr ≡ ok q) × Released p (addr / page_size) q)
      ⊎ (¬ Freeable p addr × (free_page p addr ≡ panic))
free_page_lem {p} addr v = elim (Freeable-dec p addr) [
  | inl h ↦
      let (q, e, r) = release_lem v (addr / page_size) (omega (arith, h.1)) h.2 h.3 in
      inl (h, q, free_page_eq addr v ∙ ground (arith, h.0, h.1, h.2, h.3, e), r)
  | inr h ↦ inr (h, free_page_eq addr v ∙ refused h)
]
  where
    refused :
        ¬ Freeable p addr
        → (if not (addr % page_size == 0)
              || ltb addr pmm_start
              || leb p.total_pages (addr / page_size)
              || not (used p.bitmap (addr / page_size))
            then panic
            else release p (addr / page_size))
          ≡ panic
    refused h = elim (Bool-cases (used p.bitmap (addr / page_size))) [
      | inl taken ↦ ground (
        arith,
        λ (a : addr % page_size ≡ 0) (b : pmm_start ≤ addr) (c : addr / page_size < p.total_pages).
            h (a, b, c, taken),
      )
      | inr free ↦ ground (arith, free)
    ]

-- Freeing a page twice.
free_page_twice :
    {p : Pmm} (addr : ℕ) (q : Pmm)
    → IsValid q
    → Released p (addr / page_size) q
    → free_page q addr ≡ panic
free_page_twice addr q v r = elim (free_page_lem addr v) [
  | inl (h, _, _, _) ↦ ground (arith, h.3, r.clears (addr / page_size))
  | inr (_, e) ↦ e
]

abbrev pub Restored : Pmm → Pmm → ℕ → Type 0
Restored p q addr =
    (r : Pmm) × (free_page q addr ≡ ok r)
    × ((j : ℕ) → used r.bitmap j ≡ used p.bitmap j)
    × (r.free_pages ≡ p.free_pages)
    × (free_page r addr ≡ panic)

free_page-Taken : {p q : Pmm} {page : ℕ} → Taken p page q → Restored p q (page * page_size)
free_page-Taken {p} {q} {page} t = elim (free_page_lem (page * page_size) t.valid) [
  | inl (h, r, e, rel) ↦ (
    r,
    e,
    λ j. ground (arith, rel.clears j, t.marks j, t.was_free, at_page j),
    omega (arith, rel.count, t.count),
    free_page_twice (page * page_size) r rel.valid rel,
  )
  | inr (refused, _) ↦ absurd (
      refused (
        omega arith,
        omega (arith, t.from_start),
        omega (arith, t.managed, t.total),
        ground (arith, t.marks (page * page_size / page_size)),
      ))
]
  where
    at_page : (j : ℕ) → (j == page) ≡ true → used p.bitmap j ≡ false
    at_page j e = ap (used p.bitmap) ((==_iff j page).0 e) ∙ t.was_free

-- In a valid state, freeing what `pmm_alloc_page` has returned, if it is not NULL, succeeds, and
-- restores the set of used pages and the count of free ones; freeing it once more panics.
pub free_page-alloc_page :
    {p : Pmm} (addr : ℕ) (q : Pmm)
    → IsValid p
    → alloc_page p ≡ ok (addr, q)
    → addr ≢ 0
    → (r : Pmm) × (free_page q addr ≡ ok r)
      × ((j : ℕ) → used r.bitmap j ≡ used p.bitmap j)
      × (r.free_pages ≡ p.free_pages)
      × (free_page r addr ≡ panic)
free_page-alloc_page {p} addr q v e ne = elim (alloc_page_lem v) [
  | inl (null, _) ↦ absurd (ne (cc))
  | inr (page, q', e', t, _, _) ↦
      let same_addr : page * page_size ≡ addr = cc in
      let same_state : q' ≡ q = cc in subst₂ (Restored p) same_state same_addr (free_page-Taken t)
]
