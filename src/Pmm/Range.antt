-- ===== src/Pmm/Range.antt =====
-- `pmm_free_pages` gives back what `pmm_alloc_pages` has handed out.
use simple_os.Prelude.{
  ℕ, zero, suc, ◌+◌, ◌*◌, ◌/◌, ◌^◌, ◌≤◌, ◌<◌, ◌≡◌, ◌≢◌, refl, ◌∙◌, subst₂, inl, inr, ltb, leb, ◌&&◌,
  if◌then◌else◌, true, false, arith, ok,
}
use simple_os.Pmm.{Pmm, page_size, add64, free_page, free_range, alloc_pages}
use simple_os.Pmm.View.{used}
use simple_os.Pmm.Inv.{IsValid, first_page}
use simple_os.Pmm.Free.{Released, free_page_lem}
use simple_os.Pmm.Block.{BlockTaken, alloc_pages_lem}

-- The call on a page that is managed and in use.
free_page-used :
    {p : Pmm} (page : ℕ)
    → IsValid p
    → first_page ≤ page
    → page < p.total_pages
    → used p.bitmap page ≡ true
    → (q : Pmm) × (free_page p (page * page_size) ≡ ok q) × Released p page q
free_page-used {p} page v a b u = elim (free_page_lem (page * page_size) v) [
  | inl (_, q, e, r) ↦
      (q, e, let same : page * page_size / page_size ≡ page = omega arith in rw same at r)
  | inr (refused, _) ↦ absurd (
      refused (
        omega arith,
        omega arith,
        omega arith,
        let same : page * page_size / page_size ≡ page = omega arith in rw same u,
      ))
]

-- `q` is `p` with the `n` pages from `page` on free.
pub record BlockReleased (p : Pmm) (n page : ℕ) (q : Pmm) : Type 0 where
  pub clears :
      (j : ℕ)
      → used q.bitmap j ≡ (if leb page j && ltb j (page + n) then false else used p.bitmap j)
  pub count : q.free_pages ≡ p.free_pages + n
  pub total : q.total_pages ≡ p.total_pages
  pub memory : q.memory ≡ p.memory
  pub valid : IsValid q

free_range_lem :
    (n page : ℕ) (p : Pmm)
    → IsValid p
    → first_page ≤ page
    → page + n ≤ p.total_pages
    → ((j : ℕ) → page ≤ j → j < page + n → used p.bitmap j ≡ true)
    → (q : Pmm) × (free_range n (page * page_size) p ≡ ok q) × BlockReleased p n page q
unfolding free_range
free_range_lem zero page p v a b u = (
  p,
  refl,
  record {
    clears = λ j. ground arith;
    count = omega arith;
    total = refl;
    memory = refl;
    valid = v;
  },
)
free_range_lem (suc n) page p v a b u =
    let (q, e, r) = free_page-used page v a (omega arith) (u page (omega arith) (omega arith)) in
    let (s, f, rest) =
      free_range_lem n (page + 1) q r.valid (omega arith) (omega (arith, r.total))
        (λ j c d. ground (arith, r.clears j, u j (omega arith) (omega arith))) in
    let next : add64 (page * page_size) page_size ≡ (page + 1) * page_size =
      omega (arith, v.covered, v.sized) in
    (
      s,
      rw (e, next) f,
      record {
        clears = λ j. ground (arith, rest.clears j, r.clears j);
        count = omega (arith, rest.count, r.count);
        total = rest.total ∙ r.total;
        memory = rest.memory ∙ r.memory;
        valid = rest.valid;
      },
    )

abbrev pub RangeRestored : Pmm → Pmm → ℕ → ℕ → Type 0
RangeRestored p q count addr =
    (r : Pmm) × (free_range count addr q ≡ ok r)
    × ((j : ℕ) → used r.bitmap j ≡ used p.bitmap j)
    × (r.free_pages ≡ p.free_pages)
    × IsValid r

-- In a valid state, giving back the block that `pmm_alloc_pages` has returned, with the same count,
-- succeeds in a valid state, with the set of used pages and the count of free ones as they were.
pub free_range-alloc_pages :
    {p : Pmm} (count addr : ℕ) (q : Pmm)
    → IsValid p
    → 0 < count
    → count < 2 ^ 63
    → alloc_pages p count ≡ ok (addr, q)
    → addr ≢ 0
    → RangeRestored p q count addr
free_range-alloc_pages {p} count addr q v pos small e ne =
    elim (alloc_pages_lem count v pos small) [
      | inl (null, _) ↦ absurd (ne (cc))
      | inr (s, q', e', _, found, b) ↦
          let same_addr : s * page_size ≡ addr = cc in
          let same_state : q' ≡ q = cc in
          let (r, f, rel) =
            free_range_lem count s q' b.valid found.0 (omega (arith, found.1, b.total))
              (λ j c d. ground (arith, b.marks j)) in
          subst₂ (λ x y. RangeRestored p x count y) same_state same_addr
            (
              r,
              f,
              λ j. restored s q' r found.2 b rel j,
              omega (arith, rel.count, b.count_down),
              rel.valid,
            )
    ]
  where
    restored :
        (s : ℕ) (q' r : Pmm)
        → ((j : ℕ) → s ≤ j → j < s + count → used p.bitmap j ≡ false)
        → BlockTaken p count s q'
        → BlockReleased q' count s r
        → (j : ℕ) → used r.bitmap j ≡ used p.bitmap j
    restored s q' r free b rel j = ground (arith, rel.clears j, b.marks j, free j)
