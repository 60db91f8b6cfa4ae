-- ===== src/Pmm/Inv.antt =====
-- The representation invariant of the page allocator: the bitmap covers the managed pages, nothing
-- outside them is free, and `pmm_free_pages` counts the free pages.
use simple_os.Prelude.{
  ℕ, zero, suc, ◌+◌, ◌*◌, ◌/◌, ◌≤◌, ◌<◌, ◌≡◌, refl, ◌∙◌, ap, sym, ◌==◌, ==_iff, if◌then◌else◌, Bool,
  true, false, length, arith, Bool-cases, inl, inr, ltb, ltb_iff,
}
use simple_os.Pmm.{Pmm, bitmap_size}
use simple_os.Pmm.View.{used, HasWords}

-- How many of the numbers below `n` are not marked by `f`.
unfoldable pub count_free : (ℕ → Bool) → ℕ → ℕ
count_free f zero = 0
count_free f (suc n) = (if f n then 0 else 1) + count_free f n

pub count_free_same :
    (f g : ℕ → Bool) (n : ℕ) → ((j : ℕ) → j < n → f j ≡ g j) → count_free f n ≡ count_free g n
unfolding count_free
count_free_same f g zero h = refl
count_free_same f g (suc n) h =
    ground (arith, h n (omega arith), count_free_same f g n (λ j p. h j (omega arith)))

-- Marking one number takes one off the count.
pub count_free_mark :
    (f g : ℕ → Bool) (k n : ℕ)
    → k < n
    → f k ≡ false
    → ((j : ℕ) → g j ≡ (if j == k then true else f j))
    → count_free f n ≡ suc (count_free g n)
unfolding count_free
count_free_mark f g k zero h e s = elim h [ ]
count_free_mark f g k (suc n) h e s = elim (Bool-cases (n == k)) [
  | inl q ↦
      let n_is_k : n ≡ k = (==_iff n k).0 q in
      let rest = count_free_same f g n (λ j p. sym (s j ∙ ground arith)) in
      ground (arith, s n, ap f n_is_k, rest)
  | inr q ↦ ground (arith, s n, count_free_mark f g k n (ground arith) e s)
]

pub count_free-le : (f : ℕ → Bool) (n : ℕ) → count_free f n ≤ n
unfolding count_free
count_free-le f zero = omega arith
count_free-le f (suc n) = ground (arith, count_free-le f n)

pub count_free_pos : (f : ℕ → Bool) (k n : ℕ) → k < n → f k ≡ false → 0 < count_free f n
unfolding count_free
count_free_pos f k zero h e = elim h [ ]
count_free_pos f k (suc n) h e = elim (Bool-cases (n == k)) [
  | inl q ↦ ground (arith, ap f ((==_iff n k).0 q))
  | inr q ↦ ground (arith, count_free_pos f k n (ground arith) e)
]

pub count_free_none : (f : ℕ → Bool) (n : ℕ) → ((j : ℕ) → f j ≡ true) → count_free f n ≡ 0
unfolding count_free
count_free_none f zero h = refl
count_free_none f (suc n) h = ground (arith, h n, count_free_none f n h)

-- The first page that the allocator manages, PMM_START / PAGE_SIZE.
abbrev pub first_page : ℕ
first_page = 1024

pub record IsValid (p : Pmm) : Type 0 where
  pub words : HasWords p.bitmap
  pub covered : p.total_pages ≤ 32 * length p.bitmap
  pub sized : length p.bitmap ≤ bitmap_size / 4
  pub low : (j : ℕ) → j < first_page → used p.bitmap j ≡ true
  pub high : (j : ℕ) → p.total_pages ≤ j → used p.bitmap j ≡ true
  pub counted : p.free_pages ≡ count_free (used p.bitmap) p.total_pages

-- A free page is a managed one.
pub free_in_range :
    {p : Pmm}
    → IsValid p
    → (j : ℕ) → used p.bitmap j ≡ false
    → (first_page ≤ j) × (j < p.total_pages) × (j < 32 * length p.bitmap)
free_in_range {p} v j e = elim (Bool-cases (ltb j first_page)) [
  | inl a ↦ ground (arith, v.low j ((ltb_iff j first_page).0 a))
  | inr a ↦ elim (Bool-cases (ltb j p.total_pages)) [
    | inl b ↦ ground (arith, v.covered)
    | inr b ↦ ground (arith, v.high j (ground arith))
  ]
]

pub free-le-total : {p : Pmm} → IsValid p → p.free_pages ≤ p.total_pages
free-le-total {p} v = omega (arith, v.counted, count_free-le (used p.bitmap) p.total_pages)

-- The invariant after one page changes hands, from what happens to the fields.
module _ {p : Pmm} (v : IsValid p) (page : ℕ) (q : Pmm) (words : HasWords q.bitmap)
    (len : length q.bitmap ≡ length p.bitmap) (total : q.total_pages ≡ p.total_pages) where
  pub mark_keeps :
      used p.bitmap page ≡ false
      → ((j : ℕ) → used q.bitmap j ≡ (if j == page then true else used p.bitmap j))
      → q.free_pages + 1 ≡ p.free_pages
      → IsValid q
  mark_keeps free marks count = record {
    words = words;
    covered = omega (arith, v.covered);
    sized = omega (arith, v.sized);
    low = λ j h. ground (arith, marks j, v.low j h);
    high = λ j h. ground (arith, marks j, v.high j (omega arith));
    counted = omega (
      arith,
      v.counted,
      ap (count_free (used q.bitmap)) total,
      count_free_mark (used p.bitmap) (used q.bitmap) page p.total_pages
          (free_in_range v page free).1 free marks,
    );
  }

  pub clear_keeps :
      used p.bitmap page ≡ true
      → first_page ≤ page
      → page < p.total_pages
      → ((j : ℕ) → used q.bitmap j ≡ (if j == page then false else used p.bitmap j))
      → q.free_pages ≡ p.free_pages + 1
      → IsValid q
  clear_keeps taken from_start managed marks count = record {
    words = words;
    covered = omega (arith, v.covered);
    sized = omega (arith, v.sized);
    low = λ j h. ground (arith, marks j, v.low j h);
    high = λ j h. ground (arith, marks j, v.high j (omega arith));
    counted = omega (
      arith,
      v.counted,
      ap (count_free (used q.bitmap)) total,
      count_free_mark (used q.bitmap) (used p.bitmap) page p.total_pages managed
          (marks page ∙ ground arith) (λ j. ground (arith, marks j, taken_at j)),
    );
  }
    where
      taken_at : (j : ℕ) → (j == page) ≡ true → used p.bitmap j ≡ true
      taken_at j e = ap (used p.bitmap) ((==_iff j page).0 e) ∙ taken
