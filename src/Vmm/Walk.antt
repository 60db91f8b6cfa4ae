-- ===== src/Vmm/Walk.antt =====
-- What the page tables' owner may rely on while pages are allocated: pages in use keep their
-- content.
use simple_os.Prelude.{
  ℕ, ◌+◌, ◌*◌, ◌/◌, ◌%◌, ◌≤◌, ◌<◌, ◌≡◌, ◌≢◌, refl, ap, ◌∙◌, ◌⊎◌, inl, inr, ◌==◌, ltb, true, false,
  arith, Bool-cases, ok,
}
use simple_os.Pmm.{Pmm, page_size, store, alloc_page, free_page}
use simple_os.Pmm.View.{used}
use simple_os.Pmm.Inv.{IsValid, first_page, count_free_none}
use simple_os.Pmm.Alloc.{alloc_page_lem}
use simple_os.Pmm.Free.{free_page_lem}
use simple_os.Vmm.{set_entry}

-- From `p` to `q` pages have been taken, and nothing in use in `p` has changed.
pub record Extends (p q : Pmm) : Type 0 where
  pub valid : IsValid q
  pub total : q.total_pages ≡ p.total_pages
  pub still : (j : ℕ) → used p.bitmap j ≡ true → used q.bitmap j ≡ true
  pub same : (b : ℕ) → used p.bitmap (b / 4096) ≡ true → q.memory b ≡ p.memory b

pub Extends-refl : {p : Pmm} → IsValid p → Extends p p
Extends-refl v = record { valid = v; total = refl; still = λ j h. h; same = λ b h. refl }

pub Extends-trans : {p q r : Pmm} → Extends p q → Extends q r → Extends p r
Extends-trans e f = record {
  valid = f.valid;
  total = f.total ∙ e.total;
  still = λ j h. f.still j (e.still j h);
  same = λ b h. f.same b (e.still (b / 4096) h) ∙ e.same b h;
}

-- The table at `t` is a page of its own, taken since `p`.
pub record Fresh (p q : Pmm) (t : ℕ) : Type 0 where
  pub aligned : t % 4096 ≡ 0
  pub from_start : first_page ≤ t / 4096
  pub managed : t / 4096 < p.total_pages
  pub was_free : used p.bitmap (t / 4096) ≡ false
  pub taken : used q.bitmap (t / 4096) ≡ true

pub memory-IsValid : {p : Pmm} (m : ℕ → ℕ) → IsValid p → IsValid (record p { memory = m })
memory-IsValid m v = record {
  words = v.words;
  covered = v.covered;
  sized = v.sized;
  low = v.low;
  high = v.high;
  counted = v.counted;
}

-- A page in use and a free page are two.
pub apart : (p : Pmm) (i j : ℕ) → used p.bitmap i ≡ true → used p.bitmap j ≡ false → i ≢ j
apart p i j h k e = cc (ap (used p.bitmap) e)

pub beside : (b page : ℕ) → b / 4096 ≢ page → (b < page * 4096) ⊎ (page * 4096 + 4096 ≤ b)
beside b page h = elim (Bool-cases (ltb b (page * 4096))) [
  | inl e ↦ inl (ground arith)
  | inr e ↦ inr (ground (arith, h))
]

-- `pmm_alloc_page` as the code of this part sees it.
pub alloc_fresh :
    {p : Pmm}
    → IsValid p
    → ((alloc_page p ≡ ok (0, p)) × (p.free_pages ≡ 0))
      ⊎ ((t : ℕ) × (q : Pmm) × (alloc_page p ≡ ok (t, q))
          × ((t == 0) ≡ false)
          × Extends p q
          × Fresh p q t
          × ((i : ℕ) → i < 512 → q.memory (t + 8 * i) ≡ 0))
alloc_fresh {p} v = elim (alloc_page_lem v) [
  | inl (e, none_free) ↦
      inl (e, v.counted ∙ count_free_none (used p.bitmap) p.total_pages none_free)
  | inr (page, q, e, k, nz, _) ↦
      let at : page * page_size / 4096 ≡ page = omega arith in
      inr (
        page * page_size,
        q,
        e,
        ground (arith, nz),
        record {
          valid = k.valid;
          total = k.total;
          still = λ j h. ground (arith, k.marks j, h);
          same = λ b h. k.memory.kept b (beside b page (apart p (b / 4096) page h k.was_free));
        },
        record {
          aligned = omega arith;
          from_start = omega (arith, k.from_start);
          managed = omega (arith, k.managed);
          was_free = rw at k.was_free;
          taken = rw at (ground (arith, k.marks page));
        },
        k.memory.zeroed,
      )
]

-- A write to a fresh table.
pub set_entry-Extends :
    {p q : Pmm} (t i e : ℕ) → Extends p q → Fresh p q t → i < 512 → Extends p (set_entry q t i e)
set_entry-Extends {p} {q} t i e x f h = record {
  valid = memory-IsValid (store q.memory (t + 8 * i) e) x.valid;
  total = x.total;
  still = x.still;
  same = λ b k.
      let out : b / 4096 ≢ t / 4096 = apart p (b / 4096) (t / 4096) k f.was_free in
      let no : (t + 8 * i == b) ≡ false = ground (arith, out, f.aligned) in rw no (x.same b k);
}

pub free_fresh :
    {p q : Pmm} (t : ℕ)
    → Extends p q
    → Fresh p q t
    → (r : Pmm) × (free_page q t ≡ ok r) × Extends p r × (r.free_pages ≡ q.free_pages + 1)
free_fresh {p} {q} t x f = elim (free_page_lem t x.valid) [
  | inl (h, r, e, k) ↦ (
    r,
    e,
    record {
      valid = k.valid;
      total = k.total ∙ x.total;
      still = λ j h.
          let no : j ≢ t / 4096 = apart p j (t / 4096) h f.was_free in
          ground (arith, k.clears j, x.still j h, no);
      same = λ b h. ap (λ m. m b) k.memory ∙ x.same b h;
    },
    k.count,
  )
  | inr (h, _) ↦
      absurd
        (h (f.aligned, omega (arith, f.from_start), omega (arith, f.managed, x.total), f.taken))
]
