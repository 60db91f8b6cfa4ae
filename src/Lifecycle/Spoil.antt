-- ===== src/Lifecycle/Spoil.antt =====
-- The pages of the heap among those that a call has been handed out.
use simple_os.Prelude.{
  ℕ, zero, suc, ◌+◌, ◌≤◌, ◌<◌, ◌≡◌, ◌⊎◌, inl, inr, Bool, Bool-cases, true, false, arith,
}
use simple_os.Pmm.{Pmm}
use simple_os.Pmm.View.{used}
use simple_os.Lifecycle.{any_page, handed_out, heap_page, heap_pages, spoils}

any_page_lem :
    (f : ℕ → Bool) (n page : ℕ)
    → any_page f n page ≡ true
    → (j : ℕ) × (page ≤ j) × (j < page + n) × (f j ≡ true)
unfolding any_page
any_page_lem f zero page h = absurd (cc h)
any_page_lem f (suc n) page h = elim (Bool-cases (f page)) [
  | inl e ↦ (page, omega arith, omega arith, e)
  | inr e ↦
      let (j, from, below, at) = any_page_lem f n (page + 1) (ground (arith, e, h)) in
      (j, omega (arith, from), omega (arith, below), at)
]

-- From `p` to `q` a page between 0x2000000 and 0x3000000 was handed out: it was free, and is in use since, or
-- the call has failed.
abbrev pub HeapTaken : Pmm → Pmm → Bool → Type 0
HeapTaken p q done =
    (j : ℕ) × (8192 ≤ j)
    × (j < 12288)
    × (used p.bitmap j ≡ false)
    × ((done ≡ false) ⊎ (used q.bitmap j ≡ true))

pub spoils-HeapTaken : (p q : Pmm) (done : Bool) → spoils p q done ≡ true → HeapTaken p q done
unfolding spoils
spoils-HeapTaken p q done h =
    let (j, from, below, at) = any_page_lem (handed_out p q done) heap_pages heap_page h in
    (
      j,
      omega (arith, from),
      omega (arith, below),
      ground (arith, at),
      elim (Bool-cases done) [ inl e ↦ inr (ground (arith, at, e)) | inr e ↦ inl e ],
    )
