-- ===== src/Pmm/Find.antt =====
-- `bitmap_find_free`: the two loops find the lowest page that is not in use.
use simple_os.Prelude.{
  ℕ, zero, suc, ◌+◌, ◌-◌, ◌*◌, ◌≤◌, ◌<◌, ◌≡◌, ◌∙◌, ap, ap₂, subst, sym, ◌==◌, ==_iff, Bool, true,
  false, Option, none, some, List, [], ◌∷◌, length, get_or, arith, Bool-cases, Option-cases, inl,
  inr, ltb, ltb_iff, has_bit, bit, has_bit-eq-bit, bit_of_ones,
}
use simple_os.Pmm.{all_ones, find_bit, bitmap_find_free}
use simple_os.Pmm.View.{used, HasWords}

-- The result of a search for the first `false` of `f` from `lo` up to `hi`.
abbrev pub First : (ℕ → Bool) → ℕ → ℕ → Option ℕ → Type 0
First f lo hi none = (j : ℕ) → lo ≤ j → j < hi → f j ≡ true
First f lo hi (some k) =
    (lo ≤ k) × (k < hi) × (f k ≡ false) × ((j : ℕ) → lo ≤ j → j < k → f j ≡ true)

First-skip :
    (f : ℕ → Bool) (lo mid hi : ℕ) (r : Option ℕ)
    → lo ≤ mid
    → ((j : ℕ) → lo ≤ j → j < mid → f j ≡ true)
    → First f mid hi r
    → First f lo hi r
First-skip f lo mid hi none le h s = λ j p q. elim (Bool-cases (ltb j mid)) [
  | inl e ↦ h j p ((ltb_iff j mid).0 e)
  | inr e ↦ s j (ground arith) q
]
First-skip f lo mid hi (some k) le h s = (omega arith, s.1, s.2, below)
  where
    below : (j : ℕ) → lo ≤ j → j < k → f j ≡ true
    below j a b = elim (Bool-cases (ltb j mid)) [
      | inl e ↦ h j a ((ltb_iff j mid).0 e)
      | inr e ↦ s.3 j (ground arith) b
    ]

find_bit-First : (w n i : ℕ) → First (bit w) i (i + n) (find_bit w n i)
unfolding find_bit
find_bit-First w zero i = λ j p q. absurd (omega arith)
find_bit-First w (suc n) i = elim (Bool-cases (has_bit w i)) [
  | inl e ↦ rw e (
      First-skip (bit w) i (i + 1) (i + suc n) (find_bit w n (i + 1)) (omega arith)
        (λ j p q. rw (let h : j ≡ i = omega arith in h) (sym (has_bit-eq-bit i w) ∙ e))
        (let h : i + suc n ≡ i + 1 + n = omega arith in rw h (find_bit-First w n (i + 1))))
  | inr e ↦
      rw e (omega arith, omega arith, sym (has_bit-eq-bit i w) ∙ e, λ j p q. absurd (omega arith))
]

-- The loop over the words, from word `i` on: `f` reads the words of the list.
find_free-First :
    (f : ℕ → Bool) (ws : List ℕ) (i : ℕ)
    → HasWords ws
    → ((j k : ℕ) → k < 32 → f (32 * (i + j) + k) ≡ bit (get_or ws j all_ones) k)
    → First f (32 * i) (32 * (i + length ws)) (bitmap_find_free ws i)
unfolding bitmap_find_free
find_free-First f [] i small agree = λ j p q. absurd (omega arith)
find_free-First f (w ∷ ws) i small agree = elim (Bool-cases (w == all_ones)) [
  | inl e ↦ rw e (
      skip (λ k h. rw ((==_iff w all_ones).0 e) (bit_of_ones 32 k h))
        (find_free-First f ws (i + 1) (λ j. small (suc j)) agree_tail))
  | inr e ↦ elim (Option-cases (find_bit w 32 0)) [
    | inl miss ↦
        let ones = subst (First (bit w) 0 32) miss (find_bit-First w 32 0) in
        rw (e, miss, bitmap_find_free)
          (skip (λ k h. ones k (omega arith) h)
            (find_free-First f ws (i + 1) (λ j. small (suc j)) agree_tail))
    | inr (b, hit) ↦
        rw (e, hit, bitmap_find_free)
          (found b (subst (First (bit w) 0 32) hit (find_bit-First w 32 0)))
  ]
]
  where
    agree_tail : (j k : ℕ) → k < 32 → f (32 * (i + 1 + j) + k) ≡ bit (get_or ws j all_ones) k
    agree_tail j k h = ap f (omega arith) ∙ agree (suc j) k h

    agree_head : (j : ℕ) → 32 * i ≤ j → j < 32 * (i + 1) → f j ≡ bit w (j - 32 * i)
    agree_head j p q = ap f (omega arith) ∙ agree 0 (j - 32 * i) (omega arith)

    skip :
        ((k : ℕ) → k < 32 → bit w k ≡ true)
        → First f (32 * (i + 1)) (32 * (i + 1 + length ws)) (bitmap_find_free ws (i + 1))
        → First f (32 * i) (32 * (i + suc (length ws))) (bitmap_find_free ws (i + 1))
    skip ones rest =
        First-skip f (32 * i) (32 * (i + 1)) _ _ (omega arith)
          (λ j p q. agree_head j p q ∙ ones (j - 32 * i) (omega arith))
          (subst (λ (n : ℕ). First f (32 * (i + 1)) (32 * n) (bitmap_find_free ws (i + 1)))
            (omega arith) rest)

    found :
        (b : ℕ)
        → First (bit w) 0 32 (some b)
        → First f (32 * i) (32 * (i + suc (length ws))) (some (i * 32 + b))
    found b h = (
      omega arith,
      omega arith,
      agree_head (i * 32 + b) (omega arith) (omega arith)
          ∙ ap (bit w) (let e : i * 32 + b - 32 * i ≡ b = omega arith in e)
          ∙ h.2,
      λ j p q. agree_head j p (omega arith) ∙ h.3 (j - 32 * i) (omega arith) (omega arith),
    )

-- The search returns the lowest free page of the bitmap, and -1 only if it has none.
pub bitmap_find_free-First :
    (bm : List ℕ) → HasWords bm → First (used bm) 0 (32 * length bm) (bitmap_find_free bm 0)
unfolding used
bitmap_find_free-First bm small =
    subst (λ (n : ℕ). First (used bm) 0 (32 * n) (bitmap_find_free bm 0)) (omega arith)
      (find_free-First (used bm) bm 0 small
        (λ j k h. ap₂ (λ x y. bit (get_or bm x all_ones) y) (omega arith) (omega arith)))
