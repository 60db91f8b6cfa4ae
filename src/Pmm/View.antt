-- ===== src/Pmm/View.antt =====
-- The bitmap of pmm.c seen as a set of pages, and what the three bitmap helpers do to it.
use simple_os.Prelude.{
  ℕ, zero, suc, ◌*◌, ◌/◌, ◌%◌, ◌^◌, ◌≤◌, ◌<◌, ◌≡◌, refl, bit_and, bit_or, ◌==◌, ==_iff,
  if◌then◌else◌, Bool, true, false, List, [], ◌∷◌, length, get_or, set, length-set, get_or-set_self,
  get_or-set_ne, ok, arith, Bool-cases, inl, inr, bit, not_bit32, has_bit-eq-bit, bit-bit_or,
  bit-bit_and, bit-two_pow, bit_of_mask, bit_or-lt, bit_and-le, two_pow-lt, bit_of_ones,
}
use simple_os.Pmm.{Pmm, all_ones, bitmap_set, bitmap_clear, bitmap_test}

-- Is the page in use? Pages past the bitmap count as used.
unfoldable pub used : List ℕ → ℕ → Bool
used bm page = bit (get_or bm (page / 32) all_ones) (page % 32)

-- Every entry of the bitmap is a 32 bit word.
abbrev pub HasWords : List ℕ → Type 0
HasWords bm = (i : ℕ) → get_or bm i all_ones < 2 ^ 32

unfoldable pub marked : Pmm → ℕ → Pmm
marked p page = record p {
  bitmap =
      set p.bitmap (page / 32) (bit_or (get_or p.bitmap (page / 32) all_ones) (2 ^ (page % 32)));
}

unfoldable pub cleared : Pmm → ℕ → Pmm
cleared p page = record p {
  bitmap =
      set p.bitmap (page / 32)
        (bit_and (get_or p.bitmap (page / 32) all_ones) (not_bit32 (page % 32)));
}

pub used-set :
    (bm : List ℕ) (i v j : ℕ)
    → i < length bm
    → used (set bm i v) j ≡ (if j / 32 == i then bit v (j % 32) else used bm j)
unfolding used
used-set bm i v j h = elim (Bool-cases (j / 32 == i)) [
  | inl e ↦ rw e (rw ((==_iff (j / 32) i).0 e, get_or-set_self bm i v all_ones h))
  | inr e ↦ rw e (rw (get_or-set_ne bm i (j / 32) v all_ones (ground arith)))
]

module _ (p : Pmm) (page : ℕ) (inside : page < 32 * length p.bitmap) where
  pub bitmap_set-eq : bitmap_set p page ≡ ok (marked p page)
  unfolding bitmap_set marked
  bitmap_set-eq = ground arith

  pub bitmap_clear-eq : bitmap_clear p page ≡ ok (cleared p page)
  unfolding bitmap_clear cleared
  bitmap_clear-eq = ground arith

  pub bitmap_test-eq : bitmap_test p page ≡ ok (used p.bitmap page)
  unfolding bitmap_test used
  bitmap_test-eq = ground (arith, has_bit-eq-bit (page % 32) (get_or p.bitmap (page / 32) all_ones))

  pub used-marked :
      (j : ℕ) → used (marked p page).bitmap j ≡ (if j == page then true else used p.bitmap j)
  unfolding used marked
  used-marked j = ground (
    arith,
    used-set p.bitmap (page / 32) (bit_or (get_or p.bitmap (page / 32) all_ones) (2 ^ (page % 32)))
        j,
    bit-bit_or (j % 32) (get_or p.bitmap (page / 32) all_ones) (2 ^ (page % 32)),
    bit-two_pow (j % 32) (page % 32),
  )

  pub used-cleared :
      (j : ℕ) → used (cleared p page).bitmap j ≡ (if j == page then false else used p.bitmap j)
  unfolding used cleared
  used-cleared j = ground (
    arith,
    used-set p.bitmap (page / 32)
        (bit_and (get_or p.bitmap (page / 32) all_ones) (not_bit32 (page % 32))) j,
    bit-bit_and (j % 32) (get_or p.bitmap (page / 32) all_ones) (not_bit32 (page % 32)),
    bit_of_mask 32 (page % 32) (j % 32),
  )

  pub marked-HasWords : HasWords p.bitmap → HasWords (marked p page).bitmap
  unfolding marked
  marked-HasWords h i = elim (Bool-cases (i == page / 32)) [
    | inl e ↦
        rw
          (
            (==_iff i (page / 32)).0 e,
            get_or-set_self p.bitmap (page / 32)
                (bit_or (get_or p.bitmap (page / 32) all_ones) (2 ^ (page % 32))) all_ones
                (omega arith),
          )
          (bit_or-lt 32 _ _ (h (page / 32)) (two_pow-lt 32 (page % 32) (omega arith)))
    | inr e ↦ rw (get_or-set_ne p.bitmap (page / 32) i _ all_ones (ground arith)) (h i)
  ]

  pub cleared-HasWords : HasWords p.bitmap → HasWords (cleared p page).bitmap
  unfolding cleared
  cleared-HasWords h i = elim (Bool-cases (i == page / 32)) [
    | inl e ↦
        rw
          (
            (==_iff i (page / 32)).0 e,
            get_or-set_self p.bitmap (page / 32)
                (bit_and (get_or p.bitmap (page / 32) all_ones) (not_bit32 (page % 32))) all_ones
                (omega arith),
          )
          (omega (
            arith,
            bit_and-le (get_or p.bitmap (page / 32) all_ones) (not_bit32 (page % 32)),
            h (page / 32),
          ))
    | inr e ↦ rw (get_or-set_ne p.bitmap (page / 32) i _ all_ones (ground arith)) (h i)
  ]

pub length-marked : (p : Pmm) (page : ℕ) → length (marked p page).bitmap ≡ length p.bitmap
unfolding marked
length-marked p page = length-set p.bitmap (page / 32) _

pub length-cleared : (p : Pmm) (page : ℕ) → length (cleared p page).bitmap ≡ length p.bitmap
unfolding cleared
length-cleared p page = length-set p.bitmap (page / 32) _

-- Pages past the bitmap count as used.
pub used_outside : (bm : List ℕ) (j : ℕ) → 32 * length bm ≤ j → used bm j ≡ true
unfolding used
used_outside bm j h =
    rw (get_or_outside bm (j / 32) (omega arith)) (bit_of_ones 32 (j % 32) (omega arith))
  where
    get_or_outside : (xs : List ℕ) (i : ℕ) → length xs ≤ i → get_or xs i all_ones ≡ all_ones
    get_or_outside [] i h = refl
    get_or_outside (x ∷ xs) zero h = absurd (omega arith)
    get_or_outside (x ∷ xs) (suc i) h = get_or_outside xs i (omega arith)
