-- ===== src/Kmalloc/Claim.antt =====
-- `kmalloc` takes the first block that fits.
use simple_os.Prelude.{
  ℕ, zero, suc, ◌+◌, ◌-◌, ◌%◌, ◌^◌, ◌≤◌, ◌<◌, ◌≡◌, ◌≢◌, refl, ◌⊎◌, inl, inr, ◌==◌, leb, ◌&&◌, Bool,
  true, false, ok, ◌∷◌, arith, Bool-cases,
}
use simple_os.Kmalloc.{
  Block, write, heap_end, header_size, min_block_size, find_free_block, split_block,
}
use simple_os.Kmalloc.Tiles.{after, link, Tiles, used, NoFit, Tiles-le, Tiles-frame}

-- The block at `p` stands behind `i` blocks that do not fit and before `m` others.
pub record Fits (f : ℕ → Block) (size n a p : ℕ) : Type 0 where
  pub i : ℕ
  pub m : ℕ
  pub all : i + suc m ≡ n
  pub front : Tiles f i a p
  pub no_fit : NoFit f size i a
  pub back : Tiles f (suc m) p heap_end
  pub is_free : (f p).free ≡ true
  pub is_large : size ≤ (f p).size

pub find_free_block_lem :
    (f : ℕ → Block) (size n fuel a : ℕ)
    → Tiles f n a heap_end
    → 0 < a
    → n < fuel
    → ((find_free_block f size fuel (link a) ≡ ok 0) × NoFit f size n a)
      ⊎ ((p : ℕ) × (find_free_block f size fuel (link a) ≡ ok p) × Fits f size n a p × (a ≤ p))
unfolding find_free_block
find_free_block_lem f size zero zero a t pos h = absurd (omega arith)
find_free_block_lem f size (suc n) zero a t pos h = absurd (omega arith)
find_free_block_lem f size zero (suc fuel) a t pos h = inl (rw t refl, tt)
find_free_block_lem f size (suc n) (suc fuel) a t pos h =
    let low = Tiles-le f n (after f a) heap_end t.1 in
    let here : link a ≡ a = ground (arith, low) in
    let nonzero : (a == 0) ≡ false = ground arith in
    elim (Bool-cases ((f a).free && leb size (f a).size)) [
      | inl e ↦ inr (
        a,
        rw (here, nonzero, e) refl,
        record {
          i = 0;
          m = n;
          all = omega arith;
          front = refl;
          no_fit = tt;
          back = t;
          is_free = ground (arith, e);
          is_large = ground (arith, e);
        },
        omega arith,
      )
      | inr e ↦
          elim (find_free_block_lem f size n fuel (after f a) t.1 (omega arith) (omega arith)) [
            | inl (g, k) ↦ inl (rw (here, nonzero, e, t.0) g, (e, k))
            | inr (p, g, k, le) ↦ inr (
              p,
              rw (here, nonzero, e, t.0) g,
              record {
                i = suc k.i;
                m = k.m;
                all = omega (arith, k.all);
                front = (t.0, k.front);
                no_fit = (e, k.no_fit);
                back = k.back;
                is_free = k.is_free;
                is_large = k.is_large;
              },
              omega (arith, le),
            )
          ]
    ]

-- The headers after the block at `p` is split and marked as used.
unfoldable pub claimed : (ℕ → Block) → ℕ → ℕ → ℕ → Block
claimed f p size = let g = split_block f p size in write g p (record (g p) { free = false })

abbrev pub splits : (ℕ → Block) → ℕ → ℕ → Bool
splits f p size = leb ((size + header_size + min_block_size) % 2 ^ 64) (f p).size

claimed_split :
    (f : ℕ → Block) (p size : ℕ)
    → splits f p size ≡ true
    → (claimed f p size p ≡ record { size = size; next = p + header_size + size; free = false })
      × (claimed f p size (p + header_size + size)
          ≡ record { size = (f p).size - size - header_size; next = (f p).next; free = true })
      × ((x : ℕ) → x ≢ p → x ≢ p + header_size + size → claimed f p size x ≡ f x)
unfolding claimed split_block
claimed_split f p size e =
    let self : (p == p) ≡ true = ground arith in
    let new : (p + header_size + size == p) ≡ false = ground arith in
    let same : (p + header_size + size == p + header_size + size) ≡ true = ground arith in
    (
      rw (e, self) refl,
      rw (e, new, same) refl,
      λ x n k.
          let one : (x == p) ≡ false = ground (arith, n) in
          let two : (x == p + header_size + size) ≡ false = ground (arith, k) in
          rw (e, one, two) refl,
    )

claimed_whole :
    (f : ℕ → Block) (p size : ℕ)
    → splits f p size ≡ false
    → (claimed f p size p ≡ record (f p) { free = false })
      × ((x : ℕ) → x ≢ p → claimed f p size x ≡ f x)
unfolding claimed split_block
claimed_whole f p size e =
    let self : (p == p) ≡ true = ground arith in
    (rw (e, self) refl, λ x n. let one : (x == p) ≡ false = ground (arith, n) in rw (e, one) refl)

-- What `p` and the memory behind it hold afterwards.
pub record Claimed (f g : ℕ → Block) (size p m : ℕ) : Type 0 where
  pub k : ℕ
  pub tiled : Tiles g (suc k) p heap_end
  pub uses : used g (suc k) p ≡ (p, (g p).size) ∷ used f m (after f p)
  pub large : size ≤ (g p).size
  pub below : (x : ℕ) → x < p → g x ≡ f x

pub claimed-Claimed :
    (f : ℕ → Block) (p m size : ℕ)
    → Tiles f (suc m) p heap_end
    → size ≤ (f p).size
    → Claimed f (claimed f p size) size p m
claimed-Claimed f p m size t large = elim (Bool-cases (splits f p size)) [
  | inl e ↦
      let low = Tiles-le f m (after f p) heap_end t.1 in
      let (at, new, out) = claimed_split f p size e in
      let end : p + header_size + size + header_size + ((f p).size - size - header_size)
          ≡ after f p =
        ground (arith, e, low, large) in
      let (u, l) =
        Tiles-frame f (claimed f p size) m (after f p) heap_end
          (λ x h j. out x (omega arith) (omega arith)) t.1 in
      let inner : p + header_size + size ≡ link (p + header_size + size) =
        ground (arith, e, low, large) in
      record {
        k = suc m;
        tiled = rw (at, new, end) (inner, (t.0, u));
        uses = rw (at, new, end, l) refl;
        large = rw at (omega arith);
        below = λ x h. out x (omega arith) (omega arith);
      }
  | inr e ↦
      let (at, out) = claimed_whole f p size e in
      let (u, l) =
        Tiles-frame f (claimed f p size) m (after f p) heap_end (λ x h j. out x (omega arith))
          t.1 in
      record {
        k = m;
        tiled = rw at (t.0, u);
        uses = rw (at, l) refl;
        large = rw at large;
        below = λ x h. out x (omega arith);
      }
]
