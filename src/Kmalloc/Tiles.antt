-- ===== src/Kmalloc/Tiles.antt =====
-- The blocks tile the heap: each ends where the next begins.
use simple_os.Prelude.{
  ℕ, zero, suc, ◌+◌, ◌*◌, ◌≤◌, ◌<◌, ◌≡◌, refl, inl, inr, ◌==◌, leb, if◌then◌else◌, ◌&&◌, false,
  List, [], ◌∷◌, ◌++◌, arith, Bool-cases,
}
use simple_os.Kmalloc.{Block, heap_end, header_size}

-- Where the block at `a` ends.
abbrev pub after : (ℕ → Block) → ℕ → ℕ
after f a = a + header_size + (f a).size

-- The pointer to what starts at `a`.
abbrev pub link : ℕ → ℕ
link a = if a == heap_end then 0 else a

-- `n` blocks fill the memory from `a` to `e`, each linked to the next.
abbrev pub Tiles : (ℕ → Block) → ℕ → ℕ → ℕ → Type 0
Tiles f zero a e = a ≡ e
Tiles f (suc n) a e = ((f a).next ≡ link (after f a)) × Tiles f n (after f a) e

-- The blocks in use among the `n` from `a` on: the address and the size of each.
abbrev pub used : (ℕ → Block) → ℕ → ℕ → List (ℕ × ℕ)
used f zero a = []
used f (suc n) a =
    let rest = used f n (after f a) in if (f a).free then rest else (a, (f a).size) ∷ rest

-- None of the `n` blocks from `a` on is free and has `size` bytes.
abbrev pub NoFit : (ℕ → Block) → ℕ → ℕ → ℕ → Type 0
NoFit f size zero a = Unit
NoFit f size (suc n) a = (((f a).free && leb size (f a).size) ≡ false) × NoFit f size n (after f a)

pub Tiles-le : (f : ℕ → Block) (n a e : ℕ) → Tiles f n a e → a + n * header_size ≤ e
Tiles-le f zero a e t = omega arith
Tiles-le f (suc n) a e t = omega (arith, Tiles-le f n (after f a) e t.1)

pub Tiles-append :
    (f : ℕ → Block) (n m a b e : ℕ) → Tiles f n a b → Tiles f m b e → Tiles f (n + m) a e
Tiles-append f zero m a b e t u = let z : 0 + m ≡ m = omega arith in rw (z, t) u
Tiles-append f (suc n) m a b e t u =
    let z : suc n + m ≡ suc (n + m) = omega arith in
    rw z (t.0, Tiles-append f n m (after f a) b e t.1 u)

pub used-append :
    (f : ℕ → Block) (n m a b : ℕ) → Tiles f n a b → used f (n + m) a ≡ used f n a ++ used f m b
used-append f zero m a b t = let z : 0 + m ≡ m = omega arith in rw (z, t) refl
used-append f (suc n) m a b t =
    let z : suc n + m ≡ suc (n + m) = omega arith in
    rw (z, used-append f n m (after f a) b t.1)
      (elim (Bool-cases (f a).free) [ inl e ↦ rw e refl | inr e ↦ rw e refl ])

-- What is written outside of the tiles leaves them alone.
pub Tiles-frame :
    (f g : ℕ → Block) (n a e : ℕ)
    → ((x : ℕ) → a ≤ x → x < e → g x ≡ f x)
    → Tiles f n a e
    → Tiles g n a e × (used g n a ≡ used f n a)
Tiles-frame f g zero a e same t = (t, refl)
Tiles-frame f g (suc n) a e same t =
    let low = Tiles-le f n (after f a) e t.1 in
    let at : g a ≡ f a = same a (omega arith) (omega (arith, low)) in
    let (u, l) = Tiles-frame f g n (after f a) e (λ x h k. same x (omega arith) k) t.1 in
    rw at ((t.0, u), rw l refl)
