-- ===== src/Kmalloc/Coalesce.antt =====
-- `coalesce_free_blocks` joins all free neighbours and leaves the blocks in use alone.
use simple_os.Prelude.{
  ℕ, zero, suc, ◌+◌, ◌<◌, ◌≡◌, ◌≢◌, refl, sym, ap, ◌∙◌, inl, inr, ◌==◌, ==_iff, if◌then◌else◌, ◌&&◌,
  ◌||◌, Bool, true, false, Run, ok, arith, Bool-cases,
}
use simple_os.Kmalloc.{Block, heap_end, header_size, merge, coalesce_free_blocks}
use simple_os.Kmalloc.Tiles.{after, link, Tiles, used, Tiles-le, Tiles-frame}

-- Of the `n` blocks from `a` on, no two neighbours are both free.
abbrev pub Merged : (ℕ → Block) → ℕ → ℕ → Type 0
Merged f zero a = Unit
Merged f (suc zero) a = Unit
Merged f (suc (suc n)) a =
    (((f a).free && (f (after f a)).free) ≡ false) × Merged f (suc n) (after f a)

pub record Coalesced (f g : ℕ → Block) (n a : ℕ) : Type 0 where
  pub m : ℕ
  pub tiled : Tiles g m a heap_end
  pub same_use : used g m a ≡ used f n a
  pub joined : Merged g m a
  pub below : (x : ℕ) → x < a → g x ≡ f x
  pub flags : (x : ℕ) → (g x).free ≡ (f x).free

merge_lem :
    (f : ℕ → Block) (n a : ℕ)
    → Tiles f (suc (suc n)) a heap_end
    → (f a).next ≡ after f a
    → (f a).free ≡ true
    → (f (after f a)).free ≡ true
    → Tiles (merge f a) (suc n) a heap_end
      × (used (merge f a) (suc n) a ≡ used f (suc (suc n)) a)
      × ((x : ℕ) → x < a → merge f a x ≡ f x)
      × ((x : ℕ) → (merge f a x).free ≡ (f x).free)
unfolding merge
merge_lem f n a t next free free' =
    let low = Tiles-le f n (after f (after f a)) heap_end t.1.1 in
    let at : merge f a a ≡ record (f a) {
      size = (f a).size + (header_size + (f (after f a)).size);
      next = (f (after f a)).next;
    } =
      (let self : (a == a) ≡ true = ground arith in rw (self, next) refl) in
    let out : (x : ℕ) → x ≢ a → merge f a x ≡ f x =
      λ x h. (let no : (x == a) ≡ false = ground (arith, h) in rw no refl) in
    let end : a + header_size + ((f a).size + (header_size + (f (after f a)).size))
        ≡ after f (after f a) =
      omega arith in
    let (u, l) =
      Tiles-frame f (merge f a) n (after f (after f a)) heap_end (λ x h k. out x (omega arith))
        t.1.1 in
    let flag : (x : ℕ) → (merge f a x).free ≡ (f x).free = λ x. elim (Bool-cases (x == a)) [
      | inl e ↦ rw e (ap (λ y. (f y).free) (sym ((==_iff x a).0 e)))
      | inr e ↦ rw e refl
    ] in
    (rw (at, end) (t.1.0, u), rw (at, end, free, free') l, λ x h. out x (omega arith), flag)

-- Joining a block in front of coalesced ones, where it or the next is in use.
Merged-front :
    (g : ℕ → Block) (m a : ℕ)
    → ((g a).free && (g (after g a)).free) ≡ false
    → Merged g m (after g a)
    → Merged g (suc m) a
Merged-front g zero a e h = tt
Merged-front g (suc m) a e h = (e, h)

abbrev next_round : ℕ → (ℕ → Block) → ℕ → ℕ → Bool → Run (ℕ → Block)
next_round fuel f a b both =
    if both then coalesce_free_blocks fuel a (merge f a) else coalesce_free_blocks fuel b f

round :
    (fuel : ℕ) (f : ℕ → Block) (a b : ℕ)
    → 0 < a
    → 0 < b
    → (f a).next ≡ b
    → coalesce_free_blocks (suc fuel) a f ≡ next_round fuel f a b ((f a).free && (f b).free)
unfolding coalesce_free_blocks
round fuel f a b pos pos' next =
    let nonzero : (a == 0) ≡ false = ground arith in
    let linked : (b == 0) ≡ false = ground arith in rw (nonzero, next, linked) refl

pub coalesce_free_blocks_lem :
    (fuel : ℕ) (f : ℕ → Block) (n a : ℕ)
    → Tiles f n a heap_end
    → 0 < a
    → n < fuel
    → (g : ℕ → Block) × (coalesce_free_blocks fuel (link a) f ≡ ok g) × Coalesced f g n a
unfolding coalesce_free_blocks
coalesce_free_blocks_lem zero f n a t pos h = absurd (omega arith)
coalesce_free_blocks_lem (suc fuel) f zero a t pos h = (
  f,
  rw t refl,
  record {
    m = zero;
    tiled = t;
    same_use = refl;
    joined = tt;
    below = λ x k. refl;
    flags = λ x. refl;
  },
)
coalesce_free_blocks_lem (suc fuel) f (suc zero) a t pos h =
    let last : (f a).next ≡ 0 = t.0 ∙ ap link t.1 in
    let here : link a ≡ a = ground (arith, t.1) in
    let stop : (a == 0 || (f a).next == 0) ≡ true = rw last (ground arith) in
    (
      f,
      rw (here, stop) refl,
      record {
        m = 1;
        tiled = t;
        same_use = refl;
        joined = tt;
        below = λ x k. refl;
        flags = λ x. refl;
      },
    )
coalesce_free_blocks_lem (suc fuel) f (suc (suc n)) a t pos h =
    let b = after f a in
    let low = Tiles-le f (suc n) b heap_end t.1 in
    let here : link a ≡ a = ground (arith, low) in
    let next : (f a).next ≡ b = t.0 ∙ ground (arith, low) in
    let there : link b ≡ b = ground (arith, low) in
    let first : coalesce_free_blocks (suc fuel) (link a) f
        ≡ next_round fuel f a b ((f a).free && (f b).free) =
      ap (λ x. coalesce_free_blocks (suc fuel) x f) here
      ∙ round fuel f a b pos (omega arith) next in
    elim (Bool-cases ((f a).free && (f b).free)) [
      | inl e ↦
          let (u, l, below, flag) =
            merge_lem f n a t next (ground (arith, e)) (ground (arith, e)) in
          let (g, r, c) = coalesce_free_blocks_lem fuel (merge f a) (suc n) a u pos (omega arith) in
          (
            g,
            first
                ∙ ap (next_round fuel f a b) e
                ∙ ap (λ x. coalesce_free_blocks fuel x (merge f a)) (sym here)
                ∙ r,
            record {
              m = c.m;
              tiled = c.tiled;
              same_use = c.same_use ∙ l;
              joined = c.joined;
              below = λ x k. c.below x k ∙ below x k;
              flags = λ x. c.flags x ∙ flag x;
            },
          )
      | inr e ↦
          let (g, r, c) =
            coalesce_free_blocks_lem fuel f (suc n) b t.1 (omega arith) (omega arith) in
          let at : g a ≡ f a = c.below a (omega arith) in
          (
            g,
            first
                ∙ ap (next_round fuel f a b) e
                ∙ ap (λ x. coalesce_free_blocks fuel x f) (sym there)
                ∙ r,
            record {
              m = suc c.m;
              tiled = rw at (t.0, c.tiled);
              same_use = rw (at, c.same_use) refl;
              joined = Merged-front g c.m a (rw (at, c.flags b) e) (rw at c.joined);
              below = λ x k. c.below x (omega arith);
              flags = c.flags;
            },
          )
    ]
