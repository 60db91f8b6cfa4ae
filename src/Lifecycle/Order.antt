-- ===== src/Lifecycle/Order.antt =====
-- The order in which blocks of the heap are taken does not matter, and a slot can be cleared.
use simple_os.Prelude.{
  ℕ, zero, suc, ◌<◌, ◌≡◌, ◌≢◌, refl, sym, ap, subst, ◌∙◌, ◌==◌, true, false, List, [], ◌∷◌, ◌++◌,
  set, get_or, arith, length,
}
use simple_os.Lifecycle.End.{clear_slot}
use simple_os.Lifecycle.Fresh.{OneMore}

-- `ys` is `xs` with `a` at some place.
abbrev Inserts {ℓ} : {A : Type ℓ} → A → List A → List A → Type ℓ
Inserts {A = A} a xs ys = (l : List A) × (r : List A) × (xs ≡ l ++ r) × (ys ≡ l ++ a ∷ r)

Inserts-front {ℓ} : {A : Type ℓ} (a : A) (xs : List A) → Inserts a xs (a ∷ xs)
Inserts-front a xs = ([], xs, refl, refl)

Inserts-behind {ℓ} :
    {A : Type ℓ} (x a : A) (xs ys : List A) → Inserts a xs ys → Inserts a (x ∷ xs) (x ∷ ys)
Inserts-behind x a xs ys (l, r, e, d) = (x ∷ l, r, ap (λ z. x ∷ z) e, ap (λ z. x ∷ z) d)

-- Two insertions commute: on the parts around `a` and around `b`.
swap_parts {ℓ} :
    {A : Type ℓ} (a b : A) (l r m n : List A)
    → l ++ a ∷ r ≡ m ++ n
    → (ws : List A) × Inserts b (l ++ r) ws × Inserts a ws (m ++ b ∷ n)
swap_parts a b l r [] n e =
    (b ∷ l ++ r, Inserts-front b (l ++ r), (b ∷ l, r, refl, ap (λ z. b ∷ z) (sym e)))
swap_parts a b [] r (x ∷ m) n e =
    let same : x ≡ a = cc e in
    let rest : r ≡ m ++ n = cc e in
    (m ++ b ∷ n, (m, n, rest, refl), ([], m ++ b ∷ n, refl, ap (λ z. z ∷ m ++ b ∷ n) same))
swap_parts a b (y ∷ l) r (x ∷ m) n e =
    let same : x ≡ y = cc e in
    let rest : l ++ a ∷ r ≡ m ++ n = cc e in
    let (ws, i, j) = swap_parts a b l r m n rest in
    (
      y ∷ ws,
      Inserts-behind y b (l ++ r) ws i,
      subst (λ z. Inserts a (y ∷ ws) (z ∷ m ++ b ∷ n)) (sym same)
          (Inserts-behind y a ws (m ++ b ∷ n) j),
    )

-- Two blocks that are taken one after the other could be taken in the other order.
pub OneMore-swap :
    (p q : ℕ) (xs ys zs : List (ℕ × ℕ))
    → OneMore xs p ys
    → OneMore ys q zs
    → (ws : List (ℕ × ℕ)) × OneMore xs q ws × OneMore ws p zs
OneMore-swap p q xs ys zs (a, n, l, r, at, old, new) (b, m, l2, r2, at2, old2, new2) =
    let (ws, (i, j, e, d), (i2, j2, e2, d2)) =
      swap_parts (a, n) (b, m) l r l2 r2 (sym new ∙ old2) in
    (ws, (b, m, i, j, at2, old ∙ e, d), (a, n, i2, j2, at, e2, new2 ∙ d2))

-- Entering `p` at a free slot of a table without it and clearing it leaves the table as it was.
pub clear_slot-set :
    (table : List ℕ) (slot p : ℕ)
    → get_or table slot 0 ≡ 0
    → ((j : ℕ) → j < length table → get_or table j 0 ≢ p)
    → clear_slot (set table slot p) p ≡ table
unfolding clear_slot
clear_slot-set [] slot p free out = refl
clear_slot-set (x ∷ xs) zero p free out =
    let here : (p == p) ≡ true = ground arith in rw here (ap (λ z. z ∷ xs) (sym free))
clear_slot-set (x ∷ xs) (suc slot) p free out =
    let off : (x == p) ≡ false = ground (arith, out 0 (omega arith)) in
    rw off (ap (λ z. x ∷ z) (clear_slot-set xs slot p free (λ j low. out (suc j) (omega arith))))
