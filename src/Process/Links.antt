-- ===== src/Process/Links.antt =====
-- Doubly linked segments of control blocks.
use simple_os.Prelude.{ℕ, ◌≡◌, ◌≢◌, refl, ◌∙◌, sym, subst, ◌⊎◌, inl, inr, List, [], ◌∷◌, ◌++◌}
use simple_os.Process.{Process}

abbrev pub In : ℕ → List ℕ → Type 0
In y [] = ⊥
In y (x ∷ xs) = (y ≡ x) ⊎ In y xs

abbrev pub Distinct : List ℕ → Type 0
Distinct [] = Unit
Distinct (x ∷ xs) = (¬ In x xs) × Distinct xs

-- The address at the front of a segment that `n` follows, and at the back of one that `p` precedes.
abbrev pub head_of : List ℕ → ℕ → ℕ
head_of [] n = n
head_of (x ∷ xs) n = x

abbrev pub last_of : ℕ → List ℕ → ℕ
last_of p [] = p
last_of p (x ∷ xs) = last_of x xs

-- The blocks of the list are linked both ways, between `p` in front and `n` behind.
abbrev pub Seg : (ℕ → Process) → ℕ → ℕ → List ℕ → Type 0
Seg f p n [] = Unit
Seg f p n (x ∷ xs) = (x ≢ 0) × ((f x).prev ≡ p) × ((f x).next ≡ head_of xs n) × Seg f x n xs

pub In-append_left : (y : ℕ) (xs ys : List ℕ) → In y xs → In y (xs ++ ys)
In-append_left y [] ys h = absurd h
In-append_left y (x ∷ xs) ys (inl e) = inl e
In-append_left y (x ∷ xs) ys (inr h) = inr (In-append_left y xs ys h)

pub In-append_right : (y : ℕ) (xs ys : List ℕ) → In y ys → In y (xs ++ ys)
In-append_right y [] ys h = h
In-append_right y (x ∷ xs) ys h = inr (In-append_right y xs ys h)

pub In-append : (y : ℕ) (xs ys : List ℕ) → In y (xs ++ ys) → In y xs ⊎ In y ys
In-append y [] ys h = inr h
In-append y (x ∷ xs) ys (inl e) = inl (inl e)
In-append y (x ∷ xs) ys (inr h) = elim (In-append y xs ys h) [ inl a ↦ inl (inr a) | inr b ↦ inr b ]

-- The two parts of a distinct list share nothing, and each is distinct.
pub Distinct-parts :
    (xs ys : List ℕ)
    → Distinct (xs ++ ys)
    → Distinct xs × Distinct ys × ((y : ℕ) → In y xs → ¬ In y ys)
Distinct-parts [] ys d = (tt, d, λ y h. absurd h)
Distinct-parts (x ∷ xs) ys d =
    let (dx, dy, apart) = Distinct-parts xs ys d.1 in
    ((λ h. d.0 (In-append_left x xs ys h), dx), dy, split apart)
  where
    split : ((y : ℕ) → In y xs → ¬ In y ys) → (y : ℕ) → In y (x ∷ xs) → ¬ In y ys
    split apart y (inl e) h = d.0 (In-append_right x xs ys (rw (sym e) h))
    split apart y (inr i) h = apart y i h

pub Distinct-append :
    (xs ys : List ℕ)
    → Distinct xs
    → Distinct ys
    → ((y : ℕ) → In y xs → ¬ In y ys)
    → Distinct (xs ++ ys)
Distinct-append [] ys dx dy apart = dy
Distinct-append (x ∷ xs) ys dx dy apart =
    (fresh, Distinct-append xs ys dx.1 dy (λ y h. apart y (inr h)))
  where
    fresh : ¬ In x (xs ++ ys)
    fresh h = elim (In-append x xs ys h) [ inl a ↦ dx.0 a | inr b ↦ apart x (inl refl) b ]

pub last_of-In : (x : ℕ) (xs : List ℕ) → In (last_of x xs) (x ∷ xs)
last_of-In x [] = inl refl
last_of-In x (y ∷ xs) = inr (last_of-In y xs)

pub Seg-nonzero :
    (f : ℕ → Process) (p n : ℕ) (xs : List ℕ) → Seg f p n xs → (y : ℕ) → In y xs → y ≢ 0
Seg-nonzero f p n [] s y h = absurd h
Seg-nonzero f p n (x ∷ xs) s y (inl e) = rw e s.0
Seg-nonzero f p n (x ∷ xs) s y (inr h) = Seg-nonzero f x n xs s.3 y h

pub head_of-append : (xs ys : List ℕ) (n : ℕ) → head_of (xs ++ ys) n ≡ head_of xs (head_of ys n)
head_of-append [] ys n = refl
head_of-append (x ∷ xs) ys n = refl

pub last_of-append : (p : ℕ) (xs ys : List ℕ) → last_of p (xs ++ ys) ≡ last_of (last_of p xs) ys
last_of-append p [] ys = refl
last_of-append p (x ∷ xs) ys = last_of-append x xs ys

pub Seg-split :
    (f : ℕ → Process) (p n : ℕ) (xs ys : List ℕ)
    → Seg f p n (xs ++ ys)
    → Seg f p (head_of ys n) xs × Seg f (last_of p xs) n ys
Seg-split f p n [] ys s = (tt, s)
Seg-split f p n (x ∷ xs) ys s =
    let (a, b) = Seg-split f x n xs ys s.3 in ((s.0, s.1, s.2 ∙ head_of-append xs ys n, a), b)

pub Seg-append :
    (f : ℕ → Process) (p n : ℕ) (xs ys : List ℕ)
    → Seg f p (head_of ys n) xs
    → Seg f (last_of p xs) n ys
    → Seg f p n (xs ++ ys)
Seg-append f p n [] ys s t = t
Seg-append f p n (x ∷ xs) ys s t =
    (s.0, s.1, s.2 ∙ sym (head_of-append xs ys n), Seg-append f x n xs ys s.3 t)

-- The segment in a changed store in which only the last block has another successor.
pub Seg-relink :
    (f g : ℕ → Process) (p n m : ℕ) (xs : List ℕ)
    → Distinct xs
    → Seg f p n xs
    → ((y : ℕ) → In y xs → (g y).prev ≡ (f y).prev)
    → ((y : ℕ) → In y xs → y ≢ last_of p xs → (g y).next ≡ (f y).next)
    → (In (last_of p xs) xs → (g (last_of p xs)).next ≡ m)
    → Seg g p m xs
Seg-relink f g p n m [] d s prevs nexts end = tt
Seg-relink f g p n m (x ∷ []) d s prevs nexts end =
    (s.0, prevs x (inl refl) ∙ s.1, end (inl refl), tt)
Seg-relink f g p n m (x ∷ y ∷ xs) d s prevs nexts end = (
  s.0,
  prevs x (inl refl) ∙ s.1,
  nexts x (inl refl) (λ e. d.0 (subst (λ z. In z (y ∷ xs)) (sym e) (last_of-In y xs))) ∙ s.2,
  Seg-relink f g x n m (y ∷ xs) d.1 s.3 (λ z h. prevs z (inr h)) (λ z h. nexts z (inr h))
      (λ h. end (inr h)),
)

-- The segment in a changed store in which only the first block has another predecessor.
pub Seg-reprev :
    (f g : ℕ → Process) (p q n : ℕ) (xs : List ℕ)
    → Distinct xs
    → Seg f p n xs
    → ((y : ℕ) → In y xs → (g y).next ≡ (f y).next)
    → ((y : ℕ) → In y xs → y ≢ head_of xs n → (g y).prev ≡ (f y).prev)
    → (In (head_of xs n) xs → (g (head_of xs n)).prev ≡ q)
    → Seg g q n xs
Seg-reprev f g p q n [] d s nexts prevs start = tt
Seg-reprev f g p q n (x ∷ xs) d s nexts prevs start = (
  s.0,
  start (inl refl),
  nexts x (inl refl) ∙ s.2,
  Seg-relink f g x n n xs d.1 s.3 (λ y h. prevs y (inr h) (λ e. d.0 (rw (sym e) h)))
      (λ y h _. nexts y (inr h)) (λ h. nexts _ (inr h) ∙ last_next f x n xs s.3 h),
)
  where
    last_next :
        (f : ℕ → Process) (p n : ℕ) (xs : List ℕ)
        → Seg f p n xs
        → In (last_of p xs) xs
        → (f (last_of p xs)).next ≡ n
    last_next f p n [] s h = absurd h
    last_next f p n (x ∷ []) s h = s.2
    last_next f p n (x ∷ y ∷ xs) s h = last_next f x n (y ∷ xs) s.3 (last_of-In y xs)
