-- ===== src/Lifecycle/Fresh.antt =====
-- What `process_create` relies on of the heap and of the process table.
use simple_os.Prelude.{
  ℕ, zero, suc, ◌+◌, ◌-◌, ◌≤◌, ◌<◌, ◌≡◌, ◌≢◌, refl, sym, subst, ◌⊎◌, inl, inr, ◌==◌, Bool-cases,
  Bool, true, false, List, ◌∷◌, ◌++◌, if◌then◌else◌, [], get_or, Option, none, some, arith, ok,
  panic,
}
use simple_os.Kmalloc.Tiles.{after, used}
use simple_os.Kmalloc.{Block, heap_start, Heap, header_size, started, kmalloc, kfree}
use simple_os.Kmalloc.Alloc.{IsHeap, kmalloc_lem}
use simple_os.Kmalloc.Free.{kfree_lem}
use simple_os.Lifecycle.{find_slot, is_null}

-- `ptr` is the data of one block more, in `xs'`, than is in use in `xs`.
abbrev pub OneMore : List (ℕ × ℕ) → ℕ → List (ℕ × ℕ) → Type 0
OneMore xs ptr xs' =
    (p : ℕ) × (n : ℕ) × (ys : List (ℕ × ℕ)) × (zs : List (ℕ × ℕ)) × (ptr ≡ p + header_size)
    × (xs ≡ ys ++ zs)
    × (xs' ≡ ys ++ (p, n) ∷ zs)

-- `kmalloc` of a heap in order panics or takes one block more, which was free.
pub kmalloc_more :
    (h : Heap) (size : ℕ) (xs : List (ℕ × ℕ))
    → IsHeap (started h) xs
    → (kmalloc h size ≡ panic)
      ⊎ ((ptr : ℕ) × (q : Heap) × (xs' : List (ℕ × ℕ)) × (kmalloc h size ≡ ok (ptr, q))
          × ((ptr == 0) ≡ false)
          × OneMore xs ptr xs'
          × (((started h).block (ptr - header_size)).free ≡ true)
          × IsHeap q xs'
          × IsHeap (started q) xs')
kmalloc_more h size xs v = elim (kmalloc_lem h size xs v) [
  | inl (e, _) ↦ inl e
  | inr (p, q, ys, zs, e, fits, old, _, w) ↦
      let at : p + header_size - header_size ≡ p = omega arith in
      let same : started q ≡ q = rw w.initialized refl in
      inr (
        p + header_size,
        q,
        ys ++ (p, (q.block p).size) ∷ zs,
        e,
        ground arith,
        (p, (q.block p).size, ys, zs, refl, old, refl),
        rw at fits.is_free,
        w,
        subst (λ g. IsHeap g (ys ++ (p, (q.block p).size) ∷ zs)) (sym same) w,
      )
]

-- The block of `kmalloc_more` can be given back.
pub kfree_more :
    (h : Heap) (ptr : ℕ) (xs xs' : List (ℕ × ℕ))
    → OneMore xs ptr xs'
    → IsHeap h xs'
    → (q : Heap) × (kfree h ptr ≡ ok q) × IsHeap q xs
kfree_more h ptr xs xs' (p, n, ys, zs, at, old, new) v =
    let (q, e, w, _, _) = kfree_lem h ys zs p n (subst (IsHeap h) new v) in
    (q, rw at e, subst (IsHeap q) (sym old) w)

-- `ptr` is the data of a block in use.
abbrev pub Holds : ℕ → List (ℕ × ℕ) → Type 0
Holds ptr [] = ⊥
Holds ptr (x ∷ xs) = (ptr ≡ x.0 + header_size) ⊎ Holds ptr xs

Holds-first :
    (f : ℕ → Block) (rest : List (ℕ × ℕ)) (a ptr : ℕ) (b : Bool)
    → (f a).free ≡ b
    → (Holds ptr rest → (f (ptr - header_size)).free ≡ false)
    → Holds ptr (if b then rest else (a, (f a).size) ∷ rest)
    → (f (ptr - header_size)).free ≡ false
Holds-first f rest a ptr true e later h = later h
Holds-first f rest a ptr false e later (inl at) =
    let back : ptr - header_size ≡ a = omega (arith, at) in rw back e
Holds-first f rest a ptr false e later (inr k) = later k

Holds-used :
    (f : ℕ → Block) (n a ptr : ℕ) → Holds ptr (used f n a) → (f (ptr - header_size)).free ≡ false
Holds-used f zero a ptr h = absurd h
Holds-used f (suc n) a ptr h =
    Holds-first f (used f n (after f a)) a ptr (f a).free refl
      (λ k. Holds-used f n (after f a) ptr k) h

-- A block that was free is not one of those in use.
pub Holds-apart :
    (h : Heap) (xs : List (ℕ × ℕ)) (ptr p : ℕ)
    → IsHeap h xs
    → (h.block (ptr - header_size)).free ≡ true
    → Holds p xs
    → ptr ≢ p
Holds-apart h xs ptr p v was_free k e =
    let taken = Holds-used h.block v.blocks heap_start p (subst (Holds p) (sym v.in_use) k) in
    let free : (h.block (p - header_size)).free ≡ true =
      subst (λ x. (h.block (x - header_size)).free ≡ true) e was_free in
    ground (arith, taken, free)

Holds-insert :
    (p : ℕ) (x : ℕ × ℕ) (ys zs : List (ℕ × ℕ)) → Holds p (ys ++ zs) → Holds p (ys ++ x ∷ zs)
Holds-insert p x [] zs h = inr h
Holds-insert p x (y ∷ ys) zs (inl e) = inl e
Holds-insert p x (y ∷ ys) zs (inr h) = inr (Holds-insert p x ys zs h)

pub OneMore-Holds :
    (p ptr : ℕ) (xs xs' : List (ℕ × ℕ)) → OneMore xs ptr xs' → Holds p xs → Holds p xs'
OneMore-Holds p ptr xs xs' (q, n, ys, zs, at, old, new) h =
    subst (Holds p) (sym new) (Holds-insert p (q, n) ys zs (subst (Holds p) old h))

-- The first slot from `i` on, of `n`, that is free, or that there is none.
abbrev pub FindsSlot : List ℕ → ℕ → ℕ → Option ℕ → Type 0
FindsSlot table n i none = (j : ℕ) → i ≤ j → j < i + n → get_or table j 0 ≢ 0
FindsSlot table n i (some k) =
    (i ≤ k)
    × (k < i + n)
    × (get_or table k 0 ≡ 0)
    × ((j : ℕ) → i ≤ j → j < k → get_or table j 0 ≢ 0)

from_next :
    (table : List ℕ) (n i : ℕ) (o : Option ℕ)
    → get_or table i 0 ≢ 0
    → FindsSlot table n (i + 1) o
    → FindsSlot table (suc n) i o
from_next table n i none e h = λ j a b. elim (Bool-cases (j == i)) [
  | inl s ↦ (let same : j ≡ i = ground (arith, s) in rw same e)
  | inr s ↦ h j (ground (arith, s)) (omega arith)
]
from_next table n i (some k) e h = (
  omega arith,
  omega arith,
  h.2,
  λ j a b. elim (Bool-cases (j == i)) [
    | inl s ↦ (let same : j ≡ i = ground (arith, s) in rw same e)
    | inr s ↦ h.3 j (ground (arith, s)) b
  ],
)

pub find_slot_lem : (table : List ℕ) (n i : ℕ) → FindsSlot table n i (find_slot table n i)
unfolding find_slot
find_slot_lem table zero i = λ j a b. absurd (omega arith)
find_slot_lem table (suc n) i = elim (Bool-cases (is_null (get_or table i 0))) [
  | inl e ↦ rw e (omega arith, omega arith, ground (arith, e), λ j a b. absurd (omega arith))
  | inr e ↦ rw e (
      from_next table n i (find_slot table n (i + 1)) (ground (arith, e))
        (find_slot_lem table n (i + 1)))
]
