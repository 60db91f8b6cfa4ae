-- ===== src/Vmm/Descend.antt =====
-- The way down from a table: which tables it passes, and what `vmm_get_or_create_table` makes of it.
use simple_os.Prelude.{
  In, Away, Away-In, ℕ, ◌+◌, ◌*◌, ◌/◌, ◌%◌, ◌^◌, ◌<◌, ◌≡◌, ◌≢◌, refl, sym, ap, ◌∙◌, ◌⊎◌, inl, inr,
  ◌==◌, if◌then◌else◌, true, false, List, [], ◌∷◌, arith, Bool-cases, Run, ok, ◌>>=◌, bit_or,
  bit_or_low, bit_or-one,
}
use simple_os.Pmm.{Pmm, store, alloc_page}
use simple_os.Pmm.View.{used}
use simple_os.Pmm.Inv.{IsValid}
use simple_os.Vmm.{entry, set_entry, page_of, is_present, page_present, get_or_create_table}
use simple_os.Vmm.Walk.{Extends, alloc_fresh, memory-IsValid}
use simple_os.Vmm.Mirror.{is_present-eq, same_entry}

-- A page of the page allocator that is in use.
abbrev pub IsTable : Pmm → ℕ → Type 0
IsTable p t = (t ≢ 0) × (t % 4096 ≡ 0) × (used p.bitmap (t / 4096) ≡ true)

-- The tables that the indices lead through from `t`, as far as they are there, are pages in use,
-- and none is met twice or is among `seen`.
abbrev pub PathDown : Pmm → List ℕ → ℕ → List ℕ → Type 0
PathDown p seen t [] = IsTable p t × Away t seen
PathDown p seen t (i ∷ is) =
    IsTable p t
    × Away t seen
    × (is_present (entry p.memory t i) ≡ true
        → PathDown p (t ∷ seen) (page_of (entry p.memory t i)) is)

abbrev pub Indices : List ℕ → Type 0
Indices [] = Unit
Indices (i ∷ is) = (i < 512) × Indices is

abbrev pub Tables : Pmm → List ℕ → Type 0
Tables p [] = Unit
Tables p (s ∷ ss) = IsTable p s × Tables p ss

-- The indices lead from `t` to `pt`, which is not on the way.
abbrev pub Steps : (ℕ → ℕ) → ℕ → List ℕ → ℕ → Type 0
Steps m t [] pt = t ≡ pt
Steps m t (i ∷ is) pt =
    (is_present (entry m t i) ≡ true)
    × (t % 4096 ≡ 0)
    × (t ≢ pt)
    × (i < 512)
    × Steps m (page_of (entry m t i)) is pt

-- A write to the last table leaves the way there as it is.
pub Steps-store :
    (m : ℕ → ℕ) (t : ℕ) (is : List ℕ) (pt idx v : ℕ)
    → pt % 4096 ≡ 0
    → idx < 512
    → Steps m t is pt
    → Steps (store m (pt + 8 * idx) v) t is pt
Steps-store m t [] pt idx v a l s = s
Steps-store m t (i ∷ is) pt idx v a l s =
    let other : (pt + 8 * idx == t + 8 * i) ≡ false = ground (arith, s.1, s.2, s.3) in
    rw other (s.0, s.1, s.2, s.3, Steps-store m (page_of (entry m t i)) is pt idx v a l s.4)

-- The entry for a new table.
pub created_entry :
    (t flags : ℕ)
    → t % 4096 ≡ 0
    → flags < 4096
    → (is_present (bit_or (bit_or (page_of t) flags) page_present) ≡ true)
      × (page_of (bit_or (bit_or (page_of t) flags) page_present) ≡ t)
created_entry t flags a h =
    let low : bit_or (t / 4096 * 2 ^ 12) flags ≡ t / 4096 * 2 ^ 12 + flags =
      bit_or_low 12 (t / 4096) flags h in
    let one = bit_or-one (t / 4096 * 2 ^ 12 + flags) in
    let e : bit_or (bit_or (page_of t) flags) page_present ≡ (t / 4096 * 4096 + flags) / 2 * 2 + 1 =
      ap (λ x. bit_or x 1) low ∙ one in
    rw e (is_present-eq _ ∙ ground arith, omega arith)

-- The chain of calls in `vmm_map_page`, for any number of levels.
unfoldable pub descend : ℕ → Pmm → ℕ → List ℕ → Run (ℕ × Pmm)
descend flags p t [] = ok (t, p)
descend flags p t (i ∷ is) =
    get_or_create_table p t i flags >>= λ (n, q). if n == 0 then ok (0, q) else descend flags q n is

-- The way down has come to `n` in `q`, or stopped there with no page left.
pub record Descended (p q : Pmm) (seen : List ℕ) (t : ℕ) (is : List ℕ) (n : ℕ) : Type 0 where
  pub valid : IsValid q
  pub kept : (s i : ℕ) → In s seen → i < 512 → entry q.memory s i ≡ entry p.memory s i
  pub arrived :
      ((n ≡ 0) × (alloc_page q ≡ ok (0, q))) ⊎ (IsTable q n × Away n seen × Steps q.memory t is n)

pub PathDown-IsTable :
    (p : Pmm) (seen : List ℕ) (t : ℕ) (is : List ℕ)
    → PathDown p seen t is
    → IsTable p t × Away t seen
PathDown-IsTable p seen t [] h = h
PathDown-IsTable p seen t (i ∷ is) h = (h.0, h.1)

Tables-In : (p : Pmm) (s : ℕ) (ss : List ℕ) → Tables p ss → In s ss → IsTable p s
Tables-In p s [] a h = absurd h
Tables-In p s (x ∷ ss) a (inl e) = rw e a.0
Tables-In p s (x ∷ ss) a (inr h) = Tables-In p s ss a.1 h

Tables-still :
    (p q : Pmm) (ss : List ℕ)
    → ((j : ℕ) → used p.bitmap j ≡ true → used q.bitmap j ≡ true)
    → Tables p ss
    → Tables q ss
Tables-still p q [] still h = tt
Tables-still p q (s ∷ ss) still h =
    ((h.0.0, h.0.1, still (s / 4096) h.0.2), Tables-still p q ss still h.1)

-- A free page is none of the tables in use.
Away-free :
    (p : Pmm) (t : ℕ) (ss : List ℕ) → Tables p ss → used p.bitmap (t / 4096) ≡ false → Away t ss
Away-free p t [] h f = tt
Away-free p t (s ∷ ss) h f =
    (λ e. cc (h.0.2, ap (λ x. used p.bitmap (x / 4096)) e), Away-free p t ss h.1 f)

-- Nothing lies below an empty table.
PathDown-empty :
    (p : Pmm) (seen : List ℕ) (t : ℕ) (is : List ℕ)
    → IsTable p t
    → Away t seen
    → Indices is
    → ((i : ℕ) → i < 512 → entry p.memory t i ≡ 0)
    → PathDown p seen t is
PathDown-empty p seen t [] v a l z = (v, a)
PathDown-empty p seen t (i ∷ is) v a l z = (v, a, λ e. cc (e, ap is_present (z i l.0)))

descend-present :
    (flags : ℕ) (p : Pmm) (t i : ℕ) (is : List ℕ)
    → is_present (entry p.memory t i) ≡ true
    → (page_of (entry p.memory t i) == 0) ≡ false
    → descend flags p t (i ∷ is) ≡ descend flags p (page_of (entry p.memory t i)) is
unfolding descend get_or_create_table
descend-present flags p t i is e nz = rw (e, nz) refl

descend-full :
    (flags : ℕ) (p : Pmm) (t i : ℕ) (is : List ℕ)
    → is_present (entry p.memory t i) ≡ false
    → alloc_page p ≡ ok (0, p)
    → descend flags p t (i ∷ is) ≡ ok (0, p)
unfolding descend get_or_create_table
descend-full flags p t i is e a = rw (e, a) refl

-- The entry that is written for a new table.
abbrev created : ℕ → ℕ → ℕ
created n flags = bit_or (bit_or (page_of n) flags) page_present

descend-created :
    (flags : ℕ) (p : Pmm) (t i n : ℕ) (q : Pmm) (is : List ℕ)
    → is_present (entry p.memory t i) ≡ false
    → alloc_page p ≡ ok (n, q)
    → (n == 0) ≡ false
    → descend flags p t (i ∷ is) ≡ descend flags (set_entry q t i (created n flags)) n is
unfolding descend get_or_create_table
descend-created flags p t i n q is e a nz =
    let r = set_entry q t i (created n flags) in
    let on : (if n == 0 then ok (0, r) else descend flags r n is) ≡ descend flags r n is =
      rw nz refl in
    rw (e, a, nz) on

-- A new table and its entry leave the tables of the way as they are.
kept_beside :
    {p q : Pmm} (seen : List ℕ) (t i e s j : ℕ)
    → Tables p seen
    → t % 4096 ≡ 0
    → t ≢ s
    → i < 512
    → Extends p q
    → In s seen
    → j < 512
    → entry (set_entry q t i e).memory s j ≡ entry p.memory s j
kept_beside {p} {q} seen t i e s j tabs a off l x k u =
    let v = Tables-In p s seen tabs k in
    let no : (t + 8 * i == s + 8 * j) ≡ false = ground (arith, off, a, v.1, l, u) in
    rw no (same_entry s j x v.1 v.2 u)

pub descend_lem :
    (flags : ℕ) (is : List ℕ) (p : Pmm) (seen : List ℕ) (t : ℕ)
    → IsValid p
    → flags < 4096
    → Indices is
    → Tables p seen
    → PathDown p seen t is
    → (n : ℕ) × (q : Pmm) × (descend flags p t is ≡ ok (n, q)) × Descended p q seen t is n
unfolding descend
descend_lem flags [] p seen t v fl l tabs h =
    (t, p, refl, record { valid = v; kept = λ s i k u. refl; arrived = inr (h.0, h.1, refl) })
descend_lem flags (i ∷ is) p seen t v fl l tabs h =
    elim (Bool-cases (is_present (entry p.memory t i))) [
      | inl e ↦
          let n1 = page_of (entry p.memory t i) in
          let below = h.2 e in
          let table = PathDown-IsTable p (t ∷ seen) n1 is below in
          let nz : (n1 == 0) ≡ false = ground (arith, table.0.0) in
          let (n, q, g, d) = descend_lem flags is p (t ∷ seen) n1 v fl l.1 (h.0, tabs) below in
          (
            n,
            q,
            descend-present flags p t i is e nz ∙ g,
            record {
              valid = d.valid;
              kept = λ s j k u. d.kept s j (inr k) u;
              arrived = elim d.arrived [
                | inl z ↦ inl z
                | inr (w, a, st) ↦
                    let here = d.kept t i (inl refl) l.0 in
                    inr (w, a.1, rw here (e, h.0.1, (λ x. a.0 (sym x)), l.0, st))
              ];
            },
          )
      | inr e ↦ elim (alloc_fresh v) [
        | inl (a, _) ↦ (
          0,
          p,
          descend-full flags p t i is e a,
          record { valid = v; kept = λ s i k u. refl; arrived = inl (refl, a) },
        )
        | inr (n1, q, a, nz, x, f, z) ↦
            let q1 : Pmm = set_entry q t i (created n1 flags) in
            let still : (j : ℕ) → used p.bitmap j ≡ true → used q1.bitmap j ≡ true = x.still in
            let off : t ≢ n1 =
              (λ y. cc (h.0.2, f.was_free, ap (λ w. used p.bitmap (w / 4096)) y)) in
            let table : IsTable q1 n1 = (ground (arith, nz), f.aligned, f.taken) in
            let empty : (j : ℕ) → j < 512 → entry q1.memory n1 j ≡ 0 = λ j u.
              let no : (t + 8 * i == n1 + 8 * j) ≡ false =
                ground (arith, off, h.0.1, f.aligned, l.0, u) in
              rw no (z j u) in
            let below =
              PathDown-empty q1 (t ∷ seen) n1 is table
                ((λ y. off (sym y)), Away-free p n1 seen tabs f.was_free) l.1 empty in
            let tabs1 = Tables-still p q1 (t ∷ seen) still (h.0, tabs) in
            let (n, r, g, d) =
              descend_lem flags is q1 (t ∷ seen) n1 (memory-IsValid q1.memory x.valid) fl l.1 tabs1
                below in
            (
              n,
              r,
              descend-created flags p t i n1 q is e a nz ∙ g,
              record {
                valid = d.valid;
                kept = λ s j k u.
                    d.kept s j (inr k) u
                    ∙ kept_beside seen t i _ s j tabs h.0.1 (Away-In t s seen h.1 k) l.0 x k u;
                arrived = elim d.arrived [
                  | inl z ↦ inl z
                  | inr (w, a, st) ↦
                      let (present, leads) = created_entry n1 flags f.aligned fl in
                      let here : entry r.memory t i ≡ created n1 flags =
                        d.kept t i (inl refl) l.0 ∙ ground arith in
                      inr (w, a.1, rw (here, leads) (present, h.0.1, (λ x. a.0 (sym x)), l.0, st))
                ];
              },
            )
      ]
    ]
