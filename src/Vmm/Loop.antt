-- ===== src/Vmm/Loop.antt =====
-- The loops over the entries of a table that is cloned.
use simple_os.Prelude.{
  ℕ, zero, suc, ◌+◌, ◌*◌, ◌/◌, ◌%◌, ◌≤◌, ◌<◌, ◌≡◌, ◌≢◌, refl, sym, ap, ◌∙◌, inl, inr, ◌==◌, ==_iff,
  if◌then◌else◌, Bool, true, false, arith, Bool-cases, Run, ok,
}
use simple_os.Pmm.{Pmm, store}
use simple_os.Pmm.View.{used}
use simple_os.Vmm.{entry, set_entry, page_of, is_present, clone_entries}
use simple_os.Vmm.Walk.{Extends, Extends-refl, Extends-trans, Fresh, set_entry-Extends, apart}
use simple_os.Vmm.Mirror.{
  MirrorEntry, KeepsNew, new_entry, HeldBelow, Held-Extends, Mirror-Extends, same_entry,
  is_present-eq,
}
use simple_os.Vmm.Clone.{Copy, ClonesEntry}

-- What is free later was free before.
unused : {p r : Pmm} → Extends p r → (j : ℕ) → used r.bitmap j ≡ false → used p.bitmap j ≡ false
unused {p} x j h = elim (Bool-cases (used p.bitmap j)) [ inl e ↦ cc (x.still j e) | inr e ↦ e ]

pub kept_fresh : {p r q : Pmm} {c : ℕ} → Extends r q → Fresh p r c → Fresh p q c
kept_fresh {c = c} y f = record {
  aligned = f.aligned;
  from_start = f.from_start;
  managed = f.managed;
  was_free = f.was_free;
  taken = y.still (c / 4096) f.taken;
}

pub written : {p r : Pmm} {c : ℕ} (i e : ℕ) → Fresh p r c → Fresh p (set_entry r c i e) c
written i e f = record {
  aligned = f.aligned;
  from_start = f.from_start;
  managed = f.managed;
  was_free = f.was_free;
  taken = f.taken;
}

-- The loop over a table's entries went from `r` to `q`, filling the entries of `c` from `i` on.
pub record Looped (p r q : Pmm) (c i : ℕ) : Type 0 where
  pub extends : Extends p q
  pub fresh : Fresh p q c
  pub still : (j : ℕ) → used r.bitmap j ≡ true → used q.bitmap j ≡ true
  pub others :
      (b : ℕ) → used r.bitmap (b / 4096) ≡ true → b / 4096 ≢ c / 4096 → q.memory b ≡ r.memory b
  pub below : (j : ℕ) → j < i → entry q.memory c j ≡ entry r.memory c j

-- The entries of `c` from `i` up to `n` copy those of `t`.
abbrev pub Filled : ℕ → Pmm → ℕ → Pmm → ℕ → ℕ → ℕ → Type 0
Filled k p t q c i n =
    (j : ℕ)
    → i ≤ j
    → j < n
    → (m : ℕ → ℕ) → KeepsNew p q m
    → MirrorEntry k p.memory (entry p.memory t j) m (entry m c j)

module _ (k : ℕ) (clone : ℕ → ℕ → Pmm → Run (ℕ × Pmm)) (spec : ClonesEntry k clone) (p : Pmm)
    (t c bound : ℕ) (small : bound ≤ 512) (held : HeldBelow bound k p t) where
  -- The entry at `i` is the clone that was made there.
  pub filled_here :
      {r q1 q : Pmm} (i c' n : ℕ)
      → i < bound
      → Extends p r
      → Fresh p r c
      → is_present (entry p.memory t i) ≡ true
      → c' % 4096 ≡ entry p.memory t i % 4096
      → Copy k r (page_of (entry p.memory t i)) q1 (page_of c')
      → Extends r q1
      → Looped p (set_entry q1 c i c') q c (i + 1)
      → (m : ℕ → ℕ) → KeepsNew p q m
      → MirrorEntry k p.memory (entry p.memory t i) m (entry m c i)
  filled_here {r} {q1} {q} i c' n l x f e flags d y loop m kept =
      let here : entry m c i ≡ c' =
        new_entry m c i loop.fresh kept (omega arith) ∙ loop.below i (omega arith) ∙ ground arith in
      let present : is_present c' ≡ is_present (entry p.memory t i) =
        is_present-eq c'
        ∙ (let low : c' % 2 ≡ entry p.memory t i % 2 = omega (arith, flags) in rw low refl)
        ∙ sym (is_present-eq (entry p.memory t i)) in
      let new : KeepsNew r q1 m = λ b free taken.
        (let off : b / 4096 ≢ c / 4096 =
            (λ o. apart r (c / 4096) (b / 4096) f.taken free (sym o)) in
          let before : used p.bitmap (b / 4096) ≡ false = unused x (b / 4096) free in
          let away : (c + 8 * i == b) ≡ false = ground (arith, off, f.aligned) in
          kept b before (loop.still (b / 4096) taken) ∙ loop.others b taken off ∙ rw away refl) in
      rw here (
        present,
        λ _. (
          flags,
          Mirror-Extends k (page_of (entry p.memory t i)) m (page_of c') x (held.2 i l e)
              (d.copied m new),
        ),
      )

  -- One round that writes `c'` at `i`, and the rounds after it.
  pub one_more :
      {r q1 q : Pmm} (i c' : ℕ)
      → i < bound
      → Fresh p r c
      → Extends r q1
      → Looped p (set_entry q1 c i c') q c (i + 1)
      → Looped p r q c i
  one_more {r} {q1} {q} i c' l f y loop = record {
    extends = loop.extends;
    fresh = loop.fresh;
    still = λ j h. loop.still j (y.still j h);
    others = λ b h off.
        (let away : (c + 8 * i == b) ≡ false = ground (arith, off, f.aligned) in
          loop.others b (y.still (b / 4096) h) off
          ∙ (let e : store q1.memory (c + 8 * i) c' b ≡ q1.memory b = rw away refl in e)
          ∙ y.same b h);
    below = λ j h.
        loop.below j (omega arith)
        ∙ (let e : store q1.memory (c + 8 * i) c' (c + 8 * j) ≡ entry q1.memory c j =
              ground arith in
            e)
        ∙ same_entry c j y f.aligned f.taken (omega arith);
  }

  next_entry : ℕ → ℕ → ℕ → Pmm → Bool → Run (Bool × Pmm)
  next_entry n i c' q zero_clone =
      if zero_clone then ok (false, q) else clone_entries clone n (i + 1) t c (set_entry q c i c')

  round_present :
      (n i e c' : ℕ) (r q1 : Pmm)
      → entry r.memory t i ≡ e
      → is_present e ≡ true
      → clone (page_of e) (e % 4096) r ≡ ok (c', q1)
      → clone_entries clone (suc n) i t c r ≡ next_entry n i c' q1 (c' == 0)
  unfolding clone_entries next_entry
  round_present n i e c' r q1 at here g = rw (at, here, g) refl

  round_absent :
      (n i e : ℕ) (r : Pmm)
      → entry r.memory t i ≡ e
      → is_present e ≡ false
      → clone_entries clone (suc n) i t c r ≡ clone_entries clone n (i + 1) t c (set_entry r c i 0)
  unfolding clone_entries
  round_absent n i e r at absent = rw (at, absent) refl

  pub fill_more :
      (q : Pmm) (i n : ℕ)
      → ((m : ℕ → ℕ) → KeepsNew p q m → MirrorEntry k p.memory (entry p.memory t i) m (entry m c i))
      → Filled k p t q c (i + 1) (i + 1 + n)
      → Filled k p t q c i (i + suc n)
  fill_more q i n here rest j lo hi m kept = elim (Bool-cases (j == i)) [
    | inl e ↦ let at = (==_iff j i).0 e in rw at (here m kept)
    | inr e ↦ rest j (ground arith) (omega arith) m kept
  ]

  filled_absent :
      (r : Pmm) {q : Pmm} (i : ℕ)
      → i < bound
      → is_present (entry p.memory t i) ≡ false
      → Looped p (set_entry r c i 0) q c (i + 1)
      → (m : ℕ → ℕ) → KeepsNew p q m
      → MirrorEntry k p.memory (entry p.memory t i) m (entry m c i)
  filled_absent r i l e loop m kept =
      let here : entry m c i ≡ 0 =
        new_entry m c i loop.fresh kept (omega arith) ∙ loop.below i (omega arith) ∙ ground arith in
      rw here (sym e, λ y. cc)

  pub clone_entries_lem :
      (n i : ℕ) (r : Pmm)
      → Extends p r
      → Fresh p r c
      → i + n ≤ bound
      → (done : Bool) × (q : Pmm) × (clone_entries clone n i t c r ≡ ok (done, q))
        × Looped p r q c i
        × (done ≡ true → Filled k p t q c i (i + n))
        × (done ≡ false → q.free_pages ≤ k)
  unfolding clone_entries next_entry
  clone_entries_lem zero i r x f h = (
    true,
    r,
    refl,
    record {
      extends = x;
      fresh = f;
      still = λ j h. h;
      others = λ b h off. refl;
      below = λ j h. refl;
    },
    λ _. λ j lo hi. absurd (omega arith),
    λ no_way. cc,
  )
  clone_entries_lem (suc n) i r x f h =
      let e : entry r.memory t i ≡ entry p.memory t i =
        same_entry t i x held.0 held.1 (omega arith) in
      elim (Bool-cases (is_present (entry p.memory t i))) [
        | inl here ↦
            let (c', q1, g, y, res) =
              spec (page_of (entry p.memory t i)) (entry p.memory t i % 4096) r x.valid
                (omega arith)
                (Held-Extends k (page_of (entry p.memory t i)) x (held.2 i (omega arith) here)) in
            elim res [
              | inl (z, few) ↦ (
                false,
                q1,
                round_present n i (entry p.memory t i) c' r q1 e here g
                    ∙ ap (next_entry n i c' q1) (ap (λ y. y == 0) z),
                record {
                  extends = Extends-trans x y;
                  fresh = kept_fresh y f;
                  still = y.still;
                  others = λ b u off. y.same b u;
                  below = λ j u. same_entry c j y f.aligned f.taken (omega arith);
                },
                λ no_way. cc,
                λ _. few,
              )
              | inr (nz, flags, d) ↦
                  let f1 = kept_fresh y f in
                  let x2 = set_entry-Extends c i c' (Extends-trans x y) f1 (omega arith) in
                  let (done, q, g2, loop, fill, short) =
                    clone_entries_lem n (i + 1) (set_entry q1 c i c') x2 (written i c' f1)
                      (omega arith) in
                  (
                    done,
                    q,
                    round_present n i (entry p.memory t i) c' r q1 e here g
                        ∙ ap (next_entry n i c' q1) nz
                        ∙ g2,
                    one_more i c' (omega arith) f y loop,
                    λ e2.
                        fill_more q i n (filled_here i c' n (omega arith) x f here flags d y loop)
                          (fill e2),
                    short,
                  )
            ]
        | inr absent ↦
            let x2 = set_entry-Extends c i 0 x f (omega arith) in
            let (done, q, g2, loop, fill, short) =
              clone_entries_lem n (i + 1) (set_entry r c i 0) x2 (written i 0 f) (omega arith) in
            (
              done,
              q,
              round_absent n i (entry p.memory t i) r e absent ∙ g2,
              one_more i 0 (omega arith) f (Extends-refl x.valid) loop,
              λ e2. fill_more q i n (filled_absent r i (omega arith) absent loop) (fill e2),
              short,
            )
      ]
