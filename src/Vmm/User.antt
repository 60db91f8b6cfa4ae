-- ===== src/Vmm/User.antt =====
-- The loop of `vmm_clone_address_space` over the user half.
use simple_os.Prelude.{
  ℕ, zero, suc, ◌+◌, ◌%◌, ◌≤◌, ◌<◌, ◌≡◌, refl, sym, ap, ◌∙◌, inl, inr, ◌==◌, if◌then◌else◌, Bool,
  true, false, arith, Bool-cases, Run, ok,
}
use simple_os.Pmm.{Pmm}
use simple_os.Vmm.{entry, set_entry, page_of, is_present, with_flags, clone_pdpt, clone_user}
use simple_os.Vmm.Walk.{Extends, Extends-trans, Fresh, set_entry-Extends}
use simple_os.Vmm.Mirror.{HeldBelow, MirrorEntry, KeepsNew, new_entry, Held-Extends, same_entry}
use simple_os.Vmm.Loop.{Looped, Filled, filled_here, one_more, fill_more, kept_fresh, written}
use simple_os.Vmm.Fork.{clone_pdpt-ClonesEntry}

next_user : ℕ → ℕ → ℕ → ℕ → ℕ → Pmm → Bool → Run (Bool × Pmm)
next_user n i t c c' q zero_clone =
    if zero_clone then ok (false, q) else clone_user n (i + 1) t c (set_entry q c i c')

round_present :
    (n i t c e c' : ℕ) (r q1 : Pmm)
    → entry r.memory t i ≡ e
    → is_present e ≡ true
    → with_flags clone_pdpt (page_of e) (e % 4096) r ≡ ok (c', q1)
    → clone_user (suc n) i t c r ≡ next_user n i t c c' q1 (c' == 0)
unfolding clone_user next_user
round_present n i t c e c' r q1 at here g = rw (at, here, g) refl

round_absent :
    (n i t c e : ℕ) (r : Pmm)
    → entry r.memory t i ≡ e
    → is_present e ≡ false
    → clone_user (suc n) i t c r ≡ clone_user n (i + 1) t c r
unfolding clone_user
round_absent n i t c e r at absent = rw (at, absent) refl

module _ (p : Pmm) (t c : ℕ) (held : HeldBelow 256 3 p t) where
  absent_here :
      {r q : Pmm} (i : ℕ)
      → i < 256
      → is_present (entry p.memory t i) ≡ false
      → entry r.memory c i ≡ 0
      → Looped p r q c (i + 1)
      → (m : ℕ → ℕ) → KeepsNew p q m
      → MirrorEntry 3 p.memory (entry p.memory t i) m (entry m c i)
  absent_here i l e z loop m kept =
      let here : entry m c i ≡ 0 =
        new_entry m c i loop.fresh kept (omega arith) ∙ loop.below i (omega arith) ∙ z in
      rw here (sym e, λ y. cc)

  -- The entries of `c` from `e` on stay.
  abbrev pub Above : Pmm → Pmm → ℕ → Type 0
  Above r q e = (j : ℕ) → e ≤ j → j < 512 → entry q.memory c j ≡ entry r.memory c j

  pub clone_user_lem :
      (n i : ℕ) (r : Pmm)
      → Extends p r
      → Fresh p r c
      → i + n ≤ 256
      → ((j : ℕ) → i ≤ j → j < i + n → entry r.memory c j ≡ 0)
      → (done : Bool) × (q : Pmm) × (clone_user n i t c r ≡ ok (done, q))
        × Looped p r q c i
        × Above r q (i + n)
        × (done ≡ true → Filled 3 p t q c i (i + n))
        × (done ≡ false → q.free_pages ≤ 3)
  unfolding clone_user next_user
  clone_user_lem zero i r x f h z = (
    true,
    r,
    refl,
    record {
      extends = x;
      fresh = f;
      still = λ j h. h;
      others = λ b h off. refl;
      below = λ j h. refl;
    },
    λ j lo hi. refl,
    λ _. λ j lo hi. absurd (omega arith),
    λ no_way. cc,
  )
  clone_user_lem (suc n) i r x f h z =
      let e : entry r.memory t i ≡ entry p.memory t i =
        same_entry t i x held.0 held.1 (omega arith) in
      let add : i + suc n ≡ i + 1 + n = omega arith in
      elim (Bool-cases (is_present (entry p.memory t i))) [
        | inl here ↦
            let (c', q1, g, y, res) =
              clone_pdpt-ClonesEntry (page_of (entry p.memory t i)) (entry p.memory t i % 4096) r
                x.valid (omega arith)
                (Held-Extends 3 (page_of (entry p.memory t i)) x (held.2 i (omega arith) here)) in
            let f1 = kept_fresh y f in
            let made = round_present n i t c (entry p.memory t i) c' r q1 e here g in
            let kept : (j : ℕ) → j < 512 → entry q1.memory c j ≡ entry r.memory c j =
              λ j u. same_entry c j y f.aligned f.taken u in
            elim res [
              | inl (failed, few) ↦ (
                false,
                q1,
                made ∙ ap (next_user n i t c c' q1) (ap (λ y. y == 0) failed),
                record {
                  extends = Extends-trans x y;
                  fresh = f1;
                  still = y.still;
                  others = λ b u off. y.same b u;
                  below = λ j u. kept j (omega arith);
                },
                λ j lo u. kept j u,
                λ no_way. cc,
                λ _. few,
              )
              | inr (nz, flags, d) ↦
                  let x2 = set_entry-Extends c i c' (Extends-trans x y) f1 (omega arith) in
                  let other : (j : ℕ)
                      → i + 1 ≤ j
                      → j < 512
                      → entry (set_entry q1 c i c').memory c j ≡ entry r.memory c j =
                    λ j lo u.
                      (let s : entry (set_entry q1 c i c').memory c j ≡ entry q1.memory c j =
                          ground arith in
                        s ∙ kept j u) in
                  let (done, q, g2, loop, above, fill, short) =
                    clone_user_lem n (i + 1) (set_entry q1 c i c') x2 (written i c' f1)
                      (omega arith)
                      (λ j lo hi. other j lo (omega arith) ∙ z j (omega arith) (omega arith)) in
                  (
                    done,
                    q,
                    made ∙ ap (next_user n i t c c' q1) nz ∙ g2,
                    one_more 3 (with_flags clone_pdpt) clone_pdpt-ClonesEntry p t c 256
                        (omega arith) held i c' (omega arith) f y loop,
                    λ j lo u. above j (omega arith) u ∙ other j (omega arith) u,
                    λ e2.
                        fill_more 3 (with_flags clone_pdpt) clone_pdpt-ClonesEntry p t c 256
                          (omega arith) held q i n
                          (filled_here 3 (with_flags clone_pdpt) clone_pdpt-ClonesEntry p t c 256
                            (omega arith) held i c' n (omega arith) x f here flags d y loop)
                          (fill e2),
                    short,
                  )
            ]
        | inr absent ↦
            let (done, q, g2, loop, above, fill, short) =
              clone_user_lem n (i + 1) r x f (omega arith)
                (λ j lo hi. z j (omega arith) (omega arith)) in
            (
              done,
              q,
              round_absent n i t c (entry p.memory t i) r e absent ∙ g2,
              record {
                extends = loop.extends;
                fresh = loop.fresh;
                still = loop.still;
                others = loop.others;
                below = λ j u. loop.below j (omega arith);
              },
              λ j lo u. above j (omega arith) u,
              λ e2.
                  fill_more 3 (with_flags clone_pdpt) clone_pdpt-ClonesEntry p t c 256 (omega arith)
                    held q i n
                    (absent_here i (omega arith) absent (z i (omega arith) (omega arith)) loop)
                    (fill e2),
              short,
            )
      ]
