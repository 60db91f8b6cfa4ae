-- ===== src/Vmm/Clone.antt =====
-- What cloning an entry or a table comes to, and `clone_page`.
use simple_os.Prelude.{
  ℕ, zero, suc, ◌+◌, ◌*◌, ◌/◌, ◌%◌, ◌^◌, ◌≤◌, ◌<◌, ◌≡◌, ◌≢◌, refl, ap, ◌∙◌, ◌⊎◌, inl, inr, ◌==◌,
  false, arith, Run, ok, bit_or, bit_or_low,
}
use simple_os.Pmm.{Pmm, store}
use simple_os.Pmm.Inv.{IsValid}
use simple_os.Vmm.{page_of, copy_words, clone_page, with_flags}
use simple_os.Vmm.Walk.{Extends, Extends-refl, Fresh, alloc_fresh, memory-IsValid, apart, beside}
use simple_os.Vmm.Mirror.{Held, Mirror, KeepsNew, new_entry, same_entry}

-- `c` is a page taken since `p` that copies the page or table at `t`, and does so as long as what
-- has been taken for it stays.
pub record Copy (k : ℕ) (p : Pmm) (t : ℕ) (q : Pmm) (c : ℕ) : Type 0 where
  pub nonzero : (c == 0) ≡ false
  pub fresh : Fresh p q c
  pub copied : (m : ℕ → ℕ) → KeepsNew p q m → Mirror k p.memory t m c

-- What a table's clone comes to: 0, with no more pages free than there are levels, or a copy.
abbrev pub ClonesTable : ℕ → (ℕ → Pmm → Run (ℕ × Pmm)) → Type 0
ClonesTable k clone =
    (t : ℕ) (p : Pmm)
    → IsValid p
    → Held k p t
    → (c : ℕ) × (q : Pmm) × (clone t p ≡ ok (c, q))
      × Extends p q
      × (((c ≡ 0) × (q.free_pages ≤ k)) ⊎ Copy k p t q c)

-- What an entry's clone comes to: 0 as before, or an entry for a copy, with the same flags.
abbrev pub ClonesEntry : ℕ → (ℕ → ℕ → Pmm → Run (ℕ × Pmm)) → Type 0
ClonesEntry k clone =
    (t flags : ℕ) (p : Pmm)
    → IsValid p
    → flags < 4096
    → Held k p t
    → (c : ℕ) × (q : Pmm) × (clone t flags p ≡ ok (c, q))
      × Extends p q
      × (((c ≡ 0) × (q.free_pages ≤ k))
          ⊎ (((c == 0) ≡ false) × (c % 4096 ≡ flags) × Copy k p t q (page_of c)))

-- A page's address with flags.
or_flags : (c flags : ℕ) → c % 4096 ≡ 0 → flags < 4096 → bit_or c flags ≡ c + flags
or_flags c flags a h =
    let at : c ≡ c / 4096 * 2 ^ 12 = omega arith in
    ap (λ x. bit_or x flags) at ∙ bit_or_low 12 (c / 4096) flags h ∙ omega arith

Copy-flags :
    (k : ℕ) {p q : Pmm} (t c flags : ℕ)
    → flags < 4096
    → Copy k p t q c
    → ((bit_or c flags == 0) ≡ false)
      × (bit_or c flags % 4096 ≡ flags)
      × Copy k p t q (page_of (bit_or c flags))
Copy-flags k {p} {q} t c flags h d =
    let e = or_flags c flags d.fresh.aligned h in
    let at : page_of (c + flags) ≡ c = omega (arith, d.fresh.aligned) in
    (rw e (ground (arith, d.nonzero)), rw e (omega (arith, d.fresh.aligned)), rw (e, at) d)

pub with_flags-ClonesEntry :
    (k : ℕ) (clone : ℕ → Pmm → Run (ℕ × Pmm))
    → ClonesTable k clone
    → ClonesEntry k (with_flags clone)
with_flags-ClonesEntry k clone spec t flags p v h held =
    let (c, q, e, x, r) = spec t p v held in
    elim r [
      | inl (z, few) ↦ (0, q, rw (e, z) refl, x, inl (refl, few))
      | inr d ↦ (bit_or c flags, q, rw (e, d.nonzero) refl, x, inr (Copy-flags k t c flags h d))
    ]

copy_words_outside :
    (n from to : ℕ) (m : ℕ → ℕ) (b : ℕ)
    → (b < to) ⊎ (to + 8 * n ≤ b)
    → copy_words n from to m b ≡ m b
unfolding copy_words
copy_words_outside zero from to m b h = refl
copy_words_outside (suc n) from to m b h =
    copy_words_outside n (from + 8) (to + 8) (store m to (m from)) b (ground arith) ∙ ground arith

copy_words_inside :
    (n from to : ℕ) (m : ℕ → ℕ) (i : ℕ)
    → (from + 8 * n ≤ to) ⊎ (to + 8 * n ≤ from)
    → i < n
    → copy_words n from to m (to + 8 * i) ≡ m (from + 8 * i)
unfolding copy_words
copy_words_inside zero from to m i d h = elim h [ ]
copy_words_inside (suc n) from to m zero d h =
    copy_words_outside n (from + 8) (to + 8) (store m to (m from)) (to + 8 * 0) (inl (omega arith))
    ∙ ground arith
copy_words_inside (suc n) from to m (suc i) d h =
    let away : (to == from + 8 * suc i) ≡ false = ground arith in
    let here : from + 8 + 8 * i ≡ from + 8 * suc i = omega arith in
    ap (copy_words n (from + 8) (to + 8) (store m to (m from))) (omega arith)
    ∙ copy_words_inside n (from + 8) (to + 8) (store m to (m from)) i (ground arith) (omega arith)
    ∙ rw (here, away) refl

pub clone_page-ClonesEntry : ClonesEntry 0 clone_page
unfolding clone_page
clone_page-ClonesEntry t flags p v h held = elim (alloc_fresh v) [
  | inl (e, few) ↦ (0, p, rw e refl, Extends-refl v, inl (refl, omega (arith, few)))
  | inr (c, q, e, nz, x, f, z) ↦
      let r : Pmm = record q { memory = copy_words 512 t c q.memory } in
      let away : t / 4096 ≢ c / 4096 = apart p (t / 4096) (c / 4096) held.1 f.was_free in
      let disjoint : (t + 8 * 512 ≤ c) ⊎ (c + 8 * 512 ≤ t) =
        ground (arith, away, held.0, f.aligned) in
      let ext : Extends p r = record {
        valid = memory-IsValid r.memory x.valid;
        total = x.total;
        still = x.still;
        same = λ b k.
            let page : c / 4096 * 4096 ≡ c = omega (arith, f.aligned) in
            let out = beside b (c / 4096) (apart p (b / 4096) (c / 4096) k f.was_free) in
            copy_words_outside 512 t c q.memory b (ground (arith, out, page)) ∙ x.same b k;
      } in
      let fresh : Fresh p r c = record {
        aligned = f.aligned;
        from_start = f.from_start;
        managed = f.managed;
        was_free = f.was_free;
        taken = f.taken;
      } in
      (
        bit_or c flags,
        r,
        rw (e, nz) refl,
        ext,
        inr (
            Copy-flags 0 t c flags h (record {
              nonzero = nz;
              fresh = fresh;
              copied = λ m kept. λ i l.
                  new_entry {q = r} m c i fresh kept l
                  ∙ copy_words_inside 512 t c q.memory i disjoint l
                  ∙ same_entry t i x held.0 held.1 l;
            })),
      )
]
