-- ===== src/Vmm/Map.antt =====
-- `vmm_map_page`, `vmm_unmap_page` and `vmm_get_physical` together: what is mapped is what is found.
use simple_os.Prelude.{
  Away, ℕ, ◌+◌, ◌*◌, ◌/◌, ◌%◌, ◌<◌, ◌≡◌, ◌≢◌, refl, sym, ap, subst, ◌∙◌, ◌⊎◌, inl, inr, ◌==◌,
  if◌then◌else◌, not, Bool, true, false, List, [], ◌∷◌, arith, Bool-cases, Run, ok, panic, fault,
  ◌>>=◌, bit_or, bit_or_low,
}
use simple_os.Pmm.{Pmm, store, alloc_page}
use simple_os.Pmm.Inv.{IsValid}
use simple_os.Vmm.{
  entry, set_entry, page_of, is_present, page_present, pml4_index, pdpt_index, pd_index, pt_index,
  get_or_create_table, table_flags, leads_on, map_page, unmap_page, get_physical,
}
use simple_os.Vmm.Walk.{memory-IsValid}
use simple_os.Vmm.Descend.{
  PathDown, IsTable, Indices, Steps, Steps-store, created_entry, descend, descend_lem,
  PathDown-IsTable,
}

-- The indices of the three tables above the last one.
abbrev pub upper : ℕ → List ℕ
upper virt = pml4_index virt ∷ pdpt_index virt ∷ pd_index virt ∷ []

-- What `vmm_map_page` writes at the end.
abbrev mapped_entry : ℕ → ℕ → ℕ
mapped_entry phys flags = bit_or (bit_or (page_of (page_of phys)) flags) page_present

abbrev write_entry : ℕ → ℕ → ℕ × Pmm → Run (Bool × Pmm)
write_entry index e (pt, q) = if pt == 0 then ok (false, q) else ok (true, set_entry q pt index e)

bind_step :
    (index e : ℕ) (r : Run (ℕ × Pmm)) (f : ℕ → Pmm → Run (ℕ × Pmm)) (g : ℕ → Pmm → Run (Bool × Pmm))
    → ((n : ℕ) (q : Pmm) → (n == 0) ≡ false → (f n q >>= write_entry index e) ≡ g n q)
    → ((r >>= λ (n, q). if n == 0 then ok (0, q) else f n q) >>= write_entry index e)
      ≡ (r >>= λ (n, q). if n == 0 then ok (false, q) else g n q)
bind_step index e (ok (n, q)) f g h = elim (Bool-cases (n == 0)) [
  | inl z ↦ rw z refl
  | inr z ↦ rw z (h n q z)
]
bind_step index e panic f g h = refl
bind_step index e fault f g h = refl

map_page-descend :
    (p : Pmm) (pml4 v phys flags : ℕ)
    → map_page p pml4 v phys flags ≡ (
        descend (table_flags (page_of v)) p pml4 (upper (page_of v))
        >>= write_entry (pt_index (page_of v)) (mapped_entry phys flags))
unfolding map_page descend
map_page-descend p pml4 v phys flags =
    let step = bind_step (pt_index (page_of v)) (mapped_entry phys flags) in
    sym (
      step (get_or_create_table p pml4 (pml4_index (page_of v)) (table_flags (page_of v))) _ _
        (λ n q _.
          step (get_or_create_table q n (pdpt_index (page_of v)) (table_flags (page_of v))) _ _
            (λ n q _.
              step (get_or_create_table q n (pd_index (page_of v)) (table_flags (page_of v))) _ _
                (λ n q z. rw z refl))))

-- The last entry decides.
get_physical-Steps :
    (m : ℕ → ℕ) (pml4 virt pt : ℕ)
    → Steps m pml4 (upper virt) pt
    → get_physical m pml4 virt ≡ (
        if not (is_present (entry m pt (pt_index virt)))
        then 0
        else bit_or (page_of (entry m pt (pt_index virt))) (virt % 4096))
unfolding get_physical
get_physical-Steps m pml4 virt pt (e4, _, _, _, (e3, _, _, _, (e2, _, _, _, last))) =
    rw (e4, e3, e2, last) refl

indices_of_page :
    (v virt : ℕ)
    → page_of virt ≡ page_of v
    → (upper (page_of v) ≡ upper virt) × (pt_index (page_of v) ≡ pt_index virt)
indices_of_page v virt h =
    let a : pml4_index (page_of v) ≡ pml4_index virt = omega (arith, h) in
    let b : pdpt_index (page_of v) ≡ pdpt_index virt = omega (arith, h) in
    let c : pd_index (page_of v) ≡ pd_index virt = omega (arith, h) in
    (rw (a, b, c) refl, omega (arith, h))

-- The two entries that the code writes or clears, where the page of `virt` is looked up.
last_entry :
    (q : Pmm) (pml4 v virt pt e : ℕ)
    → pt % 4096 ≡ 0
    → Steps q.memory pml4 (upper (page_of v)) pt
    → page_of virt ≡ page_of v
    → get_physical (set_entry q pt (pt_index (page_of v)) e).memory pml4 virt
      ≡ (if not (is_present e) then 0 else bit_or (page_of e) (virt % 4096))
last_entry q pml4 v virt pt e a st h =
    let (up, at) = indices_of_page v virt h in
    let m = store q.memory (pt + 8 * pt_index (page_of v)) e in
    let after : Steps m pml4 (upper virt) pt =
      subst (λ is. Steps m pml4 is pt) up
        (Steps-store q.memory pml4 (upper (page_of v)) pt (pt_index (page_of v)) e a (omega arith)
          st) in
    let here : entry m pt (pt_index virt) ≡ e = rw (sym at) (ground arith) in
    get_physical-Steps m pml4 virt pt after ∙ rw here refl

-- What a mapping of `v` to `phys` has made of `p`.
pub record Mapped (p : Pmm) (pml4 v phys : ℕ) (mapped : Bool) (q : Pmm) : Type 0 where
  pub valid : IsValid q
  pub found :
      mapped ≡ true
      → (virt : ℕ) → page_of virt ≡ page_of v
      → get_physical q.memory pml4 virt ≡ page_of phys + virt % 4096
  pub failed : mapped ≡ false → alloc_page q ≡ ok (0, q)

-- On tables that are pages in use of a valid allocator and are met once on the way, and with flags below
-- 4096 (so without PAGE_NX, bit 63), `vmm_map_page` returns and leaves the allocator valid. Where it reports
-- success every address in the page of `v` is found at the same offset in the page of `phys`; it reports
-- failure only where no page is left, `pmm_alloc_page` giving NULL.
pub map_page_lem :
    (p : Pmm) (pml4 v phys flags : ℕ)
    → IsValid p
    → flags < 4096
    → PathDown p [] pml4 (upper (page_of v))
    → (mapped : Bool) × (q : Pmm) × (map_page p pml4 v phys flags ≡ ok (mapped, q))
      × Mapped p pml4 v phys mapped q
map_page_lem p pml4 v phys flags valid fl path =
    let e = mapped_entry phys flags in
    let index = pt_index (page_of v) in
    let low : table_flags (page_of v) < 4096 = ground arith in
    let (pt, q, g, d) =
      descend_lem (table_flags (page_of v)) (upper (page_of v)) p [] pml4 valid low
        (omega arith, (omega arith, (omega arith, tt))) tt path in
    let made = map_page-descend p pml4 v phys flags ∙ ap (λ r. r >>= write_entry index e) g in
    elim d.arrived [
      | inl (z, full) ↦ (
        false,
        q,
        made ∙ rw z refl,
        record { valid = d.valid; found = λ k. absurd (ground (arith, k)); failed = λ _. full },
      )
      | inr (t, _, st) ↦
          let nz : (pt == 0) ≡ false = ground (arith, t.0) in
          let (present, leads) = created_entry (page_of phys) flags (omega arith) fl in
          (
            true,
            set_entry q pt index e,
            made ∙ rw nz refl,
            record {
              valid = memory-IsValid (store q.memory (pt + 8 * index) e) d.valid;
              found = λ _ virt h.
                  last_entry q pml4 v virt pt e t.1 st h
                  ∙ rw (present, leads) (bit_or_low 12 (phys / 4096) (virt % 4096) (omega arith));
              failed = λ k. absurd (ground (arith, k));
            },
          )
    ]

-- The way down from `t` ends at an entry that is not present.
abbrev Stops : (ℕ → ℕ) → ℕ → List ℕ → Type 0
Stops m t [] = ⊥
Stops m t (i ∷ is) =
    (is_present (entry m t i) ≡ false)
    ⊎ ((is_present (entry m t i) ≡ true)
        × (page_of (entry m t i) ≢ 0)
        × Stops m (page_of (entry m t i)) is)

-- The same for the way to the last table.
abbrev Leads : (ℕ → ℕ) → ℕ → List ℕ → Type 0
Leads m t [] = Unit
Leads m t (i ∷ is) = (page_of (entry m t i) ≢ 0) × Leads m (page_of (entry m t i)) is

walk :
    (p : Pmm) (seen : List ℕ) (t : ℕ) (is : List ℕ)
    → Indices is
    → PathDown p seen t is
    → Stops p.memory t is
      ⊎ ((pt : ℕ) × IsTable p pt × Away pt seen × Steps p.memory t is pt × Leads p.memory t is)
walk p seen t [] l h = inr (t, h.0, h.1, refl, tt)
walk p seen t (i ∷ is) l h = elim (Bool-cases (is_present (entry p.memory t i))) [
  | inr e ↦ inl (inl e)
  | inl e ↦
      let below = h.2 e in
      let nz = (PathDown-IsTable p (t ∷ seen) (page_of (entry p.memory t i)) is below).0.0 in
      elim (walk p (t ∷ seen) (page_of (entry p.memory t i)) is l.1 below) [
        | inl s ↦ inl (inr (e, nz, s))
        | inr (pt, v, a, st, ls) ↦
            inr (pt, v, a.1, (e, h.0.1, (λ x. a.0 (sym x)), l.0, st), (nz, ls))
      ]
]

-- An entry that is missing on the way is found missing by both.
stopped :
    (p : Pmm) (pml4 v virt : ℕ)
    → Stops p.memory pml4 (upper (page_of v))
    → page_of virt ≡ page_of v
    → (unmap_page p pml4 v ≡ p) × (get_physical p.memory pml4 virt ≡ 0)
unfolding unmap_page get_physical
stopped p pml4 v virt s h =
    let a : pml4_index (page_of v) ≡ pml4_index virt = omega (arith, h) in
    let b : pdpt_index (page_of v) ≡ pdpt_index virt = omega (arith, h) in
    let c : pd_index (page_of v) ≡ pd_index virt = omega (arith, h) in
    elim s [
      | inl e ↦ (ground (arith, e), ground (arith, a, e))
      | inr (_, _, inl e) ↦ (ground (arith, e), ground (arith, a, b, e))
      | inr (_, _, inr (_, _, inl e)) ↦ (ground (arith, e), ground (arith, a, b, c, e))
      | inr (_, _, inr (_, _, inr (_, _, e))) ↦ absurd e
    ]

leads_on-eq : (e : ℕ) → is_present e ≡ true → page_of e ≢ 0 → leads_on e ≡ true
leads_on-eq e h nz = ground (arith, h, nz)

walked :
    (p : Pmm) (pml4 v pt : ℕ)
    → Steps p.memory pml4 (upper (page_of v)) pt
    → Leads p.memory pml4 (upper (page_of v))
    → unmap_page p pml4 v ≡ set_entry p pt (pt_index (page_of v)) 0
unfolding unmap_page
walked p pml4 v pt (e4, _, _, _, (e3, _, _, _, (e2, _, _, _, last))) (n4, (n3, (n2, _))) =
    let l4 = leads_on-eq _ e4 n4 in
    let l3 = leads_on-eq _ e3 n3 in let l2 = leads_on-eq _ e2 n2 in rw (l4, l3, l2, last) refl

-- On tables that are pages in use and are met once on the way, no address in the page of `v` is
-- found after `vmm_unmap_page`.
pub get_physical-unmap_page :
    (p : Pmm) (pml4 v virt : ℕ)
    → PathDown p [] pml4 (upper (page_of v))
    → page_of virt ≡ page_of v
    → get_physical (unmap_page p pml4 v).memory pml4 virt ≡ 0
get_physical-unmap_page p pml4 v virt path h =
    elim (walk p [] pml4 (upper (page_of v)) (omega arith, (omega arith, (omega arith, tt))) path) [
      | inl s ↦ let (same, none_found) = stopped p pml4 v virt s h in rw same none_found
      | inr (pt, t, _, st, ls) ↦
          rw (walked p pml4 v pt st ls) (last_entry p pml4 v virt pt 0 t.1 st h)
    ]
