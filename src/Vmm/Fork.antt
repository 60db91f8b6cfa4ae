-- ===== src/Vmm/Fork.antt =====
-- `vmm_clone_address_space`, and the levels of tables below it.
use simple_os.Prelude.{
  ℕ, suc, ◌≡◌, refl, ap, ◌∙◌, inl, inr, ◌==◌, if◌then◌else◌, Bool, false, arith, Bool-cases, Run,
  ok, ◌>>=◌,
}
use simple_os.Pmm.{Pmm, alloc_page, free_page}
use simple_os.Vmm.{
  clone_page, with_flags, clone_entries, clone_table, clone_pt, clone_pd, clone_pdpt,
}
use simple_os.Vmm.Walk.{Extends-refl, alloc_fresh, free_fresh}
use simple_os.Vmm.Clone.{ClonesTable, ClonesEntry, with_flags-ClonesEntry, clone_page-ClonesEntry}
use simple_os.Vmm.Loop.{clone_entries_lem}

-- The table that the loop has filled, or 0 and the table given back.
close_table : Bool → ℕ → Pmm → Run (ℕ × Pmm)
close_table done child r = if done then ok (child, r) else (free_page r child >>= λ s. ok (0, s))

open_table :
    (clone : ℕ → ℕ → Pmm → Run (ℕ × Pmm)) (t c : ℕ) (p q r : Pmm) (done : Bool)
    → alloc_page p ≡ ok (c, q)
    → (c == 0) ≡ false
    → clone_entries clone 512 0 t c q ≡ ok (done, r)
    → clone_table clone t p ≡ close_table done c r
unfolding clone_table close_table
open_table clone t c p q r done a nz l = rw (a, nz, l) refl

clone_table-ClonesTable :
    (k : ℕ) (clone : ℕ → ℕ → Pmm → Run (ℕ × Pmm))
    → ClonesEntry k clone
    → ClonesTable (suc k) (clone_table clone)
unfolding clone_table close_table
clone_table-ClonesTable k clone spec t p v held = elim (alloc_fresh v) [
  | inl (e, few) ↦ (0, p, rw e refl, Extends-refl v, inl (refl, omega (arith, few)))
  | inr (c, q, e, nz, x, f, z) ↦
      let (done, r, g, loop, fill, short) =
        clone_entries_lem k clone spec p t c 512 (omega arith) held 512 0 q x f (omega arith) in
      elim (Bool-cases done) [
        | inl yes_done ↦ (
          c,
          r,
          open_table clone t c p q r done e nz g ∙ ap (λ b. close_table b c r) yes_done,
          loop.extends,
          inr (record {
            nonzero = nz;
            fresh = loop.fresh;
            copied = λ m kept. λ i l. fill yes_done i (omega arith) (omega arith) m kept;
          }),
        )
        | inr not_done ↦
            let (s, w, y, more) = free_fresh c loop.extends loop.fresh in
            (
              0,
              s,
              open_table clone t c p q r done e nz g
                  ∙ ap (λ b. close_table b c r) not_done
                  ∙ rw w refl,
              y,
              inl (refl, omega (arith, short not_done, more)),
            )
      ]
]

pub clone_pdpt-ClonesEntry : ClonesEntry 3 (with_flags clone_pdpt)
unfolding clone_pdpt clone_pd clone_pt
clone_pdpt-ClonesEntry =
    let pt =
      with_flags-ClonesEntry 1 clone_pt
        (clone_table-ClonesTable 0 clone_page clone_page-ClonesEntry) in
    let pd =
      with_flags-ClonesEntry 2 clone_pd (clone_table-ClonesTable 1 (with_flags clone_pt) pt) in
    with_flags-ClonesEntry 3 clone_pdpt (clone_table-ClonesTable 2 (with_flags clone_pd) pd)
