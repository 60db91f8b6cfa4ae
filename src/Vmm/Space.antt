-- ===== src/Vmm/Space.antt =====
-- `vmm_clone_address_space`: the kernel half is shared, the user half copied.
use simple_os.Prelude.{
  ℕ, ◌≤◌, ◌<◌, ◌≡◌, ◌≢◌, refl, ap, ◌∙◌, ◌⊎◌, inl, inr, ◌==◌, if◌then◌else◌, Bool, false, arith,
  Bool-cases, Run, ok, ◌>>=◌,
}
use simple_os.Pmm.{Pmm, alloc_page}
use simple_os.Pmm.Inv.{IsValid}
use simple_os.Vmm.{
  entry, clone_user, zero_entries, copy_entries, destroy_address_space, clone_address_space,
}
use simple_os.Vmm.Walk.{Extends, Extends-refl, Fresh, alloc_fresh, free_fresh}
use simple_os.Vmm.Mirror.{HeldBelow, MirrorEntry}
use simple_os.Vmm.Fill.{zero_entries-Wrote, copy_entries-Wrote}
use simple_os.Vmm.User.{clone_user_lem}

-- `q` has an address space at `c`, in pages taken since `p`: its kernel half is that of `t`, and its
-- user half copies that of `t`, down to the content of the pages.
pub record Forked (p : Pmm) (t : ℕ) (q : Pmm) (c : ℕ) : Type 0 where
  pub nonzero : c ≢ 0
  pub fresh : Fresh p q c
  pub kernel : (i : ℕ) → 256 ≤ i → i < 512 → entry q.memory c i ≡ entry p.memory t i
  pub user :
      (i : ℕ) → i < 256 → MirrorEntry 3 p.memory (entry p.memory t i) q.memory (entry q.memory c i)

close_space : ℕ → Bool → ℕ → Pmm → Run (ℕ × Pmm)
close_space pml4 done child s =
    if done then ok (child, s) else (destroy_address_space pml4 s child >>= λ t. ok (0, t))

open_space :
    (pml4 t c : ℕ) (p q s : Pmm) (done : Bool)
    → alloc_page p ≡ ok (c, q)
    → (c == 0) ≡ false
    → clone_user 256 0 t c (copy_entries 256 256 t c (zero_entries 512 0 c q)) ≡ ok (done, s)
    → clone_address_space pml4 t p ≡ close_space pml4 done c s
unfolding clone_address_space close_space
open_space pml4 t c p q s done a nz l = rw (a, nz, l) refl

-- In a valid state of the page allocator, and where the parent's table and the tables and pages of its user
-- half are in use, `vmm_clone_address_space` returns in a valid state, and nothing in use before has
-- changed. The result is NULL, with at most 4 pages free then, one for each level of tables, or a table not
-- in use before whose kernel half is the parent's and whose user half maps, with the same flags, copies of
-- the parent's pages.
pub clone_address_space_lem :
    (pml4 t : ℕ) (p : Pmm)
    → IsValid p
    → HeldBelow 256 3 p t
    → (c : ℕ) × (q : Pmm) × (clone_address_space pml4 t p ≡ ok (c, q))
      × Extends p q
      × (((c ≡ 0) × (q.free_pages ≤ 4)) ⊎ Forked p t q c)
unfolding close_space destroy_address_space clone_address_space
clone_address_space_lem pml4 t p v held = elim (alloc_fresh v) [
  | inl (e, few) ↦ (0, p, rw e refl, Extends-refl v, inl (refl, omega (arith, few)))
  | inr (c, q, e, nz, x, f, z) ↦
      let w1 = zero_entries-Wrote 512 0 c q x f (omega arith) in
      let w2 =
        copy_entries-Wrote 256 256 t c (zero_entries 512 0 c q) w1.extends w1.fresh held.0 held.1
          (omega arith) in
      let r = copy_entries 256 256 t c (zero_entries 512 0 c q) in
      let (done, s, g, loop, above, fill, short) =
        clone_user_lem p t c held 256 0 r w2.extends w2.fresh (omega arith)
          (λ j lo hi. w2.outside j (inl (omega arith)) ∙ w1.inside j (omega arith) (omega arith)) in
      elim (Bool-cases done) [
        | inl yes_done ↦ (
          c,
          s,
          open_space pml4 t c p q s done e nz g ∙ ap (λ b. close_space pml4 b c s) yes_done,
          loop.extends,
          inr (record {
            nonzero = ground (arith, nz);
            fresh = loop.fresh;
            kernel = λ i lo hi. above i (omega arith) hi ∙ w2.inside i lo (omega arith);
            user = λ i l. fill yes_done i (omega arith) (omega arith) s.memory (λ b _ _. refl);
          }),
        )
        | inr not_done ↦
            let failed =
              open_space pml4 t c p q s done e nz g ∙ ap (λ b. close_space pml4 b c s) not_done in
            elim (Bool-cases (c == pml4)) [
              | inl same ↦ (
                0,
                s,
                failed ∙ rw (nz, same) refl,
                loop.extends,
                inl (refl, omega (arith, short not_done)),
              )
              | inr other ↦
                  let (u, g2, y, more) = free_fresh c loop.extends loop.fresh in
                  (
                    0,
                    u,
                    failed ∙ rw (nz, other, g2) refl,
                    y,
                    inl (refl, omega (arith, short not_done, more)),
                  )
            ]
      ]
]
