-- ===== src/Vmm/Total.antt =====
-- Calls of vmm.c return whatever the tables hold, in a valid state of the page allocator.
use simple_os.Prelude.{
  ℕ, zero, suc, ◌+◌, ◌/◌, ◌%◌, ◌^◌, ◌≡◌, ◌≢◌, refl, ◌∙◌, ◌⊎◌, inl, inr, ◌==◌, if◌then◌else◌, Bool,
  true, false, arith, Bool-cases, Run, ok, ◌>>=◌, bit_or,
}
use simple_os.Pmm.{Pmm, page_size, free_page}
use simple_os.Pmm.View.{used}
use simple_os.Pmm.Inv.{IsValid}
use simple_os.Pmm.Free.{free_page_lem}
use simple_os.Vmm.{
  page_of, entry, set_entry, is_present, page_present, get_or_create_table, table_flags, pml4_index,
  pdpt_index, pd_index, pt_index, map_page, copy_entries, create_address_space,
  destroy_address_space, Layout, alloc_pages_from, alloc_user_pages, setup_user_stack,
  user_stack_size,
}
use simple_os.Vmm.Walk.{Extends, Fresh, memory-IsValid, alloc_fresh, apart}

-- From `p` to `q` no page has been given back.
pub record Grew (p q : Pmm) : Type 0 where
  pub valid : IsValid q
  pub total : q.total_pages ≡ p.total_pages
  pub still : (j : ℕ) → used p.bitmap j ≡ true → used q.bitmap j ≡ true

pub Grew-refl : {p : Pmm} → IsValid p → Grew p p
Grew-refl v = record { valid = v; total = refl; still = λ j h. h }

pub Grew-trans : {p q r : Pmm} → Grew p q → Grew q r → Grew p r
Grew-trans g h = record {
  valid = h.valid;
  total = h.total ∙ g.total;
  still = λ j u. h.still j (g.still j u);
}

pub Extends-Grew : {p q : Pmm} → Extends p q → Grew p q
Extends-Grew x = record { valid = x.valid; total = x.total; still = x.still }

pub Grew-memory : {p q : Pmm} (m : ℕ → ℕ) → Grew p q → Grew p (record q { memory = m })
Grew-memory m g = record { valid = memory-IsValid m g.valid; total = g.total; still = g.still }

get_or_create_table_total :
    (p : Pmm) (t i flags : ℕ)
    → IsValid p
    → (n : ℕ) × (q : Pmm) × (get_or_create_table p t i flags ≡ ok (n, q)) × Grew p q
unfolding get_or_create_table
get_or_create_table_total p t i flags v = elim (Bool-cases (is_present (entry p.memory t i))) [
  | inl e ↦ (page_of (entry p.memory t i), p, rw e refl, Grew-refl v)
  | inr e ↦ elim (alloc_fresh v) [
    | inl (a, _) ↦ (0, p, rw (e, a) refl, Grew-refl v)
    | inr (n, q, a, nz, x, _, _) ↦
        let r : Pmm = set_entry q t i (bit_or (bit_or (page_of n) flags) page_present) in
        (n, r, rw (e, a) (rw nz refl), Grew-memory r.memory (Extends-Grew x))
  ]
]

then_total :
    (p : Pmm) (t i flags : ℕ) (rest : ℕ → Pmm → Run (Bool × Pmm))
    → IsValid p
    → ((n : ℕ) (q : Pmm) → IsValid q → (b : Bool) × (r : Pmm) × (rest n q ≡ ok (b, r)) × Grew q r)
    → (b : Bool) × (r : Pmm) × ((get_or_create_table p t i flags >>= λ (n, q).
          if n == 0 then ok (false, q) else rest n q)
        ≡ ok (b, r))
      × Grew p r
then_total p t i flags rest v h =
    let (n, q, e, g) = get_or_create_table_total p t i flags v in
    elim (Bool-cases (n == 0)) [
      | inl z ↦ (false, q, rw e (rw z refl), g)
      | inr z ↦ let (b, r, f, k) = h n q g.valid in (b, r, rw e (rw z f), Grew-trans g k)
    ]

pub map_page_total :
    (p : Pmm) (pml4_table v phys flags : ℕ)
    → IsValid p
    → (b : Bool) × (q : Pmm) × (map_page p pml4_table v phys flags ≡ ok (b, q)) × Grew p q
unfolding map_page
map_page_total p pml4_table v phys flags valid =
    let virt = page_of v in
    then_total p pml4_table (pml4_index virt) (table_flags virt) _ valid (λ pdpt p1 v1.
      then_total p1 pdpt (pdpt_index virt) (table_flags virt) _ v1 (λ pd p2 v2.
        then_total p2 pd (pd_index virt) (table_flags virt) _ v2 (λ pt p3 v3. (
          true,
          set_entry p3 pt (pt_index virt)
              (bit_or (bit_or (page_of (page_of phys)) flags) page_present),
          refl,
          Grew-memory
              (set_entry p3 pt (pt_index virt)
                (bit_or (bit_or (page_of (page_of phys)) flags) page_present)).memory
              (Grew-refl v3),
        ))))

-- A page taken since `p` can be given back.
give_back :
    (p q r : Pmm) (t : ℕ)
    → Grew p q
    → Fresh p q t
    → Grew q r
    → (s : Pmm) × (free_page r t ≡ ok s) × Grew p s
give_back p q r t g f h = elim (free_page_lem t h.valid) [
  | inl (_, s, e, k) ↦ (
    s,
    e,
    record {
      valid = k.valid;
      total = k.total ∙ h.total ∙ g.total;
      still = λ j u.
          let off : j ≢ t / 4096 = apart p j (t / 4096) u f.was_free in
          ground (arith, k.clears j, h.still j (g.still j u), off);
    },
  )
  | inr (no_way, _) ↦ absurd (
      no_way (
        f.aligned,
        omega (arith, f.from_start),
        omega (arith, f.managed, g.total, h.total),
        h.still (t / 4096) f.taken,
      ))
]

alloc_pages_from_total :
    (n virt : ℕ) (l : Layout) (p : Pmm)
    → IsValid p
    → (b : Bool) × (k : Layout) × (q : Pmm) × (alloc_pages_from n virt l p ≡ ok (b, k, q))
      × Grew p q
unfolding alloc_pages_from
alloc_pages_from_total zero virt l p v = (true, l, p, refl, Grew-refl v)
alloc_pages_from_total (suc n) virt l p v = elim (alloc_fresh v) [
  | inl (a, _) ↦ (false, l, p, rw a refl, Grew-refl v)
  | inr (phys, q, a, nz, x, f, _) ↦
      let (b, r, e, g) = map_page_total q l.page_table virt phys 7 x.valid in
      elim (Bool-cases b) [
        | inl yes_mapped ↦
            let more = record l { pages_allocated = (l.pages_allocated + 1) % 2 ^ 64 } in
            let (c, k, s, d, h) =
              alloc_pages_from_total n ((virt + page_size) % 2 ^ 64) more r g.valid in
            (c, k, s, rw (a, nz, e, yes_mapped) d, Grew-trans (Extends-Grew x) (Grew-trans g h))
        | inr not_mapped ↦
            let (s, d, h) = give_back p q r phys (Extends-Grew x) f g in
            (false, l, s, rw (a, nz, e, not_mapped, d) refl, h)
      ]
]

pub setup_user_stack_total :
    (l : Layout) (p : Pmm)
    → IsValid p
    → (b : Bool) × (k : Layout) × (q : Pmm) × (setup_user_stack l p ≡ ok (b, k, q)) × Grew p q
unfolding setup_user_stack alloc_user_pages
setup_user_stack_total l p v = alloc_pages_from_total (user_stack_size / page_size) _ _ p v

copy_entries-Grew : (n i from to : ℕ) (p q : Pmm) → Grew p q → Grew p (copy_entries n i from to q)
unfolding copy_entries
copy_entries-Grew zero i from to p q g = g
copy_entries-Grew (suc n) i from to p q g =
    copy_entries-Grew n (i + 1) from to p (set_entry q to i (entry q.memory from i))
      (Grew-memory (set_entry q to i (entry q.memory from i)).memory g)

-- The new table, if there is a page for it, and how it is given back.
pub create_address_space_total :
    (pml4 : ℕ) (p : Pmm)
    → IsValid p
    → (t : ℕ) × (q : Pmm) × (create_address_space pml4 p ≡ ok (t, q))
      × Grew p q
      × ((t ≡ 0)
          ⊎ (((t == 0) ≡ false)
              × ((r : Pmm)
                  → Grew q r
                  → (s : Pmm) × (destroy_address_space pml4 r t ≡ ok s) × Grew p s)))
unfolding create_address_space destroy_address_space
create_address_space_total pml4 p v = elim (alloc_fresh v) [
  | inl (a, _) ↦ (0, p, rw a refl, Grew-refl v, inl refl)
  | inr (t, q, a, nz, x, f, _) ↦
      let q' = copy_entries 256 256 pml4 t q in
      let g = copy_entries-Grew 256 256 pml4 t p q (Extends-Grew x) in
      let c = copy_entries-Grew 256 256 pml4 t q q (Grew-refl x.valid) in
      (
        t,
        q',
        rw (a, nz) refl,
        g,
        inr (
          nz,
          λ r h. elim (Bool-cases (t == pml4)) [
            | inl e ↦ (r, rw (nz, e) refl, Grew-trans g h)
            | inr e ↦
                let (s, d, k) = give_back p q r t (Extends-Grew x) f (Grew-trans c h) in
                (s, rw (nz, e) d, k)
          ],
        ),
      )
]
