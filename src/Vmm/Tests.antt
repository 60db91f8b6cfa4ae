-- ===== src/Vmm/Tests.antt =====
-- The theorems on vmm.c, at an allocator with four free pages and tables in its reserved pages.
use simple_os.Prelude.{
  ℕ, zero, suc, ◌+◌, ◌*◌, ◌/◌, ◌≤◌, ◌<◌, ◌≡◌, ◌≢◌, refl, ◌⊎◌, ◌==◌, if◌then◌else◌, Bool, true,
  arith, ok, [],
}
use simple_os.Pmm.{Pmm}
use simple_os.Pmm.View.{used}
use simple_os.Pmm.Inv.{IsValid}
use simple_os.Pmm.Ready.{ready, ready-IsValid}
use simple_os.Vmm.{
  entry, is_present, page_of, map_page, unmap_page, get_physical, clone_address_space,
}
use simple_os.Vmm.Walk.{memory-IsValid, Extends}
use simple_os.Vmm.Descend.{IsTable, PathDown}
use simple_os.Vmm.Map.{upper, Mapped, map_page_lem, get_physical-unmap_page}
use simple_os.Vmm.Mirror.{Held, HeldBelow}
use simple_os.Vmm.Space.{Forked, clone_address_space_lem}

-- One page, at 0x5000, mapped at address 0.
abbrev one_page : Pmm
one_page = record ready {
  memory = λ a.
      if a == 0x1000
      then 0x2007
      else if a == 0x2000
      then 0x3007
      else if a == 0x3000
      then 0x4007
      else if a == 0x4000
      then 0x5007
      else 0;
}

one_page-IsValid : IsValid one_page
one_page-IsValid = memory-IsValid one_page.memory ready-IsValid

low_used : (j : ℕ) → j < 1024 → used one_page.bitmap j ≡ true
low_used = one_page-IsValid.low

IsTable-at : (n : ℕ) → n ≢ 0 → n < 1024 → IsTable one_page (n * 4096)
IsTable-at n h l =
    let at : n * 4096 / 4096 ≡ n = omega arith in
    (ground (arith, h), omega arith, rw at (low_used n l))

-- Address 0 leads to the table at 0x4000, and 0x200000 to an entry of the table above that is missing.
path_0 : PathDown one_page [] 0x1000 (upper (page_of 0))
path_0 = (
  IsTable-at 1 (omega arith) (omega arith),
  tt,
  λ _. (
    IsTable-at 2 (omega arith) (omega arith),
    (omega arith, tt),
    λ _. (
      IsTable-at 3 (omega arith) (omega arith),
      (omega arith, (omega arith, tt)),
      λ _. (
        IsTable-at 4 (omega arith) (omega arith),
        (omega arith, (omega arith, (omega arith, tt))),
      ),
    ),
  ),
)

path_2m : PathDown one_page [] 0x1000 (upper (page_of 0x200000))
path_2m = (
  IsTable-at 1 (omega arith) (omega arith),
  tt,
  λ _. (
    IsTable-at 2 (omega arith) (omega arith),
    (omega arith, tt),
    λ _. (
      IsTable-at 3 (omega arith) (omega arith),
      (omega arith, (omega arith, tt)),
      λ e. absurd (ground (arith, e)),
    ),
  ),
)

map_page_lem_example :
    (mapped : Bool) × (q : Pmm) × (map_page one_page 0x1000 0x200000 0x7000 6 ≡ ok (mapped, q))
    × Mapped one_page 0x1000 0x200000 0x7000 mapped q
map_page_lem_example =
    map_page_lem one_page 0x1000 0x200000 0x7000 6 one_page-IsValid (omega arith) path_2m

get_physical-unmap_page_example :
    get_physical (unmap_page one_page 0x1000 0x10).memory 0x1000 0x18 ≡ 0
get_physical-unmap_page_example =
    get_physical-unmap_page one_page 0x1000 0x10 0x18 path_0 (omega arith)

found_before : get_physical one_page.memory 0x1000 0x18 ≡ 0x5018
unfolding get_physical
found_before = refl

next_table :
    (n i : ℕ)
    → n ≢ 0
    → n < 5
    → i < 512
    → is_present (entry one_page.memory (n * 4096) i) ≡ true
    → page_of (entry one_page.memory (n * 4096) i) ≡ (n + 1) * 4096
next_table n i h l k e = ground (arith, h, l, k, e)

Held-from : (k n : ℕ) → n ≢ 0 → n + k < 6 → Held k one_page (n * 4096)
Held-from zero n h l = let t = IsTable-at n h (omega arith) in (t.1, t.2)
Held-from (suc k) n h l =
    let t = IsTable-at n h (omega arith) in
    (
      t.1,
      t.2,
      λ i u e.
          rw (next_table n i h (omega arith) u e) (Held-from k (n + 1) (omega arith) (omega arith)),
    )

one_page-HeldBelow : HeldBelow 256 3 one_page 0x1000
one_page-HeldBelow =
    let t = IsTable-at 1 (omega arith) (omega arith) in
    (
      t.1,
      t.2,
      λ i u e.
          rw (next_table 1 i (omega arith) (omega arith) (omega arith) e)
            (Held-from 3 2 (omega arith) (omega arith)),
    )

clone_address_space_lem_example :
    (c : ℕ) × (q : Pmm) × (clone_address_space 0x1000000 0x1000 one_page ≡ ok (c, q))
    × Extends one_page q
    × (((c ≡ 0) × (q.free_pages ≤ 4)) ⊎ Forked one_page 0x1000 q c)
clone_address_space_lem_example =
    clone_address_space_lem 0x1000000 0x1000 one_page one_page-IsValid one_page-HeldBelow
