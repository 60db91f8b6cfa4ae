-- ===== src/Vmm.antt =====
-- src/mm/vmm.c: address spaces as four levels of tables in the physical memory of Pmm. A table is the
-- address of its page; an entry is the 64 bit word at its index. `x & ~0xFFF` and `x & 0xFFF` are
-- the quotient and the remainder by 4096. `invlpg` and the loads of CR3 are left out.
pub mod Walk
pub mod Descend
pub mod Map
pub mod Mirror
pub mod Clone
pub mod Loop
pub mod Fork
pub mod Fill
pub mod User
pub mod Space
pub mod Total
mod Tests
use simple_os.Prelude.{
  ℕ, zero, suc, ◌+◌, ◌-◌, ◌*◌, ◌/◌, ◌%◌, ◌^◌, bit_and, bit_or, ◌==◌, ltb, leb, if◌then◌else◌, not,
  ◌||◌, ◌&&◌, Bool, true, false, Run, ok, ◌>>=◌,
}
use simple_os.Pmm.{Pmm, page_size, store, alloc_page, free_page}

-- x & ~0xFFF.
abbrev pub page_of : ℕ → ℕ
page_of x = x / 4096 * 4096

abbrev pub is_present : ℕ → Bool
is_present e = not (bit_and e 1 == 0)

abbrev pub page_present : ℕ
page_present = 1

abbrev pub page_writable : ℕ
page_writable = 2

abbrev pub page_user : ℕ
page_user = 4

abbrev pub kernel_base : ℕ
kernel_base = 0xFFFF800000000000

abbrev pub pml4_index : ℕ → ℕ
pml4_index virt = virt / 2 ^ 39 % 512

abbrev pub pdpt_index : ℕ → ℕ
pdpt_index virt = virt / 2 ^ 30 % 512

abbrev pub pd_index : ℕ → ℕ
pd_index virt = virt / 2 ^ 21 % 512

abbrev pub pt_index : ℕ → ℕ
pt_index virt = virt / 2 ^ 12 % 512

-- `table[index]`, and a write to it.
abbrev pub entry : (ℕ → ℕ) → ℕ → ℕ → ℕ
entry m table index = m (table + 8 * index)

abbrev pub set_entry : Pmm → ℕ → ℕ → ℕ → Pmm
set_entry p table index e = record p { memory = store p.memory (table + 8 * index) e }

-- The result 0 is NULL.
unfoldable pub get_or_create_table : Pmm → ℕ → ℕ → ℕ → Run (ℕ × Pmm)
get_or_create_table p parent_table index flags =
    let e = entry p.memory parent_table index in
    let create = alloc_page p >>= λ (t, q).
    if t == 0
    then ok (0, q)
    else ok (t, set_entry q parent_table index (bit_or (bit_or (page_of t) flags) page_present)) in
    if not (is_present e) then create else ok (page_of e, p)

abbrev pub table_flags : ℕ → ℕ
table_flags virt = if leb kernel_base virt then page_writable else page_writable + page_user

-- The Boolean is true for the result 0 and false for -1.
unfoldable pub map_page : Pmm → ℕ → ℕ → ℕ → ℕ → Run (Bool × Pmm)
map_page p0 pml4_table v phys flags =
    let virt = page_of v in
    get_or_create_table p0 pml4_table (pml4_index virt) (table_flags virt) >>= λ (pdpt, p1).
    if pdpt == 0
    then ok (false, p1)
    else get_or_create_table p1 pdpt (pdpt_index virt) (table_flags virt) >>= λ (pd, p2).
        if pd == 0
        then ok (false, p2)
        else get_or_create_table p2 pd (pd_index virt) (table_flags virt) >>= λ (pt, p3).
            if pt == 0
            then ok (false, p3)
            else ok (
              true,
              set_entry p3 pt (pt_index virt)
                  (bit_or (bit_or (page_of (page_of phys)) flags) page_present),
            )

-- Is there a table behind the entry? Both tests of `vmm_unmap_page`.
abbrev pub leads_on : ℕ → Bool
leads_on e = not (page_of e == 0) && is_present e

unfoldable pub unmap_page : Pmm → ℕ → ℕ → Pmm
unmap_page p pml4_table v =
    let virt = page_of v in
    let e4 = entry p.memory pml4_table (pml4_index virt) in
    let e3 = entry p.memory (page_of e4) (pdpt_index virt) in
    let e2 = entry p.memory (page_of e3) (pd_index virt) in
    if not (leads_on e4)
    then p
    else if not (leads_on e3)
    then p
    else if not (leads_on e2)
    then p
    else set_entry p (page_of e2) (pt_index virt) 0

unfoldable pub get_physical : (ℕ → ℕ) → ℕ → ℕ → ℕ
get_physical m pml4_table virt =
    let e4 = entry m pml4_table (pml4_index virt) in
    let e3 = entry m (page_of e4) (pdpt_index virt) in
    let e2 = entry m (page_of e3) (pd_index virt) in
    let e1 = entry m (page_of e2) (pt_index virt) in
    if not (is_present e4)
    then 0
    else if not (is_present e3)
    then 0
    else if not (is_present e2)
    then 0
    else if not (is_present e1)
    then 0
    else bit_or (page_of e1) (virt % 4096)

-- `for (i = first; n rounds) to[i] = from[i]`.
unfoldable pub copy_entries : ℕ → ℕ → ℕ → ℕ → Pmm → Pmm
copy_entries zero i from to p = p
copy_entries (suc n) i from to p =
    copy_entries n (i + 1) from to (set_entry p to i (entry p.memory from i))

-- `pml4` is the kernel's table, which kernel.c sets at boot.
unfoldable pub create_address_space : ℕ → Pmm → Run (ℕ × Pmm)
create_address_space pml4 p =
    alloc_page p >>= λ (t, q). if t == 0 then ok (0, q) else ok (t, copy_entries 256 256 pml4 t q)

unfoldable pub destroy_address_space : ℕ → Pmm → ℕ → Run Pmm
destroy_address_space pml4 p table = if table == 0 || table == pml4 then ok p else free_page p table

-- The memory layout in `process_t`.
pub record Layout : Type 0 where
  pub page_table : ℕ
  pub heap_start : ℕ
  pub heap_current : ℕ
  pub heap_max : ℕ
  pub stack_bottom : ℕ
  pub stack_top : ℕ
  pub pages_allocated : ℕ

-- The loop of `vmm_alloc_user_pages` with `n` pages left, the next at `virt`.
unfoldable pub alloc_pages_from : ℕ → ℕ → Layout → Pmm → Run (Bool × Layout × Pmm)
alloc_pages_from zero virt l p = ok (true, l, p)
alloc_pages_from (suc n) virt l p = alloc_page p >>= λ (phys, q).
    if phys == 0
    then ok (false, l, q)
    else map_page q l.page_table virt phys (page_present + page_writable + page_user)
      >>= λ (mapped, r).
          if mapped
          then alloc_pages_from n ((virt + page_size) % 2 ^ 64)
              (record l { pages_allocated = (l.pages_allocated + 1) % 2 ^ 64 }) r
          else (free_page r phys >>= λ s. ok (false, l, s))

unfoldable pub alloc_user_pages : Layout → ℕ → ℕ → Pmm → Run (Bool × Layout × Pmm)
alloc_user_pages l virt_addr count p =
    if leb kernel_base virt_addr then ok (false, l, p) else alloc_pages_from count virt_addr l p

abbrev pub user_stack_top : ℕ
user_stack_top = 0x00007FFFFFFFE000

abbrev pub user_stack_size : ℕ
user_stack_size = 0x100000

abbrev pub user_heap_start : ℕ
user_heap_start = 0x400000

unfoldable pub setup_user_stack : Layout → Pmm → Run (Bool × Layout × Pmm)
setup_user_stack l p =
    let l1 = record l {
      stack_top = user_stack_top;
      stack_bottom = user_stack_top - user_stack_size;
    } in
    alloc_user_pages l1 l1.stack_bottom (user_stack_size / page_size) p

unfoldable pub setup_user_heap : Layout → Layout
setup_user_heap l = record l {
  heap_start = user_heap_start;
  heap_current = user_heap_start;
  heap_max = user_heap_start + 0x10000000;
}

-- The byte by byte copy of a page, `n` words of 8 bytes at a time.
unfoldable pub copy_words : ℕ → ℕ → ℕ → (ℕ → ℕ) → ℕ → ℕ
copy_words zero from to m = m
copy_words (suc n) from to m = copy_words n (from + 8) (to + 8) (store m to (m from))

-- What the parent's page and its flags become in the child; 0 where no page is left.
unfoldable pub clone_page : ℕ → ℕ → Pmm → Run (ℕ × Pmm)
clone_page parent_page_phys flags p = alloc_page p >>= λ (child, q).
    if child == 0
    then ok (0, q)
    else ok (
      bit_or child flags,
      record q { memory = copy_words (page_size / 8) parent_page_phys child q.memory },
    )

-- `child_table | flags`, or 0 where the table could not be cloned.
abbrev pub with_flags : (ℕ → Pmm → Run (ℕ × Pmm)) → ℕ → ℕ → Pmm → Run (ℕ × Pmm)
with_flags clone_table table flags p = clone_table table p >>= λ (child, q).
    if child == 0 then ok (0, q) else ok (bit_or child flags, q)

-- The loop of `clone_pt`, `clone_pd` and `clone_pdpt` over entries, from `i` on with `n` left:
-- `clone` makes the child's entry of the parent's page and flags. False where that fails. The
-- parent's entry is read once.
unfoldable pub clone_entries :
    (ℕ → ℕ → Pmm → Run (ℕ × Pmm)) → ℕ → ℕ → ℕ → ℕ → Pmm → Run (Bool × Pmm)
clone_entries clone zero i parent child p = ok (true, p)
clone_entries clone (suc n) i parent child p =
    let e = entry p.memory parent i in
    let cloned = clone (page_of e) (e % 4096) p >>= λ (c, q).
    if c == 0
    then ok (false, q)
    else clone_entries clone n (i + 1) parent child (set_entry q child i c) in
    let skipped = clone_entries clone n (i + 1) parent child (set_entry p child i 0) in
    if is_present e then cloned else skipped

-- `clone_pt` and its two callers.
unfoldable pub clone_table : (ℕ → ℕ → Pmm → Run (ℕ × Pmm)) → ℕ → Pmm → Run (ℕ × Pmm)
clone_table clone parent p = alloc_page p >>= λ (child, q).
    if child == 0
    then ok (0, q)
    else clone_entries clone 512 0 parent child q >>= λ (done, r).
        if done then ok (child, r) else (free_page r child >>= λ s. ok (0, s))

unfoldable pub clone_pt : ℕ → Pmm → Run (ℕ × Pmm)
clone_pt = clone_table clone_page

unfoldable pub clone_pd : ℕ → Pmm → Run (ℕ × Pmm)
clone_pd = clone_table (with_flags clone_pt)

unfoldable pub clone_pdpt : ℕ → Pmm → Run (ℕ × Pmm)
clone_pdpt = clone_table (with_flags clone_pd)

-- The loop over the lower half, where entries that are not present are left alone.
unfoldable pub clone_user : ℕ → ℕ → ℕ → ℕ → Pmm → Run (Bool × Pmm)
clone_user zero i parent child p = ok (true, p)
clone_user (suc n) i parent child p =
    let e = entry p.memory parent i in
    let cloned = with_flags clone_pdpt (page_of e) (e % 4096) p >>= λ (c, q).
    if c == 0 then ok (false, q) else clone_user n (i + 1) parent child (set_entry q child i c) in
    let skipped = clone_user n (i + 1) parent child p in if is_present e then cloned else skipped

-- `for (i = first; n rounds) table[i] = 0`.
unfoldable pub zero_entries : ℕ → ℕ → ℕ → Pmm → Pmm
zero_entries zero i table p = p
zero_entries (suc n) i table p = zero_entries n (i + 1) table (set_entry p table i 0)

unfoldable pub clone_address_space : ℕ → ℕ → Pmm → Run (ℕ × Pmm)
clone_address_space pml4 parent_pml4 p = alloc_page p >>= λ (child, q).
    if child == 0
    then ok (0, q)
    else let r = copy_entries 256 256 parent_pml4 child (zero_entries 512 0 child q) in
      clone_user 256 0 parent_pml4 child r >>= λ (done, s).
      if done then ok (child, s) else (destroy_address_space pml4 s child >>= λ t. ok (0, t))

-- The loop of `vmm_clear_user_space`.
unfoldable pub clear_entries : ℕ → ℕ → ℕ → Pmm → Pmm
clear_entries zero i table p = p
clear_entries (suc n) i table p =
    clear_entries n (i + 1) table
      (if is_present (entry p.memory table i) then set_entry p table i 0 else p)

unfoldable pub clear_user_space : Pmm → ℕ → Pmm
clear_user_space p pml4 = clear_entries 256 0 pml4 p
