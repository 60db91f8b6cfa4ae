-- ===== src/Lifecycle/Destroy.antt =====
-- `process_destroy`, and that it takes back what `process_create` took.
use simple_os.Prelude.{ℕ, ◌≡◌, refl, ap, ◌==◌, false, List, ◌∷◌, ◌++◌, arith, Run, ok, ◌>>=◌}
use simple_os.Pmm.{Pmm}
use simple_os.Kmalloc.{Heap, kfree}
use simple_os.Kmalloc.Alloc.{IsHeap}
use simple_os.Process.{ProcessState, Kernel, ready_queue_remove}
use simple_os.Process.Queue.{IsQueue, remove-KeepsBlocks, remove-IsQueue}
use simple_os.Vmm.{destroy_address_space}
use simple_os.Lifecycle.{System}
use simple_os.Lifecycle.End.{clear_slot, leave, free_if, destroy_if, process_destroy}
use simple_os.Lifecycle.Fresh.{OneMore, kfree_more}

-- A block that is in use is given back.
pub free_if_lem :
    (s : System) (ptr : ℕ) (xs ys : List (ℕ × ℕ))
    → OneMore xs ptr ys
    → IsHeap s.heap ys
    → (h : Heap) × (free_if s ptr ≡ ok (record s { heap = h })) × IsHeap h xs
free_if_lem s ptr xs ys m v =
    let some_block : (ptr == 0) ≡ false = ground (arith, m.4) in
    let (h, e, w) = kfree_more s.heap ptr xs ys m v in (h, rw some_block (rw e refl), w)

-- Four steps that return, and what they end in.
four_steps {ℓ κ} :
    {A : Type ℓ} {B : Type κ} (f1 : Run A) (f2 f3 : A → Run A) (f4 : A → Run B) (last : A → B → A)
    (a b c : A) (d : B)
    → f1 ≡ ok a
    → f2 a ≡ ok b
    → f3 b ≡ ok c
    → f4 c ≡ ok d
    → (f1 >>= λ x. f2 x >>= λ y. f3 y >>= λ z. f4 z >>= λ h. ok (last z h)) ≡ ok (last c d)
four_steps f1 f2 f3 f4 last a b c d e1 e2 e3 e4 = rw e1 (rw e2 (rw e3 (rw e4 refl)))

table-IsQueue :
    (k : Kernel) (t ps : List ℕ) → IsQueue k ps → IsQueue (record k { process_table = t }) ps
table-IsQueue k t ps v = record {
  front = v.front;
  back = v.back;
  links = v.links;
  distinct = v.distinct;
}

-- Destroying a queued process takes it from the queue and the table, and gives back its blocks.
pub process_destroy_lem :
    (pml4 : ℕ) (s : System) (process : ℕ) (ps qs : List ℕ) (xs ys zs ws : List (ℕ × ℕ)) (u : Pmm)
    → (process == 0) ≡ false
    → (process == s.kernel.idle_process) ≡ false
    → (s.kernel.block process).state ≡ ProcessState.ready
    → IsQueue s.kernel (ps ++ process ∷ qs)
    → OneMore xs process ys
    → OneMore ys (s.image process).fd_table zs
    → OneMore zs (s.kernel.block process).kernel_stack ws
    → IsHeap s.heap ws
    → ((s.kernel.block process).page_table == 0) ≡ false
    → destroy_address_space pml4 s.pages (s.kernel.block process).page_table ≡ ok u
    → (r : System) × (process_destroy pml4 s process ≡ ok r)
      × (r.kernel.process_table ≡ clear_slot s.kernel.process_table process)
      × IsQueue r.kernel (ps ++ qs)
      × IsHeap r.heap xs
      × (r.pages ≡ u)
unfolding process_destroy
process_destroy_lem pml4 s process ps qs xs ys zs ws u nz live is_ready queue m1 m2 m3 v has_table
      destroys =
    let b = s.kernel.block process in
    let w : Kernel = ready_queue_remove s.kernel process in
    let s1 : System = leave (record s { kernel = w }) process in
    let listed : w.process_table ≡ s.kernel.process_table =
      (remove-KeepsBlocks s.kernel process).process_table in
    let (h2, e2, v2) = free_if_lem s1 b.kernel_stack zs ws m3 v in
    let s2 : System = record s1 { heap = h2 } in
    let (h3, e3, v3) = free_if_lem s2 (s.image process).fd_table ys zs m2 v2 in
    let s3 : System = record s2 { heap = h3 } in
    let e4 : destroy_if pml4 s3 b.page_table ≡ ok (record s3 { pages = u }) =
      rw (has_table, destroys) refl in
    let (h5, e5, v5) = kfree_more h3 process xs ys m1 v3 in
    (
      record s3 { pages = u; heap = h5 },
      rw (is_ready, nz, live)
          (four_steps (free_if s1 b.kernel_stack) (λ x. free_if x (s.image process).fd_table)
            (λ x. destroy_if pml4 x b.page_table) (λ x. kfree x.heap process)
            (λ x h. record x { heap = h }) s2 s3 (record s3 { pages = u }) h5 e2 e3 e4 e5),
      ap (λ t. clear_slot t process) listed,
      table-IsQueue w (clear_slot w.process_table process) (ps ++ qs)
          (remove-IsQueue s.kernel process ps qs queue),
      v5,
      refl,
    )
