-- ===== src/Process/Queue.antt =====
-- The ready queue of process.c, refined to a list of addresses, oldest first.
use simple_os.Prelude.{
  ℕ, ◌≡◌, ◌≢◌, refl, ◌∙◌, sym, ap, subst, inl, inr, ◌==◌, if◌then◌else◌, List, [], ◌∷◌, ◌++◌, arith,
}
use simple_os.Process.{Process, Kernel, ready_queue_push, ready_queue_remove, ready_queue_pop}
use simple_os.Process.Links.{
  In, Distinct, head_of, last_of, Seg, Seg-split, Seg-append, Seg-relink, Seg-reprev, Seg-nonzero,
  Distinct-parts, Distinct-append, last_of-In, last_of-append, head_of-append,
}

-- The ready queue holds exactly the blocks of the list, in order.
pub record IsQueue (k : Kernel) (xs : List ℕ) : Type 0 where
  pub front : k.ready_queue_head ≡ head_of xs 0
  pub back : k.ready_queue_tail ≡ last_of 0 xs
  pub links : Seg k.block 0 0 xs
  pub distinct : Distinct xs

-- What a queue operation leaves alone: every block but for its two links, and the other variables.
pub record KeepsBlocks (k q : Kernel) : Type 0 where
  pub pid : (p : ℕ) → (q.block p).pid ≡ (k.block p).pid
  pub state : (p : ℕ) → (q.block p).state ≡ (k.block p).state
  pub page_table : (p : ℕ) → (q.block p).page_table ≡ (k.block p).page_table
  pub parent_pid : (p : ℕ) → (q.block p).parent_pid ≡ (k.block p).parent_pid
  pub kernel_stack : (p : ℕ) → (q.block p).kernel_stack ≡ (k.block p).kernel_stack
  pub ticks : (p : ℕ) → (q.block p).ticks_remaining ≡ (k.block p).ticks_remaining
  pub total : (p : ℕ) → (q.block p).ticks_total ≡ (k.block p).ticks_total
  pub process_table : q.process_table ≡ k.process_table
  pub current : q.current_process ≡ k.current_process
  pub idle : q.idle_process ≡ k.idle_process
  pub enabled : q.scheduler_enabled ≡ k.scheduler_enabled
  pub events : q.events ≡ k.events

pub push-KeepsBlocks : (k : Kernel) (p : ℕ) → KeepsBlocks k (ready_queue_push k p)
unfolding ready_queue_push
push-KeepsBlocks k p = record {
  pid = λ y. ground arith;
  state = λ y. ground arith;
  page_table = λ y. ground arith;
  parent_pid = λ y. ground arith;
  kernel_stack = λ y. ground arith;
  ticks = λ y. ground arith;
  total = λ y. ground arith;
  process_table = ground arith;
  current = ground arith;
  idle = ground arith;
  enabled = ground arith;
  events = ground arith;
}

module _ (k : Kernel) (a : ℕ) (nonzero : a ≢ 0) where
  push-prev : (y : ℕ) → y ≢ a → ((ready_queue_push k a).block y).prev ≡ (k.block y).prev
  unfolding ready_queue_push
  push-prev y h = ground arith

  push-next :
      (y : ℕ)
      → y ≢ a
      → y ≢ k.ready_queue_tail
      → ((ready_queue_push k a).block y).next ≡ (k.block y).next
  unfolding ready_queue_push
  push-next y h t = ground arith

  push-back : k.ready_queue_tail ≢ 0 → ((ready_queue_push k a).block k.ready_queue_tail).next ≡ a
  unfolding ready_queue_push
  push-back h = ground arith

  push_self :
      k.ready_queue_tail ≢ a
      → (((ready_queue_push k a).block a).next ≡ 0)
        × (((ready_queue_push k a).block a).prev ≡ k.ready_queue_tail)
  unfolding ready_queue_push
  push_self h = (ground arith, ground arith)

  push-ends :
      ((ready_queue_push k a).ready_queue_tail ≡ a)
      × ((ready_queue_push k a).ready_queue_head
          ≡ (if k.ready_queue_tail == 0 then a else k.ready_queue_head))
  unfolding ready_queue_push
  push-ends = (ground arith, ground arith)

  -- Pushing a block that is not queued, and not NULL, puts it at the end of the queue.
  pub push-IsQueue :
      (xs : List ℕ) → IsQueue k xs → ¬ In a xs → IsQueue (ready_queue_push k a) (xs ++ a ∷ [])
  push-IsQueue [] v out = record {
    front = push-ends.1 ∙ ground (arith, v.back);
    back = push-ends.0;
    links = (
      nonzero,
      (push_self (ground (arith, v.back))).1 ∙ v.back,
      (push_self (ground (arith, v.back))).0,
      tt,
    );
    distinct = ((λ h. h), tt);
  }
  push-IsQueue (x ∷ xs) v out = record {
    front = push-ends.1 ∙ ground (arith, v.back, v.front, tail_nonzero);
    back = push-ends.0 ∙ sym (last_of-append x xs (a ∷ []));
    links =
        Seg-append (ready_queue_push k a).block 0 0 (x ∷ xs) (a ∷ [])
          (Seg-relink k.block (ready_queue_push k a).block 0 0 a (x ∷ xs) v.distinct v.links
            (λ y h. push-prev y (λ e. out (subst (λ z. In z (x ∷ xs)) e h)))
            (λ y h t. push-next y (λ e. out (subst (λ z. In z (x ∷ xs)) e h)) (λ e. t (e ∙ v.back)))
            (λ h.
              ap (λ z. ((ready_queue_push k a).block z).next) (sym v.back)
              ∙ push-back tail_nonzero))
          (nonzero, (push_self tail_ne).1 ∙ v.back, (push_self tail_ne).0, tt);
    distinct =
        Distinct-append (x ∷ xs) (a ∷ []) v.distinct ((λ h. h), tt)
          (λ y h i. elim i [ inl e ↦ out (subst (λ z. In z (x ∷ xs)) e h) | inr f ↦ f ]);
  }
    where
      tail_nonzero : k.ready_queue_tail ≢ 0
      tail_nonzero =
          rw v.back (Seg-nonzero k.block 0 0 (x ∷ xs) v.links (last_of x xs) (last_of-In x xs))

      tail_ne : k.ready_queue_tail ≢ a
      tail_ne e = out (subst (λ z. In z (x ∷ xs)) (sym v.back ∙ e) (last_of-In x xs))

pub remove-KeepsBlocks : (k : Kernel) (p : ℕ) → KeepsBlocks k (ready_queue_remove k p)
unfolding ready_queue_remove
remove-KeepsBlocks k p = record {
  pid = λ y. ground arith;
  state = λ y. ground arith;
  page_table = λ y. ground arith;
  parent_pid = λ y. ground arith;
  kernel_stack = λ y. ground arith;
  ticks = λ y. ground arith;
  total = λ y. ground arith;
  process_table = ground arith;
  current = ground arith;
  idle = ground arith;
  enabled = ground arith;
  events = ground arith;
}

module _ (k : Kernel) (a : ℕ) (before : (k.block a).prev ≢ a) (after : (k.block a).next ≢ a) where
  remove-next :
      (y : ℕ)
      → y ≢ a
      → y ≢ (k.block a).prev
      → ((ready_queue_remove k a).block y).next ≡ (k.block y).next
  unfolding ready_queue_remove
  remove-next y h t = ground arith

  remove-prev :
      (y : ℕ)
      → y ≢ a
      → y ≢ (k.block a).next
      → ((ready_queue_remove k a).block y).prev ≡ (k.block y).prev
  unfolding ready_queue_remove
  remove-prev y h t = ground arith

  remove-before :
      (k.block a).prev ≢ 0
      → ((ready_queue_remove k a).block (k.block a).prev).next ≡ (k.block a).next
  unfolding ready_queue_remove
  remove-before h = ground arith

  remove-after :
      (k.block a).next ≢ 0
      → ((ready_queue_remove k a).block (k.block a).next).prev ≡ (k.block a).prev
  unfolding ready_queue_remove
  remove-after h = ground arith

  remove-ends :
      ((ready_queue_remove k a).ready_queue_head
        ≡ (if (k.block a).prev == 0 then (k.block a).next else k.ready_queue_head))
      × ((ready_queue_remove k a).ready_queue_tail
          ≡ (if (k.block a).next == 0 then (k.block a).prev else k.ready_queue_tail))
  unfolding ready_queue_remove
  remove-ends = (ground arith, ground arith)

module _ (k : Kernel) (a : ℕ) (xs ys : List ℕ) (v : IsQueue k (xs ++ a ∷ ys)) where
  front_part : Seg k.block 0 a xs
  front_part = (Seg-split k.block 0 0 xs (a ∷ ys) v.links).0

  back_part : Seg k.block (last_of 0 xs) 0 (a ∷ ys)
  back_part = (Seg-split k.block 0 0 xs (a ∷ ys) v.links).1

  apart : (y : ℕ) → In y xs → ¬ In y (a ∷ ys)
  apart = (Distinct-parts xs (a ∷ ys) v.distinct).2

  xs-Distinct : Distinct xs
  xs-Distinct = (Distinct-parts xs (a ∷ ys) v.distinct).0

  ys-Distinct : Distinct (a ∷ ys)
  ys-Distinct = (Distinct-parts xs (a ∷ ys) v.distinct).1

  xs_nonzero : (y : ℕ) → In y xs → y ≢ 0
  xs_nonzero = Seg-nonzero k.block 0 a xs front_part

  ys_nonzero : (y : ℕ) → In y (a ∷ ys) → y ≢ 0
  ys_nonzero = Seg-nonzero k.block (last_of 0 xs) 0 (a ∷ ys) back_part

  before_ne : (zs : List ℕ) → zs ≡ xs → last_of 0 zs ≢ a
  before_ne [] e h = ys_nonzero a (inl refl) (sym h)
  before_ne (z ∷ zs) e h =
      apart (last_of z zs) (subst (In (last_of z zs)) e (last_of-In z zs)) (inl h)

  after_ne : (zs : List ℕ) → zs ≡ ys → head_of zs 0 ≢ a
  after_ne [] e h = ys_nonzero a (inl refl) (sym h)
  after_ne (z ∷ zs) e h = ys-Distinct.0 (subst (In a) e (inl (sym h)))

  head_apart : (y : ℕ) → In y xs → (zs : List ℕ) → zs ≡ ys → y ≢ head_of zs 0
  head_apart y h [] e q = xs_nonzero y h q
  head_apart y h (z ∷ zs) e q = apart y h (inr (subst (In y) e (inl q)))

  last_apart : (y : ℕ) → In y ys → (zs : List ℕ) → zs ≡ xs → y ≢ last_of 0 zs
  last_apart y h [] e q = ys_nonzero y (inr h) q
  last_apart y h (z ∷ zs) e q =
      apart y (rw q (subst (In (last_of z zs)) e (last_of-In z zs))) (inr h)

  before : (k.block a).prev ≢ a
  before = rw (back_part.1) (before_ne xs refl)

  after : (k.block a).next ≢ a
  after = rw (back_part.2) (after_ne ys refl)

  removed : ℕ → Process
  removed = (ready_queue_remove k a).block

  front_links : Seg removed 0 (head_of ys 0) xs
  unfolding removed
  front_links =
      Seg-relink k.block removed 0 a (head_of ys 0) xs xs-Distinct front_part
        (λ y h.
          remove-prev k a before after y (λ e. apart y h (inl e))
            (rw back_part.2 (head_apart y h ys refl)))
        (λ y h t. remove-next k a before after y (λ e. apart y h (inl e)) (rw back_part.1 t))
        (λ h.
          ap (λ z. (removed z).next) (sym back_part.1)
          ∙ remove-before k a before after (rw back_part.1 (xs_nonzero (last_of 0 xs) h))
          ∙ back_part.2)

  back_links : Seg removed (last_of 0 xs) 0 ys
  unfolding removed
  back_links =
      Seg-reprev k.block removed a (last_of 0 xs) 0 ys ys-Distinct.1 back_part.3
        (λ y h.
          remove-next k a before after y (λ e. ys-Distinct.0 (subst (λ z. In z ys) e h))
            (rw back_part.1 (last_apart y h xs refl)))
        (λ y h t.
          remove-prev k a before after y (λ e. ys-Distinct.0 (subst (λ z. In z ys) e h))
            (rw back_part.2 t))
        (λ h.
          ap (λ z. (removed z).prev) (sym back_part.2)
          ∙ remove-after k a before after (rw back_part.2 (ys_nonzero (head_of ys 0) (inr h)))
          ∙ back_part.1)

  new_front :
      (zs : List ℕ)
      → zs ≡ xs
      → (ready_queue_remove k a).ready_queue_head ≡ head_of zs (head_of ys 0)
  new_front [] e =
      (remove-ends k a before after).0 ∙ ground (arith, back_part.1, back_part.2, ap (last_of 0) e)
  new_front (z ∷ zs) e =
      (remove-ends k a before after).0
      ∙ ground (
        arith,
        back_part.1,
        v.front,
        head_of-append xs (a ∷ ys) 0,
        ap (λ l. head_of l a) e,
        ap (last_of 0) e,
        xs_nonzero (last_of z zs) (subst (In (last_of z zs)) e (last_of-In z zs)),
      )

  new_back :
      (zs : List ℕ)
      → zs ≡ ys
      → (ready_queue_remove k a).ready_queue_tail ≡ last_of (last_of 0 xs) zs
  new_back [] e =
      (remove-ends k a before after).1
      ∙ ground (arith, back_part.1, back_part.2, ap (λ l. head_of l 0) e)
  new_back (z ∷ zs) e =
      (remove-ends k a before after).1
      ∙ kept_tail (back_part.2 ∙ ap (λ l. head_of l 0) (sym e))
          (ys_nonzero z (inr (subst (In z) e (inl refl))))
      ∙ v.back
      ∙ last_of-append 0 xs (a ∷ ys)
      ∙ ap (last_of a) (sym e)
    where
      kept_tail :
          (k.block a).next ≡ z
          → z ≢ 0
          → (if (k.block a).next == 0 then (k.block a).prev else k.ready_queue_tail)
            ≡ k.ready_queue_tail
      kept_tail q nz = rw q (ground (arith, nz))

  -- Removing a queued block, wherever it stands, closes the queue over the gap.
  pub remove-IsQueue : IsQueue (ready_queue_remove k a) (xs ++ ys)
  unfolding removed
  remove-IsQueue = record {
    front = new_front xs refl ∙ sym (head_of-append xs ys 0);
    back = new_back ys refl ∙ sym (last_of-append 0 xs ys);
    links = Seg-append removed 0 0 xs ys front_links back_links;
    distinct = Distinct-append xs ys xs-Distinct ys-Distinct.1 (λ y h i. apart y h (inr i));
  }

-- `ready_queue_pop` returns NULL and changes nothing if the queue is empty.
pub pop-IsQueue_nil : (k : Kernel) → IsQueue k [] → ready_queue_pop k ≡ (0, k)
unfolding ready_queue_pop
pop-IsQueue_nil k v = ground (arith, v.front)

-- `ready_queue_pop` on a queue that is not empty returns the oldest block, unlinked, and leaves the
-- rest queued in order.
pub pop-IsQueue_cons :
    (k : Kernel) (x : ℕ) (xs : List ℕ)
    → IsQueue k (x ∷ xs)
    → (ready_queue_pop k ≡ (x, ready_queue_remove k x)) × IsQueue (ready_queue_remove k x) xs
unfolding ready_queue_pop
pop-IsQueue_cons k x xs v = (ground (arith, v.front, v.links.0), remove-IsQueue k x [] xs v)
