-- ===== src/Vmm/Fill.antt =====
-- The loops of vmm.c that fill a fresh table with zeros or with another table's entries.
use simple_os.Prelude.{
  ℕ, zero, suc, ◌+◌, ◌/◌, ◌%◌, ◌≤◌, ◌<◌, ◌≡◌, refl, ◌∙◌, ◌⊎◌, inl, inr, ◌==◌, ==_iff, true, arith,
  Bool-cases,
}
use simple_os.Pmm.{Pmm}
use simple_os.Pmm.View.{used}
use simple_os.Vmm.{entry, set_entry, zero_entries, copy_entries}
use simple_os.Vmm.Walk.{Extends, Fresh, set_entry-Extends}
use simple_os.Vmm.Mirror.{same_entry}
use simple_os.Vmm.Loop.{written}

-- Writes have taken `r` to `q`: the entries of the fresh table `c` from `i` up to `e` are now `f`.
pub record Wrote (p r q : Pmm) (c i e : ℕ) (f : ℕ → ℕ) : Type 0 where
  pub extends : Extends p q
  pub fresh : Fresh p q c
  pub inside : (j : ℕ) → i ≤ j → j < e → entry q.memory c j ≡ f j
  pub outside : (j : ℕ) → (j < i) ⊎ (e ≤ j) → entry q.memory c j ≡ entry r.memory c j

Wrote-none : {p r : Pmm} (c i : ℕ) (f : ℕ → ℕ) → Extends p r → Fresh p r c → Wrote p r r c i i f
Wrote-none c i f x y = record {
  extends = x;
  fresh = y;
  inside = λ j lo hi. absurd (omega arith);
  outside = λ j h. refl;
}

Wrote-more :
    {p r q : Pmm} (c i e v : ℕ) (f : ℕ → ℕ)
    → v ≡ f i
    → i < e
    → Wrote p (set_entry r c i v) q c (i + 1) e f
    → Wrote p r q c i e f
Wrote-more {r = r} c i e v f at l w = record {
  extends = w.extends;
  fresh = w.fresh;
  inside = λ j lo hi. elim (Bool-cases (j == i)) [
    | inl s ↦
        (let same = (==_iff j i).0 s in
          rw same (w.outside i (inl (omega arith)) ∙ ground (arith, at)))
    | inr s ↦ w.inside j (ground arith) hi
  ];
  outside = λ j h. w.outside j (ground (arith, h)) ∙ ground (arith, h);
}

pub zero_entries-Wrote :
    {p : Pmm} (n i c : ℕ) (r : Pmm)
    → Extends p r
    → Fresh p r c
    → i + n ≤ 512
    → Wrote p r (zero_entries n i c r) c i (i + n) (λ j. 0)
unfolding zero_entries
zero_entries-Wrote {p} zero i c r x f h =
    let e : i + 0 ≡ i = omega arith in rw e (Wrote-none c i (λ j. 0) x f)
zero_entries-Wrote {p} (suc n) i c r x f h =
    let e : i + suc n ≡ i + 1 + n = omega arith in
    rw e (
      Wrote-more c i (i + 1 + n) 0 (λ j. 0) refl (omega arith)
        (zero_entries-Wrote n (i + 1) c (set_entry r c i 0)
          (set_entry-Extends c i 0 x f (omega arith)) (written i 0 f) (omega arith)))

-- The entries copied from a table in use.
pub copy_entries-Wrote :
    {p : Pmm} (n i t c : ℕ) (r : Pmm)
    → Extends p r
    → Fresh p r c
    → t % 4096 ≡ 0
    → used p.bitmap (t / 4096) ≡ true
    → i + n ≤ 512
    → Wrote p r (copy_entries n i t c r) c i (i + n) (entry p.memory t)
unfolding copy_entries
copy_entries-Wrote {p} zero i t c r x f a u h =
    let e : i + 0 ≡ i = omega arith in rw e (Wrote-none c i (entry p.memory t) x f)
copy_entries-Wrote {p} (suc n) i t c r x f a u h =
    let e : i + suc n ≡ i + 1 + n = omega arith in
    let v = entry r.memory t i in
    rw e (
      Wrote-more c i (i + 1 + n) v (entry p.memory t) (same_entry t i x a u (omega arith))
        (omega arith)
        (copy_entries-Wrote n (i + 1) t c (set_entry r c i v)
          (set_entry-Extends c i v x f (omega arith)) (written i v f) a u (omega arith)))
