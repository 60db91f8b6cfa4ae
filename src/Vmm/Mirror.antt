-- ===== src/Vmm/Mirror.antt =====
-- What it means that one tree of tables copies another, and what keeps it so.
use simple_os.Prelude.{
  ℕ, zero, suc, ◌+◌, ◌*◌, ◌/◌, ◌%◌, ◌<◌, ◌≡◌, sym, ap, ◌∙◌, ◌==◌, true, false, arith, bit_and-one,
}
use simple_os.Pmm.{Pmm}
use simple_os.Pmm.View.{used}
use simple_os.Vmm.{entry, page_of, is_present}
use simple_os.Vmm.Walk.{Extends, Fresh}

-- The page at `t`, and with `k` levels of tables the pages that it leads to, are in use.
abbrev pub Held : ℕ → Pmm → ℕ → Type 0
Held zero p t = (t % 4096 ≡ 0) × (used p.bitmap (t / 4096) ≡ true)
Held (suc k) p t =
    (t % 4096 ≡ 0)
    × (used p.bitmap (t / 4096) ≡ true)
    × ((i : ℕ)
        → i < 512
        → is_present (entry p.memory t i) ≡ true
        → Held k p (page_of (entry p.memory t i)))

-- A table of which the first `bound` entries are so.
abbrev pub HeldBelow : ℕ → ℕ → Pmm → ℕ → Type 0
HeldBelow bound k p t =
    (t % 4096 ≡ 0)
    × (used p.bitmap (t / 4096) ≡ true)
    × ((i : ℕ)
        → i < bound
        → is_present (entry p.memory t i) ≡ true
        → Held k p (page_of (entry p.memory t i)))

-- The page at `t'` in `m'` copies the one at `t` in `m`: word by word at level 0, and above that
-- entry by entry, with the same flags on pages that copy one another.
abbrev pub Mirror : ℕ → (ℕ → ℕ) → ℕ → (ℕ → ℕ) → ℕ → Type 0
Mirror zero m t m' t' = (i : ℕ) → i < 512 → entry m' t' i ≡ entry m t i
Mirror (suc k) m t m' t' =
    (i : ℕ)
    → i < 512
    → (is_present (entry m' t' i) ≡ is_present (entry m t i))
      × (is_present (entry m t i) ≡ true
          → (entry m' t' i % 4096 ≡ entry m t i % 4096)
            × Mirror k m (page_of (entry m t i)) m' (page_of (entry m' t' i)))

-- One entry of the above.
abbrev pub MirrorEntry : ℕ → (ℕ → ℕ) → ℕ → (ℕ → ℕ) → ℕ → Type 0
MirrorEntry k m e m' e' =
    (is_present e' ≡ is_present e)
    × (is_present e ≡ true → (e' % 4096 ≡ e % 4096) × Mirror k m (page_of e) m' (page_of e'))

pub Held-used :
    (k : ℕ) (p : Pmm) (t : ℕ) → Held k p t → (t % 4096 ≡ 0) × (used p.bitmap (t / 4096) ≡ true)
Held-used zero p t h = h
Held-used (suc k) p t h = (h.0, h.1)

-- An entry of a page in use stays.
pub same_entry :
    {p q : Pmm} (t i : ℕ)
    → Extends p q
    → t % 4096 ≡ 0
    → used p.bitmap (t / 4096) ≡ true
    → i < 512
    → entry q.memory t i ≡ entry p.memory t i
same_entry {p} t i x a u h =
    let at : (t + 8 * i) / 4096 ≡ t / 4096 = omega arith in x.same (t + 8 * i) (rw at u)

pub Held-Extends : (k : ℕ) {p q : Pmm} (t : ℕ) → Extends p q → Held k p t → Held k q t
Held-Extends zero t x h = (h.0, x.still (t / 4096) h.1)
Held-Extends (suc k) {p} {q} t x h = (
  h.0,
  x.still (t / 4096) h.1,
  λ i l e.
      let same = same_entry t i x h.0 h.1 l in
      rw same
        (Held-Extends k (page_of (entry p.memory t i)) x (h.2 i l (ap is_present (sym same) ∙ e))),
)

-- What has been taken between `p` and `q` reads in `m` as in `q`.
abbrev pub KeepsNew : Pmm → Pmm → (ℕ → ℕ) → Type 0
KeepsNew p q m =
    (b : ℕ) → used p.bitmap (b / 4096) ≡ false → used q.bitmap (b / 4096) ≡ true → m b ≡ q.memory b

pub new_entry :
    {p q : Pmm} (m : ℕ → ℕ) (t i : ℕ)
    → Fresh p q t
    → KeepsNew p q m
    → i < 512
    → entry m t i ≡ entry q.memory t i
new_entry m t i f kept h =
    let at : (t + 8 * i) / 4096 ≡ t / 4096 = omega (arith, f.aligned) in
    kept (t + 8 * i) (rw at f.was_free) (rw at f.taken)

-- The original may be read before or after.
pub Mirror-Extends :
    (k : ℕ) {p q : Pmm} (t : ℕ) (m' : ℕ → ℕ) (t' : ℕ)
    → Extends p q
    → Held k p t
    → Mirror k q.memory t m' t'
    → Mirror k p.memory t m' t'
Mirror-Extends zero t m' t' x h c = λ i l. c i l ∙ same_entry t i x h.0 h.1 l
Mirror-Extends (suc k) {p} {q} t m' t' x h c = λ i l.
    let same = same_entry t i x h.0 h.1 l in
    (
      (c i l).0 ∙ ap is_present same,
      λ e.
          let (f, d) = (c i l).1 (ap is_present same ∙ e) in
          (
            f ∙ ap (λ y. y % 4096) same,
            Mirror-Extends k (page_of (entry p.memory t i)) m' (page_of (entry m' t' i)) x
                (h.2 i l e) (rw (sym same) d),
          ),
    )

-- Bit 0 of an entry.
pub is_present-eq : (e : ℕ) → is_present e ≡ (e % 2 == 1)
is_present-eq e = rw (bit_and-one e) (ground arith)
