-- ===== src/Fs/Chain.antt =====
-- The blocks of a file as a list, and what the file holds.
use simple_os.Prelude.{
  ℕ, suc, ◌-◌, ◌*◌, ◌<◌, ◌≡◌, refl, ◌∙◌, inl, inr, ltb, if◌then◌else◌, true, false, List, [], ◌∷◌,
  ◌++◌, length, arith, Bool-cases, In, Away,
}
use simple_os.Fs.{Ramfs, block_size, max_blocks, no_block, taken}

-- From `b` on, the blocks are those of the list: they are in use, and none comes twice.
abbrev pub Chained : Ramfs → ℕ → List ℕ → Type 0
Chained fs b [] = b ≡ no_block
Chained fs b (x ∷ xs) =
    (b ≡ x)
    × (x < max_blocks)
    × (taken fs.free_blocks x ≡ true)
    × Away x xs
    × Chained fs (fs.next_block x) xs

-- Byte `j` of what the blocks hold.
unfoldable pub held : (ℕ → ℕ → ℕ) → List ℕ → ℕ → ℕ
held c [] j = 0
held c (x ∷ xs) j = if ltb j block_size then c x j else held c xs (j - block_size)

pub held-append :
    (c : ℕ → ℕ → ℕ) (bs cs : List ℕ) (j : ℕ)
    → held c (bs ++ cs) j ≡ (
        if ltb j (block_size * length bs)
        then held c bs j
        else held c cs (j - block_size * length bs))
unfolding held
held-append c [] cs j =
    let low : ltb j (512 * 0) ≡ false = ground arith in
    let at : j - 512 * 0 ≡ j = omega arith in rw (low, at) refl
held-append c (x ∷ bs) cs j = elim (Bool-cases (ltb j block_size)) [
  | inl e ↦
      (let low : ltb j (block_size * suc (length bs)) ≡ true = ground (arith, e) in
        rw (e, low) refl)
  | inr e ↦
      let less : ltb (j - 512) (512 * length bs) ≡ ltb j (block_size * suc (length bs)) =
        ground (arith, e) in
      let off : j - 512 - 512 * length bs ≡ j - 512 * suc (length bs) = omega arith in
      rw e (held-append c bs cs (j - block_size) ∙ rw (less, off) refl)
]

-- What does not change the chain's blocks does not change what they hold.
pub held-same :
    (c d : ℕ → ℕ → ℕ) (bs : List ℕ) (j : ℕ)
    → ((b : ℕ) → In b bs → c b ≡ d b)
    → held c bs j ≡ held d bs j
unfolding held
held-same c d [] j h = refl
held-same c d (x ∷ bs) j h =
    let rest = held-same c d bs (j - block_size) (λ b k. h b (inr k)) in
    let here = h x (inl refl) in rw (rest, here) refl
