-- ===== src/Pmm/Memory.antt =====
-- The loop that clears allocated pages, 64 bit word by word.
use simple_os.Prelude.{ℕ, zero, suc, ◌+◌, ◌*◌, ◌≤◌, ◌<◌, ◌≡◌, refl, ◌∙◌, ap, ◌⊎◌, arith}
use simple_os.Pmm.{store, clear_words}

clear_words_outside :
    (n a : ℕ) (m : ℕ → ℕ) (b : ℕ) → (b < a) ⊎ (a + 8 * n ≤ b) → clear_words n a m b ≡ m b
unfolding clear_words
clear_words_outside zero a m b h = refl
clear_words_outside (suc n) a m b h =
    clear_words_outside n (a + 8) (store m a 0) b (omega arith) ∙ ground arith

clear_words_inside : (n a : ℕ) (m : ℕ → ℕ) (i : ℕ) → i < n → clear_words n a m (a + 8 * i) ≡ 0
unfolding clear_words
clear_words_inside zero a m i h = elim h [ ]
clear_words_inside (suc n) a m zero h =
    clear_words_outside n (a + 8) (store m a 0) (a + 8 * 0) (omega arith) ∙ ground arith
clear_words_inside (suc n) a m (suc i) h =
    ap (clear_words n (a + 8) (store m a 0)) (omega arith)
    ∙ clear_words_inside n (a + 8) (store m a 0) i (omega arith)

-- The `n` words from `a` on are zero in `m'`, which is `m` elsewhere.
pub record Cleared (n a : ℕ) (m m' : ℕ → ℕ) : Type 0 where
  pub zeroed : (i : ℕ) → i < n → m' (a + 8 * i) ≡ 0
  pub kept : (b : ℕ) → (b < a) ⊎ (a + 8 * n ≤ b) → m' b ≡ m b

pub clear_words-Cleared : (n a : ℕ) (m : ℕ → ℕ) → Cleared n a m (clear_words n a m)
clear_words-Cleared n a m = record {
  zeroed = clear_words_inside n a m;
  kept = clear_words_outside n a m;
}
