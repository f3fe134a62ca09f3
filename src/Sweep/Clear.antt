-- ===== src/Sweep/Clear.antt =====
-- GC_clear_block: the words of an object behind its link word become zero, and nothing else.
use boehmgc.Base.{
  ℕ, zero, suc, ◌+◌, ◌*◌, ◌%◌, ◌^◌, ◌≤◌, ◌<◌, ◌≡◌, refl, some, arith, lt→ltb, le→ltb_false,
}
use boehmgc.Memory.{Mem, store}
use boehmgc.Sweep.{Sweep, clear_words, clear_block}

-- `m'` is `m` with the `n` words from `p` on cleared.
record Zeroed (p n : ℕ) (m m' : Mem) : Type 0 where
  below : (a : ℕ) → a < p → m' a ≡ m a
  above : (a : ℕ) → p + 8 * n ≤ a → m' a ≡ m a
  zeros : (j : ℕ) → j < n → m' (p + 8 * j) ≡ 0

clear_words-Zeroed :
    (n k p q : ℕ) (m : Mem)
    → q ≡ p + 8 * n
    → n < k
    → (m' : Mem) × (clear_words k p q m ≡ some (q, m')) × Zeroed p n m m'
unfolding clear_words store
clear_words-Zeroed n zero p q m e f = absurd (omega arith)
clear_words-Zeroed zero (suc k) p q m e f =
    let e' : q ≡ p = omega arith in
    (
      m,
      rw (le→ltb_false p q (omega arith), e'),
      record { below = λ a h. refl; above = λ a h. refl; zeros = λ j h. absurd (omega arith) },
    )
clear_words-Zeroed (suc n) (suc k) p q m e f =
    let (m', run, z) = clear_words-Zeroed n k (p + 8) q (store m p 0) (omega arith) (omega arith) in
    (
      m',
      rw (lt→ltb p q (omega arith)) run,
      record {
        below = λ a h. ground (arith, z.below a);
        above = λ a h. ground (arith, z.above a);
        zeros = elim [
          | zero ↦ λ h. ground (arith, z.below p)
          | suc i ↦ λ h. ground (arith, z.zeros i)
        ];
      },
    )

pub record Cleared (p w : ℕ) (s s' : Sweep) : Type 0 where
  pub list : s'.list ≡ s.list
  pub count : s'.count ≡ (s.count + 8 * w) % 2 ^ 64
  pub below : (a : ℕ) → a < p + 8 → s'.mem a ≡ s.mem a
  pub above : (a : ℕ) → p + 8 * w ≤ a → s'.mem a ≡ s.mem a
  pub zeros : (j : ℕ) → 0 < j → j < w → s'.mem (p + 8 * j) ≡ 0

pub clear_block-Cleared :
    (p sz w : ℕ) (s : Sweep)
    → sz ≡ 8 * w
    → 0 < w
    → (s' : Sweep) × (clear_block p sz s ≡ some (p + sz, s')) × Cleared p w s s'
unfolding clear_block
clear_block-Cleared p sz zero s e h = absurd (omega arith)
clear_block-Cleared p sz (suc v) s e h =
    let (m, run, z) = clear_words-Zeroed v sz (p + 8) (p + sz) s.mem (omega arith) (omega arith) in
    (
      record s { mem = m; count = (s.count + sz) % 2 ^ 64 },
      rw (run, clear_block),
      record {
        list = refl;
        count = rw e;
        below = z.below;
        above = λ a g. z.above a (omega arith);
        zeros = elim [
          | zero ↦ λ g. absurd (omega arith)
          | suc i ↦ λ _ g. ground (arith, z.zeros i)
        ];
      },
    )
