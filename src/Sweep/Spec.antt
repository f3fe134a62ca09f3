-- ===== src/Sweep/Spec.antt =====
-- What the sweep of a block promises, independently of its loops.
use boehmgc.Base.{
  ℕ, zero, suc, ◌+◌, ◌*◌, ◌/◌, ◌≤◌, ◌<◌, ◌≡◌, Bool, true, false, List, [], ◌∷◌, if◌then◌else◌,
  arith, ◌∙◌,
}
use boehmgc.Memory.{Mem}

-- The addresses of the objects that are not kept, among the `n` objects of size `sz` from `p` on,
-- the first of which has the mark bit `bit`.
unfoldable pub dead : (ℕ → ℕ → Bool) → ℕ → ℕ → ℕ → ℕ → List ℕ
dead keep sz bit p zero = []
dead keep sz bit p (suc n) =
    let rest = dead keep sz (bit + sz / 16) (p + sz) n in if keep bit p then rest else p ∷ rest

-- `m'` is `m` but for the dead objects.
pub record Untouched (keep : ℕ → ℕ → Bool) (sz bit p n : ℕ) (m m' : Mem) : Type 0 where
  pub below : (a : ℕ) → a < p → m' a ≡ m a
  pub above : (a : ℕ) → p + n * sz ≤ a → m' a ≡ m a
  pub live :
      (j i : ℕ)
      → j < n
      → keep (bit + j * (sz / 16)) (p + j * sz) ≡ true
      → i < sz
      → m' (p + j * sz + i) ≡ m (p + j * sz + i)

-- The words of a dead object behind its link word.
pub record Blank (keep : ℕ → ℕ → Bool) (sz bit p n : ℕ) (m : Mem) : Type 0 where
  pub zeros :
      (j i : ℕ)
      → j < n
      → keep (bit + j * (sz / 16)) (p + j * sz) ≡ false
      → 0 < i
      → 8 * i < sz
      → m (p + j * sz + 8 * i) ≡ 0

module _ (keep : ℕ → ℕ → Bool) (sz bit p n : ℕ) {m m' : Mem} where
  -- The first object is kept: memory is as it was up to the second.
  pub Untouched-kept :
      Untouched keep sz (bit + sz / 16) (p + sz) n m m' → Untouched keep sz bit p (suc n) m m'
  Untouched-kept u = record {
    below = λ a h. u.below a (omega arith);
    above = λ a h. u.above a (omega arith);
    live = elim [
      | zero ↦ λ i _ k h. u.below (p + 0 * sz + i) (omega arith)
      | suc j ↦ λ i lt k h. ground (arith, u.live j i)
    ];
  }

  -- The first object is freed, with writes to it alone.
  pub Untouched-freed :
      {m'' : Mem}
      → ((a : ℕ) → a < p → m' a ≡ m a)
      → ((a : ℕ) → p + sz ≤ a → m' a ≡ m a)
      → keep bit p ≡ false
      → Untouched keep sz (bit + sz / 16) (p + sz) n m' m''
      → Untouched keep sz bit p (suc n) m m''
  Untouched-freed below above free u = record {
    below = λ a h. u.below a (omega arith) ∙ below a h;
    above = λ a h. u.above a (omega arith) ∙ above a (omega arith);
    live = elim [
      | zero ↦ λ i _ k h. ground arith
      | suc j ↦ λ i lt k h. ground (arith, u.live j i, above (p + suc j * sz + i))
    ];
  }

module _ (keep : ℕ → ℕ → Bool) (sz bit p n : ℕ) {m : Mem} where
  pub Blank-kept :
      keep bit p ≡ true → Blank keep sz (bit + sz / 16) (p + sz) n m → Blank keep sz bit p (suc n) m
  Blank-kept kept b = record {
    zeros = elim [
      | zero ↦ λ i _ k h l. ground arith
      | suc j ↦ λ i lt k h l. ground (arith, b.zeros j i)
    ];
  }

  pub Blank-freed :
      {m' : Mem} (w : ℕ)
      → sz ≡ 8 * w
      → ((i : ℕ) → 0 < i → i < w → m' (p + 8 * i) ≡ 0)
      → Untouched keep sz (bit + sz / 16) (p + sz) n m' m
      → Blank keep sz (bit + sz / 16) (p + sz) n m
      → Blank keep sz bit p (suc n) m
  Blank-freed w e zeros u b = record {
    zeros = elim [
      | zero ↦ λ i _ k h l. ground (arith, u.below (p + 8 * i), zeros i)
      | suc j ↦ λ i lt k h l. ground (arith, b.zeros j i)
    ];
  }
