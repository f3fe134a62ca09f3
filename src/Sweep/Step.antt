-- ===== src/Sweep/Step.antt =====
-- Steps that the sweep loops of reclaim.c share: an object kept, an object put on the list, the end.
use boehmgc.Base.{
  ℕ, suc, ◌+◌, ◌*◌, ◌/◌, ◌%◌, ◌^◌, ◌≤◌, ◌<◌, ◌≡◌, refl, Bool, true, false, some, List, ◌∷◌, arith,
  length, All, All-mono,
}
use mathlib.Core.List.{reverse_aux}
use boehmgc.Memory.{store, Links, Links-frame}
use boehmgc.Sweep.{Sweep, push, clear_block}
use boehmgc.Sweep.Clear.{clear_block-Cleared}
use boehmgc.Sweep.Spec.{dead, Untouched, Untouched-kept, Untouched-freed}

-- The chain from `list` holds the objects `xs`, all of them below `p`, and then the old list.
pub record Chained (p : ℕ) (xs : List ℕ) (old : ℕ) (s : Sweep) : Type 0 where
  pub links : Links s.mem s.list xs old
  pub behind : All (λ x. x < p) xs

-- The object of size `sz`, or `w` words, at `p` goes on the list and is cleared.
pub record Freed (p sz w : ℕ) (xs : List ℕ) (old : ℕ) (s s' : Sweep) : Type 0 where
  pub chained : Chained (p + sz) (p ∷ xs) old s'
  pub count : s'.count ≡ (s.count + sz) % 2 ^ 64
  pub below : (a : ℕ) → a < p → s'.mem a ≡ s.mem a
  pub above : (a : ℕ) → p + sz ≤ a → s'.mem a ≡ s.mem a
  pub zeros : (j : ℕ) → 0 < j → j < w → s'.mem (p + 8 * j) ≡ 0

pub free_object :
    (p sz w : ℕ) (xs : List ℕ) (old : ℕ) (s : Sweep)
    → sz ≡ 8 * w
    → 0 < w
    → Chained p xs old s
    → (s' : Sweep) × (clear_block p sz (push p s) ≡ some (p + sz, s')) × Freed p sz w xs old s s'
unfolding push store
free_object p sz w xs old s e h c =
    let (s', run, z) = clear_block-Cleared p sz w (push p s) e h in
    (
      s',
      run,
      record {
        chained = record {
          links = (
            z.list,
            rw (head s' (z.below p (omega arith))) (
                Links-frame s.mem s'.mem s.list xs old
                  (All-mono xs (λ a g. ground (arith, z.below a)) c.behind) c.links),
          );
          behind = (omega arith, All-mono xs (λ a g. omega arith) c.behind);
        };
        count = omega (arith, z.count);
        below = λ a g. ground (arith, z.below a);
        above = λ a g. ground (arith, z.above a);
        zeros = z.zeros;
      },
    )
  where
    head : (s' : Sweep) → s'.mem p ≡ (push p s).mem p → s'.mem p ≡ s.list
    head s' g = ground arith

-- What the loops leave, from `n` objects at `p` with the first mark bit `bit`.
pub record Swept (keep : ℕ → ℕ → Bool) (sz bit p n : ℕ) (xs : List ℕ) (old : ℕ) (s s' : Sweep)
    : Type 0 where
  pub links : Links s'.mem s'.list (reverse_aux (dead keep sz bit p n) xs) old
  pub count : s'.count ≡ (s.count + sz * length (dead keep sz bit p n)) % 2 ^ 64
  pub untouched : Untouched keep sz bit p n s.mem s'.mem

abbrev pub by_marks : (ℕ → Bool) → ℕ → ℕ → Bool
by_marks marks bit p = marks bit

-- Where the loop stops: no object is left.
pub Swept-zero :
    (keep : ℕ → ℕ → Bool) (sz bit p : ℕ) (xs : List ℕ) (old : ℕ) (s : Sweep)
    → s.count < 2 ^ 64
    → Chained p xs old s
    → Swept keep sz bit p 0 xs old s s
unfolding dead
Swept-zero keep sz bit p xs old s small c = record {
  links = c.links;
  count = omega arith;
  untouched = record {
    below = λ a h. refl;
    above = λ a h. refl;
    live = λ j i h. absurd (omega arith);
  };
}

module _ (keep : ℕ → ℕ → Bool) (sz bit p n : ℕ) (xs : List ℕ) (old : ℕ) (s : Sweep) where
  pub Swept-kept :
      {s' : Sweep}
      → keep bit p ≡ true
      → Swept keep sz (bit + sz / 16) (p + sz) n xs old s s'
      → Swept keep sz bit p (suc n) xs old s s'
  unfolding dead
  Swept-kept kept t = record {
    links = rw kept t.links;
    count = rw kept t.count;
    untouched = Untouched-kept keep sz bit p n t.untouched;
  }

  pub Swept-freed :
      {t s' : Sweep}
      → keep bit p ≡ false
      → t.count ≡ (s.count + sz) % 2 ^ 64
      → ((a : ℕ) → a < p → t.mem a ≡ s.mem a)
      → ((a : ℕ) → p + sz ≤ a → t.mem a ≡ s.mem a)
      → Swept keep sz (bit + sz / 16) (p + sz) n (p ∷ xs) old t s'
      → Swept keep sz bit p (suc n) xs old s s'
  unfolding dead
  Swept-freed free count below above r = record {
    links = rw free r.links;
    count = rw free (omega (arith, r.count));
    untouched = Untouched-freed keep sz bit p n below above free r.untouched;
  }

pub push-Chained :
    (p sz : ℕ) (xs : List ℕ) (old : ℕ) (s : Sweep)
    → 0 < sz
    → Chained p xs old s
    → Chained (p + sz) (p ∷ xs) old (push p s)
unfolding push store
push-Chained p sz xs old s pos c =
    let head : (push p s).mem p ≡ s.list = ground arith in
    record {
      links = (
        refl,
        rw head (
            Links-frame s.mem (push p s).mem s.list xs old
              (All-mono xs (λ a g. ground arith) c.behind) c.links),
      );
      behind = (omega arith, All-mono xs (λ a g. omega arith) c.behind);
    }
