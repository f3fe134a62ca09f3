-- ===== src/Sweep/Reclaim.antt =====
-- GC_reclaim_clear and GC_reclaim_uninit keep what is marked and chain what is not.
use boehmgc.Base.{
  ℕ, zero, suc, ◌+◌, ◌-◌, ◌*◌, ◌/◌, ◌%◌, ◌^◌, ◌≤◌, ◌<◌, ◌≡◌, refl, inl, inr, Bool, some, List, [],
  ◌∷◌, arith, le→leb, lt→leb_false, Bool-cases, All-mono,
}
use boehmgc.Memory.{store}
use boehmgc.Sweep.{
  hblksize, Sweep, push, reclaim_clear_loop, reclaim_clear, reclaim_uninit_loop, reclaim_uninit,
}
use boehmgc.Sweep.Spec.{Blank, Blank-kept, Blank-freed}
use boehmgc.Sweep.Step.{
  Chained, push-Chained, free_object, Swept, by_marks, Swept-zero, Swept-kept, Swept-freed,
}

module _ (marks : ℕ → Bool) (sz w lim : ℕ) (whole : sz ≡ 8 * w) (pos : 0 < w)
    (room : sz ≤ lim) where
  reclaim_clear_loop-Swept :
      (old k n bit p : ℕ) (xs : List ℕ) (s : Sweep)
      → s.count < 2 ^ 64
      → p + n * sz ≤ lim
      → lim < p + suc n * sz
      → n < k
      → Chained p xs old s
      → (s' : Sweep) × (reclaim_clear_loop marks sz (lim - sz) k bit p s ≡ some s')
        × Swept (by_marks marks) sz bit p n xs old s s'
        × Blank (by_marks marks) sz bit p n s'.mem
  unfolding reclaim_clear_loop
  reclaim_clear_loop-Swept old zero n bit p xs s small fits last fuel c = absurd (omega arith)
  reclaim_clear_loop-Swept old (suc k) zero bit p xs s small fits last fuel c = (
    s,
    rw (lt→leb_false p (lim - sz) (omega arith)),
    Swept-zero (by_marks marks) sz bit p xs old s small c,
    record { zeros = λ j i h. absurd (omega arith) },
  )
  reclaim_clear_loop-Swept old (suc k) (suc n) bit p xs s small fits last fuel c =
      rw (le→leb p (lim - sz) (omega arith)) (elim (Bool-cases (marks bit)) [
        | inl kept ↦
            let (s', run, t, b) =
              reclaim_clear_loop-Swept old k n (bit + sz / 16) (p + sz) xs s small (omega arith)
                (omega arith) (omega arith)
                (record { links = c.links; behind = All-mono xs (λ a g. omega arith) c.behind }) in
            (
              s',
              rw kept run,
              Swept-kept (by_marks marks) sz bit p n xs old s kept t,
              Blank-kept (by_marks marks) sz bit p n kept b,
            )
        | inr free ↦
            let (t, freed, f) = free_object p sz w xs old s whole pos c in
            let (s', run, r, b) =
              reclaim_clear_loop-Swept old k n (bit + sz / 16) (p + sz) (p ∷ xs) t
                (omega (arith, f.count)) (omega arith) (omega arith) (omega arith) f.chained in
            (
              s',
              rw (free, freed) run,
              Swept-freed (by_marks marks) sz bit p n xs old s free f.count f.below f.above r,
              Blank-freed (by_marks marks) sz bit p n w whole f.zeros r.untouched b,
            )
      ])

  -- The loop that counts apart and clears nothing.
  reclaim_uninit_loop-Swept :
      (old k n bit p found : ℕ) (xs : List ℕ) (s : Sweep)
      → found < 2 ^ 64
      → p + n * sz ≤ lim
      → lim < p + suc n * sz
      → n < k
      → Chained p xs old s
      → (found' : ℕ) × (s' : Sweep) × (reclaim_uninit_loop marks sz (lim - sz) k bit p found s
          ≡ some (found', s'))
        × Swept
            (by_marks marks)
            sz
            bit
            p
            n
            xs
            old
            (record s { count = found })
            (record s' { count = found' })
        × (s'.count ≡ s.count)
  unfolding reclaim_uninit_loop push store
  reclaim_uninit_loop-Swept old zero n bit p found xs s small fits last fuel c =
      absurd (omega arith)
  reclaim_uninit_loop-Swept old (suc k) zero bit p found xs s small fits last fuel c = (
    found,
    s,
    rw (lt→leb_false p (lim - sz) (omega arith)),
    Swept-zero (by_marks marks) sz bit p xs old (record s { count = found }) small
        (record { links = c.links; behind = c.behind }),
    refl,
  )
  reclaim_uninit_loop-Swept old (suc k) (suc n) bit p found xs s small fits last fuel c =
      rw (le→leb p (lim - sz) (omega arith)) (elim (Bool-cases (marks bit)) [
        | inl kept ↦
            let (found', s', run, t, same) =
              reclaim_uninit_loop-Swept old k n (bit + sz / 16) (p + sz) found xs s small
                (omega arith) (omega arith) (omega arith)
                (record { links = c.links; behind = All-mono xs (λ a g. omega arith) c.behind }) in
            (
              found',
              s',
              rw kept run,
              Swept-kept (by_marks marks) sz bit p n xs old (record s { count = found }) kept t,
              same,
            )
        | inr free ↦
            let (found', s', run, t, same) =
              reclaim_uninit_loop-Swept old k n (bit + sz / 16) (p + sz) ((found + sz) % 2 ^ 64)
                (p ∷ xs) (push p s) (omega arith) (omega arith) (omega arith) (omega arith)
                (push-Chained p sz xs old s (omega arith) c) in
            (
              found',
              s',
              rw free run,
              Swept-freed (by_marks marks) sz bit p n xs old (record s { count = found }) free refl
                  (λ a g. ground arith) (λ a g. ground arith) t,
              same,
            )
      ])

module _ (hbp sz w : ℕ) (whole : sz ≡ 8 * w) (pos : 0 < w) (fits : sz ≤ hblksize) where
  pub objects_fit : hbp + (hblksize / sz) * sz ≤ hbp + hblksize
  objects_fit = grind arith

  pub no_more_fit : hbp + hblksize < hbp + suc (hblksize / sz) * sz
  no_more_fit = grind arith

  pub few_objects : hblksize / sz < hblksize + 1
  few_objects = grind arith

module _ (marks : ℕ → Bool) (hbp sz w : ℕ) (whole : sz ≡ 8 * w) (pos : 0 < w)
    (fits : sz ≤ hblksize) where
  -- For objects of `w` words that fit a block, and a byte counter below 2 ^ 64, GC_reclaim_clear
  -- ends. It chains exactly the unmarked objects, the last one first, in front of
  -- the old list, counts their bytes, clears them behind their links, and changes no other memory.
  pub reclaim_clear-Swept :
      (s : Sweep)
      → s.count < 2 ^ 64
      → (s' : Sweep) × (reclaim_clear marks hbp sz s ≡ some s')
        × Swept (by_marks marks) sz 0 hbp (hblksize / sz) [] s.list s s'
        × Blank (by_marks marks) sz 0 hbp (hblksize / sz) s'.mem
  unfolding reclaim_clear
  reclaim_clear-Swept s small =
      reclaim_clear_loop-Swept marks sz w (hbp + hblksize) whole pos (omega arith) s.list
        (hblksize + 1) (hblksize / sz) 0 hbp [] s small (objects_fit hbp sz w whole pos fits)
        (no_more_fit hbp sz w whole pos fits) (few_objects hbp sz w whole pos fits)
        (record { links = refl; behind = tt })

  -- For objects of `w` words that fit a block, and a byte counter below 2 ^ 64, GC_reclaim_uninit
  -- ends. It chains exactly the unmarked objects, the last one first, in front of the old list,
  -- counts their bytes, and changes no memory outside them.
  pub reclaim_uninit-Swept :
      (s : Sweep)
      → s.count < 2 ^ 64
      → (s' : Sweep) × (reclaim_uninit marks hbp sz s ≡ some s')
        × Swept (by_marks marks) sz 0 hbp (hblksize / sz) [] s.list s s'
  unfolding reclaim_uninit
  reclaim_uninit-Swept s small =
      let (found, s', run, t, same) =
        reclaim_uninit_loop-Swept marks sz w (hbp + hblksize) whole pos (omega arith) s.list
          (hblksize + 1) (hblksize / sz) 0 hbp 0 [] s (omega arith)
          (objects_fit hbp sz w whole pos fits) (no_more_fit hbp sz w whole pos fits)
          (few_objects hbp sz w whole pos fits) (record { links = refl; behind = tt }) in
      (
        record s' { count = (s'.count + found) % 2 ^ 64 },
        rw (run, reclaim_uninit),
        record { links = t.links; count = omega (arith, t.count); untouched = t.untouched },
      )
