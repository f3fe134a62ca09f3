-- ===== src/Sweep/Disclaim.antt =====
-- GC_disclaim_and_reclaim: an unmarked object stays if the notifier asks for it, and is then marked.
use boehmgc.Base.{
  ℕ, zero, suc, ◌+◌, ◌-◌, ◌*◌, ◌/◌, ◌^◌, ◌≤◌, ◌<◌, ◌≡◌, inl, inr, Bool, true, false, ◌||◌, some,
  List, [], ◌∷◌, arith, le→leb, lt→leb_false, Bool-cases, All-mono, refl, sym, ◌∙◌,
}
use boehmgc.Sweep.{hblksize, Sweep, Marks, keep_object, disclaim_loop, disclaim_and_reclaim}
use boehmgc.Sweep.Spec.{Blank, Blank-kept, Blank-freed}
use boehmgc.Sweep.Reclaim.{objects_fit, no_more_fit, few_objects}
use boehmgc.Sweep.Step.{Chained, free_object, Swept, Swept-zero, Swept-kept, Swept-freed}

-- An object stays if it is marked or if the notifier asks for it.
abbrev pub stays : (ℕ → Bool) → (ℕ → Bool) → ℕ → ℕ → Bool
stays bits disclaim bit p = bits bit || disclaim p

-- The mark bits from `bit` on, behind the loop.
pub record Marked (keep : ℕ → ℕ → Bool) (sz bit p n : ℕ) (m m' : Marks) : Type 0 where
  pub marked :
      (j : ℕ) → j < n → m'.bits (bit + j * (sz / 16)) ≡ keep (bit + j * (sz / 16)) (p + j * sz)
  pub before : (b : ℕ) → b < bit → m'.bits b ≡ m.bits b

-- What is known when the loop goes on with the marks `mid`.
Marked-next :
    (keep : ℕ → ℕ → Bool) (sz bit p n : ℕ) {m mid m' : Marks}
    → 0 < sz / 16
    → mid.bits bit ≡ keep bit p
    → ((b : ℕ) → b < bit → mid.bits b ≡ m.bits b)
    → Marked keep sz (bit + sz / 16) (p + sz) n mid m'
    → Marked keep sz bit p (suc n) m m'
Marked-next keep sz bit p n pos here before d = record {
  marked = elim [
    | zero ↦ λ h. ground (arith, d.before bit)
    | suc j ↦ λ h. ground (arith, d.marked j)
  ];
  before = λ b h. d.before b (omega arith) ∙ before b h;
}

module _ (bits disclaim : ℕ → Bool) (sz g lim : ℕ) (whole : sz ≡ 16 * g) (pos : 0 < g)
    (room : sz ≤ lim) where
  wide : sz ≡ 8 * (2 * g)
  wide = omega arith

  later :
      {p : ℕ} {xs : List ℕ} {old : ℕ} {s : Sweep} → Chained p xs old s → Chained (p + sz) xs old s
  later {xs} c = record { links = c.links; behind = All-mono xs (λ a h. omega arith) c.behind }

  disclaim_loop-Swept :
      (old k n bit p : ℕ) (xs : List ℕ) (m : Marks) (s : Sweep)
      → ((b : ℕ) → bit ≤ b → m.bits b ≡ bits b)
      → s.count < 2 ^ 64
      → p + n * sz ≤ lim
      → lim < p + suc n * sz
      → n < k
      → Chained p xs old s
      → (m' : Marks) × (s' : Sweep) × (disclaim_loop disclaim sz (lim - sz) k bit p m s
          ≡ some (m', s'))
        × Swept (stays bits disclaim) sz bit p n xs old s s'
        × Blank (stays bits disclaim) sz bit p n s'.mem
        × Marked (stays bits disclaim) sz bit p n m m'
  unfolding disclaim_loop keep_object
  disclaim_loop-Swept old zero n bit p xs m s ahead small fits last fuel c = absurd (omega arith)
  disclaim_loop-Swept old (suc k) zero bit p xs m s ahead small fits last fuel c = (
    m,
    s,
    rw (lt→leb_false p (lim - sz) (omega arith)),
    Swept-zero (stays bits disclaim) sz bit p xs old s small c,
    record { zeros = λ j i h. absurd (omega arith) },
    record { marked = λ j h. absurd (omega arith); before = λ b h. refl },
  )
  disclaim_loop-Swept old (suc k) (suc n) bit p xs m s ahead small fits last fuel c =
      rw (le→leb p (lim - sz) (omega arith)) (elim (Bool-cases (m.bits bit)) [
        | inl marked ↦
            let kept : stays bits disclaim bit p ≡ true = ground (arith, ahead bit) in
            let (m', s', run, t, b, d) =
              disclaim_loop-Swept old k n (bit + sz / 16) (p + sz) xs m s
                (λ b h. ahead b (omega arith)) small (omega arith) (omega arith) (omega arith)
                (later c) in
            (
              m',
              s',
              rw marked run,
              Swept-kept (stays bits disclaim) sz bit p n xs old s kept t,
              Blank-kept (stays bits disclaim) sz bit p n kept b,
              Marked-next (stays bits disclaim) sz bit p n (omega arith) (marked ∙ sym kept)
                  (λ b h. refl) d,
            )
        | inr unmarked ↦ elim (Bool-cases (disclaim p)) [
          | inl asked ↦
              let kept : stays bits disclaim bit p ≡ true = ground arith in
              let (m', s', run, t, b, d) =
                disclaim_loop-Swept old k n (bit + sz / 16) (p + sz) xs (keep_object bit m) s
                  (λ b h. ground (arith, ahead b)) small (omega arith) (omega arith) (omega arith)
                  (later c) in
              (
                m',
                s',
                rw (unmarked, asked) run,
                Swept-kept (stays bits disclaim) sz bit p n xs old s kept t,
                Blank-kept (stays bits disclaim) sz bit p n kept b,
                Marked-next (stays bits disclaim) sz bit p n (omega arith) (ground arith)
                    (λ b h. ground arith) d,
              )
          | inr gone ↦
              let free : stays bits disclaim bit p ≡ false = ground (arith, ahead bit) in
              let (t, freed, f) = free_object p sz (2 * g) xs old s (omega arith) (omega arith) c in
              let (m', s', run, r, b, d) =
                disclaim_loop-Swept old k n (bit + sz / 16) (p + sz) (p ∷ xs) m t
                  (λ b h. ahead b (omega arith)) (omega (arith, f.count)) (omega arith)
                  (omega arith) (omega arith) f.chained in
              (
                m',
                s',
                rw (unmarked, gone, freed) run,
                Swept-freed (stays bits disclaim) sz bit p n xs old s free f.count f.below f.above
                    r,
                Blank-freed (stays bits disclaim) sz bit p n (2 * g) wide f.zeros r.untouched b,
                Marked-next (stays bits disclaim) sz bit p n (omega arith) (unmarked ∙ sym free)
                    (λ b h. refl) d,
              )
        ]
      ])

module _ (disclaim : ℕ → Bool) (hbp sz g : ℕ) (whole : sz ≡ 16 * g) (pos : 0 < g)
    (fits : sz ≤ hblksize) where
  -- For objects of `g` granules that fit a block, and a byte counter below 2 ^ 64,
  -- GC_disclaim_and_reclaim ends. It chains exactly the objects that are neither marked nor asked
  -- for, counts and clears them, changes no other memory, and leaves a mark on each object kept.
  pub disclaim_and_reclaim-Swept :
      (m : Marks) (s : Sweep)
      → s.count < 2 ^ 64
      → (m' : Marks) × (s' : Sweep) × (disclaim_and_reclaim disclaim hbp sz m s ≡ some (m', s'))
        × Swept (stays m.bits disclaim) sz 0 hbp (hblksize / sz) [] s.list s s'
        × Blank (stays m.bits disclaim) sz 0 hbp (hblksize / sz) s'.mem
        × Marked (stays m.bits disclaim) sz 0 hbp (hblksize / sz) m m'
  unfolding disclaim_and_reclaim
  disclaim_and_reclaim-Swept m s small =
      disclaim_loop-Swept m.bits disclaim sz g (hbp + hblksize) whole pos (omega arith) s.list
        (hblksize + 1) (hblksize / sz) 0 hbp [] m s (λ b h. refl) small
        (objects_fit hbp sz (2 * g) (omega arith) (omega arith) fits)
        (no_more_fit hbp sz (2 * g) (omega arith) (omega arith) fits)
        (few_objects hbp sz (2 * g) (omega arith) (omega arith) fits)
        (record { links = refl; behind = tt })
