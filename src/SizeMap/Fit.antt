-- ===== src/SizeMap/Fit.antt =====
-- The size that GC_extend_size_map takes for a section.
use boehmgc.Base.{
  ℕ, zero, suc, ◌+◌, ◌*◌, ◌/◌, ◌%◌, ◌≤◌, ◌<◌, ◌≡◌, refl, sym, subst, Bool, true, false, ◌&&◌, ◌||◌,
  arith, ◌==◌, ==_iff, Bool-cases, ltb, leb, ltb→lt, leb→le, ltb_false→le, inl, inr,
}
use boehmgc.SizeMap.{maxobjgranules, even_capped, spread}

all_below : (ℕ → Bool) → ℕ → Bool
all_below test zero = true
all_below test (suc n) = all_below test n && test n

both : (a b : Bool) → (a && b) ≡ true → (a ≡ true) × (b ≡ true)
both true b e = (refl, e)
both false b e = absurd (clash e)
  where
    clash : false ≡ true → ⊥
    clash x = cc

all_below_each : (test : ℕ → Bool) (n i : ℕ) → all_below test n ≡ true → i < n → test i ≡ true
unfolding all_below
all_below_each test zero i e l = absurd (omega arith)
all_below_each test (suc n) i e l =
    let (before, last) = both (all_below test n) (test n) e in
    elim (Bool-cases (i == n)) [
      | inl q ↦ subst (λ v. test v ≡ true) (sym ((==_iff i n).0 q)) last
      | inr q ↦ all_below_each test n i before (ground arith)
    ]

-- The half of an even size.
fits : ℕ → Bool
fits half =
    half == 0 || (leb (half * 2) (spread (half * 2)) && leb (spread (half * 2)) maxobjgranules)

all_fit : all_below fits 65 ≡ true
unfolding all_below fits
all_fit = refl

spread_bounds :
    (half : ℕ)
    → 0 < half
    → half ≤ 64
    → (half * 2 ≤ spread (half * 2)) × (spread (half * 2) ≤ maxobjgranules)
unfolding fits
spread_bounds half pos l = elim (Bool-cases (half == 0)) [
  | inl z ↦ let z' = (==_iff half 0).0 z in absurd (omega arith)
  | inr nz ↦
      let e = rw (fits, nz) at (all_below_each fits 65 half all_fit (omega arith)) in
      let (low, high) =
        both (leb (half * 2) (spread (half * 2))) (leb (spread (half * 2)) maxobjgranules) e in
      (leb→le (half * 2) (spread (half * 2)) low, leb→le (spread (half * 2)) maxobjgranules high)
]

-- The size is even, and no smaller than asked for, up to MAXOBJGRANULES.
pub spread-even_capped :
    (g : ℕ)
    → 0 < g
    → (spread (even_capped g) ≤ maxobjgranules)
      × (0 < spread (even_capped g))
      × (spread (even_capped g) % 2 ≡ 0)
      × ((o : ℕ) → o ≤ g → o ≤ maxobjgranules → o ≤ spread (even_capped g))
spread-even_capped g pos = elim (Bool-cases (ltb maxobjgranules ((g + 1) / 2 * 2))) [
  | inl e ↦
      let big = ltb→lt maxobjgranules ((g + 1) / 2 * 2) e in
      rw e (omega arith, omega arith, refl, λ o l b. omega arith)
  | inr e ↦
      let small = ltb_false→le maxobjgranules ((g + 1) / 2 * 2) e in
      let (low, high) = spread_bounds ((g + 1) / 2) (omega arith) (omega arith) in
      rw e (high, omega arith, omega arith, λ o l b. omega arith)
]
