-- ===== src/Cord/Balance/Loops.antt =====
-- The two loops of CORD_add_forest: the small trees are gathered, and their sum is carried to its
-- place.
use boehmgc.Base.{
  ℕ, zero, suc, ◌+◌, ◌^◌, ◌≤◌, ◌<◌, ◌≡◌, refl, true, false, Option, some, List, arith, leb, ltb,
  ◌==◌, length, Bool-cases, inl, inr, ◌∙◌, ◌⊎◌, ap, dec_lt, ℕ_discrete,
}
use mathlib.Core.List.{append-nil}
use boehmgc.Cord.{Cord, empty, depth_of, max_depth}
use boehmgc.Cord.Balance.{min_len, tree, Forest, Sum, gather, carry}
use boehmgc.Cord.Balance.MinLen.{min_len-suc, min_len_mono, min_len-suc-suc}
use boehmgc.Cord.Balance.Forest.{Grown, above, Scan, sum-le, Step, pass, take, Joins, absorb-Scan}

-- The places below `i` are empty.
abbrev pub Cleared : Forest → ℕ → Type 0
Cleared f i = (j : ℕ) → j < i → (l : ℕ) × (f j ≡ tree empty l)

pub above-Cleared : (f : Forest) (i k t : ℕ) → i + k ≡ t → Cleared f i → above f 0 t ≡ above f i k
above-Cleared f zero k t e c = let same : k ≡ t = omega arith in rw same refl
above-Cleared f (suc i) k t e c =
    let (l, z) = c i (omega arith) in
    above-Cleared f i (suc k) t (omega arith) (λ j u. c j (omega arith))
    ∙ rw (z) (append-nil (above f (suc i) k))

-- The forest's trees up to `top`, and their text.
pub record Sown (whole : List ℕ) (top : ℕ) (f : Forest) : Type 0 where
  pub trees : (j : ℕ) → j ≤ top → Grown j (f j)
  pub all : above f 0 (suc top) ≡ whole

-- While the sum is gathered for a tree of `n` characters.
pub record Gathering (whole : List ℕ) (top k n : ℕ) (s : Sum) : Type 0 where
  pub scan : Scan whole top k s
  pub cleared : Cleared s.forest s.i
  pub start : s.i ≡ 0 → depth_of s.sum ≡ 0
  pub shallow : depth_of s.sum ≤ s.i + 2
  pub dense : (j : ℕ) → suc j ≡ s.i → depth_of s.sum ≡ s.i + 2 → min_len j ≤ s.sum_len
  pub past : (s.i ≡ 0) ⊎ (min_len s.i < n)

-- While the sum is carried to its place.
pub record Carrying (whole : List ℕ) (top k : ℕ) (s : Sum) : Type 0 where
  pub scan : Scan whole top k s
  pub cleared : Cleared s.forest s.i
  pub shallow : depth_of s.sum ≤ s.i + 3
  pub dense : s.i + 2 ≤ depth_of s.sum → min_len s.i ≤ s.sum_len
  pub denser : s.i + 3 ≤ depth_of s.sum → min_len (suc s.i) ≤ s.sum_len
  pub past : (j : ℕ) → suc j ≡ s.i → min_len j ≤ s.sum_len
  pub start : s.i ≡ 0 → min_len 0 ≤ s.sum_len

Cleared-step :
    (s s' : Sum) → s'.i ≡ suc s.i → Cleared s.forest s.i → Step true s s' → Cleared s'.forest s'.i
Cleared-step s s' e c (pass _ _ f l z) j u = elim (ℕ_discrete j s.i) [
  | yes h ↦ (l, rw (f, h) z)
  | no n ↦ let (m, q) = c j (omega arith) in (m, rw f q)
]
Cleared-step s s' e c (take l _ _ _ f) j u = elim (Bool-cases (j == s.i)) [
  | inl h ↦ (l, rw (f, h) refl)
  | inr n ↦ let (m, q) = c j (ground arith) in (m, rw (f, n) q)
]

-- A place in the table comes from a bound on its entry.
pub place-lt : (i top : ℕ) → i < 48 → top < 48 → min_len i < min_len top → i < top
place-lt i top u v l = elim (dec_lt i top) [
  | yes h ↦ h
  | no n ↦ elim (ℕ_discrete i top) [
    | yes e ↦ absurd (omega (arith, ap min_len e))
    | no ne ↦ absurd (omega (arith, min_len_mono top i (omega arith) u))
  ]
]

module _ (cat : Cord → Cord → Option Cord) (joins : Joins cat) (top : ℕ) (low : top ≤ 44) where
  pub gather-Gathering :
      (whole : List ℕ) (n : ℕ)
      → length whole < 2 ^ 64
      → n < min_len top
      → (fuel k : ℕ) (s : Sum) → top < fuel + s.i
      → s.i < top
      → Gathering whole top k n s
      → (s' : Sum) × (k' : ℕ) × (gather cat n fuel s ≡ some s')
        × Gathering whole top k' n s'
        × (s'.i < top)
        × (n ≤ min_len (suc s'.i))
  unfolding gather
  gather-Gathering whole n short room zero k s f u g = absurd (omega arith)
  gather-Gathering whole n short room (suc fuel) zero s f u g = absurd (omega (arith, g.scan.end))
  gather-Gathering whole n short room (suc fuel) (suc k) s f u g =
      let inside : leb max_depth (suc s.i) ≡ false = ground arith in
      elim (Bool-cases (leb n (min_len (suc s.i)))) [
        | inl here ↦ (s, suc k, rw (inside, here) refl, g, u, ground arith)
        | inr far ↦
            let more : min_len (suc s.i) < n = ground arith in
            let below = place-lt (suc s.i) top (omega arith) (omega arith) (omega arith) in
            let sh = g.shallow in
            let (s₁, run, scan, next, step) =
              absorb-Scan cat joins whole short true top k s g.scan (omega arith) in
            let (s', k', run', g', u', near) =
              gather-Gathering whole n short room fuel k s₁ (omega arith) (omega arith) (record {
                scan = scan;
                cleared = Cleared-step s s₁ next g.cleared step;
                start = λ z. absurd (omega arith);
                shallow = shallow-step s s₁ next sh step;
                dense = dense-step s s₁ next sh step;
                past = inr (rw next more);
              }) in
            (s', k', rw (inside, far, run) run', g', u', near)
      ]
    where
      shallow-step :
          (s s₁ : Sum)
          → s₁.i ≡ suc s.i
          → depth_of s.sum ≤ s.i + 2
          → Step true s s₁
          → depth_of s₁.sum ≤ s₁.i + 2
      shallow-step s s₁ e h (pass same _ _ _ _) = rw (same, e) (omega arith)
      shallow-step s s₁ e h (take _ _ _ d _) = omega arith

      dense-step :
          (s s₁ : Sum)
          → s₁.i ≡ suc s.i
          → depth_of s.sum ≤ s.i + 2
          → Step true s s₁
          → (j : ℕ) → suc j ≡ s₁.i
          → depth_of s₁.sum ≡ s₁.i + 2
          → min_len j ≤ s₁.sum_len
      dense-step s s₁ e h (pass same _ _ _ _) j q d = absurd (omega (arith, ap depth_of same))
      dense-step s s₁ e h (take l big size d _) j q d' =
          let here : j ≡ s.i = omega arith in rw here (omega arith)

  pub carry-Carrying :
      (whole : List ℕ)
      → length whole < 2 ^ 64
      → length whole < min_len top
      → (fuel k : ℕ) (s : Sum) → top < fuel + s.i
      → s.i ≤ top
      → Carrying whole top k s
      → (s' : Sum) × (k' : ℕ) × (carry cat fuel s ≡ some s')
        × Carrying whole top k' s'
        × (s'.i ≤ top)
        × (s'.sum_len < min_len s'.i)
  unfolding carry
  carry-Carrying whole short room zero k s f u g = absurd (omega arith)
  carry-Carrying whole short room (suc fuel) zero s f u g = absurd (omega (arith, g.scan.end))
  carry-Carrying whole short room (suc fuel) (suc k) s f u g =
      let inside : leb max_depth s.i ≡ false = ground arith in
      elim (Bool-cases (ltb s.sum_len (min_len s.i))) [
        | inl here ↦ (s, suc k, rw (inside, here) refl, g, u, ground arith)
        | inr far ↦
            let enough : min_len s.i ≤ s.sum_len = ground arith in
            let below : s.i < top =
              place-lt s.i top (omega arith) (omega arith) (omega (arith, sum-le g.scan)) in
            let sh = g.shallow in
            let (s₁, run, scan, next, step) =
              absorb-Scan cat joins whole short true top k s g.scan (omega arith) in
            let (d, d', l) = carry-step s s₁ next sh g.denser enough (omega arith) step in
            let (s', k', run', g', u', near) =
              carry-Carrying whole short room fuel k s₁ (omega arith) (omega arith) (record {
                scan = scan;
                cleared = Cleared-step s s₁ next g.cleared step;
                shallow = d;
                dense = d';
                denser = l;
                past = λ j q. past-step s s₁ next enough step j q;
                start = λ z. absurd (omega arith);
              }) in
            (s', k', rw (inside, far, run) run', g', u', near)
      ]
    where
      past-step :
          (s s₁ : Sum)
          → s₁.i ≡ suc s.i
          → min_len s.i ≤ s.sum_len
          → Step true s s₁
          → (j : ℕ) → suc j ≡ s₁.i
          → min_len j ≤ s₁.sum_len
      past-step s s₁ e m (pass _ size _ _ _) j q =
          let here : j ≡ s.i = omega arith in rw (here, size) m
      past-step s s₁ e m (take l _ size _ _) j q =
          let here : j ≡ s.i = omega arith in rw here (omega arith)

      carry-step :
          (s s₁ : Sum)
          → s₁.i ≡ suc s.i
          → depth_of s.sum ≤ s.i + 3
          → (s.i + 3 ≤ depth_of s.sum → min_len (suc s.i) ≤ s.sum_len)
          → min_len s.i ≤ s.sum_len
          → s.i < 44
          → Step true s s₁
          → (depth_of s₁.sum ≤ s₁.i + 3)
            × (s₁.i + 2 ≤ depth_of s₁.sum → min_len s₁.i ≤ s₁.sum_len)
            × (s₁.i + 3 ≤ depth_of s₁.sum → min_len (suc s₁.i) ≤ s₁.sum_len)
      carry-step s s₁ e h dr m u (pass same size _ _ _) =
          rw (same, size, e) (omega arith, λ d. dr (omega arith), λ d. absurd (omega arith))
      carry-step s s₁ e h dr m u (take l big size d _) =
          rw (size, e)
            (
              omega arith,
              λ q. omega (arith, (min_len-suc s.i (omega arith)).1),
              λ q. omega (arith, dr (omega arith), min_len-suc-suc s.i (omega arith)),
            )
