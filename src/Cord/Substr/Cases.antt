-- ===== src/Cord/Substr/Cases.antt =====
-- The cases of CORD_substr_checked for a concatenation.
use boehmgc.Base.{
  ℕ, ◌+◌, ◌-◌, ◌^◌, ◌≤◌, ◌<◌, ◌≡◌, refl, Option, some, List, ◌++◌, arith, ◌==◌, if◌then◌else◌,
  length, length-append, length-take, length-drop, take, drop, Bool-cases, ==_iff, inl, inr, ap,
  ◌∙◌, sym,
}
use boehmgc.Cord.{Cord, concat, len, depth_of, max_depth}
use boehmgc.Cord.Spec.{text, IsRope, length-text, rope-cord, rope-positive}
use boehmgc.Cord.Balance.{min_len, balance, cat}
use boehmgc.Cord.Balance.MinLen.{min_len-44}
use boehmgc.Cord.Balance.Whole.{cat_with-Joins}
use boehmgc.Cord.Substr.{substr_checked}
use boehmgc.Cord.Substr.Chars.{
  slice, drop-append-left, drop-append-right, take-append-left, take-append-right, take-whole,
}
use boehmgc.Cord.Substr.Laws.{Part, nonempty-IsRope}

slice-right :
    (i n : ℕ) (s t : List ℕ) → length s ≤ i → slice i n (s ++ t) ≡ slice (i - length s) n t
slice-right i n s t l = rw (drop-append-right i s t l) refl

slice-left : (i n : ℕ) (s t : List ℕ) → i + n ≤ length s → slice i n (s ++ t) ≡ slice i n s
slice-left i n s t l =
    rw (drop-append-left i s t (omega arith))
      (take-append-left n (drop i s) t (omega (arith, length-drop i s)))

slice-both :
    (i n : ℕ) (s t : List ℕ)
    → i ≤ length s
    → length s ≤ i + n
    → slice i n (s ++ t) ≡ drop i s ++ take (n - (length s - i)) t
slice-both i n s t l u =
    rw (drop-append-left i s t l, ← length-drop i s)
      (take-append-right n (drop i s) t (omega (arith, length-drop i s)))

-- What is asked of a cord and of the place and the length of a part.
pub record Asked (x : Cord) (i n : ℕ) : Type 0 where
  pub rope : IsRope x
  pub low : depth_of x < max_depth
  pub some_chars : 0 < n
  pub fits : i + n ≤ len x
  pub short : len x < min_len 44

abbrev pub Gives : Cord → ℕ → ℕ → Option Cord → Type 0
Gives x i n o = (c : Cord) × (o ≡ some c) × Part x i n c

module _ (depth ll m : ℕ) (left right : Cord) (i n : ℕ)
    (a : Asked (concat depth ll m left right) i n) where
  -- The part lies in the right cord.
  pub in-right :
      len left ≤ i
      → Gives right (i - len left) n (substr_checked right (i - len left) n)
      → Gives
          (concat depth ll m left right)
          i
          n
          (if n == len right then some right else substr_checked right (i - len left) n)
  in-right at (c, run, p) =
      let rope = a.rope in
      let fits = a.fits in
      let size = length-text left (rope-cord left rope.3) in
      let size' = length-text right (rope-cord right rope.4) in
      let e : slice i n (text left ++ text right) ≡ slice (i - len left) n (text right) =
        slice-right i n (text left) (text right) (omega arith)
        ∙ ap (λ v. slice (i - v) n (text right)) size in
      elim (Bool-cases (n == len right)) [
        | inr part ↦ (
          c,
          rw part run,
          record { rope = p.rope; same = p.same ∙ sym e; shallow = omega (arith, p.shallow) },
        )
        | inl all ↦
            let all' : n ≡ len right = (==_iff n (len right)).0 all in
            let z : i - len left ≡ 0 = omega arith in
            (
              right,
              rw all refl,
              record {
                rope = rope.4;
                same = sym (
                    e
                    ∙ ap (λ v. slice v n (text right)) z
                    ∙ take-whole n (text right) (omega arith));
                shallow = omega arith;
              },
            )
      ]

  -- The part lies in the left cord.
  pub in-left :
      i + n ≤ len left
      → Gives left i n (substr_checked left i n)
      → Gives
          (concat depth ll m left right)
          i
          n
          (if n == len left then some left else substr_checked left i n)
  in-left at (c, run, p) =
      let rope = a.rope in
      let size = length-text left (rope-cord left rope.3) in
      let e : slice i n (text left ++ text right) ≡ slice i n (text left) =
        slice-left i n (text left) (text right) (omega arith) in
      elim (Bool-cases (n == len left)) [
        | inr part ↦ (
          c,
          rw part run,
          record { rope = p.rope; same = p.same ∙ sym e; shallow = omega (arith, p.shallow) },
        )
        | inl all ↦
            let all' : n ≡ len left = (==_iff n (len left)).0 all in
            let z : i ≡ 0 = omega arith in
            (
              left,
              rw all refl,
              record {
                rope = rope.3;
                same = sym (
                    e ∙ ap (λ v. slice v n (text left)) z ∙ take-whole n (text left) (omega arith));
                shallow = omega arith;
              },
            )
      ]

  -- The part takes the end of the left cord and the start of the right one.
  pub in-both :
      i < len left
      → len left < i + n
      → (l r : Cord) → IsRope l
      → IsRope r
      → text l ≡ drop i (text left)
      → text r ≡ take (n - (len left - i)) (text right)
      → depth_of l ≤ depth_of left
      → depth_of r ≤ depth_of right
      → Gives (concat depth ll m left right) i n (cat l r)
  unfolding cat
  in-both u v l r rl rr tl tr dl dr =
      let rope = a.rope in
      let low = a.low in
      let short = a.short in
      let fits = a.fits in
      let size = length-text left (rope-cord left rope.3) in
      let size' = length-text right (rope-cord right rope.4) in
      let sl = length-text l (rope-cord l rl) in
      let sr = length-text r (rope-cord r rr) in
      let small : len l + len r < 2 ^ 64 = omega (
        arith,
        min_len-44,
        ap length tl,
        ap length tr,
        length-drop i (text left),
        length-take (n - (len left - i)) (text right),
      ) in
      let (c, run, j) =
        cat_with-Joins balance l r (rope-cord l rl) (rope-cord r rr) (omega arith) small in
      let e : slice i n (text left ++ text right) ≡ text l ++ text r =
        slice-both i n (text left) (text right) (omega arith) (omega arith)
        ∙ rw (tl, tr, size) refl in
      (
        c,
        run,
        record {
          rope = nonempty-IsRope c j.cord (
              omega (arith, ap length j.same, length-append (text l) (text r), rope-positive l rl));
          same = j.same ∙ sym e;
          shallow = omega (arith, j.shallow);
        },
      )
