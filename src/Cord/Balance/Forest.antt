-- ===== src/Cord/Balance/Forest.antt =====
-- A forest that is scanned from its small trees to its large ones, and one step of the scan.
use boehmgc.Base.{
  ℕ, zero, suc, ◌+◌, ◌%◌, ◌^◌, ◌≤◌, ◌<◌, ◌≡◌, refl, Bool, true, false, Option, some, List, [], ◌++◌,
  arith, ◌==◌, if◌then◌else◌, length, length-append, inl, inr, ◌⊎◌, ap,
}
use mathlib.Core.List.{append_assoc, append-nil}
use Prim.Native.Nat.{max}
use boehmgc.Cord.{Cord, empty, string, concat, function, len, depth_of, is_empty, max_depth}
use boehmgc.Cord.Spec.{text, IsRope, IsCord, length-text, rope-cord, Joined}
use boehmgc.Cord.Balance.{min_len, Element, unset, tree, Forest, put, Sum, absorb}

-- The tree at place `i`: none, or one of at least min_len[i] characters and at most `i + 2` levels.
abbrev pub Grown : ℕ → Element → Type 0
Grown i unset = ⊥
Grown i (tree empty l) = Unit
Grown i (tree c l) = IsRope c × (l ≡ len c) × (min_len i ≤ l) × (depth_of c ≤ i + 2)

abbrev pub tree_text : Element → List ℕ
tree_text unset = []
tree_text (tree c l) = text c

-- The text of the `n` trees from place `i` on, the largest one first.
abbrev pub above : Forest → ℕ → ℕ → List ℕ
above f i zero = []
above f i (suc n) = above f (suc i) n ++ tree_text (f i)

pub above-cong :
    (f g : Forest) (i n : ℕ) → ((j : ℕ) → i ≤ j → f j ≡ g j) → above f i n ≡ above g i n
above-cong f g i zero e = refl
above-cong f g i (suc n) e =
    rw (above-cong f g (suc i) n (λ j l. e j (omega arith)), e i (omega arith)) refl

-- The trees from place `i` on, the `n` last ones up to `top`, and the sum are the text `whole`.
pub record Scan (whole : List ℕ) (top n : ℕ) (s : Sum) : Type 0 where
  pub end : s.i + n ≡ suc top
  pub cord : IsCord s.sum
  pub size : s.sum_len ≡ len s.sum
  pub trees : (j : ℕ) → s.i ≤ j → j ≤ top → Grown j (s.forest j)
  pub all : above s.forest s.i n ++ text s.sum ≡ whole

-- The sum is part of the text.
pub sum-le : {whole : List ℕ} {top n : ℕ} {s : Sum} → Scan whole top n s → s.sum_len ≤ length whole
sum-le {whole} {top} {n} {s} w = omega (
  arith,
  ap length w.all,
  length-append (above s.forest s.i n) (text s.sum),
  length-text s.sum w.cord,
  w.size,
)

-- What a step does: it passes an empty place, or takes a tree of `l` characters.
pub data Step (b : Bool) (s s' : Sum) : Type 0 where
  pass :
      s'.sum ≡ s.sum
      → s'.sum_len ≡ s.sum_len
      → s'.forest ≡ s.forest
      → (l : ℕ) → s.forest s.i ≡ tree empty l
      → Step b s s'
  take :
      (l : ℕ)
      → min_len s.i ≤ l
      → s'.sum_len ≡ s.sum_len + l
      → depth_of s'.sum ≤ suc (max (s.i + 2) (depth_of s.sum))
      → s'.forest ≡ (if b then put s.forest s.i (tree empty l) else s.forest)
      → Step b s s'

Element-cases : (e : Element) → (e ≡ unset) ⊎ ((c : Cord) × (l : ℕ) × (e ≡ tree c l))
Element-cases unset = inl refl
Element-cases (tree c l) = inr (c, l, refl)

empty-cases : (c : Cord) → (c ≡ empty) ⊎ (is_empty c ≡ false)
empty-cases empty = inl refl
empty-cases (string s) = inr refl
empty-cases (concat _ _ _ _ _) = inr refl
empty-cases (function _ _) = inr refl

Grown-tree :
    (i : ℕ) (c : Cord) (l : ℕ)
    → is_empty c ≡ false
    → Grown i (tree c l)
    → IsRope c × (l ≡ len c) × (min_len i ≤ l) × (depth_of c ≤ i + 2)
Grown-tree i empty l e g = cc
Grown-tree i (string s) l e g = g
Grown-tree i (concat _ _ _ _ _) l e g = g
Grown-tree i (function _ _) l e g = g

-- What CORD_balance needs of CORD_cat: two cords that are not too deep are joined.
abbrev pub Joins : (Cord → Cord → Option Cord) → Type 0
Joins cat =
    (x y : Cord)
    → IsCord x
    → IsCord y
    → suc (max (depth_of x) (depth_of y)) < max_depth
    → len x + len y < 2 ^ 64
    → (c : Cord) × (cat x y ≡ some c) × Joined x y c

kept-at :
    (b : Bool) (f : Forest) (i : ℕ) (e : Element) (j : ℕ)
    → (j == i) ≡ false
    → (if b then put f i e else f) j ≡ f j
kept-at true f i e j n = rw n refl
kept-at false f i e j n = refl

module _ (cat : Cord → Cord → Option Cord) (joins : Joins cat) (whole : List ℕ)
    (short : length whole < 2 ^ 64) where
  pub absorb-Scan :
      (b : Bool) (top n : ℕ) (s : Sum)
      → Scan whole top (suc n) s
      → suc (max (s.i + 2) (depth_of s.sum)) < max_depth
      → (s' : Sum) × (absorb cat b s ≡ some s')
        × Scan whole top n s'
        × (s'.i ≡ suc s.i)
        × Step b s s'
  unfolding absorb
  absorb-Scan b top n s w shallow = elim (Element-cases (s.forest s.i)) [
    | inl u ↦ absurd (rw u at (w.trees s.i (omega arith) (omega (arith, w.end))))
    | inr (c, l, e) ↦
        let g : Grown s.i (tree c l) = rw e at (w.trees s.i (omega arith) (omega (arith, w.end))) in
        elim (empty-cases c) [
          | inl z ↦
              let e' : s.forest s.i ≡ tree empty l = rw z at e in
              (
                record s { i = suc s.i },
                rw (e', absorb) refl,
                record {
                  end = omega (arith, w.end);
                  cord = w.cord;
                  size = w.size;
                  trees = λ j l u. w.trees j (omega arith) u;
                  all = rw (append-nil (above s.forest (suc s.i) n)) at (rw e' at w.all);
                },
                refl,
                pass refl refl refl l e',
              )
          | inr ne ↦
              let (rope, size, big, low) = Grown-tree s.i c l ne g in
              let full : above s.forest (suc s.i) n ++ text c ++ text s.sum ≡ whole =
                rw e at w.all in
              let total : len c + len s.sum ≤ length whole = omega (
                arith,
                ap length full,
                length-append (above s.forest (suc s.i) n ++ text c) (text s.sum),
                length-append (above s.forest (suc s.i) n) (text c),
                length-text c (rope-cord c rope),
                length-text s.sum w.cord,
              ) in
              let size_now = w.size in
              let (c', run, j) =
                joins c s.sum (rope-cord c rope) w.cord (omega arith) (omega arith) in
              let kept : (k : ℕ)
                  → suc s.i ≤ k
                  → (if b then put s.forest s.i (tree empty l) else s.forest) k ≡ s.forest k =
                λ k u. kept-at b s.forest s.i (tree empty l) k (ground arith) in
              (
                record {
                  i = suc s.i;
                  forest = if b then put s.forest s.i (tree empty l) else s.forest;
                  sum = c';
                  sum_len = (s.sum_len + l) % 2 ^ 64;
                },
                rw (e, absorb, ne, run) refl,
                record {
                  end = omega (arith, w.end);
                  cord = j.cord;
                  size = omega (arith, j.size, w.size);
                  trees = λ k m u. rw (kept k m) (w.trees k (omega arith) u);
                  all =
                      rw
                        (
                          above-cong (if b then put s.forest s.i (tree empty l) else s.forest)
                              s.forest (suc s.i) n kept,
                          j.same,
                          ← append_assoc (above s.forest (suc s.i) n) (text c) (text s.sum),
                        )
                        full;
                },
                refl,
                take l big (omega (arith, w.size)) (omega (arith, j.shallow)) refl,
              )
        ]
  ]
