-- ===== src/Cord/Balance/Add.antt =====
-- CORD_add_forest: a leaf or a balanced tree is added at the end of a forest.
use boehmgc.Base.{
  ℕ, zero, suc, ◌+◌, ◌-◌, ◌%◌, ◌^◌, ◌≤◌, ◌<◌, ◌≡◌, refl, Option, some, List, ◌++◌, arith, length,
  length-append, inl, inr, sym, ◌∙◌, ◌⊎◌, ap, subst, dec_lt, dec_le, ℕ_discrete,
}
use mathlib.Core.List.{append_assoc, append-nil}
use boehmgc.Cord.{Cord, empty, string, concat, function, len, depth_of, max_depth}
use boehmgc.Cord.Spec.{text, IsRope, IsCord, length-text, rope-cord, rope-positive, Joined}
use boehmgc.Cord.Balance.{min_len, tree, Forest, put, Sum, gather, carry, add_forest}
use boehmgc.Cord.Balance.MinLen.{min_len-zero, min_len_mono, min_len-suc-suc}
use boehmgc.Cord.Balance.Forest.{Grown, above, above-cong, sum-le, Joins}
use boehmgc.Cord.Balance.Loops.{
  Cleared, above-Cleared, Sown, Gathering, Carrying, place-lt, gather-Gathering, carry-Carrying,
}

make-Grown :
    (i : ℕ) (c : Cord) (l : ℕ)
    → IsCord c
    → l ≡ len c
    → 0 < l
    → min_len i ≤ l
    → depth_of c ≤ i + 2
    → Grown i (tree c l)
make-Grown i empty l h e p m d = tt
make-Grown i (string s) l h e p m d = (h, e, m, d)
make-Grown i (concat _ _ _ _ _) l h e p m d = (h, e, m, d)
make-Grown i (function _ _) l h e p m d = (h, e, m, d)

-- An entry of the table is at least 1.
min_len-positive : (i : ℕ) → i < 48 → 0 < min_len i
min_len-positive zero u = omega (arith, min_len-zero)
min_len-positive (suc i) u = omega (arith, min_len_mono 0 (suc i) (omega arith) u)

-- The sum joined with the new tree is ready to be carried.
begin-Carrying :
    (whole : List ℕ) (top k : ℕ) (s : Sum) (x c : Cord) (n : ℕ)
    → Gathering whole top k n s
    → Joined s.sum x c
    → s.i < 44
    → 0 < n
    → n ≡ len x
    → depth_of x ≤ s.i + 1
    → s.sum_len + n < 2 ^ 64
    → Carrying (whole ++ text x) top k (record s { sum = c; sum_len = (s.sum_len + n) % 2 ^ 64 })
begin-Carrying whole top k s x c n g j u pos size dx small =
    let total : (s.sum_len + n) % 2 ^ 64 ≡ s.sum_len + n = omega arith in
    let sh = j.shallow in
    let sg = g.shallow in
    record {
      scan = record {
        end = g.scan.end;
        cord = j.cord;
        size = omega (arith, j.size, g.scan.size);
        trees = g.scan.trees;
        all =
            rw (j.same, ← append_assoc (above s.forest s.i k) (text s.sum) (text x))
              (ap (λ (t : List ℕ). t ++ text x) g.scan.all);
      };
      cleared = g.cleared;
      shallow = omega arith;
      dense = λ d. rw total (over g.past);
      denser = λ d. rw total (more (omega arith) g.start g.dense g.past);
      past = λ i q. rw total (below i q g.past);
      start = λ z. rw total (omega (arith, min_len-zero));
    }
  where
    over : (s.i ≡ 0) ⊎ (min_len s.i < n) → min_len s.i ≤ s.sum_len + n
    over (inl z) = rw z (omega (arith, min_len-zero))
    over (inr l) = omega arith

    below : (i : ℕ) → suc i ≡ s.i → (s.i ≡ 0) ⊎ (min_len s.i < n) → min_len i ≤ s.sum_len + n
    below i q (inl z) = absurd (omega arith)
    below i q (inr l) = omega (arith, min_len_mono i s.i (omega arith) (omega arith))

    more :
        depth_of s.sum ≡ s.i + 2
        → (s.i ≡ 0 → depth_of s.sum ≡ 0)
        → ((i : ℕ) → suc i ≡ s.i → depth_of s.sum ≡ s.i + 2 → min_len i ≤ s.sum_len)
        → (s.i ≡ 0) ⊎ (min_len s.i < n)
        → min_len (suc s.i) ≤ s.sum_len + n
    more d start dense (inl z) = absurd (omega (arith, start z))
    more d start dense (inr l) = elim (ℕ_discrete s.i 0) [
      | yes z ↦ absurd (omega (arith, start z))
      | no p ↦
          let i = s.i - 1 in
          let e : s.i ≡ suc i = omega arith in
          let r : min_len (suc s.i) ≡ min_len s.i + min_len i =
            subst (λ v. min_len (suc v) ≡ min_len v + min_len i) (sym e)
              (min_len-suc-suc i (omega arith)) in
          omega (arith, dense i (omega arith) d)
    ]

-- The sum is put in its place.
settle-Sown :
    (whole : List ℕ) (top k m : ℕ) (s : Sum)
    → s.i ≡ suc m
    → top ≤ 44
    → Carrying whole top k s
    → s.i ≤ top
    → s.sum_len < min_len s.i
    → Sown whole top (put s.forest m (tree s.sum s.sum_len))
settle-Sown whole top k m s e low g u stop =
    let f = put s.forest m (tree s.sum s.sum_len) in
    let big : min_len m ≤ s.sum_len = g.past m (omega arith) in
    let shallow : depth_of s.sum ≤ m + 2 = elim (dec_le (s.i + 2) (depth_of s.sum)) [
      | yes deep ↦ absurd (omega (arith, g.dense deep))
      | no h ↦ omega arith
    ] in
    let cleared : Cleared f m =
      λ j l. let (t, q) = g.cleared j (omega arith) in (t, ground arith) in
    let same : (j : ℕ) → suc m ≤ j → f j ≡ s.forest j = λ j l. ground arith in
    let here : f m ≡ tree s.sum s.sum_len = ground arith in
    let grown : Grown m (tree s.sum s.sum_len) =
      make-Grown m s.sum s.sum_len g.scan.cord g.scan.size
        (omega (arith, min_len-positive m (omega arith))) big shallow in
    record {
      trees = λ j l. elim (ℕ_discrete j m) [
        | yes h ↦ subst (λ v. Grown v (f v)) (sym h) (subst (λ v. Grown m v) (sym here) grown)
        | no n ↦ elim (dec_lt j m) [
          | yes b ↦
              let (t, q) = g.cleared j (omega arith) in
              let q' : f j ≡ tree empty t = ground arith in subst (λ v. Grown j v) (sym q') tt
          | no a ↦
              subst (λ v. Grown j v) (sym (same j (omega arith))) (g.scan.trees j (omega arith) l)
        ]
      ];
      all =
          above-Cleared f m (suc k) (suc top) (omega (arith, g.scan.end)) cleared
          ∙ rw (above-cong f s.forest (suc m) k same, here)
              (subst (λ v. above s.forest v k ++ text s.sum ≡ whole) e g.scan.all);
    }

add_forest-runs :
    (cat : Cord → Cord → Option Cord) (f : Forest) (x : Cord) (n : ℕ) (s s' : Sum) (c : Cord)
    → gather cat n max_depth (record { i = 0; forest = f; sum = empty; sum_len = 0 }) ≡ some s
    → cat s.sum x ≡ some c
    → carry cat (suc max_depth) (record s { sum = c; sum_len = (s.sum_len + n) % 2 ^ 64 }) ≡ some s'
    → add_forest cat f x n ≡ some (put s'.forest (s'.i - 1) (tree s'.sum s'.sum_len))
unfolding add_forest
add_forest-runs cat f x n s s' c run run' run'' = rw (add_forest, run, run', run'') refl

module _ (cat : Cord → Cord → Option Cord) (joins : Joins cat) (top : ℕ) (low : top ≤ 44) where
  -- A leaf, or a tree with at least min_len[depth] characters.
  pub add_forest-Sown :
      (whole : List ℕ) (f : Forest) (x : Cord) (n : ℕ)
      → Sown whole top f
      → IsRope x
      → n ≡ len x
      → depth_of x < max_depth
      → min_len (depth_of x) ≤ n
      → length whole + n < min_len top
      → min_len top < 2 ^ 64
      → (f' : Forest) × (add_forest cat f x n ≡ some f') × Sown (whole ++ text x) top f'
  add_forest-Sown whole f x n w rope size shallow big room small =
      let pos = rope-positive x rope in
      let positive : 0 < top =
        place-lt 0 top (omega arith) (omega arith) (omega (arith, min_len-zero)) in
      let (s, k, run, g, u, near) =
        gather-Gathering cat joins top low whole n (omega arith) (omega arith) max_depth (suc top)
          (record { i = 0; forest = f; sum = empty; sum_len = 0 }) (omega arith) positive
          (record {
            scan = record {
              end = omega arith;
              cord = tt;
              size = refl;
              trees = λ j _ l. w.trees j l;
              all = append-nil (above f 0 (suc top)) ∙ w.all;
            };
            cleared = λ j l. absurd (omega arith);
            start = λ z. refl;
            shallow = omega arith;
            dense = λ j q d. absurd (omega arith);
            past = inl refl;
          }) in
      let dx : depth_of x ≤ s.i + 1 = elim (dec_lt (suc s.i) (depth_of x)) [
        | yes h ↦ absurd (omega (arith, min_len_mono (suc s.i) (depth_of x) h shallow))
        | no h ↦ omega arith
      ] in
      let sg = g.shallow in
      let le = sum-le g.scan in
      let sz = g.scan.size in
      let (c, run', j) = joins s.sum x g.scan.cord (rope-cord x rope) (omega arith) (omega arith) in
      let more : length (whole ++ text x) ≡ length whole + n =
        omega (arith, length-append whole (text x), length-text x (rope-cord x rope)) in
      let (s', k', run'', g', u', stop) =
        carry-Carrying cat joins top low (whole ++ text x) (omega arith) (omega arith)
          (suc max_depth) k (record s { sum = c; sum_len = (s.sum_len + n) % 2 ^ 64 }) (omega arith)
          (omega arith)
          (begin-Carrying whole top k s x c n g j (omega arith) (omega arith) size dx
            (omega arith)) in
      let nonzero : s'.i ≡ suc (s'.i - 1) = elim (ℕ_discrete s'.i 0) [
        | yes z ↦ absurd (omega (arith, g'.start z, ap min_len z))
        | no p ↦ omega arith
      ] in
      (
        put s'.forest (s'.i - 1) (tree s'.sum s'.sum_len),
        add_forest-runs cat f x n s s' c run run' run'',
        settle-Sown (whole ++ text x) top k' (s'.i - 1) s' nonzero low g' u' stop,
      )
