-- ===== src/Cord/Balance/Whole.antt =====
-- CORD_balance as a whole, and CORD_cat with it.
use boehmgc.Base.{
  ℕ, zero, suc, ◌+◌, ◌-◌, ◌^◌, ◌≤◌, ◌<◌, ◌≡◌, refl, true, false, ◌||◌, not, Option, some, List, [],
  ◌∷◌, ◌++◌, arith, leb, ltb, ◌==◌, if◌then◌else◌, length, length-append, Bool-cases, lt→leb_false,
  inl, inr, sym, ◌∙◌, ap, subst, ℕ_discrete,
}
use mathlib.Core.List.{append_assoc, append-nil}
use boehmgc.Cord.{
  Cord, empty, string, concat, function, len, depth_of, max_depth, left_len_of, cat_with,
}
use boehmgc.Cord.Spec.{text, IsRope, IsCord, length-text, rope-cord}
use boehmgc.Cord.Cat.{cat_with-Cat}
use boehmgc.Cord.Balance.{
  min_len, unset, tree, Forest, put, Sum, init_forest_loop, init_forest, balance_insert,
  concat_loop, concat_forest, balance_by, balance_at, balance, cat,
}
use boehmgc.Cord.Balance.MinLen.{min_len-zero, min_len_mono, min_len-44}
use boehmgc.Cord.Balance.Forest.{Grown, above, Scan, Step, pass, take, Joins, absorb-Scan}
use boehmgc.Cord.Balance.Loops.{Cleared, above-Cleared, Sown}
use boehmgc.Cord.Balance.Add.{add_forest-Sown}

init_forest_loop-clears :
    (max_len n i : ℕ) (f : Forest)
    → max_len < min_len 44
    → i + n ≡ max_depth
    → i ≤ 44
    → Cleared f i
    → (f' : Forest) × (top : ℕ) × (init_forest_loop max_len n i f ≡ some f')
      × Cleared f' (suc top)
      × (top ≤ 44)
      × (max_len < min_len top)
unfolding init_forest_loop
init_forest_loop-clears max_len zero i f l e u c = absurd (omega arith)
init_forest_loop-clears max_len (suc n) i f l e u c =
    let f₁ = put f i (tree empty 0) in
    let c₁ : Cleared f₁ (suc i) = λ j b. elim (Bool-cases (j == i)) [
      | inl h ↦ (0, ground arith)
      | inr h ↦ let (t, q) = c j (ground arith) in (t, ground arith)
    ] in
    elim (Bool-cases (ltb max_len (min_len i))) [
      | inl stop ↦ (f₁, i, rw stop refl, c₁, u, ground arith)
      | inr more ↦
          let below : i < 44 = elim (ℕ_discrete i 44) [
            | yes z ↦ absurd (let e' : min_len i ≡ min_len 44 = ap min_len z in ground arith)
            | no n ↦ omega arith
          ] in
          let (f', top, run, c', u', l') =
            init_forest_loop-clears max_len n (suc i) f₁ l (omega arith) (omega arith) c₁ in
          (f', top, rw more run, c', u', l')
    ]

init_forest-Sown :
    (max_len : ℕ)
    → max_len < min_len 44
    → (f : Forest) × (top : ℕ) × (init_forest max_len ≡ some f)
      × Sown [] top f
      × (top ≤ 44)
      × (max_len < min_len top)
unfolding init_forest
init_forest-Sown max_len l =
    let (f, top, run, c, u, l') =
      init_forest_loop-clears max_len max_depth 0 (λ _. unset) l (omega arith) (omega arith)
        (λ j b. absurd (omega arith)) in
    (
      f,
      top,
      run,
      record {
        trees = λ j b. let (t, q) = c j (omega arith) in subst (λ v. Grown j v) (sym q) tt;
        all = above-Cleared f (suc top) 0 (suc top) (omega arith) c;
      },
      u,
      l',
    )

short_len :
    (ll a n r : ℕ)
    → ll ≡ (if leb a 255 then a else 0)
    → n ≡ a + r
    → ((if not (ll == 0) then ll else n - r) ≡ a) × ((if not (ll == 0) then ll else a) ≡ a)
short_len ll a n r e f = (ground arith, ground arith)

pub left_len_of-lem :
    (depth left_len n : ℕ) (left right : Cord)
    → IsRope (concat depth left_len n left right)
    → left_len_of (concat depth left_len n left right) ≡ len left
unfolding left_len_of
left_len_of-lem depth left_len n empty right h = absurd h.3
left_len_of-lem depth left_len n (string s) right h =
    (short_len left_len (length s) n (len right) h.1 h.2).0
left_len_of-lem depth left_len n (concat _ _ m _ _) right h =
    (short_len left_len m n (len right) h.1 h.2).1
left_len_of-lem depth left_len n (function _ m) right h =
    (short_len left_len m n (len right) h.1 h.2).1

empty-of-length : (xs ys zs : List ℕ) → xs ++ ys ≡ zs → length ys ≡ length zs → ys ≡ zs
empty-of-length [] ys zs e l = e
empty-of-length (x ∷ xs) ys zs e l = absurd (omega (arith, ap length e, length-append xs ys))

module _ (cat : Cord → Cord → Option Cord) (joins : Joins cat) (top : ℕ) (low : top ≤ 44)
    (small : min_len top < 2 ^ 64) where
  balance_insert-Sown :
      (x : Cord) (whole : List ℕ) (f : Forest) (n : ℕ)
      → Sown whole top f
      → IsRope x
      → n ≡ len x
      → length whole + n < min_len top
      → (f' : Forest) × (balance_insert cat x n f ≡ some f') × Sown (whole ++ text x) top f'
  unfolding balance_insert
  balance_insert-Sown empty whole f n w rope size room = absurd rope
  balance_insert-Sown (string s) whole f n w rope size room =
      add_forest-Sown cat joins top low whole f (string s) n w rope size (omega arith)
        (omega (arith, min_len-zero)) room small
  balance_insert-Sown (function g m) whole f n w rope size room =
      add_forest-Sown cat joins top low whole f (function g m) n w rope size (omega arith)
        (omega (arith, min_len-zero)) room small
  balance_insert-Sown (concat depth left_len m left right) whole f n w rope size room =
      elim (Bool-cases (leb max_depth depth || ltb n (min_len depth))) [
        | inr flat ↦ rw flat (
            add_forest-Sown cat joins top low whole f (concat depth left_len m left right) n w rope
              size (ground arith) (ground arith) room small)
        | inl deep ↦
            let e = left_len_of-lem depth left_len m left right rope in
            let ll = left_len_of (concat depth left_len m left right) in
            let (f₁, run₁, w₁) = balance_insert-Sown left whole f ll w rope.3 e (omega arith) in
            let longer : length (whole ++ text left) ≡ length whole + len left =
              omega (
                arith,
                length-append whole (text left),
                length-text left (rope-cord left rope.3),
              ) in
            let (f₂, run₂, w₂) =
              balance_insert-Sown right (whole ++ text left) f₁ (n - ll) w₁ rope.4 (omega arith)
                (omega arith) in
            (f₂, rw (deep, run₁) run₂, rw (append_assoc whole (text left) (text right)) at w₂)
      ]

  concat_loop-text :
      (whole : List ℕ)
      → length whole < 2 ^ 64
      → (fuel k : ℕ) (s : Sum) → suc top < fuel + s.i
      → depth_of s.sum ≤ s.i + 2
      → Scan whole top k s
      → (c : Cord) × (concat_loop cat (length whole) fuel s ≡ some c)
        × IsCord c
        × (text c ≡ whole)
        × (depth_of c < max_depth)
  unfolding concat_loop
  concat_loop-text whole short zero k s f d w = absurd (omega (arith, w.end))
  concat_loop-text whole short (suc fuel) zero s f d w =
      let e : s.sum_len ≡ length whole =
        omega (arith, ap length w.all, length-text s.sum w.cord, w.size) in
      let done : (s.sum_len == length whole) ≡ true = ground arith in
      (s.sum, rw done refl, w.cord, w.all, omega (arith, w.end))
  concat_loop-text whole short (suc fuel) (suc k) s f d w =
      elim (Bool-cases (s.sum_len == length whole)) [
        | inl done ↦
            let e : s.sum_len ≡ length whole = ground arith in
            (
              s.sum,
              rw done refl,
              w.cord,
              empty-of-length (above s.forest s.i (suc k)) (text s.sum) whole w.all
                  (omega (arith, length-text s.sum w.cord, w.size)),
              omega (arith, w.end),
            )
        | inr more ↦
            let inside : leb max_depth s.i ≡ false = ground (arith, w.end) in
            let (s₁, run, w₁, next, step) =
              absorb-Scan cat joins whole short false top k s w (omega (arith, w.end)) in
            let (c, run', h, same, d') =
              concat_loop-text whole short fuel k s₁ (omega arith) (shallow-step s s₁ next d step)
                w₁ in
            (c, rw (more, inside, run) run', h, same, d')
      ]
    where
      shallow-step :
          (s s₁ : Sum)
          → s₁.i ≡ suc s.i
          → depth_of s.sum ≤ s.i + 2
          → Step false s s₁
          → depth_of s₁.sum ≤ s₁.i + 2
      shallow-step s s₁ e h (pass same _ _ _ _) = rw (same, e) (omega arith)
      shallow-step s s₁ e h (take _ _ _ d _) = omega arith

-- What CORD_balance gives for `x`: a cord of the same text that is not too deep.
pub record Balanced (x c : Cord) : Type 0 where
  pub cord : IsCord c
  pub same : text c ≡ text x
  pub shallow : depth_of c < max_depth

module _ (cat : Cord → Cord → Option Cord) (joins : Joins cat) where
  balance_rope :
      (x : Cord)
      → IsRope x
      → len x < min_len 44
      → (f f' : Forest) × (c : Cord) × (init_forest (len x) ≡ some f)
        × (balance_insert cat x (len x) f ≡ some f')
        × (concat_forest cat f' (len x) ≡ some c)
        × Balanced x c
  unfolding concat_forest
  balance_rope x rope short =
      let (f, top, run, w, low, room) = init_forest-Sown (len x) short in
      let small : min_len top < 2 ^ 64 = elim (ℕ_discrete top 44) [
        | yes e ↦ rw e (omega (arith, min_len-44))
        | no n ↦ omega (arith, min_len-44, min_len_mono top 44 (omega arith) (omega arith))
      ] in
      let (f', run', w') =
        balance_insert-Sown cat joins top low small x [] f (len x) w rope refl (omega arith) in
      let size = length-text x (rope-cord x rope) in
      let (c, run'', h, same, d) =
        concat_loop-text cat joins top low small (text x) (omega arith) (suc max_depth) (suc top)
          (record { i = 0; forest = f'; sum = empty; sum_len = 0 }) (omega arith) (omega arith)
          (record {
            end = omega arith;
            cord = tt;
            size = refl;
            trees = λ j _ l. w'.trees j l;
            all = append-nil (above f' 0 (suc top)) ∙ w'.all;
          }) in
      (
        f,
        f',
        c,
        run,
        run',
        subst
            (λ n.
              concat_loop cat n 49 (record { i = 0; forest = f'; sum = empty; sum_len = 0 })
              ≡ some c)
            size run'',
        record { cord = h; same = same; shallow = d },
      )

  balance_by-Balanced :
      (x : Cord)
      → IsCord x
      → len x < min_len 44
      → (c : Cord) × (balance_by cat x ≡ some c) × Balanced x c
  unfolding balance_by
  balance_by-Balanced empty h l =
      (empty, refl, record { cord = tt; same = refl; shallow = omega arith })
  balance_by-Balanced (string s) h l =
      (string s, refl, record { cord = h; same = refl; shallow = omega arith })
  balance_by-Balanced (concat a b m left right) h l =
      let (f, f', c, run, run', run'', w) = balance_rope (concat a b m left right) h l in
      (c, rw (balance_by, run, run', run'') refl, w)
  balance_by-Balanced (function g m) h l =
      let (f, f', c, run, run', run'', w) = balance_rope (function g m) h l in
      (c, rw (balance_by, run, run', run'') refl, w)

-- CORD_cat needs no balancing for cords that are not too deep together.
pub cat_with-Joins : (balance : Cord → Option Cord) → Joins (cat_with balance)
cat_with-Joins balance x y hx hy d l =
    let (c, j, run) = cat_with-Cat balance x y hx hy (omega arith) (omega arith) l in
    let flat : leb max_depth (depth_of c) ≡ false =
      lt→leb_false max_depth (depth_of c) (omega (arith, j.shallow)) in
    (c, rw flat at run, j)

-- CORD_balance of a well formed cord of less than min_len[44] characters, about 1.8e9, ends: it
-- reads nothing of the forest that was not set, never aborts, and gives a well formed cord of fewer
-- than MAX_DEPTH levels with the same text.
pub balance-Balanced :
    (x : Cord) → IsCord x → len x < min_len 44 → (c : Cord) × (balance x ≡ some c) × Balanced x c
unfolding balance balance_at
balance-Balanced x h l =
    balance_by-Balanced (cat_with (balance_at 0)) (cat_with-Joins (balance_at 0)) x h l

-- CORD_cat of two well formed cords of fewer than MAX_DEPTH levels, with less than min_len[44]
-- characters together, ends with a cord that is well formed again and has fewer than MAX_DEPTH
-- levels; its text is that of the first followed by that of the second.
pub cat-text :
    (x y : Cord)
    → IsCord x
    → IsCord y
    → depth_of x < max_depth
    → depth_of y < max_depth
    → len x + len y < min_len 44
    → (c : Cord) × (cat x y ≡ some c)
      × IsCord c
      × (text c ≡ text x ++ text y)
      × (depth_of c < max_depth)
unfolding cat
cat-text x y hx hy dx dy l =
    let (c, j, run) = cat_with-Cat balance x y hx hy dx dy (omega (arith, min_len-44)) in
    elim (Bool-cases (leb max_depth (depth_of c))) [
      | inr flat ↦ (c, rw flat at run, j.cord, j.same, ground arith)
      | inl deep ↦
          let (c', run', w) = balance-Balanced c j.cord (omega (arith, j.size)) in
          (c', (rw deep at run) ∙ run', w.cord, w.same ∙ j.same, w.shallow)
    ]
