-- ===== src/Cord/Cat.antt =====
-- CORD_cat and CORD_cat_char_star, up to balancing.
use boehmgc.Base.{
  ℕ, zero, suc, ◌+◌, ◌-◌, ◌/◌, ◌%◌, ◌^◌, ◌<◌, ◌≡◌, refl, false, Option, some, List, [], ◌∷◌, ◌++◌,
  arith, leb, ◌==◌, ◌&&◌, if◌then◌else◌, length, length-append, take, Bool-cases, inl, inr, sym,
  ◌∙◌,
}
use mathlib.Core.List.{append_assoc, append-nil}
use Prim.Native.Nat.{max}
use boehmgc.Cord.{
  Cord, empty, string, concat, function, len, depth_of, is_string, max_depth, short_limit,
  new_concat, right_len_of, cat_char_star, cat_node, cat_with,
}
use boehmgc.Cord.Spec.{text, NonZero, IsRope, IsCord, Joined}

-- A result, balanced if it is too deep.
abbrev pub Cat : (Cord → Option Cord) → Cord → Cord → Option Cord → Type 0
Cat balance x y o =
    (c : Cord) × Joined x y c × (o ≡ (if leb max_depth (depth_of c) then balance c else some c))

NonZero-append : (s t : List ℕ) → NonZero s → NonZero t → NonZero (s ++ t)
NonZero-append [] t h k = k
NonZero-append (c ∷ s) t h k = (h.0, NonZero-append s t h.1 k)

take-all : (n : ℕ) (s : List ℕ) → n ≡ length s → take n s ≡ s
take-all zero [] e = refl
take-all zero (c ∷ s) e = absurd (omega arith)
take-all (suc n) [] e = refl
take-all (suc n) (c ∷ s) e = rw (take-all n s (omega arith)) refl

right_len_of-lem :
    (left_len lenx : ℕ) (left : Cord) (right : List ℕ)
    → left_len ≡ (if leb (len left) 255 then len left else 0)
    → lenx ≡ len left + length right
    → right_len_of left_len lenx left right ≡ length right
unfolding right_len_of
right_len_of-lem left_len lenx empty right l n = ground arith
right_len_of-lem left_len lenx (string s) right l n = ground arith
right_len_of-lem left_len lenx (concat _ _ m _ _) right l n = omega arith
right_len_of-lem left_len lenx (function _ m) right l n = omega arith

merged_depth :
    (left : Cord) → (if is_string left then 1 else depth_of left + 1) ≡ suc (max (depth_of left) 0)
merged_depth empty = omega arith
merged_depth (string s) = omega arith
merged_depth (concat _ _ _ _ _) = omega arith
merged_depth (function _ _) = omega arith

node_depth : (dx dy : ℕ) → (if leb (dx + 1) dy then dy + 1 else dx + 1) ≡ suc (max dx dy)
node_depth dx dy = ground arith

module _ (balance : Cord → Option Cord) where
  new_concat-Cat :
      (depth lenx result_len : ℕ) (x y : Cord)
      → IsRope x
      → IsRope y
      → depth ≡ suc (max (depth_of x) (depth_of y))
      → lenx ≡ len x
      → result_len ≡ len x + len y
      → Cat balance x y (new_concat balance depth lenx result_len x y)
  unfolding new_concat
  new_concat-Cat depth lenx result_len x y rx ry d lx n = (
    concat depth (if leb lenx 255 then lenx else 0) result_len x y,
    record { cord = (d, rw lx refl, n, rx, ry); same = refl; size = n; shallow = omega arith },
    refl,
  )

  -- The right part of a concatenation is a string, and one more string is merged into it.
  merge-Cat :
      (depth left_len lenx : ℕ) (left : Cord) (right y : List ℕ)
      → IsRope (concat depth left_len lenx left (string right))
      → 0 < length y
      → NonZero y
      → lenx + length y < 2 ^ 64
      → let right_len = right_len_of left_len lenx left right in
        Cat balance (concat depth left_len lenx left (string right)) (string y) (
          new_concat balance
            (if is_string left then 1 else depth_of left + 1)
            (lenx - right_len)
            ((lenx - right_len + (right_len + length y)) % 2 ^ 64)
            left
            (string (take right_len right ++ y)))
  merge-Cat depth left_len lenx left right y h pos nz small =
      let right_len = right_len_of left_len lenx left right in
      let e : right_len ≡ length right = right_len_of-lem left_len lenx left right h.1 h.2 in
      let all : take right_len right ≡ right = take-all right_len right e in
      let (c, j, run) =
        new_concat-Cat (if is_string left then 1 else depth_of left + 1) (lenx - right_len)
          ((lenx - right_len + (right_len + length y)) % 2 ^ 64) left
          (string (take right_len right ++ y)) h.3
          (rw all (omega (arith, length-append right y), NonZero-append right y h.4.1 nz))
          (merged_depth left) (omega arith) (rw all (omega (arith, length-append right y))) in
      (
        c,
        record {
          cord = j.cord;
          same = j.same ∙ rw all (sym (append_assoc (text left) right y));
          size = j.size ∙ rw all (omega (arith, length-append right y));
          shallow = omega (arith, j.shallow);
        },
        run,
      )

  -- `x` is no concatenation with a string on its right.
  apart-Cat :
      (x : Cord) (y : List ℕ) (d : ℕ)
      → IsRope x
      → 0 < length y
      → NonZero y
      → len x + length y < 2 ^ 64
      → d ≡ suc (depth_of x)
      → Cat balance x
          (string y)
          (new_concat balance d (len x) ((len x + length y) % 2 ^ 64) x (string y))
  apart-Cat x y d h pos nz small e =
      new_concat-Cat d (len x) ((len x + length y) % 2 ^ 64) x (string y) h (pos, nz) (omega arith)
        refl (omega arith)

  cat_char_star-Cat :
      (x : Cord) (y : List ℕ)
      → IsRope x
      → depth_of x < max_depth
      → 0 < length y
      → NonZero y
      → len x + length y < 2 ^ 64
      → Cat balance x (string y) (cat_char_star balance x y)
  unfolding cat_char_star
  cat_char_star-Cat empty y h d pos nz small = absurd h
  cat_char_star-Cat (string s) y h d pos nz small =
      let n : (length y == 0) ≡ false = ground arith in
      elim (Bool-cases (leb (length s + length y) short_limit)) [
        | inr far ↦ rw (n, far) (apart-Cat (string s) y 1 h pos nz small (omega arith))
        | inl near ↦
            rw (n, near)
              (
                string (s ++ y),
                record {
                  cord = (omega (arith, length-append s y), NonZero-append s y h.1 nz);
                  same = refl;
                  size = length-append s y;
                  shallow = omega arith;
                },
                refl,
              )
      ]
  cat_char_star-Cat (concat depth left_len lenx left (string right)) y h d pos nz small =
      let n : (length y == 0) ≡ false = ground arith in
      elim (Bool-cases (
        leb (length y) (short_limit / 2)
        && leb (right_len_of left_len lenx left right + length y) short_limit)) [
          | inl near ↦ rw (n, near) (merge-Cat depth left_len lenx left right y h pos nz small)
          | inr far ↦
              rw (n, far)
                (apart-Cat (concat depth left_len lenx left (string right)) y (depth + 1) h pos nz
                  small (omega arith))
        ]
  cat_char_star-Cat (concat depth left_len lenx left empty) y h d pos nz small = absurd h.4
  cat_char_star-Cat (concat depth left_len lenx left (concat a b c e f)) y h d pos nz small =
      let n : (length y == 0) ≡ false = ground arith in
      rw n (
        apart-Cat (concat depth left_len lenx left (concat a b c e f)) y (depth + 1) h pos nz small
          (omega arith))
  cat_char_star-Cat (concat depth left_len lenx left (function f m)) y h d pos nz small =
      let n : (length y == 0) ≡ false = ground arith in
      rw n (
        apart-Cat (concat depth left_len lenx left (function f m)) y (depth + 1) h pos nz small
          (omega arith))
  cat_char_star-Cat (function f m) y h d pos nz small =
      let n : (length y == 0) ≡ false = ground arith in
      rw n (apart-Cat (function f m) y 1 h pos nz small (omega arith))

  cat_node-Cat :
      (x y : Cord)
      → IsRope x
      → IsRope y
      → is_string y ≡ false
      → len x + len y < 2 ^ 64
      → Cat balance x y (cat_node balance x y)
  unfolding cat_node
  cat_node-Cat empty y rx ry ns small = absurd rx
  cat_node-Cat (string s) y rx ry ns small =
      new_concat-Cat (depth_of y + 1) (length s) ((length s + len y) % 2 ^ 64) (string s) y rx ry
        (omega arith) refl (omega arith)
  cat_node-Cat (concat a b c e f) y rx ry ns small =
      new_concat-Cat (if leb (a + 1) (depth_of y) then depth_of y + 1 else a + 1) c
        ((c + len y) % 2 ^ 64) (concat a b c e f) y rx ry (node_depth a (depth_of y)) refl
        (omega arith)
  cat_node-Cat (function f m) y rx ry ns small =
      new_concat-Cat (if leb 1 (depth_of y) then depth_of y + 1 else 1) m ((m + len y) % 2 ^ 64)
        (function f m) y rx ry (node_depth 0 (depth_of y)) refl (omega arith)

  empty-Cat : (y : Cord) → IsCord y → depth_of y < max_depth → Cat balance empty y (some y)
  empty-Cat y h d =
      (y, record { cord = h; same = refl; size = omega arith; shallow = omega arith }, ground arith)

  Cat-empty : (x : Cord) → IsCord x → depth_of x < max_depth → Cat balance x empty (some x)
  Cat-empty x h d = (
    x,
    record {
      cord = h;
      same = sym (append-nil (text x));
      size = omega arith;
      shallow = omega arith;
    },
    ground arith,
  )

  -- CORD_cat of two cords makes a well formed cord with the text of the one and then of the other,
  -- and balances it if it has MAX_DEPTH levels.
  pub cat_with-Cat :
      (x y : Cord)
      → IsCord x
      → IsCord y
      → depth_of x < max_depth
      → depth_of y < max_depth
      → len x + len y < 2 ^ 64
      → Cat balance x y (cat_with balance x y)
  unfolding cat_with
  cat_with-Cat empty y hx hy dx dy small = empty-Cat y hy dy
  cat_with-Cat (string s) empty hx hy dx dy small = Cat-empty (string s) hx dx
  cat_with-Cat (string s) (string t) hx hy dx dy small =
      cat_char_star-Cat (string s) t hx dx hy.0 hy.1 small
  cat_with-Cat (string s) (concat a b c e f) hx hy dx dy small =
      cat_node-Cat (string s) (concat a b c e f) hx hy refl small
  cat_with-Cat (string s) (function f m) hx hy dx dy small =
      cat_node-Cat (string s) (function f m) hx hy refl small
  cat_with-Cat (concat a' b' c' e' f') empty hx hy dx dy small =
      Cat-empty (concat a' b' c' e' f') hx dx
  cat_with-Cat (concat a' b' c' e' f') (string t) hx hy dx dy small =
      cat_char_star-Cat (concat a' b' c' e' f') t hx dx hy.0 hy.1 small
  cat_with-Cat (concat a' b' c' e' f') (concat a b c e f) hx hy dx dy small =
      cat_node-Cat (concat a' b' c' e' f') (concat a b c e f) hx hy refl small
  cat_with-Cat (concat a' b' c' e' f') (function f m) hx hy dx dy small =
      cat_node-Cat (concat a' b' c' e' f') (function f m) hx hy refl small
  cat_with-Cat (function f' m') empty hx hy dx dy small = Cat-empty (function f' m') hx dx
  cat_with-Cat (function f' m') (string t) hx hy dx dy small =
      cat_char_star-Cat (function f' m') t hx dx hy.0 hy.1 small
  cat_with-Cat (function f' m') (concat a b c e f) hx hy dx dy small =
      cat_node-Cat (function f' m') (concat a b c e f) hx hy refl small
  cat_with-Cat (function f' m') (function f m) hx hy dx dy small =
      cat_node-Cat (function f' m') (function f m) hx hy refl small
