-- ===== src/Cord/Substr/Laws.antt =====
-- What CORD_from_fn and CORD_substr give.
use boehmgc.Base.{
  ℕ, ◌+◌, ◌≤◌, ◌<◌, ◌≡◌, refl, some, List, arith, ◌==◌, ltb, leb, length, length-take, length-drop,
  take, drop, Bool-cases, inl, inr, ap, ◌∙◌, sym,
}
use boehmgc.Cord.{
  Function, client, index_access, apply_access, call, char_at, Cord, empty, string, concat,
  function, depth_of, short_limit, substr_limit,
}
use boehmgc.Cord.Spec.{chars, text, length-chars, Within, IsRope, IsCord}
use boehmgc.Cord.Substr.{from_fn_inner, substr_of_function, substr_checked}
use boehmgc.Cord.Substr.Chars.{
  slice, slice-chars, NonZero-take, NonZero-drop, chars-shift, chars-char_at, read_chars-cases,
}

-- CORD_from_fn of a function, whose `n` characters may be read, gives a cord of these characters; a
-- short one that has no NUL is a flat string, and so is none with a NUL.
from_fn_inner-text :
    (fn : Function) (n : ℕ)
    → Within fn n
    → IsCord (from_fn_inner fn n)
      × (text (from_fn_inner fn n) ≡ chars (call fn) 0 n)
      × (depth_of (from_fn_inner fn n) ≡ 0)
unfolding from_fn_inner
from_fn_inner-text fn n w = elim (Bool-cases (n == 0)) [
  | inl z ↦ let e : n ≡ 0 = ground arith in rw (z, e) (tt, refl, refl)
  | inr nz ↦ elim (Bool-cases (leb n short_limit)) [
    | inr long ↦ rw (nz, long) ((ground arith, w), refl, refl)
    | inl short ↦ elim (read_chars-cases fn 0 n) [
      | inl e ↦ rw (nz, short, e) ((ground arith, w), refl, refl)
      | inr (e, h) ↦ rw (nz, short, e) ((ground (arith, length-chars (call fn) 0 n), h), refl, refl)
    ]
  ]
]

-- A part of a cord.
pub record Part (x : Cord) (i n : ℕ) (c : Cord) : Type 0 where
  pub rope : IsRope c
  pub same : text c ≡ slice i n (text x)
  pub shallow : depth_of c ≤ depth_of x

pub nonempty-IsRope : (c : Cord) → IsCord c → 0 < length (text c) → IsRope c
nonempty-IsRope empty h p = absurd (omega arith)
nonempty-IsRope (string s) h p = h
nonempty-IsRope (concat _ _ _ _ _) h p = h
nonempty-IsRope (function _ _) h p = h

-- A closure for `n` characters of `fn` that are the characters of `x` from `i` on.
closure-Part :
    (x : Cord) (fn : Function) (i n : ℕ)
    → Within fn n
    → 0 < n
    → chars (call fn) 0 n ≡ slice i n (text x)
    → Part x i n (from_fn_inner fn n)
closure-Part x fn i n w pos e =
    let (h, same, d) = from_fn_inner-text fn n w in
    record {
      rope =
          nonempty-IsRope (from_fn_inner fn n) h
            (omega (arith, ap length same, length-chars (call fn) 0 n));
      same = same ∙ e;
      shallow = omega arith;
    }

chars-slice : (g : ℕ → ℕ) (i n m : ℕ) → i + n ≤ m → chars g i n ≡ slice i n (chars g 0 m)
chars-slice g i n m l =
    sym (slice-chars g 0 i n m l ∙ (let q : 0 + i ≡ i = omega arith in ap (λ v. chars g v n) q))

shifted :
    (f g : ℕ → ℕ) (i n m : ℕ)
    → ((a : ℕ) → f a ≡ g (a + i))
    → i + n ≤ m
    → chars f 0 n ≡ slice i n (chars g 0 m)
shifted f g i n m e l =
    chars-shift f g 0 i n (λ a _.
      let p : 0 + a ≡ a = omega arith in
      let q : a + i ≡ i + a = omega arith in ap f p ∙ e a ∙ ap g q)
    ∙ chars-slice g i n m l

Within-mono : (fn : Function) (a b : ℕ) → a ≤ b → Within fn b → Within fn a
Within-mono (client f) a b l w = tt
Within-mono (index_access s k) a b l w = omega arith
Within-mono (apply_access f k) a b l w = Within-mono f (k + a) (k + b) (omega arith) w

call-index_access : (s : List ℕ) (i a : ℕ) → call (index_access s i) (0 + a) ≡ char_at s (i + a)
unfolding call
call-index_access s i a = let e : 0 + a + i ≡ i + a = omega arith in ap (char_at s) e

call-apply_access : (fn : Function) (i a : ℕ) → call (apply_access fn i) a ≡ call fn (a + i)
unfolding call
call-apply_access fn i a = refl

-- A substring of a substring reads the first one's cord.
substr_of_function-Part :
    (fn : Function) (m i n : ℕ)
    → Within fn m
    → 0 < n
    → i + n ≤ m
    → Part (function fn m) i n (substr_of_function fn i n)
unfolding substr_of_function
substr_of_function-Part (client f) m i n w pos l =
    closure-Part (function (client f) m) (apply_access (client f) i) i n tt pos (
      shifted (call (apply_access (client f) i)) (call (client f)) i n m
        (call-apply_access (client f) i) l)
substr_of_function-Part (index_access s k) m i n w pos l =
    closure-Part (function (index_access s k) m) (index_access s (i + k)) i n (omega arith) pos
      (shifted (call (index_access s (i + k))) (call (index_access s k)) i n m again l)
  where
    again : (a : ℕ) → call (index_access s (i + k)) a ≡ call (index_access s k) (a + i)
    again a =
        let e : 0 + a ≡ a = omega arith in
        let e' : 0 + (a + i) ≡ a + i = omega arith in
        let q : i + k + a ≡ k + (a + i) = omega arith in
        ap (call (index_access s (i + k))) (sym e)
        ∙ call-index_access s (i + k) a
        ∙ ap (char_at s) q
        ∙ sym (call-index_access s k (a + i))
        ∙ ap (call (index_access s k)) e'
substr_of_function-Part (apply_access f k) m i n w pos l =
    closure-Part (function (apply_access f k) m) (apply_access f (i + k)) i n
      (Within-mono f (i + k + n) (k + m) (omega arith) w) pos
      (shifted (call (apply_access f (i + k))) (call (apply_access f k)) i n m again l)
  where
    again : (a : ℕ) → call (apply_access f (i + k)) a ≡ call (apply_access f k) (a + i)
    again a =
        let q : a + (i + k) ≡ a + i + k = omega arith in
        call-apply_access f (i + k) a ∙ ap (call f) q ∙ sym (call-apply_access f k (a + i))

pub string-Part :
    (s : List ℕ) (i n : ℕ)
    → IsRope (string s)
    → 0 < n
    → i + n ≤ length s
    → (c : Cord) × (substr_checked (string s) i n ≡ some c) × Part (string s) i n c
unfolding substr_checked
string-Part s i n h pos l = elim (Bool-cases (ltb substr_limit n)) [
  | inl long ↦ (
    from_fn_inner (index_access s i) n,
    rw long refl,
    closure-Part (string s) (index_access s i) i n l pos (
        chars-shift (call (index_access s i)) (char_at s) 0 i n (λ a _. call-index_access s i a)
        ∙ chars-char_at s i n l),
  )
  | inr short ↦ (
    string (take n (drop i s)),
    rw short refl,
    record {
      rope = (
        omega (arith, length-take n (drop i s), length-drop i s),
        NonZero-take n (drop i s) (NonZero-drop i s h.1),
      );
      same = refl;
      shallow = omega arith;
    },
  )
]

pub function-Part :
    (fn : Function) (m i n : ℕ)
    → IsRope (function fn m)
    → 0 < n
    → i + n ≤ m
    → (c : Cord) × (substr_checked (function fn m) i n ≡ some c) × Part (function fn m) i n c
unfolding substr_checked
function-Part fn m i n h pos l = elim (Bool-cases (ltb substr_limit n)) [
  | inl long ↦ (substr_of_function fn i n, rw long refl, substr_of_function-Part fn m i n h.1 pos l)
  | inr short ↦ elim (read_chars-cases fn i n) [
    | inl e ↦ (
      from_fn_inner (apply_access fn i) n,
      rw (short, e) refl,
      closure-Part (function fn m) (apply_access fn i) i n (Within-mono fn (i + n) m l h.1) pos
          (shifted (call (apply_access fn i)) (call fn) i n m (call-apply_access fn i) l),
    )
    | inr (e, nz) ↦ (
      string (chars (call fn) i n),
      rw (short, e) refl,
      record {
        rope = (omega (arith, length-chars (call fn) i n), nz);
        same = chars-slice (call fn) i n m l;
        shallow = omega arith;
      },
    )
  ]
]
