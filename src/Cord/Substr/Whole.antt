-- ===== src/Cord/Substr/Whole.antt =====
-- CORD_substr of every cord.
use boehmgc.Base.{
  ℕ, zero, suc, ◌+◌, ◌-◌, ◌%◌, ◌^◌, ◌≤◌, ◌<◌, ◌≡◌, refl, Option, some, List, [], ◌∷◌, arith, ◌==◌,
  ltb, leb, if◌then◌else◌, length, length-drop, take, drop, Bool-cases, ==_iff, leb→le,
  leb_false→lt, ltb→lt, ltb_false→le, dec_lt, true≢false, inl, inr, ap, ◌∙◌, sym,
}
use boehmgc.Cord.{Cord, empty, string, concat, function, len, depth_of, max_depth}
use boehmgc.Cord.Spec.{text, IsRope, IsCord, length-text, rope-cord}
use boehmgc.Cord.Balance.{min_len, cat}
use boehmgc.Cord.Balance.MinLen.{min_len-44}
use boehmgc.Cord.Balance.Whole.{left_len_of-lem}
use boehmgc.Cord.Substr.{cat_parts, substr_checked, substr}
use boehmgc.Cord.Substr.Chars.{take-whole}
use boehmgc.Cord.Substr.Laws.{nonempty-IsRope, string-Part, function-Part}
use boehmgc.Cord.Substr.Cases.{Asked, Gives, in-right, in-left, in-both}

-- A part that CORD_substr_checked joins with another one.
abbrev Side : Cord → List ℕ → Option Cord → Type 0
Side x s o = (c : Cord) × (o ≡ some c) × IsRope c × (text c ≡ s) × (depth_of c ≤ depth_of x)

left-Side :
    (left : Cord) (i : ℕ)
    → IsRope left
    → i < len left
    → Gives left i (len left - i) (substr_checked left i (len left - i))
    → Side left
        (drop i (text left))
        (if i == 0 then some left else substr_checked left i (len left - i))
left-Side left i rope l (c, run, p) = elim (Bool-cases (i == 0)) [
  | inl z ↦
      let e : i ≡ 0 = (==_iff i 0).0 z in
      (left, rw z refl, rope, ap (λ v. drop v (text left)) (sym e), omega arith)
  | inr nz ↦ (
    c,
    rw nz run,
    p.rope,
    p.same
        ∙ take-whole (len left - i) (drop i (text left))
            (omega (arith, length-drop i (text left), length-text left (rope-cord left rope))),
    p.shallow,
  )
]

right-Side :
    (right : Cord) (at end k : ℕ)
    → IsRope right
    → (at ≡ end → k ≡ len right)
    → Gives right 0 k (substr_checked right 0 k)
    → Side right (take k (text right)) (if at == end then some right else substr_checked right 0 k)
right-Side right at end k rope all (c, run, p) = elim (Bool-cases (at == end)) [
  | inl z ↦
      let e = all ((==_iff at end).0 z) in
      (
        right,
        rw z refl,
        rope,
        sym (take-whole k (text right) (omega (arith, length-text right (rope-cord right rope)))),
        omega arith,
      )
  | inr nz ↦ (c, rw nz run, p.rope, p.same, p.shallow)
]

cat_parts-some :
    {o p q : Option Cord} {l r : Cord} → o ≡ some l → p ≡ some r → cat l r ≡ q → cat_parts o p ≡ q
unfolding cat_parts
cat_parts-some e f g = rw (e, f) g

take-past : (n : ℕ) (s : List ℕ) → length s ≤ n → take n s ≡ s
take-past zero [] l = refl
take-past zero (c ∷ s) l = absurd (omega arith)
take-past (suc n) [] l = refl
take-past (suc n) (c ∷ s) l = ap (λ (u : List ℕ). c ∷ u) (take-past n s (omega arith))

take-nil : (n : ℕ) → take {A = ℕ} n [] ≡ []
take-nil zero = refl
take-nil (suc n) = refl

drop-past : (i : ℕ) (s : List ℕ) → length s ≤ i → drop i s ≡ []
drop-past zero [] l = refl
drop-past zero (c ∷ s) l = absurd (omega arith)
drop-past (suc i) [] l = refl
drop-past (suc i) (c ∷ s) l = drop-past i s (omega arith)

-- CORD_substr_checked of a well formed cord, for at least one character within it, gives a cord of
-- these characters.
substr_checked-Part : (x : Cord) (i n : ℕ) → Asked x i n → Gives x i n (substr_checked x i n)
unfolding substr_checked
substr_checked-Part empty i n a = absurd a.rope
substr_checked-Part (string s) i n a = string-Part s i n a.rope a.some_chars a.fits
substr_checked-Part (function fn m) i n a = function-Part fn m i n a.rope a.some_chars a.fits
substr_checked-Part (concat depth ll m left right) i n a =
    let rope = a.rope in
    let low = a.low in
    let fits = a.fits in
    let short = a.short in
    let pos = a.some_chars in
    let e = left_len_of-lem depth ll m left right rope in
    let e' : m - len left ≡ len right = omega arith in
    let wrap : (i + n) % 2 ^ 64 ≡ i + n = omega (arith, min_len-44) in
    rw (e, e', wrap)
      (elim (Bool-cases (leb (len left) i)) [
        | inl at ↦
            let at' : len left ≤ i = leb→le (len left) i at in
            rw at (
              in-right depth ll m left right i n a at' (
                substr_checked-Part right (i - len left) n (record {
                  rope = rope.4;
                  low = omega arith;
                  some_chars = pos;
                  fits = omega arith;
                  short = omega arith;
                })))
        | inr at ↦
            let at' : i < len left = leb_false→lt (len left) i at in
            elim (Bool-cases (leb (i + n) (len left))) [
              | inl in' ↦
                  let in'' : i + n ≤ len left = leb→le (i + n) (len left) in' in
                  rw (at, in')
                    (in-left depth ll m left right i n a in'' (
                      substr_checked-Part left i n (record {
                        rope = rope.3;
                        low = omega arith;
                        some_chars = pos;
                        fits = in'';
                        short = omega arith;
                      })))
              | inr out ↦
                  let out' : len left < i + n = leb_false→lt (i + n) (len left) out in
                  let (l, runl, rl, tl, dl) = left-Side left i rope.3 at' (
                    substr_checked-Part left i (len left - i) (record {
                      rope = rope.3;
                      low = omega arith;
                      some_chars = omega arith;
                      fits = omega arith;
                      short = omega arith;
                    })) in
                  let k = n - (len left - i) in
                  let (r, runr, rr, tr, dr) =
                    right-Side right (i + n) (len right + len left) k rope.4 (λ z. omega arith)
                      (substr_checked-Part right 0 k (record {
                        rope = rope.4;
                        low = omega arith;
                        some_chars = omega arith;
                        fits = omega arith;
                        short = omega arith;
                      })) in
                  let (c, run, p) =
                    in-both depth ll m left right i n a at' out' l r rl rr tl tr dl dr in
                  (c, rw (at, out) (cat_parts-some runl runr run), p)
            ]
      ])

-- CORD_substr of a well formed cord gives a well formed cord of the `n` characters from place `i`
-- on, or of those that there are, and CORD_EMPTY if there is none. The cord has fewer than MAX_DEPTH
-- levels and less than min_len[44] characters, and `i + n` does not wrap around.
pub substr-text :
    (x : Cord) (i n : ℕ)
    → IsCord x
    → depth_of x < max_depth
    → len x < min_len 44
    → i + n < 2 ^ 64
    → (c : Cord) × (substr x i n ≡ some c) × IsCord c × (text c ≡ take n (drop i (text x)))
unfolding substr
substr-text x i n h low short small =
    let size = length-text x h in
    elim (Bool-cases (leb (len x) i)) [
      | inl far ↦ (
        empty,
        rw far refl,
        tt,
        sym (ap (take n) (drop-past i (text x) (omega (arith, leb→le (len x) i far))) ∙ take-nil n),
      )
      | inr near' ↦ elim (Bool-cases (n == 0)) [
        | inl z' ↦
            let z : n ≡ 0 = (==_iff n 0).0 z' in
            (empty, rw (near', z') refl, tt, sym (ap (λ v. take v (drop i (text x))) z))
        | inr nz ↦
            let near : i < len x = leb_false→lt (len x) i near' in
            let pos : 0 < n = elim (dec_lt 0 n) [
              | yes l ↦ l
              | no o ↦
                  let z : n ≡ 0 = omega arith in absurd (true≢false (sym ((==_iff n 0).1 z) ∙ nz))
            ] in
            let wrap : (i + n) % 2 ^ 64 ≡ i + n = omega arith in
            let rope = nonempty-IsRope x h (omega arith) in
            rw (near', nz, wrap)
              (elim (Bool-cases (ltb (len x) (i + n))) [
                | inr fits ↦
                    let fits' : i + n ≤ len x = ltb_false→le (len x) (i + n) fits in
                    let (c, run, p) = substr_checked-Part x i n (record {
                      rope = rope;
                      low = low;
                      some_chars = pos;
                      fits = fits';
                      short = short;
                    }) in
                    (c, rw fits run, rope-cord c p.rope, p.same)
                | inl long ↦
                    let long' : len x < i + n = ltb→lt (len x) (i + n) long in
                    let (c, run, p) = substr_checked-Part x i (len x - i) (record {
                      rope = rope;
                      low = low;
                      some_chars = omega arith;
                      fits = omega arith;
                      short = short;
                    }) in
                    let whole = length-drop i (text x) in
                    (
                      c,
                      rw long run,
                      rope-cord c p.rope,
                      p.same
                          ∙ take-past (len x - i) (drop i (text x)) (omega arith)
                          ∙ sym (take-past n (drop i (text x)) (omega arith)),
                    )
              ])
      ]
    ]
