-- ===== src/Cord/Substr/Chars.antt =====
-- Parts of texts.
use boehmgc.Base.{
  ℕ, zero, suc, ◌+◌, ◌-◌, ◌≤◌, ◌<◌, ◌≡◌, refl, none, some, List, [], ◌∷◌, ◌++◌, arith, ◌==◌, length,
  take, drop, Bool-cases, inl, inr, ap, ◌∙◌, ◌⊎◌,
}
use boehmgc.Cord.{Function, call, char_at}
use boehmgc.Cord.Spec.{chars, NonZero}
use boehmgc.Cord.Substr.{read_chars}

-- `n` characters from place `i` on.
abbrev pub slice : ℕ → ℕ → List ℕ → List ℕ
slice i n s = take n (drop i s)

pub slice-chars :
    (fn : ℕ → ℕ) (j i n m : ℕ) → i + n ≤ m → slice i n (chars fn j m) ≡ chars fn (j + i) n
slice-chars fn j zero zero m l = refl
slice-chars fn j zero (suc n) zero l = absurd (omega arith)
slice-chars fn j zero (suc n) (suc m) l =
    let e : j + 0 ≡ j = omega arith in
    rw e (ap (λ (t : List ℕ). fn j ∷ t) (slice-chars fn (suc j) 0 n m (omega arith) ∙ next))
  where
    next : chars fn (suc j + 0) n ≡ chars fn (suc j) n
    next = let e : suc j + 0 ≡ suc j = omega arith in rw e refl
slice-chars fn j (suc i) n zero l = let z : n ≡ 0 = omega arith in rw z refl
slice-chars fn j (suc i) n (suc m) l =
    let e : j + suc i ≡ suc j + i = omega arith in rw e (slice-chars fn (suc j) i n m (omega arith))

pub drop-append-right :
    (i : ℕ) (s t : List ℕ) → length s ≤ i → drop i (s ++ t) ≡ drop (i - length s) t
drop-append-right i [] t l = let e : i - 0 ≡ i = omega arith in rw e refl
drop-append-right zero (c ∷ s) t l = absurd (omega arith)
drop-append-right (suc i) (c ∷ s) t l =
    let e : suc i - suc (length s) ≡ i - length s = omega arith in
    rw e (drop-append-right i s t (omega arith))

pub drop-append-left : (i : ℕ) (s t : List ℕ) → i ≤ length s → drop i (s ++ t) ≡ drop i s ++ t
drop-append-left zero s t l = refl
drop-append-left (suc i) [] t l = absurd (omega arith)
drop-append-left (suc i) (c ∷ s) t l = drop-append-left i s t (omega arith)

pub take-append-left : (n : ℕ) (s t : List ℕ) → n ≤ length s → take n (s ++ t) ≡ take n s
take-append-left zero s t l = refl
take-append-left (suc n) [] t l = absurd (omega arith)
take-append-left (suc n) (c ∷ s) t l =
    ap (λ (u : List ℕ). c ∷ u) (take-append-left n s t (omega arith))

pub take-append-right :
    (n : ℕ) (s t : List ℕ) → length s ≤ n → take n (s ++ t) ≡ s ++ take (n - length s) t
take-append-right n [] t l = let e : n - 0 ≡ n = omega arith in rw e refl
take-append-right zero (c ∷ s) t l = absurd (omega arith)
take-append-right (suc n) (c ∷ s) t l =
    let e : suc n - suc (length s) ≡ n - length s = omega arith in
    rw e (ap (λ (u : List ℕ). c ∷ u) (take-append-right n s t (omega arith)))

pub take-whole : (n : ℕ) (s : List ℕ) → n ≡ length s → take n s ≡ s
take-whole zero [] e = refl
take-whole zero (c ∷ s) e = absurd (omega arith)
take-whole (suc n) [] e = refl
take-whole (suc n) (c ∷ s) e = ap (λ (u : List ℕ). c ∷ u) (take-whole n s (omega arith))

pub NonZero-take : (n : ℕ) (s : List ℕ) → NonZero s → NonZero (take n s)
NonZero-take zero s h = tt
NonZero-take (suc n) [] h = tt
NonZero-take (suc n) (c ∷ s) h = (h.0, NonZero-take n s h.1)

pub NonZero-drop : (i : ℕ) (s : List ℕ) → NonZero s → NonZero (drop i s)
NonZero-drop zero s h = h
NonZero-drop (suc i) [] h = tt
NonZero-drop (suc i) (c ∷ s) h = NonZero-drop i s h.1

-- The same characters, read at a shifted place.
pub chars-shift :
    (f g : ℕ → ℕ) (j k n : ℕ)
    → ((a : ℕ) → a < n → f (j + a) ≡ g (k + a))
    → chars f j n ≡ chars g k n
chars-shift f g j k zero e = refl
chars-shift f g j k (suc n) e =
    let here : f j ≡ g k =
      let a : j + 0 ≡ j = omega arith in
      let b : k + 0 ≡ k = omega arith in rw (a, b) at (e 0 (omega arith)) in
    let rest : chars f (suc j) n ≡ chars g (suc k) n = chars-shift f g (suc j) (suc k) n (λ a l.
      let p : suc j + a ≡ j + suc a = omega arith in
      let q : suc k + a ≡ k + suc a = omega arith in rw (p, q) (e (suc a) (omega arith))) in
    rw (here, rest) refl

-- The characters of a flat string.
pub chars-char_at : (s : List ℕ) (i n : ℕ) → i + n ≤ length s → chars (char_at s) i n ≡ slice i n s
chars-char_at s i zero l = refl
chars-char_at [] i (suc n) l = absurd (omega arith)
chars-char_at (c ∷ s) zero (suc n) l =
    ap (λ (u : List ℕ). c ∷ u)
      (chars-shift (char_at (c ∷ s)) (char_at s) 1 0 n (λ a _. one c s a)
        ∙ chars-char_at s 0 n (omega arith))
  where
    one : (c : ℕ) (s : List ℕ) (a : ℕ) → char_at (c ∷ s) (1 + a) ≡ char_at s (0 + a)
    one c s a =
        let p : 1 + a ≡ suc a = omega arith in let q : 0 + a ≡ a = omega arith in rw (p, q) refl
chars-char_at (c ∷ s) (suc i) (suc n) l =
    chars-shift (char_at (c ∷ s)) (char_at s) (suc i) i (suc n)
      (λ a _. let p : suc i + a ≡ suc (i + a) = omega arith in rw p refl)
    ∙ chars-char_at s i (suc n) (omega arith)

-- A read gives up, or meets no NUL and has the characters.
pub read_chars-cases :
    (fn : Function) (j n : ℕ)
    → (read_chars fn j n ≡ none)
      ⊎ ((read_chars fn j n ≡ some (chars (call fn) j n)) × NonZero (chars (call fn) j n))
unfolding read_chars
read_chars-cases fn j zero = inr (refl, tt)
read_chars-cases fn j (suc n) = elim (Bool-cases (call fn j == 0)) [
  | inl z ↦ inl (rw z refl)
  | inr nz ↦ elim (read_chars-cases fn (suc j) n) [
    | inl e ↦ inl (rw (nz, e) refl)
    | inr (e, h) ↦ inr (rw (nz, e) refl, (ground arith, h))
  ]
]
