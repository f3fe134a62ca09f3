-- ===== src/Cord/Iter/Laws.antt =====
-- The iterations call the client's function on the characters of the text, in order.
use boehmgc.Base.{
  ℕ, zero, suc, ◌+◌, ◌-◌, ◌≤◌, ◌<◌, ◌≡◌, refl, Bool, true, false, Option, none, some, List, [], ◌∷◌,
  ◌++◌, arith, leb, ◌==◌, if◌then◌else◌, length, length-drop, drop, Bool-cases, inl, inr, ap, ◌∙◌,
  sym, leb→le, leb_false→lt, ==_iff,
}
use boehmgc.Cord.{call, Cord, empty, string, concat, function, len, char_at}
use boehmgc.Cord.Spec.{
  chars, text, IsRope, NonZero, length-text, length-chars, rope-cord, rope-positive,
}
use boehmgc.Cord.Balance.Whole.{left_len_of-lem}
use boehmgc.Cord.Substr.Chars.{slice-chars, drop-append-left, drop-append-right, take-whole}
use boehmgc.Cord.Iter.{run_chars, iter_function, iter5}

-- Below a C string's end there is no NUL.
pub char_at-nonzero : (t : List ℕ) (i : ℕ) → NonZero t → i < length t → (char_at t i == 0) ≡ false
char_at-nonzero [] i h l = absurd (omega arith)
char_at-nonzero (c ∷ t) zero h l = let n = h.0 in ground arith
char_at-nonzero (c ∷ t) (suc i) h l = char_at-nonzero t i h.1 (omega arith)

drop-chars : (fn : ℕ → ℕ) (i m : ℕ) → i ≤ m → drop i (chars fn 0 m) ≡ chars fn i (m - i)
drop-chars fn i m l =
    sym (
      take-whole (m - i) (drop i (chars fn 0 m))
        (omega (arith, length-drop i (chars fn 0 m), length-chars fn 0 m)))
    ∙ slice-chars fn 0 i (m - i) m (omega arith)
    ∙ (let e : 0 + i ≡ i = omega arith in ap (λ v. chars fn v (m - i)) e)

module _ {S : Type 0} (f₁ : ℕ → S → Bool × S) where
  -- The results of two runs, one after the other.
  unfoldable then_run : Bool × S → (S → Bool × S) → Bool × S
  then_run (stop, s) g = let rest = g s in if stop then (true, s) else rest

  run_chars-append :
      (t u : List ℕ) (s : S)
      → run_chars f₁ (t ++ u) s ≡ then_run (run_chars f₁ t s) (run_chars f₁ u)
  unfolding run_chars then_run
  run_chars-append [] u s = refl
  run_chars-append (c ∷ t) u s = elim (Bool-cases ((f₁ c s).0)) [
    | inl e ↦ rw e refl
    | inr e ↦ rw e (run_chars-append t u ((f₁ c s).1))
  ]

  iter_function-chars :
      (fn : ℕ → ℕ) (j n : ℕ) (s : S) → iter_function f₁ fn j n s ≡ run_chars f₁ (chars fn j n) s
  unfolding iter_function run_chars
  iter_function-chars fn j zero s = refl
  iter_function-chars fn j (suc n) s =
      ap (λ (r : Bool × S). if (f₁ (fn j) s).0 then (true, (f₁ (fn j) s).1) else r)
        (iter_function-chars fn (suc j) n ((f₁ (fn j) s).1))

  pub both-text :
      (o : Option (Bool × S)) (right : S → Option (Bool × S)) (t u : List ℕ) (s : S)
      → o ≡ some (run_chars f₁ t s)
      → ((s' : S) → right s' ≡ some (run_chars f₁ u s'))
      → (elim o [
        | none ↦ none
        | some (stop, s') ↦ let rest = right s' in if stop then some (true, s') else rest
      ])
        ≡ some (run_chars f₁ (t ++ u) s)
  unfolding then_run
  both-text o right t u s e h =
      rw (e, run_chars-append t u s, h ((run_chars f₁ t s).1)) (split ((run_chars f₁ t s).0))
    where
      split :
          (b : Bool)
          → (if b
              then some (true, (run_chars f₁ t s).1)
              else some (run_chars f₁ u ((run_chars f₁ t s).1)))
            ≡ some
                (if b then (true, (run_chars f₁ t s).1) else run_chars f₁ u ((run_chars f₁ t s).1))
      split true = refl
      split false = refl

  module _ (f₂ : Option (List ℕ → S → Bool × S))
      (batch : (f : List ℕ → S → Bool × S)
        → f₂ ≡ some f
        → (t : List ℕ) (s : S) → f t s ≡ run_chars f₁ t s) where
    string-iter :
        (g : Option (List ℕ → S → Bool × S)) (t : List ℕ) (s : S)
        → f₂ ≡ g
        → (elim g [ none ↦ some (run_chars f₁ t s) | some f ↦ some (f t s) ])
          ≡ some (run_chars f₁ t s)
    string-iter none t s e = refl
    string-iter (some f) t s e = ap some (batch f e t s)

    -- CORD_iter5 from place `i` of a well formed cord calls the function on the characters from
    -- there on, if the function for whole strings does so on a string.
    pub iter5-text :
        (x : Cord) (i : ℕ) (s : S)
        → IsRope x
        → i < len x
        → iter5 f₁ f₂ x i s ≡ some (run_chars f₁ (drop i (text x)) s)
    unfolding iter5
    iter5-text empty i s h l = absurd h
    iter5-text (string t) i s h l =
        rw (char_at-nonzero t i h.1 l) (string-iter f₂ (drop i t) s refl)
    iter5-text (function fn m) i s h l =
        ap some (iter_function-chars (call fn) i (m - i) s)
        ∙ ap (λ (u : List ℕ). some (run_chars f₁ u s))
            (sym (drop-chars (call fn) i m (omega arith)))
    iter5-text (concat depth ll m left right) i s h l =
        let e = left_len_of-lem depth ll m left right h in
        let size = length-text left (rope-cord left h.3) in
        let pr = rope-positive right h.4 in
        rw e (elim (Bool-cases (i == 0)) [
          | inl z ↦
              let at' : i < len left = omega (arith, (==_iff i 0).0 z, rope-positive left h.3) in
              rw (z, drop-append-left i (text left) (text right) (omega arith))
                (both-text (iter5 f₁ f₂ left i s) (λ s'. iter5 f₁ f₂ right 0 s')
                  (drop i (text left)) (text right) s (iter5-text left i s h.3 at')
                  (λ s'. iter5-text right 0 s' h.4 pr))
          | inr nz ↦ elim (Bool-cases (leb (len left) i)) [
            | inl at ↦
                let at' = leb→le (len left) i at in
                rw (nz, at)
                  (iter5-text right (i - len left) s h.4 (omega arith)
                    ∙ ap (λ (u : List ℕ). some (run_chars f₁ u s))
                        (ap (λ v. drop (i - v) (text right)) (sym size)
                          ∙ sym (drop-append-right i (text left) (text right) (omega arith))))
            | inr at ↦
                let at' = leb_false→lt (len left) i at in
                rw (nz, at, drop-append-left i (text left) (text right) (omega arith))
                  (both-text (iter5 f₁ f₂ left i s) (λ s'. iter5 f₁ f₂ right 0 s')
                    (drop i (text left)) (text right) s (iter5-text left i s h.3 at')
                    (λ s'. iter5-text right 0 s' h.4 pr))
          ]
        ])
