-- ===== src/Cord/Iter/Backwards.antt =====
-- CORD_riter4 calls the client's function on the characters backwards.
use boehmgc.Base.{
  ℕ, zero, suc, ◌+◌, ◌-◌, ◌<◌, ◌≡◌, refl, Bool, true, false, some, List, [], ◌∷◌, ◌++◌, arith, leb,
  ◌==◌, if◌then◌else◌, length, take, Bool-cases, inl, inr, ap, ◌∙◌, sym, leb→le, leb_false→lt,
}
use mathlib.Core.List.{append-nil, append_assoc}
use boehmgc.Cord.{call, Cord, empty, string, concat, function, len, left_len_of, char_at}
use boehmgc.Cord.Spec.{chars, text, IsRope, IsCord, length-text, rope-cord, rope-positive}
use boehmgc.Cord.Balance.Whole.{left_len_of-lem}
use boehmgc.Cord.Substr.Chars.{slice-chars, take-whole}
use boehmgc.Cord.Substr.Chars.{chars-char_at, take-append-right, take-append-left}
use boehmgc.Cord.Iter.{run_chars, riter_from, riter4, riter}
use boehmgc.Cord.Iter.Laws.{char_at-nonzero, both-text}

abbrev pub backwards : List ℕ → List ℕ
backwards [] = []
backwards (c ∷ t) = backwards t ++ c ∷ []

backwards-append : (t u : List ℕ) → backwards (t ++ u) ≡ backwards u ++ backwards t
backwards-append [] u = sym (append-nil (backwards u))
backwards-append (c ∷ t) u =
    ap (λ (v : List ℕ). v ++ c ∷ []) (backwards-append t u)
    ∙ append_assoc (backwards u) (backwards t) (c ∷ [])

-- The characters at the places `i`, `i - 1`, …, 0.
downs : (ℕ → ℕ) → ℕ → List ℕ
downs at zero = at 0 ∷ []
downs at (suc i) = at (suc i) ∷ downs at i

chars-snoc : (fn : ℕ → ℕ) (j n : ℕ) → chars fn j (suc n) ≡ chars fn j n ++ fn (j + n) ∷ []
chars-snoc fn j zero = let e : j + 0 ≡ j = omega arith in rw e refl
chars-snoc fn j (suc n) =
    let e : suc j + n ≡ j + suc n = omega arith in
    ap (λ (v : List ℕ). fn j ∷ v)
      (chars-snoc fn (suc j) n ∙ ap (λ v. chars fn (suc j) n ++ fn v ∷ []) e)

backwards-chars : (fn : ℕ → ℕ) (i : ℕ) → backwards (chars fn 0 (suc i)) ≡ downs fn i
unfolding downs
backwards-chars fn zero = refl
backwards-chars fn (suc i) =
    let e : 0 + suc i ≡ suc i = omega arith in
    ap backwards (chars-snoc fn 0 (suc i))
    ∙ backwards-append (chars fn 0 (suc i)) (fn (0 + suc i) ∷ [])
    ∙ ap (λ v. fn v ∷ backwards (chars fn 0 (suc i))) e
    ∙ ap (λ (v : List ℕ). fn (suc i) ∷ v) (backwards-chars fn i)

backwards-string :
    (t : List ℕ) (i : ℕ) → i < length t → backwards (take (suc i) t) ≡ downs (char_at t) i
backwards-string t i l =
    ap backwards (sym (chars-char_at t 0 (suc i) (omega arith))) ∙ backwards-chars (char_at t) i

backwards-function :
    (fn : ℕ → ℕ) (i m : ℕ) → i < m → backwards (take (suc i) (chars fn 0 m)) ≡ downs fn i
backwards-function fn i m l =
    ap backwards (slice-chars fn 0 0 (suc i) m (omega arith)) ∙ backwards-chars fn i

lt→==_false : (n : ℕ) → 0 < n → (n == 0) ≡ false
lt→==_false n l = ground arith

module _ {S : Type 0} (f₁ : ℕ → S → Bool × S) where
  riter_from-downs :
      (at : ℕ → ℕ) (i : ℕ) (s : S) → riter_from f₁ at i s ≡ run_chars f₁ (downs at i) s
  unfolding riter_from run_chars downs
  riter_from-downs at zero s = last ((f₁ (at 0) s).0) ((f₁ (at 0) s).1)
    where
      last :
          (b : Bool) (s' : S) → ◌≡◌ {A = Bool × S} (b, s') (if b then (true, s') else (false, s'))
      last true s' = refl
      last false s' = refl
  riter_from-downs at (suc i) s =
      ap (λ (r : Bool × S). if (f₁ (at (suc i)) s).0 then (true, (f₁ (at (suc i)) s).1) else r)
        (riter_from-downs at i ((f₁ (at (suc i)) s).1))

  -- CORD_riter4 from place `i` of a well formed cord calls the function on the characters from there
  -- down to the first one.
  pub riter4-text :
      (x : Cord) (i : ℕ) (s : S)
      → IsRope x
      → i < len x
      → riter4 f₁ x i s ≡ some (run_chars f₁ (backwards (take (suc i) (text x))) s)
  unfolding riter4
  riter4-text empty i s h l = absurd h
  riter4-text (string t) i s h l = rw (char_at-nonzero t i h.1 l) (
      ap some (
        riter_from-downs (char_at t) i s
        ∙ ap (λ (u : List ℕ). run_chars f₁ u s) (sym (backwards-string t i l))))
  riter4-text (function fn m) i s h l = ap some (
      riter_from-downs (call fn) i s
      ∙ ap (λ (u : List ℕ). run_chars f₁ u s) (sym (backwards-function (call fn) i m l)))
  riter4-text (concat depth ll m left right) i s h l =
      let e = left_len_of-lem depth ll m left right h in
      let size = length-text left (rope-cord left h.3) in
      let pl = rope-positive left h.3 in
      rw e (elim (Bool-cases (leb (len left) i)) [
        | inr at ↦
            let at' = leb_false→lt (len left) i at in
            rw at (
              riter4-text left i s h.3 at'
              ∙ ap (λ (u : List ℕ). some (run_chars f₁ (backwards u) s))
                  (sym (take-append-left (suc i) (text left) (text right) (omega arith))))
        | inl at ↦
            let at' = leb→le (len left) i at in
            let all : take (suc (len left - 1)) (text left) ≡ text left =
              take-whole (suc (len left - 1)) (text left) (omega arith) in
            let next : suc i - length (text left) ≡ suc (i - len left) = omega arith in
            let parts : backwards (take (suc i) (text left ++ text right))
                ≡ backwards (take (suc (i - len left)) (text right)) ++ backwards (text left) =
              ap backwards (take-append-right (suc i) (text left) (text right) (omega arith))
              ∙ backwards-append (text left) (take (suc i - length (text left)) (text right))
              ∙ ap (λ v. backwards (take v (text right)) ++ backwards (text left)) next in
            rw (at, parts)
              (both-text f₁ (riter4 f₁ right (i - len left) s)
                (λ s'. riter4 f₁ left (left_len_of (concat depth ll m left right) - 1) s')
                (backwards (take (suc (i - len left)) (text right))) (backwards (text left)) s
                (riter4-text right (i - len left) s h.4 (omega arith))
                (λ s'.
                  ap (λ v. riter4 f₁ left (v - 1) s') e
                  ∙ riter4-text left (len left - 1) s' h.3 (omega arith)
                  ∙ ap (λ (u : List ℕ). some (run_chars f₁ (backwards u) s')) all))
      ])

  whole : (x : Cord) (s : S) → IsRope x → riter f₁ x s ≡ some (run_chars f₁ (backwards (text x)) s)
  unfolding riter
  whole x s h =
      let p = rope-positive x h in
      let nz : (len x == 0) ≡ false = lt→==_false (len x) p in
      rw nz (
        riter4-text x (len x - 1) s h (omega arith)
        ∙ ap (λ (u : List ℕ). some (run_chars f₁ (backwards u) s))
            (take-whole (suc (len x - 1)) (text x) (omega (arith, length-text x (rope-cord x h)))))

  -- CORD_riter of a well formed cord calls the function on all its characters, the last one first.
  pub riter-text :
      (x : Cord) (s : S) → IsCord x → riter f₁ x s ≡ some (run_chars f₁ (backwards (text x)) s)
  unfolding riter run_chars
  riter-text empty s h = refl
  riter-text (string t) s h = whole (string t) s h
  riter-text (concat a b m l r) s h = whole (concat a b m l r) s h
  riter-text (function g m) s h = whole (function g m) s h
