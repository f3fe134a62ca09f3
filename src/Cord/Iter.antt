-- ===== src/Cord/Iter.antt =====
-- CORD_iter5, CORD_iter, CORD_riter4 and CORD_riter of cord/cordbscs.c: the client's function is
-- called on the characters in turn, with a state that its client_data points to, and stops the
-- iteration by a result that is not 0. `none` is ABORT, or a null pointer that is read.
pub mod Laws
pub mod Backwards
use boehmgc.Base.{
  ℕ, zero, suc, ◌+◌, ◌-◌, ◌*◌, ◌≤◌, ◌<◌, ◌≡◌, ◌≢◌, refl, Bool, true, false, Option, none, some,
  List, [], ◌∷◌, ◌++◌, arith, leb, ◌==◌, if◌then◌else◌, length, length-append, take, drop,
  Bool-cases, inl, inr, ap, ◌∙◌, sym, leb→le, leb_false→lt,
}
use mathlib.Core.List.{append-nil}
use boehmgc.Cord.{Function, call, Cord, empty, string, concat, function, len, left_len_of, char_at}
use boehmgc.Cord.Spec.{
  chars, text, IsRope, IsCord, NonZero, length-text, length-chars, rope-cord, rope-positive,
}
use boehmgc.Cord.Balance.Whole.{left_len_of-lem}
use boehmgc.Cord.Substr.Chars.{slice-chars, drop-append-left, drop-append-right, take-whole}

module _ {S : Type 0} (f₁ : ℕ → S → Bool × S) where
  -- The characters of a text in turn: the specification, and the loop over a C string.
  unfoldable pub run_chars : List ℕ → S → Bool × S
  run_chars [] s = (false, s)
  run_chars (c ∷ cs) s =
      let (stop, s') = f₁ c s in let rest = run_chars cs s' in if stop then (true, s') else rest

  -- The loop over the places `j`, `j + 1`, … of a function, `n` of them.
  unfoldable pub iter_function : (ℕ → ℕ) → ℕ → ℕ → S → Bool × S
  iter_function fn j zero s = (false, s)
  iter_function fn j (suc n) s =
      let (stop, s') = f₁ (fn j) s in
      let rest = iter_function fn (suc j) n s' in if stop then (true, s') else rest

  -- `f₂` is the function for whole strings, or CORD_NO_FN.
  unfoldable pub iter5 : Option (List ℕ → S → Bool × S) → Cord → ℕ → S → Option (Bool × S)
  iter5 f₂ empty i s = some (false, s)
  iter5 f₂ (string t) i s =
      if char_at t i == 0
      then none
      else elim f₂ [ none ↦ some (run_chars (drop i t) s) | some f ↦ some (f (drop i t) s) ]
  iter5 f₂ (concat depth ll m left right) i s =
      let left_len = left_len_of (concat depth ll m left right) in
      let in_right = iter5 f₂ right (i - left_len) s in
      let both : Option (Bool × S) = elim (iter5 f₂ left i s) [
        | none ↦ none
        | some (stop, s') ↦ let rest = iter5 f₂ right 0 s' in if stop then some (true, s') else rest
      ] in
      if i == 0 then both else if leb left_len i then in_right else both
  iter5 f₂ (function fn m) i s = some (iter_function (call fn) i (m - i) s)

  unfoldable pub iter : Cord → S → Option (Bool × S)
  unfolding iter5
  iter x s = iter5 none x 0 s

  -- The loop downwards from place `i`, over a C string and over a function.
  unfoldable pub riter_from : (ℕ → ℕ) → ℕ → S → Bool × S
  riter_from at zero s = let (stop, s') = f₁ (at zero) s in (stop, s')
  riter_from at (suc i) s =
      let (stop, s') = f₁ (at (suc i)) s in
      let rest = riter_from at i s' in if stop then (true, s') else rest

  unfoldable pub riter4 : Cord → ℕ → S → Option (Bool × S)
  riter4 empty i s = some (false, s)
  riter4 (string t) i s = if char_at t i == 0 then none else some (riter_from (char_at t) i s)
  riter4 (concat depth ll m left right) i s =
      let left_len = left_len_of (concat depth ll m left right) in
      let in_left = riter4 left i s in
      let both : Option (Bool × S) = elim (riter4 right (i - left_len) s) [
        | none ↦ none
        | some (stop, s') ↦
            let rest = riter4 left (left_len - 1) s' in if stop then some (true, s') else rest
      ] in
      if leb left_len i then both else in_left
  riter4 (function fn m) i s = some (riter_from (call fn) i s)

  unfoldable pub riter : Cord → S → Option (Bool × S)
  riter x s = if len x == 0 then some (false, s) else riter4 x (len x - 1) s
