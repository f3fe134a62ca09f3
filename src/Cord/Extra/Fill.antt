-- ===== src/Cord/Extra/Fill.antt =====
-- The conversions refine the text of a cord.
use boehmgc.Base.{
  ℕ, zero, suc, ◌+◌, ◌≤◌, ◌<◌, ◌≡◌, refl, Bool, true, false, Option, none, some, List, [], ◌∷◌,
  ◌++◌, arith, leb, ◌==◌, if◌then◌else◌, length, length-append, length-drop, get_elem?, take, drop,
  dec_lt, ap, ◌∙◌, sym, subst, le→leb, lt→leb_false,
}
use mathlib.Core.List.{append_assoc}
use boehmgc.Cord.{Cord, empty, string, concat, function, len}
use boehmgc.Cord.Spec.{text, IsRope, IsCord, NonZero, length-text, rope-cord, rope-positive}
use boehmgc.Cord.Substr.Chars.{take-whole}
use boehmgc.Cord.Iter.{run_chars}
use boehmgc.Cord.Iter.Laws.{iter5-text}
use boehmgc.Cord.Position.{Entry, Pos, set_pos, pos_valid}
use boehmgc.Cord.Position.Moves.{positive, Valid, set_pos-At, set_pos-end, pos_fetch-text}
use boehmgc.Cord.Position.Walk.{invalid}
use boehmgc.Cord.Extra.{
  fill_proc, batched_fill_proc, fill_buf, to_char_star, from_char_star, to_const_char_star, fetch,
}

pub same_batch :
    {S : Type 0} (g : List ℕ → S → Bool × S) (f₁ : ℕ → S → Bool × S)
    → ((t : List ℕ) (s : S) → g t s ≡ run_chars f₁ t s)
    → (f : List ℕ → S → Bool × S) → some g ≡ some f
    → (t : List ℕ) (s : S) → f t s ≡ run_chars f₁ t s
same_batch {S = S} g f₁ same f e t s =
    sym (ap (λ (o : Option (List ℕ → S → Bool × S)). elim o [ none ↦ g t s | some k ↦ k t s ]) e)
    ∙ same t s

batched_fill_proc-chars :
    (max : ℕ) (t buf : List ℕ) → batched_fill_proc max t buf ≡ run_chars (fill_proc max) t buf
unfolding batched_fill_proc run_chars fill_proc
batched_fill_proc-chars max [] buf = refl
batched_fill_proc-chars max (c ∷ t) buf =
    ap
      (λ (r : Bool × List ℕ). if leb max (length (buf ++ c ∷ [])) then (true, buf ++ c ∷ []) else r)
      (batched_fill_proc-chars max t (buf ++ c ∷ []))

-- The buffer takes characters until it is full.
fill_chars :
    (max n : ℕ) (t buf : List ℕ)
    → length buf + suc n ≡ max
    → suc n ≤ length t
    → run_chars (fill_proc max) t buf ≡ (true, buf ++ take (suc n) t)
unfolding run_chars fill_proc
fill_chars max n [] buf e l = absurd (omega arith)
fill_chars max zero (c ∷ t) buf e l =
    let full : leb max (length (buf ++ c ∷ [])) ≡ true =
      le→leb max (length (buf ++ c ∷ [])) (omega (arith, length-append buf (c ∷ []))) in
    rw full refl
fill_chars max (suc n) (c ∷ t) buf e l =
    let size = length-append buf (c ∷ []) in
    let room : leb max (length (buf ++ c ∷ [])) ≡ false =
      lt→leb_false max (length (buf ++ c ∷ [])) (omega arith) in
    rw room (
      fill_chars max n t (buf ++ c ∷ []) (omega arith) (omega arith)
      ∙ ap (λ (u : List ℕ). (true, u)) (append_assoc buf (c ∷ []) (take (suc n) t)))

-- CORD_fill_buf with a positive length and characters that the cord has fills the buffer with them.
pub fill_buf-text :
    (x : Cord) (i n : ℕ)
    → IsRope x
    → 0 < n
    → i + n ≤ len x
    → fill_buf x i n ≡ some (true, take n (drop i (text x)))
unfolding fill_buf
fill_buf-text x i zero h p l = absurd (omega arith)
fill_buf-text x i (suc n) h p l =
    iter5-text (fill_proc (suc n)) (some (batched_fill_proc (suc n)))
      (same_batch (batched_fill_proc (suc n)) (fill_proc (suc n)) (batched_fill_proc-chars (suc n)))
      x i [] h (omega arith)
    ∙ ap some (
        fill_chars (suc n) n (drop i (text x)) [] (omega arith)
          (omega (arith, length-drop i (text x), length-text x (rope-cord x h))))

to_char_star-rope : (x : Cord) → IsRope x → to_char_star x ≡ some (text x)
unfolding to_char_star
to_char_star-rope x h =
    let p = rope-positive x h in
    let nz : (len x == 0) ≡ false = positive (len x) p in
    let filled = fill_buf-text x 0 (len x) h p (omega arith) in
    rw (nz, filled) (ap some (take-whole (len x) (text x) (sym (length-text x (rope-cord x h)))))

-- CORD_to_char_star of a well formed cord does not abort, and gives the characters of its text.
pub to_char_star-text : (x : Cord) → IsCord x → to_char_star x ≡ some (text x)
unfolding to_char_star
to_char_star-text empty h = refl
to_char_star-text (string t) h = to_char_star-rope (string t) h
to_char_star-text (concat a b m l r) h = to_char_star-rope (concat a b m l r) h
to_char_star-text (function g m) h = to_char_star-rope (function g m) h

-- CORD_from_char_star of a C string gives a well formed cord, and CORD_to_char_star and
-- CORD_to_const_char_star of it give the string again.
to_char_star-from_char_star :
    (s : List ℕ)
    → NonZero s
    → IsCord (from_char_star s)
      × (to_char_star (from_char_star s) ≡ some s)
      × (to_const_char_star (from_char_star s) ≡ some s)
unfolding from_char_star to_const_char_star to_char_star
to_char_star-from_char_star [] h = (tt, refl, refl)
to_char_star-from_char_star (c ∷ s) h =
    let nz : (length (c ∷ s) == 0) ≡ false = positive (length (c ∷ s)) (omega arith) in
    let e : from_char_star (c ∷ s) ≡ string (c ∷ s) = rw nz refl in
    let rope : IsRope (string (c ∷ s)) = (omega arith, h) in
    subst (λ x. IsCord x × (to_char_star x ≡ some (c ∷ s)) × (to_const_char_star x ≡ some (c ∷ s)))
      (sym e) (rope, to_char_star-rope (string (c ∷ s)) rope, refl)

outside : (t : List ℕ) (i : ℕ) → length t ≤ i → get_elem? t i ≡ none
outside [] i l = refl
outside (c ∷ t) zero l = absurd (omega arith)
outside (c ∷ t) (suc i) l = outside t i (omega arith)

fetched :
    (x : Cord) (i : ℕ) (q : Pos) (path : List Entry)
    → q.path ≡ path
    → Valid x i q path
    → pos_valid q ≡ true
unfolding pos_valid
fetched x i q [] e v = absurd v
fetched x i q (f ∷ es) e v = rw e refl

-- CORD_fetch from a cord that is not empty gives the character at the place, and aborts behind the
-- end.
pub fetch-text : (x : Cord) (i : ℕ) (p : Pos) → IsRope x → fetch x i p ≡ get_elem? (text x) i
unfolding fetch
fetch-text x i p h = elim (dec_lt i (len x)) [
  | yes l ↦
      let at = set_pos-At x i p h l in
      let good = fetched x i (set_pos x i p) (set_pos x i p).path refl at in
      rw good (pos_fetch-text x i (set_pos x i p) h at)
  | no l ↦
      let bad : pos_valid (set_pos x i p) ≡ false =
        invalid (set_pos x i p) (set_pos-end x i p h (omega arith)) in
      rw bad (sym (outside (text x) i (omega (arith, length-text x (rope-cord x h)))))
]
