-- ===== src/Cord/Position/Walk.antt =====
-- Positions refine the text: reading at a place, and CORD_FOR.
use boehmgc.Base.{
  ℕ, zero, suc, ◌+◌, ◌-◌, ◌≤◌, ◌<◌, ◌≡◌, refl, none, some, List, [], ◌∷◌, arith, ltb, leb, ◌==◌,
  length, drop, if◌then◌else◌, get_elem?, dec_lt, inl, inr, ap, ◌∙◌, ◌⊎◌, sym, lt→leb_false, lt→ltb,
  le→leb, true, false,
}
use boehmgc.Cord.{Function, call, Cord, empty, string, concat, function, len}
use boehmgc.Cord.Spec.{chars, text, IsRope, IsCord, length-text, rope-cord, rope-positive}
use boehmgc.Cord.Position.{
  Entry, Pos, set_pos, pos_fetch, pos_valid, function_buf_sz, next, next_hard, next_at, descend,
  set_leaf, extend_path, leaf_fetch, prev, prev_hard, for_valid, for_cord,
}
use boehmgc.Cord.Position.Moves.{
  le→ltb_false, positive, Valid, set_pos-At, set_pos-end, pos_fetch-text,
}
use boehmgc.Cord.Position.Next.{Moved, next-Moved}

-- After CORD_set_pos in a cord that is not empty, CORD_pos_fetch gives the character of the text at
-- the place; with a place behind the cord the position is invalid.
pub set_pos-fetch :
    (x : Cord) (i : ℕ) (p : Pos)
    → IsRope x
    → ((i < len x) × (pos_fetch (set_pos x i p) ≡ get_elem? (text x) i))
      ⊎ ((len x ≤ i) × ((set_pos x i p).path ≡ []))
set_pos-fetch x i p h = elim (dec_lt i (len x)) [
  | yes l ↦ inl (l, pos_fetch-text x i (set_pos x i p) h (set_pos-At x i p h l))
  | no l ↦ inr (omega arith, set_pos-end x i p h (omega arith))
]

nth :
    (t : List ℕ) (i : ℕ)
    → i < length t
    → (c : ℕ) × (get_elem? t i ≡ some c) × (drop i t ≡ c ∷ drop (i + 1) t)
nth [] i l = absurd (omega arith)
nth (c ∷ t) zero l = (c, refl, refl)
nth (c ∷ t) (suc i) l =
    let e : suc i + 1 ≡ suc (i + 1) = omega arith in rw e (nth t i (omega arith))

drop_all : (t : List ℕ) (i : ℕ) → length t ≤ i → drop i t ≡ []
drop_all [] zero l = refl
drop_all [] (suc i) l = refl
drop_all (c ∷ t) zero l = absurd (omega arith)
drop_all (c ∷ t) (suc i) l = drop_all t i (omega arith)

Valid-cons :
    (x : Cord) (i : ℕ) (p : Pos) (path : List Entry)
    → Valid x i p path
    → (e : Entry) × (es : List Entry) × (path ≡ e ∷ es)
Valid-cons x i p [] v = absurd v
Valid-cons x i p (e ∷ es) v = (e, es, refl)

pub invalid : (p : Pos) → p.path ≡ [] → pos_valid p ≡ false
unfolding pos_valid
invalid p path = rw path refl

valid : (p : Pos) (e : Entry) (es : List Entry) → p.path ≡ e ∷ es → pos_valid p ≡ true
unfolding pos_valid
valid p e es path = rw path refl

for_valid-step :
    (fuel : ℕ) (p q : Pos) (e : Entry) (es : List Entry) (c : ℕ) (cs : List ℕ)
    → p.path ≡ e ∷ es
    → pos_fetch p ≡ some c
    → next p ≡ some q
    → for_valid fuel q ≡ some cs
    → for_valid (suc fuel) p ≡ some (c ∷ cs)
unfolding for_valid
for_valid-step fuel p q e es c cs path fetched step rest =
    rw (valid p e es path, fetched, step, rest) refl

for_valid-text :
    (x : Cord) (fuel i : ℕ) (p : Pos)
    → IsRope x
    → Moved x i p
    → len x < fuel + i
    → for_valid fuel p ≡ some (drop i (text x))
unfolding for_valid
for_valid-text x zero i p h (inl (l, at)) enough = absurd (omega arith)
for_valid-text x zero i p h (inr (l, e)) enough = absurd (omega arith)
for_valid-text x (suc fuel) i p h (inr (l, e)) enough =
    rw (invalid p e)
      (ap some (sym (drop_all (text x) i (omega (arith, length-text x (rope-cord x h))))))
for_valid-text x (suc fuel) i p h (inl (l, at)) enough =
    let (e, es, path) = Valid-cons x i p p.path at in
    let (q, step, moved) = next-Moved x i p h at in
    let (c, here, split) = nth (text x) i (omega (arith, length-text x (rope-cord x h))) in
    let fetched : pos_fetch p ≡ some c = pos_fetch-text x i p h at ∙ here in
    let rest = for_valid-text x fuel (i + 1) q h moved (omega arith) in
    for_valid-step fuel p q e es c (drop (i + 1) (text x)) path fetched step rest
    ∙ ap some (sym split)

for_rope : (x : Cord) (p : Pos) → IsRope x → for_cord x p ≡ some (text x)
unfolding for_cord
for_rope x p h =
    let one = rope-positive x h in
    for_valid-text x (suc (len x)) 0 (set_pos x 0 p) h (inl (one, set_pos-At x 0 p h one))
      (omega arith)

-- CORD_FOR over a well formed cord ends and visits the characters of its text, in order.
pub for_cord-text : (x : Cord) (p : Pos) → IsCord x → for_cord x p ≡ some (text x)
unfolding for_cord for_valid set_pos pos_valid
for_cord-text empty p h = refl
for_cord-text (string t) p h = for_rope (string t) p h
for_cord-text (concat a b m l r) p h = for_rope (concat a b m l r) p h
for_cord-text (function g m) p h = for_rope (function g m) p h

-- A position in a function node.
in_function : Function → ℕ → ℕ → List ℕ → ℕ → ℕ → Pos
in_function fn m i leaf start end = record {
  cur_pos = i;
  path = record { pe_cord = function fn m; pe_start_pos = 0 } ∷ [];
  cur_leaf = leaf;
  cur_start = start;
  cur_end = end;
}

set_pos-function :
    (fn : Function) (m i : ℕ) (p : Pos)
    → i < m
    → set_pos (function fn m) i p ≡ in_function fn m i p.cur_leaf p.cur_start 0
unfolding set_pos extend_path descend set_leaf in_function
set_pos-function fn m i p l = rw (lt→leb_false (0 + m) i (omega arith)) refl

next-function :
    (fn : Function) (m i : ℕ) (leaf : List ℕ) (start : ℕ)
    → i + 1 < m
    → (buf : List ℕ) × (end : ℕ) × (0 < end)
      × (next (in_function fn m i leaf start 0)
          ≡ some (in_function fn m (i + 1) buf (i + 1) (i + 1 + end)))
unfolding next next_hard next_at in_function function_buf_sz
next-function fn m i leaf start l =
    let behind : ltb (i + 1) 0 ≡ false = le→ltb_false (i + 1) 0 (omega arith) in
    let inside : ltb (i + 1) (0 + m) ≡ true = lt→ltb (i + 1) (0 + m) (omega arith) in
    let n = if ltb (0 + m - (i + 1)) function_buf_sz then 0 + m - (i + 1) else function_buf_sz in
    (chars (call fn) (i + 1 - 0) n, n, ground arith, rw (behind, inside) refl)

prev-function :
    (fn : Function) (m i : ℕ) (buf : List ℕ) (n : ℕ)
    → prev (in_function fn m (i + 1) buf (i + 1) (i + 1 + n))
      ≡ some (in_function fn m i buf (i + 1) (i + 1 + n))
unfolding prev prev_hard in_function
prev-function fn m i buf n =
    let full : (i + 1 + n == 0) ≡ false = positive (i + 1 + n) (omega arith) in
    let first : ltb (i + 1) (i + 1) ≡ false = le→ltb_false (i + 1) (i + 1) (omega arith) in
    let one : (i + 1 == 0) ≡ false = positive (i + 1) (omega arith) in
    let back : i + 1 - 1 ≡ i = omega arith in
    let in_node : leb 0 i ≡ true = le→leb 0 i (omega arith) in
    rw (full, first, one, back, in_node) refl

stale-function :
    (fn : Function) (m i : ℕ) (buf : List ℕ) (n : ℕ)
    → pos_fetch (in_function fn m i buf (i + 1) (i + 1 + n)) ≡ none
unfolding pos_fetch leaf_fetch in_function
stale-function fn m i buf n =
    let full : (i + 1 + n == 0) ≡ false = positive (i + 1 + n) (omega arith) in
    let before : ltb i (i + 1) ≡ true = lt→ltb i (i + 1) (omega arith) in rw (full, before) refl

-- At a place of a function node that is not the last, where CORD_set_pos has put a position, let
-- CORD_next and then CORD_prev be called. The position is then valid and at its place again, and the
-- buffer that CORD_next has filled is still the current leaf, of one character or more, but it begins
-- one place behind the position: CORD_pos_fetch reads in front of it.
pub next-prev_stale :
    (fn : Function) (m i : ℕ) (p : Pos)
    → i + 1 < m
    → (q : Pos) × (r : Pos) × (next (set_pos (function fn m) i p) ≡ some q)
      × (prev q ≡ some r)
      × (pos_valid r ≡ true)
      × (r.cur_pos ≡ i)
      × (r.cur_start ≡ i + 1)
      × (i + 1 < r.cur_end)
      × (r.cur_leaf ≡ q.cur_leaf)
      × (pos_fetch r ≡ none)
unfolding in_function pos_valid
next-prev_stale fn m i p l =
    let (buf, n, some_buf, moved) = next-function fn m i p.cur_leaf p.cur_start l in
    (
      in_function fn m (i + 1) buf (i + 1) (i + 1 + n),
      in_function fn m i buf (i + 1) (i + 1 + n),
      ap next (set_pos-function fn m i p (omega arith)) ∙ moved,
      prev-function fn m i buf n,
      refl,
      refl,
      refl,
      omega arith,
      refl,
      stale-function fn m i buf n,
    )
