-- ===== src/Cord/Position/Tests.antt =====
-- The theorems on positions at small cords.
use boehmgc.Base.{
  true, ℕ, ◌+◌, ◌-◌, ◌≤◌, ◌<◌, ◌≡◌, refl, some, none, [], ◌∷◌, arith, get_elem?, ◌⊎◌,
}
use boehmgc.Cord.{Function, client, Cord, string, concat, function, len}
use boehmgc.Cord.Spec.{text, IsRope}
use boehmgc.Cord.Position.{pos_valid, Pos, set_pos, pos_fetch, next, prev, for_cord}
use boehmgc.Cord.Position.Moves.{At, set_pos-At}
use boehmgc.Cord.Position.Next.{Moved, next-Moved}
use boehmgc.Cord.Position.Prev.{prev-At}
use boehmgc.Cord.Position.Walk.{set_pos-fetch, for_cord-text, next-prev_stale}

abbrev digits : Function
digits = client (λ i. 48 + i)

-- "ab" and then three digits.
abbrev word : Cord
word = concat 1 2 5 (string (97 ∷ 98 ∷ [])) (function digits 3)

abbrev fresh : Pos
fresh = record { cur_pos = 0; path = []; cur_leaf = []; cur_start = 0; cur_end = 0 }

word-IsRope : IsRope word
word-IsRope = (refl, refl, refl, (omega arith, omega arith), (omega arith, tt))

set_pos-fetch_example :
    ((1 < len word) × (pos_fetch (set_pos word 1 fresh) ≡ get_elem? (text word) 1))
    ⊎ ((len word ≤ 1) × ((set_pos word 1 fresh).path ≡ []))
set_pos-fetch_example = set_pos-fetch word 1 fresh word-IsRope

next-Moved_example : (q : Pos) × (next (set_pos word 1 fresh) ≡ some q) × Moved word (1 + 1) q
next-Moved_example =
    next-Moved word 1 (set_pos word 1 fresh) word-IsRope
      (set_pos-At word 1 fresh word-IsRope (omega arith))

for_cord-text_example : for_cord word fresh ≡ some (text word)
for_cord-text_example = for_cord-text word fresh word-IsRope

next-prev_stale_example :
    (q : Pos) × (r : Pos) × (next (set_pos (function digits 3) 1 fresh) ≡ some q)
    × (prev q ≡ some r)
    × (pos_valid r ≡ true)
    × (r.cur_pos ≡ 1)
    × (r.cur_start ≡ 1 + 1)
    × (1 + 1 < r.cur_end)
    × (r.cur_leaf ≡ q.cur_leaf)
    × (pos_fetch r ≡ none)
next-prev_stale_example = next-prev_stale digits 3 1 fresh (omega arith)

-- "a" and then "bc".
abbrev abc : Cord
abc = concat 1 1 3 (string (97 ∷ [])) (string (98 ∷ 99 ∷ []))

abc-IsRope : IsRope abc
abc-IsRope = (refl, refl, refl, (omega arith, omega arith), (omega arith, omega arith))

prev-At_example :
    (q : Pos) × (prev (set_pos abc 1 fresh) ≡ some q)
    × (((0 < 1) × At abc (1 - 1) q) ⊎ ((◌≡◌ {A = ℕ} 1 0) × (q.path ≡ [])))
prev-At_example =
    prev-At abc 1 (set_pos abc 1 fresh) abc-IsRope (tt, tt)
      (set_pos-At abc 1 fresh abc-IsRope (omega arith))
