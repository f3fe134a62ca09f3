-- ===== src/Cord/Extra/Tests.antt =====
-- The theorems on conversions and search at small cords.
use boehmgc.Base.{ℕ, ◌+◌, ◌%◌, ◌≡◌, refl, Option, some, [], ◌∷◌, arith, get_elem?}
use boehmgc.Cord.{Function, client, Cord, string, concat, function}
use boehmgc.Cord.Spec.{text, IsRope}
use boehmgc.Cord.Position.{Pos}
use boehmgc.Cord.Extra.{to_char_star, fetch, chr}
use boehmgc.Cord.Extra.Fill.{to_char_star-text, fetch-text}
use boehmgc.Cord.Extra.Search.{First, chr-First}

abbrev letters : Function
letters = client (λ i. 97 + i)

-- "xy" and then "abc".
abbrev word : Cord
word = concat 1 2 5 (string (120 ∷ 121 ∷ [])) (function letters 3)

abbrev start : Pos
start = record { cur_pos = 0; path = []; cur_leaf = []; cur_start = 0; cur_end = 0 }

word-IsRope : IsRope word
word-IsRope = (refl, refl, refl, (omega arith, omega arith), (omega arith, tt))

to_char_star-text_example : to_char_star word ≡ some (text word)
to_char_star-text_example = to_char_star-text word word-IsRope

fetch-text_example : fetch word 3 start ≡ get_elem? (text word) 3
fetch-text_example = fetch-text word 3 start word-IsRope

chr-First_example : (r : Option ℕ) × (chr word 0 354 ≡ some r) × First (354 % 256) (text word) 0 r
chr-First_example = chr-First word 0 354 word-IsRope (omega arith) (omega arith)
