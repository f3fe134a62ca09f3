-- ===== src/Cord/Substr.antt =====
-- CORD_from_fn, CORD_substr and CORD_substr_checked of cord/cordbscs.c. `none` is a null pointer that
-- is read.
pub mod Chars
pub mod Laws
pub mod Cases
pub mod Whole
pub mod Wrap
use boehmgc.Base.{
  ℕ, zero, suc, ◌+◌, ◌-◌, ◌%◌, ◌^◌, Bool, true, false, not, ◌&&◌, ◌||◌, Option, none, some, List,
  [], ◌∷◌, ltb, leb, ◌==◌, if◌then◌else◌, take, drop,
}
use boehmgc.Cord.{
  Function, client, index_access, apply_access, call, Cord, empty, string, concat, function, len,
  left_len_of, short_limit, substr_limit,
}
use boehmgc.Cord.Balance.{cat}

-- The loops that read `n` characters of a function from `j` on, and give up at a NUL.
unfoldable pub read_chars : Function → ℕ → ℕ → Option (List ℕ)
read_chars fn j zero = some []
read_chars fn j (suc n) =
    let c = call fn j in
    let rest : Option (List ℕ) = elim (read_chars fn (suc j) n) [
      | none ↦ none
      | some s ↦ some (c ∷ s)
    ] in
    if c == 0 then none else rest

unfoldable pub from_fn_inner : Function → ℕ → Cord
from_fn_inner fn n =
    if n == 0
    then empty
    else if leb n short_limit
    then elim (read_chars fn 0 n) [ some s ↦ string s | none ↦ function fn n ]
    else function fn n

-- CORD_substr_closure of a flat string, of a function, and of a substring node, whose nesting is
-- avoided.
unfoldable pub substr_of_function : Function → ℕ → ℕ → Cord
substr_of_function (client f) i n = from_fn_inner (apply_access (client f) i) n
substr_of_function (index_access s sa_index) i n = from_fn_inner (index_access s (i + sa_index)) n
substr_of_function (apply_access f sa_index) i n = from_fn_inner (apply_access f (i + sa_index)) n

-- `CORD_cat(left_part, right_part)`
unfoldable pub cat_parts : Option Cord → Option Cord → Option Cord
cat_parts none r = none
cat_parts (some l) none = none
cat_parts (some l) (some r) = cat l r

unfoldable pub substr_checked : Cord → ℕ → ℕ → Option Cord
substr_checked empty i n = none
substr_checked (string s) i n =
    if ltb substr_limit n
    then some (from_fn_inner (index_access s i) n)
    else some (string (take n (drop i s)))
substr_checked (concat depth ll m left right) i n =
    let left_len = left_len_of (concat depth ll m left right) in
    let right_len = m - left_len in
    let left_part_len = left_len - i in
    let in_right = substr_checked right (i - left_len) n in
    let in_left = substr_checked left i n in
    let left_part = if i == 0 then some left else substr_checked left i left_part_len in
    let right_part =
      if (i + n) % 2 ^ 64 == right_len + left_len
      then some right
      else substr_checked right 0 (n - left_part_len) in
    let both = cat_parts left_part right_part in
    if leb left_len i
    then (if n == right_len then some right else in_right)
    else if leb ((i + n) % 2 ^ 64) left_len
    then (if n == left_len then some left else in_left)
    else both
substr_checked (function fn m) i n =
    if ltb substr_limit n then some (substr_of_function fn i n) else elim (read_chars fn i n) [
      | some s ↦ some (string s)
      | none ↦ some (from_fn_inner (apply_access fn i) n)
    ]

unfoldable pub substr : Cord → ℕ → ℕ → Option Cord
substr x i n =
    let m = len x in
    if leb m i || n == 0
    then some empty
    else substr_checked x i (if ltb m ((i + n) % 2 ^ 64) then m - i else n)
