-- ===== src/Cord/Position.antt =====
-- Positions in cords, of cord/cordbscs.c: CORD_set_pos, CORD_pos_fetch, CORD_next and CORD_prev with
-- the routines for their hard cases. `none` is ABORT, or an access that the code may not make.
pub mod Path
pub mod Moves
pub mod Next
pub mod Walk
pub mod Prev
mod Tests
use boehmgc.Base.{
  ℕ, zero, suc, ◌+◌, ◌-◌, Bool, true, false, not, ◌&&◌, ◌||◌, Option, none, some, List, [], ◌∷◌,
  ltb, leb, ◌==◌, get_elem?, if◌then◌else◌,
}
use boehmgc.Cord.{Function, call, Cord, empty, string, concat, function, len, left_len_of, ◌>>=◌}
use boehmgc.Cord.Spec.{chars}

-- struct CORD_pe
pub record Entry : Type 0 where
  pub pe_cord : Cord
  pub pe_start_pos : ℕ

-- CORD_pos: the path from path[path_len] up to path[0], which is empty for CORD_POS_INVALID, and the
-- leaf or the function_buf that cur_leaf points to.
pub record Pos : Type 0 where
  pub cur_pos : ℕ
  pub path : List Entry
  pub cur_leaf : List ℕ
  pub cur_start : ℕ
  pub cur_end : ℕ

-- The loop of CORD__extend_path, from `top` with its place and length; gives the longer path, and the
-- leaf with its place and length.
unfoldable pub descend : Cord → ℕ → ℕ → ℕ → List Entry → List Entry × Cord × ℕ × ℕ
descend (concat depth ll m left right) pos top_pos top_len path =
    let left_len = left_len_of (concat depth ll m left right) in
    let to_right =
      descend right pos (top_pos + left_len) (top_len - left_len)
        (record { pe_cord = right; pe_start_pos = top_pos + left_len } ∷ path) in
    let to_left =
      descend left pos top_pos left_len
        (record { pe_cord = left; pe_start_pos = top_pos } ∷ path) in
    if leb (top_pos + left_len) pos then to_right else to_left
descend leaf pos top_pos top_len path = (path, leaf, top_pos, top_len)

-- What CORD__extend_path sets for a leaf.
unfoldable pub set_leaf : Cord → ℕ → ℕ → Pos → Pos
set_leaf (string s) top_pos top_len p = record p {
  cur_leaf = s;
  cur_start = top_pos;
  cur_end = top_pos + top_len;
}
set_leaf leaf top_pos top_len p = record p { cur_end = 0 }

-- CORD__extend_path, from the entry `top` with `parents` above it.
unfoldable pub extend_path : Entry → List Entry → Pos → Pos
extend_path top parents p =
    let (path, leaf, top_pos, top_len) =
      descend top.pe_cord p.cur_pos top.pe_start_pos (len top.pe_cord) (top ∷ parents) in
    let p' = set_leaf leaf top_pos top_len p in
    record p' { path = if leb (top_pos + top_len) p.cur_pos then [] else path }

unfoldable pub set_pos : Cord → ℕ → Pos → Pos
set_pos empty i p = record p { path = [] }
set_pos x i p = extend_path (record { pe_cord = x; pe_start_pos = 0 }) [] (record p { cur_pos = i })

-- CORD__pos_fetch, for the entry at the end of the path.
unfoldable pub function_fetch : List Entry → ℕ → Option ℕ
function_fetch [] pos = none
function_fetch (e ∷ parents) pos = elim (e.pe_cord) [
  | function fn m ↦ some (call fn (pos - e.pe_start_pos))
  | other ↦ none
]

-- cur_leaf[cur_pos - cur_start], for a place in the leaf. The NUL behind a string is read at an
-- invalid position only.
unfoldable pub leaf_fetch : List ℕ → ℕ → ℕ → Option ℕ
leaf_fetch leaf start pos = if ltb pos start then none else get_elem? leaf (pos - start)

unfoldable pub pos_fetch : Pos → Option ℕ
pos_fetch p =
    let in_leaf = leaf_fetch p.cur_leaf p.cur_start p.cur_pos in
    if not (p.cur_end == 0) then in_leaf else function_fetch p.path p.cur_pos

-- The loop of CORD__next that leaves right parts, and what follows it.
unfoldable pub pop_right : Entry → List Entry → Pos → Pos
pop_right e [] p = record p { path = [] }
pop_right e (parent ∷ rest) p =
    let up = pop_right parent rest p in
    if e.pe_start_pos == parent.pe_start_pos then extend_path parent rest p else up

unfoldable pub function_buf_sz : ℕ
function_buf_sz = 8

-- CORD__next with the new `cur_pos` in place, at the entry `e`.
unfoldable pub next_at : Entry → List Entry → Pos → Pos
next_at e parents p =
    let end_of_leaf = pop_right e parents p in
    elim (e.pe_cord) [
      | function fn m ↦
          let end_pos = e.pe_start_pos + m in
          let limit =
            if ltb (end_pos - p.cur_pos) function_buf_sz
            then end_pos - p.cur_pos
            else function_buf_sz in
          if ltb p.cur_pos end_pos
          then record p {
            cur_leaf = chars (call fn) (p.cur_pos - e.pe_start_pos) limit;
            cur_start = p.cur_pos;
            cur_end = p.cur_pos + limit;
          }
          else end_of_leaf
      | other ↦ end_of_leaf
    ]

unfoldable pub next_hard : Pos → Option Pos
next_hard p = elim (p.path) [
  | [] ↦ none
  | e ∷ parents ↦ some (next_at e parents (record p { cur_pos = p.cur_pos + 1 }))
]

unfoldable pub next : Pos → Option Pos
next p =
    if ltb (p.cur_pos + 1) p.cur_end
    then some (record p { cur_pos = p.cur_pos + 1 })
    else next_hard p

-- The loop of CORD__prev that leaves left parts, and what follows it; at the root it would read in
-- front of the path.
unfoldable pub pop_left : Entry → List Entry → Pos → Option Pos
pop_left e [] p = none
pop_left e (parent ∷ rest) p =
    let up = pop_left parent rest p in
    if e.pe_start_pos == parent.pe_start_pos then up else some (extend_path parent rest p)

unfoldable pub prev_hard : Pos → Option Pos
prev_hard p = if p.cur_pos == 0 then some (record p { path = [] }) else elim (p.path) [
  | [] ↦ none
  | e ∷ parents ↦
      if leb e.pe_start_pos (p.cur_pos - 1)
      then some (record p { cur_pos = p.cur_pos - 1 })
      else pop_left e parents (record p { cur_pos = p.cur_pos - 1 })
]

unfoldable pub prev : Pos → Option Pos
prev p =
    if not (p.cur_end == 0) && ltb p.cur_start p.cur_pos
    then some (record p { cur_pos = p.cur_pos - 1 })
    else prev_hard p

-- The position is not CORD_POS_INVALID.
unfoldable pub pos_valid : Pos → Bool
pos_valid p = elim (p.path) [ [] ↦ false | e ∷ parents ↦ true ]

-- CORD_FOR with a body that notes CORD_pos_fetch; `none` also without fuel.
unfoldable pub for_valid : ℕ → Pos → Option (List ℕ)
for_valid zero p = none
for_valid (suc fuel) p =
    let rest = next p >>= λ p'. for_valid fuel p' in
    let all = pos_fetch p >>= λ c. rest >>= λ cs. some (c ∷ cs) in
    if pos_valid p then all else some []

unfoldable pub for_cord : Cord → Pos → Option (List ℕ)
for_cord x p = for_valid (suc (len x)) (set_pos x 0 p)
