-- ===== src/Cord/Extra.antt =====
-- cord/cordxtra.c: the conversions between cords and C strings, reading a character, and the search
-- for one. Memory is always available.
pub mod Fill
pub mod Search
mod Tests
use boehmgc.Base.{
  ◌%◌, ℕ, zero, suc, ◌+◌, Bool, true, false, Option, none, some, List, [], ◌∷◌, ◌++◌, leb, ◌==◌,
  if◌then◌else◌, length,
}
use boehmgc.Cord.{Cord, empty, string, concat, function, len, ◌>>=◌}
use boehmgc.Cord.Iter.{iter5}
use boehmgc.Cord.Position.{Pos, set_pos, pos_valid, pos_fetch}

-- CORD_fill_data is the list of the first `count` characters of `buf`; `max` is its field `len`.
unfoldable pub fill_proc : ℕ → ℕ → List ℕ → Bool × List ℕ
fill_proc max c buf = let buf' = buf ++ c ∷ [] in (leb max (length buf'), buf')

-- The NUL that it also writes behind a string lies behind `count`.
unfoldable pub batched_fill_proc : ℕ → List ℕ → List ℕ → Bool × List ℕ
batched_fill_proc max [] buf = (false, buf)
batched_fill_proc max (c ∷ t) buf =
    let buf' = buf ++ c ∷ [] in
    let rest = batched_fill_proc max t buf' in if leb max (length buf') then (true, buf') else rest

unfoldable pub fill_buf : Cord → ℕ → ℕ → Option (Bool × List ℕ)
fill_buf x i n = iter5 (fill_proc n) (some (batched_fill_proc n)) x i []

-- `none` is ABORT.
unfoldable pub to_char_star : Cord → Option (List ℕ)
to_char_star x =
    let filled = fill_buf x 0 (len x) >>= λ (stop, buf). if stop then some buf else none in
    if len x == 0 then some [] else filled

unfoldable pub from_char_star : List ℕ → Cord
from_char_star s = if length s == 0 then empty else string s

unfoldable pub to_const_char_star : Cord → Option (List ℕ)
to_const_char_star empty = some []
to_const_char_star (string s) = some s
to_const_char_star x = to_char_star x

-- `p` is what the local xpos holds before.
unfoldable pub fetch : Cord → ℕ → Pos → Option ℕ
fetch x i p = let xpos = set_pos x i p in if pos_valid xpos then pos_fetch xpos else none

-- chr_data is its field `pos`.
unfoldable pub chr_proc : ℕ → ℕ → ℕ → Bool × ℕ
chr_proc target c pos = if c == target then (true, pos) else (false, pos + 1)

-- strchr(s, target) - s; the NUL at the end counts.
unfoldable pub strchr : List ℕ → ℕ → Option ℕ
strchr [] target = if target == 0 then some 0 else none
strchr (c ∷ s) target =
    let rest = strchr s target >>= λ i. some (i + 1) in if c == target then some 0 else rest

unfoldable pub batched_chr_proc : ℕ → List ℕ → ℕ → Bool × ℕ
batched_chr_proc target s pos = elim (strchr s target) [
  | none ↦ (false, pos + length s)
  | some occ ↦ (true, pos + occ)
]

-- A char is its byte, and `(char)c` is the last byte of `c`. `some none` is CORD_NOT_FOUND.
unfoldable pub chr : Cord → ℕ → ℕ → Option (Option ℕ)
chr x i c =
    let target = c % 256 in
    iter5 (chr_proc target) (some (batched_chr_proc target)) x i i >>= λ (stop, pos).
    some (if stop then some pos else none)
