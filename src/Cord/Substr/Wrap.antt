-- ===== src/Cord/Substr/Wrap.antt =====
-- CORD_substr with a length so large that `i + n` wraps around.
use boehmgc.Base.{
  ℕ, ◌+◌, ◌%◌, ◌^◌, ◌≤◌, ◌<◌, ◌≡◌, refl, true, false, some, List, arith, ◌==◌, ltb, leb, length,
  lt→leb_false, lt→ltb, le→ltb_false,
}
use boehmgc.Cord.{Function, index_access, string, function, short_limit, substr_limit}
use boehmgc.Cord.Substr.{from_fn_inner, substr_checked, substr}

from_fn_inner-long :
    (fn : Function) (n : ℕ)
    → (n == 0) ≡ false
    → leb n short_limit ≡ false
    → from_fn_inner fn n ≡ function fn n
unfolding from_fn_inner
from_fn_inner-long fn n nz long = rw (nz, long) refl

-- For a C string, a place within it and a length that makes `i + n` wrap around, CORD_substr does not
-- cut the length: the result claims `n` characters from place `i` on, which is past the string's end.
pub substr-wraps :
    (s : List ℕ) (i n : ℕ)
    → i < length s
    → length s < 2 ^ 63
    → n < 2 ^ 64
    → 2 ^ 64 ≤ i + n
    → (substr (string s) i n ≡ some (function (index_access s i) n)) × (length s < i + n)
unfolding substr substr_checked
substr-wraps s i n l room m w =
    let near : leb (length s) i ≡ false = lt→leb_false (length s) i l in
    let nz : (n == 0) ≡ false = ground arith in
    let cut : ltb (length s) ((i + n) % 2 ^ 64) ≡ false =
      le→ltb_false (length s) ((i + n) % 2 ^ 64) (omega arith) in
    let long : ltb substr_limit n ≡ true = lt→ltb substr_limit n (omega arith) in
    let long' : leb n short_limit ≡ false = lt→leb_false n short_limit (omega arith) in
    (rw (near, nz, cut, long, from_fn_inner-long (index_access s i) n nz long') refl, omega arith)
