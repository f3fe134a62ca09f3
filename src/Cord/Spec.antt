-- ===== src/Cord/Spec.antt =====
-- The text that a cord stands for, and which representations are well formed.
use boehmgc.Base.{
  ℕ, zero, suc, ◌+◌, ◌≤◌, ◌<◌, ◌≡◌, ◌≢◌, refl, List, [], ◌∷◌, ◌++◌, arith, leb, if◌then◌else◌,
  length, length-append,
}
use Prim.Native.Nat.{max}
use boehmgc.Cord.{
  Function, client, index_access, apply_access, Cord, empty, string, concat, function, call, len,
  depth_of,
}

-- The characters of `fn` from `j` on.
abbrev pub chars : (ℕ → ℕ) → ℕ → ℕ → List ℕ
chars fn j zero = []
chars fn j (suc n) = fn j ∷ chars fn (suc j) n

abbrev pub text : Cord → List ℕ
text empty = []
text (string s) = s
text (concat depth left_len n left right) = text left ++ text right
text (function fn n) = chars (call fn) 0 n

abbrev pub NonZero : List ℕ → Type 0
NonZero [] = Unit
NonZero (c ∷ cs) = (c ≢ 0) × NonZero cs

-- The accesses of `n` characters stay within the flat string that they go to.
abbrev pub Within : Function → ℕ → Type 0
Within (client fn) n = Unit
Within (index_access s sa_index) n = sa_index + n ≤ length s
Within (apply_access f sa_index) n = Within f (sa_index + n)

-- A well formed cord that is not empty.
abbrev pub IsRope : Cord → Type 0
IsRope empty = ⊥
IsRope (string s) = (0 < length s) × NonZero s
IsRope (concat depth left_len n left right) =
    (depth ≡ suc (max (depth_of left) (depth_of right)))
    × (left_len ≡ (if leb (len left) 255 then len left else 0))
    × (n ≡ len left + len right)
    × IsRope left
    × IsRope right
IsRope (function fn n) = (0 < n) × Within fn n

abbrev pub IsCord : Cord → Type 0
IsCord empty = Unit
IsCord x = IsRope x

pub length-chars : (fn : ℕ → ℕ) (j n : ℕ) → length (chars fn j n) ≡ n
length-chars fn j zero = refl
length-chars fn j (suc n) = ground (arith, length-chars fn (suc j) n)

pub length-text : (c : Cord) → IsCord c → length (text c) ≡ len c
length-text empty h = refl
length-text (string s) h = refl
length-text (concat depth left_len n left right) h = omega (
  arith,
  length-append (text left) (text right),
  length-text left (rope left h.3),
  length-text right (rope right h.4),
)
  where
    rope : (c : Cord) → IsRope c → IsCord c
    rope empty h = tt
    rope (string s) h = h
    rope (concat _ _ _ _ _) h = h
    rope (function _ _) h = h
length-text (function fn n) h = length-chars (call fn) 0 n

pub rope-positive : (c : Cord) → IsRope c → 0 < len c
rope-positive empty h = absurd h
rope-positive (string s) h = h.0
rope-positive (concat depth left_len n left right) h = omega (arith, rope-positive left h.3)
rope-positive (function fn n) h = h.0

pub rope-cord : (c : Cord) → IsRope c → IsCord c
rope-cord empty h = tt
rope-cord (string s) h = h
rope-cord (concat _ _ _ _ _) h = h
rope-cord (function _ _) h = h

-- What concatenation gives.
pub record Joined (x y c : Cord) : Type 0 where
  pub cord : IsCord c
  pub same : text c ≡ text x ++ text y
  pub size : len c ≡ len x + len y
  pub shallow : depth_of c ≤ suc (max (depth_of x) (depth_of y))
