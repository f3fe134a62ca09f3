-- ===== src/Cord.antt =====
-- cord/cordbscs.c: cords, strings with cheap concatenation. A character is a number, a C string the
-- list of its characters without the final NUL. Memory is always available.

pub mod Spec
mod Tests
pub mod Cat
pub mod Balance
pub mod Substr
pub mod Iter
pub mod Position
pub mod Extra
use boehmgc.Base.{
  ℕ, zero, suc, ◌+◌, ◌-◌, ◌/◌, ◌%◌, ◌^◌, Bool, true, false, not, ◌&&◌, ◌||◌, Option, none, some,
  List, [], ◌∷◌, ◌++◌, ltb, leb, ◌==◌, if◌then◌else◌, length, get_elem?, take, drop,
}

-- What a function node calls, with its client data: a client's function, or one of
-- CORD_index_access_fn and CORD_apply_access_fn with a struct substr_args.
pub data Function : Type 0 where
  client : (ℕ → ℕ) → Function
  index_access : List ℕ → ℕ → Function
  apply_access : Function → ℕ → Function

-- CORD_EMPTY, a C string, a concatenation with its depth, left_len and len, a function with its len.
pub data Cord : Type 0 where
  empty : Cord
  string : List ℕ → Cord
  concat : (depth left_len len : ℕ) → (left right : Cord) → Cord
  function : (fn : Function) → (len : ℕ) → Cord

-- A character of a C string, NUL at its end.
abbrev pub char_at : List ℕ → ℕ → ℕ
char_at s i = elim (get_elem? s i) [ none ↦ 0 | some c ↦ c ]

-- `(*fn)(i, client_data)`
unfoldable pub call : Function → ℕ → ℕ
call (client fn) i = fn i
call (index_access s sa_index) i = char_at s (i + sa_index)
call (apply_access f sa_index) i = call f (i + sa_index)

abbrev pub is_string : Cord → Bool
is_string (string s) = true
is_string _ = false

abbrev pub is_empty : Cord → Bool
is_empty empty = true
is_empty _ = false

-- GEN_LEN, and 0 for CORD_EMPTY as in CORD_len.
abbrev pub len : Cord → ℕ
len empty = 0
len (string s) = length s
len (concat depth left_len n left right) = n
len (function fn n) = n

abbrev pub depth_of : Cord → ℕ
depth_of (concat depth left_len n left right) = depth
depth_of _ = 0

-- LEFT_LEN
unfoldable pub left_len_of : Cord → ℕ
left_len_of (concat depth left_len n left right) =
    if not (left_len == 0) then left_len else if is_string left then n - len right else len left
left_len_of _ = 0

abbrev pub max_depth : ℕ
max_depth = 48

-- sizeof(CordRep) is 32.
abbrev pub short_limit : ℕ
short_limit = 31

abbrev pub substr_limit : ℕ
substr_limit = 310

infixl 5 ◌>>=◌
abbrev pub ◌>>=◌ : {A B : Type 0} → Option A → (A → Option B) → Option B
o >>= f = elim o [ none ↦ none | some a ↦ f a ]

-- The end of CORD_cat and of CORD_cat_char_star: a new node, balanced if it is too deep.
unfoldable pub new_concat : (Cord → Option Cord) → ℕ → ℕ → ℕ → Cord → Cord → Option Cord
new_concat balance depth lenx result_len x y =
    let result = concat depth (if leb lenx 255 then lenx else 0) result_len x y in
    if leb max_depth depth then balance result else some result

-- The length that CORD_cat_char_star computes for the right part of a concatenation.
unfoldable pub right_len_of : ℕ → ℕ → Cord → List ℕ → ℕ
right_len_of left_len lenx left right =
    if not (is_string left)
    then lenx - len left
    else if not (left_len == 0)
    then lenx - left_len
    else length right

-- `leny` is the length of `y`.
unfoldable pub cat_char_star : (Cord → Option Cord) → Cord → List ℕ → Option Cord
cat_char_star balance empty y = some (string y)
cat_char_star balance (string s) y =
    if length y == 0
    then some (string s)
    else if leb (length s + length y) short_limit
    then some (string (s ++ y))
    else new_concat balance 1 (length s) ((length s + length y) % 2 ^ 64) (string s) (string y)
cat_char_star balance (concat depth left_len lenx left (string right)) y =
    let x = concat depth left_len lenx left (string right) in
    let right_len = right_len_of left_len lenx left right in
    if length y == 0
    then some x
    else if leb (length y) (short_limit / 2) && leb (right_len + length y) short_limit
    then new_concat balance (if is_string left then 1 else depth_of left + 1) (lenx - right_len)
        ((lenx - right_len + (right_len + length y)) % 2 ^ 64) left
        (string (take right_len right ++ y))
    else new_concat balance (depth + 1) lenx ((lenx + length y) % 2 ^ 64) x (string y)
cat_char_star balance x y =
    if length y == 0
    then some x
    else new_concat balance (depth_of x + 1) (len x) ((len x + length y) % 2 ^ 64) x (string y)

-- The rest of CORD_cat, for `y` not a string and `x` not empty.
unfoldable pub cat_node : (Cord → Option Cord) → Cord → Cord → Option Cord
cat_node balance (string s) y =
    new_concat balance (depth_of y + 1) (length s) ((length s + len y) % 2 ^ 64) (string s) y
cat_node balance x y =
    let depth = depth_of x + 1 in
    new_concat balance (if leb depth (depth_of y) then depth_of y + 1 else depth) (len x)
      ((len x + len y) % 2 ^ 64) x y

unfoldable pub cat_with : (Cord → Option Cord) → Cord → Cord → Option Cord
cat_with balance empty y = some y
cat_with balance x empty = some x
cat_with balance x (string s) = cat_char_star balance x s
cat_with balance x y = cat_node balance x y
