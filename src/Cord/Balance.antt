-- ===== src/Cord/Balance.antt =====
-- CORD_balance of cord/cordbscs.c, and CORD_cat, which calls it. A forest is an array of MAX_DEPTH
-- trees; `none` is an access to it or to min_len outside the array or before it is set, or ABORT.
pub mod MinLen
pub mod Forest
pub mod Loops
pub mod Add
pub mod Whole
use boehmgc.Base.{
  ℕ, zero, suc, ◌+◌, ◌-◌, ◌%◌, ◌^◌, Bool, true, false, not, ◌&&◌, ◌||◌, Option, none, some, ltb,
  leb, ◌==◌, if◌then◌else◌,
}
use boehmgc.Cord.{
  Cord, empty, string, concat, function, len, depth_of, left_len_of, is_empty, max_depth, cat_with,
  ◌>>=◌,
}

-- `previous` and `last` of CORD_init_min_len behind `i` rounds: min_len[i] and min_len[i + 1].
unfoldable pub min_len_pair : ℕ → ℕ × ℕ
min_len_pair zero = (1, 2)
min_len_pair (suc i) =
    let (previous, last) = min_len_pair i in
    let current = (last + previous) % 2 ^ 64 in (last, if ltb current last then last else current)

unfoldable pub min_len : ℕ → ℕ
unfolding min_len_pair
min_len i = (min_len_pair i).0

-- An element of a forest; `unset` is one that CORD_init_forest leaves as it was on the stack.
pub data Element : Type 0 where
  unset : Element
  tree : (c : Cord) → (len : ℕ) → Element

abbrev pub Forest : Type 0
Forest = ℕ → Element

abbrev pub put : Forest → ℕ → Element → Forest
put forest i e = λ j. if j == i then e else forest j

-- The loop of CORD_init_forest, `n` rounds before its end. A cleared element has CORD_EMPTY, and its
-- length is not read.
pub init_forest_loop : ℕ → ℕ → ℕ → Forest → Option Forest
init_forest_loop max_len zero i forest = none
init_forest_loop max_len (suc n) i forest =
    let forest' = put forest i (tree empty 0) in
    let rest = init_forest_loop max_len n (suc i) forest' in
    if ltb max_len (min_len i) then some forest' else rest

unfoldable pub init_forest : ℕ → Option Forest
unfolding init_forest_loop
init_forest max_len = init_forest_loop max_len max_depth 0 (λ _. unset)

-- The local variables of CORD_add_forest and CORD_concat_forest.
pub record Sum : Type 0 where
  pub i : ℕ
  pub forest : Forest
  pub sum : Cord
  pub sum_len : ℕ

module _ (cat : Cord → Cord → Option Cord) where
  -- One round of each of their three loops: a tree goes in front of the sum, and CORD_add_forest
  -- also takes it off the forest.
  unfoldable pub absorb : Bool → Sum → Option Sum
  absorb clear s = elim (s.forest s.i) [
    | unset ↦ none
    | tree c l ↦ if is_empty c then some (record s { i = suc s.i }) else elim (cat c s.sum) [
      | none ↦ none
      | some sum' ↦ some (record {
        i = suc s.i;
        forest = if clear then put s.forest s.i (tree empty l) else s.forest;
        sum = sum';
        sum_len = (s.sum_len + l) % 2 ^ 64;
      })
    ]
  ]

  -- `while (len > min_len[i + 1])`
  unfoldable pub gather : ℕ → ℕ → Sum → Option Sum
  unfolding absorb
  gather n zero s = none
  gather n (suc k) s =
      if leb max_depth (suc s.i)
      then none
      else if leb n (min_len (suc s.i))
      then some s
      else elim (absorb true s) [ none ↦ none | some s' ↦ gather n k s' ]

  -- `while (sum_len >= min_len[i])`
  unfoldable pub carry : ℕ → Sum → Option Sum
  unfolding absorb
  carry zero s = none
  carry (suc k) s =
      if leb max_depth s.i
      then none
      else if ltb s.sum_len (min_len s.i)
      then some s
      else elim (absorb true s) [ none ↦ none | some s' ↦ carry k s' ]

  unfoldable pub add_forest : Forest → Cord → ℕ → Option Forest
  add_forest forest x n =
      elim (gather n max_depth (record { i = 0; forest = forest; sum = empty; sum_len = 0 })) [
        | none ↦ none
        | some s ↦ elim (cat s.sum x) [
          | none ↦ none
          | some sum' ↦
              elim (carry (suc max_depth)
                (record s { sum = sum'; sum_len = (s.sum_len + n) % 2 ^ 64 })) [
                  | none ↦ none
                  | some s' ↦ some (put s'.forest (s'.i - 1) (tree s'.sum s'.sum_len))
                ]
        ]
      ]

  -- `while (sum_len != expected_len)`
  unfoldable pub concat_loop : ℕ → ℕ → Sum → Option Cord
  concat_loop expected_len zero s = none
  concat_loop expected_len (suc k) s =
      if s.sum_len == expected_len
      then some s.sum
      else if leb max_depth s.i
      then none
      else elim (absorb false s) [ none ↦ none | some s' ↦ concat_loop expected_len k s' ]

  unfoldable pub concat_forest : Forest → ℕ → Option Cord
  concat_forest forest expected_len =
      concat_loop expected_len (suc max_depth)
        (record { i = 0; forest = forest; sum = empty; sum_len = 0 })

  unfoldable pub balance_insert : Cord → ℕ → Forest → Option Forest
  balance_insert (concat depth left_len m left right) n forest =
      let ll = left_len_of (concat depth left_len m left right) in
      let deeper : Option Forest = elim (balance_insert left ll forest) [
        | none ↦ none
        | some forest' ↦ balance_insert right (n - ll) forest'
      ] in
      if leb max_depth depth || ltb n (min_len depth)
      then deeper
      else add_forest forest (concat depth left_len m left right) n
  balance_insert x n forest = add_forest forest x n

  unfoldable pub balance_by : Cord → Option Cord
  balance_by empty = some empty
  balance_by (string s) = some (string s)
  balance_by x = elim (init_forest (len x)) [
    | none ↦ none
    | some forest ↦ elim (balance_insert x (len x) forest) [
      | none ↦ none
      | some forest' ↦ concat_forest forest' (len x)
    ]
  ]

-- CORD_balance with `k` levels of CORD_cat and CORD_balance that call one another.
unfoldable pub balance_at : ℕ → Cord → Option Cord
balance_at zero x = none
balance_at (suc k) x = balance_by (cat_with (balance_at k)) x

-- One level is enough: the calls of CORD_cat from CORD_balance need no balancing themselves.
unfoldable pub balance : Cord → Option Cord
balance x = balance_at 1 x

unfoldable pub cat : Cord → Cord → Option Cord
cat x y = cat_with balance x y
