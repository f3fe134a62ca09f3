-- ===== src/Cord/Tests.antt =====
-- The theorems on cords at small cords.
use boehmgc.Base.{
  ℕ, ◌+◌, ◌-◌, ◌^◌, ◌<◌, ◌≡◌, refl, Bool, some, none, Option, List, [], ◌∷◌, ◌++◌, arith, ◌==◌,
  if◌then◌else◌, length, take, drop,
}
use boehmgc.Cord.{
  Function, client, index_access, Cord, string, concat, function, depth_of, max_depth,
}
use boehmgc.Cord.Spec.{text, IsRope, IsCord}
use boehmgc.Cord.Balance.{balance, cat}
use boehmgc.Cord.Balance.MinLen.{min_len-44}
use boehmgc.Cord.Balance.Whole.{Balanced, balance-Balanced, cat-text}
use boehmgc.Cord.Substr.{substr}
use boehmgc.Cord.Substr.Whole.{substr-text}
use boehmgc.Cord.Substr.Wrap.{substr-wraps}
use boehmgc.Cord.Iter.{run_chars, iter5, riter}
use boehmgc.Cord.Iter.Laws.{iter5-text}
use boehmgc.Cord.Iter.Backwards.{backwards, riter-text}

-- "ab", and a function with a NUL at place 1.
abbrev ab : Cord
ab = string (97 ∷ 98 ∷ [])

abbrev digits : Function
digits = client (λ i. if i == 1 then 0 else 48 + i)

abbrev pair : Cord
pair = concat 1 2 5 ab (function digits 3)

ab-IsCord : IsCord ab
ab-IsCord = (omega arith, omega arith)

pair-IsRope : IsRope pair
pair-IsRope = (refl, refl, refl, ab-IsCord, (omega arith, tt))

cat-text_example :
    (c : Cord) × (cat pair ab ≡ some c)
    × IsCord c
    × (text c ≡ text pair ++ text ab)
    × (depth_of c < max_depth)
cat-text_example =
    cat-text pair ab pair-IsRope ab-IsCord (omega arith) (omega arith) (omega (arith, min_len-44))

balance-Balanced_example : (c : Cord) × (balance pair ≡ some c) × Balanced pair c
balance-Balanced_example = balance-Balanced pair pair-IsRope (omega (arith, min_len-44))

substr-text_example :
    (c : Cord) × (substr pair 1 3 ≡ some c) × IsCord c × (text c ≡ take 3 (drop 1 (text pair)))
substr-text_example =
    substr-text pair 1 3 pair-IsRope (omega arith) (omega (arith, min_len-44)) (omega arith)

substr-wraps_example :
    (substr ab 1 (2 ^ 64 - 1) ≡ some (function (index_access (97 ∷ 98 ∷ []) 1) (2 ^ 64 - 1)))
    × (length {A = ℕ} (97 ∷ 98 ∷ []) < 1 + (2 ^ 64 - 1))
substr-wraps_example =
    substr-wraps (97 ∷ 98 ∷ []) 1 (2 ^ 64 - 1) (omega arith) (omega arith) (omega arith)
      (omega arith)

-- A client that counts, and stops at the third character.
abbrev third : ℕ → ℕ → Bool × ℕ
third c n = (n == 2, n + 1)

no_batch :
    (f : List ℕ → ℕ → Bool × ℕ)
    → ◌≡◌ {A = Option (List ℕ → ℕ → Bool × ℕ)} none (some f)
    → (t : List ℕ) (n : ℕ) → f t n ≡ run_chars third t n
no_batch f e t n = cc

iter5-text_example : iter5 third none pair 1 0 ≡ some (run_chars third (drop 1 (text pair)) 0)
iter5-text_example = iter5-text third none no_batch pair 1 0 pair-IsRope (omega arith)

riter-text_example : riter third pair 0 ≡ some (run_chars third (backwards (text pair)) 0)
riter-text_example = riter-text third pair 0 pair-IsRope
