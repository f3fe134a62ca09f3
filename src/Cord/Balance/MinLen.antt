-- ===== src/Cord/Balance/MinLen.antt =====
-- The table min_len of cord/cordbscs.c: Fibonacci numbers, with no overflow in it.
use boehmgc.Base.{
  ℕ, zero, suc, ◌+◌, ◌*◌, ◌≤◌, ◌<◌, ◌≡◌, refl, Bool, true, ◌&&◌, arith, ◌==◌, ℕ_discrete,
}
use boehmgc.Cord.Balance.{min_len}

-- The recurrence holds below `n`.
recurs : ℕ → Bool
recurs zero = true
recurs (suc n) = (min_len (suc (suc n)) == min_len (suc n) + min_len n) && recurs n

recurs-46 : recurs 46 ≡ true
unfolding recurs min_len
recurs-46 = refl

recurs-at :
    (n i : ℕ) → recurs n ≡ true → i < n → min_len (suc (suc i)) ≡ min_len (suc i) + min_len i
unfolding recurs
recurs-at zero i h l = absurd (omega arith)
recurs-at (suc n) i h l = elim (ℕ_discrete i n) [
  | yes e ↦ rw e (ground (arith, h))
  | no ne ↦ recurs-at n i (ground arith) (omega arith)
]

pub min_len-suc-suc : (i : ℕ) → i < 46 → min_len (suc (suc i)) ≡ min_len (suc i) + min_len i
min_len-suc-suc i l = recurs-at 46 i recurs-46 l

pub min_len-zero : min_len 0 ≡ 1
unfolding min_len
min_len-zero = refl

min_len-one : min_len 1 ≡ 2
unfolding min_len
min_len-one = refl

-- The table grows, and at most doubles, from one entry to the next.
pub min_len-suc :
    (i : ℕ) → i < 47 → (min_len i < min_len (suc i)) × (min_len (suc i) ≤ 2 * min_len i)
min_len-suc zero l = omega (arith, min_len-zero, min_len-one)
min_len-suc (suc i) l =
    let (grows, twice) = min_len-suc i (omega arith) in
    omega (arith, min_len-suc-suc i (omega arith))

pub min_len_mono : (i j : ℕ) → i < j → j < 48 → min_len i < min_len j
min_len_mono i zero l u = absurd (omega arith)
min_len_mono i (suc j) l u = elim (ℕ_discrete i j) [
  | yes e ↦ rw e ((min_len-suc j (omega arith)).0)
  | no ne ↦
      omega (arith, min_len_mono i j (omega arith) (omega arith), (min_len-suc j (omega arith)).0)
]

pub min_len-44 : min_len 44 ≡ 1836311903
unfolding min_len
min_len-44 = refl
