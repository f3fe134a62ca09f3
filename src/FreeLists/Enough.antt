-- ===== src/FreeLists/Enough.antt =====
-- GC_enough_large_bytes_left.
use boehmgc.Base.{
  ℕ, zero, suc, ◌+◌, ◌-◌, ◌%◌, ◌^◌, ◌≤◌, ◌<◌, ◌≡◌, ◌≢◌, arith, leb, Bool-cases, inl, inr, dec_le,
  refl,
}
use boehmgc.FreeLists.{Lists, n_hblk_fls, enough_from, enough_large_bytes_left}

-- The free bytes of the `k` lists from list `m` on.
unfoldable pub on_lists : (ℕ → ℕ) → ℕ → ℕ → ℕ
on_lists free_bytes m zero = 0
on_lists free_bytes m (suc k) = free_bytes (m + k) + on_lists free_bytes m k

-- The lists from `m` to `suc n`, the last one first.
on_lists-last :
    (f : ℕ → ℕ) (m n k t : ℕ)
    → m + k ≡ suc n
    → t ≡ suc k
    → on_lists f m t ≡ f (suc n) + on_lists f m k
unfolding on_lists
on_lists-last f m n k t last e = rw (e, last) refl

-- `r` is the largest list such that `bytes` and what the lists `r` to `n` hold reach `max_large`,
-- or 0 if there is none above 0.
pub record Enough (f : ℕ → ℕ) (max_large bytes n r : ℕ) : Type 0 where
  pub bound : r ≤ n
  pub reaches : r ≢ 0 → max_large ≤ bytes + on_lists f r (suc n - r)
  pub largest : (m : ℕ) → r < m → m ≤ n → bytes + on_lists f m (suc n - m) < max_large

enough_from-Enough :
    (f : ℕ → ℕ) (max_large bytes n : ℕ)
    → bytes + on_lists f 1 n < 2 ^ 64
    → Enough f max_large bytes n (enough_from f max_large bytes n)
unfolding enough_from on_lists
enough_from-Enough f max_large bytes zero small = record {
  bound = omega arith;
  reaches = λ n. ground arith;
  largest = λ m l u. absurd (omega arith);
}
enough_from-Enough f max_large bytes (suc n) small =
    let sum : on_lists f 1 (suc n) ≡ f (suc n) + on_lists f 1 n =
      on_lists-last f 1 n n (suc n) (omega arith) refl in
    let one : on_lists f (suc n) (suc (suc n) - suc n) ≡ f (suc n) + on_lists f (suc n) 0 =
      on_lists-last f (suc n) n 0 (suc (suc n) - suc n) (omega arith) (omega arith) in
    let whole : (bytes + f (suc n)) % 2 ^ 64 ≡ bytes + f (suc n) = omega arith in
    let rest = enough_from-Enough f max_large (bytes + f (suc n)) n (omega arith) in
    let r = enough_from f max_large (bytes + f (suc n)) n in
    rw whole (elim (Bool-cases (leb max_large (bytes + f (suc n)))) [
      | inl yes' ↦ rw yes' record {
        bound = omega arith;
        reaches = λ _. ground arith;
        largest = λ m l u. absurd (omega arith);
      }
      | inr no' ↦ rw no' record {
        bound = omega (arith, rest.bound);
        reaches = λ nz.
            let bound = rest.bound in
            let last : on_lists f r (suc (suc n) - r) ≡ f (suc n) + on_lists f r (suc n - r) =
              on_lists-last f r n (suc n - r) (suc (suc n) - r) (omega arith) (omega arith) in
            omega (arith, rest.reaches nz);
        largest = λ m l u. elim (dec_le m n) [
          | yes in' ↦
              let last : on_lists f m (suc (suc n) - m) ≡ f (suc n) + on_lists f m (suc n - m) =
                on_lists-last f m n (suc n - m) (suc (suc n) - m) (omega arith) (omega arith) in
              omega (arith, rest.largest m l in')
          | no out ↦ let here : m ≡ suc n = omega arith in rw (here, one) (ground arith)
        ];
      }
    ])

-- GC_enough_large_bytes_left, where the free and the allocated bytes stay below 2 ^ 64, gives the
-- largest list such that the large blocks allocated and the bytes of the lists from it on reach
-- GC_max_large_allocd_bytes, or 0 if no list above 0 does.
pub enough_large_bytes_left-Enough :
    (s : Lists) (large_allocd_bytes max_large_allocd_bytes : ℕ)
    → large_allocd_bytes + on_lists s.free_bytes 1 n_hblk_fls < 2 ^ 64
    → Enough s.free_bytes max_large_allocd_bytes large_allocd_bytes n_hblk_fls
        (enough_large_bytes_left s large_allocd_bytes max_large_allocd_bytes)
unfolding enough_large_bytes_left
enough_large_bytes_left-Enough s large_allocd_bytes max_large_allocd_bytes small =
    enough_from-Enough s.free_bytes max_large_allocd_bytes large_allocd_bytes n_hblk_fls small
