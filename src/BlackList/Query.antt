-- ===== src/BlackList/Query.antt =====
-- GC_is_black_listed: what its two answers mean.
use boehmgc.Base.{
  ℕ, zero, suc, ◌+◌, ◌-◌, ◌*◌, ◌/◌, ◌%◌, ◌≤◌, ◌<◌, ◌≡◌, refl, inl, inr, Bool, true, false, ◌||◌,
  ◌&&◌, not, Option, none, some, arith, leb, tests, Bool-cases, dec_lt, ◌∙◌, ap,
}
use boehmgc.BlackList.{
  hblksize, Table, pht_hash, word_is_zero, BlackLists, black_listed_loop, is_black_listed,
}

word_is_zero-bits :
    (bl : Table) (base n : ℕ)
    → word_is_zero bl base n ≡ true
    → (d : ℕ) → d < n
    → bl (base + d) ≡ false
unfolding word_is_zero
word_is_zero-bits bl base zero z d l = absurd (omega arith)
word_is_zero-bits bl base (suc n) z d l = elim (dec_lt d n) [
  | yes q ↦ word_is_zero-bits bl base n (ground arith) d q
  | no q ↦ let e : d ≡ n = omega arith in rw e (ground arith)
]

-- Blocks that follow one another in the heap follow one another in the table, within a word.
pht_hash-next :
    (h i j : ℕ)
    → i ≤ j
    → j < i + (64 - pht_hash (h + i * hblksize) % 64)
    → pht_hash (h + j * hblksize)
      ≡ pht_hash (h + i * hblksize) / 64 * 64 + (pht_hash (h + i * hblksize) % 64 + (j - i))
unfolding pht_hash
pht_hash-next h i j le lt = omega arith

-- Whether block `j` from `h` on is on a stack black list.
abbrev pub listed : Table → Table → ℕ → ℕ → Bool
listed old incomplete h j =
    old (pht_hash (h + j * hblksize)) || incomplete (pht_hash (h + j * hblksize))

pub data Verdict (old incomplete : Table) (h nblocks i : ℕ) : Option ℕ → Type 0 where
  clean :
      ((j : ℕ) → i ≤ j → j < nblocks → listed old incomplete h j ≡ false)
      → Verdict old incomplete h nblocks i none
  hit :
      (j r : ℕ)
      → r ≡ h + (j + 1) * hblksize
      → i ≤ j
      → j ≤ nblocks - 1
      → listed old incomplete h j ≡ true
      → ((a : ℕ) → i ≤ a → a < j → listed old incomplete h a ≡ false)
      → Verdict old incomplete h nblocks i (some r)

module _ (old incomplete : Table) (h nblocks : ℕ) where
  Verdict-later :
      (i i' : ℕ) {o : Option ℕ}
      → i ≤ i'
      → ((a : ℕ) → i ≤ a → a < i' → listed old incomplete h a ≡ false)
      → Verdict old incomplete h nblocks i' o
      → Verdict old incomplete h nblocks i o
  Verdict-later i i' le skip (clean c) =
      clean λ j l u. elim (dec_lt j i') [ yes q ↦ skip j l q | no q ↦ c j (omega arith) u ]
  Verdict-later i i' le skip (hit j r e l v y c) =
      hit j r e (omega arith) v y
        λ a m u. elim (dec_lt a i') [ yes q ↦ skip a m q | no q ↦ c a (omega arith) u ]

  easy_skip :
      (i : ℕ)
      → let index = pht_hash (h + i * hblksize) in
        (word_is_zero old (index / 64 * 64) 64 && word_is_zero incomplete (index / 64 * 64) 64)
          ≡ true
        → (a : ℕ) → i ≤ a
        → a < i + (64 - pht_hash (h + i * hblksize) % 64)
        → listed old incomplete h a ≡ false
  easy_skip i z a l u =
      let index = pht_hash (h + i * hblksize) in
      rw (pht_hash-next h i a l u) (
        ground (
          arith,
          word_is_zero-bits old (index / 64 * 64) 64 (ground arith) (index % 64 + (a - i))
              (omega arith),
          word_is_zero-bits incomplete (index / 64 * 64) 64 (ground arith) (index % 64 + (a - i))
              (omega arith),
        ))

  black_listed_loop-Verdict :
      (k i : ℕ)
      → nblocks < k + i
      → 0 < k
      → i ≤ nblocks - 1
      → (o : Option ℕ) × (black_listed_loop old incomplete h nblocks k i ≡ some o)
        × Verdict old incomplete h nblocks i o
  unfolding black_listed_loop
  black_listed_loop-Verdict zero i f p b = absurd (omega arith)
  black_listed_loop-Verdict (suc k) i f p b =
      let index = pht_hash (h + i * hblksize) in
      let base = index / 64 * 64 in
      elim (Bool-cases (word_is_zero old base 64 && word_is_zero incomplete base 64)) [
        | inl easy ↦
            let i' = i + (64 - index % 64) in
            let skip = easy_skip i easy in
            elim (Bool-cases (leb nblocks i')) [
              | inl done ↦ (none, rw (easy, done), clean λ j l u. skip j l (omega (tests, done)))
              | inr more ↦
                  let (o, run, v) =
                    black_listed_loop-Verdict k i' (omega tests) (omega tests) (omega tests) in
                  (o, rw (easy, more) run, Verdict-later i i' (omega arith) skip v)
            ]
        | inr hard ↦ elim (Bool-cases (old index || incomplete index)) [
          | inl yes' ↦ (
            some (h + (i + 1) * hblksize),
            rw (hard, yes'),
            hit i (h + (i + 1) * hblksize) refl (omega arith) b yes' λ a l u. absurd (omega arith),
          )
          | inr no' ↦
              let only : (a : ℕ) → i ≤ a → a < i + 1 → listed old incomplete h a ≡ false =
                λ a l u. let e : a ≡ i = omega arith in rw e no' in
              elim (Bool-cases (leb nblocks (i + 1))) [
                | inl done ↦
                    (none, rw (hard, no', done), clean λ j l u. only j l (omega (tests, done)))
                | inr more ↦
                    let (o, run, v) =
                      black_listed_loop-Verdict k (i + 1) (omega tests) (omega tests)
                        (omega tests) in
                    (o, rw (hard, no', more) run, Verdict-later i (i + 1) (omega arith) only v)
              ]
        ]
      ]

-- Whether the block `h` is on a normal black list that counts.
abbrev pub listed_normally : BlackLists → ℕ → Bool
listed_normally b h =
    not b.all_interior_pointers
    && (b.old_normal_bl (pht_hash h) || b.incomplete_normal_bl (pht_hash h))

-- What GC_is_black_listed may answer.
pub data Answer (b : BlackLists) (h len : ℕ) : Option ℕ → Type 0 where
  normal : listed_normally b h ≡ true → Answer b h len (some (h + hblksize))
  stack :
      {o : Option ℕ}
      → listed_normally b h ≡ false
      → Verdict b.old_stack_bl b.incomplete_stack_bl h (len / hblksize) 0 o
      → Answer b h len o

-- GC_is_black_listed ends. If the first block is on a normal black list that counts, it gives the
-- block behind it. Otherwise it gives NULL only if none of the `len / HBLKSIZE` blocks is on a stack
-- black list; and if it gives a block, that one is behind the first block of the range on a stack
-- black list (where a range below HBLKSIZE still has its first block).
pub is_black_listed-Answer :
    (b : BlackLists) (h len : ℕ)
    → (o : Option ℕ) × (is_black_listed b h len ≡ some o) × Answer b h len o
unfolding is_black_listed
is_black_listed-Answer b h len = elim (Bool-cases (listed_normally b h)) [
  | inl y ↦ (some (h + hblksize), rw y, normal y)
  | inr n ↦
      let (o, run, v) =
        black_listed_loop-Verdict b.old_stack_bl b.incomplete_stack_bl h (len / hblksize)
          (len / hblksize + 1) 0 (omega arith) (omega arith) (omega arith) in
      (o, rw n run, stack n v)
]

Answer-none :
    (b : BlackLists) (h len : ℕ) {o : Option ℕ}
    → Answer b h len o
    → o ≡ none
    → (listed_normally b h ≡ false)
      × ((j : ℕ) → j < len / hblksize → listed b.old_stack_bl b.incomplete_stack_bl h j ≡ false)
Answer-none b h len (normal y) e = cc
Answer-none b h len (stack n v) e = (n, inner v e)
  where
    inner :
        {o : Option ℕ}
        → Verdict b.old_stack_bl b.incomplete_stack_bl h (len / hblksize) 0 o
        → o ≡ none
        → (j : ℕ) → j < len / hblksize
        → listed b.old_stack_bl b.incomplete_stack_bl h j ≡ false
    inner (clean c) e = λ j u. c j (omega arith) u
    inner (hit j r q l v y c) e = cc

-- What a NULL of GC_is_black_listed says of the blocks.
pub clean-of-none :
    (b : BlackLists) (h len : ℕ)
    → is_black_listed b h len ≡ some none
    → (listed_normally b h ≡ false)
      × ((j : ℕ) → j < len / hblksize → listed b.old_stack_bl b.incomplete_stack_bl h j ≡ false)
clean-of-none b h len e =
    let (o, run, a) = is_black_listed-Answer b h len in Answer-none b h len a (ground arith)

Answer-unlisted :
    (b : BlackLists) (h len : ℕ) {o : Option ℕ}
    → listed_normally b h ≡ false
    → ((j : ℕ) → listed b.old_stack_bl b.incomplete_stack_bl h j ≡ false)
    → Answer b h len o
    → o ≡ none
Answer-unlisted b h len n c (normal y) = cc
Answer-unlisted b h len n c (stack _ v) = inner v
  where
    inner :
        {o : Option ℕ}
        → Verdict b.old_stack_bl b.incomplete_stack_bl h (len / hblksize) 0 o
        → o ≡ none
    inner (clean _) = refl
    inner (hit j r q l v y _) = cc (c j)

pub none-of-unlisted :
    (b : BlackLists) (h len : ℕ)
    → listed_normally b h ≡ false
    → ((j : ℕ) → listed b.old_stack_bl b.incomplete_stack_bl h j ≡ false)
    → is_black_listed b h len ≡ some none
none-of-unlisted b h len n c =
    let (o, run, a) = is_black_listed-Answer b h len in
    run ∙ ap some (Answer-unlisted b h len n c a)
