-- ===== src/NewHblk/Small.antt =====
-- The four special cases of GC_build_fl: their loops fill the block from below.
use boehmgc.Base.{
  ℕ, zero, suc, ◌+◌, ◌-◌, ◌*◌, ◌≤◌, ◌<◌, ◌≡◌, refl, ◌∙◌, Bool, true, false, some, arith, lt→ltb,
  le→ltb_false, ap, subst,
}
use boehmgc.Memory.{Mem, store}
use boehmgc.NewHblk.{
  hblksize, fill_loop, fill_clear2, build_fl_clear2, fill_clear4, build_fl_clear4, fill2, build_fl2,
  fill4, build_fl4,
}
use boehmgc.NewHblk.Spec.{Grown, Grown-next, Built}

-- `m'` is `m` outside the bytes from `p` to `q`.
record Within (p q : ℕ) (m m' : Mem) : Type 0 where
  below : (a : ℕ) → a < p → m' a ≡ m a
  above : (a : ℕ) → q ≤ a → m' a ≡ m a

Within-trans :
    (p q r : ℕ) {m m' m'' : Mem}
    → p ≤ q
    → q ≤ r
    → Within p q m m'
    → Within q r m' m''
    → Within p r m m''
Within-trans p q r pq qr v w = record {
  below = λ a l. w.below a (omega arith) ∙ v.below a l;
  above = λ a l. w.above a l ∙ v.above a (omega arith);
}

-- A round fills the next `stride` bytes and keeps `P`, which says what the rounds so far have built
-- and where the head of the list is.
record Round (h stride back : ℕ) (fill : ℕ → ℕ → Mem → Mem) (P : ℕ → Mem → ℕ → Type 0)
    : Type 0 where
  next :
      (r head : ℕ) (m : Mem)
      → P r m head
      → P (suc r) (fill (h + r * stride) head m) (h + suc r * stride - back)
  within : (p link : ℕ) (m : Mem) → Within p (p + stride) m (fill p link m)

module _ {h stride back : ℕ} {fill : ℕ → ℕ → Mem → Mem} {P : ℕ → Mem → ℕ → Type 0}
    (round : Round h stride back fill P) (rounds : ℕ) (whole : rounds * stride ≡ hblksize)
    (pos : 0 < stride) where
  fill_loop-rounds :
      (fuel n r : ℕ) (m : Mem)
      → n < fuel
      → r + n ≡ rounds
      → P r m (h + r * stride - back)
      → (m' : Mem) × (fill_loop fill stride back (h + hblksize) fuel (h + r * stride) m
          ≡ some (h + hblksize - back, m'))
        × P rounds m' (h + hblksize - back)
        × Within (h + r * stride) (h + hblksize) m m'
  unfolding fill_loop
  fill_loop-rounds zero n r m f e g = absurd (omega arith)
  fill_loop-rounds (suc fuel) zero r m f e g =
      let last : r ≡ rounds = omega arith in
      let end : h + r * stride ≡ h + hblksize =
        ap (λ t. h + t * stride) last ∙ ap (λ t. h + t) whole in
      (
        m,
        rw (le→ltb_false (h + r * stride) (h + hblksize) (omega arith), end),
        rw (← last) (rw end at g),
        record { below = λ a l. refl; above = λ a l. refl },
      )
  fill_loop-rounds (suc fuel) (suc n) r m f e g =
      let more : suc r * stride ≤ rounds * stride = grind arith in
      let (m', run, t, w) =
        fill_loop-rounds fuel n (suc r) _ (omega arith) (omega arith)
          (round.next r (h + r * stride - back) m g) in
      let ahead : h + suc r * stride ≡ h + r * stride + stride = omega arith in
      (
        m',
        rw (lt→ltb (h + r * stride) (h + hblksize) (omega arith)) (rw ahead at run),
        t,
        Within-trans (h + r * stride) (h + suc r * stride) (h + hblksize) (omega arith)
            (omega arith)
            (rw (← ahead) at (round.within (h + r * stride) (h + r * stride - back) m)) w,
      )

two_objects :
    (clear : Bool) (h size k ofl : ℕ) {m m' : Mem} {head : ℕ} (p q : ℕ)
    → 0 < size
    → p ≡ h + k * size
    → q ≡ h + suc k * size
    → Grown clear h size k ofl m head
    → ((a : ℕ) → a < p → m' a ≡ m a)
    → m' p ≡ head
    → m' q ≡ p
    → (clear ≡ true → (i : ℕ) → 0 < i → 8 * i < size → m' (p + 8 * i) ≡ 0)
    → (clear ≡ true → (i : ℕ) → 0 < i → 8 * i < size → m' (q + 8 * i) ≡ 0)
    → Grown clear h size (suc (suc k)) ofl m' q
two_objects clear h size k ofl {m} {m'} p q pos ep eq g below first second zp zq =
    let one =
      Grown-next clear h size k ofl {m' = m'} pos g (λ a l. below a (omega arith)) (ground arith)
        (λ c i p l. ground (arith, zp c i)) in
    let two =
      Grown-next clear h size (suc k) ofl {m' = m'} pos one (λ a l. refl) (ground arith)
        (λ c i p l. ground (arith, zq c i)) in
    rw eq two

abbrev double : ℕ → ℕ
double zero = zero
double (suc n) = suc (suc (double n))

double-eq : (n : ℕ) → double n ≡ 2 * n
double-eq zero = refl
double-eq (suc n) = omega (arith, double-eq n)

module _ (h ofl : ℕ) where
  round_clear2 : Round h 32 16 fill_clear2 (λ r m head. Grown true h 16 (double r) ofl m head)
  unfolding fill_clear2 store
  round_clear2 = record {
    next = λ r head m g.
        two_objects true h 16 (double r) ofl (h + r * 32) (h + suc r * 32 - 16) (omega arith)
          (omega (arith, double-eq r)) (omega (arith, double-eq r)) g (λ a l. ground arith)
          (ground arith) (ground arith) (λ _ i p l. ground arith) (λ _ i p l. ground arith);
    within = λ p link m. record { below = λ a l. ground arith; above = λ a l. ground arith };
  }

  round_2 : Round h 32 16 fill2 (λ r m head. Grown false h 16 (double r) ofl m head)
  unfolding fill2 store
  round_2 = record {
    next = λ r head m g.
        two_objects false h 16 (double r) ofl (h + r * 32) (h + suc r * 32 - 16) (omega arith)
          (omega (arith, double-eq r)) (omega (arith, double-eq r)) g (λ a l. ground arith)
          (ground arith) (ground arith) (λ c. cc) (λ c. cc);
    within = λ p link m. record { below = λ a l. ground arith; above = λ a l. ground arith };
  }

  round_4 : Round h 64 32 fill4 (λ r m head. Grown false h 32 (double r) ofl m head)
  unfolding fill4 store
  round_4 = record {
    next = λ r head m g.
        two_objects false h 32 (double r) ofl (h + r * 64) (h + suc r * 64 - 32) (omega arith)
          (omega (arith, double-eq r)) (omega (arith, double-eq r)) g (λ a l. ground arith)
          (ground arith) (ground arith) (λ c. cc) (λ c. cc);
    within = λ p link m. record { below = λ a l. ground arith; above = λ a l. ground arith };
  }

  round_clear4 : Round h 32 32 fill_clear4 (λ r m head. Grown true h 32 r ofl m head)
  unfolding fill_clear4 store
  round_clear4 = record {
    next = λ r head m g.
        let here : h + suc r * 32 - 32 ≡ h + r * 32 = omega arith in
        rw here (
          Grown-next true h 32 r ofl (omega arith) g (λ a l. ground arith) (ground arith)
            (λ _ i p l. ground arith));
    within = λ p link m. record { below = λ a l. ground arith; above = λ a l. ground arith };
  }

-- The first round and the loop, over the whole block.
small_block :
    {h stride back : ℕ} {fill : ℕ → ℕ → Mem → Mem} {P : ℕ → Mem → ℕ → Type 0}
    (round : Round h stride back fill P) (rounds ofl : ℕ) (m : Mem)
    → suc rounds * stride ≡ hblksize
    → rounds < hblksize
    → 0 < stride
    → P 0 m ofl
    → (m' : Mem) × (fill_loop fill stride back (h + hblksize) hblksize (h + stride) (fill h ofl m)
        ≡ some (h + hblksize - back, m'))
      × P (suc rounds) m' (h + hblksize - back)
      × Within h (h + hblksize) m m'
small_block {h} {stride} {back} {fill} {P} round rounds ofl m whole few pos start =
    let here : h + 0 * stride ≡ h = omega arith in
    let ahead : h + 1 * stride ≡ h + stride = omega arith in
    let (m', run, t, w) =
      fill_loop-rounds round (suc rounds) whole pos hblksize rounds 1 (fill h ofl m) few
        (omega arith)
        (subst (λ q. P 1 (fill q ofl m) (h + 1 * stride - back)) here (round.next 0 ofl m start)) in
    (
      m',
      rw ahead at run,
      t,
      Within-trans h (h + stride) (h + hblksize) (omega arith) (omega arith) (round.within h ofl m)
          (rw ahead at w),
    )

none_yet : (clear : Bool) (h size ofl : ℕ) (m : Mem) → Grown clear h size 0 ofl m ofl
none_yet clear h size ofl m = record { links = refl; blank = λ c j i l. absurd (omega arith) }

module _ (h ofl : ℕ) (m : Mem) where
  pub build_fl_clear2-Built :
      (m' : Mem) × (build_fl_clear2 h ofl m ≡ some (h + hblksize - 16, m'))
      × Built true h 16 ofl m (h + hblksize - 16) m'
  unfolding build_fl_clear2
  build_fl_clear2-Built =
      let (m', run, t, w) =
        small_block (round_clear2 h ofl) 127 ofl m refl (omega arith) (omega arith)
          (none_yet true h 16 ofl m) in
      (m', run, record { grown = t; below = w.below; above = w.above })

  pub build_fl2-Built :
      (m' : Mem) × (build_fl2 h ofl m ≡ some (h + hblksize - 16, m'))
      × Built false h 16 ofl m (h + hblksize - 16) m'
  unfolding build_fl2
  build_fl2-Built =
      let (m', run, t, w) =
        small_block (round_2 h ofl) 127 ofl m refl (omega arith) (omega arith)
          (none_yet false h 16 ofl m) in
      (m', run, record { grown = t; below = w.below; above = w.above })

  pub build_fl_clear4-Built :
      (m' : Mem) × (build_fl_clear4 h ofl m ≡ some (h + hblksize - 32, m'))
      × Built true h 32 ofl m (h + hblksize - 32) m'
  unfolding build_fl_clear4
  build_fl_clear4-Built =
      let (m', run, t, w) =
        small_block (round_clear4 h ofl) 127 ofl m refl (omega arith) (omega arith)
          (none_yet true h 32 ofl m) in
      (m', run, record { grown = t; below = w.below; above = w.above })

  pub build_fl4-Built :
      (m' : Mem) × (build_fl4 h ofl m ≡ some (h + hblksize - 32, m'))
      × Built false h 32 ofl m (h + hblksize - 32) m'
  unfolding build_fl4
  build_fl4-Built =
      let (m', run, t, w) =
        small_block (round_4 h ofl) 63 ofl m refl (omega arith) (omega arith)
          (none_yet false h 32 ofl m) in
      (m', run, record { grown = t; below = w.below; above = w.above })
