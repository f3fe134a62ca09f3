-- ===== src/Mark/Scan.antt =====
-- The scans of GC_mark_from look at every word of a range, and at the words that a bitmap names.
use boehmgc.Base.{
  ℕ, zero, suc, ◌+◌, ◌-◌, ◌*◌, ◌/◌, ◌%◌, ◌^◌, ◌≤◌, ◌<◌, ◌≡◌, ◌≢◌, refl, true, false, Option, none,
  some, List, arith, leb, ltb, ◌==◌, Bool-cases, inl, inr, ap, sym, subst, ==_iff, leb_false→lt,
  leb→le, le→leb, lt→leb_false, lt→ltb, dec_lt,
}
use boehmgc.Mark.{
  Heap, Marker, plausible, find_deferred, scan_up, scan_found, scan_range, scan_bitmap,
}
use boehmgc.Mark.Target.{IsHeap, target}
use boehmgc.Mark.Push.{
  Object, Handled, BitmapField, Listed, Closed, Advance, Advance-refl, Advance-trans,
}
use boehmgc.Mark.Consider.{push_contents-Advance, consider-Advance}

-- The first `n` words from `start` on have been looked at.
abbrev pub Seen : Heap → Marker → ℕ → ℕ → Type 0
Seen h s start n = (i : ℕ) → i < n → Handled h s (h.memory (start + 8 * i))

module _ (h : Heap) (objects : List Object) (pend : ℕ → Type 0) (live : Object → Type 0)
    (cand : ℕ → Type 0) (heap : IsHeap h) (listed : Listed h objects) (closed : Closed h live) where
  Handled-later :
      {s s' : Marker} (p : ℕ)
      → Advance h objects pend live cand s s'
      → Handled h s p
      → Handled h s' p
  Handled-later p a g = λ o t. a.marked o (g o t)

  implausible : (s : Marker) (p : ℕ) → plausible h p ≡ false → Handled h s p
  unfolding target
  implausible s p e = λ o t. absurd (nothing o (rw e at t))
    where
      nothing : (o : Object) → ◌≢◌ {A = Option Object} none (some o)
      nothing o = λ e. cc

  -- What find_deferred leaves: nothing, if no word of the range is plausible, or the words below
  -- the one that it found.
  abbrev Deferred : ℕ → ℕ → Option (ℕ × ℕ) → Type 0
  Deferred cur n none = (i : ℕ) → i < n → plausible h (h.memory (cur + 8 * i)) ≡ false
  Deferred cur n (some (d, limit)) =
      (j : ℕ) × (j < n)
      × (d ≡ h.memory (cur + 8 * j))
      × (plausible h d ≡ true)
      × (limit ≡ cur + 8 * j - 8)
      × ((i : ℕ) → j < i → i < n → plausible h (h.memory (cur + 8 * i)) ≡ false)

  last_word :
      (cur j limit : ℕ)
      → limit ≡ cur + 8 * j
      → plausible h (h.memory limit) ≡ false
      → (i : ℕ) → i ≡ j
      → plausible h (h.memory (cur + 8 * i)) ≡ false
  last_word cur j limit e f i g =
      let same : limit ≡ cur + 8 * i = omega arith in
      subst (λ v. plausible h (h.memory v) ≡ false) same f

  not_below : (a b : ℕ) → b ≤ a → ltb a b ≡ false
  not_below a b l = ground arith

  Deferred-more :
      (cur j limit : ℕ) (r : Option (ℕ × ℕ))
      → limit ≡ cur + 8 * suc j
      → plausible h (h.memory limit) ≡ false
      → Deferred cur (suc j) r
      → Deferred cur (suc (suc j)) r
  Deferred-more cur j limit none e f d = λ i l. elim (dec_lt i (suc j)) [
    | yes m ↦ d i m
    | no m ↦ last_word cur (suc j) limit e f i (omega arith)
  ]
  Deferred-more cur j limit (some (v, limit')) e f (k, l, at, is, end, above) = (
    k,
    omega arith,
    at,
    is,
    end,
    λ i g m. elim (dec_lt i (suc j)) [
      | yes n ↦ above i g n
      | no n ↦ last_word cur (suc j) limit e f i (omega arith)
    ],
  )

  find_deferred-Deferred :
      (k cur j limit : ℕ)
      → j < k
      → 8 ≤ cur
      → limit ≡ cur + 8 * j
      → Deferred cur (suc j) (find_deferred h k cur limit)
  unfolding find_deferred
  find_deferred-Deferred zero cur j limit l low e = absurd (omega arith)
  find_deferred-Deferred (suc k) cur zero limit l low e =
      elim (Bool-cases (plausible h (h.memory limit))) [
        | inl is ↦
            rw is
              (0, omega arith, ap h.memory e, is, ap (λ v. v - 8) e, λ i f g. absurd (omega arith))
        | inr not_ ↦
            let first : ltb (limit - 8) cur ≡ true = lt→ltb (limit - 8) cur (omega arith) in
            rw (not_, first) (λ i f. last_word cur 0 limit e not_ i (omega arith))
      ]
  find_deferred-Deferred (suc k) cur (suc j) limit l low e =
      elim (Bool-cases (plausible h (h.memory limit))) [
        | inl is ↦ rw is (
          suc j,
          omega arith,
          ap h.memory e,
          is,
          ap (λ v. v - 8) e,
          λ i f g. absurd (omega arith),
        )
        | inr not_ ↦
            let inside : ltb (limit - 8) cur ≡ false = not_below (limit - 8) cur (omega arith) in
            rw (not_, inside)
              (Deferred-more cur j limit (find_deferred h k cur (limit - 8)) e not_
                (find_deferred-Deferred k cur j (limit - 8) (omega arith) low (omega arith)))
      ]

  -- The loop upwards looks at the words up to `limit`.
  scan_up-Advance :
      (k cur n limit : ℕ) (s : Marker)
      → n < k
      → limit + 8 ≡ cur + 8 * n
      → ((i : ℕ) → i < n → cand (h.memory (cur + 8 * i)))
      → (s' : Marker) × (scan_up h k cur limit s ≡ some s')
        × Advance h objects pend live cand s s'
        × Seen h s' cur n
  unfolding scan_up
  scan_up-Advance zero cur n limit s l e c = absurd (omega arith)
  scan_up-Advance (suc k) cur zero limit s l e c =
      let past : leb cur limit ≡ false = lt→leb_false cur limit (omega arith) in
      (s, rw past refl, Advance-refl s, λ i f. absurd (omega arith))
  scan_up-Advance (suc k) cur (suc n) limit s l e c =
      let inside : leb cur limit ≡ true = le→leb cur limit (omega arith) in
      let (t, here, a, seen) =
        consider-Advance h objects pend live cand heap listed closed s (h.memory cur)
          (here_cand (c 0 (omega arith))) in
      let (u, rest, b, more) =
        scan_up-Advance k (cur + 8) n limit t (omega arith) (omega arith)
          (λ i l. rest_cand i (c (suc i) (omega arith))) in
      (
        u,
        rw (inside, here) rest,
        Advance-trans a b,
        all u (Handled-later (h.memory cur) b seen) more,
      )
    where
      here_cand : cand (h.memory (cur + 8 * 0)) → cand (h.memory cur)
      here_cand x = let z : cur + 8 * 0 ≡ cur = omega arith in rw z at x

      rest_cand : (i : ℕ) → cand (h.memory (cur + 8 * suc i)) → cand (h.memory (cur + 8 + 8 * i))
      rest_cand i x = let z : cur + 8 * suc i ≡ cur + 8 + 8 * i = omega arith in rw z at x

      all : (u : Marker) → Handled h u (h.memory cur) → Seen h u (cur + 8) n → Seen h u cur (suc n)
      all u first more zero f = let z : cur + 8 * 0 ≡ cur = omega arith in rw z first
      all u first more (suc i) f =
          let z : cur + 8 * suc i ≡ cur + 8 + 8 * i = omega arith in rw z (more i (omega arith))

  -- The scan of a range of whole words looks at all of them.
  pub scan_range-Advance :
      (cur n : ℕ) (s : Marker)
      → 0 < n
      → 8 ≤ cur
      → ((i : ℕ) → i < n → cand (h.memory (cur + 8 * i)))
      → (s' : Marker) × (scan_range h cur (cur + 8 * n) s ≡ some s')
        × Advance h objects pend live cand s s'
        × Seen h s' cur n
  unfolding scan_range scan_found
  scan_range-Advance cur n s some_ low c =
      let fuel : (cur + 8 * n - cur) / 8 ≡ n = omega arith in
      rw (fuel, scan_range) (ends (find_deferred h (suc n) cur (cur + 8 * n - 8)) (one n some_))
    where
      one : (m : ℕ) → 0 < m → Deferred cur m (find_deferred h (suc m) cur (cur + 8 * m - 8))
      one zero l = absurd (omega arith)
      one (suc m) l =
          find_deferred-Deferred (suc (suc m)) cur m (cur + 8 * suc m - 8) (omega arith) low
            (omega arith)

      ends :
          (r : Option (ℕ × ℕ))
          → Deferred cur n r
          → (s' : Marker) × (scan_found h (suc n) cur r s ≡ some s')
            × Advance h objects pend live cand s s'
            × Seen h s' cur n
      ends none d = (s, refl, Advance-refl s, λ i l. implausible s (h.memory (cur + 8 * i)) (d i l))
      ends (some (v, limit)) (j, l, at, is, end, above) =
          let (t, up, a, seen) =
            scan_up-Advance (suc n) cur j limit s (omega arith) (omega arith)
              (λ i m. c i (omega arith)) in
          let (u, last, b, done) =
            push_contents-Advance h objects pend live cand heap listed closed t v is
              (subst cand (sym at) (c j l)) in
          (
            u,
            rw (up, last) refl,
            Advance-trans a b,
            λ i m. elim (dec_lt i j) [
              | yes f ↦ Handled-later (h.memory (cur + 8 * i)) b (seen i f)
              | no f ↦ elim (dec_lt j i) [
                | yes g ↦ implausible u (h.memory (cur + 8 * i)) (above i g m)
                | no g ↦
                    let same : j ≡ i = omega arith in
                    subst (λ x. Handled h u (h.memory (cur + 8 * x))) same
                      (subst (λ x. Handled h u x) at done)
              ]
            ],
          )

  no_bits : (k cur a descr : ℕ) → descr ≡ 0 → BitmapField k descr cur a → ⊥
  no_bits zero cur a descr z f = f
  no_bits (suc k) cur a descr z (inl f) = let l = f.0 in absurd (omega arith)
  no_bits (suc k) cur a descr z (inr f) = no_bits k (cur + 8) a (descr * 2 % 2 ^ 64) (omega arith) f

  -- The loop over a bitmap looks at the words that it names.
  pub scan_bitmap-Advance :
      (k descr cur : ℕ) (s : Marker)
      → ((a : ℕ) → BitmapField k descr cur a → cand (h.memory a))
      → (s' : Marker) × (scan_bitmap h k descr cur s ≡ some s')
        × Advance h objects pend live cand s s'
        × ((a : ℕ) → BitmapField k descr cur a → Handled h s' (h.memory a))
  unfolding scan_bitmap
  scan_bitmap-Advance zero descr cur s c = (s, refl, Advance-refl s, λ a f. absurd f)
  scan_bitmap-Advance (suc k) descr cur s c = elim (Bool-cases (descr == 0)) [
    | inl z ↦
        let z' = (==_iff descr 0).0 z in
        (s, rw z refl, Advance-refl s, λ a f. absurd (no_bits (suc k) cur a descr z' f))
    | inr nz ↦ elim (Bool-cases (leb (2 ^ 63) descr)) [
      | inl set ↦
          let set' = leb→le (2 ^ 63) descr set in
          let (t, here, a, seen) =
            consider-Advance h objects pend live cand heap listed closed s (h.memory cur)
              (c cur (inl (set', refl))) in
          let (u, rest, b, more) =
            scan_bitmap-Advance k (descr * 2 % 2 ^ 64) (cur + 8) t (λ a f. c a (inr f)) in
          (
            u,
            rw (nz, set, here) rest,
            Advance-trans a b,
            λ x f. elim f [
              | inl g ↦
                  subst (λ v. Handled h u (h.memory v)) (sym g.1)
                    (Handled-later (h.memory cur) b seen)
              | inr g ↦ more x g
            ],
          )
      | inr clear ↦
          let below = leb_false→lt (2 ^ 63) descr clear in
          let (u, rest, b, more) =
            scan_bitmap-Advance k (descr * 2 % 2 ^ 64) (cur + 8) s (λ a f. c a (inr f)) in
          (
            u,
            rw (nz, clear) rest,
            b,
            λ x f. elim f [ inl g ↦ let l = g.0 in absurd (omega arith) | inr g ↦ more x g ],
          )
    ]
  ]
