-- ===== src/Specific/Read.antt =====
-- GC_getspecific, by the cache or by the chain, answers the value of the thread.
use boehmgc.Base.{
  update-here, update-other, ℕ, zero, suc, ◌<◌, ◌≡◌, ◌≢◌, refl, sym, ap, ◌∙◌, subst, Option, none,
  some, arith, ◌==◌, ==_iff, Bool-cases, inl, inr, update,
}
use boehmgc.Specific.{
  Tse, Tsd, cache_hash, search, set_qtid, remember, slow_getspecific, getspecific,
}
use boehmgc.Specific.Chain.{Walk, split, found_test, go_on_test}
use boehmgc.Specific.Keys.{head, Owns, Holds, Rep, Owns-unique, Owns-Lacks}
use boehmgc.Specific.Frame.{
  Frame-Owns, Frame-Holds, same-Frame, set_qtid-links, set_qtid-values, set_qtid-here,
  set_qtid-other,
}

-- The value, or NULL.
abbrev pub or_null : Option ℕ → ℕ
or_null none = 0
or_null (some v) = v

pub search-Walk :
    (tses : ℕ → Tse) (t fuel k p e : ℕ)
    → Walk tses t k p e
    → k < fuel
    → search t tses fuel p ≡ some e
unfolding search
search-Walk tses t zero k p e w l = absurd (omega arith)
search-Walk tses t (suc fuel) zero p e (at, stop) l =
    rw (found_test tses t p stop) (ap (λ (v : ℕ). some v) at)
search-Walk tses t (suc fuel) (suc k) p e (p0, other, w) l =
    rw (go_on_test tses t p p0 other) (search-Walk tses t fuel k (tses p).next e w (omega arith))

module _ (owner : ℕ → ℕ) (s : Tsd) (m : ℕ → Option ℕ) (t q i : ℕ) (r : Rep owner s m) where
  -- The entry of the thread goes into the cache.
  remembered-Rep :
      (x : ℕ)
      → Owns s t x
      → owner q ≡ t
      → Rep owner (record (set_qtid x q s) { cache = update (set_qtid x q s).cache i x }) m
  unfolding set_qtid
  remembered-Rep x own mine =
      let s' : Tsd = record (set_qtid x q s) { cache = update (set_qtid x q s).cache i x } in
      let frame = same-Frame s s' (λ j. refl) (set_qtid-links x q s) (set_qtid-values x q s) in
      let here = set_qtid-here x q s in
      let at_x =
        subst (λ u. Owns s' u x) (sym mine ∙ ap owner (sym here)) (Frame-Owns t x frame refl own) in
      record {
        holds = λ u. Frame-Holds u (m u) frame refl (r.holds u);
        cached = λ j d. elim (split (s'.cache j) x) [
          | inl e ↦ subst (λ v. Owns s' (owner (s'.tses v).qtid) v) (sym e) at_x
          | inr n ↦
              let kept = other_place j n in
              subst (λ v. Owns s' (owner (s'.tses v).qtid) v) (sym kept)
                (stays (s.cache j) (λ z. n (kept ∙ z)) (r.cached j)
                  (subst (λ v. (s'.tses v).qtid ≢ 0) kept d))
        ];
      }
    where
      other_place : (j : ℕ) → update s.cache i x j ≢ x → update s.cache i x j ≡ s.cache j
      other_place j n = elim (split j i) [
        | inl e ↦ absurd (n (ap (update s.cache i x) e ∙ update-here s.cache i x))
        | inr d ↦ update-other s.cache i x j d
      ]

      stays :
          (a : ℕ)
          → a ≢ x
          → ((s.tses a).qtid ≢ 0 → Owns s (owner (s.tses a).qtid) a)
          → ((set_qtid x q s).tses a).qtid ≢ 0
          → Owns
              (record (set_qtid x q s) { cache = update (set_qtid x q s).cache i x })
              (owner ((set_qtid x q s).tses a).qtid)
              a
      stays a n c d =
          let e = set_qtid-other x q s a n in
          subst
            (λ v.
              Owns (record (set_qtid x q s) { cache = update (set_qtid x q s).cache i x }) (owner v)
                a)
            (sym e)
            (Frame-Owns (owner (s.tses a).qtid) a
              (same-Frame s (record (set_qtid x q s) { cache = update (set_qtid x q s).cache i x })
                (λ j. refl) (set_qtid-links x q s) (set_qtid-values x q s))
              refl (c (λ z. d (e ∙ z))))

  -- The slow path.
  slow_getspecific-Rep :
      (o : Option ℕ)
      → Holds s t o
      → owner q ≡ t
      → (n : ℕ) × ((fuel : ℕ)
          → n < fuel
          → (s' : Tsd) × (slow_getspecific fuel t q i s ≡ some (or_null o, s')) × Rep owner s' m)
  unfolding slow_getspecific remember
  slow_getspecific-Rep none l mine = (
    l.steps,
    λ fuel lt.
        (s, rw (slow_getspecific, search-Walk s.tses t fuel l.steps (head s t) 0 l.way lt) refl, r),
  )
  slow_getspecific-Rep (some v) (x, own, val) mine = (
    own.steps,
    λ fuel lt. (
      record (set_qtid x q s) { cache = update (set_qtid x q s).cache i x },
      rw (slow_getspecific, search-Walk s.tses t fuel own.steps (head s t) x own.way lt)
          (given x own.valid val),
      remembered-Rep x own mine,
    ),
  )
    where
      given :
          (x : ℕ)
          → x ≢ 0
          → (s.tses x).value ≡ v
          → some (remember q i x s)
            ≡ some (v, record (set_qtid x q s) { cache = update (set_qtid x q s).cache i x })
      given x x0 val = elim (Bool-cases (x == 0)) [
        | inl e ↦ absurd (x0 ((==_iff x 0).0 e))
        | inr e ↦ rw (e, val) refl
      ]

-- GC_getspecific, called by a thread with a quick thread identifier of its own, ends and answers the
-- thread's value, or NULL if it has none, whether it finds the entry in the cache or on the chain.
-- The values stay, and the cache stays right.
pub getspecific-Rep :
    (owner : ℕ → ℕ) (s : Tsd) (m : ℕ → Option ℕ) (t q : ℕ)
    → Rep owner s m
    → q ≢ 0
    → owner q ≡ t
    → (n : ℕ) × ((fuel : ℕ)
        → n < fuel
        → (s' : Tsd) × (getspecific fuel t q s ≡ some (or_null (m t), s')) × Rep owner s' m)
unfolding getspecific
getspecific-Rep owner s m t q r q0 mine =
    let entry = s.cache (cache_hash q) in
    elim (Bool-cases ((s.tses entry).qtid == q)) [
      | inl hit ↦
          let e = (==_iff (s.tses entry).qtid q).0 hit in
          let own =
            subst (λ u. Owns s u entry) (ap owner e ∙ mine)
              (r.cached (cache_hash q) (λ z. q0 (sym e ∙ z))) in
          (
            0,
            λ fuel lt. (
              s,
              rw (getspecific, hit)
                  (ap (λ (v : ℕ). some (v, s)) (answer (m t) entry own (r.holds t))),
              r,
            ),
          )
      | inr miss ↦
          let (n, slow) =
            slow_getspecific-Rep owner s m t q (cache_hash q) r (m t) (r.holds t) mine in
          (n, λ fuel lt. let (s', run, r') = slow fuel lt in (s', rw (getspecific, miss) run, r'))
    ]
  where
    answer : (o : Option ℕ) (a : ℕ) → Owns s t a → Holds s t o → (s.tses a).value ≡ or_null o
    answer none a own l = absurd (Owns-Lacks s t a own l)
    answer (some v) a own (x, own', val) =
        ap (λ b. (s.tses b).value) (Owns-unique s t a x own own') ∙ val
