-- ===== src/Specific/Write.antt =====
-- GC_setspecific gives a thread that has no value one.
use boehmgc.Base.{
  update-here, update-other, ℕ, zero, suc, ◌≡◌, ◌≢◌, refl, sym, ap, ◌∙◌, subst, Option, none, some,
  ◌==◌, ==_iff, Bool-cases, inl, inr, ◌⊎◌, update,
}
use boehmgc.Specific.{Tse, Tsd, hash_of, publish, setspecific, enomem}
use boehmgc.Specific.Chain.{Walk, Walk-fresh, split}
use boehmgc.Specific.Keys.{head, Lacks, Owns, Holds, Rep, Fresh, Owns-Lacks}

pub Walk-end :
    (tses : ℕ → Tse) (x t k p e : ℕ)
    → ((a : ℕ) → (tses a).next ≢ x)
    → p ≢ x
    → Walk tses t k p e
    → e ≢ x
Walk-end tses x t zero p e fresh px (at, stop) = λ q. px (at ∙ q)
Walk-end tses x t (suc k) p e fresh px (p0, other, w) =
    Walk-end tses x t k (tses p).next e fresh (fresh p) w

module _ (s : Tsd) (self v p : ℕ) (fresh : Fresh s p) where
  abbrev s' : Tsd
  s' = publish self v p s

  abbrev filled : Tse
  filled = record { qtid = 0; value = v; next = head s self; thread = self }

  pub publish-same : (a : ℕ) → a ≢ p → s'.tses a ≡ s.tses a
  unfolding publish
  publish-same a d = update-other s.tses p filled a d

  new : s'.tses p ≡ filled
  unfolding publish
  new = update-here s.tses p filled

  stays : (t k a e : ℕ) → a ≢ p → Walk s.tses t k a e → Walk s'.tses t k a e
  stays t k a e d w = Walk-fresh s.tses s'.tses p t k a e publish-same fresh.tses d w

  -- The way of another thread from the head of its chain.
  pub publish-Walk :
      (t k e : ℕ)
      → t ≢ self
      → Walk s.tses t k (head s t) e
      → (j : ℕ) × Walk s'.tses t j (head s' t) e
  unfolding publish
  publish-Walk t k e d w = elim (split (hash_of t) (hash_of self)) [
    | inl q ↦
        let w' = stays t k (head s t) e (fresh.hash (hash_of t)) w in
        let first = subst (λ i. s'.hash i ≡ p) (sym q) (update-here s.hash (hash_of self) p) in
        let link = ap (λ (x : Tse). x.next) new ∙ ap s.hash (sym q) in
        (
          suc k,
          subst (λ a. Walk s'.tses t (suc k) a e) (sym first)
              (
                fresh.valid,
                λ x. d (sym x ∙ ap (λ (x : Tse). x.thread) new),
                subst (λ a. Walk s'.tses t k a e) (sym link) w',
              ),
        )
    | inr q ↦ (
      k,
      subst (λ a. Walk s'.tses t k a e) (sym (update-other s.hash (hash_of self) p (hash_of t) q))
          (stays t k (head s t) e (fresh.hash (hash_of t)) w),
    )
  ]

  publish-Owns : (t e : ℕ) → t ≢ self → Owns s t e → Owns s' t e
  publish-Owns t e d o =
      let ep = Walk-end s.tses p t o.steps (head s t) e fresh.tses (fresh.hash (hash_of t)) o.way in
      let e_same = publish-same e ep in
      let (j, w) = publish-Walk t o.steps e d o.way in
      record {
        valid = o.valid;
        own = ap (λ (x : Tse). x.thread) e_same ∙ o.own;
        steps = j;
        way = w;
        rest = o.rest;
        after =
            subst (λ a. Walk s'.tses t o.rest a 0) (sym (ap (λ (x : Tse). x.next) e_same))
              (stays t o.rest (s.tses e).next 0 (fresh.tses e) o.after);
      }

  publish-Holds : (t : ℕ) (o : Option ℕ) → t ≢ self → Holds s t o → Holds s' t o
  publish-Holds t none d l =
      let (j, w) = publish-Walk t l.steps 0 d l.way in record { steps = j; way = w }
  publish-Holds t (some x) d (e, o, val) =
      let ep = Walk-end s.tses p t o.steps (head s t) e fresh.tses (fresh.hash (hash_of t)) o.way in
      (e, publish-Owns t e d o, ap (λ (x : Tse). x.value) (publish-same e ep) ∙ val)

  publish_self : Lacks s self → Owns s' self p
  unfolding publish
  publish_self l = record {
    valid = fresh.valid;
    own = ap (λ (x : Tse). x.thread) new;
    steps = 0;
    way = (
      update-here s.hash (hash_of self) p,
      inr (
          subst (λ a. (s'.tses a).thread ≡ self) (sym (update-here s.hash (hash_of self) p))
            (ap (λ (x : Tse). x.thread) new)),
    );
    rest = l.steps;
    after =
        subst (λ a. Walk s'.tses self l.steps a 0) (sym (ap (λ (x : Tse). x.next) new))
          (stays self l.steps (head s self) 0 (fresh.hash (hash_of self)) l.way);
  }

  pub publish-Rep :
      (owner : ℕ → ℕ) (m : ℕ → Option ℕ)
      → Rep owner s m
      → m self ≡ none
      → Rep owner s' (update m self (some v))
  unfolding publish
  publish-Rep owner m r lacks =
      let none_yet = subst (λ o. Holds s self o) lacks (r.holds self) in
      record {
        holds = λ t. elim (split t self) [
          | inl q ↦
              subst (λ o. Holds s' t o)
                (sym (ap (update m self (some v)) q ∙ update-here m self (some v)))
                (subst (λ u. Holds s' u (some v)) (sym q)
                  (p, publish_self none_yet, ap (λ (x : Tse). x.value) new))
          | inr q ↦
              subst (λ o. Holds s' t o) (sym (update-other m self (some v) t q))
                (publish-Holds t (m t) q (r.holds t))
        ];
        cached = λ i valid.
            let at = publish-same (s.cache i) (fresh.cache i) in
            let o = r.cached i (λ z. valid (ap (λ (x : Tse). x.qtid) at ∙ z)) in
            subst (λ q. Owns s' (owner q) (s.cache i)) (sym (ap (λ (x : Tse). x.qtid) at))
              (publish-Owns (owner (s.tses (s.cache i)).qtid) (s.cache i)
                (λ q.
                  Owns-Lacks s self (s.cache i) (subst (λ t. Owns s t (s.cache i)) q o) none_yet)
                o);
      }

-- GC_setspecific for a thread that has no value, with an entry to which nothing points, sets its
-- value and no other, and the cache stays right. Without memory it answers ENOMEM and does nothing.
pub setspecific-Rep :
    (owner : ℕ → ℕ) (s : Tsd) (m : ℕ → Option ℕ) (self v p : ℕ)
    → Rep owner s m
    → m self ≡ none
    → ((p ≡ 0) ⊎ Fresh s p)
    → ((p ≡ 0) × (setspecific self v p s ≡ (enomem, s)))
      ⊎ ((p ≢ 0)
          × (s' : Tsd) × (setspecific self v p s ≡ (0, s'))
          × Rep owner s' (update m self (some v)))
unfolding setspecific
setspecific-Rep owner s m self v p r lacks (inl z) = inl (z, rw ((==_iff p 0).1 z) refl)
setspecific-Rep owner s m self v p r lacks (inr fresh) = inr (
  fresh.valid,
  publish self v p s,
  elim (Bool-cases (p == 0)) [
    | inl e ↦ absurd (fresh.valid ((==_iff p 0).0 e))
    | inr e ↦ rw e refl
  ],
  publish-Rep s self v p fresh owner m r lacks,
)
