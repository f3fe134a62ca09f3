-- ===== src/Specific/Remove.antt =====
-- GC_remove_specific_after_fork takes the value of a thread away.
use boehmgc.Base.{
  update-here, update-other, ℕ, ◌<◌, ◌≡◌, ◌≢◌, refl, sym, ap, ◌∙◌, subst, Option, none, some, ◌==◌,
  ==_iff, Bool-cases, inl, inr, update,
}
use boehmgc.Specific.{Tse, Tsd, hash_of, set_qtid, unlink, invalidate, remove_specific_after_fork}
use boehmgc.Specific.Chain.{Walk, Walk-same, Unlinked, split}
use boehmgc.Specific.Keys.{head, Lacks, Owns, Holds, Rep, Owns-unique}
use boehmgc.Specific.Frame.{
  Frame, Frame-trans, Frame-Owns, Frame-Holds, weaken-Frame, set_qtid-Frame, set_qtid-links,
  set_qtid-here, set_qtid-other, Unlinked-Frame, head-Frame, shorter, shorter-same,
  shorter-Unlinked,
}
use boehmgc.Specific.Find.{Behind, find-Behind}

record Gone (s s' : Tsd) (t x : ℕ) : Type 0 where
  pub cleared : (s'.tses x).qtid ≡ 0
  pub lacks : Lacks s' t
  pub frame : Frame (λ u. t ≢ u) s s'
  pub qtids : (a : ℕ) → (s'.tses a).qtid ≢ 0 → (s'.tses a).qtid ≡ (s.tses a).qtid
  pub cache : (i : ℕ) → s'.cache i ≡ s.cache i

module _ (s : Tsd) (t x : ℕ) (own : Owns s t x) where
  abbrev s1 : Tsd
  s1 = set_qtid x 0 s

  s1-qtids : (a : ℕ) → (s1.tses a).qtid ≢ 0 → (s1.tses a).qtid ≡ (s.tses a).qtid
  s1-qtids a d = elim (split a x) [
    | inl q ↦ absurd (d (subst (λ v. (s1.tses v).qtid ≡ 0) (sym q) (set_qtid-here x 0 s)))
    | inr q ↦ set_qtid-other x 0 s a q
  ]

  narrow : (u : ℕ) → t ≢ u → (s1.tses x).thread ≢ u
  narrow u d o = d (sym own.own ∙ sym (set_qtid-links x 0 s x).0 ∙ o)

  frame1 : Frame (λ u. t ≢ u) s s1
  frame1 = weaken-Frame (λ u d. refl) (set_qtid-Frame x 0 s)

  unlink-first : head s t ≡ x → Gone s (unlink (hash_of t) 0 x s1) t x
  unfolding unlink set_qtid
  unlink-first first =
      let moved = update-here s1.hash (hash_of t) (s1.tses x).next in
      record {
        cleared = set_qtid-here x 0 s;
        lacks = record {
          steps = own.rest;
          way =
              subst (λ v. Walk s1.tses t own.rest v 0) (sym (set_qtid-links x 0 s x).1 ∙ sym moved)
                (Walk-same s.tses s1.tses t own.rest (s.tses x).next 0 (set_qtid-links x 0 s)
                  own.after);
        };
        frame = Frame-trans frame1 (
            weaken-Frame narrow (
              head-Frame s1 (unlink (hash_of t) 0 x s1) (hash_of t) x own.valid first moved
                (update-other s1.hash (hash_of t) (s1.tses x).next) refl));
        qtids = s1-qtids;
        cache = λ i. refl;
      }

  module _ (pr : ℕ) (behind : Behind s.tses t (head s t) pr x) where
    abbrev s2 : Tsd
    s2 = record s1 { tses = update s1.tses pr (shorter s1.tses pr x) }

    run : unlink (hash_of t) pr x s1 ≡ s2
    unfolding unlink
    run = elim (Bool-cases (pr == 0)) [
      | inl e ↦ absurd (behind.valid ((==_iff pr 0).0 e))
      | inr e ↦ rw e refl
    ]

    s2-Unlinked : Unlinked s1.tses s2.tses pr x
    s2-Unlinked = shorter-Unlinked s1.tses pr x ((set_qtid-links x 0 s pr).1 ∙ behind.links)

    whole-Unlinked : Unlinked s.tses s2.tses pr x
    whole-Unlinked = record {
      linked = behind.links;
      moved = s2-Unlinked.moved ∙ (set_qtid-links x 0 s x).1;
      kept = λ a d. s2-Unlinked.kept a d ∙ (set_qtid-links x 0 s a).1;
      threads = λ a. s2-Unlinked.threads a ∙ (set_qtid-links x 0 s a).0;
    }

    s2-Gone : Gone s s2 t x
    unfolding set_qtid
    s2-Gone =
        let (j, w) = behind.closes s2.tses own.rest whole-Unlinked own.after in
        record {
          cleared = shorter-same s1.tses pr x (λ v. v.qtid) refl x ∙ set_qtid-here x 0 s;
          lacks = record { steps = j; way = w };
          frame = Frame-trans frame1 (
              weaken-Frame narrow (
                Unlinked-Frame s1 s2 pr x (λ i. refl) own.valid s2-Unlinked
                  (shorter-same s1.tses pr x (λ v. v.value) refl)));
          qtids = λ a d.
              let e = shorter-same s1.tses pr x (λ v. v.qtid) refl a in
              e ∙ s1-qtids a (λ z. d (e ∙ z));
          cache = λ i. refl;
        }

    unlink-Gone : Gone s (unlink (hash_of t) pr x s1) t x
    unlink-Gone = subst (λ v. Gone s v t x) (sym run) s2-Gone

Gone-Rep :
    (owner : ℕ → ℕ) (s s' : Tsd) (m : ℕ → Option ℕ) (t x : ℕ)
    → Rep owner s m
    → Owns s t x
    → Gone s s' t x
    → Rep owner s' (update m t none)
Gone-Rep owner s s' m t x r own g = record {
  holds = λ u. elim (split u t) [
    | inl q ↦
        subst (λ o. Holds s' u o) (sym (ap (update m t none) q ∙ update-here m t none))
          (subst (λ v. Lacks s' v) (sym q) g.lacks)
    | inr d ↦
        subst (λ o. Holds s' u o) (sym (update-other m t none u d))
          (Frame-Holds u (m u) g.frame (λ q. d (sym q)) (r.holds u))
  ];
  cached = λ i d.
      let at = ap s'.tses (g.cache i) in
      let d' = subst (λ (v : Tse). v.qtid ≢ 0) at d in
      let e = g.qtids (s.cache i) d' in
      let o = r.cached i (λ z. d' (e ∙ z)) in
      subst (λ v. Owns s' (owner (s'.tses v).qtid) v) (sym (g.cache i))
        (subst (λ q. Owns s' (owner q) (s.cache i)) (sym e)
          (Frame-Owns (owner (s.tses (s.cache i)).qtid) (s.cache i) g.frame
            (λ q.
              let same =
                Owns-unique s t (s.cache i) x (subst (λ v. Owns s v (s.cache i)) (sym q) o) own in
              d' (subst (λ v. (s'.tses v).qtid ≡ 0) (sym same) g.cleared))
            o));
}

-- GC_remove_specific_after_fork ends, and takes away the value of the thread, if it has one, and no
-- other, and the cache stays right: the entry is in it under no quick thread identifier any more.
pub remove_specific_after_fork-Rep :
    (owner : ℕ → ℕ) (s : Tsd) (m : ℕ → Option ℕ) (t : ℕ)
    → Rep owner s m
    → (n : ℕ) × ((fuel : ℕ)
        → n < fuel
        → (s' : Tsd) × (remove_specific_after_fork fuel t s ≡ some s')
          × Rep owner s' (update m t none))
unfolding remove_specific_after_fork invalidate
remove_specific_after_fork-Rep owner s m t r = by_value (m t) refl (r.holds t)
  where
    taken : (pr x : ℕ) → x ≢ 0 → invalidate t (pr, x) s ≡ unlink (hash_of t) pr x (set_qtid x 0 s)
    taken pr x x0 = elim (Bool-cases (x == 0)) [
      | inl e ↦ absurd (x0 ((==_iff x 0).0 e))
      | inr e ↦ rw e refl
    ]

    by_value :
        (o : Option ℕ)
        → m t ≡ o
        → Holds s t o
        → (n : ℕ) × ((fuel : ℕ)
            → n < fuel
            → (s' : Tsd) × (remove_specific_after_fork fuel t s ≡ some s')
              × Rep owner s' (update m t none))
    by_value none e l = (
      l.steps,
      λ fuel lt.
          let (pr, run, place) = find-Behind s.tses t fuel l.steps 0 (head s t) 0 l.way lt in
          (
            s,
            rw (remove_specific_after_fork, run) refl,
            record {
              holds = λ u. elim (split u t) [
                | inl q ↦
                    subst (λ o. Holds s u o) (sym (ap (update m t none) q ∙ update-here m t none))
                      (subst (λ v. Lacks s v) (sym q) l)
                | inr d ↦ subst (λ o. Holds s u o) (sym (update-other m t none u d)) (r.holds u)
              ];
              cached = r.cached;
            },
          ),
    )
    by_value (some v) e (x, own, val) = (
      own.steps,
      λ fuel lt.
          let (pr, run, place) = find-Behind s.tses t fuel own.steps 0 (head s t) x own.way lt in
          (
            unlink (hash_of t) pr x (set_qtid x 0 s),
            rw (remove_specific_after_fork, run) (ap (λ (w : Tsd). some w) (taken pr x own.valid)),
            Gone-Rep owner s (unlink (hash_of t) pr x (set_qtid x 0 s)) m t x r own (elim place [
              | inl here ↦
                  subst (λ p. Gone s (unlink (hash_of t) p x (set_qtid x 0 s)) t x) (sym here.1)
                    (unlink-first s t x own here.0)
              | inr behind ↦ unlink-Gone s t x own pr (behind own.valid own.own)
            ]),
          ),
    )
