-- ===== src/Specific/Find.antt =====
-- The loop of GC_remove_specific_after_fork, which looks for the entry and for the one before it.
use boehmgc.Base.{
  ℕ, zero, suc, ◌<◌, ◌≡◌, ◌≢◌, refl, sym, ap, ◌∙◌, subst, some, arith, inl, inr, ◌⊎◌,
}
use boehmgc.Specific.{Tse, find}
use boehmgc.Specific.Chain.{Walk, Unlinked, split, found_test, go_on_test}

-- Where the loop ends: at the first entry, or behind `prev`, so that without the entry the way
-- goes on to the end.
pub record Behind (tses : ℕ → Tse) (t p prev x : ℕ) : Type 0 where
  pub valid : prev ≢ 0
  pub links : (tses prev).next ≡ x
  pub differs : prev ≢ x
  pub closes :
      (tses' : ℕ → Tse) (k : ℕ)
      → Unlinked tses tses' prev x
      → Walk tses t k (tses x).next 0
      → (j : ℕ) × Walk tses' t j p 0

-- The entries behind the entry of `t` do not lead to it.
Walk-avoids :
    (tses tses' : ℕ → Tse) (prev x t k p : ℕ)
    → Unlinked tses tses' prev x
    → x ≢ 0
    → (tses x).thread ≡ t
    → Walk tses t k p 0
    → Walk tses' t k p 0
Walk-avoids tses tses' prev x t zero p u x0 own (at, stop) = (at, inl at)
Walk-avoids tses tses' prev x t (suc k) p u x0 own (p0, other, w) = elim (split p prev) [
  | inl q ↦ absurd (stuck k (subst (λ v. (tses v).next ≡ x) (sym q) u.linked) w)
  | inr d ↦ (
    p0,
    λ o. other (sym (u.threads p) ∙ o),
    subst (λ v. Walk tses' t k v 0) (sym (u.kept p d))
        (Walk-avoids tses tses' prev x t k (tses p).next u x0 own w),
  )
]
  where
    stuck : (k : ℕ) {a : ℕ} → a ≡ x → Walk tses t k a 0 → ⊥
    stuck zero ax (at, stop) = x0 (sym ax ∙ at)
    stuck (suc k) ax (a0, other, w) = other (subst (λ v. (tses v).thread ≡ t) (sym ax) own)

pub find-Behind :
    (tses : ℕ → Tse) (t fuel k prev p x : ℕ)
    → Walk tses t k p x
    → k < fuel
    → (pr : ℕ) × (find t tses fuel prev p ≡ some (pr, x))
      × (((p ≡ x) × (pr ≡ prev)) ⊎ (x ≢ 0 → (tses x).thread ≡ t → Behind tses t p pr x))
unfolding find
find-Behind tses t zero k prev p x w l = absurd (omega arith)
find-Behind tses t (suc fuel) zero prev p x (at, stop) l =
    (prev, rw (found_test tses t p stop) (ap (λ (v : ℕ). some (prev, v)) at), inl (at, refl))
find-Behind tses t (suc fuel) (suc k) prev p x (p0, other, w) l =
    let (pr, run, place) = find-Behind tses t fuel k p (tses p).next x w (omega arith) in
    (
      pr,
      rw (go_on_test tses t p p0 other) run,
      inr (λ x0 own. elim place [
        | inl here ↦
            subst (λ v. Behind tses t p v x) (sym here.1)
              record {
                valid = p0;
                links = here.0;
                differs = λ q. other (ap (λ v. (tses v).thread) q ∙ own);
                closes = λ tses' j u after. (
                  suc j,
                  (
                    p0,
                    λ o. other (sym (u.threads p) ∙ o),
                    subst (λ v. Walk tses' t j v 0) (sym u.moved)
                        (Walk-avoids tses tses' p x t j (tses x).next u x0 own after),
                  ),
                );
              }
        | inr behind ↦
            let b = behind x0 own in
            record {
              valid = b.valid;
              links = b.links;
              differs = b.differs;
              closes = λ tses' j u after. elim (split p pr) [
                | inl q ↦ (
                  suc j,
                  (
                    p0,
                    λ o. other (sym (u.threads p) ∙ o),
                    subst (λ v. Walk tses' t j v 0)
                        (sym (subst (λ v. (tses' v).next ≡ (tses x).next) (sym q) u.moved))
                        (Walk-avoids tses tses' pr x t j (tses x).next u x0 own after),
                  ),
                )
                | inr d ↦
                    let (i, v) = b.closes tses' j u after in
                    (
                      suc i,
                      (
                        p0,
                        λ o. other (sym (u.threads p) ∙ o),
                        subst (λ a. Walk tses' t i a 0) (sym (u.kept p d)) v,
                      ),
                    )
              ];
            }
      ]),
    )
