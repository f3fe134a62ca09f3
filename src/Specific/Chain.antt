-- ===== src/Specific/Chain.antt =====
-- Chains of entries as a thread sees them: the way to its entry or to the end.
use boehmgc.Base.{
  ℕ, zero, suc, ◌≤◌, ◌≡◌, ◌≢◌, refl, sym, ap, ◌∙◌, subst, Bool, true, false, arith, ◌==◌, ◌||◌,
  ==_iff, Bool-cases, inl, inr, ◌⊎◌,
}
use boehmgc.Specific.{Tse}

-- After `k` links from `p` on, none of them of an entry of `t`, the first entry of `t` or the end is
-- at `e`.
abbrev pub Walk : (ℕ → Tse) → ℕ → ℕ → ℕ → ℕ → Type 0
Walk tses t zero p e = (p ≡ e) × ((p ≡ 0) ⊎ ((tses p).thread ≡ t))
Walk tses t (suc k) p e = (p ≢ 0) × ((tses p).thread ≢ t) × Walk tses t k (tses p).next e

pub Walk-unique :
    (tses : ℕ → Tse) (t k j p e e' : ℕ) → Walk tses t k p e → Walk tses t j p e' → e ≡ e'
Walk-unique tses t zero zero p e e' w v = sym w.0 ∙ v.0
Walk-unique tses t zero (suc j) p e e' (at, inl z) v = absurd (v.0 z)
Walk-unique tses t zero (suc j) p e e' (at, inr own) v = absurd (v.1 own)
Walk-unique tses t (suc k) zero p e e' w (at, inl z) = absurd (w.0 z)
Walk-unique tses t (suc k) zero p e e' w (at, inr own) = absurd (w.1 own)
Walk-unique tses t (suc k) (suc j) p e e' w v = Walk-unique tses t k j (tses p).next e e' w.2 v.2

-- Entries with the same threads and links give the same ways.
pub Walk-same :
    (tses tses' : ℕ → Tse) (t k p e : ℕ)
    → ((a : ℕ) → ((tses' a).thread ≡ (tses a).thread) × ((tses' a).next ≡ (tses a).next))
    → Walk tses t k p e
    → Walk tses' t k p e
Walk-same tses tses' t zero p e same (at, inl z) = (at, inl z)
Walk-same tses tses' t zero p e same (at, inr own) = (at, inr ((same p).0 ∙ own))
Walk-same tses tses' t (suc k) p e same (p0, other, w) = (
  p0,
  λ own. other (sym (same p).0 ∙ own),
  Walk-same tses tses' t k (tses' p).next e same
      (subst (λ v. Walk tses t k v e) (sym (same p).1) w),
)

-- An entry that nothing points to can be written.
pub Walk-fresh :
    (tses tses' : ℕ → Tse) (x t k p e : ℕ)
    → ((a : ℕ) → a ≢ x → tses' a ≡ tses a)
    → ((a : ℕ) → (tses a).next ≢ x)
    → p ≢ x
    → Walk tses t k p e
    → Walk tses' t k p e
Walk-fresh tses tses' x t zero p e same fresh px (at, inl z) = (at, inl z)
Walk-fresh tses tses' x t zero p e same fresh px (at, inr own) =
    (at, inr (ap (λ (v : Tse). v.thread) (same p px) ∙ own))
Walk-fresh tses tses' x t (suc k) p e same fresh px (p0, other, w) =
    let link = ap (λ (v : Tse). v.next) (same p px) in
    (
      p0,
      λ own. other (sym (ap (λ (v : Tse). v.thread) (same p px)) ∙ own),
      subst (λ v. Walk tses' t k v e) (sym link)
          (Walk-fresh tses tses' x t k (tses p).next e same fresh (fresh p) w),
    )

-- `tses'` is `tses` with the entry `x` taken off behind `prev`.
pub record Unlinked (tses tses' : ℕ → Tse) (prev x : ℕ) : Type 0 where
  pub linked : (tses prev).next ≡ x
  pub moved : (tses' prev).next ≡ (tses x).next
  pub kept : (a : ℕ) → a ≢ prev → (tses' a).next ≡ (tses a).next
  pub threads : (a : ℕ) → (tses' a).thread ≡ (tses a).thread

pub split : (a b : ℕ) → (a ≡ b) ⊎ (a ≢ b)
split a b = elim (Bool-cases (a == b)) [
  | inl e ↦ inl ((==_iff a b).0 e)
  | inr e ↦ inr (λ x. differ ((==_iff a b).1 x) e)
]
  where
    differ : {c : Bool} → c ≡ true → c ≡ false → ⊥
    differ x y = cc

-- An entry of another thread can be taken off: the way gets no longer.
pub Walk-Unlinked :
    (tses tses' : ℕ → Tse) (prev x t k p e : ℕ)
    → Unlinked tses tses' prev x
    → x ≢ 0
    → (tses x).thread ≢ t
    → Walk tses t k p e
    → (j : ℕ) × (j ≤ k) × Walk tses' t j p e
Walk-Unlinked tses tses' prev x t zero p e u x0 xt (at, inl z) = (0, omega arith, (at, inl z))
Walk-Unlinked tses tses' prev x t zero p e u x0 xt (at, inr own) =
    (0, omega arith, (at, inr (u.threads p ∙ own)))
Walk-Unlinked tses tses' prev x t (suc zero) p e u x0 xt (p0, other, w) = elim (split p prev) [
  | inl q ↦ absurd (stuck (subst (λ v. (tses v).next ≡ x) (sym q) u.linked) w)
  | inr q ↦ (
    1,
    omega arith,
    (
      p0,
      λ own. other (sym (u.threads p) ∙ own),
      Walk-next (subst (λ v. Walk tses t 0 v e) (sym (u.kept p q)) w),
    ),
  )
]
  where
    stuck : {a : ℕ} → a ≡ x → Walk tses t 0 a e → ⊥
    stuck ax (at, inl z) = x0 (sym ax ∙ z)
    stuck ax (at, inr own) = xt (subst (λ v. (tses v).thread ≡ t) ax own)

    Walk-next : {a : ℕ} → Walk tses t 0 a e → Walk tses' t 0 a e
    Walk-next (at, inl z) = (at, inl z)
    Walk-next {a} (at, inr own) = (at, inr (u.threads a ∙ own))
Walk-Unlinked tses tses' prev x t (suc (suc k)) p e u x0 xt (p0, other, w) = elim (split p prev) [
  | inl q ↦
      let at = subst (λ v. (tses v).next ≡ x) (sym q) u.linked in
      let after = subst (λ v. Walk tses t k (tses v).next e) at w.2 in
      let (j, l, v) = Walk-Unlinked tses tses' prev x t k (tses x).next e u x0 xt after in
      let link = subst (λ v. (tses' v).next ≡ (tses x).next) (sym q) u.moved in
      (
        suc j,
        omega arith,
        (p0, λ own. other (sym (u.threads p) ∙ own), subst (λ v. Walk tses' t j v e) (sym link) v),
      )
  | inr q ↦
      let (j, l, v) = Walk-Unlinked tses tses' prev x t (suc k) (tses p).next e u x0 xt w in
      (
        suc j,
        omega arith,
        (
          p0,
          λ own. other (sym (u.threads p) ∙ own),
          subst (λ v. Walk tses' t j v e) (sym (u.kept p q)) v,
        ),
      )
]

-- The test that ends the loops.
pub found_test :
    (tses : ℕ → Tse) (t p : ℕ)
    → (p ≡ 0) ⊎ ((tses p).thread ≡ t)
    → (p == 0 || (tses p).thread == t) ≡ true
found_test tses t p (inl z) = rw ((==_iff p 0).1 z) refl
found_test tses t p (inr own) = elim (Bool-cases (p == 0)) [
  | inl e ↦ rw e refl
  | inr e ↦ rw (e, (==_iff (tses p).thread t).1 own) refl
]

pub go_on_test :
    (tses : ℕ → Tse) (t p : ℕ)
    → p ≢ 0
    → (tses p).thread ≢ t
    → (p == 0 || (tses p).thread == t) ≡ false
go_on_test tses t p p0 other = elim (Bool-cases (p == 0)) [
  | inl e ↦ absurd (p0 ((==_iff p 0).0 e))
  | inr e ↦ elim (Bool-cases ((tses p).thread == t)) [
    | inl o ↦ absurd (other ((==_iff (tses p).thread t).0 o))
    | inr o ↦ rw (e, o) refl
  ]
]
