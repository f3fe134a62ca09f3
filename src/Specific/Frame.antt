-- ===== src/Specific/Frame.antt =====
-- A change of a key that leaves the values of some threads alone.
use boehmgc.Base.{
  update-here, update-other, ℕ, zero, suc, ◌≡◌, ◌≢◌, refl, sym, ap, ◌∙◌, subst, Option, none, some,
  inl, inr, update,
}
use boehmgc.Specific.{Tse, Tsd, hash_of, set_qtid}
use boehmgc.Specific.Chain.{Walk, Walk-same, Walk-Unlinked, Unlinked, split}
use boehmgc.Specific.Keys.{head, Owns, Holds}

pub record Frame (others : ℕ → Type 0) (s s' : Tsd) : Type 0 where
  pub way :
      (t k e : ℕ)
      → others t
      → Walk s.tses t k (head s t) e
      → (j : ℕ) × Walk s'.tses t j (head s' t) e
  pub after :
      (t k a e : ℕ)
      → others t
      → Walk s.tses t k (s.tses a).next e
      → (j : ℕ) × Walk s'.tses t j (s'.tses a).next e
  pub threads : (a : ℕ) → (s'.tses a).thread ≡ (s.tses a).thread
  pub values : (a : ℕ) → (s'.tses a).value ≡ (s.tses a).value

pub Frame-trans :
    {others : ℕ → Type 0} {s s' s'' : Tsd}
    → Frame others s s'
    → Frame others s' s''
    → Frame others s s''
Frame-trans f g = record {
  way = λ t k e o w. let (j, v) = f.way t k e o w in g.way t j e o v;
  after = λ t k a e o w. let (j, v) = f.after t k a e o w in g.after t j a e o v;
  threads = λ a. g.threads a ∙ f.threads a;
  values = λ a. g.values a ∙ f.values a;
}

pub Frame-Owns :
    {others : ℕ → Type 0} {s s' : Tsd} (t e : ℕ)
    → Frame others s s'
    → others t
    → Owns s t e
    → Owns s' t e
Frame-Owns t e f o own =
    let (j, w) = f.way t own.steps e o own.way in
    let (i, v) = f.after t own.rest e 0 o own.after in
    record {
      valid = own.valid;
      own = f.threads e ∙ own.own;
      steps = j;
      way = w;
      rest = i;
      after = v;
    }

pub Frame-Holds :
    {others : ℕ → Type 0} {s s' : Tsd} (t : ℕ) (o : Option ℕ)
    → Frame others s s'
    → others t
    → Holds s t o
    → Holds s' t o
Frame-Holds t none f o l = let (j, w) = f.way t l.steps 0 o l.way in record { steps = j; way = w }
Frame-Holds t (some v) f o (e, own, val) = (e, Frame-Owns t e f o own, f.values e ∙ val)

-- The cache and the quick thread identifiers decide nothing.
pub same-Frame :
    (s s' : Tsd)
    → ((i : ℕ) → s'.hash i ≡ s.hash i)
    → ((a : ℕ) → ((s'.tses a).thread ≡ (s.tses a).thread) × ((s'.tses a).next ≡ (s.tses a).next))
    → ((a : ℕ) → (s'.tses a).value ≡ (s.tses a).value)
    → Frame (λ t. t ≡ t) s s'
same-Frame s s' hash links values = record {
  way = λ t k e o w. (
    k,
    Walk-same s.tses s'.tses t k (head s' t) e links
        (subst (λ p. Walk s.tses t k p e) (sym (hash (hash_of t))) w),
  );
  after = λ t k a e o w. (
    k,
    Walk-same s.tses s'.tses t k (s'.tses a).next e links
        (subst (λ p. Walk s.tses t k p e) (sym (links a).1) w),
  );
  threads = λ a. (links a).0;
  values = values;
}

pub weaken-Frame :
    {others fewer : ℕ → Type 0} {s s' : Tsd}
    → ((t : ℕ) → fewer t → others t)
    → Frame others s s'
    → Frame fewer s s'
weaken-Frame sub f = record {
  way = λ t k e o w. f.way t k e (sub t o) w;
  after = λ t k a e o w. f.after t k a e (sub t o) w;
  threads = f.threads;
  values = f.values;
}

module _ (entry q : ℕ) (s : Tsd) where
  pub set_qtid-links :
      (a : ℕ)
      → (((set_qtid entry q s).tses a).thread ≡ (s.tses a).thread)
        × (((set_qtid entry q s).tses a).next ≡ (s.tses a).next)
  unfolding set_qtid
  set_qtid-links a = elim (split a entry) [
    | inl e ↦
        subst
          (λ x.
            (((set_qtid entry q s).tses x).thread ≡ (s.tses x).thread)
            × (((set_qtid entry q s).tses x).next ≡ (s.tses x).next))
          (sym e)
          (
            ap (λ (x : Tse). x.thread)
                (update-here s.tses entry (record (s.tses entry) { qtid = q })),
            ap (λ (x : Tse). x.next)
                (update-here s.tses entry (record (s.tses entry) { qtid = q })),
          )
    | inr d ↦
        let at = update-other s.tses entry (record (s.tses entry) { qtid = q }) a d in
        (ap (λ (x : Tse). x.thread) at, ap (λ (x : Tse). x.next) at)
  ]

  pub set_qtid-values : (a : ℕ) → ((set_qtid entry q s).tses a).value ≡ (s.tses a).value
  unfolding set_qtid
  set_qtid-values a = elim (split a entry) [
    | inl e ↦
        subst (λ x. ((set_qtid entry q s).tses x).value ≡ (s.tses x).value) (sym e)
          (ap (λ (x : Tse). x.value)
            (update-here s.tses entry (record (s.tses entry) { qtid = q })))
    | inr d ↦
        ap (λ (x : Tse). x.value)
          (update-other s.tses entry (record (s.tses entry) { qtid = q }) a d)
  ]

  pub set_qtid-here : ((set_qtid entry q s).tses entry).qtid ≡ q
  unfolding set_qtid
  set_qtid-here =
      ap (λ (x : Tse). x.qtid) (update-here s.tses entry (record (s.tses entry) { qtid = q }))

  pub set_qtid-other : (a : ℕ) → a ≢ entry → ((set_qtid entry q s).tses a).qtid ≡ (s.tses a).qtid
  unfolding set_qtid
  set_qtid-other a d =
      ap (λ (x : Tse). x.qtid) (update-other s.tses entry (record (s.tses entry) { qtid = q }) a d)

  pub set_qtid-Frame : Frame (λ t. t ≡ t) s (set_qtid entry q s)
  unfolding set_qtid
  set_qtid-Frame = same-Frame s (set_qtid entry q s) (λ i. refl) set_qtid-links set_qtid-values

-- The entry `x` is taken off behind `prev` by one write.
module _ (tses : ℕ → Tse) (prev x : ℕ) where
  abbrev pub shorter : Tse
  shorter = record (tses prev) { next = (tses x).next }

  pub shorter-same :
      {A : Type 0} (f : Tse → A)
      → f shorter ≡ f (tses prev)
      → (a : ℕ) → f (update tses prev shorter a) ≡ f (tses a)
  shorter-same f e a = elim (split a prev) [
    | inl q ↦
        subst (λ v. f (update tses prev shorter v) ≡ f (tses v)) (sym q)
          (ap f (update-here tses prev shorter) ∙ e)
    | inr d ↦ ap f (update-other tses prev shorter a d)
  ]

  pub shorter-Unlinked : (tses prev).next ≡ x → Unlinked tses (update tses prev shorter) prev x
  shorter-Unlinked e = record {
    linked = e;
    moved = ap (λ (v : Tse). v.next) (update-here tses prev shorter);
    kept = λ a d. ap (λ (v : Tse). v.next) (update-other tses prev shorter a d);
    threads = shorter-same (λ v. v.thread) refl;
  }

-- Taking off an entry of another thread.
pub Unlinked-Frame :
    (s s' : Tsd) (prev x : ℕ)
    → ((i : ℕ) → s'.hash i ≡ s.hash i)
    → x ≢ 0
    → Unlinked s.tses s'.tses prev x
    → ((a : ℕ) → (s'.tses a).value ≡ (s.tses a).value)
    → Frame (λ t. (s.tses x).thread ≢ t) s s'
Unlinked-Frame s s' prev x hash x0 u values = record {
  way = λ t k e o w.
      let (j, l, v) = Walk-Unlinked s.tses s'.tses prev x t k (head s t) e u x0 o w in
      (j, subst (λ p. Walk s'.tses t j p e) (sym (hash (hash_of t))) v);
  after = λ t k a e o w. elim (split a prev) [
    | inl q ↦
        let (j, v) = behind t k e o (subst (λ b. (s.tses b).next ≡ x) (sym q) u.linked) w in
        (
          j,
          subst (λ p. Walk s'.tses t j p e)
              (sym (subst (λ b. (s'.tses b).next ≡ (s.tses x).next) (sym q) u.moved)) v,
        )
    | inr d ↦
        let (j, l, v) = Walk-Unlinked s.tses s'.tses prev x t k (s.tses a).next e u x0 o w in
        (j, subst (λ p. Walk s'.tses t j p e) (sym (u.kept a d)) v)
  ];
  threads = u.threads;
  values = values;
}
  where
    behind :
        (t k e : ℕ) {b : ℕ}
        → (s.tses x).thread ≢ t
        → b ≡ x
        → Walk s.tses t k b e
        → (j : ℕ) × Walk s'.tses t j (s.tses x).next e
    behind t zero e o bx (at, inl z) = absurd (x0 (sym bx ∙ z))
    behind t zero e o bx (at, inr own) = absurd (o (subst (λ v. (s.tses v).thread ≡ t) bx own))
    behind t (suc k) e o bx w =
        let (j, l, v) =
          Walk-Unlinked s.tses s'.tses prev x t k (s.tses x).next e u x0 o
            (subst (λ v. Walk s.tses t k (s.tses v).next e) bx w.2) in
        (j, v)

-- Taking off an entry of another thread at the head of its chain.
pub head-Frame :
    (s s' : Tsd) (i x : ℕ)
    → x ≢ 0
    → s.hash i ≡ x
    → s'.hash i ≡ (s.tses x).next
    → ((j : ℕ) → j ≢ i → s'.hash j ≡ s.hash j)
    → s'.tses ≡ s.tses
    → Frame (λ t. (s.tses x).thread ≢ t) s s'
head-Frame s s' i x x0 first moved kept same = record {
  way = λ t k e o w.
      let (j, v) = from_head t k e o w in (j, subst (λ m. Walk m t j (head s' t) e) (sym same) v);
  after = λ t k a e o w. (k, subst (λ m. Walk m t k (m a).next e) (sym same) w);
  threads = λ a. ap (λ (m : ℕ → Tse). (m a).thread) same;
  values = λ a. ap (λ (m : ℕ → Tse). (m a).value) same;
}
  where
    behind :
        (t k e : ℕ) {b : ℕ}
        → (s.tses x).thread ≢ t
        → b ≡ x
        → Walk s.tses t k b e
        → (j : ℕ) × Walk s.tses t j (s.tses x).next e
    behind t zero e o bx (at, inl z) = absurd (x0 (sym bx ∙ z))
    behind t zero e o bx (at, inr own) = absurd (o (subst (λ v. (s.tses v).thread ≡ t) bx own))
    behind t (suc k) e o bx w = (k, subst (λ v. Walk s.tses t k (s.tses v).next e) bx w.2)

    from_head :
        (t k e : ℕ)
        → (s.tses x).thread ≢ t
        → Walk s.tses t k (head s t) e
        → (j : ℕ) × Walk s.tses t j (head s' t) e
    from_head t k e o w = elim (split (hash_of t) i) [
      | inl q ↦
          let (j, v) = behind t k e o (ap s.hash q ∙ first) w in
          (j, subst (λ p. Walk s.tses t j p e) (sym (ap s'.hash q ∙ moved)) v)
      | inr d ↦ (k, subst (λ p. Walk s.tses t k p e) (sym (kept (hash_of t) d)) w)
    ]
