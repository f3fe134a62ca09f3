-- ===== src/Mark/Consider.antt =====
-- PUSH_CONTENTS keeps the invariant of marking and marks the object of its candidate.
use boehmgc.Base.{
  ℕ, ◌≤◌, ◌≡◌, refl, true, false, Option, none, some, List, ◌∷◌, arith, leb, ◌==◌, length,
  Bool-cases, inl, inr, ap, sym, subst, ==_iff, ◌∙◌,
}
use boehmgc.Headers.{Hdr, Lookup, found, black_listed, ignored}
use boehmgc.Mark.{
  Heap, Mse, Marker, discards, plausible, object_of, add_to_black_list, push_obj, set_mark,
  push_contents_hdr, push_contents, consider,
}
use boehmgc.Mark.Target.{
  IsHdr, IsHeap, lookup, object_at, found_object, target, base_of, object_of-base,
}
use boehmgc.Mark.Push.{
  Object, Marked, Handled, Field, OnStack, Gray, Listed, Advance, Closed, OnStack-drop,
  Advance-refl, more, more-marks, more_self, more-inv, left_work-less, stack_work-drop, All-drop,
  OnStack-keep, same_hdr, target-IsHdr,
}

module _ (h : Heap) (objects : List Object) (pend : ℕ → Type 0) (live : Object → Type 0)
    (cand : ℕ → Type 0) (heap : IsHeap h) (listed : Listed h objects) (closed : Closed h live) where
  -- A newly marked object whose words are on the stack keeps the invariant.
  Gray-more :
      (s s' : Marker) (p : ℕ) (hhdr : Hdr) (gran : ℕ)
      → target h p ≡ some (hhdr, gran)
      → s'.marks ≡ more s.marks hhdr.hb_block gran
      → ((a : ℕ) → OnStack a s.stack → OnStack a s'.stack)
      → ((a : ℕ) → Field (base_of hhdr gran) hhdr.hb_descr a → OnStack a s'.stack)
      → Gray h pend s
      → Gray h pend s'
  Gray-more s s' p hhdr gran t e old new gray q o u m a field =
      elim (more-inv s.marks hhdr.hb_block gran o.0.hb_block o.1
        (subst (λ v. v o.0.hb_block o.1 ≡ true) e m)) [
          | inl before ↦
              OnStack-keep h pend s s' (h.memory a) a
                (λ o' m'.
                  subst (λ v. v o'.0.hb_block o'.1 ≡ true) (sym e)
                    (more-marks s.marks hhdr.hb_block gran o'.0.hb_block o'.1 m'))
                (old a) (gray q o u before a field)
          | inr same ↦
              let is : o.0 ≡ hhdr =
                same_hdr h q p o.0 hhdr (target-IsHdr h q o heap u)
                  (target-IsHdr h p (hhdr, gran) heap t) same.0 in
              inr (
                inl (
                  new a (
                    subst (λ v. Field (base_of v gran) v.hb_descr a) is
                      (subst (λ v. Field (base_of o.0 v) o.0.hb_descr a) same.1 field))))
        ]

  empty_descr : (start descr a : ℕ) → descr ≡ 0 → Field start descr a → ⊥
  empty_descr start descr a z (inl (tag, (i, fits, at))) = omega arith
  empty_descr start descr a z (inr (tag, b)) = omega arith

  -- A newly marked object is live.
  live_more :
      (s : Marker) (p : ℕ) (hhdr : Hdr) (gran : ℕ)
      → target h p ≡ some (hhdr, gran)
      → live (hhdr, gran)
      → ((q : ℕ) (o : Object) → target h q ≡ some o → Marked s o → live o)
      → (q : ℕ) (o : Object) → target h q ≡ some o
      → more s.marks hhdr.hb_block gran o.0.hb_block o.1 ≡ true
      → live o
  live_more s p hhdr gran t l old q o u m =
      elim (more-inv s.marks hhdr.hb_block gran o.0.hb_block o.1 m) [
        | inl before ↦ old q o u before
        | inr same ↦
            let is : o.0 ≡ hhdr =
              same_hdr h q p o.0 hhdr (target-IsHdr h q o heap u)
                (target-IsHdr h p (hhdr, gran) heap t) same.0 in
            subst (λ v. live (v, o.1)) (sym is) (subst (λ v. live (hhdr, v)) (sym same.1) l)
      ]

  push_obj-Advance :
      (s : Marker) (p : ℕ) (hhdr : Hdr) (gran base : ℕ)
      → target h p ≡ some (hhdr, gran)
      → base ≡ base_of hhdr gran
      → s.marks hhdr.hb_block gran ≡ false
      → cand p
      → Advance h objects pend live cand s (push_obj h base hhdr (set_mark hhdr.hb_block gran s))
        × Marked (push_obj h base hhdr (set_mark hhdr.hb_block gran s)) (hhdr, gran)
  unfolding push_obj set_mark
  push_obj-Advance s p hhdr gran base t at off c =
      let w = target-IsHdr h p (hhdr, gran) heap t in
      let above = w.above in
      let low : 8 ≤ base = omega arith in
      let gain = left_work-less objects s.marks (hhdr, gran) (listed p (hhdr, gran) t) off in
      let e : Mse = record { mse_start = base; mse_descr = hhdr.hb_descr } in
      let kept =
        λ (o : Object) (m : Marked s o). more-marks s.marks hhdr.hb_block gran o.0.hb_block o.1 m in
      let self = more_self s.marks hhdr.hb_block gran in
      elim (Bool-cases (hhdr.hb_descr == 0)) [
        | inl z ↦
            let z' = (==_iff hhdr.hb_descr 0).0 z in
            rw z (
              record {
                marked = kept;
                keeps = λ i. elim i [
                  | inl bad ↦ inl bad
                  | inr gray ↦ inr (
                      Gray-more s (set_mark hhdr.hb_block gran s) p hhdr gran t refl (λ a x. x)
                        (λ a x. absurd (empty_descr (base_of hhdr gran) hhdr.hb_descr a z' x)) gray)
                ];
                precise = λ cands x. record {
                  only_live = live_more s p hhdr gran t (cands p c (hhdr, gran) t) x.only_live;
                  stack_live = x.stack_live;
                };
                fit = λ f. f;
                less = omega arith;
              },
              self,
            )
        | inr nz ↦ elim (Bool-cases (leb h.mark_stack_size (length s.stack))) [
          | inl full ↦
              let rest = stack_work-drop discards s.stack in
              rw (nz, full)
                (
                  record {
                    marked = kept;
                    keeps = λ i. inl refl;
                    precise = λ cands x. record {
                      only_live = live_more s p hhdr gran t (cands p c (hhdr, gran) t) x.only_live;
                      stack_live = λ a f. elim f [
                        | inl g ↦
                            closed p (hhdr, gran) a t (cands p c (hhdr, gran) t)
                              (subst (λ v. Field v hhdr.hb_descr a) at g)
                        | inr g ↦ x.stack_live a (OnStack-drop discards a s.stack g)
                      ];
                    };
                    fit = λ f. ((w.plain, low), All-drop discards s.stack f);
                    less = omega arith;
                  },
                  self,
                )
          | inr room ↦
              rw (nz, room)
                (
                  record {
                    marked = kept;
                    keeps = λ i. elim i [
                      | inl bad ↦ inl bad
                      | inr gray ↦ inr (
                          Gray-more s
                            (record (set_mark hhdr.hb_block gran s) { stack = e ∷ s.stack }) p hhdr
                            gran t refl (λ a x. inr x)
                            (λ a x. inl (subst (λ v. Field v hhdr.hb_descr a) (sym at) x)) gray)
                    ];
                    precise = λ cands x. record {
                      only_live = live_more s p hhdr gran t (cands p c (hhdr, gran) t) x.only_live;
                      stack_live = λ a f. elim f [
                        | inl g ↦
                            closed p (hhdr, gran) a t (cands p c (hhdr, gran) t)
                              (subst (λ v. Field v hhdr.hb_descr a) at g)
                        | inr g ↦ x.stack_live a g
                      ];
                    };
                    fit = λ f. ((w.plain, low), f);
                    less = omega arith;
                  },
                  self,
                )
        ]
      ]

  no_target : (p : ℕ) (o : Object) → target h p ≡ none → target h p ≡ some o → ⊥
  no_target p o t u = cc

  target-lookup :
      (p : ℕ) (l : Option Lookup)
      → plausible h p ≡ true
      → lookup h p ≡ l
      → target h p ≡ found_object h p l
  unfolding target
  target-lookup p l in_heap e = rw (in_heap, e) refl

  black-Advance :
      (s : Marker) (p : ℕ) → Advance h objects pend live cand s (add_to_black_list h p s)
  unfolding add_to_black_list
  black-Advance s p = record {
    marked = λ o m. m;
    keeps = λ i. i;
    precise = λ c x. record { only_live = x.only_live; stack_live = x.stack_live };
    fit = λ f. f;
    less = omega arith;
  }

  -- A candidate that is in the heap, with what its lookup gives.
  push_contents_hdr-Advance :
      (s : Marker) (p : ℕ) (hhdr : Hdr) (r : Option (ℕ × ℕ))
      → object_of h p hhdr ≡ r
      → target h p ≡ object_at hhdr r
      → IsHdr h p hhdr
      → cand p
      → Advance h objects pend live cand s (push_contents_hdr h p hhdr s)
        × Handled h (push_contents_hdr h p hhdr s) p
  unfolding push_contents_hdr
  push_contents_hdr-Advance s p hhdr none e t w c =
      rw (e, push_contents_hdr) (black-Advance s p, λ o u. absurd (no_target p o t u))
  push_contents_hdr-Advance s p hhdr (some (gran, base)) e t w c =
      rw (e, push_contents_hdr)
        (elim (Bool-cases (s.marks hhdr.hb_block gran)) [
          | inl on ↦ rw on (Advance-refl s, λ o u. only s o u on)
          | inr off ↦
              let (a, m) =
                push_obj-Advance s p hhdr gran base t (object_of-base h p hhdr gran base w e) off
                  c in
              rw off (a, λ o u. only (push_obj h base hhdr (set_mark hhdr.hb_block gran s)) o u m)
        ])
    where
      only : (s' : Marker) (o : Object) → target h p ≡ some o → Marked s' (hhdr, gran) → Marked s' o
      only s' o u m =
          let is : ◌≡◌ {A = Option Object} (some (hhdr, gran)) (some o) = sym t ∙ u in
          subst (λ v. Marked s' v)
            (ap (λ (v : Option Object). elim v [ none ↦ (hhdr, gran) | some o' ↦ o' ]) is) m

  pub push_contents-Advance :
      (s : Marker) (p : ℕ)
      → plausible h p ≡ true
      → cand p
      → (s' : Marker) × (push_contents h p s ≡ some s')
        × Advance h objects pend live cand s s'
        × Handled h s' p
  unfolding push_contents
  push_contents-Advance s p in_heap c = ends (lookup h p) refl
    where
      ends :
          (l : Option Lookup)
          → lookup h p ≡ l
          → (s' : Marker) × (push_contents h p s ≡ some s')
            × Advance h objects pend live cand s s'
            × Handled h s' p
      ends none e = absurd (heap.ends p in_heap e)
      ends (some black_listed) e =
          let t = target-lookup p (some black_listed) in_heap e in
          (
            add_to_black_list h p s,
            rw (e, push_contents) refl,
            black-Advance s p,
            λ o u. absurd (no_target p o t u),
          )
      ends (some ignored) e =
          let t = target-lookup p (some ignored) in_heap e in
          (s, rw (e, push_contents) refl, Advance-refl s, λ o u. absurd (no_target p o t u))
      ends (some (found hhdr)) e =
          let t = target-lookup p (some (found hhdr)) in_heap e in
          (
            push_contents_hdr h p hhdr s,
            rw (e, push_contents) refl,
            (push_contents_hdr-Advance s p hhdr (object_of h p hhdr) refl t (heap.hdrs p hhdr e)
                c).0,
            (push_contents_hdr-Advance s p hhdr (object_of h p hhdr) refl t (heap.hdrs p hhdr e)
                c).1,
          )

  -- A word that is looked at: its object, if it has one, is marked.
  pub consider-Advance :
      (s : Marker) (p : ℕ)
      → cand p
      → (s' : Marker) × (consider h p s ≡ some s')
        × Advance h objects pend live cand s s'
        × Handled h s' p
  unfolding consider target
  consider-Advance s p c = elim (Bool-cases (plausible h p)) [
    | inl yes_ ↦ let (s', e, a, m) = push_contents-Advance s p yes_ c in (s', rw yes_ e, a, m)
    | inr no_ ↦ (s, rw no_ refl, Advance-refl s, λ o u. absurd (no_target p o (rw no_ refl) u))
  ]
