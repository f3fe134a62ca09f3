-- ===== src/Mark/Trace.antt =====
-- Marking until the stack is empty ends, and marks all that the marked objects lead to.
use boehmgc.Base.{
  ℕ, zero, suc, ◌+◌, ◌≤◌, ◌<◌, ◌≡◌, refl, true, Option, some, List, [], ◌∷◌, arith, leb, Bool-cases,
  inl, inr, ◌⊎◌, subst, All, leb_false→lt,
}
use boehmgc.Headers.{hblksize}
use boehmgc.Mark.{Heap, Mse, Marker, mark_from, mark_until_empty}
use boehmgc.Mark.Target.{IsHeap, target, base_of}
use boehmgc.Mark.Push.{
  Closed, Precise, Object, Marked, Field, OnStack, Gray, Invariant, Fit, work, Listed,
}
use boehmgc.Mark.Round.{Nothing, Round, mark_entry-Round}

-- Some rounds.
pub record Rounds (h : Heap) (objects : List Object) (live : Object → Type 0) (s s' : Marker)
    : Type 0 where
  pub marked : (o : Object) → Marked s o → Marked s' o
  pub keeps : Invariant h Nothing s → Invariant h Nothing s'
  pub precise : Precise h live s → Precise h live s'
  pub fit : All Fit s.stack → All Fit s'.stack
  pub less : work objects s' ≤ work objects s

Rounds-refl :
    {h : Heap} {objects : List Object} {live : Object → Type 0} (s : Marker)
    → Rounds h objects live s s
Rounds-refl s = record {
  marked = λ o m. m;
  keeps = λ i. i;
  precise = λ x. x;
  fit = λ f. f;
  less = omega arith;
}

Rounds-trans :
    {h : Heap} {objects : List Object} {live : Object → Type 0} {s t u : Marker}
    → Rounds h objects live s t
    → Rounds h objects live t u
    → Rounds h objects live s u
Rounds-trans a b = record {
  marked = λ o m. b.marked o (a.marked o m);
  keeps = λ i. b.keeps (a.keeps i);
  precise = λ x. b.precise (a.precise x);
  fit = λ f. b.fit (a.fit f);
  less = let x = a.less in let y = b.less in omega arith;
}

Rounds-one :
    {h : Heap} {objects : List Object} {live : Object → Type 0} {s t : Marker}
    → Round h objects live s t
    → Rounds h objects live s t
Rounds-one a = record {
  marked = a.marked;
  keeps = a.keeps;
  precise = a.precise;
  fit = a.fit;
  less = let x = a.less in omega arith;
}

-- What a marked object with a place leads to.
pub data Reaches (h : Heap) (s : Marker) : Object → Type 0 where
  start : (p : ℕ) (o : Object) → target h p ≡ some o → Marked s o → Reaches h s o
  field :
      (a : ℕ) (o o' : Object)
      → Reaches h s o
      → Field (base_of o.0 o.1) o.0.hb_descr a
      → target h (h.memory a) ≡ some o'
      → Reaches h s o'

Reaches-target :
    {h : Heap} {s : Marker} (o : Object) → Reaches h s o → (p : ℕ) × (target h p ≡ some o)
Reaches-target o (start p _ t m) = (p, t)
Reaches-target {h} o' (field a o _ r f t) = (h.memory a, t)

-- With nothing left to look at, what a marked object leads to is marked.
Reaches-Marked :
    {h : Heap} {s : Marker} (s' : Marker) (o : Object)
    → ((o : Object) → Marked s o → Marked s' o)
    → Gray h Nothing s'
    → s'.stack ≡ []
    → Reaches h s o
    → Marked s' o
Reaches-Marked s' o kept gray done (start p _ t m) = kept o m
Reaches-Marked {h} {s} s' o' kept gray done (field a o _ r f t) =
    let (p, u) = Reaches-target o r in
    elim (gray p o u (Reaches-Marked s' o kept gray done r) a f) [
      | inl g ↦ g o' t
      | inr g ↦ elim g [ inl x ↦ absurd (subst (λ v. OnStack a v) done x) | inr x ↦ absurd x ]
    ]

module _ (procs : ℕ → ℕ → Marker → Option Marker) (h : Heap) (objects : List Object)
    (live : Object → Type 0) (heap : IsHeap h) (listed : Listed h objects)
    (closed : Closed h live) where
  abbrev Finishes : ℕ → ℕ → ℕ → Marker → Type 0
  Finishes retries fuel spent s =
      (s' : Marker) × (mark_from procs h (suc retries) fuel spent s ≡ some s')
      × Rounds h objects live s s'
      × ((s.stack ≡ []) ⊎ (4096 < spent) ⊎ (work objects s' < work objects s))

  mark_from-step :
      (retries fuel spent : ℕ) (st : List Mse) (s : Marker)
      → All Fit st
      → work objects (record s { stack = st }) < suc fuel
      → ((spent' : ℕ) (s' : Marker)
          → All Fit s'.stack
          → work objects s' < fuel
          → Finishes retries fuel spent' s')
      → Finishes retries (suc fuel) spent (record s { stack = st })
  unfolding mark_from
  mark_from-step retries fuel spent [] s fits enough rec =
      (record s { stack = [] }, refl, Rounds-refl (record s { stack = [] }), inl refl)
  mark_from-step retries fuel spent (e ∷ rest) s fits enough rec =
      elim (Bool-cases (leb spent hblksize)) [
        | inl go ↦
            let (t, cost, run, a) =
              mark_entry-Round procs h objects live heap listed closed retries e
                (record s { stack = rest }) fits.0 in
            let fewer = a.less in
            let (u, more, b, _) = rec (spent + cost) t (a.fit fits) (omega arith) in
            let fewer' = b.less in
            (u, rw (go, run) more, Rounds-trans (Rounds-one a) b, inr (inr (omega arith)))
        | inr stop ↦
            let top = record s { stack = e ∷ rest } in
            (top, rw stop refl, Rounds-refl top, inr (inl (leb_false→lt spent hblksize stop)))
      ]

  mark_from-Rounds :
      (retries fuel spent : ℕ) (s : Marker)
      → All Fit s.stack
      → work objects s < fuel
      → Finishes retries fuel spent s
  mark_from-Rounds retries zero spent s fits enough = absurd (omega arith)
  mark_from-Rounds retries (suc fuel) spent s fits enough =
      mark_from-step retries fuel spent s.stack s fits enough
        (λ spent' s'. mark_from-Rounds retries fuel spent' s')

  abbrev Empties : ℕ → ℕ → ℕ → Marker → Type 0
  Empties retries rounds fuel s =
      (s' : Marker) × (mark_until_empty procs h (suc retries) rounds fuel s ≡ some s')
      × Rounds h objects live s s'
      × (s'.stack ≡ [])

  mark_until_empty-step :
      (retries rounds fuel : ℕ) (st : List Mse) (s : Marker)
      → All Fit st
      → work objects (record s { stack = st }) < suc fuel
      → work objects (record s { stack = st }) < rounds
      → ((s' : Marker)
          → All Fit s'.stack
          → work objects s' < fuel
          → work objects s' < rounds
          → Empties retries rounds fuel s')
      → Empties retries rounds (suc fuel) (record s { stack = st })
  unfolding mark_until_empty
  mark_until_empty-step retries rounds fuel [] s fits enough turns rec =
      (record s { stack = [] }, refl, Rounds-refl (record s { stack = [] }), refl)
  mark_until_empty-step retries rounds fuel (e ∷ rest) s fits enough turns rec =
      let top = record s { stack = e ∷ rest } in
      let (t, run, a, less) = mark_from-Rounds retries rounds 0 top fits turns in
      let fewer : work objects t < work objects top = elim less [
        | inl none_left ↦ cc
        | inr r ↦ elim r [ inl spent ↦ absurd (omega arith) | inr l ↦ l ]
      ] in
      let (u, more, b, done) = rec t (a.fit fits) (omega arith) (omega arith) in
      (u, rw run more, Rounds-trans a b, done)

  mark_until_empty-Rounds :
      (retries rounds fuel : ℕ) (s : Marker)
      → All Fit s.stack
      → work objects s < fuel
      → work objects s < rounds
      → Empties retries rounds fuel s
  mark_until_empty-Rounds retries rounds zero s fits enough turns = absurd (omega arith)
  mark_until_empty-Rounds retries rounds (suc fuel) s fits enough turns =
      mark_until_empty-step retries rounds fuel s.stack s fits enough turns
        (λ s'. mark_until_empty-Rounds retries rounds fuel s')

-- The words that the mark stack names are words of marked objects.
abbrev pub Owned : Heap → Marker → Type 0
Owned h s =
    (a : ℕ)
    → OnStack a s.stack
    → (p : ℕ) × (o : Object) × (target h p ≡ some o)
      × Marked s o
      × Field (base_of o.0 o.1) o.0.hb_descr a

module _ (procs : ℕ → ℕ → Marker → Option Marker) (h : Heap) (objects : List Object)
    (heap : IsHeap h) (listed : Listed h objects) where
  Reaches-Closed : (s : Marker) → Closed h (Reaches h s)
  Reaches-Closed s p o a t r f o' u = Reaches.field a o o' r f u

  Owned-Precise : (s : Marker) → Owned h s → Precise h (Reaches h s) s
  Owned-Precise s own = record {
    only_live = λ p o t m. Reaches.start p o t m;
    stack_live = λ a on o' u.
        let (p, o, t, m, f) = own a on in Reaches.field a o o' (Reaches.start p o t m) f u;
  }

  -- Let the words of the marked objects lead to marked objects or be on the mark stack, which holds
  -- only lengths and bitmaps of words of marked objects, in a heap whose lookups end and find the
  -- headers of their blocks, with descriptors that are lengths or bitmaps (not marked by a mark
  -- procedure or a descriptor in the object). Then rounds of GC_mark_from until the mark stack is empty end, with as
  -- many rounds as the work, and the stack is empty. All objects that are marked then are ones that a
  -- marked object led to at the start, and if the stack has not overflowed (MS_INVALID) all those
  -- are marked.
  pub mark_until_empty-Marked :
      (retries rounds : ℕ) (s : Marker)
      → All Fit s.stack
      → Invariant h Nothing s
      → Owned h s
      → work objects s < rounds
      → (s' : Marker) × (mark_until_empty procs h (suc retries) rounds rounds s ≡ some s')
        × (s'.stack ≡ [])
        × ((p : ℕ) (o : Object) → target h p ≡ some o → Marked s' o → Reaches h s o)
        × ((s'.invalid ≡ true) ⊎ ((o : Object) → Reaches h s o → Marked s' o))
  mark_until_empty-Marked retries rounds s fits inv own turns =
      let (s', run, a, done) =
        mark_until_empty-Rounds procs h objects (Reaches h s) heap listed (Reaches-Closed s) retries
          rounds rounds s fits turns turns in
      let precise = a.precise (Owned-Precise s own) in
      (
        s',
        run,
        done,
        precise.only_live,
        elim (a.keeps inv) [
          | inl bad ↦ inl bad
          | inr gray ↦ inr (λ o r. Reaches-Marked s' o a.marked gray done r)
        ],
      )
