-- ===== src/Mark/Round.antt =====
-- A round of GC_mark_from keeps the invariant of marking and reduces the work.
use boehmgc.Base.{
  ℕ, suc, ◌+◌, ◌-◌, ◌*◌, ◌/◌, ◌%◌, ◌≤◌, ◌<◌, ◌≡◌, ◌≢◌, refl, true, false, Option, some, List, ◌∷◌,
  arith, leb, ltb, ◌==◌, inl, inr, ◌⊎◌, sym, subst, ==_iff, le→leb, lt→leb_false, lt→ltb, dec_lt,
  All,
}
use boehmgc.Mark.{Heap, Mse, Marker, mark_entry, scan_range}
use boehmgc.Mark.Target.{IsHeap}
use boehmgc.Mark.Push.{
  Leads, Closed, Precise, Object, Marked, Handled, LengthField, Field, Invariant, Fit, work, Listed,
}
use boehmgc.Mark.Scan.{Seen, scan_range-Advance, scan_bitmap-Advance}

abbrev pub Nothing : ℕ → Type 0
Nothing a = ⊥

-- A step of marking: marks stay, the invariant is kept, and there is less work.
pub record Round (h : Heap) (objects : List Object) (live : Object → Type 0) (s s' : Marker)
    : Type 0 where
  pub marked : (o : Object) → Marked s o → Marked s' o
  pub keeps : Invariant h Nothing s → Invariant h Nothing s'
  pub precise : Precise h live s → Precise h live s'
  pub fit : All Fit s.stack → All Fit s'.stack
  pub less : work objects s' < work objects s

abbrev pub on_top : Mse → Marker → Marker
on_top e s = record s { stack = e ∷ s.stack }

-- What is seen need not be looked at.
settle :
    (h : Heap) (pend : ℕ → Type 0) (s : Marker)
    → ((a : ℕ) → pend a → Handled h s (h.memory a))
    → Invariant h pend s
    → Invariant h Nothing s
settle h pend s seen (inl bad) = inl bad
settle h pend s seen (inr gray) = inr (λ p o t m a f. elim (gray p o t m a f) [
  | inl g ↦ inl g
  | inr g ↦ elim g [ inl g' ↦ inr (inl g') | inr g' ↦ inl (seen a g') ]
])

-- An entry that is taken off the stack is to be looked at.
take_off :
    (h : Heap) (e : Mse) (s : Marker)
    → Invariant h Nothing (on_top e s)
    → Invariant h (Field e.mse_start e.mse_descr) s
take_off h e s (inl bad) = inl bad
take_off h e s (inr gray) = inr (λ p o t m a f. elim (gray p o t m a f) [
  | inl g ↦ inl g
  | inr g ↦ elim g [
    | inl g' ↦ elim g' [ inl x ↦ inr (inr x) | inr x ↦ inr (inl x) ]
    | inr x ↦ absurd x
  ]
])

-- A large range is looked at in two parts.
split_off :
    (h : Heap) (e e' : Mse) (pend : ℕ → Type 0) (s : Marker)
    → ((a : ℕ) → Field e.mse_start e.mse_descr a → Field e'.mse_start e'.mse_descr a ⊎ pend a)
    → Invariant h (Field e.mse_start e.mse_descr) s
    → Invariant h pend (on_top e' s)
split_off h e e' pend s two (inl bad) = inl bad
split_off h e e' pend s two (inr gray) = inr (λ p o t m a f. elim (gray p o t m a f) [
  | inl g ↦ inl g
  | inr g ↦ elim g [
    | inl x ↦ inr (inl (inr x))
    | inr x ↦ elim (two a x) [ inl y ↦ inr (inl (inl y)) | inr y ↦ inr (inr y) ]
  ]
])

two_parts :
    (start descr a : ℕ)
    → 1024 ≤ descr
    → descr % 8 ≡ 0
    → Field start descr a
    → Field (start + 1016) (descr - 1016) a ⊎ LengthField start 1016 a
two_parts start descr a l m (inr f) = let tag = f.0 in absurd (omega arith)
two_parts start descr a l m (inl (tag, (i, fits, at))) = elim (dec_lt i 127) [
  | yes low ↦ inr (i, omega arith, at)
  | no high ↦ inl (inl (omega arith, (i - 127, omega arith, omega arith)))
]

looked_at_words :
    (h : Heap) (s : Marker) (start n a : ℕ)
    → Seen h s start n
    → LengthField start (8 * n) a
    → Handled h s (h.memory a)
looked_at_words h s start n a seen (i, fits, at) =
    subst (λ v. Handled h s (h.memory v)) (sym at) (seen i (omega arith))

looked_at_length :
    (h : Heap) (s : Marker) (start descr n a : ℕ)
    → descr ≡ 8 * n
    → Seen h s start n
    → Field start descr a
    → Handled h s (h.memory a)
looked_at_length h s start descr n a e seen (inr f) = let tag = f.0 in absurd (omega arith)
looked_at_length h s start descr n a e seen (inl (tag, f)) =
    looked_at_words h s start n a seen (subst (λ v. LengthField start v a) e f)

no_words : (start descr a : ℕ) → descr ≡ 0 → Field start descr a → ⊥
no_words start descr a z (inl (tag, (i, fits, at))) = omega arith
no_words start descr a z (inr f) = let tag = f.0 in omega arith

two_tags : (descr : ℕ) → descr % 4 ≡ 1 → descr % 4 ≡ 0 → ⊥
two_tags descr e f = omega arith

not_less : (a b : ℕ) → b ≤ a → ltb a b ≡ false
not_less a b l = ground arith

other_tag : (a b : ℕ) → a ≢ b → (a == b) ≡ false
other_tag a b l = ground arith

-- The words of an entry.
abbrev Candidate : Heap → ℕ → ℕ → ℕ → Type 0
Candidate h start descr p = (a : ℕ) × Field start descr a × (p ≡ h.memory a)

candidates-Leads :
    (h : Heap) (live : Object → Type 0) (e : Mse) (s : Marker)
    → Precise h live (on_top e s)
    → (p : ℕ) → Candidate h e.mse_start e.mse_descr p
    → Leads h live p
candidates-Leads h live e s x p (a, f, is) =
    subst (λ v. Leads h live v) (sym is) (x.stack_live a (inl f))

off_top :
    (h : Heap) (live : Object → Type 0) (e : Mse) (s : Marker)
    → Precise h live (on_top e s)
    → Precise h live s
off_top h live e s x = record {
  only_live = x.only_live;
  stack_live = λ a f. x.stack_live a (inr f);
}

add_part :
    (h : Heap) (live : Object → Type 0) (e e' : Mse) (s : Marker)
    → ((a : ℕ) → Field e'.mse_start e'.mse_descr a → Field e.mse_start e.mse_descr a)
    → Precise h live (on_top e s)
    → Precise h live (on_top e' s)
add_part h live e e' s part x = record {
  only_live = x.only_live;
  stack_live =
      λ a f. elim f [ inl g ↦ x.stack_live a (inl (part a g)) | inr g ↦ x.stack_live a (inr g) ];
}

part :
    (start descr a : ℕ)
    → 1024 ≤ descr
    → descr % 8 ≡ 0
    → Field (start + 1016) (descr - 1016) a
    → Field start descr a
part start descr a l m (inr f) = let tag = f.0 in absurd (omega arith)
part start descr a l m (inl (tag, (i, fits, at))) =
    inl (omega arith, (i + 127, omega arith, omega arith))

module _ (procs : ℕ → ℕ → Marker → Option Marker) (h : Heap) (objects : List Object)
    (live : Object → Type 0) (heap : IsHeap h) (listed : Listed h objects)
    (closed : Closed h live) where
  -- A round ends, for an entry that is not left to a client's procedure.
  abbrev Ends : ℕ → Mse → Marker → Type 0
  Ends retries e s =
      (s' : Marker) × (cost : ℕ) × (mark_entry procs h (suc retries) e.mse_start e.mse_descr s
        ≡ some (s', cost))
      × Round h objects live (on_top e s) s'

  round_large :
      (retries : ℕ) (e : Mse) (s : Marker)
      → e.mse_descr % 8 ≡ 0
      → 8 ≤ e.mse_start
      → 1024 ≤ e.mse_descr
      → Ends retries e s
  unfolding mark_entry
  round_large retries e s m low l =
      let e' : Mse = record { mse_start = e.mse_start + 1016; mse_descr = e.mse_descr - 1016 } in
      let tag : (e.mse_descr % 4 == 0) ≡ true = (==_iff (e.mse_descr % 4) 0).1 (omega arith) in
      let large : leb 1024 e.mse_descr ≡ true = le→leb 1024 e.mse_descr l in
      let (s', run, a, seen) =
        scan_range-Advance h objects (LengthField e.mse_start 1016) live
          (Candidate h e.mse_start e.mse_descr) heap listed closed e.mse_start 127 (on_top e' s)
          (omega arith) low
          (λ i f. (e.mse_start + 8 * i, inl (omega arith, (i, omega arith, refl)), refl)) in
      let work' = a.less in
      (
        s',
        1016,
        rw (tag, large, run) refl,
        record {
          marked = a.marked;
          keeps = λ i.
              settle h (LengthField e.mse_start 1016) s'
                (λ x f. looked_at_words h s' e.mse_start 127 x seen f)
                (a.keeps (
                  split_off h e e' (LengthField e.mse_start 1016) s
                    (λ x. two_parts e.mse_start e.mse_descr x l m) (take_off h e s i)));
          precise = λ x.
              a.precise (candidates-Leads h live e s x)
                (add_part h live e e' s (λ y f. part e.mse_start e.mse_descr y l m f) x);
          fit = λ f. a.fit ((inl (omega arith), omega arith), f.1);
          less = omega arith;
        },
      )

  round_small :
      (retries : ℕ) (e : Mse) (s : Marker)
      → e.mse_descr % 8 ≡ 0
      → 8 ≤ e.mse_start
      → e.mse_descr < 1024
      → 8 ≤ e.mse_descr
      → Ends retries e s
  unfolding mark_entry
  round_small retries e s m low l one =
      let tag : (e.mse_descr % 4 == 0) ≡ true = (==_iff (e.mse_descr % 4) 0).1 (omega arith) in
      let small : leb 1024 e.mse_descr ≡ false = lt→leb_false 1024 e.mse_descr l in
      let words : ltb e.mse_descr 8 ≡ false = not_less e.mse_descr 8 one in
      let n = e.mse_descr / 8 in
      let size : e.mse_descr ≡ 8 * n = omega arith in
      let (s', run, a, seen) =
        scan_range-Advance h objects (Field e.mse_start e.mse_descr) live
          (Candidate h e.mse_start e.mse_descr) heap listed closed e.mse_start n s (omega arith) low
          (λ i f. (e.mse_start + 8 * i, inl (omega arith, (i, omega arith, refl)), refl)) in
      let run' =
        subst (λ v. scan_range h e.mse_start (e.mse_start + v) s ≡ some s') (sym size) run in
      let work' = a.less in
      (
        s',
        e.mse_descr,
        rw (tag, small, words, run') refl,
        record {
          marked = a.marked;
          keeps = λ i.
              settle h (Field e.mse_start e.mse_descr) s'
                (λ x f. looked_at_length h s' e.mse_start e.mse_descr n x size seen f)
                (a.keeps (take_off h e s i));
          precise = λ x. a.precise (candidates-Leads h live e s x) (off_top h live e s x);
          fit = λ f. a.fit f.1;
          less = omega arith;
        },
      )

  round_none : (retries : ℕ) (e : Mse) (s : Marker) → e.mse_descr ≡ 0 → Ends retries e s
  unfolding mark_entry
  round_none retries e s z =
      let tag : (e.mse_descr % 4 == 0) ≡ true = (==_iff (e.mse_descr % 4) 0).1 (omega arith) in
      let small : leb 1024 e.mse_descr ≡ false = lt→leb_false 1024 e.mse_descr (omega arith) in
      let words : ltb e.mse_descr 8 ≡ true = lt→ltb e.mse_descr 8 (omega arith) in
      (
        s,
        0,
        rw (tag, small, words) refl,
        record {
          marked = λ o m. m;
          keeps = λ i.
              settle h (Field e.mse_start e.mse_descr) s
                (λ x f. absurd (no_words e.mse_start e.mse_descr x z f)) (take_off h e s i);
          precise = λ x. off_top h live e s x;
          fit = λ f. f.1;
          less = omega arith;
        },
      )

  round_bitmap : (retries : ℕ) (e : Mse) (s : Marker) → e.mse_descr % 4 ≡ 1 → Ends retries e s
  unfolding mark_entry
  round_bitmap retries e s m =
      let tag : (e.mse_descr % 4 == 0) ≡ false =
        other_tag (e.mse_descr % 4) 0 (λ z. two_tags e.mse_descr m z) in
      let bits : (e.mse_descr % 4 == 1) ≡ true = (==_iff (e.mse_descr % 4) 1).1 m in
      let (s', run, a, seen) =
        scan_bitmap-Advance h objects (Field e.mse_start e.mse_descr) live
          (Candidate h e.mse_start e.mse_descr) heap listed closed 64 (e.mse_descr - 1) e.mse_start
          s (λ a f. (a, inr (m, f), refl)) in
      let work' = a.less in
      (
        s',
        256,
        rw (tag, bits, run) refl,
        record {
          marked = a.marked;
          keeps = λ i.
              settle h (Field e.mse_start e.mse_descr) s'
                (λ x f. elim f [ inl g ↦ absurd (two_tags e.mse_descr m g.0) | inr g ↦ seen x g.1 ])
                (a.keeps (take_off h e s i));
          precise = λ x. a.precise (candidates-Leads h live e s x) (off_top h live e s x);
          fit = λ f. a.fit f.1;
          less = omega arith;
        },
      )

  pub mark_entry-Round : (retries : ℕ) (e : Mse) (s : Marker) → Fit e → Ends retries e s
  mark_entry-Round retries e s (inr m, low) = round_bitmap retries e s m
  mark_entry-Round retries e s (inl m, low) = elim (dec_lt e.mse_descr 1024) [
    | no l ↦ round_large retries e s m low (omega arith)
    | yes l ↦ elim (dec_lt e.mse_descr 8) [
      | yes z ↦ round_none retries e s (omega arith)
      | no one ↦ round_small retries e s m low l (omega arith)
    ]
  ]
