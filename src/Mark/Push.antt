-- ===== src/Mark/Push.antt =====
-- One candidate pointer: it keeps the invariant of marking, and its object is marked then.
use boehmgc.Base.{
  ℕ, zero, suc, ◌+◌, ◌-◌, ◌*◌, ◌/◌, ◌%◌, ◌^◌, ◌≤◌, ◌≡◌, refl, Bool, true, false, ◌&&◌, Option, none,
  some, List, [], ◌∷◌, arith, ◌==◌, if◌then◌else◌, drop, All, Bool-cases, inl, inr, ◌⊎◌, ap, sym,
  subst, ==_iff, ◌∙◌,
}
use boehmgc.Headers.{hblksize, Hdr, header, Lookup, found, black_listed, ignored}
use boehmgc.Mark.{Heap, Mse, Marker, plausible, object_of}
use boehmgc.Mark.Target.{Plain, IsHdr, IsHeap, lookup, object_at, found_object, target, base_of}

abbrev pub Object : Type 0
Object = Hdr × ℕ

abbrev pub Marked : Marker → Object → Type 0
Marked s (hhdr, gran) = s.marks hhdr.hb_block gran ≡ true

-- If `p` stands for an object, this is marked.
abbrev pub Handled : Heap → Marker → ℕ → Type 0
Handled h s p = (o : Object) → target h p ≡ some o → Marked s o

-- `a` is the address of a word that a bitmap says may be a pointer.
abbrev pub BitmapField : ℕ → ℕ → ℕ → ℕ → Type 0
BitmapField zero descr start a = ⊥
BitmapField (suc k) descr start a =
    ((2 ^ 63 ≤ descr) × (a ≡ start)) ⊎ BitmapField k (descr * 2 % 2 ^ 64) (start + 8) a

abbrev pub LengthField : ℕ → ℕ → ℕ → Type 0
LengthField start descr a = (i : ℕ) × (8 * i + 8 ≤ descr) × (a ≡ start + 8 * i)

-- `a` is the address of a word to look at, of the object at `start` with the descriptor.
abbrev pub Field : ℕ → ℕ → ℕ → Type 0
Field start descr a =
    ((descr % 4 ≡ 0) × LengthField start descr a)
    ⊎ ((descr % 4 ≡ 1) × BitmapField 64 (descr - 1) start a)

abbrev pub OnStack : ℕ → List Mse → Type 0
OnStack a [] = ⊥
OnStack a (e ∷ es) = Field e.mse_start e.mse_descr a ⊎ OnStack a es

-- The words of marked objects lead to marked objects, or are still to be looked at: on the stack, or
-- in `pend`.
abbrev pub Gray : Heap → (ℕ → Type 0) → Marker → Type 0
Gray h pend s =
    (p : ℕ) (o : Object)
    → target h p ≡ some o
    → Marked s o
    → (a : ℕ) → Field (base_of o.0 o.1) o.0.hb_descr a
    → Handled h s (h.memory a) ⊎ OnStack a s.stack ⊎ pend a

abbrev pub Invariant : Heap → (ℕ → Type 0) → Marker → Type 0
Invariant h pend s = (s.invalid ≡ true) ⊎ Gray h pend s

abbrev pub Fit : Mse → Type 0
Fit e = Plain e.mse_descr × (8 ≤ e.mse_start)

-- A bound of the rounds for an entry.
abbrev pub entry_work : ℕ → ℕ
entry_work descr = descr / 1016 + 1

abbrev pub stack_work : List Mse → ℕ
stack_work [] = 0
stack_work (e ∷ es) = entry_work e.mse_descr + stack_work es

abbrev pub left_work : List Object → (ℕ → ℕ → Bool) → ℕ
left_work [] marks = 0
left_work (o ∷ os) marks =
    (if marks o.0.hb_block o.1 then 0 else suc (entry_work o.0.hb_descr)) + left_work os marks

-- The work for the stack and for the objects that are not marked.
abbrev pub work : List Object → Marker → ℕ
work objects s = stack_work s.stack + left_work objects s.marks

abbrev pub Member : Object → List Object → Type 0
Member o [] = ⊥
Member o (o' ∷ os) = (o ≡ o') ⊎ Member o os

-- All the objects of the heap are listed.
abbrev pub Listed : Heap → List Object → Type 0
Listed h objects = (p : ℕ) (o : Object) → target h p ≡ some o → Member o objects

-- If `p` stands for an object, this is live.
abbrev pub Leads : Heap → (Object → Type 0) → ℕ → Type 0
Leads h live p = (o : Object) → target h p ≡ some o → live o

-- The words of a live object lead to live objects.
abbrev pub Closed : Heap → (Object → Type 0) → Type 0
Closed h live =
    (p : ℕ) (o : Object) (a : ℕ)
    → target h p ≡ some o
    → live o
    → Field (base_of o.0 o.1) o.0.hb_descr a
    → Leads h live (h.memory a)

-- The marked objects and what the stack leads to are live.
pub record Precise (h : Heap) (live : Object → Type 0) (s : Marker) : Type 0 where
  pub only_live : (p : ℕ) (o : Object) → target h p ≡ some o → Marked s o → live o
  pub stack_live : (a : ℕ) → OnStack a s.stack → Leads h live (h.memory a)

-- A part of a round that looks at some candidates.
pub record Advance (h : Heap) (objects : List Object) (pend : ℕ → Type 0) (live : Object → Type 0)
    (cand : ℕ → Type 0) (s s' : Marker) : Type 0 where
  pub marked : (o : Object) → Marked s o → Marked s' o
  pub keeps : Invariant h pend s → Invariant h pend s'
  pub precise : ((p : ℕ) → cand p → Leads h live p) → Precise h live s → Precise h live s'
  pub fit : All Fit s.stack → All Fit s'.stack
  pub less : work objects s' ≤ work objects s

pub Advance-trans :
    {h : Heap} {objects : List Object} {pend : ℕ → Type 0} {live : Object → Type 0}
    {cand : ℕ → Type 0} {s t u : Marker}
    → Advance h objects pend live cand s t
    → Advance h objects pend live cand t u
    → Advance h objects pend live cand s u
Advance-trans a b = record {
  marked = λ o m. b.marked o (a.marked o m);
  keeps = λ i. b.keeps (a.keeps i);
  precise = λ c x. b.precise c (a.precise c x);
  fit = λ f. b.fit (a.fit f);
  less = let x = a.less in let y = b.less in omega arith;
}

pub Advance-refl :
    {h : Heap} {objects : List Object} {pend : ℕ → Type 0} {live : Object → Type 0}
    {cand : ℕ → Type 0} (s : Marker)
    → Advance h objects pend live cand s s
Advance-refl s = record {
  marked = λ o m. m;
  keeps = λ i. i;
  precise = λ c x. x;
  fit = λ f. f;
  less = omega arith;
}

pub stack_work-drop : (n : ℕ) (es : List Mse) → stack_work (drop n es) ≤ stack_work es
stack_work-drop zero es = omega arith
stack_work-drop (suc n) [] = omega arith
stack_work-drop (suc n) (e ∷ es) = let r = stack_work-drop n es in omega arith

pub OnStack-drop : (n a : ℕ) (es : List Mse) → OnStack a (drop n es) → OnStack a es
OnStack-drop zero a es f = f
OnStack-drop (suc n) a [] f = f
OnStack-drop (suc n) a (e ∷ es) f = inr (OnStack-drop n a es f)

pub All-drop : (n : ℕ) (es : List Mse) → All Fit es → All Fit (drop n es)
All-drop zero es f = f
All-drop (suc n) [] f = tt
All-drop (suc n) (e ∷ es) f = All-drop n es f.1

-- The marks with one more.
abbrev pub more : (ℕ → ℕ → Bool) → ℕ → ℕ → ℕ → ℕ → Bool
more marks block gran b g = if b == block && g == gran then true else marks b g

pub more-marks :
    (marks : ℕ → ℕ → Bool) (block gran b g : ℕ)
    → marks b g ≡ true
    → more marks block gran b g ≡ true
more-marks marks block gran b g e = elim (Bool-cases (b == block && g == gran)) [
  | inl t ↦ rw t refl
  | inr f ↦ rw (f, e) refl
]

pub more_self : (marks : ℕ → ℕ → Bool) (block gran : ℕ) → more marks block gran block gran ≡ true
more_self marks block gran = ground arith

pub more-inv :
    (marks : ℕ → ℕ → Bool) (block gran b g : ℕ)
    → more marks block gran b g ≡ true
    → (marks b g ≡ true) ⊎ ((b ≡ block) × (g ≡ gran))
more-inv marks block gran b g e = elim (Bool-cases (b == block)) [
  | inl t ↦ elim (Bool-cases (g == gran)) [
    | inl u ↦ inr ((==_iff b block).0 t, (==_iff g gran).0 u)
    | inr u ↦ inl (rw (t, u) at e)
  ]
  | inr t ↦ inl (rw t at e)
]

left_one :
    (a b : Bool) (w : ℕ)
    → (a ≡ true → b ≡ true)
    → (if b then 0 else suc w) ≤ (if a then 0 else suc w)
left_one true true w f = omega arith
left_one true false w f = cc (f refl)
left_one false b w f = ground arith

left_on : (b : Bool) (w : ℕ) → b ≡ true → (if b then 0 else suc w) ≡ 0
left_on b w e = rw e refl

left_off : (b : Bool) (w : ℕ) → b ≡ false → (if b then 0 else suc w) ≡ suc w
left_off b w e = rw e refl

pub left_work_mono :
    (objects : List Object) (m m' : ℕ → ℕ → Bool)
    → ((b g : ℕ) → m b g ≡ true → m' b g ≡ true)
    → left_work objects m' ≤ left_work objects m
left_work_mono [] m m' f = omega arith
left_work_mono (o ∷ os) m m' f =
    let one =
      left_one (m o.0.hb_block o.1) (m' o.0.hb_block o.1) (entry_work o.0.hb_descr)
        (f o.0.hb_block o.1) in
    let rest = left_work_mono os m m' f in omega arith

pub left_work-less :
    (objects : List Object) (m : ℕ → ℕ → Bool) (o : Object)
    → Member o objects
    → m o.0.hb_block o.1 ≡ false
    → left_work objects (more m o.0.hb_block o.1) + suc (entry_work o.0.hb_descr)
      ≤ left_work objects m
left_work-less [] m o i e = absurd i
left_work-less (o' ∷ os) m o (inl i) e = subst (λ v. Goal v) i here
  where
    Goal : Object → Type 0
    Goal v =
        left_work (v ∷ os) (more m o.0.hb_block o.1) + suc (entry_work o.0.hb_descr)
        ≤ left_work (v ∷ os) m

    here : Goal o
    here =
        let rest = left_work_mono os m (more m o.0.hb_block o.1) (more-marks m o.0.hb_block o.1) in
        let now =
          left_on (more m o.0.hb_block o.1 o.0.hb_block o.1) (entry_work o.0.hb_descr)
            (more_self m o.0.hb_block o.1) in
        let before = left_off (m o.0.hb_block o.1) (entry_work o.0.hb_descr) e in omega arith
left_work-less (o' ∷ os) m o (inr i) e =
    let rest = left_work-less os m o i e in
    let one =
      left_one (m o'.0.hb_block o'.1) (more m o.0.hb_block o.1 o'.0.hb_block o'.1)
        (entry_work o'.0.hb_descr) (more-marks m o.0.hb_block o.1 o'.0.hb_block o'.1) in
    omega arith

pub OnStack-keep :
    (h : Heap) (pend : ℕ → Type 0) (s s' : Marker) (v a : ℕ)
    → ((o : Object) → Marked s o → Marked s' o)
    → (OnStack a s.stack → OnStack a s'.stack)
    → (Handled h s v ⊎ OnStack a s.stack ⊎ pend a)
    → Handled h s' v ⊎ OnStack a s'.stack ⊎ pend a
OnStack-keep h pend s s' v a m f (inl g) = inl (λ o t. m o (g o t))
OnStack-keep h pend s s' v a m f (inr (inl g)) = inr (inl (f g))
OnStack-keep h pend s s' v a m f (inr (inr g)) = inr (inr g)

header_inj : (x y : Hdr) → header x ≡ header y → x ≡ y
header_inj x y e = cc

-- Two lookups of one block give one header.
pub same_hdr :
    (h : Heap) (p q : ℕ) (x y : Hdr) → IsHdr h p x → IsHdr h q y → x.hb_block ≡ y.hb_block → x ≡ y
same_hdr h p q x y v w e = header_inj x y (sym v.own ∙ ap (λ b. h.index (b / hblksize)) e ∙ w.own)

pub target-IsHdr : (h : Heap) (p : ℕ) (o : Object) → IsHeap h → target h p ≡ some o → IsHdr h p o.0
unfolding target
target-IsHdr h p o w e = split (plausible h p) (lookup h p) refl e
  where
    split :
        (b : Bool) (l : Option Lookup)
        → lookup h p ≡ l
        → (if b then found_object h p l else none) ≡ some o
        → IsHdr h p o.0
    split false l f e = cc
    split true none f e = cc
    split true (some black_listed) f e = cc
    split true (some ignored) f e = cc
    split true (some (found hhdr)) f e = at (object_of h p hhdr) e
      where
        at : (r : Option (ℕ × ℕ)) → object_at hhdr r ≡ some o → IsHdr h p o.0
        at none e = cc
        at (some (gran, base)) e =
            let same : hhdr ≡ o.0 =
              ap (λ (v : Option Object). elim v [ none ↦ hhdr | some o' ↦ o'.0 ]) e in
            subst (λ x. IsHdr h p x) same (w.hdrs p hhdr f)
