-- ===== src/Mark/Tests.antt =====
-- The theorems on marking at a heap of two large objects, of which the first points to the second.
use boehmgc.Base.{
  ℕ, ◌-◌, ◌/◌, ◌%◌, not, ◌≤◌, ◌≡◌, ◌≢◌, refl, Bool, true, false, ◌&&◌, Option, none, some, List, [],
  ◌∷◌, arith, ◌==◌, if◌then◌else◌, Bool-cases, inl, inr, ◌⊎◌, ap, sym, subst, ◌∙◌,
}
use boehmgc.BlackList.{clear_bl}
use boehmgc.Headers.{
  Hdr, null, header, Index, Lookup, found, black_listed, header_cache_miss,
  header_cache_miss-header, header_cache_miss-null,
}
use boehmgc.Mark.{Heap, Marker, plausible, object_of, mark_until_empty}
use boehmgc.Mark.Target.{IsHdr, IsHeap, lookup, target, base_of, found_object, object_at}
use boehmgc.Mark.Push.{Object, Marked, Field, Gray, Listed}
use boehmgc.Mark.Round.{Nothing}
use boehmgc.Mark.Trace.{Owned, Reaches, mark_until_empty-Marked}

abbrev large_hdr : ℕ → Hdr
large_hdr block = record {
  hb_block = block;
  hb_sz = 4096;
  hb_descr = 16;
  hb_map = λ i. 1;
  large_block = true;
  is_free = false;
  ignore_off_page = false;
}

abbrev two_blocks : Index
two_blocks i =
    if i == 1 then header (large_hdr 4096) else if i == 2 then header (large_hdr 8192) else null

abbrev heap : Heap
heap = record {
  memory = λ a. if a == 4096 then 8192 else 0;
  index = two_blocks;
  offsets = record { valid_offsets = λ i. i == 0; modws_valid_offsets = λ i. i == 0 };
  all_interior_pointers = false;
  least_ha = 4096;
  greatest_ha = 12288;
  mark_stack_size = 4096;
}

abbrev objects : List Object
objects = (large_hdr 4096, 0) ∷ (large_hdr 8192, 0) ∷ []

-- What a lookup gives in this heap.
lookup-cases :
    (p : ℕ)
    → (lookup heap p ≡ some (found (large_hdr 4096)))
      ⊎ (lookup heap p ≡ some (found (large_hdr 8192)))
      ⊎ (lookup heap p ≡ some black_listed)
lookup-cases p = elim (Bool-cases (p / 4096 == 1)) [
  | inl one ↦ inl (header_cache_miss-header two_blocks false p (large_hdr 4096) (rw one refl) refl)
  | inr not_one ↦ elim (Bool-cases (p / 4096 == 2)) [
    | inl two ↦ inr (
        inl (
          header_cache_miss-header two_blocks false p (large_hdr 8192) (rw (not_one, two) refl)
            refl))
    | inr not_two ↦
        inr (inr (header_cache_miss-null two_blocks false p (rw (not_one, not_two) refl)))
  ]
]

large_hdr-IsHdr :
    (p block : ℕ)
    → two_blocks (block / 4096) ≡ header (large_hdr block)
    → 8 ≤ block
    → IsHdr heap p (large_hdr block)
large_hdr-IsHdr p block e l = record {
  own = e;
  placed = λ f. cc;
  small_map = λ f i. cc;
  large_map = λ f i. omega arith;
  plain = inl (omega arith);
  above = l;
}

heap-IsHeap : IsHeap heap
heap-IsHeap = record {
  ends = λ p l e. elim (lookup-cases p) [ inl f ↦ cc | inr g ↦ elim g [ inl f ↦ cc | inr f ↦ cc ] ];
  hdrs = λ p hhdr e. elim (lookup-cases p) [
    | inl f ↦
        subst (λ v. IsHdr heap p v) (same hhdr (large_hdr 4096) (sym f ∙ e))
          (large_hdr-IsHdr p 4096 refl (omega arith))
    | inr g ↦ elim g [
      | inl f ↦
          subst (λ v. IsHdr heap p v) (same hhdr (large_hdr 8192) (sym f ∙ e))
            (large_hdr-IsHdr p 8192 refl (omega arith))
      | inr f ↦ cc
    ]
  ];
}
  where
    same : (x y : Hdr) → ◌≡◌ {A = Option Lookup} (some (found y)) (some (found x)) → y ≡ x
    same x y e = cc

-- A large object is found at its block.
nothing : (o : Object) → ◌≢◌ {A = Option Object} none (some o)
nothing o = λ e. cc

large_object :
    (p block : ℕ) (o : Object)
    → object_at (large_hdr block) (object_of heap p (large_hdr block)) ≡ some o
    → o ≡ (large_hdr block, 0)
unfolding object_of
large_object p block o e = pick (p - block == p % 4096 && not (p - block == 0)) e
  where
    pick :
        (b : Bool)
        → object_at (large_hdr block) (if b then none else some (0, block)) ≡ some o
        → o ≡ (large_hdr block, 0)
    pick true e = absurd (nothing o e)
    pick false e =
        ap (λ (v : Option Object). elim v [ none ↦ (large_hdr block, 0) | some o' ↦ o' ]) (sym e)

heap-Listed : Listed heap objects
unfolding target
heap-Listed p o e =
    let e' = inside (plausible heap p) e in
    elim (lookup-cases p) [
      | inl f ↦ inl (large_object p 4096 o (subst (λ v. found_object heap p v ≡ some o) f e'))
      | inr g ↦ elim g [
        | inl f ↦
            inr (inl (large_object p 8192 o (subst (λ v. found_object heap p v ≡ some o) f e')))
        | inr f ↦ absurd (nothing o (subst (λ v. found_object heap p v ≡ some o) f e'))
      ]
    ]
  where
    inside :
        (b : Bool)
        → (if b then found_object heap p (lookup heap p) else none) ≡ some o
        → found_object heap p (lookup heap p) ≡ some o
    inside true e = e
    inside false e = absurd (nothing o e)

abbrev first_marked : Marker
first_marked = record {
  stack = record { mse_start = 4096; mse_descr = 16 } ∷ [];
  marks = λ b g. b == 4096 && g == 0;
  n_marks = λ b. if b == 4096 then 1 else 0;
  black = record {
    all_interior_pointers = false;
    old_normal_bl = clear_bl;
    incomplete_normal_bl = clear_bl;
    old_stack_bl = clear_bl;
    incomplete_stack_bl = clear_bl;
    total_stack_black_listed = 0;
    black_list_spacing = 12288;
    heapsize = 8192;
    heap_sects = [];
  };
  invalid = false;
  too_small = false;
}

first_marked-Gray : Gray heap Nothing first_marked
first_marked-Gray p o t m a f = elim (heap-Listed p o t) [
  | inl e ↦ inr (inl (inl (subst (λ (v : Object). Field (base_of v.0 v.1) v.0.hb_descr a) e f)))
  | inr g ↦ elim g [
    | inl e ↦ absurd (not_marked (subst (λ v. Marked first_marked v) e m))
    | inr e ↦ absurd e
  ]
]
  where
    not_marked : ◌≢◌ {A = Bool} false true
    not_marked = λ e. cc

first_target : target heap 4096 ≡ some (large_hdr 4096, 0)
unfolding target plausible header_cache_miss object_of
first_target = refl

first_marked-Owned : Owned heap first_marked
first_marked-Owned a (inl f) = (4096, (large_hdr 4096, 0), first_target, refl, f)
first_marked-Owned a (inr x) = absurd x

mark_until_empty-Marked_example :
    (s' : Marker) × (mark_until_empty (λ d p s. none) heap 1 4 4 first_marked ≡ some s')
    × (s'.stack ≡ [])
    × ((p : ℕ) (o : Object) → target heap p ≡ some o → Marked s' o → Reaches heap first_marked o)
    × ((s'.invalid ≡ true) ⊎ ((o : Object) → Reaches heap first_marked o → Marked s' o))
mark_until_empty-Marked_example =
    mark_until_empty-Marked (λ d p s. none) heap objects heap-IsHeap heap-Listed 0 4 first_marked
      ((inl (omega arith), omega arith), tt) (inr first_marked-Gray) first_marked-Owned
      (omega arith)
