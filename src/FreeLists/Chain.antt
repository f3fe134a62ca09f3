-- ===== src/FreeLists/Chain.antt =====
-- Doubly linked lists of free blocks.
use boehmgc.Base.{
  ℕ, ◌≡◌, ◌≢◌, refl, Bool, true, false, ◌||◌, none, some, List, [], ◌∷◌, ◌++◌, arith, ◌==◌, ◌∙◌,
  ◌⊎◌, inl, inr, sym, true≢false, ==_iff, Bool-cases, Option-cases,
}
use boehmgc.FreeLists.{Header, Lists}

abbrev pub next_of : Lists → ℕ → ℕ
next_of s a = elim (s.hdr a) [ none ↦ 0 | some hhdr ↦ hhdr.hb_next ]

abbrev pub prev_of : Lists → ℕ → ℕ
prev_of s a = elim (s.hdr a) [ none ↦ 0 | some hhdr ↦ hhdr.hb_prev ]

abbrev pub has_header : Lists → ℕ → Bool
has_header s a = elim (s.hdr a) [ none ↦ false | some _ ↦ true ]

abbrev pub has : ℕ → List ℕ → Bool
has a [] = false
has a (x ∷ xs) = (a == x) || has a xs

abbrev pub size_of : Lists → ℕ → ℕ
size_of s a = elim (s.hdr a) [ none ↦ 0 | some hhdr ↦ hhdr.hb_sz ]

abbrev pub free_of : Lists → ℕ → Bool
free_of s a = elim (s.hdr a) [ none ↦ false | some hhdr ↦ hhdr.free_blk ]

-- No block occurs twice.
abbrev pub Distinct : List ℕ → Type 0
Distinct [] = Unit
Distinct (x ∷ xs) = (has x xs ≡ false) × Distinct xs

-- From `p`, whose predecessor is `prev`, the list runs through the blocks `xs` to its end; each
-- block points back to the one before it.
abbrev pub Linked : Lists → ℕ → ℕ → List ℕ → Type 0
Linked s prev p [] = p ≡ 0
Linked s prev p (x ∷ xs) =
    (p ≡ x) × (x ≢ 0) × (has_header s x ≡ true) × (prev_of s x ≡ prev) × Linked s x (next_of s x) xs

-- The links of the blocks of `xs` are the same in both states.
abbrev pub SameLinks : Lists → Lists → List ℕ → Type 0
SameLinks s s' xs =
    (a : ℕ)
    → has a xs ≡ true
    → (next_of s' a ≡ next_of s a)
      × (prev_of s' a ≡ prev_of s a)
      × (has_header s' a ≡ has_header s a)

pub Linked-frame :
    (s s' : Lists) (prev p : ℕ) (xs : List ℕ)
    → SameLinks s s' xs
    → Linked s prev p xs
    → Linked s' prev p xs
Linked-frame s s' prev p [] same l = l
Linked-frame s s' prev p (x ∷ xs) same l =
    let (n, q, h) = same x (ground arith) in
    (
      l.0,
      l.1,
      h ∙ l.2,
      q ∙ l.3,
      Linked-frame s s' x (next_of s' x) xs (λ a i. same a (ground arith)) (rw n l.4),
    )

pub has-append : (a : ℕ) (xs ys : List ℕ) → has a (xs ++ ys) ≡ (has a xs || has a ys)
has-append a [] ys = refl
has-append a (x ∷ xs) ys = ground (arith, has-append a xs ys)

-- The block before `h` on its list, and the one behind it.
pub prev-mem :
    (s : Lists) (q p z h : ℕ) (xs ys : List ℕ)
    → Linked s q p (z ∷ xs ++ h ∷ ys)
    → has (prev_of s h) (z ∷ xs) ≡ true
prev-mem s q p z h [] ys l = ground arith
prev-mem s q p z h (x ∷ xs) ys l = ground (arith, prev-mem s z (next_of s z) x h xs ys l.4)

pub next-mem :
    (s : Lists) (q p h : ℕ) (xs ys : List ℕ)
    → Linked s q p (xs ++ h ∷ ys)
    → (next_of s h ≡ 0) ⊎ (has (next_of s h) ys ≡ true)
next-mem s q p h [] [] l = inl l.4
next-mem s q p h [] (y ∷ ys) l = inr (ground arith)
next-mem s q p h (x ∷ xs) ys l = next-mem s x (next_of s x) h xs ys l.4

pub not-mem-zero : (s : Lists) (q p : ℕ) (xs : List ℕ) → Linked s q p xs → has 0 xs ≡ false
not-mem-zero s q p [] l = refl
not-mem-zero s q p (x ∷ xs) l = ground (arith, not-mem-zero s x (next_of s x) xs l.4)

-- Every block of a list has a header, and is not NULL.
pub Linked-mem :
    (s : Lists) (q p : ℕ) (xs : List ℕ) (a : ℕ)
    → Linked s q p xs
    → has a xs ≡ true
    → (hhdr : Header) × (s.hdr a ≡ some hhdr) × (a ≢ 0)
Linked-mem s q p [] a l i = absurd (true≢false (sym i))
Linked-mem s q p (x ∷ xs) a l i = elim (Bool-cases (a == x)) [
  | inr n ↦ Linked-mem s x (next_of s x) xs a l.4 (ground arith)
  | inl e ↦
      let same : a ≡ x = (==_iff a x).0 e in
      elim (Option-cases (s.hdr x)) [
        | inl gone ↦ absurd (true≢false (ground arith))
        | inr (hhdr, there) ↦ (hhdr, rw same there, rw same l.1)
      ]
]

pub Distinct-middle :
    (xs : List ℕ) (h : ℕ) (ys : List ℕ)
    → Distinct (xs ++ h ∷ ys)
    → (has h xs ≡ false) × (has h ys ≡ false)
Distinct-middle [] h ys d = (refl, d.0)
Distinct-middle (x ∷ xs) h ys d =
    let (a, b) = Distinct-middle xs h ys d.1 in (ground (arith, has-append x xs (h ∷ ys)), b)

pub Distinct-sides :
    (xs : List ℕ) (h : ℕ) (ys : List ℕ) (a : ℕ)
    → Distinct (xs ++ h ∷ ys)
    → has a xs ≡ true
    → has a ys ≡ false
Distinct-sides [] h ys a d i = absurd (true≢false (sym i))
Distinct-sides (x ∷ xs) h ys a d i = elim (Bool-cases (a == x)) [
  | inr n ↦ Distinct-sides xs h ys a d.1 (ground arith)
  | inl e ↦ rw ((==_iff a x).0 e) (ground (arith, has-append x xs (h ∷ ys)))
]
