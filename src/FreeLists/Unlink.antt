-- ===== src/FreeLists/Unlink.antt =====
-- The links of a list of free blocks when the neighbours of a block are linked to one another, as
-- GC_remove_from_fl_at does.
use boehmgc.Base.{
  ℕ, ◌≡◌, ◌≢◌, refl, true, false, ◌&&◌, not, List, [], ◌∷◌, ◌++◌, arith, ◌==◌, inl, inr,
  if◌then◌else◌, Bool-cases, ◌⊎◌, sym, ◌∙◌, true≢false, subst,
}
use boehmgc.FreeLists.{Lists}
use boehmgc.FreeLists.Chain.{
  next_of, prev_of, has_header, size_of, free_of, has, Distinct, Linked, Linked-frame, has-append,
  prev-mem, next-mem,
}
use boehmgc.FreeLists.Add.{apart}

-- What the writes to the neighbours of `h` do to the links.
pub record Unlinked (h P N : ℕ) (s s' : Lists) : Type 0 where
  pub next : (a : ℕ) → next_of s' a ≡ (if (a == P) && not (P == 0) then N else next_of s a)
  pub prev : (a : ℕ) → prev_of s' a ≡ (if (a == N) && not (N == 0) then P else prev_of s a)
  pub headers : (a : ℕ) → has_header s' a ≡ has_header s a
  pub sizes : (a : ℕ) → size_of s' a ≡ size_of s a
  pub flags : (a : ℕ) → free_of s' a ≡ free_of s a

module _ (s s' : Lists) (h P N : ℕ) (u : Unlinked h P N s s') (hp : prev_of s h ≡ P)
    (hn : next_of s h ≡ N) where
  -- A block that is neither neighbour keeps its links.
  unlinked_same :
      (a : ℕ)
      → (a == P) ≡ false
      → (a == N) ≡ false
      → (next_of s' a ≡ next_of s a)
        × (prev_of s' a ≡ prev_of s a)
        × (has_header s' a ≡ has_header s a)
  unlinked_same a p n = (rw p at (u.next a), rw n at (u.prev a), u.headers a)

  -- The list behind `h`.
  pub unlink_head :
      (q : ℕ) (ys : List ℕ)
      → Linked s q h (h ∷ ys)
      → Distinct (h ∷ ys)
      → has P ys ≡ false
      → Linked s' P N ys
  unlink_head q [] l d o = sym hn ∙ l.4
  unlink_head q (y ∷ ys) l d o =
      let here : N ≡ y = sym hn ∙ l.4.0 in
      let not_null : (N == 0) ≡ false = ground arith in
      let not_prev : (y == P) ≡ false = ground arith in
      let prev' : prev_of s' y ≡ P = ground (arith, u.prev y) in
      let next' : next_of s' y ≡ next_of s y = ground (arith, u.next y) in
      (
        here,
        l.4.1,
        u.headers y ∙ l.4.2,
        prev',
        rw next' (
            Linked-frame s s' y (next_of s y) ys
              (λ a i.
                unlinked_same a (apart ys a P i (ground arith)) (ground (arith, apart ys a y i)))
              l.4.4),
      )

  not_next :
      (x : ℕ) (ys : List ℕ)
      → x ≢ 0
      → has x ys ≡ false
      → (next_of s h ≡ 0) ⊎ (has (next_of s h) ys ≡ true)
      → (x == N) ≡ false
  not_next x ys r o (inl e) = ground arith
  not_next x ys r o (inr i) = elim (Bool-cases (x == N)) [
    | inr n ↦ n
    | inl e ↦ let same : N ≡ x = ground arith in absurd (true≢false (sym (rw (hn, same) at i) ∙ o))
  ]

  pub unlink_later :
      (q p x : ℕ) (xs ys : List ℕ)
      → Linked s q p (x ∷ xs ++ h ∷ ys)
      → Distinct (x ∷ xs ++ h ∷ ys)
      → Linked s' q p (x ∷ xs ++ ys)
  unlink_later q p x [] ys l d =
      let before : P ≡ x = sym hp ∙ l.4.3 in
      let out : (x == N) ≡ false =
        not_next x ys l.1 (ground arith) (next-mem s q p h (x ∷ []) ys l) in
      let next' : next_of s' x ≡ N = ground (arith, u.next x) in
      let behind : Linked s' P N ys =
        unlink_head x ys (refl, l.4.1, l.4.2, l.4.3, l.4.4) d.1 (rw before (ground arith)) in
      (
        l.0,
        l.1,
        u.headers x ∙ l.2,
        rw out at (u.prev x) ∙ l.3,
        rw next' (subst (λ t. Linked s' t N ys) before behind),
      )
  unlink_later q p x (z ∷ xs) ys l d =
      let (apart_h, apart_ys) : (has x (h ∷ ys) ≡ false) × (has x (z ∷ xs) ≡ false) = (
        ground (arith, has-append x (z ∷ xs) (h ∷ ys)),
        ground (arith, has-append x (z ∷ xs) (h ∷ ys)),
      ) in
      let out : (x == N) ≡ false =
        not_next x ys l.1 (ground arith) (next-mem s q p h (x ∷ z ∷ xs) ys l) in
      let inside : has P (z ∷ xs) ≡ true =
        subst (λ t. has t (z ∷ xs) ≡ true) hp (prev-mem s x (next_of s x) z h xs ys l.4) in
      let not_prev : (x == P) ≡ false = ground (arith, apart (z ∷ xs) P x inside apart_ys) in
      let next' : next_of s' x ≡ next_of s x = rw not_prev at (u.next x) in
      (
        l.0,
        l.1,
        u.headers x ∙ l.2,
        rw out at (u.prev x) ∙ l.3,
        rw next' (unlink_later x (next_of s x) z xs ys l.4 d.1),
      )
