-- ===== src/FreeLists/Sound.antt =====
-- All the lists of free blocks at once: that they are sound, and that the operations keep them so.
use boehmgc.Base.{
  update, ℕ, ◌/◌, ◌≡◌, ◌≢◌, ◌⊎◌, true, false, some, ◌&&◌, not, List, [], ◌∷◌, ◌++◌, arith, ◌==◌,
  inl, inr, Bool-cases, ==_iff, sym, ◌∙◌, true≢false, subst,
}
use boehmgc.FreeLists.{hblksize, Header, Lists, hblk_fl_from_blocks, add_to_fl, remove_from_fl_at}
use boehmgc.FreeLists.Chain.{
  next_of, prev_of, has, Distinct, Linked, SameLinks, Linked-frame, prev-mem, next-mem, has-append,
}
use boehmgc.FreeLists.Remove.{remove_from_fl_at-Removed}
use boehmgc.FreeLists.Add.{apart, add_to_fl-Added}

-- `blocks j` are the blocks of list `j`: each list is doubly linked, and no block is twice on it or
-- on two lists.
pub record Sound (blocks : ℕ → List ℕ) (s : Lists) : Type 0 where
  pub linked : (j : ℕ) → Linked s 0 (s.hblkfreelist j) (blocks j)
  pub distinct : (j : ℕ) → Distinct (blocks j)
  pub disjoint : (j k a : ℕ) → (j == k) ≡ false → has a (blocks j) ≡ true → has a (blocks k) ≡ false

module _ (blocks : ℕ → List ℕ) (i : ℕ) (ys : List ℕ) (s s' : Lists) where
  -- One list is changed to `ys`, the links of the others are as before.
  Sound-update :
      Sound blocks s
      → Linked s' 0 (s'.hblkfreelist i) ys
      → Distinct ys
      → ((j : ℕ) → (j == i) ≡ false → s'.hblkfreelist j ≡ s.hblkfreelist j)
      → ((j : ℕ) → (j == i) ≡ false → SameLinks s s' (blocks j))
      → ((j a : ℕ) → (j == i) ≡ false → has a (blocks j) ≡ true → has a ys ≡ false)
      → Sound (update blocks i ys) s'
  Sound-update w l d heads same away = record {
    linked = λ j. elim (Bool-cases (j == i)) [
      | inl e ↦ rw e (rw ((==_iff j i).0 e) l)
      | inr n ↦
          rw (n, heads j n)
            (Linked-frame s s' 0 (s.hblkfreelist j) (blocks j) (same j n) (w.linked j))
    ];
    distinct = λ j. elim (Bool-cases (j == i)) [ inl e ↦ rw e d | inr n ↦ rw n (w.distinct j) ];
    disjoint = λ j k a n m. elim (Bool-cases (j == i)) [
      | inl e ↦
          let o : (k == i) ≡ false = ground arith in
          rw o (elim (Bool-cases (has a (blocks k))) [
            | inl in' ↦ absurd (true≢false (sym (rw e at m) ∙ away k a o in'))
            | inr out ↦ out
          ])
      | inr n' ↦ elim (Bool-cases (k == i)) [
        | inl e ↦ rw e (away j a n' (rw n' at m))
        | inr o ↦ rw o (w.disjoint j k a n (rw n' at m))
      ]
    ];
  }

-- GC_add_to_fl of a block with a header, that is not NULL and on no list, succeeds and keeps the
-- lists sound; the block is then the first one on the list of its size.
pub add_to_fl-Sound :
    (blocks : ℕ → List ℕ) (h : ℕ) (s : Lists) (hhdr : Header)
    → Sound blocks s
    → s.hdr h ≡ some hhdr
    → h ≢ 0
    → ((j : ℕ) → has h (blocks j) ≡ false)
    → (s' : Lists) × (add_to_fl h s ≡ some s')
      × Sound
          (update blocks
            (hblk_fl_from_blocks (hhdr.hb_sz / hblksize))
            (h ∷ blocks (hblk_fl_from_blocks (hhdr.hb_sz / hblksize))))
          s'
add_to_fl-Sound blocks h s hhdr w found real out =
    let i = hblk_fl_from_blocks (hhdr.hb_sz / hblksize) in
    let (s', run, a) =
      add_to_fl-Added h s hhdr (blocks i) found real (out i) (w.distinct i) (w.linked i) in
    (
      s',
      run,
      Sound-update blocks i (h ∷ blocks i) s s' w a.linked (out i, w.distinct i)
          (λ j n. a.elsewhere.heads j (ground arith))
          (λ j n b m.
            let same : s'.hdr b ≡ s.hdr b =
              a.others b (ground (arith, apart (blocks j) b h m (out j))) (w.disjoint j i b n m) in
            (ground arith, ground arith, ground arith))
          (λ j b n m. ground (arith, apart (blocks j) b h m (out j), w.disjoint j i b n m)),
    )

Distinct-without :
    (xs : List ℕ) (h : ℕ) (ys : List ℕ) → Distinct (xs ++ h ∷ ys) → Distinct (xs ++ ys)
Distinct-without [] h ys d = d.1
Distinct-without (x ∷ xs) h ys d =
    (ground (arith, has-append x xs ys, has-append x xs (h ∷ ys)), Distinct-without xs h ys d.1)

-- The neighbours of a block are NULL or on its list.
prev-inside :
    (s : Lists) (p h : ℕ) (xs ys : List ℕ)
    → Linked s 0 p (xs ++ h ∷ ys)
    → (prev_of s h ≡ 0) ⊎ (has (prev_of s h) (xs ++ h ∷ ys) ≡ true)
prev-inside s p h [] ys l = inl l.3
prev-inside s p h (x ∷ xs) ys l =
    inr (ground (arith, prev-mem s 0 p x h xs ys l, has-append (prev_of s h) (x ∷ xs) (h ∷ ys)))

next-inside :
    (s : Lists) (p h : ℕ) (xs ys : List ℕ)
    → Linked s 0 p (xs ++ h ∷ ys)
    → (next_of s h ≡ 0) ⊎ (has (next_of s h) (xs ++ h ∷ ys) ≡ true)
next-inside s p h xs ys l = elim (next-mem s 0 p h xs ys l) [
  | inl e ↦ inl e
  | inr m ↦ inr (ground (arith, has-append (next_of s h) xs (h ∷ ys)))
]

-- A block of another list is no neighbour.
elsewhere :
    (zs all : List ℕ) (P a : ℕ)
    → (P ≡ 0) ⊎ (has P all ≡ true)
    → has a zs ≡ true
    → has a all ≡ false
    → ((a == P) && not (P == 0)) ≡ false
elsewhere zs all P a (inl e) m o = ground arith
elsewhere zs all P a (inr i) m o = ground (arith, apart all P a i o)

-- GC_remove_from_fl_at of a block on list `i` succeeds, keeps the lists sound and takes the block
-- off its list, and its own header is as before.
pub remove_from_fl_at-Sound :
    (blocks : ℕ → List ℕ) (h i : ℕ) (s : Lists) (hhdr : Header) (xs ys : List ℕ)
    → Sound blocks s
    → s.hdr h ≡ some hhdr
    → blocks i ≡ xs ++ h ∷ ys
    → (s' : Lists) × (remove_from_fl_at h i s ≡ some s')
      × Sound (update blocks i (xs ++ ys)) s'
      × (s'.hdr h ≡ some hhdr)
remove_from_fl_at-Sound blocks h i s hhdr xs ys w found at_i =
    let all = xs ++ h ∷ ys in
    let l : Linked s 0 (s.hblkfreelist i) all = rw at_i at (w.linked i) in
    let d : Distinct all = rw at_i at (w.distinct i) in
    let (s', run, r, l') = remove_from_fl_at-Removed h i s hhdr xs ys found l d in
    let before : (hhdr.hb_prev ≡ 0) ⊎ (has hhdr.hb_prev all ≡ true) =
      subst (λ t. (t ≡ 0) ⊎ (has t all ≡ true)) (ground arith)
        (prev-inside s (s.hblkfreelist i) h xs ys l) in
    let behind : (hhdr.hb_next ≡ 0) ⊎ (has hhdr.hb_next all ≡ true) =
      subst (λ t. (t ≡ 0) ⊎ (has t all ≡ true)) (ground arith)
        (next-inside s (s.hblkfreelist i) h xs ys l) in
    let away : (j a : ℕ) → (j == i) ≡ false → has a (blocks j) ≡ true → has a all ≡ false =
      λ j a n m. rw at_i at (w.disjoint j i a n m) in
    (
      s',
      run,
      Sound-update blocks i (xs ++ ys) s s' w l' (Distinct-without xs h ys d)
          (λ j n. r.elsewhere.heads j (ground arith))
          (λ j n a m.
            let p = elsewhere (blocks j) all hhdr.hb_prev a before m (away j a n m) in
            let q = elsewhere (blocks j) all hhdr.hb_next a behind m (away j a n m) in
            (rw p at (r.links.next a), rw q at (r.links.prev a), r.links.headers a))
          (λ j a n m. ground (arith, away j a n m, has-append a xs ys, has-append a xs (h ∷ ys))),
      r.itself,
    )
