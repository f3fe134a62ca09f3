-- ===== src/FreeLists/Remove.antt =====
-- GC_remove_from_fl_at takes a block out of its list, wherever it stands there.
use boehmgc.Base.{
  update, ℕ, ◌+◌, ◌-◌, ◌%◌, ◌^◌, ◌≡◌, ◌≢◌, refl, true, false, some, List, [], ◌∷◌, ◌++◌, arith,
  ◌==◌, inl, inr, if◌then◌else◌, ◌⊎◌, subst,
}
use boehmgc.FreeLists.{Header, Lists, modify, remove_from_fl_at}
use boehmgc.FreeLists.Chain.{
  next_of, prev_of, has, Distinct, Linked, has-append, prev-mem, next-mem, not-mem-zero, Linked-mem,
  Distinct-middle, Distinct-sides,
}
use boehmgc.FreeLists.Add.{Elsewhere, apart}
use boehmgc.FreeLists.Unlink.{Unlinked, unlink_head, unlink_later}

-- What GC_remove_from_fl_at leaves.
pub record Removed (h : ℕ) (hhdr : Header) (i : ℕ) (s s' : Lists) : Type 0 where
  pub links : Unlinked h hhdr.hb_prev hhdr.hb_next s s'
  pub head : s'.hblkfreelist i ≡ (if hhdr.hb_prev == 0 then hhdr.hb_next else s.hblkfreelist i)
  pub bytes : s'.free_bytes i ≡ (s.free_bytes i + 2 ^ 64 - hhdr.hb_sz) % 2 ^ 64
  pub elsewhere : Elsewhere i s s'
  pub itself : s'.hdr h ≡ some hhdr

-- A neighbour is NULL, or another block with a header.
abbrev IsNeighbour : Lists → ℕ → ℕ → Type 0
IsNeighbour s h a = (a ≡ 0) ⊎ ((b : Header) × (s.hdr a ≡ some b) × ((a == h) ≡ false) × (a ≢ 0))

module _ (h i : ℕ) (s : Lists) (hhdr : Header) (found : s.hdr h ≡ some hhdr) where
  less : ℕ → ℕ
  less = update s.free_bytes i ((s.free_bytes i + 2 ^ 64 - hhdr.hb_sz) % 2 ^ 64)

  remove_alone :
      hhdr.hb_prev ≡ 0
      → hhdr.hb_next ≡ 0
      → (s' : Lists) × (remove_from_fl_at h i s ≡ some s') × Removed h hhdr i s s'
  unfolding remove_from_fl_at modify less
  remove_alone p n = (
    record s { hblkfreelist = update s.hblkfreelist i hhdr.hb_next; free_bytes = less },
    ground arith,
    record {
      links = record {
        next = λ a. ground arith;
        prev = λ a. ground arith;
        headers = λ a. refl;
        sizes = λ a. refl;
        flags = λ a. refl;
      };
      head = ground arith;
      bytes = ground arith;
      elsewhere = record { heads = λ j o. ground arith; bytes = λ j o. ground arith };
      itself = found;
    },
  )

  remove_first :
      (nhdr : Header)
      → hhdr.hb_prev ≡ 0
      → s.hdr hhdr.hb_next ≡ some nhdr
      → (hhdr.hb_next == h) ≡ false
      → hhdr.hb_next ≢ 0
      → (s' : Lists) × (remove_from_fl_at h i s ≡ some s') × Removed h hhdr i s s'
  unfolding remove_from_fl_at modify less
  remove_first nhdr p n o nn = (
    record {
      hblkfreelist = update s.hblkfreelist i hhdr.hb_next;
      free_bytes = less;
      hdr = update s.hdr hhdr.hb_next (some (record nhdr { hb_prev = hhdr.hb_prev }));
    },
    ground arith,
    record {
      links = record {
        next = λ a. ground arith;
        prev = λ a. ground arith;
        headers = λ a. ground arith;
        sizes = λ a. ground arith;
        flags = λ a. ground arith;
      };
      head = ground arith;
      bytes = ground arith;
      elsewhere = record { heads = λ j o. ground arith; bytes = λ j o. ground arith };
      itself = ground arith;
    },
  )

  remove_last :
      (phdr : Header)
      → hhdr.hb_next ≡ 0
      → s.hdr hhdr.hb_prev ≡ some phdr
      → (hhdr.hb_prev == h) ≡ false
      → hhdr.hb_prev ≢ 0
      → (s' : Lists) × (remove_from_fl_at h i s ≡ some s') × Removed h hhdr i s s'
  unfolding remove_from_fl_at modify less
  remove_last phdr n p o pn =
      let away : (h == hhdr.hb_prev) ≡ false = ground arith in
      (
        record s {
          free_bytes = less;
          hdr = update s.hdr hhdr.hb_prev (some (record phdr { hb_next = hhdr.hb_next }));
        },
        ground arith,
        record {
          links = record {
            next = λ a. ground arith;
            prev = λ a. ground arith;
            headers = λ a. ground arith;
            sizes = λ a. ground arith;
            flags = λ a. ground arith;
          };
          head = ground arith;
          bytes = ground arith;
          elsewhere = record { heads = λ j o. refl; bytes = λ j o. ground arith };
          itself = ground arith;
        },
      )

  remove_middle :
      (phdr nhdr : Header)
      → s.hdr hhdr.hb_prev ≡ some phdr
      → (hhdr.hb_prev == h) ≡ false
      → hhdr.hb_prev ≢ 0
      → s.hdr hhdr.hb_next ≡ some nhdr
      → (hhdr.hb_next == h) ≡ false
      → hhdr.hb_next ≢ 0
      → (hhdr.hb_next == hhdr.hb_prev) ≡ false
      → (s' : Lists) × (remove_from_fl_at h i s ≡ some s') × Removed h hhdr i s s'
  unfolding remove_from_fl_at modify less
  remove_middle phdr nhdr p op pn n on nn two = (
    record s {
      free_bytes = less;
      hdr =
          update (update s.hdr hhdr.hb_prev (some (record phdr { hb_next = hhdr.hb_next })))
            hhdr.hb_next (some (record nhdr { hb_prev = hhdr.hb_prev }));
    },
    ground arith,
    record {
      links = record {
        next = λ a. ground arith;
        prev = λ a. ground arith;
        headers = λ a. ground arith;
        sizes = λ a. ground arith;
        flags = λ a. ground arith;
      };
      head = ground arith;
      bytes = ground arith;
      elsewhere = record { heads = λ j o. refl; bytes = λ j o. ground arith };
      itself = ground arith;
    },
  )

module _ (h i : ℕ) (s : Lists) (hhdr : Header) (ys : List ℕ) (found : s.hdr h ≡ some hhdr) where
  -- The first block of the list.
  remove-head :
      Linked s 0 (s.hblkfreelist i) (h ∷ ys)
      → Distinct (h ∷ ys)
      → (s' : Lists) × (remove_from_fl_at h i s ≡ some s') × Removed h hhdr i s s'
  remove-head l d =
      let p : hhdr.hb_prev ≡ 0 = ground arith in
      elim (next-mem s 0 (s.hblkfreelist i) h [] ys l) [
        | inl n ↦ remove_alone h i s hhdr found p (ground arith)
        | inr m ↦
            let e : next_of s h ≡ hhdr.hb_next = ground arith in
            let (nhdr, there, nonnull) = Linked-mem s h (next_of s h) ys (next_of s h) l.4 m in
            remove_first h i s hhdr found nhdr p (rw e at there)
              (rw e at (apart ys (next_of s h) h m d.0)) (rw e at nonnull)
      ]

  -- A block with others in front of it.
  remove-behind :
      (x : ℕ) (xs : List ℕ)
      → Linked s 0 (s.hblkfreelist i) (x ∷ xs ++ h ∷ ys)
      → Distinct (x ∷ xs ++ h ∷ ys)
      → (s' : Lists) × (remove_from_fl_at h i s ≡ some s') × Removed h hhdr i s s'
  remove-behind x xs l d =
      let all = x ∷ xs ++ h ∷ ys in
      let P = hhdr.hb_prev in
      let N = hhdr.hb_next in
      let eP : prev_of s h ≡ P = ground arith in
      let eN : next_of s h ≡ N = ground arith in
      let before : has P (x ∷ xs) ≡ true =
        subst (λ t. has t (x ∷ xs) ≡ true) eP (prev-mem s 0 (s.hblkfreelist i) x h xs ys l) in
      let (out, out') = Distinct-middle (x ∷ xs) h ys d in
      let (phdr, p, pn) =
        Linked-mem s 0 (s.hblkfreelist i) all P l
          (ground (arith, has-append P (x ∷ xs) (h ∷ ys))) in
      let op = apart (x ∷ xs) P h before out in
      elim (subst (λ t. (t ≡ 0) ⊎ (has t ys ≡ true)) eN
        (next-mem s 0 (s.hblkfreelist i) h (x ∷ xs) ys l)) [
          | inl n ↦ remove_last h i s hhdr found phdr n p op pn
          | inr m ↦
              let (nhdr, there, nn) =
                Linked-mem s 0 (s.hblkfreelist i) all N l
                  (ground (arith, has-append N (x ∷ xs) (h ∷ ys))) in
              remove_middle h i s hhdr found phdr nhdr p op pn there (apart ys N h m out') nn
                (apart ys N P m (Distinct-sides (x ∷ xs) h ys P d before))
        ]

-- GC_remove_from_fl_at of a block that stands anywhere on list `i`, which is doubly linked and has
-- no block twice, succeeds. The list is then the
-- same without the block, doubly linked, its bytes are less by the block's size, and no other list
-- changes.
pub remove_from_fl_at-Removed :
    (h i : ℕ) (s : Lists) (hhdr : Header) (xs ys : List ℕ)
    → s.hdr h ≡ some hhdr
    → Linked s 0 (s.hblkfreelist i) (xs ++ h ∷ ys)
    → Distinct (xs ++ h ∷ ys)
    → (s' : Lists) × (remove_from_fl_at h i s ≡ some s')
      × Removed h hhdr i s s'
      × Linked s' 0 (s'.hblkfreelist i) (xs ++ ys)
remove_from_fl_at-Removed h i s hhdr [] ys found l d =
    let (s', run, r) = remove-head h i s hhdr ys found l d in
    let p : hhdr.hb_prev ≡ 0 = ground arith in
    let isnull : (hhdr.hb_prev == 0) ≡ true = ground arith in
    let head : s'.hblkfreelist i ≡ hhdr.hb_next = rw isnull at r.head in
    let out : has hhdr.hb_prev ys ≡ false = rw p (not-mem-zero s h (next_of s h) ys l.4) in
    let rest : Linked s' hhdr.hb_prev hhdr.hb_next ys =
      unlink_head s s' h hhdr.hb_prev hhdr.hb_next r.links (ground arith) (ground arith) 0 ys
        (refl, l.1, l.2, l.3, l.4) d out in
    (s', run, r, rw head (subst (λ q. Linked s' q hhdr.hb_next ys) p rest))
remove_from_fl_at-Removed h i s hhdr (x ∷ xs) ys found l d =
    let (s', run, r) = remove-behind h i s hhdr ys found x xs l d in
    let eP : prev_of s h ≡ hhdr.hb_prev = ground arith in
    let eN : next_of s h ≡ hhdr.hb_next = ground arith in
    let before : has hhdr.hb_prev (x ∷ xs) ≡ true =
      subst (λ t. has t (x ∷ xs) ≡ true) eP (prev-mem s 0 (s.hblkfreelist i) x h xs ys l) in
    let (_, _, nonnull) =
      Linked-mem s 0 (s.hblkfreelist i) (x ∷ xs ++ h ∷ ys) hhdr.hb_prev l
        (ground (arith, has-append hhdr.hb_prev (x ∷ xs) (h ∷ ys))) in
    let notnull : (hhdr.hb_prev == 0) ≡ false = ground arith in
    let head : s'.hblkfreelist i ≡ s.hblkfreelist i = rw notnull at r.head in
    (
      s',
      run,
      r,
      rw head (
          unlink_later s s' h hhdr.hb_prev hhdr.hb_next r.links eP eN 0 (s.hblkfreelist i) x xs ys l
            d),
    )
