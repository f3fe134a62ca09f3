-- ===== src/FreeLists/Add.antt =====
-- GC_add_to_fl puts a block at the head of the list of its size.
use boehmgc.Base.{
  ◌&&◌, not, if◌then◌else◌, false, update, ℕ, ◌+◌, ◌/◌, ◌%◌, ◌^◌, ◌≡◌, ◌≢◌, refl, true, false, some,
  List, [], ◌∷◌, arith, ◌==◌, inl, inr, Bool-cases, Option-cases, subst, sym, ◌∙◌, ==_iff,
  true≢false,
}
use boehmgc.FreeLists.{hblksize, Header, Lists, modify, add_to_fl, hblk_fl_from_blocks}
use boehmgc.FreeLists.Chain.{
  next_of, prev_of, has_header, size_of, free_of, has, Distinct, Linked, Linked-frame,
}

-- What an operation on list `i` leaves of the other lists.
pub record Elsewhere (i : ℕ) (s s' : Lists) : Type 0 where
  pub heads : (j : ℕ) → j ≢ i → s'.hblkfreelist j ≡ s.hblkfreelist j
  pub bytes : (j : ℕ) → j ≢ i → s'.free_bytes j ≡ s.free_bytes j

-- The headers of the blocks but `h`, of which only the one of `x` gets a link, back to `h`.
pub record Pushed (h x : ℕ) (s s' : Lists) : Type 0 where
  pub next : (a : ℕ) → (a == h) ≡ false → next_of s' a ≡ next_of s a
  pub prev :
      (a : ℕ)
      → (a == h) ≡ false
      → prev_of s' a ≡ (if (a == x) && not (x == 0) then h else prev_of s a)
  pub headers : (a : ℕ) → (a == h) ≡ false → has_header s' a ≡ has_header s a
  pub sizes : (a : ℕ) → (a == h) ≡ false → size_of s' a ≡ size_of s a
  pub flags : (a : ℕ) → (a == h) ≡ false → free_of s' a ≡ free_of s a

pub record Added (h : ℕ) (hhdr : Header) (i : ℕ) (xs : List ℕ) (s s' : Lists) : Type 0 where
  pub linked : Linked s' 0 (s'.hblkfreelist i) (h ∷ xs)
  pub marked_free :
      s'.hdr h ≡ some (record hhdr { hb_next = s.hblkfreelist i; hb_prev = 0; free_blk = true })
  pub bytes : s'.free_bytes i ≡ (s.free_bytes i + hhdr.hb_sz) % 2 ^ 64
  pub elsewhere : Elsewhere i s s'
  pub others : (a : ℕ) → a ≢ h → has a xs ≡ false → s'.hdr a ≡ s.hdr a
  pub pushed : Pushed h (s.hblkfreelist i) s s'

-- A member differs from what is no member.
pub apart : (xs : List ℕ) (a b : ℕ) → has a xs ≡ true → has b xs ≡ false → (a == b) ≡ false
apart xs a b i o = elim (Bool-cases (a == b)) [
  | inl e ↦ absurd (true≢false (sym i ∙ subst (λ t. has t xs ≡ false) (sym ((==_iff a b).0 e)) o))
  | inr n ↦ n
]

module _ (h : ℕ) (s : Lists) (hhdr : Header) (found : s.hdr h ≡ some hhdr) (real : h ≢ 0) where
  index : ℕ
  index = hblk_fl_from_blocks (hhdr.hb_sz / hblksize)

  first : Header
  first = record hhdr { hb_next = s.hblkfreelist index; hb_prev = 0 }

  s₁ : Lists
  s₁ = record {
    hblkfreelist = update s.hblkfreelist index h;
    free_bytes = update s.free_bytes index ((s.free_bytes index + hhdr.hb_sz) % 2 ^ 64);
    hdr = update s.hdr h (some first);
  }

  flagged : Lists → Lists
  flagged t = record t { hdr = update t.hdr h (some (record first { free_blk = true })) }

  -- The list was empty.
  add-empty :
      s.hblkfreelist index ≡ 0
      → (s' : Lists) × (add_to_fl h s ≡ some s') × Added h hhdr index [] s s'
  unfolding add_to_fl modify s₁ flagged first index
  add-empty empty = (
    flagged s₁,
    rw (found, empty) (ground arith),
    record {
      linked = (ground arith, real, ground arith, ground arith, ground arith);
      marked_free = ground arith;
      bytes = ground arith;
      elsewhere = record { heads = λ j n. ground arith; bytes = λ j n. ground arith };
      others = λ a n o. ground arith;
      pushed = record {
        next = λ a n. ground arith;
        prev = λ a n. ground arith;
        headers = λ a n. ground arith;
        sizes = λ a n. ground arith;
        flags = λ a n. ground arith;
      };
    },
  )

  module _ (x : ℕ) (xhdr : Header) (xs : List ℕ) (head : s.hblkfreelist index ≡ x)
      (there : s.hdr x ≡ some xhdr) (nonnull : x ≢ 0) (other : (x == h) ≡ false) where
    s₂ : Lists
    s₂ = record s₁ { hdr = update s₁.hdr x (some (record xhdr { hb_prev = h })) }

    -- What the three writes leave in the headers.
    hdr-flagged_h :
        (flagged s₂).hdr h
        ≡ some (record hhdr { hb_next = s.hblkfreelist index; hb_prev = 0; free_blk = true })
    unfolding flagged s₂ s₁ first
    hdr-flagged_h = ground arith

    hdr-flagged_x : (flagged s₂).hdr x ≡ some (record xhdr { hb_prev = h })
    unfolding flagged s₂ s₁ first
    hdr-flagged_x = ground arith

    hdr-flagged_other : (a : ℕ) → (a == h) ≡ false → (a == x) ≡ false → (flagged s₂).hdr a ≡ s.hdr a
    unfolding flagged s₂ s₁ first
    hdr-flagged_other a n m = ground arith

    add-runs : add_to_fl h s ≡ some (flagged s₂)
    unfolding add_to_fl modify flagged s₂ s₁ first index
    add-runs = rw (found, head) (ground arith)

    Linked-add :
        Linked s x (next_of s x) xs
        → has h xs ≡ false
        → has x xs ≡ false
        → Linked (flagged s₂) 0 h (h ∷ x ∷ xs)
    Linked-add l out once =
        let n : next_of (flagged s₂) x ≡ next_of s x = ground (arith, hdr-flagged_x) in
        (
          refl,
          real,
          ground (arith, hdr-flagged_h),
          ground (arith, hdr-flagged_h),
          (
            ground (arith, hdr-flagged_h),
            nonnull,
            ground (arith, hdr-flagged_x),
            ground (arith, hdr-flagged_x),
            rw n (
                Linked-frame s (flagged s₂) x (next_of s x) xs
                  (λ a i.
                    let same = hdr-flagged_other a (apart xs a h i out) (apart xs a x i once) in
                    (ground arith, ground arith, ground arith))
                  l),
          ),
        )

    add-cons :
        Linked s x (next_of s x) xs
        → has h xs ≡ false
        → has x xs ≡ false
        → Added h hhdr index (x ∷ xs) s (flagged s₂)
    unfolding flagged s₂ s₁
    add-cons l out once = record {
      linked = ground (arith, Linked-add l out once);
      marked_free = hdr-flagged_h;
      bytes = ground arith;
      elsewhere = record { heads = λ j n. ground arith; bytes = λ j n. ground arith };
      others = λ a n o. hdr-flagged_other a (ground arith) (ground arith);
      pushed = record {
        next = λ a n. ground arith;
        prev = λ a n. ground arith;
        headers = λ a n. ground arith;
        sizes = λ a n. ground arith;
        flags = λ a n. ground arith;
      };
    }

-- GC_add_to_fl of a block with a header, that is not NULL and not on the list of its size, which is
-- doubly linked and has no block twice, succeeds. The block is then the head of the list of
-- its size, marked free, in front of the blocks that were there, doubly linked again; the bytes of
-- that list grow by its size; no other list and no block outside this one changes.
pub add_to_fl-Added :
    (h : ℕ) (s : Lists) (hhdr : Header) (xs : List ℕ)
    → s.hdr h ≡ some hhdr
    → h ≢ 0
    → has h xs ≡ false
    → Distinct xs
    → Linked s 0 (s.hblkfreelist (hblk_fl_from_blocks (hhdr.hb_sz / hblksize))) xs
    → (s' : Lists) × (add_to_fl h s ≡ some s')
      × Added h hhdr (hblk_fl_from_blocks (hhdr.hb_sz / hblksize)) xs s s'
unfolding index
add_to_fl-Added h s hhdr [] found real out once l = add-empty h s hhdr found real l
add_to_fl-Added h s hhdr (x ∷ xs) found real out once l = elim (Option-cases (s.hdr x)) [
  | inl gone ↦ absurd (true≢false (ground arith))
  | inr (xhdr, there) ↦
      let other : (x == h) ≡ false = ground arith in
      (
        flagged h s hhdr found real (s₂ h s hhdr found real x xhdr xs l.0 there l.1 other),
        add-runs h s hhdr found real x xhdr xs l.0 there l.1 other,
        add-cons h s hhdr found real x xhdr xs l.0 there l.1 other l.4 (ground arith) once.0,
      )
]
