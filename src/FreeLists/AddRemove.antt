-- ===== src/FreeLists/AddRemove.antt =====
-- GC_add_to_fl and then GC_remove_from_fl of the same block.
use boehmgc.Base.{
  ℕ, ◌+◌, ◌-◌, ◌/◌, ◌%◌, ◌^◌, ◌<◌, ◌≡◌, ◌≢◌, false, some, List, [], arith, ◌∙◌, sym, true, ◌==◌,
  ◌&&◌, not, Bool-cases, inl, inr, ◌∷◌,
}
use boehmgc.FreeLists.{hblksize, Header, Lists, hblk_fl_from_blocks, add_to_fl, remove_from_fl}
use boehmgc.FreeLists.Chain.{has_header, next_of, prev_of, size_of, free_of, has, Distinct, Linked}
use boehmgc.FreeLists.Add.{Elsewhere, Pushed, add_to_fl-Added}
use boehmgc.FreeLists.Unlink.{Unlinked}
use boehmgc.FreeLists.Remove.{remove_from_fl_at-Removed}

there_and_back :
    (b sz : ℕ) → b < 2 ^ 64 → sz < 2 ^ 64 → ((b + sz) % 2 ^ 64 + 2 ^ 64 - sz) % 2 ^ 64 ≡ b
there_and_back b sz hb hs = omega arith

-- A block has the same header in both states.
pub record SameHeader (s s' : Lists) (a : ℕ) : Type 0 where
  pub present : has_header s' a ≡ has_header s a
  pub next : next_of s' a ≡ next_of s a
  pub prev : prev_of s' a ≡ prev_of s a
  pub size : size_of s' a ≡ size_of s a
  pub free : free_of s' a ≡ free_of s a

-- The first block of a list has no block before it.
first_prev :
    (s : Lists) (p a : ℕ) (xs : List ℕ)
    → Linked s 0 p xs
    → ((a == p) && not (p == 0)) ≡ true
    → prev_of s a ≡ 0
first_prev s p a [] l e = ground arith
first_prev s p a (x ∷ xs) l e = ground arith

back :
    (h : ℕ) (s s' s'' : Lists) (N : ℕ) (xs : List ℕ)
    → Linked s 0 N xs
    → Pushed h N s s'
    → Unlinked h 0 N s' s''
    → (a : ℕ) → (a == h) ≡ false
    → SameHeader s s'' a
back h s s' s'' N xs l p u a n = record {
  present = u.headers a ∙ p.headers a n;
  next = ground (arith, u.next a, p.next a n);
  prev = elim (Bool-cases ((a == N) && not (N == 0))) [
    | inl e ↦ rw e at (u.prev a) ∙ sym (first_prev s N a xs l e)
    | inr e ↦ rw e at (u.prev a) ∙ rw e at (p.prev a n)
  ];
  size = u.sizes a ∙ p.sizes a n;
  free = u.flags a ∙ p.flags a n;
}

-- A block with a header that is not NULL is put by GC_add_to_fl on the doubly linked list of its
-- size, on which it was not, and taken off again by GC_remove_from_fl. Both succeed. With sizes
-- below 2 ^ 64, that list then runs through the blocks and has the bytes that it had before, the
-- heads and the bytes of the other lists are as before, and so is the header of every other block,
-- on whichever list it is. The block itself is left marked free, with the links that it had on the
-- list.
pub add-remove :
    (h : ℕ) (s : Lists) (hhdr : Header) (xs : List ℕ)
    → s.hdr h ≡ some hhdr
    → h ≢ 0
    → has h xs ≡ false
    → Distinct xs
    → Linked s 0 (s.hblkfreelist (hblk_fl_from_blocks (hhdr.hb_sz / hblksize))) xs
    → s.free_bytes (hblk_fl_from_blocks (hhdr.hb_sz / hblksize)) < 2 ^ 64
    → hhdr.hb_sz < 2 ^ 64
    → (s' s'' : Lists) × (add_to_fl h s ≡ some s')
      × (remove_from_fl h s' ≡ some s'')
      × Linked s'' 0 (s''.hblkfreelist (hblk_fl_from_blocks (hhdr.hb_sz / hblksize))) xs
      × (s''.free_bytes (hblk_fl_from_blocks (hhdr.hb_sz / hblksize))
          ≡ s.free_bytes (hblk_fl_from_blocks (hhdr.hb_sz / hblksize)))
      × Elsewhere (hblk_fl_from_blocks (hhdr.hb_sz / hblksize)) s s''
      × ((a : ℕ) → (a == h) ≡ false → SameHeader s s'' a)
      × (s''.hdr h
          ≡ some (record hhdr {
            hb_next = s.hblkfreelist (hblk_fl_from_blocks (hhdr.hb_sz / hblksize));
            hb_prev = 0;
            free_blk = true;
          }))
unfolding remove_from_fl
add-remove h s hhdr xs found real out once l room wide =
    let i = hblk_fl_from_blocks (hhdr.hb_sz / hblksize) in
    let (s', run, a) = add_to_fl-Added h s hhdr xs found real out once l in
    let (s'', run', r, l') =
      remove_from_fl_at-Removed h i s'
        (record hhdr { hb_next = s.hblkfreelist i; hb_prev = 0; free_blk = true }) [] xs
        a.marked_free a.linked (out, once) in
    (
      s',
      s'',
      run,
      rw (a.marked_free) run',
      l',
      r.bytes ∙ rw (a.bytes) (there_and_back (s.free_bytes i) hhdr.hb_sz room wide),
      record {
        heads = λ j n. r.elsewhere.heads j n ∙ a.elsewhere.heads j n;
        bytes = λ j n. r.elsewhere.bytes j n ∙ a.elsewhere.bytes j n;
      },
      back h s s' s'' (s.hblkfreelist i) xs l a.pushed r.links,
      r.itself,
    )
