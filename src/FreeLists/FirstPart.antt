-- ===== src/FreeLists/FirstPart.antt =====
-- GC_get_first_part takes the first bytes of a free block.
use boehmgc.Base.{
  update, ℕ, ◌+◌, ◌-◌, ◌/◌, ◌≡◌, ◌≢◌, false, Option, some, none, List, ◌∷◌, ◌++◌, arith, ◌==◌, inl,
  inr, Bool-cases, ==_iff,
}
use boehmgc.FreeLists.{hblksize, Header, Lists, hblk_fl_from_blocks, get_first_part}
use boehmgc.FreeLists.Chain.{has, Linked-frame, has-append}
use boehmgc.FreeLists.Add.{apart}
use boehmgc.FreeLists.Sound.{Sound, add_to_fl-Sound, remove_from_fl_at-Sound}

-- A header for a block that is on no list may be written.
Sound-header :
    (blocks : ℕ → List ℕ) (s : Lists) (a : ℕ) (v : Option Header)
    → ((j : ℕ) → has a (blocks j) ≡ false)
    → Sound blocks s
    → Sound blocks (record s { hdr = update s.hdr a v })
Sound-header blocks s a v out w = record {
  linked = λ j.
      Linked-frame s (record s { hdr = update s.hdr a v }) 0 (s.hblkfreelist j) (blocks j)
        (λ b m.
          let o = apart (blocks j) b a m (out j) in (ground arith, ground arith, ground arith))
        (w.linked j);
  distinct = w.distinct;
  disjoint = w.disjoint;
}

-- The list that the remainder goes on.
abbrev pub rest_index : ℕ → ℕ → ℕ
rest_index sz bytes = hblk_fl_from_blocks ((sz - bytes) / hblksize)

-- The outcome for a block of `sz` bytes on list `i`, where `left` are the other blocks of that list:
-- the block is taken whole, its remainder is lost for want of a header, or put on its own list.
pub data Taken (blocks : ℕ → List ℕ) (left : List ℕ) (h i sz bytes : ℕ)
    : Option Header → ℕ → Lists → Type 0 where
  whole :
      {fresh : Option Header} {s : Lists}
      → sz ≡ bytes
      → Sound (update blocks i left) s
      → Taken blocks left h i sz bytes fresh h s
  dropped :
      {s : Lists}
      → sz ≢ bytes
      → Sound (update blocks i left) s
      → Taken blocks left h i sz bytes none 0 s
  split :
      {r : Header} {s : Lists}
      → sz ≢ bytes
      → Sound
          (update
            (update blocks i left)
            (rest_index sz bytes)
            ((h + bytes) ∷ update blocks i left (rest_index sz bytes)))
          s
      → Taken blocks left h i sz bytes (some r) h s

-- What is on no list is on none when another block is taken off its list.
still_out :
    (blocks : ℕ → List ℕ) (i h a : ℕ) (xs ys : List ℕ)
    → blocks i ≡ xs ++ h ∷ ys
    → ((j : ℕ) → has a (blocks j) ≡ false)
    → (j : ℕ) → has a (update blocks i (xs ++ ys) j) ≡ false
still_out blocks i h a xs ys at_i out j = elim (Bool-cases (j == i)) [
  | inl e ↦
      let o : has a (xs ++ h ∷ ys) ≡ false = rw at_i at (out i) in
      rw e (ground (arith, has-append a xs ys, has-append a xs (h ∷ ys)))
  | inr n ↦ rw n (out j)
]

-- GC_get_first_part of a block on list `i`, whose remainder starts at a block that is not NULL and on
-- no list, ends on each branch and leaves all lists sound. The block is off its list; unless its size
-- is the one asked for, the remainder is the first block on the list of its size, or on none if no
-- header can be had for it, and then the result is NULL.
pub get_first_part-Taken :
    (fresh : Option Header) (blocks : ℕ → List ℕ) (h bytes i : ℕ) (s : Lists) (hhdr : Header)
    (xs ys : List ℕ)
    → Sound blocks s
    → s.hdr h ≡ some hhdr
    → blocks i ≡ xs ++ h ∷ ys
    → h + bytes ≢ 0
    → ((j : ℕ) → has (h + bytes) (blocks j) ≡ false)
    → (p : ℕ) × (s' : Lists) × (get_first_part fresh h bytes i s ≡ some (p, s'))
      × Taken blocks (xs ++ ys) h i hhdr.hb_sz bytes fresh p s'
unfolding get_first_part
get_first_part-Taken none blocks h bytes i s hhdr xs ys w found at_i real out =
    let (s₁, run, w₁, _) = remove_from_fl_at-Sound blocks h i s hhdr xs ys w found at_i in
    elim (Bool-cases (hhdr.hb_sz == bytes)) [
      | inl e ↦ (h, s₁, rw (found, run, e), whole ((==_iff hhdr.hb_sz bytes).0 e) w₁)
      | inr n ↦ (0, s₁, rw (found, run, n), dropped (ground arith) w₁)
    ]
get_first_part-Taken (some r) blocks h bytes i s hhdr xs ys w found at_i real out =
    let (s₁, run, w₁, _) = remove_from_fl_at-Sound blocks h i s hhdr xs ys w found at_i in
    let blocks₁ = update blocks i (xs ++ ys) in
    let out₁ = still_out blocks i h (h + bytes) xs ys at_i out in
    let rest = record r { hb_sz = hhdr.hb_sz - bytes; free_blk = false } in
    let s₂ : Lists = record s₁ { hdr = update s₁.hdr (h + bytes) (some rest) } in
    let w₂ = Sound-header blocks₁ s₁ (h + bytes) (some rest) out₁ w₁ in
    let (s₃, run', w₃) = add_to_fl-Sound blocks₁ (h + bytes) s₂ rest w₂ (ground arith) real out₁ in
    elim (Bool-cases (hhdr.hb_sz == bytes)) [
      | inl e ↦ (h, s₁, rw (found, run, e), whole ((==_iff hhdr.hb_sz bytes).0 e) w₁)
      | inr n ↦ (h, s₃, rw (found, run, n, run'), split (ground arith) w₃)
    ]
