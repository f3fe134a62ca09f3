-- ===== src/FreeLists/Tests.antt =====
-- The free list theorems at three blocks of one HBLK each.
use boehmgc.Base.{
  update, ℕ, ◌/◌, ◌≡◌, refl, Bool, true, false, some, none, arith, ◌==◌, [], ◌∷◌, if◌then◌else◌,
}
use boehmgc.Base.{Bool-cases, inl, inr, List}
use boehmgc.FreeLists.{
  hblksize, Header, Lists, hblk_fl_from_blocks, n_hblk_fls, add_to_fl, remove_from_fl_at,
  remove_from_fl, enough_large_bytes_left, get_first_part,
}
use boehmgc.FreeLists.Chain.{has, Linked}
use boehmgc.FreeLists.Add.{Elsewhere, Added, add_to_fl-Added}
use boehmgc.FreeLists.Remove.{Removed, remove_from_fl_at-Removed}
use boehmgc.FreeLists.AddRemove.{SameHeader, add-remove}
use boehmgc.FreeLists.Sound.{Sound, add_to_fl-Sound, remove_from_fl_at-Sound}
use boehmgc.FreeLists.FirstPart.{Taken, get_first_part-Taken}
use boehmgc.FreeLists.Enough.{on_lists, Enough, enough_large_bytes_left-Enough}

abbrev one_block : ℕ → ℕ → Bool → Header
one_block next prev free = record { hb_next = next; hb_prev = prev; hb_sz = 4096; free_blk = free }

-- Blocks 8192 and 16384 are on list 1, block 32768 is on none.
abbrev lists : Lists
lists = record {
  hblkfreelist = λ i. if i == 1 then 8192 else 0;
  free_bytes = λ i. if i == 1 then 8192 else 0;
  hdr = λ a.
      if a == 8192
      then some (one_block 16384 0 true)
      else if a == 16384
      then some (one_block 0 8192 true)
      else if a == 32768
      then some (one_block 0 0 false)
      else none;
}

add_to_fl-Added_example :
    (s' : Lists) × (add_to_fl 32768 lists ≡ some s')
    × Added 32768
        (one_block 0 0 false)
        (hblk_fl_from_blocks (4096 / hblksize))
        (8192 ∷ 16384 ∷ [])
        lists
        s'
unfolding hblk_fl_from_blocks
add_to_fl-Added_example =
    add_to_fl-Added 32768 lists (one_block 0 0 false) (8192 ∷ 16384 ∷ []) refl (omega arith) refl
      (refl, (refl, tt))
      (ground arith, omega arith, refl, refl, (refl, omega arith, refl, refl, refl))

remove_from_fl_at-Removed_example :
    (s' : Lists) × (remove_from_fl_at 16384 1 lists ≡ some s')
    × Removed 16384 (one_block 0 8192 true) 1 lists s'
    × Linked s' 0 (s'.hblkfreelist 1) (8192 ∷ [])
remove_from_fl_at-Removed_example =
    remove_from_fl_at-Removed 16384 1 lists (one_block 0 8192 true) (8192 ∷ []) [] refl
      (refl, omega arith, refl, refl, (refl, omega arith, refl, refl, refl)) (refl, (refl, tt))

add-remove_example :
    (s' s'' : Lists) × (add_to_fl 32768 lists ≡ some s')
    × (remove_from_fl 32768 s' ≡ some s'')
    × Linked s'' 0 (s''.hblkfreelist (hblk_fl_from_blocks (4096 / hblksize))) (8192 ∷ 16384 ∷ [])
    × (s''.free_bytes (hblk_fl_from_blocks (4096 / hblksize))
        ≡ lists.free_bytes (hblk_fl_from_blocks (4096 / hblksize)))
    × Elsewhere (hblk_fl_from_blocks (4096 / hblksize)) lists s''
    × ((a : ℕ) → (a == 32768) ≡ false → SameHeader lists s'' a)
    × (s''.hdr 32768
        ≡ some (record (one_block 0 0 false) {
          hb_next = lists.hblkfreelist (hblk_fl_from_blocks (4096 / hblksize));
          hb_prev = 0;
          free_blk = true;
        }))
unfolding hblk_fl_from_blocks
add-remove_example =
    add-remove 32768 lists (one_block 0 0 false) (8192 ∷ 16384 ∷ []) refl (omega arith) refl
      (refl, (refl, tt))
      (ground arith, omega arith, refl, refl, (refl, omega arith, refl, refl, refl)) (ground arith)
      (omega arith)

-- Lists 1 to 60 hold 4096 bytes each.
abbrev full : Lists
full = record lists { free_bytes = λ i. if i == 0 then 0 else 4096 }

enough_large_bytes_left-Enough_example :
    Enough full.free_bytes 40960 8192 n_hblk_fls (enough_large_bytes_left full 8192 40960)
unfolding on_lists
enough_large_bytes_left-Enough_example =
    enough_large_bytes_left-Enough full 8192 40960 (omega arith)

abbrev blocks : ℕ → List ℕ
blocks j = if j == 1 then 8192 ∷ 16384 ∷ [] else []

lists-Sound : Sound blocks lists
lists-Sound = record {
  linked = λ j. elim (Bool-cases (j == 1)) [
    | inl e ↦ rw e (refl, omega arith, refl, refl, (refl, omega arith, refl, refl, refl))
    | inr n ↦ rw n refl
  ];
  distinct = λ j. elim (Bool-cases (j == 1)) [ inl e ↦ rw e (refl, (refl, tt)) | inr n ↦ rw n tt ];
  disjoint = λ j k a n m. elim (Bool-cases (k == 1)) [
    | inr o ↦ rw o refl
    | inl e ↦ let f : (j == 1) ≡ false = ground arith in ground (arith, rw f at m)
  ];
}

off : (a : ℕ) → (a == 8192) ≡ false → (a == 16384) ≡ false → (j : ℕ) → has a (blocks j) ≡ false
off a p q j = elim (Bool-cases (j == 1)) [ inl e ↦ rw e (ground arith) | inr n ↦ rw n refl ]

add_to_fl-Sound_example :
    (s' : Lists) × (add_to_fl 32768 lists ≡ some s')
    × Sound
        (update blocks
          (hblk_fl_from_blocks (4096 / hblksize))
          (32768 ∷ blocks (hblk_fl_from_blocks (4096 / hblksize))))
        s'
add_to_fl-Sound_example =
    add_to_fl-Sound blocks 32768 lists (one_block 0 0 false) lists-Sound refl (omega arith)
      (off 32768 refl refl)

remove_from_fl_at-Sound_example :
    (s' : Lists) × (remove_from_fl_at 8192 1 lists ≡ some s')
    × Sound (update blocks 1 (16384 ∷ [])) s'
    × (s'.hdr 8192 ≡ some (one_block 16384 0 true))
remove_from_fl_at-Sound_example =
    remove_from_fl_at-Sound blocks 8192 1 lists (one_block 16384 0 true) [] (16384 ∷ []) lists-Sound
      refl refl

-- A block of three HBLKs, on list 3.
abbrev three : Header
three = record { hb_next = 0; hb_prev = 0; hb_sz = 12288; free_blk = true }

abbrev large : Lists
large = record {
  hblkfreelist = λ i. if i == 3 then 65536 else 0;
  free_bytes = λ i. if i == 3 then 12288 else 0;
  hdr = λ a. if a == 65536 then some three else none;
}

abbrev large_blocks : ℕ → List ℕ
large_blocks j = if j == 3 then 65536 ∷ [] else []

large-Sound : Sound large_blocks large
large-Sound = record {
  linked = λ j. elim (Bool-cases (j == 3)) [
    | inl e ↦ rw e (refl, omega arith, refl, refl, refl)
    | inr n ↦ rw n refl
  ];
  distinct = λ j. elim (Bool-cases (j == 3)) [ inl e ↦ rw e (refl, tt) | inr n ↦ rw n tt ];
  disjoint = λ j k a n m. elim (Bool-cases (k == 3)) [
    | inr o ↦ rw o refl
    | inl e ↦ let f : (j == 3) ≡ false = ground arith in ground (arith, rw f at m)
  ];
}

rest_off : (j : ℕ) → has 69632 (large_blocks j) ≡ false
rest_off j = elim (Bool-cases (j == 3)) [ inl e ↦ rw e refl | inr n ↦ rw n refl ]

get_first_part-Taken_example :
    (p : ℕ) × (s' : Lists) × (get_first_part (some (one_block 0 0 false)) 65536 4096 3 large
      ≡ some (p, s'))
    × Taken large_blocks [] 65536 3 12288 4096 (some (one_block 0 0 false)) p s'
get_first_part-Taken_example =
    get_first_part-Taken (some (one_block 0 0 false)) large_blocks 65536 4096 3 large three [] []
      large-Sound refl refl (omega arith) rest_off
