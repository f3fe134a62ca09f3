-- ===== src/ObjMap/Displacements.antt =====
-- GC_initialize_offsets and GC_register_displacement_inner together.
use boehmgc.Base.{
  ℕ, ◌%◌, ◌≤◌, ◌<◌, ◌≡◌, ◌≢◌, ◌⊎◌, inl, inr, true, false, none, some, arith, Bool-cases, ◌==◌, leb,
  if◌then◌else◌, refl,
}
use boehmgc.ObjMap.{valid_offset_sz, Offsets, register_displacement_inner, initialize_offsets}

-- The remainder of each valid displacement in its word is noted.
pub Noted : Offsets → Type 0
Noted s =
    (o : ℕ) → o < valid_offset_sz → s.valid_offsets o ≡ true → s.modws_valid_offsets (o % 8) ≡ true

-- GC_initialize_offsets without interior pointers leaves no displacement valid, and so each noted.
pub initialize_offsets-Noted : (s : Offsets) → Noted (initialize_offsets false s)
unfolding initialize_offsets Noted
initialize_offsets-Noted s o l v = ground arith

-- GC_register_displacement_inner aborts exactly for a displacement outside a block. Otherwise the
-- displacement is valid behind it, no other one changes, and each valid one is still noted.
pub register_displacement_inner-Noted :
    (offset : ℕ) (s : Offsets)
    → Noted s
    → ((register_displacement_inner offset s ≡ none) × (valid_offset_sz ≤ offset))
      ⊎ ((s' : Offsets) × (register_displacement_inner offset s ≡ some s')
          × (offset < valid_offset_sz)
          × (s'.valid_offsets offset ≡ true)
          × ((o : ℕ) → o ≢ offset → s'.valid_offsets o ≡ s.valid_offsets o)
          × Noted s')
unfolding register_displacement_inner Noted
register_displacement_inner-Noted offset s noted = elim (Bool-cases (leb valid_offset_sz offset)) [
  | inl big ↦ inl (rw big refl, ground arith)
  | inr fits ↦ elim (Bool-cases (s.valid_offsets offset)) [
    | inl old ↦ inr (s, rw (fits, old) refl, ground arith, old, λ o n. refl, noted)
    | inr new ↦ inr (
      record s {
        valid_offsets = λ i. if i == offset then true else s.valid_offsets i;
        modws_valid_offsets = λ i. if i == offset % 8 then true else s.modws_valid_offsets i;
      },
      rw (fits, new) refl,
      ground arith,
      ground arith,
      λ o n. ground arith,
      λ o l v. elim (Bool-cases (o == offset)) [
        | inl e ↦ let same : o ≡ offset = ground arith in rw same (ground arith)
        | inr n ↦ ground (arith, noted o l (rw n at v))
      ],
    )
  ]
]
