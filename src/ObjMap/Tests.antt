-- ===== src/ObjMap/Tests.antt =====
-- The theorems on obj_map.c at fresh tables.
use boehmgc.Base.{ℕ, ◌≤◌, ◌<◌, ◌≡◌, ◌≢◌, ◌⊎◌, true, false, none, some}
use boehmgc.ObjMap.{
  valid_offset_sz, Offsets, Maps, register_displacement_inner, initialize_offsets, add_map_entry,
  map_index,
}
use boehmgc.ObjMap.Displacements.{
  Noted, initialize_offsets-Noted, register_displacement_inner-Noted,
}
use boehmgc.ObjMap.Entries.{IsMap, add_map_entry-IsMap}

abbrev start : Offsets
start =
    initialize_offsets false record { valid_offsets = λ _. false; modws_valid_offsets = λ _. false }

register_displacement_inner-Noted_example :
    ((register_displacement_inner 20 start ≡ none) × (valid_offset_sz ≤ 20))
    ⊎ ((s' : Offsets) × (register_displacement_inner 20 start ≡ some s')
        × (20 < valid_offset_sz)
        × (s'.valid_offsets 20 ≡ true)
        × ((o : ℕ) → o ≢ 20 → s'.valid_offsets o ≡ start.valid_offsets o)
        × Noted s')
register_displacement_inner-Noted_example = register_displacement_inner-Noted 20 start (
    initialize_offsets-Noted
      record { valid_offsets = λ _. false; modws_valid_offsets = λ _. false })

-- No map is there yet.
abbrev no_maps : Maps
no_maps _ = none

-- What the new memory holds.
abbrev old_words : ℕ → ℕ
old_words _ = 7

no_maps-IsMap : (g : ℕ) (m : ℕ → ℕ) → no_maps g ≡ some m → IsMap g m
no_maps-IsMap g m e = cc

add_map_entry-IsMap_example :
    ((g : ℕ) (m : ℕ → ℕ) → (add_map_entry (some old_words) 3 no_maps).1 g ≡ some m → IsMap g m)
    × (((add_map_entry (some old_words) 3 no_maps).0 ≡ false)
        → (some old_words ≡ none) × ((add_map_entry (some old_words) 3 no_maps).1 ≡ no_maps))
    × (((add_map_entry (some old_words) 3 no_maps).0 ≡ true)
        → (add_map_entry (some old_words) 3 no_maps).1 (map_index 3) ≢ none)
    × ((g : ℕ) → g ≢ map_index 3 → (add_map_entry (some old_words) 3 no_maps).1 g ≡ no_maps g)
add_map_entry-IsMap_example = add_map_entry-IsMap (some old_words) 3 no_maps no_maps-IsMap
