-- ===== src/ObjMap.antt =====
-- obj_map.c: the valid displacements of pointers into objects, and the maps from a displacement in a
-- block to the start of its object, in granules.
pub mod Displacements
pub mod Entries
mod Tests
use boehmgc.Base.{
  ℕ, zero, suc, ◌%◌, Bool, true, false, Option, none, some, ltb, leb, ◌==◌, if◌then◌else◌,
}

-- VALID_OFFSET_SZ
abbrev pub valid_offset_sz : ℕ
valid_offset_sz = 4096

-- OBJ_MAP_LEN
abbrev pub obj_map_len : ℕ
obj_map_len = 256

-- GC_valid_offsets and GC_modws_valid_offsets.
pub record Offsets : Type 0 where
  pub valid_offsets : ℕ → Bool
  pub modws_valid_offsets : ℕ → Bool

-- `none` is ABORT.
unfoldable pub register_displacement_inner : ℕ → Offsets → Option Offsets
register_displacement_inner offset s =
    if leb valid_offset_sz offset
    then none
    else if s.valid_offsets offset
    then some s
    else some (record s {
      valid_offsets = λ i. if i == offset then true else s.valid_offsets i;
      modws_valid_offsets = λ i. if i == offset % 8 then true else s.modws_valid_offsets i;
    })

unfoldable pub initialize_offsets : Bool → Offsets → Offsets
initialize_offsets all_interior_pointers s =
    if all_interior_pointers
    then record s { valid_offsets = λ i. if ltb i valid_offset_sz then true else s.valid_offsets i }
    else record s {
      valid_offsets = λ i. if ltb i valid_offset_sz then false else s.valid_offsets i;
      modws_valid_offsets = λ i. if ltb i 8 then false else s.modws_valid_offsets i;
    }

-- The first `n` rounds of the loop that fills a map.
pub fill_map : ℕ → ℕ → (ℕ → ℕ) → ℕ → ℕ
fill_map granules zero new_map = new_map
fill_map granules (suc n) new_map = λ displ.
    if displ == n
    then (if granules == 0 then 1 else n % granules)
    else fill_map granules n new_map displ

-- GC_obj_map, where `none` is NULL.
abbrev pub Maps : Type 0
Maps = ℕ → Option (ℕ → ℕ)

-- The size that a map stands for: 0 for large objects.
unfoldable pub map_index : ℕ → ℕ
map_index granules = if ltb 128 granules then 0 else granules

-- `scratch` is what GC_scratch_alloc returns: memory with any contents, or NULL.
unfoldable pub add_map_entry : Option (ℕ → ℕ) → ℕ → Maps → Bool × Maps
unfolding fill_map
add_map_entry scratch granules maps =
    let g = map_index granules in
    elim (maps g) [
      | some _ ↦ (true, maps)
      | none ↦ elim scratch [
        | none ↦ (false, maps)
        | some new_map ↦
            (true, λ i. if i == g then some (fill_map g obj_map_len new_map) else maps i)
      ]
    ]
