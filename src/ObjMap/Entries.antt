-- ===== src/ObjMap/Entries.antt =====
-- What the maps of GC_add_map_entry say.
use boehmgc.Base.{
  ℕ, zero, suc, ◌+◌, ◌*◌, ◌/◌, ◌%◌, ◌<◌, ◌≡◌, ◌≢◌, inl, inr, true, false, Option, none, some, arith,
  Bool-cases, Option-cases, ◌==◌, if◌then◌else◌, refl, subst,
}
use boehmgc.ObjMap.{obj_map_len, fill_map, Maps, map_index, add_map_entry}

-- In the map for `g` granules a displacement in a block has the distance to the start of its object;
-- in the map for large objects, 1.
pub IsMap : ℕ → (ℕ → ℕ) → Type 0
IsMap g m =
    (displ : ℕ)
    → displ < obj_map_len
    → (g ≡ 0 → m displ ≡ 1) × (g ≢ 0 → (displ ≡ g * (displ / g) + m displ) × (m displ < g))

fill_map-at :
    (g n : ℕ) (m : ℕ → ℕ) (displ : ℕ)
    → displ < n
    → fill_map g n m displ ≡ (if g == 0 then 1 else displ % g)
unfolding fill_map
fill_map-at g zero m displ l = absurd (omega arith)
fill_map-at g (suc n) m displ l = elim (Bool-cases (displ == n)) [
  | inl e ↦ let same : displ ≡ n = ground arith in rw (e, same) refl
  | inr o ↦ rw o (fill_map-at g n m displ (ground arith))
]

fill_map-IsMap : (g : ℕ) (m : ℕ → ℕ) → IsMap g (fill_map g obj_map_len m)
unfolding IsMap
fill_map-IsMap g m displ l =
    let at = fill_map-at g obj_map_len m displ l in
    (λ z. ground (arith, at), λ p. grind (arith, at))

-- GC_add_map_entry keeps every map correct. It returns FALSE only if there is no memory, and then
-- changes nothing; if it returns TRUE the map of the size is there. No other map changes.
pub add_map_entry-IsMap :
    (scratch : Option (ℕ → ℕ)) (granules : ℕ) (maps : Maps)
    → ((g : ℕ) (m : ℕ → ℕ) → maps g ≡ some m → IsMap g m)
    → ((g : ℕ) (m : ℕ → ℕ) → (add_map_entry scratch granules maps).1 g ≡ some m → IsMap g m)
      × (((add_map_entry scratch granules maps).0 ≡ false)
          → (scratch ≡ none) × ((add_map_entry scratch granules maps).1 ≡ maps))
      × (((add_map_entry scratch granules maps).0 ≡ true)
          → (add_map_entry scratch granules maps).1 (map_index granules) ≢ none)
      × ((g : ℕ) → g ≢ map_index granules → (add_map_entry scratch granules maps).1 g ≡ maps g)
unfolding add_map_entry
add_map_entry-IsMap none granules maps w = elim (Option-cases (maps (map_index granules))) [
  | inr (m, old) ↦ rw (add_map_entry, old) (w, λ f. cc, λ _ f. cc, λ g n. refl)
  | inl new ↦ rw (add_map_entry, new) (w, λ _. (refl, refl), λ f. cc, λ g n. refl)
]
add_map_entry-IsMap (some new_map) granules maps w =
    elim (Option-cases (maps (map_index granules))) [
      | inr (m, old) ↦ rw (add_map_entry, old) (w, λ f. cc, λ _ f. cc, λ g n. refl)
      | inl new ↦
          rw (add_map_entry, new)
            (
              λ g m e. elim (Bool-cases (g == map_index granules)) [
                | inl here ↦
                    let same : g ≡ map_index granules = ground arith in
                    let made : some (fill_map (map_index granules) obj_map_len new_map) ≡ some m =
                      rw here at e in
                    let made' : fill_map (map_index granules) obj_map_len new_map ≡ m = cc in
                    subst (λ t. IsMap g t) made'
                      (rw same (fill_map-IsMap (map_index granules) new_map))
                | inr out ↦ w g m (rw out at e)
              ],
              λ f. cc,
              λ _ f. ground arith,
              λ g n. ground arith,
            )
    ]
