-- ===== src/Cord/Extra/Search.antt =====
-- CORD_chr finds the first occurrence of a character.
use boehmgc.Base.{
  ℕ, zero, suc, ◌+◌, ◌%◌, ◌<◌, ◌≡◌, ◌≢◌, refl, Bool, true, false, Option, none, some, List, [], ◌∷◌,
  arith, ◌==◌, if◌then◌else◌, length, get_elem?, drop, Bool-cases, inl, inr, ap, ◌∙◌, sym, subst,
  ==_iff,
}
use boehmgc.Cord.{Cord, len, ◌>>=◌}
use boehmgc.Cord.Spec.{text, IsRope}
use boehmgc.Cord.Iter.{run_chars, iter5}
use boehmgc.Cord.Iter.Laws.{iter5-text}
use boehmgc.Cord.Extra.{chr_proc, strchr, batched_chr_proc, chr}
use boehmgc.Cord.Extra.Fill.{same_batch}

-- The first `c` of a text at place `i` or later: none, or its place.
abbrev pub First : ℕ → List ℕ → ℕ → Option ℕ → Type 0
First c t i none = (j : ℕ) → get_elem? t (i + j) ≢ some c
First c t i (some p) =
    (k : ℕ) × (p ≡ i + k)
    × (get_elem? t p ≡ some c)
    × ((j : ℕ) → j < k → get_elem? t (i + j) ≢ some c)

no_nul : (c : ℕ) → 0 < c → (c == 0) ≡ false
no_nul c l = ground arith

some_inj : (a b : ℕ) → ◌≡◌ {A = Option ℕ} (some a) (some b) → a ≡ b
some_inj a b e = ap (λ (o : Option ℕ). elim o [ none ↦ a | some v ↦ v ]) e

-- The result of CORD_batched_chr_proc for what strchr gives.
occurrence : Option ℕ → ℕ → ℕ → Bool × ℕ
occurrence o pos n = elim o [ none ↦ (false, pos + n) | some occ ↦ (true, pos + occ) ]

later :
    (o : Option ℕ) (pos n : ℕ)
    → occurrence (o >>= λ i. some (i + 1)) pos (suc n) ≡ occurrence o (pos + 1) n
unfolding occurrence
later none pos n = let e : pos + suc n ≡ pos + 1 + n = omega arith in rw e refl
later (some occ) pos n = let e : pos + (occ + 1) ≡ pos + 1 + occ = omega arith in rw e refl

string_search :
    (c : ℕ) (t : List ℕ) (pos : ℕ)
    → 0 < c
    → occurrence (strchr t c) pos (length t) ≡ run_chars (chr_proc c) t pos
unfolding run_chars chr_proc strchr occurrence
string_search c [] pos l = let e : pos + 0 ≡ pos = omega arith in rw (no_nul c l, e) refl
string_search c (d ∷ t) pos l = elim (Bool-cases (d == c)) [
  | inr e ↦ rw e (later (strchr t c) pos (length t) ∙ string_search c t (pos + 1) l)
  | inl e ↦ let z : pos + 0 ≡ pos = omega arith in rw (e, z) refl
]

batched_chr_proc-chars :
    (c : ℕ) (t : List ℕ) (pos : ℕ) → 0 < c → batched_chr_proc c t pos ≡ run_chars (chr_proc c) t pos
unfolding batched_chr_proc occurrence
batched_chr_proc-chars c t pos l = string_search c t pos l

get_elem?-drop : (t : List ℕ) (i j : ℕ) → get_elem? (drop i t) j ≡ get_elem? t (i + j)
get_elem?-drop t zero j = let e : 0 + j ≡ j = omega arith in rw e refl
get_elem?-drop [] (suc i) j = refl
get_elem?-drop (c ∷ t) (suc i) j =
    let e : suc i + j ≡ suc (i + j) = omega arith in rw e (get_elem?-drop t i j)

-- What the iteration with CORD_chr_proc finds.
Runs : ℕ → List ℕ → ℕ → Bool × ℕ → Type 0
Runs c u pos (false, q) = (j : ℕ) → get_elem? u j ≢ some c
Runs c u pos (true, q) =
    (k : ℕ) × (q ≡ pos + k) × (get_elem? u k ≡ some c) × ((j : ℕ) → j < k → get_elem? u j ≢ some c)

not_here :
    (c d : ℕ) (u : List ℕ) (n : ℕ)
    → (d == c) ≡ false
    → ((j : ℕ) → j < n → get_elem? u j ≢ some c)
    → (j : ℕ) → j < suc n
    → get_elem? (d ∷ u) j ≢ some c
not_here c d u n e h zero l = λ f. let same = (==_iff d c).1 (some_inj d c f) in cc
not_here c d u n e h (suc j) l = h j (omega arith)

Runs-later :
    (c d : ℕ) (u : List ℕ) (pos : ℕ)
    → (d == c) ≡ false
    → (r : Bool × ℕ) → Runs c u (pos + 1) r
    → Runs c (d ∷ u) pos r
unfolding Runs
Runs-later c d u pos e (false, q) h = λ j. not_here c d u j e (λ j' l. h j') j (omega arith)
Runs-later c d u pos e (true, q) (k, at, here, before) =
    (suc k, omega arith, here, not_here c d u k e before)

chr_run : (c : ℕ) (u : List ℕ) (pos : ℕ) → Runs c u pos (run_chars (chr_proc c) u pos)
unfolding run_chars chr_proc Runs
chr_run c [] pos = λ j e. nothing e
  where
    nothing : ◌≢◌ {A = Option ℕ} none (some c)
    nothing = λ e. cc
chr_run c (d ∷ u) pos = elim (Bool-cases (d == c)) [
  | inl e ↦ rw e (0, omega arith, ap some ((==_iff d c).0 e), λ j l. absurd (omega arith))
  | inr e ↦
      rw e (Runs-later c d u pos e (run_chars (chr_proc c) u (pos + 1)) (chr_run c u (pos + 1)))
]

-- The iteration of CORD_chr for the character `c`.
abbrev found_at : Cord → ℕ → ℕ → Option (Option ℕ)
found_at x i c = iter5 (chr_proc c) (some (batched_chr_proc c)) x i i >>= λ (stop, pos).
    some (if stop then some pos else none)

search-First :
    (x : Cord) (i c : ℕ)
    → IsRope x
    → i < len x
    → 0 < c
    → (r : Option ℕ) × (found_at x i c ≡ some r) × First c (text x) i r
unfolding Runs
search-First x i c h l nul =
    let run =
      iter5-text (chr_proc c) (some (batched_chr_proc c))
        (same_batch (batched_chr_proc c) (chr_proc c) (λ t s. batched_chr_proc-chars c t s nul)) x i
        i h l in
    rw run (result (run_chars (chr_proc c) (drop i (text x)) i) (chr_run c (drop i (text x)) i))
  where
    result :
        (r : Bool × ℕ)
        → Runs c (drop i (text x)) i r
        → (o : Option ℕ) × (◌≡◌ {A = Option (Option ℕ)}
            (some (if r.0 then some r.1 else none))
            (some o))
          × First c (text x) i o
    result (false, q) f = (none, refl, λ j e. f j (get_elem?-drop (text x) i j ∙ e))
    result (true, q) (k, at, here, before) = (
      some q,
      refl,
      (
        k,
        at,
        (let e = sym at in
            subst (λ v. get_elem? (text x) v ≡ some c) e
              (sym (get_elem?-drop (text x) i k) ∙ here)),
        λ j m e. before j m (get_elem?-drop (text x) i j ∙ e),
      ),
    )

-- CORD_chr for an int `c` whose last byte, the character `(char)c`, is not NUL, from a place of a
-- well formed cord, gives the first occurrence of that character in the text at this place or later,
-- or CORD_NOT_FOUND if there is none.
pub chr-First :
    (x : Cord) (i c : ℕ)
    → IsRope x
    → i < len x
    → 0 < c % 256
    → (r : Option ℕ) × (chr x i c ≡ some r) × First (c % 256) (text x) i r
unfolding chr
chr-First x i c h l nul = search-First x i (c % 256) h l nul
