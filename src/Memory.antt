-- ===== src/Memory.antt =====
-- Memory as the collector's loops see it: a word at each byte address, and chains through the
-- link word that a free object starts with (`obj_link` of include/private/gc_priv.h).
use boehmgc.Base.{ℕ, ◌≡◌, List, [], ◌∷◌, ◌==◌, if◌then◌else◌, All}

abbrev pub Mem : Type 0
Mem = ℕ → ℕ

-- `*(word *)p = v`, or `obj_link(p) = v`.
unfoldable pub store : Mem → ℕ → ℕ → Mem
store m p v = λ a. if a == p then v else m a

-- From `p` the links lead through the objects `xs`, in this order, to `q`.
abbrev pub Links : Mem → ℕ → List ℕ → ℕ → Type 0
Links m p [] q = p ≡ q
Links m p (x ∷ xs) q = (p ≡ x) × Links m (m x) xs q

-- A chain survives writes that spare the link word of each of its objects.
pub Links-frame :
    (m m' : Mem) (p : ℕ) (xs : List ℕ) (q : ℕ)
    → All (λ x. m' x ≡ m x) xs
    → Links m p xs q
    → Links m' p xs q
Links-frame m m' p [] q same l = l
Links-frame m m' p (x ∷ xs) q same l = (l.0, Links-frame m m' (m' x) xs q same.1 (rw same.0 l.1))
