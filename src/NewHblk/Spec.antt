-- ===== src/NewHblk/Spec.antt =====
-- What a fresh free list is: every object of the block, the last one first, and then the old list.
use boehmgc.Base.{
  ℕ, zero, suc, ◌+◌, ◌*◌, ◌/◌, ◌≤◌, ◌<◌, ◌≡◌, refl, Bool, true, List, [], ◌∷◌, arith, All, All-mono,
  ◌∙◌, dec_lt,
}
use boehmgc.Memory.{Mem, Links, Links-frame}

-- The first `k` objects of `size` bytes from `h` on, the last one first.
abbrev pub objects : ℕ → ℕ → ℕ → List ℕ
objects h size zero = []
objects h size (suc k) = (h + k * size) ∷ objects h size k

pub objects-below : (h size k : ℕ) → 0 < size → All (λ x. x < h + k * size) (objects h size k)
objects-below h size zero pos = tt
objects-below h size (suc k) pos =
    (omega arith, All-mono (objects h size k) (λ x l. omega arith) (objects-below h size k pos))

-- The `k` first objects are chained from `head`, and are blank if they have to be.
pub record Grown (clear : Bool) (h size k ofl : ℕ) (m : Mem) (head : ℕ) : Type 0 where
  pub links : Links m head (objects h size k) ofl
  pub blank : clear ≡ true → (j i : ℕ) → j < k → 0 < i → 8 * i < size → m (h + j * size + 8 * i) ≡ 0

inside : (size j k i : ℕ) → j < k → 8 * i < size → j * size + 8 * i < k * size
inside size j k i h l = grind arith

-- One more object: its link is the old head, nothing below it changes.
pub Grown-next :
    (clear : Bool) (h size k ofl : ℕ) {m m' : Mem} {head : ℕ}
    → 0 < size
    → Grown clear h size k ofl m head
    → ((a : ℕ) → a < h + k * size → m' a ≡ m a)
    → m' (h + k * size) ≡ head
    → (clear ≡ true → (i : ℕ) → 0 < i → 8 * i < size → m' (h + k * size + 8 * i) ≡ 0)
    → Grown clear h size (suc k) ofl m' (h + k * size)
Grown-next clear h size k ofl {m} {m'} {head} pos g below link zeros = record {
  links = (
    refl,
    rw link (
        Links-frame m m' head (objects h size k) ofl
          (All-mono (objects h size k) below (objects-below h size k pos)) g.links),
  );
  blank = λ c j i lt p l. elim (dec_lt j k) [
    | yes before ↦ below _ (omega (arith, inside size j k i before l)) ∙ g.blank c j i before p l
    | no last ↦ let here : j ≡ k = omega arith in rw here (zeros c i p l)
  ];
}

-- `GC_build_fl` of this block gives this head and memory.
pub record Built (clear : Bool) (h size ofl : ℕ) (m : Mem) (head : ℕ) (m' : Mem) : Type 0 where
  pub grown : Grown clear h size (4096 / size) ofl m' head
  pub below : (a : ℕ) → a < h → m' a ≡ m a
  pub above : (a : ℕ) → h + 4096 ≤ a → m' a ≡ m a
