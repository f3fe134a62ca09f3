-- ===== src/Specific/Keys.antt =====
-- What a key holds for each thread, and what its cache may say.
use boehmgc.Base.{ℕ, ◌≡◌, ◌≢◌, refl, false, Option, none, some, inl}
use boehmgc.Specific.{Tse, Tsd, hash_of, created, key_create_inner}
use boehmgc.Specific.Chain.{Walk, Walk-unique}

abbrev pub head : Tsd → ℕ → ℕ
head s t = s.hash (hash_of t)

-- `t` has no entry.
pub record Lacks (s : Tsd) (t : ℕ) : Type 0 where
  pub steps : ℕ
  pub way : Walk s.tses t steps (head s t) 0

-- `e` is the only entry of `t`.
pub record Owns (s : Tsd) (t e : ℕ) : Type 0 where
  pub valid : e ≢ 0
  pub own : (s.tses e).thread ≡ t
  pub steps : ℕ
  pub way : Walk s.tses t steps (head s t) e
  pub rest : ℕ
  pub after : Walk s.tses t rest (s.tses e).next 0

abbrev pub Holds : Tsd → ℕ → Option ℕ → Type 0
Holds s t none = Lacks s t
Holds s t (some v) = (e : ℕ) × Owns s t e × ((s.tses e).value ≡ v)

-- A key stands for the table `m` of values of threads. An entry in the cache with a quick thread
-- identifier is the one of the thread that has the identifier.
pub record Rep (owner : ℕ → ℕ) (s : Tsd) (m : ℕ → Option ℕ) : Type 0 where
  pub holds : (t : ℕ) → Holds s t (m t)
  pub cached :
      (i : ℕ) → (s.tses (s.cache i)).qtid ≢ 0 → Owns s (owner (s.tses (s.cache i)).qtid) (s.cache i)

-- Nothing points to an entry that the allocator has just given.
pub record Fresh (s : Tsd) (p : ℕ) : Type 0 where
  pub valid : p ≢ 0
  pub cache : (i : ℕ) → s.cache i ≢ p
  pub hash : (i : ℕ) → s.hash i ≢ p
  pub tses : (a : ℕ) → (s.tses a).next ≢ p

pub Owns-unique : (s : Tsd) (t e e' : ℕ) → Owns s t e → Owns s t e' → e ≡ e'
Owns-unique s t e e' o o' = Walk-unique s.tses t o.steps o'.steps (head s t) e e' o.way o'.way

pub Owns-Lacks : (s : Tsd) (t e : ℕ) → Owns s t e → Lacks s t → ⊥
Owns-Lacks s t e o l = o.valid (Walk-unique s.tses t o.steps l.steps (head s t) e 0 o.way l.way)

-- A new key holds nothing.
pub key_create_inner-Rep :
    (owner : ℕ → ℕ) (invalid_tse : ℕ) (tses : ℕ → Tse)
    → (tses invalid_tse).qtid ≡ 0
    → (s : Tsd) × (key_create_inner false 0 invalid_tse tses ≡ created s) × Rep owner s (λ t. none)
unfolding key_create_inner
key_create_inner-Rep owner invalid_tse tses q = (
  record { cache = λ i. invalid_tse; hash = λ i. 0; tses = tses },
  refl,
  record {
    holds = λ t. record { steps = 0; way = (refl, inl refl) };
    cached = λ i d. absurd (d q);
  },
)
