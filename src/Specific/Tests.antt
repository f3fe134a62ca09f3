-- ===== src/Specific/Tests.antt =====
-- The theorems on thread-specific data at a key with two threads whose hashes collide.
use boehmgc.Base.{
  ℕ, ◌<◌, ◌≤◌, ◌≡◌, ◌≢◌, refl, Option, none, some, arith, ◌==◌, Bool-cases, inl, inr, ◌⊎◌, update,
}
use boehmgc.Specific.{
  Tse, Tsd, hash_of, cache_hash, publish, enomem, setspecific, set_qtid, remember, search,
  slow_getspecific, getspecific, remove_specific_after_fork,
}
use boehmgc.Specific.Keys.{head, Rep, Fresh}
use boehmgc.Specific.Write.{publish-Rep, setspecific-Rep}
use boehmgc.Specific.Remove.{remove_specific_after_fork-Rep}
use boehmgc.Specific.Read.{getspecific-Rep}
use boehmgc.Specific.Race.{Run, Run-Answer}

abbrev cleared : ℕ → Tse
cleared a = record { qtid = 0; value = 0; next = 0; thread = 0 }

abbrev new_key : Tsd
new_key = record { cache = λ i. 8; hash = λ i. 0; tses = cleared }

collide : hash_of 7 ≡ hash_of 1027
unfolding hash_of
collide = refl

abbrev owner : ℕ → ℕ
owner q = 7

new_key-Rep : Rep owner new_key (λ t. none)
new_key-Rep = record {
  holds = λ t. record { steps = 0; way = (refl, inl refl) };
  cached = λ i d. absurd (d refl);
}

new_key-Fresh : (p : ℕ) → 8 < p → Fresh new_key p
new_key-Fresh p l = record {
  valid = λ e. absurd (omega arith);
  cache = λ i e. absurd (omega arith);
  hash = λ i e. absurd (omega arith);
  tses = λ a e. absurd (omega arith);
}

abbrev entry : ℕ
entry = 16

setspecific-Rep_example :
    ((entry ≡ 0) × (setspecific 7 100 entry new_key ≡ (enomem, new_key)))
    ⊎ ((entry ≢ 0)
        × (s' : Tsd) × (setspecific 7 100 entry new_key ≡ (0, s'))
        × Rep owner s' (update (λ t. none) 7 (some 100)))
setspecific-Rep_example =
    setspecific-Rep owner new_key (λ t. none) 7 100 entry new_key-Rep refl
      (inr (new_key-Fresh 16 (omega arith)))

abbrev one_value : Tsd
one_value = publish 7 100 16 new_key

one_value-Rep : Rep owner one_value (update (λ t. none) 7 (some 100))
one_value-Rep =
    publish-Rep new_key 7 100 16 (new_key-Fresh 16 (omega arith)) owner (λ t. none) new_key-Rep refl

one_value-Fresh : Fresh one_value 32
unfolding publish
one_value-Fresh = record {
  valid = λ e. absurd (omega arith);
  cache = λ i e. absurd (omega arith);
  hash = λ i. elim (Bool-cases (i == hash_of 7)) [
    | inl x ↦ rw x (λ e. absurd (omega arith))
    | inr x ↦ rw x (λ e. absurd (omega arith))
  ];
  tses = λ a. elim (Bool-cases (a == 16)) [
    | inl x ↦ rw x (λ e. absurd (omega arith))
    | inr x ↦ rw x (λ e. absurd (omega arith))
  ];
}

abbrev two_values : Tsd
two_values = publish 1027 200 32 one_value

abbrev both : ℕ → Option ℕ
both = update (update (λ t. none) 7 (some 100)) 1027 (some 200)

two_values-Rep : Rep owner two_values both
two_values-Rep =
    publish-Rep one_value 1027 200 32 one_value-Fresh owner (update (λ t. none) 7 (some 100))
      one_value-Rep refl

remove_specific_after_fork-Rep_example :
    (n : ℕ) × ((fuel : ℕ)
      → n < fuel
      → (s' : Tsd) × (remove_specific_after_fork fuel 7 two_values ≡ some s')
        × Rep owner s' (update both 7 none))
remove_specific_after_fork-Rep_example =
    remove_specific_after_fork-Rep owner two_values both 7 two_values-Rep

getspecific-Rep_example :
    (n : ℕ) × ((fuel : ℕ)
      → n < fuel
      → (s' : Tsd) × (getspecific fuel 7 5 two_values ≡ some (100, s')) × Rep owner s' both)
getspecific-Rep_example =
    getspecific-Rep owner two_values both 7 5 two_values-Rep (λ e. absurd (omega arith)) refl

Run-Answer_example :
    (k : ℕ) × ((n last : ℕ) (t : Tsd)
      → Run 7 n two_values (head two_values 7) t last
      → (n ≤ k)
        × (((last ≡ 0) ⊎ ((t.tses last).thread ≡ 7)) → (last ≢ 0) × ((t.tses last).value ≡ 100)))
Run-Answer_example = Run-Answer 7 two_values (some 100) (two_values-Rep.holds 7)

-- A thread that sets its value a second time after a read still reads the first one.
abbrev read_once : Tsd
read_once = record (set_qtid 16 5 one_value) { cache = update new_key.cache (cache_hash 5) 16 }

first_read : getspecific 2 7 5 one_value ≡ some (100, read_once)
unfolding getspecific slow_getspecific search remember publish hash_of set_qtid cache_hash
first_read = refl

second_read :
    getspecific 2 7 5 (publish 7 300 48 read_once) ≡ some (100, publish 7 300 48 read_once)
unfolding getspecific slow_getspecific search remember publish hash_of set_qtid cache_hash
second_read = refl
