-- ===== src/Specific.antt =====
-- specific.c and include/private/specific.h: thread-specific data by a hash table from threads to
-- entries, and a cache from quick thread identifiers to entries, which readers use without a lock.
-- An entry is its address, 0 is NULL, and a thread is its pthread_t. The allocator is an argument:
-- the address of the entry that MALLOC_CLEAR gives. The calls of the mutex succeed, but for
-- pthread_mutex_init, whose result is an argument. `none` is a loop that has used up its fuel.
pub mod Chain
pub mod Keys
pub mod Frame
pub mod Write
pub mod Find
pub mod Remove
pub mod Read
pub mod Race
mod Tests
use Prim.Native.Nat.{bit_xor}
use boehmgc.Base.{
  ℕ, zero, suc, ◌/◌, ◌%◌, Bool, Option, none, some, if◌then◌else◌, ◌==◌, ◌||◌, update,
}

pub record Tse : Type 0 where
  pub qtid : ℕ
  pub value : ℕ
  pub next : ℕ
  pub thread : ℕ

-- A key, with the entries in memory.
pub record Tsd : Type 0 where
  pub cache : ℕ → ℕ
  pub hash : ℕ → ℕ
  pub tses : ℕ → Tse

unfoldable pub hash_of : ℕ → ℕ
hash_of p = bit_xor (p / 256) p % 1024

unfoldable pub cache_hash : ℕ → ℕ
cache_hash n = bit_xor (n / 256) n % 1024

abbrev pub enomem : ℕ
enomem = 12

pub data KeyResult : Type 0 where
  created : Tsd → KeyResult
  failed : ℕ → KeyResult

unfoldable pub key_create_inner : Bool → ℕ → ℕ → (ℕ → Tse) → KeyResult
key_create_inner out_of_memory ret invalid_tse tses =
    if out_of_memory
    then failed enomem
    else if ret == 0
    then created (record { cache = λ i. invalid_tse; hash = λ i. 0; tses = tses })
    else failed ret

-- The new entry is filled in and stored at the head of its chain.
unfoldable pub publish : ℕ → ℕ → ℕ → Tsd → Tsd
publish self value entry key = record key {
  tses =
      update key.tses entry
        record { qtid = 0; value = value; next = key.hash (hash_of self); thread = self };
  hash = update key.hash (hash_of self) entry;
}

unfoldable pub setspecific : ℕ → ℕ → ℕ → Tsd → ℕ × Tsd
setspecific self value entry key =
    if entry == 0 then (enomem, key) else (0, publish self value entry key)

-- The loop of the removal: the entry of `t`, or NULL, with the one before it.
unfoldable pub find : ℕ → (ℕ → Tse) → ℕ → ℕ → ℕ → Option (ℕ × ℕ)
find t tses zero prev entry = none
find t tses (suc fuel) prev entry =
    let rest = find t tses fuel entry (tses entry).next in
    if entry == 0 || (tses entry).thread == t then some (prev, entry) else rest

-- `entry -> qtid = qtid`
unfoldable pub set_qtid : ℕ → ℕ → Tsd → Tsd
set_qtid entry qtid key = record key {
  tses = update key.tses entry (record (key.tses entry) { qtid = qtid });
}

-- The entry is taken off its chain.
unfoldable pub unlink : ℕ → ℕ → ℕ → Tsd → Tsd
unlink hash_val prev entry key =
    let next = (key.tses entry).next in
    if prev == 0
    then record key { hash = update key.hash hash_val next }
    else record key { tses = update key.tses prev (record (key.tses prev) { next = next }) }

unfoldable pub invalidate : ℕ → ℕ × ℕ → Tsd → Tsd
invalidate t (prev, entry) key =
    if entry == 0 then key else unlink (hash_of t) prev entry (set_qtid entry 0 key)

unfoldable pub remove_specific_after_fork : ℕ → ℕ → Tsd → Option Tsd
remove_specific_after_fork fuel t key = elim (find t key.tses fuel 0 (key.hash (hash_of t))) [
  | none ↦ none
  | some found ↦ some (invalidate t found key)
]

-- The loop of the slow path.
unfoldable pub search : ℕ → (ℕ → Tse) → ℕ → ℕ → Option ℕ
search self tses zero entry = none
search self tses (suc fuel) entry =
    let rest = search self tses fuel (tses entry).next in
    if entry == 0 || (tses entry).thread == self then some entry else rest

-- The value of the entry, which is put into the cache.
unfoldable pub remember : ℕ → ℕ → ℕ → Tsd → ℕ × Tsd
remember qtid index entry key =
    let with_qtid = set_qtid entry qtid key in
    if entry == 0
    then (0, key)
    else ((key.tses entry).value, record with_qtid { cache = update with_qtid.cache index entry })

unfoldable pub slow_getspecific : ℕ → ℕ → ℕ → ℕ → Tsd → Option (ℕ × Tsd)
slow_getspecific fuel self qtid index key =
    elim (search self key.tses fuel (key.hash (hash_of self))) [
      | none ↦ none
      | some entry ↦ some (remember qtid index entry key)
    ]

unfoldable pub getspecific : ℕ → ℕ → ℕ → Tsd → Option (ℕ × Tsd)
getspecific fuel self qtid key =
    let entry = key.tses (key.cache (cache_hash qtid)) in
    let slow = slow_getspecific fuel self qtid (cache_hash qtid) key in
    if entry.qtid == qtid then some (entry.value, key) else slow
